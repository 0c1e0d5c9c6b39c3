-- ===== src/Load.antt =====
-- src/io/k3_load.c and k3_load.h: where one routed expert lies in the checkpoint.
pub mod Geometry
pub mod Reference
pub mod Sample
pub mod Bytes
