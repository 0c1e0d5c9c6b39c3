-- ===== src/Cache.antt =====
-- src/cache/k3_cache.c and k3_cache.h: the streaming expert cache.
mod Sample
mod Tests
pub mod State
pub mod Victim
pub mod Admit
pub mod Batch
pub mod Api
pub mod Pipe
pub mod Init
pub mod Profile
