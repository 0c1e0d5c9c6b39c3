-- ===== src/Load/Geometry.antt =====
-- `K3QMat` and `K3ExpertRef` of src/io/k3_load.h. Offsets, sizes and shapes are those of tensors
-- that the index has accepted, and are natural numbers.
use kimi_k3_for_me.Prelude.{ℕ, Bool}

pub record QMat : Type 0 where
  pub p_off : ℕ
  pub p_bytes : ℕ
  pub s_off : ℕ
  pub s_bytes : ℕ
  pub rows : ℕ
  pub pcols : ℕ
  pub scols : ℕ

pub record ExpertRef : Type 0 where
  pub layer : ℕ
  pub expert : ℕ
  pub shard : ℕ
  pub off : ℕ
  pub nbytes : ℕ
  pub contiguous : Bool
  pub m0 : QMat
  pub m1 : QMat
  pub m2 : QMat
