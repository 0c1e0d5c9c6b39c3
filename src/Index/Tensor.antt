-- ===== src/Index/Tensor.antt =====
-- `K3Tensor` and `K3Dtype` of src/io/k3_st.h, with `k3_st_numel` and `k3_st_elemsize` of k3_st.c.
-- A negative extent is refused by every read, and a dimension is one of a header; both are natural.
-- The number of elements is within `int64_t`; Header has the scan, where it may not be.
use kimi_k3_for_me.Prelude.{ℕ, zero, suc, ◌*◌, List, ◌==◌, if◌then◌else◌}

pub data Dtype : Type 0 where
  unknown u8 bf16 f16 f32 i8r : Dtype

pub record Tensor : Type 0 where
  pub name : List ℕ
  pub shard : ℕ
  pub dtype : Dtype
  pub ndim : ℕ
  pub shape : ℕ → ℕ
  pub off : ℕ
  pub nbytes : ℕ

abbrev pub elemsize : Dtype → ℕ
elemsize u8 = 1
elemsize bf16 = 2
elemsize f16 = 2
elemsize f32 = 4
elemsize unknown = 0
elemsize i8r = 0

-- The product of the first dimensions.
abbrev pub dims : (ℕ → ℕ) → ℕ → ℕ
dims shape zero = 1
dims shape (suc n) = dims shape n * shape n

abbrev pub numel : Tensor → ℕ
numel t = if t.ndim == 0 then 1 else dims t.shape t.ndim
