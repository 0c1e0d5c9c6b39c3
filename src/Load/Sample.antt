-- ===== src/Load/Sample.antt =====
-- Experts of three small matrices in the sample shard. Expert 2 has its second matrix elsewhere.
use kimi_k3_for_me.Prelude.{
  ℕ, zero, suc, ◌+◌, ◌*◌, ◌&&◌, Bool, [], Option, none, some, ltb, ◌==◌, if◌then◌else◌,
}
use kimi_k3_for_me.Index.Tensor.{Tensor, u8}

abbrev pub cols : Bool → ℕ → ℕ
cols scale zero = 1
cols scale (suc n) = if scale then 1 else 16

abbrev pub tensor : ℕ → ℕ → Bool → Tensor
tensor e i scale = record {
  name = [];
  shard = 0;
  dtype = u8;
  ndim = 2;
  shape = cols scale;
  off =
      1000
      + 51 * e
      + 17 * i
      + (if scale then 16 else 0)
      + (if (e == 2) && (i == 1) then 300 else 0);
  nbytes = cols scale 1;
}

-- Layer 0 has three experts, and expert 3 has no third matrix.
abbrev pub look : ℕ → ℕ → ℕ → Bool → Option Tensor
look l e i scale = if ltb l 1 && (ltb e 4 && ltb (e + i) 5) then some (tensor e i scale) else none
