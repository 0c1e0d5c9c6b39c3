-- ===== src/Load/Bytes.antt =====
-- `k3_expert_load` and `k3_expert_load_direct` of src/io/k3_load.c.
pub mod Laws
pub mod Sound
mod Tests
use kimi_k3_for_me.Prelude.{
  ℕ, ◌+◌, ◌-◌, Bool, true, false, List, [], ◌∷◌, Option, none, some, leb, if◌then◌else◌,
}
use kimi_k3_for_me.Prelude.Int.{pos}
use kimi_k3_for_me.Index.Tensor.{Tensor}
use kimi_k3_for_me.Read.{Store, Media, Reply, read_tensor, read_aligned}
use kimi_k3_for_me.Load.Geometry.{QMat, ExpertRef}
use kimi_k3_for_me.Load.Reference.{Pair, both}
use kimi_k3_for_me.Cache.State.{Loaded}

-- What is left of a buffer behind `at` once a read into `buf + at` has left `out` there.
abbrev pub embed : (ℕ → ℕ) → ℕ → (ℕ → ℕ) → ℕ → ℕ
embed buf at out i = if leb at i then out (i - at) else buf i

-- The caller's `pad`, which is 0 where the read stores none.
abbrev pub pad_of : Option ℕ → ℕ
pad_of none = 0
pad_of (some p) = p

module _ (s : Store) (m : Media) where
  -- `k3_st_read(s, t, buf + at)`.
  unfoldable pub read_into : Tensor → ℕ → (ℕ → ℕ) → ℕ × (ℕ → ℕ)
  unfolding read_tensor
  read_into t at buf =
      let x = read_tensor s m (pos t.shard) (pos t.off) (pos t.nbytes) (λ i. buf (at + i)) in
      (x.got, embed buf at x.buf)

  -- The loop over the matrices from `i` on, for an expert whose tensors `find` looks up.
  unfoldable pub load_matrices :
      (ℕ → Bool → Option Tensor) → ℕ → List QMat → ℕ → (ℕ → ℕ) → ℕ × (ℕ → ℕ)
  unfolding read_into
  load_matrices find i [] got buf = (got, buf)
  load_matrices find i (q ∷ qs) got buf = elim (both (find i false) (find i true)) [
    | none ↦ (got, buf)
    | some p ↦
        let (g, b) = read_into p.pk q.p_off buf in
        let (h, d) = read_into p.sc q.s_off b in load_matrices find (i + 1) qs (got + g + h) d
  ]

  -- `find l e i scale` is `k3_st_find` of a tensor of expert `e` of layer `l`.
  module _ (find : ℕ → ℕ → ℕ → Bool → Option Tensor) where
    unfoldable pub expert_load : ExpertRef → (ℕ → ℕ) → ℕ × (ℕ → ℕ)
    unfolding read_tensor load_matrices
    expert_load r buf =
        if r.contiguous
        then (let x = read_tensor s m (pos r.shard) (pos r.off) (pos r.nbytes) buf in
            (x.got, x.buf))
        else load_matrices (find r.layer r.expert) 0 (r.m0 ∷ r.m1 ∷ r.m2 ∷ []) 0 buf

    unfoldable pub load_direct : ℕ → (ℕ → ℕ) → ExpertRef → Loaded (ℕ → ℕ)
    unfolding expert_load read_aligned
    load_direct bufcap buf r =
        if r.contiguous
        then (let x = read_aligned s m (pos r.shard) (pos r.off) (pos r.nbytes) bufcap buf in
            record { got = pos x.got; pad = pad_of x.pad; bytes = x.buf })
        else (let (got, out) = expert_load r buf in record { got = pos got; pad = 0; bytes = out })
