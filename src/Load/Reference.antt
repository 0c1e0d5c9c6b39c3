-- ===== src/Load/Reference.antt =====
-- `k3_expert_ref` of src/io/k3_load.c. The casts to `int` are the identity on a shape below 2 ^ 31.
pub mod Placed
pub mod Laws
mod Tests
use kimi_k3_for_me.Prelude.{
  ℕ, ◌+◌, ◌-◌, ◌*◌, Bool, true, false, not, ◌&&◌, ◌||◌, List, [], ◌∷◌, Option, none, some, ltb,
  ◌==◌, if◌then◌else◌,
}
use kimi_k3_for_me.Index.Tensor.{Tensor, Dtype, u8}
use kimi_k3_for_me.Load.Geometry.{QMat, ExpertRef}

-- K3_MXFP4_GROUP.
abbrev pub group : ℕ
group = 32

abbrev pub is_u8 : Dtype → Bool
is_u8 u8 = true
is_u8 _ = false

-- The weights and the scales of one matrix: `pk[i]` and `sc[i]`.
pub record Pair : Type 0 where
  pub pk : Tensor
  pub sc : Tensor

-- `k3_st_find` of both names.
abbrev pub both : Option Tensor → Option Tensor → Option Pair
both none sc = none
both (some pk) none = none
both (some pk) (some sc) = some record { pk = pk; sc = sc }

-- The checks of one matrix, in the order of the code; `shard` is that of `pk[0]`.
unfoldable pub accepts : ℕ → Pair → Bool
accepts shard p =
    if not (is_u8 pk.dtype) || not (is_u8 sc.dtype)
    then false
    else (if not (pk.ndim == 2) || not (sc.ndim == 2)
        then false
        else (if not (pk.shape 0 == sc.shape 0)
            then false
            else (if not (sc.shape 1 * group == pk.shape 1 * 2)
                then false
                else (if not (pk.shard == sc.shard)
                    then false
                    else (if not (pk.shard == shard) then false else true)))))
  where
    open p use {pk, sc}

-- A matrix whose offsets are given.
abbrev pub placed : Pair → ℕ → ℕ → QMat
placed p p_off s_off = record {
  p_off = p_off;
  p_bytes = p.pk.nbytes;
  s_off = s_off;
  s_bytes = p.sc.nbytes;
  rows = p.pk.shape 0;
  pcols = p.pk.shape 1;
  scols = p.sc.shape 1;
}

-- `all[6]`, and the loop over it that finds `lo`, `hi` and `own`.
abbrev pub all_six : Pair → Pair → Pair → List Tensor
all_six a b c = a.pk ∷ a.sc ∷ b.pk ∷ b.sc ∷ c.pk ∷ c.sc ∷ []

unfoldable pub lowest : ℕ → List Tensor → ℕ
lowest lo [] = lo
lowest lo (t ∷ ts) = lowest (if ltb t.off lo then t.off else lo) ts

unfoldable pub highest : ℕ → List Tensor → ℕ
highest hi [] = hi
highest hi (t ∷ ts) = highest (if ltb hi (t.off + t.nbytes) then t.off + t.nbytes else hi) ts

unfoldable pub total : ℕ → List Tensor → ℕ
total own [] = own
total own (t ∷ ts) = total (own + t.nbytes) ts

-- The two ways to place the matrices: where they are in one run, or one after the other.
unfoldable pub arranged : ℕ → ℕ → Pair → Pair → Pair → Bool → ExpertRef
unfolding lowest total
arranged layer expert a b c one_run =
    let lo = lowest a.pk.off (all_six a b c) in
    record {
      layer = layer;
      expert = expert;
      shard = a.pk.shard;
      off = lo;
      nbytes = total 0 (all_six a b c);
      contiguous = one_run;
      m0 = if one_run then placed a (a.pk.off - lo) (a.sc.off - lo) else placed a 0 a.pk.nbytes;
      m1 =
          if one_run
          then placed b (b.pk.off - lo) (b.sc.off - lo)
          else placed b (a.pk.nbytes + a.sc.nbytes) (a.pk.nbytes + a.sc.nbytes + b.pk.nbytes);
      m2 =
          if one_run
          then placed c (c.pk.off - lo) (c.sc.off - lo)
          else placed c (a.pk.nbytes + a.sc.nbytes + b.pk.nbytes + b.sc.nbytes)
              (a.pk.nbytes + a.sc.nbytes + b.pk.nbytes + b.sc.nbytes + c.pk.nbytes);
    }

-- The end of `k3_expert_ref`: where the six tensors of accepted matrices lie.
unfoldable pub arrange : ℕ → ℕ → Pair → Pair → Pair → ExpertRef
unfolding arranged highest
arrange layer expert a b c =
    arranged layer expert a b c
      (highest 0 (all_six a b c) - lowest a.pk.off (all_six a b c) == total 0 (all_six a b c))

-- `find i scale` is `k3_st_find` of the name of matrix `i` (w1, w2, w3), packed weights or scales.
module _ (find : ℕ → Bool → Option Tensor) where
  -- One round of the loop over the matrices.
  unfoldable pub matrix : Option ℕ → ℕ → Option Pair
  unfolding accepts
  matrix shard i = elim (both (find i false) (find i true)) [
    | none ↦ none
    | some p ↦ if accepts (elim shard [ some s ↦ s | none ↦ p.pk.shard ]) p then some p else none
  ]

  unfoldable pub expert_ref : ℕ → ℕ → Option ExpertRef
  unfolding matrix arrange
  expert_ref layer expert = elim (matrix none 0) [
    | none ↦ none
    | some a ↦ elim (matrix (some a.pk.shard) 1) [
      | none ↦ none
      | some b ↦ elim (matrix (some a.pk.shard) 2) [
        | none ↦ none
        | some c ↦ some (arrange layer expert a b c)
      ]
    ]
  ]
