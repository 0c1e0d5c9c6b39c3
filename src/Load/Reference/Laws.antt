-- ===== src/Load/Reference/Laws.antt =====
-- `k3_expert_ref` (src/io/k3_load.c): an accepted expert lies inside its run.
use kimi_k3_for_me.Prelude.{
  ℕ, ◌*◌, ◌≡◌, refl, Bool, true, false, Option, none, some, arith, Option-cases, Bool-cases, subst,
  sym, ap, ◌∙◌, inl, inr,
}
use kimi_k3_for_me.Index.Tensor.{Tensor, Dtype, u8}
use kimi_k3_for_me.Load.Geometry.{ExpertRef}
use kimi_k3_for_me.Load.Reference.{
  Pair, group, is_u8, both, accepts, arranged, arrange, matrix, expert_ref,
}
use kimi_k3_for_me.Load.Reference.Placed.{IsPlaced, arrange-ArePlaced}

-- What the checks of one matrix establish.
pub record IsShaped (shard : ℕ) (p : Pair) : Type 0 where
  pub packed : p.pk.dtype ≡ u8
  pub scales : p.sc.dtype ≡ u8
  pub planes : (p.pk.ndim ≡ 2) × (p.sc.ndim ≡ 2)
  pub rows : p.pk.shape 0 ≡ p.sc.shape 0
  pub groups : p.sc.shape 1 * group ≡ p.pk.shape 1 * 2
  pub together : (p.pk.shard ≡ shard) × (p.sc.shard ≡ shard)

is_u8→eq : (d : Dtype) → is_u8 d ≡ true → d ≡ u8
is_u8→eq Dtype.u8 h = refl
is_u8→eq Dtype.unknown h = absurd cc
is_u8→eq Dtype.bf16 h = absurd cc
is_u8→eq Dtype.f16 h = absurd cc
is_u8→eq Dtype.f32 h = absurd cc
is_u8→eq Dtype.i8r h = absurd cc

accepts-IsShaped : (shard : ℕ) (p : Pair) → accepts shard p ≡ true → IsShaped shard p
unfolding accepts
accepts-IsShaped shard p h = record {
  packed = is_u8→eq p.pk.dtype (ground arith);
  scales = is_u8→eq p.sc.dtype (ground arith);
  planes = (ground arith, ground arith);
  rows = ground arith;
  groups = ground arith;
  together = (ground arith, ground arith);
}

module _ (find : ℕ → Bool → Option Tensor) where
  -- Matrix `i` as the index has it.
  pub record IsMatrix (i : ℕ) (p : Pair) : Type 0 where
    pub found_pk : find i false ≡ some p.pk
    pub found_sc : find i true ≡ some p.sc

  both-some :
      (x y : Option Tensor) (p : Pair) → both x y ≡ some p → (x ≡ some p.pk) × (y ≡ some p.sc)
  both-some none y p h = absurd cc
  both-some (some x) none p h = absurd cc
  both-some (some x) (some y) p h = (cc (h), cc (h))

  abbrev shard_of : Option ℕ → Pair → ℕ
  shard_of shard p = elim shard [ some s ↦ s | none ↦ p.pk.shard ]

  matrix-IsMatrix :
      (shard : Option ℕ) (i : ℕ) (p : Pair)
      → matrix find shard i ≡ some p
      → IsMatrix i p × IsShaped (shard_of shard p) p
  unfolding matrix
  matrix-IsMatrix shard i p h = elim (Option-cases (both (find i false) (find i true))) [
    | inl e ↦ absurd ground arith
    | inr (x, e) ↦ elim (Bool-cases (accepts (shard_of shard x) x)) [
      | inr bad ↦ absurd ground arith
      | inl good ↦
          let same : x ≡ p = ground arith in
          let (f, g) = both-some (find i false) (find i true) p (e ∙ ap some same) in
          (
            record { found_pk = f; found_sc = g },
            subst (λ y. IsShaped (shard_of shard y) y) same
                (accepts-IsShaped (shard_of shard x) x good),
          )
    ]
  ]

  -- What a reference of an expert is.
  pub record IsReference (layer expert : ℕ) (r : ExpertRef) (a b c : Pair) : Type 0 where
    pub found : IsMatrix 0 a × IsMatrix 1 b × IsMatrix 2 c
    pub shaped : IsShaped r.shard a × IsShaped r.shard b × IsShaped r.shard c
    pub placed : IsPlaced r a r.m0 × IsPlaced r b r.m1 × IsPlaced r c r.m2
    pub is : r ≡ arrange layer expert a b c

  pub arrange-IsReference :
      (layer expert : ℕ) (a b c : Pair)
      → IsMatrix 0 a × IsShaped a.pk.shard a
      → IsMatrix 1 b × IsShaped a.pk.shard b
      → IsMatrix 2 c × IsShaped a.pk.shard c
      → IsReference layer expert (arrange layer expert a b c) a b c
  unfolding arrange arranged
  arrange-IsReference layer expert a b c x y z = record {
    found = (x.0, y.0, z.0);
    shaped = (x.1, y.1, z.1);
    placed = arrange-ArePlaced layer expert a b c;
    is = refl;
  }

  -- `k3_expert_ref` accepts an expert only if all six of its tensors are in the index, are two
  -- dimensional and U8, have a scale for each group of 32 weights and lie in one shard. Then each
  -- of the six ranges is inside the expert's bytes, and if the expert is one run of the shard, each
  -- range is where the tensor is.
  pub expert_ref-IsReference :
      (layer expert : ℕ) (r : ExpertRef)
      → expert_ref find layer expert ≡ some r
      → (a : Pair) × (b : Pair) × (c : Pair) × IsReference layer expert r a b c
  unfolding expert_ref
  expert_ref-IsReference layer expert r h = elim (Option-cases (matrix find none 0)) [
    | inl e ↦ absurd ground arith
    | inr (a, ea) ↦ elim (Option-cases (matrix find (some a.pk.shard) 1)) [
      | inl e ↦ absurd ground arith
      | inr (b, eb) ↦ elim (Option-cases (matrix find (some a.pk.shard) 2)) [
        | inl e ↦ absurd ground arith
        | inr (c, ec) ↦
            let same : arrange layer expert a b c ≡ r = ground arith in
            (
              a,
              b,
              c,
              subst (λ x. IsReference layer expert x a b c) same
                  (arrange-IsReference layer expert a b c (matrix-IsMatrix none 0 a ea)
                    (matrix-IsMatrix (some a.pk.shard) 1 b eb)
                    (matrix-IsMatrix (some a.pk.shard) 2 c ec)),
            )
      ]
    ]
  ]

-- The reference of an expert that is not one run places its tensors one after the other.
pub scattered :
    (find : ℕ → Bool → Option Tensor) (layer expert : ℕ) (r : ExpertRef) (a b c : Pair)
    → IsReference find layer expert r a b c
    → r.contiguous ≡ false
    → r ≡ arranged layer expert a b c false
unfolding arrange arranged
scattered find layer expert r a b c ref h =
    ref.is ∙ ap (arranged layer expert a b c) (sym (ap (λ x. x.contiguous) ref.is) ∙ h)
