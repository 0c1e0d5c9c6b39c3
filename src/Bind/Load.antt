-- ===== src/Bind/Load.antt =====
-- What `plan_load` of src/model/k3_bind.c writes: exactly the ranges that `plan_resolve` laid out.
use kimi_k3_for_me.Prelude.{
  ℕ, suc, ◌*◌, ◌≡◌, inl, inr, refl, sym, ap, ◌∙◌, Bool, true, false, List, [], ◌∷◌, map, Option,
  some, ◌==◌, if◌then◌else◌, arith, subst, All, length,
}
use kimi_k3_for_me.Prelude.Int.{ℤ, eq_pos}
use kimi_k3_for_me.Header.Rest.{chain, picked_if}
use kimi_k3_for_me.Index.Tensor.{Tensor, Dtype, unknown, u8, bf16, f16, f32, i8r, elemsize, numel}
use kimi_k3_for_me.Bind.Requests.{Weight, Sizes, layer_requests}
use kimi_k3_for_me.Bind.{is_bf16, Placed, room, Resolved, layer_layout, Write, load_one, plan_load}
use kimi_k3_for_me.Bind.Resolve.{IsLaid, region, IsStored}
use kimi_k3_for_me.Bind.Layout.{layer_layout-IsLayout}

length-map : {A B : Type 0} (f : A → B) (xs : List A) → length (map f xs) ≡ length xs
length-map f [] = refl
length-map f (x ∷ xs) = ap suc (length-map f xs)

-- The index gives a tensor the bytes of its shape and type.
abbrev pub IsSized : (Weight → Option Tensor) → Type 0
IsSized find = (w : Weight) (t : Tensor) → find w ≡ some t → t.nbytes ≡ numel t * elemsize t.dtype

is_bf16-elemsize : (d : Dtype) → is_bf16 d ≡ true → elemsize d ≡ 2
is_bf16-elemsize bf16 h = refl
is_bf16-elemsize unknown h = absurd cc
is_bf16-elemsize u8 h = absurd cc
is_bf16-elemsize f16 h = absurd cc
is_bf16-elemsize f32 h = absurd cc
is_bf16-elemsize i8r h = absurd cc

-- A write at the place of `q`, of as many bytes as it has room for.
write-region :
    (q : Placed) (n : ℕ) (w : Write)
    → n ≡ room q
    → some (record { off = q.off; bytes = n }) ≡ some w
    → w ≡ region q
write-region q n w e h =
    let first : record { off = q.off; bytes = n } ≡ w = cc (h) in
    sym first ∙ ap (λ b. record { off = q.off; bytes = b }) e

room-narrow : (q : Placed) → q.narrow ≡ true → room q ≡ q.req.take * 2
room-narrow q h = ap (λ (b : Bool). q.req.take * (if b then 2 else 4)) h

room-wide : (q : Placed) → q.narrow ≡ false → room q ≡ q.req.take * 4
room-wide q h = ap (λ (b : Bool). q.req.take * (if b then 2 else 4)) h

same_bytes : (a b : ℕ) → (if a == b then b else a) * 4 ≡ a * 4
same_bytes a b = ground arith

module _ (find : Weight → Option Tensor) (raw wide : Tensor → ℤ) where
  load_one-region :
      (q : Placed) (w : Write)
      → IsSized find
      → IsStored find q
      → load_one raw wide q ≡ some w
      → w ≡ region q
  unfolding load_one
  load_one-region q w sized s h = elim (picked_if q.narrow _ _ (some w) h) [
    | inl (narrow, g) ↦
        let (two, whole) = s.raw narrow in
        let bytes : q.tensor.nbytes ≡ q.req.take * 2 =
          sized q.req.weight q.tensor s.found
          ∙ ap (λ n. numel q.tensor * n) (is_bf16-elemsize q.tensor.dtype two)
          ∙ ap (λ n. n * 2) (sym whole) in
        elim (picked_if (eq_pos (raw q.tensor) q.tensor.nbytes) _ _ (some w) g) [
          | inl (read, e) ↦ write-region q q.tensor.nbytes w (bytes ∙ sym (room-narrow q narrow)) e
          | inr (short, e) ↦ absurd cc
        ]
    | inr (other, g) ↦ elim (picked_if (eq_pos (wide q.tensor) (numel q.tensor)) _ _ (some w) g) [
      | inl (read, e) ↦
          write-region q _ w (same_bytes q.req.take (numel q.tensor) ∙ sym (room-wide q other)) e
      | inr (short, e) ↦ absurd cc
    ]
  ]

  plan_load-regions :
      (qs : List Placed) (ws : List Write)
      → IsSized find
      → All (IsStored find) qs
      → plan_load raw wide qs ≡ some ws
      → ws ≡ map region qs
  unfolding plan_load
  plan_load-regions [] ws sized s h = cc (h)
  plan_load-regions (q ∷ qs) ws sized (s, rest) h =
      let (w, e, g) = chain (load_one raw wide q) _ ws h in
      let (more, e', g') = chain (plan_load raw wide qs) _ ws g in
      let first = load_one-region q w sized s e in
      let others = plan_load-regions qs more sized rest e' in
      let all : w ∷ more ≡ ws = cc (g') in
      sym all ∙ ap (λ x. x ∷ more) first ∙ ap (λ xs. region q ∷ xs) others

  -- What loads a layer writes one range for each thing that the plan asks for. The ranges are aligned
  -- and apart, and end within the bytes that `plan_resolve` returned, which is the size of the blob.
  -- The index is one where a tensor has the bytes of its shape and type.
  pub plan_load-IsLaid :
      (c : Sizes) (is_mla is_dense ok : Bool) (m : Resolved) (ws : List Write)
      → IsSized find
      → layer_layout find c is_mla is_dense ≡ some (m, ok)
      → plan_load raw wide m.placed ≡ some ws
      → (length ws ≡ length (layer_requests c ok is_mla is_dense)) × IsLaid 0 ws m.off
  plan_load-IsLaid c is_mla is_dense ok m ws sized h e =
      let l = layer_layout-IsLayout find c is_mla is_dense m ok h in
      let same = plan_load-regions m.placed ws sized l.stored e in
      (
        ap length same
            ∙ length-map region m.placed
            ∙ sym (length-map (λ (q : Placed). q.req) m.placed)
            ∙ ap length l.complete,
        subst (λ x. IsLaid 0 x m.off) (sym same) l.laid,
      )
