-- ===== src/Bind/Memory/Tags.antt =====
-- The tag of a layer that `k3_bind_layer_mem` of src/model/k3_bind.c binds.
use kimi_k3_for_me.Prelude.{
  ℕ, ◌+◌, ◌-◌, ◌*◌, ◌/◌, ◌%◌, ◌≡◌, ◌⊎◌, inl, inr, refl, sym, ap, ◌∙◌, Bool, true, false, not, ◌&&◌,
  ◌||◌, List, [], ◌∷◌, Option, some, ltb, ◌==◌, Bool-cases, All,
}
use kimi_k3_for_me.Header.Rest.{chain, picked_if}
use kimi_k3_for_me.Bind.Requests.{Weight, Req}
use kimi_k3_for_me.Bind.{align8, is_bf16}
use kimi_k3_for_me.Bind.Memory.{
  Extent, is_f32, is_i8r, stored_size, Dest, run, widen, dequantised, Mem, bind_at, bind_copy,
  bind_rows, bind_plain, bind_one, bind_all,
}
use kimi_k3_for_me.Bind.Memory.Sources.{IsNative}

module _ (find : Weight → Option Extent) (cap : ℕ) where
  bind_copy-i8_seen :
      (q : Req) (to : ℕ → Dest) (m m' : Mem)
      → bind_copy cap q to m ≡ some m'
      → m'.i8_seen ≡ m.i8_seen
  unfolding bind_copy
  bind_copy-i8_seen q to m m' h =
      elim (picked_if (ltb cap (align8 m.used + q.take * 4)) _ _ (some m') h) [
        | inl (full, g) ↦ absurd cc
        | inr (fits, g) ↦
            let same : record (bind_at q.weight (to (align8 m.used)) m) {
              used = align8 m.used + q.take * 4;
            }
                ≡ m' =
              cc (g) in
            ap (λ (x : Mem). x.i8_seen) (sym same)
      ]

  bind_rows-i8_seen :
      (q : Req) (e : Extent) (m m' : Mem)
      → q.narrow ≡ false
      → bind_rows cap q e m ≡ some m'
      → m'.i8_seen ≡ m.i8_seen
  unfolding bind_rows
  bind_rows-i8_seen q e m m' wide h =
      let rows = (e.nbytes - q.take) / 4 in
      elim (picked_if q.narrow _ _ (some m') h) [
        | inl (narrow, g) ↦ absurd cc
        | inr (other, g) ↦
            elim (picked_if (ltb e.nbytes q.take || not ((e.nbytes - q.take) % 4 == 0)) _ _
              (some m') g) [
                | inl (bad, g') ↦ absurd cc
                | inr (good, g') ↦
                    elim (picked_if (rows == 0 || not (q.take % rows == 0)) _ _ (some m') g') [
                      | inl (odd, r) ↦ absurd cc
                      | inr (even, r) ↦
                          bind_copy-i8_seen q (λ w. dequantised w rows (q.take / rows)) m m' r
                    ]
              ]
      ]

  bind_plain-i8_seen :
      (q : Req) (e : Extent) (m m' : Mem) → bind_plain cap q e m ≡ some m' → m'.i8_seen ≡ m.i8_seen
  unfolding bind_plain
  bind_plain-i8_seen q e m m' h =
      let have = e.nbytes / stored_size e.dtype in
      let here = bind_at q.weight (run e.off) m in
      elim (picked_if (not (have == q.want)) _ _ (some m') h) [
        | inl (other, r) ↦ absurd cc
        | inr (equal, r) ↦ elim (picked_if (ltb have q.take) _ _ (some m') r) [
          | inl (long, r') ↦ absurd cc
          | inr (fits, r') ↦ elim (picked_if (q.narrow && is_bf16 e.dtype) _ _ (some m') r') [
            | inl (raw, s) ↦ let same : here ≡ m' = cc (s) in ap (λ (x : Mem). x.i8_seen) (sym same)
            | inr (copied, s) ↦ elim (picked_if (is_f32 e.dtype) _ _ (some m') s) [
              | inl (float, t) ↦
                  let same : record here { narrowed_all = m.narrowed_all && not q.narrow } ≡ m' =
                    cc (t) in
                  ap (λ (x : Mem). x.i8_seen) (sym same)
              | inr (short, t) ↦ elim (picked_if (is_bf16 e.dtype) _ _ (some m') t) [
                | inl (b, t') ↦ bind_copy-i8_seen q (λ w. widen w q.take) m m' t'
                | inr (odd, t') ↦ absurd cc
              ]
            ]
          ]
        ]
      ]

  -- No matrix is int8.
  abbrev pub IsFloat : Req → Type 0
  IsFloat q = (e : Extent) → find q.weight ≡ some e → q.narrow ≡ true → is_i8r e.dtype ≡ false

  -- A matrix is int8.
  abbrev pub IsInt8 : Req → Type 0
  IsInt8 q = (e : Extent) → find q.weight ≡ some e → q.narrow ≡ true → is_i8r e.dtype ≡ true

  bind_all-i8_seen :
      (qs : List Req) (m m' : Mem)
      → All IsFloat qs
      → bind_all find cap qs m ≡ some m'
      → m'.i8_seen ≡ m.i8_seen
  unfolding bind_all bind_one
  bind_all-i8_seen [] m m' p h =
      let same : m ≡ m' = cc (h) in ap (λ (x : Mem). x.i8_seen) (sym same)
  bind_all-i8_seen (q ∷ qs) m m' (p, ps) h =
      let (x, e, r) = chain (bind_one find cap q m) _ m' h in
      let (t, f, g) = chain (find q.weight) _ x e in
      bind_all-i8_seen qs x m' ps r ∙ elim (picked_if (is_i8r t.dtype) _ _ (some x) g) [
        | inl (i8, s) ↦ bind_rows-i8_seen q t m x (wide q t f i8 p) s
        | inr (plain, s) ↦ bind_plain-i8_seen q t m x s
      ]
    where
      wide :
          (q : Req) (t : Extent)
          → find q.weight ≡ some t
          → is_i8r t.dtype ≡ true
          → IsFloat q
          → q.narrow ≡ false
      wide q t f i8 p = elim (Bool-cases q.narrow) [
        | inr other ↦ other
        | inl narrow ↦ let float = p t f narrow in absurd cc
      ]

  -- What the kernels read a matrix as: rows of int8 under the tag K3_WI8, and BF16 under K3_WBF16.
  abbrev pub IsTagged : Bool → Req → Type 0
  IsTagged true = IsInt8
  IsTagged false = IsNative find

  pub bind_all-IsTagged :
      (qs : List Req) (x : Mem) (i8 : Bool)
      → All IsFloat qs ⊎ All IsInt8 qs
      → bind_all find cap qs (record { bound = []; used = 0; narrowed_all = true; i8_seen = false })
        ≡ some x
      → (i8 ≡ false → All (IsNative find) qs)
      → x.i8_seen ≡ i8
      → All (IsTagged i8) qs
  bind_all-IsTagged qs x false kind e native tag = native refl
  bind_all-IsTagged qs x true (inr all) e native tag = all
  bind_all-IsTagged qs x true (inl none_is) e native tag =
      let calm =
        bind_all-i8_seen qs (record { bound = []; used = 0; narrowed_all = true; i8_seen = false })
          x none_is e in
      absurd cc (calm, tag)
