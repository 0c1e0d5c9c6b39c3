-- ===== src/Header/Bounds.antt =====
-- What `scan_shard` (src/io/k3_st.c) promises of the tensors that it accepts.
use kimi_k3_for_me.Prelude.{
  ℕ, zero, suc, ◌+◌, ◌-◌, ◌≤◌, ◌≡◌, ◌⊎◌, inl, inr, refl, sym, ◌∙◌, Bool, true, false, List, [],
  Option, none, some, ◌==◌, length, arith, subst, All,
}
use kimi_k3_for_me.Prelude.Arrays.{update}
use kimi_k3_for_me.Prelude.Int64.{int64}
use kimi_k3_for_me.Prelude.Int.{pos, ◌+ℤ◌, ◌-ℤ◌, ◌*ℤ◌, eq_ℤ, ltb_ℤ, eq_ℤ→eq}
use kimi_k3_for_me.Index.{same}
use kimi_k3_for_me.Index.Tensor.{Dtype, elemsize}
use kimi_k3_for_me.Header.{lit, str_, i64_, skip_value}
use kimi_k3_for_me.Header.Entry.{
  Scanned, Fields, c_string, dtype_key, shape_key, offsets_key, metadata_key, dtype_of, is_unknown,
  dims_from, read_dtype, read_shape, read_offsets, read_other, read_value, read_field, separated,
  read_fields, product, close_entry, no_fields, read_entry,
}
use kimi_k3_for_me.Header.Shard.{
  read_member, push, read_members, read_object, is_impossible, little_endian, scan_shard,
}
use kimi_k3_for_me.Header.Extent.{is_refused, inside_lem}
use kimi_k3_for_me.Header.Rest.{chain, branch, picked_if}

-- A tensor of a file of `fsize` bytes: a rank that `shape` has room for, a known type, the size that
-- the shape and the type say in `int64_t`, and an end inside the file, unless reads refuse it.
pub record IsSized (fsize : ℕ) (t : Scanned) : Type 0 where
  pub rank : t.ndim ≤ 4
  pub known : is_unknown t.dtype ≡ false
  pub size : t.nbytes ≡ int64 (product t.shape t.ndim *ℤ pos (elemsize t.dtype))
  pub inside : (is_refused t.off t.nbytes ≡ true) ⊎ (ltb_ℤ (pos fsize) (t.off +ℤ t.nbytes) ≡ false)

-- What the fields keep.
abbrev IsBounded : Fields → Type 0
IsBounded f = (f.ndim ≤ 4) × ((d : Dtype) → f.dtype ≡ some d → is_unknown d ≡ false)

dims_from-IsBounded :
    (left : ℕ) (f : Fields) (s : List ℕ) (g : Fields) (t : List ℕ)
    → dims_from left f s ≡ some (g, t)
    → (g.ndim ≤ f.ndim + left) × (g.dtype ≡ f.dtype)
unfolding dims_from
dims_from-IsBounded zero f s g t h = absurd cc
dims_from-IsBounded (suc n) f s g t h =
    let ((d, u), e, q) = chain (i64_ s) _ (g, t) h in
    let f' = record f { ndim = f.ndim + 1; shape = update f.shape f.ndim d } in
    elim (branch (lit 44 u) _ _ _ q) [
      | inl (v, more, r) ↦ let (a, b) = dims_from-IsBounded n f' v g t r in (omega (arith, a), b)
      | inr (no_more, r) ↦
          let (v, close, r') = chain (lit 93 u) _ (g, t) r in
          let same : f' ≡ g = cc (r') in rw (sym same) (omega arith, refl)
    ]

module _ (f : Fields) (b : IsBounded f) (s : List ℕ) (g : Fields) (t : List ℕ) where
  read_dtype-IsBounded : read_dtype f s ≡ some (g, t) → IsBounded g
  unfolding read_dtype
  read_dtype-IsBounded h =
      let ((v, u), e, q) = chain (str_ 32 s) _ (g, t) h in
      elim (picked_if (is_unknown (dtype_of v)) _ _ _ q) [
        | inl (bad, r) ↦ absurd cc
        | inr (good, r) ↦
            let same : record f { dtype = some (dtype_of v) } ≡ g = cc (r) in
            rw (sym same) (b.0, λ d p. let here : dtype_of v ≡ d = cc (p) in rw (sym here) good)
      ]

  read_shape-IsBounded : read_shape f s ≡ some (g, t) → IsBounded g
  unfolding read_shape
  read_shape-IsBounded h =
      let (u, e, q) = chain (lit 91 s) _ (g, t) h in
      elim (branch (lit 93 u) _ _ _ q) [
        | inl (v, close, r) ↦ let same : f ≡ g = cc (r) in rw (sym same) b
        | inr (more, r) ↦
            let (n, d) = dims_from-IsBounded (4 - f.ndim) f u g t r in
            (omega (arith, n, b.0), λ x p. b.1 x (sym d ∙ p))
      ]

  read_offsets-IsBounded : read_offsets f s ≡ some (g, t) → IsBounded g
  unfolding read_offsets
  read_offsets-IsBounded h =
      let (t0, e0, q0) = chain (lit 91 s) _ (g, t) h in
      let ((x, t1), e1, q1) = chain (i64_ t0) _ (g, t) q0 in
      let (t2, e2, q2) = chain (lit 44 t1) _ (g, t) q1 in
      let ((y, t3), e3, q3) = chain (i64_ t2) _ (g, t) q2 in
      let (t4, e4, q4) = chain (lit 93 t3) _ (g, t) q3 in
      let same : record f { span = some (x, y) } ≡ g = cc (q4) in rw (sym same) (b.0, b.1)

  read_other-IsBounded : read_other f s ≡ some (g, t) → IsBounded g
  unfolding read_other
  read_other-IsBounded h =
      let (u, e, q) = chain (skip_value s) _ (g, t) h in
      let same : f ≡ g = cc (q) in rw (sym same) b

  read_value-IsBounded : (key : List ℕ) → read_value key f s ≡ some (g, t) → IsBounded g
  unfolding read_value
  read_value-IsBounded key h = elim (picked_if (same (c_string key) dtype_key) _ _ _ h) [
    | inl (_, q) ↦ read_dtype-IsBounded q
    | inr (_, q) ↦ elim (picked_if (same (c_string key) shape_key) _ _ _ q) [
      | inl (_, r) ↦ read_shape-IsBounded r
      | inr (_, r) ↦ elim (picked_if (same (c_string key) offsets_key) _ _ _ r) [
        | inl (_, r') ↦ read_offsets-IsBounded r'
        | inr (_, r') ↦ read_other-IsBounded r'
      ]
    ]
  ]

read_fields-IsBounded :
    (n : ℕ) (first : Bool) (f : Fields) (s : List ℕ) (g : Fields) (t : List ℕ)
    → IsBounded f
    → read_fields n first f s ≡ some (g, t)
    → IsBounded g
unfolding read_fields read_field
read_fields-IsBounded zero first f s g t b h = absurd cc
read_fields-IsBounded (suc n) first f s g t b h = elim (branch (lit 125 s) _ _ _ h) [
  | inl (u, close, q) ↦ let same : f ≡ g = cc (q) in rw (sym same) b
  | inr (more, q) ↦
      let (u, e, q') = chain (separated first s) _ (g, t) q in
      let ((f', v), e', r) = chain (read_field f u) _ (g, t) q' in
      let ((key, w), e2, r2) = chain (str_ 64 u) _ (f', v) e' in
      let (x, e3, r3) = chain (lit 58 w) _ (f', v) r2 in
      read_fields-IsBounded n false f' v g t (read_value-IsBounded f b x f' v key r3) r
]

close_entry-IsSized :
    (base fsize : ℕ) (name : List ℕ) (f : Fields) (x : Scanned)
    → IsBounded f
    → close_entry base fsize name f ≡ some x
    → IsSized fsize x
unfolding close_entry
close_entry-IsSized base fsize name f x b h =
    let (dt, e, q) = chain f.dtype _ x h in
    let ((p, o), e', r) = chain f.span _ x q in
    elim (picked_if (eq_ℤ (int64 (o -ℤ p)) (int64 (product f.shape f.ndim *ℤ pos (elemsize dt)))) _
      _ _ r) [
        | inr (_, r') ↦ absurd cc
        | inl (size, r') ↦ elim (picked_if (ltb_ℤ (pos fsize) (int64 (pos base +ℤ o))) _ _ _ r') [
          | inl (_, r2) ↦ absurd cc
          | inr (fits, r2) ↦
              let same : record {
                name = c_string name;
                dtype = dt;
                ndim = f.ndim;
                shape = f.shape;
                off = int64 (pos base +ℤ p);
                nbytes = int64 (o -ℤ p);
              }
                  ≡ x =
                cc (r2) in
              subst (IsSized fsize) same (record {
                rank = b.0;
                known = b.1 dt e;
                size = eq_ℤ→eq _ _ size;
                inside = inside_lem base fsize p o _ _ refl refl fits;
              })
        ]
      ]

no_fields-IsBounded : IsBounded no_fields
no_fields-IsBounded = (omega arith, λ d k. absurd cc)

no_member : (x : Option Scanned) (y : Scanned) → none ≡ x → ¬ (x ≡ some y)
no_member x y e h = absurd (cc (e, h))

read_member-IsSized :
    (base fsize : ℕ) (s : List ℕ) (x : Option Scanned) (t : List ℕ) (y : Scanned)
    → read_member base fsize s ≡ some (x, t)
    → x ≡ some y
    → IsSized fsize y
unfolding read_member read_entry
read_member-IsSized base fsize s x t y h p =
    let ((name, u), e, q) = chain (str_ 512 s) _ (x, t) h in
    let (v, e', q') = chain (lit 58 u) _ (x, t) q in
    elim (picked_if (same (c_string name) metadata_key) _ _ _ q') [
      | inl (_, r) ↦
          let (w, e2, r') = chain (skip_value v) _ (x, t) r in absurd (no_member x y (cc (r')) p)
      | inr (_, r) ↦
          let ((z, w), e2, r') = chain (read_entry base fsize name v) _ (x, t) r in
          let read : some z ≡ x = cc (r') in
          let here : z ≡ y = cc (read, p) in
          let (a, e3, q3) = chain (lit 123 v) _ (z, w) e2 in
          let ((f, b), e4, q4) = chain (read_fields (length a + 1) true no_fields a) _ (z, w) q3 in
          let (c, e5, q5) = chain (close_entry base fsize name f) _ (z, w) q4 in
          let last : c ≡ z = cc (q5) in
          let fields =
            read_fields-IsBounded (length a + 1) true no_fields a f b no_fields-IsBounded e4 in
          subst (IsSized fsize) (last ∙ here) (close_entry-IsSized base fsize name f c fields e5)
    ]

read_members-IsSized :
    (base fsize n : ℕ) (first : Bool) (s : List ℕ) (xs : List Scanned)
    → read_members base fsize n first s ≡ some xs
    → All (IsSized fsize) xs
unfolding read_members
read_members-IsSized base fsize zero first s xs h = absurd cc
read_members-IsSized base fsize (suc n) first s xs h = elim (branch (lit 125 s) _ _ _ h) [
  | inl (_, _, q) ↦ let same : [] ≡ xs = cc (q) in rw (sym same) tt
  | inr (_, q) ↦
      let (t, e, q0) = chain (separated first s) _ xs q in
      elim (branch (lit 125 t) _ _ _ q0) [
        | inl (_, _, q1) ↦ let same : [] ≡ xs = cc (q1) in rw (sym same) tt
        | inr (_, q1) ↦
            let ((x, u), e', q2) = chain (read_member base fsize t) _ xs q1 in
            let (ys, e2, q3) = chain (read_members base fsize n false u) _ xs q2 in
            let same : push x ys ≡ xs = cc (q3) in
            rw (sym same) (
              pushed x ys (λ y p. read_member-IsSized base fsize t x u y e' p)
                (read_members-IsSized base fsize n false u ys e2))
      ]
]
  where
    pushed :
        (x : Option Scanned) (ys : List Scanned)
        → ((y : Scanned) → x ≡ some y → IsSized fsize y)
        → All (IsSized fsize) ys
        → All (IsSized fsize) (push x ys)
    pushed none ys h a = a
    pushed (some y) ys h a = (h y refl, a)

-- Each tensor that a shard's header is read to has at most four dimensions and a known type, and spans
-- as many bytes as its shape and type say in `int64_t`, where a product may wrap around. It ends inside
-- the file, unless its extent is one that `k3_st_read` refuses: negative, or beyond `int64_t`. The header
-- is not empty, of at most 64 MiB, and ends inside the file.
pub scan_shard-IsSized :
    (local_size fsize : ℕ) (lenbuf : List ℕ) (json : ℕ → List ℕ) (xs : List Scanned)
    → scan_shard local_size fsize lenbuf json ≡ some xs
    → All (IsSized fsize) xs
      × (1 ≤ little_endian lenbuf)
      × (little_endian lenbuf ≤ 67108864)
      × (little_endian lenbuf + 8 ≤ fsize)
      × (little_endian lenbuf + 8 ≤ local_size)
unfolding scan_shard read_object
scan_shard-IsSized local_size fsize lenbuf json xs h =
    let hlen = little_endian lenbuf in
    elim (picked_if (length lenbuf == 8) _ _ _ h) [
      | inr (_, q) ↦ absurd cc
      | inl (_, q) ↦ elim (picked_if (is_impossible local_size fsize hlen) _ _ _ q) [
        | inl (_, r) ↦ absurd cc
        | inr (possible, r) ↦ elim (picked_if (length (json hlen) == hlen) _ _ _ r) [
          | inr (_, r') ↦ absurd cc
          | inl (_, r') ↦
              let (t, e, r2) = chain (lit 123 (json hlen)) _ xs r' in
              (
                read_members-IsSized (8 + hlen) fsize (length t + 1) true t xs r2,
                ground (arith, possible),
                ground (arith, possible),
                ground (arith, possible),
                ground (arith, possible),
              )
        ]
      ]
    ]
