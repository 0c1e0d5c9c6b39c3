-- ===== src/Header/Fuel.antt =====
-- The loops of `scan_shard` (src/io/k3_st.c) over fields and members end: each round takes text away.
use kimi_k3_for_me.Prelude.{
  ℕ, zero, suc, ◌+◌, ◌-◌, ◌≤◌, ◌<◌, ◌≡◌, inl, inr, refl, sym, Bool, true, false, List, Option, some,
  length, arith, Option-cases,
}
use kimi_k3_for_me.Prelude.Arrays.{update}
use kimi_k3_for_me.Index.{same}
use kimi_k3_for_me.Header.{lit, str_, i64_, skip_value}
use kimi_k3_for_me.Header.Entry.{
  Scanned, Fields, c_string, dtype_key, shape_key, offsets_key, metadata_key, dims_from, read_dtype,
  read_shape, read_offsets, read_other, read_value, read_field, separated, read_fields, close_entry,
  no_fields, read_entry,
}
use kimi_k3_for_me.Header.Shard.{read_member, read_members}
use kimi_k3_for_me.Header.Rest.{
  chain, branch, picked_if, lit-some, str_-some, i64_-some, skip_value-some,
}

dims_from-some :
    (left : ℕ) (f : Fields) (s : List ℕ) (g : Fields) (t : List ℕ)
    → dims_from left f s ≡ some (g, t)
    → length t < length s
unfolding dims_from
dims_from-some zero f s g t h = absurd cc
dims_from-some (suc n) f s g t h =
    let ((d, u), e, q) = chain (i64_ s) _ (g, t) h in
    let less = i64_-some s u d e in
    elim (branch (lit 44 u) _ _ _ q) [
      | inl (v, more, r) ↦ omega (
        arith,
        less,
        lit-some 44 u v more,
        dims_from-some n (record f { ndim = f.ndim + 1; shape = update f.shape f.ndim d }) v g t r,
      )
      | inr (no_more, r) ↦
          let (v, close, r') = chain (lit 93 u) _ (g, t) r in
          let left : v ≡ t = cc (r') in rw (sym left) (omega (arith, less, lit-some 93 u v close))
    ]

read_dtype-some :
    (f : Fields) (s : List ℕ) (g : Fields) (t : List ℕ)
    → read_dtype f s ≡ some (g, t)
    → length t < length s
unfolding read_dtype
read_dtype-some f s g t h =
    let ((v, u), e, q) = chain (str_ 32 s) _ (g, t) h in
    let left : u ≡ t = ground (arith, q) in rw (sym left) (str_-some 32 s v u e)

read_shape-some :
    (f : Fields) (s : List ℕ) (g : Fields) (t : List ℕ)
    → read_shape f s ≡ some (g, t)
    → length t < length s
unfolding read_shape
read_shape-some f s g t h =
    let (u, e, q) = chain (lit 91 s) _ (g, t) h in
    elim (branch (lit 93 u) _ _ _ q) [
      | inl (v, close, r) ↦
          let left : v ≡ t = cc (r) in
          rw (sym left) (omega (arith, lit-some 91 s u e, lit-some 93 u v close))
      | inr (more, r) ↦ omega (arith, lit-some 91 s u e, dims_from-some (4 - f.ndim) f u g t r)
    ]

read_offsets-some :
    (f : Fields) (s : List ℕ) (g : Fields) (t : List ℕ)
    → read_offsets f s ≡ some (g, t)
    → length t < length s
unfolding read_offsets
read_offsets-some f s g t h =
    let (t0, e0, q0) = chain (lit 91 s) _ (g, t) h in
    let ((a, t1), e1, q1) = chain (i64_ t0) _ (g, t) q0 in
    let (t2, e2, q2) = chain (lit 44 t1) _ (g, t) q1 in
    let ((b, t3), e3, q3) = chain (i64_ t2) _ (g, t) q2 in
    let (t4, e4, q4) = chain (lit 93 t3) _ (g, t) q3 in
    let left : t4 ≡ t = cc (q4) in
    rw (sym left) (
      omega (
        arith,
        lit-some 91 s t0 e0,
        i64_-some t0 t1 a e1,
        lit-some 44 t1 t2 e2,
        i64_-some t2 t3 b e3,
        lit-some 93 t3 t4 e4,
      ))

read_other-some :
    (f : Fields) (s : List ℕ) (g : Fields) (t : List ℕ)
    → read_other f s ≡ some (g, t)
    → length t ≤ length s
unfolding read_other
read_other-some f s g t h =
    let (u, e, q) = chain (skip_value s) _ (g, t) h in
    let left : u ≡ t = cc (q) in rw (sym left) (skip_value-some s u e)

read_value-some :
    (key : List ℕ) (f : Fields) (s : List ℕ) (g : Fields) (t : List ℕ)
    → read_value key f s ≡ some (g, t)
    → length t ≤ length s
unfolding read_value
read_value-some key f s g t h = elim (picked_if (same (c_string key) dtype_key) _ _ _ h) [
  | inl (_, q) ↦ omega (arith, read_dtype-some f s g t q)
  | inr (_, q) ↦ elim (picked_if (same (c_string key) shape_key) _ _ _ q) [
    | inl (_, r) ↦ omega (arith, read_shape-some f s g t r)
    | inr (_, r) ↦ elim (picked_if (same (c_string key) offsets_key) _ _ _ r) [
      | inl (_, r') ↦ omega (arith, read_offsets-some f s g t r')
      | inr (_, r') ↦ read_other-some f s g t r'
    ]
  ]
]

read_field-some :
    (f : Fields) (s : List ℕ) (g : Fields) (t : List ℕ)
    → read_field f s ≡ some (g, t)
    → length t < length s
unfolding read_field
read_field-some f s g t h =
    let ((key, u), e, q) = chain (str_ 64 s) _ (g, t) h in
    let (v, e', r) = chain (lit 58 u) _ (g, t) q in
    omega (arith, str_-some 64 s key u e, lit-some 58 u v e', read_value-some key f v g t r)

separated-some : (first : Bool) (s t : List ℕ) → separated first s ≡ some t → length t ≤ length s
separated-some true s t h = ground (arith, h)
separated-some false s t h = omega (arith, lit-some 44 s t h)

read_fields-some :
    (n : ℕ) (first : Bool) (f : Fields) (s : List ℕ) (g : Fields) (t : List ℕ)
    → read_fields n first f s ≡ some (g, t)
    → length t < length s
unfolding read_fields
read_fields-some zero first f s g t h = absurd cc
read_fields-some (suc n) first f s g t h = elim (branch (lit 125 s) _ _ _ h) [
  | inl (u, close, q) ↦ let left : u ≡ t = cc (q) in rw (sym left) (lit-some 125 s u close)
  | inr (more, q) ↦
      let (u, e, q') = chain (separated first s) _ (g, t) q in
      let ((f', v), e', r) = chain (read_field f u) _ (g, t) q' in
      omega (
        arith,
        separated-some first s u e,
        read_field-some f u f' v e',
        read_fields-some n false f' v g t r,
      )
]

read_entry-some :
    (base fsize : ℕ) (name s : List ℕ) (x : Scanned) (t : List ℕ)
    → read_entry base fsize name s ≡ some (x, t)
    → length t < length s
unfolding read_entry
read_entry-some base fsize name s x t h =
    let (u, e, q) = chain (lit 123 s) _ (x, t) h in
    let ((f, v), e', q') = chain (read_fields (length u + 1) true no_fields u) _ (x, t) q in
    let (y, e2, r) = chain (close_entry base fsize name f) _ (x, t) q' in
    let left : v ≡ t = cc (r) in
    rw (sym left)
      (omega (arith, lit-some 123 s u e, read_fields-some (length u + 1) true no_fields u f v e'))

pub read_member-some :
    (base fsize : ℕ) (s : List ℕ) (x : Option Scanned) (t : List ℕ)
    → read_member base fsize s ≡ some (x, t)
    → length t < length s
unfolding read_member
read_member-some base fsize s x t h =
    let ((name, u), e, q) = chain (str_ 512 s) _ (x, t) h in
    let (v, e', q') = chain (lit 58 u) _ (x, t) q in
    elim (picked_if (same (c_string name) metadata_key) _ _ _ q') [
      | inl (_, r) ↦
          let (w, e2, r') = chain (skip_value v) _ (x, t) r in
          let left : w ≡ t = cc (r') in
          rw (sym left)
            (omega (arith, str_-some 512 s name u e, lit-some 58 u v e', skip_value-some v w e2))
      | inr (_, r) ↦
          let ((y, w), e2, r') = chain (read_entry base fsize name v) _ (x, t) r in
          let left : w ≡ t = cc (r') in
          rw (sym left) (
            omega (
              arith,
              str_-some 512 s name u e,
              lit-some 58 u v e',
              read_entry-some base fsize name v y w e2,
            ))
    ]

-- With more rounds than there are characters the loop over the fields ends by itself, and what it
-- gives does not depend on how many there are.
pub read_fields-enough :
    (n m : ℕ) (first : Bool) (f : Fields) (s : List ℕ)
    → length s < n
    → length s < m
    → read_fields n first f s ≡ read_fields m first f s
unfolding read_fields
read_fields-enough zero m first f s hn hm = absurd (omega arith)
read_fields-enough (suc n) zero first f s hn hm = absurd (omega arith)
read_fields-enough (suc n) (suc m) first f s hn hm = elim (Option-cases (lit 125 s)) [
  | inr (u, close) ↦ rw (close, read_fields) refl
  | inl more ↦ elim (Option-cases (separated first s)) [
    | inl e ↦ rw (more, e, read_fields) refl
    | inr (u, e) ↦ elim (Option-cases (read_field f u)) [
      | inl e' ↦ rw (more, e, e', read_fields) refl
      | inr ((g, v), e') ↦
          rw (more, e, e', read_fields)
            (read_fields-enough n m false g v
              (omega (arith, separated-some first s u e, read_field-some f u g v e'))
              (omega (arith, separated-some first s u e, read_field-some f u g v e')))
    ]
  ]
]

-- The same of the loop over the members of the header.
pub read_members-enough :
    (base fsize n m : ℕ) (first : Bool) (s : List ℕ)
    → length s < n
    → length s < m
    → read_members base fsize n first s ≡ read_members base fsize m first s
unfolding read_members
read_members-enough base fsize zero m first s hn hm = absurd (omega arith)
read_members-enough base fsize (suc n) zero first s hn hm = absurd (omega arith)
read_members-enough base fsize (suc n) (suc m) first s hn hm = elim (Option-cases (lit 125 s)) [
  | inr (u, close) ↦ rw (close, read_members) refl
  | inl more ↦ elim (Option-cases (separated first s)) [
    | inl e ↦ rw (more, e, read_members) refl
    | inr (u, e) ↦ elim (Option-cases (lit 125 u)) [
      | inr (v, close) ↦ rw (more, e, close, read_members) refl
      | inl more' ↦ elim (Option-cases (read_member base fsize u)) [
        | inl e' ↦ rw (more, e, more', e', read_members) refl
        | inr ((x, v), e') ↦
            let less = separated-some first s u e in
            let less' = read_member-some base fsize u x v e' in
            rw (more, e, more', e', read_members)
              (rw
                (read_members-enough base fsize n m false v (omega (arith, less, less'))
                  (omega (arith, less, less')))
                refl)
      ]
    ]
  ]
]
