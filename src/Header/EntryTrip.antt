-- ===== src/Header/EntryTrip.antt =====
-- An entry that is written as the format says is read back by `scan_shard` of src/io/k3_st.c.
use kimi_k3_for_me.Prelude.{
  ℕ, suc, ◌+◌, ◌-◌, ◌^◌, ◌<◌, ◌≡◌, refl, ap, ◌∙◌, Bool, true, false, Option, if◌then◌else◌, List,
  ◌∷◌, ◌++◌, none, some, ltb, length, arith,
}
use kimi_k3_for_me.Prelude.Int64.{int64, int64-pos}
use kimi_k3_for_me.Prelude.Int.{ℤ, pos, ◌+ℤ◌, ◌-ℤ◌, ◌*ℤ◌, eq_ℤ, ltb_ℤ}
use kimi_k3_for_me.Index.{same}
use kimi_k3_for_me.Index.Tensor.{Dtype, elemsize}
use kimi_k3_for_me.Header.{ws, lit, str_}
use kimi_k3_for_me.Header.Entry.{
  Fields, c_string, dtype_key, shape_key, offsets_key, read_dtype, read_shape, read_offsets,
  read_value, read_field, read_fields, product, close_entry, no_fields, read_entry,
}
use kimi_k3_for_me.Header.Shard.{read_member}
use kimi_k3_for_me.Header.Fuel.{read_fields-enough}
use kimi_k3_for_me.Header.Print.{
  Written, print_number, print_dtype, quote, print_dims, print_entry, print_member, shape_of,
  scanned, IsWritable,
}
use kimi_k3_for_me.Header.FieldTrip.{
  read_dtype-print_dtype, read_shape-print_dims, read_offsets-print, sub_pos, product-shape_of,
}
use kimi_k3_for_me.Header.Tokens.{str_-quote, c_string-plain}

-- The fields of an entry, in the order in which they are written.
abbrev fields_of : Written → Fields
fields_of t = record {
  dtype = some t.dtype;
  ndim = length t.dims;
  shape = shape_of 0 (λ _. pos 0) t.dims;
  span = some (pos t.first, pos t.last);
}

read_field-dtype :
    (f : Fields) (s : List ℕ) → read_field f (quote dtype_key (58 ∷ s)) ≡ read_dtype f s
unfolding read_field str_ lit ws read_value c_string same
read_field-dtype f s = refl

read_field-shape :
    (f : Fields) (s : List ℕ) → read_field f (quote shape_key (58 ∷ s)) ≡ read_shape f s
unfolding read_field str_ lit ws read_value c_string same
read_field-shape f s = refl

read_field-offsets :
    (f : Fields) (s : List ℕ) → read_field f (quote offsets_key (58 ∷ s)) ≡ read_offsets f s
unfolding read_field str_ lit ws read_value c_string same
read_field-offsets f s = refl

read_fields-first :
    (n : ℕ) (f g : Fields) (s u : List ℕ)
    → lit 125 s ≡ none
    → read_field f s ≡ some (g, u)
    → read_fields (suc n) true f s ≡ read_fields n false g u
unfolding read_fields
read_fields-first n f g s u more h = rw (more, h, read_fields) refl

read_fields-next :
    (n : ℕ) (f g : Fields) (s u : List ℕ)
    → read_field f s ≡ some (g, u)
    → read_fields (suc n) false f (44 ∷ s) ≡ read_fields n false g u
unfolding read_fields lit ws
read_fields-next n f g s u h = rw (h, read_fields) refl

read_fields-last :
    (n : ℕ) (f : Fields) (s : List ℕ) → read_fields (suc n) false f (125 ∷ s) ≡ some (f, s)
unfolding read_fields lit ws
read_fields-last n f s = refl

checked :
    {A : Type 0} (p q : Bool) (x : Option A)
    → p ≡ true
    → q ≡ false
    → (if p then (if q then none else x) else none) ≡ x
checked true false x h f = refl
checked true true x h f = absurd cc
checked false q x h f = absurd cc

-- An entry that passes the checks.
close_entry-some :
    (base fsize ndim : ℕ) (name : List ℕ) (dt : Dtype) (shape : ℕ → ℤ) (a b off end n : ℤ)
    → int64 (b -ℤ a) ≡ n
    → int64 (product shape ndim *ℤ pos (elemsize dt)) ≡ n
    → int64 (pos base +ℤ a) ≡ off
    → int64 (pos base +ℤ b) ≡ end
    → eq_ℤ n n ≡ true
    → ltb_ℤ (pos fsize) end ≡ false
    → close_entry base fsize name
        (record { dtype = some dt; ndim = ndim; shape = shape; span = some (a, b) })
      ≡ some (record {
        name = c_string name;
        dtype = dt;
        ndim = ndim;
        shape = shape;
        off = off;
        nbytes = n;
      })
unfolding close_entry
close_entry-some base fsize ndim name dt shape a b off end n h want at last right fits =
    checked _ _ _
      (ap (λ x. eq_ℤ x (int64 (product shape ndim *ℤ pos (elemsize dt)))) h
        ∙ ap (eq_ℤ n) want
        ∙ right)
      (ap (ltb_ℤ (pos fsize)) last ∙ fits)
    ∙ ap
        (λ x. some (record {
          name = c_string name;
          dtype = dt;
          ndim = ndim;
          shape = shape;
          off = x;
          nbytes = int64 (b -ℤ a);
        }))
        at
    ∙ ap
        (λ x. some (record {
          name = c_string name;
          dtype = dt;
          ndim = ndim;
          shape = shape;
          off = off;
          nbytes = x;
        }))
        h

module _ (base fsize : ℕ) (t : Written) (h : IsWritable base fsize t) (s : List ℕ) where
  abbrev from_offsets : List ℕ
  from_offsets =
      quote offsets_key
        (58 ∷ 91 ∷ (print_number t.first ++ (44 ∷ (print_number t.last ++ (93 ∷ 125 ∷ s)))))

  abbrev from_shape : List ℕ
  from_shape = quote shape_key (58 ∷ 91 ∷ print_dims t.dims (44 ∷ from_offsets))

  abbrev from_dtype : List ℕ
  from_dtype = quote dtype_key (58 ∷ quote (print_dtype t.dtype) (44 ∷ from_shape))

  read_fields-print :
      (n : ℕ)
      → read_fields (suc (suc (suc (suc n)))) true no_fields from_dtype ≡ some (fields_of t, s)
  unfolding lit ws
  read_fields-print n =
      let f1 = record no_fields { dtype = some t.dtype } in
      let f2 = record f1 { ndim = length t.dims; shape = shape_of 0 (λ _. pos 0) t.dims } in
      let off = 44 ∷ from_offsets in
      read_fields-first (suc (suc (suc n))) no_fields f1 from_dtype (44 ∷ from_shape) refl (
        read_field-dtype no_fields (quote (print_dtype t.dtype) (44 ∷ from_shape))
        ∙ read_dtype-print_dtype t.dtype no_fields (44 ∷ from_shape) h.known h.drafted)
      ∙ read_fields-next (suc (suc n)) f1 f2 from_shape off (
          read_field-shape f1 (91 ∷ print_dims t.dims off)
          ∙ read_shape-print_dims t.dims t.dtype off h.rank h.small)
      ∙ read_fields-next (suc n) f2 (fields_of t) from_offsets (125 ∷ s) (
          read_field-offsets f2 _
          ∙ read_offsets-print f2 t.first t.last (125 ∷ s) (omega (arith, h.span, h.inside, h.file))
              (omega (arith, h.inside, h.file)))
      ∙ read_fields-last n (fields_of t) s

  close_entry-fields_of : close_entry base fsize t.name (fields_of t) ≡ some (scanned base t)
  unfolding close_entry
  close_entry-fields_of =
      let bound : t.last < 2 ^ 63 = omega (arith, h.inside, h.file) in
      let count = product-shape_of t.dims 0 1 (λ _. pos 0) refl h.small in
      let want : int64
            (product (shape_of 0 (λ _. pos 0) t.dims) (length t.dims) *ℤ pos (elemsize t.dtype))
          ≡ pos (t.last - t.first) =
        ap (λ x. int64 (x *ℤ pos (elemsize t.dtype)))
          (ap (product (shape_of 0 (λ _. pos 0) t.dims)) {x = length t.dims} {y = 0 + length t.dims}
              (omega arith)
            ∙ count)
        ∙ ap (λ n. int64 (pos n)) (omega (arith, h.span))
        ∙ int64-pos (t.last - t.first) (omega (arith, bound)) in
      let nbytes : int64 (pos t.last -ℤ pos t.first) ≡ pos (t.last - t.first) =
        ap int64 (sub_pos t.last t.first (omega (arith, h.span)))
        ∙ int64-pos (t.last - t.first) (omega (arith, bound)) in
      let off = int64-pos (base + t.first) (omega (arith, h.span, h.inside, h.file)) in
      let end = int64-pos (base + t.last) (omega (arith, h.inside, h.file)) in
      let right : eq_ℤ (pos (t.last - t.first)) (pos (t.last - t.first)) ≡ true = ground arith in
      let fits : ltb fsize (base + t.last) ≡ false = ground (arith, h.inside) in
      close_entry-some base fsize (length t.dims) t.name t.dtype (shape_of 0 (λ _. pos 0) t.dims)
        (pos t.first) (pos t.last) (pos (base + t.first)) (pos (base + t.last))
        (pos (t.last - t.first)) nbytes want off end right fits
      ∙ ap (λ x. some (record (scanned base t) { name = x })) (c_string-plain t.name h.plain)

  read_entry-print : read_entry base fsize t.name (print_entry t s) ≡ some (scanned base t, s)
  unfolding read_entry lit ws
  read_entry-print =
      let rounds =
        read_fields-enough (length from_dtype + 1) (suc (suc (suc (suc (length from_dtype))))) true
          no_fields from_dtype (omega arith) (omega arith)
        ∙ read_fields-print (length from_dtype) in
      rw (rounds, close_entry-fields_of, read_entry) refl

  pub read_member-print :
      read_member base fsize (print_member t s) ≡ some (some (scanned base t), s)
  unfolding read_member lit ws
  read_member-print =
      rw
        (
          str_-quote 512 t.name (58 ∷ print_entry t s) h.plain h.short,
          c_string-plain t.name h.plain,
          h.tensor,
          read_entry-print,
          read_member,
        )
        refl
