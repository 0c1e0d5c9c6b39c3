-- ===== src/Header/FieldTrip.antt =====
-- The fields of an entry that are written as the format says, for the scanner of src/io/k3_st.c.
use kimi_k3_for_me.Prelude.{
  ℕ, zero, suc, ◌+◌, ◌-◌, ◌*◌, ◌^◌, ◌≤◌, ◌<◌, ◌≡◌, ◌≢◌, refl, ap, ◌∙◌, false, List, [], ◌∷◌, ◌++◌,
  none, some, length, arith,
}
use native.Mathlib.Nat.{mul_assoc}
use kimi_k3_for_me.Prelude.Arrays.{update}
use kimi_k3_for_me.Prelude.Int64.{int64, int64-pos}
use kimi_k3_for_me.Prelude.Int.{ℤ, pos, ◌-ℤ◌, ◌*ℤ◌}
use kimi_k3_for_me.Index.Tensor.{Dtype, unknown, u8, bf16, f16, f32, i8r}
use kimi_k3_for_me.Header.{ws, lit, str_}
use kimi_k3_for_me.Header.Entry.{
  Fields, dtype_of, is_unknown, dims_from, read_dtype, read_shape, read_offsets, product, no_fields,
}
use kimi_k3_for_me.Header.Print.{
  print_number, print_dtype, quote, print_dims, size, shape_of, AreSmall,
}
use kimi_k3_for_me.Header.Tokens.{i64_-print_number, lit-print_number}

dims_from-print_dims :
    (d : ℕ) (ds : List ℕ) (left m : ℕ) (f : Fields) (s : List ℕ)
    → length ds < left
    → AreSmall m (d ∷ ds)
    → dims_from left f (print_dims (d ∷ ds) s)
      ≡ some (
        record f { ndim = f.ndim + length (d ∷ ds); shape = shape_of f.ndim f.shape (d ∷ ds) },
        s,
      )
unfolding dims_from lit ws
dims_from-print_dims d ds zero m f s h small = absurd (omega arith)
dims_from-print_dims d [] (suc n) m f s h small =
    rw (i64_-print_number d (93 ∷ s) small.0 refl, dims_from) refl
dims_from-print_dims d (e ∷ ds) (suc n) m f s h (here, next, small) =
    let g = record f { ndim = f.ndim + 1; shape = update f.shape f.ndim (pos d) } in
    rw (i64_-print_number d (44 ∷ print_dims (e ∷ ds) s) here refl, dims_from)
      (dims_from-print_dims e ds n (m * d) g s (omega arith) small
        ∙ ap (λ m. some (record f { ndim = m; shape = shape_of f.ndim f.shape (d ∷ e ∷ ds) }, s))
            (omega arith))

pub read_dtype-print_dtype :
    (d : Dtype) (f : Fields) (s : List ℕ)
    → is_unknown d ≡ false
    → d ≢ i8r
    → read_dtype f (quote (print_dtype d) s) ≡ some (record f { dtype = some d }, s)
unfolding read_dtype str_ lit ws dtype_of
read_dtype-print_dtype u8 f s h n = refl
read_dtype-print_dtype bf16 f s h n = refl
read_dtype-print_dtype f16 f s h n = refl
read_dtype-print_dtype f32 f s h n = refl
read_dtype-print_dtype unknown f s h n = absurd cc
read_dtype-print_dtype i8r f s h n = absurd (n refl)

lit-print_dims : (d : ℕ) (ds s : List ℕ) → lit 93 (print_dims (d ∷ ds) s) ≡ none
lit-print_dims d [] s = lit-print_number 93 d (93 ∷ s) refl
lit-print_dims d (e ∷ ds) s = lit-print_number 93 d (44 ∷ print_dims (e ∷ ds) s) refl

pub read_shape-print_dims :
    (dims : List ℕ) (dt : Dtype) (s : List ℕ)
    → length dims ≤ 4
    → AreSmall 1 dims
    → read_shape (record no_fields { dtype = some dt }) (91 ∷ print_dims dims s)
      ≡ some (
        record no_fields {
          dtype = some dt;
          ndim = length dims;
          shape = shape_of 0 (λ _. pos 0) dims;
        },
        s,
      )
unfolding read_shape lit ws
read_shape-print_dims [] dt s h small = refl
read_shape-print_dims (d ∷ ds) dt s h small =
    rw (lit-print_dims d ds s, read_shape)
      (dims_from-print_dims d ds 4 1 (record no_fields { dtype = some dt }) s (omega arith) small
        ∙ ap
            (λ m. some (
              record no_fields {
                dtype = some dt;
                ndim = m;
                shape = shape_of 0 (λ _. pos 0) (d ∷ ds);
              },
              s,
            ))
            (omega arith))

pub read_offsets-print :
    (f : Fields) (a b : ℕ) (s : List ℕ)
    → a < 2 ^ 63
    → b < 2 ^ 63
    → read_offsets f (91 ∷ (print_number a ++ (44 ∷ (print_number b ++ (93 ∷ s)))))
      ≡ some (record f { span = some (pos a, pos b) }, s)
unfolding read_offsets lit ws
read_offsets-print f a b s ha hb =
    rw
      (
        i64_-print_number a (44 ∷ (print_number b ++ (93 ∷ s))) ha refl,
        i64_-print_number b (93 ∷ s) hb refl,
        read_offsets,
      )
      refl

pub sub_pos : (a b : ℕ) → b ≤ a → pos a -ℤ pos b ≡ pos (a - b)
sub_pos a zero h = ground arith
sub_pos a (suc b) h = ground arith

product-eq : (f g : ℕ → ℤ) (n : ℕ) → ((i : ℕ) → i < n → f i ≡ g i) → product f n ≡ product g n
product-eq f g zero h = refl
product-eq f g (suc n) h =
    ap (λ x. int64 (x *ℤ f n)) (product-eq f g n (λ i lt. h i (omega arith)))
    ∙ ap (λ x. int64 (product g n *ℤ x)) (h n (omega arith))

-- The dimensions behind those whose product is `m`.
pub product-shape_of :
    (ds : List ℕ) (i m : ℕ) (g : ℕ → ℤ)
    → product g i ≡ pos m
    → AreSmall m ds
    → product (shape_of i g ds) (i + length ds) ≡ pos (m * size ds)
product-shape_of [] i m g h small =
    ap (product g) {x = i + 0} {y = i} (omega arith) ∙ h ∙ ap pos (omega arith)
product-shape_of (d ∷ ds) i m g h (_, next, small) =
    let g' = update g i (pos d) in
    let here : g' i ≡ pos d = ground arith in
    let before = product-eq g' g i (λ j lt. ground arith) ∙ h in
    let one : product g' (i + 1) ≡ pos (m * d) =
      ap (product g') {x = i + 1} {y = suc i} (omega arith)
      ∙ ap (λ x. int64 (x *ℤ g' i)) before
      ∙ ap (λ x. int64 (pos m *ℤ x)) here
      ∙ int64-pos (m * d) next in
    ap (product (shape_of (i + 1) g' ds)) {x = i + length (d ∷ ds)} {y = i + 1 + length ds}
      (omega arith)
    ∙ product-shape_of ds (i + 1) (m * d) g' one small
    ∙ ap pos (mul_assoc m d (size ds))
