-- ===== src/Header/Print.antt =====
-- The header format that src/io/k3_st.h documents, written out: what a writer of shards puts there.
use kimi_k3_for_me.Prelude.{
  ℕ, zero, suc, ◌+◌, ◌-◌, ◌*◌, ◌/◌, ◌%◌, ◌^◌, ◌≤◌, ◌<◌, ◌≡◌, ◌≢◌, false, List, [], ◌∷◌, ◌++◌, ltb,
  if◌then◌else◌, length, All,
}
use kimi_k3_for_me.Prelude.Arrays.{update}
use kimi_k3_for_me.Prelude.Int.{ℤ, pos}
use kimi_k3_for_me.Index.{same}
use kimi_k3_for_me.Index.Tensor.{Dtype, u8, bf16, f16, f32, i8r, elemsize}
use kimi_k3_for_me.Header.Entry.{
  Scanned, dtype_key, shape_key, offsets_key, metadata_key, is_unknown,
}

-- A tensor to be written: `first` and `last` are its data_offsets.
pub record Written : Type 0 where
  pub name : List ℕ
  pub dtype : Dtype
  pub dims : List ℕ
  pub first : ℕ
  pub last : ℕ

-- Decimal digits, with at most `k` of them.
abbrev pub print_to : ℕ → ℕ → List ℕ
print_to zero n = []
print_to (suc k) n =
    let rest = print_to k (n / 10) in
    if ltb n 10 then (48 + n) ∷ [] else rest ++ ((48 + n % 10) ∷ [])

abbrev pub print_number : ℕ → List ℕ
print_number n = print_to (suc n) n

abbrev pub print_dtype : Dtype → List ℕ
print_dtype u8 = 85 ∷ 56 ∷ []
print_dtype bf16 = 66 ∷ 70 ∷ 49 ∷ 54 ∷ []
print_dtype f16 = 70 ∷ 49 ∷ 54 ∷ []
print_dtype f32 = 70 ∷ 51 ∷ 50 ∷ []
print_dtype _ = []

-- Text in quotes, in front of `s`.
abbrev pub quote : List ℕ → List ℕ → List ℕ
quote name s = 34 ∷ (name ++ (34 ∷ s))

-- The dimensions with commas between them, and the closing bracket.
abbrev pub print_dims : List ℕ → List ℕ → List ℕ
print_dims [] s = 93 ∷ s
print_dims (d ∷ []) s = print_number d ++ (93 ∷ s)
print_dims (d ∷ e ∷ ds) s = print_number d ++ (44 ∷ print_dims (e ∷ ds) s)

-- {"dtype":"…","shape":[…],"data_offsets":[…,…]}
abbrev pub print_entry : Written → List ℕ → List ℕ
print_entry t s =
    123
    ∷ quote dtype_key (
        58
        ∷ quote (print_dtype t.dtype) (
            44
            ∷ quote shape_key (
                58
                ∷ 91
                ∷ print_dims t.dims (
                    44
                    ∷ quote offsets_key (
                        58
                        ∷ 91
                        ∷ (print_number t.first
                            ++ (44 ∷ (print_number t.last ++ (93 ∷ 125 ∷ s)))))))))

abbrev pub print_member : Written → List ℕ → List ℕ
print_member t s = quote t.name (58 ∷ print_entry t s)

abbrev pub print_rest : List Written → List ℕ → List ℕ
print_rest [] s = 125 ∷ s
print_rest (t ∷ ts) s = 44 ∷ print_member t (print_rest ts s)

abbrev pub print_object : List Written → List ℕ → List ℕ
print_object [] s = 123 ∷ 125 ∷ s
print_object (t ∷ ts) s = 123 ∷ print_member t (print_rest ts s)

abbrev pub size : List ℕ → ℕ
size [] = 1
size (d ∷ ds) = d * size ds

abbrev pub shape_of : ℕ → (ℕ → ℤ) → List ℕ → ℕ → ℤ
shape_of i g [] = g
shape_of i g (d ∷ ds) = shape_of (i + 1) (update g i (pos d)) ds

-- What the scanner has for it, with the data section at `base`.
abbrev pub scanned : ℕ → Written → Scanned
scanned base t = record {
  name = t.name;
  dtype = t.dtype;
  ndim = length t.dims;
  shape = shape_of 0 (λ _. pos 0) t.dims;
  off = pos (base + t.first);
  nbytes = pos (t.last - t.first);
}

-- Without quotes, backslashes and zeros.
abbrev pub IsPlain : List ℕ → Type 0
IsPlain = All (λ c. (c ≢ 34) × (c ≢ 92) × (c ≢ 0))

-- Dimensions whose products, with `m` in front, are within `int64_t`.
abbrev pub AreSmall : ℕ → List ℕ → Type 0
AreSmall m [] = Unit
AreSmall m (d ∷ ds) = (d < 2 ^ 63) × (m * d < 2 ^ 63) × AreSmall (m * d) ds

-- A name without quotes, backslashes and zeros, which fits the buffer and is not the metadata's; at
-- most four dimensions, a known type, and a span of the right size in the file; the size of the file
-- and the products of the dimensions are within `int64_t`.
pub record IsWritable (base fsize : ℕ) (t : Written) : Type 0 where
  pub plain : IsPlain t.name
  pub short : length t.name < 512
  pub tensor : same t.name metadata_key ≡ false
  pub rank : length t.dims ≤ 4
  pub known : is_unknown t.dtype ≡ false
  pub drafted : t.dtype ≢ i8r
  pub span : t.first + size t.dims * elemsize t.dtype ≡ t.last
  pub inside : base + t.last ≤ fsize
  pub file : fsize < 2 ^ 63
  pub small : AreSmall 1 t.dims
