-- ===== src/Header/Entry.antt =====
-- An entry of a safetensors header: the loop of `scan_shard` (src/io/k3_st.c) over its fields, and
-- what the entry is refused for.
use kimi_k3_for_me.Prelude.{
  ℕ, zero, suc, ◌+◌, ◌-◌, Bool, true, false, List, [], ◌∷◌, Option, none, some, ◌==◌, if◌then◌else◌,
  length,
}
use kimi_k3_for_me.Prelude.Arrays.{update}
use kimi_k3_for_me.Prelude.Int64.{int64}
use kimi_k3_for_me.Prelude.Int.{ℤ, pos, ◌+ℤ◌, ◌-ℤ◌, ◌*ℤ◌, eq_ℤ, ltb_ℤ}
use kimi_k3_for_me.Index.{same}
use kimi_k3_for_me.Index.Tensor.{Dtype, unknown, u8, bf16, f16, f32, elemsize}
use kimi_k3_for_me.Header.{lit, str_, i64_, skip_value}

-- A tensor as its entry gives it.
pub record Scanned : Type 0 where
  pub name : List ℕ
  pub dtype : Dtype
  pub ndim : ℕ
  pub shape : ℕ → ℤ
  pub off : ℤ
  pub nbytes : ℤ

-- What the fields have set so far. `dtype` is `none` before `have_dt`, `span` before `have_off`.
pub record Fields : Type 0 where
  pub dtype : Option Dtype
  pub ndim : ℕ
  pub shape : ℕ → ℤ
  pub span : Option (ℤ × ℤ)

-- A buffer as a C string: up to its first zero.
unfoldable pub c_string : List ℕ → List ℕ
c_string [] = []
c_string (c ∷ s) = let rest = c_string s in if c == 0 then [] else c ∷ rest

-- "dtype", "shape", "data_offsets" and "__metadata__".
abbrev pub dtype_key : List ℕ
dtype_key = 100 ∷ 116 ∷ 121 ∷ 112 ∷ 101 ∷ []

abbrev pub shape_key : List ℕ
shape_key = 115 ∷ 104 ∷ 97 ∷ 112 ∷ 101 ∷ []

abbrev pub offsets_key : List ℕ
offsets_key = 100 ∷ 97 ∷ 116 ∷ 97 ∷ 95 ∷ 111 ∷ 102 ∷ 102 ∷ 115 ∷ 101 ∷ 116 ∷ 115 ∷ []

abbrev pub metadata_key : List ℕ
metadata_key = 95 ∷ 95 ∷ 109 ∷ 101 ∷ 116 ∷ 97 ∷ 100 ∷ 97 ∷ 116 ∷ 97 ∷ 95 ∷ 95 ∷ []

-- "U8", "BF16", "F16" and "F32".
unfoldable pub dtype_of : List ℕ → Dtype
unfolding same
dtype_of s =
    if same s (85 ∷ 56 ∷ [])
    then u8
    else (if same s (66 ∷ 70 ∷ 49 ∷ 54 ∷ [])
        then bf16
        else (if same s (70 ∷ 49 ∷ 54 ∷ [])
            then f16
            else (if same s (70 ∷ 51 ∷ 50 ∷ []) then f32 else unknown)))

abbrev pub is_unknown : Dtype → Bool
is_unknown unknown = true
is_unknown _ = false

-- The loop over the dimensions, with `left` of the four places free.
unfoldable pub dims_from : ℕ → Fields → List ℕ → Option (Fields × List ℕ)
unfolding i64_ lit
dims_from zero f s = none
dims_from (suc left) f s = elim (i64_ s) [
  | none ↦ none
  | some (d, t) ↦
      let g = record f { ndim = f.ndim + 1; shape = update f.shape f.ndim d } in
      elim (lit 44 t) [
        | some u ↦ dims_from left g u
        | none ↦ elim (lit 93 t) [ none ↦ none | some u ↦ some (g, u) ]
      ]
]

unfoldable pub read_dtype : Fields → List ℕ → Option (Fields × List ℕ)
unfolding str_ dtype_of
read_dtype f s = elim (str_ 32 s) [
  | none ↦ none
  | some (v, t) ↦
      if is_unknown (dtype_of v) then none else some (record f { dtype = some (dtype_of v) }, t)
]

unfoldable pub read_shape : Fields → List ℕ → Option (Fields × List ℕ)
unfolding lit dims_from
read_shape f s = elim (lit 91 s) [
  | none ↦ none
  | some t ↦ elim (lit 93 t) [ some u ↦ some (f, u) | none ↦ dims_from (4 - f.ndim) f t ]
]

unfoldable pub read_offsets : Fields → List ℕ → Option (Fields × List ℕ)
unfolding lit i64_
read_offsets f s = elim (lit 91 s) [
  | none ↦ none
  | some t0 ↦ elim (i64_ t0) [
    | none ↦ none
    | some (a, t1) ↦ elim (lit 44 t1) [
      | none ↦ none
      | some t2 ↦ elim (i64_ t2) [
        | none ↦ none
        | some (b, t3) ↦ elim (lit 93 t3) [
          | none ↦ none
          | some t4 ↦ some (record f { span = some (a, b) }, t4)
        ]
      ]
    ]
  ]
]

unfoldable pub read_other : Fields → List ℕ → Option (Fields × List ℕ)
unfolding skip_value
read_other f s = elim (skip_value s) [ none ↦ none | some t ↦ some (f, t) ]

-- The value of a field, by its key.
unfoldable pub read_value : List ℕ → Fields → List ℕ → Option (Fields × List ℕ)
unfolding same c_string read_dtype read_shape read_offsets read_other
read_value key f s =
    let k = c_string key in
    if same k dtype_key
    then read_dtype f s
    else (if same k shape_key
        then read_shape f s
        else (if same k offsets_key then read_offsets f s else read_other f s))

-- A key, its colon and its value.
unfoldable pub read_field : Fields → List ℕ → Option (Fields × List ℕ)
unfolding str_ lit read_value
read_field f s = elim (str_ 64 s) [
  | none ↦ none
  | some (key, t) ↦ elim (lit 58 t) [ none ↦ none | some u ↦ read_value key f u ]
]

-- The comma in front of all but the first.
abbrev pub separated : Bool → List ℕ → Option (List ℕ)
separated first s = if first then some s else lit 44 s

-- The loop over the fields; `n` bounds its rounds.
unfoldable pub read_fields : ℕ → Bool → Fields → List ℕ → Option (Fields × List ℕ)
unfolding lit read_field
read_fields zero first f s = none
read_fields (suc n) first f s = elim (lit 125 s) [
  | some t ↦ some (f, t)
  | none ↦ elim (separated first s) [
    | none ↦ none
    | some t ↦ elim (read_field f t) [ none ↦ none | some (g, u) ↦ read_fields n false g u ]
  ]
]

-- `k3_st_numel`.
abbrev pub product : (ℕ → ℤ) → ℕ → ℤ
product shape zero = pos 1
product shape (suc n) = int64 (product shape n *ℤ shape n)

-- The checks behind the fields, in `int64_t`: both are there, the span has the size that the shape and
-- the type say, and it ends inside the file.
unfoldable pub close_entry : ℕ → ℕ → List ℕ → Fields → Option Scanned
close_entry base fsize name f = elim f.dtype [
  | none ↦ none
  | some dt ↦ elim f.span [
    | none ↦ none
    | some (a, b) ↦
        if eq_ℤ (int64 (b -ℤ a)) (int64 (product f.shape f.ndim *ℤ pos (elemsize dt)))
        then (if ltb_ℤ (pos fsize) (int64 (pos base +ℤ b))
            then none
            else some record {
              name = c_string name;
              dtype = dt;
              ndim = f.ndim;
              shape = f.shape;
              off = int64 (pos base +ℤ a);
              nbytes = int64 (b -ℤ a);
            })
        else none
  ]
]

abbrev pub no_fields : Fields
no_fields = record { dtype = none; ndim = 0; shape = λ _. pos 0; span = none }

-- An entry behind the colon.
unfoldable pub read_entry : ℕ → ℕ → List ℕ → List ℕ → Option (Scanned × List ℕ)
unfolding lit read_fields close_entry
read_entry base fsize name s = elim (lit 123 s) [
  | none ↦ none
  | some t ↦ elim (read_fields (length t + 1) true no_fields t) [
    | none ↦ none
    | some (f, u) ↦ elim (close_entry base fsize name f) [ none ↦ none | some e ↦ some (e, u) ]
  ]
]
