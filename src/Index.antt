-- ===== src/Index.antt =====
-- The name index of src/io/k3_st.c: `fnv1a`, the bucket table of `k3_st_open`, `k3_st_find`.
-- A name is the list of its bytes without the final zero.
pub mod Tensor
pub mod Laws
pub mod Probe
pub mod Lookup
pub mod Open
mod Tests
use Prim.Native.Nat.{bit_and, bit_xor}
use kimi_k3_for_me.Prelude.{
  ℕ, zero, suc, ◌+◌, ◌-◌, ◌*◌, ◌%◌, ◌^◌, Bool, true, false, ◌&&◌, List, [], ◌∷◌, Option, none, some,
  ltb, ◌==◌, not, if◌then◌else◌,
}
use kimi_k3_for_me.Prelude.Arrays.{update}

-- The loop of `fnv1a`, on the bytes that are left.
unfoldable pub mix : ℕ → List ℕ → ℕ
mix h [] = h
mix h (c ∷ s) = mix (bit_xor h c * 1099511628211 % 2 ^ 64) s

unfoldable pub fnv1a : List ℕ → ℕ
unfolding mix
fnv1a s = mix 1469598103934665603 s

-- `!strcmp(a, b)`.
unfoldable pub same : List ℕ → List ℕ → Bool
same [] [] = true
same [] (d ∷ t) = false
same (c ∷ s) [] = false
same (c ∷ s) (d ∷ t) = c == d && same s t

-- Where a probe ends: at a free bucket, at the entry with the name, or after all its rounds.
pub data Seek : Type 0 where
  at_free at_entry : ℕ → Seek
  lost : Seek

-- The part of `K3St` that lookups read. `bucket` is NULL before the index is opened.
pub record Index : Type 0 where
  pub name : ℕ → List ℕ
  pub nt : ℕ
  pub nbucket : ℕ
  pub bucket : Option (ℕ → Option ℕ)

-- `while (nb < nt * 2) nb <<= 1`, for fewer than 2 ^ 30 tensors: the bucket count is an `int`.
unfoldable pub grow : ℕ → ℕ → ℕ → ℕ
grow zero nt nb = nb
grow (suc n) nt nb = elim (ltb nb (nt * 2)) [ true ↦ grow n nt (2 * nb) | false ↦ nb ]

unfoldable pub bucket_count : ℕ → ℕ
unfolding grow
bucket_count nt = grow nt nt 1024

module _ (name : ℕ → List ℕ) (nb : ℕ) where
  -- `& (nb - 1)`.
  abbrev pub wrap : ℕ → ℕ
  wrap h = bit_and h (nb - 1)

  -- Linear probing from bucket `j`, the loop that insertion and lookup share.
  unfoldable pub seek : (ℕ → Option ℕ) → List ℕ → ℕ → ℕ → Seek
  unfolding same
  seek bucket key zero j = lost
  seek bucket key (suc n) j = elim (bucket j) [
    | none ↦ at_free j
    | some i ↦ elim (same (name i) key) [
      | true ↦ at_entry i
      | false ↦ seek bucket key n (wrap (j + 1))
    ]
  ]

  unfoldable pub probe_name : (ℕ → Option ℕ) → List ℕ → Seek
  unfolding fnv1a seek
  probe_name bucket key = seek bucket key nb (wrap (fnv1a key))

  -- Tensor `i` is entered; a name that is there already is an error.
  unfoldable pub enter : (ℕ → Option ℕ) → ℕ → Option (ℕ → Option ℕ)
  unfolding probe_name
  enter bucket i = elim (probe_name bucket (name i)) [
    | at_free j ↦ some (update bucket j (some i))
    | _ ↦ none
  ]

  -- The table after the first tensors were entered.
  unfoldable pub fill : ℕ → Option (ℕ → Option ℕ)
  unfolding enter
  fill zero = some (λ _. none)
  fill (suc i) = elim (fill i) [ none ↦ none | some bucket ↦ enter bucket i ]

-- The end of `k3_st_open`, behind the scan of the shards: `none` is -1. `allocated` is whether there is
-- memory for the table.
unfoldable pub open_index : (ℕ → List ℕ) → ℕ → Bool → Option Index
unfolding fill bucket_count
open_index name nt allocated =
    let table = fill name (bucket_count nt) nt in
    if not allocated then none else elim table [
      | none ↦ none
      | some b ↦ some record { name = name; nt = nt; nbucket = bucket_count nt; bucket = some b }
    ]

unfoldable pub find_name : Index → List ℕ → Option ℕ
unfolding probe_name
find_name s key = elim s.bucket [
  | none ↦ none
  | some bucket ↦ elim (probe_name s.name s.nbucket bucket key) [ at_entry i ↦ some i | _ ↦ none ]
]
