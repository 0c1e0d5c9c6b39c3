-- ===== src/Header/Shard.antt =====
-- A shard's header: `scan_shard` of src/io/k3_st.c, with what its reads return as arguments.
-- Allocation does not fail, and the message about trailing bytes is left out.
use kimi_k3_for_me.Prelude.{
  ℕ, zero, suc, ◌+◌, ◌-◌, ◌*◌, ◌^◌, Bool, true, false, ◌||◌, List, [], ◌∷◌, Option, none, some, ltb,
  ◌==◌, if◌then◌else◌, length,
}
use kimi_k3_for_me.Index.{same}
use kimi_k3_for_me.Header.{lit, str_, skip_value}
use kimi_k3_for_me.Header.Entry.{Scanned, c_string, metadata_key, separated, read_entry}

-- One tensor, or the metadata, which is skipped.
unfoldable pub read_member : ℕ → ℕ → List ℕ → Option (Option Scanned × List ℕ)
unfolding str_ lit same c_string skip_value read_entry
read_member base fsize s = elim (str_ 512 s) [
  | none ↦ none
  | some (name, t) ↦ elim (lit 58 t) [
    | none ↦ none
    | some u ↦
        if same (c_string name) metadata_key
        then elim (skip_value u) [ none ↦ none | some v ↦ some (none, v) ]
        else elim (read_entry base fsize name u) [ none ↦ none | some (e, v) ↦ some (some e, v) ]
  ]
]

abbrev pub push : Option Scanned → List Scanned → List Scanned
push none es = es
push (some e) es = e ∷ es

-- The loop over the members; `n` bounds its rounds. A comma may stand before the closing brace.
unfoldable pub read_members : ℕ → ℕ → ℕ → Bool → List ℕ → Option (List Scanned)
unfolding lit read_member
read_members base fsize zero first s = none
read_members base fsize (suc n) first s = elim (lit 125 s) [
  | some _ ↦ some []
  | none ↦ elim (separated first s) [
    | none ↦ none
    | some t ↦ elim (lit 125 t) [
      | some _ ↦ some []
      | none ↦ elim (read_member base fsize t) [
        | none ↦ none
        | some (e, u) ↦ elim (read_members base fsize n false u) [
          | none ↦ none
          | some es ↦ some (push e es)
        ]
      ]
    ]
  ]
]

unfoldable pub read_object : ℕ → ℕ → List ℕ → Option (List Scanned)
unfolding lit read_members
read_object base fsize s = elim (lit 123 s) [
  | none ↦ none
  | some t ↦ read_members base fsize (length t + 1) true t
]

-- The eight bytes in front of the header, the last one highest.
unfoldable pub little_endian : List ℕ → ℕ
little_endian [] = 0
little_endian (b ∷ bs) = little_endian bs * 256 + b

-- A length that the file cannot hold.
abbrev pub is_impossible : ℕ → ℕ → ℕ → Bool
is_impossible local_size fsize hlen =
    (ltb local_size 8 || ltb fsize 8)
    || ((hlen == 0 || ltb (64 * 2 ^ 20) hlen)
        || (ltb (local_size - 8) hlen || ltb (fsize - 8) hlen))

-- `scan_shard` of an open file: `lenbuf` is what the read of the length returns, `json` what the
-- loop of reads behind it returns for the length.
unfoldable pub scan_shard : ℕ → ℕ → List ℕ → (ℕ → List ℕ) → Option (List Scanned)
unfolding little_endian read_object
scan_shard local_size fsize lenbuf json =
    let hlen = little_endian lenbuf in
    if length lenbuf == 8
    then (if is_impossible local_size fsize hlen
        then none
        else (if length (json hlen) == hlen
            then read_object (8 + hlen) fsize (json hlen)
            else none))
    else none
