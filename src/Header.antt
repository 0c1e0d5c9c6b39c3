-- ===== src/Header.antt =====
-- The JSON scanner of src/io/k3_st.c: `ws`, `lit`, `str_`, `i64_`, `skip_value`, on the text that is
-- left. A character is its byte; a `char` is signed. A number that leaves `int64_t` is outside.
pub mod Entry
pub mod Shard
pub mod Rest
pub mod Fuel
pub mod Extent
pub mod Bounds
pub mod Print
pub mod Tokens
pub mod FieldTrip
pub mod EntryTrip
pub mod RoundTrip
mod Tests
use Prim.Native.Nat.{bit_or}
use kimi_k3_for_me.Prelude.{
  ℕ, zero, suc, ◌+◌, ◌-◌, ◌*◌, ◌%◌, ◌^◌, Bool, true, false, ◌&&◌, ◌||◌, not, List, [], ◌∷◌, Option,
  none, some, ltb, leb, ◌==◌, if◌then◌else◌, length,
}
use kimi_k3_for_me.Prelude.Int64.{int64}
use kimi_k3_for_me.Prelude.Int.{ℤ, pos, negsuc, negative}
use kimi_k3_for_me.Cache.Profile.{digits, is_digit, starts_with}

-- `ws`.
unfoldable pub ws : List ℕ → List ℕ
ws [] = []
ws (c ∷ s) = let rest = ws s in if leb c 32 then rest else c ∷ s

-- `p < end && *p == c`.
abbrev pub heads : ℕ → List ℕ → Option (List ℕ)
heads c [] = none
heads c (d ∷ s) = if d == c then some s else none

-- `lit`.
unfoldable pub lit : ℕ → List ℕ → Option (List ℕ)
unfolding ws
lit c s = heads c (ws s)

-- A digit of `\uXXXX`, as an `unsigned`.
abbrev pub hex : ℕ → ℕ
hex h =
    if leb h 57
    then (h + 2 ^ 32 - 48) % 2 ^ 32
    else (if leb 128 h then (h + 2 ^ 32 - 304) % 2 ^ 32 else (bit_or h 32 + 2 ^ 32 - 87) % 2 ^ 32)

-- What follows a backslash, but for `u`: n, t, r, b, f, or itself.
abbrev pub escape : ℕ → ℕ
escape e =
    if e == 110
    then 10
    else (if e == 116
        then 9
        else (if e == 114 then 13 else (if e == 98 then 8 else (if e == 102 then 12 else e))))

-- Where the loop of `str_` is: at a character, behind a backslash, or at one of the digits that
-- follow `\u`, with as many to come behind it.
pub data Place : Type 0 where
  at_char behind : Place
  at_hex : ℕ → ℕ → Place

-- The characters up to the closing quote, and the text behind it.
unfoldable pub str_body : Place → List ℕ → Option (List ℕ × List ℕ)
str_body x [] = none
str_body at_char (c ∷ s) = elim (c == 34) [
  | true ↦ some ([], s)
  | false ↦ elim (c == 92) [
    | true ↦ str_body behind s
    | false ↦ elim (str_body at_char s) [ none ↦ none | some (out, t) ↦ some (c ∷ out, t) ]
  ]
]
str_body behind (c ∷ s) = elim (c == 117) [
  | true ↦ str_body (at_hex 3 0) s
  | false ↦ elim (str_body at_char s) [ none ↦ none | some (out, t) ↦ some (escape c ∷ out, t) ]
]
str_body (at_hex zero v) (c ∷ s) =
    let u = (v * 16 + hex c) % 2 ^ 32 in
    elim (str_body at_char s) [
      | none ↦ none
      | some (out, t) ↦ some ((if ltb u 128 then u else 63) ∷ out, t)
    ]
str_body (at_hex (suc n) v) (c ∷ s) = str_body (at_hex n ((v * 16 + hex c) % 2 ^ 32)) s

-- `str_` into a buffer of `cap` bytes.
unfoldable pub str_ : ℕ → List ℕ → Option (List ℕ × List ℕ)
unfolding lit str_body
str_ cap s = elim (lit 34 s) [
  | none ↦ none
  | some t ↦ elim (str_body at_char t) [
    | none ↦ none
    | some (out, rest) ↦ if ltb cap (length out + 1) then none else some (out, rest)
  ]
]

-- The sign of `i64_`.
abbrev pub signed : List ℕ → Bool × List ℕ
signed [] = (false, [])
signed (c ∷ s) = if c == 45 || c == 43 then (c == 45, s) else (false, c ∷ s)

-- `i64_`; the value wraps around as the accumulator does.
unfoldable pub i64_ : List ℕ → Option (ℤ × List ℕ)
unfolding ws digits
i64_ s =
    let (neg, t) = signed (ws s) in
    if starts_with is_digit t
    then (let (a, rest) = digits 0 t in some (int64 (if neg then negative a else pos a), rest))
    else none

-- Where the loop of `skip_value` over a nested value is: outside of strings, in one, or behind a
-- backslash in one.
pub data Within : Type 0 where
  plain quoted escaped : Within

-- The text behind the quote that closes a string.
unfoldable pub skip_string : Within → List ℕ → Option (List ℕ)
skip_string x [] = none
skip_string plain (c ∷ s) = none
skip_string quoted (c ∷ s) = elim (c == 34) [
  | true ↦ some s
  | false ↦ elim (c == 92) [ true ↦ skip_string escaped s | false ↦ skip_string quoted s ]
]
skip_string escaped (c ∷ s) = skip_string quoted s

-- The text behind a nested value, `depth` brackets of which are open.
unfoldable pub skip_nested : Within → ℕ → List ℕ → Option (List ℕ)
skip_nested x depth [] = none
skip_nested plain depth (c ∷ s) = elim (c == 34) [
  | true ↦ skip_nested quoted depth s
  | false ↦ elim (c == 123 || c == 91) [
    | true ↦ skip_nested plain (depth + 1) s
    | false ↦ elim (c == 125 || c == 93) [
      | true ↦ elim (leb depth 1) [ true ↦ some s | false ↦ skip_nested plain (depth - 1) s ]
      | false ↦ skip_nested plain depth s
    ]
  ]
]
skip_nested quoted depth (c ∷ s) = elim (c == 34) [
  | true ↦ skip_nested plain depth s
  | false ↦ elim (c == 92) [
    | true ↦ skip_nested escaped depth s
    | false ↦ skip_nested quoted depth s
  ]
]
skip_nested escaped depth (c ∷ s) = skip_nested quoted depth s

-- Anything else ends before a comma or a closing bracket.
unfoldable pub skip_plain : List ℕ → List ℕ
skip_plain [] = []
skip_plain (c ∷ s) =
    let rest = skip_plain s in if c == 44 || (c == 125 || c == 93) then c ∷ s else rest

unfoldable pub skip_from : List ℕ → Option (List ℕ)
unfolding skip_string skip_nested skip_plain
skip_from [] = none
skip_from (c ∷ s) = elim (c == 34) [
  | true ↦ skip_string quoted s
  | false ↦ elim (c == 123 || c == 91) [
    | true ↦ skip_nested plain 1 s
    | false ↦ some (skip_plain (c ∷ s))
  ]
]

-- `skip_value`.
unfoldable pub skip_value : List ℕ → Option (List ℕ)
unfolding ws skip_from
skip_value s = skip_from (ws s)
