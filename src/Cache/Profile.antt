-- ===== src/Cache/Profile.antt =====
-- Pin profiles of src/cache/k3_cache.c: `profile_fields`, `read_profile`, `k3_cache_load_profile`.
-- A line is the list of the bytes that one `fgets` returns, without its zero.
pub mod Laws
pub mod Loaded
mod Tests
use kimi_k3_for_me.Prelude.{
  ℕ, zero, suc, ◌+◌, ◌-◌, ◌*◌, ◌^◌, Bool, true, false, not, ◌&&◌, ◌||◌, List, [], ◌∷◌, Option, none,
  some, ltb, leb, ◌==◌, if◌then◌else◌,
}
use kimi_k3_for_me.Prelude.Arrays.{update}
use kimi_k3_for_me.Prelude.Int.{ℤ, pos, negsuc}
use kimi_k3_for_me.Load.Geometry.{ExpertRef}
use kimi_k3_for_me.Cache.State.{Cache}
use kimi_k3_for_me.Cache.Batch.{max_topk}

abbrev pub is_blank : ℕ → Bool
is_blank c = c == 32 || c == 9

abbrev pub is_digit : ℕ → Bool
is_digit c = leb 48 c && leb c 57

unfoldable pub skip_blanks : List ℕ → List ℕ
skip_blanks [] = []
skip_blanks (c ∷ s) = let rest = skip_blanks s in if is_blank c then rest else c ∷ s

-- Only blanks, carriage returns and line feeds are left.
unfoldable pub is_over : List ℕ → Bool
is_over [] = true
is_over (c ∷ s) = (is_blank c || (c == 13 || c == 10)) && is_over s

-- The digits at the start of a text as a number, added to those before, and the rest: `strtoull`
-- without its limit.
unfoldable pub digits : ℕ → List ℕ → ℕ × List ℕ
digits v [] = (v, [])
digits v (c ∷ s) =
    let more = digits (v * 10 + (c - 48)) s in if is_digit c then more else (v, c ∷ s)

abbrev pub starts_with : (ℕ → Bool) → List ℕ → Bool
starts_with p [] = false
starts_with p (c ∷ s) = p c

-- `profile_fields` with `n` fields to go.
unfoldable pub profile_fields : List ℕ → ℕ → Option (List ℕ)
unfolding skip_blanks digits is_over
profile_fields s zero = if is_over s then some [] else none
profile_fields s (suc n) =
    let text = skip_blanks s in
    let (v, rest) = digits 0 text in
    let fields = profile_fields rest n in
    if not (starts_with is_digit text) || leb (2 ^ 64) v
    then none
    else (if not (n == 0) && not (starts_with is_blank rest)
        then none
        else elim fields [ none ↦ none | some vs ↦ some (v ∷ vs) ])

unfoldable pub has_newline : List ℕ → Bool
has_newline [] = false
has_newline (c ∷ s) = c == 10 || has_newline s

-- "K3EXPERTS ".
abbrev pub magic : List ℕ
magic = 75 ∷ 51 ∷ 69 ∷ 88 ∷ 80 ∷ 69 ∷ 82 ∷ 84 ∷ 83 ∷ 32 ∷ []

unfoldable pub after : List ℕ → List ℕ → Option (List ℕ)
after [] s = some s
after (c ∷ p) [] = none
after (c ∷ p) (d ∷ s) = let rest = after p s in if c == d then rest else none

-- The geometry that a profile declares.
pub record Geometry : Type 0 where
  pub n_layers : ℕ
  pub n_experts : ℕ
  pub topk : ℕ

abbrev pub geometry_of : List ℕ → Option Geometry
geometry_of (version ∷ n_layers ∷ n_experts ∷ topk ∷ []) =
    if not (version == 1) || (n_layers == 0 || ltb 4096 n_layers)
    then none
    else (if (n_experts == 0 || ltb 65536 n_experts)
          || (topk == 0 || (ltb max_topk topk || ltb n_experts topk))
        then none
        else some record { n_layers = n_layers; n_experts = n_experts; topk = topk })
geometry_of _ = none

-- The first line.
unfoldable pub header : List ℕ → Option Geometry
unfolding after has_newline profile_fields
header line = elim (after magic line) [
  | none ↦ none
  | some text ↦
      if not (has_newline line)
      then none
      else elim (profile_fields text 4) [ none ↦ none | some vs ↦ geometry_of vs ]
]

-- The state of the loop over the rows. `prev_key` is `none` for -1.
pub record Rows : Type 0 where
  pub seen : ℕ → Bool
  pub selected : ℕ → Bool
  pub prev_key : Option ℕ
  pub prev_count : ℕ
  pub rows : ℕ

-- `find` is `k3_expert_ref`, or `none` where there is no cache.
module _ (find : Option (ℕ → ℕ → Option ExpertRef)) (g : Geometry) (count : ℕ) where
  -- What a row is refused for, from its fields.
  unfoldable pub refuses : Rows → ℕ → ℕ → ℕ → Bool
  refuses m l e n =
      leb g.n_layers l
      || (leb g.n_experts e
          || ((n == 0 || ltb m.prev_count n)
              || (m.seen (l * g.n_experts + e)
                  || (n == m.prev_count
                      && elim m.prev_key [ none ↦ false | some k ↦ leb (l * g.n_experts + e) k ]))))

  -- Whether the row is one of the first `count`, and is looked up.
  abbrev pub takes : Rows → Bool
  takes m = elim find [ none ↦ false | some f ↦ ltb m.rows count ]

  abbrev pub present : ℕ → ℕ → Bool
  present l e = elim find [ none ↦ true | some f ↦ elim (f l e) [ none ↦ false | some r ↦ true ] ]

  abbrev pub accept : Rows → ℕ → ℕ → ℕ → Rows
  accept m l e n =
      let key = l * g.n_experts + e in
      record {
        seen = update m.seen key true;
        selected = if takes m then update m.selected key true else m.selected;
        prev_key = some key;
        prev_count = n;
        rows = m.rows + 1;
      }

  abbrev pub row_of : Rows → List ℕ → Option Rows
  row_of m (l ∷ e ∷ n ∷ []) =
      if refuses m l e n
      then none
      else (if takes m && not (present l e) then none else some (accept m l e n))
  row_of m _ = none

  unfoldable pub row : Rows → List ℕ → Option Rows
  unfolding refuses has_newline profile_fields
  row m line =
      if not (has_newline line)
      then none
      else elim (profile_fields line 3) [ none ↦ none | some vs ↦ row_of m vs ]

  unfoldable pub read_rows : Rows → List (List ℕ) → Option Rows
  unfolding row
  read_rows m [] = some m
  read_rows m (line ∷ lines) = elim (row m line) [ none ↦ none | some d ↦ read_rows d lines ]

abbrev pub no_rows : Rows
no_rows = record {
  seen = λ k. false;
  selected = λ k. false;
  prev_key = none;
  prev_count = 2 ^ 64 - 1;
  rows = 0;
}

-- `read_profile` past the opening of the file, with what it would copy to `hot_key`. `own` is the
-- geometry and the lookup of a cache; `broken` is `ferror`.
unfoldable pub read_profile :
    Option (Geometry × (ℕ → ℕ → Option ExpertRef)) → List (List ℕ) → Bool → ℕ → Option (ℕ → Bool)
unfolding header read_rows
read_profile own [] broken count = none
read_profile own (line ∷ lines) broken count = elim (header line) [
  | none ↦ none
  | some g ↦
      if elim own [
        | none ↦ false
        | some (o, f) ↦
            not (g.n_layers == o.n_layers)
            || (not (g.n_experts == o.n_experts) || not (g.topk == o.topk))
      ]
      then none
      else (if ltb (g.n_layers * g.n_experts) count
          then none
          else elim (read_rows (elim own [ none ↦ none | some (o, f) ↦ some f ]) g count no_rows
              lines) [
                | none ↦ none
                | some m ↦ if broken || ltb m.rows count then none else some m.selected
              ])
]

-- `k3_cache_check_profile`.
unfoldable pub check_profile : List (List ℕ) → Bool → ℤ → Bool
unfolding read_profile
check_profile lines broken (pos zero) = false
check_profile lines broken (pos (suc n)) = elim (read_profile none lines broken (suc n)) [
  | none ↦ false
  | some marks ↦ true
]
check_profile lines broken (negsuc n) = false

module _ {B : Type 0} (find : ℕ → ℕ → Option ExpertRef) where
  -- `k3_cache_load_profile`, with whether it succeeded.
  unfoldable pub load_profile : Cache B → List (List ℕ) → Bool → ℤ → Cache B × Bool
  unfolding read_profile
  load_profile c lines broken (negsuc n) = (c, false)
  load_profile c lines broken (pos count) =
      if not (c.clock == 0) || (count == 0 || ltb c.nslot (count + c.topk + 1))
      then (c, false)
      else elim (read_profile
          (some (record { n_layers = c.n_layers; n_experts = c.n_experts; topk = c.topk }, find))
          lines broken count) [
            | none ↦ (c, false)
            | some marks ↦ (record c { hot_key = marks; profile_pins = count }, true)
          ]
