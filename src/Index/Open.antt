-- ===== src/Index/Open.antt =====
-- `k3_st_open` of src/io/k3_st.c from the scan of its shards on: what each `scan_shard` returned, the
-- names of all tensors, and the table.
use kimi_k3_for_me.Prelude.{
  ℕ, zero, suc, ◌≡◌, ◌↔◌, ◌⊎◌, inl, inr, refl, Bool, true, false, List, [], ◌∷◌, ◌++◌, Option, none,
  some, length,
}
use kimi_k3_for_me.Header.Entry.{Scanned}
use kimi_k3_for_me.Index.{Index, open_index}
use kimi_k3_for_me.Index.Lookup.{Repeats, open_index-none}

-- The loop over the shards, up to the first that is refused.
unfoldable pub gather : List (Option (List Scanned)) → Option (List Scanned)
gather [] = some []
gather (x ∷ xs) = elim x [
  | none ↦ none
  | some ts ↦ elim (gather xs) [ none ↦ none | some us ↦ some (ts ++ us) ]
]

-- The name of tensor `i`.
abbrev pub name_at : List Scanned → ℕ → List ℕ
name_at [] i = []
name_at (t ∷ ts) zero = t.name
name_at (t ∷ ts) (suc i) = name_at ts i

unfoldable pub open_store : List (Option (List Scanned)) → Bool → Option Index
unfolding gather open_index
open_store scans allocated = elim (gather scans) [
  | none ↦ none
  | some ts ↦ open_index (name_at ts) (length ts) allocated
]

-- Some shard was refused.
abbrev pub HasRefused : List (Option (List Scanned)) → Type 0
HasRefused [] = ⊥
HasRefused (none ∷ xs) = Unit
HasRefused (some ts ∷ xs) = HasRefused xs

-- The tensors of all shards.
abbrev pub tensors_of : List (Option (List Scanned)) → List Scanned
tensors_of [] = []
tensors_of (none ∷ xs) = tensors_of xs
tensors_of (some ts ∷ xs) = ts ++ tensors_of xs

gather-cases :
    (xs : List (Option (List Scanned)))
    → ((gather xs ≡ none) × HasRefused xs)
      ⊎ ((gather xs ≡ some (tensors_of xs)) × ¬ (HasRefused xs))
unfolding gather
gather-cases [] = inr (refl, λ x. x)
gather-cases (none ∷ xs) = inl (refl, tt)
gather-cases (some ts ∷ xs) = elim (gather-cases xs) [
  | inl (e, h) ↦ inl (rw (e, gather) refl, h)
  | inr (e, n) ↦ inr (rw (e, gather) refl, n)
]

-- From the scan of the shards on, `k3_st_open` gives an error exactly if a shard was refused, or there is
-- no memory for the table, or two tensors, of one shard or of two, have one name.
pub open_store-none :
    (scans : List (Option (List Scanned))) (allocated : Bool)
    → (open_store scans allocated ≡ none) ↔ (
        HasRefused scans
        ⊎ ((allocated ≡ false)
            ⊎ Repeats
                (name_at (tensors_of scans))
                (length (tensors_of scans))
                (length (tensors_of scans))))
unfolding open_store open_index
open_store-none scans allocated = elim (gather-cases scans) [
  | inl (e, h) ↦ (λ p. inl h, λ p. rw (e, open_store) refl)
  | inr (e, n) ↦ rw (e, open_store) (opened allocated n)
]
  where
    opened :
        (a : Bool)
        → ¬ (HasRefused scans)
        → (open_index (name_at (tensors_of scans)) (length (tensors_of scans)) a ≡ none) ↔ (
            HasRefused scans
            ⊎ ((a ≡ false)
                ⊎ Repeats
                    (name_at (tensors_of scans))
                    (length (tensors_of scans))
                    (length (tensors_of scans))))
    opened false n = (λ p. inr (inl refl), λ p. refl)
    opened true n =
        let (out, into) =
          open_index-none (name_at (tensors_of scans)) (length (tensors_of scans)) in
        (
          λ p. inr (inr (out p)),
          λ p. elim p [
            | inl bad ↦ absurd (n bad)
            | inr (inl full) ↦ absurd cc
            | inr (inr twice) ↦ into twice
          ],
        )
