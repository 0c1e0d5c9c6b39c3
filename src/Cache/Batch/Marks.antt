-- ===== src/Cache/Batch/Marks.antt =====
-- The `requested` marks of `cache_getmany` (src/cache/k3_cache.c).
use kimi_k3_for_me.Prelude.{
  ℕ, ◌+◌, ◌*◌, ◌<◌, ◌≡◌, ◌⊎◌, inl, inr, refl, Bool, true, false, ◌&&◌, ◌||◌, List, [], ◌∷◌, arith,
  if◌then◌else◌, ◌==◌, ltb,
}
use kimi_k3_for_me.Prelude.Int.{ℤ, pos, negsuc}
use kimi_k3_for_me.Cache.Batch.{mark_one, marked}

-- `e` is among the ids.
abbrev pub Has : ℕ → List ℤ → Type 0
Has e [] = ⊥
Has e (id ∷ ids) = (id ≡ pos e) ⊎ Has e ids

module _ (layer n : ℕ) where
  -- Some id of the list names the expert of key `k`.
  names : ℕ → List ℤ → Bool
  names k [] = false
  names k (pos e ∷ ids) = (ltb e n && (layer * n + e == k)) || names k ids
  names k (negsuc e ∷ ids) = names k ids

  marked-names :
      (flag : Bool) (ids : List ℤ) (r : ℕ → Bool) (k : ℕ)
      → marked flag layer n r ids k ≡ (if names k ids then flag else r k)
  unfolding marked mark_one names
  marked-names flag [] r k = refl
  marked-names flag (pos e ∷ ids) r k =
      ground (arith, marked-names flag ids (mark_one flag layer n r (pos e)) k)
  marked-names flag (negsuc e ∷ ids) r k = marked-names flag ids r k

  names-Has : (e : ℕ) (ids : List ℤ) → e < n → Has e ids → names (layer * n + e) ids ≡ true
  unfolding names
  names-Has e [] lt h = absurd h
  names-Has e (pos x ∷ ids) lt (inl q) = ground arith
  names-Has e (pos x ∷ ids) lt (inr h) = ground (arith, names-Has e ids lt h)
  names-Has e (negsuc x ∷ ids) lt (inl q) = absurd (ground arith)
  names-Has e (negsuc x ∷ ids) lt (inr h) = names-Has e ids lt h

  -- The marking loop marks the ids that are in range.
  pub marked-Has :
      (ids : List ℤ) (r : ℕ → Bool) (e : ℕ)
      → e < n
      → Has e ids
      → marked true layer n r ids (layer * n + e) ≡ true
  marked-Has ids r e lt h =
      ground (arith, marked-names true ids r (layer * n + e), names-Has e ids lt h)

  -- The clearing loop leaves no mark that the marking loop set.
  pub marked-marked :
      (ids : List ℤ) (r : ℕ → Bool) (k : ℕ)
      → r k ≡ false
      → marked false layer n (marked true layer n r ids) ids k ≡ false
  marked-marked ids r k h =
      ground
        (arith, marked-names false ids (marked true layer n r ids) k, marked-names true ids r k)
