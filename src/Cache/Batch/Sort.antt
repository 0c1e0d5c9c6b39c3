-- ===== src/Cache/Batch/Sort.antt =====
-- The insertion sort of `cache_getmany` (src/cache/k3_cache.c): disk order, nothing lost.
use mathlib.Core.List.{reverse, reverse-cons, reverse-reverse, Perm, append-nil, perm_middle}
use mathlib.Core.List.Perm
use kimi_k3_for_me.Prelude.{
  ◌≤◌, ◌<◌, ◌≡◌, ◌⊎◌, inl, inr, true, false, List, [], ◌∷◌, ◌++◌, All, All-append, All-map, arith,
  Bool-cases, sym, subst,
}
use kimi_k3_for_me.Cache.Batch.{Work, is_later, insert, sort_from, sort}
use kimi_k3_for_me.Cache.Batch.Reserve.{IsApart, IsDistinct, IsDistinct-append}

-- `a` lies in an earlier shard than `b`, or in the same one and not behind it.
abbrev pub IsBefore : Work → Work → Type 0
IsBefore a b = (a.r.shard < b.r.shard) ⊎ ((a.r.shard ≡ b.r.shard) × (a.r.off ≤ b.r.off))

abbrev IsFalling : List Work → Type 0
IsFalling [] = Unit
IsFalling (x ∷ xs) = All (λ y. IsBefore y x) xs × IsFalling xs

abbrev pub IsRising : List Work → Type 0
IsRising [] = Unit
IsRising (x ∷ xs) = All (IsBefore x) xs × IsRising xs

later→IsBefore : (x t : Work) → is_later x t ≡ true → IsBefore t x
later→IsBefore x t h = grind arith

not-later→IsBefore : (x t : Work) → is_later x t ≡ false → IsBefore x t
not-later→IsBefore x t h = grind arith

IsBefore-trans : (x y z : Work) → IsBefore x y → IsBefore y z → IsBefore x z
IsBefore-trans x y z p q = grind arith

All-insert {κ} :
    (P : Work → Type κ) (t : Work) (xs : List Work) → P t → All P xs → All P (insert t xs)
unfolding insert
All-insert P t [] p h = (p, tt)
All-insert P t (x ∷ xs) p h = elim (Bool-cases (is_later x t)) [
  | inl e ↦ rw (e, insert) (h.0, All-insert P t xs p h.1)
  | inr e ↦ rw (e, insert) (p, h)
]

insert-IsFalling : (t : Work) (xs : List Work) → IsFalling xs → IsFalling (insert t xs)
unfolding insert
insert-IsFalling t [] h = (tt, tt)
insert-IsFalling t (x ∷ xs) h = elim (Bool-cases (is_later x t)) [
  | inl e ↦
      rw (e, insert)
        (All-insert (λ y. IsBefore y x) t xs (later→IsBefore x t e) h.0, insert-IsFalling t xs h.1)
  | inr e ↦
      let first = not-later→IsBefore x t e in
      rw (e, insert)
        (
          (
            first,
            All-map (λ y. IsBefore y x) (λ y. IsBefore y t) (λ y p. IsBefore-trans y x t p first) xs
                h.0,
          ),
          h,
        )
]

insert-IsDistinct :
    (t : Work) (xs : List Work) → All (IsApart t) xs → IsDistinct xs → IsDistinct (insert t xs)
unfolding insert
insert-IsDistinct t [] a h = (tt, tt)
insert-IsDistinct t (x ∷ xs) a h = elim (Bool-cases (is_later x t)) [
  | inl e ↦
      rw (e, insert)
        (
          All-insert (IsApart x) t xs ((λ q. a.0.0 (sym q)), λ q. a.0.1 (sym q)) h.0,
          insert-IsDistinct t xs a.1 h.1,
        )
  | inr e ↦ rw (e, insert) (a, h)
]

insert-perm : (t : Work) (xs : List Work) → Perm (insert t xs) (t ∷ xs)
unfolding insert
insert-perm t [] = Perm.refl (t ∷ [])
insert-perm t (x ∷ xs) = elim (Bool-cases (is_later x t)) [
  | inl e ↦ rw (e, insert) (Perm.trans (Perm.cons x (insert-perm t xs)) (Perm.swap t x xs))
  | inr e ↦ rw (e, insert) (Perm.refl (t ∷ x ∷ xs))
]

reverse-All {κ} : (P : Work → Type κ) (xs : List Work) → All P xs → All P (reverse xs)
reverse-All P [] h = tt
reverse-All P (x ∷ xs) h =
    rw (reverse-cons x xs) (All-append P (reverse xs) (x ∷ []) (reverse-All P xs h.1) (h.0, tt))

reverse-IsDistinct : (xs : List Work) → IsDistinct xs → IsDistinct (reverse xs)
reverse-IsDistinct [] h = tt
reverse-IsDistinct (x ∷ xs) h = rw (reverse-cons x xs) (
    IsDistinct-append (reverse xs) x (reverse-IsDistinct xs h.1) (
      reverse-All (λ w. IsApart w x) xs
        (All-map (IsApart x) (λ w. IsApart w x) (λ w a. ((λ q. a.0 (sym q)), λ q. a.1 (sym q))) xs
          h.0)))

IsRising-append :
    (xs : List Work) (x : Work)
    → IsRising xs
    → All (λ y. IsBefore y x) xs
    → IsRising (xs ++ (x ∷ []))
IsRising-append [] x h a = (tt, tt)
IsRising-append (y ∷ xs) x h a =
    (All-append (IsBefore y) xs (x ∷ []) h.0 (a.0, tt), IsRising-append xs x h.1 a.1)

reverse-IsRising : (xs : List Work) → IsFalling xs → IsRising (reverse xs)
reverse-IsRising [] h = tt
reverse-IsRising (x ∷ xs) h = rw (reverse-cons x xs) (
    IsRising-append (reverse xs) x (reverse-IsRising xs h.1)
      (reverse-All (λ y. IsBefore y x) xs h.0))

reverse-perm : (xs : List Work) → Perm (reverse xs) xs
reverse-perm [] = Perm.refl []
reverse-perm (x ∷ xs) =
    rw (reverse-cons x xs)
      (Perm.trans (perm_middle (reverse xs) []) (Perm.cons x (rw append-nil (reverse-perm xs))))

sort_from-IsRising : (ws before : List Work) → IsFalling before → IsRising (sort_from before ws)
unfolding sort_from
sort_from-IsRising [] before h = reverse-IsRising before h
sort_from-IsRising (t ∷ ws) before h =
    sort_from-IsRising ws (insert t before) (insert-IsFalling t before h)

sort_from-perm : (ws before : List Work) → Perm (sort_from before ws) (before ++ ws)
unfolding sort_from
sort_from-perm [] before = rw append-nil (reverse-perm before)
sort_from-perm (t ∷ ws) before = Perm.trans (sort_from-perm ws (insert t before)) (
    Perm.trans (Perm.append (insert-perm t before) (Perm.refl ws))
      (Perm.symm (perm_middle before ws)))

-- The reads go out in the order of their shards and, in one shard, of their offsets, and they are
-- the reserved ones, each as often as it was reserved.
pub sort-IsRising : (ws : List Work) → IsRising (sort ws) × Perm (sort ws) ws
unfolding sort
sort-IsRising ws = (sort_from-IsRising ws [] tt, sort_from-perm ws [])

sort_from-All {κ} :
    (P : Work → Type κ) (ws before : List Work)
    → All P ws
    → All P before
    → All P (sort_from before ws)
unfolding sort_from
sort_from-All P [] before h b = reverse-All P before b
sort_from-All P (t ∷ ws) before h b =
    sort_from-All P ws (insert t before) h.1 (All-insert P t before h.0 b)

pub sort-All {κ} : (P : Work → Type κ) (ws : List Work) → All P ws → All P (sort ws)
unfolding sort
sort-All P ws h = sort_from-All P ws [] h tt

sort_from-IsDistinct :
    (ws before : List Work)
    → IsDistinct ws
    → IsDistinct before
    → All (λ w. All (IsApart w) before) ws
    → IsDistinct (sort_from before ws)
unfolding sort_from
sort_from-IsDistinct [] before d b a = reverse-IsDistinct before b
sort_from-IsDistinct (t ∷ ws) before d b a =
    sort_from-IsDistinct ws (insert t before) d.1 (insert-IsDistinct t before a.0 b)
      (apart ws d.0 a.1)
  where
    apart :
        (xs : List Work)
        → All (IsApart t) xs
        → All (λ w. All (IsApart w) before) xs
        → All (λ w. All (IsApart w) (insert t before)) xs
    apart [] p q = tt
    apart (x ∷ xs) p q = (
      All-insert (IsApart x) t before ((λ e. p.0.0 (sym e)), λ e. p.0.1 (sym e)) q.0,
      apart xs p.1 q.1,
    )

All-trivial : (ws : List Work) → All (λ w. All (IsApart w) []) ws
All-trivial [] = tt
All-trivial (w ∷ ws) = (tt, All-trivial ws)

pub sort-IsDistinct : (ws : List Work) → IsDistinct ws → IsDistinct (sort ws)
unfolding sort
sort-IsDistinct ws d = sort_from-IsDistinct ws [] d tt (All-trivial ws)

insert-All_inv {κ} :
    (P : Work → Type κ) (t : Work) (xs : List Work) → All P (insert t xs) → P t × All P xs
unfolding insert
insert-All_inv P t [] h = h
insert-All_inv P t (x ∷ xs) h = elim (Bool-cases (is_later x t)) [
  | inl e ↦
      let (hx, rest) = rw (e, insert) at h in
      let (ht, hs) = insert-All_inv P t xs rest in (ht, (hx, hs))
  | inr e ↦ rw (e, insert) at h
]

sort_from-All_inv {κ} :
    (P : Work → Type κ) (ws before : List Work)
    → All P (sort_from before ws)
    → All P ws × All P before
unfolding sort_from
sort_from-All_inv P [] before h =
    (tt, subst (All P) (reverse-reverse before) (reverse-All P (reverse before) h))
sort_from-All_inv P (t ∷ ws) before h =
    let (a, b) = sort_from-All_inv P ws (insert t before) h in
    let (p, q) = insert-All_inv P t before b in ((p, a), q)

pub sort-All_inv {κ} : (P : Work → Type κ) (ws : List Work) → All P (sort ws) → All P ws
unfolding sort
sort-All_inv P ws h = (sort_from-All_inv P ws [] h).0
