-- ===== src/Cache/Victim/Lru.antt =====
-- Which slot the scan of `pick_victim` (src/cache/k3_cache.c) chooses.
use kimi_k3_for_me.Prelude.{
  ℕ, zero, suc, ◌+◌, ◌-◌, ◌^◌, ◌≤◌, ◌<◌, ◌≡◌, ◌≢◌, ◌⊎◌, inl, inr, refl, Bool, true, false, ◌&&◌,
  Option, none, some, arith, ltb, if◌then◌else◌, dec_lt, Bool-cases,
}
use kimi_k3_for_me.Cache.State.{Cache, empty, holds, Slot-cases}
use kimi_k3_for_me.Cache.Victim.{skip, take, compete, probe, scan, pick_victim, Probe-cases}

module _ {B : Type 0} (c : Cache B) (protect_batch : Bool) where
  -- A slot that holds an expert which may be evicted.
  abbrev pub IsEvictable : ℕ → Type 0
  IsEvictable i =
      (k : ℕ) × (c.key_of i ≡ holds k)
      × (c.pinned i ≡ false)
      × (c.hot_key k ≡ false)
      × ((protect_batch && c.requested k) ≡ false)

  -- The answer over the slots below `n`: nothing to take, the first empty slot, or the oldest of
  -- the evictable ones where none is empty.
  abbrev pub Picked : ℕ → Option ℕ → Type 0
  Picked n none = (j : ℕ) → j < n → (c.key_of j ≢ empty) × ¬ IsEvictable j
  Picked n (some b) =
      (b < n)
      × (((c.key_of b ≡ empty) × ((j : ℕ) → j < b → c.key_of j ≢ empty))
          ⊎ (IsEvictable b
              × ((j : ℕ)
                  → j < n
                  → (c.key_of j ≢ empty) × (IsEvictable j → c.used_at b ≤ c.used_at j))))

  abbrev Seen : ℕ → Option ℕ → ℕ → Type 0
  Seen i none oldest = (oldest ≡ 2 ^ 64 - 1) × ((j : ℕ) → j < i → probe c protect_batch j ≡ skip)
  Seen i (some b) oldest =
      (b < i)
      × (probe c protect_batch b ≡ compete)
      × (oldest ≡ c.used_at b)
      × ((j : ℕ)
          → j < i
          → (probe c protect_batch j ≢ take)
            × (probe c protect_batch j ≡ compete → c.used_at b ≤ c.used_at j))

  probe-take : (i : ℕ) → probe c protect_batch i ≡ take → c.key_of i ≡ empty
  unfolding probe
  probe-take i h = ground arith

  take-probe : (i : ℕ) → c.key_of i ≡ empty → probe c protect_batch i ≡ take
  unfolding probe
  take-probe i h = ground arith

  probe-compete : (i : ℕ) → probe c protect_batch i ≡ compete → IsEvictable i
  unfolding probe
  probe-compete i h = elim (Slot-cases (c.key_of i)) [
    | inl e ↦ absurd (ground arith)
    | inr (inl e) ↦ absurd (ground arith)
    | inr (inr (k, e)) ↦ (k, e, ground arith, ground arith, ground arith)
  ]

  compete-probe : (i : ℕ) → IsEvictable i → probe c protect_batch i ≡ compete
  unfolding probe
  compete-probe i (k, e, p, h, r) = rw (e, p, h, r, probe)

  -- One more slot has been looked at.
  Seen-skip :
      (i : ℕ) (best : Option ℕ) (oldest : ℕ)
      → probe c protect_batch i ≡ skip
      → Seen i best oldest
      → Seen (i + 1) best oldest
  Seen-skip i none oldest e (o, all) = (
    o,
    λ j h. elim (dec_lt j i) [
      | yes p ↦ all j p
      | no p ↦ let same : j ≡ i = omega arith in rw same e
    ],
  )
  Seen-skip i (some b) oldest e (lt, pb, o, all) = (
    omega arith,
    pb,
    o,
    λ j h. elim (dec_lt j i) [
      | yes p ↦ all j p
      | no p ↦ let same : j ≡ i = omega arith in rw same ((λ t. cc), λ t. cc)
    ],
  )

  Seen-compete :
      (i : ℕ) (best : Option ℕ) (oldest : ℕ)
      → c.used_at i < 2 ^ 64 - 1
      → probe c protect_batch i ≡ compete
      → Seen i best oldest
      → Seen
          (i + 1)
          (if ltb (c.used_at i) oldest then some i else best)
          (if ltb (c.used_at i) oldest then c.used_at i else oldest)
  Seen-compete i none oldest small e (o, all) =
      let smaller : ltb (c.used_at i) oldest ≡ true = ground arith in
      rw smaller (
        omega arith,
        e,
        refl,
        λ j h. elim (dec_lt j i) [
          | yes p ↦ ((λ t. ground (arith, all j p)), λ t. ground (arith, all j p))
          | no p ↦ let same : j ≡ i = omega arith in rw same ((λ t. cc), λ t. omega arith)
        ],
      )
  Seen-compete i (some b) oldest small e (lt, pb, o, all) =
      elim (Bool-cases (ltb (c.used_at i) oldest)) [
        | inl smaller ↦ rw smaller (
          omega arith,
          e,
          refl,
          λ j h. elim (dec_lt j i) [
            | yes p ↦ ((all j p).0, λ t. ground (arith, (all j p).1 t))
            | no p ↦ let same : j ≡ i = omega arith in rw same ((λ t. cc), λ t. omega arith)
          ],
        )
        | inr larger ↦ rw larger (
          omega arith,
          pb,
          o,
          λ j h. elim (dec_lt j i) [
            | yes p ↦ all j p
            | no p ↦ let same : j ≡ i = omega arith in rw same ((λ t. cc), λ t. ground arith)
          ],
        )
      ]

  not-take : (j : ℕ) → probe c protect_batch j ≢ take → c.key_of j ≢ empty
  not-take j h e = h (take-probe j e)

  Seen-Picked : (n : ℕ) (best : Option ℕ) (oldest : ℕ) → Seen n best oldest → Picked n best
  Seen-Picked n none oldest (o, all) = λ j h. (
    (λ e. ground (arith, all j h, take-probe j e)),
    λ v. ground (arith, all j h, compete-probe j v),
  )
  Seen-Picked n (some b) oldest (lt, pb, o, all) = (
    lt,
    inr (probe-compete b pb, λ j h. (not-take j (all j h).0, λ v. (all j h).1 (compete-probe j v))),
  )

  none-taken :
      (i : ℕ) (best : Option ℕ) (oldest : ℕ)
      → Seen i best oldest
      → (j : ℕ) → j < i
      → c.key_of j ≢ empty
  none-taken i none oldest (o, all) j h = λ e. ground (arith, all j h, take-probe j e)
  none-taken i (some b) oldest (lt, pb, o, all) j h = not-take j (all j h).0

  scan-Picked :
      ((j : ℕ) → c.used_at j < 2 ^ 64 - 1)
      → (rounds i n : ℕ) (best : Option ℕ) (oldest : ℕ) → i + rounds ≡ n
      → Seen i best oldest
      → Picked n (scan c protect_batch rounds i best oldest)
  unfolding scan
  scan-Picked small zero i n best oldest e s =
      Seen-Picked n best oldest (let same : i ≡ n = omega arith in rw (← same) s)
  scan-Picked small (suc rounds) i n best oldest e s =
      elim (Probe-cases (probe c protect_batch i)) [
        | inl p ↦
            rw (p, scan)
              (scan-Picked small rounds (i + 1) n best oldest (omega arith)
                (Seen-skip i best oldest p s))
        | inr (inl p) ↦ rw (p, scan) (omega arith, inl (probe-take i p, none-taken i best oldest s))
        | inr (inr p) ↦
            rw (p, scan)
              (scan-Picked small rounds (i + 1) n _ _ (omega arith)
                (Seen-compete i best oldest (small i) p s))
      ]

  -- While no stamp is the largest `uint64_t`, the victim is the first empty slot; if there is none,
  -- it is an evictable slot whose stamp is the smallest among the evictable ones; and only where
  -- no slot is empty or evictable is there no victim. A slot with a read in flight is neither.
  pub pick_victim-Picked :
      ((j : ℕ) → c.used_at j < 2 ^ 64 - 1) → Picked c.nslot (pick_victim c protect_batch)
  unfolding pick_victim
  pick_victim-Picked small =
      scan-Picked small c.nslot 0 c.nslot none (2 ^ 64 - 1) (omega arith) (refl, λ j h. elim h [ ])

  -- A victim, whatever the stamps are, is a slot of the cache that is empty or evictable.
  abbrev pub IsTaken : Option ℕ → Type 0
  IsTaken none = Unit
  IsTaken (some b) = (b < c.nslot) × ((c.key_of b ≡ empty) ⊎ IsEvictable b)

  scan-IsTaken :
      (rounds i : ℕ) (best : Option ℕ) (oldest : ℕ)
      → i + rounds ≡ c.nslot
      → IsTaken best
      → IsTaken (scan c protect_batch rounds i best oldest)
  unfolding scan
  scan-IsTaken zero i best oldest e t = t
  scan-IsTaken (suc rounds) i best oldest e t = elim (Probe-cases (probe c protect_batch i)) [
    | inl p ↦ rw (p, scan) (scan-IsTaken rounds (i + 1) best oldest (omega arith) t)
    | inr (inl p) ↦ rw (p, scan) (omega arith, inl (probe-take i p))
    | inr (inr p) ↦
        rw (p, scan)
          (scan-IsTaken rounds (i + 1) _ _ (omega arith)
            (elim (Bool-cases (ltb (c.used_at i) oldest)) [
              | inl h ↦ rw h (omega arith, inr (probe-compete i p))
              | inr h ↦ rw h t
            ]))
  ]

  pub pick_victim-IsTaken : IsTaken (pick_victim c protect_batch)
  unfolding pick_victim
  pick_victim-IsTaken = scan-IsTaken c.nslot 0 none (2 ^ 64 - 1) (omega arith) tt
