-- ===== src/Cache/Api/Room.antt =====
-- The room that pins leave in src/cache/k3_cache.c: a victim can always be found.
use kimi_k3_for_me.Prelude.{
  ℕ, zero, suc, ◌+◌, ◌-◌, ◌*◌, ◌^◌, ◌≤◌, ◌<◌, ◌≡◌, ◌≢◌, ◌⊎◌, inl, inr, refl, Bool, true, false,
  ◌&&◌, Option, none, some, ltb, arith, count, count-le, count-lt, count-or, subst, Bool-cases,
  Option-cases,
}
use kimi_k3_for_me.Load.Geometry.{ExpertRef}
use kimi_k3_for_me.Cache.State.{Cache, tables, empty, holds, Slot-cases}
use kimi_k3_for_me.Cache.Victim.{pick_victim}
use kimi_k3_for_me.Cache.Victim.Lru.{IsEvictable, Picked, pick_victim-Picked}
use kimi_k3_for_me.Cache.Admit.Table.{IsValid}
use kimi_k3_for_me.Cache.Batch.Laws.{IsSettled}
use kimi_k3_for_me.Cache.Api.{is_manual, manual_pins}

module _ {B : Type 0} where
  -- The pins leave `topk + 1` slots.
  pub record IsRoomy (c : Cache B) : Type 0 where
    pub range : (k : ℕ) → c.hot_key k ≡ true → k < c.n_layers * c.n_experts
    pub marked : count (c.n_layers * c.n_experts) c.hot_key ≤ c.profile_pins
    pub room : c.profile_pins + manual_pins c + c.topk + 1 ≤ c.nslot

  -- A slot whose key the profile marks.
  abbrev is_hot : Cache B → ℕ → Bool
  is_hot c i = elim (c.key_of i) [ holds k ↦ c.hot_key k | _ ↦ false ]

  -- A marked key that is resident below slot `n`.
  abbrev hot_below : Cache B → ℕ → ℕ → Bool
  hot_below c n k = c.hot_key k && elim (c.slot_of k) [ some s ↦ ltb s n | none ↦ false ]

  module _ (find : ℕ → ℕ → Option ExpertRef) (Complete : ExpertRef → ℕ → B → Type 0) where
    hot_slots :
        (c : Cache B) (n : ℕ)
        → IsValid find Complete (tables c)
        → ((k : ℕ) → c.hot_key k ≡ true → k < c.n_layers * c.n_experts)
        → count n (is_hot c) ≤ count (c.n_layers * c.n_experts) (hot_below c n)
    hot_slots c zero v range = omega arith
    hot_slots c (suc n) v range = elim (Slot-cases (c.key_of n)) [
      | inl e ↦ ground (arith, e, hot_slots c n v range, weaken)
      | inr (inl e) ↦ ground (arith, e, hot_slots c n v range, weaken)
      | inr (inr (k, e)) ↦ elim (Bool-cases (c.hot_key k)) [
        | inl hot ↦ ground (
          arith,
          e,
          hot,
          hot_slots c n v range,
          count-lt (c.n_layers * c.n_experts) (hot_below c n) (hot_below c (suc n)) k grows
              (range k hot) (ground (arith, v.backward k n e)) (ground (arith, v.backward k n e)),
        )
        | inr cold ↦ ground (arith, e, cold, hot_slots c n v range, weaken)
      ]
    ]
      where
        grows :
            (j : ℕ)
            → j < c.n_layers * c.n_experts
            → hot_below c n j ≡ true
            → hot_below c (suc n) j ≡ true
        grows j lt h = ground arith

        weaken :
            count (c.n_layers * c.n_experts) (hot_below c n)
            ≤ count (c.n_layers * c.n_experts) (hot_below c (suc n))
        weaken = count-le (c.n_layers * c.n_experts) (hot_below c n) (hot_below c (suc n)) grows

    hot_slots-le :
        (c : Cache B)
        → IsValid find Complete (tables c)
        → IsRoomy c
        → count c.nslot (is_hot c) ≤ c.profile_pins
    hot_slots-le c v r = omega (
      arith,
      hot_slots c c.nslot v r.range,
      count-le (c.n_layers * c.n_experts) (hot_below c c.nslot) c.hot_key (λ k lt h. ground arith),
      r.marked,
    )

    -- In a valid cache whose pins leave room, with nothing in flight, there is a victim.
    pub victim_exists :
        (c : Cache B)
        → IsValid find Complete (tables c)
        → IsRoomy c
        → IsSettled c
        → ((s : ℕ) → c.used_at s < 2 ^ 64 - 1)
        → (s : ℕ) × (pick_victim c false ≡ some s)
    unfolding manual_pins
    victim_exists c v r settled small = elim (Option-cases (pick_victim c false)) [
      | inl nothing ↦
          let full = subst (Picked c false c.nslot) nothing (pick_victim-Picked c false small) in
          absurd (
            omega (
              arith,
              count-or c.nslot (is_manual c) (is_hot c)
                  (λ i lt. held i (full i lt).0 (full i lt).1),
              hot_slots-le c v r,
              r.room,
            ))
      | inr found ↦ found
    ]
      where
        held :
            (i : ℕ)
            → c.key_of i ≢ empty
            → ¬ IsEvictable c false i
            → (is_manual c i ≡ true) ⊎ (is_hot c i ≡ true)
        held i full kept = elim (Slot-cases (c.key_of i)) [
          | inl e ↦ absurd (full e)
          | inr (inl e) ↦ absurd (settled i e)
          | inr (inr (k, e)) ↦ elim (Bool-cases (c.hot_key k)) [
            | inl hot ↦ inr (rw (e, is_hot) hot)
            | inr cold ↦ elim (Bool-cases (c.pinned i)) [
              | inl pin ↦ inl (rw (pin, e, cold))
              | inr free ↦ absurd (kept (k, e, free, cold, refl))
            ]
          ]
        ]
