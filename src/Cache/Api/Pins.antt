-- ===== src/Cache/Api/Pins.antt =====
-- Pinning in src/cache/k3_cache.c leaves room: a victim can always be found.
use kimi_k3_for_me.Prelude.{
  ℕ, ◌+◌, ◌-◌, ◌^◌, ◌<◌, ◌≡◌, ◌≢◌, ◌⊎◌, inl, inr, refl, Bool, true, false, ◌&&◌, not, Option, none,
  some, ltb, leb, arith, count-le, count-le_suc, bump, ◌==◌, Bool-cases, Option-cases,
}
use kimi_k3_for_me.Prelude.Arrays.{update}
use kimi_k3_for_me.Prelude.Int.{ℤ, pos}
use kimi_k3_for_me.Load.Geometry.{ExpertRef}
use kimi_k3_for_me.Cache.State.{Cache, tables, Loaded, key, holds}
use kimi_k3_for_me.Cache.Admit.{finish, fetch, admit}
use kimi_k3_for_me.Cache.Admit.Table.{IsValid}
use kimi_k3_for_me.Cache.Batch.Laws.{IsSettled}
use kimi_k3_for_me.Cache.Api.Room.{IsRoomy, victim_exists}
use kimi_k3_for_me.Cache.Api.{is_manual, manual_pins, checked, pin_slot, pin_expert}

module _ {B : Type 0} where
  module _ (find : ℕ → ℕ → Option ExpertRef) (Complete : ExpertRef → ℕ → B → Type 0) where
    -- `admit` fails for one of three reasons only: the checkpoint has no such expert, the expert is
    -- larger than a slot, or its read came back short. It never fails for want of a slot.
    pub admit-none :
        (load : ExpertRef → Loaded B) (c : Cache B) (l e : ℕ)
        → IsValid find Complete (tables c)
        → IsRoomy c
        → IsSettled c
        → ((s : ℕ) → c.used_at s < 2 ^ 64 - 1)
        → (admit find load c l e).1 ≡ none
        → (find l e ≡ none)
          ⊎ ((r : ExpertRef) × (find l e ≡ some r)
              × ((c.slot_bytes < r.nbytes) ⊎ ((load r).got ≢ pos r.nbytes)))
    unfolding admit fetch finish manual_pins
    admit-none load c l e v r settled small failed = elim (Option-cases (c.slot_of (key c l e))) [
      | inr (s, hit) ↦ absurd (ground (arith, hit, failed))
      | inl miss ↦ elim (Option-cases (find l e)) [
        | inl absent ↦ inl absent
        | inr (x, found) ↦ elim (Bool-cases (ltb c.slot_bytes x.nbytes)) [
          | inl big ↦ inr (x, found, inl (ground arith))
          | inr fits ↦
              let (s, pick) =
                victim_exists find Complete (record c { misses = bump c.misses }) v
                  (record { range = r.range; marked = r.marked; room = r.room }) settled small in
              inr (x, found, inr (λ all. ground (arith, miss, found, fits, pick, all, failed)))
        ]
      ]
    ]

    -- Fewer manual pins leave as much room.
    of_le-IsRoomy :
        (c d : Cache B)
        → d.n_layers ≡ c.n_layers
        → d.n_experts ≡ c.n_experts
        → d.nslot ≡ c.nslot
        → d.topk ≡ c.topk
        → d.hot_key ≡ c.hot_key
        → d.profile_pins ≡ c.profile_pins
        → ((i : ℕ) → is_manual d i ≡ true → is_manual c i ≡ true)
        → IsRoomy c
        → IsRoomy d
    unfolding manual_pins
    of_le-IsRoomy c d el ee es et eh ep fewer r = record {
      range = rw (eh, el, ee) r.range;
      marked = rw (eh, el, ee, ep) r.marked;
      room =
          rw (es, et, ep)
            (omega (arith, count-le c.nslot (is_manual d) (is_manual c) (λ i lt. fewer i), r.room));
    }

    manual-pin :
        (c : Cache B) (pin : Bool) (k s i : ℕ)
        → c.key_of s ≡ holds k
        → (pin && (not (c.pinned s) && not (c.hot_key k))) ≡ false
        → is_manual (record c { pinned = update c.pinned s pin }) i ≡ true
        → is_manual c i ≡ true
    manual-pin c pin k s i e old h = ground arith

    pin_slot-IsRoomy :
        (c : Cache B) (pin : Bool) (k s : ℕ)
        → IsValid find Complete (tables c)
        → c.slot_of k ≡ some s
        → IsRoomy c
        → IsRoomy (pin_slot c pin k s).0
    unfolding pin_slot manual_pins
    pin_slot-IsRoomy c pin k s v h r =
        elim (Bool-cases (pin && (not (c.pinned s) && not (c.hot_key k)))) [
          | inr old ↦
              rw (old, pin_slot)
                (of_le-IsRoomy c (record c { pinned = update c.pinned s pin }) refl refl refl refl
                  refl refl (λ i m. manual-pin c pin k s i (v.forward k s h).1 old m) r)
          | inl new ↦
              elim (Bool-cases (leb c.nslot (c.profile_pins + manual_pins c + c.topk + 1))) [
                | inl full ↦ rw (new, full, pin_slot) r
                | inr fits ↦
                    rw (new, fits, pin_slot)
                      (record {
                        range = r.range;
                        marked = r.marked;
                        room = ground (
                          arith,
                          fits,
                          count-le_suc c.nslot
                              (is_manual (record c { pinned = update c.pinned s pin }))
                              (is_manual c) s
                              (λ i lt m. elim (Bool-cases (s == i)) [
                                | inl same ↦ inr (ground arith)
                                | inr other ↦ inl (ground arith)
                              ]),
                        );
                      })
              ]
        ]

    pin_slot-IsValid :
        (c : Cache B) (pin : Bool) (k s : ℕ)
        → IsValid find Complete (tables c)
        → c.slot_of k ≡ some s
        → IsValid find Complete (tables (pin_slot c pin k s).0)
    unfolding pin_slot
    pin_slot-IsValid c pin k s v h =
        elim (Bool-cases (
          (pin && (not (c.pinned s) && not (c.hot_key k)))
          && leb c.nslot (c.profile_pins + manual_pins c + c.topk + 1))) [
            | inl refused ↦ rw (refused, pin_slot) v
            | inr taken ↦
                rw (taken, pin_slot)
                  (record {
                    forward = v.forward;
                    backward = v.backward;
                    served = λ j t q.
                        let w = v.served j t q in record { found = w.found; payload = w.payload };
                    pins = λ t p. elim (Bool-cases (s == t)) [
                      | inl same ↦ (k, ground (arith, v.forward k s h))
                      | inr other ↦ v.pins t (ground arith)
                    ];
                  })
          ]

    -- `k3_cache_pin` keeps the tables in agreement, pins only slots that hold a key, and never
    -- takes the room that a token's experts need, whatever it is asked to pin or to release.
    pub pin_expert-IsRoomy :
        (c : Cache B) (layer expert : ℤ) (pin : Bool)
        → IsValid find Complete (tables c)
        → IsRoomy c
        → IsValid find Complete (tables (pin_expert c layer expert pin).0)
          × IsRoomy (pin_expert c layer expert pin).0
    unfolding pin_expert
    pin_expert-IsRoomy c layer expert pin v r = elim (Option-cases (checked c layer expert)) [
      | inl out ↦ rw (out, pin_expert) (v, r)
      | inr ((l, e), within) ↦ elim (Option-cases (c.slot_of (key c l e))) [
        | inl absent ↦ rw (within, absent, pin_expert) (v, r)
        | inr (s, h) ↦
            rw (within, h, pin_expert)
              (pin_slot-IsValid c pin (key c l e) s v h, pin_slot-IsRoomy c pin (key c l e) s v h r)
      ]
    ]
