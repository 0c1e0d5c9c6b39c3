-- ===== src/Cache/Admit/Frame.antt =====
-- Which residents `admit` of src/cache/k3_cache.c leaves alone.
use kimi_k3_for_me.Prelude.{
  ℕ, ◌≡◌, ◌≢◌, ◌⊎◌, inl, inr, refl, Bool, true, false, Option, none, some, arith, ltb, bump, subst,
  Bool-cases, Option-cases, ◌∙◌,
}
use kimi_k3_for_me.Prelude.Int.{eq_pos}
use kimi_k3_for_me.Load.Geometry.{ExpertRef}
use kimi_k3_for_me.Cache.State.{Cache, Tables, tables, Loaded, key, Slot-cases}
use kimi_k3_for_me.Cache.Victim.{pick_victim}
use kimi_k3_for_me.Cache.Victim.Lru.{IsTaken, pick_victim-IsTaken}
use kimi_k3_for_me.Cache.Admit.{touch, evict, vacate, store, publish, finish, fetch, admit}
use kimi_k3_for_me.Cache.Admit.Table.{IsValid}

-- Key `k` stays in slot `t`, with its bytes and its pin.
pub record IsKept {B : Type 0} (c d : Tables B) (k t : ℕ) : Type 0 where
  pub slot : d.slot_of k ≡ some t
  pub holder : d.key_of t ≡ c.key_of t
  pub bytes : d.arena t ≡ c.arena t
  pub ref : d.ref t ≡ c.ref t
  pub pad : d.pad t ≡ c.pad t
  pub pin : d.pinned t ≡ c.pinned t

pub IsKept-trans :
    {B : Type 0} (c d e : Tables B) (k t : ℕ) → IsKept c d k t → IsKept d e k t → IsKept c e k t
IsKept-trans c d e k t p q = record {
  slot = q.slot;
  holder = q.holder ∙ p.holder;
  bytes = q.bytes ∙ p.bytes;
  ref = q.ref ∙ p.ref;
  pad = q.pad ∙ p.pad;
  pin = q.pin ∙ p.pin;
}

module _ {B : Type 0} (find : ℕ → ℕ → Option ExpertRef)
    (Complete : ExpertRef → ℕ → B → Type 0) where
  -- The slot of a pinned key, or of one that the profile marks, is no victim.
  pub victim-ne :
      (c : Cache B) (p : Bool) (s k t : ℕ)
      → IsValid find Complete (tables c)
      → pick_victim c p ≡ some s
      → c.slot_of k ≡ some t
      → (c.pinned t ≡ true) ⊎ (c.hot_key k ≡ true)
      → t ≢ s
  victim-ne c p s k t v pick h why same =
      let (lt, which) = subst (IsTaken c p) pick (pick_victim-IsTaken c p) in
      ground (arith, which, v.forward k t h)

  pub evict-IsKept :
      (c : Cache B) (s k t : ℕ)
      → IsValid find Complete (tables c)
      → c.slot_of k ≡ some t
      → t ≢ s
      → IsKept (tables c) (tables (evict c s)) k t
  unfolding evict
  evict-IsKept c s k t v h ne = elim (Slot-cases (c.key_of s)) [
    | inl e ↦
        rw (e, evict)
          (record { slot = h; holder = refl; bytes = refl; ref = refl; pad = refl; pin = refl })
    | inr (inl e) ↦
        rw (e, evict)
          (record { slot = h; holder = refl; bytes = refl; ref = refl; pad = refl; pin = refl })
    | inr (inr (j, e)) ↦
        rw (e, evict)
          (record {
            slot = ground (arith, v.backward j s e);
            holder = refl;
            bytes = refl;
            ref = refl;
            pad = refl;
            pin = refl;
          })
  ]

  finish-IsKept :
      (c : Cache B) (s j k t : ℕ) (r : ExpertRef) (l : Loaded B)
      → c.slot_of k ≡ some t
      → j ≢ k
      → t ≢ s
      → IsKept (tables c) (tables (finish c s j r l).0) k t
  unfolding finish store publish vacate touch
  finish-IsKept c s j k t r l h new ne = elim (Bool-cases (eq_pos l.got r.nbytes)) [
    | inl all ↦
        rw (all, finish)
          (record {
            slot = ground arith;
            holder = ground arith;
            bytes = ground arith;
            ref = ground arith;
            pad = ground arith;
            pin = refl;
          })
    | inr short ↦
        rw (short, finish)
          (record {
            slot = h;
            holder = ground arith;
            bytes = ground arith;
            ref = refl;
            pad = refl;
            pin = refl;
          })
  ]

  module _ (load : ExpertRef → Loaded B) where
    fetch-IsKept :
        (c : Cache B) (l e k t : ℕ)
        → c.slot_of (key c l e) ≡ none
        → IsValid find Complete (tables c)
        → c.slot_of k ≡ some t
        → (c.pinned t ≡ true) ⊎ (c.hot_key k ≡ true)
        → IsKept (tables c) (tables (fetch find load c l e).0) k t
    unfolding fetch
    fetch-IsKept c l e k t new v h why =
        let same : IsKept (tables c) (tables c) k t = record {
          slot = h;
          holder = refl;
          bytes = refl;
          ref = refl;
          pad = refl;
          pin = refl;
        } in
        elim (Option-cases (find l e)) [
          | inl q ↦ rw (q, fetch) same
          | inr (r, q) ↦ elim (Bool-cases (ltb c.slot_bytes r.nbytes)) [
            | inl big ↦ rw (q, big, fetch) same
            | inr fits ↦ elim (Option-cases (pick_victim c false)) [
              | inl full ↦ rw (q, fits, full, fetch) same
              | inr (s, pick) ↦
                  let ne = victim-ne c false s k t v pick h why in
                  let first = evict-IsKept c s k t v h ne in
                  rw (q, fits, pick, fetch)
                    (IsKept-trans (tables c) (tables (evict c s)) _ k t first (
                      finish-IsKept (evict c s) s (key c l e) k t r (load r) first.slot
                        (λ p. ground arith) ne))
            ]
          ]
        ]

    -- `admit` leaves every resident that is pinned, or that the profile marks hot, in its slot with
    -- its bytes, whichever expert is asked for and however its read goes.
    pub admit-IsKept :
        (c : Cache B) (l e k t : ℕ)
        → IsValid find Complete (tables c)
        → c.slot_of k ≡ some t
        → (c.pinned t ≡ true) ⊎ (c.hot_key k ≡ true)
        → IsKept (tables c) (tables (admit find load c l e).0) k t
    unfolding admit touch
    admit-IsKept c l e k t v h why = elim (Option-cases (c.slot_of (key c l e))) [
      | inl miss ↦
          rw (miss, admit) (fetch-IsKept (record c { misses = bump c.misses }) l e k t miss v h why)
      | inr (s, hit) ↦
          rw (hit, admit)
            (record { slot = h; holder = refl; bytes = refl; ref = refl; pad = refl; pin = refl })
    ]
