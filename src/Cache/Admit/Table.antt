-- ===== src/Cache/Admit/Table.antt =====
-- The cache's two tables agree, and a slot that holds a key holds that expert's bytes.
-- Kept by each step of the loading paths of src/cache/k3_cache.c.
use kimi_k3_for_me.Prelude.{
  ℕ, ◌+◌, ◌*◌, ◌<◌, ◌≡◌, ◌≢◌, inl, inr, Bool, true, false, Option, none, some, arith, subst, ◌==◌,
  Bool-cases,
}
use kimi_k3_for_me.Load.Geometry.{ExpertRef}
use kimi_k3_for_me.Cache.State.{Cache, Tables, tables, Loaded, holds, Slot-cases}
use kimi_k3_for_me.Cache.Victim.{pick_victim}
use kimi_k3_for_me.Cache.Victim.Lru.{IsTaken, pick_victim-IsTaken}
use kimi_k3_for_me.Cache.Admit.{touch, evict, vacate, reserve, store, publish}

pub slot_of-evict :
    {B : Type 0} (c : Cache B) (s k : ℕ) → c.slot_of k ≡ none → (evict c s).slot_of k ≡ none
unfolding evict
slot_of-evict c s k e = elim (Slot-cases (c.key_of s)) [
  | inl q ↦ rw (q, evict) e
  | inr (inl q) ↦ rw (q, evict) e
  | inr (inr (j, q)) ↦ rw (q, evict) (ground arith)
]

module _ {B : Type 0} (find : ℕ → ℕ → Option ExpertRef)
    (Complete : ExpertRef → ℕ → B → Type 0) where
  -- Slot `s` holds what the checkpoint has for the expert of key `k`.
  pub record IsServed (c : Tables B) (s k : ℕ) : Type 0 where
    pub found : (l e : ℕ) → e < c.n_experts → l * c.n_experts + e ≡ k → find l e ≡ some (c.ref s)
    pub payload : Complete (c.ref s) (c.pad s) (c.arena s)

  pub record IsValid (c : Tables B) : Type 0 where
    pub forward : (k s : ℕ) → c.slot_of k ≡ some s → (s < c.nslot) × (c.key_of s ≡ holds k)
    pub backward : (k s : ℕ) → c.key_of s ≡ holds k → c.slot_of k ≡ some s
    pub served : (k s : ℕ) → c.key_of s ≡ holds k → IsServed c s k
    pub pins : (s : ℕ) → c.pinned s ≡ true → (k : ℕ) × (c.key_of s ≡ holds k)

  -- The same, but for slot `s`, which holds nothing.
  pub record IsDetached (c : Tables B) (s : ℕ) : Type 0 where
    pub inside : s < c.nslot
    pub forward :
        (k t : ℕ) → c.slot_of k ≡ some t → (t < c.nslot) × (c.key_of t ≡ holds k) × (t ≢ s)
    pub backward : (k t : ℕ) → t ≢ s → c.key_of t ≡ holds k → c.slot_of k ≡ some t
    pub served : (k t : ℕ) → t ≢ s → c.key_of t ≡ holds k → IsServed c t k
    pub pins : (t : ℕ) → c.pinned t ≡ true → (t ≢ s) × ((k : ℕ) × (c.key_of t ≡ holds k))

  pub touch-IsValid : (c : Cache B) (s : ℕ) → IsValid (tables c) → IsValid (tables (touch c s))
  unfolding touch
  touch-IsValid c s v = v

  pub detach :
      (c : Cache B) (s : ℕ)
      → s < c.nslot
      → ((k : ℕ) → c.key_of s ≢ holds k)
      → IsValid (tables c)
      → IsDetached (tables c) s
  detach c s lt free v = record {
    inside = lt;
    forward = λ k t h.
        ((v.forward k t h).0, (v.forward k t h).1, λ e. ground (arith, v.forward k t h, free k));
    backward = λ k t ne. v.backward k t;
    served = λ k t ne. v.served k t;
    pins = λ t h. (λ e. ground (arith, v.pins t h, free (v.pins t h).0), v.pins t h);
  }

  pub evict-IsDetached :
      (c : Cache B) (s : ℕ)
      → s < c.nslot
      → c.pinned s ≡ false
      → IsValid (tables c)
      → IsDetached (tables (evict c s)) s
  unfolding evict
  evict-IsDetached c s lt free v = elim (Slot-cases (c.key_of s)) [
    | inl e ↦ rw (e, evict) (detach c s lt (λ k h. cc) v)
    | inr (inl e) ↦ rw (e, evict) (detach c s lt (λ k h. cc) v)
    | inr (inr (k, e)) ↦
        rw (e, evict)
          (record {
            inside = lt;
            forward = λ j t h. ground (arith, v.forward j t, v.backward k s e);
            backward = λ j t ne h. ground (arith, v.backward j t h, v.backward k s e);
            served = λ j t ne h.
                let w = v.served j t h in record { found = w.found; payload = w.payload };
            pins = λ t h. (λ q. ground arith, v.pins t h);
          })
  ]

  pub vacate-IsValid :
      (c : Cache B) (s : ℕ) → IsDetached (tables c) s → IsValid (tables (vacate c s))
  unfolding vacate
  vacate-IsValid c s d = record {
    forward = λ k t h. ground (arith, d.forward k t h);
    backward = λ k t h. ground (arith, d.backward k t);
    served = λ k t h.
        let w = d.served k t (λ e. ground arith) (ground arith) in
        record { found = w.found; payload = w.payload };
    pins = λ t h. let (ne, pinned) = d.pins t h in (pinned.0, ground (arith, pinned.1));
  }

  pub reserve-IsValid :
      (c : Cache B) (s : ℕ) → IsDetached (tables c) s → IsValid (tables (reserve c s))
  unfolding reserve
  reserve-IsValid c s d = record {
    forward = λ k t h. ground (arith, d.forward k t h);
    backward = λ k t h. ground (arith, d.backward k t);
    served = λ k t h.
        let w = d.served k t (λ e. ground arith) (ground arith) in
        record { found = w.found; payload = w.payload };
    pins = λ t h. let (ne, pinned) = d.pins t h in (pinned.0, ground (arith, pinned.1));
  }

  pub store-IsDetached :
      (c : Cache B) (s : ℕ) (l : Loaded B)
      → IsDetached (tables c) s
      → IsDetached (tables (store c s l)) s
  unfolding store
  store-IsDetached c s l d = record {
    inside = d.inside;
    forward = d.forward;
    backward = d.backward;
    served = λ k t ne h.
        let w = d.served k t ne h in
        record {
          found = w.found;
          payload =
              subst (λ b. Complete (c.ref t) (c.pad t) b) {x = c.arena t} (ground arith) w.payload;
        };
    pins = d.pins;
  }

  pub publish-IsValid :
      (c : Cache B) (s k : ℕ) (r : ExpertRef) (l : Loaded B)
      → IsDetached (tables c) s
      → c.slot_of k ≡ none
      → ((y e : ℕ) → e < c.n_experts → y * c.n_experts + e ≡ k → find y e ≡ some r)
      → Complete r l.pad (c.arena s)
      → IsValid (tables (publish c s k r l))
  unfolding publish
  publish-IsValid c s k r l d new found payload = record {
    forward = λ j t h. ground (arith, d.forward j t, d.inside);
    backward = λ j t h. ground (arith, d.backward j t);
    served = λ j t h. elim (Bool-cases (s == t)) [
      | inl same ↦
          let here : s ≡ t = ground arith in
          record {
            found = λ y e lt q. ground (arith, found y e);
            payload = rw same (subst (λ u. Complete r l.pad (c.arena u)) here payload);
          }
      | inr other ↦
          let w = d.served j t (λ e. ground arith) (ground arith) in
          record { found = λ y e lt q. rw other (w.found y e lt q); payload = rw other w.payload }
    ];
    pins = λ t h. let (ne, pinned) = d.pins t h in (pinned.0, ground (arith, pinned.1));
  }

  -- A victim of a valid cache is not pinned.
  pub victim-free :
      (c : Cache B) (p : Bool) (s : ℕ)
      → pick_victim c p ≡ some s
      → IsValid (tables c)
      → (s < c.nslot) × (c.pinned s ≡ false)
  victim-free c p s e v =
      let (lt, which) = subst (IsTaken c p) e (pick_victim-IsTaken c p) in
      elim which [
        | inl free ↦ (
          lt,
          elim (Bool-cases (c.pinned s)) [
            | inl h ↦ absurd (ground (arith, v.pins s h))
            | inr h ↦ h
          ],
        )
        | inr evictable ↦ (lt, ground arith)
      ]

  -- A victim is detached from its key before anything is read into it.
  pub victim-IsDetached :
      (c : Cache B) (p : Bool) (s : ℕ)
      → pick_victim c p ≡ some s
      → IsValid (tables c)
      → IsDetached (tables (evict c s)) s
  victim-IsDetached c p s e v =
      evict-IsDetached c s (victim-free c p s e v).0 (victim-free c p s e v).1 v
