-- ===== src/Cache/Pipe/Claims.antt =====
-- Slots in flight on several threads: the reservations of src/cache/k3_cache.c that `pipe_finish` and
-- `admit_sync_locked` settle one at a time.
use kimi_k3_for_me.Prelude.{
  ℕ, ◌+◌, ◌*◌, ◌<◌, ◌≡◌, ◌≢◌, ◌⊎◌, inl, inr, false, Option, none, some, arith, subst, sym, ◌==◌,
  Bool-cases,
}
use kimi_k3_for_me.Prelude.Arrays.{update_self}
use kimi_k3_for_me.Load.Geometry.{ExpertRef}
use kimi_k3_for_me.Cache.State.{Cache, Tables, tables, Loaded, inflight, key}
use kimi_k3_for_me.Cache.Victim.{pick_victim}
use kimi_k3_for_me.Cache.Victim.Lru.{IsTaken, pick_victim-IsTaken}
use kimi_k3_for_me.Cache.Admit.{evict, vacate, reserve, store, publish}
use kimi_k3_for_me.Cache.Admit.Table.{
  IsValid, IsDetached, detach, slot_of-evict, victim-IsDetached, reserve-IsValid, publish-IsValid,
  vacate-IsValid,
}
use kimi_k3_for_me.Cache.Admit.Laws.{found_unique}
use kimi_k3_for_me.Cache.Batch.{Work}
use kimi_k3_for_me.Cache.Batch.Reserve.{IsReserved}

-- Who settles a reservation: the worker that takes an entry of the batch, or the calling thread.
pub data Owner : Type 0 where
  batch : ℕ → Owner
  caller : Owner

-- Which reservations are open: `R o l w` when `o` has reserved a slot for an expert of layer `l`.
abbrev pub Open : Type 1
Open = Owner → ℕ → Work → Type 0

-- `R'` has the reservations of `R` but for the one of `o`, of `w`.
abbrev pub IsWithout : Open → Owner → Work → Open → Type 0
IsWithout R o w R' =
    ((o' : Owner) (l' : ℕ) (w' : Work) → R' o' l' w' → R o' l' w' × (o ≢ o'))
    × ((o' : Owner) (l' : ℕ) (w' : Work) → R o' l' w' → w'.slot ≢ w.slot → R' o' l' w')

module _ {B : Type 0} (find : ℕ → ℕ → Option ExpertRef)
    (Complete : ExpertRef → ℕ → B → Type 0) where
  pub record IsClaimed (t : Tables B) (R : Open) : Type 0 where
    pub valid : IsValid find Complete t
    pub held : (o : Owner) (l : ℕ) (w : Work) → R o l w → IsReserved find l t w
    pub apart :
        (o o' : Owner) (l l' : ℕ) (w w' : Work)
        → R o l w
        → R o' l' w'
        → o ≢ o'
        → (w.slot ≢ w'.slot) × (l * t.n_experts + w.expert ≢ l' * t.n_experts + w'.expert)
    pub only :
        (s : ℕ)
        → t.key_of s ≡ inflight
        → (o : Owner) × (l : ℕ) × (w : Work) × R o l w × (w.slot ≡ s)

  pub rename :
      (t : Tables B) (R R' : Open)
      → ((o : Owner) (l : ℕ) (w : Work) → R' o l w → R o l w)
      → ((o : Owner) (l : ℕ) (w : Work) → R o l w → R' o l w)
      → IsClaimed t R
      → IsClaimed t R'
  rename t R R' sub super k = record {
    valid = k.valid;
    held = λ o l w h. k.held o l w (sub o l w h);
    apart = λ o o' l l' w w' h h'. k.apart o o' l l' w w' (sub o l w h) (sub o' l' w' h');
    only = λ s h. let (o, l, w, r, e) = k.only s h in (o, l, w, super o l w r, e);
  }

  -- A reserved slot holds no key.
  pub free :
      (c : Cache B) (l : ℕ) (w : Work)
      → IsReserved find l (tables c) w
      → IsValid find Complete (tables c)
      → IsDetached find Complete (tables c) w.slot
  free c l w r v = detach find Complete c w.slot r.inside (λ k h. ground (arith, r.waiting)) v

  pub store-IsClaimed :
      (c : Cache B) (R : Open) (o : Owner) (l : ℕ) (w : Work) (x : Loaded B)
      → R o l w
      → IsClaimed (tables c) R
      → IsClaimed (tables (store c w.slot x)) R
  unfolding store
  store-IsClaimed c R o l w x mine k =
      let d = free c l w (k.held o l w mine) k.valid in
      record {
        valid = record {
          forward = k.valid.forward;
          backward = k.valid.backward;
          served = λ j t h.
              let s = k.valid.served j t h in
              let r = k.held o l w mine in
              record {
                found = s.found;
                payload =
                    subst (λ b. Complete (c.ref t) (c.pad t) b) {x = c.arena t}
                      (ground (arith, r.waiting)) s.payload;
              };
          pins = k.valid.pins;
        };
        held = λ o' l' w' h.
            let r = k.held o' l' w' h in
            record {
              waiting = r.waiting;
              inside = r.inside;
              new = r.new;
              range = r.range;
              found = r.found;
            };
        apart = k.apart;
        only = k.only;
      }

  pub publish-IsClaimed :
      (c : Cache B) (R R' : Open) (o : Owner) (l : ℕ) (w : Work) (x : Loaded B)
      → R o l w
      → IsWithout R o w R'
      → Complete w.r x.pad (c.arena w.slot)
      → IsClaimed (tables c) R
      → IsClaimed (tables (publish c w.slot (key c l w.expert) w.r x)) R'
  unfolding publish
  publish-IsClaimed c R R' o l w x mine rest payload k =
      let r = k.held o l w mine in
      record {
        valid =
            publish-IsValid find Complete c w.slot (key c l w.expert) w.r x (free c l w r k.valid)
              r.new (found_unique find Complete c.n_experts l w.expert w.r r.range r.found) payload;
        held = λ o' l' w' h.
            let (h', ne) = rest.0 o' l' w' h in
            let (a, b) = k.apart o o' l l' w w' mine h' ne in
            let q = k.held o' l' w' h' in
            record {
              waiting = ground (arith, q.waiting);
              inside = q.inside;
              new = ground (arith, q.new);
              range = q.range;
              found = q.found;
            };
        apart = λ o1 o2 l1 l2 w1 w2 h1 h2.
            k.apart o1 o2 l1 l2 w1 w2 (rest.0 o1 l1 w1 h1).0 (rest.0 o2 l2 w2 h2).0;
        only = λ s h.
            let (o', l', w', h', e) = k.only s (ground arith) in
            (o', l', w', rest.1 o' l' w' h' (λ q. ground arith), e);
      }

  pub vacate-IsClaimed :
      (c : Cache B) (R R' : Open) (o : Owner) (l : ℕ) (w : Work)
      → R o l w
      → IsWithout R o w R'
      → IsClaimed (tables c) R
      → IsClaimed (tables (vacate c w.slot)) R'
  unfolding vacate
  vacate-IsClaimed c R R' o l w mine rest k =
      let r = k.held o l w mine in
      record {
        valid = vacate-IsValid find Complete c w.slot (free c l w r k.valid);
        held = λ o' l' w' h.
            let (h', ne) = rest.0 o' l' w' h in
            let (a, b) = k.apart o o' l l' w w' mine h' ne in
            let q = k.held o' l' w' h' in
            record {
              waiting = ground (arith, q.waiting);
              inside = q.inside;
              new = q.new;
              range = q.range;
              found = q.found;
            };
        apart = λ o1 o2 l1 l2 w1 w2 h1 h2.
            k.apart o1 o2 l1 l2 w1 w2 (rest.0 o1 l1 w1 h1).0 (rest.0 o2 l2 w2 h2).0;
        only = λ s h.
            let (o', l', w', h', e) = k.only s (ground arith) in
            (o', l', w', rest.1 o' l' w' h' (λ q. ground arith), e);
      }

  -- A slot in flight is no victim.
  pub pick-apart :
      (c : Cache B) (s l : ℕ) (w : Work)
      → pick_victim c false ≡ some s
      → IsReserved find l (tables c) w
      → s ≢ w.slot
  pick-apart c s l w pick r same =
      let (lt, which) = subst (IsTaken c false) pick (pick_victim-IsTaken c false) in
      ground (arith, which, r.waiting)

  -- The calling thread reserves a victim for an expert that nobody reads.
  pub reserve-IsClaimed :
      (c : Cache B) (R R' : Open) (l : ℕ) (w : Work)
      → pick_victim c false ≡ some w.slot
      → w.expert < c.n_experts
      → find l w.expert ≡ some w.r
      → c.slot_of (key c l w.expert) ≡ none
      → ((o : Owner) (l' : ℕ) (w' : Work)
          → R o l' w'
          → (o ≢ caller) × (key c l w.expert ≢ key c l' w'.expert))
      → ((o : Owner) (l' : ℕ) (w' : Work)
          → R' o l' w'
          → R o l' w' ⊎ ((o ≡ caller) × (l' ≡ l) × (w' ≡ w)))
      → R' caller l w
      → ((o : Owner) (l' : ℕ) (w' : Work) → R o l' w' → R' o l' w')
      → IsClaimed (tables c) R
      → IsClaimed (tables (reserve (evict c w.slot) w.slot)) R'
  unfolding reserve evict
  reserve-IsClaimed c R R' l w pick range found new others sub this super k =
      let d = victim-IsDetached find Complete c false w.slot pick k.valid in
      let mine : IsReserved find l (tables (reserve (evict c w.slot) w.slot)) w = record {
        waiting = update_self c.key_of w.slot inflight;
        inside = d.inside;
        new = slot_of-evict c w.slot (key c l w.expert) new;
        range = range;
        found = found;
      } in
      record {
        valid = reserve-IsValid find Complete (evict c w.slot) w.slot d;
        held = λ o l' w' h. elim (sub o l' w' h) [
          | inl old ↦
              let r = k.held o l' w' old in
              record {
                waiting = ground (arith, r.waiting);
                inside = r.inside;
                new = slot_of-evict c w.slot (key c l' w'.expert) r.new;
                range = r.range;
                found = r.found;
              }
          | inr (po, pl, pw) ↦ rw (pl, pw) mine
        ];
        apart = λ o o' l1 l2 w1 w2 h1 h2 ne. elim (sub o l1 w1 h1) [
          | inl a ↦ elim (sub o' l2 w2 h2) [
            | inl b ↦ k.apart o o' l1 l2 w1 w2 a b ne
            | inr (po, pl, pw) ↦
                rw (pl, pw)
                  (
                    (λ e. pick-apart c w.slot l1 w1 pick (k.held o l1 w1 a) (sym e)),
                    λ e. (others o l1 w1 a).1 (sym e),
                  )
          ]
          | inr (po, pl, pw) ↦ elim (sub o' l2 w2 h2) [
            | inl b ↦
                rw (pl, pw)
                  (pick-apart c w.slot l2 w2 pick (k.held o' l2 w2 b), (others o' l2 w2 b).1)
            | inr (po', pl', pw') ↦ absurd (ne (cc (po, po')))
          ]
        ];
        only = λ s h. elim (Bool-cases (w.slot == s)) [
          | inl same ↦ (caller, l, w, this, ground arith)
          | inr other ↦
              let (o, l', w', r, e) = k.only s (ground arith) in (o, l', w', super o l' w' r, e)
        ];
      }
