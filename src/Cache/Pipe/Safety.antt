-- ===== src/Cache/Pipe/Safety.antt =====
-- Every state that the threads of a pipelined cache reach (src/cache/k3_cache.c).
use kimi_k3_for_me.Prelude.{
  ℕ, ◌<◌, ◌≡◌, ◌≢◌, ◌⊎◌, inl, inr, refl, sym, ap, subst, ◌∙◌, ◌==◌, Bool-cases, Option, none, some,
  arith,
}
use kimi_k3_for_me.Load.Geometry.{ExpertRef}
use kimi_k3_for_me.Cache.State.{tables, inflight, key}
use kimi_k3_for_me.Cache.Admit.Table.{IsValid, IsServed}
use kimi_k3_for_me.Cache.Batch.{Work}
use kimi_k3_for_me.Cache.Pipe.{forget}
use kimi_k3_for_me.Cache.Pipe.System.{
  System, outside, gone, loading, serving, Step, worker, ask, found, lost, start, refuse, load,
  publish, bury, hand, join, launch, Reach, here, later,
}
use kimi_k3_for_me.Cache.Pipe.Claims.{Owner, batch, caller}
use kimi_k3_for_me.Cache.Pipe.Schedule.{entry_of}
use kimi_k3_for_me.Cache.Pipe.Invariant.{opened, IsRunning}
use kimi_k3_for_me.Cache.Pipe.Workers.{WorkerStep-IsRunning}
use kimi_k3_for_me.Cache.Pipe.Calls.{
  sync_reserve-some, sync_reserve-none, sync_finish-some, sync_finish-none,
}
use kimi_k3_for_me.Cache.Pipe.Requests.{
  found-IsRunning, lost-IsRunning, start-IsRunning, load-IsRunning,
}
use kimi_k3_for_me.Cache.Pipe.Settle.{
  publish-IsRunning, bury-IsRunning, outside-IsPlaced, hand-IsRunning, refuse-IsRunning,
  ask-IsRunning, join-IsRunning, gone-settled,
}
use kimi_k3_for_me.Cache.Pipe.Launch.{launch-IsRunning}

-- The threads that read, with the slots that they read into: the calling thread, or a worker by its
-- index.
module _ {B : Type 0} where
  abbrev pub IsReader : System B → Option ℕ → ℕ → Type 0
  IsReader s none x = (l : ℕ) × (w : Work) × (s.caller ≡ loading l w) × (w.slot ≡ x)
  IsReader s (some t) x =
      (i : ℕ) × (t < s.pipe.nth)
      × (entry_of (s.workers t) ≡ some i)
      × ((s.pipe.entries i).work.slot ≡ x)

  abbrev owner_of : (s : System B) (a : Option ℕ) (x : ℕ) → IsReader s a x → Owner
  owner_of s none x p = caller
  owner_of s (some t) x p = batch p.0

module _ {B : Type 0} (find : ℕ → ℕ → Option ExpertRef)
    (Complete : ExpertRef → ℕ → B → Type 0) where
  -- No thread is about: the tables agree, and nothing is in flight.
  pub record IsQuiet (s : System B) : Type 0 where
    pub valid : IsValid find Complete (tables s.cache)
    pub settled : (t : ℕ) → s.cache.key_of t ≢ inflight
    pub outside : s.caller ≡ outside
    pub threads : s.pipe.nth ≡ 0
    pub entries : s.pipe.nw ≡ 0
    pub cursor : s.pipe.cursor ≡ 0

  IsQuiet-IsRunning : (s : System B) → IsQuiet s → IsRunning find Complete s
  IsQuiet-IsRunning s q = record {
    scheduled = record {
      cursor = omega (arith, q.entries, q.cursor);
      busy = λ t i lt. absurd (omega (arith, q.threads));
      unique = λ t u i lt. absurd (omega (arith, q.threads));
      taken = λ i lt. absurd (omega (arith, q.cursor));
      fresh = λ i low lt. absurd (omega (arith, q.entries));
      over = λ t lt. absurd (omega (arith, q.threads));
      active = λ i lt. absurd (omega (arith, q.entries));
    };
    claims = record {
      valid = q.valid;
      held = λ o l w r. absurd (nobody o l w r);
      apart = λ o o' l l' w w' r. absurd (nobody o l w r);
      only = λ t e. absurd (q.settled t e);
    };
    landed = λ t i x lt. absurd (omega (arith, q.threads));
    placed = rw (q.outside) (outside-IsPlaced find Complete s.cache s.pipe);
  }
    where
      nobody : (o : Owner) (l : ℕ) (w : Work) → ¬ opened s.pipe s.caller o l w
      nobody (batch i) l w (lt, o, pl, pw) = omega (arith, q.entries)
      nobody caller l w r = ground (arith, q.outside, r)

  pub Step-IsRunning :
      (s u : System B)
      → Step find Complete s u
      → IsRunning find Complete s
      → IsRunning find Complete u
  Step-IsRunning s u (worker t v lt w) h = WorkerStep-IsRunning find Complete s t u lt w h
  Step-IsRunning s u (ask l e grown at hl he) h = ask-IsRunning find Complete s l e grown at he h
  Step-IsRunning s u (found l e slot at seen) h = found-IsRunning find Complete s l e slot at seen h
  Step-IsRunning s u (lost l e at seen) h = lost-IsRunning find Complete s l e at seen h
  Step-IsRunning s u (start l e c w at q) h =
      let (has, pe, pick, pc) = sync_reserve-some find s.cache c l e w q in
      rw (pc) (start-IsRunning find Complete s l w (rw (pe) at) (rw (pe) has) pick h)
  Step-IsRunning s u (refuse l e c at q) h =
      rw (sync_reserve-none find s.cache c l e q) (refuse-IsRunning find Complete s l e at h)
  Step-IsRunning s u (load l w x at keeps) h = load-IsRunning find Complete s l w x at keeps h
  Step-IsRunning s u (publish l w x c slot at q) h =
      let (all, ps, pc) = sync_finish-some s.cache c l w x slot q in
      rw (ps, pc) (publish-IsRunning find Complete s l w x at all h)
  Step-IsRunning s u (bury l w x c at q) h =
      rw (sync_finish-none s.cache c l w x q) (bury-IsRunning find Complete s l w x at h)
  Step-IsRunning s u (hand l e slot at) h = hand-IsRunning find Complete s l e slot at h
  Step-IsRunning s u (join at all) h = join-IsRunning find Complete s at all h
  Step-IsRunning s u (launch layer started ids at none_left some_thread some_work) h =
      launch-IsRunning find Complete s layer started ids at none_left some_thread h

  Reach-IsRunning :
      (s u : System B)
      → Reach find Complete s u
      → IsRunning find Complete s
      → IsRunning find Complete u
  Reach-IsRunning s u here h = h
  Reach-IsRunning s u (later {t = t} r x) h = Step-IsRunning t u x (Reach-IsRunning s t r h)

  pub reached : (s u : System B) → IsQuiet s → Reach find Complete s u → IsRunning find Complete u
  reached s u q r = Reach-IsRunning s u r (IsQuiet-IsRunning s q)

  -- A reader has a reservation of the slot that it reads into.
  IsReader-opened :
      (s : System B)
      → IsRunning find Complete s
      → (a : Option ℕ) (x : ℕ) (p : IsReader s a x)
      → (l : ℕ) × (w : Work) × opened s.pipe s.caller (owner_of s a x p) l w × (w.slot ≡ x)
  IsReader-opened s h none x (l, w, at, e) = (l, w, inl at, e)
  IsReader-opened s h (some t) x (i, lt, at, e) =
      let (low, o) = h.scheduled.busy t i lt at in
      (
        s.pipe.layer,
        (s.pipe.entries i).work,
        (omega (arith, low, h.scheduled.cursor), o, refl, refl),
        e,
      )

  IsReader-same :
      (s : System B)
      → IsRunning find Complete s
      → (a b : Option ℕ) (x y : ℕ) (p : IsReader s a x) (q : IsReader s b y)
      → (a ≡ b) ⊎ (owner_of s a x p ≢ owner_of s b y q)
  IsReader-same s h none none x y p q = inl refl
  IsReader-same s h none (some v) x y p q = inr (λ e. absurd cc)
  IsReader-same s h (some t) none x y p q = inr (λ e. absurd cc)
  IsReader-same s h (some t) (some v) x y (i, lt, at, e) (j, lv, at', e') =
      elim (Bool-cases (t == v)) [
        | inl same ↦ inl (ap some {x = t} {y = v} (ground (arith, same)))
        | inr other ↦ inr (λ f.
            let here : i ≡ j = cc (f) in
            let one : t ≡ v =
              h.scheduled.unique t v i lt lv at
                (subst (λ k. entry_of (s.workers v) ≡ some k) (sym here) at') in
            absurd (ground (arith, one, other)))
      ]

  module _ (s u : System B) (quiet : IsQuiet s) (r : Reach find Complete s u) where
    -- However the threads interleave, and whichever reads fail: the tables agree, and the slot with
    -- which a request is about to return is registered to its expert and has that expert's bytes.
    pub serving-IsServed :
        (l e slot : ℕ)
        → u.caller ≡ serving l e slot
        → IsValid find Complete (tables u.cache)
          × (u.cache.slot_of (key u.cache l e) ≡ some slot)
          × IsServed find Complete (tables u.cache) slot (key u.cache l e)
    serving-IsServed l e slot at =
        let h = reached s u quiet r in
        let there = h.placed.serves l e slot at in
        let v = h.claims.valid in
        (v, there, v.served (key u.cache l e) slot (v.forward (key u.cache l e) slot there).1)

    -- A slot that is read into, by a worker or by the calling thread, is in flight, so that no request is
    -- served from it, and no other thread reads into it.
    pub reads-apart :
        (a b : Option ℕ) (x y : ℕ)
        → IsReader u a x
        → IsReader u b y
        → (u.cache.key_of x ≡ inflight) × ((x ≢ y) ⊎ (a ≡ b))
    reads-apart a b x y p q =
        let h = reached s u quiet r in
        let (l, w, mine, at) = IsReader-opened u h a x p in
        let (l', w', other, at') = IsReader-opened u h b y q in
        (
          ap u.cache.key_of (sym at) ∙ (h.claims.held (owner_of u a x p) l w mine).waiting,
          elim (IsReader-same u h a b x y p q) [
            | inl same ↦ inr same
            | inr ne ↦ inl (λ e.
                (h.claims.apart (owner_of u a x p) (owner_of u b y q) l l' w w' mine other ne).0
                  (at ∙ e ∙ sym at'))
          ],
        )

    -- Once the workers have returned and the calling thread is outside, no slot is in flight: every
    -- read of the batch was published or given up, and the tables agree.
    pub join-IsSettled :
        u.caller ≡ outside
        → ((t : ℕ) → t < u.pipe.nth → u.workers t ≡ gone)
        → IsQuiet (record u { pipe = forget u.pipe })
    unfolding forget
    join-IsSettled at all =
        let h = reached s u quiet r in
        record {
          valid = h.claims.valid;
          settled = λ t e. let (o, l, w, q, same) = h.claims.only t e in nobody o l w q;
          outside = at;
          threads = refl;
          entries = refl;
          cursor = refl;
        }
      where
        nobody : (o : Owner) (l : ℕ) (w : Work) → ¬ opened u.pipe u.caller o l w
        nobody (batch i) l w (lt, o, pl, pw) =
            gone-settled find Complete u.pipe u.workers (reached s u quiet r).scheduled all i lt o
        nobody caller l w q = ground (arith, at, q)
