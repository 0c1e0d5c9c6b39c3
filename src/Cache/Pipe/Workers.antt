-- ===== src/Cache/Pipe/Workers.antt =====
-- `pipe_finish` on a worker (src/cache/k3_cache.c) keeps the invariant, and with it every step of one.
use kimi_k3_for_me.Prelude.{
  ℕ, ◌<◌, ◌≡◌, ◌≢◌, inl, inr, refl, sym, ap, false, Option, arith, subst, ◌==◌, Bool-cases,
}
use kimi_k3_for_me.Prelude.Arrays.{update}
use kimi_k3_for_me.Prelude.Int.{pos, eq_pos}
use kimi_k3_for_me.Load.Geometry.{ExpertRef}
use kimi_k3_for_me.Cache.State.{Loaded, key}
use kimi_k3_for_me.Cache.Admit.{publish, vacate, touch}
use kimi_k3_for_me.Cache.Admit.Laws.{eq_pos→eq}
use kimi_k3_for_me.Cache.Batch.{Work}
use kimi_k3_for_me.Cache.Pipe.{Pipe, Status, done, failed, pipe_finish, is_pending, set_status}
use kimi_k3_for_me.Cache.Pipe.System.{
  System, Caller, ready, arrived, WorkerStep, take, finish, read, land,
}
use kimi_k3_for_me.Cache.Pipe.Claims.{
  Owner, batch, caller, IsWithout, publish-IsClaimed, vacate-IsClaimed,
}
use kimi_k3_for_me.Cache.Pipe.Schedule.{IsOpen, claim_next-some, claim_next-none, land-IsScheduled}
use kimi_k3_for_me.Cache.Pipe.Invariant.{Pending, opened, IsLanded, IsPlaced, IsRunning}
use kimi_k3_for_me.Cache.Pipe.Claiming.{
  batch-ne, holds-Pending, take-IsRunning, finish-IsRunning, read-IsRunning,
}

module _ {B : Type 0} (find : ℕ → ℕ → Option ExpertRef)
    (Complete : ExpertRef → ℕ → B → Type 0) where
  settled :
      (p : Pipe) (k : Caller B) (i : ℕ) (x : Status)
      → is_pending x ≡ false
      → IsWithout (opened p k) (batch i) (p.entries i).work (opened (set_status p i x) k)
  settled p k i x end = (only_rest, all_rest)
    where
      only_rest :
          (o : Owner) (l : ℕ) (w : Work)
          → opened (set_status p i x) k o l w
          → opened p k o l w × (batch i ≢ o)
      only_rest (batch j) l w (lt, u, pl, pw) = elim (Bool-cases (i == j)) [
        | inl same ↦ absurd (ground (arith, end))
        | inr other ↦ ((lt, ground arith, pl, ground arith), batch-ne i j (ground arith))
      ]
      only_rest caller l w h = (h, λ q. cc)

      all_rest :
          (o : Owner) (l : ℕ) (w : Work)
          → opened p k o l w
          → w.slot ≢ (p.entries i).work.slot
          → opened (set_status p i x) k o l w
      all_rest (batch j) l w (lt, u, pl, pw) ne = elim (Bool-cases (i == j)) [
        | inl same ↦
            let here : i ≡ j = ground arith in
            absurd
              (ne (ap (λ (v : Work). v.slot) (subst (λ v. w ≡ (p.entries v).work) (sym here) pw)))
        | inr other ↦ (lt, ground arith, pl, ground arith)
      ]
      all_rest caller l w h ne = h

  -- What a worker has read is where its entry says, as it was read.
  landed-after :
      (s : System B) (t i : ℕ) (x : Status)
      → IsRunning find Complete s
      → (u j : ℕ) (y : Loaded B) → u < s.pipe.nth
      → update s.workers t ready u ≡ arrived j y
      → IsLanded find Complete s.cache ((set_status s.pipe i x).entries j).work y
  landed-after s t i x h u j y hu e =
      let z = h.landed u j y hu (ground arith) in
      elim (Bool-cases (i == j)) [
        | inl same ↦ let here : i ≡ j = ground arith in rw (same) (rw (here) z)
        | inr other ↦ rw (other) z
      ]

  placed-settled :
      (s : System B) (i : ℕ) (x : Status)
      → is_pending x ≡ false
      → IsRunning find Complete s
      → IsPlaced find Complete s.cache (set_status s.pipe i x) s.caller
  placed-settled s i x end h = record {
    range = h.placed.range;
    alone = λ l e q.
        let (lt, new, ne) = h.placed.alone l e q in (lt, new, λ j hj u. ground (arith, ne j hj));
    read = h.placed.read;
    serves = h.placed.serves;
  }

  module _ (s : System B) (t i : ℕ) (l : Loaded B) (lt : t < s.pipe.nth)
      (at : s.workers t ≡ arrived i l) (h : IsRunning find Complete s) where
    low_open : (i < s.pipe.cursor) × IsOpen s.pipe i
    low_open = h.scheduled.busy t i lt (ground arith)

    mine : Pending s.pipe i s.pipe.layer (s.pipe.entries i).work
    mine = holds-Pending find Complete s t i h.scheduled lt low_open.1 low_open.0

    done-IsRunning :
        l.got ≡ pos (s.pipe.entries i).work.r.nbytes
        → (n : ℕ)
        → let w = (s.pipe.entries i).work in
          let d = publish s.cache w.slot (key s.cache s.pipe.layer w.expert) w.r l in
          IsRunning find Complete (record s {
            cache = record d { prefetch_reads = n };
            pipe = set_status s.pipe i done;
            workers = update s.workers t ready;
          })
    unfolding publish touch
    done-IsRunning all n =
        let w = (s.pipe.entries i).work in
        let y = h.landed t i l lt at in
        let p' = placed-settled s i done refl h in
        record {
          scheduled = land-IsScheduled s.pipe s.workers t i done lt (ground arith) refl h.scheduled;
          claims =
              publish-IsClaimed find Complete s.cache (opened s.pipe s.caller)
                (opened (set_status s.pipe i done) s.caller) (batch i) s.pipe.layer w l mine
                (settled s.pipe s.caller i done refl)
                (subst (Complete w.r l.pad) (sym y.bytes) (y.sound all)) h.claims;
          landed = λ u j x hu e.
              let z = landed-after s t i done h u j x hu e in
              record { sound = z.sound; bytes = z.bytes };
          placed = record {
            range = p'.range;
            alone = λ y e q.
                let (he, new, ne) = p'.alone y e q in
                let (he0, new0, ne0) = h.placed.alone y e q in
                let apart = ne0 i mine.0 low_open.1 in (he, ground arith, ne);
            read =
                λ y v x e. let z = p'.read y v x e in record { sound = z.sound; bytes = z.bytes };
            serves = λ y e slot q.
                let there = p'.serves y e slot q in
                let new = (h.claims.held (batch i) s.pipe.layer w mine).new in ground arith;
          };
        }

    failed-IsRunning :
        let w = (s.pipe.entries i).work in
        IsRunning find Complete (record s {
          cache = vacate s.cache w.slot;
          pipe = set_status s.pipe i failed;
          workers = update s.workers t ready;
        })
    unfolding vacate
    failed-IsRunning =
        let w = (s.pipe.entries i).work in
        let p' = placed-settled s i failed refl h in
        record {
          scheduled =
              land-IsScheduled s.pipe s.workers t i failed lt (ground arith) refl h.scheduled;
          claims =
              vacate-IsClaimed find Complete s.cache (opened s.pipe s.caller)
                (opened (set_status s.pipe i failed) s.caller) (batch i) s.pipe.layer w mine
                (settled s.pipe s.caller i failed refl) h.claims;
          landed = λ u j x hu e.
              let z = landed-after s t i failed h u j x hu e in
              record { sound = z.sound; bytes = z.bytes };
          placed = record {
            range = p'.range;
            alone = p'.alone;
            read =
                λ y v x e. let z = p'.read y v x e in record { sound = z.sound; bytes = z.bytes };
            serves = p'.serves;
          };
        }

    land-IsRunning : IsRunning find Complete (record s {
      cache = (pipe_finish s.cache s.pipe i l).0;
      pipe = (pipe_finish s.cache s.pipe i l).1;
      workers = update s.workers t ready;
    })
    unfolding pipe_finish
    land-IsRunning = elim (Bool-cases (eq_pos l.got (s.pipe.entries i).work.r.nbytes)) [
      | inl all ↦ rw (all, pipe_finish) (done-IsRunning (eq_pos→eq l.got _ all) _)
      | inr short ↦ rw (short, pipe_finish) failed-IsRunning
    ]

  pub WorkerStep-IsRunning :
      (s : System B) (t : ℕ) (u : System B)
      → t < s.pipe.nth
      → WorkerStep find Complete s t u
      → IsRunning find Complete s
      → IsRunning find Complete u
  WorkerStep-IsRunning s t u lt (take i p idle e) h =
      let (more, pi, pp) = claim_next-some s.pipe p i e in
      rw (pi, pp) (take-IsRunning find Complete s t lt idle more h)
  WorkerStep-IsRunning s t u lt (finish p idle e) h =
      let (over, pp) = claim_next-none s.pipe p e in
      rw (pp) (finish-IsRunning find Complete s t lt idle over h)
  WorkerStep-IsRunning s t u lt (read i l at keeps) h =
      read-IsRunning find Complete s t i l lt at keeps h
  WorkerStep-IsRunning s t u lt (land i l at) h = land-IsRunning s t i l lt at h
