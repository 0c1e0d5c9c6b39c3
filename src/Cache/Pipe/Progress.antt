-- ===== src/Cache/Pipe/Progress.antt =====
-- Waiting in `admit_pipelined` (src/cache/k3_cache.c) ends: while an entry is pending some worker can
-- go on, and the workers take boundedly many steps.
use kimi_k3_for_me.Prelude.{
  ℕ, zero, suc, ◌+◌, ◌-◌, ◌*◌, ◌≤◌, ◌<◌, ◌≡◌, ◌≢◌, ◌⊎◌, inl, inr, refl, ap, true, Option, arith,
  Bool-cases, dec_lt, ltb,
}
use kimi_k3_for_me.Prelude.Arrays.{update}
use kimi_k3_for_me.Prelude.Int.{eq_pos}
use kimi_k3_for_me.Load.Geometry.{ExpertRef}
use kimi_k3_for_me.Cache.State.{Cache, Loaded}
use kimi_k3_for_me.Cache.Admit.Laws.{IsSound}
use kimi_k3_for_me.Cache.Pipe.{Pipe, wait, look, has_pending, claim_next, pipe_finish}
use kimi_k3_for_me.Cache.Pipe.System.{
  System, Worker, ready, reading, arrived, gone, WorkerStep, take, finish, read, land, Reach, later,
  worker,
}
use kimi_k3_for_me.Cache.Pipe.Schedule.{IsOpen, IsScheduled, claim_next-some, claim_next-none}
use kimi_k3_for_me.Cache.Pipe.Safety.{IsQuiet, reached}

-- The sum of `f` below `n`.
abbrev sum_below : (ℕ → ℕ) → ℕ → ℕ
sum_below f zero = 0
sum_below f (suc n) = sum_below f n + f n

sum-eq : (f g : ℕ → ℕ) (n : ℕ) → ((i : ℕ) → i < n → f i ≡ g i) → sum_below f n ≡ sum_below g n
sum-eq f g zero h = refl
sum-eq f g (suc n) h = omega (arith, sum-eq f g n (λ i lt. h i (omega arith)), h n (omega arith))

-- One term changes.
sum-swap :
    (f g : ℕ → ℕ) (n t : ℕ)
    → t < n
    → ((i : ℕ) → i ≢ t → f i ≡ g i)
    → sum_below f n + g t ≡ sum_below g n + f t
sum-swap f g zero t lt h = absurd (omega arith)
sum-swap f g (suc n) t lt h = elim (dec_lt t n) [
  | yes below ↦ omega (arith, sum-swap f g n t below h, h n (λ e. omega arith))
  | no last ↦
      let same : t ≡ n = omega arith in
      let rest = sum-eq f g n (λ i l. h i (λ e. omega arith)) in rw (same) (omega (arith, rest))
]

has_pending-true :
    (p : Pipe) (e n : ℕ)
    → has_pending p e n ≡ true
    → (i : ℕ) × (i < n) × IsOpen p i × ((p.entries i).work.expert ≡ e)
unfolding has_pending
has_pending-true p e zero h = absurd (ground arith)
has_pending-true p e (suc n) h = elim (Bool-cases (has_pending p e n)) [
  | inl before ↦ let (i, lt, o, q) = has_pending-true p e n before in (i, omega arith, o, q)
  | inr no_other ↦ (n, omega arith, ground arith, ground arith)
]

look-wait :
    {B : Type 0} (c : Cache B) (p : Pipe) (l e : ℕ)
    → look c p l e ≡ wait
    → has_pending p e p.nw ≡ true
unfolding look
look-wait c p l e h = ground arith

Worker-cases :
    {B : Type 0} (w : Worker B)
    → (w ≡ ready)
      ⊎ ((i : ℕ) × (w ≡ reading i))
      ⊎ ((i : ℕ) × (l : Loaded B) × (w ≡ arrived i l))
      ⊎ (w ≡ gone)
Worker-cases ready = inl refl
Worker-cases (reading i) = inr (inl (i, refl))
Worker-cases (arrived i l) = inr (inr (inl (i, l, refl)))
Worker-cases gone = inr (inr (inr refl))

-- The steps that a worker has ahead of it, apart from the entries that it has not taken.
abbrev pub ahead : {B : Type 0} → Worker B → ℕ
ahead ready = 1
ahead (reading i) = 3
ahead (arrived i l) = 2
ahead gone = 0

abbrev pub remaining : {B : Type 0} → System B → ℕ
remaining s = 3 * (s.pipe.nw - s.pipe.cursor) + sum_below (λ t. ahead (s.workers t)) s.pipe.nth

module _ {B : Type 0} (find : ℕ → ℕ → Option ExpertRef)
    (Complete : ExpertRef → ℕ → B → Type 0) where
  -- A run of the workers on their own, and its length.
  pub data WorkerRun (s : System B) : ℕ → System B → Type 0 where
    done : WorkerRun s 0 s
    more :
        {n : ℕ} {t u : System B}
        → WorkerRun s n t
        → (i : ℕ) → i < t.pipe.nth
        → WorkerStep find Complete t i u
        → WorkerRun s (suc n) u

  swap :
      (workers : ℕ → Worker B) (n t : ℕ) (w : Worker B)
      → t < n
      → sum_below (λ i. ahead (workers i)) n + ahead w
        ≡ sum_below (λ i. ahead (update workers t w i)) n + ahead (workers t)
  swap workers n t w lt =
      let here : ahead (update workers t w t) ≡ ahead w = ground arith in
      let sum =
        sum-swap (λ i. ahead (workers i)) (λ i. ahead (update workers t w i)) n t lt
          (λ i ne. ground arith) in
      omega (arith, sum, here)

  finish-sizes :
      (c : Cache B) (p : Pipe) (i : ℕ) (l : Loaded B)
      → let q = (pipe_finish c p i l).1 in (q.nw ≡ p.nw) × (q.cursor ≡ p.cursor) × (q.nth ≡ p.nth)
  unfolding pipe_finish
  finish-sizes c p i l = elim (Bool-cases (eq_pos l.got (p.entries i).work.r.nbytes)) [
    | inl all ↦ rw (all, pipe_finish) (refl, refl, refl)
    | inr short ↦ rw (short, pipe_finish) (refl, refl, refl)
  ]

  WorkerStep-remaining :
      (s : System B) (t : ℕ) (u : System B)
      → t < s.pipe.nth
      → WorkerStep find Complete s t u
      → (remaining s ≡ remaining u + 1) × (u.pipe.nth ≡ s.pipe.nth)
  WorkerStep-remaining s t u lt (take i p idle e) =
      let (low, pi, pp) = claim_next-some s.pipe p i e in
      let before : ahead (s.workers t) ≡ 1 = ap ahead idle in
      rw (pp) (omega (arith, swap s.workers s.pipe.nth t (reading i) lt, before), refl)
  WorkerStep-remaining s t u lt (finish p idle e) =
      let (over, pp) = claim_next-none s.pipe p e in
      let before : ahead (s.workers t) ≡ 1 = ap ahead idle in
      rw (pp) (omega (arith, swap s.workers s.pipe.nth t gone lt, before), refl)
  WorkerStep-remaining s t u lt (read i l at keeps) =
      let before : ahead (s.workers t) ≡ 3 = ap ahead at in
      (omega (arith, swap s.workers s.pipe.nth t (arrived i l) lt, before), refl)
  WorkerStep-remaining s t u lt (land i l at) =
      let before : ahead (s.workers t) ≡ 2 = ap ahead at in
      let (pn, pc, pt) = finish-sizes s.cache s.pipe i l in
      rw (pn, pc, pt) (omega (arith, swap s.workers s.pipe.nth t ready lt, before), refl)

  -- A worker that has not returned can go on, since each of its reads ends somehow.
  go_on :
      (load : ExpertRef → Loaded B)
      → IsSound Complete load
      → (s : System B) (t : ℕ) → s.workers t ≢ gone
      → (u : System B) × WorkerStep find Complete s t u
  unfolding claim_next
  go_on load sound s t here = elim (Worker-cases (s.workers t)) [
    | inl idle ↦ elim (Bool-cases (ltb s.pipe.cursor s.pipe.nw)) [
      | inl some_left ↦ (
        _,
        take s.pipe.cursor (record s.pipe { cursor = s.pipe.cursor + 1 }) idle
            (rw (some_left, claim_next) refl),
      )
      | inr over ↦ (_, finish s.pipe idle (rw (over, claim_next) refl))
    ]
    | inr (inl (i, at)) ↦ let r = (s.pipe.entries i).work.r in (_, read i (load r) at (sound r))
    | inr (inr (inl (i, l, at))) ↦ (_, land i l at)
    | inr (inr (inr end)) ↦ absurd (here end)
  ]

  pending_worker :
      (s : System B) (i : ℕ)
      → IsScheduled s.pipe s.workers
      → i < s.pipe.nw
      → IsOpen s.pipe i
      → (t : ℕ) × (t < s.pipe.nth) × (s.workers t ≢ gone)
  pending_worker s i h lt o = elim (dec_lt i s.pipe.cursor) [
    | yes low ↦ let (t, ht, e) = h.taken i low o in (t, ht, λ q. ground (arith, e))
    | no high ↦
        let (on, some_thread) = h.active i lt in
        (0, some_thread, λ q. omega (arith, h.over 0 some_thread q))
  ]

  -- While a request waits for an entry of the batch, a worker can take a step: no wait is for a read
  -- that nobody does, whatever the order in which the threads have run and whichever reads failed.
  pub waiting-step :
      (load : ExpertRef → Loaded B)
      → IsSound Complete load
      → (s u : System B) (l e : ℕ) → IsQuiet find Complete s
      → Reach find Complete s u
      → look u.cache u.pipe l e ≡ wait
      → (t : ℕ) × (t < u.pipe.nth) × ((v : System B) × WorkerStep find Complete u t v)
  waiting-step load sound s u l e quiet r waits =
      let h = reached find Complete s u quiet r in
      let (i, lt, o, q) =
        has_pending-true u.pipe e u.pipe.nw (look-wait u.cache u.pipe l e waits) in
      let (t, ht, here) = pending_worker u i h.scheduled lt o in (t, ht, go_on load sound u t here)

  run-remaining : (s u : System B) (n : ℕ) → WorkerRun s n u → remaining s ≡ remaining u + n
  run-remaining s u zero done = omega arith
  run-remaining s u (suc n) (more {t = t} r i lt x) =
      omega (arith, run-remaining s t n r, (WorkerStep-remaining t i u lt x).0)

  run-Reach :
      (s t u : System B) (n : ℕ)
      → Reach find Complete s t
      → WorkerRun t n u
      → Reach find Complete s u
  run-Reach s t u zero h done = h
  run-Reach s t u (suc n) h (more {t = v} r i lt x) =
      later (run-Reach s t v n h r) (worker i u lt x)

  -- The workers of a batch take no more steps than `remaining` counts, and when they have taken that
  -- many no request waits any longer: a wait ends after boundedly many steps of the workers.
  pub waiting-ends :
      (load : ExpertRef → Loaded B)
      → IsSound Complete load
      → (s t u : System B) (n l e : ℕ) → IsQuiet find Complete s
      → Reach find Complete s t
      → WorkerRun t n u
      → (n ≤ remaining t) × (n ≡ remaining t → look u.cache u.pipe l e ≢ wait)
  waiting-ends load sound s t u n l e quiet r run = (
    omega (arith, run-remaining t u n run),
    λ all waits.
        let (i, lt, (v, x)) =
          waiting-step load sound s u l e quiet (run-Reach s t u n r run) waits in
        omega (arith, run-remaining t u n run, (WorkerStep-remaining u i v lt x).0),
  )
