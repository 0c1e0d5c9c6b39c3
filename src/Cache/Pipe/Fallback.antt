-- ===== src/Cache/Pipe/Fallback.antt =====
-- `pipe_launch` without a thread (src/cache/k3_cache.c) against the batch path of `cache_getmany`.
use kimi_k3_for_me.Prelude.{
  ℕ, zero, suc, ◌+◌, ◌<◌, ◌≡◌, ◌≢◌, refl, sym, ap, ◌∙◌, subst, Bool, false, inl, inr, some, arith,
  if◌then◌else◌, Bool-cases, List, [], ◌∷◌, length, get_elem?,
}
use kimi_k3_for_me.Prelude.Int.{eq_pos}
use kimi_k3_for_me.Load.Geometry.{ExpertRef}
use kimi_k3_for_me.Cache.State.{Cache, Loaded}
use kimi_k3_for_me.Cache.Admit.{store, publish, vacate, touch}
use kimi_k3_for_me.Cache.Batch.{Work, publish_one, publish_all, read_all, write_all}
use kimi_k3_for_me.Cache.Pipe.{
  Pipe, Entry, is_done, pipe_finish, pipe_run_one, run_from, done_from, pipe_sync, pipe_launch,
  batch_entries,
}

-- The entries from `i` on are those of the list.
abbrev Lists : Pipe → ℕ → List Work → Type 0
Lists p i [] = Unit
Lists p i (w ∷ ws) = ((p.entries i).work ≡ w) × Lists p (i + 1) ws

tally :
    (b b' : Bool) (x n m : ℕ)
    → b ≡ b'
    → n ≡ (if b' then 1 else 0)
    → x ≡ m
    → (if b then x + 1 else x) ≡ n + m
tally b b' x n m e h k = ground arith

module _ {B : Type 0} (load : ExpertRef → Loaded B) where
  -- One entry, read and published, against the two phases.
  record OneRun (c : Cache B) (p : Pipe) (i : ℕ) : Type 0 where
    cache :
        (pipe_run_one c p i (load (p.entries i).work.r)).0
        ≡ (publish_one load p.layer
            (store c (p.entries i).work.slot (load (p.entries i).work.r))
            (p.entries i).work).0
    layer : (pipe_run_one c p i (load (p.entries i).work.r)).1.layer ≡ p.layer
    work :
        (j : ℕ)
        → ((pipe_run_one c p i (load (p.entries i).work.r)).1.entries j).work ≡ (p.entries j).work
    status :
        (j : ℕ)
        → i ≢ j
        → ((pipe_run_one c p i (load (p.entries i).work.r)).1.entries j).status
          ≡ (p.entries j).status
    count :
        (publish_one load p.layer
          (store c (p.entries i).work.slot (load (p.entries i).work.r))
          (p.entries i).work).1
        ≡ (if is_done ((pipe_run_one c p i (load (p.entries i).work.r)).1.entries i).status
            then 1
            else 0)

  run_one-OneRun : (c : Cache B) (p : Pipe) (i : ℕ) → OneRun c p i
  unfolding pipe_run_one pipe_finish publish_one store
  run_one-OneRun c p i =
      elim (Bool-cases (eq_pos (load (p.entries i).work.r).got (p.entries i).work.r.nbytes)) [
        | inl all ↦ record {
          cache = rw (all, pipe_run_one, pipe_finish, publish_one) refl;
          layer = rw (all, pipe_run_one, pipe_finish) refl;
          work = λ j. ground arith;
          status = λ j ne. ground arith;
          count = ground arith;
        }
        | inr short ↦ record {
          cache = rw (short, pipe_run_one, pipe_finish, publish_one) refl;
          layer = rw (short, pipe_run_one, pipe_finish) refl;
          work = λ j. ground arith;
          status = λ j ne. ground arith;
          count = ground arith;
        }
      ]

  run_from-statuses :
      (n : ℕ) (c : Cache B) (p : Pipe) (i j : ℕ)
      → j < i
      → ((run_from load c p i n).1.entries j).status ≡ (p.entries j).status
  unfolding run_from
  run_from-statuses zero c p i j lt = refl
  run_from-statuses (suc n) c p i j lt =
      let (d, q) = pipe_run_one c p i (load (p.entries i).work.r) in
      run_from-statuses n d q (i + 1) j (omega arith)
      ∙ (run_one-OneRun c p i).status j (λ e. omega arith)

  Lists-same :
      (ws : List Work) (p q : Pipe) (i : ℕ)
      → ((j : ℕ) → (q.entries j).work ≡ (p.entries j).work)
      → Lists p i ws
      → Lists q i ws
  Lists-same [] p q i same h = tt
  Lists-same (w ∷ ws) p q i same h = (same i ∙ h.0, Lists-same ws p q (i + 1) same h.1)

  -- Publication does not look at the arena.
  publish_one-read_all :
      (layer : ℕ) (c : Cache B) (w : Work) (ws : List Work)
      → publish_one load layer (read_all load c (w ∷ ws)) w ≡ (
        read_all load (publish_one load layer (store c w.slot (load w.r)) w).0 ws,
        (publish_one load layer (store c w.slot (load w.r)) w).1,
      )
  unfolding publish_one read_all store write_all publish vacate touch
  publish_one-read_all layer c w ws = elim (Bool-cases (eq_pos (load w.r).got w.r.nbytes)) [
    | inl all ↦ rw (all, publish_one) refl
    | inr short ↦ rw (short, publish_one) refl
  ]

  run_from-publish_all :
      (ws : List Work) (c : Cache B) (p : Pipe) (i : ℕ)
      → Lists p i ws
      → let r = run_from load c p i (length ws) in
        let s = publish_all load p.layer (read_all load c ws) ws in
        (r.0 ≡ s.0) × (done_from r.1 i (length ws) ≡ s.1)
  unfolding run_from done_from publish_all read_all write_all
  run_from-publish_all [] c p i h = (refl, refl)
  run_from-publish_all (w ∷ ws) c p i h =
      let o = run_one-OneRun c p i in
      let (d, q) = pipe_run_one c p i (load (p.entries i).work.r) in
      let (rest, counted) =
        run_from-publish_all ws d q (i + 1) (Lists-same ws p q (i + 1) o.work h.1) in
      let kept = run_from-statuses (length ws) d q (i + 1) i (omega arith) in
      let pair = publish_one-read_all p.layer c w ws in
      let here =
        subst (λ v. d ≡ (publish_one load p.layer (store c v.slot (load v.r)) v).0) h.0 o.cache in
      let one =
        subst
          (λ v.
            (publish_one load p.layer (store c v.slot (load v.r)) v).1
            ≡ (if is_done (q.entries i).status then 1 else 0))
          h.0 o.count in
      let same : publish_all load q.layer (read_all load d ws) ws
          ≡ publish_all load p.layer (publish_one load p.layer (read_all load c (w ∷ ws)) w).0 ws =
        ap (λ x. publish_all load x (read_all load d ws) ws) o.layer
        ∙ ap (λ x. publish_all load p.layer (read_all load x ws) ws) here
        ∙ ap (λ x. publish_all load p.layer x ws) (sym (ap (λ x. x.0) pair)) in
      (
        rest ∙ ap (λ x. x.0) same,
        tally _ _ _ _ _ (ap is_done kept) (ap (λ x. x.1) pair ∙ one) (counted ∙ ap (λ x. x.1) same),
      )

  Lists-launch :
      (old : ℕ → Entry) (xs ws : List Work) (q : Pipe) (i : ℕ)
      → ((j : ℕ) → get_elem? xs (i + j) ≡ get_elem? ws j)
      → ((j : ℕ) → q.entries j ≡ batch_entries old xs j)
      → Lists q i ws
  Lists-launch old xs [] q i at all = tt
  Lists-launch old xs (w ∷ ws) q i at all =
      let first : get_elem? xs i ≡ some w =
        subst (λ t. get_elem? xs t ≡ some w) (omega arith) (at 0) in
      (
        ap (λ (e : Entry). e.work) (all i) ∙ rw (first, batch_entries) refl,
        Lists-launch old xs ws q (i + 1)
            (λ j.
              subst (λ t. get_elem? xs t ≡ get_elem? ws j) {x = i + suc j} (omega arith)
                (at (suc j)))
            all,
      )

  -- Where no thread can be created, the launch does what the batch path does without pipelining,
  -- in the order of the reservation: the same cache, and the same number of experts arrived.
  pub pipe_sync-publish_all :
      (c : Cache B) (p : Pipe) (layer : ℕ) (ws : List Work)
      → let r = pipe_sync load c p layer ws in
        let s = publish_all load layer (read_all load c ws) ws in (r.0 ≡ s.0) × (r.2 ≡ s.1)
  unfolding pipe_sync pipe_launch
  pipe_sync-publish_all c p layer ws =
      let q = record (pipe_launch p layer ws 0) { active = false } in
      run_from-publish_all ws c q 0
        (Lists-launch p.entries ws ws q 0 (λ j. ap (get_elem? ws) (omega arith)) (λ j. refl))
