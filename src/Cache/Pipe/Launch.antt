-- ===== src/Cache/Pipe/Launch.antt =====
-- A launch of the pool (src/cache/k3_cache.c), `pipe_launch` behind phase 1 of `cache_getmany`,
-- establishes the invariant of a batch in flight; with it, all steps keep the invariant.
use kimi_k3_for_me.Prelude.{
  ℕ, zero, suc, ◌+◌, ◌*◌, ◌≤◌, ◌<◌, ◌≡◌, ◌≢◌, inl, inr, refl, sym, ap, ◌∙◌, true, false, Option,
  some, arith, subst, ◌==◌, Bool-cases, List, [], ◌∷◌, length, get_elem?, All,
}
use kimi_k3_for_me.Prelude.Int.{ℤ}
use kimi_k3_for_me.Load.Geometry.{ExpertRef}
use kimi_k3_for_me.Cache.State.{Cache, tables}
use kimi_k3_for_me.Cache.Batch.{Work, mark, reserve_all}
use kimi_k3_for_me.Cache.Batch.Reserve.{
  IsReserved, IsApart, IsDistinct, IsBatch, reserve_all-IsBatch,
}
use kimi_k3_for_me.Cache.Pipe.{Pipe, Entry, pending, pipe_launch, batch_entries}
use kimi_k3_for_me.Cache.Pipe.System.{System, outside, ready}
use kimi_k3_for_me.Cache.Pipe.Claims.{Owner, batch, caller, IsClaimed}
use kimi_k3_for_me.Cache.Pipe.Schedule.{IsScheduled}
use kimi_k3_for_me.Cache.Pipe.Invariant.{opened, IsRunning}
use kimi_k3_for_me.Cache.Pipe.Settle.{outside-IsPlaced}

-- Entry `i` of a batch, where it has one.
nth : (ws : List Work) (i : ℕ) → i < length ws → (w : Work) × (get_elem? ws i ≡ some w)
nth [] i lt = absurd (omega arith)
nth (w ∷ ws) zero lt = (w, refl)
nth (w ∷ ws) (suc i) lt = nth ws i (omega arith)

All-nth :
    (P : Work → Type 0) (ws : List Work) (i : ℕ) (w : Work)
    → All P ws
    → get_elem? ws i ≡ some w
    → P w
All-nth P [] i w h q = absurd cc
All-nth P (x ∷ ws) zero w h q = let same : x ≡ w = cc (q) in subst P same h.0
All-nth P (x ∷ ws) (suc i) w h q = All-nth P ws i w h.1 q

swap_IsApart : (w x : Work) → IsApart w x → IsApart x w
swap_IsApart w x (a, b) = ((λ e. a (sym e)), λ e. b (sym e))

IsDistinct-nth :
    (ws : List Work) (i j : ℕ) (w x : Work)
    → IsDistinct ws
    → i ≢ j
    → get_elem? ws i ≡ some w
    → get_elem? ws j ≡ some x
    → IsApart w x
IsDistinct-nth [] i j w x d ne p q = absurd cc
IsDistinct-nth (y ∷ ws) zero zero w x d ne p q = absurd (ne refl)
IsDistinct-nth (y ∷ ws) zero (suc j) w x d ne p q =
    let same : y ≡ w = cc (p) in subst (λ v. IsApart v x) same (All-nth (IsApart y) ws j x d.0 q)
IsDistinct-nth (y ∷ ws) (suc i) zero w x d ne p q =
    let same : y ≡ x = cc (q) in
    swap_IsApart x w (subst (λ v. IsApart v w) same (All-nth (IsApart y) ws i w d.0 p))
IsDistinct-nth (y ∷ ws) (suc i) (suc j) w x d ne p q =
    IsDistinct-nth ws i j w x d.1 (λ e. ne (omega (arith, e))) p q

find_slot :
    (ws : List Work) (s : ℕ)
    → ¬ All (λ w. w.slot ≢ s) ws
    → (i : ℕ) × (w : Work) × (i < length ws) × (get_elem? ws i ≡ some w) × (w.slot ≡ s)
find_slot [] s h = absurd (h tt)
find_slot (w ∷ ws) s h = elim (Bool-cases (w.slot == s)) [
  | inl same ↦ (0, w, omega arith, refl, ground arith)
  | inr other ↦
      let (i, x, lt, q, e) = find_slot ws s (λ a. h ((λ p. ground arith), a)) in
      (suc i, x, omega arith, q, e)
]

entry_work :
    (old : ℕ → Entry) (ws : List Work) (i : ℕ) (w : Work)
    → get_elem? ws i ≡ some w
    → batch_entries old ws i ≡ record { work = w; status = pending }
entry_work old ws i w q = rw (q, batch_entries) refl

module _ {B : Type 0} (find : ℕ → ℕ → Option ExpertRef)
    (Complete : ExpertRef → ℕ → B → Type 0) where
  module _ (p : Pipe) (layer started : ℕ) (ws : List Work) where
    at_entry :
        (i : ℕ)
        → i < length ws
        → (w : Work) × (get_elem? ws i ≡ some w)
          × (batch_entries p.entries ws i ≡ record { work = w; status = pending })
    at_entry i lt = let (w, q) = nth ws i lt in (w, q, entry_work p.entries ws i w q)

    launch-IsScheduled :
        1 ≤ started → IsScheduled {B = B} (pipe_launch p layer ws started) (λ t. ready)
    unfolding pipe_launch
    launch-IsScheduled some_thread = record {
      cursor = omega arith;
      busy = λ t i lt q. absurd cc;
      unique = λ t u i lt lt' q. absurd cc;
      taken = λ i lt. absurd (omega arith);
      fresh = λ i low lt. let (w, q, e) = at_entry i lt in rw (e) refl;
      over = λ t lt q. absurd cc;
      active = λ i lt. (refl, omega arith);
    }

    launch-IsClaimed :
        (c : Cache B)
        → IsBatch find layer Complete c ws
        → IsClaimed find Complete
            (tables c)
            (opened {B = B} (pipe_launch p layer ws started) outside)
    unfolding pipe_launch
    launch-IsClaimed c b = record {
      valid = b.valid;
      held = held;
      apart = apart;
      only = λ s h.
          let (i, w, lt, q, e) = find_slot ws s (b.only s h) in
          let there = entry_work p.entries ws i w q in
          (batch i, layer, w, (lt, rw (there) refl, refl, rw (there) refl), e);
    }
      where
        held :
            (o : Owner) (l : ℕ) (w : Work)
            → opened {B = B} (pipe_launch p layer ws started) outside o l w
            → IsReserved find l (tables c) w
        held (batch i) l w (lt, o, pl, pw) =
            let (x, q, e) = at_entry i lt in
            let same : w ≡ x = pw ∙ ap (λ (y : Entry). y.work) e in
            rw (pl, same) (All-nth (IsReserved find layer (tables c)) ws i x b.reserved q)
        held caller l w (inl q) = absurd cc
        held caller l w (inr (x, q)) = absurd cc

        apart :
            (o o' : Owner) (l l' : ℕ) (w w' : Work)
            → opened {B = B} (pipe_launch p layer ws started) outside o l w
            → opened {B = B} (pipe_launch p layer ws started) outside o' l' w'
            → o ≢ o'
            → (w.slot ≢ w'.slot) × (l * c.n_experts + w.expert ≢ l' * c.n_experts + w'.expert)
        apart (batch i) (batch j) l l' w w' (lt, o, pl, pw) (lt', o', pl', pw') ne =
            let (x, q, e) = at_entry i lt in
            let (x', q', e') = at_entry j lt' in
            let same : w ≡ x = pw ∙ ap (λ (y : Entry). y.work) e in
            let same' : w' ≡ x' = pw' ∙ ap (λ (y : Entry). y.work) e' in
            let (a, d) = IsDistinct-nth ws i j x x' b.distinct (λ t. ne (ap batch t)) q q' in
            rw (pl, pl', same, same') (a, λ t. d (omega (arith, t)))
        apart caller o' l l' w w' (inl q) r' ne = absurd cc
        apart caller o' l l' w w' (inr (x, q)) r' ne = absurd cc
        apart (batch i) caller l l' w w' r (inl q) ne = absurd cc
        apart (batch i) caller l l' w w' r (inr (x, q)) ne = absurd cc

  -- With nothing in flight, phase 1 starts from an empty batch.
  empty-IsBatch :
      (s : System B) (layer : ℕ) (ids : List ℤ)
      → s.caller ≡ outside
      → s.pipe.nth ≡ 0
      → IsRunning find Complete s
      → IsBatch find layer Complete (mark true layer s.cache ids) []
  unfolding mark
  empty-IsBatch s layer ids at none_left h = record {
    valid = h.claims.valid;
    reserved = tt;
    distinct = tt;
    only = λ t e a. let (o, l, w, r, q) = h.claims.only t e in nobody o l w r;
  }
    where
      nobody : (o : Owner) (l : ℕ) (w : Work) → ¬ opened s.pipe s.caller o l w
      nobody (batch i) l w (lt, o, pl, pw) = absurd (omega (arith, (h.scheduled.active i lt).1))
      nobody caller l w r = ground (arith, at, r)

  pub launch-IsRunning :
      (s : System B) (layer started : ℕ) (ids : List ℤ)
      → s.caller ≡ outside
      → s.pipe.nth ≡ 0
      → 1 ≤ started
      → IsRunning find Complete s
      → let (c, ws) = reserve_all find layer (mark true layer s.cache ids) [] ids in
        IsRunning find Complete (record s {
          cache = mark false layer c ids;
          pipe = pipe_launch s.pipe layer ws started;
          workers = λ t. ready;
        })
  unfolding mark
  launch-IsRunning s layer started ids at none_left some_thread h =
      let d = reserve_all find layer (mark true layer s.cache ids) [] ids in
      let b =
        reserve_all-IsBatch find layer Complete ids (mark true layer s.cache ids) []
          (empty-IsBatch s layer ids at none_left h) in
      record {
        scheduled = launch-IsScheduled s.pipe layer started d.1 some_thread;
        claims = rw (at) (launch-IsClaimed s.pipe layer started d.1 d.0 b);
        landed = λ t i x lt e. absurd cc;
        placed = rw (at) (
            outside-IsPlaced find Complete (mark false layer d.0 ids)
              (pipe_launch s.pipe layer d.1 started));
      }
