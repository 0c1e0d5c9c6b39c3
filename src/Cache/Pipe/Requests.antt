-- ===== src/Cache/Pipe/Requests.antt =====
-- A request to a pipelined cache (src/cache/k3_cache.c) keeps the invariant: `admit_pipelined` and
-- `admit_sync_locked`, step by step.
use kimi_k3_for_me.Prelude.{
  ℕ, ◌<◌, ◌≡◌, ◌≢◌, ◌⊎◌, inl, inr, refl, sym, ap, ◌∙◌, false, Option, some, arith, subst,
}
use kimi_k3_for_me.Prelude.Arrays.{update_self}
use kimi_k3_for_me.Load.Geometry.{ExpertRef}
use kimi_k3_for_me.Cache.State.{Cache, tables, Loaded, key}
use kimi_k3_for_me.Cache.Victim.{pick_victim}
use kimi_k3_for_me.Cache.Admit.{store, touch, evict, reserve}
use kimi_k3_for_me.Cache.Admit.Laws.{key-injective}
use kimi_k3_for_me.Cache.Batch.{Work}
use kimi_k3_for_me.Cache.Pipe.{Pipe, served, miss, look, hit}
use kimi_k3_for_me.Cache.Pipe.System.{
  System, Caller, Keeps, asked, missed, loading, loaded, serving, with_cache, counted,
}
use kimi_k3_for_me.Cache.Pipe.Claims.{
  Owner, batch, caller, IsClaimed, rename, store-IsClaimed, reserve-IsClaimed,
}
use kimi_k3_for_me.Cache.Pipe.Schedule.{IsOpen}
use kimi_k3_for_me.Cache.Pipe.Invariant.{Reading, opened, IsPlaced, IsRunning}
use kimi_k3_for_me.Cache.Pipe.Calls.{has_pending-false, look-served, look-miss}

module _ {B : Type 0} where
  -- A caller that reads nothing.
  abbrev pub IsIdle : Caller B → Type 0
  IsIdle k = (l : ℕ) (w : Work) → ¬ Reading k l w

  pub idle_opened :
      (p : Pipe) (k k' : Caller B)
      → IsIdle k
      → (o : Owner) (l : ℕ) (w : Work) → opened p k o l w
      → opened p k' o l w
  idle_opened p k k' i (batch j) l w h = h
  idle_opened p k k' i caller l w h = absurd (i l w h)

module _ {B : Type 0} (find : ℕ → ℕ → Option ExpertRef)
    (Complete : ExpertRef → ℕ → B → Type 0) where
  -- A step that only counts and moves on.
  pub idle-IsRunning :
      (s : System B) (c : Cache B) (k : Caller B)
      → tables c ≡ tables s.cache
      → IsIdle s.caller
      → IsIdle k
      → IsPlaced find Complete c s.pipe k
      → IsRunning find Complete s
      → IsRunning find Complete (with_cache s c k)
  idle-IsRunning s c k same i i' placed h = record {
    scheduled = h.scheduled;
    claims =
        subst (λ t. IsClaimed find Complete t (opened s.pipe k)) (sym same)
          (rename find Complete (tables s.cache) (opened s.pipe s.caller) (opened s.pipe k)
            (idle_opened s.pipe k s.caller i') (idle_opened s.pipe s.caller k i) h.claims);
    landed = λ t j x lt at.
        let z = h.landed t j x lt at in
        record {
          sound = z.sound;
          bytes = ap (λ y. y.arena (s.pipe.entries j).work.slot) same ∙ z.bytes;
        };
    placed = placed;
  }

  pub found-IsRunning :
      (s : System B) (l e slot : ℕ)
      → s.caller ≡ asked l e
      → look s.cache s.pipe l e ≡ served slot
      → IsRunning find Complete s
      → IsRunning find Complete (with_cache s (hit s.cache slot) (serving l e slot))
  unfolding hit touch
  found-IsRunning s l e slot at seen h =
      idle-IsRunning s (hit s.cache slot) (serving l e slot) refl (λ y w r. ground (arith, at))
        (λ y w r. ground arith)
        (record {
          range = λ y x q. absurd cc;
          alone = λ y x q. absurd cc;
          read = λ y w x q. absurd cc;
          serves = λ y x t q.
              let p1 : l ≡ y = cc (q) in
              let p2 : e ≡ x = cc (q) in
              let p3 : slot ≡ t = cc (q) in
              rw (sym p1, sym p2, sym p3) (look-served s.cache s.pipe l e slot seen);
        })
        h

  -- A miss is of an expert that no entry of the batch reads.
  lost-alone :
      (s : System B) (l e : ℕ)
      → e < s.cache.n_experts
      → look s.cache s.pipe l e ≡ miss
      → IsRunning find Complete s
      → (i : ℕ) → i < s.pipe.nw
      → IsOpen s.pipe i
      → key s.cache l e ≢ key s.cache s.pipe.layer (s.pipe.entries i).work.expert
  lost-alone s l e lt seen h i li o q =
      let r = h.claims.held (batch i) s.pipe.layer (s.pipe.entries i).work (li, o, refl, refl) in
      let (pl, pe) =
        key-injective s.cache.n_experts l s.pipe.layer e (s.pipe.entries i).work.expert lt r.range
          q in
      let (new, none_waits) = look-miss s.cache s.pipe l e seen in
      let (on, some_thread) = h.scheduled.active i li in
      has_pending-false s.pipe e s.pipe.nw (ground arith) i li o (sym pe)

  pub lost-IsRunning :
      (s : System B) (l e : ℕ)
      → s.caller ≡ asked l e
      → look s.cache s.pipe l e ≡ miss
      → IsRunning find Complete s
      → IsRunning find Complete (with_cache s (counted s.cache) (missed l e))
  lost-IsRunning s l e at seen h =
      let lt = h.placed.range l e at in
      let (new, none_waits) = look-miss s.cache s.pipe l e seen in
      idle-IsRunning s (counted s.cache) (missed l e) refl (λ y w r. ground (arith, at))
        (λ y w r. ground arith)
        (record {
          range = λ y x q. absurd cc;
          alone = λ y x q.
              let p1 : l ≡ y = cc (q) in
              let p2 : e ≡ x = cc (q) in rw (sym p1, sym p2) (lt, new, lost-alone s l e lt seen h);
          read = λ y w x q. absurd cc;
          serves = λ y x t q. absurd cc;
        })
        h

  pub start-IsRunning :
      (s : System B) (l : ℕ) (w : Work)
      → s.caller ≡ missed l w.expert
      → find l w.expert ≡ some w.r
      → pick_victim s.cache false ≡ some w.slot
      → IsRunning find Complete s
      → IsRunning find Complete (with_cache s (reserve (evict s.cache w.slot) w.slot) (loading l w))
  unfolding reserve evict touch
  start-IsRunning s l w at found pick h =
      let (lt, new, ne) = h.placed.alone l w.expert at in
      record {
        scheduled = h.scheduled;
        claims =
            reserve-IsClaimed find Complete s.cache (opened s.pipe s.caller)
              (opened s.pipe (loading l w)) l w pick lt found new others sub (inl refl) super
              h.claims;
        landed = λ t j x lt' e.
            let z = h.landed t j x lt' e in record { sound = z.sound; bytes = z.bytes };
        placed = record {
          range = λ y x q. absurd cc;
          alone = λ y x q. absurd cc;
          read = λ y v x q. absurd cc;
          serves = λ y x t q. absurd cc;
        };
      }
    where
      others :
          (o : Owner) (l' : ℕ) (w' : Work)
          → opened s.pipe s.caller o l' w'
          → (o ≢ caller) × (key s.cache l w.expert ≢ key s.cache l' w'.expert)
      others (batch i) l' w' (li, o, pl, pw) =
          ((λ q. cc), rw (pl, pw) ((h.placed.alone l w.expert at).2 i li o))
      others caller l' w' r = absurd (ground (arith, at, r))

      sub :
          (o : Owner) (l' : ℕ) (w' : Work)
          → opened {B = B} s.pipe (loading l w) o l' w'
          → opened s.pipe s.caller o l' w' ⊎ ((o ≡ caller) × (l' ≡ l) × (w' ≡ w))
      sub (batch i) l' w' r = inl r
      sub caller l' w' (inl q) = inr (refl, cc (q), cc (q))
      sub caller l' w' (inr (x, q)) = absurd cc

      super :
          (o : Owner) (l' : ℕ) (w' : Work)
          → opened s.pipe s.caller o l' w'
          → opened {B = B} s.pipe (loading l w) o l' w'
      super (batch i) l' w' r = r
      super caller l' w' r = absurd (ground (arith, at, r))

  pub load-IsRunning :
      (s : System B) (l : ℕ) (w : Work) (x : Loaded B)
      → s.caller ≡ loading l w
      → Keeps find Complete w.r x
      → IsRunning find Complete s
      → IsRunning find Complete (with_cache s (store s.cache w.slot x) (loaded l w x))
  unfolding store
  load-IsRunning s l w x at keeps h = record {
    scheduled = h.scheduled;
    claims =
        rename find Complete (tables (store s.cache w.slot x)) (opened s.pipe s.caller)
          (opened s.pipe (loaded l w x)) sub super
          (store-IsClaimed find Complete s.cache (opened s.pipe s.caller) caller l w x (inl at)
            h.claims);
    landed = λ t j y lt e.
        let z = h.landed t j y lt e in
        let (low, o) = h.scheduled.busy t j lt (ground arith) in
        let (a, b) =
          h.claims.apart caller (batch j) l s.pipe.layer w (s.pipe.entries j).work (inl at)
            (omega (arith, h.scheduled.cursor), o, refl, refl) (λ q. cc) in
        record { sound = z.sound; bytes = ground (arith, z.bytes) };
    placed = record {
      range = λ y z q. absurd cc;
      alone = λ y z q. absurd cc;
      read = λ y v z q.
          let p1 : w ≡ v = cc (q) in
          let p2 : x ≡ z = cc (q) in
          rw (sym p1, sym p2)
            (record { sound = keeps; bytes = update_self s.cache.arena w.slot x.bytes });
      serves = λ y z t q. absurd cc;
    };
  }
    where
      sub :
          (o : Owner) (l' : ℕ) (w' : Work)
          → opened s.pipe (loaded l w x) o l' w'
          → opened s.pipe s.caller o l' w'
      sub (batch i) l' w' r = r
      sub caller l' w' (inl q) = absurd cc
      sub caller l' w' (inr (y, q)) =
          let p1 : l ≡ l' = cc (q) in let p2 : w ≡ w' = cc (q) in inl (rw (sym p1, sym p2) at)

      super :
          (o : Owner) (l' : ℕ) (w' : Work)
          → opened s.pipe s.caller o l' w'
          → opened s.pipe (loaded l w x) o l' w'
      super (batch i) l' w' r = r
      super caller l' w' (inl q) = inr (x, cc (q, at))
      super caller l' w' (inr (y, q)) = absurd (cc (q, at))
