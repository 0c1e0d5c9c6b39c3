-- ===== src/Cache/Pipe/Settle.antt =====
-- The end of a read on the calling thread, and the batches of a pipelined cache (src/cache/k3_cache.c).
use kimi_k3_for_me.Prelude.{
  ℕ, ◌<◌, ◌≡◌, ◌≢◌, inl, inr, refl, sym, ap, ◌∙◌, Bool, Option, arith, subst,
}
use kimi_k3_for_me.Prelude.Int.{pos}
use kimi_k3_for_me.Load.Geometry.{ExpertRef}
use kimi_k3_for_me.Cache.State.{Cache, tables, Loaded, key}
use kimi_k3_for_me.Cache.Admit.{publish, vacate, touch}
use kimi_k3_for_me.Cache.Batch.{Work}
use kimi_k3_for_me.Cache.Api.{note, consume}
use kimi_k3_for_me.Cache.Pipe.{Pipe, forget}
use kimi_k3_for_me.Cache.Pipe.System.{
  System, Caller, Worker, outside, gone, asked, missed, loaded, serving, with_cache,
}
use kimi_k3_for_me.Cache.Pipe.Claims.{
  Owner, batch, caller, IsWithout, rename, publish-IsClaimed, vacate-IsClaimed,
}
use kimi_k3_for_me.Cache.Pipe.Schedule.{IsOpen, IsScheduled}
use kimi_k3_for_me.Cache.Pipe.Invariant.{opened, IsPlaced, IsRunning}
use kimi_k3_for_me.Cache.Pipe.Requests.{IsIdle, idle-IsRunning}

module _ {B : Type 0} where
  -- The calling thread has settled what it read.
  handed :
      (p : Pipe) (k k' : Caller B) (l : ℕ) (w : Work) (x : Loaded B)
      → k ≡ loaded l w x
      → IsIdle k'
      → IsWithout (opened p k) caller w (opened p k')
  handed p k k' l w x at idle = (only_rest, all_rest)
    where
      only_rest :
          (o : Owner) (l' : ℕ) (w' : Work) → opened p k' o l' w' → opened p k o l' w' × (caller ≢ o)
      only_rest (batch j) l' w' h = (h, λ q. cc)
      only_rest caller l' w' h = absurd (idle l' w' h)

      all_rest :
          (o : Owner) (l' : ℕ) (w' : Work)
          → opened p k o l' w'
          → w'.slot ≢ w.slot
          → opened p k' o l' w'
      all_rest (batch j) l' w' h ne = h
      all_rest caller l' w' (inl q) ne = absurd (cc (q, at))
      all_rest caller l' w' (inr (y, q)) ne =
          let same : loaded l w x ≡ loaded l' w' y = sym at ∙ q in
          let pw : w ≡ w' = cc (same) in absurd (ne (ap (λ (v : Work). v.slot) (sym pw)))

module _ {B : Type 0} (find : ℕ → ℕ → Option ExpertRef)
    (Complete : ExpertRef → ℕ → B → Type 0) where
  pub publish-IsRunning :
      (s : System B) (l : ℕ) (w : Work) (x : Loaded B)
      → s.caller ≡ loaded l w x
      → x.got ≡ pos w.r.nbytes
      → IsRunning find Complete s
      → IsRunning find Complete (
          with_cache s
            (publish s.cache w.slot (key s.cache l w.expert) w.r x)
            (serving l w.expert w.slot))
  unfolding publish touch
  publish-IsRunning s l w x at all h =
      let z = h.placed.read l w x at in
      record {
        scheduled = h.scheduled;
        claims =
            publish-IsClaimed find Complete s.cache (opened s.pipe s.caller)
              (opened s.pipe (serving l w.expert w.slot)) caller l w x (inr (x, at))
              (handed s.pipe s.caller (serving l w.expert w.slot) l w x at (λ y v r. ground arith))
              (subst (Complete w.r x.pad) (sym z.bytes) (z.sound all)) h.claims;
        landed = λ t j y lt e.
            let a = h.landed t j y lt e in record { sound = a.sound; bytes = a.bytes };
        placed = record {
          range = λ y e q. absurd cc;
          alone = λ y e q. absurd cc;
          read = λ y v e q. absurd cc;
          serves = λ y e t q. ground (arith, q);
        };
      }

  pub bury-IsRunning :
      (s : System B) (l : ℕ) (w : Work) (x : Loaded B)
      → s.caller ≡ loaded l w x
      → IsRunning find Complete s
      → IsRunning find Complete (with_cache s (vacate s.cache w.slot) outside)
  unfolding vacate
  bury-IsRunning s l w x at h = record {
    scheduled = h.scheduled;
    claims =
        vacate-IsClaimed find Complete s.cache (opened s.pipe s.caller) (opened s.pipe outside)
          caller l w (inr (x, at)) (handed s.pipe s.caller outside l w x at (λ y v r. ground arith))
          h.claims;
    landed =
        λ t j y lt e. let a = h.landed t j y lt e in record { sound = a.sound; bytes = a.bytes };
    placed = record {
      range = λ y e q. absurd cc;
      alone = λ y e q. absurd cc;
      read = λ y v e q. absurd cc;
      serves = λ y e t q. absurd cc;
    };
  }

  -- A calling thread outside is anywhere in place.
  pub outside-IsPlaced : (c : Cache B) (p : Pipe) → IsPlaced find Complete c p outside
  outside-IsPlaced c p = record {
    range = λ y e q. absurd cc;
    alone = λ y e q. absurd cc;
    read = λ y v e q. absurd cc;
    serves = λ y e t q. absurd cc;
  }

  pub hand-IsRunning :
      (s : System B) (l e slot : ℕ)
      → s.caller ≡ serving l e slot
      → IsRunning find Complete s
      → IsRunning find Complete (with_cache s (consume s.cache slot) outside)
  unfolding consume
  hand-IsRunning s l e slot at h =
      idle-IsRunning find Complete s (consume s.cache slot) outside refl
        (λ y w r. ground (arith, at)) (λ y w r. ground arith)
        (outside-IsPlaced (consume s.cache slot) s.pipe) h

  pub refuse-IsRunning :
      (s : System B) (l e : ℕ)
      → s.caller ≡ missed l e
      → IsRunning find Complete s
      → IsRunning find Complete (with_cache s s.cache outside)
  refuse-IsRunning s l e at h =
      idle-IsRunning find Complete s s.cache outside refl (λ y w r. ground (arith, at))
        (λ y w r. ground arith) (outside-IsPlaced s.cache s.pipe) h

  pub ask-IsRunning :
      (s : System B) (l e : ℕ) (grown : Bool)
      → s.caller ≡ outside
      → e < s.cache.n_experts
      → IsRunning find Complete s
      → IsRunning find Complete (with_cache s (note s.cache l e grown) (asked l e))
  unfolding note
  ask-IsRunning s l e grown at lt h =
      idle-IsRunning find Complete s (note s.cache l e grown) (asked l e) refl
        (λ y w r. ground (arith, at)) (λ y w r. ground arith)
        (record {
          range = λ y x q. ground (arith, q);
          alone = λ y x q. absurd cc;
          read = λ y w x q. absurd cc;
          serves = λ y x t q. absurd cc;
        })
        h

  -- Once the workers have returned, every entry is settled.
  pub gone-settled :
      (p : Pipe) (workers : ℕ → Worker B)
      → IsScheduled p workers
      → ((t : ℕ) → t < p.nth → workers t ≡ gone)
      → (i : ℕ) → i < p.nw
      → ¬ IsOpen p i
  gone-settled p workers h all i lt o =
      let (on, some_thread) = h.active i lt in
      let low = h.over 0 some_thread (all 0 some_thread) in
      let (t, ht, e) = h.taken i (omega arith) o in ground (arith, all t ht)

  pub join-IsRunning :
      (s : System B)
      → s.caller ≡ outside
      → ((t : ℕ) → t < s.pipe.nth → s.workers t ≡ gone)
      → IsRunning find Complete s
      → IsRunning find Complete (record s { pipe = forget s.pipe })
  unfolding forget
  join-IsRunning s at all h = record {
    scheduled = record {
      cursor = omega arith;
      busy = λ t i lt. absurd (omega arith);
      unique = λ t u i lt. absurd (omega arith);
      taken = λ i lt. absurd (omega arith);
      fresh = λ i low lt. absurd (omega arith);
      over = λ t lt. absurd (omega arith);
      active = λ i lt. absurd (omega arith);
    };
    claims =
        rename find Complete (tables s.cache) (opened s.pipe s.caller)
          (opened (forget s.pipe) s.caller) sub super h.claims;
    landed = λ t i x lt. absurd (omega arith);
    placed = rw (at) (outside-IsPlaced s.cache (forget s.pipe));
  }
    where
      sub :
          (o : Owner) (l : ℕ) (w : Work)
          → opened (forget s.pipe) s.caller o l w
          → opened s.pipe s.caller o l w
      sub (batch i) l w (lt, r, pl, pw) = absurd (omega arith)
      sub caller l w r = r

      super :
          (o : Owner) (l : ℕ) (w : Work)
          → opened s.pipe s.caller o l w
          → opened (forget s.pipe) s.caller o l w
      super (batch i) l w (lt, o, pl, pw) =
          absurd (gone-settled s.pipe s.workers h.scheduled all i lt o)
      super caller l w r = r
