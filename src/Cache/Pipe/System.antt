-- ===== src/Cache/Pipe/System.antt =====
-- The threads of a pipelined cache (src/cache/k3_cache.c): `pipe_worker`, and the calling thread in
-- `cache_get`, `cache_getmany` and `drain`. A step is what one thread does under the mutex, or a read.
use kimi_k3_for_me.Prelude.{
  ℕ, ◌≤◌, ◌<◌, ◌≡◌, Bool, true, false, Option, none, some, List, [], length, bump,
}
use kimi_k3_for_me.Prelude.Arrays.{update}
use kimi_k3_for_me.Prelude.Int.{ℤ, pos}
use kimi_k3_for_me.Load.Geometry.{ExpertRef}
use kimi_k3_for_me.Cache.State.{Cache, Loaded}
use kimi_k3_for_me.Cache.Admit.{store}
use kimi_k3_for_me.Cache.Batch.{Work, mark, reserve_all}
use kimi_k3_for_me.Cache.Api.{note, consume}
use kimi_k3_for_me.Cache.Pipe.{
  Pipe, served, miss, claim_next, pipe_finish, look, hit, sync_reserve, sync_finish, pipe_launch,
  forget,
}

-- Where a worker is: before it takes an entry, in the read of one, with a result, or returned.
pub data Worker (B : Type 0) : Type 0 where
  ready : Worker B
  reading : ℕ → Worker B
  arrived : ℕ → Loaded B → Worker B
  gone : Worker B

-- Where the calling thread is: outside, in the loop of `admit_pipelined` for an expert, past it, in
-- the read of `admit_sync_locked`, with its result, or with the slot that serves its request.
pub data Caller (B : Type 0) : Type 0 where
  outside : Caller B
  asked missed : ℕ → ℕ → Caller B
  loading : ℕ → Work → Caller B
  loaded : ℕ → Work → Loaded B → Caller B
  serving : ℕ → ℕ → ℕ → Caller B

pub record System (B : Type 0) : Type 0 where
  pub cache : Cache B
  pub pipe : Pipe
  pub workers : ℕ → Worker B
  pub caller : Caller B

module _ {B : Type 0} where
  abbrev pub at_worker : System B → ℕ → Worker B → System B
  at_worker s t w = record s { workers = update s.workers t w }

  abbrev pub with_cache : System B → Cache B → Caller B → System B
  with_cache s c k = record s { cache = c; caller = k }

  abbrev pub counted : Cache B → Cache B
  counted c = record c { misses = bump c.misses }

  -- Phase 1 of `cache_getmany`.
  abbrev pub reserved : (ℕ → ℕ → Option ExpertRef) → System B → ℕ → List ℤ → Cache B × List Work
  reserved find s layer ids = reserve_all find layer (mark true layer s.cache ids) [] ids

-- `find` is `k3_expert_ref`; a read may end in any way that keeps its promise.
module _ {B : Type 0} (find : ℕ → ℕ → Option ExpertRef)
    (Complete : ExpertRef → ℕ → B → Type 0) where
  abbrev pub Keeps : ExpertRef → Loaded B → Type 0
  Keeps r l = l.got ≡ pos r.nbytes → Complete r l.pad l.bytes

  -- A step of the worker with index `t`.
  pub data WorkerStep (s : System B) (t : ℕ) : System B → Type 0 where
    take :
        (i : ℕ) (p : Pipe)
        → s.workers t ≡ ready
        → claim_next s.pipe ≡ (some i, p)
        → WorkerStep s t (record s { pipe = p; workers = update s.workers t (reading i) })
    finish :
        (p : Pipe)
        → s.workers t ≡ ready
        → claim_next s.pipe ≡ (none, p)
        → WorkerStep s t (record s { pipe = p; workers = update s.workers t gone })
    read :
        (i : ℕ) (l : Loaded B)
        → s.workers t ≡ reading i
        → Keeps (s.pipe.entries i).work.r l
        → WorkerStep s t (record s {
          cache = store s.cache (s.pipe.entries i).work.slot l;
          workers = update s.workers t (arrived i l);
        })
    land :
        (i : ℕ) (l : Loaded B)
        → s.workers t ≡ arrived i l
        → WorkerStep s t (record s {
          cache = (pipe_finish s.cache s.pipe i l).0;
          pipe = (pipe_finish s.cache s.pipe i l).1;
          workers = update s.workers t ready;
        })

  pub data Step (s : System B) : System B → Type 0 where
    worker : (t : ℕ) (u : System B) → t < s.pipe.nth → WorkerStep s t u → Step s u
    -- `cache_get` is called with a layer and an expert in range.
    ask :
        (layer expert : ℕ) (grown : Bool)
        → s.caller ≡ outside
        → layer < s.cache.n_layers
        → expert < s.cache.n_experts
        → Step s (with_cache s (note s.cache layer expert grown) (asked layer expert))
    found :
        (layer expert slot : ℕ)
        → s.caller ≡ asked layer expert
        → look s.cache s.pipe layer expert ≡ served slot
        → Step s (with_cache s (hit s.cache slot) (serving layer expert slot))
    lost :
        (layer expert : ℕ)
        → s.caller ≡ asked layer expert
        → look s.cache s.pipe layer expert ≡ miss
        → Step s (with_cache s (counted s.cache) (missed layer expert))
    start :
        (layer expert : ℕ) (c : Cache B) (w : Work)
        → s.caller ≡ missed layer expert
        → sync_reserve find s.cache layer expert ≡ (c, some w)
        → Step s (with_cache s c (loading layer w))
    refuse :
        (layer expert : ℕ) (c : Cache B)
        → s.caller ≡ missed layer expert
        → sync_reserve find s.cache layer expert ≡ (c, none)
        → Step s (with_cache s c outside)
    load :
        (layer : ℕ) (w : Work) (l : Loaded B)
        → s.caller ≡ loading layer w
        → Keeps w.r l
        → Step s (with_cache s (store s.cache w.slot l) (loaded layer w l))
    publish :
        (layer : ℕ) (w : Work) (l : Loaded B) (c : Cache B) (slot : ℕ)
        → s.caller ≡ loaded layer w l
        → sync_finish s.cache layer w l ≡ (c, some slot)
        → Step s (with_cache s c (serving layer w.expert slot))
    bury :
        (layer : ℕ) (w : Work) (l : Loaded B) (c : Cache B)
        → s.caller ≡ loaded layer w l
        → sync_finish s.cache layer w l ≡ (c, none)
        → Step s (with_cache s c outside)
    -- The end of `cache_get`.
    hand :
        (layer expert slot : ℕ)
        → s.caller ≡ serving layer expert slot
        → Step s (with_cache s (consume s.cache slot) outside)
    -- `drain`, once every worker has returned.
    join :
        s.caller ≡ outside
        → ((t : ℕ) → t < s.pipe.nth → s.workers t ≡ gone)
        → Step s (record s { pipe = forget s.pipe })
    -- `cache_getmany` with no batch in flight, for a layer in range, where some slot was reserved and
    -- some thread was created.
    launch :
        (layer started : ℕ) (ids : List ℤ)
        → s.caller ≡ outside
        → s.pipe.nth ≡ 0
        → 1 ≤ started
        → 1 ≤ length (reserved find s layer ids).1
        → Step s (record s {
          cache = mark false layer (reserved find s layer ids).0 ids;
          pipe = pipe_launch s.pipe layer (reserved find s layer ids).1 started;
          workers = λ t. ready;
        })

  pub data Reach (s : System B) : System B → Type 0 where
    here : Reach s s
    later : {t u : System B} → Reach s t → Step t u → Reach s u
