-- ===== src/Cache/Pipe.antt =====
-- Known-route pipelining of src/cache/k3_cache.c: the parts that run under the mutex, and the reads.
-- The elapsed time is left out, and with it `ndone`, which only tells when a batch's time is up.
pub mod System
pub mod Claims
pub mod Schedule
pub mod Invariant
pub mod Claiming
pub mod Workers
pub mod Calls
pub mod Requests
pub mod Settle
pub mod Launch
pub mod Safety
pub mod Progress
pub mod Fallback
mod Tests
use kimi_k3_for_me.Prelude.{
  ℕ, zero, suc, ◌+◌, ◌*◌, Bool, true, false, ◌&&◌, ◌||◌, List, [], ◌∷◌, Option, none, some, ltb,
  ◌==◌, if◌then◌else◌, bump, length, get_elem?,
}
use kimi_k3_for_me.Prelude.Arrays.{update}
use kimi_k3_for_me.Prelude.Int.{eq_pos}
use kimi_k3_for_me.Load.Geometry.{ExpertRef}
use kimi_k3_for_me.Cache.State.{Cache, Loaded, key}
use kimi_k3_for_me.Cache.Victim.{pick_victim}
use kimi_k3_for_me.Cache.Admit.{touch, evict, vacate, reserve, store, publish}
use kimi_k3_for_me.Cache.Batch.{Work}

-- K3_PIPE_PENDING, K3_PIPE_DONE, K3_PIPE_FAILED.
pub data Status : Type 0 where
  pending done failed : Status

-- `K3PipeWork`.
pub record Entry : Type 0 where
  pub work : Work
  pub status : Status

-- `K3CachePipe`. `entries i` counts for `i` below `nw`.
pub record Pipe : Type 0 where
  pub entries : ℕ → Entry
  pub nw : ℕ
  pub cursor : ℕ
  pub layer : ℕ
  pub active : Bool
  pub nth : ℕ

abbrev pub is_pending : Status → Bool
is_pending pending = true
is_pending done = false
is_pending failed = false

abbrev pub set_status : Pipe → ℕ → Status → Pipe
set_status p i x = record p {
  entries = update p.entries i (record { work = (p.entries i).work; status = x });
}

-- The entry that a worker takes: `cursor < nw ? cursor++ : -1`.
unfoldable pub claim_next : Pipe → Option ℕ × Pipe
claim_next p =
    if ltb p.cursor p.nw then (some p.cursor, record p { cursor = p.cursor + 1 }) else (none, p)

-- Whether one of the first `n` entries is a pending read of an expert.
unfoldable pub has_pending : Pipe → ℕ → ℕ → Bool
has_pending p expert zero = false
has_pending p expert (suc n) =
    has_pending p expert n
    || ((p.entries n).work.expert == expert && is_pending (p.entries n).status)

-- What an iteration of the loop of `admit_pipelined` does: serve a slot, wait, or miss.
pub data Look : Type 0 where
  served : ℕ → Look
  wait miss : Look

module _ {B : Type 0} where
  -- `pipe_finish`. Its broadcast lets the calling thread look again, which it may do in every state.
  unfoldable pub pipe_finish : Cache B → Pipe → ℕ → Loaded B → Cache B × Pipe
  unfolding publish vacate
  pipe_finish c p i l =
      let w = (p.entries i).work in
      if eq_pos l.got w.r.nbytes
      then (
        let d = publish c w.slot (key c p.layer w.expert) w.r l in
            record d { prefetch_reads = bump d.prefetch_reads },
        set_status p i done,
      )
      else (vacate c w.slot, set_status p i failed)

  -- `pipe_run_one`, on one thread.
  unfoldable pub pipe_run_one : Cache B → Pipe → ℕ → Loaded B → Cache B × Pipe
  unfolding store pipe_finish
  pipe_run_one c p i l = pipe_finish (store c (p.entries i).work.slot l) p i l

  unfoldable pub look : Cache B → Pipe → ℕ → ℕ → Look
  unfolding has_pending
  look c p layer expert = elim (c.slot_of (key c layer expert)) [
    | some slot ↦ served slot
    | none ↦ if p.active && (p.layer == layer && has_pending p expert p.nw) then wait else miss
  ]

  -- A hit: the counter and the stamp.
  unfoldable pub hit : Cache B → ℕ → Cache B
  unfolding touch
  hit c slot = touch (record c { hits = bump c.hits }) slot

  -- `admit_sync_locked` up to its read, with the slot that it reserved.
  unfoldable pub sync_reserve : (ℕ → ℕ → Option ExpertRef) → Cache B → ℕ → ℕ → Cache B × Option Work
  unfolding evict reserve pick_victim
  sync_reserve find c layer expert = elim (find layer expert) [
    | none ↦ (c, none)
    | some r ↦ if ltb c.slot_bytes r.nbytes then (c, none) else elim (pick_victim c false) [
      | none ↦ (c, none)
      | some slot ↦
          (reserve (evict c slot) slot, some record { slot = slot; expert = expert; r = r })
    ]
  ]

  -- `admit_sync_locked` from its read on.
  unfoldable pub sync_finish : Cache B → ℕ → Work → Loaded B → Cache B × Option ℕ
  unfolding publish vacate
  sync_finish c layer w l =
      if eq_pos l.got w.r.nbytes
      then (publish c w.slot (key c layer w.expert) w.r l, some w.slot)
      else (vacate c w.slot, none)

-- The entries of a reserved batch; those behind it stay as they were.
abbrev pub batch_entries : (ℕ → Entry) → List Work → ℕ → Entry
batch_entries old ws i = elim (get_elem? ws i) [
  | none ↦ old i
  | some w ↦ record { work = w; status = pending }
]

-- `pipe_launch` with `started` worker threads, at least one.
unfoldable pub pipe_launch : Pipe → ℕ → List Work → ℕ → Pipe
pipe_launch p layer ws started = record {
  entries = batch_entries p.entries ws;
  nw = length ws;
  cursor = 0;
  layer = layer;
  active = true;
  nth = started;
}

-- `drain` of a batch whose workers have returned.
unfoldable pub forget : Pipe → Pipe
forget p = record p { nth = 0; nw = 0; cursor = 0; active = false }

abbrev pub is_done : Status → Bool
is_done pending = false
is_done done = true
is_done failed = false

-- How many of `n` entries from `i` on are done.
unfoldable pub done_from : Pipe → ℕ → ℕ → ℕ
done_from p i zero = 0
done_from p i (suc n) =
    let rest = done_from p (i + 1) n in if is_done (p.entries i).status then rest + 1 else rest

-- `pipe_launch` where no thread starts: the loops over the entries, on the calling thread.
module _ {B : Type 0} (load : ExpertRef → Loaded B) where
  unfoldable pub run_from : Cache B → Pipe → ℕ → ℕ → Cache B × Pipe
  unfolding pipe_run_one
  run_from c p i zero = (c, p)
  run_from c p i (suc n) =
      let (d, q) = pipe_run_one c p i (load (p.entries i).work.r) in run_from d q (i + 1) n

  unfoldable pub pipe_sync : Cache B → Pipe → ℕ → List Work → Cache B × Pipe × ℕ
  unfolding run_from done_from pipe_launch
  pipe_sync c p layer ws =
      let n = length ws in
      let (d, q) = run_from c (record (pipe_launch p layer ws 0) { active = false }) 0 n in
      (d, record q { nw = 0; cursor = 0 }, done_from q 0 n)
