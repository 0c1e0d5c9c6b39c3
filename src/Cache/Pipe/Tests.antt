-- ===== src/Cache/Pipe/Tests.antt =====
-- A run of the pipelined cache (src/cache/k3_cache.c) with two workers, and the theorems at it.
use kimi_k3_for_me.Prelude.{
  Option, ◌⊎◌, ℕ, ◌+◌, ◌≤◌, ◌<◌, ◌≡◌, ◌≢◌, refl, true, false, List, [], ◌∷◌, some, arith,
}
use kimi_k3_for_me.Prelude.Arrays.{update}
use kimi_k3_for_me.Prelude.Int.{pos, negsuc}
use kimi_k3_for_me.Cache.State.{tables, Loaded, inflight, key}
use kimi_k3_for_me.Cache.Victim.{pick_victim}
use kimi_k3_for_me.Cache.Admit.{store}
use kimi_k3_for_me.Cache.Admit.Table.{IsValid, IsServed}
use kimi_k3_for_me.Cache.Batch.{Work, mark, reserve_all, read_all, publish_all}
use kimi_k3_for_me.Cache.Api.{note}
use kimi_k3_for_me.Cache.Pipe.{
  wait, done, claim_next, pipe_finish, look, hit, pipe_launch, forget, pipe_sync,
}
use kimi_k3_for_me.Cache.Pipe.System.{
  System, outside, ready, reading, arrived, gone, asked, serving, with_cache, reserved, WorkerStep,
  take, finish, read, land, worker, ask, found, launch, Reach, here, later,
}
use kimi_k3_for_me.Cache.Pipe.Safety.{IsQuiet, serving-IsServed, reads-apart, join-IsSettled}
use kimi_k3_for_me.Cache.Pipe.Progress.{
  WorkerRun, done, more, remaining, waiting-step, waiting-ends,
}
use kimi_k3_for_me.Cache.Pipe.Fallback.{pipe_sync-publish_all}
use kimi_k3_for_me.Cache.Sample.{find, Complete, load, load-IsSound, ref_of, fresh, fresh-IsValid}

abbrev quiet : System ℕ
quiet = record {
  cache = fresh;
  pipe = record {
    entries = λ _. record { work = record { slot = 0; expert = 0; r = ref_of 0 0 }; status = done };
    nw = 0;
    cursor = 0;
    layer = 0;
    active = false;
    nth = 0;
  };
  workers = λ _. gone;
  caller = outside;
}

quiet-IsQuiet : IsQuiet find Complete quiet
quiet-IsQuiet = record {
  valid = fresh-IsValid;
  settled = λ t e. absurd cc;
  outside = refl;
  threads = refl;
  entries = refl;
  cursor = refl;
}

abbrev took : System ℕ → ℕ → ℕ → System ℕ
took s t i = record s {
  pipe = record s.pipe { cursor = i + 1 };
  workers = update s.workers t (reading i);
}

abbrev got : System ℕ → ℕ → ℕ → Loaded ℕ → System ℕ
got s t i l = record s {
  cache = store s.cache (s.pipe.entries i).work.slot l;
  workers = update s.workers t (arrived i l);
}

abbrev put : System ℕ → ℕ → ℕ → Loaded ℕ → System ℕ
put s t i l = record s {
  cache = (pipe_finish s.cache s.pipe i l).0;
  pipe = (pipe_finish s.cache s.pipe i l).1;
  workers = update s.workers t ready;
}

abbrev back : System ℕ → ℕ → System ℕ
back s t = record s { workers = update s.workers t gone }

abbrev in_flight : System ℕ
in_flight = record quiet {
  cache = mark false 0 (reserved find quiet 0 (pos 2 ∷ pos 1 ∷ [])).0 (pos 2 ∷ pos 1 ∷ []);
  pipe = pipe_launch quiet.pipe 0 (reserved find quiet 0 (pos 2 ∷ pos 1 ∷ [])).1 2;
  workers = λ t. ready;
}

-- Both workers read; the second read, of expert 1, fails.
abbrev both : System ℕ
both = took (took in_flight 0 0) 1 1

abbrev first : Loaded ℕ
first = load (ref_of 0 2)

abbrev short : Loaded ℕ
short = record { got = negsuc 0; pad = 0; bytes = 77777 }

in_flight-Reach : Reach find Complete quiet in_flight
unfolding reserve_all mark find pick_victim
in_flight-Reach = later here (launch 0 2 (pos 2 ∷ pos 1 ∷ []) refl refl (omega arith) (omega arith))

both-Reach : Reach find Complete quiet both
unfolding reserve_all mark find pick_victim claim_next pipe_launch
both-Reach =
    later (later in_flight-Reach (worker 0 _ (omega arith) (take 0 _ refl refl)))
      (worker 1 _ (omega arith) (take 1 _ refl refl))

-- A request for expert 1 while its read runs.
abbrev waits : System ℕ
waits = with_cache both (note both.cache 0 1 true) (asked 0 1)

waits-Reach : Reach find Complete quiet waits
unfolding reserve_all mark find pick_victim pipe_launch
waits-Reach = later both-Reach (ask 0 1 true refl (omega arith) (omega arith))

waits-look : look waits.cache waits.pipe 0 1 ≡ wait
unfolding reserve_all mark find pick_victim pipe_launch look note
waits-look = refl

-- The slot of expert 2 is served while the other read goes on.
abbrev early : System ℕ
early = put (got both 0 0 first) 0 0 first

abbrev serves : System ℕ
serves =
    let s = with_cache early (note early.cache 0 2 true) (asked 0 2) in
    with_cache s (hit s.cache 0) (serving 0 2 0)

serves-Reach : Reach find Complete quiet serves
unfolding reserve_all mark find pick_victim pipe_launch pipe_finish store note look
serves-Reach =
    later
      (later
        (later (later both-Reach (worker 0 _ (omega arith) (read 0 first refl (λ q. refl))))
          (worker 0 _ (omega arith) (land 0 first refl)))
        (ask 0 2 true refl (omega arith) (omega arith)))
      (found 0 2 0 refl refl)

serving-IsServed_example :
    IsValid find Complete (tables serves.cache)
    × (serves.cache.slot_of (key serves.cache 0 2) ≡ some 0)
    × IsServed find Complete (tables serves.cache) 0 (key serves.cache 0 2)
serving-IsServed_example =
    serving-IsServed find Complete quiet serves quiet-IsQuiet serves-Reach 0 2 0 refl

-- The two workers, with slots 0 and 1.
reads-apart_example :
    (both.cache.key_of 0 ≡ inflight) × (◌≢◌ {A = ℕ} 0 1 ⊎ ◌≡◌ {A = Option ℕ} (some 0) (some 1))
unfolding pipe_launch reserve_all mark find pick_victim claim_next
reads-apart_example =
    reads-apart find Complete quiet both quiet-IsQuiet both-Reach (some 0) (some 1) 0 1
      (0, omega arith, refl, refl) (1, omega arith, refl, refl)

waiting-step_example :
    (t : ℕ) × (t < waits.pipe.nth) × ((v : System ℕ) × WorkerStep find Complete waits t v)
waiting-step_example =
    waiting-step find Complete load load-IsSound quiet waits 0 1 quiet-IsQuiet waits-Reach
      waits-look

-- The workers alone from there on, until both have returned; the read of expert 1 fails.
abbrev ended : System ℕ
ended = back (back (put (got (put (got waits 0 0 first) 0 0 first) 1 1 short) 1 1 short) 0) 1

ended-WorkerRun : WorkerRun find Complete waits 6 ended
unfolding reserve_all mark find pick_victim pipe_launch pipe_finish store claim_next
ended-WorkerRun =
    more
      (more
        (more
          (more
            (more (more done 0 (omega arith) (read 0 first refl (λ q. refl))) 0 (omega arith)
              (land 0 first refl))
            1 (omega arith) (read 1 short refl (λ q. absurd cc)))
          1 (omega arith) (land 1 short refl))
        0 (omega arith) (finish _ refl refl))
      1 (omega arith) (finish _ refl refl)

waiting-ends_example :
    (6 ≤ remaining waits) × (6 ≡ remaining waits → look ended.cache ended.pipe 0 1 ≢ wait)
waiting-ends_example =
    waiting-ends find Complete load load-IsSound quiet waits ended 6 0 1 quiet-IsQuiet waits-Reach
      ended-WorkerRun

-- The read of expert 1 fails, and both workers return.
abbrev over : System ℕ
over = back (back (put (got early 1 1 short) 1 1 short) 0) 1

over-Reach : Reach find Complete quiet over
unfolding reserve_all mark find pick_victim pipe_launch pipe_finish store claim_next
over-Reach =
    later
      (later
        (later
          (later
            (later (later both-Reach (worker 0 _ (omega arith) (read 0 first refl (λ q. refl))))
              (worker 0 _ (omega arith) (land 0 first refl)))
            (worker 1 _ (omega arith) (read 1 short refl (λ q. absurd cc))))
          (worker 1 _ (omega arith) (land 1 short refl)))
        (worker 0 _ (omega arith) (finish _ refl refl)))
      (worker 1 _ (omega arith) (finish _ refl refl))

over-gone : (t : ℕ) → t < over.pipe.nth → over.workers t ≡ gone
unfolding reserve_all mark find pick_victim pipe_launch pipe_finish store claim_next
over-gone t lt = ground arith

join-IsSettled_example : IsQuiet find Complete (record over { pipe = forget over.pipe })
join-IsSettled_example =
    join-IsSettled find Complete quiet over quiet-IsQuiet over-Reach refl over-gone

abbrev two : List Work
two =
    record { slot = 2; expert = 1; r = ref_of 0 1 }
    ∷ record { slot = 0; expert = 2; r = ref_of 0 2 }
    ∷ []

pipe_sync-publish_all_example :
    ((pipe_sync load fresh quiet.pipe 0 two).0
      ≡ (publish_all load 0 (read_all load fresh two) two).0)
    × ((pipe_sync load fresh quiet.pipe 0 two).2
        ≡ (publish_all load 0 (read_all load fresh two) two).1)
pipe_sync-publish_all_example = pipe_sync-publish_all load fresh quiet.pipe 0 two

run_pipe_sync : (pipe_sync load fresh quiet.pipe 0 two).2 ≡ 2
unfolding pipe_sync
run_pipe_sync = refl
