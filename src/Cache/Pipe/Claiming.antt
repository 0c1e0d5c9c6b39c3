-- ===== src/Cache/Pipe/Claiming.antt =====
-- `pipe_worker` (src/cache/k3_cache.c) taking an entry and reading it keeps the invariant.
use kimi_k3_for_me.Prelude.{
  ℕ, ◌+◌, ◌≤◌, ◌<◌, ◌≡◌, ◌≢◌, inl, inr, refl, sym, Option, arith, ◌==◌, Bool-cases,
}
use kimi_k3_for_me.Prelude.Arrays.{update, update_self}
use kimi_k3_for_me.Load.Geometry.{ExpertRef}
use kimi_k3_for_me.Cache.State.{Loaded}
use kimi_k3_for_me.Cache.Admit.{store}
use kimi_k3_for_me.Cache.Pipe.System.{System, Keeps, ready, reading, arrived, gone}
use kimi_k3_for_me.Cache.Pipe.Claims.{batch, caller, store-IsClaimed}
use kimi_k3_for_me.Cache.Pipe.Schedule.{IsOpen, IsScheduled, take-IsScheduled, keep-IsScheduled}
use kimi_k3_for_me.Cache.Pipe.Invariant.{Pending, opened, IsRunning}

pub batch-ne : (i j : ℕ) → i ≢ j → batch i ≢ batch j
batch-ne i j h e = h (cc (e))

module _ {B : Type 0} (find : ℕ → ℕ → Option ExpertRef)
    (Complete : ExpertRef → ℕ → B → Type 0) where
  -- The reservation of an entry that a worker holds.
  pub holds-Pending :
      (s : System B) (t i : ℕ)
      → IsScheduled s.pipe s.workers
      → t < s.pipe.nth
      → IsOpen s.pipe i
      → i < s.pipe.cursor
      → Pending s.pipe i s.pipe.layer (s.pipe.entries i).work
  holds-Pending s t i h lt unsettled low = (omega (arith, h.cursor), unsettled, refl, refl)

  pub take-IsRunning :
      (s : System B) (t : ℕ)
      → t < s.pipe.nth
      → s.workers t ≡ ready
      → s.pipe.cursor < s.pipe.nw
      → IsRunning find Complete s
      → IsRunning find Complete (record s {
        pipe = record s.pipe { cursor = s.pipe.cursor + 1 };
        workers = update s.workers t (reading s.pipe.cursor);
      })
  take-IsRunning s t lt idle more h = record {
    scheduled = take-IsScheduled s.pipe s.workers t lt idle more h.scheduled;
    claims = h.claims;
    landed = λ u i x hu e. h.landed u i x hu (ground arith);
    placed = record {
      range = h.placed.range;
      alone = h.placed.alone;
      read = h.placed.read;
      serves = h.placed.serves;
    };
  }

  pub finish-IsRunning :
      (s : System B) (t : ℕ)
      → t < s.pipe.nth
      → s.workers t ≡ ready
      → s.pipe.nw ≤ s.pipe.cursor
      → IsRunning find Complete s
      → IsRunning find Complete (record s { workers = update s.workers t gone })
  finish-IsRunning s t lt idle over h = record {
    scheduled = keep-IsScheduled s.pipe s.workers t gone lt (ground arith) (λ e. over) h.scheduled;
    claims = h.claims;
    landed = λ u i x hu e. h.landed u i x hu (ground arith);
    placed = h.placed;
  }

  pub read-IsRunning :
      (s : System B) (t i : ℕ) (l : Loaded B)
      → t < s.pipe.nth
      → s.workers t ≡ reading i
      → Keeps find Complete (s.pipe.entries i).work.r l
      → IsRunning find Complete s
      → IsRunning find Complete (record s {
        cache = store s.cache (s.pipe.entries i).work.slot l;
        workers = update s.workers t (arrived i l);
      })
  unfolding store
  read-IsRunning s t i l lt at keeps h =
      let w = (s.pipe.entries i).work in
      let (low, unsettled) = h.scheduled.busy t i lt (ground arith) in
      let mine = holds-Pending s t i h.scheduled lt unsettled low in
      record {
        scheduled =
            keep-IsScheduled s.pipe s.workers t (arrived i l) lt (ground arith) (λ e. absurd cc)
              h.scheduled;
        claims =
            store-IsClaimed find Complete s.cache (opened s.pipe s.caller) (batch i) s.pipe.layer w
              l mine h.claims;
        landed = λ u j x hu e. elim (Bool-cases (t == u)) [
          | inl same ↦
              let got : arrived i l ≡ arrived j x = ground arith in
              let pi : i ≡ j = cc (got) in
              let pl : l ≡ x = cc (got) in
              rw (sym pi, sym pl)
                (record { sound = keeps; bytes = update_self s.cache.arena w.slot l.bytes })
          | inr other ↦
              let before : s.workers u ≡ arrived j x = ground arith in
              let y = h.landed u j x hu before in
              let (low', unsettled') = h.scheduled.busy u j hu (ground arith) in
              let theirs = holds-Pending s u j h.scheduled hu unsettled' low' in
              let ne : i ≢ j = λ q. ground (arith, h.scheduled.unique t u i lt hu) in
              let (a, b) =
                h.claims.apart (batch i) (batch j) _ _ _ _ mine theirs (batch-ne i j ne) in
              record { sound = y.sound; bytes = ground (arith, y.bytes) }
        ];
        placed = record {
          range = h.placed.range;
          alone = h.placed.alone;
          read = λ y v x e.
              let z = h.placed.read y v x e in
              let (a, b) = h.claims.apart (batch i) caller _ y _ v mine (inr (x, e)) (λ q. cc) in
              record { sound = z.sound; bytes = ground (arith, z.bytes) };
          serves = h.placed.serves;
        };
      }
