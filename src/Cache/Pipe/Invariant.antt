-- ===== src/Cache/Pipe/Invariant.antt =====
-- What holds between the steps of the threads of a pipelined cache (src/cache/k3_cache.c).
use kimi_k3_for_me.Prelude.{ℕ, ◌<◌, ◌≡◌, ◌≢◌, ◌⊎◌, Option, none, some}
use kimi_k3_for_me.Load.Geometry.{ExpertRef}
use kimi_k3_for_me.Cache.State.{Cache, tables, Loaded, key}
use kimi_k3_for_me.Cache.Batch.{Work}
use kimi_k3_for_me.Cache.Pipe.{Pipe}
use kimi_k3_for_me.Cache.Pipe.System.{
  System, Caller, Keeps, arrived, asked, missed, loading, loaded, serving,
}
use kimi_k3_for_me.Cache.Pipe.Claims.{batch, caller, Open, IsClaimed}
use kimi_k3_for_me.Cache.Pipe.Schedule.{IsOpen, IsScheduled}

-- The reservations of the two sides.
abbrev pub Pending : Pipe → ℕ → ℕ → Work → Type 0
Pending p i l w = (i < p.nw) × IsOpen p i × (l ≡ p.layer) × (w ≡ (p.entries i).work)

module _ {B : Type 0} where
  abbrev pub Reading : Caller B → ℕ → Work → Type 0
  Reading k l w = (k ≡ loading l w) ⊎ ((x : Loaded B) × (k ≡ loaded l w x))

  abbrev pub opened : Pipe → Caller B → Open
  opened p k (batch i) l w = Pending p i l w
  opened p k caller l w = Reading k l w

module _ {B : Type 0} (find : ℕ → ℕ → Option ExpertRef)
    (Complete : ExpertRef → ℕ → B → Type 0) where
  -- A finished read: where it returned the size of the expert, its slot has the expert.
  pub record IsLanded (c : Cache B) (w : Work) (x : Loaded B) : Type 0 where
    pub sound : Keeps find Complete w.r x
    pub bytes : c.arena w.slot ≡ x.bytes

  -- Where the calling thread is, against the tables and the batch.
  pub record IsPlaced (c : Cache B) (p : Pipe) (k : Caller B) : Type 0 where
    pub range : (l e : ℕ) → k ≡ asked l e → e < c.n_experts
    pub alone :
        (l e : ℕ)
        → k ≡ missed l e
        → (e < c.n_experts)
          × (c.slot_of (key c l e) ≡ none)
          × ((i : ℕ) → i < p.nw → IsOpen p i → key c l e ≢ key c p.layer (p.entries i).work.expert)
    pub read : (l : ℕ) (w : Work) (x : Loaded B) → k ≡ loaded l w x → IsLanded c w x
    pub serves : (l e slot : ℕ) → k ≡ serving l e slot → c.slot_of (key c l e) ≡ some slot

  pub record IsRunning (s : System B) : Type 0 where
    pub scheduled : IsScheduled s.pipe s.workers
    pub claims : IsClaimed find Complete (tables s.cache) (opened s.pipe s.caller)
    pub landed :
        (t i : ℕ) (x : Loaded B)
        → t < s.pipe.nth
        → s.workers t ≡ arrived i x
        → IsLanded s.cache (s.pipe.entries i).work x
    pub placed : IsPlaced s.cache s.pipe s.caller
