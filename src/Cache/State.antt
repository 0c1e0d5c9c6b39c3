-- ===== src/Cache/State.antt =====
-- `K3Cache` of src/cache/k3_cache.h: its arrays, slot states and counters, and what a read leaves.
use kimi_k3_for_me.Prelude.{ℕ, ◌≡◌, refl, ◌⊎◌, inl, inr, ◌+◌, ◌*◌, Bool, List, Option}
use kimi_k3_for_me.Prelude.Int.{ℤ}
use kimi_k3_for_me.Load.Geometry.{ExpertRef}

-- An entry of `key_of[]`: K3_SLOT_EMPTY, K3_SLOT_INFLIGHT, or the key that the slot holds.
pub data Slot : Type 0 where
  empty inflight : Slot
  holds : ℕ → Slot

pub Slot-cases : (s : Slot) → (s ≡ empty) ⊎ ((s ≡ inflight) ⊎ ((k : ℕ) × (s ≡ holds k)))
Slot-cases empty = inl refl
Slot-cases inflight = inr (inl refl)
Slot-cases (holds k) = inr (inr (k, refl))

-- `slot_of[k]` is `none` for -1. An element of `B` is the contents of one slot of the arena.
-- `load_seconds`, the function pointers of `src` and the handle `st` have no field.
pub record Cache (B : Type 0) : Type 0 where
  pub n_layers : ℕ
  pub n_experts : ℕ
  pub topk : ℕ
  pub arena : ℕ → B
  pub slot_bytes : ℕ
  pub nslot : ℕ
  pub slot_of : ℕ → Option ℕ
  pub key_of : ℕ → Slot
  pub used_at : ℕ → ℕ
  pub pinned : ℕ → Bool
  pub hot_key : ℕ → Bool
  pub requested : ℕ → Bool
  pub fresh : ℕ → Bool
  pub profile_pins : ℕ
  pub ref : ℕ → ExpertRef
  pub pad : ℕ → ℕ
  pub clock : ℕ
  pub hits : ℕ
  pub misses : ℕ
  pub evictions : ℕ
  pub bytes_read : ℕ
  pub prefetch_reads : ℕ
  pub demand_requests : ℕ
  pub demand_reuses : ℕ
  pub hist : ℕ → ℕ
  pub trace : List ℕ
  pub captrace : ℕ

-- What `k3_expert_load_direct` returns, stores through `payload_off`, and leaves in the slot.
pub record Loaded (B : Type 0) : Type 0 where
  pub got : ℤ
  pub pad : ℕ
  pub bytes : B

-- The key of an expert.
abbrev pub key : {B : Type 0} → Cache B → ℕ → ℕ → ℕ
key c layer expert = layer * c.n_experts + expert

-- The part of the cache that says which slot holds which expert.
pub record Tables (B : Type 0) : Type 0 where
  pub n_experts : ℕ
  pub nslot : ℕ
  pub arena : ℕ → B
  pub slot_of : ℕ → Option ℕ
  pub key_of : ℕ → Slot
  pub pinned : ℕ → Bool
  pub ref : ℕ → ExpertRef
  pub pad : ℕ → ℕ

abbrev pub tables : {B : Type 0} → Cache B → Tables B
tables c = record {
  n_experts = c.n_experts;
  nslot = c.nslot;
  arena = c.arena;
  slot_of = c.slot_of;
  key_of = c.key_of;
  pinned = c.pinned;
  ref = c.ref;
  pad = c.pad;
}
