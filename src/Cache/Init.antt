-- ===== src/Cache/Init.antt =====
-- `k3_cache_init` of src/cache/k3_cache.c, without the pipelining threads.
pub mod Laws
mod Tests
use kimi_k3_for_me.Prelude.{
  ℕ, zero, suc, ◌+◌, ◌-◌, ◌*◌, ◌/◌, ◌%◌, ◌^◌, Bool, true, false, not, List, [], Option, none, some,
  ltb, if◌then◌else◌,
}
use kimi_k3_for_me.Prelude.Int.{ℤ, pos, negsuc}
use kimi_k3_for_me.Load.Geometry.{QMat, ExpertRef}
use kimi_k3_for_me.Read.{align, align_down}
use kimi_k3_for_me.Cache.State.{Cache, empty}

-- The fields of `K3Cfg` that the cache reads.
pub record Config : Type 0 where
  pub n_layers : ℕ
  pub n_experts : ℕ
  pub topk : ℕ
  pub first_dense : ℕ

-- `k3_is_dense`.
abbrev pub is_dense : Config → ℕ → Bool
is_dense cfg layer = ltb layer cfg.first_dense

-- A zeroed `K3ExpertRef`.
abbrev pub zero_mat : QMat
zero_mat = record { p_off = 0; p_bytes = 0; s_off = 0; s_bytes = 0; rows = 0; pcols = 0; scols = 0 }

abbrev pub zero_ref : ExpertRef
zero_ref = record {
  layer = 0;
  expert = 0;
  shard = 0;
  off = 0;
  nbytes = 0;
  contiguous = false;
  m0 = zero_mat;
  m1 = zero_mat;
  m2 = zero_mat;
}

-- The stride of a slot for an expert of the given size.
abbrev pub slot_stride : ℕ → ℕ
slot_stride nbytes = align_down (nbytes + 2 * align + align - 1)

-- The cast of a quotient to `int`. A negative count is below every `topk + 1`, as 0 is.
abbrev pub slot_count : ℕ → ℕ
slot_count q = if ltb (q % 2 ^ 32) (2 ^ 31) then q % 2 ^ 32 else 0

module _ (find : ℕ → ℕ → Option ExpertRef) (cfg : Config) where
  -- The loop over the layers, with the rounds that are left.
  unfoldable pub sample : ℕ → ℕ → Option ExpertRef
  sample zero layer = none
  sample (suc n) layer =
      let rest = sample n (layer + 1) in
      if is_dense cfg layer then rest else elim (find layer 0) [ some r ↦ some r | none ↦ rest ]

module _ {B : Type 0} (cfg : Config) where
  -- The cache with all of its arrays reset; `arena` is what the allocation holds.
  unfoldable pub started : ℕ → ℕ → (ℕ → B) → Cache B
  started slot_bytes nslot arena = record {
    n_layers = cfg.n_layers;
    n_experts = cfg.n_experts;
    topk = cfg.topk;
    arena = arena;
    slot_bytes = slot_bytes;
    nslot = nslot;
    slot_of = λ _. none;
    key_of = λ _. empty;
    used_at = λ _. 0;
    pinned = λ _. false;
    hot_key = λ _. false;
    requested = λ _. false;
    fresh = λ _. false;
    profile_pins = 0;
    ref = λ _. zero_ref;
    pad = λ _. 0;
    clock = 0;
    hits = 0;
    misses = 0;
    evictions = 0;
    bytes_read = 0;
    prefetch_reads = 0;
    demand_requests = 0;
    demand_reuses = 0;
    hist = λ _. 0;
    trace = [];
    captrace = 0;
  }

module _ {B : Type 0} (find : ℕ → ℕ → Option ExpertRef) (cfg : Config) where
  -- `memory` says whether every allocation succeeds. A negative budget gives no slots.
  unfoldable pub init : ℤ → Bool → (ℕ → B) → Option (Cache B)
  unfolding sample started
  init budget memory arena = elim (sample find cfg cfg.n_layers 0) [
    | none ↦ none
    | some r ↦ elim budget [
      | negsuc n ↦ none
      | pos b ↦
          if ltb (slot_count (b / slot_stride r.nbytes)) (cfg.topk + 1)
          then none
          else (if not memory
              then none
              else some (
                  started cfg (slot_stride r.nbytes) (slot_count (b / slot_stride r.nbytes)) arena))
    ]
  ]
