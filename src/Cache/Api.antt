-- ===== src/Cache/Api.antt =====
-- The entry points of src/cache/k3_cache.c without pipelining: get, resident, prefetch, pin, stats.
pub mod Get
pub mod Room
pub mod Pins
use kimi_k3_for_me.Prelude.{
  ℕ, zero, suc, ◌+◌, ◌-◌, ◌*◌, ◌%◌, ◌^◌, Bool, true, false, ◌&&◌, ◌||◌, not, List, [], ◌∷◌, ◌++◌,
  Option, none, some, ltb, leb, ◌==◌, if◌then◌else◌, length, count, bump,
}
use kimi_k3_for_me.Prelude.Arrays.{update}
use kimi_k3_for_me.Prelude.Int.{ℤ, pos, negsuc}
use kimi_k3_for_me.Load.Geometry.{ExpertRef}
use kimi_k3_for_me.Cache.State.{Cache, Loaded, Slot, empty, inflight, holds, key}
use kimi_k3_for_me.Cache.Admit.{ExpertQ, fill_q, admit}

module _ {B : Type 0} where
  -- The range check of the entry points, with the layer and the expert where it passes.
  pub checked : Cache B → ℤ → ℤ → Option (ℕ × ℕ)
  checked c (pos layer) (pos expert) =
      if ltb layer c.n_layers && ltb expert c.n_experts then some (layer, expert) else none
  checked c (pos layer) (negsuc expert) = none
  checked c (negsuc layer) expert = none

  -- The start of `cache_get`: the histogram (`uint32_t`) and the trace, which grows by `realloc`;
  -- `grown` is whether that call succeeds. `ntrace` is the length of the trace.
  unfoldable pub note : Cache B → ℕ → ℕ → Bool → Cache B
  note c layer expert grown =
      let k = key c layer expert in
      let cap =
        if ltb c.captrace (length c.trace + 2) && grown
        then (if c.captrace == 0 then 65536 else c.captrace * 2)
        else c.captrace in
      record c {
        hist = update c.hist k ((c.hist k + 1) % 2 ^ 32);
        captrace = cap;
        trace = if leb (length c.trace + 2) cap then c.trace ++ (layer ∷ expert ∷ []) else c.trace;
      }

  -- The end of `cache_get`, on the slot that serves the request.
  unfoldable pub consume : Cache B → ℕ → Cache B
  consume c slot = record c {
    demand_requests = bump c.demand_requests;
    demand_reuses = if c.fresh slot then c.demand_reuses else bump c.demand_reuses;
    fresh = update c.fresh slot false;
  }

  -- `cache_resident`: 1 or 0, with the pointers where it is 1.
  unfoldable pub resident : Cache B → ℤ → ℤ → Option ExpertQ
  unfolding checked fill_q
  resident c layer expert = elim (checked c layer expert) [
    | none ↦ none
    | some (l, e) ↦ elim (c.slot_of (key c l e)) [ none ↦ none | some s ↦ some (fill_q c s) ]
  ]

  -- A slot that a manual pin holds: pinned, with a key that the profile does not mark.
  abbrev pub is_manual : Cache B → ℕ → Bool
  is_manual c i = c.pinned i && elim (c.key_of i) [ holds k ↦ not (c.hot_key k) | _ ↦ false ]

  -- The counting loop of `k3_cache_pin`.
  unfoldable pub manual_pins : Cache B → ℕ
  manual_pins c = count c.nslot (is_manual c)

  pub pin_slot : Cache B → Bool → ℕ → ℕ → Cache B × Bool
  unfolding manual_pins
  pin_slot c pin k slot =
      if (pin && (not (c.pinned slot) && not (c.hot_key k)))
        && leb c.nslot (c.profile_pins + manual_pins c + c.topk + 1)
      then (c, false)
      else (record c { pinned = update c.pinned slot pin }, true)

  -- `k3_cache_pin`.
  unfoldable pub pin_expert : Cache B → ℤ → ℤ → Bool → Cache B × Bool
  unfolding checked pin_slot
  pin_expert c layer expert pin = elim (checked c layer expert) [
    | none ↦ (c, false)
    | some (l, e) ↦ elim (c.slot_of (key c l e)) [
      | none ↦ (c, false)
      | some slot ↦ pin_slot c pin (key c l e) slot
    ]
  ]

  -- `k3_cache_reset_stats`; the `fresh` flags stay.
  unfoldable pub reset_stats : Cache B → Cache B
  reset_stats c = record c {
    hits = 0;
    misses = 0;
    evictions = 0;
    bytes_read = 0;
    demand_requests = 0;
    demand_reuses = 0;
    prefetch_reads = 0;
  }

  module _ (find : ℕ → ℕ → Option ExpertRef) (load : ExpertRef → Loaded B) where
    serve : Cache B × Option ℕ → Cache B × Option ExpertQ
    unfolding consume fill_q
    serve (c, none) = (c, none)
    serve (c, some slot) = (consume c slot, some (fill_q c slot))

    -- `cache_get`: 0 with the pointers, or -1.
    unfoldable pub get : Cache B → ℤ → ℤ → Bool → Cache B × Option ExpertQ
    unfolding checked note admit serve
    get c layer expert grown = elim (checked c layer expert) [
      | none ↦ (c, none)
      | some (l, e) ↦ serve (admit find load (note c l e grown) l e)
    ]

    -- `k3_cache_prefetch`: whether it returns 0.
    unfoldable pub prefetch : Cache B → ℤ → ℤ → Cache B × Bool
    unfolding checked admit
    prefetch c layer expert = elim (checked c layer expert) [
      | none ↦ (c, false)
      | some (l, e) ↦
          let (d, slot) = admit find load c l e in (d, elim slot [ none ↦ false | some _ ↦ true ])
    ]
