-- ===== src/Cache/Victim.antt =====
-- `pick_victim` of src/cache/k3_cache.c: the least recently used slot that may be taken.
pub mod Lru
use kimi_k3_for_me.Prelude.{
  ℕ, zero, suc, ◌+◌, ◌-◌, ◌^◌, ◌≤◌, ◌<◌, ◌≡◌, ◌≢◌, ◌⊎◌, inl, inr, refl, Bool, true, false, ◌&&◌,
  ◌||◌, Option, none, some, arith, ltb, if◌then◌else◌,
}
use kimi_k3_for_me.Cache.State.{Cache, Slot, empty, inflight, holds}

-- What the loop body does with slot `i`: `continue`, `return i`, or compare its stamp.
pub data Probe : Type 0 where
  skip take compete : Probe

module _ {B : Type 0} (c : Cache B) (protect_batch : Bool) where
  pub probe : ℕ → Probe
  probe i = elim (c.key_of i) [
    | inflight ↦ skip
    | empty ↦ take
    | holds k ↦
        if c.pinned i || c.hot_key k
        then skip
        else if protect_batch && c.requested k
        then skip
        else compete
  ]

  -- The loop from slot `i` with `rounds` slots to go.
  pub scan : ℕ → ℕ → Option ℕ → ℕ → Option ℕ
  scan zero i best oldest = best
  scan (suc rounds) i best oldest = elim (probe i) [
    | skip ↦ scan rounds (i + 1) best oldest
    | take ↦ some i
    | compete ↦
        scan rounds (i + 1) (if ltb (c.used_at i) oldest then some i else best)
          (if ltb (c.used_at i) oldest then c.used_at i else oldest)
  ]

  unfoldable pub pick_victim : Option ℕ
  unfolding scan probe
  pick_victim = scan c.nslot 0 none (2 ^ 64 - 1)

pub Probe-cases : (p : Probe) → (p ≡ skip) ⊎ ((p ≡ take) ⊎ (p ≡ compete))
Probe-cases skip = inl refl
Probe-cases take = inr (inl refl)
Probe-cases compete = inr (inr refl)
