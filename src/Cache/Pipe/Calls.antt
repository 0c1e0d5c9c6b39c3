-- ===== src/Cache/Pipe/Calls.antt =====
-- A step of the calling thread (src/cache/k3_cache.c) keeps the invariant.
use kimi_k3_for_me.Prelude.{
  ℕ, zero, suc, ◌<◌, ◌≡◌, ◌≢◌, inl, inr, refl, sym, false, ◌&&◌, Option, none, some, arith, ◌==◌,
  Bool-cases, Option-cases, ltb,
}
use kimi_k3_for_me.Prelude.Int.{pos, eq_pos}
use kimi_k3_for_me.Load.Geometry.{ExpertRef}
use kimi_k3_for_me.Cache.State.{Cache, Loaded, key}
use kimi_k3_for_me.Cache.Victim.{pick_victim}
use kimi_k3_for_me.Cache.Admit.{publish, vacate, evict, reserve}
use kimi_k3_for_me.Cache.Admit.Laws.{eq_pos→eq}
use kimi_k3_for_me.Cache.Batch.{Work}
use kimi_k3_for_me.Cache.Pipe.{Pipe, served, miss, has_pending, look, sync_reserve, sync_finish}
use kimi_k3_for_me.Cache.Pipe.Schedule.{IsOpen}

pub has_pending-false :
    (p : Pipe) (e n : ℕ)
    → has_pending p e n ≡ false
    → (i : ℕ) → i < n
    → IsOpen p i
    → (p.entries i).work.expert ≢ e
unfolding has_pending
has_pending-false p e zero h i lt o q = omega arith
has_pending-false p e (suc n) h i lt o q = elim (Bool-cases (i == n)) [
  | inl last ↦ let here : i ≡ n = ground arith in ground (arith, here)
  | inr other ↦ has_pending-false p e n (ground arith) i (ground arith) o q
]

module _ {B : Type 0} where
  pub look-served :
      (c : Cache B) (p : Pipe) (l e slot : ℕ)
      → look c p l e ≡ served slot
      → c.slot_of (key c l e) ≡ some slot
  unfolding look
  look-served c p l e slot h = ground arith

  pub look-miss :
      (c : Cache B) (p : Pipe) (l e : ℕ)
      → look c p l e ≡ miss
      → (c.slot_of (key c l e) ≡ none)
        × ((p.active && (p.layer == l && has_pending p e p.nw)) ≡ false)
  unfolding look
  look-miss c p l e h = (ground arith, ground arith)

  pub sync_reserve-some :
      (find : ℕ → ℕ → Option ExpertRef) (c d : Cache B) (l e : ℕ) (w : Work)
      → sync_reserve find c l e ≡ (d, some w)
      → (find l e ≡ some w.r)
        × (w.expert ≡ e)
        × (pick_victim c false ≡ some w.slot)
        × (d ≡ reserve (evict c w.slot) w.slot)
  unfolding sync_reserve
  sync_reserve-some find c d l e w h = elim (Option-cases (find l e)) [
    | inl q ↦ absurd (ground arith)
    | inr (r, q) ↦ elim (Bool-cases (ltb c.slot_bytes r.nbytes)) [
      | inl big ↦ absurd (ground arith)
      | inr fits ↦ elim (Option-cases (pick_victim c false)) [
        | inl full ↦ absurd (ground arith)
        | inr (slot, pick) ↦
            let got : Cache B × Option Work =
              (reserve (evict c slot) slot, some record { slot = slot; expert = e; r = r }) in
            let same : got ≡ (d, some w) = ground arith in
            let pw : record { slot = slot; expert = e; r = r } ≡ w = cc (same) in
            let pd : reserve (evict c slot) slot ≡ d = cc (same) in
            rw (sym pw, sym pd) (q, refl, pick, refl)
      ]
    ]
  ]

  pub sync_reserve-none :
      (find : ℕ → ℕ → Option ExpertRef) (c d : Cache B) (l e : ℕ)
      → sync_reserve find c l e ≡ (d, none)
      → d ≡ c
  unfolding sync_reserve
  sync_reserve-none find c d l e h = elim (Option-cases (find l e)) [
    | inl q ↦ ground arith
    | inr (r, q) ↦ elim (Bool-cases (ltb c.slot_bytes r.nbytes)) [
      | inl big ↦ ground arith
      | inr fits ↦ elim (Option-cases (pick_victim c false)) [
        | inl full ↦ ground arith
        | inr (slot, pick) ↦ absurd (ground arith)
      ]
    ]
  ]

  pub sync_finish-some :
      (c d : Cache B) (l : ℕ) (w : Work) (x : Loaded B) (slot : ℕ)
      → sync_finish c l w x ≡ (d, some slot)
      → (x.got ≡ pos w.r.nbytes) × (slot ≡ w.slot) × (d ≡ publish c w.slot (key c l w.expert) w.r x)
  unfolding sync_finish
  sync_finish-some c d l w x slot h = elim (Bool-cases (eq_pos x.got w.r.nbytes)) [
    | inl all ↦
        let got : Cache B × Option ℕ = (publish c w.slot (key c l w.expert) w.r x, some w.slot) in
        let same : got ≡ (d, some slot) = ground arith in
        (eq_pos→eq x.got w.r.nbytes all, cc (same), cc (same))
    | inr short ↦ absurd (ground arith)
  ]

  pub sync_finish-none :
      (c d : Cache B) (l : ℕ) (w : Work) (x : Loaded B)
      → sync_finish c l w x ≡ (d, none)
      → d ≡ vacate c w.slot
  unfolding sync_finish
  sync_finish-none c d l w x h = elim (Bool-cases (eq_pos x.got w.r.nbytes)) [
    | inl all ↦ absurd (ground arith)
    | inr short ↦ ground arith
  ]
