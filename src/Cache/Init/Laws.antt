-- ===== src/Cache/Init/Laws.antt =====
-- What `k3_cache_init` (src/cache/k3_cache.c) establishes.
use native.Mathlib.Nat.{div-add-mod', mul-le-mul_right}
use kimi_k3_for_me.Prelude.{
  ℕ, ◌+◌, ◌*◌, ◌/◌, ◌%◌, ◌≤◌, ◌≡◌, inl, inr, refl, Bool, false, Option, some, arith, Option-cases,
  count-zero, subst,
}
use kimi_k3_for_me.Prelude.Int.{ℤ, pos, negsuc}
use kimi_k3_for_me.Load.Geometry.{ExpertRef}
use kimi_k3_for_me.Read.{align}
use kimi_k3_for_me.Cache.State.{Cache, tables}
use kimi_k3_for_me.Cache.Admit.Table.{IsValid}
use kimi_k3_for_me.Cache.Api.{is_manual, manual_pins}
use kimi_k3_for_me.Cache.Api.Room.{IsRoomy}
use kimi_k3_for_me.Cache.Batch.Laws.{IsSettled}
use kimi_k3_for_me.Cache.Init.{Config, slot_stride, slot_count, sample, started, init}

-- The cast gives no more slots.
slot_count_lem : (q : ℕ) → slot_count q ≤ q
slot_count_lem q = ground arith

module _ {B : Type 0} (find : ℕ → ℕ → Option ExpertRef) (cfg : Config) where
  -- A cache as it starts: its tables agree, its slots are free, the pins leave room, and a slot is
  -- aligned and has room for the sampled expert and the pages around it, within the budget.
  pub record IsStarted (Complete : ExpertRef → ℕ → B → Type 0) (budget : ℕ) (c : Cache B)
      : Type 0 where
    pub valid : IsValid find Complete (tables c)
    pub settled : IsSettled c
    pub roomy : IsRoomy c
    pub aligned : c.slot_bytes % align ≡ 0
    pub sampled :
        (r : ExpertRef) × (sample find cfg cfg.n_layers 0 ≡ some r)
        × (r.nbytes + 2 * align ≤ c.slot_bytes)
    pub within : c.nslot * c.slot_bytes ≤ budget

  started-IsStarted :
      (Complete : ExpertRef → ℕ → B → Type 0) (b : ℕ) (arena : ℕ → B) (r : ExpertRef)
      → sample find cfg cfg.n_layers 0 ≡ some r
      → cfg.topk + 1 ≤ slot_count (b / slot_stride r.nbytes)
      → IsStarted Complete b
          (started cfg (slot_stride r.nbytes) (slot_count (b / slot_stride r.nbytes)) arena)
  unfolding started manual_pins
  started-IsStarted Complete b arena r e room =
      let n = slot_count (b / slot_stride r.nbytes) in
      record {
        valid = record {
          forward = λ k s h. cc;
          backward = λ k s h. cc;
          served = λ k s h. absurd cc;
          pins = λ s h. absurd cc;
        };
        settled = λ s h. absurd cc;
        roomy = record {
          range = λ k h. absurd cc;
          marked =
              omega (arith, count-zero (cfg.n_layers * cfg.n_experts) (λ k. false) (λ i. refl));
          room = omega (
            arith,
            count-zero n (is_manual (started cfg (slot_stride r.nbytes) n arena)) (λ i. refl),
          );
        };
        aligned = omega arith;
        sampled = (r, e, omega arith);
        within = omega (
          arith,
          div-add-mod' b (slot_stride r.nbytes),
          mul-le-mul_right (slot_stride r.nbytes) (slot_count_lem (b / slot_stride r.nbytes)),
        );
      }

  init-cases :
      (budget : ℤ) (memory : Bool) (arena : ℕ → B) (c : Cache B)
      → init find cfg budget memory arena ≡ some c
      → (b : ℕ) × (r : ExpertRef) × (budget ≡ pos b)
        × (sample find cfg cfg.n_layers 0 ≡ some r)
        × (cfg.topk + 1 ≤ slot_count (b / slot_stride r.nbytes))
        × (started cfg (slot_stride r.nbytes) (slot_count (b / slot_stride r.nbytes)) arena ≡ c)
  unfolding init
  init-cases (negsuc b) memory arena c h = elim (Option-cases (sample find cfg cfg.n_layers 0)) [
    | inl e ↦ absurd ground arith
    | inr (r, e) ↦ absurd ground arith
  ]
  init-cases (pos b) memory arena c h = elim (Option-cases (sample find cfg cfg.n_layers 0)) [
    | inl e ↦ absurd ground arith
    | inr (r, e) ↦ (b, r, refl, e, ground arith, ground arith)
  ]

  pub init-IsStarted :
      (Complete : ExpertRef → ℕ → B → Type 0) (budget : ℤ) (memory : Bool) (arena : ℕ → B)
      (c : Cache B)
      → init find cfg budget memory arena ≡ some c
      → (b : ℕ) × (budget ≡ pos b) × IsStarted Complete b c
  init-IsStarted Complete budget memory arena c h =
      let (b, r, eb, es, room, is) = init-cases budget memory arena c h in
      (b, eb, subst (IsStarted Complete b) is (started-IsStarted Complete b arena r es room))
