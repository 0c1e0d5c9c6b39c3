-- ===== src/Cache/Profile/Loaded.antt =====
-- The cache after `k3_cache_load_profile` (src/cache/k3_cache.c).
use kimi_k3_for_me.Prelude.{
  ℕ, ◌+◌, ◌*◌, ◌<◌, ◌≤◌, ◌≡◌, inl, inr, refl, Bool, true, false, List, Option, some, min, arith,
  Option-cases, count, count-zero, subst, ap, ◌∙◌,
}
use kimi_k3_for_me.Prelude.Int.{pos}
use kimi_k3_for_me.Load.Geometry.{ExpertRef}
use kimi_k3_for_me.Cache.State.{Cache, tables}
use kimi_k3_for_me.Cache.Admit.Table.{IsValid}
use kimi_k3_for_me.Cache.Api.{is_manual, manual_pins}
use kimi_k3_for_me.Cache.Api.Room.{IsRoomy}
use kimi_k3_for_me.Cache.Profile.{Geometry, Rows, read_profile, load_profile}
use kimi_k3_for_me.Cache.Profile.Laws.{IsKnown, IsMarking, geometry, key-lt, read_profile-IsMarking}

known-lt :
    (find : ℕ → ℕ → Option ExpertRef) (g : Geometry) (want k : ℕ)
    → IsKnown find g want k
    → k < g.n_layers * g.n_experts
known-lt find g want k w =
    let (hl, he) = w.inside in
    let e = w.is in let below = key-lt w.layer w.expert g.n_layers g.n_experts hl he in omega arith

module _ {B : Type 0} (find : ℕ → ℕ → Option ExpertRef) where
  -- A cache with the marks of a profile of `want` experts.
  pub record IsProfiled (c d : Cache B) (want : ℕ) : Type 0 where
    pub pins : d.profile_pins ≡ want
    pub marks : count (c.n_layers * c.n_experts) d.hot_key ≡ want
    pub known : (k : ℕ) → d.hot_key k ≡ true → IsKnown find (geometry c) want k
    pub roomy : IsRoomy d

  marked-IsProfiled :
      (c : Cache B) (want : ℕ) (m : Rows)
      → ((s : ℕ) → c.pinned s ≡ false)
      → want + c.topk + 1 ≤ c.nslot
      → want ≤ m.rows
      → IsMarking find (geometry c) want m
      → IsProfiled c (record c { hot_key = m.selected; profile_pins = want }) want
  unfolding manual_pins
  marked-IsProfiled c want m free room enough w =
      let d = record c { hot_key = m.selected; profile_pins = want } in
      let size : count (c.n_layers * c.n_experts) m.selected ≡ min m.rows want = w.size in
      let none_pinned : count c.nslot (is_manual d) ≡ 0 =
        count-zero c.nslot (is_manual d) (λ i. rw (free i) refl) in
      record {
        pins = refl;
        marks = omega arith;
        known = w.known;
        roomy = record {
          range = λ k h. known-lt find (geometry c) want k (w.known k h);
          marked = omega arith;
          room = omega arith;
        };
      }

  -- `k3_cache_load_profile` of `want` experts succeeds only on an unused cache, and then marks exactly
  -- `want` experts, each in range and in the checkpoint, and reserves as many pins. The tables still
  -- agree, and `topk + 1` slots stay free of pins if nothing was pinned before.
  pub load_profile-IsProfiled :
      (Complete : ExpertRef → ℕ → B → Type 0) (c d : Cache B) (lines : List (List ℕ))
      (broken : Bool) (want : ℕ)
      → IsValid find Complete (tables c)
      → ((s : ℕ) → c.pinned s ≡ false)
      → load_profile find c lines broken (pos want) ≡ (d, true)
      → (c.clock ≡ 0) × IsProfiled c d want × IsValid find Complete (tables d)
  unfolding load_profile
  load_profile-IsProfiled Complete c d lines broken want v free h =
      let marked : (ℕ → Bool) → Cache B =
        λ marks. record c { hot_key = marks; profile_pins = want } in
      elim (Option-cases (read_profile (some (geometry c, find)) lines broken want)) [
        | inl bad ↦ absurd ground arith
        | inr (marks, e) ↦
            let (m, selects, enough, w) =
              read_profile-IsMarking find (geometry c) want lines broken marks e in
            let is : marked marks ≡ d = ground arith in
            let room : want + c.topk + 1 ≤ c.nslot = ground arith in
            (
              ground arith,
              subst (λ x. IsProfiled c x want) (ap marked selects ∙ is)
                  (marked-IsProfiled c want m free room enough w),
              subst (λ x. IsValid find Complete (tables x)) is v,
            )
      ]
