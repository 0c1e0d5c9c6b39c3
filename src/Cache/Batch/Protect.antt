-- ===== src/Cache/Batch/Protect.antt =====
-- A batch of `cache_getmany` (src/cache/k3_cache.c) does not evict residents that it asks for.
use kimi_k3_for_me.Prelude.{
  ℕ, ◌+◌, ◌*◌, ◌≡◌, ◌≢◌, inl, inr, refl, true, List, [], ◌∷◌, ◌++◌, All, All-map, Option, some,
  arith, subst, Bool-cases, sym, ◌∙◌,
}
use kimi_k3_for_me.Prelude.Arrays.{update_ne}
use kimi_k3_for_me.Prelude.Int.{ℤ, eq_pos}
use kimi_k3_for_me.Load.Geometry.{ExpertRef}
use kimi_k3_for_me.Cache.State.{Cache, Tables, tables, Loaded, empty, inflight, holds, key}
use kimi_k3_for_me.Cache.Victim.{pick_victim}
use kimi_k3_for_me.Cache.Victim.Lru.{IsTaken, pick_victim-IsTaken}
use kimi_k3_for_me.Cache.Admit.{touch, evict, vacate, reserve, publish}
use kimi_k3_for_me.Cache.Admit.Table.{IsValid}
use kimi_k3_for_me.Cache.Admit.Laws.{IsSound}
use kimi_k3_for_me.Cache.Admit.Frame.{IsKept, IsKept-trans, evict-IsKept}
use kimi_k3_for_me.Cache.Batch.{Work, choose, reserve_all, read_all, publish_one, publish_all}
use kimi_k3_for_me.Cache.Batch.Reserve.{
  IsReserved, IsBatch, Choice-cases, choose-Claims, claim-IsBatch,
}
use kimi_k3_for_me.Cache.Batch.Publish.{write_all-ne, publish_one-IsPending, IsPending}

module _ {B : Type 0} (find : ℕ → ℕ → Option ExpertRef) (Complete : ExpertRef → ℕ → B → Type 0)
    (layer : ℕ) where
  requested-ne :
      (c : Cache B) (s k t : ℕ)
      → IsValid find Complete (tables c)
      → pick_victim c true ≡ some s
      → c.slot_of k ≡ some t
      → c.requested k ≡ true
      → t ≢ s
  requested-ne c s k t v pick h why same =
      let (lt, which) = subst (IsTaken c true) pick (pick_victim-IsTaken c true) in
      ground (arith, which, v.forward k t h)

  reserve-IsKept :
      (c : Cache B) (s k t : ℕ)
      → IsValid find Complete (tables c)
      → c.slot_of k ≡ some t
      → t ≢ s
      → IsKept (tables c) (tables (reserve (evict c s) s)) k t
  unfolding reserve evict
  reserve-IsKept c s k t v h ne =
      let e = evict-IsKept find Complete c s k t v h ne in
      record {
        slot = e.slot;
        holder = update_ne c.key_of inflight (λ q. ne (sym q));
        bytes = refl;
        ref = refl;
        pad = refl;
        pin = refl;
      }

  pub reserve_all-IsKept :
      (ids : List ℤ) (c : Cache B) (ws : List Work) (k t : ℕ)
      → IsBatch find layer Complete c ws
      → c.slot_of k ≡ some t
      → c.requested k ≡ true
      → IsKept (tables c) (tables (reserve_all find layer c ws ids).0) k t
  unfolding reserve_all reserve evict
  reserve_all-IsKept [] c ws k t b h m = record {
    slot = h;
    holder = refl;
    bytes = refl;
    ref = refl;
    pad = refl;
    pin = refl;
  }
  reserve_all-IsKept (id ∷ ids) c ws k t b h m = elim (Choice-cases (choose find layer c ws id)) [
    | inl e ↦ rw (e, reserve_all) (reserve_all-IsKept ids c ws k t b h m)
    | inr (inl e) ↦
        rw (e, reserve_all)
          (record { slot = h; holder = refl; bytes = refl; ref = refl; pad = refl; pin = refl })
    | inr (inr (x, e)) ↦
        let claims = choose-Claims find layer c ws id x e in
        let d = reserve (evict c x.slot) x.slot in
        let first =
          reserve-IsKept c x.slot k t b.valid h
            (requested-ne c x.slot k t b.valid claims.pick h m) in
        rw (e, reserve_all)
          (IsKept-trans (tables c) (tables d) _ k t first (
            reserve_all-IsKept ids d (ws ++ (x ∷ [])) k t
              (claim-IsBatch find layer Complete c ws x claims b) first.slot m))
  ]

  module _ (load : ExpertRef → Loaded B) where
    -- A resident is not among the claims.
    apart_of_resident :
        (c : Tables B) (w : Work) (k t : ℕ)
        → IsValid find Complete c
        → c.slot_of k ≡ some t
        → IsReserved find layer c w
        → (w.slot ≢ t) × (layer * c.n_experts + w.expert ≢ k)
    apart_of_resident c w k t v h r =
        ((λ q. ground (arith, r.waiting, v.forward k t h)), λ q. ground (arith, r.new))

    pub read_all-IsKept :
        (c : Cache B) (ws : List Work) (k t : ℕ)
        → IsValid find Complete (tables c)
        → All (IsReserved find layer (tables c)) ws
        → c.slot_of k ≡ some t
        → IsKept (tables c) (tables (read_all load c ws)) k t
    unfolding read_all
    read_all-IsKept c ws k t v r h = record {
      slot = h;
      holder = refl;
      bytes = write_all-ne load ws c.arena t (
          All-map (IsReserved find layer (tables c)) (λ w. w.slot ≢ t)
            (λ w q. (apart_of_resident (tables c) w k t v h q).0) ws r);
      ref = refl;
      pad = refl;
      pin = refl;
    }

    publish_one-IsKept :
        (c : Cache B) (w : Work) (k t : ℕ)
        → c.slot_of k ≡ some t
        → w.slot ≢ t
        → key c layer w.expert ≢ k
        → IsKept (tables c) (tables (publish_one load layer c w).0) k t
    unfolding publish_one publish vacate touch
    publish_one-IsKept c w k t h a b = elim (Bool-cases (eq_pos (load w.r).got w.r.nbytes)) [
      | inl all ↦
          rw (all, publish_one)
            (record {
              slot = update_ne c.slot_of (some w.slot) b ∙ h;
              holder = update_ne c.key_of (holds (key c layer w.expert)) a;
              bytes = refl;
              ref = update_ne c.ref w.r a;
              pad = update_ne c.pad (load w.r).pad a;
              pin = refl;
            })
      | inr short ↦
          rw (short, publish_one)
            (record {
              slot = h;
              holder = update_ne c.key_of empty a;
              bytes = refl;
              ref = refl;
              pad = refl;
              pin = refl;
            })
    ]

    pub publish_all-IsKept :
        (sound : IsSound Complete load) (ws : List Work) (c : Cache B) (k t : ℕ)
        → IsPending load find layer Complete sound (tables c) ws
        → c.slot_of k ≡ some t
        → IsKept (tables c) (tables (publish_all load layer c ws).0) k t
    unfolding publish_all
    publish_all-IsKept sound [] c k t p h = record {
      slot = h;
      holder = refl;
      bytes = refl;
      ref = refl;
      pad = refl;
      pin = refl;
    }
    publish_all-IsKept sound (w ∷ ws) c k t p h =
        let d = (publish_one load layer c w).0 in
        let (a, b) = apart_of_resident (tables c) w k t p.valid h p.reserved.0 in
        let first = publish_one-IsKept c w k t h a b in
        IsKept-trans (tables c) (tables d) _ k t first (
          publish_all-IsKept sound ws d k t
            (publish_one-IsPending load find layer Complete sound c w ws p) first.slot)
