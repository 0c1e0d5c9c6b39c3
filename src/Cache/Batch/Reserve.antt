-- ===== src/Cache/Batch/Reserve.antt =====
-- Phase 1 of `cache_getmany` (src/cache/k3_cache.c): every claim has a slot of its own.
use kimi_k3_for_me.Prelude.{
  ℕ, ◌+◌, ◌*◌, ◌<◌, ◌≡◌, ◌≢◌, ◌⊎◌, inl, inr, refl, true, false, List, [], ◌∷◌, ◌++◌, All,
  All-append, All-append_left, All-map, All-pair, Option, none, some, arith, subst,
}
use kimi_k3_for_me.Prelude.Arrays.{update_self}
use kimi_k3_for_me.Prelude.Int.{ℤ, pos, negsuc}
use kimi_k3_for_me.Load.Geometry.{ExpertRef}
use kimi_k3_for_me.Cache.State.{Cache, Tables, tables, inflight, key}
use kimi_k3_for_me.Cache.Victim.{pick_victim}
use kimi_k3_for_me.Cache.Victim.Lru.{IsTaken, pick_victim-IsTaken}
use kimi_k3_for_me.Cache.Admit.{evict, reserve}
use kimi_k3_for_me.Cache.Admit.Table.{IsValid, slot_of-evict, victim-IsDetached, reserve-IsValid}
use kimi_k3_for_me.Cache.Batch.{
  Work, Choice, skip, stop, claim, has_expert, choose_expert, choose, reserve_all,
}

pub Choice-cases : (x : Choice) → (x ≡ skip) ⊎ ((x ≡ stop) ⊎ ((w : Work) × (x ≡ claim w)))
Choice-cases skip = inl refl
Choice-cases stop = inr (inl refl)
Choice-cases (claim w) = inr (inr (w, refl))

-- Two entries share neither a slot nor an expert.
abbrev pub IsApart : Work → Work → Type 0
IsApart w x = (w.slot ≢ x.slot) × (w.expert ≢ x.expert)

abbrev pub IsDistinct : List Work → Type 0
IsDistinct [] = Unit
IsDistinct (w ∷ ws) = All (IsApart w) ws × IsDistinct ws

pub IsDistinct-append :
    (ws : List Work) (x : Work)
    → IsDistinct ws
    → All (λ w. IsApart w x) ws
    → IsDistinct (ws ++ (x ∷ []))
IsDistinct-append [] x d a = (tt, tt)
IsDistinct-append (w ∷ ws) x d a =
    (All-append (IsApart w) ws (x ∷ []) d.0 (a.0, tt), IsDistinct-append ws x d.1 a.1)

has_expert-ne : (e : ℕ) (ws : List Work) → has_expert e ws ≡ false → All (λ w. w.expert ≢ e) ws
unfolding has_expert
has_expert-ne e [] h = tt
has_expert-ne e (w ∷ ws) h = ((λ q. ground arith), has_expert-ne e ws (ground arith))

module _ {B : Type 0} (find : ℕ → ℕ → Option ExpertRef) (layer : ℕ) where
  -- A claim whose read has not been published: its slot is in flight, and its expert has none.
  pub record IsReserved (c : Tables B) (w : Work) : Type 0 where
    pub waiting : c.key_of w.slot ≡ inflight
    pub inside : w.slot < c.nslot
    pub new : c.slot_of (layer * c.n_experts + w.expert) ≡ none
    pub range : w.expert < c.n_experts
    pub found : find layer w.expert ≡ some w.r

  pub record Claims (c : Cache B) (ws : List Work) (x : Work) : Type 0 where
    pub range : x.expert < c.n_experts
    pub new : c.slot_of (key c layer x.expert) ≡ none
    pub fresh : has_expert x.expert ws ≡ false
    pub found : find layer x.expert ≡ some x.r
    pub pick : pick_victim c true ≡ some x.slot

  choose_expert-Claims :
      (c : Cache B) (ws : List Work) (e : ℕ) (x : Work)
      → e < c.n_experts
      → choose_expert find layer c ws e ≡ claim x
      → Claims c ws x
  unfolding choose_expert
  choose_expert-Claims c ws e x he h = record {
    range = ground arith;
    new = ground arith;
    fresh = ground arith;
    found = ground arith;
    pick = ground arith;
  }

  pub choose-Claims :
      (c : Cache B) (ws : List Work) (id : ℤ) (x : Work)
      → choose find layer c ws id ≡ claim x
      → Claims c ws x
  unfolding choose
  choose-Claims c ws (pos e) x h = choose_expert-Claims c ws e x (ground arith) (ground arith)
  choose-Claims c ws (negsuc e) x h = absurd (ground arith)

  module _ (Complete : ExpertRef → ℕ → B → Type 0) where
    slot-apart :
        (c : Cache B) (s : ℕ) (y : Work)
        → pick_victim c true ≡ some s
        → IsReserved (tables c) y
        → y.slot ≢ s
    slot-apart c s y pick r same =
        let (lt, which) = subst (IsTaken c true) pick (pick_victim-IsTaken c true) in
        ground (arith, which, r.waiting)

    IsReserved-reserve :
        (c : Cache B) (s : ℕ) (y : Work)
        → IsReserved (tables c) y
        → IsReserved (tables (reserve (evict c s) s)) y
    unfolding reserve evict
    IsReserved-reserve c s y r = record {
      waiting = ground (arith, r.waiting);
      inside = r.inside;
      new = slot_of-evict c s (key c layer y.expert) r.new;
      range = r.range;
      found = r.found;
    }

    -- What the reservation loop keeps.
    pub record IsBatch (c : Cache B) (ws : List Work) : Type 0 where
      pub valid : IsValid find Complete (tables c)
      pub reserved : All (IsReserved (tables c)) ws
      pub distinct : IsDistinct ws
      pub only : (s : ℕ) → c.key_of s ≡ inflight → ¬ All (λ w. w.slot ≢ s) ws

    pub claim-IsBatch :
        (c : Cache B) (ws : List Work) (x : Work)
        → Claims c ws x
        → IsBatch c ws
        → IsBatch (reserve (evict c x.slot) x.slot) (ws ++ (x ∷ []))
    unfolding reserve evict
    claim-IsBatch c ws x k b =
        let d = victim-IsDetached find Complete c true x.slot k.pick b.valid in
        record {
          valid = reserve-IsValid find Complete (evict c x.slot) x.slot d;
          reserved =
              All-append (IsReserved (tables (reserve (evict c x.slot) x.slot))) ws (x ∷ [])
                (All-map (IsReserved (tables c)) _ (IsReserved-reserve c x.slot) ws b.reserved)
                (
                  record {
                    waiting = update_self c.key_of x.slot inflight;
                    inside = d.inside;
                    new = slot_of-evict c x.slot (key c layer x.expert) k.new;
                    range = k.range;
                    found = k.found;
                  },
                  tt,
                );
          distinct = IsDistinct-append ws x b.distinct (
              All-pair (λ w. w.slot ≢ x.slot) (λ w. w.expert ≢ x.expert) ws
                (All-map (IsReserved (tables c)) (λ w. w.slot ≢ x.slot)
                  (λ y. slot-apart c x.slot y k.pick) ws b.reserved)
                (has_expert-ne x.expert ws k.fresh));
          only = λ s h a.
              let (rest, last) = All-append_left (λ w. w.slot ≢ s) ws (x ∷ []) a in
              b.only s (ground (arith, last.0)) rest;
        }

    -- The reservation loop keeps the tables in agreement and gives each claim a slot that no other
    -- claim has, in flight and free of any key.
    pub reserve_all-IsBatch :
        (ids : List ℤ) (c : Cache B) (ws : List Work)
        → IsBatch c ws
        → IsBatch (reserve_all find layer c ws ids).0 (reserve_all find layer c ws ids).1
    unfolding reserve_all
    reserve_all-IsBatch [] c ws b = b
    reserve_all-IsBatch (id ∷ ids) c ws b = elim (Choice-cases (choose find layer c ws id)) [
      | inl e ↦ rw (e, reserve_all) (reserve_all-IsBatch ids c ws b)
      | inr (inl e) ↦ rw (e, reserve_all) b
      | inr (inr (x, e)) ↦
          rw (e, reserve_all)
            (reserve_all-IsBatch ids (reserve (evict c x.slot) x.slot) (ws ++ (x ∷ []))
              (claim-IsBatch c ws x (choose-Claims c ws id x e) b))
    ]

module _ {B : Type 0} (find : ℕ → ℕ → Option ExpertRef) (layer : ℕ) where
  pub reserve_all-same :
      (ids : List ℤ) (c : Cache B) (ws : List Work)
      → let d = (reserve_all find layer c ws ids).0 in
        (d.n_experts ≡ c.n_experts)
        × (d.requested ≡ c.requested)
        × (d.hot_key ≡ c.hot_key)
        × (d.nslot ≡ c.nslot)
  unfolding reserve_all reserve evict
  reserve_all-same [] c ws = (refl, refl, refl, refl)
  reserve_all-same (id ∷ ids) c ws = elim (Choice-cases (choose find layer c ws id)) [
    | inl e ↦ rw (e, reserve_all) (reserve_all-same ids c ws)
    | inr (inl e) ↦ rw (e, reserve_all) (refl, refl, refl, refl)
    | inr (inr (x, e)) ↦
        rw (e, reserve_all)
          (reserve_all-same ids (reserve (evict c x.slot) x.slot) (ws ++ (x ∷ [])))
  ]
