-- ===== src/Cache/Batch/Publish.antt =====
-- Phases 2 and 3 of `cache_getmany` (src/cache/k3_cache.c): each claim gets the bytes of its own
-- read, and is registered only if that read was complete.
use native.Mathlib.Omega.{arith}
use kimi_k3_for_me.Prelude.{
  ℕ, ◌+◌, ◌*◌, ◌≡◌, ◌≢◌, inl, inr, refl, Bool, List, [], ◌∷◌, All, All-map, All-pair, Option, none,
  some, if◌then◌else◌, subst, Bool-cases, sym, ◌∙◌,
}
use kimi_k3_for_me.Prelude.Arrays.{update, update_self, update_ne}
use kimi_k3_for_me.Prelude.Int.{eq_pos}
use kimi_k3_for_me.Load.Geometry.{ExpertRef}
use kimi_k3_for_me.Cache.State.{Cache, Tables, tables, Loaded, empty, inflight, holds, key}
use kimi_k3_for_me.Cache.Admit.{touch, vacate, publish}
use kimi_k3_for_me.Cache.Admit.Table.{IsValid, IsDetached, detach, publish-IsValid, vacate-IsValid}
use kimi_k3_for_me.Cache.Admit.Laws.{IsSound, eq_pos→eq, found_unique}
use kimi_k3_for_me.Cache.Batch.{Work, write_all, read_all, publish_one, publish_all}
use kimi_k3_for_me.Cache.Batch.Reserve.{IsApart, IsDistinct, IsReserved}

module _ {B : Type 0} (load : ExpertRef → Loaded B) where
  pub write_all-ne :
      (ws : List Work) (arena : ℕ → B) (t : ℕ)
      → All (λ w. w.slot ≢ t) ws
      → write_all load arena ws t ≡ arena t
  unfolding write_all
  write_all-ne [] arena t a = refl
  write_all-ne (w ∷ ws) arena t a =
      write_all-ne ws (update arena w.slot (load w.r).bytes) t a.1
      ∙ update_ne arena (load w.r).bytes a.0

  -- Where the slots are distinct, each holds the bytes of its own read.
  pub write_all_self :
      (ws : List Work) (arena : ℕ → B)
      → IsDistinct ws
      → All (λ w. write_all load arena ws w.slot ≡ (load w.r).bytes) ws
  unfolding write_all
  write_all_self [] arena d = tt
  write_all_self (w ∷ ws) arena d = (
    write_all-ne ws (update arena w.slot (load w.r).bytes) w.slot
          (All-map (IsApart w) (λ x. x.slot ≢ w.slot) (λ x p e. p.0 (sym e)) ws d.0)
        ∙ update_self arena w.slot (load w.r).bytes,
    write_all_self ws (update arena w.slot (load w.r).bytes) d.1,
  )

  module _ (find : ℕ → ℕ → Option ExpertRef) (layer : ℕ) (Complete : ExpertRef → ℕ → B → Type 0)
      (sound : IsSound Complete load) where
    pub read_all-IsValid :
        (c : Cache B) (ws : List Work)
        → IsValid find Complete (tables c)
        → All (IsReserved find layer (tables c)) ws
        → IsValid find Complete (tables (read_all load c ws))
    unfolding read_all
    read_all-IsValid c ws v r = record {
      forward = v.forward;
      backward = v.backward;
      served = λ k t h.
          let w = v.served k t h in
          let same : c.arena t ≡ write_all load c.arena ws t = sym (
            write_all-ne ws c.arena t (
              All-map (IsReserved find layer (tables c)) (λ x. x.slot ≢ t)
                (λ x y e. ground (arith, y.waiting)) ws r)) in
          record {
            found = w.found;
            payload = subst (λ b. Complete (c.ref t) (c.pad t) b) same w.payload;
          };
      pins = v.pins;
    }

    -- Claims that have been read and not published; nothing else is in flight.
    pub record IsPending (c : Tables B) (ws : List Work) : Type 0 where
      pub valid : IsValid find Complete c
      pub reserved : All (IsReserved find layer c) ws
      pub distinct : IsDistinct ws
      pub bytes : All (λ w. c.arena w.slot ≡ (load w.r).bytes) ws
      pub only : (s : ℕ) → c.key_of s ≡ inflight → ¬ All (λ w. w.slot ≢ s) ws

    publish-IsReserved :
        (c : Cache B) (w y : Work)
        → IsApart w y
        → IsReserved find layer (tables c) y
        → IsReserved find layer (tables (publish c w.slot (key c layer w.expert) w.r (load w.r))) y
    unfolding publish touch
    publish-IsReserved c w y a r = record {
      waiting = update_ne c.key_of (holds (key c layer w.expert)) a.0 ∙ r.waiting;
      inside = r.inside;
      new = update_ne c.slot_of (some w.slot) (λ e. a.1 (omega (arith, e))) ∙ r.new;
      range = r.range;
      found = r.found;
    }

    vacate-IsReserved :
        (c : Cache B) (w y : Work)
        → IsApart w y
        → IsReserved find layer (tables c) y
        → IsReserved find layer (tables (vacate c w.slot)) y
    unfolding vacate
    vacate-IsReserved c w y a r = record {
      waiting = update_ne c.key_of empty a.0 ∙ r.waiting;
      inside = r.inside;
      new = r.new;
      range = r.range;
      found = r.found;
    }

    others :
        (c d : Tables B) (w : Work) (ws : List Work)
        → ((y : Work) → IsApart w y → IsReserved find layer c y → IsReserved find layer d y)
        → IsPending c (w ∷ ws)
        → All (IsReserved find layer d) ws
    others c d w ws f p =
        All-map (λ y. IsApart w y × IsReserved find layer c y) (IsReserved find layer d)
          (λ y q. f y q.0 q.1) ws
          (All-pair (IsApart w) (IsReserved find layer c) ws p.distinct.0 p.reserved.1)

    pub publish_one-IsPending :
        (c : Cache B) (w : Work) (ws : List Work)
        → IsPending (tables c) (w ∷ ws)
        → IsPending (tables (publish_one load layer c w).0) ws
    unfolding publish_one publish vacate touch
    publish_one-IsPending c w ws p = elim (Bool-cases (eq_pos (load w.r).got w.r.nbytes)) [
      | inl all ↦
          rw (all, publish_one)
            (record {
              valid =
                  publish-IsValid find Complete c w.slot (key c layer w.expert) w.r (load w.r) free
                    here.new
                    (found_unique find Complete c.n_experts layer w.expert w.r here.range
                      here.found)
                    (subst (Complete w.r (load w.r).pad) (sym p.bytes.0)
                      (sound w.r (eq_pos→eq (load w.r).got w.r.nbytes all)));
              reserved = others (tables c) _ w ws (publish-IsReserved c w) p;
              distinct = p.distinct.1;
              bytes = p.bytes.1;
              only = λ s h a. p.only s (ground arith) ((λ e. ground arith), a);
            })
      | inr short ↦
          rw (short, publish_one)
            (record {
              valid = vacate-IsValid find Complete c w.slot free;
              reserved = others (tables c) _ w ws (vacate-IsReserved c w) p;
              distinct = p.distinct.1;
              bytes = p.bytes.1;
              only = λ s h a. p.only s (ground arith) ((λ e. ground arith), a);
            })
    ]
      where
        here : IsReserved find layer (tables c) w
        here = p.reserved.0

        free : IsDetached find Complete (tables c) w.slot
        free =
            detach find Complete c w.slot here.inside (λ k e. ground (arith, here.waiting)) p.valid

    -- Afterwards the tables agree, and no slot is left in flight.
    pub publish_all-IsValid :
        (ws : List Work) (c : Cache B)
        → IsPending (tables c) ws
        → IsValid find Complete (tables (publish_all load layer c ws).0)
          × ((s : ℕ) → (publish_all load layer c ws).0.key_of s ≢ inflight)
    unfolding publish_all
    publish_all-IsValid [] c p = (p.valid, λ s h. p.only s h tt)
    publish_all-IsValid (w ∷ ws) c p =
        publish_all-IsValid ws (publish_one load layer c w).0 (publish_one-IsPending c w ws p)

    publish_one-slot_of :
        (c : Cache B) (w : Work) (k : ℕ)
        → key c layer w.expert ≢ k
        → (publish_one load layer c w).0.slot_of k ≡ c.slot_of k
    unfolding publish_one publish vacate touch
    publish_one-slot_of c w k ne = ground arith

    publish_one-n_experts :
        (c : Cache B) (w : Work) → (publish_one load layer c w).0.n_experts ≡ c.n_experts
    unfolding publish_one publish vacate touch
    publish_one-n_experts c w = ground arith

    publish_all-slot_of :
        (ws : List Work) (c : Cache B) (k : ℕ)
        → All (λ w. key c layer w.expert ≢ k) ws
        → (publish_all load layer c ws).0.slot_of k ≡ c.slot_of k
    unfolding publish_all
    publish_all-slot_of [] c k a = refl
    publish_all-slot_of (w ∷ ws) c k a =
        publish_all-slot_of ws (publish_one load layer c w).0 k (
          subst (λ n. All (λ x. layer * n + x.expert ≢ k) ws) (sym (publish_one-n_experts c w)) a.1)
        ∙ publish_one-slot_of c w k a.0

    -- Whether the whole of a claim's expert arrived.
    abbrev pub arrived : Work → Bool
    arrived w = eq_pos (load w.r).got w.r.nbytes

    -- Each claim is in the table afterwards if its read was complete, and not in it if not.
    abbrev pub IsRegistered : ℕ → Cache B → Work → Type 0
    IsRegistered n d w =
        d.slot_of (layer * n + w.expert) ≡ (if arrived w then some w.slot else none)

    publish_one-IsRegistered :
        (c : Cache B) (w : Work)
        → c.slot_of (key c layer w.expert) ≡ none
        → IsRegistered c.n_experts (publish_one load layer c w).0 w
    unfolding publish_one publish vacate touch
    publish_one-IsRegistered c w new = ground arith

    pub publish_all-IsRegistered :
        (ws : List Work) (c : Cache B)
        → IsPending (tables c) ws
        → All (IsRegistered c.n_experts (publish_all load layer c ws).0) ws
    unfolding publish_all
    publish_all-IsRegistered [] c p = tt
    publish_all-IsRegistered (w ∷ ws) c p =
        let d = (publish_one load layer c w).0 in
        (
          publish_all-slot_of ws d (key c layer w.expert) (
                subst (λ n. All (λ x. layer * n + x.expert ≢ key c layer w.expert) ws)
                  (sym (publish_one-n_experts c w))
                  (All-map (IsApart w) _ (λ x a e. a.1 (omega (arith, e))) ws p.distinct.0))
              ∙ publish_one-IsRegistered c w p.reserved.0.new,
          subst (λ n. All (IsRegistered n (publish_all load layer d ws).0) ws)
              (publish_one-n_experts c w)
              (publish_all-IsRegistered ws d (publish_one-IsPending c w ws p)),
        )

module _ {B : Type 0} (load : ExpertRef → Loaded B) (layer : ℕ) where
  publish_one-requested :
      (c : Cache B) (w : Work) → (publish_one load layer c w).0.requested ≡ c.requested
  unfolding publish_one publish vacate touch
  publish_one-requested c w = ground arith

  pub publish_all-requested :
      (ws : List Work) (c : Cache B) → (publish_all load layer c ws).0.requested ≡ c.requested
  unfolding publish_all
  publish_all-requested [] c = refl
  publish_all-requested (w ∷ ws) c =
      publish_all-requested ws (publish_one load layer c w).0 ∙ publish_one-requested c w
