-- ===== src/Bind/Resolve.antt =====
-- The loop of `plan_resolve` in src/model/k3_bind.c: what it keeps of the requests behind it.
use kimi_k3_for_me.Prelude.{
  ℕ, ◌+◌, ◌%◌, ◌≤◌, ◌≡◌, inl, inr, refl, sym, ap, ◌∙◌, true, not, ◌&&◌, List, [], ◌∷◌, ◌++◌, map,
  Option, some, ltb, ◌==◌, if◌then◌else◌, arith, Bool-cases, Option-cases, subst, All, All-append,
}
use mathlib.Core.List.{append_assoc, append-nil}
use kimi_k3_for_me.Header.Rest.{picked_if}
use kimi_k3_for_me.Index.Tensor.{Tensor, numel}
use kimi_k3_for_me.Bind.Requests.{Weight, Req}
use kimi_k3_for_me.Bind.{
  align8, is_bf16, Placed, room, Resolved, refuse, place, resolve_from, resolve, Write,
}

-- Ranges from `start` to `end`, in their order, each at a multiple of 8.
abbrev pub IsLaid : ℕ → List Write → ℕ → Type 0
IsLaid start [] end = start ≤ end
IsLaid start (w ∷ ws) end = (start ≤ w.off) × (w.off % 8 ≡ 0) × IsLaid (w.off + w.bytes) ws end

abbrev pub region : Placed → Write
region q = record { off = q.off; bytes = room q }

pub IsLaid-append :
    (ws : List Write) (start end : ℕ) (w : Write)
    → IsLaid start ws end
    → end ≤ w.off
    → w.off % 8 ≡ 0
    → IsLaid start (ws ++ (w ∷ [])) (w.off + w.bytes)
IsLaid-append [] start end w h le a = (omega (arith, h), a, omega arith)
IsLaid-append (x ∷ ws) start end w (p, q, h) le a =
    (p, q, IsLaid-append ws (x.off + x.bytes) end w h le a)

map-append : {A B : Type 0} (f : A → B) (xs ys : List A) → map f (xs ++ ys) ≡ map f xs ++ map f ys
map-append f [] ys = refl
map-append f (x ∷ xs) ys = ap (λ t. f x ∷ t) (map-append f xs ys)

module _ (find : Weight → Option Tensor) where
  -- A placed request has a tensor with the number of elements that was asked for, and keeps its
  -- bytes only where they are BF16 and all of them are taken.
  pub record IsStored (q : Placed) : Type 0 where
    pub found : find q.req.weight ≡ some q.tensor
    pub elements : numel q.tensor ≡ q.req.want
    pub prefix : q.req.take ≤ numel q.tensor
    pub raw : q.narrow ≡ true → (is_bf16 q.tensor.dtype ≡ true) × (q.req.take ≡ numel q.tensor)

  -- What the loop keeps, with the requests `done` behind it.
  pub record IsResolved (m : Resolved) (done : List Req) : Type 0 where
    pub laid : IsLaid 0 (map region m.placed) m.off
    pub stored : All IsStored m.placed
    pub kept : m.demoted ≡ 0 → All (λ q. q.narrow ≡ q.req.narrow) m.placed
    pub all : m.bad ≡ 0 → map (λ (q : Placed). q.req) m.placed ≡ done

  refuse-IsResolved :
      (m : Resolved) (done : List Req) (q : Req) (n : ℕ)
      → (n ≡ 0 → m.demoted ≡ 0)
      → IsResolved m done
      → IsResolved (refuse (record m { demoted = n })) (done ++ (q ∷ []))
  refuse-IsResolved m done q n mono h = record {
    laid = h.laid;
    stored = h.stored;
    kept = λ e. h.kept (mono e);
    all = λ e. absurd (omega (arith, e));
  }

  -- A request is placed behind the others, at the next multiple of 8.
  put-IsResolved :
      (m : Resolved) (done : List Req) (q : Placed) (n : ℕ)
      → q.off ≡ align8 m.off
      → IsStored q
      → (n ≡ 0 → (m.demoted ≡ 0) × (q.narrow ≡ q.req.narrow))
      → IsResolved m done
      → IsResolved
          (record { placed = m.placed ++ (q ∷ []); bad = m.bad; demoted = n; off = q.off + room q })
          (done ++ (q.req ∷ []))
  put-IsResolved m done q n at s mono h = record {
    laid =
        subst (λ ws. IsLaid 0 ws (q.off + room q)) (sym (map-append region m.placed (q ∷ [])))
          (IsLaid-append (map region m.placed) 0 m.off (region q) h.laid (omega (arith, at))
            (omega (arith, at)));
    stored = All-append IsStored m.placed (q ∷ []) h.stored (s, tt);
    kept = λ e.
        All-append (λ x. x.narrow ≡ x.req.narrow) m.placed (q ∷ []) (h.kept (mono e).0)
          ((mono e).1, tt);
    all = λ e.
        map-append (λ (x : Placed). x.req) m.placed (q ∷ [])
        ∙ ap (λ t. t ++ (q.req ∷ [])) (h.all e);
  }

  place-IsResolved :
      (m : Resolved) (done : List Req) (q : Req) (t : Tensor)
      → find q.weight ≡ some t
      → IsResolved m done
      → IsResolved (place find q t m) (done ++ (q ∷ []))
  unfolding place
  place-IsResolved m done q t e h =
      let n = if q.narrow && not (is_bf16 t.dtype) then m.demoted + 1 else m.demoted in
      let narrow = q.narrow && is_bf16 t.dtype in
      elim (Bool-cases (numel t == q.want)) [
        | inr other ↦ rw (other, place) (refuse-IsResolved m done q m.demoted (λ p. p) h)
        | inl same ↦ elim (Bool-cases (ltb (numel t) q.take)) [
          | inl long ↦ rw (same, long, place) (refuse-IsResolved m done q m.demoted (λ p. p) h)
          | inr fits ↦ elim (Bool-cases (narrow && not (q.take == numel t))) [
            | inl partial ↦
                rw (same, fits, partial, place)
                  (refuse-IsResolved m done q n (λ p. ground (arith, p)) h)
            | inr whole ↦
                rw (same, fits, whole, place)
                  (put-IsResolved m done
                    (record { req = q; tensor = t; narrow = narrow; off = align8 m.off }) n refl
                    (record {
                      found = e;
                      elements = ground (arith, same);
                      prefix = ground (arith, fits);
                      raw = λ p. (ground (arith, p), ground (arith, p, whole));
                    })
                    (λ p. (ground (arith, p), ground (arith, p))) h)
          ]
        ]
      ]

  resolve_from-IsResolved :
      (qs : List Req) (m : Resolved) (done : List Req)
      → IsResolved m done
      → IsResolved (resolve_from find m qs) (done ++ qs)
  unfolding resolve_from
  resolve_from-IsResolved [] m done h = subst (IsResolved m) (sym (append-nil done)) h
  resolve_from-IsResolved (q ∷ qs) m done h =
      subst (λ d. IsResolved (resolve_from find m (q ∷ qs)) d) (append_assoc done (q ∷ []) qs)
        (elim (Option-cases (find q.weight)) [
          | inl e ↦
              rw (e, resolve_from)
                (resolve_from-IsResolved qs (refuse m) (done ++ (q ∷ []))
                  (refuse-IsResolved m done q m.demoted (λ p. p) h))
          | inr (t, e) ↦
              rw (e, resolve_from)
                (resolve_from-IsResolved qs (place find q t m) (done ++ (q ∷ []))
                  (place-IsResolved m done q t e h))
        ])

  pub resolve-IsResolved :
      (qs : List Req) (m : Resolved)
      → resolve find (record { requests = qs; bad = 0 }) ≡ some m
      → IsResolved m qs × (m.bad ≡ 0)
  unfolding resolve
  resolve-IsResolved qs m h =
      let first : Resolved = record { placed = []; bad = 0; demoted = 0; off = 0 } in
      let all =
        resolve_from-IsResolved qs first []
          (record { laid = omega arith; stored = tt; kept = λ e. tt; all = λ e. refl }) in
      elim (picked_if ((resolve_from find first qs).bad == 0) _ _ _ h) [
        | inl (good, q) ↦
            let same : resolve_from find first qs ≡ m = cc (q) in
            subst (λ x. IsResolved x qs × (x.bad ≡ 0)) same (all, ground (arith, good))
        | inr (bad, q) ↦ absurd cc
      ]
