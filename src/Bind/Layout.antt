-- ===== src/Bind/Layout.antt =====
-- The layout of a blob, `plan_resolve` and its callers in src/model/k3_bind.c: complete, aligned,
-- without overlaps, and stored as its tag says.
use kimi_k3_for_me.Prelude.{
  ◌≤◌, ◌≡◌, inl, inr, refl, sym, ap, ◌∙◌, Bool, true, false, List, [], ◌∷◌, map, Option, some, ◌==◌,
  if◌then◌else◌, length, arith, Option-cases, subst, All,
}
use kimi_k3_for_me.Header.Rest.{chain, picked_if}
use kimi_k3_for_me.Index.Tensor.{Tensor}
use kimi_k3_for_me.Bind.Requests.{Weight, Req, Sizes, plan_of, layer_requests}
use kimi_k3_for_me.Bind.{
  Placed, Resolved, refuse, place, resolve_from, resolve, layout, layer_layout,
}
use kimi_k3_for_me.Bind.Resolve.{IsLaid, region, IsStored, resolve-IsResolved}
use kimi_k3_for_me.Bind.Wide.{
  plan_of-requests, AllWide, length-layer_requests, layer_requests-AllWide,
}

module _ (find : Weight → Option Tensor) where
  -- A layout for the requests `qs`: all of them, each with its tensor and as it was asked for, at
  -- aligned ranges one behind the other.
  pub record IsLayout (m : Resolved) (qs : List Req) : Type 0 where
    pub complete : map (λ (q : Placed). q.req) m.placed ≡ qs
    pub stored : All (IsStored find) m.placed
    pub tagged : All (λ q. q.narrow ≡ q.req.narrow) m.placed
    pub laid : IsLaid 0 (map region m.placed) m.off

  place-demoted :
      (q : Req) (t : Tensor) (m : Resolved)
      → q.narrow ≡ false
      → (place find q t m).demoted ≡ m.demoted
  unfolding place
  place-demoted q t m wide = ground arith

  resolve_from-demoted :
      (qs : List Req) (m : Resolved) → AllWide qs → (resolve_from find m qs).demoted ≡ m.demoted
  unfolding resolve_from
  resolve_from-demoted [] m h = refl
  resolve_from-demoted (q ∷ qs) m (wide, h) = elim (Option-cases (find q.weight)) [
    | inl e ↦ rw (e, resolve_from) (resolve_from-demoted qs (refuse m) h)
    | inr (t, e) ↦
        rw (e, resolve_from)
          (resolve_from-demoted qs (place find q t m) h ∙ place-demoted q t m wide)
  ]

  resolve-demoted :
      (qs : List Req) (m : Resolved)
      → AllWide qs
      → resolve find (record { requests = qs; bad = 0 }) ≡ some m
      → m.demoted ≡ 0
  unfolding resolve
  resolve-demoted qs m all h =
      let first : Resolved = record { placed = []; bad = 0; demoted = 0; off = 0 } in
      elim (picked_if ((resolve_from find first qs).bad == 0) _ _ _ h) [
        | inl (good, q) ↦
            let same : resolve_from find first qs ≡ m = cc (q) in
            ap (λ (x : Resolved). x.demoted) (sym same) ∙ resolve_from-demoted qs first all
        | inr (bad, q) ↦ absurd cc
      ]

  resolve-IsLayout :
      (qs : List Req) (m : Resolved)
      → m.demoted ≡ 0
      → resolve find (record { requests = qs; bad = 0 }) ≡ some m
      → IsLayout m qs
  resolve-IsLayout qs m calm h =
      let (r, good) = resolve-IsResolved find qs m h in
      record { complete = r.all good; stored = r.stored; tagged = r.kept calm; laid = r.laid }

  layout-IsLayout :
      (narrow wide : List Req) (m : Resolved) (ok : Bool)
      → length narrow ≤ 64
      → length wide ≤ 64
      → AllWide wide
      → layout find narrow wide ≡ some (m, ok)
      → IsLayout m (if ok then narrow else wide)
  unfolding layout plan_of
  layout-IsLayout narrow wide m ok hn hw all h =
      let pn = plan_of-requests narrow [] (omega arith) in
      let pw = plan_of-requests wide [] (omega arith) in
      let (a, e, q) = chain (resolve find (plan_of narrow)) _ (m, ok) h in
      let first = subst (λ p. resolve find p ≡ some a) pn e in
      elim (picked_if (a.demoted == 0) _ _ _ q) [
        | inl (calm, r) ↦
            let same : a ≡ m = cc (r) in
            let flag : true ≡ ok = cc (r) in
            rw (sym flag, sym same) (resolve-IsLayout narrow a (ground (arith, calm)) first)
        | inr (some_wide, r) ↦
            let (b, e', r') = chain (resolve find (plan_of wide)) _ (m, ok) r in
            let second = subst (λ p. resolve find p ≡ some b) pw e' in
            let same : b ≡ m = cc (r') in
            let flag : false ≡ ok = cc (r') in
            rw (sym flag, sym same)
              (resolve-IsLayout wide b (resolve-demoted wide b all second) second)
      ]

  -- What `k3_bind_layer` lays out is everything that the plan asks for, each
  -- with a tensor of the expected number of elements, in ranges of the blob that are aligned, apart
  -- and inside. Matrices are stored as the tag of the layer says: all of them as BF16, or none.
  pub layer_layout-IsLayout :
      (c : Sizes) (is_mla is_dense : Bool) (m : Resolved) (ok : Bool)
      → layer_layout find c is_mla is_dense ≡ some (m, ok)
      → IsLayout m (layer_requests c ok is_mla is_dense)
  unfolding layer_layout
  layer_layout-IsLayout c is_mla is_dense m true h =
      layout-IsLayout (layer_requests c true is_mla is_dense)
        (layer_requests c false is_mla is_dense) m true
        (length-layer_requests c true is_mla is_dense)
        (length-layer_requests c false is_mla is_dense) (layer_requests-AllWide c is_mla is_dense) h
  layer_layout-IsLayout c is_mla is_dense m false h =
      layout-IsLayout (layer_requests c true is_mla is_dense)
        (layer_requests c false is_mla is_dense) m false
        (length-layer_requests c true is_mla is_dense)
        (length-layer_requests c false is_mla is_dense) (layer_requests-AllWide c is_mla is_dense) h
