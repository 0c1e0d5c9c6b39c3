-- ===== src/Engine/Weights.antt =====
-- What `cache_get` (src/cache/k3_cache.c) hands out, in terms of the checkpoint.
use kimi_k3_for_me.Prelude.{ℕ, ◌+◌, ◌*◌, ◌<◌, ◌≡◌, Bool, Option, some, arith, subst, sym, ap, ◌∙◌}
use kimi_k3_for_me.Prelude.Int.{ℤ, pos}
use kimi_k3_for_me.Index.Tensor.{Tensor}
use kimi_k3_for_me.Read.{Store, Media}
use kimi_k3_for_me.Read.Promise.{IsMedia}
use kimi_k3_for_me.Load.Geometry.{ExpertRef}
use kimi_k3_for_me.Load.Reference.{Pair, arrange, arranged}
use kimi_k3_for_me.Load.Reference.Laws.{IsReference, IsMatrix, expert_ref-IsReference}
use kimi_k3_for_me.Load.Bytes.{load_direct}
use kimi_k3_for_me.Load.Bytes.Laws.{Has, Complete}
use kimi_k3_for_me.Load.Bytes.Sound.{load_direct-IsSound}
use kimi_k3_for_me.Cache.State.{Cache, tables}
use kimi_k3_for_me.Cache.Admit.{ExpertQ, fill_q}
use kimi_k3_for_me.Cache.Admit.Table.{IsValid}
use kimi_k3_for_me.Cache.Api.{get}
use kimi_k3_for_me.Cache.Api.Get.{Hands, get-Hands}
use kimi_k3_for_me.Engine.{find_expert}

module _ (content : ℕ → ℕ → ℕ) where
  -- An offset into the arena is one of a slot where the bytes of a tensor begin.
  abbrev pub Points : Cache (ℕ → ℕ) → ℕ → ℕ → Tensor → Type 0
  Points c slot p t = (o : ℕ) × (p ≡ slot * c.slot_bytes + o) × Has content (c.arena slot) o t

  -- The pointers of `q` are those of the weights and the scales of the three matrices of expert `e`
  -- of layer `l`, as the index has them.
  pub record Weights (look : ℕ → ℕ → ℕ → Bool → Option Tensor) (c : Cache (ℕ → ℕ)) (l e : ℕ)
      (q : ExpertQ) : Type 0 where
    pub w1 : Pair
    pub w2 : Pair
    pub w3 : Pair
    pub found : IsMatrix (look l e) 0 w1 × IsMatrix (look l e) 1 w2 × IsMatrix (look l e) 2 w3
    pub slot : ℕ
    pub inside : slot < c.nslot
    pub first : Points c slot q.p1 w1.pk × Points c slot q.s1 w1.sc
    pub second : Points c slot q.p2 w2.pk × Points c slot q.s2 w2.sc
    pub third : Points c slot q.p3 w3.pk × Points c slot q.s3 w3.sc

  layer_of :
      (look : ℕ → Bool → Option Tensor) (l e : ℕ) (r : ExpertRef) (a b c : Pair)
      → IsReference look l e r a b c
      → (r.layer ≡ l) × (r.expert ≡ e)
  unfolding arrange arranged
  layer_of look l e r a b c ref = (ap (λ x. x.layer) ref.is, ap (λ x. x.expert) ref.is)

  Hands-Weights :
      (look : ℕ → ℕ → ℕ → Bool → Option Tensor) (c : Cache (ℕ → ℕ)) (l e : ℕ) (q : ExpertQ)
      → Hands (find_expert look) (Complete content look) c l e q
      → Weights look c l e q
  unfolding find_expert fill_q
  Hands-Weights look c l e q h =
      let r = c.ref h.slot in
      let (w1, w2, w3, ref) = expert_ref-IsReference (look l e) l e r h.expert in
      let (el, ee) = layer_of (look l e) l e r w1 w2 w3 ref in
      let there =
        subst (λ x. IsReference (look x r.expert) x r.expert r w1 w2 w3) (sym el)
          (subst (λ x. IsReference (look l x) l x r w1 w2 w3) (sym ee) ref) in
      let (x, y, z) = h.payload w1 w2 w3 there in
      record {
        w1 = w1;
        w2 = w2;
        w3 = w3;
        found = ref.found;
        slot = h.slot;
        inside = h.inside;
        first = (
          (c.pad h.slot + r.m0.p_off, ap (λ v. v.p1) h.pointers ∙ omega arith, x.0),
          (c.pad h.slot + r.m0.s_off, ap (λ v. v.s1) h.pointers ∙ omega arith, x.1),
        );
        second = (
          (c.pad h.slot + r.m1.p_off, ap (λ v. v.p2) h.pointers ∙ omega arith, y.0),
          (c.pad h.slot + r.m1.s_off, ap (λ v. v.s2) h.pointers ∙ omega arith, y.1),
        );
        third = (
          (c.pad h.slot + r.m2.p_off, ap (λ v. v.p3) h.pointers ∙ omega arith, z.0),
          (c.pad h.slot + r.m2.s_off, ap (λ v. v.s3) h.pointers ∙ omega arith, z.1),
        );
      }

-- The weights that the engine computes with: if `cache_get` succeeds on a valid cache over the
-- loader, whatever was evicted and however the reads went, then layer and expert are in range, and
-- each of the six pointers is where the bytes of its tensor of that expert begin in a slot.
pub get-Weights :
    (s : Store) (m : Media) (look : ℕ → ℕ → ℕ → Bool → Option Tensor) (buf : ℕ → ℕ)
    (c : Cache (ℕ → ℕ)) (layer expert : ℤ) (grown : Bool) (q : ExpertQ)
    → IsMedia m
    → IsValid (find_expert look) (Complete m.content look) (tables c)
    → let (d, out) =
        get (find_expert look) (load_direct s m look c.slot_bytes buf) c layer expert grown in
      out ≡ some q
      → (l : ℕ) × (e : ℕ) × (layer ≡ pos l)
        × (expert ≡ pos e)
        × (l < c.n_layers)
        × (e < c.n_experts)
        × Weights m.content look d l e q
get-Weights s m look buf c layer expert grown q ok v out =
    let load = load_direct s m look c.slot_bytes buf in
    let find = find_expert look in
    let (l, e, el, ee, lt, he, h) =
      get-Hands find (Complete m.content look) load
        (load_direct-IsSound s m ok look c.slot_bytes buf) c layer expert grown q v out in
    (
      l,
      e,
      el,
      ee,
      lt,
      he,
      Hands-Weights m.content look (get find load c layer expert grown).0 l e q h,
    )
