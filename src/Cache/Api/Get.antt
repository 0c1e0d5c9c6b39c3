-- ===== src/Cache/Api/Get.antt =====
-- What `cache_get` and `cache_resident` of src/cache/k3_cache.c hand out.
use kimi_k3_for_me.Prelude.{
  ℕ, ◌<◌, ◌≡◌, inl, inr, refl, Bool, Option, none, some, arith, subst, Option-cases, ◌∙◌,
}
use kimi_k3_for_me.Prelude.Int.{ℤ, pos, negsuc}
use kimi_k3_for_me.Load.Geometry.{ExpertRef}
use kimi_k3_for_me.Cache.State.{Cache, tables, Loaded, key}
use kimi_k3_for_me.Cache.Admit.{ExpertQ, fill_q, admit, touch}
use kimi_k3_for_me.Cache.Admit.Table.{IsValid}
use kimi_k3_for_me.Cache.Admit.Laws.{IsSound, admit-IsValid, slot_of-admit, admit-sizes}
use kimi_k3_for_me.Cache.Api.{checked, note, consume, resident, serve, get}

module _ {B : Type 0} (find : ℕ → ℕ → Option ExpertRef)
    (Complete : ExpertRef → ℕ → B → Type 0) where
  -- `q` points into a slot of the cache that holds all of expert `e` of layer `l`.
  pub record Hands (c : Cache B) (l e : ℕ) (q : ExpertQ) : Type 0 where
    pub slot : ℕ
    pub inside : slot < c.nslot
    pub registered : c.slot_of (key c l e) ≡ some slot
    pub expert : find l e ≡ some (c.ref slot)
    pub payload : Complete (c.ref slot) (c.pad slot) (c.arena slot)
    pub pointers : q ≡ fill_q c slot

  checked-some :
      (c : Cache B) (layer expert : ℤ) (l e : ℕ)
      → checked c layer expert ≡ some (l, e)
      → (layer ≡ pos l) × (expert ≡ pos e) × (l < c.n_layers) × (e < c.n_experts)
  unfolding checked
  checked-some c (pos x) (pos y) l e h = ground arith
  checked-some c (pos x) (negsuc y) l e h = absurd (ground arith)
  checked-some c (negsuc x) y l e h = absurd (ground arith)

  module _ (load : ExpertRef → Loaded B) (sound : IsSound Complete load) where
    serve-IsValid :
        (p : Cache B × Option ℕ)
        → IsValid find Complete (tables p.0)
        → IsValid find Complete (tables (serve find load p).0)
    unfolding serve consume
    serve-IsValid (c, none) v = v
    serve-IsValid (c, some s) v = v

    serve-Hands :
        (p : Cache B × Option ℕ) (l e : ℕ) (q : ExpertQ)
        → IsValid find Complete (tables p.0)
        → e < p.0.n_experts
        → p.0.slot_of (key p.0 l e) ≡ p.1
        → (serve find load p).1 ≡ some q
        → Hands (serve find load p).0 l e q
    unfolding serve consume fill_q
    serve-Hands (c, none) l e q v he h out = absurd (ground arith)
    serve-Hands (c, some s) l e q v he h out =
        let (lt, holder) = v.forward (key c l e) s h in
        let w = v.served (key c l e) s holder in
        record {
          slot = s;
          inside = lt;
          registered = h;
          expert = w.found l e he refl;
          payload = w.payload;
          pointers = cc out;
        }

    -- `cache_get` keeps the tables in agreement and the registered bytes right, on every branch.
    pub get-IsValid :
        (c : Cache B) (layer expert : ℤ) (grown : Bool)
        → IsValid find Complete (tables c)
        → IsValid find Complete (tables (get find load c layer expert grown).0)
    unfolding get note
    get-IsValid c layer expert grown v = elim (Option-cases (checked c layer expert)) [
      | inl out ↦ rw (out, get) v
      | inr ((l, e), within) ↦
          let noted = note c l e grown in
          rw (within, get)
            (serve-IsValid (admit find load noted l e) (
              admit-IsValid find Complete load sound noted l e
                (checked-some c layer expert l e within).3 v))
    ]

    -- The layer and the expert of a success, and the slot whose pointers `fill_q` gives.
    pub get-Hands :
        (c : Cache B) (layer expert : ℤ) (grown : Bool) (q : ExpertQ)
        → IsValid find Complete (tables c)
        → (get find load c layer expert grown).1 ≡ some q
        → (l : ℕ) × (e : ℕ) × (layer ≡ pos l)
          × (expert ≡ pos e)
          × (l < c.n_layers)
          × (e < c.n_experts)
          × Hands (get find load c layer expert grown).0 l e q
    unfolding get note
    get-Hands c layer expert grown q v out = elim (Option-cases (checked c layer expert)) [
      | inl bad ↦ absurd (ground (arith, out, bad))
      | inr ((l, e), within) ↦
          let noted = note c l e grown in
          let (el, ee, lt, he) = checked-some c layer expert l e within in
          let p = admit find load noted l e in
          (
            l,
            e,
            el,
            ee,
            lt,
            he,
            rw (within, get)
                (serve-Hands p l e q (admit-IsValid find Complete load sound noted l e he v)
                  (rw ((admit-sizes find load noted l e).1) he)
                  (rw ((admit-sizes find load noted l e).1) (slot_of-admit find load noted l e))
                  (rw (within, get) at out)),
          )
    ]

    checked-sizes :
        (c d : Cache B) (layer expert : ℤ)
        → d.n_layers ≡ c.n_layers
        → d.n_experts ≡ c.n_experts
        → checked d layer expert ≡ checked c layer expert
    unfolding checked
    checked-sizes c d (pos l) (pos e) p q = rw (p, q)
    checked-sizes c d (pos l) (negsuc e) p q = refl
    checked-sizes c d (negsuc l) e p q = refl

    serve-slot :
        (p : Cache B × Option ℕ) (q : ExpertQ)
        → (serve find load p).1 ≡ some q
        → (s : ℕ) × (p.1 ≡ some s)
          × (fill_q (serve find load p).0 s ≡ q)
          × ((serve find load p).0 ≡ consume p.0 s)
    unfolding serve consume fill_q
    serve-slot (c, none) q out = absurd (ground arith)
    serve-slot (c, some s) q out = (s, refl, cc out, refl)

    -- A request for a resident is a hit.
    resident_hit :
        (c : Cache B) (layer expert : ℤ) (grown : Bool) (l e s : ℕ) (load' : ExpertRef → Loaded B)
        → checked c layer expert ≡ some (l, e)
        → c.slot_of (key c l e) ≡ some s
        → let again = get find load' c layer expert grown in
          (resident c layer expert ≡ some (fill_q c s))
          × (again.1 ≡ some (fill_q c s))
          × (again.0.arena ≡ c.arena)
          × (again.0.bytes_read ≡ c.bytes_read)
          × (again.0.misses ≡ c.misses)
          × (again.0.evictions ≡ c.evictions)
    unfolding get resident serve consume note admit touch fill_q
    resident_hit c layer expert grown l e s load' within h =
        rw (within, resident, get, h, admit) (refl, refl, refl, refl, refl, refl)

    get-slot :
        (c : Cache B) (layer expert : ℤ) (grown : Bool) (q : ExpertQ)
        → (get find load c layer expert grown).1 ≡ some q
        → let d = (get find load c layer expert grown).0 in
          (l : ℕ) × (e : ℕ) × (s : ℕ) × (checked d layer expert ≡ some (l, e))
          × (d.slot_of (key d l e) ≡ some s)
          × (fill_q d s ≡ q)
    unfolding get note consume
    get-slot c layer expert grown q out = elim (Option-cases (checked c layer expert)) [
      | inl bad ↦ absurd (ground (arith, out, bad))
      | inr ((l, e), within) ↦
          let noted = note c l e grown in
          let p = admit find load noted l e in
          let (s, hit, same, d) = serve-slot p q (rw (within, get) at out) in
          let (el, ee, _, _) = admit-sizes find load noted l e in
          let whole : (get find load c layer expert grown).0 ≡ consume p.0 s = rw (within, get) d in
          (
            l,
            e,
            s,
            rw whole (checked-sizes c (consume p.0 s) layer expert el ee ∙ within),
            rw (whole, ee) (slot_of-admit find load noted l e ∙ hit),
            rw (within, get) same,
          )
    ]

    -- An expert that `cache_get` handed out is resident: `cache_resident` hands out the same
    -- pointers, and the next `cache_get` of it does too, without a read, a miss or an eviction.
    pub get-get :
        (c : Cache B) (layer expert : ℤ) (grown grown' : Bool) (q : ExpertQ)
        (load' : ExpertRef → Loaded B)
        → (get find load c layer expert grown).1 ≡ some q
        → let d = (get find load c layer expert grown).0 in
          let again = get find load' d layer expert grown' in
          (resident d layer expert ≡ some q)
          × (again.1 ≡ some q)
          × (again.0.arena ≡ d.arena)
          × (again.0.bytes_read ≡ d.bytes_read)
          × (again.0.misses ≡ d.misses)
          × (again.0.evictions ≡ d.evictions)
    get-get c layer expert grown grown' q load' out =
        let d = (get find load c layer expert grown).0 in
        let (l, e, s, within, h, same) = get-slot c layer expert grown q out in
        subst
          (λ r.
            (resident d layer expert ≡ some r)
            × ((get find load' d layer expert grown').1 ≡ some r)
            × ((get find load' d layer expert grown').0.arena ≡ d.arena)
            × ((get find load' d layer expert grown').0.bytes_read ≡ d.bytes_read)
            × ((get find load' d layer expert grown').0.misses ≡ d.misses)
            × ((get find load' d layer expert grown').0.evictions ≡ d.evictions))
          same (resident_hit d layer expert grown' l e s load' within h)
