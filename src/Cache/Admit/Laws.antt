-- ===== src/Cache/Admit/Laws.antt =====
-- What `admit` of src/cache/k3_cache.c promises.
use kimi_k3_for_me.Prelude.{
  ℕ, ◌+◌, ◌*◌, ◌≤◌, ◌<◌, ◌≡◌, inl, inr, true, false, Option, none, some, arith, ltb, bump, subst,
  Bool-cases, Option-cases, sym, ap, dec_lt,
}
use native.Mathlib.Nat.{mul-le-mul_right}
use kimi_k3_for_me.Prelude.Arrays.{update_self}
use kimi_k3_for_me.Prelude.Int.{ℤ, pos, negsuc, eq_pos}
use kimi_k3_for_me.Load.Geometry.{ExpertRef}
use kimi_k3_for_me.Cache.State.{Cache, tables, Loaded, key}
use kimi_k3_for_me.Cache.Victim.{pick_victim}
use kimi_k3_for_me.Cache.Admit.{touch, evict, vacate, store, publish, finish, fetch, admit}
use kimi_k3_for_me.Cache.Admit.Table.{
  IsValid, IsDetached, vacate-IsValid, store-IsDetached, publish-IsValid, slot_of-evict,
  victim-IsDetached,
}

pub eq_pos→eq : (i : ℤ) (n : ℕ) → eq_pos i n ≡ true → i ≡ pos n
eq_pos→eq (pos m) n h = ground arith
eq_pos→eq (negsuc m) n h = cc

row-le : (n l l' : ℕ) → l < l' → l * n + n ≤ l' * n
row-le n l l' h = omega (arith, mul-le-mul_right n h)

-- An expert is determined by its key.
pub key-injective :
    (n l l' e e' : ℕ) → e < n → e' < n → l * n + e ≡ l' * n + e' → (l ≡ l') × (e ≡ e')
key-injective n l l' e e' he he' h = elim (dec_lt l l') [
  | yes lt ↦ absurd (omega (arith, row-le n l l' lt))
  | no ge ↦ elim (dec_lt l' l) [
    | yes gt ↦ absurd (omega (arith, row-le n l' l gt))
    | no le ↦ let same : l ≡ l' = omega arith in (same, omega (arith, ap (λ (t : ℕ). t * n) same))
  ]
]

-- What the documentation of `k3_expert_load_direct` says: where it returns the size of the expert,
-- the buffer holds the expert from the reported offset on.
abbrev pub IsSound : {B : Type 0} → (ExpertRef → ℕ → B → Type 0) → (ExpertRef → Loaded B) → Type 0
IsSound Complete load =
    (r : ExpertRef) → (load r).got ≡ pos r.nbytes → Complete r (load r).pad (load r).bytes

module _ {B : Type 0} (find : ℕ → ℕ → Option ExpertRef)
    (Complete : ExpertRef → ℕ → B → Type 0) where
  pub found_unique :
      (n l e : ℕ) (r : ExpertRef)
      → e < n
      → find l e ≡ some r
      → (l' e' : ℕ) → e' < n
      → l' * n + e' ≡ l * n + e
      → find l' e' ≡ some r
  found_unique n l e r he h l' e' he' q =
      let (pl, pe) = key-injective n l' l e' e he' he q in rw (pl, pe) h

  finish-IsValid :
      (c : Cache B) (s k : ℕ) (r : ExpertRef) (l : Loaded B)
      → IsDetached find Complete (tables c) s
      → c.slot_of k ≡ none
      → ((y e : ℕ) → e < c.n_experts → y * c.n_experts + e ≡ k → find y e ≡ some r)
      → (l.got ≡ pos r.nbytes → Complete r l.pad l.bytes)
      → IsValid find Complete (tables (finish c s k r l).0)
  unfolding finish
  finish-IsValid c s k r l d new found sound = elim (Bool-cases (eq_pos l.got r.nbytes)) [
    | inl all ↦
        rw (all, finish)
          (publish-IsValid find Complete (store c s l) s k r l
            (store-IsDetached find Complete c s l d) new found
            (subst (Complete r l.pad) (sym (update_self c.arena s l.bytes))
              (sound (eq_pos→eq l.got r.nbytes all))))
    | inr short ↦
        rw (short, finish)
          (vacate-IsValid find Complete (store c s l) s (store-IsDetached find Complete c s l d))
  ]

  module _ (load : ExpertRef → Loaded B) (sound : IsSound Complete load) where
    fetch-IsValid :
        (c : Cache B) (l e : ℕ)
        → e < c.n_experts
        → c.slot_of (key c l e) ≡ none
        → IsValid find Complete (tables c)
        → IsValid find Complete (tables (fetch find load c l e).0)
    unfolding fetch evict
    fetch-IsValid c l e he new v = elim (Option-cases (find l e)) [
      | inl q ↦ rw (q, fetch) v
      | inr (r, q) ↦ elim (Bool-cases (ltb c.slot_bytes r.nbytes)) [
        | inl big ↦ rw (q, big, fetch) v
        | inr fits ↦ elim (Option-cases (pick_victim c false)) [
          | inl full ↦ rw (q, fits, full, fetch) v
          | inr (s, pick) ↦
              rw (q, fits, pick, fetch)
                (finish-IsValid (evict c s) s (key c l e) r (load r)
                  (victim-IsDetached find Complete c false s pick v)
                  (slot_of-evict c s (key c l e) new) (found_unique c.n_experts l e r he q)
                  (sound r))
        ]
      ]
    ]

    -- `admit` keeps the tables in agreement and the bytes of every registered slot those of its
    -- expert, on each of its branches, for an expert in range and reads that keep their contract.
    pub admit-IsValid :
        (c : Cache B) (l e : ℕ)
        → e < c.n_experts
        → IsValid find Complete (tables c)
        → IsValid find Complete (tables (admit find load c l e).0)
    unfolding admit
    admit-IsValid c l e he v = elim (Option-cases (c.slot_of (key c l e))) [
      | inl miss ↦
          rw (miss, admit) (fetch-IsValid (record c { misses = bump c.misses }) l e he miss v)
      | inr (s, hit) ↦ rw (hit, admit) v
    ]

-- `admit` does not change the sizes.
pub admit-sizes :
    {B : Type 0} (find : ℕ → ℕ → Option ExpertRef) (load : ExpertRef → Loaded B) (c : Cache B)
    (l e : ℕ)
    → let d = (admit find load c l e).0 in
      (d.n_layers ≡ c.n_layers)
      × (d.n_experts ≡ c.n_experts)
      × (d.nslot ≡ c.nslot)
      × (d.topk ≡ c.topk)
unfolding admit fetch finish publish store vacate evict touch
admit-sizes find load c l e = ground arith

module _ {B : Type 0} (find : ℕ → ℕ → Option ExpertRef) (load : ExpertRef → Loaded B) where
  slot_of-fetch :
      (c : Cache B) (l e : ℕ)
      → c.slot_of (key c l e) ≡ none
      → (fetch find load c l e).0.slot_of (key c l e) ≡ (fetch find load c l e).1
  unfolding fetch finish publish store vacate
  slot_of-fetch c l e new = elim (Option-cases (find l e)) [
    | inl q ↦ rw (q, fetch) new
    | inr (r, q) ↦ elim (Bool-cases (ltb c.slot_bytes r.nbytes)) [
      | inl big ↦ rw (q, big, fetch) new
      | inr fits ↦ elim (Option-cases (pick_victim c false)) [
        | inl full ↦ rw (q, fits, full, fetch) new
        | inr (s, pick) ↦
            rw (q, fits, pick, fetch) (ground (arith, slot_of-evict c s (key c l e) new))
      ]
    ]
  ]

  -- The slot that `admit` returns is the one that the table has for the expert afterwards, and
  -- where it returns none the table has none: a failed read registers nothing.
  pub slot_of-admit :
      (c : Cache B) (l e : ℕ)
      → (admit find load c l e).0.slot_of (key c l e) ≡ (admit find load c l e).1
  unfolding admit touch
  slot_of-admit c l e = elim (Option-cases (c.slot_of (key c l e))) [
    | inl miss ↦ rw (miss, admit) (slot_of-fetch (record c { misses = bump c.misses }) l e miss)
    | inr (s, hit) ↦ rw (hit, admit) hit
  ]
