-- ===== src/Cache/Batch/Laws.antt =====
-- What `cache_getmany` of src/cache/k3_cache.c promises, without pipelining.
use kimi_k3_for_me.Prelude.{
  ℕ, ◌<◌, ◌≡◌, ◌≢◌, inl, inr, true, false, List, [], All, All-map, Option, none, some, ltb, take,
  subst, Bool-cases, ap, ◌∙◌,
}
use kimi_k3_for_me.Prelude.Int.{ℤ, pos, negsuc}
use kimi_k3_for_me.Load.Geometry.{ExpertRef}
use kimi_k3_for_me.Cache.State.{Cache, tables, Loaded, inflight, key}
use kimi_k3_for_me.Cache.Admit.Table.{IsValid}
use kimi_k3_for_me.Cache.Admit.Laws.{IsSound}
use kimi_k3_for_me.Cache.Batch.{Work, mark, reserve_all, sort, read_all, getmany_in, getmany}
use kimi_k3_for_me.Cache.Batch.Marks.{Has, marked-Has, marked-marked}
use kimi_k3_for_me.Cache.Batch.Reserve.{
  IsDistinct, IsReserved, IsBatch, reserve_all-IsBatch, reserve_all-same,
}
use kimi_k3_for_me.Cache.Admit.Frame.{IsKept, IsKept-trans}
use kimi_k3_for_me.Cache.Batch.Protect.{reserve_all-IsKept, read_all-IsKept, publish_all-IsKept}
use kimi_k3_for_me.Cache.Batch.Sort.{sort-All, sort-All_inv, sort-IsDistinct}
use kimi_k3_for_me.Cache.Batch.Publish.{
  write_all_self, read_all-IsValid, IsPending, publish_all-IsValid, IsRegistered,
  publish_all-IsRegistered, publish_all-requested,
}

-- No slot is reserved for a read.
abbrev pub IsSettled : {B : Type 0} → Cache B → Type 0
IsSettled c = (s : ℕ) → c.key_of s ≢ inflight

module _ {B : Type 0} (find : ℕ → ℕ → Option ExpertRef) (load : ExpertRef → Loaded B)
    (Complete : ExpertRef → ℕ → B → Type 0) (sound : IsSound Complete load) (layer : ℕ) where
  start :
      (c : Cache B) (ids : List ℤ)
      → IsValid find Complete (tables c)
      → IsSettled c
      → IsBatch find layer Complete (mark true layer c ids) []
  unfolding mark
  start c ids v s = record { valid = v; reserved = tt; distinct = tt; only = λ t h a. s t h }

  -- The state after phase 2.
  read : Cache B → List ℤ → Cache B
  read c ids =
      let (d, ws) = reserve_all find layer (mark true layer c ids) [] ids in
      read_all load (mark false layer d ids) (sort ws)

  claims : Cache B → List ℤ → List Work
  claims c ids = (reserve_all find layer (mark true layer c ids) [] ids).1

  IsPending-read :
      (c : Cache B) (ids : List ℤ)
      → IsValid find Complete (tables c)
      → IsSettled c
      → IsPending load find layer Complete sound (tables (read c ids)) (sort (claims c ids))
  unfolding read claims read_all mark
  IsPending-read c ids v s =
      let b =
        reserve_all-IsBatch find layer Complete ids (mark true layer c ids) [] (start c ids v s) in
      let ws = (reserve_all find layer (mark true layer c ids) [] ids).1 in
      let d = (reserve_all find layer (mark true layer c ids) [] ids).0 in
      let r = sort-All (IsReserved find layer (tables d)) ws b.reserved in
      record {
        valid = read_all-IsValid load find layer Complete sound d (sort ws) b.valid r;
        reserved =
            All-map (IsReserved find layer (tables d)) _
              (λ w q. record {
                waiting = q.waiting;
                inside = q.inside;
                new = q.new;
                range = q.range;
                found = q.found;
              })
              (sort ws) r;
        distinct = sort-IsDistinct ws b.distinct;
        bytes = write_all_self load (sort ws) d.arena (sort-IsDistinct ws b.distinct);
        only = λ t h a. b.only t h (sort-All_inv (λ w. w.slot ≢ t) ws a);
      }

  pub getmany_in-IsValid :
      (c : Cache B) (ids : List ℤ)
      → IsValid find Complete (tables c)
      → IsSettled c
      → IsValid find Complete (tables (getmany_in find load c layer ids).0)
        × IsSettled (getmany_in find load c layer ids).0
  unfolding getmany_in read claims
  getmany_in-IsValid c ids v s =
      publish_all-IsValid load find layer Complete sound (sort (claims c ids)) (read c ids)
        (IsPending-read c ids v s)

  -- The claims of a batch have slots of their own, and afterwards a claim's expert is registered in
  -- its slot if its read was complete, and is not registered if it was not.
  pub getmany_in-IsRegistered :
      (c : Cache B) (ids : List ℤ)
      → IsValid find Complete (tables c)
      → IsSettled c
      → let ws = (reserve_all find layer (mark true layer c ids) [] ids).1 in
        IsDistinct ws
        × All
            (IsRegistered load find layer Complete sound c.n_experts
              (getmany_in find load c layer ids).0)
            (sort ws)
  unfolding getmany_in read claims mark read_all
  getmany_in-IsRegistered c ids v s = (
    (reserve_all-IsBatch find layer Complete ids (mark true layer c ids) []
        (start c ids v s)).distinct,
    subst
        (λ n.
          All (IsRegistered load find layer Complete sound n (getmany_in find load c layer ids).0)
            (sort (claims c ids)))
        (reserve_all-same find layer ids (mark true layer c ids) []).0
        (publish_all-IsRegistered load find layer Complete sound (sort (claims c ids)) (read c ids)
          (IsPending-read c ids v s)),
  )

  -- A batch does not evict a resident that it asks for: the expert stays in its slot with its bytes.
  pub getmany_in-IsKept :
      (c : Cache B) (ids : List ℤ) (e t : ℕ)
      → IsValid find Complete (tables c)
      → IsSettled c
      → e < c.n_experts
      → Has e ids
      → c.slot_of (key c layer e) ≡ some t
      → IsKept (tables c) (tables (getmany_in find load c layer ids).0) (key c layer e) t
  unfolding getmany_in read claims mark
  getmany_in-IsKept c ids e t v s lt has h =
      let k = key c layer e in
      let m = mark true layer c ids in
      let b0 = start c ids v s in
      let b = reserve_all-IsBatch find layer Complete ids m [] b0 in
      let ws = (reserve_all find layer m [] ids).1 in
      let d = (reserve_all find layer m [] ids).0 in
      let first =
        reserve_all-IsKept find Complete layer ids m [] k t b0 h
          (marked-Has layer c.n_experts ids c.requested e lt has) in
      let second =
        read_all-IsKept find Complete layer load (mark false layer d ids) (sort ws) k t b.valid
          (sort-All (IsReserved find layer (tables d)) ws b.reserved) first.slot in
      IsKept-trans (tables c) (tables d) _ k t first (
        IsKept-trans (tables d) (tables (read c ids)) _ k t second (
          publish_all-IsKept find Complete layer load sound (sort ws) (read c ids) k t
            (IsPending-read c ids v s) second.slot))

-- A batch clears every mark that it sets.
pub getmany_in-requested :
    {B : Type 0} (find : ℕ → ℕ → Option ExpertRef) (load : ExpertRef → Loaded B) (layer : ℕ)
    (c : Cache B) (ids : List ℤ) (k : ℕ)
    → c.requested k ≡ false
    → (getmany_in find load c layer ids).0.requested k ≡ false
unfolding getmany_in read_all mark
getmany_in-requested find load layer c ids k h =
    let m = mark true layer c ids in
    let (en, er, _, _) = reserve_all-same find layer ids m [] in
    let d = mark false layer (reserve_all find layer m [] ids).0 ids in
    let ws = sort (reserve_all find layer m [] ids).1 in
    ap (λ f. f k) (publish_all-requested load layer ws (read_all load d ws))
    ∙ rw (en, er) (marked-marked layer c.n_experts ids c.requested k h)

-- `cache_getmany` keeps the tables in agreement and each registered slot's bytes those of its
-- expert, for any arguments, for reads that keep their contract and whichever of them fail, and it
-- leaves no slot reserved.
pub getmany-IsValid :
    {B : Type 0} (find : ℕ → ℕ → Option ExpertRef) (load : ExpertRef → Loaded B)
    (Complete : ExpertRef → ℕ → B → Type 0)
    → IsSound Complete load
    → (c : Cache B) (layer n : ℤ) (ids : Option (List ℤ)) → IsValid find Complete (tables c)
    → IsSettled c
    → IsValid find Complete (tables (getmany find load c layer n ids).0)
      × IsSettled (getmany find load c layer n ids).0
unfolding getmany
getmany-IsValid find load Complete sound c (pos layer) (pos n) none v s =
    elim (Bool-cases (ltb layer c.n_layers)) [
      | inl h ↦ rw (h, getmany) (v, s)
      | inr h ↦ rw (h, getmany) (v, s)
    ]
getmany-IsValid find load Complete sound c (pos layer) (pos n) (some l) v s =
    elim (Bool-cases (ltb layer c.n_layers)) [
      | inl h ↦ rw (h, getmany) (getmany_in-IsValid find load Complete sound layer c (take n l) v s)
      | inr h ↦ rw (h, getmany) (v, s)
    ]
getmany-IsValid find load Complete sound c (pos layer) (negsuc n) ids v s = (v, s)
getmany-IsValid find load Complete sound c (negsuc layer) n ids v s = (v, s)
