-- ===== src/Cache/Batch.antt =====
-- `cache_getmany` of src/cache/k3_cache.c without pipelining: reserve, order, read, publish.
pub mod Reserve
pub mod Sort
pub mod Publish
pub mod Marks
pub mod Protect
pub mod Laws
use mathlib.Core.List.{reverse}
use kimi_k3_for_me.Prelude.{
  ℕ, ◌+◌, ◌*◌, Bool, true, false, ◌&&◌, ◌||◌, List, [], ◌∷◌, ◌++◌, map, Option, none, some, ltb,
  leb, ◌==◌, if◌then◌else◌, length, take, bump,
}
use kimi_k3_for_me.Prelude.Arrays.{update}
use kimi_k3_for_me.Prelude.Int.{ℤ, pos, negsuc, eq_pos}
use kimi_k3_for_me.Load.Geometry.{ExpertRef}
use kimi_k3_for_me.Cache.State.{Cache, Loaded, key}
use kimi_k3_for_me.Cache.Victim.{pick_victim}
use kimi_k3_for_me.Cache.Admit.{evict, vacate, reserve, store, publish}

-- K3_MAX_TOPK, the size of the work array.
abbrev pub max_topk : ℕ
max_topk = 64

-- A `Work` entry before its read.
pub record Work : Type 0 where
  pub slot : ℕ
  pub expert : ℕ
  pub r : ExpertRef

-- What an iteration of the reservation loop does: `continue`, `break`, or reserve a slot.
pub data Choice : Type 0 where
  skip stop : Choice
  claim : Work → Choice

pub has_expert : ℕ → List Work → Bool
has_expert e [] = false
has_expert e (w ∷ ws) = w.expert == e || has_expert e ws

-- An entry of `ids` that names an expert of the layer.
abbrev pub in_experts : ℕ → ℤ → Option ℕ
in_experts n (pos e) = if ltb e n then some e else none
in_experts n (negsuc e) = none

mark_one : Bool → ℕ → ℕ → (ℕ → Bool) → ℤ → ℕ → Bool
mark_one flag layer n requested id = elim (in_experts n id) [
  | none ↦ requested
  | some e ↦ update requested (layer * n + e) flag
]

pub marked : Bool → ℕ → ℕ → (ℕ → Bool) → List ℤ → ℕ → Bool
unfolding mark_one
marked flag layer n requested [] = requested
marked flag layer n requested (id ∷ ids) =
    marked flag layer n (mark_one flag layer n requested id) ids

module _ {B : Type 0} where
  -- The two loops over `requested`, which set and clear the marks.
  unfoldable pub mark : Bool → ℕ → Cache B → List ℤ → Cache B
  unfolding marked
  mark flag layer c ids = record c { requested = marked flag layer c.n_experts c.requested ids }

  module _ (find : ℕ → ℕ → Option ExpertRef) (layer : ℕ) where
    -- The body of the reservation loop for expert `e`, up to the choice of a slot.
    choose_expert : Cache B → List Work → ℕ → Choice
    choose_expert c w e = elim (c.slot_of (key c layer e)) [
      | some _ ↦ skip
      | none ↦ if has_expert e w then skip else elim (find layer e) [
        | none ↦ skip
        | some r ↦ if ltb c.slot_bytes r.nbytes then skip else elim (pick_victim c true) [
          | none ↦ stop
          | some slot ↦ claim (record { slot = slot; expert = e; r = r })
        ]
      ]
    ]

    pub choose : Cache B → List Work → ℤ → Choice
    unfolding has_expert choose_expert
    choose c w id =
        if leb max_topk (length w)
        then stop
        else elim (in_experts c.n_experts id) [ none ↦ skip | some e ↦ choose_expert c w e ]

    -- Phase 1. The slot of a claim is taken from its key and reserved for the read.
    unfoldable pub reserve_all : Cache B → List Work → List ℤ → Cache B × List Work
    unfolding choose evict reserve
    reserve_all c w [] = (c, w)
    reserve_all c w (id ∷ ids) = elim (choose c w id) [
      | skip ↦ reserve_all c w ids
      | stop ↦ (c, w)
      | claim x ↦ reserve_all (reserve (evict c x.slot) x.slot) (w ++ (x ∷ [])) ids
    ]

-- The test by which the insertion sort moves an entry to the right.
abbrev pub is_later : Work → Work → Bool
is_later a b = ltb b.r.shard a.r.shard || (a.r.shard == b.r.shard && ltb b.r.off a.r.off)

-- The inner loop: `before` is the sorted part, last entry first.
pub insert : Work → List Work → List Work
insert t [] = t ∷ []
insert t (x ∷ before) = if is_later x t then x ∷ insert t before else t ∷ x ∷ before

sort_from : List Work → List Work → List Work
sort_from before [] = reverse before
sort_from before (t ∷ ws) = sort_from (insert t before) ws

unfoldable pub sort : List Work → List Work
unfolding insert sort_from
sort ws = sort_from [] ws

module _ {B : Type 0} (load : ExpertRef → Loaded B) where
  unfoldable pub write_all : (ℕ → B) → List Work → ℕ → B
  write_all arena [] = arena
  write_all arena (w ∷ ws) = write_all (update arena w.slot (load w.r).bytes) ws

  -- Phase 2. The reads go to slots of their own, so their order does not matter.
  unfoldable pub read_all : Cache B → List Work → Cache B
  unfolding write_all
  read_all c ws = record c { arena = write_all c.arena ws }

  unfoldable pub publish_one : ℕ → Cache B → Work → Cache B × ℕ
  unfolding publish vacate
  publish_one layer c w =
      if eq_pos (load w.r).got w.r.nbytes
      then (
        let d = publish c w.slot (key c layer w.expert) w.r (load w.r) in
            record d { prefetch_reads = bump d.prefetch_reads },
        1,
      )
      else (vacate c w.slot, 0)

  -- Phase 3, with the number of experts that arrived.
  unfoldable pub publish_all : ℕ → Cache B → List Work → Cache B × ℕ
  unfolding publish_one
  publish_all layer c [] = (c, 0)
  publish_all layer c (w ∷ ws) =
      let (d, n) = publish_one layer c w in let (d', m) = publish_all layer d ws in (d', n + m)

module _ {B : Type 0} (find : ℕ → ℕ → Option ExpertRef) (load : ExpertRef → Loaded B) where
  unfoldable pub getmany_in : Cache B → ℕ → List ℤ → Cache B × ℕ
  unfolding mark reserve_all sort read_all publish_all
  getmany_in c layer ids =
      let (d, ws) = reserve_all find layer (mark true layer c ids) [] ids in
      let d' = mark false layer d ids in
      publish_all load layer (read_all load d' (sort ws)) (sort ws)

  -- The list is the first `n` entries behind `ids`, or `none` for a null pointer; the result is
  -- `none` for -1.
  unfoldable pub getmany : Cache B → ℤ → ℤ → Option (List ℤ) → Cache B × Option ℕ
  unfolding getmany_in
  getmany c (pos layer) (pos n) ids =
      if ltb layer c.n_layers
      then elim ids [
        | none ↦ (c, if n == 0 then some 0 else none)
        | some l ↦ let (d, k) = getmany_in c layer (take n l) in (d, some k)
      ]
      else (c, none)
  getmany c (pos layer) (negsuc n) ids = (c, none)
  getmany c (negsuc layer) n ids = (c, none)
