-- ===== src/Cache/Tests.antt =====
-- Runs of the cache model (src/cache/k3_cache.c) on a small checkpoint, and the theorems at them.
use mathlib.Core.List.{Perm}
use kimi_k3_for_me.Prelude.{
  ℕ, ◌<◌, ◌≡◌, ◌≢◌, ◌⊎◌, inl, refl, true, false, List, [], ◌∷◌, none, some, arith, All, map,
}
use kimi_k3_for_me.Prelude.Int.{ℤ, pos, negsuc}
use kimi_k3_for_me.Load.Geometry.{ExpertRef}
use kimi_k3_for_me.Cache.State.{Cache, tables, empty}
use kimi_k3_for_me.Cache.Victim.{pick_victim}
use kimi_k3_for_me.Cache.Admit.{ExpertQ, admit}
use kimi_k3_for_me.Cache.Admit.Table.{IsValid}
use kimi_k3_for_me.Cache.Admit.Laws.{slot_of-admit}
use kimi_k3_for_me.Cache.Batch.{Work, mark, reserve_all, sort, getmany, getmany_in}
use kimi_k3_for_me.Cache.Api.{get, resident, pin_expert, manual_pins}
use kimi_k3_for_me.Cache.Api.Get.{get-IsValid, get-get}
use kimi_k3_for_me.Cache.Api.Room.{IsRoomy}
use kimi_k3_for_me.Cache.Api.Pins.{pin_expert-IsRoomy, admit-none}
use kimi_k3_for_me.Cache.Victim.Lru.{Picked, pick_victim-Picked}
use kimi_k3_for_me.Cache.Admit.Frame.{IsKept, admit-IsKept}
use kimi_k3_for_me.Cache.Batch.Laws.{
  IsSettled, getmany-IsValid, getmany_in-IsRegistered, getmany_in-IsKept, getmany_in-requested,
}
use kimi_k3_for_me.Cache.Batch.Reserve.{IsDistinct}
use kimi_k3_for_me.Cache.Batch.Publish.{IsRegistered}
use kimi_k3_for_me.Cache.Batch.Sort.{IsRising, sort-IsRising}
use kimi_k3_for_me.Cache.Sample.{
  ref_of, find, Complete, load, load-IsSound, load_short, load_short-IsSound, fresh, fresh-IsValid,
}

one : Cache ℕ
unfolding get find
one = (get find load fresh (pos 0) (pos 0) true).0

-- After experts 0 and 1 of layer 0 were asked for.
warm : Cache ℕ
unfolding one get find
warm = (get find load one (pos 0) (pos 1) true).0

abbrev pointers : ExpertQ
pointers = record { p1 = 19; s1 = 21; p2 = 22; s2 = 24; p3 = 25; s3 = 27 }

run_get : (get find load warm (pos 0) (pos 1) true).1 ≡ some pointers
unfolding warm get find
run_get = refl

warm-IsValid : IsValid find Complete (tables warm)
unfolding warm one
warm-IsValid =
    get-IsValid find Complete load load-IsSound one (pos 0) (pos 1) true
      (get-IsValid find Complete load load-IsSound fresh (pos 0) (pos 0) true fresh-IsValid)

warm-IsSettled : IsSettled warm
unfolding warm get find
warm-IsSettled s h = ground arith

-- A batch with an id out of range, a resident, a repeated id, an id of a missing expert.
abbrev ids : List ℤ
ids = pos 1 ∷ pos 2 ∷ negsuc 0 ∷ pos 2 ∷ pos 9 ∷ pos 3 ∷ []

run_getmany :
    let (c, n) = getmany find load warm (pos 0) (pos 6) (some ids) in
    (n ≡ some 2)
    × (c.slot_of 0 ≡ none)
    × (c.slot_of 1 ≡ some 1)
    × (c.slot_of 2 ≡ some 2)
    × (c.slot_of 3 ≡ some 0)
    × (c.evictions ≡ 1)
unfolding warm get find getmany
run_getmany = (refl, refl, refl, refl, refl, refl)

run_getmany_short :
    let (c, n) = getmany find load_short warm (pos 0) (pos 6) (some ids) in
    (n ≡ some 0) × (c.slot_of 1 ≡ some 1) × (c.slot_of 2 ≡ none) × (c.key_of 2 ≡ empty)
unfolding warm get find getmany
run_getmany_short = (refl, refl, refl, refl)

get-IsValid_example :
    IsValid find Complete (tables (get find load_short warm (pos 1) (pos 2) true).0)
get-IsValid_example =
    get-IsValid find Complete load_short load_short-IsSound warm (pos 1) (pos 2) true warm-IsValid

get-get_example :
    let d = (get find load warm (pos 0) (pos 1) true).0 in
    let again = get find load_short d (pos 0) (pos 1) false in
    (resident d (pos 0) (pos 1) ≡ some pointers)
    × (again.1 ≡ some pointers)
    × (again.0.arena ≡ d.arena)
    × (again.0.bytes_read ≡ d.bytes_read)
    × (again.0.misses ≡ d.misses)
    × (again.0.evictions ≡ d.evictions)
get-get_example =
    get-get find Complete load load-IsSound warm (pos 0) (pos 1) true false pointers load_short
      run_get

pick_victim-Picked_example : Picked warm true 3 (pick_victim warm true)
unfolding warm get find
pick_victim-Picked_example = pick_victim-Picked warm true (λ j. ground arith)

slot_of-admit_example :
    (admit find load_short warm 1 2).0.slot_of 6 ≡ (admit find load_short warm 1 2).1
unfolding warm get find
slot_of-admit_example = slot_of-admit find load_short warm 1 2

-- Expert 0 of layer 0 is pinned.
pinned : Cache ℕ
unfolding warm pin_expert
pinned = (pin_expert warm (pos 0) (pos 0) true).0

run_pin :
    ((pin_expert warm (pos 0) (pos 0) true).1 ≡ true)
    × ((pin_expert pinned (pos 0) (pos 1) true).1 ≡ false)
unfolding pinned get find
run_pin = (refl, refl)

warm-IsRoomy : IsRoomy warm
unfolding warm get find manual_pins
warm-IsRoomy = record { range = λ k h. absurd cc; marked = omega arith; room = omega arith }

pinned-both : IsValid find Complete (tables pinned) × IsRoomy pinned
unfolding pinned
pinned-both = pin_expert-IsRoomy find Complete warm (pos 0) (pos 0) true warm-IsValid warm-IsRoomy

pin_expert-IsRoomy_example :
    IsValid find Complete (tables (pin_expert pinned (pos 0) (pos 1) true).0)
    × IsRoomy (pin_expert pinned (pos 0) (pos 1) true).0
pin_expert-IsRoomy_example =
    pin_expert-IsRoomy find Complete pinned (pos 0) (pos 1) true pinned-both.0 pinned-both.1

admit-IsKept_example : IsKept (tables pinned) (tables (admit find load pinned 1 2).0) 0 0
unfolding pinned get find
admit-IsKept_example = admit-IsKept find Complete load pinned 1 2 0 0 pinned-both.0 refl (inl refl)

admit-none_example :
    (find 1 3 ≡ none)
    ⊎ ((r : ExpertRef) × (find 1 3 ≡ some r) × ((16 < r.nbytes) ⊎ ((load r).got ≢ pos r.nbytes)))
unfolding warm get find
admit-none_example =
    admit-none find Complete load warm 1 3 warm-IsValid warm-IsRoomy warm-IsSettled
      (λ s. ground arith) refl

getmany-IsValid_example :
    IsValid find Complete (tables (getmany find load_short warm (pos 0) (pos 6) (some ids)).0)
    × IsSettled (getmany find load_short warm (pos 0) (pos 6) (some ids)).0
getmany-IsValid_example =
    getmany-IsValid find load_short Complete load_short-IsSound warm (pos 0) (pos 6) (some ids)
      warm-IsValid warm-IsSettled

getmany_in-IsRegistered_example :
    let ws = (reserve_all find 0 (mark true 0 warm ids) [] ids).1 in
    IsDistinct ws
    × All
        (IsRegistered load find 0 Complete load-IsSound warm.n_experts
          (getmany_in find load warm 0 ids).0)
        (sort ws)
getmany_in-IsRegistered_example =
    getmany_in-IsRegistered find load Complete load-IsSound 0 warm ids warm-IsValid warm-IsSettled

getmany_in-IsKept_example : IsKept (tables warm) (tables (getmany_in find load warm 0 ids).0) 1 1
unfolding warm get find
getmany_in-IsKept_example =
    getmany_in-IsKept find load Complete load-IsSound 0 warm ids 1 1 warm-IsValid warm-IsSettled
      (omega arith) (inl refl) refl

getmany_in-requested_example : (getmany_in find load warm 0 ids).0.requested 2 ≡ false
unfolding warm get find
getmany_in-requested_example = getmany_in-requested find load 0 warm ids 2 refl

abbrev works : List Work
works =
    record { slot = 0; expert = 2; r = ref_of 0 2 }
    ∷ record { slot = 1; expert = 3; r = ref_of 0 3 }
    ∷ record { slot = 2; expert = 0; r = ref_of 1 0 }
    ∷ []

run_sort : map (λ w. w.slot) (sort works) ≡ 2 ∷ 1 ∷ 0 ∷ []
unfolding sort
run_sort = refl

sort-IsRising_example : IsRising (sort works) × Perm (sort works) works
sort-IsRising_example = sort-IsRising works
