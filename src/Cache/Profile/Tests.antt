-- ===== src/Cache/Profile/Tests.antt =====
-- A run of `k3_cache_load_profile` (src/cache/k3_cache.c), and the theorem at it.
use kimi_k3_for_me.Prelude.{
  ℕ, ◌≡◌, refl, true, false, List, [], ◌∷◌, Option, none, some, ltb, if◌then◌else◌,
}
use kimi_k3_for_me.Prelude.Int.{pos}
use kimi_k3_for_me.Load.Geometry.{ExpertRef}
use kimi_k3_for_me.Cache.State.{Cache, tables}
use kimi_k3_for_me.Cache.Admit.Table.{IsValid}
use kimi_k3_for_me.Cache.Init.{Config, zero_ref, started, init}
use kimi_k3_for_me.Cache.Init.Laws.{init-IsStarted}
use kimi_k3_for_me.Cache.Profile.{profile_fields, load_profile, check_profile}
use kimi_k3_for_me.Cache.Profile.Loaded.{IsProfiled, load_profile-IsProfiled}

abbrev cfg : Config
cfg = record { n_layers = 3; n_experts = 4; topk = 1; first_dense = 1 }

abbrev find : ℕ → ℕ → Option ExpertRef
find l e = if ltb l 1 then none else some record zero_ref { layer = l; expert = e; nbytes = 100 }

abbrev Complete : ExpertRef → ℕ → ℕ → Type 0
Complete r pad b = b ≡ pad

cache : Cache ℕ
unfolding started
cache = started cfg 12288 4 (λ i. i)

abbrev title : List ℕ
title = 75 ∷ 51 ∷ 69 ∷ 88 ∷ 80 ∷ 69 ∷ 82 ∷ 84 ∷ 83 ∷ 32 ∷ 49 ∷ 32 ∷ 51 ∷ 32 ∷ 52 ∷ 32 ∷ 49 ∷ 10 ∷ []

-- "2 1 9", "1 3 7" and "1 2 7".
abbrev rows : List (List ℕ)
rows =
    (50 ∷ 32 ∷ 49 ∷ 32 ∷ 57 ∷ 10 ∷ [])
    ∷ (49 ∷ 32 ∷ 51 ∷ 32 ∷ 55 ∷ 10 ∷ [])
    ∷ (49 ∷ 32 ∷ 50 ∷ 32 ∷ 55 ∷ 10 ∷ [])
    ∷ []

-- "-1".
run_fields :
    (profile_fields (45 ∷ 49 ∷ []) 1 ≡ none)
    × (profile_fields (32 ∷ 55 ∷ 9 ∷ 49 ∷ 50 ∷ 13 ∷ 10 ∷ []) 2 ≡ some (7 ∷ 12 ∷ []))
unfolding profile_fields
run_fields = (refl, refl)

-- The third row is out of order.
run_check :
    (check_profile (title ∷ rows) false (pos 2) ≡ false)
    × (check_profile (title ∷ rows) false (pos 0) ≡ false)
unfolding check_profile
run_check = (refl, refl)

abbrev lines : List (List ℕ)
lines = title ∷ (50 ∷ 32 ∷ 49 ∷ 32 ∷ 57 ∷ 10 ∷ []) ∷ (49 ∷ 32 ∷ 51 ∷ 32 ∷ 55 ∷ 10 ∷ []) ∷ []

profiled : Cache ℕ
unfolding cache load_profile
profiled = (load_profile find cache lines false (pos 2)).0

run_load :
    (load_profile find cache lines false (pos 2) ≡ (profiled, true))
    × (profiled.hot_key 9 ≡ true)
    × (profiled.hot_key 7 ≡ true)
    × (profiled.hot_key 8 ≡ false)
    × ((load_profile find cache lines false (pos 3)).1 ≡ false)
unfolding profiled cache load_profile
run_load = (refl, refl, refl, refl, refl)

starts : init find cfg (pos 50000) true (λ i. i) ≡ some cache
unfolding init cache
starts = refl

cache-IsValid : IsValid find Complete (tables cache)
cache-IsValid = (init-IsStarted find cfg Complete (pos 50000) true (λ i. i) cache starts).2.valid

load_profile-IsProfiled_example :
    (cache.clock ≡ 0) × IsProfiled find cache profiled 2 × IsValid find Complete (tables profiled)
unfolding cache
load_profile-IsProfiled_example =
    load_profile-IsProfiled find Complete cache profiled lines false 2 cache-IsValid (λ s. refl)
      run_load.0
