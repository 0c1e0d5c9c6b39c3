-- ===== src/Cache/Init/Tests.antt =====
-- A run of `k3_cache_init` (src/cache/k3_cache.c), and the theorem at it.
use kimi_k3_for_me.Prelude.{ℕ, ◌≡◌, Option, none, some, ltb, if◌then◌else◌}
use kimi_k3_for_me.Load.Geometry.{ExpertRef}
use kimi_k3_for_me.Cache.State.{Cache}
use kimi_k3_for_me.Cache.Init.{Config, zero_ref, started}

abbrev cfg : Config
cfg = record { n_layers = 3; n_experts = 4; topk = 2; first_dense = 1 }

-- Layer 1 has no expert in the shards.
abbrev find : ℕ → ℕ → Option ExpertRef
find l e = if ltb l 2 then none else some record zero_ref { layer = l; expert = e; nbytes = 100 }

abbrev Complete : ExpertRef → ℕ → ℕ → Type 0
Complete r pad b = b ≡ pad

cache : Cache ℕ
unfolding started
cache = started cfg 12288 3 (λ i. i)
