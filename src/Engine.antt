-- ===== src/Engine.antt =====
-- The expert cache (src/cache/k3_cache.c) on the loader (src/io/k3_load.c) and the reads of the
-- checkpoint (src/io/k3_st.c).
pub mod Weights
mod Tests
use kimi_k3_for_me.Prelude.{ℕ, Bool, Option}
use kimi_k3_for_me.Index.Tensor.{Tensor}
use kimi_k3_for_me.Load.Geometry.{ExpertRef}
use kimi_k3_for_me.Load.Reference.{expert_ref}

-- `k3_expert_ref(c->st, layer, expert, &r)`; `look l e i scale` is `k3_st_find` of a tensor's name.
unfoldable pub find_expert : (ℕ → ℕ → ℕ → Bool → Option Tensor) → ℕ → ℕ → Option ExpertRef
unfolding expert_ref
find_expert look layer expert = expert_ref (look layer expert) layer expert
