-- ===== src/Load/Reference/Tests.antt =====
-- Runs of `k3_expert_ref` (src/io/k3_load.c), and the theorem at one.
use kimi_k3_for_me.Prelude.{ℕ, ◌≡◌, refl, true, false, none, some}
use kimi_k3_for_me.Load.Geometry.{ExpertRef}
use kimi_k3_for_me.Load.Reference.{Pair, expert_ref, arrange}
use kimi_k3_for_me.Load.Reference.Laws.{IsReference, expert_ref-IsReference}
use kimi_k3_for_me.Load.Sample.{look, tensor}

abbrev pair : ℕ → ℕ → Pair
pair e i = record { pk = tensor e i false; sc = tensor e i true }

abbrev one_run : ExpertRef
unfolding arrange
one_run = arrange 0 1 (pair 1 0) (pair 1 1) (pair 1 2)

abbrev apart : ExpertRef
unfolding arrange
apart = arrange 0 2 (pair 2 0) (pair 2 1) (pair 2 2)

run_run :
    (expert_ref (look 0 1) 0 1 ≡ some one_run)
    × (one_run.contiguous ≡ true)
    × (one_run.off ≡ 1051)
    × (one_run.nbytes ≡ 51)
    × (one_run.m2.s_off ≡ 50)
unfolding expert_ref one_run
run_run = (refl, refl, refl, refl, refl)

run_scattered :
    (expert_ref (look 0 2) 0 2 ≡ some apart)
    × (apart.contiguous ≡ false)
    × (apart.nbytes ≡ 51)
    × (apart.m1.p_off ≡ 17)
unfolding expert_ref apart
run_scattered = (refl, refl, refl, refl)

run_missing : expert_ref (look 0 3) 0 3 ≡ none
unfolding expert_ref
run_missing = refl

opened : expert_ref (look 0 2) 0 2 ≡ some apart
unfolding expert_ref apart
opened = refl

expert_ref-IsReference_example :
    (a : Pair) × (b : Pair) × (c : Pair) × IsReference (look 0 2) 0 2 apart a b c
expert_ref-IsReference_example = expert_ref-IsReference (look 0 2) 0 2 apart opened
