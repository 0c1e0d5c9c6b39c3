-- ===== src/Load/Bytes/Tests.antt =====
-- Runs of `k3_expert_load_direct` (src/io/k3_load.c), and the theorem at the sample.
use kimi_k3_for_me.Prelude.{ℕ, ◌+◌, ◌<◌, arith, ◌≡◌, refl, true, false}
use kimi_k3_for_me.Prelude.Int.{pos}
use kimi_k3_for_me.Load.Geometry.{ExpertRef}
use kimi_k3_for_me.Load.Reference.{Pair, arrange}
use kimi_k3_for_me.Load.Reference.Laws.{IsReference, IsMatrix, IsShaped, arrange-IsReference}
use kimi_k3_for_me.Load.Bytes.{load_direct}
use kimi_k3_for_me.Load.Bytes.Laws.{HasMatrix}
use kimi_k3_for_me.Load.Bytes.Sound.{load_direct-HasMatrix}
use kimi_k3_for_me.Load.Sample.{look, tensor}
use kimi_k3_for_me.Read.Sample.{byte, media, media-IsMedia, store}

abbrev pair : ℕ → ℕ → Pair
pair e i = record { pk = tensor e i false; sc = tensor e i true }

abbrev blank : ℕ → ℕ
blank i = 0

abbrev reference : ℕ → ExpertRef
unfolding arrange
reference e = arrange 0 e (pair e 0) (pair e 1) (pair e 2)

run_run :
    let x = load_direct store media look 8192 blank (reference 1) in
    (x.got ≡ pos 51) × (x.pad ≡ 1051) × (x.bytes (1051 + 50) ≡ byte 1101)
unfolding load_direct reference
run_run = (refl, refl, refl)

run_scattered :
    let x = load_direct store media look 8192 blank (reference 2) in
    (x.got ≡ pos 51) × (x.pad ≡ 0) × (x.bytes 17 ≡ byte 1419)
unfolding load_direct reference
run_scattered = (refl, refl, refl)

pair-IsMatrix : (i : ℕ) → i < 3 → IsMatrix (look 0 2) i (pair 2 i) × IsShaped 0 (pair 2 i)
pair-IsMatrix i lt = (
  record { found_pk = ground arith; found_sc = ground arith },
  record {
    packed = refl;
    scales = refl;
    planes = (refl, refl);
    rows = refl;
    groups = refl;
    together = (refl, refl);
  },
)

reference-IsReference : IsReference (look 0 2) 0 2 (reference 2) (pair 2 0) (pair 2 1) (pair 2 2)
unfolding reference
reference-IsReference =
    arrange-IsReference (look 0 2) 0 2 (pair 2 0) (pair 2 1) (pair 2 2)
      (pair-IsMatrix 0 (omega arith)) (pair-IsMatrix 1 (omega arith))
      (pair-IsMatrix 2 (omega arith))

load_direct-HasMatrix_example :
    let r = reference 2 in
    let x = load_direct store media look 8192 blank r in
    HasMatrix media.content x.bytes x.pad (pair 2 0) r.m0
    × HasMatrix media.content x.bytes x.pad (pair 2 1) r.m1
    × HasMatrix media.content x.bytes x.pad (pair 2 2) r.m2
unfolding load_direct reference
load_direct-HasMatrix_example =
    load_direct-HasMatrix store media media-IsMedia look 8192 blank (reference 2) (pair 2 0)
      (pair 2 1) (pair 2 2) reference-IsReference refl
