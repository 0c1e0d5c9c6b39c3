-- ===== src/Engine/Tests.antt =====
-- The cache (src/cache/k3_cache.c) on the sample checkpoint, and the theorem at it.
use kimi_k3_for_me.Prelude.{ℕ, ◌<◌, ◌≡◌, refl, true, false, [], none, some}
use kimi_k3_for_me.Prelude.Int.{pos}
use kimi_k3_for_me.Load.Geometry.{QMat, ExpertRef}
use kimi_k3_for_me.Load.Bytes.{load_direct}
use kimi_k3_for_me.Load.Bytes.Laws.{Complete}
use kimi_k3_for_me.Load.Sample.{look}
use kimi_k3_for_me.Read.Sample.{byte, media, media-IsMedia, store}
use kimi_k3_for_me.Cache.State.{Cache, tables, empty}
use kimi_k3_for_me.Cache.Admit.{ExpertQ}
use kimi_k3_for_me.Cache.Admit.Table.{IsValid}
use kimi_k3_for_me.Cache.Api.{get}
use kimi_k3_for_me.Engine.{find_expert}
use kimi_k3_for_me.Engine.Weights.{Weights, get-Weights}

abbrev blank : ℕ → ℕ
blank i = 0

abbrev nowhere : QMat
nowhere = record { p_off = 0; p_bytes = 0; s_off = 0; s_bytes = 0; rows = 0; pcols = 0; scols = 0 }

abbrev nothing : ExpertRef
nothing = record {
  layer = 0;
  expert = 0;
  shard = 0;
  off = 0;
  nbytes = 0;
  contiguous = true;
  m0 = nowhere;
  m1 = nowhere;
  m2 = nowhere;
}

abbrev fresh : Cache (ℕ → ℕ)
fresh = record {
  n_layers = 1;
  n_experts = 4;
  topk = 1;
  arena = λ _. blank;
  slot_bytes = 8192;
  nslot = 2;
  slot_of = λ _. none;
  key_of = λ _. empty;
  used_at = λ _. 0;
  pinned = λ _. false;
  hot_key = λ _. false;
  requested = λ _. false;
  fresh = λ _. false;
  profile_pins = 0;
  ref = λ _. nothing;
  pad = λ _. 0;
  clock = 0;
  hits = 0;
  misses = 0;
  evictions = 0;
  bytes_read = 0;
  prefetch_reads = 0;
  demand_requests = 0;
  demand_reuses = 0;
  hist = λ _. 0;
  trace = [];
  captrace = 0;
}

fresh-IsValid : IsValid (find_expert look) (Complete media.content look) (tables fresh)
fresh-IsValid = record {
  forward = λ k s h. cc;
  backward = λ k s h. cc;
  served = λ k s h. absurd cc;
  pins = λ s h. absurd cc;
}

-- Expert 1 is one run at 1051, so its bytes begin 1051 behind the slot, and w2's 17 behind that.
abbrev pointers : ExpertQ
pointers = record { p1 = 1051; s1 = 1067; p2 = 1068; s2 = 1084; p3 = 1085; s3 = 1101 }

run_get :
    let (d, out) =
      get (find_expert look) (load_direct store media look 8192 blank) fresh (pos 0) (pos 1) true in
    (out ≡ some pointers) × (d.arena 0 1051 ≡ byte 1051)
unfolding get find_expert load_direct
run_get = (refl, refl)

get-Weights_example :
    let (d, out) =
      get (find_expert look) (load_direct store media look 8192 blank) fresh (pos 0) (pos 1) true in
    (l : ℕ) × (e : ℕ) × (pos 0 ≡ pos l)
    × (pos 1 ≡ pos e)
    × (l < 1)
    × (e < 4)
    × Weights media.content look d l e pointers
get-Weights_example =
    get-Weights store media look blank fresh (pos 0) (pos 1) true pointers media-IsMedia
      fresh-IsValid run_get.0
