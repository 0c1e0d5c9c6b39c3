-- ===== src/Cache/Sample.antt =====
-- A small checkpoint and an empty cache for the runs of the cache model (src/cache/k3_cache.c).
use kimi_k3_for_me.Prelude.{
  ℕ, ◌+◌, ◌*◌, ◌-◌, ◌≡◌, refl, true, false, ◌&&◌, [], Option, none, some, ltb, if◌then◌else◌,
}
use kimi_k3_for_me.Prelude.Int.{pos, negsuc}
use kimi_k3_for_me.Load.Geometry.{QMat, ExpertRef}
use kimi_k3_for_me.Cache.State.{Cache, tables, Loaded, empty}
use kimi_k3_for_me.Cache.Admit.Table.{IsValid}
use kimi_k3_for_me.Cache.Admit.Laws.{IsSound}

abbrev mat : ℕ → QMat
mat o = record {
  p_off = o;
  p_bytes = 2;
  s_off = o + 2;
  s_bytes = 1;
  rows = 1;
  pcols = 2;
  scols = 1;
}

-- Two layers of four experts, of nine bytes each. Expert 3 of layer 1 is missing.
abbrev pub ref_of : ℕ → ℕ → ExpertRef
ref_of l e = record {
  layer = l;
  expert = e;
  shard = 1 - l;
  off = 1000 * l + 9 * (4 - e);
  nbytes = 9;
  contiguous = true;
  m0 = mat 0;
  m1 = mat 3;
  m2 = mat 6;
}

unfoldable pub find : ℕ → ℕ → Option ExpertRef
find l e = if ltb l 2 && (ltb e 4 && ltb (l + e) 4) then some (ref_of l e) else none

-- The contents of a slot are told by the offset that was read into it.
abbrev pub Complete : ExpertRef → ℕ → ℕ → Type 0
Complete r pad b = b ≡ r.off + pad

abbrev pub load : ExpertRef → Loaded ℕ
load r = record { got = pos r.nbytes; pad = 3; bytes = r.off + 3 }

-- A read that fails and leaves rubbish.
abbrev pub load_short : ExpertRef → Loaded ℕ
load_short r = record { got = negsuc 0; pad = 3; bytes = 77777 }

pub load-IsSound : IsSound Complete load
load-IsSound r all = refl

pub load_short-IsSound : IsSound Complete load_short
load_short-IsSound r all = absurd cc

abbrev pub fresh : Cache ℕ
fresh = record {
  n_layers = 2;
  n_experts = 4;
  topk = 1;
  arena = λ _. 0;
  slot_bytes = 16;
  nslot = 3;
  slot_of = λ _. none;
  key_of = λ _. empty;
  used_at = λ _. 0;
  pinned = λ _. false;
  hot_key = λ _. false;
  requested = λ _. false;
  fresh = λ _. false;
  profile_pins = 0;
  ref = λ _. ref_of 0 0;
  pad = λ _. 0;
  clock = 0;
  hits = 0;
  misses = 0;
  evictions = 0;
  bytes_read = 0;
  prefetch_reads = 0;
  demand_requests = 0;
  demand_reuses = 0;
  hist = λ _. 0;
  trace = [];
  captrace = 0;
}

pub fresh-IsValid : IsValid find Complete (tables fresh)
fresh-IsValid = record {
  forward = λ k s h. cc;
  backward = λ k s h. cc;
  served = λ k s h. absurd cc;
  pins = λ s h. absurd cc;
}
