-- ===== src/Index/Tests.antt =====
-- Runs of the name index (src/io/k3_st.c) on three tensors, and the theorems at them.
use kimi_k3_for_me.Prelude.{
  ℕ, zero, suc, ◌<◌, ◌≡◌, ◌≢◌, ◌↔◌, ◌⊎◌, true, false, refl, List, [], ◌∷◌, Option, none, some,
}
use kimi_k3_for_me.Index.{Index, lost, fnv1a, fill, bucket_count, probe_name, open_index, find_name}
use kimi_k3_for_me.Prelude.Int.{pos}
use kimi_k3_for_me.Index.Tensor.{bf16}
use kimi_k3_for_me.Header.Entry.{Scanned}
use kimi_k3_for_me.Index.Open.{HasRefused, name_at, tensors_of, open_store, open_store-none}
use kimi_k3_for_me.Index.Lookup.{Repeats, find_name-some, find_name-ends}

-- "w1", "w2" and "embed".
abbrev names : ℕ → List ℕ
names zero = 119 ∷ 49 ∷ []
names (suc zero) = 119 ∷ 50 ∷ []
names (suc (suc n)) = 101 ∷ 109 ∷ 98 ∷ 101 ∷ 100 ∷ []

run_hash : fnv1a (97 ∷ []) ≡ 4953267810257967366
unfolding fnv1a
run_hash = refl

run_count : bucket_count 600 ≡ 2048
unfolding bucket_count
run_count = refl

opened : Index
unfolding fill
opened = record { name = names; nt = 3; nbucket = 1024; bucket = fill names 1024 3 }

opens : open_index names 3 true ≡ some opened
unfolding opened open_index
opens = refl

run_find : (find_name opened (names 1) ≡ some 1) × (find_name opened (119 ∷ []) ≡ none)
unfolding opened find_name
run_find = (refl, refl)

find_name-some_example : (find_name opened (names 1) ≡ some 1) ↔ ((1 < 3) × (names 1 ≡ names 1))
find_name-some_example = find_name-some names 3 opened (names 1) 1 true opens

find_name-ends_example :
    (b : ℕ → Option ℕ) × (opened.bucket ≡ some b)
    × (probe_name opened.name opened.nbucket b (119 ∷ []) ≢ lost)
find_name-ends_example = find_name-ends names 3 opened (119 ∷ []) true opens

-- Tensors of two shards, with one name in both.
abbrev tensor : List ℕ → Scanned
tensor name = record {
  name = name;
  dtype = bf16;
  ndim = 0;
  shape = λ i. pos 0;
  off = pos 0;
  nbytes = pos 2;
}

abbrev scans : List (Option (List Scanned))
scans = some (tensor (names 0) ∷ tensor (names 1) ∷ []) ∷ some (tensor (names 1) ∷ []) ∷ []

open_store-none_example :
    (open_store scans true ≡ none)
    ↔ (HasRefused scans ⊎ ((true ≡ false) ⊎ Repeats (name_at (tensors_of scans)) 3 3))
open_store-none_example = open_store-none scans true
