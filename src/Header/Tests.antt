-- ===== src/Header/Tests.antt =====
-- Headers for the scanner of src/io/k3_st.c, and the theorems at them.
use kimi_k3_for_me.Prelude.{
  ℕ, ◌+◌, ◌^◌, ◌≤◌, ◌≡◌, refl, ◌==◌, if◌then◌else◌, List, [], ◌∷◌, some, arith, map, All,
}
use kimi_k3_for_me.Prelude.Int.{pos}
use kimi_k3_for_me.Index.Tensor.{u8, f16, f32}
use kimi_k3_for_me.Index.{same}
use kimi_k3_for_me.Header.Entry.{Scanned, c_string, close_entry}
use kimi_k3_for_me.Header.Shard.{read_object, scan_shard, little_endian}
use kimi_k3_for_me.Header.Bounds.{IsSized, scan_shard-IsSized}
use kimi_k3_for_me.Header.Print.{Written, print_object, scanned, IsWritable}
use kimi_k3_for_me.Header.RoundTrip.{read_object-print_object}

abbrev weights : Written
weights = record { name = 119 ∷ 50 ∷ []; dtype = u8; dims = 2 ∷ 13 ∷ []; first = 0; last = 26 }

abbrev scalar : Written
scalar = record { name = 98 ∷ []; dtype = f32; dims = []; first = 26; last = 30 }

abbrev both : List Written
both = weights ∷ scalar ∷ []

both-AreWritable : All (IsWritable 100 130) both
unfolding same
both-AreWritable = (
  record {
    plain = (
      ((λ e. omega arith), (λ e. omega arith), λ e. omega arith),
      (((λ e. omega arith), (λ e. omega arith), λ e. omega arith), tt),
    );
    short = omega arith;
    tensor = refl;
    rank = omega arith;
    known = refl;
    drafted = λ e. cc;
    span = refl;
    inside = omega arith;
    file = omega arith;
    small = (omega arith, omega arith, (omega arith, omega arith, tt));
  },
  (
    record {
      plain = (((λ e. omega arith), (λ e. omega arith), λ e. omega arith), tt);
      short = omega arith;
      tensor = refl;
      rank = omega arith;
      known = refl;
      drafted = λ e. cc;
      span = refl;
      inside = omega arith;
      file = omega arith;
      small = tt;
    },
    tt,
  ),
)

read_object-print_object_example :
    read_object 100 130 (print_object both (32 ∷ [])) ≡ some (map (scanned 100) both)
read_object-print_object_example = read_object-print_object 100 130 both (32 ∷ []) both-AreWritable

-- Metadata with an escaped quote, blanks, a field that is skipped, and a comma before the end.
abbrev text : List ℕ
text =
    32 ∷ 123 ∷ 34 ∷ 95 ∷ 95 ∷ 109 ∷ 101 ∷ 116 ∷ 97 ∷ 100 ∷ 97 ∷ 116 ∷ 97 ∷ 95 ∷ 95 ∷ 34 ∷ 58 ∷ 123
    ∷ 34 ∷ 102 ∷ 111 ∷ 114 ∷ 109 ∷ 97 ∷ 116 ∷ 34 ∷ 58 ∷ 34 ∷ 112 ∷ 92 ∷ 34 ∷ 125 ∷ 116 ∷ 34 ∷ 125
    ∷ 32 ∷ 44 ∷ 10 ∷ 34 ∷ 97 ∷ 34 ∷ 58 ∷ 123 ∷ 34 ∷ 100 ∷ 97 ∷ 116 ∷ 97 ∷ 95 ∷ 111 ∷ 102 ∷ 102 ∷ 115
    ∷ 101 ∷ 116 ∷ 115 ∷ 34 ∷ 58 ∷ 91 ∷ 48 ∷ 44 ∷ 32 ∷ 52 ∷ 93 ∷ 44 ∷ 34 ∷ 120 ∷ 34 ∷ 58 ∷ 91 ∷ 49
    ∷ 44 ∷ 123 ∷ 125 ∷ 93 ∷ 44 ∷ 34 ∷ 115 ∷ 104 ∷ 97 ∷ 112 ∷ 101 ∷ 34 ∷ 58 ∷ 91 ∷ 32 ∷ 50 ∷ 32 ∷ 93
    ∷ 44 ∷ 34 ∷ 100 ∷ 116 ∷ 121 ∷ 112 ∷ 101 ∷ 34 ∷ 58 ∷ 34 ∷ 70 ∷ 49 ∷ 54 ∷ 34 ∷ 125 ∷ 44 ∷ 125 ∷ 32
    ∷ 32 ∷ []

abbrev half : Scanned
half = record {
  name = 97 ∷ [];
  dtype = f16;
  ndim = 1;
  shape = λ i. if 0 == i then pos 2 else pos 0;
  off = pos (8 + 108);
  nbytes = pos 4;
}

lenbuf : List ℕ
lenbuf = 108 ∷ 0 ∷ 0 ∷ 0 ∷ 0 ∷ 0 ∷ 0 ∷ 0 ∷ []

run_scan_shard : scan_shard 1000 1000 lenbuf (λ n. text) ≡ some (half ∷ [])
unfolding lenbuf scan_shard
run_scan_shard = refl

scan_shard-IsSized_example :
    All (IsSized 1000) (half ∷ [])
    × (1 ≤ little_endian lenbuf)
    × (little_endian lenbuf ≤ 67108864)
    × (little_endian lenbuf + 8 ≤ 1000)
    × (little_endian lenbuf + 8 ≤ 1000)
scan_shard-IsSized_example =
    scan_shard-IsSized 1000 1000 lenbuf (λ n. text) (half ∷ []) run_scan_shard

-- Offsets before the data section are accepted: this tensor starts in the header.
abbrev early : List ℕ
early =
    123 ∷ 34 ∷ 97 ∷ 34 ∷ 58 ∷ 123 ∷ 34 ∷ 100 ∷ 116 ∷ 121 ∷ 112 ∷ 101 ∷ 34 ∷ 58 ∷ 34 ∷ 85 ∷ 56 ∷ 34
    ∷ 44 ∷ 34 ∷ 115 ∷ 104 ∷ 97 ∷ 112 ∷ 101 ∷ 34 ∷ 58 ∷ 91 ∷ 56 ∷ 93 ∷ 44 ∷ 34 ∷ 100 ∷ 97 ∷ 116 ∷ 97
    ∷ 95 ∷ 111 ∷ 102 ∷ 102 ∷ 115 ∷ 101 ∷ 116 ∷ 115 ∷ 34 ∷ 58 ∷ 91 ∷ 45 ∷ 56 ∷ 44 ∷ 48 ∷ 93 ∷ 125
    ∷ 125 ∷ []

run_early :
    read_object 100 100 early
    ≡ some (
        record {
          name = 97 ∷ [];
          dtype = u8;
          ndim = 1;
          shape = λ i. if 0 == i then pos 8 else pos 0;
          off = pos 92;
          nbytes = pos 8;
        }
        ∷ [])
unfolding read_object
run_early = refl

-- A product of dimensions that wraps around to 0 is accepted with an empty span.
run_wrapped :
    close_entry 100 1000
      (97 ∷ [])
      (record { dtype = some u8; ndim = 2; shape = λ i. pos (2 ^ 32); span = some (pos 0, pos 0) })
    ≡ some record {
      name = 97 ∷ [];
      dtype = u8;
      ndim = 2;
      shape = λ i. pos (2 ^ 32);
      off = pos 100;
      nbytes = pos 0;
    }
unfolding close_entry c_string
run_wrapped = refl
