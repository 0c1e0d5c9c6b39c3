-- ===== src/Read/Sample.antt =====
-- A shard of 5000 bytes on which the models of src/io and src/cache are run.
use kimi_k3_for_me.Prelude.{
  ℕ, ◌+◌, ◌-◌, ◌*◌, ◌%◌, ◌≡◌, refl, false, true, none, ltb, min, arith, if◌then◌else◌,
}
use kimi_k3_for_me.Prelude.Int.{ℤ, pos, pos_part}
use kimi_k3_for_me.Read.{Store, Media, Fetched}
use kimi_k3_for_me.Read.Promise.{IsMedia, IsFetch}
use kimi_k3_for_me.Read.Loop.{IsPread}

abbrev pub byte : ℕ → ℕ
byte i = i * 7 % 256

-- A `pread` that gives 4096 bytes at most, and what is left at the end of the file.
abbrev pub some_of : ℕ → ℕ → ℤ
some_of o q = pos (min q (min 4096 (5000 - o)))

-- A reader that refuses a range that is not in the file.
abbrev pub all_of : ℕ → ℕ → Fetched
all_of off n = record { count = if ltb 5000 (off + n) then 0 else n; bytes = λ i. byte (off + i) }

abbrev pub media : Media
media = record {
  content = λ s. byte;
  pread = λ s d. some_of;
  zread = λ s n off. all_of off (pos_part n);
  remote_read = λ s off n. all_of off n;
}

all_of-IsFetch : (off n : ℕ) → IsFetch byte off n (all_of off n)
all_of-IsFetch off n = record { most = ground arith; right = λ i lt. refl }

some_of-IsPread : IsPread some_of
some_of-IsPread o q n h = let e : min q (min 4096 (5000 - o)) ≡ n = cc (h) in omega arith

pub media-IsMedia : IsMedia media
media-IsMedia = record {
  pread = λ s d. some_of-IsPread;
  zread = λ s n off. all_of-IsFetch off (pos_part n);
  remote_read = λ s off n. all_of-IsFetch off n;
}

abbrev pub store : Store
store = record { nshard = 1; remote = false; zfile = λ s. none; direct = λ s. true }
