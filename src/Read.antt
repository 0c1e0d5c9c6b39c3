-- ===== src/Read.antt =====
-- Reading a shard: `k3_st_read` and `k3_st_read_aligned` of src/io/k3_st.c.
pub mod Loop
pub mod Promise
pub mod Laws
pub mod Full
pub mod Sample
mod Tests
use kimi_k3_for_me.Prelude.{
  ℕ, zero, suc, ◌+◌, ◌-◌, ◌*◌, ◌/◌, ◌^◌, Bool, true, false, not, ◌&&◌, ◌||◌, Option, none, some,
  ltb, leb, min, if◌then◌else◌,
}
use kimi_k3_for_me.Prelude.Int.{ℤ, pos, negsuc, minus}

-- The fields of `K3ZFile` that a direct read looks at. `direct` is `dfd >= 0`.
pub record Archive : Type 0 where
  pub mapped : Bool
  pub direct : Bool
  pub raw_size : ℕ

-- The part of `K3St` that reads look at. `direct s` is `dfd && dfd[s] >= 0`.
pub record Store : Type 0 where
  pub nshard : ℕ
  pub remote : Bool
  pub zfile : ℕ → Option Archive
  pub direct : ℕ → Bool

-- What a reader of a whole range leaves: its result, and the bytes of the range.
pub record Fetched : Type 0 where
  pub count : ℕ
  pub bytes : ℕ → ℕ

-- What a shard is read by. `pread` takes whether the descriptor is the direct one, an offset and a
-- length; `zread` is `k3_zread` (with the length first) and `remote_read` is `k3_remote_read`.
pub record Media : Type 0 where
  pub content : ℕ → ℕ → ℕ
  pub pread : ℕ → Bool → ℕ → ℕ → ℤ
  pub zread : ℕ → ℤ → ℕ → Fetched
  pub remote_read : ℕ → ℕ → ℕ → Fetched

-- The result of a read, what it stores at `payload_off` if it does, and its buffer.
pub record Reply : Type 0 where
  pub got : ℕ
  pub pad : Option ℕ
  pub buf : ℕ → ℕ

-- K3_PREAD_MAX, K3_ST_ALIGN and INT64_MAX.
abbrev pub pread_max : ℕ
pread_max = 2 ^ 30

abbrev pub align : ℕ
align = 4096

abbrev pub int64_max : ℕ
int64_max = 2 ^ 63 - 1

-- `x & ~(K3_ST_ALIGN - 1)`.
abbrev pub align_down : ℕ → ℕ
align_down x = x / align * align

-- `len` bytes stored from `at` on.
abbrev pub overwrite : (ℕ → ℕ) → ℕ → ℕ → (ℕ → ℕ) → ℕ → ℕ
overwrite buf at len bytes i = if leb at i && ltb i (at + len) then bytes (i - at) else buf i

-- A result of `pread` that lets the loop go on.
abbrev pub advance : ℤ → Option ℕ
advance (pos zero) = none
advance (pos (suc n)) = some (suc n)
advance (negsuc n) = none

-- `while (got < len)` around `pread`, with at most `cap` bytes a round.
module _ (file : ℕ → ℕ) (pread : ℕ → ℕ → ℤ) (off len cap : ℕ) where
  abbrev pub request : ℕ → ℕ
  request got = min (len - got) cap

  unfoldable pub read_loop : ℕ → ℕ → (ℕ → ℕ) → ℕ × (ℕ → ℕ)
  read_loop zero got buf = (got, buf)
  read_loop (suc n) got buf = elim (ltb got len) [
    | false ↦ (got, buf)
    | true ↦ elim (advance (pread (off + got) (request got))) [
      | none ↦ (got, buf)
      | some r ↦ read_loop n (got + r) (overwrite buf got r (λ i. file (off + (got + i))))
    ]
  ]

-- `got >= pad + nbytes ? nbytes : (got > pad ? got - pad : 0)`.
abbrev pub payload : ℕ → ℕ → ℕ → ℕ
payload got pad nbytes =
    if leb (pad + nbytes) got then nbytes else (if ltb pad got then got - pad else 0)

module _ (s : Store) (m : Media) where
  -- A range that one call of a reader fills.
  abbrev pub whole : (ℕ → ℕ) → ℕ → Fetched → Reply
  whole buf len f = record { got = f.count; pad = some 0; buf = overwrite buf 0 len f.bytes }

  -- A buffered read of the range, in rounds of at most `cap` bytes.
  unfoldable pub read_plain : ℕ → ℕ → ℕ → ℕ → (ℕ → ℕ) → Reply
  unfolding read_loop
  read_plain shard off nbytes cap buf =
      let (got, out) =
        read_loop (m.content shard) (m.pread shard false) off nbytes cap nbytes 0 buf in
      record { got = got; pad = some 0; buf = out }

  -- The widened read of an archive that has a direct descriptor and is mapped.
  unfoldable pub read_archive : Archive → ℕ → ℕ → ℕ → ℕ → (ℕ → ℕ) → Reply
  read_archive z shard off nbytes bufcap buf =
      let lo = align_down off in
      let up = align_down (off + nbytes + (align - 1)) in
      let hi = if ltb z.raw_size up then z.raw_size else up in
      if ltb bufcap (hi - lo)
      then whole buf nbytes (m.zread shard (pos nbytes) off)
      else (let f = m.zread shard (minus hi lo) lo in
          record {
            got = payload f.count (off - lo) nbytes;
            pad = some (off - lo);
            buf = overwrite buf 0 (hi - lo) f.bytes;
          })

  -- The widened read through the direct descriptor.
  unfoldable pub read_direct : ℕ → ℕ → ℕ → ℕ → (ℕ → ℕ) → Reply
  unfolding read_loop
  read_direct shard off nbytes bufcap buf =
      let lo = align_down off in
      let len = align_down (off + nbytes + (align - 1)) - lo in
      if ltb bufcap len
      then record { got = 0; pad = none; buf = buf }
      else (let (got, out) =
            read_loop (m.content shard) (m.pread shard true) lo len pread_max len 0 buf in
          record { got = payload got (off - lo) nbytes; pad = some (off - lo); buf = out })

  -- `k3_st_read_aligned` past its guards on the sign of its arguments.
  unfoldable pub read_range : ℕ → ℕ → ℕ → ℕ → (ℕ → ℕ) → Reply
  unfolding read_plain read_archive read_direct
  read_range shard off nbytes bufcap buf =
      if leb s.nshard shard || (ltb int64_max (off + nbytes + (align - 1)) || ltb bufcap nbytes)
      then record { got = 0; pad = none; buf = buf }
      else (if s.remote
          then whole buf nbytes (m.remote_read shard off nbytes)
          else elim (s.zfile shard) [
            | some z ↦
                if not z.direct || not z.mapped
                then whole buf nbytes (m.zread shard (pos nbytes) off)
                else read_archive z shard off nbytes bufcap buf
            | none ↦
                if s.direct shard
                then read_direct shard off nbytes bufcap buf
                else read_plain shard off nbytes nbytes buf
          ])

  unfoldable pub read_aligned : ℤ → ℤ → ℤ → ℕ → (ℕ → ℕ) → Reply
  unfolding read_range
  read_aligned (pos shard) (pos off) (pos nbytes) bufcap buf =
      read_range shard off nbytes bufcap buf
  read_aligned (pos shard) (pos off) (negsuc n) bufcap buf = record {
    got = 0;
    pad = none;
    buf = buf;
  }
  read_aligned (pos shard) (negsuc o) nbytes bufcap buf = record { got = 0; pad = none; buf = buf }
  read_aligned (negsuc i) off nbytes bufcap buf = record { got = 0; pad = none; buf = buf }

  -- `k3_st_read` of the bytes of a tensor, past its guards on the sign of shard, offset and size.
  unfoldable pub read_extent : ℕ → ℕ → ℕ → (ℕ → ℕ) → Reply
  unfolding read_plain
  read_extent shard off nbytes buf =
      if leb s.nshard shard || ltb int64_max (off + nbytes)
      then record { got = 0; pad = none; buf = buf }
      else (if s.remote
          then whole buf nbytes (m.remote_read shard off nbytes)
          else elim (s.zfile shard) [
            | some z ↦ whole buf nbytes (m.zread shard (pos nbytes) off)
            | none ↦ read_plain shard off nbytes pread_max buf
          ])

  unfoldable pub read_tensor : ℤ → ℤ → ℤ → (ℕ → ℕ) → Reply
  unfolding read_extent
  read_tensor (pos shard) (pos off) (pos nbytes) buf = read_extent shard off nbytes buf
  read_tensor (pos shard) (pos off) (negsuc n) buf = record { got = 0; pad = none; buf = buf }
  read_tensor (pos shard) (negsuc o) nbytes buf = record { got = 0; pad = none; buf = buf }
  read_tensor (negsuc i) off nbytes buf = record { got = 0; pad = none; buf = buf }
