-- ===== src/Read/Full.antt =====
-- Reads that find all of their bytes (src/io/k3_st.c).
use kimi_k3_for_me.Prelude.{
  ℕ, ◌+◌, ◌-◌, ◌<◌, ◌≤◌, ◌≡◌, ◌≢◌, ◌⊎◌, inl, inr, refl, true, false, ◌||◌, none, ltb, leb, min,
  arith, ap, ◌∙◌, dec_lt,
}
use kimi_k3_for_me.Prelude.Int.{ℤ, pos}
use kimi_k3_for_me.Read.{
  Store, Media, payload, align_down, align, advance, read_loop, read_plain, read_direct, read_range,
  read_aligned, read_extent, read_tensor, pread_max, int64_max,
}
use kimi_k3_for_me.Read.Loop.{IsPread, read_loop-Holds, read_loop-ends}
use kimi_k3_for_me.Read.Promise.{IsMedia, nothing-Holds}

-- Before `last` a `pread` of something returns something.
abbrev pub Gives : (ℕ → ℕ → ℤ) → ℕ → Type 0
Gives pread last = (o q : ℕ) → o < last → 1 ≤ q → advance (pread o q) ≢ none

-- The loop reads up to the end of what there is, or all.
loop-Gives :
    (file : ℕ → ℕ) (pread : ℕ → ℕ → ℤ) (off len cap last : ℕ) (buf : ℕ → ℕ)
    → IsPread pread
    → 1 ≤ cap
    → Gives pread last
    → let g = (read_loop file pread off len cap len 0 buf).0 in (g ≡ len) ⊎ (last ≤ off + g)
loop-Gives file pread off len cap last buf ok some_cap gives =
    let (most, w) =
      read_loop-Holds file pread off len cap len 0 buf buf ok (omega arith)
        (nothing-Holds file off len buf) in
    elim (read_loop-ends file pread off len cap len 0 buf ok (omega arith) (omega arith)) [
      | inl all ↦ inl all
      | inr e ↦ stopped (read_loop file pread off len cap len 0 buf).0 most e
    ]
  where
    stopped :
        (g : ℕ)
        → g ≤ len
        → advance (pread (off + g) (min (len - g) cap)) ≡ none
        → (g ≡ len) ⊎ (last ≤ off + g)
    stopped g most e = elim (dec_lt (off + g) last) [
      | no past ↦ inr (omega arith)
      | yes before ↦ elim (dec_lt g len) [
        | no full ↦ inl (omega arith)
        | yes more ↦ absurd (gives (off + g) (min (len - g) cap) before (omega arith) e)
      ]
    ]

-- The path that a local shard takes.
read_extent-plain :
    (s : Store) (m : Media) (shard off nbytes : ℕ) (buf : ℕ → ℕ)
    → (leb s.nshard shard || ltb int64_max (off + nbytes)) ≡ false
    → s.remote ≡ false
    → s.zfile shard ≡ none
    → read_extent s m shard off nbytes buf ≡ read_plain s m shard off nbytes pread_max buf
unfolding read_extent
read_extent-plain s m shard off nbytes buf h r z = rw (h, r, z, read_extent) refl

read_range-direct :
    (s : Store) (m : Media) (shard off nbytes bufcap : ℕ) (buf : ℕ → ℕ)
    → (leb s.nshard shard || (ltb int64_max (off + nbytes + (align - 1)) || ltb bufcap nbytes))
      ≡ false
    → s.remote ≡ false
    → s.zfile shard ≡ none
    → s.direct shard ≡ true
    → read_range s m shard off nbytes bufcap buf ≡ read_direct s m shard off nbytes bufcap buf
unfolding read_range
read_range-direct s m shard off nbytes bufcap buf h r z d = rw (h, r, z, d, read_range) refl

payload-full : (got pad nbytes : ℕ) → pad + nbytes ≤ got → payload got pad nbytes ≡ nbytes
payload-full got pad nbytes h = ground arith

read_direct-got :
    (s : Store) (m : Media) (shard off nbytes bufcap : ℕ) (buf : ℕ → ℕ)
    → let lo = align_down off in
      let len = align_down (off + nbytes + (align - 1)) - lo in
      ltb bufcap len ≡ false
      → (read_direct s m shard off nbytes bufcap buf).got
        ≡ payload
            (read_loop (m.content shard) (m.pread shard true) lo len pread_max len 0 buf).0
            (off - lo)
            nbytes
unfolding read_direct
read_direct-got s m shard off nbytes bufcap buf h = rw (h, read_direct) refl

-- A tensor of a local shard inside the file is read whole, however short the single reads are: if
-- `pread` gives at least a byte wherever it is asked for some before the tensor's end, `k3_st_read`
-- returns the tensor's size.
pub read_tensor-nbytes :
    (s : Store) (m : Media) (shard off nbytes : ℕ) (buf : ℕ → ℕ)
    → IsMedia m
    → shard < s.nshard
    → off + nbytes ≤ int64_max
    → s.remote ≡ false
    → s.zfile shard ≡ none
    → Gives (m.pread shard false) (off + nbytes)
    → (read_tensor s m (pos shard) (pos off) (pos nbytes) buf).got ≡ nbytes
unfolding read_tensor read_plain
read_tensor-nbytes s m shard off nbytes buf ok inside small near plain gives =
    let file = m.content shard in
    let pread = m.pread shard false in
    let end =
      loop-Gives file pread off nbytes pread_max (off + nbytes) buf (ok.pread shard false)
        (omega arith) gives in
    let (most, w) =
      read_loop-Holds file pread off nbytes pread_max nbytes 0 buf buf (ok.pread shard false)
        (omega arith) (nothing-Holds file off nbytes buf) in
    ap (λ x. x.got) (read_extent-plain s m shard off nbytes buf (ground arith) near plain)
    ∙ ground arith

-- A direct read of a local shard gets all of its payload although its window may end behind the end
-- of the file: if `pread` gives something wherever it is asked before the payload's end, and the
-- window fits the buffer, `k3_st_read_aligned` returns `nbytes`.
pub read_aligned-nbytes :
    (s : Store) (m : Media) (shard off nbytes bufcap : ℕ) (buf : ℕ → ℕ)
    → IsMedia m
    → shard < s.nshard
    → off + nbytes + (align - 1) ≤ int64_max
    → align_down (off + nbytes + (align - 1)) - align_down off ≤ bufcap
    → s.remote ≡ false
    → s.zfile shard ≡ none
    → s.direct shard ≡ true
    → Gives (m.pread shard true) (off + nbytes)
    → (read_aligned s m (pos shard) (pos off) (pos nbytes) bufcap buf).got ≡ nbytes
unfolding read_aligned read_range read_direct
read_aligned-nbytes s m shard off nbytes bufcap buf ok inside small fits near plain direct gives =
    let file = m.content shard in
    let pread = m.pread shard true in
    let lo = align_down off in
    let len = align_down (off + nbytes + (align - 1)) - lo in
    let end =
      loop-Gives file pread lo len pread_max (off + nbytes) buf (ok.pread shard true) (omega arith)
        gives in
    let window : ltb bufcap len ≡ false = ground arith in
    let g = (read_loop file pread lo len pread_max len 0 buf).0 in
    ap (λ x. x.got)
      (read_range-direct s m shard off nbytes bufcap buf (ground arith) near plain direct)
    ∙ (read_direct-got s m shard off nbytes bufcap buf window
        ∙ payload-full g (off - lo) nbytes (enough g end))
  where
    enough :
        (g : ℕ)
        → (g ≡ align_down (off + nbytes + (align - 1)) - align_down off)
          ⊎ (off + nbytes ≤ align_down off + g)
        → off - align_down off + nbytes ≤ g
    enough g (inl h) = omega arith
    enough g (inr h) = omega arith
