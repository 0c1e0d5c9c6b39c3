-- ===== src/Read/Laws.antt =====
-- Every way that a shard is read (src/io/k3_st.c) gives the bytes that were asked for.
use kimi_k3_for_me.Prelude.{
  ◌∙◌, ◌<◌, ap, ◌⊎◌, inl, ℕ, ◌+◌, ◌-◌, ◌≤◌, ◌≡◌, inr, refl, true, false, not, ◌||◌, Option, none,
  some, ltb, leb, arith, subst, if-elim, if◌then◌else◌,
}
use kimi_k3_for_me.Prelude.Int.{pos, minus, pos_part-minus}
use kimi_k3_for_me.Read.{
  Store, Media, Archive, Fetched, Reply, overwrite, align_down, align, whole, read_plain,
  read_archive, read_direct, read_range, read_aligned, read_tensor, pread_max, int64_max,
}
use kimi_k3_for_me.Read.Loop.{read_loop-Holds}
use kimi_k3_for_me.Read.Promise.{
  IsFetch, IsMedia, IsReply, refused-IsReply, window-IsReply, fetch-Holds, exact-IsReply,
  nothing-Holds,
}

module _ (s : Store) (m : Media) (ok : IsMedia m) (shard off nbytes bufcap : ℕ) (buf : ℕ → ℕ) where
  whole-IsReply :
      (f : Fetched)
      → nbytes ≤ bufcap
      → IsFetch (m.content shard) off nbytes f
      → IsReply (m.content shard) off nbytes bufcap buf (whole s m buf nbytes f)
  whole-IsReply f fits w =
      exact-IsReply (m.content shard) off nbytes bufcap f.count buf (overwrite buf 0 nbytes f.bytes)
        w.most fits (fetch-Holds (m.content shard) off nbytes buf f w)

  read_plain-IsReply :
      (cap : ℕ)
      → nbytes ≤ bufcap
      → IsReply (m.content shard) off nbytes bufcap buf (read_plain s m shard off nbytes cap buf)
  unfolding read_plain
  read_plain-IsReply cap fits =
      let file = m.content shard in
      let (most, w) =
        read_loop-Holds file (m.pread shard false) off nbytes cap nbytes 0 buf buf
          (ok.pread shard false) (omega arith) (nothing-Holds file off nbytes buf) in
      exact-IsReply file off nbytes bufcap _ buf _ most fits w

  read_direct-IsReply :
      IsReply (m.content shard) off nbytes bufcap buf (read_direct s m shard off nbytes bufcap buf)
  unfolding read_direct
  read_direct-IsReply =
      let file = m.content shard in
      let lo = align_down off in
      let len = align_down (off + nbytes + (align - 1)) - lo in
      if-elim (IsReply file off nbytes bufcap buf) (ltb bufcap len) _ _
        (λ h. refused-IsReply file off nbytes bufcap buf)
        (λ h.
          let (most, w) =
            read_loop-Holds file (m.pread shard true) lo len pread_max len 0 buf buf
              (ok.pread shard true) (omega arith) (nothing-Holds file lo len buf) in
          window-IsReply file off lo (off - lo) nbytes len bufcap _ buf _ (omega arith)
            (omega arith) (ground arith) w)

  read_archive-IsReply :
      (z : Archive)
      → nbytes ≤ bufcap
      → IsReply
          (m.content shard)
          off
          nbytes
          bufcap
          buf
          (read_archive s m z shard off nbytes bufcap buf)
  unfolding read_archive
  read_archive-IsReply z fits =
      let file = m.content shard in
      let lo = align_down off in
      let up = align_down (off + nbytes + (align - 1)) in
      let hi = if ltb z.raw_size up then z.raw_size else up in
      let f = m.zread shard (minus hi lo) lo in
      let right : IsFetch file lo (hi - lo) f =
        subst (λ x. IsFetch file lo x f) (pos_part-minus hi lo) (ok.zread shard (minus hi lo) lo) in
      if-elim (IsReply file off nbytes bufcap buf) (ltb bufcap (hi - lo)) _ _
        (λ h. whole-IsReply (m.zread shard (pos nbytes) off) fits (ok.zread shard (pos nbytes) off))
        (λ h.
          window-IsReply file off lo (off - lo) nbytes (hi - lo) bufcap f.count buf
            (overwrite buf 0 (hi - lo) f.bytes) (omega arith) (omega arith) (fits_of (hi - lo) h)
            (fetch-Holds file lo (hi - lo) buf f right))
    where
      fits_of : (n : ℕ) → ltb bufcap n ≡ false → n ≤ bufcap
      fits_of n h = ground arith

  -- The reply of `k3_st_read_aligned` for arguments that are not negative.
  read_range-IsReply :
      IsReply (m.content shard) off nbytes bufcap buf (read_range s m shard off nbytes bufcap buf)
  unfolding read_range
  read_range-IsReply =
      let file = m.content shard in
      let P = IsReply file off nbytes bufcap buf in
      if-elim P
        (leb s.nshard shard || (ltb int64_max (off + nbytes + (align - 1)) || ltb bufcap nbytes)) _
        _ (λ h. refused-IsReply file off nbytes bufcap buf)
        (λ h.
          let fits : nbytes ≤ bufcap = ground arith in
          if-elim P s.remote _ _
            (λ r.
              whole-IsReply (m.remote_read shard off nbytes) fits (ok.remote_read shard off nbytes))
            (λ r. local fits (s.zfile shard)))
    where
      local :
          nbytes ≤ bufcap
          → (z : Option Archive)
          → IsReply (m.content shard) off nbytes bufcap buf (elim z [
            | some z ↦
                if not z.direct || not z.mapped
                then whole s m buf nbytes (m.zread shard (pos nbytes) off)
                else read_archive s m z shard off nbytes bufcap buf
            | none ↦
                if s.direct shard
                then read_direct s m shard off nbytes bufcap buf
                else read_plain s m shard off nbytes nbytes buf
          ])
      local fits (some z) =
          if-elim (IsReply (m.content shard) off nbytes bufcap buf) (not z.direct || not z.mapped) _
            _
            (λ h.
              whole-IsReply (m.zread shard (pos nbytes) off) fits (ok.zread shard (pos nbytes) off))
            (λ h. read_archive-IsReply z fits)
      local fits none =
          if-elim (IsReply (m.content shard) off nbytes bufcap buf) (s.direct shard) _ _
            (λ h. read_direct-IsReply) (λ h. read_plain-IsReply nbytes fits)

-- What a successful read of a tensor or of an aligned range is, and that each keeps inside its buffer:
-- `k3_st_read_aligned` on every path (remote, archive, direct, buffered) returns at most `nbytes`,
-- stores the bytes of the range from `payload_off` on, with `payload_off` below the alignment, and
-- leaves what is behind `bufcap` as it was.
pub read_aligned-IsReply :
    (s : Store) (m : Media) (shard off nbytes bufcap : ℕ) (buf : ℕ → ℕ)
    → IsMedia m
    → IsReply
        (m.content shard)
        off
        nbytes
        bufcap
        buf
        (read_aligned s m (pos shard) (pos off) (pos nbytes) bufcap buf)
unfolding read_aligned
read_aligned-IsReply s m shard off nbytes bufcap buf ok =
    read_range-IsReply s m ok shard off nbytes bufcap buf

-- A read of a tensor, as a reply with an offset.
pub read_tensor-IsReply :
    (s : Store) (m : Media) (shard off nbytes : ℕ) (buf : ℕ → ℕ)
    → IsMedia m
    → IsReply
        (m.content shard)
        off
        nbytes
        nbytes
        buf
        (read_tensor s m (pos shard) (pos off) (pos nbytes) buf)
unfolding read_tensor
read_tensor-IsReply s m shard off nbytes buf ok =
    let file = m.content shard in
    let P = IsReply file off nbytes nbytes buf in
    let fits : nbytes ≤ nbytes = omega arith in
    if-elim P (leb s.nshard shard || ltb int64_max (off + nbytes)) _ _
      (λ h. refused-IsReply file off nbytes nbytes buf)
      (λ h.
        if-elim P s.remote _ _
          (λ r.
            whole-IsReply s m ok shard off nbytes nbytes buf (m.remote_read shard off nbytes) fits
              (ok.remote_read shard off nbytes))
          (λ r. local (s.zfile shard)))
  where
    local :
        (z : Option Archive)
        → IsReply (m.content shard) off nbytes nbytes buf (elim z [
          | some z ↦ whole s m buf nbytes (m.zread shard (pos nbytes) off)
          | none ↦ read_plain s m shard off nbytes pread_max buf
        ])
    local (some z) =
        whole-IsReply s m ok shard off nbytes nbytes buf (m.zread shard (pos nbytes) off)
          (omega arith) (ok.zread shard (pos nbytes) off)
    local none = read_plain-IsReply s m ok shard off nbytes nbytes buf pread_max (omega arith)

-- A read of a tensor has no payload offset.
pub read_tensor-pad :
    (s : Store) (m : Media) (shard off nbytes : ℕ) (buf : ℕ → ℕ)
    → let x = read_tensor s m (pos shard) (pos off) (pos nbytes) buf in
      (x.pad ≡ none) ⊎ (x.pad ≡ some 0)
unfolding read_tensor read_plain
read_tensor-pad s m shard off nbytes buf =
    let P : Reply → Type 0 = λ x. (x.pad ≡ none) ⊎ (x.pad ≡ some 0) in
    if-elim P (leb s.nshard shard || ltb int64_max (off + nbytes)) _ _ (λ h. inl refl)
      (λ h. if-elim P s.remote _ _ (λ r. inr refl) (λ r. local (s.zfile shard)))
  where
    local :
        (z : Option Archive)
        → let x : Reply = elim z [
          | some z ↦ whole s m buf nbytes (m.zread shard (pos nbytes) off)
          | none ↦ read_plain s m shard off nbytes pread_max buf
        ] in
          (x.pad ≡ none) ⊎ (x.pad ≡ some 0)
    local (some z) = inr refl
    local none = inr refl

-- The bytes of a file from `off` on, at the start of a buffer and nowhere else.
pub record IsFront (file : ℕ → ℕ) (off nbytes : ℕ) (buf : ℕ → ℕ) (x : Reply) : Type 0 where
  pub most : x.got ≤ nbytes
  pub bytes : (i : ℕ) → i < x.got → x.buf i ≡ file (off + i)
  pub kept : (i : ℕ) → nbytes ≤ i → x.buf i ≡ buf i

-- `k3_st_read` on every path (remote, archive, buffered) returns at most `nbytes` and stores as many
-- bytes of the tensor at the start of its buffer, and none behind the tensor's size.
pub read_tensor-IsFront :
    (s : Store) (m : Media) (shard off nbytes : ℕ) (buf : ℕ → ℕ)
    → IsMedia m
    → IsFront
        (m.content shard)
        off
        nbytes
        buf
        (read_tensor s m (pos shard) (pos off) (pos nbytes) buf)
read_tensor-IsFront s m shard off nbytes buf ok =
    let x = read_tensor s m (pos shard) (pos off) (pos nbytes) buf in
    let w = read_tensor-IsReply s m shard off nbytes buf ok in
    record {
      most = w.most;
      bytes = λ i lt. elim (read_tensor-pad s m shard off nbytes buf) [
        | inl unset ↦ absurd (omega (arith, w.unset unset, lt))
        | inr zeroth ↦ ap x.buf {x = i} {y = 0 + i} (omega arith) ∙ w.bytes 0 i zeroth lt
      ];
      kept = w.kept;
    }
