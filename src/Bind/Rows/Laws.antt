-- ===== src/Bind/Rows/Laws.antt =====
-- The rows that `model_read_rows` of src/model/k3_bind.c gives to the kernels, and the projection by
-- chunks against one row by row.
use kimi_k3_for_me.Prelude.{
  ℕ, zero, suc, ◌+◌, ◌-◌, ◌*◌, ◌/◌, ◌%◌, ◌^◌, ◌≤◌, ◌<◌, ◌≡◌, inl, inr, refl, sym, ap, ◌∙◌, Bool,
  true, not, ◌&&◌, ◌||◌, List, ◌∷◌, Option, some, ltb, leb, ◌==◌, if◌then◌else◌, arith, Bool-cases,
  Option-cases, subst,
}
use native.Mathlib.Nat.{mul-le-mul_right}
use kimi_k3_for_me.Prelude.Int.{pos}
use kimi_k3_for_me.Header.Rest.{chain, picked, picked_if}
use kimi_k3_for_me.Index.Tensor.{Tensor, elemsize}
use kimi_k3_for_me.Read.{Store, Media, Reply, read_aligned}
use kimi_k3_for_me.Read.Promise.{IsMedia, IsReply}
use kimi_k3_for_me.Read.Laws.{read_aligned-IsReply}
use kimi_k3_for_me.Bind.Rows.{
  chunk, bufcap, Stream, RowsAt, or_zero, row_bytes, slice, model_read_rows, put_rows, project_from,
  project,
}

slice-same :
    (f g : ℕ → ℕ) (n a b : ℕ)
    → ((i : ℕ) → i < n → f (a + i) ≡ g (b + i))
    → slice f a n ≡ slice g b n
unfolding slice
slice-same f g zero a b h = refl
slice-same f g (suc n) a b h =
    let first : f a ≡ g b = ap f (omega arith) ∙ h 0 (omega arith) ∙ ap g (omega arith) in
    let rest : slice f (suc a) n ≡ slice g (suc b) n = slice-same f g n (suc a) (suc b) (λ i lt.
      ap f {x = suc a + i} {y = a + suc i} (omega arith)
      ∙ h (suc i) (omega (arith, lt))
      ∙ ap g {x = b + suc i} {y = suc b + i} (omega arith)) in
    ap (λ x. x ∷ slice f (suc a) n) first ∙ ap (λ xs. g b ∷ xs) rest

-- The bytes of a full reply.
full_lem :
    (file : ℕ → ℕ) (off n cap j : ℕ) (buf : ℕ → ℕ) (x : Reply)
    → IsReply file off n cap buf x
    → x.got ≡ n
    → j < n
    → x.buf (or_zero x.pad + j) ≡ file (off + j)
full_lem file off n cap j buf x h e lt = elim (Option-cases x.pad) [
  | inl unset ↦ absurd (omega (arith, h.unset unset, e, lt))
  | inr (p, at) ↦
      subst (λ (q : Option ℕ). x.buf (or_zero q + j) ≡ file (off + j)) (sym at)
        (h.bytes p j at (omega (arith, e, lt)))
]

moved_lem : (f : ℕ → ℕ) (p n i : ℕ) → i < n → (if ltb i n then f (p + i) else f i) ≡ f (p + i)
moved_lem f p n i lt =
    let inside : ltb i n ≡ true = ground (arith, lt) in
    ap (λ (b : Bool). if b then f (p + i) else f i) inside

within :
    (per first vocab i : ℕ)
    → i < first + per
    → i < vocab
    → i < first + (if ltb (vocab - first) per then vocab - first else per)
within per first vocab i h v = ground (arith, h, v)

module _ (store : Store) (media : Media) (ok : IsMedia media) where
  -- The rows that were asked for, byte by byte.
  model_read_rows-content :
      (s : Stream) (t : Tensor) (first n : ℕ) (x : RowsAt)
      → model_read_rows store media s t first n ≡ some x
      → (j : ℕ) → j < n * row_bytes s t
      → x.buf (x.at + j) ≡ media.content t.shard (t.off + first * row_bytes s t + j)
  unfolding model_read_rows
  model_read_rows-content s t first n x h j lt =
      let nbytes = n * row_bytes s t in
      let off = t.off + first * row_bytes s t in
      let r = read_aligned store media (pos t.shard) (pos off) (pos nbytes) bufcap s.buf in
      let reply = read_aligned-IsReply store media t.shard off nbytes bufcap s.buf ok in
      let p = or_zero r.pad in
      let P : RowsAt → Type 0 = λ y. y.buf (y.at + j) ≡ media.content t.shard (off + j) in
      elim (picked_if (n == 0 || (ltb s.vocab (first + n) || ltb chunk nbytes)) _ _ (some x) h) [
        | inl (bad, g) ↦ absurd cc
        | inr (good, g) ↦ elim (picked_if (not (r.got == nbytes)) _ _ (some x) g) [
          | inl (short, g') ↦ absurd cc
          | inr (all, g') ↦
              let bytes =
                full_lem (media.content t.shard) off nbytes bufcap j s.buf r reply
                  (ground (arith, all)) lt in
              elim (picked_if (p % elemsize t.dtype == 0) _ _ (some x) g') [
                | inl (even, q) ↦
                    let same : record { at = p; buf = r.buf } ≡ x = cc (q) in subst P same bytes
                | inr (odd, q) ↦
                    let moved : ℕ → ℕ = λ i. if ltb i nbytes then r.buf (p + i) else r.buf i in
                    let same : record { at = 0; buf = moved } ≡ x = cc (q) in
                    subst P same (
                      moved_lem r.buf p nbytes (0 + j) (omega (arith, lt))
                      ∙ ap r.buf {x = p + (0 + j)} {y = p + j} (omega arith)
                      ∙ bytes)
              ]
        ]
      ]

  -- The bytes of a row of a matrix.
  abbrev pub row : Stream → Tensor → ℕ → List ℕ
  row s t r = slice (media.content t.shard) (t.off + r * row_bytes s t) (row_bytes s t)

  model_read_rows-row :
      (s : Stream) (t : Tensor) (first n d : ℕ) (x : RowsAt)
      → model_read_rows store media s t first n ≡ some x
      → d < n
      → slice x.buf (x.at + d * row_bytes s t) (row_bytes s t) ≡ row s t (first + d)
  model_read_rows-row s t first n d x h lt =
      let b = row_bytes s t in
      let fits : (d + 1) * b ≤ n * b = mul-le-mul_right b (omega (arith, lt)) in
      slice-same x.buf (media.content t.shard) b (x.at + d * b) (t.off + (first + d) * b) (λ i lt'.
        ap x.buf {x = x.at + d * b + i} {y = x.at + (d * b + i)} (omega arith)
        ∙ model_read_rows-content s t first n x h (d * b + i) (omega (arith, fits, lt'))
        ∙ ap (media.content t.shard) {x = t.off + first * b + (d * b + i)}
            {y = t.off + (first + d) * b + i} (omega arith))

  module _ {L : Type 0} (kernel : List ℕ → L) where
    -- A chunk adds its rows to those that are done.
    put_rows-done :
        (s : Stream) (first n : ℕ) (x : RowsAt) (logits : ℕ → L)
        → model_read_rows store media s s.lm_head first n ≡ some x
        → ((r : ℕ) → r < first → r < s.vocab → logits r ≡ kernel (row s s.lm_head r))
        → (r : ℕ) → r < first + n
        → r < s.vocab
        → put_rows store media kernel x (row_bytes s s.lm_head) first n logits r
          ≡ kernel (row s s.lm_head r)
    put_rows-done s first n x logits h done r lt valid =
        let b = row_bytes s s.lm_head in
        let new = kernel (slice x.buf (x.at + (r - first) * b) b) in
        elim (Bool-cases (leb first r && ltb r (first + n))) [
          | inl now ↦
              ap (λ (t : Bool). if t then new else logits r) now
              ∙ ap kernel (
                  model_read_rows-row s s.lm_head first n (r - first) x h (ground (arith, now))
                  ∙ ap (row s s.lm_head) {x = first + (r - first)} {y = r} (ground (arith, now)))
          | inr before ↦
              ap (λ (t : Bool). if t then new else logits r) before
              ∙ done r (ground (arith, before, lt)) valid
        ]

    project_from-done :
        (k per first : ℕ) (s s' : Stream) (logits out : ℕ → L)
        → 1 ≤ per
        → s.vocab ≤ first + k
        → ((r : ℕ) → r < first → r < s.vocab → logits r ≡ kernel (row s s.lm_head r))
        → project_from store media kernel k per first s logits ≡ some (s', out)
        → (r : ℕ) → r < s.vocab
        → out r ≡ kernel (row s s.lm_head r)
    unfolding project_from
    project_from-done zero per first s s' logits out one enough done h r lt =
        let same : logits ≡ out = cc (h) in
        ap (λ (f : ℕ → L). f r) (sym same) ∙ done r (omega (arith, enough, lt)) lt
    project_from-done (suc k) per first s s' logits out one enough done h r lt =
        let n = if ltb (s.vocab - first) per then s.vocab - first else per in
        let b = row_bytes s s.lm_head in
        elim (picked (ltb first s.vocab) _ _ _ h) [
          | inl (more, g) ↦
              let (x, e, g') =
                chain (model_read_rows store media s s.lm_head first n) _ (s', out) g in
              let next : Stream = record s {
                buf = x.buf;
                lm_head_bytes_read = (s.lm_head_bytes_read + n * b) % 2 ^ 64;
              } in
              project_from-done k per (first + per) next s'
                (put_rows store media kernel x b first n logits) out one
                (omega (arith, one, enough))
                (λ i below valid.
                  put_rows-done s first n x logits e done i (within per first s.vocab i below valid)
                    valid)
                g' r lt
          | inr (end, g) ↦
              let same : logits ≡ out = cc (g) in
              ap (λ (f : ℕ → L). f r) (sym same) ∙ done r (ground (arith, end, lt)) lt
        ]

    -- `k3_model_stream_project_batch` gives every row of the vocabulary the logits that the kernel makes of
    -- the bytes of that row in the checkpoint, however the rows are cut into chunks and wherever they
    -- lie in the buffer.
    pub project-row :
        (s s' : Stream) (logits out : ℕ → L) (n : ℕ)
        → project store media kernel s logits n ≡ some (s', out)
        → (r : ℕ) → r < s.vocab
        → out r ≡ kernel (row s s.lm_head r)
    unfolding project
    project-row s s' logits out n h r lt =
        let per = chunk / row_bytes s s.lm_head in
        elim (picked_if (ltb per 1 || ltb n 1) _ _ _ h) [
          | inl (bad, g) ↦ absurd cc
          | inr (good, g) ↦
              project_from-done s.vocab per 0 s s' logits out (ground (arith, good)) (omega arith)
                (λ i below valid. absurd (omega (arith, below))) g r lt
        ]
