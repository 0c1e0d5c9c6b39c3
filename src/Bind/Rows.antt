-- ===== src/Bind/Rows.antt =====
-- The streamed matrices of the model, src/model/k3_bind.c: `model_matrix`, `k3_model_stream_init`,
-- `model_read_rows`, `k3_model_stream_embed_row` and `k3_model_stream_project_batch`. What the kernels
-- make of the bytes of a row is a parameter. The buffer is aligned, so that its offsets are as aligned
-- as their addresses.
pub mod Laws
mod Tests
use kimi_k3_for_me.Prelude.{
  ℕ, zero, suc, ◌+◌, ◌-◌, ◌*◌, ◌/◌, ◌%◌, ◌^◌, Bool, true, false, not, ◌&&◌, ◌||◌, List, [], ◌∷◌,
  Option, none, some, ltb, leb, ◌==◌, if◌then◌else◌,
}
use kimi_k3_for_me.Prelude.Int.{ℤ, pos, negsuc}
use kimi_k3_for_me.Index.Tensor.{Tensor, Dtype, bf16, f32, elemsize}
use kimi_k3_for_me.Read.{Store, Media, Reply, align, read_aligned}
use kimi_k3_for_me.Bind.{is_bf16}
use kimi_k3_for_me.Bind.Memory.{is_f32}
use kimi_k3_for_me.Bind.Requests.{Weight, embed, lm_head}

-- K3_MODEL_STREAM_CHUNK, and `bufcap`.
abbrev pub chunk : ℕ
chunk = 4 * 2 ^ 20

abbrev pub bufcap : ℕ
bufcap = chunk + 2 * align

-- `K3ModelStream`.
pub record Stream : Type 0 where
  pub hidden : ℕ
  pub vocab : ℕ
  pub embed : Tensor
  pub lm_head : Tensor
  pub embed_bytes_read : ℕ
  pub lm_head_bytes_read : ℕ
  pub buf : ℕ → ℕ

unfoldable pub model_matrix : (Weight → Option Tensor) → Weight → ℕ → ℕ → Option Tensor
model_matrix find w rows cols = elim (find w) [
  | none ↦ none
  | some t ↦
      if not (t.ndim == 2) || (not (t.shape 0 == rows) || not (t.shape 1 == cols))
      then none
      else (if is_bf16 t.dtype || is_f32 t.dtype then some t else none)
]

-- `k3_model_stream_init` with the buffer that was allocated.
unfoldable pub stream_init : (Weight → Option Tensor) → ℕ → ℕ → (ℕ → ℕ) → Option Stream
unfolding model_matrix
stream_init find hidden vocab buf = elim (model_matrix find embed vocab hidden) [
  | none ↦ none
  | some e ↦ elim (model_matrix find lm_head vocab hidden) [
    | none ↦ none
    | some l ↦ some (record {
      hidden = hidden;
      vocab = vocab;
      embed = e;
      lm_head = l;
      embed_bytes_read = 0;
      lm_head_bytes_read = 0;
      buf = buf;
    })
  ]
]

-- Rows in the buffer, from `at` on.
pub record RowsAt : Type 0 where
  pub at : ℕ
  pub buf : ℕ → ℕ

abbrev pub or_zero : Option ℕ → ℕ
or_zero none = 0
or_zero (some p) = p

abbrev pub row_bytes : Stream → Tensor → ℕ
row_bytes s t = s.hidden * elemsize t.dtype

-- `n` bytes from a place on.
unfoldable pub slice : (ℕ → ℕ) → ℕ → ℕ → List ℕ
slice f start zero = []
slice f start (suc n) = f start ∷ slice f (suc start) n

module _ (store : Store) (media : Media) where
  -- `model_read_rows`; what a failed read leaves in the buffer is not used.
  unfoldable pub model_read_rows : Stream → Tensor → ℕ → ℕ → Option RowsAt
  unfolding read_aligned
  model_read_rows s t first n =
      let nbytes = n * row_bytes s t in
      let x =
        read_aligned store media (pos t.shard) (pos (t.off + first * row_bytes s t)) (pos nbytes)
          bufcap s.buf in
      let p = or_zero x.pad in
      if n == 0 || (ltb s.vocab (first + n) || ltb chunk nbytes)
      then none
      else (if not (x.got == nbytes)
          then none
          else (if p % elemsize t.dtype == 0
              then some (record { at = p; buf = x.buf })
              else some
                  (record { at = 0; buf = λ i. if ltb i nbytes then x.buf (p + i) else x.buf i })))

  -- `L` is what the kernels make of a row.
  module _ {L : Type 0} (kernel : List ℕ → L) where
    -- `k3_model_stream_embed_row`.
    unfoldable pub embed_row : Stream → ℤ → Option (Stream × L)
    unfolding model_read_rows slice
    embed_row s (negsuc r) = none
    embed_row s (pos r) = if leb s.vocab r then none else elim (model_read_rows s s.embed r 1) [
      | none ↦ none
      | some x ↦ some (
        record s {
          buf = x.buf;
          embed_bytes_read = (s.embed_bytes_read + row_bytes s s.embed) % 2 ^ 64;
        },
        kernel (slice x.buf x.at (row_bytes s s.embed)),
      )
    ]

    -- The rows of a chunk, by the kernel.
    abbrev pub put_rows : RowsAt → ℕ → ℕ → ℕ → (ℕ → L) → ℕ → L
    put_rows x bytes first n logits r =
        if leb first r && ltb r (first + n)
        then kernel (slice x.buf (x.at + (r - first) * bytes) bytes)
        else logits r

    -- The loop of `k3_model_stream_project_batch`, with a round for each row.
    unfoldable pub project_from : ℕ → ℕ → ℕ → Stream → (ℕ → L) → Option (Stream × (ℕ → L))
    unfolding model_read_rows slice
    project_from zero per first s logits = some (s, logits)
    project_from (suc k) per first s logits =
        let n = if ltb (s.vocab - first) per then s.vocab - first else per in
        let bytes = row_bytes s s.lm_head in
        elim (ltb first s.vocab) [
          | false ↦ some (s, logits)
          | true ↦ elim (model_read_rows s s.lm_head first n) [
            | none ↦ none
            | some x ↦
                project_from k per (first + per)
                  (record s {
                    buf = x.buf;
                    lm_head_bytes_read = (s.lm_head_bytes_read + n * bytes) % 2 ^ 64;
                  })
                  (put_rows x bytes first n logits)
          ]
        ]

    -- `k3_model_stream_project_batch` for `n` positions.
    unfoldable pub project : Stream → (ℕ → L) → ℕ → Option (Stream × (ℕ → L))
    unfolding project_from
    project s logits n =
        let per = chunk / row_bytes s s.lm_head in
        if ltb per 1 || ltb n 1 then none else project_from s.vocab per 0 s logits
