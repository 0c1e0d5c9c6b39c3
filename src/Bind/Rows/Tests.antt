-- ===== src/Bind/Rows/Tests.antt =====
-- A matrix of three rows at an odd place of a shard, for the streams of src/model/k3_bind.c.
use kimi_k3_for_me.Prelude.{
  ℕ, ◌≡◌, refl, List, [], ◌∷◌, Option, none, some, ◌==◌, if◌then◌else◌, arith,
}
use kimi_k3_for_me.Prelude.Int.{pos, negsuc}
use kimi_k3_for_me.Index.Tensor.{Tensor, bf16}
use kimi_k3_for_me.Read.Sample.{byte, media, media-IsMedia, store}
use kimi_k3_for_me.Bind.Requests.{Weight}
use kimi_k3_for_me.Bind.Rows.{Stream, stream_init, embed_row, project_from, project, slice}
use kimi_k3_for_me.Bind.Rows.Laws.{row, project-row}

-- RowsAt of two elements, from byte 101 on.
abbrev matrix : Tensor
matrix = record {
  name = [];
  shard = 0;
  dtype = bf16;
  ndim = 2;
  shape = λ i. if i == 0 then 3 else 2;
  off = 101;
  nbytes = 12;
}

abbrev find : Weight → Option Tensor
find w = some matrix

abbrev blank : ℕ → ℕ
blank i = 0

abbrev stream : Stream
stream = record {
  hidden = 2;
  vocab = 3;
  embed = matrix;
  lm_head = matrix;
  embed_bytes_read = 0;
  lm_head_bytes_read = 0;
  buf = blank;
}

run_stream_init : (stream_init find 2 3 blank ≡ some stream) × (stream_init find 3 2 blank ≡ none)
unfolding stream_init
run_stream_init = (refl, refl)

-- The bytes of a row themselves.
abbrev kernel : List ℕ → List ℕ
kernel bytes = bytes

abbrev logits : ℕ → List ℕ
logits r = []

abbrev got : Option (Stream × (ℕ → List ℕ)) → Stream × (ℕ → List ℕ)
got none = (stream, logits)
got (some x) = x

abbrev done : Stream × (ℕ → List ℕ)
done = got (project store media kernel stream logits 1)

run_project : project store media kernel stream logits 1 ≡ some (done.0, done.1)
unfolding project
run_project = refl

-- The last row, and the bytes that were read.
run_row :
    (done.1 2 ≡ byte 109 ∷ byte 110 ∷ byte 111 ∷ byte 112 ∷ []) × (done.0.lm_head_bytes_read ≡ 12)
unfolding project slice
run_row = (refl, refl)

-- The same in chunks of two rows.
run_chunks :
    (got (project_from store media kernel 3 2 0 stream logits)).1 2
    ≡ byte 109 ∷ byte 110 ∷ byte 111 ∷ byte 112 ∷ []
unfolding project_from slice
run_chunks = refl

run_embed_row :
    (embed_row store media kernel stream (pos 3) ≡ none)
    × (embed_row store media kernel stream (negsuc 0) ≡ none)
unfolding embed_row
run_embed_row = (refl, refl)

project-row_example : done.1 2 ≡ kernel (row store media media-IsMedia stream matrix 2)
project-row_example =
    project-row store media media-IsMedia kernel stream done.0 logits done.1 1 run_project 2
      (omega arith)
