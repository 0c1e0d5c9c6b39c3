-- ===== src/Read/Tests.antt =====
-- Runs of the reads (src/io/k3_st.c) on a shard of 5000 bytes, and the theorems at them.
use kimi_k3_for_me.Prelude.{ℕ, zero, suc, ◌-◌, ◌≤◌, ◌≡◌, ◌≢◌, refl, none, some, min, arith}
use kimi_k3_for_me.Prelude.Int.{pos, negsuc}
use kimi_k3_for_me.Read.{advance, read_aligned, read_tensor}
use kimi_k3_for_me.Read.Promise.{IsReply}
use kimi_k3_for_me.Read.Laws.{read_aligned-IsReply, IsFront, read_tensor-IsFront}
use kimi_k3_for_me.Read.Sample.{byte, some_of, media, media-IsMedia, store}
use kimi_k3_for_me.Read.Full.{Gives, read_tensor-nbytes, read_aligned-nbytes}

abbrev blank : ℕ → ℕ
blank i = 0

-- The window of 4000 .. 5000 ends behind the file.
run_aligned :
    let x = read_aligned store media (pos 0) (pos 4000) (pos 1000) 9192 blank in
    (x.got ≡ 1000) × (x.pad ≡ some 4000) × (x.buf 4999 ≡ byte 4999)
unfolding read_aligned
run_aligned = (refl, refl, refl)

run_refused : (read_aligned store media (pos 0) (negsuc 0) (pos 1000) 9192 blank).got ≡ 0
unfolding read_aligned
run_refused = refl

read_aligned-IsReply_example :
    IsReply byte 4000 1000 9192 blank
      (read_aligned store media (pos 0) (pos 4000) (pos 1000) 9192 blank)
read_aligned-IsReply_example = read_aligned-IsReply store media 0 4000 1000 9192 blank media-IsMedia

read_tensor-IsFront_example :
    IsFront byte 4000 1000 blank (read_tensor store media (pos 0) (pos 4000) (pos 1000) blank)
read_tensor-IsFront_example = read_tensor-IsFront store media 0 4000 1000 blank media-IsMedia

advance-some : (n : ℕ) → 1 ≤ n → advance (pos n) ≢ none
advance-some zero one h = absurd (omega arith)
advance-some (suc n) one h = absurd cc (h)

some_of-Gives : Gives some_of 5000
some_of-Gives o q lt one = advance-some (min q (min 4096 (5000 - o))) (omega arith)

read_tensor-nbytes_example : (read_tensor store media (pos 0) (pos 100) (pos 4900) blank).got ≡ 4900
read_tensor-nbytes_example =
    read_tensor-nbytes store media 0 100 4900 blank media-IsMedia (omega arith) (omega arith) refl
      refl some_of-Gives

read_aligned-nbytes_example :
    (read_aligned store media (pos 0) (pos 4000) (pos 1000) 8192 blank).got ≡ 1000
read_aligned-nbytes_example =
    read_aligned-nbytes store media 0 4000 1000 8192 blank media-IsMedia (omega arith) (omega arith)
      (omega arith) refl refl refl some_of-Gives
