-- ===== src/Read/Loop.antt =====
-- The loop around `pread` (src/io/k3_st.c): the bytes it stores, and where it stops.
use kimi_k3_for_me.Prelude.{
  ℕ, zero, suc, ◌+◌, ◌-◌, ◌<◌, ◌≤◌, ◌≡◌, ◌⊎◌, inl, inr, refl, true, false, none, some, ltb, min,
  arith, Option-cases, Bool-cases, ltb→lt, sym, ap, ◌∙◌, subst, dec_lt,
}
use kimi_k3_for_me.Prelude.Int.{ℤ, pos, negsuc}
use kimi_k3_for_me.Read.{advance, overwrite, request, read_loop}

-- `pread` returns no more than was asked for.
abbrev pub IsPread : (ℕ → ℕ → ℤ) → Type 0
IsPread pread = (o q n : ℕ) → pread o q ≡ pos n → n ≤ q

advance-pos : (x : ℤ) (r : ℕ) → advance x ≡ some r → (x ≡ pos r) × (1 ≤ r)
advance-pos (pos zero) r h = absurd cc
advance-pos (pos (suc n)) r h = ground arith
advance-pos (negsuc n) r h = absurd cc

pub overwrite-out :
    (buf : ℕ → ℕ) (at n : ℕ) (bytes : ℕ → ℕ) (i : ℕ)
    → (i < at) ⊎ (at + n ≤ i)
    → overwrite buf at n bytes i ≡ buf i
overwrite-out buf at n bytes i h = ground arith

pub overwrite-in :
    (buf : ℕ → ℕ) (at n : ℕ) (bytes : ℕ → ℕ) (i : ℕ)
    → at ≤ i
    → i < at + n
    → overwrite buf at n bytes i ≡ bytes (i - at)
overwrite-in buf at n bytes i lo hi = ground arith

-- A buffer holds the first `got` bytes of a range, and past `len` what it held before.
pub record Holds (file : ℕ → ℕ) (off got len : ℕ) (old buf : ℕ → ℕ) : Type 0 where
  pub bytes : (i : ℕ) → i < got → buf i ≡ file (off + i)
  pub beyond : (i : ℕ) → len ≤ i → buf i ≡ old i

module _ (file : ℕ → ℕ) (pread : ℕ → ℕ → ℤ) (off len cap : ℕ) where
  pub record Step (got r : ℕ) : Type 0 where
    pub some_bytes : 1 ≤ r
    pub inside : got + r ≤ len

  advance-Step :
      (got r : ℕ)
      → IsPread pread
      → got < len
      → advance (pread (off + got) (request file pread off len cap got)) ≡ some r
      → Step got r
  advance-Step got r ok lt h =
      let (p, one) = advance-pos (pread (off + got) (min (len - got) cap)) r h in
      let most = ok (off + got) (min (len - got) cap) r p in
      record { some_bytes = one; inside = ground arith }

  overwrite-Holds :
      (got r : ℕ) (old buf : ℕ → ℕ)
      → Step got r
      → Holds file off got len old buf
      → Holds file off (got + r) len old (overwrite buf got r (λ i. file (off + (got + i))))
  overwrite-Holds got r old buf st w = record {
    bytes = λ i lt. elim (dec_lt i got) [
      | yes below ↦ overwrite-out buf got r new i (inl below) ∙ w.bytes i below
      | no past ↦
          overwrite-in buf got r new i (omega arith) lt
          ∙ ap (λ (x : ℕ). file (off + x)) (omega arith)
    ];
    beyond = λ i le. overwrite-out buf got r new i (inr (omega arith)) ∙ w.beyond i le;
  }
    where
      open st use {inside}

      new : ℕ → ℕ
      new i = file (off + (got + i))

  -- One turn of the loop.
  loop-full :
      (n got : ℕ) (buf : ℕ → ℕ)
      → ltb got len ≡ false
      → read_loop file pread off len cap (suc n) got buf ≡ (got, buf)
  unfolding read_loop
  loop-full n got buf h = rw (h, read_loop) refl

  loop-stop :
      (n got : ℕ) (buf : ℕ → ℕ)
      → ltb got len ≡ true
      → advance (pread (off + got) (request file pread off len cap got)) ≡ none
      → read_loop file pread off len cap (suc n) got buf ≡ (got, buf)
  unfolding read_loop
  loop-stop n got buf h e = ground arith

  loop-next :
      (n got r : ℕ) (buf : ℕ → ℕ)
      → ltb got len ≡ true
      → advance (pread (off + got) (request file pread off len cap got)) ≡ some r
      → read_loop file pread off len cap (suc n) got buf
        ≡ read_loop file pread off len cap n
            (got + r)
            (overwrite buf got r (λ i. file (off + (got + i))))
  unfolding read_loop
  loop-next n got r buf h e = ground arith

  -- The loop keeps to the range, and what it counts is in the buffer.
  pub read_loop-Holds :
      (n got : ℕ) (old buf : ℕ → ℕ)
      → IsPread pread
      → got ≤ len
      → Holds file off got len old buf
      → let (g, out) = read_loop file pread off len cap n got buf in
        (g ≤ len) × Holds file off g len old out
  unfolding read_loop
  read_loop-Holds zero got old buf ok le w = (le, w)
  read_loop-Holds (suc n) got old buf ok le w =
      let P : ℕ × (ℕ → ℕ) → Type 0 = λ x. (x.0 ≤ len) × Holds file off x.0 len old x.1 in
      elim (Bool-cases (ltb got len)) [
        | inr full ↦ subst P (sym (loop-full n got buf full)) (le, w)
        | inl more ↦
            elim (Option-cases (advance (pread (off + got) (request file pread off len cap got)))) [
              | inl e ↦ subst P (sym (loop-stop n got buf more e)) (le, w)
              | inr (r, e) ↦
                  let st = advance-Step got r ok (ltb→lt got len more) e in
                  subst P (sym (loop-next n got r buf more e)) (
                    read_loop-Holds n (got + r) old
                      (overwrite buf got r (λ i. file (off + (got + i)))) ok st.inside
                      (overwrite-Holds got r old buf st w))
            ]
      ]

  -- With a round for each byte that is missing the loop ends by itself: all of the range has come,
  -- or a `pread` at the end of what came returned nothing.
  pub read_loop-ends :
      (n got : ℕ) (buf : ℕ → ℕ)
      → IsPread pread
      → got ≤ len
      → len ≤ got + n
      → let (g, out) = read_loop file pread off len cap n got buf in
        (g ≡ len) ⊎ (advance (pread (off + g) (request file pread off len cap g)) ≡ none)
  unfolding read_loop
  read_loop-ends zero got buf ok le enough = inl (omega arith)
  read_loop-ends (suc n) got buf ok le enough =
      let P : ℕ × (ℕ → ℕ) → Type 0 = λ x.
        (x.0 ≡ len) ⊎ (advance (pread (off + x.0) (request file pread off len cap x.0)) ≡ none) in
      elim (Bool-cases (ltb got len)) [
        | inr full ↦ subst P (sym (loop-full n got buf full)) (inl (ground arith))
        | inl more ↦
            elim (Option-cases (advance (pread (off + got) (request file pread off len cap got)))) [
              | inl e ↦ subst P (sym (loop-stop n got buf more e)) (inr e)
              | inr (r, e) ↦
                  let st = advance-Step got r ok (ltb→lt got len more) e in
                  let one = st.some_bytes in
                  subst P (sym (loop-next n got r buf more e)) (
                    read_loop-ends n (got + r) (overwrite buf got r (λ i. file (off + (got + i))))
                      ok st.inside (omega arith))
            ]
      ]
