-- ===== src/Header/Extent.antt =====
-- Where the extents end that `scan_shard` of src/io/k3_st.c checks in `int64_t`.
use kimi_k3_for_me.Prelude.{
  ℕ, ◌+◌, ◌-◌, ◌%◌, ◌^◌, ◌≡◌, ◌⊎◌, ltb, Bool-cases, inl, inr, refl, sym, ap, ◌∙◌, Bool, true, false,
  arith,
}
use kimi_k3_for_me.Prelude.Int64.{bits, of_bits, int64, int64-pos, of_bits-pos, bits-add}
use kimi_k3_for_me.Prelude.Int.{ℤ, pos, negsuc, ◌+ℤ◌, ◌-ℤ◌, ltb_ℤ, span-end}

-- The guards of `k3_st_read` on an extent: a negative one, or one that does not end within `int64_t`.
abbrev pub is_refused : ℤ → ℤ → Bool
is_refused (pos off) (pos nbytes) = ltb (2 ^ 63 - 1) (off + nbytes)
is_refused (pos off) (negsuc n) = true
is_refused (negsuc n) nbytes = true

-- A span that is checked in `int64_t` ends inside, or is refused.
pub inside_lem :
    (base fsize : ℕ) (a b off n : ℤ)
    → int64 (pos base +ℤ a) ≡ off
    → int64 (b -ℤ a) ≡ n
    → ltb_ℤ (pos fsize) (int64 (pos base +ℤ b)) ≡ false
    → (is_refused off n ≡ true) ⊎ (ltb_ℤ (pos fsize) (off +ℤ n) ≡ false)
inside_lem base fsize a b (pos o) (pos n) p q h = elim (Bool-cases (ltb (2 ^ 63 - 1) (o + n))) [
  | inl over ↦ inl over
  | inr small ↦
      let (e, _) = of_bits-pos (bits (pos base +ℤ a)) o p in
      let (e', _) = of_bits-pos (bits (b -ℤ a)) n q in
      let sum : bits (pos base +ℤ b) ≡ (o + n) % 2 ^ 64 =
        ap bits (sym (span-end base a b))
        ∙ bits-add (pos base +ℤ a) (b -ℤ a)
        ∙ ap (λ x. (x + bits (b -ℤ a)) % 2 ^ 64) e
        ∙ ap (λ x. (o + x) % 2 ^ 64) e' in
      let end : int64 (pos base +ℤ b) ≡ pos (o + n) =
        ap of_bits sum ∙ int64-pos (o + n) (ground (arith, small)) in
      inr (ap (ltb_ℤ (pos fsize)) (sym end) ∙ h)
]
inside_lem base fsize a b (pos o) (negsuc n) p q h = inl refl
inside_lem base fsize a b (negsuc o) n p q h = inl refl
