-- ===== src/Read/Promise.antt =====
-- What a read of src/io/k3_st.c has to deliver, and the two forms of a reply.
use kimi_k3_for_me.Prelude.{
  ℕ, ◌+◌, ◌<◌, ◌≤◌, ◌≡◌, inr, refl, Bool, none, some, arith, ap, ◌∙◌, subst,
}
use kimi_k3_for_me.Prelude.Int.{ℤ, pos_part}
use kimi_k3_for_me.Read.{Media, Fetched, Reply, overwrite, payload, align}
use kimi_k3_for_me.Read.Loop.{IsPread, Holds, overwrite-in, overwrite-out}

-- A reader returns the count of bytes that it read from the start of the range, and they are right.
pub record IsFetch (file : ℕ → ℕ) (off len : ℕ) (f : Fetched) : Type 0 where
  pub most : f.count ≤ len
  pub right : (i : ℕ) → i < f.count → f.bytes i ≡ file (off + i)

-- What is relied on: `pread` and the readers of ranges keep to what they were asked for.
pub record IsMedia (m : Media) : Type 0 where
  pub pread : (shard : ℕ) (direct : Bool) → IsPread (m.pread shard direct)
  pub zread :
      (shard : ℕ) (n : ℤ) (off : ℕ)
      → IsFetch (m.content shard) off (pos_part n) (m.zread shard n off)
  pub remote_read : (shard off n : ℕ) → IsFetch (m.content shard) off n (m.remote_read shard off n)

-- A reply to a request for `nbytes` bytes of a file from `off` on, in a buffer of size `bufcap`.
pub record IsReply (file : ℕ → ℕ) (off nbytes bufcap : ℕ) (buf : ℕ → ℕ) (x : Reply) : Type 0 where
  pub most : x.got ≤ nbytes
  pub small : (p : ℕ) → x.pad ≡ some p → p < align
  pub bytes : (p i : ℕ) → x.pad ≡ some p → i < x.got → x.buf (p + i) ≡ file (off + i)
  pub unset : x.pad ≡ none → x.got ≡ 0
  pub kept : (i : ℕ) → bufcap ≤ i → x.buf i ≡ buf i

pub refused-IsReply :
    (file : ℕ → ℕ) (off nbytes bufcap : ℕ) (buf : ℕ → ℕ)
    → IsReply file off nbytes bufcap buf (record { got = 0; pad = none; buf = buf })
refused-IsReply file off nbytes bufcap buf = record {
  most = omega arith;
  small = λ p (h : none ≡ some p). absurd cc;
  bytes = λ p i h lt. absurd (omega arith);
  unset = λ h. refl;
  kept = λ i le. refl;
}

-- A window that starts `pad` bytes before the range.
pub window-IsReply :
    (file : ℕ → ℕ) (off lo pad nbytes len bufcap count : ℕ) (buf out : ℕ → ℕ)
    → lo + pad ≡ off
    → pad < align
    → len ≤ bufcap
    → Holds file lo count len buf out
    → IsReply file off nbytes bufcap buf
        (record { got = payload count pad nbytes; pad = some pad; buf = out })
window-IsReply file off lo pad nbytes len bufcap count buf out at small fits w = record {
  most = ground arith;
  small = λ p (h : some pad ≡ some p). let q : pad ≡ p = cc (h) in omega arith;
  bytes = λ p i (h : some pad ≡ some p) lt.
      let q : pad ≡ p = cc (h) in
      let inside : pad + i < count = ground arith in
      subst (λ (x : ℕ). out (x + i) ≡ file (off + i)) q
        (w.bytes (pad + i) inside ∙ ap file (omega arith));
  unset = λ (h : some pad ≡ none). absurd cc;
  kept = λ i le. w.beyond i (omega arith);
}

pub fetch-Holds :
    (file : ℕ → ℕ) (off len : ℕ) (buf : ℕ → ℕ) (f : Fetched)
    → IsFetch file off len f
    → Holds file off f.count len buf (overwrite buf 0 len f.bytes)
fetch-Holds file off len buf f w = record {
  bytes = λ i lt.
      let most = w.most in
      overwrite-in buf 0 len f.bytes i (omega arith) (omega arith)
      ∙ (ap f.bytes (omega arith) ∙ w.right i lt);
  beyond = λ i le. overwrite-out buf 0 len f.bytes i (inr (omega arith));
}

-- A range that is read as it is.
pub exact-IsReply :
    (file : ℕ → ℕ) (off nbytes bufcap count : ℕ) (buf out : ℕ → ℕ)
    → count ≤ nbytes
    → nbytes ≤ bufcap
    → Holds file off count nbytes buf out
    → IsReply file off nbytes bufcap buf (record { got = count; pad = some 0; buf = out })
exact-IsReply file off nbytes bufcap count buf out most fits w = record {
  most = most;
  small = λ p (h : some 0 ≡ some p). let q : 0 ≡ p = cc (h) in omega arith;
  bytes = λ p i (h : some 0 ≡ some p) lt.
      let q : 0 ≡ p = cc (h) in
      subst (λ (x : ℕ). out (x + i) ≡ file (off + i)) q (ap out (omega arith) ∙ w.bytes i lt);
  unset = λ (h : some 0 ≡ none). absurd cc;
  kept = λ i le. w.beyond i (omega arith);
}

pub nothing-Holds : (file : ℕ → ℕ) (off len : ℕ) (buf : ℕ → ℕ) → Holds file off 0 len buf buf
nothing-Holds file off len buf = record {
  bytes = λ i lt. absurd (omega arith);
  beyond = λ i le. refl;
}
