-- ===== src/Load/Bytes/Laws.antt =====
-- A load of an expert (src/io/k3_load.c) that returns its size has put all of it in the buffer.
use kimi_k3_for_me.Prelude.{
  ℕ, ◌+◌, ◌<◌, ◌≤◌, ◌≡◌, refl, Bool, List, [], ◌∷◌, Option, leb, arith, All, inl, inr, if-elim, ap,
  ◌∙◌,
}
use kimi_k3_for_me.Index.Tensor.{Tensor}
use kimi_k3_for_me.Prelude.Int.{pos}
use kimi_k3_for_me.Read.{Store, Media, read_tensor}
use kimi_k3_for_me.Read.Promise.{IsMedia}
use kimi_k3_for_me.Read.Laws.{read_tensor-IsReply, read_tensor-pad}
use kimi_k3_for_me.Load.Geometry.{QMat, ExpertRef}
use kimi_k3_for_me.Load.Reference.{Pair}
use kimi_k3_for_me.Load.Reference.Laws.{IsReference, IsMatrix}
use kimi_k3_for_me.Load.Bytes.{embed, read_into, load_matrices}

module _ (content : ℕ → ℕ → ℕ) where
  -- A buffer has the bytes of a tensor from `at` on.
  pub record Has (buf : ℕ → ℕ) (at : ℕ) (t : Tensor) : Type 0 where
    pub bytes : (j : ℕ) → j < t.nbytes → buf (at + j) ≡ content t.shard (t.off + j)

  -- The bytes of one matrix are in the buffer, behind `pad`.
  abbrev pub HasMatrix : (ℕ → ℕ) → ℕ → Pair → QMat → Type 0
  HasMatrix buf pad p q = Has buf (pad + q.p_off) p.pk × Has buf (pad + q.s_off) p.sc

  -- The buffer has the six tensors of the expert of a reference, at the reference's offsets.
  abbrev pub Complete : (ℕ → ℕ → ℕ → Bool → Option Tensor) → ExpertRef → ℕ → (ℕ → ℕ) → Type 0
  Complete find r pad buf =
      (a b c : Pair)
      → IsReference (find r.layer r.expert) r.layer r.expert r a b c
      → HasMatrix buf pad a r.m0 × HasMatrix buf pad b r.m1 × HasMatrix buf pad c r.m2

module _ (s : Store) (m : Media) (ok : IsMedia m) where
  read_into-most : (t : Tensor) (at : ℕ) (buf : ℕ → ℕ) → (read_into s m t at buf).0 ≤ t.nbytes
  unfolding read_into
  read_into-most t at buf =
      let w = read_tensor-IsReply s m t.shard t.off t.nbytes (λ i. buf (at + i)) ok in w.most

  embed-behind : (buf out : ℕ → ℕ) (at j : ℕ) → embed buf at out (at + j) ≡ out j
  embed-behind buf out at j =
      if-elim (λ x. x ≡ out j) (leb at (at + j)) _ _ (λ h. ap out (omega arith))
        (λ h. absurd ground arith)

  embed-before : (buf out : ℕ → ℕ) (at i : ℕ) → i < at → embed buf at out i ≡ buf i
  embed-before buf out at i lt = ground arith

  read_into-Has :
      (t : Tensor) (at : ℕ) (buf : ℕ → ℕ)
      → (read_into s m t at buf).0 ≡ t.nbytes
      → Has m.content (read_into s m t at buf).1 at t
  unfolding read_into
  read_into-Has t at buf full =
      let x = read_tensor s m (pos t.shard) (pos t.off) (pos t.nbytes) (λ i. buf (at + i)) in
      let w = read_tensor-IsReply s m t.shard t.off t.nbytes (λ i. buf (at + i)) ok in
      record {
        bytes = λ j lt.
            embed-behind buf x.buf at j
            ∙ elim (read_tensor-pad s m t.shard t.off t.nbytes (λ i. buf (at + i))) [
              | inl none_set ↦ let e = w.unset none_set in absurd (omega arith)
              | inr zero_set ↦ ap x.buf (omega arith) ∙ w.bytes 0 j zero_set (omega arith)
            ];
      }

  read_into-kept :
      (t u : Tensor) (at to : ℕ) (buf : ℕ → ℕ)
      → at + t.nbytes ≤ to
      → Has m.content buf at t
      → Has m.content (read_into s m u to buf).1 at t
  unfolding read_into
  read_into-kept t u at to buf le w =
      let x = read_tensor s m (pos u.shard) (pos u.off) (pos u.nbytes) (λ i. buf (to + i)) in
      record { bytes = λ j lt. embed-before buf x.buf to (at + j) (omega arith) ∙ w.bytes j lt }

  -- One round of the loop.
  pub load_matrices-next :
      (find : ℕ → Bool → Option Tensor) (i : ℕ) (q : QMat) (qs : List QMat) (got : ℕ) (buf : ℕ → ℕ)
      (p : Pair)
      → IsMatrix find i p
      → let x = read_into s m p.pk q.p_off buf in
        let y = read_into s m p.sc q.s_off x.1 in
        load_matrices s m find i (q ∷ qs) got buf
        ≡ load_matrices s m find (i + 1) qs (got + x.0 + y.0) y.1
  unfolding load_matrices
  load_matrices-next find i q qs got buf p w = rw (w.found_pk, w.found_sc, load_matrices) refl

  -- Reads one after the other, each of a tensor to its place.
  unfoldable pub read_list : List (Tensor × ℕ) → ℕ → (ℕ → ℕ) → ℕ × (ℕ → ℕ)
  read_list [] got buf = (got, buf)
  read_list ((t, at) ∷ ts) got buf = let x = read_into s m t at buf in read_list ts (got + x.0) x.1

  abbrev pub size : List (Tensor × ℕ) → ℕ
  size [] = 0
  size ((t, at) ∷ ts) = t.nbytes + size ts

  -- Every place is behind those of the reads before it.
  abbrev pub ArePacked : List (Tensor × ℕ) → Type 0
  ArePacked [] = Unit
  ArePacked ((t, at) ∷ ts) = All (λ u. at + t.nbytes ≤ u.1) ts × ArePacked ts

  read_list-most :
      (ts : List (Tensor × ℕ)) (got : ℕ) (buf : ℕ → ℕ) → (read_list ts got buf).0 ≤ got + size ts
  unfolding read_list
  read_list-most [] got buf = omega arith
  read_list-most ((t, at) ∷ ts) got buf =
      let x = read_into s m t at buf in
      omega (arith, read_into-most t at buf, read_list-most ts (got + x.0) x.1)

  read_list-kept :
      (ts : List (Tensor × ℕ)) (got : ℕ) (buf : ℕ → ℕ) (t : Tensor) (at : ℕ)
      → All (λ u. at + t.nbytes ≤ u.1) ts
      → Has m.content buf at t
      → Has m.content (read_list ts got buf).1 at t
  unfolding read_list
  read_list-kept [] got buf t at le w = w
  read_list-kept ((u, to) ∷ ts) got buf t at le w =
      let x = read_into s m u to buf in
      read_list-kept ts (got + x.0) x.1 t at le.1 (read_into-kept t u at to buf le.0 w)

  pub read_list-Has :
      (ts : List (Tensor × ℕ)) (got : ℕ) (buf : ℕ → ℕ)
      → ArePacked ts
      → (read_list ts got buf).0 ≡ got + size ts
      → All (λ u. Has m.content (read_list ts got buf).1 u.1 u.0) ts
  unfolding read_list
  read_list-Has [] got buf packed full = tt
  read_list-Has ((t, at) ∷ ts) got buf packed full =
      let x = read_into s m t at buf in
      let one = read_into-most t at buf in
      let rest = read_list-most ts (got + x.0) x.1 in
      let here : x.0 ≡ t.nbytes = omega arith in
      (
        read_list-kept ts (got + x.0) x.1 t at packed.0 (read_into-Has t at buf here),
        read_list-Has ts (got + x.0) x.1 packed.1 (omega arith),
      )
