-- ===== src/Bind/Memory/Laws.antt =====
-- `k3_bind_layer_mem` of src/model/k3_bind.c as a whole: what it returns binds a layer.
use kimi_k3_for_me.Prelude.{
  ◌⊎◌, ℕ, ◌*◌, ◌/◌, ◌≤◌, ◌≡◌, inl, inr, refl, sym, ap, ◌∙◌, Bool, true, false, not, ◌&&◌, List, [],
  ◌∷◌, ◌++◌, Option, some, ltb, ◌==◌, arith, subst, All,
}
use native.Mathlib.Nat.{mul-le-mul_right}
use native.Mathlib.Omega.{div_any}
use mathlib.Core.List.{append_assoc, append-nil}
use kimi_k3_for_me.Header.Rest.{chain, picked_if}
use kimi_k3_for_me.Index.Tensor.{Dtype, unknown, u8, bf16, f16, f32, i8r}
use kimi_k3_for_me.Bind.Requests.{Weight, Req, Plan, Sizes, layer_requests, plan_of}
use kimi_k3_for_me.Bind.{is_bf16}
use kimi_k3_for_me.Bind.Resolve.{IsLaid}
use kimi_k3_for_me.Bind.Wide.{plan_of-requests, length-layer_requests}
use kimi_k3_for_me.Bind.Memory.{
  Extent, is_f32, is_i8r, stored_size, run, widen, Mem, bind_at, bind_plain, bind_one, bind_all,
  bind_mem,
}
use kimi_k3_for_me.Bind.Memory.Tags.{IsFloat, IsInt8, IsTagged, bind_all-IsTagged}
use kimi_k3_for_me.Bind.Memory.Sources.{
  copies, AreBound, IsNative, IsMem, bind_copy-IsMem, bind_run-IsMem, bind_rows-IsMem,
}

quotient_le : (a b n : ℕ) → n ≤ a / b → n * b ≤ a
quotient_le a b n h = omega (arith, mul-le-mul_right b h, div_any a b)

stored_size-bf16 : (d : Dtype) → is_bf16 d ≡ true → stored_size d ≡ 2
stored_size-bf16 bf16 h = refl
stored_size-bf16 unknown h = absurd cc
stored_size-bf16 u8 h = absurd cc
stored_size-bf16 f16 h = absurd cc
stored_size-bf16 f32 h = absurd cc
stored_size-bf16 i8r h = absurd cc

all_narrowed : (a b : Bool) → (not a && not b) ≡ false → b ≡ false → a ≡ true
all_narrowed true b h p = refl
all_narrowed false b h p = absurd (ground (arith, h, p))

module _ (find : Weight → Option Extent) (cap : ℕ) where
  -- An extent that is BF16 makes its request native.
  found-IsNative :
      (q : Req) (e : Extent) → find q.weight ≡ some e → is_bf16 e.dtype ≡ true → IsNative find q
  found-IsNative q e f b x g nar =
      let same : e ≡ x = cc (f, g) in subst (λ (y : Extent). is_bf16 y.dtype ≡ true) same b

  bind_plain-IsMem :
      (q : Req) (e : Extent) (m m' : Mem) (done : List Req)
      → IsMem find cap m done
      → find q.weight ≡ some e
      → bind_plain cap q e m ≡ some m'
      → IsMem find cap m' (done ++ (q ∷ []))
  unfolding bind_plain
  bind_plain-IsMem q e m m' done h f g =
      let have = e.nbytes / stored_size e.dtype in
      elim (picked_if (not (have == q.want)) _ _ (some m') g) [
        | inl (other, r) ↦ absurd cc
        | inr (equal, r) ↦ elim (picked_if (ltb have q.take) _ _ (some m') r) [
          | inl (long, r') ↦ absurd cc
          | inr (fits, r') ↦
              let inside =
                quotient_le e.nbytes (stored_size e.dtype) q.want (ground (arith, equal)) in
              let front =
                quotient_le e.nbytes (stored_size e.dtype) q.take (ground (arith, fits)) in
              elim (picked_if (q.narrow && is_bf16 e.dtype) _ _ (some m') r') [
                | inl (raw, s) ↦
                    let same : bind_at q.weight (run e.off) m ≡ m' = cc (s) in
                    let b : is_bf16 e.dtype ≡ true = ground (arith, raw) in
                    subst (λ x. IsMem find cap x (done ++ (q ∷ []))) same
                      (bind_run-IsMem find cap q e m done m.narrowed_all m.i8_seen h f
                        (refl, inr (inside, inr (b, ground (arith, raw))))
                        (λ p i. (p, i, found-IsNative q e f b)))
                | inr (copied, s) ↦ elim (picked_if (is_f32 e.dtype) _ _ (some m') s) [
                  | inl (float, t) ↦
                      let same : record (bind_at q.weight (run e.off) m) {
                        narrowed_all = m.narrowed_all && not q.narrow;
                      }
                          ≡ m' =
                        cc (t) in
                      subst (λ x. IsMem find cap x (done ++ (q ∷ []))) same
                        (bind_run-IsMem find cap q e m done (m.narrowed_all && not q.narrow)
                          m.i8_seen h f (refl, inr (inside, inl float))
                          (λ p i.
                            (ground (arith, p), i, λ x fx nar. absurd (ground (arith, p, nar)))))
                  | inr (short, t) ↦ elim (picked_if (is_bf16 e.dtype) _ _ (some m') t) [
                    | inl (b, t') ↦
                        bind_copy-IsMem find cap q e (λ w. widen w q.take) m m' done h f (λ w. refl)
                          (λ w. (
                            b,
                            refl,
                            subst (λ n. q.take * n ≤ e.nbytes) (stored_size-bf16 e.dtype b) front,
                          ))
                          (λ i. ground (arith, copied, b)) t'
                    | inr (odd, t') ↦ absurd cc
                  ]
                ]
              ]
        ]
      ]

  bind_one-IsMem :
      (q : Req) (m m' : Mem) (done : List Req)
      → IsMem find cap m done
      → bind_one find cap q m ≡ some m'
      → IsMem find cap m' (done ++ (q ∷ []))
  unfolding bind_one
  bind_one-IsMem q m m' done h g =
      let (e, f, r) = chain (find q.weight) _ m' g in
      elim (picked_if (is_i8r e.dtype) _ _ (some m') r) [
        | inl (i8, s) ↦ bind_rows-IsMem find cap q e m m' done h f i8 s
        | inr (plain, s) ↦ bind_plain-IsMem q e m m' done h f s
      ]

  bind_all-IsMem :
      (qs : List Req) (m m' : Mem) (done : List Req)
      → IsMem find cap m done
      → bind_all find cap qs m ≡ some m'
      → IsMem find cap m' (done ++ qs)
  unfolding bind_all
  bind_all-IsMem [] m m' done h g =
      let same : m ≡ m' = cc (g) in
      subst (λ x. IsMem find cap x (done ++ [])) same
        (subst (λ d. IsMem find cap m d) (sym (append-nil done)) h)
  bind_all-IsMem (q ∷ qs) m m' done h g =
      let (x, e, r) = chain (bind_one find cap q m) _ m' g in
      subst (λ d. IsMem find cap m' d) (append_assoc done (q ∷ []) qs)
        (bind_all-IsMem qs x m' (done ++ (q ∷ [])) (bind_one-IsMem q m x done h e) r)

  -- A layer as the decoder may read it.
  pub record IsMapped (c : Sizes) (is_mla is_dense i8 : Bool) (m : Mem) : Type 0 where
    pub bound : AreBound find (layer_requests c true is_mla is_dense) m.bound
    pub laid : IsLaid 0 (copies m.bound) m.used
    pub room : m.used ≤ cap
    pub tagged : All (IsTagged find cap i8) (layer_requests c true is_mla is_dense)

  -- Where `k3_bind_layer_mem` returns 0, on a run that does not mix int8 matrices with others: each weight
  -- of the layer points at its own extent, which holds its elements unless it is an int8 matrix, or at a
  -- copy of the elements that are asked for; vectors are F32 there. The copies lie in the widen buffer,
  -- aligned and apart. Every matrix is in the format of the tag: rows of int8 under K3_WI8, and BF16
  -- under K3_WBF16.
  pub bind_mem-IsMapped :
      (c : Sizes) (is_mla is_dense i8 : Bool) (m : Mem)
      → All (IsFloat find cap) (layer_requests c true is_mla is_dense)
        ⊎ All (IsInt8 find cap) (layer_requests c true is_mla is_dense)
      → bind_mem find cap c is_mla is_dense ≡ some (m, i8)
      → IsMapped c is_mla is_dense i8 m
  unfolding bind_mem plan_of
  bind_mem-IsMapped c is_mla is_dense i8 m kind h =
      let qs = layer_requests c true is_mla is_dense in
      let first : Mem = record { bound = []; used = 0; narrowed_all = true; i8_seen = false } in
      let start : IsMem find cap first [] = record {
        bound = tt;
        laid = omega arith;
        room = omega arith;
        native = λ p i. tt;
      } in
      let (x, e, r) = chain (bind_all find cap (plan_of qs).requests first) _ (m, i8) h in
      let all =
        ap (λ (p : Plan). p.requests)
          (plan_of-requests qs [] (omega (arith, length-layer_requests c true is_mla is_dense))) in
      let e' = subst (λ l. bind_all find cap l first ≡ some x) all e in
      let done = bind_all-IsMem qs first x [] start e' in
      elim (picked_if (not x.narrowed_all && not x.i8_seen) _ _ (some (m, i8)) r) [
        | inl (mixed, s) ↦ absurd cc
        | inr (good, s) ↦
            let same : x ≡ m = cc (s) in
            let tag : x.i8_seen ≡ i8 = cc (s) in
            subst (IsMapped c is_mla is_dense i8) same (record {
              bound = done.bound;
              laid = done.laid;
              room = done.room;
              tagged =
                  bind_all-IsTagged find cap qs x i8 kind e'
                    (λ p.
                      done.native (all_narrowed x.narrowed_all x.i8_seen good (tag ∙ p)) (tag ∙ p))
                    tag;
            })
      ]
