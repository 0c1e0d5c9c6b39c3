-- ===== src/Bind/Memory/Room.antt =====
-- The widen buffer of `k3_bind_layer_mem` in src/model/k3_bind.c: `k3_bind_widen_bytes` is enough for
-- every layer of a BF16 checkpoint.
use kimi_k3_for_me.Prelude.{
  ℕ, ◌+◌, ◌*◌, ◌/◌, ◌≤◌, ◌≡◌, ◌⊎◌, inl, inr, refl, sym, ap, ◌∙◌, Bool, true, false, List, [], ◌∷◌,
  Option, some, ltb, ◌==◌, if◌then◌else◌, arith, Bool-cases, subst, All,
}
use kimi_k3_for_me.Index.Tensor.{Dtype, unknown, u8, bf16, f16, f32, i8r}
use kimi_k3_for_me.Bind.Requests.{
  Weight, in_norm, post_norm, attn_res_norm, attn_res_proj, mlp_res_norm, mlp_res_proj,
  mla_q_a_norm, mla_kv_a_norm, moe_latent_norm, moe_gate, Req, Plan, Sizes, layer_requests, plan_of,
}
use kimi_k3_for_me.Bind.{align8}
use kimi_k3_for_me.Bind.Wide.{plan_of-requests, length-layer_requests}
use kimi_k3_for_me.Bind.Memory.{
  Extent, is_i8r, stored_size, Mem, bind_copy, bind_rows, bind_plain, bind_one, bind_all, bind_mem,
  widen_bytes,
}

-- The vectors that `k3_bind_widen_bytes` counts.
abbrev pub is_counted : Weight → Bool
is_counted in_norm = true
is_counted post_norm = true
is_counted attn_res_norm = true
is_counted attn_res_proj = true
is_counted mlp_res_norm = true
is_counted mlp_res_proj = true
is_counted mla_q_a_norm = true
is_counted mla_kv_a_norm = true
is_counted moe_latent_norm = true
is_counted moe_gate = true
is_counted _ = false

-- The types that a packed run may hold a request in.
abbrev pub IsPackedAs : Req → Dtype → Type 0
IsPackedAs q bf16 = (q.narrow ≡ true) ⊎ (is_counted q.weight ≡ true)
IsPackedAs q f32 = q.narrow ≡ false
IsPackedAs q unknown = ⊥
IsPackedAs q u8 = ⊥
IsPackedAs q f16 = ⊥
IsPackedAs q i8r = ⊥

-- The bytes that a request may add to the widen buffer, with those for its alignment.
abbrev cost : Req → ℕ
cost q = if is_counted q.weight then q.take * 4 + 7 else 0

abbrev total : List Req → ℕ
total [] = 0
total (q ∷ qs) = cost q + total qs

module _ (find : Weight → Option Extent) where
  -- The run holds what is asked for: matrices as BF16, the vectors that are counted as BF16 or F32,
  -- and the others as F32.
  pub record IsPacked (q : Req) : Type 0 where
    pub extent : Extent
    pub found : find q.weight ≡ some extent
    pub sized : extent.nbytes ≡ q.want * stored_size extent.dtype
    pub prefix : q.take ≤ q.want
    pub typed : IsPackedAs q extent.dtype

module _ (find : Weight → Option Extent) (cap : ℕ) where
  -- A step that succeeds within its cost, and keeps the flags.
  record IsStep (q : Req) (m : Mem) (r : Option Mem) : Type 0 where
    next : Mem
    taken : r ≡ some next
    used : next.used ≤ m.used + cost q
    same : (next.narrowed_all ≡ m.narrowed_all) × (next.i8_seen ≡ m.i8_seen)

  bind_plain-bf16 :
      (q : Req) (off n : ℕ) (m : Mem)
      → n ≡ q.want * 2
      → q.take ≤ q.want
      → (q.narrow ≡ true) ⊎ (is_counted q.weight ≡ true)
      → m.used + cost q ≤ cap
      → IsStep q m (bind_plain cap q (record { off = off; nbytes = n; dtype = bf16 }) m)
  unfolding bind_plain bind_copy
  bind_plain-bf16 q off n m size le kind fits =
      let whole : (n / 2 == q.want) ≡ true = ground (arith, size) in
      let front : ltb (n / 2) q.take ≡ false = ground (arith, size, le) in
      elim (Bool-cases q.narrow) [
        | inl narrow ↦
            rw (whole, front, narrow)
              (record { next = _; taken = refl; used = omega arith; same = (refl, refl) })
        | inr other ↦
            let counted : is_counted q.weight ≡ true = ground (arith, kind, other) in
            let price : cost q ≡ q.take * 4 + 7 =
              ap (λ (b : Bool). if b then q.take * 4 + 7 else 0) counted in
            let room : ltb cap (align8 m.used + q.take * 4) ≡ false = ground (arith, price, fits) in
            rw (whole, front, other, room)
              (record { next = _; taken = refl; used = omega (arith, price); same = (refl, refl) })
      ]

  bind_plain-f32 :
      (q : Req) (off n : ℕ) (m : Mem)
      → n ≡ q.want * 4
      → q.take ≤ q.want
      → q.narrow ≡ false
      → IsStep q m (bind_plain cap q (record { off = off; nbytes = n; dtype = f32 }) m)
  unfolding bind_plain
  bind_plain-f32 q off n m size le other =
      let whole : (n / 4 == q.want) ≡ true = ground (arith, size) in
      let front : ltb (n / 4) q.take ≡ false = ground (arith, size, le) in
      rw (whole, front, other)
        (record { next = _; taken = refl; used = omega arith; same = (ground arith, refl) })

  bind_one-IsStep :
      (q : Req) (m : Mem)
      → IsPacked find q
      → m.used + cost q ≤ cap
      → IsStep q m (bind_one find cap q m)
  unfolding bind_one
  bind_one-IsStep q m p fits =
      rw (p.found, bind_one) (step p.extent.dtype p.extent.off p.extent.nbytes p.sized p.typed)
    where
      step :
          (d : Dtype) (o n : ℕ)
          → n ≡ q.want * stored_size d
          → IsPackedAs q d
          → IsStep q m (
              let e : Extent = record { off = o; nbytes = n; dtype = d } in
              if is_i8r d then bind_rows cap q e m else bind_plain cap q e m)
      step bf16 o n size t = bind_plain-bf16 q o n m size p.prefix t fits
      step f32 o n size t = bind_plain-f32 q o n m size p.prefix t
      step unknown o n size t = elim t [ ]
      step u8 o n size t = elim t [ ]
      step f16 o n size t = elim t [ ]
      step i8r o n size t = elim t [ ]

  -- All of a list of requests, within their costs.
  bind_all-some :
      (qs : List Req) (m : Mem)
      → All (IsPacked find) qs
      → m.used + total qs ≤ cap
      → (m' : Mem) × (bind_all find cap qs m ≡ some m')
        × (m'.narrowed_all ≡ m.narrowed_all)
        × (m'.i8_seen ≡ m.i8_seen)
  unfolding bind_all
  bind_all-some [] m h fits = (m, refl, refl, refl)
  bind_all-some (q ∷ qs) m (p, h) fits =
      let s = bind_one-IsStep q m p (omega (arith, fits)) in
      let (x, e, a, b) = bind_all-some qs s.next h (omega (arith, fits, s.used)) in
      (x, rw (s.taken, bind_all) e, a ∙ s.same.0, b ∙ s.same.1)

layer_requests-total :
    (c : Sizes) (is_mla is_dense : Bool)
    → total (layer_requests c true is_mla is_dense) ≤ widen_bytes c
unfolding layer_requests
layer_requests-total c true true = elim (Bool-cases c.mla_out_gate) [
  | inl e ↦ rw (e, layer_requests) (omega arith)
  | inr e ↦ rw (e, layer_requests) (omega arith)
]
layer_requests-total c true false = elim (Bool-cases c.mla_out_gate) [
  | inl e ↦ rw (e, layer_requests) (omega arith)
  | inr e ↦ rw (e, layer_requests) (omega arith)
]
layer_requests-total c false true = omega arith
layer_requests-total c false false = omega arith

-- A widen buffer of `k3_bind_widen_bytes` is enough: `k3_bind_layer_mem` binds every layer that the run
-- holds, with the tag K3_WBF16. The run holds matrices as BF16, the vectors that the size counts as BF16
-- or F32, and the others as F32.
pub bind_mem-some :
    (find : Weight → Option Extent) (cap : ℕ) (c : Sizes) (is_mla is_dense : Bool)
    → All (IsPacked find) (layer_requests c true is_mla is_dense)
    → widen_bytes c ≤ cap
    → (m : Mem) × (bind_mem find cap c is_mla is_dense ≡ some (m, false))
unfolding bind_mem plan_of
bind_mem-some find cap c is_mla is_dense h le =
    let qs = layer_requests c true is_mla is_dense in
    let first : Mem = record { bound = []; used = 0; narrowed_all = true; i8_seen = false } in
    let all =
      ap (λ (p : Plan). p.requests)
        (plan_of-requests qs [] (omega (arith, length-layer_requests c true is_mla is_dense))) in
    let (m, e, a, b) =
      bind_all-some find cap qs first h
        (omega (arith, le, layer_requests-total c is_mla is_dense)) in
    let e' : bind_all find cap (plan_of qs).requests first ≡ some m =
      subst (λ l. bind_all find cap l first ≡ some m) (sym all) e in
    (m, rw (e', bind_mem) (rw (a, b) refl))
