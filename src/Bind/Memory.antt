-- ===== src/Bind/Memory.antt =====
-- Binding a layer from a packed run in memory: `k3_bind_layer_mem` and `k3_bind_widen_bytes` of
-- src/model/k3_bind.c. A destination is a place in the run or in the widen buffer; the conversion of
-- its elements is outside.
pub mod Sources
pub mod Tags
pub mod Laws
pub mod Room
pub mod Tests
use kimi_k3_for_me.Prelude.{
  ℕ, zero, suc, ◌+◌, ◌-◌, ◌*◌, ◌/◌, ◌%◌, Bool, true, false, not, ◌&&◌, ◌||◌, List, [], ◌∷◌, ◌++◌,
  Option, none, some, ltb, leb, ◌==◌, if◌then◌else◌,
}
use kimi_k3_for_me.Index.Tensor.{Dtype, u8, bf16, f16, f32, i8r, elemsize}
use kimi_k3_for_me.Bind.Requests.{Weight, Req, Plan, Sizes, layer_requests, plan_of}
use kimi_k3_for_me.Bind.{align8, is_bf16}

-- What `src->find` reports of a name.
pub record Extent : Type 0 where
  pub off : ℕ
  pub nbytes : ℕ
  pub dtype : Dtype

abbrev pub is_f32 : Dtype → Bool
is_f32 f32 = true
is_f32 _ = false

abbrev pub is_i8r : Dtype → Bool
is_i8r i8r = true
is_i8r _ = false

-- `esz`.
abbrev pub stored_size : Dtype → ℕ
stored_size f32 = 4
stored_size u8 = 1
stored_size _ = 2

-- A destination: in the run, or in the widen buffer, converted from BF16 or from rows of int8.
pub data Dest : Type 0 where
  run : ℕ → Dest
  widen : ℕ → ℕ → Dest
  dequantised : ℕ → ℕ → ℕ → Dest

pub record Bound : Type 0 where
  pub weight : Weight
  pub dest : Dest

-- The variables of the loop of `k3_bind_layer_mem`.
pub record Mem : Type 0 where
  pub bound : List Bound
  pub used : ℕ
  pub narrowed_all : Bool
  pub i8_seen : Bool

abbrev pub bind_at : Weight → Dest → Mem → Mem
bind_at w d m = record m { bound = m.bound ++ (record { weight = w; dest = d } ∷ []) }

-- A copy of `take` floats at the next multiple of 8 of the widen buffer.
unfoldable pub bind_copy : ℕ → Req → (ℕ → Dest) → Mem → Option Mem
bind_copy cap q to m =
    let w = align8 m.used in
    if ltb cap (w + q.take * 4)
    then none
    else some (record (bind_at q.weight (to w) m) { used = w + q.take * 4 })

-- The body of the loop for int8 rows of a scale and `cols` values.
unfoldable pub bind_rows : ℕ → Req → Extent → Mem → Option Mem
unfolding bind_copy
bind_rows cap q e m =
    let rows = (e.nbytes - q.take) / 4 in
    if q.narrow
    then some (record (bind_at q.weight (run e.off) m) { i8_seen = true })
    else (if ltb e.nbytes q.take || not ((e.nbytes - q.take) % 4 == 0)
        then none
        else (if rows == 0 || not (q.take % rows == 0)
            then none
            else bind_copy cap q (λ w. dequantised w rows (q.take / rows)) m))

-- The body for the other types.
unfoldable pub bind_plain : ℕ → Req → Extent → Mem → Option Mem
unfolding bind_copy
bind_plain cap q e m =
    let have = e.nbytes / stored_size e.dtype in
    let here = bind_at q.weight (run e.off) m in
    if not (have == q.want)
    then none
    else (if ltb have q.take
        then none
        else (if q.narrow && is_bf16 e.dtype
            then some here
            else (if is_f32 e.dtype
                then some (record here { narrowed_all = m.narrowed_all && not q.narrow })
                else (if is_bf16 e.dtype then bind_copy cap q (λ w. widen w q.take) m else none))))

-- `k3_bind_widen_bytes`.
abbrev pub widen_bytes : Sizes → ℕ
widen_bytes c = (6 * c.hidden + c.q_lora + c.kv_lora + c.latent + c.n_experts * c.hidden) * 4 + 4096

module _ (find : Weight → Option Extent) (cap : ℕ) where
  unfoldable pub bind_one : Req → Mem → Option Mem
  unfolding bind_rows bind_plain
  bind_one q m = elim (find q.weight) [
    | none ↦ none
    | some e ↦ if is_i8r e.dtype then bind_rows cap q e m else bind_plain cap q e m
  ]

  unfoldable pub bind_all : List Req → Mem → Option Mem
  unfolding bind_one
  bind_all [] m = some m
  bind_all (q ∷ qs) m = elim (bind_one q m) [ none ↦ none | some m' ↦ bind_all qs m' ]

  -- `k3_bind_layer_mem`: the second part is whether the layer gets the tag K3_WI8.
  unfoldable pub bind_mem : Sizes → Bool → Bool → Option (Mem × Bool)
  unfolding bind_all layer_requests plan_of
  bind_mem c is_mla is_dense =
      elim (bind_all (plan_of (layer_requests c true is_mla is_dense)).requests
        (record { bound = []; used = 0; narrowed_all = true; i8_seen = false })) [
          | none ↦ none
          | some m ↦ if not m.narrowed_all && not m.i8_seen then none else some (m, m.i8_seen)
        ]
