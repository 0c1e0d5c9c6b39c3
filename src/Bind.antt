-- ===== src/Bind.antt =====
-- Weight binding, src/model/k3_bind.c: what a layer and the model ask for (`plan_layer`,
-- `plan_model`), and where it goes in the blob (`plan_resolve`, `plan_load`, `k3_bind_layer`).
-- Sizes are natural and do not leave `int64_t`. A weight stands for its name and its destination.
pub mod Requests
pub mod Resolve
pub mod Wide
pub mod Layout
pub mod Load
pub mod Memory
pub mod Rows
pub mod Tests
use kimi_k3_for_me.Prelude.{
  ℕ, zero, suc, ◌+◌, ◌-◌, ◌*◌, ◌/◌, Bool, true, false, not, ◌&&◌, ◌||◌, List, [], ◌∷◌, ◌++◌, Option,
  none, some, ltb, leb, ◌==◌, if◌then◌else◌, length,
}
use kimi_k3_for_me.Prelude.Int.{ℤ, eq_pos}
use kimi_k3_for_me.Index.Tensor.{Tensor, Dtype, bf16, numel}
use kimi_k3_for_me.Bind.Requests.{Weight, Req, Plan, Sizes, layer_requests, model_requests, plan_of}

-- `align8`.
abbrev pub align8 : ℕ → ℕ
align8 x = (x + 7) / 8 * 8

abbrev pub is_bf16 : Dtype → Bool
is_bf16 bf16 = true
is_bf16 _ = false

-- A request with its tensor, its place in the blob, and whether it keeps the checkpoint's bytes.
pub record Placed : Type 0 where
  pub req : Req
  pub tensor : Tensor
  pub narrow : Bool
  pub off : ℕ

-- The bytes of a request in the blob.
abbrev pub room : Placed → ℕ
room q = q.req.take * (if q.narrow then 2 else 4)

-- What `plan_resolve` has found so far.
pub record Resolved : Type 0 where
  pub placed : List Placed
  pub bad : ℕ
  pub demoted : ℕ
  pub off : ℕ

abbrev pub refuse : Resolved → Resolved
refuse m = record m { bad = m.bad + 1 }

-- `find` is `k3_st_find` of the name of a weight.
module _ (find : Weight → Option Tensor) where
  -- The body of the loop for a tensor that is there.
  unfoldable pub place : Req → Tensor → Resolved → Resolved
  place q t m =
      let have = numel t in
      let narrow = q.narrow && is_bf16 t.dtype in
      let demoted = if q.narrow && not (is_bf16 t.dtype) then m.demoted + 1 else m.demoted in
      let off = align8 m.off in
      if not (have == q.want)
      then refuse m
      else (if ltb have q.take
          then refuse m
          else (if narrow && not (q.take == have)
              then refuse (record m { demoted = demoted })
              else record {
                placed =
                    m.placed ++ (record { req = q; tensor = t; narrow = narrow; off = off } ∷ []);
                bad = m.bad;
                demoted = demoted;
                off = off + q.take * (if narrow then 2 else 4);
              }))

  -- The loop of `plan_resolve`.
  unfoldable pub resolve_from : Resolved → List Req → Resolved
  unfolding place
  resolve_from m [] = m
  resolve_from m (q ∷ qs) = elim (find q.weight) [
    | none ↦ resolve_from (refuse m) qs
    | some t ↦ resolve_from (place q t m) qs
  ]

  -- `plan_resolve` of a plan: `none` for -1.
  unfoldable pub resolve : Plan → Option Resolved
  unfolding resolve_from
  resolve p =
      let m = resolve_from (record { placed = []; bad = p.bad; demoted = 0; off = 0 }) p.requests in
      if m.bad == 0 then some m else none

  -- The layout with the matrices narrow, or wide where one of them is not BF16. The flag is
  -- `narrow_ok`, from which the tag `wdt` is set.
  unfoldable pub layout : List Req → List Req → Option (Resolved × Bool)
  unfolding resolve plan_of
  layout narrow wide = elim (resolve (plan_of narrow)) [
    | none ↦ none
    | some m ↦
        if m.demoted == 0
        then some (m, true)
        else elim (resolve (plan_of wide)) [ none ↦ none | some w ↦ some (w, false) ]
  ]

  -- `k3_bind_layer` up to the allocation, and `k3_bind_model_parts`.
  unfoldable pub layer_layout : Sizes → Bool → Bool → Option (Resolved × Bool)
  unfolding layout layer_requests
  layer_layout c is_mla is_dense =
      layout (layer_requests c true is_mla is_dense) (layer_requests c false is_mla is_dense)

  unfoldable pub model_layout : Sizes → Bool → Bool → Option (Resolved × Bool)
  unfolding layout model_requests
  model_layout c want_embed want_lm_head =
      layout (model_requests c true want_embed want_lm_head)
        (model_requests c false want_embed want_lm_head)

-- A range of the blob that a read fills.
pub record Write : Type 0 where
  pub off : ℕ
  pub bytes : ℕ

-- What a weight of the plan is loaded with: `raw` and `wide` are what `k3_st_read` and
-- `k3_st_read_f32` return. A prefix goes through a buffer of its own.
module _ (raw wide : Tensor → ℤ) where
  unfoldable pub load_one : Placed → Option Write
  load_one q =
      if q.narrow
      then (if eq_pos (raw q.tensor) q.tensor.nbytes
          then some record { off = q.off; bytes = q.tensor.nbytes }
          else none)
      else (if eq_pos (wide q.tensor) (numel q.tensor)
          then some record {
            off = q.off;
            bytes = (if q.req.take == numel q.tensor then numel q.tensor else q.req.take) * 4;
          }
          else none)

  -- `plan_load`, up to the first read that fails.
  unfoldable pub plan_load : List Placed → Option (List Write)
  unfolding load_one
  plan_load [] = some []
  plan_load (q ∷ qs) = elim (load_one q) [
    | none ↦ none
    | some w ↦ elim (plan_load qs) [ none ↦ none | some ws ↦ some (w ∷ ws) ]
  ]
