-- ===== src/Bind/Tests.antt =====
-- A small layer with KDA and experts, its layout and its load, and a layer with a matrix that is
-- not BF16, for src/model/k3_bind.c.
use kimi_k3_for_me.Prelude.{
  ◌*◌, ◌≡◌, refl, Bool, true, false, List, [], map, Option, none, some, length, subst,
}
use kimi_k3_for_me.Prelude.Int.{pos}
use kimi_k3_for_me.Index.Tensor.{Tensor, bf16, f32, numel, elemsize}
use kimi_k3_for_me.Bind.Requests.{Weight, moe_up, Sizes, layer_requests}
use kimi_k3_for_me.Bind.{Resolved, layer_layout, model_layout, Write, plan_load}
use kimi_k3_for_me.Bind.Resolve.{IsLaid, region}
use kimi_k3_for_me.Bind.Layout.{IsLayout, layer_layout-IsLayout}
use kimi_k3_for_me.Bind.Load.{IsSized, plan_load-IsLaid}

-- Every size is 1.
abbrev sizes : Sizes
sizes = record {
  hidden = 1;
  vocab = 1;
  kda_heads = 1;
  kda_head_dim = 1;
  conv_k = 1;
  n_heads = 1;
  q_lora = 1;
  kv_lora = 1;
  qk_nope = 1;
  qk_rope = 1;
  v_head = 1;
  mla_out_gate = true;
  n_experts = 1;
  n_shared = 1;
  latent = 1;
  moe_inter = 1;
  dense_inter = 1;
}

abbrev bf16_tensor : Tensor
bf16_tensor = record {
  name = [];
  shard = 0;
  dtype = bf16;
  ndim = 0;
  shape = λ _. 1;
  off = 0;
  nbytes = 2;
}

abbrev find : Weight → Option Tensor
find w = some bf16_tensor

abbrev find_mixed : Weight → Option Tensor
find_mixed moe_up = some (record bf16_tensor { dtype = f32; nbytes = 4 })
find_mixed w = some bf16_tensor

abbrev nothing : Resolved
nothing = record { placed = []; bad = 0; demoted = 0; off = 0 }

abbrev got : Option (Resolved × Bool) → Resolved × Bool
got none = (nothing, false)
got (some r) = r

-- Six norms of 4 bytes, fourteen weights of KDA and eight of the experts, each at the next multiple
-- of 8.
run_layer_layout :
    ((got (layer_layout find sizes false false)).1 ≡ true)
    × ((got (layer_layout find sizes false false)).0.off ≡ 218)
unfolding layer_layout
run_layer_layout = (refl, refl)

run_mixed :
    ((got (layer_layout find_mixed sizes false false)).1 ≡ false)
    × ((got (layer_layout find_mixed sizes false false)).0.off ≡ 220)
unfolding layer_layout
run_mixed = (refl, refl)

-- The weights of the model take 4, 8 + 4, 8 + 4, 8 + 4 and 2 bytes.
run_model_layout : (got (model_layout find sizes true true)).0.off ≡ 34
unfolding model_layout
run_model_layout = refl

abbrev layer : Resolved
layer = (got (layer_layout find sizes false false)).0

abbrev model : Resolved
model = (got (model_layout find sizes true true)).0

abbrev writes : List Write
writes = map region layer.placed

find-IsSized : IsSized find
find-IsSized w t h =
    let same : bf16_tensor ≡ t = cc (h) in
    subst (λ (x : Tensor). x.nbytes ≡ numel x * elemsize x.dtype) same refl

layer_layout-IsLayout_example : IsLayout find layer (layer_requests sizes true false false)
unfolding layer_layout
layer_layout-IsLayout_example = layer_layout-IsLayout find sizes false false layer true refl

plan_load-IsLaid_example :
    (length writes ≡ length (layer_requests sizes true false false)) × IsLaid 0 writes 218
unfolding layer_layout plan_load
plan_load-IsLaid_example =
    plan_load-IsLaid find (λ t. pos t.nbytes) (λ t. pos (numel t)) sizes false false true layer
      writes find-IsSized refl refl
