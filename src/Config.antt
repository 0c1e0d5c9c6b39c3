-- ===== src/Config.antt =====
-- `k3_cfg_load` of include/k3/k3_cfg.h on a parsed document. The JSON tree and its `json_get` are
-- parameters, and so are the conversions of a number to `int` and to `float`.
pub mod Document
pub mod Found
pub mod Fields
pub mod Laws
mod Tests
use kimi_k3_for_me.Prelude.{
  ℕ, zero, suc, ◌+◌, Bool, true, false, not, ◌&&◌, ◌||◌, List, [], ◌∷◌, ◌++◌, map, Option, none,
  some, ltb, leb, ◌==◌, if◌then◌else◌, length,
}
use kimi_k3_for_me.Prelude.Int.{ℤ, pos, negsuc, ltb_ℤ, eq_ℤ, ◌+ℤ◌}
use kimi_k3_for_me.Cache.Batch.{max_topk}

-- The names that are looked up.
pub data Key : Type 0 where
  text_config linear_attn_config : Key
  hidden_size num_hidden_layers vocab_size rms_norm_eps : Key
  num_heads kda_num_heads head_dim kda_head_dim short_conv_kernel_size gate_lower_bound : Key
  num_attention_heads q_lora_rank kv_lora_rank qk_nope_head_dim qk_rope_head_dim v_head_dim : Key
  mla_use_output_gate : Key
  num_experts num_experts_per_token num_shared_experts routed_expert_hidden_size : Key
  moe_intermediate_size routed_scaling_factor moe_renormalize latent_moe_use_norm : Key
  first_k_dense_replace intermediate_size attn_res_block_size : Key
  activation_situ_beta situ_beta activation_situ_linear_beta situ_linear_beta : Key
  full_attn_layers : Key

-- A value of the tree, as its type tag says.
pub data View (J N : Type 0) : Type 0 where
  is_num : N → View J N
  is_bool : Bool → View J N
  is_array : List J → View J N
  is_other : View J N

-- `K3Cfg`, without `attn_res_extra`, which stays 0.
pub record Cfg (F : Type 0) : Type 0 where
  pub hidden : ℤ
  pub n_layers : ℤ
  pub vocab : ℤ
  pub rms_eps : F
  pub kda_heads : ℤ
  pub kda_head_dim : ℤ
  pub conv_k : ℤ
  pub gate_lb : F
  pub n_heads : ℤ
  pub q_lora : ℤ
  pub kv_lora : ℤ
  pub qk_nope : ℤ
  pub qk_rope : ℤ
  pub v_head : ℤ
  pub mla_out_gate : Bool
  pub n_experts : ℤ
  pub topk : ℤ
  pub n_shared : ℤ
  pub latent : ℤ
  pub moe_inter : ℤ
  pub routed_scale : F
  pub moe_renorm : Bool
  pub latent_norm : Bool
  pub first_dense : ℤ
  pub dense_inter : ℤ
  pub attn_res_block : ℤ
  pub situ_b1 : F
  pub situ_b2 : F
  pub full_attn : List ℤ

-- The layer map as it is read.
pub data Layers : Type 0 where
  absent refused : Layers
  listed : List ℤ → Layers

-- `json_get`, the tag of a value, and what a number is as `int`, as `float`, and against zero.
pub record Json (J N F : Type 0) : Type 0 where
  pub get : J → Key → Option J
  pub view : J → View J N
  pub to_int : N → ℤ
  pub to_float : N → F
  pub is_zero : N → Bool
  pub no_float : F

-- `K3CfgSrc` without its list of misses.
pub record Source (J : Type 0) : Type 0 where
  pub txt : Option J
  pub lin : Option J
  pub root : J

-- The numbers that have to be there, in the order of the calls.
abbrev pub required : List (Key × Option Key)
required =
    (hidden_size, none)
    ∷ (num_hidden_layers, none)
    ∷ (vocab_size, none)
    ∷ (rms_norm_eps, none)
    ∷ (num_heads, some kda_num_heads)
    ∷ (head_dim, some kda_head_dim)
    ∷ (short_conv_kernel_size, none)
    ∷ (gate_lower_bound, none)
    ∷ (num_attention_heads, none)
    ∷ (q_lora_rank, none)
    ∷ (kv_lora_rank, none)
    ∷ (qk_nope_head_dim, none)
    ∷ (qk_rope_head_dim, none)
    ∷ (v_head_dim, none)
    ∷ (num_experts, none)
    ∷ (num_experts_per_token, none)
    ∷ (num_shared_experts, none)
    ∷ (routed_expert_hidden_size, none)
    ∷ (moe_intermediate_size, none)
    ∷ (routed_scaling_factor, none)
    ∷ (first_k_dense_replace, none)
    ∷ (intermediate_size, none)
    ∷ (attn_res_block_size, none)
    ∷ (activation_situ_beta, some situ_beta)
    ∷ (activation_situ_linear_beta, some situ_linear_beta)
    ∷ []

abbrev pub is_positive : ℤ → Bool
is_positive x = ltb_ℤ (pos 0) x

-- Each entry is the number of a layer, counted from one.
abbrev pub are_layers : ℤ → List ℤ → Bool
are_layers n [] = true
are_layers n (l ∷ ls) = (is_positive l && not (ltb_ℤ n l)) && are_layers n ls

unfoldable pub has_layer : ℤ → List ℤ → Bool
has_layer l [] = false
has_layer l (x ∷ xs) = eq_ℤ x l || has_layer l xs

module _ {J N F : Type 0} (api : Json J N F) where
  abbrev pub get_in : Option J → Key → Option J
  get_in none k = none
  get_in (some o) k = api.get o k

  abbrev pub or_else : Option J → Option J → Option J
  or_else none y = y
  or_else (some x) y = some x

  -- The inner loop of `k3cfg_find`, over the two names.
  abbrev pub find_in : Option J → Key → Option Key → Option J
  find_in o primary none = get_in o primary
  find_in o primary (some alias) = or_else (get_in o primary) (get_in o alias)

  -- `k3cfg_find`.
  unfoldable pub find : Source J → Key → Option Key → Option J
  find s primary alias =
      or_else (find_in s.txt primary alias)
        (or_else (find_in s.lin primary alias) (find_in (some s.root) primary alias))

  -- The number under a name, if there is one.
  abbrev pub as_number : Option J → Option N
  as_number none = none
  as_number (some v) = elim (api.view v) [ is_num n ↦ some n | _ ↦ none ]

  unfoldable pub number : Source J → Key → Option Key → Option N
  unfolding find
  number s primary alias = as_number (find s primary alias)

  -- The values of `k3cfg_i` and `k3cfg_f`, zero for a number that is not there.
  unfoldable pub cfg_i : Source J → Key → Option Key → ℤ
  unfolding number
  cfg_i s k alias = elim (number s k alias) [ none ↦ pos 0 | some n ↦ api.to_int n ]

  unfoldable pub cfg_f : Source J → Key → Option Key → F
  unfolding number
  cfg_f s k alias = elim (number s k alias) [ none ↦ api.no_float | some n ↦ api.to_float n ]

  -- `k3cfg_miss`, as the calls for the names of a list add to `missing`.
  unfoldable pub missing : Source J → List (Key × Option Key) → List Key
  unfolding number
  missing s [] = []
  missing s ((k, alias) ∷ ks) = elim (number s k alias) [
    | none ↦ k ∷ missing s ks
    | some _ ↦ missing s ks
  ]

  -- `k3cfg_b`.
  unfoldable pub cfg_b : Source J → Key → Option Key → Bool → Bool
  unfolding find
  cfg_b s k alias dflt = elim (find s k alias) [
    | none ↦ dflt
    | some v ↦ elim (api.view v) [
      | is_bool b ↦ b
      | is_num n ↦ not (api.is_zero n)
      | is_array _ ↦ dflt
      | is_other ↦ dflt
    ]
  ]

  -- The loop over the entries of the layer map: all of them numbers, or an error.
  unfoldable pub layer_numbers : List J → Option (List ℤ)
  layer_numbers [] = some []
  layer_numbers (v ∷ vs) = elim (as_number (some v)) [
    | none ↦ none
    | some n ↦ elim (layer_numbers vs) [ none ↦ none | some ls ↦ some (api.to_int n ∷ ls) ]
  ]

  -- What the layer map is: missing, refused (too long, or with something else than numbers), or read.
  unfoldable pub layer_map : Source J → ℕ → Layers
  unfolding find layer_numbers
  layer_map s fa_max = elim (find s full_attn_layers none) [
    | none ↦ absent
    | some v ↦ elim (api.view v) [
      | is_array vs ↦
          if length vs == 0
          then absent
          else (if ltb fa_max (length vs)
              then refused
              else elim (layer_numbers vs) [ none ↦ refused | some ls ↦ listed ls ])
      | is_num _ ↦ absent
      | is_bool _ ↦ absent
      | is_other ↦ absent
    ]
  ]

  -- The objects that are searched.
  unfoldable pub source : J → Source J
  source root =
      let txt = api.get root text_config in
      record {
        txt = txt;
        lin = api.get (elim txt [ none ↦ root | some t ↦ t ]) linear_attn_config;
        root = root;
      }

  -- The assignments of `k3_cfg_load`.
  unfoldable pub fields : Source J → List ℤ → Cfg F
  unfolding cfg_i cfg_f cfg_b
  fields s fa = record {
    hidden = cfg_i s hidden_size none;
    n_layers = cfg_i s num_hidden_layers none;
    vocab = cfg_i s vocab_size none;
    rms_eps = cfg_f s rms_norm_eps none;
    kda_heads = cfg_i s num_heads (some kda_num_heads);
    kda_head_dim = cfg_i s head_dim (some kda_head_dim);
    conv_k = cfg_i s short_conv_kernel_size none;
    gate_lb = cfg_f s gate_lower_bound none;
    n_heads = cfg_i s num_attention_heads none;
    q_lora = cfg_i s q_lora_rank none;
    kv_lora = cfg_i s kv_lora_rank none;
    qk_nope = cfg_i s qk_nope_head_dim none;
    qk_rope = cfg_i s qk_rope_head_dim none;
    v_head = cfg_i s v_head_dim none;
    mla_out_gate = cfg_b s mla_use_output_gate none true;
    n_experts = cfg_i s num_experts none;
    topk = cfg_i s num_experts_per_token none;
    n_shared = cfg_i s num_shared_experts none;
    latent = cfg_i s routed_expert_hidden_size none;
    moe_inter = cfg_i s moe_intermediate_size none;
    routed_scale = cfg_f s routed_scaling_factor none;
    moe_renorm = cfg_b s moe_renormalize none true;
    latent_norm = cfg_b s latent_moe_use_norm none true;
    first_dense = cfg_i s first_k_dense_replace none;
    dense_inter = cfg_i s intermediate_size none;
    attn_res_block = cfg_i s attn_res_block_size none;
    situ_b1 = cfg_f s activation_situ_beta (some situ_beta);
    situ_b2 = cfg_f s activation_situ_linear_beta (some situ_linear_beta);
    full_attn = fa;
  }

  -- The structural checks.
  unfoldable pub is_sane : Cfg F → Bool
  is_sane c =
      (is_positive c.n_layers && (is_positive c.hidden && is_positive c.vocab))
      && (ltb_ℤ (pos (length c.full_attn)) c.n_layers
          && (are_layers c.n_layers c.full_attn
              && (not (ltb_ℤ (pos max_topk) c.topk)
                  && (not (ltb_ℤ c.n_experts c.topk)
                      && (is_positive c.attn_res_block && is_positive c.conv_k)))))

  -- `k3_cfg_load`: `fa_max` is the room for the layer map, and `none` is 0.
  unfoldable pub load_config : ℕ → J → Option (Cfg F)
  unfolding source layer_map missing fields is_sane
  load_config fa_max root =
      let s = source root in
      elim (layer_map s fa_max) [
        | refused ↦ none
        | absent ↦ none
        | listed fa ↦ elim (missing s required) [
          | k ∷ ks ↦ none
          | [] ↦ if is_sane (fields s fa) then some (fields s fa) else none
        ]
      ]

-- `k3_is_mla`: `layer` counts from zero, the map from one.
unfoldable pub is_mla : {F : Type 0} → Cfg F → ℤ → Bool
unfolding has_layer
is_mla c layer = has_layer (layer +ℤ pos 1) c.full_attn
