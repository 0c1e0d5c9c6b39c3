-- ===== src/Config/Document.antt =====
-- What a configuration says in the document, for `k3_cfg_load` of include/k3/k3_cfg.h: each field with
-- the names under which it stands, the released one first, and the objects in which a name is looked up.
use kimi_k3_for_me.Prelude.{
  ◌≤◌, ◌≡◌, ◌⊎◌, Bool, true, not, List, [], ◌∷◌, Option, none, some, length,
}
use kimi_k3_for_me.Prelude.Int.{ℤ}
use kimi_k3_for_me.Config.{
  Key, activation_situ_beta, activation_situ_linear_beta, attn_res_block_size,
  first_k_dense_replace, full_attn_layers, gate_lower_bound, head_dim, hidden_size,
  intermediate_size, kda_head_dim, kda_num_heads, kv_lora_rank, latent_moe_use_norm,
  linear_attn_config, mla_use_output_gate, moe_intermediate_size, moe_renormalize,
  num_attention_heads, num_experts, num_experts_per_token, num_heads, num_hidden_layers,
  num_shared_experts, q_lora_rank, qk_nope_head_dim, qk_rope_head_dim, rms_norm_eps,
  routed_expert_hidden_size, routed_scaling_factor, short_conv_kernel_size, situ_beta,
  situ_linear_beta, text_config, v_head_dim, vocab_size, View, is_num, is_bool, is_array, is_other,
  Cfg, Json,
}

abbrev pub names_of : Key → Option Key → List Key
names_of k none = k ∷ []
names_of k (some a) = k ∷ a ∷ []

module _ {J N F : Type 0} (api : Json J N F) where
  -- The first value under one of the names.
  abbrev pub in_object : List Key → J → Option J
  in_object [] o = none
  in_object (k ∷ ks) o = elim (api.get o k) [ some v ↦ some v | none ↦ in_object ks o ]

  abbrev pub in_objects : List Key → List J → Option J
  in_objects ks [] = none
  in_objects ks (o ∷ os) = elim (in_object ks o) [ some v ↦ some v | none ↦ in_objects ks os ]

  abbrev pub with_some : Option J → List J → List J
  with_some none os = os
  with_some (some o) os = o ∷ os

  -- The block of linear attention stands in "text_config", if there is one, and else in the document.
  abbrev pub attention_in : J → Option J → Option J
  attention_in root none = api.get root linear_attn_config
  attention_in root (some t) = api.get t linear_attn_config

  -- "text_config", "linear_attn_config" and the document, in this order.
  abbrev pub objects : J → List J
  objects root =
      let txt = api.get root text_config in
      with_some txt (with_some (attention_in root txt) (root ∷ []))

  module _ (root : J) where
    abbrev pub IsFound : List Key → J → Type 0
    IsFound ks v = in_objects ks (objects root) ≡ some v

    -- A number under one of the names.
    abbrev pub IsNumber : List Key → N → Type 0
    IsNumber ks n = (v : J) × IsFound ks v × (api.view v ≡ is_num n)

    abbrev pub IsInt : List Key → ℤ → Type 0
    IsInt ks x = (n : N) × IsNumber ks n × (x ≡ api.to_int n)

    abbrev pub IsFloat : List Key → F → Type 0
    IsFloat ks x = (n : N) × IsNumber ks n × (x ≡ api.to_float n)

    -- A flag is true or false, or a number that is 0 or not, and by default true.
    abbrev pub IsFlagValue : View J N → Bool → Type 0
    IsFlagValue (is_bool b) x = x ≡ b
    IsFlagValue (is_num n) x = x ≡ not (api.is_zero n)
    IsFlagValue (is_array vs) x = x ≡ true
    IsFlagValue is_other x = x ≡ true

    abbrev pub IsFlag : List Key → Bool → Type 0
    IsFlag ks x =
        ((in_objects ks (objects root) ≡ none) × (x ≡ true))
        ⊎ ((v : J) × IsFound ks v × IsFlagValue (api.view v) x)

    -- An array of numbers, which are the entries of the layer map.
    abbrev pub AreInts : List J → List ℤ → Type 0
    AreInts [] [] = Unit
    AreInts [] (l ∷ ls) = ⊥
    AreInts (v ∷ vs) [] = ⊥
    AreInts (v ∷ vs) (l ∷ ls) =
        ((n : N) × (api.view v ≡ is_num n) × (l ≡ api.to_int n)) × AreInts vs ls

    abbrev pub IsMap : List ℤ → Type 0
    IsMap ls =
        (v : J) × (vs : List J) × IsFound (full_attn_layers ∷ []) v
        × (api.view v ≡ is_array vs)
        × (1 ≤ length vs)
        × AreInts vs ls

    pub record IsRead (c : Cfg F) : Type 0 where
      pub hidden : IsInt (hidden_size ∷ []) c.hidden
      pub n_layers : IsInt (num_hidden_layers ∷ []) c.n_layers
      pub vocab : IsInt (vocab_size ∷ []) c.vocab
      pub rms_eps : IsFloat (rms_norm_eps ∷ []) c.rms_eps
      pub kda_heads : IsInt (num_heads ∷ kda_num_heads ∷ []) c.kda_heads
      pub kda_head_dim : IsInt (head_dim ∷ kda_head_dim ∷ []) c.kda_head_dim
      pub conv_k : IsInt (short_conv_kernel_size ∷ []) c.conv_k
      pub gate_lb : IsFloat (gate_lower_bound ∷ []) c.gate_lb
      pub n_heads : IsInt (num_attention_heads ∷ []) c.n_heads
      pub q_lora : IsInt (q_lora_rank ∷ []) c.q_lora
      pub kv_lora : IsInt (kv_lora_rank ∷ []) c.kv_lora
      pub qk_nope : IsInt (qk_nope_head_dim ∷ []) c.qk_nope
      pub qk_rope : IsInt (qk_rope_head_dim ∷ []) c.qk_rope
      pub v_head : IsInt (v_head_dim ∷ []) c.v_head
      pub n_experts : IsInt (num_experts ∷ []) c.n_experts
      pub topk : IsInt (num_experts_per_token ∷ []) c.topk
      pub n_shared : IsInt (num_shared_experts ∷ []) c.n_shared
      pub latent : IsInt (routed_expert_hidden_size ∷ []) c.latent
      pub moe_inter : IsInt (moe_intermediate_size ∷ []) c.moe_inter
      pub routed_scale : IsFloat (routed_scaling_factor ∷ []) c.routed_scale
      pub first_dense : IsInt (first_k_dense_replace ∷ []) c.first_dense
      pub dense_inter : IsInt (intermediate_size ∷ []) c.dense_inter
      pub attn_res_block : IsInt (attn_res_block_size ∷ []) c.attn_res_block
      pub situ_b1 : IsFloat (activation_situ_beta ∷ situ_beta ∷ []) c.situ_b1
      pub situ_b2 : IsFloat (activation_situ_linear_beta ∷ situ_linear_beta ∷ []) c.situ_b2
      pub mla_out_gate : IsFlag (mla_use_output_gate ∷ []) c.mla_out_gate
      pub moe_renorm : IsFlag (moe_renormalize ∷ []) c.moe_renorm
      pub latent_norm : IsFlag (latent_moe_use_norm ∷ []) c.latent_norm
      pub full_attn : IsMap c.full_attn
