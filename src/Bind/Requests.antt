-- ===== src/Bind/Requests.antt =====
-- What a layer and the model ask for: `reqw`, `reqn`, `plan_layer` and `plan_model` of
-- src/model/k3_bind.c. The names are those of the fields that they are bound to.
use kimi_k3_for_me.Prelude.{
  ℕ, ◌+◌, ◌*◌, Bool, false, List, [], ◌∷◌, ◌++◌, leb, if◌then◌else◌, length,
}

pub data Weight : Type 0 where
  in_norm post_norm attn_res_norm attn_res_proj mlp_res_norm mlp_res_proj : Weight
  mla_q_a mla_q_a_norm mla_q_b mla_kv_a mla_kv_a_norm mla_kv_b mla_o mla_g : Weight
  kda_q kda_k kda_v kda_g kda_o kda_q_conv kda_k_conv kda_v_conv : Weight
  kda_f_a kda_f_b kda_b kda_A_log kda_dt_bias kda_o_norm : Weight
  dense_gate dense_up dense_down : Weight
  moe_gate moe_bias moe_down moe_up moe_latent_norm moe_sh1 moe_sh3 moe_sh2 : Weight
  embed norm out_res_norm out_res_proj lm_head : Weight

-- The sizes of `K3Cfg` that a plan uses.
pub record Sizes : Type 0 where
  pub hidden : ℕ
  pub vocab : ℕ
  pub kda_heads : ℕ
  pub kda_head_dim : ℕ
  pub conv_k : ℕ
  pub n_heads : ℕ
  pub q_lora : ℕ
  pub kv_lora : ℕ
  pub qk_nope : ℕ
  pub qk_rope : ℕ
  pub v_head : ℕ
  pub mla_out_gate : Bool
  pub n_experts : ℕ
  pub n_shared : ℕ
  pub latent : ℕ
  pub moe_inter : ℕ
  pub dense_inter : ℕ

-- `Req` before it is resolved: `narrow` keeps the checkpoint's BF16.
pub record Req : Type 0 where
  pub weight : Weight
  pub want : ℕ
  pub take : ℕ
  pub narrow : Bool

-- `Plan`.
pub record Plan : Type 0 where
  pub requests : List Req
  pub bad : ℕ

-- MAXB.
abbrev pub max_requests : ℕ
max_requests = 64

-- `req_`, in a plan with room or without.
unfoldable pub add : Plan → Req → Plan
add p q =
    if leb max_requests (length p.requests)
    then record p { bad = p.bad + 1 }
    else record p { requests = p.requests ++ (q ∷ []) }

unfoldable pub add_all : Plan → List Req → Plan
unfolding add
add_all p [] = p
add_all p (q ∷ qs) = add_all (add p q) qs

unfoldable pub plan_of : List Req → Plan
unfolding add_all
plan_of qs = add_all (record { requests = []; bad = 0 }) qs

-- `reqw`, which takes all that it wants, or a prefix.
abbrev pub reqw : Weight → ℕ → Req
reqw w want = record { weight = w; want = want; take = want; narrow = false }

abbrev pub reqw_prefix : Weight → ℕ → ℕ → Req
reqw_prefix w want take = record { weight = w; want = want; take = take; narrow = false }

module _ (c : Sizes) (narrow_ok : Bool) where
  open c use {
    hidden, vocab, kda_heads, kda_head_dim, conv_k, n_heads, q_lora, kv_lora, qk_nope, qk_rope,
    v_head, mla_out_gate, n_experts, n_shared, latent, moe_inter, dense_inter,
  }

  -- `reqn`.
  abbrev pub reqn : Weight → ℕ → Req
  reqn w want = record { weight = w; want = want; take = want; narrow = narrow_ok }

  abbrev pub kda_width : ℕ
  kda_width = kda_heads * kda_head_dim

  abbrev pub mla_requests : List Req
  mla_requests =
      reqn mla_q_a (q_lora * hidden)
      ∷ reqw mla_q_a_norm q_lora
      ∷ reqn mla_q_b (n_heads * (qk_nope + qk_rope) * q_lora)
      ∷ reqn mla_kv_a ((kv_lora + qk_rope) * hidden)
      ∷ reqw mla_kv_a_norm kv_lora
      ∷ reqn mla_kv_b (n_heads * (qk_nope + v_head) * kv_lora)
      ∷ reqn mla_o (hidden * n_heads * v_head)
      ∷ (if mla_out_gate then reqn mla_g (n_heads * v_head * hidden) ∷ [] else [])

  abbrev pub kda_requests : List Req
  kda_requests =
      reqn kda_q (kda_width * hidden)
      ∷ reqn kda_k (kda_width * hidden)
      ∷ reqn kda_v (kda_width * hidden)
      ∷ reqn kda_g (kda_width * hidden)
      ∷ reqn kda_o (hidden * kda_width)
      ∷ reqw kda_q_conv (kda_width * conv_k)
      ∷ reqw kda_k_conv (kda_width * conv_k)
      ∷ reqw kda_v_conv (kda_width * conv_k)
      ∷ reqn kda_f_a (kda_head_dim * hidden)
      ∷ reqn kda_f_b (kda_width * kda_head_dim)
      ∷ reqn kda_b (kda_heads * hidden)
      ∷ reqw_prefix kda_A_log kda_head_dim kda_heads
      ∷ reqw kda_dt_bias kda_width
      ∷ reqw kda_o_norm kda_head_dim
      ∷ []

  abbrev pub dense_requests : List Req
  dense_requests =
      reqn dense_gate (dense_inter * hidden)
      ∷ reqn dense_up (dense_inter * hidden)
      ∷ reqn dense_down (hidden * dense_inter)
      ∷ []

  abbrev pub moe_requests : List Req
  moe_requests =
      reqw moe_gate (n_experts * hidden)
      ∷ reqw moe_bias n_experts
      ∷ reqn moe_down (latent * hidden)
      ∷ reqn moe_up (hidden * latent)
      ∷ reqw moe_latent_norm latent
      ∷ reqn moe_sh1 (moe_inter * n_shared * hidden)
      ∷ reqn moe_sh3 (moe_inter * n_shared * hidden)
      ∷ reqn moe_sh2 (hidden * (moe_inter * n_shared))
      ∷ []

  -- `plan_layer`.
  unfoldable pub layer_requests : Bool → Bool → List Req
  layer_requests is_mla is_dense =
      reqw in_norm hidden
      ∷ reqw post_norm hidden
      ∷ reqw attn_res_norm hidden
      ∷ reqw attn_res_proj hidden
      ∷ reqw mlp_res_norm hidden
      ∷ reqw mlp_res_proj hidden
      ∷ ((if is_mla then mla_requests else kda_requests)
          ++ (if is_dense then dense_requests else moe_requests))

  -- `plan_model`.
  unfoldable pub model_requests : Bool → Bool → List Req
  model_requests want_embed want_lm_head =
      (if want_embed then reqn embed (vocab * hidden) ∷ [] else [])
      ++ (reqw norm hidden
          ∷ reqw out_res_norm hidden
          ∷ reqw out_res_proj hidden
          ∷ (if want_lm_head then reqn lm_head (vocab * hidden) ∷ [] else []))
