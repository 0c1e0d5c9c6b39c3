-- ===== src/Config/Fields.antt =====
-- The assignments and the layer map of `k3_cfg_load` (include/k3/k3_cfg.h), against the document.
use kimi_k3_for_me.Prelude.{
  ℕ, ◌≤◌, ◌≡◌, ◌⊎◌, inl, inr, refl, sym, ◌∙◌, Bool, List, [], ◌∷◌, none, some, ltb, ◌==◌, length,
  arith, Bool-cases, Option-cases, All, count,
}
use kimi_k3_for_me.Prelude.Int.{ℤ}
use kimi_k3_for_me.Header.Rest.{chain}
use kimi_k3_for_me.Config.Document.{AreInts, IsMap, IsRead}
use kimi_k3_for_me.Config.Found.{
  View-number, find-in_objects, cfg_i-IsInt, cfg_f-IsFloat, cfg_b-IsFlag,
}
use kimi_k3_for_me.Config.{
  activation_situ_beta, activation_situ_linear_beta, attn_res_block_size, first_k_dense_replace,
  gate_lower_bound, head_dim, hidden_size, intermediate_size, kda_head_dim, kda_num_heads,
  kv_lora_rank, latent_moe_use_norm, mla_use_output_gate, moe_intermediate_size, moe_renormalize,
  num_attention_heads, num_experts, num_experts_per_token, num_heads, num_hidden_layers,
  num_shared_experts, q_lora_rank, qk_nope_head_dim, qk_rope_head_dim, rms_norm_eps,
  routed_expert_hidden_size, routed_scaling_factor, short_conv_kernel_size, situ_beta,
  situ_linear_beta, v_head_dim, vocab_size, full_attn_layers, View, is_num, is_bool, is_array,
  is_other, as_number, listed, Json, required, find, number, layer_numbers, layer_map, source,
  fields,
}

View-cases :
    {J N : Type 0} (v : View J N)
    → ((vs : List J) × (v ≡ is_array vs))
      ⊎ (((n : N) × (v ≡ is_num n)) ⊎ (((b : Bool) × (v ≡ is_bool b)) ⊎ (v ≡ is_other)))
View-cases (is_num n) = inr (inl (n, refl))
View-cases (is_bool b) = inr (inr (inl (b, refl)))
View-cases (is_array vs) = inl (vs, refl)
View-cases is_other = inr (inr (inr refl))

layer_numbers-AreInts :
    {J N F : Type 0} (api : Json J N F) (root : J) (vs : List J) (ls : List ℤ)
    → layer_numbers api vs ≡ some ls
    → AreInts api root vs ls × (length ls ≡ length vs)
unfolding layer_numbers
layer_numbers-AreInts api root [] ls h = let same : [] ≡ ls = cc (h) in rw (sym same) (tt, refl)
layer_numbers-AreInts api root (v ∷ vs) ls h =
    let (n, e, q) = chain (as_number api (some v)) _ ls h in
    let (rest, e', r) = chain (layer_numbers api vs) _ ls q in
    let same : api.to_int n ∷ rest ≡ ls = cc (r) in
    let (all, count) = layer_numbers-AreInts api root vs rest e' in
    rw (sym same) (((n, View-number (api.view v) n e, refl), all), omega (arith, count))

module _ {J N F : Type 0} (api : Json J N F) where
  -- The layer map that is read is the one of the document, and the buffer has room for it.
  pub layer_map-IsMap :
      (root : J) (fa_max : ℕ) (ls : List ℤ)
      → layer_map api (source api root) fa_max ≡ listed ls
      → IsMap api root ls × (length ls ≤ fa_max)
  unfolding layer_map
  layer_map-IsMap root fa_max ls h =
      elim (Option-cases (find api (source api root) full_attn_layers none)) [
        | inl e ↦ absurd (ground (arith, e, h))
        | inr (v, e) ↦ elim (View-cases (api.view v)) [
          | inr other ↦ absurd (ground (arith, e, other, h))
          | inl (vs, a) ↦ elim (Bool-cases (length vs == 0)) [
            | inl empty ↦ absurd (ground (arith, e, a, empty, h))
            | inr full ↦ elim (Bool-cases (ltb fa_max (length vs))) [
              | inl long ↦ absurd (ground (arith, e, a, full, long, h))
              | inr fits ↦ elim (Option-cases (layer_numbers api vs)) [
                | inl bad ↦ absurd (ground (arith, e, a, full, fits, bad, h))
                | inr (xs, good) ↦
                    let same : listed xs ≡ listed ls = ground (arith, e, a, full, fits, good, h) in
                    let here : xs ≡ ls = cc (same) in
                    let (all, count) = layer_numbers-AreInts api root vs xs good in
                    rw (sym here) (
                      (
                        v,
                        vs,
                        sym (find-in_objects api root full_attn_layers none) ∙ e,
                        a,
                        ground (arith, full),
                        all,
                      ),
                      ground (arith, fits, count),
                    )
              ]
            ]
          ]
        ]
      ]

  pub fields-IsRead :
      (root : J) (fa : List ℤ)
      → IsMap api root fa
      → All (λ p. (n : N) × (number api (source api root) p.0 p.1 ≡ some n)) required
      → IsRead api root (fields api (source api root) fa)
  unfolding fields
  fields-IsRead root fa map
        (
          p0,
          (
            p1,
            (
              p2,
              (
                p3,
                (
                  p4,
                  (
                    p5,
                    (
                      p6,
                      (
                        p7,
                        (
                          p8,
                          (
                            p9,
                            (
                              p10,
                              (
                                p11,
                                (
                                  p12,
                                  (
                                    p13,
                                    (
                                      p14,
                                      (
                                        p15,
                                        (
                                          p16,
                                          (p17, (p18, (p19, (p20, (p21, (p22, (p23, (p24, _)))))))),
                                        ),
                                      ),
                                    ),
                                  ),
                                ),
                              ),
                            ),
                          ),
                        ),
                      ),
                    ),
                  ),
                ),
              ),
            ),
          ),
        ) =
      record {
        hidden = cfg_i-IsInt api root hidden_size none p0;
        n_layers = cfg_i-IsInt api root num_hidden_layers none p1;
        vocab = cfg_i-IsInt api root vocab_size none p2;
        rms_eps = cfg_f-IsFloat api root rms_norm_eps none p3;
        kda_heads = cfg_i-IsInt api root num_heads (some kda_num_heads) p4;
        kda_head_dim = cfg_i-IsInt api root head_dim (some kda_head_dim) p5;
        conv_k = cfg_i-IsInt api root short_conv_kernel_size none p6;
        gate_lb = cfg_f-IsFloat api root gate_lower_bound none p7;
        n_heads = cfg_i-IsInt api root num_attention_heads none p8;
        q_lora = cfg_i-IsInt api root q_lora_rank none p9;
        kv_lora = cfg_i-IsInt api root kv_lora_rank none p10;
        qk_nope = cfg_i-IsInt api root qk_nope_head_dim none p11;
        qk_rope = cfg_i-IsInt api root qk_rope_head_dim none p12;
        v_head = cfg_i-IsInt api root v_head_dim none p13;
        n_experts = cfg_i-IsInt api root num_experts none p14;
        topk = cfg_i-IsInt api root num_experts_per_token none p15;
        n_shared = cfg_i-IsInt api root num_shared_experts none p16;
        latent = cfg_i-IsInt api root routed_expert_hidden_size none p17;
        moe_inter = cfg_i-IsInt api root moe_intermediate_size none p18;
        routed_scale = cfg_f-IsFloat api root routed_scaling_factor none p19;
        first_dense = cfg_i-IsInt api root first_k_dense_replace none p20;
        dense_inter = cfg_i-IsInt api root intermediate_size none p21;
        attn_res_block = cfg_i-IsInt api root attn_res_block_size none p22;
        situ_b1 = cfg_f-IsFloat api root activation_situ_beta (some situ_beta) p23;
        situ_b2 = cfg_f-IsFloat api root activation_situ_linear_beta (some situ_linear_beta) p24;
        mla_out_gate = cfg_b-IsFlag api root mla_use_output_gate;
        moe_renorm = cfg_b-IsFlag api root moe_renormalize;
        latent_norm = cfg_b-IsFlag api root latent_moe_use_norm;
        full_attn = map;
      }
