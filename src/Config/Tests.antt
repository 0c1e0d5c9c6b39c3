-- ===== src/Config/Tests.antt =====
-- A flat configuration for `k3_cfg_load` (include/k3/k3_cfg.h), one with a field missing, and the
-- theorem at the first.
use kimi_k3_for_me.Prelude.{
  ℕ, ◌≡◌, refl, true, false, [], ◌∷◌, Option, none, some, ◌==◌, if◌then◌else◌,
}
use kimi_k3_for_me.Prelude.Int.{pos}
use kimi_k3_for_me.Config.{
  Key, text_config, linear_attn_config, num_hidden_layers, full_attn_layers, hidden_size,
  num_experts, activation_situ_beta, num_experts_per_token, mla_use_output_gate, is_num, is_array,
  Json, Cfg, load_config, is_mla, fields, source,
}
use kimi_k3_for_me.Config.Laws.{IsConfig, load_config-IsConfig}

-- Document 1000 is an object; a smaller one is a number, but for 900 and 901, which are arrays.
abbrev flat : Key → Option ℕ
flat text_config = none
flat linear_attn_config = none
flat mla_use_output_gate = none
flat activation_situ_beta = none
flat num_hidden_layers = some 8
flat num_experts = some 32
flat num_experts_per_token = some 16
flat full_attn_layers = some 900
flat _ = some 5

abbrev json : Json ℕ ℕ ℕ
json = record {
  get = λ j k. if j == 1000 then flat k else (if j == 1001 then without k else none);
  view = λ j. if j == 900 then is_array (4 ∷ 8 ∷ []) else is_num j;
  to_int = pos;
  to_float = λ n. n;
  is_zero = λ n. n == 0;
  no_float = 0;
}
  where
    without : Key → Option ℕ
    without hidden_size = none
    without k = flat k

abbrev config : Cfg ℕ
unfolding fields
config = fields json (source json 1000) (pos 4 ∷ pos 8 ∷ [])

run_load_config : load_config json 96 1000 ≡ some config
unfolding load_config
run_load_config = refl

-- "hidden_size" is not in this one.
run_missing : load_config json 96 1001 ≡ none
unfolding load_config
run_missing = refl

-- The last layer, and the one before it.
run_is_mla : (is_mla config (pos 7) ≡ true) × (is_mla config (pos 6) ≡ false)
unfolding is_mla fields
run_is_mla = (refl, refl)

load_config-IsConfig_example : IsConfig json 96 1000 config
load_config-IsConfig_example = load_config-IsConfig json 96 1000 config run_load_config
