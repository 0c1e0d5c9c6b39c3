-- ===== src/Bind/Memory/Tests.antt =====
-- Packed runs with a layer of size 1, for `k3_bind_layer_mem` of src/model/k3_bind.c.
use kimi_k3_for_me.Prelude.{
  ◌≡◌, inl, inr, refl, subst, Bool, true, false, List, [], ◌∷◌, if◌then◌else◌, Option, none, some,
  length, arith, All,
}
use kimi_k3_for_me.Index.Tensor.{bf16, f32, i8r}
use kimi_k3_for_me.Bind.Requests.{
  Weight, in_norm, post_norm, attn_res_norm, attn_res_proj, mlp_res_norm, mlp_res_proj, kda_q_conv,
  kda_k_conv, kda_v_conv, kda_A_log, kda_dt_bias, kda_o_norm, moe_bias, moe_gate, moe_latent_norm,
  kda_q, kda_k, kda_v, kda_g, kda_o, kda_f_a, kda_f_b, kda_b, moe_down, moe_up, moe_sh1, moe_sh2,
  moe_sh3, Req, Sizes, layer_requests,
}
use kimi_k3_for_me.Bind.Memory.{Extent, is_i8r, Mem, bind_mem}
use kimi_k3_for_me.Bind.Memory.Tags.{IsFloat}
use kimi_k3_for_me.Bind.Memory.Laws.{IsMapped, bind_mem-IsMapped}
use kimi_k3_for_me.Bind.Memory.Room.{is_counted, IsPacked, bind_mem-some}

-- Every size is 1.
abbrev sizes : Sizes
sizes = record {
  hidden = 1;
  vocab = 1;
  kda_heads = 1;
  kda_head_dim = 1;
  conv_k = 1;
  n_heads = 1;
  q_lora = 1;
  kv_lora = 1;
  qk_nope = 1;
  qk_rope = 1;
  v_head = 1;
  mla_out_gate = true;
  n_experts = 1;
  n_shared = 1;
  latent = 1;
  moe_inter = 1;
  dense_inter = 1;
}

abbrev half : Extent
half = record { off = 64; nbytes = 2; dtype = bf16 }

abbrev full : Extent
full = record { off = 128; nbytes = 4; dtype = f32 }

-- A scale and one value.
abbrev row : Extent
row = record { off = 192; nbytes = 5; dtype = i8r }

-- The vectors that are F32.
abbrev is_full : Weight → Bool
is_full kda_q_conv = true
is_full kda_k_conv = true
is_full kda_v_conv = true
is_full kda_A_log = true
is_full kda_dt_bias = true
is_full kda_o_norm = true
is_full moe_bias = true
is_full w = false

abbrev find : Weight → Option Extent
find w = some (if is_full w then full else half)

-- A run with one matrix in int8 beside those in BF16.
abbrev find_mixed : Weight → Option Extent
find_mixed kda_q = some row
find_mixed w = find w

abbrev empty : Mem
empty = record { bound = []; used = 0; narrowed_all = true; i8_seen = false }

abbrev got : Option (Mem × Bool) → Mem × Bool
got none = (empty, false)
got (some r) = r

abbrev layer : Mem
layer = (got (bind_mem find 8000 sizes false false)).0

-- Eight copies of 4 bytes.
run_bind_mem : (bind_mem find 8000 sizes false false ≡ some (layer, false)) × (layer.used ≡ 60)
unfolding bind_mem
run_bind_mem = (refl, refl)

-- A buffer of 59 bytes is not enough.
run_short : bind_mem find 59 sizes false false ≡ none
unfolding bind_mem
run_short = refl

-- The layer is bound, and tagged K3_WI8.
run_mixed :
    ((got (bind_mem find_mixed 60 sizes false false)).1 ≡ true)
    × (length (got (bind_mem find_mixed 60 sizes false false)).0.bound ≡ 28)
unfolding bind_mem
run_mixed = (refl, refl)

-- No weight of the run is int8.
find-IsFloat : (q : Req) → IsFloat find 8000 q
find-IsFloat q e f n =
    let same : (if is_full q.weight then full else half) ≡ e = cc (f) in
    subst (λ (x : Extent). is_i8r x.dtype ≡ false) same (float (is_full q.weight))
  where
    float : (b : Bool) → is_i8r (if b then full else half).dtype ≡ false
    float true = refl
    float false = refl

all-IsFloat : (qs : List Req) → All (IsFloat find 8000) qs
all-IsFloat [] = tt
all-IsFloat (q ∷ qs) = (find-IsFloat q, all-IsFloat qs)

bind_mem-IsMapped_example : IsMapped find 8000 sizes false false false layer
bind_mem-IsMapped_example =
    bind_mem-IsMapped find 8000 sizes false false false layer
      (inl (all-IsFloat (layer_requests sizes true false false))) run_bind_mem.0

matrix-IsPacked :
    (w : Weight)
    → find w ≡ some half
    → IsPacked find (record { weight = w; want = 1; take = 1; narrow = true })
matrix-IsPacked w f = record {
  extent = half;
  found = f;
  sized = refl;
  prefix = omega arith;
  typed = inl refl;
}

vector-IsPacked :
    (w : Weight)
    → find w ≡ some full
    → IsPacked find (record { weight = w; want = 1; take = 1; narrow = false })
vector-IsPacked w f = record {
  extent = full;
  found = f;
  sized = refl;
  prefix = omega arith;
  typed = refl;
}

norm-IsPacked :
    (w : Weight)
    → find w ≡ some half
    → is_counted w ≡ true
    → IsPacked find (record { weight = w; want = 1; take = 1; narrow = false })
norm-IsPacked w f c = record {
  extent = half;
  found = f;
  sized = refl;
  prefix = omega arith;
  typed = inr c;
}

layer-ArePacked : All (IsPacked find) (layer_requests sizes true false false)
unfolding layer_requests
layer-ArePacked = (
  norm-IsPacked in_norm refl refl,
  (
    norm-IsPacked post_norm refl refl,
    (
      norm-IsPacked attn_res_norm refl refl,
      (
        norm-IsPacked attn_res_proj refl refl,
        (
          norm-IsPacked mlp_res_norm refl refl,
          (
            norm-IsPacked mlp_res_proj refl refl,
            (
              matrix-IsPacked kda_q refl,
              (
                matrix-IsPacked kda_k refl,
                (
                  matrix-IsPacked kda_v refl,
                  (
                    matrix-IsPacked kda_g refl,
                    (
                      matrix-IsPacked kda_o refl,
                      (
                        vector-IsPacked kda_q_conv refl,
                        (
                          vector-IsPacked kda_k_conv refl,
                          (
                            vector-IsPacked kda_v_conv refl,
                            (
                              matrix-IsPacked kda_f_a refl,
                              (
                                matrix-IsPacked kda_f_b refl,
                                (
                                  matrix-IsPacked kda_b refl,
                                  (
                                    vector-IsPacked kda_A_log refl,
                                    (
                                      vector-IsPacked kda_dt_bias refl,
                                      (
                                        vector-IsPacked kda_o_norm refl,
                                        (
                                          norm-IsPacked moe_gate refl refl,
                                          (
                                            vector-IsPacked moe_bias refl,
                                            (
                                              matrix-IsPacked moe_down refl,
                                              (
                                                matrix-IsPacked moe_up refl,
                                                (
                                                  norm-IsPacked moe_latent_norm refl refl,
                                                  (
                                                    matrix-IsPacked moe_sh1 refl,
                                                    (
                                                      matrix-IsPacked moe_sh3 refl,
                                                      (matrix-IsPacked moe_sh2 refl, tt),
                                                    ),
                                                  ),
                                                ),
                                              ),
                                            ),
                                          ),
                                        ),
                                      ),
                                    ),
                                  ),
                                ),
                              ),
                            ),
                          ),
                        ),
                      ),
                    ),
                  ),
                ),
              ),
            ),
          ),
        ),
      ),
    ),
  ),
)

bind_mem-some_example : (m : Mem) × (bind_mem find 8000 sizes false false ≡ some (m, false))
bind_mem-some_example = bind_mem-some find 8000 sizes false false layer-ArePacked (omega arith)
