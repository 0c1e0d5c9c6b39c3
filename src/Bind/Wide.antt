-- ===== src/Bind/Wide.antt =====
-- The plans of src/model/k3_bind.c: there is room for them, and with `narrow_ok` 0 nothing in them is
-- narrow.
use kimi_k3_for_me.Prelude.{
  ◌+◌, ◌≤◌, ◌≡◌, inl, inr, refl, sym, ap, ◌∙◌, Bool, true, false, List, [], ◌∷◌, ◌++◌, leb,
  if◌then◌else◌, length, length-append, arith, Bool-cases, All, All-append,
}
use mathlib.Core.List.{append_assoc, append-nil}
use kimi_k3_for_me.Bind.Requests.{
  Req, Sizes, add, add_all, mla_requests, kda_requests, dense_requests, moe_requests,
  layer_requests, model_requests,
}

-- A plan with room for all that is asked.
pub plan_of-requests :
    (qs done : List Req)
    → length done + length qs ≤ 64
    → add_all (record { requests = done; bad = 0 }) qs ≡ record { requests = done ++ qs; bad = 0 }
unfolding add_all add
plan_of-requests [] done h = ap (λ r. record { requests = r; bad = 0 }) (sym (append-nil done))
plan_of-requests (q ∷ qs) done h =
    let has_room : leb 64 (length done) ≡ false = ground arith in
    rw (has_room, add, add_all)
      (plan_of-requests qs (done ++ (q ∷ [])) (omega (arith, length-append done (q ∷ [])))
        ∙ ap (λ r. record { requests = r; bad = 0 }) (append_assoc done (q ∷ []) qs))

-- Without narrow requests nothing is demoted.
abbrev pub AllWide : List Req → Type 0
AllWide = All (λ q. q.narrow ≡ false)

-- Neither plan fills the array of requests.
pub length-layer_requests :
    (c : Sizes) (ok is_mla is_dense : Bool) → length (layer_requests c ok is_mla is_dense) ≤ 64
unfolding layer_requests
length-layer_requests c ok true true = elim (Bool-cases c.mla_out_gate) [
  | inl e ↦ rw (e, layer_requests) (omega arith)
  | inr e ↦ rw (e, layer_requests) (omega arith)
]
length-layer_requests c ok true false = elim (Bool-cases c.mla_out_gate) [
  | inl e ↦ rw (e, layer_requests) (omega arith)
  | inr e ↦ rw (e, layer_requests) (omega arith)
]
length-layer_requests c ok false true = omega arith
length-layer_requests c ok false false = omega arith

pub length-model_requests : (c : Sizes) (ok e l : Bool) → length (model_requests c ok e l) ≤ 64
unfolding model_requests
length-model_requests c ok true true = omega arith
length-model_requests c ok true false = omega arith
length-model_requests c ok false true = omega arith
length-model_requests c ok false false = omega arith

AllWide-append : (xs ys : List Req) → AllWide xs → AllWide ys → AllWide (xs ++ ys)
AllWide-append = All-append (λ q. q.narrow ≡ false)

mla_requests-AllWide : (c : Sizes) → AllWide (mla_requests c false)
mla_requests-AllWide c = elim (Bool-cases c.mla_out_gate) [
  | inl e ↦ rw (e) (refl, (refl, (refl, (refl, (refl, (refl, (refl, (refl, tt))))))))
  | inr e ↦ rw (e) (refl, (refl, (refl, (refl, (refl, (refl, (refl, tt)))))))
]

kda_requests-AllWide : (c : Sizes) → AllWide (kda_requests c false)
kda_requests-AllWide c = (
  refl,
  (
    refl,
    (
      refl,
      (refl, (refl, (refl, (refl, (refl, (refl, (refl, (refl, (refl, (refl, (refl, tt))))))))))),
    ),
  ),
)

dense_requests-AllWide : (c : Sizes) → AllWide (dense_requests c false)
dense_requests-AllWide c = (refl, (refl, (refl, tt)))

moe_requests-AllWide : (c : Sizes) → AllWide (moe_requests c false)
moe_requests-AllWide c = (refl, (refl, (refl, (refl, (refl, (refl, (refl, (refl, tt))))))))

pub layer_requests-AllWide :
    (c : Sizes) (is_mla is_dense : Bool) → AllWide (layer_requests c false is_mla is_dense)
unfolding layer_requests
layer_requests-AllWide c is_mla is_dense =
    (refl, (refl, (refl, (refl, (refl, (refl, AllWide-append _ _ (mixer is_mla) (ffn is_dense)))))))
  where
    mixer : (b : Bool) → AllWide (if b then mla_requests c false else kda_requests c false)
    mixer true = mla_requests-AllWide c
    mixer false = kda_requests-AllWide c

    ffn : (b : Bool) → AllWide (if b then dense_requests c false else moe_requests c false)
    ffn true = dense_requests-AllWide c
    ffn false = moe_requests-AllWide c

pub model_requests-AllWide : (c : Sizes) (e l : Bool) → AllWide (model_requests c false e l)
unfolding model_requests
model_requests-AllWide c true true = (refl, (refl, (refl, (refl, (refl, tt)))))
model_requests-AllWide c true false = (refl, (refl, (refl, (refl, tt))))
model_requests-AllWide c false true = (refl, (refl, (refl, (refl, tt))))
model_requests-AllWide c false false = (refl, (refl, (refl, tt)))
