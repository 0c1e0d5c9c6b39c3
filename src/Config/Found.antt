-- ===== src/Config/Found.antt =====
-- The lookups of include/k3/k3_cfg.h against the document: `k3cfg_find` and what is built on it.
use kimi_k3_for_me.Prelude.{
  ◌≡◌, inl, inr, refl, sym, ap, ◌∙◌, true, not, List, [], ◌∷◌, Option, none, some, Option-cases,
}
use kimi_k3_for_me.Prelude.Int.{pos}
use kimi_k3_for_me.Config.{
  Key, text_config, linear_attn_config, View, is_num, is_bool, is_array, is_other, Json, or_else,
  find_in, find, as_number, number, cfg_i, cfg_f, cfg_b, source,
}
use kimi_k3_for_me.Config.Document.{
  names_of, in_object, in_objects, with_some, attention_in, objects, IsNumber, IsInt, IsFloat,
  IsFlagValue, IsFlag,
}

pub View-number :
    {J N : Type 0} (v : View J N) (n : N)
    → (elim v [ is_num m ↦ some m | _ ↦ none ]) ≡ some n
    → v ≡ is_num n
View-number (is_num m) n h = let e : m ≡ n = cc (h) in ap is_num e
View-number (is_bool b) n h = absurd cc
View-number (is_array vs) n h = absurd cc
View-number is_other n h = absurd cc

module _ {J N F : Type 0} (api : Json J N F) where
  or_else-next :
      (x x' y y' : Option J)
      → x ≡ x'
      → y ≡ y'
      → or_else api x y ≡ elim x' [ some v ↦ some v | none ↦ y' ]
  or_else-next x none y y' p q = ap (λ t. or_else api t y) p ∙ q
  or_else-next x (some v) y y' p q = ap (λ t. or_else api t y) p

  or_else-last : (x : Option J) → x ≡ elim x [ some v ↦ some v | none ↦ none ]
  or_else-last none = refl
  or_else-last (some v) = refl

  find_in-in_object :
      (k : Key) (a : Option Key) (o : J) → find_in api (some o) k a ≡ in_object api (names_of k a) o
  find_in-in_object k none o = or_else-last (api.get o k)
  find_in-in_object k (some b) o =
      or_else-next (api.get o k) (api.get o k) (api.get o b) (in_object api (b ∷ []) o) refl
        (or_else-last (api.get o b))

  -- One object more in front.
  or_else-in_objects :
      (k : Key) (a : Option Key) (o : Option J) (os : List J) (y : Option J)
      → y ≡ in_objects api (names_of k a) os
      → or_else api (find_in api o k a) y ≡ in_objects api (names_of k a) (with_some api o os)
  or_else-in_objects k none none os y p = p
  or_else-in_objects k (some b) none os y p = p
  or_else-in_objects k a (some o) os y p =
      or_else-next (find_in api (some o) k a) (in_object api (names_of k a) o) y
        (in_objects api (names_of k a) os) (find_in-in_object k a o) p

  attention_lem :
      (root : J) (t : Option J)
      → api.get (elim t [ none ↦ root | some t ↦ t ]) linear_attn_config ≡ attention_in api root t
  attention_lem root none = refl
  attention_lem root (some t) = refl

  -- The search of `k3cfg_find` is the first value under the names in the objects.
  pub find-in_objects :
      (root : J) (k : Key) (a : Option Key)
      → find api (source api root) k a ≡ in_objects api (names_of k a) (objects api root)
  unfolding find source
  find-in_objects root k a =
      let txt = api.get root text_config in
      let last : find_in api (some root) k a ≡ in_objects api (names_of k a) (root ∷ []) =
        find_in-in_object k a root ∙ or_else-last (in_object api (names_of k a) root) in
      ap
        (λ l.
          or_else api (find_in api txt k a)
            (or_else api (find_in api l k a) (find_in api (some root) k a)))
        (attention_lem root txt)
      ∙ or_else-in_objects k a txt (with_some api (attention_in api root txt) (root ∷ [])) _
          (or_else-in_objects k a (attention_in api root txt) (root ∷ []) _ last)

  number-IsNumber :
      (root : J) (k : Key) (a : Option Key) (n : N)
      → number api (source api root) k a ≡ some n
      → IsNumber api root (names_of k a) n
  unfolding number
  number-IsNumber root k a n h = elim (Option-cases (find api (source api root) k a)) [
    | inl e ↦ absurd (nothing (ap (as_number api) e))
    | inr (v, e) ↦ (
      v,
      sym (find-in_objects root k a) ∙ e,
      View-number (api.view v) n (sym (ap (as_number api) e) ∙ h),
    )
  ]
    where
      nothing : as_number api (find api (source api root) k a) ≡ none → ⊥
      nothing e = absurd cc (sym e ∙ h)

  pub cfg_i-IsInt :
      (root : J) (k : Key) (a : Option Key)
      → (n : N) × (number api (source api root) k a ≡ some n)
      → IsInt api root (names_of k a) (cfg_i api (source api root) k a)
  unfolding cfg_i
  cfg_i-IsInt root k a (n, e) =
      (n, number-IsNumber root k a n e, ap (λ x. elim x [ none ↦ pos 0 | some m ↦ api.to_int m ]) e)

  pub cfg_f-IsFloat :
      (root : J) (k : Key) (a : Option Key)
      → (n : N) × (number api (source api root) k a ≡ some n)
      → IsFloat api root (names_of k a) (cfg_f api (source api root) k a)
  unfolding cfg_f
  cfg_f-IsFloat root k a (n, e) = (
    n,
    number-IsNumber root k a n e,
    ap (λ x. elim x [ none ↦ api.no_float | some m ↦ api.to_float m ]) e,
  )

  flag_value :
      (root : J) (w : View J N)
      → IsFlagValue api root w (elim w [
        | is_bool b ↦ b
        | is_num n ↦ not (api.is_zero n)
        | is_array _ ↦ true
        | is_other ↦ true
      ])
  flag_value root (is_bool b) = refl
  flag_value root (is_num n) = refl
  flag_value root (is_array vs) = refl
  flag_value root is_other = refl

  pub cfg_b-IsFlag :
      (root : J) (k : Key)
      → IsFlag api root (names_of k none) (cfg_b api (source api root) k none true)
  unfolding cfg_b
  cfg_b-IsFlag root k = elim (Option-cases (find api (source api root) k none)) [
    | inl e ↦ inl (sym (find-in_objects root k none) ∙ e, rw (e, cfg_b) refl)
    | inr (v, e) ↦
        inr (v, sym (find-in_objects root k none) ∙ e, rw (e, cfg_b) (flag_value root (api.view v)))
  ]
