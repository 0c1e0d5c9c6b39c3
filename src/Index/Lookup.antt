-- ===== src/Index/Lookup.antt =====
-- What `k3_st_open` accepts and `k3_st_find` returns (src/io/k3_st.c).
use kimi_k3_for_me.Prelude.{
  ℕ, zero, suc, ◌<◌, ◌≤◌, ◌≡◌, ◌≢◌, ◌↔◌, inl, inr, refl, Bool, true, false, List, Option, none,
  some, arith, Option-cases, subst, sym, ◌∙◌, count,
}
use kimi_k3_for_me.Index.{
  Index, Seek, at_free, at_entry, lost, probe_name, enter, fill, bucket_count, open_index,
  find_name,
}
use kimi_k3_for_me.Index.Laws.{Seek-cases, enter-at_free, probe_name-same, fill-IsIndexed}
use kimi_k3_for_me.Index.Probe.{is_taken, probe_name-lost, fill-count, bucket_count-IsPower}

found : (x : Seek) (i : ℕ) → (elim x [ at_entry y ↦ some y | _ ↦ none ] ≡ some i) ↔ (x ≡ at_entry i)
found (at_free k) i = (λ h. absurd cc (h), λ h. absurd cc (h))
found (at_entry y) i = (λ h. cc (h), λ h. cc (h))
found lost i = (λ h. absurd cc (h), λ h. absurd cc (h))

module _ (name : ℕ → List ℕ) (nt : ℕ) where
  -- Some tensor below `n` repeats the name of one before it.
  abbrev pub Repeats : ℕ → Type 0
  Repeats n = (i j : ℕ) × (i < j) × (j < n) × (name i ≡ name j)

  fill-ends :
      (n : ℕ) (b : ℕ → Option ℕ) (key : List ℕ)
      → n ≤ nt
      → fill name (bucket_count nt) n ≡ some b
      → probe_name name (bucket_count nt) b key ≢ lost
  fill-ends n b key le h =
      let (l, e, room, one) = bucket_count-IsPower nt in
      let used = fill-count name (bucket_count nt) n b h in
      subst (λ x. probe_name name x b key ≢ lost) (sym e)
        (probe_name-lost name l b key (omega (arith, subst (λ x. count x (is_taken b) ≤ n) e used)))

  fill-none : (n : ℕ) → n ≤ nt → fill name (bucket_count nt) n ≡ none → Repeats n
  unfolding fill
  fill-none zero le h = absurd cc
  fill-none (suc n) le h = elim (Option-cases (fill name (bucket_count nt) n)) [
    | inl e ↦ let (i, j, lt, below, q) = fill-none n (omega arith) e in (i, j, lt, omega arith, q)
    | inr (b, e) ↦
        let w = fill-IsIndexed name (bucket_count nt) n b e in
        let h' : enter name (bucket_count nt) b n ≡ none = ground arith in
        elim (Seek-cases (probe_name name (bucket_count nt) b (name n))) [
          | inl (k, p) ↦ absurd cc (sym (enter-at_free name (bucket_count nt) b n k p) ∙ h')
          | inr (inl (i, p)) ↦
              let ((k, at), q) = probe_name-same name (bucket_count nt) b (name n) i p in
              (i, n, w.range k i at, omega arith, q)
          | inr (inr p) ↦ absurd (fill-ends n b (name n) (omega arith) e p)
        ]
  ]

  fill-some : (b : ℕ → Option ℕ) → fill name (bucket_count nt) nt ≡ some b → Repeats nt → ⊥
  fill-some b h (i, j, lt, below, q) =
      let w = fill-IsIndexed name (bucket_count nt) nt b h in
      let at = w.found i (omega arith) in
      let same_at = subst (λ x. probe_name name (bucket_count nt) b x ≡ at_entry i) q at in
      let here : i ≡ j = cc (sym same_at ∙ w.found j below) in omega arith

  -- With memory for the table.
  pub open_index-none : (open_index name nt true ≡ none) ↔ Repeats nt
  unfolding open_index
  open_index-none = elim (Option-cases (fill name (bucket_count nt) nt)) [
    | inl e ↦ (λ h. fill-none nt (omega arith) e, λ r. rw (e, open_index) refl)
    | inr (b, e) ↦ (λ h. absurd ground arith, λ r. absurd (fill-some b e r))
  ]

  -- An open index is the table with every tensor entered.
  record Opened (s : Index) : Type 0 where
    table : ℕ → Option ℕ
    filled : fill name (bucket_count nt) nt ≡ some table
    is : s ≡ record { name = name; nt = nt; nbucket = bucket_count nt; bucket = some table }

  opens :
      (b : ℕ → Option ℕ)
      → fill name (bucket_count nt) nt ≡ some b
      → open_index name nt true
        ≡ some record { name = name; nt = nt; nbucket = bucket_count nt; bucket = some b }
  unfolding open_index
  opens b e = rw (e, open_index) refl

  open_index-Opened : (s : Index) (a : Bool) → open_index name nt a ≡ some s → Opened s
  unfolding open_index
  open_index-Opened s false h = absurd cc
  open_index-Opened s true h = elim (Option-cases (fill name (bucket_count nt) nt)) [
    | inl e ↦ absurd ground arith
    | inr (b, e) ↦ record { table = b; filled = e; is = sym (cc (sym (opens b e) ∙ h)) }
  ]

  find-cases :
      (b : ℕ → Option ℕ) (key : List ℕ) (i : ℕ)
      → fill name (bucket_count nt) nt ≡ some b
      → (probe_name name (bucket_count nt) b key ≡ at_entry i) ↔ ((i < nt) × (name i ≡ key))
  find-cases b key i h =
      let w = fill-IsIndexed name (bucket_count nt) nt b h in
      (
        λ e.
            let ((k, at), q) = probe_name-same name (bucket_count nt) b key i e in
            (w.range k i at, q),
        λ (lt, q). subst (λ x. probe_name name (bucket_count nt) b x ≡ at_entry i) q (w.found i lt),
      )

  -- In an index that opened, `k3_st_find` returns a tensor exactly if it is the one with that name.
  pub find_name-some :
      (s : Index) (key : List ℕ) (i : ℕ) (allocated : Bool)
      → open_index name nt allocated ≡ some s
      → (find_name s key ≡ some i) ↔ ((i < nt) × (name i ≡ key))
  unfolding find_name
  find_name-some s key i allocated h =
      let o = open_index-Opened s allocated h in
      let (there, back) = find-cases o.table key i o.filled in
      let (out, into) = found (probe_name name (bucket_count nt) o.table key) i in
      subst (λ x. (find_name x key ≡ some i) ↔ ((i < nt) × (name i ≡ key))) (sym o.is)
        (λ e. there (out e), λ w. into (back w))

  -- Every lookup in an index that opened ends, whatever the name, at a free bucket or at an entry.
  pub find_name-ends :
      (s : Index) (key : List ℕ) (allocated : Bool)
      → open_index name nt allocated ≡ some s
      → (b : ℕ → Option ℕ) × (s.bucket ≡ some b) × (probe_name s.name s.nbucket b key ≢ lost)
  find_name-ends s key allocated h =
      let o = open_index-Opened s allocated h in
      subst
        (λ x. (b : ℕ → Option ℕ) × (x.bucket ≡ some b) × (probe_name x.name x.nbucket b key ≢ lost))
        (sym o.is) (o.table, refl, fill-ends nt o.table key (omega arith) o.filled)
