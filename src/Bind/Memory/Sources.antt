-- ===== src/Bind/Memory/Sources.antt =====
-- What `k3_bind_layer_mem` of src/model/k3_bind.c binds: each request to bytes of its own extent, in
-- the run or in a copy that has a range of the widen buffer for itself.
use kimi_k3_for_me.Prelude.{
  ℕ, ◌+◌, ◌-◌, ◌*◌, ◌/◌, ◌%◌, ◌≤◌, ◌≡◌, ◌⊎◌, inl, inr, refl, sym, ap, ◌∙◌, Bool, true, false, not,
  ◌||◌, List, [], ◌∷◌, ◌++◌, Option, some, ltb, ◌==◌, arith, subst, All, All-append,
}
use native.Mathlib.Omega.{div_any}
use mathlib.Core.List.{append_assoc, append-nil}
use kimi_k3_for_me.Header.Rest.{picked_if}
use kimi_k3_for_me.Bind.Requests.{Weight, Req}
use kimi_k3_for_me.Bind.{align8, is_bf16, Write}
use kimi_k3_for_me.Bind.Resolve.{IsLaid, IsLaid-append}
use kimi_k3_for_me.Bind.Memory.{
  Extent, is_f32, is_i8r, stored_size, Dest, run, widen, dequantised, Bound, Mem, bind_at,
  bind_copy, bind_rows,
}

-- The destination reads bytes of the extent, in a format that it can read.
abbrev pub IsSource : Req → Extent → Dest → Type 0
IsSource q e (run o) =
    (o ≡ e.off)
    × (((is_i8r e.dtype ≡ true) × (q.narrow ≡ true))
        ⊎ ((q.want * stored_size e.dtype ≤ e.nbytes)
            × ((is_f32 e.dtype ≡ true) ⊎ ((is_bf16 e.dtype ≡ true) × (q.narrow ≡ true)))))
IsSource q e (widen w n) = (is_bf16 e.dtype ≡ true) × (n ≡ q.take) × (n * 2 ≤ e.nbytes)
IsSource q e (dequantised w rows cols) =
    (is_i8r e.dtype ≡ true) × (rows * cols ≡ q.take) × (rows * (4 + cols) ≡ e.nbytes)

-- The range of the widen buffer that a destination fills.
abbrev pub copy_of : Dest → List Write
copy_of (run o) = []
copy_of (widen w n) = record { off = w; bytes = n * 4 } ∷ []
copy_of (dequantised w rows cols) = record { off = w; bytes = rows * cols * 4 } ∷ []

abbrev pub copies : List Bound → List Write
copies [] = []
copies (b ∷ bs) = copy_of b.dest ++ copies bs

copies-append : (xs ys : List Bound) → copies (xs ++ ys) ≡ copies xs ++ copies ys
copies-append [] ys = refl
copies-append (x ∷ xs) ys =
    ap (λ t. copy_of x.dest ++ t) (copies-append xs ys)
    ∙ sym (append_assoc (copy_of x.dest) (copies xs) (copies ys))

module _ (find : Weight → Option Extent) where
  pub record IsBound (q : Req) (b : Bound) : Type 0 where
    pub extent : Extent
    pub found : find q.weight ≡ some extent
    pub same : b.weight ≡ q.weight
    pub reads : IsSource q extent b.dest

  -- One binding for each request, in their order.
  abbrev pub AreBound : List Req → List Bound → Type 0
  AreBound [] [] = Unit
  AreBound [] (b ∷ bs) = ⊥
  AreBound (q ∷ qs) [] = ⊥
  AreBound (q ∷ qs) (b ∷ bs) = IsBound q b × AreBound qs bs

  AreBound-append :
      (qs : List Req) (bs : List Bound) (q : Req) (b : Bound)
      → AreBound qs bs
      → IsBound q b
      → AreBound (qs ++ (q ∷ [])) (bs ++ (b ∷ []))
  AreBound-append [] [] q b h s = (s, tt)
  AreBound-append [] (y ∷ bs) q b h s = elim h [ ]
  AreBound-append (x ∷ qs) [] q b h s = elim h [ ]
  AreBound-append (x ∷ qs) (y ∷ bs) q b (p, h) s = (p, AreBound-append qs bs q b h s)

  -- A narrow request is BF16 in the run.
  abbrev pub IsNative : Req → Type 0
  IsNative q = (e : Extent) → find q.weight ≡ some e → q.narrow ≡ true → is_bf16 e.dtype ≡ true

  -- What the loop keeps, with the requests `done` behind it and a buffer of `cap` bytes.
  pub record IsMem (cap : ℕ) (m : Mem) (done : List Req) : Type 0 where
    pub bound : AreBound done m.bound
    pub laid : IsLaid 0 (copies m.bound) m.used
    pub room : m.used ≤ cap
    pub native : m.narrowed_all ≡ true → m.i8_seen ≡ false → All IsNative done

  put-IsMem :
      (cap : ℕ) (m : Mem) (done : List Req) (q : Req) (b : Bound) (u : ℕ) (n i : Bool)
      → IsMem cap m done
      → IsBound q b
      → IsLaid 0 (copies m.bound ++ copies (b ∷ [])) u
      → u ≤ cap
      → (n ≡ true → i ≡ false → (m.narrowed_all ≡ true) × (m.i8_seen ≡ false) × IsNative q)
      → IsMem cap
          (record { bound = m.bound ++ (b ∷ []); used = u; narrowed_all = n; i8_seen = i })
          (done ++ (q ∷ []))
  put-IsMem cap m done q b u n i h s laid room native = record {
    bound = AreBound-append done m.bound q b h.bound s;
    laid = subst (λ ws. IsLaid 0 ws u) (sym (copies-append m.bound (b ∷ []))) laid;
    room = room;
    native = λ p r.
        let (a, c, d) = native p r in All-append IsNative done (q ∷ []) (h.native a c) (d, tt);
  }

-- The rows of an int8 extent.
rows_lem :
    (nb take rows cols : ℕ)
    → take ≤ nb
    → (nb - take) % 4 ≡ 0
    → rows ≡ (nb - take) / 4
    → rows * cols ≡ take
    → rows * (4 + cols) ≡ nb
rows_lem nb take rows cols le m r e = omega (arith, le, m, r, e)

mod_zero : (a b : ℕ) → a % b ≡ 0 → b * (a / b) ≡ a
mod_zero a b h = omega (arith, h, div_any a b)

module _ (find : Weight → Option Extent) (cap : ℕ) where
  pub bind_copy-IsMem :
      (q : Req) (e : Extent) (to : ℕ → Dest) (m m' : Mem) (done : List Req)
      → IsMem find cap m done
      → find q.weight ≡ some e
      → ((w : ℕ) → copy_of (to w) ≡ record { off = w; bytes = q.take * 4 } ∷ [])
      → ((w : ℕ) → IsSource q e (to w))
      → (m.i8_seen ≡ false → q.narrow ≡ false)
      → bind_copy cap q to m ≡ some m'
      → IsMem find cap m' (done ++ (q ∷ []))
  unfolding bind_copy
  bind_copy-IsMem q e to m m' done h f fills reads wide g =
      let w = align8 m.used in
      let b : Bound = record { weight = q.weight; dest = to w } in
      elim (picked_if (ltb cap (w + q.take * 4)) _ _ (some m') g) [
        | inl (full, r) ↦ absurd cc
        | inr (fits, r) ↦
            let same : record (bind_at q.weight (to w) m) { used = w + q.take * 4 } ≡ m' = cc (r) in
            let at : copies (b ∷ []) ≡ record { off = w; bytes = q.take * 4 } ∷ [] =
              append-nil (copy_of (to w)) ∙ fills w in
            subst (λ x. IsMem find cap x (done ++ (q ∷ []))) same
              (put-IsMem find cap m done q b (w + q.take * 4) m.narrowed_all m.i8_seen h
                (record { extent = e; found = f; same = refl; reads = reads w })
                (subst (λ ws. IsLaid 0 (copies m.bound ++ ws) (w + q.take * 4)) (sym at)
                  (IsLaid-append (copies m.bound) 0 m.used (record { off = w; bytes = q.take * 4 })
                    h.laid (omega arith) (omega arith)))
                (ground (arith, fits))
                (λ p i. (p, i, λ x fx nar. absurd (ground (arith, wide i, nar)))))
      ]

  -- A binding in the run.
  pub bind_run-IsMem :
      (q : Req) (e : Extent) (m : Mem) (done : List Req) (n i : Bool)
      → IsMem find cap m done
      → find q.weight ≡ some e
      → IsSource q e (run e.off)
      → (n ≡ true → i ≡ false → (m.narrowed_all ≡ true) × (m.i8_seen ≡ false) × IsNative find q)
      → IsMem find cap
          (record (bind_at q.weight (run e.off) m) { narrowed_all = n; i8_seen = i })
          (done ++ (q ∷ []))
  bind_run-IsMem q e m done n i h f reads native =
      put-IsMem find cap m done q (record { weight = q.weight; dest = run e.off }) m.used n i h
        (record { extent = e; found = f; same = refl; reads = reads })
        (subst (λ ws. IsLaid 0 ws m.used) (sym (append-nil (copies m.bound))) h.laid) h.room native

  pub bind_rows-IsMem :
      (q : Req) (e : Extent) (m m' : Mem) (done : List Req)
      → IsMem find cap m done
      → find q.weight ≡ some e
      → is_i8r e.dtype ≡ true
      → bind_rows cap q e m ≡ some m'
      → IsMem find cap m' (done ++ (q ∷ []))
  unfolding bind_rows
  bind_rows-IsMem q e m m' done h f i8 g =
      let rows = (e.nbytes - q.take) / 4 in
      elim (picked_if q.narrow _ _ (some m') g) [
        | inl (narrow, r) ↦
            let same : record (bind_at q.weight (run e.off) m) { i8_seen = true } ≡ m' = cc (r) in
            subst (λ x. IsMem find cap x (done ++ (q ∷ []))) same
              (bind_run-IsMem q e m done m.narrowed_all true h f (refl, inl (i8, narrow))
                (λ p i. absurd cc))
        | inr (other, r) ↦
            elim (picked_if (ltb e.nbytes q.take || not ((e.nbytes - q.take) % 4 == 0)) _ _
              (some m') r) [
                | inl (bad, r') ↦ absurd cc
                | inr (good, r') ↦
                    elim (picked_if (rows == 0 || not (q.take % rows == 0)) _ _ (some m') r') [
                      | inl (odd, r'') ↦ absurd cc
                      | inr (even, r'') ↦
                          let whole = mod_zero q.take rows (ground (arith, even)) in
                          bind_copy-IsMem q e (λ w. dequantised w rows (q.take / rows)) m m' done h
                            f (λ w. ap (λ n. record { off = w; bytes = n * 4 } ∷ []) whole)
                            (λ w. (
                              i8,
                              whole,
                              rows_lem e.nbytes q.take rows (q.take / rows) (ground (arith, good))
                                  (ground (arith, good)) refl whole,
                            ))
                            (λ i. other) r''
                    ]
              ]
      ]
