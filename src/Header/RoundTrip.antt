-- ===== src/Header/RoundTrip.antt =====
-- A header that is written as the format says is read back by the scanner of src/io/k3_st.c.
use kimi_k3_for_me.Prelude.{
  ℕ, zero, suc, ◌+◌, ◌<◌, ◌≡◌, refl, ◌∙◌, Bool, true, false, List, [], ◌∷◌, map, none, some, length,
  arith, All,
}
use kimi_k3_for_me.Header.{ws, lit}
use kimi_k3_for_me.Header.Entry.{Scanned, separated}
use kimi_k3_for_me.Header.Shard.{read_member, read_members, read_object}
use kimi_k3_for_me.Header.Fuel.{read_members-enough, read_member-some}
use kimi_k3_for_me.Header.Print.{
  Written, print_member, print_rest, print_object, scanned, IsWritable,
}
use kimi_k3_for_me.Header.EntryTrip.{read_member-print}

read_members-next :
    (base fsize n : ℕ) (first : Bool) (s t u : List ℕ) (x : Scanned) (xs : List Scanned)
    → lit 125 s ≡ none
    → separated first s ≡ some t
    → lit 125 t ≡ none
    → read_member base fsize t ≡ some (some x, u)
    → read_members base fsize n false u ≡ some xs
    → read_members base fsize (suc n) first s ≡ some (x ∷ xs)
unfolding read_members
read_members-next base fsize n first s t u x xs more e more' h rest =
    rw (more, e, more', h, rest, read_members) refl

-- No member starts with a brace.
lit-print_member : (t : Written) (s : List ℕ) → lit 125 (print_member t s) ≡ none
unfolding lit ws
lit-print_member t s = refl

read_members-print_rest :
    (base fsize : ℕ) (ts : List Written) (s : List ℕ) (n : ℕ)
    → All (IsWritable base fsize) ts
    → length (print_rest ts s) < n
    → read_members base fsize n false (print_rest ts s) ≡ some (map (scanned base) ts)
unfolding read_members lit ws
read_members-print_rest base fsize ts s zero h enough = absurd (omega arith)
read_members-print_rest base fsize [] s (suc n) h enough = refl
read_members-print_rest base fsize (t ∷ ts) s (suc n) h enough =
    let rest = print_rest ts s in
    let member = read_member-print base fsize t h.0 rest in
    let less =
      read_member-some base fsize (print_member t rest) (some (scanned base t)) rest member in
    read_members-next base fsize n false (44 ∷ print_member t rest) (print_member t rest) rest
      (scanned base t) (map (scanned base) ts) refl refl (lit-print_member t rest) member
      (read_members-print_rest base fsize ts s n h.1 (omega (arith, enough, less)))

read_members-close :
    (base fsize n : ℕ) (s : List ℕ) → read_members base fsize (suc n) true (125 ∷ s) ≡ some []
unfolding read_members lit ws
read_members-close base fsize n s = refl

-- A header that is written for tensors as the format says, with numbers within `int64_t`, is read back to
-- those tensors, whatever follows it: in their order, with their names, types, shapes, offsets and sizes.
pub read_object-print_object :
    (base fsize : ℕ) (ts : List Written) (s : List ℕ)
    → All (IsWritable base fsize) ts
    → read_object base fsize (print_object ts s) ≡ some (map (scanned base) ts)
unfolding read_object lit ws
read_object-print_object base fsize [] s h =
    read_members-enough base fsize (length (125 ∷ s) + 1) (suc (length (125 ∷ s))) true (125 ∷ s)
      (omega arith) (omega arith)
    ∙ read_members-close base fsize (length (125 ∷ s)) s
read_object-print_object base fsize (t ∷ ts) s h =
    let rest = print_rest ts s in
    let text = print_member t rest in
    let member = read_member-print base fsize t h.0 rest in
    let less = read_member-some base fsize text (some (scanned base t)) rest member in
    read_members-enough base fsize (length text + 1) (suc (length text)) true text (omega arith)
      (omega arith)
    ∙ read_members-next base fsize (length text) true text text rest (scanned base t)
        (map (scanned base) ts) (lit-print_member t rest) refl (lit-print_member t rest) member
        (read_members-print_rest base fsize ts s (length text) h.1 less)
