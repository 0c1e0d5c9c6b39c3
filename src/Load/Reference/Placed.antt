-- ===== src/Load/Reference/Placed.antt =====
-- Where `k3_expert_ref` (src/io/k3_load.c) places the tensors of an expert.
use kimi_k3_for_me.Prelude.{
  ℕ, ◌+◌, ◌-◌, ◌≤◌, ◌≡◌, refl, Bool, true, false, List, [], ◌∷◌, ltb, ◌==◌, if◌then◌else◌, All,
  All-map, All-pair, ==_iff, arith,
}
use kimi_k3_for_me.Index.Tensor.{Tensor}
use kimi_k3_for_me.Load.Geometry.{QMat, ExpertRef}
use kimi_k3_for_me.Load.Reference.{Pair, placed, all_six, lowest, highest, total, arranged, arrange}

lowest-le : (lo : ℕ) (ts : List Tensor) → (lowest lo ts ≤ lo) × All (λ t. lowest lo ts ≤ t.off) ts
unfolding lowest
lowest-le lo [] = (omega arith, tt)
lowest-le lo (t ∷ ts) =
    let (here, rest) = lowest-le (if ltb t.off lo then t.off else lo) ts in
    (ground arith, (ground arith, rest))

highest-ge :
    (hi : ℕ) (ts : List Tensor)
    → (hi ≤ highest hi ts) × All (λ t. t.off + t.nbytes ≤ highest hi ts) ts
unfolding highest
highest-ge hi [] = (omega arith, tt)
highest-ge hi (t ∷ ts) =
    let (here, rest) = highest-ge (if ltb hi (t.off + t.nbytes) then t.off + t.nbytes else hi) ts in
    (ground arith, (ground arith, rest))

-- A matrix of a reference: both of its ranges lie inside the bytes of the expert, and in one run
-- they lie where the checkpoint has them.
pub record IsPlaced (r : ExpertRef) (p : Pair) (q : QMat) : Type 0 where
  pub p_size : q.p_bytes ≡ p.pk.nbytes
  pub s_size : q.s_bytes ≡ p.sc.nbytes
  pub p_inside : q.p_off + q.p_bytes ≤ r.nbytes
  pub s_inside : q.s_off + q.s_bytes ≤ r.nbytes
  pub p_run : r.contiguous ≡ true → r.off + q.p_off ≡ p.pk.off
  pub s_run : r.contiguous ≡ true → r.off + q.s_off ≡ p.sc.off

-- A tensor in one run.
record InRun (lo own : ℕ) (t : Tensor) : Type 0 where
  first : lo ≤ t.off
  last : t.off - lo + t.nbytes ≤ own

module _ (layer expert : ℕ) (a b c : Pair) where
  abbrev lo : ℕ
  unfolding lowest
  lo = lowest a.pk.off (all_six a b c)

  abbrev own : ℕ
  unfolding total
  own = total 0 (all_six a b c)

  abbrev one_run : Bool
  unfolding highest
  one_run = highest 0 (all_six a b c) - lo == own

  six-InRun : one_run ≡ true → All (InRun lo own) (all_six a b c)
  unfolding highest one_run lo lowest
  six-InRun h =
      let (x, lows) = lowest-le a.pk.off (all_six a b c) in
      let (y, tops) = highest-ge 0 (all_six a b c) in
      let same_size = (==_iff (highest 0 (all_six a b c) - lo) own).0 h in
      let Low : Tensor → Type 0 = λ t. lo ≤ t.off in
      let Top : Tensor → Type 0 = λ t. t.off + t.nbytes ≤ highest 0 (all_six a b c) in
      let at : (t : Tensor) → Low t × Top t → InRun lo own t =
        λ t (p, q). record { first = p; last = omega arith } in
      All-map (λ t. Low t × Top t) (InRun lo own) at (all_six a b c)
        (All-pair Low Top (all_six a b c) lows tops)

  -- The three matrices of a reference.
  abbrev pub ArePlaced : ExpertRef → Type 0
  ArePlaced r = IsPlaced r a r.m0 × IsPlaced r b r.m1 × IsPlaced r c r.m2

  run-ArePlaced : All (InRun lo own) (all_six a b c) → ArePlaced (arranged layer expert a b c true)
  unfolding arranged
  run-ArePlaced w =
      let rest = w.1.1.1.1 in (at a w.0 w.1.0, at b w.1.1.0 w.1.1.1.0, at c rest.0 rest.1.0)
    where
      at :
          (p : Pair)
          → InRun lo own p.pk
          → InRun lo own p.sc
          → IsPlaced (arranged layer expert a b c true) p (placed p (p.pk.off - lo) (p.sc.off - lo))
      at p x y = record {
        p_size = refl;
        s_size = refl;
        p_inside = x.last;
        s_inside = y.last;
        p_run = λ h. let f = x.first in omega arith;
        s_run = λ h. let f = y.first in omega arith;
      }

  packed-ArePlaced : ArePlaced (arranged layer expert a b c false)
  unfolding arranged total
  packed-ArePlaced = (
    at a 0 a.pk.nbytes (omega arith) (omega arith),
    at b (a.pk.nbytes + a.sc.nbytes) (a.pk.nbytes + a.sc.nbytes + b.pk.nbytes) (omega arith)
        (omega arith),
    at c (a.pk.nbytes + a.sc.nbytes + b.pk.nbytes + b.sc.nbytes)
        (a.pk.nbytes + a.sc.nbytes + b.pk.nbytes + b.sc.nbytes + c.pk.nbytes) (omega arith)
        (omega arith),
  )
    where
      at :
          (p : Pair) (p_off s_off : ℕ)
          → p_off + p.pk.nbytes ≤ own
          → s_off + p.sc.nbytes ≤ own
          → IsPlaced (arranged layer expert a b c false) p (placed p p_off s_off)
      at p p_off s_off x y = record {
        p_size = refl;
        s_size = refl;
        p_inside = x;
        s_inside = y;
        p_run = λ (h : false ≡ true). absurd cc;
        s_run = λ (h : false ≡ true). absurd cc;
      }

  pub arrange-ArePlaced : ArePlaced (arrange layer expert a b c)
  unfolding arrange
  arrange-ArePlaced = either one_run six-InRun
    where
      either :
          (t : Bool)
          → (t ≡ true → All (InRun lo own) (all_six a b c))
          → ArePlaced (arranged layer expert a b c t)
      either true w = run-ArePlaced (w refl)
      either false w = packed-ArePlaced
