-- ===== src/Cache/Pipe/Schedule.antt =====
-- The shared cursor of src/cache/k3_cache.c and the threads that draw from it in `pipe_worker`.
use kimi_k3_for_me.Prelude.{
  ℕ, ◌+◌, ◌≤◌, ◌<◌, ◌≡◌, inl, inr, refl, true, false, Option, none, some, arith, ltb, ◌==◌,
  Bool-cases, subst,
}
use kimi_k3_for_me.Prelude.Arrays.{update}
use kimi_k3_for_me.Cache.Pipe.{Pipe, Status, claim_next, is_pending, set_status}
use kimi_k3_for_me.Cache.Pipe.System.{Worker, ready, reading, arrived, gone}

-- The entry that a worker has taken and not settled.
abbrev pub entry_of : {B : Type 0} → Worker B → Option ℕ
entry_of ready = none
entry_of (reading i) = some i
entry_of (arrived i l) = some i
entry_of gone = none

abbrev pub IsOpen : Pipe → ℕ → Type 0
IsOpen p i = is_pending (p.entries i).status ≡ true

pub claim_next-some :
    (p q : Pipe) (i : ℕ)
    → claim_next p ≡ (some i, q)
    → (p.cursor < p.nw) × (i ≡ p.cursor) × (q ≡ record p { cursor = p.cursor + 1 })
unfolding claim_next
claim_next-some p q i h = elim (Bool-cases (ltb p.cursor p.nw)) [
  | inl more ↦
      let pair : Option ℕ × Pipe = (some p.cursor, record p { cursor = p.cursor + 1 }) in
      let same : pair ≡ (some i, q) = ground arith in (ground arith, cc (same), cc (same))
  | inr over ↦
      let pair : Option ℕ × Pipe = (none, p) in
      let same : pair ≡ (some i, q) = ground arith in absurd (cc (same))
]

pub claim_next-none : (p q : Pipe) → claim_next p ≡ (none, q) → (p.nw ≤ p.cursor) × (q ≡ p)
unfolding claim_next
claim_next-none p q h = elim (Bool-cases (ltb p.cursor p.nw)) [
  | inl more ↦
      let pair : Option ℕ × Pipe = (some p.cursor, record p { cursor = p.cursor + 1 }) in
      let same : pair ≡ (none, q) = ground arith in absurd (cc (same))
  | inr over ↦
      let pair : Option ℕ × Pipe = (none, p) in
      let same : pair ≡ (none, q) = ground arith in (ground arith, cc (same))
]

module _ {B : Type 0} where
  -- Each pending entry below the cursor is in the hands of exactly one worker.
  pub record IsScheduled (p : Pipe) (workers : ℕ → Worker B) : Type 0 where
    pub cursor : p.cursor ≤ p.nw
    pub busy : (t i : ℕ) → t < p.nth → entry_of (workers t) ≡ some i → (i < p.cursor) × IsOpen p i
    pub unique :
        (t u i : ℕ)
        → t < p.nth
        → u < p.nth
        → entry_of (workers t) ≡ some i
        → entry_of (workers u) ≡ some i
        → t ≡ u
    pub taken :
        (i : ℕ)
        → i < p.cursor
        → IsOpen p i
        → (t : ℕ) × (t < p.nth) × (entry_of (workers t) ≡ some i)
    pub fresh : (i : ℕ) → p.cursor ≤ i → i < p.nw → IsOpen p i
    pub over : (t : ℕ) → t < p.nth → workers t ≡ gone → p.nw ≤ p.cursor
    pub active : (i : ℕ) → i < p.nw → (p.active ≡ true) × (0 < p.nth)

  pub take-IsScheduled :
      (p : Pipe) (workers : ℕ → Worker B) (t : ℕ)
      → t < p.nth
      → workers t ≡ ready
      → p.cursor < p.nw
      → IsScheduled p workers
      → IsScheduled (record p { cursor = p.cursor + 1 }) (update workers t (reading p.cursor))
  take-IsScheduled p workers t lt idle more s = record {
    cursor = omega arith;
    busy = λ u i hu h. ground (arith, s.busy u i hu, s.fresh i);
    unique = λ u v i hu hv h h'. ground (arith, s.busy u i hu, s.busy v i hv, s.unique u v i hu hv);
    taken = λ i hi h. elim (Bool-cases (p.cursor == i)) [
      | inl same ↦ (t, lt, ground arith)
      | inr other ↦ let (u, hu, e) = s.taken i (ground arith) h in (u, hu, ground (arith, e, idle))
    ];
    fresh = λ i hi h. s.fresh i (omega arith) h;
    over = λ u hu h. ground (arith, s.over u hu);
    active = s.active;
  }

  -- A worker that leaves the entry it holds as it is.
  pub keep-IsScheduled :
      (p : Pipe) (workers : ℕ → Worker B) (t : ℕ) (w : Worker B)
      → t < p.nth
      → entry_of w ≡ entry_of (workers t)
      → (w ≡ gone → p.nw ≤ p.cursor)
      → IsScheduled p workers
      → IsScheduled p (update workers t w)
  keep-IsScheduled p workers t w lt same end s =
      let all : (u : ℕ) → entry_of (update workers t w u) ≡ entry_of (workers u) = λ u.
        elim (Bool-cases (t == u)) [
          | inl e ↦
              let here : t ≡ u = ground arith in
              rw (e) (subst (λ v. entry_of w ≡ entry_of (workers v)) here same)
          | inr e ↦ rw (e) refl
        ] in
      record {
        cursor = s.cursor;
        busy = λ u i hu h. s.busy u i hu (cc (all u, h));
        unique = λ u v i hu hv h h'. s.unique u v i hu hv (cc (all u, h)) (cc (all v, h'));
        taken = λ i hi h. let (u, hu, e) = s.taken i hi h in (u, hu, cc (all u, e));
        fresh = s.fresh;
        over = λ u hu h. ground (arith, s.over u hu, end);
        active = s.active;
      }

  pub land-IsScheduled :
      (p : Pipe) (workers : ℕ → Worker B) (t i : ℕ) (x : Status)
      → t < p.nth
      → entry_of (workers t) ≡ some i
      → is_pending x ≡ false
      → IsScheduled p workers
      → IsScheduled (set_status p i x) (update workers t ready)
  land-IsScheduled p workers t i x lt mine settled s =
      let (low, _) = s.busy t i lt mine in
      record {
        cursor = s.cursor;
        busy = λ u j hu h. ground (arith, s.busy u j hu, s.unique t u i lt hu);
        unique = λ u v j hu hv h h'. ground (arith, s.unique u v j hu hv);
        taken = λ j hj h. let (u, hu, e) = s.taken j hj (ground arith) in (u, hu, ground arith);
        fresh = λ j hj h. ground (arith, s.fresh j hj h);
        over = λ u hu h. ground (arith, s.over u hu);
        active = s.active;
      }
