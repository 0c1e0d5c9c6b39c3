-- ===== src/Load/Bytes/Sound.antt =====
-- `k3_expert_load_direct` (src/io/k3_load.c) keeps the promise that the cache relies on.
use kimi_k3_for_me.Prelude.{
  ℕ, ◌+◌, ◌≤◌, ◌≡◌, refl, Bool, true, false, List, [], ◌∷◌, Option, arith, Option-cases, Bool-cases,
  subst, sym, ap, ◌∙◌, inl, inr,
}
use kimi_k3_for_me.Prelude.Int.{pos}
use kimi_k3_for_me.Index.Tensor.{Tensor}
use kimi_k3_for_me.Read.{Store, Media, Reply, read_aligned}
use kimi_k3_for_me.Read.Promise.{IsMedia, IsReply}
use kimi_k3_for_me.Read.Laws.{read_aligned-IsReply}
use kimi_k3_for_me.Load.Geometry.{QMat, ExpertRef}
use kimi_k3_for_me.Load.Reference.{Pair, arranged, total}
use kimi_k3_for_me.Load.Reference.Placed.{IsPlaced}
use kimi_k3_for_me.Load.Reference.Laws.{IsReference, IsMatrix, IsShaped, scattered}
use kimi_k3_for_me.Load.Bytes.{read_into, load_matrices, expert_load, load_direct, pad_of}
use kimi_k3_for_me.Load.Bytes.Laws.{
  Has, HasMatrix, Complete, load_matrices-next, read_list, read_list-Has, size, ArePacked,
}
use kimi_k3_for_me.Cache.State.{Loaded}
use kimi_k3_for_me.Cache.Admit.Laws.{IsSound}

module _ (s : Store) (m : Media) (ok : IsMedia m) (find : ℕ → ℕ → ℕ → Bool → Option Tensor)
    (bufcap : ℕ) (buf : ℕ → ℕ) where
  -- A reply for a run has each tensor of the run.
  reply-Has :
      (shard off nbytes at : ℕ) (x : Reply) (t : Tensor)
      → IsReply (m.content shard) off nbytes bufcap buf x
      → x.got ≡ nbytes
      → at + t.nbytes ≤ nbytes
      → off + at ≡ t.off
      → t.shard ≡ shard
      → Has m.content x.buf (pad_of x.pad + at) t
  reply-Has shard off nbytes at x t w full fits place home = record {
    bytes = λ j lt. elim (Option-cases x.pad) [
      | inl e ↦ let nothing = w.unset e in absurd (omega arith)
      | inr (y, e) ↦
          subst (λ z. x.buf (pad_of z + at + j) ≡ m.content t.shard (t.off + j)) (sym e)
            (ap x.buf (omega arith)
              ∙ (w.bytes y (at + j) e (omega arith)
                  ∙ (ap (m.content shard) (omega arith)
                      ∙ ap (λ z. m.content z (t.off + j)) (sym home))))
    ];
  }

  reply-HasMatrix :
      (r : ExpertRef) (x : Reply) (p : Pair) (q : QMat)
      → IsReply (m.content r.shard) r.off r.nbytes bufcap buf x
      → x.got ≡ r.nbytes
      → r.contiguous ≡ true
      → IsShaped r.shard p
      → IsPlaced r p q
      → HasMatrix m.content x.buf (pad_of x.pad) p q
  reply-HasMatrix r x p q w full run sh pl =
      let a = pl.p_size in
      let b = pl.s_size in
      let c = pl.p_inside in
      let d = pl.s_inside in
      (
        reply-Has r.shard r.off r.nbytes q.p_off x p.pk w full (omega arith) (pl.p_run run)
            sh.together.0,
        reply-Has r.shard r.off r.nbytes q.s_off x p.sc w full (omega arith) (pl.s_run run)
            sh.together.1,
      )

  -- The three matrices of a reference, read one after the other.
  abbrev six : Pair → Pair → Pair → ExpertRef → List (Tensor × ℕ)
  six a b c r =
      (a.pk, r.m0.p_off)
      ∷ (a.sc, r.m0.s_off)
      ∷ (b.pk, r.m1.p_off)
      ∷ (b.sc, r.m1.s_off)
      ∷ (c.pk, r.m2.p_off)
      ∷ (c.sc, r.m2.s_off)
      ∷ []

  load_matrices-read_list :
      (look : ℕ → Bool → Option Tensor) (r : ExpertRef) (a b c : Pair)
      → IsMatrix look 0 a
      → IsMatrix look 1 b
      → IsMatrix look 2 c
      → load_matrices s m look 0 (r.m0 ∷ r.m1 ∷ r.m2 ∷ []) 0 buf
        ≡ read_list s m ok (six a b c r) 0 buf
  unfolding load_matrices read_list
  load_matrices-read_list look r a b c x y z =
      let r1 = read_into s m a.pk r.m0.p_off buf in
      let r2 = read_into s m a.sc r.m0.s_off r1.1 in
      let r3 = read_into s m b.pk r.m1.p_off r2.1 in
      let r4 = read_into s m b.sc r.m1.s_off r3.1 in
      load_matrices-next s m ok look 0 r.m0 (r.m1 ∷ r.m2 ∷ []) 0 buf a x
      ∙ (load_matrices-next s m ok look 1 r.m1 (r.m2 ∷ []) (0 + r1.0 + r2.0) r2.1 b y
          ∙ load_matrices-next s m ok look 2 r.m2 [] (0 + r1.0 + r2.0 + r3.0 + r4.0) r4.1 c z)

  -- Whether a load has put all of an expert into the buffer.
  abbrev Kept : ExpertRef → Pair → Pair → Pair → Loaded (ℕ → ℕ) → Type 0
  Kept r a b c l =
      l.got ≡ pos r.nbytes
      → HasMatrix m.content l.bytes l.pad a r.m0
        × HasMatrix m.content l.bytes l.pad b r.m1
        × HasMatrix m.content l.bytes l.pad c r.m2

  load_direct-run :
      (r : ExpertRef)
      → r.contiguous ≡ true
      → let x = read_aligned s m (pos r.shard) (pos r.off) (pos r.nbytes) bufcap buf in
        load_direct s m find bufcap buf r
        ≡ record { got = pos x.got; pad = pad_of x.pad; bytes = x.buf }
  unfolding load_direct
  load_direct-run r h = rw (h, load_direct) refl

  run-Kept :
      (r : ExpertRef) (a b c : Pair)
      → r.contiguous ≡ true
      → IsReference (find r.layer r.expert) r.layer r.expert r a b c
      → Kept r a b c (load_direct s m find bufcap buf r)
  run-Kept r a b c run ref =
      let x = read_aligned s m (pos r.shard) (pos r.off) (pos r.nbytes) bufcap buf in
      let w = read_aligned-IsReply s m r.shard r.off r.nbytes bufcap buf ok in
      let (sa, sb, sc) = ref.shaped in
      let (pa, pb, pc) = ref.placed in
      subst (Kept r a b c) (sym (load_direct-run r run)) (λ (h : pos x.got ≡ pos r.nbytes).
        let full : x.got ≡ r.nbytes = cc (h) in
        (
          reply-HasMatrix r x a r.m0 w full run sa pa,
          reply-HasMatrix r x b r.m1 w full run sb pb,
          reply-HasMatrix r x c r.m2 w full run sc pc,
        ))

  load_direct-scattered :
      (r : ExpertRef)
      → r.contiguous ≡ false
      → let x = load_matrices s m (find r.layer r.expert) 0 (r.m0 ∷ r.m1 ∷ r.m2 ∷ []) 0 buf in
        load_direct s m find bufcap buf r ≡ record { got = pos x.0; pad = 0; bytes = x.1 }
  unfolding load_direct expert_load
  load_direct-scattered r h = rw (h, load_direct, expert_load) refl

  arranged-ArePacked :
      (layer expert : ℕ) (a b c : Pair)
      → let r = arranged layer expert a b c false in
        ArePacked s m ok (six a b c r) × (size s m ok (six a b c r) ≡ r.nbytes)
  unfolding arranged total
  arranged-ArePacked layer expert a b c = (ground arith, omega arith)

  scattered-Kept :
      (r : ExpertRef) (a b c : Pair)
      → r.contiguous ≡ false
      → IsReference (find r.layer r.expert) r.layer r.expert r a b c
      → Kept r a b c (load_direct s m find bufcap buf r)
  scattered-Kept r a b c apart ref =
      let look = find r.layer r.expert in
      let (fa, fb, fc) = ref.found in
      let P : ExpertRef → Type 0 =
        λ x. ArePacked s m ok (six a b c x) × (size s m ok (six a b c x) ≡ x.nbytes) in
      let (packed, all) =
        subst P (sym (scattered look r.layer r.expert r a b c ref apart))
          (arranged-ArePacked r.layer r.expert a b c) in
      let x = read_list s m ok (six a b c r) 0 buf in
      let e =
        load_direct-scattered r apart
        ∙ ap (λ (y : ℕ × (ℕ → ℕ)). record { got = pos y.0; pad = 0; bytes = y.1 })
            (load_matrices-read_list look r a b c fa fb fc) in
      subst (Kept r a b c) (sym e) (λ (h : pos x.0 ≡ pos r.nbytes).
        let full : x.0 ≡ r.nbytes = cc (h) in
        let w = read_list-Has s m ok (six a b c r) 0 buf packed (omega arith) in
        let v = w.1.1 in
        (
          (at_zero x.1 r.m0.p_off a.pk w.0, at_zero x.1 r.m0.s_off a.sc w.1.0),
          (at_zero x.1 r.m1.p_off b.pk v.0, at_zero x.1 r.m1.s_off b.sc v.1.0),
          (at_zero x.1 r.m2.p_off c.pk v.1.1.0, at_zero x.1 r.m2.s_off c.sc v.1.1.1.0),
        ))
    where
      at_zero :
          (out : ℕ → ℕ) (at : ℕ) (t : Tensor)
          → Has m.content out at t
          → Has m.content out (0 + at) t
      at_zero out at t w = subst (λ (y : ℕ). Has m.content out y t) (omega arith) w

  -- What a load that succeeds has done, whatever the tensors and however the reads went: if
  -- `k3_expert_load_direct` returns the size of the expert of a reference, then the buffer has, from
  -- the reported offset on, the bytes of all six of its tensors at the places that the reference
  -- says, whether the expert is one run of its shard or scattered.
  pub load_direct-HasMatrix :
      (r : ExpertRef) (a b c : Pair)
      → IsReference (find r.layer r.expert) r.layer r.expert r a b c
      → (load_direct s m find bufcap buf r).got ≡ pos r.nbytes
      → let x = load_direct s m find bufcap buf r in
        HasMatrix m.content x.bytes x.pad a r.m0
        × HasMatrix m.content x.bytes x.pad b r.m1
        × HasMatrix m.content x.bytes x.pad c r.m2
  load_direct-HasMatrix r a b c ref full = elim (Bool-cases r.contiguous) [
    | inl run ↦ run-Kept r a b c run ref full
    | inr apart ↦ scattered-Kept r a b c apart ref full
  ]

  pub load_direct-IsSound : IsSound (Complete m.content find) (load_direct s m find bufcap buf)
  load_direct-IsSound r full a b c ref = load_direct-HasMatrix r a b c ref full
