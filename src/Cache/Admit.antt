-- ===== src/Cache/Admit.antt =====
-- `fill_q` and `admit` of src/cache/k3_cache.c, with the bookkeeping that the loading paths share.
pub mod Table
pub mod Laws
pub mod Frame
use kimi_k3_for_me.Prelude.{
  ℕ, ◌+◌, ◌*◌, Bool, true, false, Option, none, some, ltb, if◌then◌else◌, add64, bump,
}
use kimi_k3_for_me.Prelude.Arrays.{update}
use kimi_k3_for_me.Prelude.Int.{eq_pos, pos_part}
use kimi_k3_for_me.Load.Geometry.{ExpertRef}
use kimi_k3_for_me.Cache.State.{Cache, Loaded, empty, inflight, holds, key}
use kimi_k3_for_me.Cache.Victim.{pick_victim}

-- The pointers of `K3ExpertQ`, as offsets into the arena.
pub record ExpertQ : Type 0 where
  pub p1 : ℕ
  pub s1 : ℕ
  pub p2 : ℕ
  pub s2 : ℕ
  pub p3 : ℕ
  pub s3 : ℕ

module _ {B : Type 0} where
  unfoldable pub fill_q : Cache B → ℕ → ExpertQ
  fill_q c slot = record {
    p1 = base + m0.p_off;
    s1 = base + m0.s_off;
    p2 = base + m1.p_off;
    s2 = base + m1.s_off;
    p3 = base + m2.p_off;
    s3 = base + m2.s_off;
  }
    where
      open (c.ref slot) use {m0, m1, m2}

      base : ℕ
      base = slot * c.slot_bytes + c.pad slot

  -- `c->used_at[slot] = ++c->clock`.
  unfoldable pub touch : Cache B → ℕ → Cache B
  touch c slot = record c { clock = bump c.clock; used_at = update c.used_at slot (bump c.clock) }

  -- A victim that holds a key gives it up.
  unfoldable pub evict : Cache B → ℕ → Cache B
  evict c slot = record c {
    slot_of = elim (c.key_of slot) [ holds k ↦ update c.slot_of k none | _ ↦ c.slot_of ];
    evictions = elim (c.key_of slot) [ holds k ↦ bump c.evictions | _ ↦ c.evictions ];
  }

  -- A slot whose read failed is left empty.
  unfoldable pub vacate : Cache B → ℕ → Cache B
  vacate c slot = record c { key_of = update c.key_of slot empty }

  -- A slot is reserved for a read.
  unfoldable pub reserve : Cache B → ℕ → Cache B
  unfolding touch
  reserve c slot = touch (record c { key_of = update c.key_of slot inflight }) slot

  -- A read writes its slot, whether or not all of it arrives. A slot is a buffer of its own: what is read
  -- into it is at most `slot_bytes` long, since that is the size that the read is given.
  unfoldable pub store : Cache B → ℕ → Loaded B → Cache B
  store c slot l = record c { arena = update c.arena slot l.bytes }

  -- A slot is registered to its key after its read succeeded.
  unfoldable pub publish : Cache B → ℕ → ℕ → ExpertRef → Loaded B → Cache B
  unfolding touch
  publish c slot k r l =
      touch
        (record c {
          ref = update c.ref slot r;
          pad = update c.pad slot l.pad;
          key_of = update c.key_of slot (holds k);
          slot_of = update c.slot_of k (some slot);
          fresh = update c.fresh slot true;
          bytes_read = add64 c.bytes_read (pos_part l.got);
        })
        slot

  -- The end of `admit`, from the read on.
  unfoldable pub finish : Cache B → ℕ → ℕ → ExpertRef → Loaded B → Cache B × Option ℕ
  unfolding store publish vacate
  finish c slot k r l =
      if eq_pos l.got r.nbytes
      then (publish (store c slot l) slot k r l, some slot)
      else (vacate (store c slot l) slot, none)

  -- `find` is `k3_expert_ref` on the checkpoint, and `load` what the read of this call does.
  module _ (find : ℕ → ℕ → Option ExpertRef) (load : ExpertRef → Loaded B) where
    -- The miss path of `admit`.
    unfoldable pub fetch : Cache B → ℕ → ℕ → Cache B × Option ℕ
    unfolding evict finish pick_victim
    fetch c layer expert = elim (find layer expert) [
      | none ↦ (c, none)
      | some r ↦ if ltb c.slot_bytes r.nbytes then (c, none) else elim (pick_victim c false) [
        | none ↦ (c, none)
        | some slot ↦ finish (evict c slot) slot (key c layer expert) r (load r)
      ]
    ]

    unfoldable pub admit : Cache B → ℕ → ℕ → Cache B × Option ℕ
    unfolding touch fetch
    admit c layer expert = elim (c.slot_of (key c layer expert)) [
      | some slot ↦ (touch (record c { hits = bump c.hits }) slot, some slot)
      | none ↦ fetch (record c { misses = bump c.misses }) layer expert
    ]
