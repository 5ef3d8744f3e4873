-- ===== src/Shield/Scripts/Write.antt =====
-- What the write scripts do to the hash and the member that they are called for, and that they
-- leave every other hash and member alone.
use sluice_go.Naming.Decimal.{itoa}
use sluice_go.Redis.{Redis, Ttl, created, persisted, persistent}
use sluice_go.Redis.Keys.{HashKey, ZKey, hash_eq, z_eq, hash_eq_refl}
use sluice_go.Shield.Fields.{field_p, field_ts, field_v}
use sluice_go.Shield.Pending.{Agree}
use sluice_go.Shield.Scripts.{atomic_write}
use sluice_go.Prelude.{
  ℕ, suc, ◌≡◌, ◌∙◌, false, ◌&&◌, none, some, if◌then◌else◌, Bytes, bytes_eq, arith,
}

pub made_persistent : (t : Ttl) → persisted (created t) ≡ persistent
made_persistent t = ground arith

pub created_twice : (t : Ttl) → created (created t) ≡ created t
created_twice t = ground arith

module _ (r : Redis) (k : HashKey) (z : ZKey) (x : Bytes) (ts : ℕ) (ck : Bytes) (s : r.State) where
  open r use {hget, pttl, zscore}

  pub pttl-atomic_write : pttl (atomic_write r k z x ts ck s) k ≡ persistent
  unfolding atomic_write
  pttl-atomic_write =
      rw (r.pttl-zadd, r.pttl-persist, r.pttl-hincrby, r.pttl-hset, r.pttl-hset, hash_eq_refl k)
        (rw (created_twice, created_twice) (made_persistent (pttl s k)))

  pub hget-atomic_write_p : hget (atomic_write r k z x ts ck s) k field_p ≡ some x
  unfolding atomic_write
  hget-atomic_write_p = rw (
    r.hget-zadd,
    r.hget-persist,
    r.hget-hincrby_other _ k k field_v field_p (rw hash_eq_refl),
    r.hget-hset,
    r.hget-hset,
    hash_eq_refl k,
  )

  hget-atomic_write_before :
      hget (r.hset k field_ts (itoa ts) (r.hset k field_p x s)) k field_v ≡ hget s k field_v
  hget-atomic_write_before = rw (r.hget-hset, r.hget-hset, hash_eq_refl k)

  pub hget-atomic_write_v_new :
      hget s k field_v ≡ none → hget (atomic_write r k z x ts ck s) k field_v ≡ some (itoa 1)
  unfolding atomic_write
  hget-atomic_write_v_new h =
      rw (r.hget-zadd, r.hget-persist)
        (r.hget-hincrby_new _ k field_v (hget-atomic_write_before ∙ h))

  pub hget-atomic_write_v :
      (n : ℕ)
      → hget s k field_v ≡ some (itoa n)
      → hget (atomic_write r k z x ts ck s) k field_v ≡ some (itoa (suc n))
  unfolding atomic_write
  hget-atomic_write_v n h =
      rw (r.hget-zadd, r.hget-persist)
        (r.hget-hincrby_old _ k field_v n (hget-atomic_write_before ∙ h))

  pub zscore-atomic_write :
      (y : ZKey) (m : Bytes)
      → zscore (atomic_write r k z x ts ck s) y m
        ≡ (if z_eq z y && bytes_eq ck m then some ts else zscore s y m)
  unfolding atomic_write
  zscore-atomic_write y m =
      rw (r.zscore-zadd, r.zscore-persist, r.zscore-hincrby, r.zscore-hset, r.zscore-hset)

  module _ (j : HashKey) (other : hash_eq k j ≡ false) where
    pub hget-atomic_write_other : (g : Bytes) → hget (atomic_write r k z x ts ck s) j g ≡ hget s j g
    unfolding atomic_write
    hget-atomic_write_other g = rw (
      r.hget-zadd,
      r.hget-persist,
      r.hget-hincrby_other _ k j field_v g (rw other),
      r.hget-hset,
      r.hget-hset,
      other,
    )

    pub pttl-atomic_write_other : pttl (atomic_write r k z x ts ck s) j ≡ pttl s j
    unfolding atomic_write
    pttl-atomic_write_other =
        rw (r.pttl-zadd, r.pttl-persist, r.pttl-hincrby, r.pttl-hset, r.pttl-hset, other)

    pub atomic_write-Agree :
        (y : ZKey) (m : Bytes)
        → bytes_eq ck m ≡ false
        → Agree r j y m s (atomic_write r k z x ts ck s)
    atomic_write-Agree y m e = record {
      body = hget-atomic_write_other field_p;
      version = hget-atomic_write_other field_v;
      ttl = pttl-atomic_write_other;
      queued = zscore-atomic_write y m ∙ ground (arith, e);
    }
