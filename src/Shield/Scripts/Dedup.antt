-- ===== src/Shield/Scripts/Dedup.antt =====
-- What atomicDedupWriteLua does to its own hash and member, and that it leaves others alone.
use sluice_go.Naming.Decimal.{itoa}
use sluice_go.Redis.{Redis, persistent}
use sluice_go.Redis.Keys.{HashKey, ZKey, hash_eq, z_eq, hash_eq_refl}
use sluice_go.Shield.Fields.{field_p, field_v, field_h}
use sluice_go.Shield.Pending.{Agree}
use sluice_go.Shield.Scripts.{atomic_dedup_write, holds, refresh}
use sluice_go.Shield.Scripts.Write.{made_persistent, created_twice}
use sluice_go.Shield.Scripts.Refresh.{refresh-Agree}
use sluice_go.Prelude.{
  ℕ, suc, ◌≡◌, ◌∙◌, true, false, ◌&&◌, some, if◌then◌else◌, Bytes, bytes_eq, arith, Bool-cases, inl,
  inr,
}

module _ (r : Redis) (k : HashKey) (z : ZKey) (x : Bytes) (ts : ℕ) (ck : Bytes) (ttl : ℕ)
    (hash : Bytes) (s : r.State) where
  open r use {hget, pttl, zscore}

  pub atomic_dedup_write_duplicate :
      holds (hget s k field_h) hash ≡ true
      → atomic_dedup_write r k z x ts ck ttl hash s ≡ (false, refresh r k ttl s)
  unfolding atomic_dedup_write
  atomic_dedup_write_duplicate e = rw e

  module _ (fresh : holds (hget s k field_h) hash ≡ false) where
    pub pttl-dedup : pttl (atomic_dedup_write r k z x ts ck ttl hash s).1 k ≡ persistent
    unfolding atomic_dedup_write
    pttl-dedup =
        rw
          (
            fresh,
            r.pttl-zadd,
            r.pttl-persist,
            r.pttl-hincrby,
            r.pttl-hset,
            r.pttl-hset,
            r.pttl-hset,
            hash_eq_refl k,
          )
          (rw (created_twice, created_twice, created_twice) (made_persistent (pttl s k)))

    pub hget-dedup_p : hget (atomic_dedup_write r k z x ts ck ttl hash s).1 k field_p ≡ some x
    unfolding atomic_dedup_write
    hget-dedup_p = rw (
      fresh,
      r.hget-zadd,
      r.hget-persist,
      r.hget-hincrby_other _ k k field_v field_p (rw hash_eq_refl),
      r.hget-hset,
      r.hget-hset,
      r.hget-hset,
      hash_eq_refl k,
    )

    pub hget-dedup_v :
        (n : ℕ)
        → hget s k field_v ≡ some (itoa n)
        → hget (atomic_dedup_write r k z x ts ck ttl hash s).1 k field_v ≡ some (itoa (suc n))
    unfolding atomic_dedup_write
    hget-dedup_v n h =
        rw (fresh, r.hget-zadd, r.hget-persist)
          (r.hget-hincrby_old _ k field_v n
            (rw (r.hget-hset, r.hget-hset, r.hget-hset, hash_eq_refl k) h))

    pub zscore-dedup :
        (y : ZKey) (m : Bytes)
        → zscore (atomic_dedup_write r k z x ts ck ttl hash s).1 y m
          ≡ (if z_eq z y && bytes_eq ck m then some ts else zscore s y m)
    unfolding atomic_dedup_write
    zscore-dedup y m = rw (
      fresh, r.zscore-zadd, r.zscore-persist, r.zscore-hincrby, r.zscore-hset, r.zscore-hset,
      r.zscore-hset,
    )

    dedup_fresh-Agree :
        (j : HashKey) (y : ZKey) (m : Bytes)
        → hash_eq k j ≡ false
        → bytes_eq ck m ≡ false
        → Agree r j y m s (atomic_dedup_write r k z x ts ck ttl hash s).1
    unfolding atomic_dedup_write
    dedup_fresh-Agree j y m other e = record {
      body = rw (
        fresh,
        r.hget-zadd,
        r.hget-persist,
        r.hget-hincrby_other _ k j field_v field_p (rw other),
        r.hget-hset,
        r.hget-hset,
        r.hget-hset,
        other,
      );
      version = rw (
        fresh,
        r.hget-zadd,
        r.hget-persist,
        r.hget-hincrby_other _ k j field_v field_v (rw other),
        r.hget-hset,
        r.hget-hset,
        r.hget-hset,
        other,
      );
      ttl = rw (
        fresh, r.pttl-zadd, r.pttl-persist, r.pttl-hincrby, r.pttl-hset, r.pttl-hset, r.pttl-hset,
        other,
      );
      queued = zscore-dedup y m ∙ ground (arith, e);
    }

  pub dedup-Agree :
      (j : HashKey) (y : ZKey) (m : Bytes)
      → hash_eq k j ≡ false
      → bytes_eq ck m ≡ false
      → Agree r j y m s (atomic_dedup_write r k z x ts ck ttl hash s).1
  dedup-Agree j y m other e = elim (Bool-cases (holds (hget s k field_h) hash)) [
    | inl old ↦ rw (atomic_dedup_write_duplicate old) (refresh-Agree r k j ttl y m s other)
    | inr fresh ↦ dedup_fresh-Agree fresh j y m other e
  ]
