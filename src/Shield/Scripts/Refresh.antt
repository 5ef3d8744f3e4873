-- ===== src/Shield/Scripts/Refresh.antt =====
-- The scripts that set an expiry on what is there: the extend-only refresh, extendTTLLua and
-- hydrateLua. None touches a hash without expiry, nor any other hash.
use sluice_go.Redis.{Redis, persistent}
use sluice_go.Redis.Keys.{HashKey, ZKey, dirty, idxexp, hash_eq}
use sluice_go.Shield.Fields.{field_p, field_ts, field_h}
use sluice_go.Shield.Pending.{Agree}
use sluice_go.Shield.Scripts.{extend_ttl, hydrate, hydrate_miss, refresh, shorter, kept, or_zero}
use sluice_go.Prelude.{
  ℕ, ◌≡◌, refl, ◌∙◌, false, some, if◌then◌else◌, Bytes, Bool-cases, inl, inr, Option-cases,
}

module _ (r : Redis) where
  open r use {State, hget, pttl, zscore}

  pub Agree-refl : (j : HashKey) (y : ZKey) (m : Bytes) (s : State) → Agree r j y m s s
  Agree-refl j y m s = record { body = refl; version = refl; ttl = refl; queued = refl }

  pub pexpire-Agree :
      (k j : HashKey) (n : ℕ) (y : ZKey) (m : Bytes) (s : State)
      → hash_eq k j ≡ false
      → Agree r j y m s (r.pexpire k n s)
  pexpire-Agree k j n y m s other = record {
    body = rw (r.hget-pexpire, other);
    version = rw (r.hget-pexpire, other);
    ttl = rw (r.pttl-pexpire, other);
    queued = r.zscore-pexpire s k n y m;
  }

  pub refresh-Agree :
      (k j : HashKey) (n : ℕ) (y : ZKey) (m : Bytes) (s : State)
      → hash_eq k j ≡ false
      → Agree r j y m s (refresh r k n s)
  unfolding refresh
  refresh-Agree k j n y m s other = elim (Bool-cases (shorter (pttl s k) n)) [
    | inl e ↦ rw e (pexpire-Agree k j n y m s other)
    | inr e ↦ rw e (Agree-refl j y m s)
  ]

  pub refresh_persistent :
      (k : HashKey) (n : ℕ) (s : State) → pttl s k ≡ persistent → refresh r k n s ≡ s
  unfolding refresh
  refresh_persistent k n s h = rw h

  pub extend_ttl_persistent :
      (k v : HashKey) (z : ZKey) (ttl at : ℕ) (ck : Bytes) (s : State)
      → pttl s k ≡ persistent
      → extend_ttl r k z v ttl at ck s ≡ (false, s)
  unfolding extend_ttl
  extend_ttl_persistent k v z ttl at ck s h = rw h

  -- The member that the script queues is one of the expiry set.
  zadd-Agree :
      (b c : ℕ) (n : ℕ) (l m : Bytes) (j : HashKey) (s t : State)
      → Agree r j (dirty c) m s t
      → Agree r j (dirty c) m s (r.zadd (idxexp b) n l t)
  zadd-Agree b c n l m j s t a = record {
    body = rw r.hget-zadd a.body;
    version = rw r.hget-zadd a.version;
    ttl = rw r.pttl-zadd a.ttl;
    queued = rw r.zscore-zadd a.queued;
  }

  pub queue_if_indexed-Agree :
      (b c : ℕ) (n : ℕ) (l m : Bytes) (v j : HashKey) (s t : State)
      → Agree r j (dirty c) m s t
      → Agree r j (dirty c) m s (if r.exists t v then r.zadd (idxexp b) n l t else t)
  queue_if_indexed-Agree b c n l m v j s t a = elim (Bool-cases (r.exists t v)) [
    | inl e ↦ rw e (zadd-Agree b c n l m j s t a)
    | inr e ↦ rw e a
  ]

  pub extend_ttl-Agree :
      (k v j : HashKey) (b c : ℕ) (ttl at : ℕ) (ck m : Bytes) (s : State)
      → hash_eq k j ≡ false
      → Agree r j (dirty c) m s (extend_ttl r k (idxexp b) v ttl at ck s).1
  unfolding extend_ttl
  extend_ttl-Agree k v j b c ttl at ck m s other = elim (Bool-cases (shorter (pttl s k) ttl)) [
    | inl e ↦
        rw e
          (queue_if_indexed-Agree b c at ck m v j s _ (pexpire-Agree k j ttl (dirty c) m s other))
    | inr e ↦ rw e (Agree-refl j (dirty c) m s)
  ]

  hydrate_miss-Agree :
      (k j : HashKey) (x : Bytes) (ts ttl : ℕ) (y : ZKey) (m held : Bytes) (s : State)
      → hash_eq k j ≡ false
      → hget s j field_p ≡ some held
      → Agree r j y m s (hydrate_miss r k x ts ttl s)
  unfolding hydrate_miss
  hydrate_miss-Agree k j x ts ttl y m held s other e = record {
    body = rw (r.hget-pexpire, r.hget-hdel, r.hget-hset, r.hget-hset, other);
    version = rw (r.hget-pexpire, r.hget-hdel, r.hget-hset, r.hget-hset, other);
    ttl =
        rw (r.pttl-pexpire, other)
          (r.pttl-hdel _ k j field_h field_p held (rw (r.hget-hset, r.hget-hset, other) e)
              (rw other)
            ∙ rw (r.pttl-hset, r.pttl-hset, other));
    queued = rw (r.zscore-pexpire, r.zscore-hdel, r.zscore-hset, r.zscore-hset);
  }

  -- A hash that holds a payload is never overwritten by a hydration.
  pub hydrate_hit :
      (k : HashKey) (x cur : Bytes) (ts ttl : ℕ) (s : State)
      → hget s k field_p ≡ some cur
      → hydrate r k x ts ttl s ≡ (kept cur (or_zero r (hget s k field_ts)), refresh r k ttl s)
  unfolding hydrate refresh
  hydrate_hit k x cur ts ttl s e = rw e

  pub hydrate-Agree :
      (k j : HashKey) (x : Bytes) (ts ttl : ℕ) (y : ZKey) (m held : Bytes) (s : State)
      → hash_eq k j ≡ false
      → hget s j field_p ≡ some held
      → Agree r j y m s (hydrate r k x ts ttl s).1
  unfolding hydrate
  hydrate-Agree k j x ts ttl y m held s other h = elim (Option-cases (hget s k field_p)) [
    | inl e ↦ rw e (hydrate_miss-Agree k j x ts ttl y m held s other h)
    | inr (cur, e) ↦ rw e (refresh-Agree k j ttl y m s other)
  ]
