-- ===== src/Shield/Scripts/Commit.antt =====
-- commitFlushedLua and deadLetterIfUnchangedLua: what they do at the drained version, that they do
-- nothing at another, and that they leave other hashes and members alone.
use sluice_go.Redis.{Redis, expiring}
use sluice_go.Redis.Keys.{HashKey, dirty, dlq, idxexp, hash_eq, hash_eq_refl}
use sluice_go.Shield.Fields.{field_p, field_v}
use sluice_go.Shield.Pending.{Agree}
use sluice_go.Shield.Scripts.{commit_flushed, dead_letter_if_unchanged, or_empty}
use sluice_go.Shield.Scripts.Refresh.{Agree-refl, queue_if_indexed-Agree}
use sluice_go.Prelude.{
  ℕ, ◌≡◌, ◌<◌, refl, ◌∙◌, Bool, true, false, none, some, if◌then◌else◌, Bytes, bytes_eq,
  bytes_eq_refl, arith, ltb, Bool-cases, inl, inr, ==_refl,
}

module _ (r : Redis) where
  open r use {State, hget, pttl, zscore}

  -- The script looks at the version first.
  abbrev pub same_version : HashKey → Bytes → State → Bool
  same_version k seq s = bytes_eq (or_empty (hget s k field_v)) seq

  zrem-Agree :
      (b c : ℕ) (l m : Bytes) (j : HashKey) (s : State)
      → bytes_eq l m ≡ false
      → Agree r j (dirty c) m s (r.zrem (dirty b) l s)
  zrem-Agree b c l m j s e = record {
    body = r.hget-zrem s (dirty b) l j field_p;
    version = r.hget-zrem s (dirty b) l j field_v;
    ttl = r.pttl-zrem s (dirty b) l j;
    queued = r.zscore-zrem s (dirty b) (dirty c) l m ∙ ground (arith, e);
  }

  removed_timed-Agree :
      (b c : ℕ) (l m : Bytes) (k j : HashKey) (n : ℕ) (s : State)
      → hash_eq k j ≡ false
      → bytes_eq l m ≡ false
      → Agree r j (dirty c) m s (r.pexpire k n (r.zrem (dirty b) l s))
  removed_timed-Agree b c l m k j n s other e = record {
    body = rw (r.hget-pexpire, other, r.hget-zrem);
    version = rw (r.hget-pexpire, other, r.hget-zrem);
    ttl = rw (r.pttl-pexpire, other, r.pttl-zrem);
    queued = rw r.zscore-pexpire (r.zscore-zrem s (dirty b) (dirty c) l m ∙ ground (arith, e));
  }

  module _ (b : ℕ) (k v : HashKey) (ck seq : Bytes) (ttl at : ℕ) (s : State) where
    abbrev committed : Bool × State
    committed = commit_flushed r (dirty b) k (idxexp b) v ck seq ttl at s

    pub commit_flushed_skipped : same_version k seq s ≡ false → committed ≡ (false, s)
    unfolding commit_flushed
    commit_flushed_skipped e = rw e

    pub commit_flushed-Agree :
        (c : ℕ) (j : HashKey) (m : Bytes)
        → hash_eq k j ≡ false
        → bytes_eq ck m ≡ false
        → Agree r j (dirty c) m s committed.1
    unfolding commit_flushed
    commit_flushed-Agree c j m other e = elim (Bool-cases (same_version k seq s)) [
      | inl same ↦ elim (Bool-cases (ltb 0 ttl)) [
        | inl p ↦
            rw (same, p)
              (queue_if_indexed-Agree r b c at ck m v j s _
                (removed_timed-Agree b c ck m k j ttl s other e))
        | inr z ↦ rw (same, z) (zrem-Agree b c ck m j s e)
      ]
      | inr changed ↦ rw changed (Agree-refl r j (dirty c) m s)
    ]

    pub queue_zscore :
        (t : State) (c : ℕ) (m : Bytes)
        → zscore (if r.exists t v then r.zadd (idxexp b) at ck t else t) (dirty c) m
          ≡ zscore t (dirty c) m
    queue_zscore t c m = elim (Bool-cases (r.exists t v)) [
      | inl e ↦ rw (e, r.zscore-zadd)
      | inr e ↦ rw e
    ]

    queue_hget :
        (t : State) (j : HashKey) (g : Bytes)
        → hget (if r.exists t v then r.zadd (idxexp b) at ck t else t) j g ≡ hget t j g
    queue_hget t j g = elim (Bool-cases (r.exists t v)) [
      | inl e ↦ rw (e, r.hget-zadd)
      | inr e ↦ rw e
    ]

    -- At the drained version the key leaves the dirty set and keeps its payload.
    pub commit_flushed_done :
        same_version k seq s ≡ true
        → (committed.0 ≡ true)
          × (zscore committed.1 (dirty b) ck ≡ none)
          × (hget committed.1 k field_p ≡ hget s k field_p)
    unfolding commit_flushed
    commit_flushed_done same = elim (Bool-cases (ltb 0 ttl)) [
      | inl p ↦
          rw (same, p)
            (
              refl,
              queue_zscore _ b ck
                  ∙ rw (r.zscore-pexpire, r.zscore-zrem, bytes_eq_refl ck, ==_refl b),
              queue_hget _ k field_p
                  ∙ rw (r.hget-pexpire, r.hget-zrem, hash_eq_refl k) (ground (arith, p)),
            )
      | inr z ↦
          rw (same, z)
            (
              refl,
              rw (r.zscore-zrem, bytes_eq_refl ck, ==_refl b),
              r.hget-zrem s (dirty b) ck k field_p,
            )
    ]

  module _ (b : ℕ) (k : HashKey) (ck seq : Bytes) (at : ℕ) (reason : Bytes) (ttl : ℕ)
      (s : State) where
    abbrev buried : Bool × State
    buried = dead_letter_if_unchanged r (dirty b) (dlq b) k ck seq at reason ttl s

    pub dead_letter_skipped : same_version k seq s ≡ false → buried ≡ (false, s)
    unfolding dead_letter_if_unchanged
    dead_letter_skipped e = rw e

    pub dead_letter-Agree :
        (c : ℕ) (j : HashKey) (m : Bytes)
        → hash_eq k j ≡ false
        → bytes_eq ck m ≡ false
        → Agree r j (dirty c) m s buried.1
    unfolding dead_letter_if_unchanged
    dead_letter-Agree c j m other e = elim (Bool-cases (same_version k seq s)) [
      | inl same ↦ record {
        body = rw (same, r.hget-zrem, r.hget-pexpire, r.hget-hset, r.hget-hset, r.hget-zadd, other);
        version =
            rw (same, r.hget-zrem, r.hget-pexpire, r.hget-hset, r.hget-hset, r.hget-zadd, other);
        ttl = rw (same, r.pttl-zrem, r.pttl-pexpire, r.pttl-hset, r.pttl-hset, r.pttl-zadd, other);
        queued =
            rw (same, r.zscore-zrem, r.zscore-pexpire, r.zscore-hset, r.zscore-hset, r.zscore-zadd)
              (ground (arith, e));
      }
      | inr changed ↦ rw changed (Agree-refl r j (dirty c) m s)
    ]

    -- At the drained version the key moves from the dirty set to the dead-letter set, and keeps
    -- its payload, now with an expiry.
    pub dead_letter_done :
        same_version k seq s ≡ true
        → 0 < ttl
        → (buried.0 ≡ true)
          × (zscore buried.1 (dirty b) ck ≡ none)
          × (zscore buried.1 (dlq b) ck ≡ some at)
          × (hget buried.1 k field_p ≡ hget s k field_p)
          × (pttl buried.1 k ≡ expiring ttl)
    unfolding dead_letter_if_unchanged
    dead_letter_done same h = rw same (
      refl,
      rw (r.zscore-zrem, bytes_eq_refl ck, ==_refl b),
      rw (
        r.zscore-zrem,
        r.zscore-pexpire,
        r.zscore-hset,
        r.zscore-hset,
        r.zscore-zadd,
        bytes_eq_refl ck,
        ==_refl b,
      ),
      rw (r.hget-zrem, r.hget-pexpire, r.hget-hset, r.hget-hset, r.hget-zadd, hash_eq_refl k)
          (ground (arith, h)),
      rw (r.pttl-zrem, r.pttl-pexpire, r.pttl-hset, r.pttl-hset, r.pttl-zadd, hash_eq_refl k)
          (ground (arith, h)),
    )
