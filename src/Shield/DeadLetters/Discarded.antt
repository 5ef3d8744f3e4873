-- ===== src/Shield/DeadLetters/Discarded.antt =====
-- What CommitDLQKeys does to a key that waits for its flush again.
use sluice_go.Redis.{Redis}
use sluice_go.Redis.Keys.{hash_eq_refl}
use sluice_go.Shield.Fields.{field_p}
use sluice_go.Shield.Calls.{Config, band_for, payload_of, dirty_of}
use sluice_go.Shield.Pending.{IsPending, is_some}
use sluice_go.Shield.World.{ok, wait, wait_on, attempt, pipeline}
use sluice_go.Shield.Flush.{collect, done_if_answered}
use sluice_go.Shield.DeadLetters.{zrem_all, commit_dlq_keys}
use sluice_go.Prelude.{ℕ, ◌≡◌, refl, true, none, [], ◌∷◌, Bytes}

module _ (r : Redis) (c : Config) (ck : Bytes) where
  open r use {State, hget, zscore}

  -- A key waits for its flush, at any version, when its dead-letter entry is committed with no
  -- traffic and no failure. Then the commit succeeds, the key's payload is gone, and the key is
  -- still in the dirty set.
  pub commit_dlq_keys-discards :
      (n : ℕ) (body : Bytes) (s : State)
      → IsPending r c ck n body s
      → let out =
          commit_dlq_keys r c (band_for c ck) (ck ∷ []) (record { redis = s; turns = [] }) in
        (out.0 ≡ ok tt)
        × (hget out.1.redis (payload_of c ck) field_p ≡ none)
        × (is_some (zscore out.1.redis (dirty_of c ck) ck) ≡ true)
  unfolding commit_dlq_keys done_if_answered collect pipeline wait wait_on attempt zrem_all
  commit_dlq_keys-discards n body s h = (
    refl,
    rw (r.hget-zrem, r.hget-del, hash_eq_refl (payload_of c ck)),
    rw (r.zscore-zrem, r.zscore-del) h.queued,
  )
