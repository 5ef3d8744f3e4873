-- ===== src/Shield/Traffic/Settled.antt =====
-- The end of a flush for one key, after any traffic since it was drained: commitFlushedLua and
-- deadLetterIfUnchangedLua of types.go.
use sluice_go.Naming.Decimal.{itoa, itoa-injective}
use sluice_go.Redis.{Redis, expiring}
use sluice_go.Redis.Keys.{dlq}
use sluice_go.Shield.Fields.{field_p}
use sluice_go.Shield.Calls.{Config, band_for, payload_of, dirty_of, commit_call, dead_letter_call}
use sluice_go.Shield.Pending.{IsPending}
use sluice_go.Shield.Scripts.Commit.{
  same_version, commit_flushed_done, commit_flushed_skipped, dead_letter_done, dead_letter_skipped,
}
use sluice_go.Shield.Traffic.{Action, act_all, Foreign}
use sluice_go.Shield.Traffic.Keeps.{act_all-IsPending}
use sluice_go.Prelude.{
  ℕ, ◌<◌, ◌≡◌, refl, ◌∙◌, ap, true, false, none, some, List, Bytes, bytes_eq→≡, All, Bool-cases,
  ◌⊎◌, inl, inr,
}

module _ (r : Redis) (c : Config) (ck : Bytes) (n : ℕ) (drained : Bytes) where
  open r use {State, hget, pttl, zscore}

  -- At the drained version the drained payload is still there.
  same_version-body :
      (s : State)
      → IsPending r c ck n drained s
      → same_version r (payload_of c ck) (itoa n) s ≡ true
      → hget s (payload_of c ck) field_p ≡ some drained
  same_version-body s h e = h.holds_body ∙ ap some (h.unchanged version_eq)
    where
      version_eq : h.version ≡ n
      version_eq =
          itoa-injective h.version n (bytes_eq→≡ (itoa h.version) (itoa n) (rw h.at_version at e))

  -- The commit either removes the key from the dirty set, and then the payload in the journal is
  -- the one that was drained; or it answers 0, and the key waits for its next flush as before.
  pub commit_call-settles :
      (ttl now : ℕ) (s : State)
      → IsPending r c ck n drained s
      → let done = commit_call r c (band_for c ck) ck (itoa n) ttl now s in
        ((done.0 ≡ true)
          × (zscore done.1 (dirty_of c ck) ck ≡ none)
          × (hget done.1 (payload_of c ck) field_p ≡ some drained))
        ⊎ ((done.0 ≡ false) × IsPending r c ck n drained done.1)
  unfolding commit_call
  commit_call-settles ttl now s h =
      elim (Bool-cases (same_version r (payload_of c ck) (itoa n) s)) [
        | inl e ↦
            let d =
              commit_flushed_done r (band_for c ck) (payload_of c ck) _ ck (itoa n) ttl _ s e in
            inl (d.0, d.1, d.2 ∙ same_version-body s h e)
        | inr e ↦ inr (
            rw (commit_flushed_skipped r (band_for c ck) (payload_of c ck) _ ck (itoa n) ttl _ s e)
              (refl, h))
      ]

  pub dead_letter_call-settles :
      (now : ℕ) (reason : Bytes) (s : State)
      → 0 < c.dlq_ttl
      → IsPending r c ck n drained s
      → let done = dead_letter_call r c (band_for c ck) ck (itoa n) now reason s in
        ((done.0 ≡ true)
          × (zscore done.1 (dirty_of c ck) ck ≡ none)
          × (zscore done.1 (dlq (band_for c ck)) ck ≡ some now)
          × (hget done.1 (payload_of c ck) field_p ≡ some drained)
          × (pttl done.1 (payload_of c ck) ≡ expiring c.dlq_ttl))
        ⊎ ((done.0 ≡ false) × IsPending r c ck n drained done.1)
  unfolding dead_letter_call
  dead_letter_call-settles now reason s p h =
      elim (Bool-cases (same_version r (payload_of c ck) (itoa n) s)) [
        | inl e ↦
            let d =
              dead_letter_done r (band_for c ck) (payload_of c ck) ck (itoa n) now reason c.dlq_ttl
                s e p in
            inl (d.0, d.1, d.2, d.3 ∙ same_version-body s h e, d.4)
        | inr e ↦ inr (
            rw
              (dead_letter_skipped r (band_for c ck) (payload_of c ck) ck (itoa n) now reason
                c.dlq_ttl s e)
              (refl, h))
      ]

  module _ (traffic : List Action) (s : State) (foreign : All (Foreign ck) traffic)
      (waiting : IsPending r c ck n drained s) where
    abbrev later : State
    later = act_all r c traffic s

    -- A key that was drained at version n with a payload, and committed with the sequence n, after
    -- any traffic in which commits, dead letters and CommitDLQKeys are of other keys only: either the commit answers 1, the key leaves the dirty set
    -- and the journal holds the drained payload, so that no newer write is dropped; or it answers
    -- 0 and the key still waits, with its newest payload and without expiry.
    pub commit_call-keeps_newer :
        (ttl now : ℕ)
        → let done = commit_call r c (band_for c ck) ck (itoa n) ttl now later in
          ((done.0 ≡ true)
            × (zscore done.1 (dirty_of c ck) ck ≡ none)
            × (hget done.1 (payload_of c ck) field_p ≡ some drained))
          ⊎ ((done.0 ≡ false) × IsPending r c ck n drained done.1)
    commit_call-keeps_newer ttl now =
        commit_call-settles ttl now later
          (act_all-IsPending r c ck n drained traffic s foreign waiting)

    -- A key that was drained at version n with a payload, and dead-lettered with the sequence n, for
    -- a dead-letter TTL above 0, after any traffic in which commits, dead letters and
    -- CommitDLQKeys are of other keys only: either it moves from the
    -- dirty set to the dead-letter set with the drained payload, which then expires in that time;
    -- or the script answers 0 and the key still waits, with its newest payload and without expiry.
    pub dead_letter_call-keeps_newer :
        (now : ℕ) (reason : Bytes)
        → 0 < c.dlq_ttl
        → let done = dead_letter_call r c (band_for c ck) ck (itoa n) now reason later in
          ((done.0 ≡ true)
            × (zscore done.1 (dirty_of c ck) ck ≡ none)
            × (zscore done.1 (dlq (band_for c ck)) ck ≡ some now)
            × (hget done.1 (payload_of c ck) field_p ≡ some drained)
            × (pttl done.1 (payload_of c ck) ≡ expiring c.dlq_ttl))
          ⊎ ((done.0 ≡ false) × IsPending r c ck n drained done.1)
    dead_letter_call-keeps_newer now reason p =
        dead_letter_call-settles now reason later p
          (act_all-IsPending r c ck n drained traffic s foreign waiting)
