-- ===== src/Shield/Calls.antt =====
-- One script run for one correlation key, with the KEYS and ARGV that shield.go passes: every key
-- name is made with the band of the correlation key.
use sluice_go.Band.{band_for_key}
use sluice_go.Redis.{Redis}
use sluice_go.Redis.Keys.{HashKey, ZKey, payload, idxv, dirty, dlq, idxexp}
use sluice_go.Shield.Scripts.{
  atomic_write, commit_flushed, dead_letter_if_unchanged, extend_ttl, hydrate, atomic_dedup_write,
  HydrateReply,
}
use sluice_go.Prelude.{ℕ, ◌+◌, Bool, Bytes}

-- The fields of Shield that the scripts read; durations in milliseconds.
pub record Config : Type 0 where
  pub band_count : ℕ
  pub key_ttl : ℕ
  pub activity_window : ℕ
  pub dlq_ttl : ℕ

unfoldable pub band_for : Config → Bytes → ℕ
band_for c ck = band_for_key ck c.band_count

abbrev pub payload_of : Config → Bytes → HashKey
payload_of c ck = payload (band_for c ck) ck

abbrev pub dirty_of : Config → Bytes → ZKey
dirty_of c ck = dirty (band_for c ck)

module _ (r : Redis) (c : Config) where
  open r use {State}

  -- The direct path of `writeWithKind`, and one entry of `pipelineWrites`.
  unfoldable pub write_call : Bytes → Bytes → ℕ → State → State
  write_call ck body ts = atomic_write r (payload_of c ck) (dirty_of c ck) body ts ck

  -- `WriteDedup`
  unfoldable pub dedup_call : Bytes → Bytes → ℕ → Bytes → State → Bool × State
  dedup_call ck body ts hash =
      atomic_dedup_write r (payload_of c ck) (dirty_of c ck) body ts ck c.key_ttl hash

  -- `HydrateJournal`
  unfoldable pub hydrate_call : Bytes → Bytes → ℕ → State → HydrateReply × State
  hydrate_call ck body ts = hydrate r (payload_of c ck) body ts c.activity_window

  -- One item of `RefreshHotTTL`, and the refresh behind `Read`.
  unfoldable pub extend_call : Bytes → ℕ → State → Bool × State
  extend_call ck now =
      extend_ttl r (payload_of c ck) (idxexp (band_for c ck)) (idxv (band_for c ck) ck)
        c.activity_window (now + c.activity_window) ck

  -- One item of `CommitFlushed`, for the band of the flush.
  unfoldable pub commit_call : ℕ → Bytes → Bytes → ℕ → ℕ → State → Bool × State
  commit_call band ck seq ttl now =
      commit_flushed r (dirty band) (payload band ck) (idxexp band) (idxv band ck) ck seq ttl
        (now + ttl)

  -- One item of `DeadLetterIfUnchanged`, for the band of the flush.
  unfoldable pub dead_letter_call : ℕ → Bytes → Bytes → ℕ → Bytes → State → Bool × State
  dead_letter_call band ck seq now reason =
      dead_letter_if_unchanged r (dirty band) (dlq band) (payload band ck) ck seq now reason
        c.dlq_ttl
