-- ===== src/Facade/Writes.antt =====
-- Write of sluice.go.
use sluice_go.Redis.{Redis}
use sluice_go.Shield.Calls.{band_for, dedup_call}
use sluice_go.Shield.World.{World, Result, ok, err}
use sluice_go.Shield.Flush.{dirty_queue_depth}
use sluice_go.Shield.Reads.{run_script, shield_write, is_hot, map_result}
use sluice_go.Sink.{WriteModel}
use sluice_go.Engine.Types.{Contract}
use sluice_go.Facade.{DegradedResult, unsafe, contract_failed, direct, degraded_write}
use sluice_go.Facade.Reads.{put_local}
use sluice_go.Facade.Types.{
  SluiceConfig, Wiring, Sluice, library_closed, missing_write_contract, missing_sink,
  empty_correlation_key, redis_unavailable, degraded_write_unsafe, contract_violation,
  sink_unavailable, Outcome, done, failed,
}
use sluice_go.Prelude.{
  ℕ, Bool, true, false, Option, none, some, [], ◌∷◌, ◌++◌, leb, if◌then◌else◌, Bytes,
}

unfoldable pub degraded_outcome : {V : Type 0} → DegradedResult V → Outcome (Unit {0})
degraded_outcome (unsafe e) = failed degraded_write_unsafe
degraded_outcome contract_failed = failed contract_violation
degraded_outcome (direct model true) = done tt
degraded_outcome (direct model false) = failed sink_unavailable

module _ {V : Type 0} (r : Redis) (c : SluiceConfig) (wires : Wiring V) where
  open r use {State}

  unfoldable pub signal : ℕ → Sluice State → Sluice State
  signal band s = record s { signals = s.signals ++ band ∷ [] }

  unfoldable pub by_depth : ℕ → Result ℕ × World State → Sluice State → Sluice State
  unfolding signal
  by_depth band (err e, w) s = record s { world = w }
  by_depth band (ok depth, w) s =
      let t = record s { world = w } in if leb c.max_batch_size depth then signal band t else t

  -- The depth-based trigger, which batched writes skip.
  unfoldable pub volume_trigger : Bytes → Sluice State → Sluice State
  unfolding by_depth dirty_queue_depth
  volume_trigger ck s = elim c.batched_writes [
    | true ↦ s
    | false ↦
        by_depth (band_for c.shield ck)
          (dirty_queue_depth r c.shield (band_for c.shield ck) s.world) s
  ]

  unfoldable pub by_marker : Bytes → Result Bool × World State → Sluice State → Sluice State
  unfolding signal volume_trigger
  by_marker ck (ok true, w) s = signal (band_for c.shield ck) (record s { world = w })
  by_marker ck (ok false, w) s = volume_trigger ck (record s { world = w })
  by_marker ck (err e, w) s = volume_trigger ck (record s { world = w })

  unfoldable pub signal_volume : Bytes → Sluice State → Sluice State
  unfolding by_marker volume_trigger is_hot
  signal_volume ck s = elim c.hot_aware_flush [
    | true ↦ by_marker ck (is_hot r c.shield ck s.world) s
    | false ↦ volume_trigger ck s
  ]

  -- Content deduplication, or the plain write, which always counts as written.
  unfoldable pub journal_write : Bytes → Bytes → ℕ → World State → Result Bool × World State
  unfolding run_script shield_write map_result dedup_call
  journal_write ck body ts w = elim c.content_dedup [
    | true ↦ run_script r c.shield (dedup_call r c.shield ck body ts (wires.content_hash body)) w
    | false ↦ map_result r c.shield (λ u. true) (shield_write r c.shield ck body ts w)
  ]

  -- What follows the journal write; `at` is the L1 version, taken before it.
  unfoldable pub after_write :
      (WriteModel V → Bool)
      → Contract V
      → ℕ
      → Bytes
      → Bytes
      → Result Bool × World State
      → Sluice State
      → Outcome (Unit {0}) × Sluice State
  unfolding degraded_outcome degraded_write put_local signal_volume
  after_write write contract at ck body (ok true, w) s =
      (done tt, signal_volume ck (record s { world = w; local = put_local at ck body at s.local }))
  after_write write contract at ck body (ok false, w) s = (done tt, record s { world = w })
  after_write write contract at ck body (err e, w) s = elim c.degraded_mode_direct [
    | true ↦
        let (answer, w') = degraded_write contract write ck r c.shield body w in
        (degraded_outcome answer, record s { world = w' })
    | false ↦ (failed redis_unavailable, record s { world = w })
  ]

  unfoldable pub write_open :
      Option (Contract V)
      → Option (WriteModel V → Bool)
      → ℕ
      → ℕ
      → Bytes
      → Bytes
      → Sluice State
      → Outcome (Unit {0}) × Sluice State
  unfolding journal_write after_write
  write_open none sk at ts ck body s = (failed missing_write_contract, s)
  write_open (some contract) none at ts ck body s = (failed missing_sink, s)
  write_open (some contract) (some sk) at ts [] body s = (failed empty_correlation_key, s)
  write_open (some contract) (some sk) at ts (x ∷ ck) body s =
      after_write sk contract at (x ∷ ck) body (journal_write (x ∷ ck) body ts s.world) s

  -- `Write`
  unfoldable pub write : ℕ → ℕ → Bytes → Bytes → Sluice State → Outcome (Unit {0}) × Sluice State
  unfolding write_open
  write at ts ck body s =
      if s.closed
      then (failed library_closed, s)
      else write_open wires.write_contract wires.sink_write at ts ck body s
