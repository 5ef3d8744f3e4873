-- ===== src/Dlq/Run.antt =====
-- The loops of the processor: `processBand` and `Process`.
use sluice_go.Redis.{Redis}
use sluice_go.Shield.Calls.{Config}
use sluice_go.Shield.World.{World, Result, ok, err}
use sluice_go.Shield.Flush.{FlushRecord}
use sluice_go.Shield.DeadLetters.{drain_dlq}
use sluice_go.Sink.{WriteModel, Answer}
use sluice_go.Engine.Types.{Contract}
use sluice_go.Dlq.{
  Strategy, ignore, upsert, re_insert, Failure, cancelled, drain_failed, Totals, Outcome,
  handle_ignore, handle_upsert, handle_re_insert,
}
use sluice_go.Prelude.{ℕ, zero, suc, Option, none, some, List, [], ◌∷◌, Bytes}

-- The Processor, with its Config.
pub record Processor (V : Type 0) : Type 0 where
  pub contract : Contract V
  pub sink : List (WriteModel V) → Answer
  pub strategy : Strategy
  pub max_batch_size : ℕ
  pub mutate : Bytes → Bytes

module _ {V : Type 0} (r : Redis) (c : Config) (p : Processor V) (now : ℕ) where
  open r use {State}

  unfoldable pub handle : Strategy → ℕ → List FlushRecord → Totals → World State → Outcome State
  unfolding handle_ignore handle_upsert handle_re_insert
  handle ignore band records = handle_ignore r c band records
  handle upsert band records = handle_upsert r c p.contract p.sink band records
  handle re_insert band records = handle_re_insert r c p.mutate now band records

  -- The loop goes on after a handler without error.
  unfoldable pub go_on :
      (Totals → World State → Outcome State) → Outcome State → Option Failure → Outcome State
  go_on next out none = next out.totals out.world
  go_on next out (some f) = out

  -- What one turn makes of the drained records.
  unfoldable pub turn :
      (Totals → World State → Outcome State)
      → ℕ
      → Totals
      → Result (List FlushRecord) × World State
      → Outcome State
  unfolding handle go_on
  turn next band total (err e, w) = record {
    failure = some (drain_failed e);
    totals = total;
    world = w;
  }
  turn next band total (ok [], w) = record { failure = none; totals = total; world = w }
  turn next band total (ok (rec ∷ recs), w) =
      let out = handle p.strategy band (rec ∷ recs) total w in go_on next out out.failure

  -- `processBand`, with a context that is cancelled after that many turns.
  unfoldable pub process_band : ℕ → ℕ → Totals → World State → Outcome State
  unfolding turn drain_dlq
  process_band zero band total w = record { failure = some cancelled; totals = total; world = w }
  process_band (suc budget) band total w =
      turn (process_band budget band) band total (drain_dlq r c now band p.max_batch_size w)

  -- `Process`: the bands from `band` on, `rest` of them.
  unfoldable pub process_from : ℕ → ℕ → ℕ → Totals → World State → Outcome State
  unfolding process_band go_on
  process_from budget zero band total w = record { failure = none; totals = total; world = w }
  process_from budget (suc rest) band total w =
      let out = process_band budget band total w in
      go_on (process_from budget rest (suc band)) out out.failure

  unfoldable pub process : ℕ → World State → Outcome State
  unfolding process_from
  process budget =
      process_from budget c.band_count 0 (record { processed = 0; succeeded = 0; failures = 0 })
