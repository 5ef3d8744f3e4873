-- ===== src/Dlq.antt =====
-- internal/dlq/dlq.go: the processor of dead letters. The write contract, the sink and the key
-- mutator are the caller's. The context is cancelled after as many turns of the loop as `budget`.
pub mod Run
pub mod Endless
use sluice_go.Redis.{Redis}
use sluice_go.Shield.Calls.{Config, write_call}
use sluice_go.Shield.World.{World, Result, ok, err, Error, wait, round_trip}
use sluice_go.Shield.Flush.{FlushRecord}
use sluice_go.Shield.DeadLetters.{drain_dlq, commit_dlq_keys}
use sluice_go.Shield.Scripts.{or_empty}
use sluice_go.Sink.{
  WriteModel, SinkError, BulkWriteResult, Answer, failed, answered, check_attribution,
}
use sluice_go.Engine.Types.{Contract, keys_of, errors_of, contains}
use sluice_go.Engine.Partition.{named}
use sluice_go.Prelude.{
  ℕ, zero, suc, ◌+◌, ◌-◌, Bool, true, false, not, Option, none, some, List, [], ◌∷◌, filter, map,
  length, Bytes, if◌then◌else◌,
}

pub data Strategy : Type 0 where
  ignore upsert re_insert : Strategy

pub data Failure : Type 0 where
  cancelled sink_failed : Failure
  drain_failed commit_failed : Error → Failure
  unattributed : SinkError → Failure

-- `Result` of dlq.go
pub record Totals : Type 0 where
  pub processed : ℕ
  pub succeeded : ℕ
  pub failures : ℕ

abbrev pub add_totals : ℕ → ℕ → ℕ → Totals → Totals
add_totals p s f t = record {
  processed = t.processed + p;
  succeeded = t.succeeded + s;
  failures = t.failures + f;
}

-- A step of the processor: the totals are kept when it fails.
pub record Outcome (S : Type 0) : Type 0 where
  pub failure : Option Failure
  pub totals : Totals
  pub world : World S

unfoldable pub record_keys : List FlushRecord → List Bytes
record_keys = map λ rec. rec.correlation_key

abbrev pub as_upsert : {V : Type 0} → Bytes → WriteModel V → WriteModel V
as_upsert ck wm = record {
  correlation_key = ck;
  filter = wm.filter;
  update = wm.update;
  upsert = true;
  many = wm.many;
}

abbrev or_skip :
    {V : Type 0} → Bytes → Option (WriteModel V) → List (WriteModel V) → List (WriteModel V)
or_skip ck none rest = rest
or_skip ck (some wm) rest = as_upsert ck wm ∷ rest

-- The models of the records whose contract succeeds.
unfoldable pub upsert_models : {V : Type 0} → Contract V → List FlushRecord → List (WriteModel V)
upsert_models contract [] = []
upsert_models contract (rec ∷ rest) =
    or_skip rec.correlation_key (contract rec.correlation_key (or_empty rec.body))
      (upsert_models contract rest)

-- The keys of failedKeys, a map.
unfoldable pub failed_keys : List SinkError → List Bytes
unfolding contains
failed_keys [] = []
failed_keys (e ∷ es) =
    let rest = failed_keys es in
    if contains rest e.correlation_key then rest else e.correlation_key ∷ rest

module _ (r : Redis) (c : Config) where
  open r use {State}

  unfoldable pub after_commit : Totals → Totals → Result (Unit {0}) × World State → Outcome State
  after_commit before done (ok u, w) = record { failure = none; totals = done; world = w }
  after_commit before done (err e, w) = record {
    failure = some (commit_failed e);
    totals = before;
    world = w;
  }

  unfoldable pub handle_ignore : ℕ → List FlushRecord → Totals → World State → Outcome State
  unfolding after_commit commit_dlq_keys record_keys
  handle_ignore band records total w =
      after_commit total (add_totals (length records) (length records) 0 total)
        (commit_dlq_keys r c band (record_keys records) w)

  -- Writing each record under its new key: the keys that were written, and the failures.
  unfoldable pub insert_all :
      (Bytes → Bytes) → ℕ → List FlushRecord → World State → (List Bytes × ℕ) × World State
  unfolding round_trip write_call
  insert_all mutate now [] w = (([], 0), w)
  insert_all mutate now (rec ∷ rest) w =
      let (o, w1) =
        round_trip r c
          (λ s. (tt {0}, write_call r c (mutate rec.correlation_key) (or_empty rec.body) now s))
          w in
      let (out, w2) = insert_all mutate now rest w1 in
      elim o [
        | ok u ↦ ((rec.correlation_key ∷ out.0, out.1), w2)
        | err e ↦ ((out.0, suc out.1), w2)
      ]

  unfoldable pub handle_re_insert :
      (Bytes → Bytes) → ℕ → ℕ → List FlushRecord → Totals → World State → Outcome State
  unfolding insert_all after_commit commit_dlq_keys
  handle_re_insert mutate now band records total w =
      let (out, w1) = insert_all mutate now records w in
      let before = add_totals out.1 0 out.1 total in
      after_commit before (add_totals (length out.0) (length out.0) 0 before)
        (commit_dlq_keys r c band out.0 w1)

  module _ {V : Type 0} where
    unfoldable pub upsert_succeeded : List (WriteModel V) → List SinkError → List Bytes
    unfolding keys_of named
    upsert_succeeded models es = filter (λ k. not (named es k)) (keys_of models)

    unfoldable pub upsert_settle :
        ℕ → List (WriteModel V) → List SinkError → Totals → World State → Outcome State
    unfolding upsert_succeeded failed_keys after_commit commit_dlq_keys
    upsert_settle band models es total w =
        let keys = upsert_succeeded models es in
        after_commit total
          (add_totals (length models) (length keys) (length (failed_keys es)) total)
          (commit_dlq_keys r c band keys w)

    unfoldable pub upsert_checked :
        ℕ
        → List (WriteModel V)
        → Option BulkWriteResult
        → Option SinkError
        → Totals
        → World State
        → Outcome State
    unfolding upsert_settle
    upsert_checked band models result (some e) total w = record {
      failure = some (unattributed e);
      totals = total;
      world = w;
    }
    upsert_checked band models result none total w =
        upsert_settle band models (errors_of result) total w

    unfoldable pub upsert_answered :
        ℕ → List (WriteModel V) → Answer → Totals → World State → Outcome State
    unfolding upsert_checked check_attribution
    upsert_answered band models (failed result) total w = record {
      failure = some sink_failed;
      totals = total;
      world = w;
    }
    upsert_answered band models (answered result) total w =
        upsert_checked band models result (check_attribution models result) total w

    unfoldable pub upsert_batch :
        (List (WriteModel V) → Answer)
        → ℕ
        → List (WriteModel V)
        → Totals
        → World State
        → Outcome State
    unfolding upsert_answered wait
    upsert_batch sink band [] total w = record { failure = none; totals = total; world = w }
    upsert_batch sink band (m ∷ ms) total w =
        upsert_answered band (m ∷ ms) (sink (m ∷ ms)) total (wait r c w).1

    unfoldable pub handle_upsert :
        Contract V
        → (List (WriteModel V) → Answer)
        → ℕ
        → List FlushRecord
        → Totals
        → World State
        → Outcome State
    unfolding upsert_models upsert_batch
    handle_upsert contract sink band records total w =
        let models = upsert_models contract records in
        let refused = length records - length models in
        upsert_batch sink band models (add_totals refused 0 refused total) w
