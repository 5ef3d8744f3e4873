-- ===== src/Facade/Close.antt =====
-- DrainAndClose and ProcessDLQ of sluice.go.
use sluice_go.Redis.{Redis}
use sluice_go.Shield.Calls.{Config}
use sluice_go.Shield.World.{World}
use sluice_go.Sink.{WriteModel, Answer}
use sluice_go.Engine.Types.{Contract}
use sluice_go.Dlq.{Strategy}
use sluice_go.Dlq.{Outcome}
use sluice_go.Dlq.Run.{process}
use sluice_go.Prelude.{
  ℕ, ◌==◌, Bool, true, false, Option, none, some, List, [], ◌∷◌, ◌++◌, if◌then◌else◌, Bytes,
}

-- What DrainAndClose does to the parts of a Sluice.
pub data CloseStep : Type 0 where
  stop_subscriber stop_dlq stop_gauges stop_sweeper stop_batcher drain_engine : CloseStep
  close_redis close_sink : CloseStep

-- Which parts there are, and whether closing Redis and the sink succeeds.
pub record Parts : Type 0 where
  pub subscriber : Bool
  pub dlq : Bool
  pub gauges : Bool
  pub sweeper : Bool
  pub engine : Bool
  pub batched_writes : Bool
  pub sink : Bool
  pub redis_closes : Bool
  pub sink_closes : Bool

pub data CloseOutcome : Type 0 where
  closed redis_close_failed sink_close_failed : CloseOutcome

pub record Closing : Type 0 where
  pub steps : List CloseStep
  pub outcome : CloseOutcome
  pub is_closed : Bool

abbrev pub step_if : Bool → CloseStep → List CloseStep
step_if b step = if b then step ∷ [] else []

unfoldable pub engine_steps : Parts → List CloseStep
engine_steps p = if p.engine then step_if p.batched_writes stop_batcher ++ drain_engine ∷ [] else []

abbrev pub background_steps : Parts → List CloseStep
background_steps p =
    step_if p.dlq stop_dlq ++ (step_if p.gauges stop_gauges ++ step_if p.sweeper stop_sweeper)

abbrev pub sink_outcome : Parts → CloseOutcome
sink_outcome p = if p.sink then (if p.sink_closes then closed else sink_close_failed) else closed

-- The end: Redis, and the sink behind it.
unfoldable pub release : Parts → Closing
release p =
    if p.redis_closes
    then record {
      steps = close_redis ∷ step_if p.sink close_sink;
      outcome = sink_outcome p;
      is_closed = true;
    }
    else record { steps = close_redis ∷ []; outcome = redis_close_failed; is_closed = true }

abbrev pub preceded : List CloseStep → Closing → Closing
preceded steps c = record c { steps = steps ++ c.steps }

-- `DrainAndClose`: the flag is taken by one call.
unfoldable pub drain_and_close : Parts → Bool → Closing
unfolding engine_steps release
drain_and_close p true = record {
  steps = step_if p.subscriber stop_subscriber;
  outcome = closed;
  is_closed = true;
}
drain_and_close p false =
    preceded (step_if p.subscriber stop_subscriber)
      (preceded (background_steps p) (preceded (engine_steps p) (release p)))

-- ProcessDLQ
pub data DlqOutcome (S : Type 0) : Type 0 where
  library_closed missing_write_contract missing_sink : DlqOutcome S
  processed : Outcome S → DlqOutcome S

abbrev pub chosen_size : ℕ → Option ℕ → ℕ
chosen_size default none = default
chosen_size default (some n) = n

-- The batch size that `NewProcessor` takes where none is set.
abbrev pub processor_size : ℕ → ℕ
processor_size size = if size == 0 then 1000 else size

module _ {V : Type 0} (r : Redis) (c : Config) where
  open r use {State}

  unfoldable pub process_with :
      Option (Contract V)
      → Option (List (WriteModel V) → Answer)
      → Strategy
      → ℕ
      → (Bytes → Bytes)
      → ℕ
      → ℕ
      → World State
      → DlqOutcome State
  unfolding process
  process_with none sink strategy size mutate now budget w = missing_write_contract
  process_with (some contract) none strategy size mutate now budget w = missing_sink
  process_with (some contract) (some sink) strategy size mutate now budget w = processed (
      process r c
        (record {
          contract = contract;
          sink = sink;
          strategy = strategy;
          max_batch_size = processor_size size;
          mutate = mutate;
        })
        now budget w)

  -- `ProcessDLQ`, with the batch size of an option in place of MaxBatchSize; a context that is
  -- cancelled after a number of turns.
  unfoldable pub process_dlq :
      Option (Contract V)
      → Option (List (WriteModel V) → Answer)
      → Strategy
      → ℕ
      → Option ℕ
      → (Bytes → Bytes)
      → Bool
      → ℕ
      → ℕ
      → World State
      → DlqOutcome State
  unfolding process_with
  process_dlq contract sink strategy max_batch_size size mutate is_closed now budget w =
      if is_closed
      then library_closed
      else process_with contract sink strategy (chosen_size max_batch_size size) mutate now budget w
