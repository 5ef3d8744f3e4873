-- ===== src/Tests/Flush.antt =====
-- The theorems on a flush and on the errors of a sink at concrete inputs.
use sluice_go.Shield.Traffic.{Foreign}
use sluice_go.Redis.Memory.{Memory, memory}
use sluice_go.Shield.Calls.{band_for, dirty_of, write_call}
use sluice_go.Shield.Scripts.{atomic_write}
use sluice_go.Shield.World.{World, Turn, Error, fine, unknown}
use sluice_go.Shield.World.Keeps.{Kept}
use sluice_go.Shield.Flush.{drain_band}
use sluice_go.Shield.Flush.Drained.{IsQueued, EveryDrained, drain_band-Drained}
use sluice_go.Shield.Flush.Held.{IsHeld}
use sluice_go.Sink.{
  WriteModel, SinkError, BulkWriteResult, class_permanent, class_transient, Answer, answered,
  check_attribution,
}
use sluice_go.Engine.{flush_band, flush_models}
use sluice_go.Engine.Types.{EngineConfig, Contract, keys_of, success_keys, contains}
use sluice_go.Engine.Flushed.{AcceptedOf, flush_band-IsHeld}
use sluice_go.Engine.Partition.{named, foreign_errors_pass}
use sluice_go.Engine.Progress.{flush_band-settles}
use sluice_go.Engine.Progress.Built.{under}
use sluice_go.Shield.World.Calm.{calm}
use sluice_go.Facade.{unsafe, degraded_write}
use sluice_go.Facade.Degraded.{degraded_write-refuses}
use sluice_go.Naming.{pos}
use sluice_go.Tests.{config, key_a, key_b, body_x, one_write, one_write-IsPending, busy}
use sluice_go.Prelude.{
  ℕ, Option, ◌≡◌, refl, true, false, none, some, List, [], ◌∷◌, ◌⊎◌, inl, Bytes, Listed,
}

-- Traffic before the second round trip, and a script that is not loaded at the fourth.
abbrev pub turns : List Turn
turns =
    record { traffic = []; fault = fine }
    ∷ (record { traffic = busy; fault = fine }
        ∷ (record { traffic = []; fault = fine } ∷ (record { traffic = []; fault = unknown } ∷ [])))

abbrev pub world : World Memory
world = record { redis = one_write; turns = turns }

world-IsQueued : Kept memory config (Foreign key_a) (IsQueued memory config key_a) world
world-IsQueued = record {
  now = (1, body_x, one_write-IsPending);
  later = (tt, ((tt, (refl, (tt, (tt, tt)))), (tt, (tt, tt))));
}

pub world-IsHeld : Kept memory config (Foreign key_a) (IsHeld memory config key_a) world
world-IsHeld = record { now = inl world-IsQueued.now; later = world-IsQueued.later }

drain_band-Drained_example :
    EveryDrained memory config key_a 9
      (drain_band memory config 9 (band_for config key_a) 10 world).0
      (drain_band memory config 9 (band_for config key_a) 10 world).1.redis
    × Kept memory config
        (Foreign key_a)
        (IsQueued memory config key_a)
        (drain_band memory config 9 (band_for config key_a) 10 world).1
drain_band-Drained_example = drain_band-Drained memory config key_a 9 10 world world-IsQueued

abbrev pub engine_config : EngineConfig
engine_config = record {
  shield = config;
  max_batch_size = 10;
  key_ttl = 90000;
  activity_window = 30000;
  hot_aware_flush = true;
}

abbrev pub contract : Contract Bytes
contract ck body =
    some (record { correlation_key = []; filter = ck; update = body; upsert = true; many = false })

abbrev model_a : WriteModel Bytes
model_a = record {
  correlation_key = key_a;
  filter = key_a;
  update = body_x;
  upsert = true;
  many = false;
}

abbrev errors_b : List SinkError
errors_b =
    record { correlation_key = key_b; code = pos 7; message = []; class = class_permanent }
    ∷ (record { correlation_key = key_b; code = pos 0; message = []; class = class_transient } ∷ [])

abbrev result_b : BulkWriteResult
result_b = record {
  inserted_count = 0;
  matched_count = 1;
  modified_count = 1;
  upserted_count = 0;
  errors = errors_b;
}

abbrev pub sink : List (WriteModel Bytes) → Answer
sink models = answered (some result_b)

flush_band-IsHeld_example :
    IsHeld memory config key_a
      (flush_band memory engine_config contract sink 9 (band_for config key_a) world).world.redis
    ⊎ AcceptedOf sink key_a
        (flush_models memory engine_config contract 9 (band_for config key_a) world)
flush_band-IsHeld_example =
    flush_band-IsHeld memory engine_config key_a contract sink 9 world world-IsHeld

foreign_errors_pass_example :
    (check_attribution (model_a ∷ []) (some result_b) ≡ none)
    × ((k : Bytes)
        → contains (success_keys (keys_of (model_a ∷ [])) errors_b) k
          ≡ contains (keys_of (model_a ∷ [])) k)
unfolding contains keys_of
foreign_errors_pass_example =
    foreign_errors_pass (model_a ∷ []) result_b (refl, (refl, tt)) (refl, (refl, tt))

degraded_write-refuses_example :
    (e : Option Error) × ((degraded_write contract (λ wm. true) key_a memory config body_x world).0
      ≡ unsafe e)
degraded_write-refuses_example =
    degraded_write-refuses memory config key_a contract (λ wm. true) body_x world world-IsHeld

abbrev band_a : ℕ
band_a = band_for config key_a

flush_band-settles_example :
    Listed
      (under key_a (record model_a { correlation_key = [] }))
      (flush_models memory engine_config contract 9 band_a (calm one_write))
    × (memory.zscore
          (flush_band memory engine_config contract sink 9 band_a (calm one_write)).world.redis
          (dirty_of config key_a)
          key_a
        ≡ none)
unfolding write_call atomic_write named band_for sluice_go.Band.band_for_key
flush_band-settles_example =
    flush_band-settles memory engine_config key_a sink 1 9 contract one_write 120 []
      (record model_a { correlation_key = [] }) 5 (some result_b) refl refl (inl refl) refl refl
      (refl, (refl, tt)) refl
