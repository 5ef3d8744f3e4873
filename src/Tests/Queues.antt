-- ===== src/Tests/Queues.antt =====
-- The theorems on the batcher, the index and the builder at concrete inputs.
use sluice_go.Redis.Memory.{Memory, memory, nothing}
use sluice_go.Naming.{pos, negsuc, codes}
use sluice_go.Shield.World.{World, fine, refused, unknown}
use sluice_go.Shield.Batcher.Answered.{flush_all-answers_each}
use sluice_go.Facade.Builder.{BuilderConfig}
use sluice_go.Shield.Batcher.{WriteEntry, Event, arrives, ticks, run_batcher}
use sluice_go.Shield.World.Calm.{calm}
use sluice_go.Shield.Batcher.Sequential.{
  arrivals, write_all, all_ok, flush_all, flush_all-run_batcher,
}
use sluice_go.Tests.{config, key_a, key_b, body_x, body_y}
use sluice_go.Prelude.{
  ◌+◌, length, Option, bytes_eq, if◌then◌else◌, ℕ, ◌++◌, ◌≡◌, none, some, List, [], ◌∷◌, Bytes,
}

abbrev entry : Bytes → Bytes → ℕ → WriteEntry
entry ck body ts = record { correlation_key = ck; payload = body; ts = ts }

-- Two entries with a tick between, and one left when the batcher stops.
abbrev events : List Event
events = arrives (entry key_a body_x 5) ∷ (ticks ∷ (arrives (entry key_b body_y 6) ∷ []))

abbrev left : List WriteEntry
left = entry key_a body_y 7 ∷ []

flush_all-run_batcher_example :
    flush_all memory config 2 (run_batcher 2 events left).flushed (calm nothing) ≡ (
      all_ok memory config (arrivals events ++ left),
      calm (write_all memory config (arrivals events ++ left) nothing),
    )
flush_all-run_batcher_example = flush_all-run_batcher memory config 2 events left nothing

-- No band count and no batch size were set.
abbrev builder : BuilderConfig
builder = record {
  namespace = codes "ns";
  addrs = codes "localhost:6379" ∷ [];
  band_count = pos 0;
  max_batch_size = negsuc 4;
  flush_window = pos 1000;
  key_ttl = pos 2000;
}

-- "a" has the age 7 and a payload; that of "b" is gone.
abbrev payload_at : Bytes → Option Bytes
payload_at ck = if bytes_eq ck key_a then some body_x else none

abbrev ages : Bytes → Bytes → Option ℕ
ages field ck = some 7

abbrev from_five : List (Bytes × ℕ)
from_five = (codes "age", 5) ∷ []

-- The script is not loaded at the first entry, and the connection is lost at the reload.
abbrev failing : World Memory
failing = record {
  redis = nothing;
  turns =
      record { traffic = []; fault = unknown }
      ∷ (record { traffic = []; fault = fine } ∷ (record { traffic = []; fault = refused } ∷ []));
}

flush_all-answers_each_example :
    length (flush_all memory config 2 (run_batcher 2 events left).flushed failing).0
    ≡ length (arrivals events) + length left
flush_all-answers_each_example = flush_all-answers_each memory config 2 events left failing
