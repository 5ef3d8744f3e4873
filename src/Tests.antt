-- ===== src/Tests.antt =====
-- Concrete data, at which the theorems are applied: the Redis in memory, four bands, and the keys
-- "a" and "b".
pub mod Journal
pub mod Flush
pub mod Cache
pub mod Reads
pub mod Queues
pub mod Sinks
pub mod Loops
pub mod Indexes
pub mod Registry
use sluice_go.Redis.{Redis}
use sluice_go.Redis.Memory.{Memory, memory, nothing}
use sluice_go.Shield.Calls.{Config, write_call}
use sluice_go.Shield.Pending.{IsPending}
use sluice_go.Shield.Traffic.{Action, writes, commits, extends, elapses}
use sluice_go.Shield.Traffic.Written.{written-IsPending}
use sluice_go.Prelude.{◌≡◌, refl, inr, List, [], ◌∷◌, Bytes}

abbrev pub config : Config
config = record { band_count = 4; key_ttl = 90000; activity_window = 30000; dlq_ttl = 500000 }

abbrev pub key_a : Bytes
key_a = 97 ∷ []

abbrev pub key_b : Bytes
key_b = 98 ∷ []

abbrev pub body_x : Bytes
body_x = 120 ∷ []

abbrev pub body_y : Bytes
body_y = 121 ∷ []

-- Key "a" was written once.
abbrev pub one_write : Memory
one_write = write_call memory config key_a body_x 5 nothing

pub one_write-IsPending : IsPending memory config key_a 1 body_x one_write
one_write-IsPending = written-IsPending memory config key_a body_x 5 0 nothing (inr (refl, refl))

-- A second write of "a", a commit of "b", a refresh and an hour.
abbrev pub busy : List Action
busy =
    writes key_a body_y 6
    ∷ (commits key_b (49 ∷ []) 90000 7 ∷ (extends key_a 8 ∷ (elapses 3600000 ∷ [])))
