-- ===== src/Tests/Loops.antt =====
-- The theorems on the loop of a band and on the shutdown at concrete inputs.
use sluice_go.Redis.Memory.{Memory, memory}
use sluice_go.Shield.Calls.{band_for}
use sluice_go.Shield.Flush.Held.{IsHeld}
use sluice_go.Engine.{flush_models}
use sluice_go.Engine.Size.{flush_models-le}
use sluice_go.Engine.Loop.{
  Meeting, BandEvent, signalled, evicting, ticked, woken, stopped, BandState, run_band,
}
use sluice_go.Engine.Loop.Held.{SomeAccepts, run_band-IsHeld}
use sluice_go.Engine.Loop.Signals.{FlushedLast, run_band-wakes}
use sluice_go.Tests.{config, key_a}
use sluice_go.Tests.Flush.{world, world-IsHeld, engine_config, contract, sink}
use sluice_go.Prelude.{ℕ, ◌≤◌, ◌≡◌, refl, true, false, List, [], ◌∷◌, ◌++◌, length, Bytes, ◌⊎◌}

abbrev band_a : ℕ
band_a = band_for config key_a

abbrev meeting : Meeting Bytes
meeting = record { now = 9; sink = sink }

abbrev idle : BandState Memory
idle = record { world = world; reports = []; pending = false; running = true }

-- A signal, a look of the pre-eviction flusher, the flush of the signal, and the stop.
abbrev day : List (BandEvent Bytes)
day = signalled ∷ (evicting 100 ∷ (woken meeting ∷ (stopped meeting ∷ [])))

run_band-IsHeld_example :
    IsHeld memory config key_a (run_band memory engine_config contract band_a day idle).world.redis
    ⊎ SomeAccepts memory engine_config contract key_a day idle
run_band-IsHeld_example = run_band-IsHeld memory engine_config contract key_a day idle world-IsHeld

-- A tick and a second signal before the first is taken.
abbrev busy_band : List (BandEvent Bytes)
busy_band = ticked meeting ∷ (signalled ∷ [])

run_band-wakes_example :
    let before = run_band memory engine_config contract band_a (signalled ∷ busy_band) idle in
    let after =
      run_band memory engine_config contract band_a
        (signalled ∷ (busy_band ++ woken meeting ∷ []))
        idle in
    FlushedLast memory engine_config contract band_a meeting before after
    × (after.pending ≡ false)
    × (after.running ≡ true)
run_band-wakes_example =
    run_band-wakes memory engine_config contract band_a busy_band meeting idle (tt, (tt, tt)) refl

flush_models-le_example : length (flush_models memory engine_config contract 9 band_a world) ≤ 10
flush_models-le_example = flush_models-le memory engine_config contract 9 band_a world
