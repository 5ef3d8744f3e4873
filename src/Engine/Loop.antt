-- ===== src/Engine/Loop.antt =====
-- The goroutines of engine.go: the loop of a band, the volume signal that wakes it, and the
-- pre-eviction flusher that signals bands which wait too long.
pub mod Held
pub mod Signals
use sluice_go.Redis.{Redis}
use sluice_go.Shield.World.{World, Result, ok, err}
use sluice_go.Shield.Reads.{oldest_dirty_score}
use sluice_go.Sink.{WriteModel, Answer}
use sluice_go.Engine.Types.{EngineConfig, Contract, Run, Report}
use sluice_go.Engine.{flush_band}
use sluice_go.Prelude.{
  ℕ, ◌+◌, Bool, true, false, ◌&&◌, Option, none, some, List, [], ◌∷◌, ◌++◌, ltb, if◌then◌else◌,
}

-- What one flush meets: the time, and the sink as it is then.
pub record Meeting (V : Type 0) : Type 0 where
  pub now : ℕ
  pub sink : List (WriteModel V) → Answer

-- Another goroutine calls SignalVolume, the pre-eviction flusher looks at the band at a time, or the
-- select of the loop picks a case that is ready: the ticker, the volume signal, or the closed stop
-- channel.
pub data BandEvent (V : Type 0) : Type 0 where
  signalled : BandEvent V
  evicting : ℕ → BandEvent V
  ticked woken stopped : Meeting V → BandEvent V

-- The band's signal channel holds one token or none.
pub record BandState (S : Type 0) : Type 0 where
  pub world : World S
  pub reports : List Report
  pub pending : Bool
  pub running : Bool

-- `SignalVolume`: it never blocks, and a second signal is dropped.
unfoldable pub signal_volume : {S : Type 0} → BandState S → BandState S
signal_volume s = record s { pending = true }

module _ {V : Type 0} (r : Redis) (c : EngineConfig) (contract : Contract V) (band : ℕ) where
  open r use {State}

  abbrev pub after_flush : Run State → BandState State → BandState State
  after_flush run s = record s { world = run.world; reports = s.reports ++ run.reports }

  unfoldable pub flush_now : Meeting V → BandState State → BandState State
  unfolding flush_band
  flush_now m s = after_flush (flush_band r c contract m.sink m.now band s.world) s

  -- One band in a round of startPreEvictionFlusher, which runs for a KeyTTL above 0.
  unfoldable pub forces_flush : ℕ → ℕ → Bool
  forces_flush now oldest =
      ltb 0 c.key_ttl && (ltb 0 oldest && ltb (oldest + c.key_ttl) (now + 5000))

  unfoldable pub pre_evict : ℕ → Result ℕ × World State → BandState State → BandState State
  unfolding forces_flush signal_volume
  pre_evict now (err e, w) s = record s { world = w }
  pre_evict now (ok oldest, w) s =
      let seen = record s { world = w } in
      if forces_flush now oldest then signal_volume seen else seen

  -- One turn of the loop, or of another goroutine. The volume case is not ready without a token.
  unfoldable pub turn : BandEvent V → BandState State → BandState State
  unfolding flush_now signal_volume pre_evict oldest_dirty_score
  turn signalled s = signal_volume s
  turn (evicting now) s = pre_evict now (oldest_dirty_score r c.shield band s.world) s
  turn (ticked m) s = flush_now m s
  turn (woken m) s = if s.pending then flush_now m (record s { pending = false }) else s
  turn (stopped m) s = record (flush_now m s) { running = false }

  -- `runBand`: after the flush of the stop case it returns.
  unfoldable pub run_band : List (BandEvent V) → BandState State → BandState State
  unfolding turn
  run_band [] s = s
  run_band (e ∷ es) s = let rest = run_band es (turn e s) in if s.running then rest else s
