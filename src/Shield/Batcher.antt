-- ===== src/Shield/Batcher.antt =====
-- The write batcher of shield.go: pipelineWrites, flushBatch and the loop of runBatcher, without
-- broadcast and with the volume signaler that Build sets. An entry's `done` channel gets the result
-- at its place.
pub mod Sequential
pub mod Answered
use sluice_go.Redis.{Redis}
use sluice_go.Redis.Keys.{dirty}
use sluice_go.Shield.Calls.{Config, band_for, write_call}
use sluice_go.Shield.World.{
  World, Result, ok, err, noscript, unavailable, Error, Command, pipeline, load,
}
use sluice_go.Prelude.{
  ℕ, Bool, true, false, ◌||◌, List, [], ◌∷◌, ◌++◌, map, length, leb, ◌==◌, if◌then◌else◌, Bytes,
}

pub record WriteEntry : Type 0 where
  pub correlation_key : Bytes
  pub payload : Bytes
  pub ts : ℕ

abbrev pub Done : Type 0
Done = Result (Unit {0})

-- The entries that hit NOSCRIPT.
unfoldable pub unloaded : List WriteEntry → List Done → List WriteEntry
unloaded [] rs = []
unloaded (e ∷ es) [] = []
unloaded (e ∷ es) (ok u ∷ rs) = unloaded es rs
unloaded (e ∷ es) (err unavailable ∷ rs) = unloaded es rs
unloaded (e ∷ es) (err noscript ∷ rs) = e ∷ unloaded es rs

-- The results of a second run at the places of those that hit NOSCRIPT.
unfoldable pub replaced : List Done → List Done → List Done
replaced [] again = []
replaced (ok u ∷ rs) again = ok u ∷ replaced rs again
replaced (err unavailable ∷ rs) again = err unavailable ∷ replaced rs again
replaced (err noscript ∷ rs) [] = err noscript ∷ replaced rs []
replaced (err noscript ∷ rs) (x ∷ again) = x ∷ replaced rs again

-- A failed reload is the result of every entry that hit NOSCRIPT.
unfoldable pub not_reloaded : Error → List Done → List Done
not_reloaded e [] = []
not_reloaded e (ok u ∷ rs) = ok u ∷ not_reloaded e rs
not_reloaded e (err unavailable ∷ rs) = err unavailable ∷ not_reloaded e rs
not_reloaded e (err noscript ∷ rs) = err e ∷ not_reloaded e rs

abbrev seen_band : List ℕ → ℕ → Bool
seen_band [] b = false
seen_band (x ∷ xs) b = (x == b) || seen_band xs b

module _ (r : Redis) (c : Config) where
  open r use {State, zcard}

  abbrev pub write_commands : List WriteEntry → List (Command r c (Unit {0}))
  write_commands [] = []
  write_commands (e ∷ es) =
      (λ s. (tt, write_call r c e.correlation_key e.payload e.ts s)) ∷ write_commands es

  unfoldable pub after_reload :
      List WriteEntry → List Done → Done × World State → List Done × World State
  unfolding replaced not_reloaded pipeline
  after_reload es rs (ok u, w) =
      let again = pipeline r c (write_commands es) w in (replaced rs again.0, again.1)
  after_reload es rs (err e, w) = (not_reloaded e rs, w)

  unfoldable pub reload : List WriteEntry → List Done → World State → List Done × World State
  unfolding after_reload load
  reload [] rs w = (rs, w)
  reload (e ∷ es) rs w = after_reload (e ∷ es) rs (load r c w)

  unfoldable pub pipeline_writes : List WriteEntry → World State → List Done × World State
  unfolding reload pipeline unloaded write_call
  pipeline_writes es w =
      let first = pipeline r c (write_commands es) w in reload (unloaded es first.0) first.0 first.1

  -- The bands of the entries, each once, in the order they are touched.
  unfoldable pub touched_bands : List ℕ → List WriteEntry → List ℕ
  touched_bands seen [] = []
  touched_bands seen (e ∷ es) =
      let b = band_for c e.correlation_key in
      let fresh = touched_bands (b ∷ seen) es in
      let rest = touched_bands seen es in if seen_band seen b then rest else b ∷ fresh

  -- The bands whose depth reaches the batch size.
  unfoldable pub deep_bands : ℕ → List ℕ → List (Result ℕ) → List ℕ
  deep_bands size [] ds = []
  deep_bands size (b ∷ bs) [] = []
  deep_bands size (b ∷ bs) (err e ∷ ds) = deep_bands size bs ds
  deep_bands size (b ∷ bs) (ok n ∷ ds) =
      let rest = deep_bands size bs ds in if leb size n then b ∷ rest else rest

  abbrev pub depth_commands : List ℕ → List (Command r c ℕ)
  depth_commands = map (λ b s. (zcard s (dirty b), s))

  -- The results of the entries, the bands signalled, and the world.
  unfoldable pub flush_batch :
      ℕ → List WriteEntry → World State → List Done × (List ℕ × World State)
  unfolding pipeline_writes touched_bands deep_bands
  flush_batch size es w =
      let out = pipeline_writes es w in
      let bands = touched_bands [] es in
      let depths = pipeline r c (depth_commands bands) out.1 in
      (out.0, (deep_bands size bands depths.0, depths.1))

-- What wakes the loop of `runBatcher`: an entry, or the ticker.
pub data Event : Type 0 where
  arrives : WriteEntry → Event
  ticks : Event

pub record Batcher : Type 0 where
  pub buf : List WriteEntry
  -- the batches handed to flushBatch, in order
  pub flushed : List (List WriteEntry)

unfoldable pub flush_buf : List WriteEntry → List (List WriteEntry) → Batcher
flush_buf [] done = record { buf = []; flushed = done }
flush_buf (e ∷ es) done = record { buf = []; flushed = done ++ (e ∷ es) ∷ [] }

unfoldable pub flush : Batcher → Batcher
unfolding flush_buf
flush b = flush_buf b.buf b.flushed

unfoldable pub append_entry : ℕ → WriteEntry → Batcher → Batcher
unfolding flush
append_entry size e b =
    let b' : Batcher = record b { buf = b.buf ++ e ∷ [] } in
    if leb size (length b'.buf) then flush b' else b'

unfoldable pub on_event : ℕ → Event → Batcher → Batcher
unfolding append_entry flush
on_event size (arrives e) b = append_entry size e b
on_event size ticks b = flush b

unfoldable pub on_events : ℕ → List Event → Batcher → Batcher
unfolding on_event
on_events size [] b = b
on_events size (x ∷ xs) b = on_events size xs (on_event size x b)

-- After the stop signal, with the entries that are left in the channel.
unfoldable pub drain : ℕ → List WriteEntry → Batcher → Batcher
unfolding append_entry flush
drain size [] b = flush b
drain size (e ∷ es) b = drain size es (append_entry size e b)

unfoldable pub run_batcher : ℕ → List Event → List WriteEntry → Batcher
unfolding on_events drain
run_batcher size events left =
    drain size left (on_events size events (record { buf = []; flushed = [] }))
