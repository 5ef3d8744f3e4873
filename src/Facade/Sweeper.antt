-- ===== src/Facade/Sweeper.antt =====
-- The index sweeper of sluice.go: pruneExpiredIndexes over all bands, and the band that each tick of
-- the sweep takes. What a call of PruneExpiredIndexes gives is a parameter, by band and batch.
pub mod Rounds
use sluice_go.Naming.{ℤ, pos, negsuc}
use sluice_go.Shield.Index.Prune.{Pruned}
use sluice_go.Prelude.{
  ℕ, zero, suc, ◌+◌, ◌*◌, ◌%◌, Bool, true, false, ◌||◌, List, [], ◌∷◌, ◌++◌, Option, none, some,
  ltb, if◌then◌else◌,
}

-- indexSweepBatch and indexPruneMaxBatches
abbrev pub sweep_batch : ℕ
sweep_batch = 500

abbrev pub max_batches : ℕ
max_batches = 20

-- The total of pruned keys, and whether a call failed.
pub record Round : Type 0 where
  pub total : ℕ
  pub failed : Bool
  pub calls : ℕ

-- What one call gives: the counts and whether it failed.
pub record Call : Type 0 where
  pub processed : ℕ
  pub pruned : ℕ
  pub call_failed : Bool

abbrev pub call_of : {S : Type 0} → Pruned S → Call
call_of p = record { processed = p.processed; pruned = p.pruned; call_failed = p.failed }

abbrev pub joined : Round → Round → Round
joined a b = record {
  total = a.total + b.total;
  failed = a.failed || b.failed;
  calls = a.calls + b.calls;
}

abbrev pub one_call : Call → Round
one_call c = record { total = c.pruned; failed = c.call_failed; calls = 1 }

module _ (prune : ℕ → ℕ → Call) where
  -- The loop over the batches of a band: it ends on an error and on a batch that is not full.
  unfoldable pub prune_batches : ℕ → ℕ → ℕ → Round
  prune_batches band zero i = record { total = 0; failed = false; calls = 0 }
  prune_batches band (suc left) i =
      let c = prune band i in
      let rest = prune_batches band left (suc i) in
      if c.call_failed || ltb c.processed sweep_batch then one_call c else joined (one_call c) rest

  -- The loop over the bands; an error does not end it.
  unfoldable pub prune_bands : ℕ → ℕ → Round
  unfolding prune_batches
  prune_bands zero band = record { total = 0; failed = false; calls = 0 }
  prune_bands (suc left) band =
      joined (prune_batches band max_batches 0) (prune_bands left (suc band))

  -- `pruneExpiredIndexes`
  unfoldable pub prune_all : ℕ → Round
  unfolding prune_bands
  prune_all band_count = prune_bands band_count 0

-- The interval of the sweep, in milliseconds: 15 s where none was set, and none at all where it is
-- negative.
unfoldable pub sweep_interval : ℤ → Option ℕ
sweep_interval (pos zero) = some 15000
sweep_interval (pos (suc n)) = some (suc n)
sweep_interval (negsuc n) = none

-- The bands that the ticks of the sweep take, one after the other.
unfoldable pub swept_bands : ℕ → ℕ → ℕ → List ℕ
swept_bands band_count zero band = []
swept_bands band_count (suc ticks) band =
    band ∷ swept_bands band_count ticks ((band + 1) % band_count)
