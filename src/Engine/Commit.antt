-- ===== src/Engine/Commit.antt =====
-- `deadLetter`, `commitFlushed` and `handleMissingPayloads` of engine.go.
use sluice_go.Redis.{Redis}
use sluice_go.Naming.{codes}
use sluice_go.Shield.World.{World, Result, ok, err}
use sluice_go.Shield.Flush.{
  VersionedKey, FlushedKey, commit_flushed_keys, dead_letter_keys, hot_keys, refresh_hot_markers,
}
use sluice_go.Engine.Types.{EngineConfig, FlushError, payload_missing, Run, seq_of}
use sluice_go.Prelude.{
  ℕ, Bool, true, false, Option, some, List, [], ◌∷◌, ◌++◌, map, Bytes, if◌then◌else◌,
}

module _ (r : Redis) (c : EngineConfig) where
  open r use {State}

  -- `deadLetter`: an error is only recorded as a metric.
  unfoldable pub dead_letter : ℕ → ℕ → List VersionedKey → Bytes → World State → World State
  unfolding dead_letter_keys
  dead_letter now band items reason w = (dead_letter_keys r c.shield now band items reason w).1

  abbrev pub report : List Bytes → Option FlushError → Run State → Run State
  report keys error run = record run {
    reports = run.reports ++ record { keys = keys; error = error } ∷ [];
  }

  abbrev pub with_world : Run State → World State → Run State
  with_world run w = record run { world = w }

  abbrev missing_keys : List VersionedKey → List Bytes
  missing_keys = map λ i. i.correlation_key

  unfoldable pub handle_missing_payloads : ℕ → ℕ → List VersionedKey → Run State → Run State
  unfolding dead_letter
  handle_missing_payloads now band [] run = run
  handle_missing_payloads now band (i ∷ is) run =
      report (missing_keys (i ∷ is)) (some payload_missing) (
        with_world run
          (dead_letter now band (i ∷ is) (codes "payload_missing_before_flush") run.world))

  -- The post-flush TTL of each key: `hot` is nil where the markers were not or could not be read.
  unfoldable pub flushed_items : List (Bytes × Bytes) → List Bytes → List Bool → List FlushedKey
  unfolding seq_of
  flushed_items seqs [] hot = []
  flushed_items seqs (k ∷ ks) (true ∷ hot) =
      record { correlation_key = k; seq = seq_of seqs k; ttl = c.activity_window }
      ∷ flushed_items seqs ks hot
  flushed_items seqs (k ∷ ks) (false ∷ hot) =
      record { correlation_key = k; seq = seq_of seqs k; ttl = c.key_ttl }
      ∷ flushed_items seqs ks hot
  flushed_items seqs (k ∷ ks) [] =
      record { correlation_key = k; seq = seq_of seqs k; ttl = c.key_ttl }
      ∷ flushed_items seqs ks []

  unfoldable pub hot_among : List Bytes → List Bool → List Bytes
  hot_among (k ∷ ks) (b ∷ bs) = let rest = hot_among ks bs in if b then k ∷ rest else rest
  hot_among _ _ = []

  unfoldable pub hot_or_nil : Result (List Bool) × World State → List Bool × World State
  hot_or_nil (ok hot, w) = (hot, w)
  hot_or_nil (err e, w) = ([], w)

  unfoldable pub read_hot : List Bytes → World State → List Bool × World State
  unfolding hot_or_nil hot_keys
  read_hot keys w = elim c.hot_aware_flush [
    | true ↦ hot_or_nil (hot_keys r c.shield keys w)
    | false ↦ ([], w)
  ]

  -- `commitFlushed`
  unfoldable pub commit_flushed :
      ℕ → ℕ → List Bytes → List (Bytes × Bytes) → World State → World State
  unfolding read_hot hot_among flushed_items commit_flushed_keys refresh_hot_markers
  commit_flushed now band [] seqs w = w
  commit_flushed now band (k ∷ ks) seqs w =
      let (hot, w1) = read_hot (k ∷ ks) w in
      let w2 = (refresh_hot_markers r c.shield (hot_among (k ∷ ks) hot) c.activity_window w1).1 in
      (commit_flushed_keys r c.shield now band (flushed_items seqs (k ∷ ks) hot) w2).1

  unfoldable pub versioned : List (Bytes × Bytes) → List Bytes → List VersionedKey
  unfolding seq_of
  versioned seqs [] = []
  versioned seqs (k ∷ ks) = record { correlation_key = k; seq = seq_of seqs k } ∷ versioned seqs ks
