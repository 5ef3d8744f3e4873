-- ===== src/Shield/DeadLetters.antt =====
-- DrainDLQ, CommitDLQKeys and HasPendingVersion of shield.go.
pub mod Discarded
use sluice_go.Redis.{Redis}
use sluice_go.Redis.Keys.{payload, dirty, dlq}
use sluice_go.Shield.Fields.{field_p, field_ts}
use sluice_go.Shield.Calls.{Config, band_for, payload_of}
use sluice_go.Shield.Pending.{is_some}
use sluice_go.Shield.World.{World, Result, ok, err, Command, round_trip, pipeline}
use sluice_go.Shield.Flush.{FlushRecord, nonempty, parse_ts, collect, done_if_answered}
use sluice_go.Prelude.{ℕ, Bool, false, ◌||◌, Option, none, some, List, [], ◌∷◌, ◌++◌, map, Bytes}

-- A record of a dead letter, without a sequence; none for a payload that is gone or empty.
unfoldable pub build_dead : ℕ → Bytes → Option Bytes → Option Bytes → Option FlushRecord
unfolding parse_ts
build_dead now ck none ts = none
build_dead now ck (some body) ts = some (record {
  correlation_key = ck;
  body = some body;
  received_at = now;
  journal_ts = parse_ts ts;
  seq = [];
})

unfoldable pub live_records : List (Bytes × Option FlushRecord) → List FlushRecord
live_records [] = []
live_records ((ck, none) ∷ rest) = live_records rest
live_records ((ck, some rec) ∷ rest) = rec ∷ live_records rest

unfoldable pub expired_keys : List (Bytes × Option FlushRecord) → List Bytes
expired_keys [] = []
expired_keys ((ck, none) ∷ rest) = ck ∷ expired_keys rest
expired_keys ((ck, some rec) ∷ rest) = expired_keys rest

module _ (r : Redis) (c : Config) where
  open r use {State, hget, zscore, zrange, zrem, del}

  -- ZREM of several members.
  unfoldable pub zrem_all : ℕ → List Bytes → State → State
  zrem_all band [] s = s
  zrem_all band (k ∷ ks) s = zrem_all band ks (zrem (dlq band) k s)

  unfoldable pub read_dead : ℕ → Bytes × ℕ → Command r c (Bytes × Option FlushRecord)
  unfolding build_dead nonempty
  read_dead now (ck, score) s = (
    (
      ck,
      build_dead now ck (nonempty (hget s (payload_of c ck) field_p))
          (hget s (payload_of c ck) field_ts),
    ),
    s,
  )

  unfoldable pub drop_expired : ℕ → List Bytes → World State → World State
  unfolding round_trip zrem_all
  drop_expired band [] w = w
  drop_expired band (k ∷ ks) w = (round_trip r c (λ s. (tt {0}, zrem_all band (k ∷ ks) s)) w).1

  -- `drainAction`
  unfoldable pub drain_action :
      ℕ
      → Result (List (Bytes × Option FlushRecord)) × World State
      → Result (List FlushRecord) × World State
  unfolding live_records expired_keys drop_expired
  drain_action band (err e, w) = (err e, w)
  drain_action band (ok replies, w) =
      (ok (live_records replies), drop_expired band (expired_keys replies) w)

  unfoldable pub read_dead_members :
      ℕ → ℕ → Result (List (Bytes × ℕ)) × World State → Result (List FlushRecord) × World State
  unfolding drain_action read_dead collect pipeline
  read_dead_members now band (err e, w) = (err e, w)
  read_dead_members now band (ok [], w) = (ok [], w)
  read_dead_members now band (ok (m ∷ ms), w) =
      drain_action band (collect r c (pipeline r c (map (read_dead now) (m ∷ ms)) w))

  -- `DrainDLQ`
  unfoldable pub drain_dlq : ℕ → ℕ → ℕ → World State → Result (List FlushRecord) × World State
  unfolding read_dead_members round_trip
  drain_dlq now band max_batch w =
      read_dead_members now band (round_trip r c (λ s. (zrange s (dlq band) max_batch, s)) w)

  abbrev pub dlq_commands : ℕ → List Bytes → List (Command r c (Unit {0}))
  dlq_commands band keys =
      map (λ k s. (tt {0}, del (payload_of c k) s)) keys
      ++ (λ s. (tt {0}, zrem_all band keys s)) ∷ []

  -- `CommitDLQKeys`
  unfoldable pub commit_dlq_keys : ℕ → List Bytes → World State → Result (Unit {0}) × World State
  unfolding pipeline collect zrem_all done_if_answered
  commit_dlq_keys band [] w = (ok tt, w)
  commit_dlq_keys band (k ∷ ks) w =
      done_if_answered r c (collect r c (pipeline r c (dlq_commands band (k ∷ ks)) w))

  -- The loop over the two scores.
  unfoldable pub any_score : List (Option ℕ) → Bool
  any_score [] = false
  any_score (o ∷ os) = is_some o || any_score os

  unfoldable pub pending_answer : Result (List (Option ℕ)) × World State → Result Bool × World State
  unfolding any_score
  pending_answer (ok scores, w) = (ok (any_score scores), w)
  pending_answer (err e, w) = (err e, w)

  abbrev pub score_reads : Bytes → List (Command r c (Option ℕ))
  score_reads ck =
      (λ s. (zscore s (dirty (band_for c ck)) ck, s))
      ∷ (λ s. (zscore s (dlq (band_for c ck)) ck, s))
      ∷ []

  -- `HasPendingVersion`
  unfoldable pub has_pending_version : Bytes → World State → Result Bool × World State
  unfolding pipeline collect pending_answer
  has_pending_version ck w = pending_answer (collect r c (pipeline r c (score_reads ck) w))
