-- ===== src/Shield/Flush.antt =====
-- The operations of shield.go that a flush makes: draining a band, the conditional commit and dead
-- letter of a batch, and the hot markers.
pub mod Held
pub mod Keeps
pub mod Drained
pub mod Calm
use sluice_go.Naming.Decimal.{atoi}
use sluice_go.Redis.{Redis}
use sluice_go.Redis.Keys.{payload, dirty}
use sluice_go.Shield.Fields.{field_p, field_ts, field_v}
use sluice_go.Shield.Calls.{
  Config, band_for, commit_call, dead_letter_call, extend_call, dedup_call, hydrate_call,
}
use sluice_go.Shield.Scripts.{or_empty}
use sluice_go.Shield.World.{
  World, Result, ok, err, Command, round_trip, pipeline, answers, eval_sha_pipelined,
}
use sluice_go.Prelude.{
  ℕ, Bool, true, false, not, Option, none, some, List, [], ◌∷◌, map, Bytes, ◌==◌, if◌then◌else◌,
}

pub record FlushRecord : Type 0 where
  pub correlation_key : Bytes
  pub body : Option Bytes
  pub received_at : ℕ
  pub journal_ts : ℕ
  pub seq : Bytes

pub record VersionedKey : Type 0 where
  pub correlation_key : Bytes
  pub seq : Bytes

pub record FlushedKey : Type 0 where
  pub correlation_key : Bytes
  pub seq : Bytes
  pub ttl : ℕ

-- The reply of HMGET p ts v.
pub record HashReply : Type 0 where
  pub p : Option Bytes
  pub ts : Option Bytes
  pub v : Option Bytes

-- An empty payload counts as none.
unfoldable pub nonempty : Option Bytes → Option Bytes
nonempty none = none
nonempty (some []) = none
nonempty (some (x ∷ xs)) = some (x ∷ xs)

-- strconv.ParseFloat on the digits that the scripts write; 0 on anything else.
abbrev or_0 : Option ℕ → ℕ
or_0 none = 0
or_0 (some n) = n

unfoldable pub parse_ts : Option Bytes → ℕ
parse_ts none = 0
parse_ts (some text) = or_0 (atoi 0 text)

-- One turn of the loop of `buildFlushRecords`, on a reply with no error.
unfoldable pub build_record : ℕ → Bytes → ℕ → HashReply → FlushRecord
unfolding nonempty parse_ts
build_record now ck score reply = record {
  correlation_key = ck;
  body = nonempty reply.p;
  received_at = now;
  journal_ts = if parse_ts reply.ts == 0 then score else parse_ts reply.ts;
  seq = or_empty reply.v;
}

module _ (r : Redis) (c : Config) where
  open r use {State, hget, zrange, zcard, marked, mark}

  unfoldable pub read_hash : ℕ → Bytes → State → HashReply
  read_hash band ck s = record {
    p = hget s (payload band ck) field_p;
    ts = hget s (payload band ck) field_ts;
    v = hget s (payload band ck) field_v;
  }

  -- One HMGET of the pipeline, and the record that is built from its reply.
  unfoldable pub read_member : ℕ → ℕ → Bytes × ℕ → Command r c FlushRecord
  unfolding read_hash build_record
  read_member now band (ck, score) s = (build_record now ck score (read_hash band ck s), s)

  abbrev pub answered {ℓ} : {A : Type ℓ} → List (Result A) → List A
  answered [] = []
  answered (ok a ∷ rest) = a ∷ answered rest
  answered (err e ∷ rest) = answered rest

  unfoldable pub collect :
      {A : Type 0} → List (Result A) × World State → Result (List A) × World State
  collect (rs, w) = elim (answers rs) [ ok all ↦ (ok (answered all), w) | err e ↦ (err e, w) ]

  unfoldable pub read_members :
      ℕ → ℕ → Result (List (Bytes × ℕ)) × World State → Result (List FlushRecord) × World State
  unfolding read_member collect pipeline
  read_members now band (err e, w) = (err e, w)
  read_members now band (ok [], w) = (ok [], w)
  read_members now band (ok (m ∷ ms), w) =
      collect (pipeline r c (map (read_member now band) (m ∷ ms)) w)

  -- `DrainBand`: nothing is removed.
  unfoldable pub drain_band : ℕ → ℕ → ℕ → World State → Result (List FlushRecord) × World State
  unfolding read_members round_trip
  drain_band now band max_batch w =
      read_members now band (round_trip r c (λ s. (zrange s (dirty band) max_batch, s)) w)

  -- The items whose script answered as asked.
  unfoldable pub keys_answering : Bool → List Bytes → List (Result Bool) → List Bytes
  keys_answering b (k ∷ ks) (ok a ∷ rs) =
      let rest = keys_answering b ks rs in
      elim a [ true ↦ if b then k ∷ rest else rest | false ↦ if b then rest else k ∷ rest ]
  keys_answering b (k ∷ ks) (err e ∷ rs) = keys_answering b ks rs
  keys_answering b _ _ = []

  unfoldable pub select_keys :
      Bool
      → List Bytes
      → Result (List (Result Bool)) × World State
      → Result (List Bytes) × World State
  unfolding keys_answering
  select_keys b keys (ok rs, w) = (ok (keys_answering b keys rs), w)
  select_keys b keys (err e, w) = (err e, w)

  abbrev pub commit_commands : ℕ → ℕ → List FlushedKey → List (Command r c Bool)
  commit_commands now band =
      map λ (k : FlushedKey). commit_call r c band k.correlation_key k.seq k.ttl now

  abbrev pub dead_letter_commands : ℕ → ℕ → Bytes → List VersionedKey → List (Command r c Bool)
  dead_letter_commands now band reason =
      map λ (k : VersionedKey). dead_letter_call r c band k.correlation_key k.seq now reason

  abbrev pub marker_reads : List Bytes → List (Command r c Bool)
  marker_reads = map λ ck s. (marked s (band_for c ck) ck, s)

  abbrev pub marker_writes : ℕ → List Bytes → List (Command r c (Unit {0}))
  marker_writes ttl = map λ ck s. (tt {0}, mark (band_for c ck) ck ttl s)

  -- `CommitFlushed`: the keys that were skipped because they had changed.
  unfoldable pub commit_flushed_keys :
      ℕ → ℕ → List FlushedKey → World State → Result (List Bytes) × World State
  unfolding eval_sha_pipelined select_keys commit_call
  commit_flushed_keys now band [] w = (ok [], w)
  commit_flushed_keys now band (i ∷ is) w =
      select_keys false (map (λ (k : FlushedKey). k.correlation_key) (i ∷ is))
        (eval_sha_pipelined r c (commit_commands now band (i ∷ is)) w)

  -- `DeadLetterIfUnchanged`: the keys that were moved.
  unfoldable pub dead_letter_keys :
      ℕ → ℕ → List VersionedKey → Bytes → World State → Result (List Bytes) × World State
  unfolding eval_sha_pipelined select_keys dead_letter_call
  dead_letter_keys now band [] reason w = (ok [], w)
  dead_letter_keys now band (i ∷ is) reason w =
      select_keys true (map (λ (k : VersionedKey). k.correlation_key) (i ∷ is))
        (eval_sha_pipelined r c (dead_letter_commands now band reason (i ∷ is)) w)

  -- `HotKeys`
  unfoldable pub hot_keys : List Bytes → World State → Result (List Bool) × World State
  unfolding collect pipeline
  hot_keys keys w = collect (pipeline r c (marker_reads keys) w)

  unfoldable pub done_if_answered :
      {A : Type 0} → Result A × World State → Result (Unit {0}) × World State
  done_if_answered (ok a, w) = (ok tt, w)
  done_if_answered (err e, w) = (err e, w)

  -- `RefreshHotMarkers`
  unfoldable pub refresh_hot_markers :
      List Bytes → ℕ → World State → Result (Unit {0}) × World State
  unfolding collect pipeline done_if_answered
  refresh_hot_markers [] ttl w = (ok tt, w)
  refresh_hot_markers (k ∷ ks) ttl w =
      done_if_answered (collect (pipeline r c (marker_writes ttl (k ∷ ks)) w))

  -- `RefreshHotTTL`
  unfoldable pub refresh_hot_ttl : ℕ → List Bytes → World State → Result (Unit {0}) × World State
  unfolding eval_sha_pipelined done_if_answered extend_call
  refresh_hot_ttl now [] w = (ok tt, w)
  refresh_hot_ttl now (k ∷ ks) w =
      done_if_answered (eval_sha_pipelined r c (map (λ ck. extend_call r c ck now) (k ∷ ks)) w)

  -- `DirtyQueueDepth`
  unfoldable pub dirty_queue_depth : ℕ → World State → Result ℕ × World State
  unfolding round_trip
  dirty_queue_depth band = round_trip r c (λ s. (zcard s (dirty band), s))
