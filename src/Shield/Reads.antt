-- ===== src/Shield/Reads.antt =====
-- The reads of shield.go and the operations beside the flush: ReadJournal, BulkGetTTL, the hot
-- markers, HydrateJournal and its bulk form, CommitKeys, MoveToDeadLetter and the depths.
pub mod Torn
use sluice_go.Naming.Decimal.{itoa}
use sluice_go.Redis.{Redis, Ttl}
use sluice_go.Redis.Keys.{dirty, dlq}
use sluice_go.Shield.Fields.{field_p, field_ts, field_reason, field_at}
use sluice_go.Shield.Calls.{Config, band_for, payload_of, write_call, hydrate_call, extend_call}
use sluice_go.Shield.Scripts.{HydrateReply, filled, kept}
use sluice_go.Shield.World.{
  World, Result, ok, err, Error, noscript, unavailable, Command, round_trip, pipeline,
  eval_sha_pipelined,
}
use sluice_go.Shield.Flush.{nonempty, parse_ts, collect, done_if_answered}
use sluice_go.Prelude.{
  true, false, if◌then◌else◌, ℕ, Bool, Option, none, some, List, [], ◌∷◌, ◌++◌, map, Bytes,
}

-- What ReadJournal gives; a missing or empty payload is not found.
pub data JournalRead : Type 0 where
  not_found : JournalRead
  found : (body : Bytes) (ttl : Ttl) (version : ℕ) → JournalRead

-- A reply to HGET or to PTTL.
pub data Reply : Type 0 where
  text : Option Bytes → Reply
  left : Ttl → Reply

unfoldable pub journal_read : Option Bytes → Ttl → Option Bytes → JournalRead
unfolding parse_ts
journal_read none ttl ts = not_found
journal_read (some body) ttl ts = found body ttl (parse_ts ts)

unfoldable pub decode_read : List Reply → JournalRead
unfolding journal_read nonempty
decode_read (text p ∷ left ttl ∷ text ts ∷ []) = journal_read (nonempty p) ttl ts
decode_read _ = not_found

-- What hydrateLua's reply says of the journal: whether the payload was written, and the payload
-- and version that are there now.
pub record HydrateResult : Type 0 where
  pub written : Bool
  pub body : Bytes
  pub version : ℕ

unfoldable pub parse_hydrate_result : Bytes → ℕ → HydrateReply → HydrateResult
unfolding parse_ts
parse_hydrate_result body ts filled = record { written = Bool.true; body = body; version = ts }
parse_hydrate_result body ts (kept cur at) = record {
  written = Bool.false;
  body = cur;
  version = parse_ts (some at);
}

pub record BulkItem : Type 0 where
  pub correlation_key : Bytes
  pub body : Bytes

module _ (r : Redis) (c : Config) where
  open r use {State, hget, pttl, hset, pexpire, zadd, zrem, zcard, zrange, marked, mark}

  unfoldable pub map_result :
      {A B : Type 0} → (A → B) → Result A × World State → Result B × World State
  map_result f (ok a, w) = (ok (f a), w)
  map_result f (err e, w) = (err e, w)

  -- Script.Run: EVALSHA, then EVAL after NOSCRIPT.
  unfoldable pub after_evalsha :
      {A : Type 0} → Command r c A → Result A × World State → Result A × World State
  unfolding round_trip
  after_evalsha cmd (ok a, w) = (ok a, w)
  after_evalsha cmd (err noscript, w) = round_trip r c cmd w
  after_evalsha cmd (err unavailable, w) = (err unavailable, w)

  unfoldable pub run_script : {A : Type 0} → Command r c A → World State → Result A × World State
  unfolding after_evalsha
  run_script cmd w = after_evalsha cmd (round_trip r c cmd w)

  abbrev pub version_commands : Bytes → List (Command r c Reply)
  version_commands ck =
      (λ s. (left (pttl s (payload_of c ck)), s))
      ∷ (λ s. (text (hget s (payload_of c ck) field_ts), s))
      ∷ []

  abbrev pub read_commands : Bytes → List (Command r c Reply)
  read_commands ck = (λ s. (text (hget s (payload_of c ck) field_p), s)) ∷ version_commands ck

  -- The first command has answered redis.Nil.
  abbrev pub misses : List (Result Reply) → Bool
  misses [] = false
  misses (err e ∷ rest) = false
  misses (ok (left ttl) ∷ rest) = false
  misses (ok (text (some p)) ∷ rest) = false
  misses (ok (text none) ∷ rest) = true

  -- Exec returns the error of the first command that has one, and redis.Nil is passed over.
  unfoldable pub after_exec : List (Result Reply) × World State → Result JournalRead × World State
  unfolding collect map_result decode_read
  after_exec (rs, w) =
      let decoded = map_result decode_read (collect r c (rs, w)) in
      (if misses rs then ok not_found else decoded.0, w)

  -- `ReadJournal`: three commands of one pipeline, between which others may act.
  unfoldable pub read_journal : Bytes → World State → Result JournalRead × World State
  unfolding pipeline after_exec
  read_journal ck w = after_exec (pipeline r c (read_commands ck) w)

  -- `BulkGetTTL`, with the keys in order.
  unfoldable pub bulk_get_ttl : List Bytes → World State → Result (List Ttl) × World State
  unfolding pipeline collect
  bulk_get_ttl [] w = (ok [], w)
  bulk_get_ttl (k ∷ ks) w =
      collect r c (pipeline r c (map (λ ck s. (pttl s (payload_of c ck), s)) (k ∷ ks)) w)

  -- `SetHotMarker` and `IsHot`
  unfoldable pub set_hot_marker : Bytes → ℕ → World State → Result (Unit {0}) × World State
  unfolding round_trip
  set_hot_marker ck ttl = round_trip r c (λ s. (tt, mark (band_for c ck) ck ttl s))

  unfoldable pub is_hot : Bytes → World State → Result Bool × World State
  unfolding round_trip
  is_hot ck = round_trip r c (λ s. (marked s (band_for c ck) ck, s))

  -- `Write` of a shield without batching and broadcast.
  unfoldable pub shield_write : Bytes → Bytes → ℕ → World State → Result (Unit {0}) × World State
  unfolding run_script write_call
  shield_write ck body ts = run_script (λ s. (tt, write_call r c ck body ts s))

  unfoldable pub mark_after :
      Bytes → Result (Unit {0}) × World State → Result (Unit {0}) × World State
  unfolding set_hot_marker
  mark_after ck (ok u, w) = set_hot_marker ck c.activity_window w
  mark_after ck (err e, w) = (err e, w)

  -- `HotLoad` of the shield
  unfoldable pub shield_hot_load : Bytes → Bytes → ℕ → World State → Result (Unit {0}) × World State
  unfolding shield_write mark_after
  shield_hot_load ck body ts w = mark_after ck (shield_write ck body ts w)

  -- `HydrateJournal`
  unfoldable pub hydrate_journal :
      Bytes → Bytes → ℕ → World State → Result HydrateResult × World State
  unfolding run_script map_result parse_hydrate_result hydrate_call
  hydrate_journal ck body ts w =
      map_result (parse_hydrate_result body ts) (run_script (hydrate_call r c ck body ts) w)

  abbrev pub hydrate_commands : ℕ → List BulkItem → List (Command r c HydrateResult)
  hydrate_commands ts = map λ (i : BulkItem) s.
      let (reply, t) = hydrate_call r c i.correlation_key i.body ts s in
      (parse_hydrate_result i.body ts reply, t)

  unfoldable pub collect_answered :
      {A : Type 0} → Result (List (Result A)) × World State → Result (List A) × World State
  unfolding collect
  collect_answered (ok rs, w) = collect r c (rs, w)
  collect_answered (err e, w) = (err e, w)

  -- `BulkHydrateJournal`, in the order of the items.
  unfoldable pub bulk_hydrate_journal :
      List BulkItem → ℕ → World State → Result (List HydrateResult) × World State
  unfolding eval_sha_pipelined hydrate_call parse_hydrate_result collect_answered
  bulk_hydrate_journal [] ts w = (ok [], w)
  bulk_hydrate_journal (i ∷ is) ts w =
      collect_answered (eval_sha_pipelined r c (hydrate_commands ts (i ∷ is)) w)

  unfoldable pub zrem_dirty : ℕ → List Bytes → State → State
  zrem_dirty band [] s = s
  zrem_dirty band (k ∷ ks) s = zrem_dirty band ks (zrem (dirty band) k s)

  -- `CommitKeys`
  unfoldable pub commit_keys : ℕ → List Bytes → World State → Result (Unit {0}) × World State
  unfolding round_trip zrem_dirty
  commit_keys band [] w = (ok tt, w)
  commit_keys band (k ∷ ks) w = round_trip r c (λ s. (tt, zrem_dirty band (k ∷ ks) s)) w

  abbrev pub bury_commands : ℕ → ℕ → Bytes → List Bytes → List (Command r c (Unit {0}))
  bury_commands now band reason [] = []
  bury_commands now band reason (k ∷ ks) =
      (λ s. (tt, zadd (dlq band) now k s))
      ∷ (λ s. (
        tt,
        hset (payload_of c k) field_at (itoa now) (hset (payload_of c k) field_reason reason s),
      ))
      ∷ (λ s. (tt, pexpire (payload_of c k) c.dlq_ttl s))
      ∷ bury_commands now band reason ks

  -- `MoveToDeadLetter`: plain commands of one pipeline.
  unfoldable pub move_to_dead_letter :
      ℕ → ℕ → List Bytes → Bytes → World State → Result (Unit {0}) × World State
  unfolding pipeline collect done_if_answered zrem_dirty
  move_to_dead_letter now band [] reason w = (ok tt, w)
  move_to_dead_letter now band (k ∷ ks) reason w = done_if_answered r c (
      collect r c (
        pipeline r c
          (bury_commands now band reason (k ∷ ks) ++ (λ s. (tt, zrem_dirty band (k ∷ ks) s)) ∷ [])
          w))

  -- `DeadLetterDepth`
  unfoldable pub dead_letter_depth : ℕ → World State → Result ℕ × World State
  unfolding round_trip
  dead_letter_depth band = round_trip r c (λ s. (zcard s (dlq band), s))

  abbrev pub first_score : List (Bytes × ℕ) → ℕ
  first_score [] = 0
  first_score ((k, n) ∷ rest) = n

  -- `OldestDirtyScore`
  unfoldable pub oldest_dirty_score : ℕ → World State → Result ℕ × World State
  unfolding round_trip
  oldest_dirty_score band = round_trip r c (λ s. (first_score (zrange s (dirty band) 1), s))
