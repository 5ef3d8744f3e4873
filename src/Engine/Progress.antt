-- ===== src/Engine/Progress.antt =====
-- A flush of engine.go in a calm world, seen from a key that is listed: the key leaves the dirty
-- set.
pub mod Steps
pub mod Settling
pub mod Built
use sluice_go.Naming.{codes}
use sluice_go.Naming.Decimal.{itoa}
use sluice_go.Redis.{Redis}
use sluice_go.Redis.Keys.{dirty}
use sluice_go.Shield.Fields.{field_p, field_v}
use sluice_go.Shield.Calls.{band_for, payload_of, dirty_of}
use sluice_go.Shield.World.{World, Result, ok, wait, wait_on}
use sluice_go.Shield.World.Calm.{calm, CalmAt}
use sluice_go.Shield.Flush.{
  FlushRecord, read_member, nonempty, build_record, read_hash, drain_band, dirty_queue_depth,
}
use sluice_go.Shield.Flush.Calm.{record_of, drain_band-calm, dirty_queue_depth-calm}
use sluice_go.Sink.{
  WriteModel, SinkError, BulkWriteResult, Answer, answered, failed, check_attribution,
}
use sluice_go.Sink.Errors.{Attributed, check_attribution_iff}
use sluice_go.Engine.Types.{
  EngineConfig, Contract, Run, Batch, no_batch, seq_of, keys_of, errors_of, permanent_keys,
  success_keys, contains,
}
use sluice_go.Engine.Partition.{named, success_keys-contains}
use sluice_go.Engine.Commit.{handle_missing_payloads, commit_flushed, versioned, dead_letter}
use sluice_go.Engine.{
  take_records, settle, check_and_settle, after_bulk_write, bulk_write, write_batch, flush_records,
  flush_band, models_of, flush_models,
}
use Steps.{AtVersion, IsSettled}
use Settling.{handle_missing-AtVersion, commit_flushed-IsSettled, dead_letter-IsSettled}
use Built.{under, ReadsIf, HasRecord, Going, Ready, take_records-Going, take_records-Ready}
use sluice_go.Prelude.{
  ℕ, ◌≡◌, refl, ◌∙◌, ap, sym, subst, true, false, Option, some, none, List, [], ◌∷◌, map, Bytes,
  bytes_eq, bytes_eq→≡, bytes_eq_refl, All, arith, Bool-cases, ◌⊎◌, inl, inr, Listed,
}

Listed-contains :
    {V : Type 0} (m : WriteModel V) (models : List (WriteModel V))
    → Listed m models
    → contains (keys_of models) m.correlation_key ≡ true
unfolding contains keys_of
Listed-contains m [] h = absurd h
Listed-contains m (x ∷ xs) (inl e) = rw e (ground (arith, bytes_eq_refl x.correlation_key))
Listed-contains m (x ∷ xs) (inr h) = ground (arith, Listed-contains m xs h)

unattributed_none :
    {V : Type 0} (models : List (WriteModel V)) (result : Option BulkWriteResult)
    → Attributed (errors_of result)
    → check_attribution models result ≡ none
unattributed_none models none a = unfold check_attribution in refl
unattributed_none models (some result) a = (check_attribution_iff models result).0.1 a

module _ {V : Type 0} (r : Redis) (c : EngineConfig) (ck : Bytes)
    (sink : List (WriteModel V) → Answer) (n now : ℕ) where
  open r use {State}

  abbrev band : ℕ
  band = band_for c.shield ck

  abbrev Settles : Run State → Type 0
  Settles run = CalmAt (IsSettled r c.shield ck) run.world

  module _ (batch : Batch V) (result : Option BulkWriteResult)
      (there : contains (keys_of batch.models) ck ≡ true) (carries : seq_of batch.seqs ck ≡ itoa n)
      (attributed : Attributed (errors_of result))
      (unnamed : named (errors_of result) ck ≡ false) where
    settle-Settles :
        (run : Run State)
        → CalmAt (AtVersion r c.shield ck n) run.world
        → Settles (settle r c now band batch (errors_of result) run)
    unfolding settle
    settle-Settles run h =
        let keys = success_keys (keys_of batch.models) (errors_of result) in
        let succeeds : contains keys ck ≡ true =
          success_keys-contains (keys_of batch.models) (errors_of result) ck
          ∙ rw (there, unnamed) refl in
        dead_letter-IsSettled r c ck now
          (versioned r c batch.seqs (permanent_keys (errors_of result)))
          (codes "permanent_sink_error") _
          (commit_flushed-IsSettled r c ck n batch.seqs carries now keys run.world succeeds h)

    check-Settles :
        (o : Option SinkError) (run : Run State)
        → o ≡ none
        → CalmAt (AtVersion r c.shield ck n) run.world
        → Settles (check_and_settle r c now band batch result o run)
    unfolding check_and_settle
    check-Settles none run e h = settle-Settles run h
    check-Settles (some x) run e h = cc

    answer-Settles :
        (answer : Answer) (run : Run State)
        → answer ≡ answered result
        → CalmAt (AtVersion r c.shield ck n) run.world
        → Settles (after_bulk_write r c now band batch answer run)
    unfolding after_bulk_write
    answer-Settles answer run e h =
        subst (λ a. Settles (after_bulk_write r c now band batch a run)) (sym e)
          (check-Settles (check_attribution batch.models result) run
            (unattributed_none batch.models result attributed) h)

    bulk_write-Settles :
        (models : List (WriteModel V)) (run : Run State)
        → models ≡ batch.models
        → sink models ≡ answered result
        → CalmAt (AtVersion r c.shield ck n) run.world
        → Settles (bulk_write r c sink now band batch models run)
    unfolding bulk_write
    bulk_write-Settles [] run e a h =
        let none_there : contains (keys_of {V = V} []) ck ≡ true =
          subst (λ models. contains (keys_of models) ck ≡ true) (sym e) there in
        unfold contains keys_of in cc
    bulk_write-Settles (m ∷ ms) run e a (s, at, h) = answer-Settles (sink (m ∷ ms)) _ a (
        subst (λ w. CalmAt (AtVersion r c.shield ck n) (wait r c.shield w).1) (sym at)
          (unfold wait wait_on in (s, refl, h)))

  module _ (contract : Contract V) (s : State) (x : ℕ) (xs : Bytes) (wm : WriteModel V) (score : ℕ)
      (result : Option BulkWriteResult) (version : AtVersion r c.shield ck n s)
      (held : r.hget s (payload_of c.shield ck) field_p ≡ some (x ∷ xs))
      (listed : Listed (ck, score) (r.zrange s (dirty band) c.max_batch_size))
      (modelled : contract ck (x ∷ xs) ≡ some wm) where
    abbrev records : List FlushRecord
    records = map (record_of r c.shield now band s) (r.zrange s (dirty band) c.max_batch_size)

    -- The record of a member, as it stands in the payload hash.
    reads_if :
        (m : Bytes × ℕ)
        → ReadsIf r c ck contract n (x ∷ xs) wm modelled now (record_of r c.shield now band s m)
    unfolding read_member build_record read_hash nonempty
    reads_if (k, score) e = rw (bytes_eq→≡ k ck e, held, version) (refl, refl)

    all_read :
        (ms : List (Bytes × ℕ))
        → All
            (ReadsIf r c ck contract n (x ∷ xs) wm modelled now)
            (map (record_of r c.shield now band s) ms)
    all_read [] = tt
    all_read (m ∷ ms) = (reads_if m, all_read ms)

    has_record :
        (ms : List (Bytes × ℕ))
        → Listed (ck, score) ms
        → HasRecord r c ck contract n
            (x ∷ xs)
            wm
            modelled
            now
            (map (record_of r c.shield now band s) ms)
    unfolding read_member
    has_record [] h = absurd h
    has_record (m ∷ ms) (inl e) =
        inl (subst (λ (m : Bytes × ℕ). bytes_eq m.0 ck ≡ true) e (bytes_eq_refl ck))
    has_record (m ∷ ms) (inr h) = inr (has_record ms h)

    abbrev start : Batch V × Run State
    start = (no_batch, record { world = calm s; reports = [] })

    abbrev built : Batch V × Run State
    built = take_records r c contract now band records start

    built-Going : Going r c ck contract n (x ∷ xs) wm modelled now built
    built-Going =
        take_records-Going r c ck contract n (x ∷ xs) wm modelled now records start (all_read _)
          (record { world = (s, refl, version); others = tt })

    built-Ready : Ready r c ck contract n (x ∷ xs) wm modelled now built.0
    built-Ready =
        take_records-Ready r c ck contract n (x ∷ xs) wm modelled now records start (all_read _)
          (inl (has_record _ listed))

    drained :
        drain_band r c.shield now band c.max_batch_size
          (dirty_queue_depth r c.shield band (calm s)).1
        ≡ (ok records, calm s)
    drained =
        ap (drain_band r c.shield now band c.max_batch_size)
          (dirty_queue_depth-calm r c.shield now band s)
        ∙ drain_band-calm r c.shield now band c.max_batch_size s

    flush_models-built : flush_models r c contract now band (calm s) ≡ built.0.models
    unfolding flush_models models_of
    flush_models-built = ap (models_of r c contract now band) drained

    flush_band-built :
        flush_band r c contract sink now band (calm s) ≡ write_batch r c sink now band built
    unfolding flush_band flush_records
    flush_band-built = ap (λ out. flush_records r c contract sink now band out) drained

    write_batch-Settles :
        sink built.0.models ≡ answered result
        → Attributed (errors_of result)
        → named (errors_of result) ck ≡ false
        → Settles (write_batch r c sink now band built)
    unfolding write_batch
    write_batch-Settles a attributed unnamed =
        bulk_write-Settles built.0 result
          (Listed-contains (under ck wm) built.0.models built-Ready.listed) built-Ready.carries
          attributed unnamed built.0.models _ refl a
          (handle_missing-AtVersion r c ck n now built.0.missing built.1 built-Going.others
            built-Going.world)

    -- In a world where nothing fails and no one else acts, the band of a key is flushed which is
    -- among the listed members of the dirty set and has a version and a payload that is not empty,
    -- of which the contract makes a model; the sink answers the batch with every error attributed
    -- and none for the key. Then that model was in the batch, under the key, and the key is not in
    -- the dirty set afterwards, whatever becomes of the other keys.
    pub flush_band-settles :
        sink (flush_models r c contract now band (calm s)) ≡ answered result
        → Attributed (errors_of result)
        → named (errors_of result) ck ≡ false
        → Listed (under ck wm) (flush_models r c contract now band (calm s))
          × (r.zscore
                (flush_band r c contract sink now band (calm s)).world.redis
                (dirty_of c.shield ck)
                ck
              ≡ none)
    flush_band-settles a attributed unnamed =
        let (t, at, gone) =
          write_batch-Settles (sym (ap sink flush_models-built) ∙ a) attributed unnamed in
        (
          subst (Listed (under ck wm)) (sym flush_models-built) built-Ready.listed,
          ap (λ run. r.zscore run.world.redis (dirty_of c.shield ck) ck) flush_band-built
              ∙ ap (λ w. r.zscore w.redis (dirty_of c.shield ck) ck) at
              ∙ gone,
        )
