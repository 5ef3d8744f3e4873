-- ===== src/Tests/Cache.antt =====
-- The theorems on the local cache and on dead letters at concrete inputs.
use sluice_go.Naming.{pos, codes}
use sluice_go.Naming.Decimal.{itoa, atoi}
use sluice_go.Band.{shard_index, band_for_key}
use sluice_go.LocalJournal.Hits.{After, get-After}
use sluice_go.LocalJournal.{
  Entry, get_shard, found, invalidate, invalidate_shard, Cache, new_cache, per_shard, get, put,
  put_shard, put_entry,
}
use sluice_go.LocalJournal.Shards.{
  AllBounded, Call, gets, puts, invalidates, call, call_all, call_all-new_cache,
}
use sluice_go.Redis.Memory.{Memory, memory}
use sluice_go.Shield.Fields.{field_p}
use sluice_go.Shield.Calls.{band_for, payload_of, dirty_of, write_call, dead_letter_call}
use sluice_go.Shield.Pending.{is_some}
use sluice_go.Shield.Scripts.{atomic_write, dead_letter_if_unchanged}
use sluice_go.Shield.World.{World, ok, round_trip, pipeline, wait, wait_on, attempt}
use sluice_go.Shield.Flush.{FlushRecord, collect, nonempty, parse_ts}
use sluice_go.Shield.DeadLetters.{
  commit_dlq_keys, drain_dlq, read_dead_members, read_dead, build_dead, drain_action, live_records,
  expired_keys, drop_expired,
}
use sluice_go.Shield.DeadLetters.Discarded.{commit_dlq_keys-discards}
use sluice_go.Sink.{answered}
use sluice_go.Dlq.{upsert}
use sluice_go.Dlq.Run.{Processor, process_band}
use sluice_go.Dlq.Endless.{Cancelled, process_band-Cancelled}
use sluice_go.Tests.{config, key_a, key_b, body_x, body_y, one_write, one_write-IsPending}
use sluice_go.Prelude.{◌≤◌, ◌≡◌, refl, true, none, some, List, [], ◌∷◌, Bytes}

abbrev cache : Cache
cache = new_cache (pos 300) (pos 1000)

abbrev calls : List Call
calls =
    puts 1 key_a body_x (pos 5)
    ∷ (puts 2 key_b body_y (pos 6) ∷ (gets 3 key_a ∷ (invalidates key_b ∷ [])))

call_all-new_cache_example :
    AllBounded (per_shard (pos 300)) (call_all calls (new_cache (pos 300) (pos 1000)))
call_all-new_cache_example = call_all-new_cache (pos 300) (pos 1000) calls

abbrev first : Cache
first = (put 1 key_a body_x (pos 5) cache).1

commit_dlq_keys-discards_example :
    ((commit_dlq_keys memory config
        (band_for config key_a)
        (key_a ∷ [])
        (record { redis = one_write; turns = [] })).0
      ≡ ok tt)
    × (memory.hget
          (commit_dlq_keys memory config
            (band_for config key_a)
            (key_a ∷ [])
            (record { redis = one_write; turns = [] })).1.redis
          (payload_of config key_a)
          field_p
        ≡ none)
    × (is_some (
          memory.zscore
            (commit_dlq_keys memory config
              (band_for config key_a)
              (key_a ∷ [])
              (record { redis = one_write; turns = [] })).1.redis
            (dirty_of config key_a)
            key_a)
        ≡ true)
commit_dlq_keys-discards_example =
    commit_dlq_keys-discards memory config key_a 1 body_x one_write one_write-IsPending

-- The dead letter of the one write, and a contract that fails.
abbrev dead : World Memory
dead = record {
  redis =
      (dead_letter_call memory config (band_for config key_a) key_a (itoa 1) 9 (codes "x")
        one_write).1;
  turns = [];
}

abbrev dead_record : FlushRecord
dead_record = record {
  correlation_key = key_a;
  body = some body_x;
  received_at = 10;
  journal_ts = 5;
  seq = [];
}

abbrev refusing : Processor Bytes
refusing = record {
  contract = λ ck body. none;
  sink = λ models. answered none;
  strategy = upsert;
  max_batch_size = 10;
  mutate = λ ck. ck;
}

drained_dead :
    drain_dlq memory config 10 (band_for config key_a) 10 dead ≡ (ok (dead_record ∷ []), dead)
unfolding drain_dlq round_trip wait wait_on attempt read_dead_members read_dead build_dead
    drain_action live_records expired_keys drop_expired collect pipeline nonempty parse_ts
    dead_letter_call dead_letter_if_unchanged write_call atomic_write band_for band_for_key itoa
    atoi
drained_dead = refl

process_band-Cancelled_example :
    Cancelled memory config refusing 10
      (band_for config key_a)
      dead
      3
      (record { processed = 0; succeeded = 0; failures = 0 })
      (process_band memory config refusing 10 3
        (band_for config key_a)
        (record { processed = 0; succeeded = 0; failures = 0 })
        dead)
process_band-Cancelled_example =
    process_band-Cancelled memory config refusing 10 (band_for config key_a) dead_record [] dead
      refl drained_dead (refl, tt) 3 (record { processed = 0; succeeded = 0; failures = 0 })

get-After_example :
    (e : Entry) × After 1000 calls (λ k x. ⊥) key_a e
    × (e.payload ≡ body_x)
    × (e.version ≡ pos 5)
    × (9 ≤ e.expires_at)
unfolding new_cache put put_shard put_entry call_all call get get_shard found invalidate
    invalidate_shard shard_index
get-After_example = get-After (pos 300) (pos 1000) calls 9 key_a body_x (pos 5) refl
