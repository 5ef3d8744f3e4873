-- ===== src/Tests/Reads.antt =====
-- The theorems on reads, idempotent writes and the broadcast at concrete inputs.
use sluice_go.Broadcast.{
  upsert, mode_payload, enqueue_broadcast, apply, Entry, XRead, network_error, timed_out, messages,
  Subscriber, run,
}
use sluice_go.Broadcast.Applied.{apply-enqueue_broadcast}
use sluice_go.Broadcast.Stream.{IsStream, Begins, since, Between, run-Between}
use sluice_go.LocalJournal.{Cache, new_cache, get, put}
use sluice_go.Redis.Keys.{HashKey}
use sluice_go.Redis.Memory.{Memory, memory, nothing}
use sluice_go.Naming.{pos, codes}
use sluice_go.Band.{band_for_key}
use sluice_go.Shield.Calls.{band_for, payload_of, write_call}
use sluice_go.Shield.Fields.{field_p}
use sluice_go.Shield.Scripts.{atomic_write}
use sluice_go.Shield.World.{World, fine, ok}
use sluice_go.Shield.World.Keeps.{Kept}
use sluice_go.Shield.Traffic.{writes, elapses}
use sluice_go.Shield.Traffic.Known.{Offers, Knows}
use sluice_go.Shield.Reads.{found, read_journal}
use sluice_go.Shield.Reads.Torn.{between, read_journal-torn}
use sluice_go.Facade.Types.{
  SluiceConfig, Wiring, Sluice, Outcome, failed, redis_unavailable, duplicate_idempotency_key,
  record_missing,
}
use sluice_go.Facade.Reads.{read_fresh, read}
use sluice_go.Facade.Fresh.{AnswersKnown, read_fresh-Known, read-Known}
use sluice_go.Facade.Idempotent.{quiet, down, opened, write_idempotent, write_idempotent-lost}
use sluice_go.Shield.Reads.{BulkItem}
use sluice_go.Facade.Bulk.{read_bulk_with_ttl}
use sluice_go.Facade.Bulk.Waiting
use sluice_go.Tests.{config, key_a, key_b, body_x, body_y, one_write, one_write-IsPending}
use sluice_go.Prelude.{
  inr, inl, ◌≡◌, ◌≢◌, refl, true, false, none, some, List, [], ◌∷◌, Bytes, arith,
}

read_journal-torn_example :
    let w = between memory config key_a body_y 6 one_write in
    ((read_journal memory config key_a w).0
      ≡ ok (found body_x (memory.pttl one_write (payload_of config key_a)) 6))
    × (memory.hget (read_journal memory config key_a w).1.redis (payload_of config key_a) field_p
        ≡ some body_y)
unfolding write_call atomic_write band_for band_for_key
read_journal-torn_example = read_journal-torn memory config key_a body_y 6 one_write 120 [] refl

abbrev settings : SluiceConfig
settings = record {
  shield = config;
  max_batch_size = 2;
  hot_aware_flush = false;
  content_dedup = false;
  batched_writes = false;
  degraded_mode_direct = false;
  idempotency_ttl = 1000;
}

abbrev wires : Wiring Bytes
wires = record {
  write_contract = some (λ ck body. none);
  sink_write = some (λ m. true);
  source = some (λ ck. record_missing);
  read_contract = none;
  content_hash = λ body. body;
}

-- Between the reads, "a" gets another payload, and "b" a first one.
abbrev reading : World Memory
reading = record {
  redis = one_write;
  turns =
      record { traffic = writes key_a body_y 6 ∷ (elapses 10 ∷ []); fault = fine }
      ∷ (record { traffic = writes key_b body_x 7 ∷ []; fault = fine } ∷ []);
}

abbrev NonEmpty : Bytes → Type 0
NonEmpty body = body ≢ []

body_x-NonEmpty : NonEmpty body_x
body_x-NonEmpty e = cc

body_y-NonEmpty : NonEmpty body_y
body_y-NonEmpty e = cc

reading-Kept :
    Kept memory config
      (Offers memory config key_a 1 body_x NonEmpty)
      (Knows memory config key_a 1 body_x NonEmpty)
      reading
unfolding write_call atomic_write band_for band_for_key
reading-Kept = record {
  now = (one_write-IsPending, (body_x, body_x-NonEmpty, refl));
  later = (((λ e. body_y-NonEmpty), (tt, tt)), (((λ e. body_x-NonEmpty), tt), tt));
}

abbrev client : Sluice Memory
client = record {
  world = reading;
  local = some (new_cache (pos 300) (pos 1000));
  closed = false;
  jobs = [];
  signals = [];
}

read_fresh-Known_example :
    AnswersKnown memory settings wires 3 key_a 1 body_x NonEmpty
      (read_fresh memory settings wires 3 key_a client).0
read_fresh-Known_example =
    read_fresh-Known memory settings wires 3 key_a 1 body_x NonEmpty (λ h. h refl) client
      reading-Kept

read-Known_example :
    AnswersKnown memory settings wires 3 key_a 1 body_x NonEmpty
      (read memory settings wires 3 key_a client).0
unfolding new_cache get
read-Known_example =
    read-Known memory settings wires 3 key_a 1 body_x NonEmpty (λ h. h refl) client tt reading-Kept

-- A Sluice over the Redis of the tests, with the first SetNX answered and the write without a
-- connection.
abbrev claiming : Sluice Memory
claiming = record client { world = record { redis = nothing; turns = [] } }

abbrev first_claim : Outcome (Unit {0}) × Sluice Memory
first_claim = write_idempotent memory settings wires 1 2 key_a body_x key_b (
    opened memory settings wires (λ ck body. none) (λ m. true) 97 98 [] [] body_x claiming nothing
      (quiet memory settings wires ∷ down memory settings wires ∷ []))

write_idempotent-lost_example :
    (first_claim.0 ≡ failed redis_unavailable)
    × ((write_idempotent memory settings wires 3 4 key_a body_x key_b first_claim.1).0
        ≡ failed duplicate_idempotency_key)
    × ((j : HashKey) (g : Bytes)
        → memory.hget
            (write_idempotent memory settings wires 3 4 key_a body_x key_b
              first_claim.1).1.world.redis
            j
            g
          ≡ memory.hget nothing j g)
write_idempotent-lost_example =
    write_idempotent-lost memory settings wires (λ ck body. none) (λ m. true) 97 98 [] [] body_x
      claiming refl refl refl refl 1 2 3 4 nothing refl

abbrev l1 : Cache
l1 = new_cache (pos 300) (pos 1000)

apply-enqueue_broadcast_example :
    apply mode_payload 3 (enqueue_broadcast mode_payload key_a 5 upsert body_x) l1
    ≡ (put 3 key_a body_x (pos 5) l1).1
apply-enqueue_broadcast_example =
    apply-enqueue_broadcast upsert 3 97 5 120 [] [] l1 (λ e. cc) (omega arith)

abbrev subscriber : Subscriber
subscriber = record { local = l1; cursor = []; backoff = 100 }

-- A stream of two entries, which are read one by one.
abbrev stream : List Entry
stream =
    (codes "1-0", enqueue_broadcast mode_payload key_a 5 upsert body_x)
    ∷ ((codes "2-0", enqueue_broadcast mode_payload key_a 7 upsert body_y) ∷ [])

stream-IsStream : IsStream stream
stream-IsStream = ((refl, tt), refl, refl, (tt, refl, refl, tt))

abbrev one_by_one : List Entry → XRead
one_by_one [] = timed_out
one_by_one (e ∷ es) = messages (record { entry = e; now = 3 } ∷ [])

one_by_one-Begins : (es : List Entry) → Begins (one_by_one es) es
one_by_one-Begins [] = tt
one_by_one-Begins (e ∷ es) = (es, refl)

abbrev next_entry : Bytes → XRead
next_entry id = one_by_one (since id stream)

abbrev reads : List (Bytes → XRead)
reads = (λ id. network_error) ∷ (next_entry ∷ (next_entry ∷ (next_entry ∷ [])))

run-Between_example :
    Between stream stream-IsStream mode_payload subscriber (run mode_payload reads subscriber)
run-Between_example = run-Between stream stream-IsStream mode_payload reads subscriber (
  (λ id. tt),
  (
    (λ id. one_by_one-Begins (since id stream)),
    (
      (λ id. one_by_one-Begins (since id stream)),
      ((λ id. one_by_one-Begins (since id stream)), tt),
    ),
  ),
)

-- The Source has another payload for "a", and one for "b".
abbrev items : List BulkItem
items =
    record { correlation_key = key_b; body = body_x }
    ∷ (record { correlation_key = key_a; body = body_y } ∷ [])

read_bulk_with_ttl-Known_example :
    Waiting.AnswersKnown memory settings 4 5 key_a 1 body_x NonEmpty
      (read_bulk_with_ttl memory settings
        (record {
          read_bulk_contract = some (λ key. some key);
          read_bulk = some (λ plan. some items);
        })
        4
        5
        key_b
        client).0
read_bulk_with_ttl-Known_example =
    Waiting.read_bulk_with_ttl-Known memory settings 4 5 key_a 1 body_x NonEmpty (λ key. some key)
      (λ plan. some items) key_b key_b items client refl refl refl (inr (inl refl)) reading-Kept
