-- ===== src/Tests/Sinks.antt =====
-- The theorems on the datastore sinks at concrete inputs.
use sluice_go.Naming.{codes, pos}
use sluice_go.Sink.{SinkError, class_permanent}
use sluice_go.Sink.Values.{sorted_columns_from_map, Value, nothing, text, object, Model, error_of}
use sluice_go.Sink.Database.{Database, done, pg_error, logged}
use sluice_go.Sink.Postgres.Sql.{Config, on_conflict_do_update}
use sluice_go.Sink.Postgres.{unvetted, vet}
use sluice_go.Sink.Postgres
use sluice_go.Sink.Postgres.Settled.{Accounts, bulk_write-Accounts}
use sluice_go.Sink.Postgres.Collision.{vet-collided}
use sluice_go.Sink.Docdb.{Collection, WriteError, exception}
use sluice_go.Sink.Docdb
use sluice_go.Sink.Docdb.Attributed.{InBatch, Passes, HasError, bulk_write-Passes}
use sluice_go.Sink.Dynamodb.{
  Table, Attributes, Item, member_s, unmapped, batch_failed, validation, fallback_put_items,
  put_items, prepare, unprepared,
}
use sluice_go.Sink.Dynamodb.Fallback.{
  answer_errors, IsRefused, RefusesAll, permanent_keys-fallback_put_items,
}
use sluice_go.Sink.Dynamodb.Sequential.{write_all, put_items-eq-write}
use sluice_go.Engine.Types.{Contract, permanent_keys, keys_of}
use sluice_go.Engine.{flush_band, flush_models}
use sluice_go.Engine.Stored.{StoredIn, sink_at, log_after, flush_band-StoredIn}
use sluice_go.Redis.Memory.{memory}
use sluice_go.Shield.Calls.{band_for}
use sluice_go.Shield.Flush.Held.{IsHeld}
use sluice_go.Tests.Flush.{world, world-IsHeld, engine_config}
use sluice_go.Tests.{config, key_a, key_b, body_x, body_y}
use sluice_go.Prelude.{
  ℕ, suc, ◌≡◌, ◌↔◌, ◌⊎◌, refl, true, false, Option, none, some, List, [], ◌∷◌, map, Bytes, All,
  if◌then◌else◌, ltb, length, ◌++◌, Listed,
}

-- Values are texts.
abbrev show : Option Bytes → Bytes
show none = codes "<nil>"
show (some s) = s

-- A row with these values of two columns.
abbrev pair_item : {A : Type 0} → Bytes → Bytes → A → A → List (Bytes × A)
pair_item c d a b = (c, a) ∷ (d, b) ∷ []

abbrev row_model : Bytes → Bytes → Bytes → Model Bytes
row_model key a b = record {
  correlation_key = key;
  filter = nothing;
  update = object (pair_item (codes "c") (codes "d") a b);
  upsert = true;
  many = false;
}

abbrev raw_model : Model Bytes
raw_model = record {
  correlation_key = codes "m";
  filter = nothing;
  update = text (codes "UPDATE t SET d = 1");
  upsert = false;
  many = true;
}

-- A database that refuses a statement of more than two values with a unique violation.
abbrev strict : Database Bytes
strict = record {
  State = ℕ;
  exec = λ s n. (
    if ltb 2 (length s.args) then pg_error (codes "23505") (codes "duplicate key") else done,
    suc n,
  );
}

abbrev pg_config : Config
pg_config = record {
  table_name = codes "t";
  conflict_columns = codes "c" ∷ codes "d" ∷ [];
  on_conflict = on_conflict_do_update;
  update_columns = [];
}

abbrev batch : List (Model Bytes)
batch = row_model key_a body_x body_x ∷ raw_model ∷ row_model key_b body_y body_y ∷ []

bulk_write-Accounts_example :
    let out = Postgres.bulk_write show (logged strict) pg_config batch (0, []) in
    Accounts show pg_config batch out.0 out.1.1
bulk_write-Accounts_example = bulk_write-Accounts show pg_config strict batch 0 []

-- Rows with a third column, which is no conflict column.
abbrev wide_item : Bytes → Bytes → Bytes → List (Bytes × Bytes)
wide_item a b e = (codes "e", e) ∷ pair_item (codes "c") (codes "d") a b

abbrev wide_model : Bytes → Bytes → Bytes → Bytes → Model Bytes
wide_model key a b e = record (row_model key a b) { update = object (wide_item a b e) }

same_wide :
    sorted_columns_from_map (wide_item (codes "1") (codes "2|3") body_y)
    ≡ sorted_columns_from_map (wide_item (codes "1|2") (codes "3") body_x)
unfolding sorted_columns_from_map
same_wide = refl

vet-collided_example :
    let m = wide_model key_a (codes "1|2") (codes "3") body_x in
    let n = wide_model key_b (codes "1") (codes "2|3") body_y in
    let v = vet show pg_config (m ∷ n ∷ []) unvetted in
    (v.upsert_models ≡ m ∷ [])
    × (v.pre_errors ≡ error_of n class_permanent (codes "duplicate conflict key in batch") ∷ [])
vet-collided_example =
    vet-collided show pg_config (codes "c") (codes "d") (codes "1") (codes "2") (codes "3")
      (wide_item (codes "1|2") (codes "3") body_x) (wide_item (codes "1") (codes "2|3") body_y)
      (codes "1|2") (codes "3") (codes "1") (codes "2|3")
      (wide_model key_a (codes "1|2") (codes "3") body_x)
      (wide_model key_b (codes "1") (codes "2|3") body_y) refl same_wide refl refl refl refl refl
      refl refl refl refl refl refl refl

-- A write error for each of two models, and one out of range.
abbrev error_at : ℕ → WriteError
error_at i = record { index = pos i; code = pos 121; message = codes "validation" }

abbrev collection : Collection (Value Bytes)
collection = record {
  State = ℕ;
  bulk_write = λ ms n. (exception none false (error_at 1 ∷ error_at 5 ∷ []), suc n);
  update = λ m n. (false, suc n);
}

bulk_write-Passes_example :
    (Passes batch (Docdb.bulk_write collection batch 0).0
      ↔ All (InBatch batch) (error_at 1 ∷ error_at 5 ∷ []))
    × ((before after : List (Model Bytes)) (n : Model Bytes) (we : WriteError)
        → batch ≡ before ++ n ∷ after
        → we.index ≡ pos (length before)
        → Listed we (error_at 1 ∷ error_at 5 ∷ [])
        → HasError we n (Docdb.bulk_write collection batch 0).0)
bulk_write-Passes_example =
    bulk_write-Passes collection (row_model key_a body_x body_x)
      (raw_model ∷ row_model key_b body_y body_y ∷ []) 0 none (error_at 1 ∷ error_at 5 ∷ [])
      (refl, (refl, (refl, tt))) refl

abbrev attributes : Attributes
attributes = record { pk_attr = codes "c"; sk_attr = codes "d" }

abbrev marshal : List (Bytes × Bytes) → Option Item
marshal xs = some (map (λ p. (p.0, member_s p.1)) xs)

-- A table that is throttled.
abbrev throttled : Table
throttled = record {
  State = ℕ;
  batch_write_item = λ items n. (batch_failed (validation (codes "too large")), suc n);
  put_item = λ item n. (some (unmapped (codes "throttled")), suc n);
}

abbrev rows : List (Model Bytes)
rows = row_model key_a body_x body_x ∷ row_model key_b body_y body_y ∷ []

-- A table that refuses the first item as invalid, and is throttled then.
abbrev refusing : Table
refusing = record {
  State = ℕ;
  batch_write_item = λ items n. (batch_failed (validation (codes "too large")), suc n);
  put_item = λ item n. (
    some (if ltb n 1 then validation (codes "invalid") else unmapped (codes "throttled")),
    suc n,
  );
}

refusing-RefusesAll : RefusesAll show attributes marshal refusing
refusing-RefusesAll item n =
    elim (ltb n 1)
      as (λ b.
        IsRefused
          (some (if b then validation (codes "invalid") else unmapped (codes "throttled")))) [
            | true ↦ tt
            | false ↦ tt
          ]

-- One model has an error before the fallback.
abbrev earlier : List SinkError
earlier = error_of raw_model class_permanent (codes "not supported") ∷ []

permanent_keys-fallback_put_items_example :
    permanent_keys
      (answer_errors (fallback_put_items show attributes marshal refusing rows earlier 0).0)
    ≡ permanent_keys earlier ++ keys_of rows
permanent_keys-fallback_put_items_example =
    permanent_keys-fallback_put_items show attributes marshal refusing rows earlier 0
      refusing-RefusesAll

put_items-eq-write_example :
    let valid = (prepare show attributes marshal batch unprepared).valid_models in
    (map (λ e. e.correlation_key) (put_items show attributes marshal throttled valid 0).0
      ≡ (write_all show attributes marshal throttled valid 0).0)
    × ((put_items show attributes marshal throttled valid 0).1.1
        ≡ (write_all show attributes marshal throttled valid 0).1)
put_items-eq-write_example = put_items-eq-write show attributes marshal throttled batch 0

-- The write contract makes a row of the key and the payload.
abbrev row_contract : Contract (Value Bytes)
row_contract ck body = some (row_model ck ck body)

flush_band-StoredIn_example :
    let band = band_for config key_a in
    let models = flush_models memory engine_config row_contract 9 band world in
    IsHeld memory config key_a
      (flush_band memory engine_config row_contract
        (sink_at show pg_config strict 0 [])
        9
        band
        world).world.redis
    ⊎ StoredIn show pg_config key_a models (log_after show pg_config strict 0 [] models)
flush_band-StoredIn_example =
    flush_band-StoredIn show pg_config strict 0 [] memory engine_config key_a row_contract 9 world
      world-IsHeld
