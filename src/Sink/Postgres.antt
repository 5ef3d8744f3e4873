-- ===== src/Sink/Postgres.antt =====
-- sink/postgres/postgres.go: BulkWrite and Write of the PostgreSQL sink. The database and the %v
-- verb on a column's value are parameters.
pub mod Sql
pub mod Sorting
pub mod Rows
pub mod Settled
pub mod Collision
use sluice_go.Naming.{codes}
use sluice_go.Sink.{
  SinkError, ErrorClass, class_transient, class_permanent, BulkWriteResult, Answer, failed,
  answered,
}
use sluice_go.Sink.Values.{
  Value, nothing, other, text, slice, object, Model, error_of, value_at, sorted_columns_from_map,
  same_columns, join, item_of,
}
use sluice_go.Sink.Database.{Database, Statement, Executed, done, pg_error, other_error}
use Sql.{Config, insert_statement}
use sluice_go.Prelude.{
  ℕ, Bool, true, false, ◌||◌, Option, none, some, List, [], ◌∷◌, ◌++◌, map, take, if◌then◌else◌,
  Bytes, bytes_eq,
}

unfoldable pub is_permanent_sql_state : Bytes → Bool
is_permanent_sql_state code =
    bytes_eq (take 2 code) (codes "23")
    || (bytes_eq code (codes "42P01")
        || (bytes_eq code (codes "42703") || bytes_eq code (codes "21000")))

abbrev pub class_of : Bool → ErrorClass
class_of true = class_permanent
class_of false = class_transient

-- The class of an Exec error of one statement; only a PgError can be permanent.
unfoldable pub classify : Executed → ErrorClass
unfolding is_permanent_sql_state
classify done = class_transient
classify (pg_error code msg) = class_of (is_permanent_sql_state code)
classify (other_error msg) = class_transient

abbrev pub text_of : Executed → Bytes
text_of done = []
text_of (pg_error code msg) = msg
text_of (other_error msg) = msg

-- The error of a model whose statement failed.
abbrev pub exec_errors : {A : Type 0} → Model A → Executed → List SinkError
exec_errors m done = []
exec_errors m (pg_error code msg) = error_of m (classify (pg_error code msg)) msg ∷ []
exec_errors m (other_error msg) = error_of m (classify (other_error msg)) msg ∷ []

-- The variables of the first loop of `BulkWrite`; `expected_cols` is none while it is nil.
pub record Vetted (A : Type 0) : Type 0 where
  pub pre_errors : List SinkError
  pub upsert_models : List (Model A)
  pub many_models : List (Model A)
  pub expected_cols : Option (List Bytes)
  pub seen_conflict_keys : List Bytes

abbrev pub unvetted : {A : Type 0} → Vetted A
unvetted = record {
  pre_errors = [];
  upsert_models = [];
  many_models = [];
  expected_cols = none;
  seen_conflict_keys = [];
}

abbrev pub seen : List Bytes → Bytes → Bool
seen [] k = false
seen (x ∷ xs) k = bytes_eq x k || seen xs k

abbrev pub reject : {A : Type 0} → Model A → Bytes → Vetted A → Vetted A
reject m why v = record v { pre_errors = v.pre_errors ++ error_of m class_permanent why ∷ [] }

abbrev pub no_sql : Bytes
no_sql = codes "postgres: UpdateMany requires a raw SQL string in the Update field"

abbrev pub no_args : Bytes
no_args = codes "postgres: UpdateMany requires a []any slice in the Filter field for arguments"

-- The texts of `Write`.
abbrev pub write_no_sql : Bytes
write_no_sql = codes "sluice/postgres: UpdateMany requires a raw SQL string in the Update field"

abbrev pub write_no_args : Bytes
write_no_args =
    codes
      "sluice/postgres: UpdateMany requires a []interface{} slice in the Filter field for arguments"

abbrev pub no_map : Bytes
no_map = codes "update field must be map[string]any"

-- A filter of nil or []any is taken.
unfoldable pub vet_filter : {A : Type 0} → Model A → Value A → Vetted A → Vetted A
vet_filter m nothing v = record v { many_models = v.many_models ++ m ∷ [] }
vet_filter m (slice xs) v = record v { many_models = v.many_models ++ m ∷ [] }
vet_filter m other v = reject m no_args v
vet_filter m (text s) v = reject m no_args v
vet_filter m (object item) v = reject m no_args v

unfoldable pub vet_many : {A : Type 0} → Model A → Value A → Vetted A → Vetted A
unfolding vet_filter
vet_many m (text sql) v = vet_filter m m.filter v
vet_many m nothing v = reject m no_sql v
vet_many m other v = reject m no_sql v
vet_many m (slice xs) v = reject m no_sql v
vet_many m (object item) v = reject m no_sql v

-- The arguments of a raw statement.
abbrev pub raw_args : {A : Type 0} → Value A → List (Option A)
raw_args (slice xs) = map some xs
raw_args nothing = []
raw_args other = []
raw_args (text s) = []
raw_args (object item) = []

abbrev pub raw_sql : {A : Type 0} → Value A → Bytes
raw_sql (text sql) = sql
raw_sql nothing = []
raw_sql other = []
raw_sql (slice xs) = []
raw_sql (object item) = []

abbrev pub raw_statement : {A : Type 0} → Model A → Statement A
raw_statement m = record { sql = raw_sql m.update; args = raw_args m.filter }

abbrev pub with_errors : List SinkError → Answer
with_errors es = answered (
    some (record {
      inserted_count = 0;
      matched_count = 0;
      modified_count = 0;
      upserted_count = 0;
      errors = es;
    }))

abbrev pub columns_or_nil : Option (List Bytes) → List Bytes
columns_or_nil none = []
columns_or_nil (some cols) = cols

module _ {A : Type 0} (show : Option A → Bytes) where
  unfoldable pub build_conflict_key_from_map : List (Bytes × A) → List Bytes → Bytes
  build_conflict_key_from_map item cols = join (codes "|") (map (λ c. show (value_at c item)) cols)

  unfoldable pub vet_key : Model A → Bytes → Vetted A → Vetted A
  vet_key m key v =
      if seen v.seen_conflict_keys key
      then reject m (codes "duplicate conflict key in batch") v
      else record v {
        seen_conflict_keys = key ∷ v.seen_conflict_keys;
        upsert_models = v.upsert_models ++ m ∷ [];
      }

  unfoldable pub vet_columns :
      Config → Model A → List (Bytes × A) → Option (List Bytes) → Vetted A → Vetted A
  unfolding vet_key build_conflict_key_from_map sorted_columns_from_map
  vet_columns cfg m item none v =
      vet_key m (build_conflict_key_from_map item cfg.conflict_columns)
        (record v { expected_cols = some (sorted_columns_from_map item) })
  vet_columns cfg m item (some cols) v =
      if same_columns cols (sorted_columns_from_map item)
      then vet_key m (build_conflict_key_from_map item cfg.conflict_columns) v
      else reject m (codes "column mismatch in batch") v

  unfoldable pub vet_upsert : Config → Model A → Value A → Vetted A → Vetted A
  unfolding vet_columns
  vet_upsert cfg m (object item) v = vet_columns cfg m item v.expected_cols v
  vet_upsert cfg m nothing v = reject m no_map v
  vet_upsert cfg m other v = reject m no_map v
  vet_upsert cfg m (text s) v = reject m no_map v
  vet_upsert cfg m (slice xs) v = reject m no_map v

  unfoldable pub vet : Config → List (Model A) → Vetted A → Vetted A
  unfolding vet_many vet_upsert
  vet cfg [] v = v
  vet cfg (m ∷ ms) v =
      vet cfg ms (if m.many then vet_many m m.update v else vet_upsert cfg m m.update v)

  module _ (db : Database A) where
    open db use {State}

    -- The loop over the raw updates.
    unfoldable pub run_many : List (Model A) → State → List SinkError × State
    run_many [] d = ([], d)
    run_many (m ∷ ms) d =
        let out = db.exec (raw_statement m) d in
        let rest = run_many ms out.1 in (exec_errors m out.0 ++ rest.0, rest.1)

    unfoldable pub execute_bulk : Config → List (Model A) → List Bytes → State → Executed × State
    unfolding insert_statement
    execute_bulk cfg [] cols d = (done, d)
    execute_bulk cfg (m ∷ ms) cols d = db.exec (insert_statement cfg cols (m ∷ ms)) d

    unfoldable pub retry_rows :
        Config → List Bytes → List (Model A) → State → List SinkError × State
    unfolding execute_bulk
    retry_rows cfg cols [] d = ([], d)
    retry_rows cfg cols (m ∷ ms) d =
        let out = execute_bulk cfg (m ∷ []) cols d in
        let rest = retry_rows cfg cols ms out.1 in (exec_errors m out.0 ++ rest.0, rest.1)

    -- What follows a permanent SQLSTATE, or any other.
    unfoldable pub after_pg_error :
        Config
        → List Bytes
        → List (Model A)
        → List SinkError
        → List SinkError
        → Bool
        → Bytes
        → State
        → Answer × State
    unfolding retry_rows
    after_pg_error cfg cols ms pre many true msg d =
        let out = retry_rows cfg cols ms d in (with_errors (pre ++ (out.0 ++ many)), out.1)
    after_pg_error cfg cols ms pre many false msg d =
        (with_errors (pre ++ (many ++ map (λ m. error_of m class_transient msg) ms)), d)

    unfoldable pub after_bulk :
        Config
        → List Bytes
        → List (Model A)
        → List SinkError
        → List SinkError
        → Executed × State
        → Answer × State
    unfolding after_pg_error
    after_bulk cfg cols ms pre many (done, d) = (with_errors (pre ++ many), d)
    after_bulk cfg cols ms pre many (pg_error code msg, d) =
        after_pg_error cfg cols ms pre many (is_permanent_sql_state code) msg d
    after_bulk cfg cols ms pre many (other_error msg, d) = (failed none, d)

    unfoldable pub write_upserts :
        Config → List (Model A) → Vetted A → List SinkError × State → Answer × State
    unfolding after_bulk execute_bulk
    write_upserts cfg [] v (many, d) = (with_errors (v.pre_errors ++ many), d)
    write_upserts cfg (m ∷ ms) v (many, d) =
        let cols = columns_or_nil v.expected_cols in
        after_bulk cfg cols (m ∷ ms) v.pre_errors many (execute_bulk cfg (m ∷ ms) cols d)

    unfoldable pub bulk_write : Config → List (Model A) → State → Answer × State
    unfolding vet write_upserts run_many
    bulk_write cfg [] d = (with_errors [], d)
    bulk_write cfg (m ∷ ms) d =
        let v = vet cfg (m ∷ ms) unvetted in
        write_upserts cfg v.upsert_models v (run_many v.many_models d)

    abbrev pub error_or_none : Executed × State → Option Bytes × State
    error_or_none (done, d) = (none, d)
    error_or_none (pg_error code msg, d) = (some msg, d)
    error_or_none (other_error msg, d) = (some msg, d)

    unfoldable pub write_filtered : Model A → Value A → State → Option Bytes × State
    write_filtered m nothing d = error_or_none (db.exec (raw_statement m) d)
    write_filtered m (slice xs) d = error_or_none (db.exec (raw_statement m) d)
    write_filtered m other d = (some write_no_args, d)
    write_filtered m (text s) d = (some write_no_args, d)
    write_filtered m (object item) d = (some write_no_args, d)

    unfoldable pub write_many : Model A → Value A → State → Option Bytes × State
    unfolding write_filtered
    write_many m (text sql) d = write_filtered m m.filter d
    write_many m nothing d = (some write_no_sql, d)
    write_many m other d = (some write_no_sql, d)
    write_many m (slice xs) d = (some write_no_sql, d)
    write_many m (object item) d = (some write_no_sql, d)

    unfoldable pub write_one : Config → Model A → Value A → State → Option Bytes × State
    unfolding execute_bulk
    write_one cfg m (object item) d =
        error_or_none (execute_bulk cfg (m ∷ []) (sorted_columns_from_map item) d)
    write_one cfg m nothing d = (some no_map, d)
    write_one cfg m other d = (some no_map, d)
    write_one cfg m (text s) d = (some no_map, d)
    write_one cfg m (slice xs) d = (some no_map, d)

    -- `Write`: the text of an error, or none.
    unfoldable pub write : Config → Model A → State → Option Bytes × State
    unfolding write_many write_one
    write cfg m d = if m.many then write_many m m.update d else write_one cfg m m.update d
