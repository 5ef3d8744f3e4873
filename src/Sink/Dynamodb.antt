-- ===== src/Sink/Dynamodb.antt =====
-- sink/dynamodb/dynamodb.go: BulkWrite and Write of the DynamoDB sink. The table, the marshalling
-- of a map and the %v verb on a value (none is nil) are parameters.
pub mod Fallback
pub mod Sequential
use sluice_go.Naming.{codes, pos}
use sluice_go.Sink.{
  SinkError, ErrorClass, class_transient, class_permanent, Answer, failed, answered,
}
use sluice_go.Sink.Values.{
  Value, nothing, other, text, slice, object, Model, error_of, value_at, item_of,
}
use sluice_go.Prelude.{
  ℕ, suc, ◌-◌, Bool, true, false, ◌&&◌, ◌||◌, Option, none, some, List, [], ◌∷◌, ◌++◌, map, length,
  if◌then◌else◌, Bytes, bytes_eq,
}

-- types.AttributeValue: a string, a number or another kind.
pub data AttributeValue : Type 0 where
  member_s member_n : Bytes → AttributeValue
  member_other : AttributeValue

abbrev pub Item : Type 0
Item = List (Bytes × AttributeValue)

-- An error of the SDK: a ValidationException, a cancelled or expired context, or another.
pub data ApiError : Type 0 where
  validation cancelled unmapped : Bytes → ApiError

abbrev pub error_text : ApiError → Bytes
error_text (validation msg) = msg
error_text (cancelled msg) = msg
error_text (unmapped msg) = msg

-- BatchWriteItem returns the unprocessed items of the table, which are no more than it was given,
-- or an error.
pub data BatchAnswer : Type 0 where
  batch_written : List Item → BatchAnswer
  batch_failed : ApiError → BatchAnswer

pub record Table : Type 1 where
  pub State : Type 0
  pub batch_write_item : List Item → State → BatchAnswer × State
  pub put_item : Item → State → Option ApiError × State

pub record Attributes : Type 0 where
  pub pk_attr : Bytes
  -- empty where the table has no sort key
  pub sk_attr : Bytes

-- The variables of the first loop of `BulkWrite`.
pub record Prepared (A : Type 0) : Type 0 where
  pub seen_keys : List Bytes
  pub request_items : List Item
  pub pre_errors : List SinkError
  pub valid_models : List (Model A)

abbrev pub unprepared : {A : Type 0} → Prepared A
unprepared = record { seen_keys = []; request_items = []; pre_errors = []; valid_models = [] }

abbrev pub reject : {A : Type 0} → Model A → Bytes → Prepared A → Prepared A
reject m why p = record p { pre_errors = p.pre_errors ++ error_of m class_permanent why ∷ [] }

abbrev pub seen : List Bytes → Bytes → Bool
seen [] k = false
seen (x ∷ xs) k = bytes_eq x k || seen xs k

abbrev pub class_of : ApiError → ErrorClass
class_of (cancelled msg) = class_transient
class_of (validation msg) = class_permanent
class_of (unmapped msg) = class_permanent

abbrev pub no_many : Bytes
no_many = codes "dynamodb: UpdateMany not supported"

abbrev pub no_map : Bytes
no_map = codes "update field must be map[string]any"

abbrev pub result_of : ℕ → List SinkError → Answer
result_of n es = answered (
    some (record {
      inserted_count = 0;
      matched_count = 0;
      modified_count = 0;
      upserted_count = n;
      errors = es;
    }))

-- The value of a string or number attribute is the text.
unfoldable pub attribute_is : Option AttributeValue → Bytes → Bool
attribute_is none t = false
attribute_is (some (member_s s)) t = bytes_eq s t
attribute_is (some (member_n s)) t = bytes_eq s t
attribute_is (some member_other) t = false

abbrev pub add_error : SinkError → Option (List SinkError) → Option (List SinkError)
add_error e none = none
add_error e (some es) = some (e ∷ es)

abbrev pub put_error_text : Option ApiError → Option Bytes
put_error_text none = none
put_error_text (some e) = some (error_text e)

-- The text of an item's key: "#" joins a sort key to it.
abbrev pub with_sort : Bytes → Option Bytes → Bytes
with_sort pk none = pk
with_sort pk (some sk) = pk ++ (codes "#" ++ sk)

module _ {A : Type 0} (show : Option A → Bytes) (attrs : Attributes) where
  abbrev pub sort_matches : Item → Model A → Bool
  sort_matches item m =
      bytes_eq attrs.sk_attr []
      || attribute_is (value_at attrs.sk_attr item)
          (show (value_at attrs.sk_attr (item_of m.update)))

  unfoldable pub find_correlation_key : List (Model A) → Item → Bytes
  unfolding attribute_is
  find_correlation_key [] item = []
  find_correlation_key (m ∷ ms) item =
      let rest = find_correlation_key ms item in
      if attribute_is (value_at attrs.pk_attr item)
          (show (value_at attrs.pk_attr (item_of m.update)))
        && sort_matches item m
      then m.correlation_key
      else rest

  -- The errors of the unprocessed items; none where one cannot be mapped.
  unfoldable pub unprocessed_errors : List (Model A) → List Item → Option (List SinkError)
  unfolding find_correlation_key
  unprocessed_errors ms [] = some []
  unprocessed_errors ms (item ∷ items) =
      let rest = unprocessed_errors ms items in
      let key = find_correlation_key ms item in
      if bytes_eq key []
      then none
      else add_error
          (record {
            correlation_key = key;
            code = pos 0;
            message = codes "unprocessed item";
            class = class_transient;
          })
          rest

  module _ (marshal : List (Bytes × A) → Option Item) where
    unfoldable pub prepare_item : Model A → Option Item → Prepared A → Prepared A
    prepare_item m none p = reject m (codes "marshal item") p
    prepare_item m (some item) p = record p {
      request_items = p.request_items ++ item ∷ [];
      valid_models = p.valid_models ++ m ∷ [];
    }

    unfoldable pub prepare_keyed : Model A → List (Bytes × A) → Bytes → Prepared A → Prepared A
    unfolding prepare_item
    prepare_keyed m item key p =
        if seen p.seen_keys key
        then reject m (codes "duplicate key in batch") p
        else prepare_item m (marshal item) (record p { seen_keys = key ∷ p.seen_keys })

    unfoldable pub prepare_sort :
        Model A → List (Bytes × A) → Bytes → Option A → Prepared A → Prepared A
    unfolding prepare_keyed
    prepare_sort m item pk none p = reject m (codes "missing sort key attribute") p
    prepare_sort m item pk (some sk) p =
        prepare_keyed m item (with_sort pk (some (show (some sk)))) p

    unfoldable pub prepare_partition :
        Model A → List (Bytes × A) → Option A → Prepared A → Prepared A
    unfolding prepare_sort prepare_keyed
    prepare_partition m item none p = reject m (codes "missing partition key attribute") p
    prepare_partition m item (some pk) p =
        if bytes_eq attrs.sk_attr []
        then prepare_keyed m item (with_sort (show (some pk)) none) p
        else prepare_sort m item (show (some pk)) (value_at attrs.sk_attr item) p

    unfoldable pub prepare_map : Model A → Value A → Prepared A → Prepared A
    unfolding prepare_partition
    prepare_map m (object item) p = prepare_partition m item (value_at attrs.pk_attr item) p
    prepare_map m nothing p = reject m no_map p
    prepare_map m other p = reject m no_map p
    prepare_map m (text s) p = reject m no_map p
    prepare_map m (slice xs) p = reject m no_map p

    unfoldable pub prepare : List (Model A) → Prepared A → Prepared A
    unfolding prepare_map
    prepare [] p = p
    prepare (m ∷ ms) p =
        prepare ms (if m.many then reject m no_many p else prepare_map m m.update p)

    module _ (table : Table) where
      open table use {State}

      abbrev pub put_errors : Model A → Option ApiError → List SinkError
      put_errors m none = []
      put_errors m (some e) = error_of m (class_of e) (error_text e) ∷ []

      abbrev pub count_put : Option ApiError → ℕ → ℕ
      count_put none n = suc n
      count_put (some e) n = n

      -- PutItem of one model, with the errors and the success count of the models after it.
      abbrev pub put_marshalled : Model A → Option Item → State → Option ApiError × State
      put_marshalled m none d = (some (validation (codes "marshal item")), d)
      put_marshalled m (some item) d = table.put_item item d

      -- The loop of `fallbackPutItems`: the errors, the count and the table.
      unfoldable pub put_items : List (Model A) → State → List SinkError × (ℕ × State)
      put_items [] d = ([], (0, d))
      put_items (m ∷ ms) d =
          let out = put_marshalled m (marshal (item_of m.update)) d in
          let rest = put_items ms out.1 in
          (put_errors m out.0 ++ rest.0, (count_put out.0 rest.1.0, rest.1.1))

      unfoldable pub fallback_put_items : List (Model A) → List SinkError → State → Answer × State
      unfolding put_items
      fallback_put_items ms existing d =
          let out = put_items ms d in (result_of out.1.0 (existing ++ out.0), out.1.1)

      unfoldable pub with_unprocessed : ℕ → List SinkError → Option (List SinkError) → Answer
      with_unprocessed n pre none = failed none
      with_unprocessed n pre (some es) = result_of n (pre ++ es)

      unfoldable pub after_batch : Prepared A → BatchAnswer → State → Answer × State
      unfolding fallback_put_items with_unprocessed unprocessed_errors
      after_batch p (batch_written items) d = (
        with_unprocessed (length p.request_items - length items) p.pre_errors
            (unprocessed_errors p.valid_models items),
        d,
      )
      after_batch p (batch_failed (validation msg)) d =
          fallback_put_items p.valid_models p.pre_errors d
      after_batch p (batch_failed (cancelled msg)) d = (
        result_of 0 (p.pre_errors ++ map (λ m. error_of m class_transient msg) p.valid_models),
        d,
      )
      after_batch p (batch_failed (unmapped msg)) d = (failed none, d)

      unfoldable pub write_prepared : Prepared A → List Item → State → Answer × State
      unfolding after_batch
      write_prepared p [] d = (result_of 0 p.pre_errors, d)
      write_prepared p (item ∷ items) d =
          let out = table.batch_write_item (item ∷ items) d in after_batch p out.0 out.1

      unfoldable pub bulk_write : List (Model A) → State → Answer × State
      unfolding prepare write_prepared
      bulk_write [] d = (result_of 0 [], d)
      bulk_write (m ∷ ms) d =
          let p = prepare (m ∷ ms) unprepared in write_prepared p p.request_items d

      unfoldable pub write_item : Option Item → State → Option Bytes × State
      write_item none d = (some (codes "marshal item"), d)
      write_item (some item) d = let out = table.put_item item d in (put_error_text out.0, out.1)

      unfoldable pub write_map : Value A → State → Option Bytes × State
      unfolding write_item
      write_map (object item) d = write_item (marshal item) d
      write_map nothing d = (some no_map, d)
      write_map other d = (some no_map, d)
      write_map (text s) d = (some no_map, d)
      write_map (slice xs) d = (some no_map, d)

      -- `Write`: the text of an error, or none.
      unfoldable pub write : Model A → State → Option Bytes × State
      unfolding write_map
      write m d = if m.many then (some no_many, d) else write_map m.update d
