-- ===== src/Sink/Values.antt =====
-- What a WriteModel's interface{} fields hold, for values of a datastore, and the helpers of
-- sink/postgres/postgres.go on a map of columns. A map is a list of its pairs.
use sluice_go.Sink.{WriteModel, SinkError, ErrorClass}
use sluice_go.Naming.{pos}
use sluice_go.Prelude.{
  Bool, true, false, ◌&&◌, ◌||◌, Option, none, some, List, [], ◌∷◌, ◌++◌, ◌==◌, ltb, if◌then◌else◌,
  Bytes, bytes_eq,
}

-- nil, a string, a []any, a map[string]any, or anything else.
pub data Value (A : Type 0) : Type 0 where
  nothing other : Value A
  text : Bytes → Value A
  slice : List A → Value A
  object : List (Bytes × A) → Value A

abbrev pub Model : Type 0 → Type 0
Model A = WriteModel (Value A)

-- An error of a model, with the code left at 0.
abbrev pub error_of : {V : Type 0} → WriteModel V → ErrorClass → Bytes → SinkError
error_of m cls msg = record {
  correlation_key = m.correlation_key;
  code = pos 0;
  message = msg;
  class = cls;
}

abbrev pub value_at : {A : Type 0} → Bytes → List (Bytes × A) → Option A
value_at c [] = none
value_at c ((k, v) ∷ rest) = if bytes_eq k c then some v else value_at c rest

-- A type assertion to a map whose ok is not read: a missing map is empty.
abbrev pub item_of : {A : Type 0} → Value A → List (Bytes × A)
item_of (object item) = item
item_of nothing = []
item_of other = []
item_of (text s) = []
item_of (slice xs) = []

abbrev pub bytes_less : Bytes → Bytes → Bool
bytes_less [] [] = false
bytes_less [] (y ∷ ys) = true
bytes_less (x ∷ xs) [] = false
bytes_less (x ∷ xs) (y ∷ ys) = ltb x y || ((x == y) && bytes_less xs ys)

abbrev pub insert_sorted : Bytes → List Bytes → List Bytes
insert_sorted c [] = c ∷ []
insert_sorted c (d ∷ ds) =
    let rest = insert_sorted c ds in if bytes_less d c then d ∷ rest else c ∷ d ∷ ds

-- The names of the columns, in sort.Strings order.
unfoldable pub sorted_columns_from_map : {A : Type 0} → List (Bytes × A) → List Bytes
sorted_columns_from_map [] = []
sorted_columns_from_map ((k, v) ∷ rest) = insert_sorted k (sorted_columns_from_map rest)

unfoldable pub same_columns : List Bytes → List Bytes → Bool
same_columns [] [] = true
same_columns (x ∷ xs) (y ∷ ys) = bytes_eq x y && same_columns xs ys
same_columns _ _ = false

-- strings.Join
abbrev pub join : Bytes → List Bytes → Bytes
join sep [] = []
join sep (x ∷ []) = x
join sep (x ∷ y ∷ ys) = x ++ (sep ++ join sep (y ∷ ys))
