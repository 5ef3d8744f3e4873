-- ===== src/Shield/Index.antt =====
-- The index update of internal/shield/index.go: the commands that queueIndexUpdate appends to the
-- pipeline. Scores are of a type S; a Go map is a list of its pairs, in the order of its iteration.
pub mod Current
pub mod Query
pub mod Prune
pub mod Sweep
pub mod Register
pub mod Updates
use sluice_go.Naming.{
  codes, index_key, range_index_key, index_registry_key, index_values_key, index_expiry_key,
}
use sluice_go.Prelude.{
  ℕ, ◌+◌, ◌==◌, ◌&&◌, Bool, true, false, Option, none, some, List, [], ◌∷◌, ◌++◌, if◌then◌else◌,
  Bytes, bytes_eq,
}

-- A string, a number, or a value of another type.
pub data FieldValue (S : Type 0) : Type 0 where
  equality : Bytes → FieldValue S
  score : S → FieldValue S
  unsupported : FieldValue S

-- The commands of the pipeline; the score of an expiry is a time.
pub data Queued (S : Type 0) : Type 0 where
  sadd srem zrem : (key member : Bytes) → Queued S
  zadd : (key : Bytes) (s : S) (member : Bytes) → Queued S
  zadd_expiry : (key : Bytes) (at : ℕ) (member : Bytes) → Queued S
  expire : (key : Bytes) (ttl : ℕ) → Queued S
  del : (key : Bytes) → Queued S
  hset : (key : Bytes) (fields : List (Bytes × Bytes)) → Queued S

abbrev pub value_of : Bytes → List (Bytes × Bytes) → Option Bytes
value_of f [] = none
value_of f ((g, v) ∷ rest) = if bytes_eq g f then some v else value_of f rest

-- "s:" and the value, or "n": what idxv keeps of a field.
abbrev pub stored_equality : Bytes → Bytes
stored_equality v = codes "s:" ++ v

abbrev pub stored_range : Bytes
stored_range = codes "n"

-- The map that becomes the new idxv.
unfoldable pub next_values : {S : Type 0} → List (Bytes × FieldValue S) → List (Bytes × Bytes)
next_values [] = []
next_values ((f, equality v) ∷ rest) = (f, stored_equality v) ∷ next_values rest
next_values ((f, score s) ∷ rest) = (f, stored_range) ∷ next_values rest
next_values ((f, unsupported) ∷ rest) = next_values rest

-- strings.CutPrefix with "s:"
abbrev pub cut_equality : Bytes → Option Bytes
cut_equality [] = none
cut_equality (a ∷ []) = none
cut_equality (a ∷ b ∷ v) = if (a == 115) && (b == 58) then some v else none

abbrev pub is_current : Option Bytes → Bytes → Bool
is_current none prev = false
is_current (some cur) prev = bytes_eq cur prev

module _ {S : Type 0} (ns : Bytes) (band ttl : ℕ) (ck : Bytes) where
  unfoldable pub add_field : Bytes → FieldValue S → List (Queued S)
  add_field f (equality v) =
      let key = index_key ns band f v in
      sadd key ck ∷ expire key ttl ∷ sadd (index_registry_key ns band) key ∷ []
  add_field f (score s) =
      let key = range_index_key ns band f in
      zadd key s ck ∷ expire key ttl ∷ sadd (index_registry_key ns band) key ∷ []
  add_field f unsupported = []

  unfoldable pub add_fields : List (Bytes × FieldValue S) → List (Queued S)
  unfolding add_field
  add_fields [] = []
  add_fields ((f, v) ∷ rest) = add_field f v ++ add_fields rest

  -- The removal from the index of an earlier value, by the field's value in the new map.
  unfoldable pub drop_range : Bytes → Option Bytes → List (Queued S)
  drop_range f none = zrem (range_index_key ns band f) ck ∷ []
  drop_range f (some cur) = []

  unfoldable pub drop_stale : Bytes → Option Bytes → Option Bytes → List (Queued S)
  unfolding drop_range
  drop_stale f (some v) cur = srem (index_key ns band f v) ck ∷ []
  drop_stale f none cur = drop_range f cur

  unfoldable pub drop_old : List (Bytes × Bytes) → List (Bytes × Bytes) → List (Queued S)
  unfolding drop_stale
  drop_old next [] = []
  drop_old next ((f, prev) ∷ rest) =
      let cur = value_of f next in
      let others = drop_old next rest in
      if is_current cur prev then others else drop_stale f (cut_equality prev) cur ++ others

  unfoldable pub write_values : ℕ → List (Bytes × Bytes) → List (Queued S)
  write_values now [] = zrem (index_expiry_key ns band) ck ∷ []
  write_values now (x ∷ xs) =
      hset (index_values_key ns band ck) (x ∷ xs)
      ∷ expire (index_values_key ns band ck) ttl
      ∷ expire (index_registry_key ns band) ttl
      ∷ zadd_expiry (index_expiry_key ns band) (now + ttl) ck
      ∷ []

  unfoldable pub queue_index_update :
      ℕ → List (Bytes × FieldValue S) → List (Bytes × Bytes) → List (Queued S)
  unfolding add_fields next_values drop_old write_values
  queue_index_update now fields old =
      add_fields fields
      ++ (drop_old (next_values fields) old
          ++ (del (index_values_key ns band ck) ∷ write_values now (next_values fields)))
