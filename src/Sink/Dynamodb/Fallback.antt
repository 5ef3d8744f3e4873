-- ===== src/Sink/Dynamodb/Fallback.antt =====
-- What the fallback of BulkWrite makes of an error of PutItem, for the engine.
use sluice_go.Sink.{SinkError, is_permanent, permanent_class, answered, Answer, failed}
use sluice_go.Sink.Values.{Model, item_of}
use sluice_go.Sink.Dynamodb.{
  Table, Item, Attributes, ApiError, cancelled, validation, unmapped, put_items, fallback_put_items,
  put_errors, put_marshalled,
}
use sluice_go.Engine.Types.{permanent_keys, keys_of, errors_of}
use sluice_go.Prelude.{
  ◌≡◌, refl, ap, ◌∙◌, Bool-cases, inl, inr, Option, none, some, List, [], ◌∷◌, ◌++◌, Bytes,
}

-- The errors of an answer; a top-level error has none.
abbrev pub answer_errors : Answer → List SinkError
answer_errors (failed result) = []
answer_errors (answered result) = errors_of result

-- An error that is neither a cancelled nor an expired context: a ValidationException, throttling or
-- any other.
abbrev pub IsRefused : Option ApiError → Type 0
IsRefused none = ⊥
IsRefused (some (cancelled msg)) = ⊥
IsRefused (some (validation msg)) = Unit
IsRefused (some (unmapped msg)) = Unit

permanent_keys-append :
    (xs ys : List SinkError) → permanent_keys (xs ++ ys) ≡ permanent_keys xs ++ permanent_keys ys
unfolding permanent_keys
permanent_keys-append [] ys = refl
permanent_keys-append (x ∷ xs) ys = elim (Bool-cases (is_permanent x)) [
  | inl e ↦ rw (e, permanent_keys-append xs ys) refl
  | inr e ↦ rw (e, permanent_keys-append xs ys) refl
]

module _ {A : Type 0} (show : Option A → Bytes) (attrs : Attributes)
    (marshal : List (Bytes × A) → Option Item) (table : Table) where
  open table use {State}

  -- PutItem refuses every item, each with an error of its own.
  abbrev pub RefusesAll : Type 0
  RefusesAll = (item : Item) (d : State) → IsRefused (table.put_item item d).0

  permanent_keys-put_errors :
      (m : Model A) (o : Option ApiError)
      → IsRefused o
      → permanent_keys (put_errors show attrs marshal table m o) ≡ m.correlation_key ∷ []
  unfolding permanent_keys is_permanent permanent_class
  permanent_keys-put_errors m none h = absurd h
  permanent_keys-put_errors m (some (cancelled msg)) h = absurd h
  permanent_keys-put_errors m (some (validation msg)) h = refl
  permanent_keys-put_errors m (some (unmapped msg)) h = refl

  put_marshalled-IsRefused :
      (m : Model A) (item : Option Item) (d : State)
      → RefusesAll
      → IsRefused (put_marshalled show attrs marshal table m item d).0
  put_marshalled-IsRefused m none d h = tt
  put_marshalled-IsRefused m (some item) d h = h item d

  permanent_keys-put_items :
      (ms : List (Model A)) (d : State)
      → RefusesAll
      → permanent_keys (put_items show attrs marshal table ms d).0 ≡ keys_of ms
  unfolding put_items permanent_keys keys_of
  permanent_keys-put_items [] d h = refl
  permanent_keys-put_items (m ∷ ms) d h =
      let out = put_marshalled show attrs marshal table m (marshal (item_of m.update)) d in
      permanent_keys-append (put_errors show attrs marshal table m out.0) _
      ∙ ap (λ ks. ks ++ permanent_keys (put_items show attrs marshal table ms out.1).0)
          (permanent_keys-put_errors m out.0
            (put_marshalled-IsRefused m (marshal (item_of m.update)) d h))
      ∙ ap (λ ks. m.correlation_key ∷ ks) (permanent_keys-put_items ms out.1 h)

  -- When every PutItem of the fallback fails with an error that is neither a cancelled nor an
  -- expired context, whatever error each has, throttling included: beside the errors from before,
  -- exactly the keys of all the models count as permanent failures.
  pub permanent_keys-fallback_put_items :
      (ms : List (Model A)) (existing : List SinkError) (d : State)
      → RefusesAll
      → permanent_keys (answer_errors (fallback_put_items show attrs marshal table ms existing d).0)
        ≡ permanent_keys existing ++ keys_of ms
  unfolding fallback_put_items
  permanent_keys-fallback_put_items ms existing d h =
      permanent_keys-append existing _
      ∙ ap (λ ks. permanent_keys existing ++ ks) (permanent_keys-put_items ms d h)
