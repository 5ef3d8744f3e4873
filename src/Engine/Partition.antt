-- ===== src/Engine/Partition.antt =====
-- How flushBand parts the keys of a batch by the errors of the sink.
use sluice_go.Sink.{WriteModel, SinkError, BulkWriteResult, check_attribution}
use sluice_go.Sink.Errors.{Attributed, check_attribution_iff}
use sluice_go.Engine.Types.{contains, permanent_keys, transient_keys, success_keys, keys_of}
use sluice_go.Prelude.{
  ◌≡◌, refl, Bool, true, false, not, ◌||◌, ◌&&◌, none, some, List, [], ◌∷◌, ◌++◌, filter, Bytes,
  bytes_eq, bytes_eq→≡, All, arith, Bool-cases, inl, inr, ap, ◌∙◌,
}

-- Some error carries the key.
unfoldable pub named : List SinkError → Bytes → Bool
named [] k = false
named (e ∷ es) k = bytes_eq e.correlation_key k || named es k

contains-append :
    (xs ys : List Bytes) (k : Bytes) → contains (xs ++ ys) k ≡ (contains xs k || contains ys k)
unfolding contains
contains-append [] ys k = ground arith
contains-append (x ∷ xs) ys k = ground (arith, contains-append xs ys k)

failed-named :
    (es : List SinkError) (k : Bytes)
    → (contains (permanent_keys es) k || contains (transient_keys es) k) ≡ named es k
unfolding permanent_keys transient_keys contains named
failed-named [] k = ground arith
failed-named (e ∷ es) k = ground (arith, failed-named es k)

contains-filter :
    (t : Bytes → Bool) (keys : List Bytes) (k : Bytes)
    → contains (filter t keys) k ≡ (contains keys k && t k)
unfolding contains
contains-filter t [] k = ground arith
contains-filter t (x ∷ xs) k = elim (Bool-cases (bytes_eq x k)) [
  | inl e ↦ ground (arith, contains-filter t xs k, ap t (bytes_eq→≡ x k e))
  | inr e ↦ ground (arith, contains-filter t xs k)
]

-- A key is committed exactly when it is in the batch and no error of the sink, permanent or
-- transient, names it.
pub success_keys-contains :
    (keys : List Bytes) (es : List SinkError) (k : Bytes)
    → contains (success_keys keys es) k ≡ (contains keys k && not (named es k))
unfolding success_keys
success_keys-contains keys es k =
    contains-filter _ keys k
    ∙ ap (λ b. contains keys k && not b)
        (contains-append (permanent_keys es) (transient_keys es) k ∙ failed-named es k)

-- Errors that all carry keys outside the batch.
abbrev pub Elsewhere : List Bytes → List SinkError → Type 0
Elsewhere keys = All λ e. contains keys e.correlation_key ≡ false

-- No error names a key of the batch.
unnamed :
    (keys : List Bytes) (es : List SinkError) (k : Bytes)
    → contains keys k ≡ true
    → Elsewhere keys es
    → named es k ≡ false
unfolding named
unnamed keys [] k h a = refl
unnamed keys (e ∷ es) k h a = elim (Bool-cases (bytes_eq e.correlation_key k)) [
  | inl same ↦ cc (h, a.0, ap (contains keys) (bytes_eq→≡ e.correlation_key k same))
  | inr other ↦ ground (arith, unnamed keys es k h a.1)
]

-- If every error of a result names a key, but one that is not in the batch, the attribution guard
-- passes the result, and every key of the batch counts as written, although the sink reported errors.
pub foreign_errors_pass :
    {V : Type 0} (models : List (WriteModel V)) (result : BulkWriteResult)
    → Attributed result.errors
    → Elsewhere (keys_of models) result.errors
    → (check_attribution models (some result) ≡ none)
      × ((k : Bytes)
          → contains (success_keys (keys_of models) result.errors) k ≡ contains (keys_of models) k)
foreign_errors_pass models result a f = (
  (check_attribution_iff models result).0.1 a,
  λ k.
      success_keys-contains (keys_of models) result.errors k
      ∙ elim (Bool-cases (contains (keys_of models) k)) [
        | inl e ↦ rw (e, unnamed (keys_of models) result.errors k e f)
        | inr e ↦ rw e
      ],
)
