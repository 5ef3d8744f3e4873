-- ===== src/Sink/Docdb/Attributed.antt =====
-- The DocumentDB sink against the attribution check of the engine.
use sluice_go.Sink.{WriteModel, SinkError, is_empty, check_attribution, failed, answered, Answer}
use sluice_go.Sink.Errors.{Attributed, check_attribution_iff}
use sluice_go.Sink.Docdb.{
  WriteError, exception, Counts, sink_error, sink_errors, model_at, interpret, result_of,
  counts_or_zero, mongo_model, Collection, bulk_write,
}
use sluice_go.Naming.{ℤ, pos, negsuc}
use sluice_go.Engine.Types.{errors_of}
use sluice_go.Prelude.{
  ◌<◌, ◌++◌, length, refl, ap, sym, subst, ◌∙◌, Listed, inl, inr, arith, ℕ, zero, suc, map, ◌≡◌,
  ◌↔◌, false, Option, none, some, List, [], ◌∷◌, All,
}

abbrev pub IsSome : {A : Type 0} → Option A → Type 0
IsSome none = ⊥
IsSome (some x) = Unit

-- The index of a write error is a position of the batch.
abbrev pub InBatch : {V : Type 0} → List (WriteModel V) → WriteError → Type 0
InBatch ms we = (i : ℕ) × (we.index ≡ pos i) × (i < length ms)

-- Every model of the batch has a correlation key.
abbrev pub Keyed : {V : Type 0} → List (WriteModel V) → Type 0
Keyed = All λ m. is_empty m.correlation_key ≡ false

module _ {V : Type 0} where
  KeyedAt : Option (WriteModel V) → Type 0
  KeyedAt none = Unit
  KeyedAt (some m) = is_empty m.correlation_key ≡ false

  model_at-KeyedAt : (ms : List (WriteModel V)) (i : ℕ) → Keyed ms → KeyedAt (model_at (pos i) ms)
  unfolding KeyedAt
  model_at-KeyedAt [] i h = tt
  model_at-KeyedAt (m ∷ ms) zero h = h.0
  model_at-KeyedAt (m ∷ ms) (suc i) h = model_at-KeyedAt ms i h.1

  sink_error_iff :
      (we : WriteError) (o : Option (WriteModel V))
      → KeyedAt o
      → (is_empty (sink_error we o).correlation_key ≡ false) ↔ IsSome o
  unfolding sink_error KeyedAt
  sink_error_iff we none h = (λ e. cc, elim [ ])
  sink_error_iff we (some m) h = (λ e. tt, λ u. h)

  index-KeyedAt : (ms : List (WriteModel V)) (i : ℤ) → Keyed ms → KeyedAt (model_at i ms)
  unfolding KeyedAt
  index-KeyedAt ms (pos i) h = model_at-KeyedAt ms i h
  index-KeyedAt ms (negsuc i) h = tt

  in_range : (ms : List (WriteModel V)) (i : ℕ) → IsSome (model_at (pos i) ms) ↔ (i < length ms)
  in_range [] i = ((λ h. absurd h), (λ h. absurd (omega arith)))
  in_range (m ∷ ms) zero = ((λ h. omega arith), (λ h. tt))
  in_range (m ∷ ms) (suc i) = (
    (λ h. let below = (in_range ms i).0 h in omega arith),
    (λ h. (in_range ms i).1 (omega arith)),
  )

  IsSome-InBatch :
      (ms : List (WriteModel V)) (we : WriteError) → IsSome (model_at we.index ms) ↔ InBatch ms we
  IsSome-InBatch ms we = (
    λ h. placed we.index refl h,
    λ b. subst (λ i. IsSome (model_at i ms)) (sym b.1) ((in_range ms b.0).1 b.2),
  )
    where
      placed : (i : ℤ) → we.index ≡ i → IsSome (model_at i ms) → InBatch ms we
      placed (pos i) e h = (i, e, (in_range ms i).0 h)
      placed (negsuc i) e h = absurd h

  -- The model behind others stands at their number.
  model_at-append :
      (before after : List (WriteModel V)) (n : WriteModel V)
      → model_at (pos (length before)) (before ++ n ∷ after) ≡ some n
  model_at-append [] after n = refl
  model_at-append (m ∷ before) after n = model_at-append before after n

  -- An error of the result stands for the write error, with the key of a model.
  abbrev pub HasError : WriteError → WriteModel V → Answer → Type 0
  HasError we n (failed result) = ⊥
  HasError we n (answered result) =
      (e : SinkError) × Listed e (errors_of result)
      × (e.correlation_key ≡ n.correlation_key)
      × (e.message ≡ we.message)

  sink_errors-Listed :
      (ms before after : List (WriteModel V)) (n : WriteModel V) (we : WriteError)
      (wes : List WriteError)
      → ms ≡ before ++ n ∷ after
      → we.index ≡ pos (length before)
      → Listed we wes
      → Listed (sink_error we (some n)) (sink_errors ms wes)
  unfolding sink_errors
  sink_errors-Listed ms before after n we [] at i h = absurd h
  sink_errors-Listed ms before after n we (x ∷ wes) at i (inl same) = inl (
      ap (sink_error we) (
        sym (model_at-append before after n)
        ∙ ap (model_at (pos (length before))) (sym at)
        ∙ ap (λ j. model_at j ms) (sym i))
      ∙ ap (λ w. sink_error w (model_at w.index ms)) same)
  sink_errors-Listed ms before after n we (x ∷ wes) at i (inr h) =
      inr (sink_errors-Listed ms before after n we wes at i h)

  attributed→ :
      (ms : List (WriteModel V)) (wes : List WriteError)
      → Keyed ms
      → Attributed (sink_errors ms wes)
      → All (InBatch ms) wes
  unfolding sink_errors
  attributed→ ms [] h a = tt
  attributed→ ms (we ∷ wes) h a = (
    (IsSome-InBatch ms we).0
        ((sink_error_iff we (model_at we.index ms) (index-KeyedAt ms we.index h)).0 a.0),
    attributed→ ms wes h a.1,
  )

  attributed← :
      (ms : List (WriteModel V)) (wes : List WriteError)
      → Keyed ms
      → All (InBatch ms) wes
      → Attributed (sink_errors ms wes)
  unfolding sink_errors
  attributed← ms [] h a = tt
  attributed← ms (we ∷ wes) h a = (
    (sink_error_iff we (model_at we.index ms) (index-KeyedAt ms we.index h)).1
        ((IsSome-InBatch ms we).1 a.0),
    attributed← ms wes h a.1,
  )

  -- The engine's attribution check passes the answer.
  pub Passes : List (WriteModel V) → Answer → Type 0
  Passes ms (failed result) = ⊥
  Passes ms (answered result) = check_attribution ms result ≡ none

  interpret-Passes :
      (ms : List (WriteModel V)) (res : Option Counts) (wes : List WriteError)
      → Keyed ms
      → Passes ms (interpret ms (exception res false wes)) ↔ All (InBatch ms) wes
  unfolding Passes interpret
  interpret-Passes ms res wes h =
      let iff =
        (check_attribution_iff ms (result_of (counts_or_zero res) (sink_errors ms wes))).0 in
      (λ p. attributed→ ms wes h (iff.0 p), λ a. iff.1 (attributed← ms wes h a))

  interpret-HasError :
      (ms before after : List (WriteModel V)) (n : WriteModel V) (we : WriteError)
      (res : Option Counts) (wes : List WriteError)
      → ms ≡ before ++ n ∷ after
      → we.index ≡ pos (length before)
      → Listed we wes
      → HasError we n (interpret ms (exception res false wes))
  unfolding interpret sink_error
  interpret-HasError ms before after n we res wes at i h =
      (sink_error we (some n), sink_errors-Listed ms before after n we wes at i h, refl, refl)

  -- When the collection answers a batch, whose keys are not empty, with an exception and no write
  -- concern error: BulkWrite's result passes the engine's attribution check exactly when the index
  -- of every write error is a position of the batch; and for a write error at the position of a
  -- model, the result has an error with the model's key and the message.
  pub bulk_write-Passes :
      (collection : Collection V) (m : WriteModel V) (ms : List (WriteModel V))
      (d : collection.State) (res : Option Counts) (wes : List WriteError)
      → Keyed (m ∷ ms)
      → (collection.bulk_write (map mongo_model (m ∷ ms)) d).0 ≡ exception res false wes
      → (Passes (m ∷ ms) (bulk_write collection (m ∷ ms) d).0 ↔ All (InBatch (m ∷ ms)) wes)
        × ((before after : List (WriteModel V)) (n : WriteModel V) (we : WriteError)
            → m ∷ ms ≡ before ++ n ∷ after
            → we.index ≡ pos (length before)
            → Listed we wes
            → HasError we n (bulk_write collection (m ∷ ms) d).0)
  unfolding bulk_write
  bulk_write-Passes collection m ms d res wes h e = rw e (
    interpret-Passes (m ∷ ms) res wes h,
    λ before after n we at i l. interpret-HasError (m ∷ ms) before after n we res wes at i l,
  )
