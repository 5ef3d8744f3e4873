-- ===== src/Sink/Errors.antt =====
-- `CheckAttribution` and `IsPermanent` against what they promise.
use sluice_go.Sink.{
  WriteModel, SinkError, BulkWriteResult, is_empty, first_unattributed, check_attribution,
}
use sluice_go.Prelude.{◌≡◌, ◌↔◌, false, none, some, List, [], ◌∷◌, All, arith}

-- Every error names some key.
abbrev pub Attributed : List SinkError → Type 0
Attributed = All λ e. is_empty e.correlation_key ≡ false

none→Attributed : (es : List SinkError) → first_unattributed es ≡ none → Attributed es
unfolding first_unattributed
none→Attributed [] h = tt
none→Attributed (e ∷ es) h = ground (arith, none→Attributed es)

Attributed→none : (es : List SinkError) → Attributed es → first_unattributed es ≡ none
unfolding first_unattributed
Attributed→none [] h = ground arith
Attributed→none (e ∷ es) h = ground (arith, h.0, Attributed→none es h.1)

-- The check passes a result exactly when each of its errors has a key that is not empty, and
-- always passes a nil result.
pub check_attribution_iff :
    {V : Type 0} (models : List (WriteModel V)) (result : BulkWriteResult)
    → ((check_attribution models (some result) ≡ none) ↔ Attributed result.errors)
      × (check_attribution models none ≡ none)
unfolding check_attribution
check_attribution_iff models result =
    ((none→Attributed result.errors, Attributed→none result.errors), ground arith)
