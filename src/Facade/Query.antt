-- ===== src/Facade/Query.antt =====
-- Query of sluice.go: QueryBand on every band in turn. What Redis answers is a parameter, for each
-- band: SINTER of the equality keys, none for an error, and the rest as in Shield/Index/Query.
pub mod Exact
use sluice_go.Naming.{index_key}
use sluice_go.Shield.Index.Query.{Resolved, IndexMatch, query_band}
use sluice_go.Prelude.{
  ℕ, zero, suc, Bool, Option, none, some, List, [], ◌∷◌, ◌++◌, map, if◌then◌else◌, Bytes,
}

-- A Query: the equality filters, and the lower and upper bounds.
pub record Filters (S : Type 0) : Type 0 where
  pub equality : List (Bytes × Bytes)
  pub range_min : List (Bytes × S)
  pub range_max : List (Bytes × S)

-- What a band answers: SINTER to the keys it is given, HGET, ZSCORE, and which pipelines fail.
pub record BandAnswers (S : Type 0) : Type 0 where
  pub sinter : List Bytes → Option (List Bytes)
  pub payload_at : Bytes → Option Bytes
  pub score_at : Bytes → Bytes → Option S
  pub fails : List Bytes → Bool

pub data QueryOutcome : Type 0 where
  library_closed no_equality band_failed : QueryOutcome
  results : List IndexMatch → QueryOutcome

-- `append` to the results, or the error of a band.
unfoldable pub followed_by : List IndexMatch → QueryOutcome → QueryOutcome
followed_by found (results more) = results (found ++ more)
followed_by found library_closed = library_closed
followed_by found no_equality = no_equality
followed_by found band_failed = band_failed

module _ {S : Type 0} (less : S → S → Bool) (ns : Bytes) (q : Filters S)
    (answers : ℕ → BandAnswers S) where
  abbrev pub eq_keys : ℕ → List Bytes
  eq_keys band = map (λ p. index_key ns band p.0 p.1) q.equality

  unfoldable pub resolve_candidates : ℕ → Option (List Bytes) → Option Resolved
  unfolding query_band
  resolve_candidates band none = none
  resolve_candidates band (some cks) =
      let a = answers band in
      query_band less a.payload_at a.score_at q.range_min q.range_max a.fails cks

  abbrev pub then_rest : Option Resolved → QueryOutcome → QueryOutcome
  then_rest none rest = band_failed
  then_rest (some found) rest = followed_by found.matches rest

  -- The bands from `band` on, `left` of them.
  unfoldable pub query_from : ℕ → ℕ → QueryOutcome
  unfolding resolve_candidates followed_by
  query_from zero band = results []
  query_from (suc left) band =
      then_rest (resolve_candidates band ((answers band).sinter (eq_keys band)))
        (query_from left (suc band))

  unfoldable pub query_open : ℕ → List (Bytes × Bytes) → QueryOutcome
  unfolding query_from
  query_open band_count [] = no_equality
  query_open band_count (f ∷ fs) = query_from band_count 0

  -- `Query`
  unfoldable pub query : ℕ → Bool → QueryOutcome
  unfolding query_open
  query band_count closed = if closed then library_closed else query_open band_count q.equality
