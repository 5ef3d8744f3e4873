-- ===== src/Facade/Query/Exact.antt =====
-- What Query of sluice.go answers, against the payloads and the scores.
use sluice_go.Shield.Index.Query.{
  Resolved, IndexMatch, range_fields, in_ranges, resolve_one, resolve,
}
use sluice_go.Shield.Index.Query.Bounds.{IsMap, Within, in_ranges_iff}
use sluice_go.Shield.Index.Query.Chunks.{query_band-eq-resolve}
use sluice_go.Facade.Query.{
  Filters, BandAnswers, results, followed_by, eq_keys, resolve_candidates, then_rest, query_from,
  query_open, query,
}
use sluice_go.Prelude.{
  ℕ, zero, suc, ◌+◌, ◌≤◌, ◌<◌, ◌==◌, ==→≡, ◌≡◌, ◌≢◌, ◌↔◌, refl, ap, sym, subst, ◌∙◌, Bool, true,
  false, Option, none, some, List, [], ◌∷◌, ◌++◌, if◌then◌else◌, Bytes, arith, Bool-cases, ◌⊎◌, inl,
  inr, Listed, Listed-append_left, Listed-append_right, Listed-append_cases,
}

module _ {S : Type 0} (less : S → S → Bool) (ns : Bytes) (q : Filters S)
    (answers : ℕ → BandAnswers S) (one_min : IsMap q.range_min) (one_max : IsMap q.range_max) where
  abbrev wanted : ℕ → Bytes → Bool
  wanted band ck =
      in_ranges less (answers band).payload_at (answers band).score_at q.range_min q.range_max ck
        (range_fields q.range_min q.range_max)

  -- The key's payload is there and not empty, and its scores are within every bound.
  abbrev pub IsAnswer : ℕ → IndexMatch → Type 0
  IsAnswer band m =
      ((answers band).payload_at m.correlation_key ≡ some m.payload)
      × (m.payload ≢ [])
      × Within less (answers band).payload_at (answers band).score_at q.range_min q.range_max
          m.correlation_key

  wanted-Within :
      (band : ℕ) (ck : Bytes)
      → (wanted band ck ≡ true)
        ↔ Within less (answers band).payload_at (answers band).score_at q.range_min q.range_max ck
  wanted-Within band ck =
      in_ranges_iff less (answers band).payload_at (answers band).score_at q.range_min q.range_max
        ck one_min one_max

  abbrev one : ℕ → Bytes → Option Bytes → Resolved → Resolved
  one band =
      resolve_one less (answers band).payload_at (answers band).score_at q.range_min q.range_max

  abbrev all : ℕ → List Bytes → Resolved
  all band = resolve less (answers band).payload_at (answers band).score_at q.range_min q.range_max

  one_sound :
      (band : ℕ) (ck : Bytes) (o : Option Bytes) (rest : Resolved) (m : IndexMatch)
      → (answers band).payload_at ck ≡ o
      → Listed m (one band ck o rest).matches
      → Listed m rest.matches ⊎ ((m.correlation_key ≡ ck) × IsAnswer band m)
  unfolding resolve_one
  one_sound band ck none rest m e h = inl h
  one_sound band ck (some []) rest m e h = inl h
  one_sound band ck (some (x ∷ xs)) rest m e h =
      let mine : IndexMatch = record { correlation_key = ck; payload = x ∷ xs } in
      let taken = λ (b : Bool).
        Listed m (if b then record rest { matches = mine ∷ rest.matches } else rest).matches in
      elim (Bool-cases (wanted band ck)) [
        | inl fits ↦ elim (subst taken fits h) [
          | inl same ↦ inr (
            ap (λ (n : IndexMatch). n.correlation_key) same,
            subst (IsAnswer band) (sym same) (e, (λ z. cc), (wanted-Within band ck).0 fits),
          )
          | inr later ↦ inl later
        ]
        | inr not_it ↦ inl (subst taken not_it h)
      ]

  one_keeps :
      (band : ℕ) (ck : Bytes) (o : Option Bytes) (rest : Resolved) (m : IndexMatch)
      → Listed m rest.matches
      → Listed m (one band ck o rest).matches
  unfolding resolve_one
  one_keeps band ck none rest m h = h
  one_keeps band ck (some []) rest m h = h
  one_keeps band ck (some (x ∷ xs)) rest m h = elim (Bool-cases (wanted band ck)) [
    | inl fits ↦ rw (fits, resolve_one) (inr h)
    | inr not_it ↦ rw (not_it, resolve_one) h
  ]

  one_complete :
      (band : ℕ) (o : Option Bytes) (rest : Resolved) (m : IndexMatch)
      → o ≡ some m.payload
      → IsAnswer band m
      → Listed m (one band m.correlation_key o rest).matches
  unfolding resolve_one
  one_complete band none rest m e h = cc
  one_complete band (some []) rest m e h = let empty : m.payload ≡ [] = cc in absurd (h.1 empty)
  one_complete band (some (x ∷ xs)) rest m e h =
      let same : m.payload ≡ x ∷ xs = cc in
      let fits : wanted band m.correlation_key ≡ true =
        (wanted-Within band m.correlation_key).1 h.2 in
      rw (fits, resolve_one)
        (inl (ap (λ p. record { correlation_key = m.correlation_key; payload = p }) same))

  all_sound :
      (band : ℕ) (cks : List Bytes) (m : IndexMatch)
      → Listed m (all band cks).matches
      → Listed m.correlation_key cks × IsAnswer band m
  unfolding resolve
  all_sound band [] m h = absurd h
  all_sound band (ck ∷ cks) m h =
      elim (one_sound band ck ((answers band).payload_at ck) (all band cks) m refl h) [
        | inl later ↦ let (l, a) = all_sound band cks m later in (inr l, a)
        | inr (key, a) ↦ (inl key, a)
      ]

  all_complete :
      (band : ℕ) (cks : List Bytes) (m : IndexMatch)
      → Listed m.correlation_key cks
      → IsAnswer band m
      → Listed m (all band cks).matches
  unfolding resolve
  all_complete band [] m h a = absurd h
  all_complete band (ck ∷ cks) m (inl e) a =
      subst (λ k. Listed m (one band k ((answers band).payload_at k) (all band cks)).matches) e
        (one_complete band ((answers band).payload_at m.correlation_key) (all band cks) m a.0 a)
  all_complete band (ck ∷ cks) m (inr h) a =
      one_keeps band ck ((answers band).payload_at ck) (all band cks) m
        (all_complete band cks m h a)

  module _ (candidates : ℕ → List Bytes)
      (up : (band : ℕ) (chunk : List Bytes) → (answers band).fails chunk ≡ false)
      (listed : (band : ℕ)
        → (answers band).sinter (eq_keys less ns q answers band) ≡ some (candidates band)) where
    -- The matches of the bands from one on.
    abbrev pub matches_from : ℕ → ℕ → List IndexMatch
    matches_from zero band = []
    matches_from (suc left) band =
        (all band (candidates band)).matches ++ matches_from left (suc band)

    query_from-matches :
        (left band : ℕ) → query_from less ns q answers left band ≡ results (matches_from left band)
    unfolding query_from resolve_candidates followed_by
    query_from-matches zero band = refl
    query_from-matches (suc left) band =
        let rest = query_from less ns q answers left (suc band) in
        let a = answers band in
        ap (λ o. then_rest less ns q answers (resolve_candidates less ns q answers band o) rest)
          (listed band)
        ∙ ap (λ o. then_rest less ns q answers o rest)
            (query_band-eq-resolve less a.payload_at a.score_at q.range_min q.range_max a.fails
              (up band) (candidates band))
        ∙ ap (followed_by (all band (candidates band)).matches) (query_from-matches left (suc band))

    -- The answer of one of the bands from one on.
    abbrev pub AnswerIn : ℕ → ℕ → IndexMatch → Type 0
    AnswerIn left low m =
        (band : ℕ) × (low ≤ band)
        × (band < low + left)
        × Listed m.correlation_key (candidates band)
        × IsAnswer band m

    matches_from_sound :
        (left low : ℕ) (m : IndexMatch) → Listed m (matches_from left low) → AnswerIn left low m
    matches_from_sound zero low m h = absurd h
    matches_from_sound (suc left) low m h =
        elim (Listed-append_cases m (all low (candidates low)).matches _ h) [
          | inl here ↦
              let (l, a) = all_sound low (candidates low) m here in
              (low, omega arith, omega arith, l, a)
          | inr later ↦
              let (band, above, below, l, a) = matches_from_sound left (suc low) m later in
              (band, omega arith, omega arith, l, a)
        ]

    matches_from_complete :
        (left low : ℕ) (m : IndexMatch) → AnswerIn left low m → Listed m (matches_from left low)
    matches_from_complete zero low m (band, above, below, l, a) = absurd (omega arith)
    matches_from_complete (suc left) low m (band, above, below, l, a) =
        elim (Bool-cases (low == band)) [
          | inl same ↦
              let here : low ≡ band = ==→≡ low band same in
              Listed-append_left m (all low (candidates low)).matches _ (
                subst (λ b. Listed m (all b (candidates b)).matches) (sym here)
                  (all_complete band (candidates band) m l a))
          | inr other ↦ Listed-append_right m (all low (candidates low)).matches _ (
              matches_from_complete left (suc low) m
                (band, ground (arith, other, above), omega arith, l, a))
        ]

    -- On a Sluice that is open, with an equality filter and one bound of each side for a field,
    -- where SINTER answers in every band and no pipeline fails: Query answers, and its results are
    -- exactly the candidates of all bands whose payload is there and not empty and that have, for
    -- every bound, a score not below a lower and not above an upper one, with their payloads.
    pub query_exact :
        (band_count : ℕ) (f : Bytes × Bytes) (fs : List (Bytes × Bytes))
        → q.equality ≡ f ∷ fs
        → (ms : List IndexMatch) × (query less ns q answers band_count false ≡ results ms)
          × ((m : IndexMatch) → Listed m ms ↔ AnswerIn band_count 0 m)
    unfolding query query_open
    query_exact band_count f fs filtered = (
      matches_from band_count 0,
      ap (query_open less ns q answers band_count) filtered ∙ query_from-matches band_count 0,
      λ m. (matches_from_sound band_count 0 m, matches_from_complete band_count 0 m),
    )
