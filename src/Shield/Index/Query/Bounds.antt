-- ===== src/Shield/Index/Query/Bounds.antt =====
-- The range filters of QueryBand in internal/shield/index.go against the bounds themselves.
use sluice_go.Shield.Index.Query.{
  bound_of, has_bound, range_fields, in_range, in_ranges, below, above,
}
use sluice_go.Prelude.{
  ◌≡◌, ◌↔◌, refl, ap, sym, subst, ◌∙◌, Bool, true, false, not, &&_both, ◌||◌, Option, none, some,
  List, [], ◌∷◌, map, filter, if◌then◌else◌, Bytes, bytes_eq, bytes_eq_refl, bytes_eq→≡, arith,
  Bool-cases, inl, inr, Listed, Listed-append_left, Listed-append_right, Listed-append_cases,
  Listed-map, Listed-filter,
}

-- A map has one value for each of its keys.
abbrev pub IsMap : {S : Type 0} → List (Bytes × S) → Type 0
IsMap {S} l = (f : Bytes) (x y : S) → Listed (f, x) l → Listed (f, y) l → x ≡ y

pair_eq : {S : Type 0} (f g : Bytes) (x y : S) → g ≡ f → y ≡ x → ◌≡◌ {A = Bytes × S} (f, x) (g, y)
pair_eq f g x y e h = rw (e, h) refl

some-injective : {S : Type 0} (x y : S) → some x ≡ some y → x ≡ y
some-injective x y h = cc

filter-Listed :
    (t : Bytes → Bool) (f : Bytes) (fs : List Bytes) → Listed f (filter t fs) → Listed f fs
filter-Listed t f [] h = absurd h
filter-Listed t f (g ∷ gs) h = elim (Bool-cases (t g)) [
  | inl e ↦ elim (subst (λ (b : Bool). Listed f (if b then g ∷ filter t gs else filter t gs)) e h) [
    | inl same ↦ inl same
    | inr later ↦ inr (filter-Listed t f gs later)
  ]
  | inr e ↦ inr (
      filter-Listed t f gs
        (subst (λ (b : Bool). Listed f (if b then g ∷ filter t gs else filter t gs)) e h))
]

module _ {S : Type 0} where
  abbrev first_of : Bytes → S → List (Bytes × S) → Bool → Option S
  first_of f y rest b = if b then some y else bound_of f rest

  bound_of-Listed :
      (f : Bytes) (x : S) (l : List (Bytes × S)) → bound_of f l ≡ some x → Listed (f, x) l
  bound_of-Listed f x [] h = cc
  bound_of-Listed f x ((g, y) ∷ rest) h = elim (Bool-cases (bytes_eq g f)) [
    | inl same ↦ inl (
        pair_eq f g x y (bytes_eq→≡ g f same)
          (some-injective y x (ap (first_of f y rest) (sym same) ∙ h)))
    | inr other ↦ inr (bound_of-Listed f x rest (ap (first_of f y rest) (sym other) ∙ h))
  ]

  -- A key of a map has a value there.
  Listed-bound_of :
      (f : Bytes) (x : S) (l : List (Bytes × S))
      → Listed (f, x) l
      → (y : S) × (bound_of f l ≡ some y)
  Listed-bound_of f x [] h = absurd h
  Listed-bound_of f x ((g, y) ∷ rest) (inl same) = (
    y,
    ap (first_of f y rest)
        (ap (λ p. bytes_eq p f) (sym (ap (λ (p : Bytes × S). p.0) same)) ∙ bytes_eq_refl f),
  )
  Listed-bound_of f x ((g, y) ∷ rest) (inr h) =
      let (z, found) = Listed-bound_of f x rest h in
      elim (Bool-cases (bytes_eq g f)) [
        | inl same ↦ (y, ap (first_of f y rest) same)
        | inr other ↦ (z, ap (first_of f y rest) other ∙ found)
      ]

  map-bound_of :
      (f : Bytes) (x : S) (l : List (Bytes × S)) → IsMap l → Listed (f, x) l → bound_of f l ≡ some x
  map-bound_of f x l one h =
      let (y, found) = Listed-bound_of f x l h in
      found ∙ ap some (one f y x (bound_of-Listed f y l found) h)

  has_bound-Listed :
      (f : Bytes) (l : List (Bytes × S))
      → has_bound l f ≡ true
      → Listed f (map (λ (p : Bytes × S). p.0) l)
  has_bound-Listed f [] h = cc
  has_bound-Listed f ((g, y) ∷ rest) h = elim (Bool-cases (bytes_eq g f)) [
    | inl same ↦ inl (sym (bytes_eq→≡ g f same))
    | inr other ↦ inr (has_bound-Listed f rest (ap (λ b. b || has_bound rest f) (sym other) ∙ h))
  ]

  names-Listed :
      (f : Bytes) (l : List (Bytes × S))
      → Listed f (map (λ (p : Bytes × S). p.0) l)
      → (x : S) × Listed (f, x) l
  names-Listed f [] h = absurd h
  names-Listed f ((g, y) ∷ rest) (inl same) = (y, inl (pair_eq f g y y (sym same) refl))
  names-Listed f ((g, y) ∷ rest) (inr h) = let (x, l) = names-Listed f rest h in (x, inr l)

module _ {S : Type 0} (less : S → S → Bool) (payload_at : Bytes → Option Bytes)
    (score_at : Bytes → Bytes → Option S) (range_min range_max : List (Bytes × S))
    (ck : Bytes) where
  -- The key has a score for the field of every bound, not below a lower one and not above an upper
  -- one.
  abbrev pub Within : Type 0
  Within =
      ((f : Bytes) (lo : S)
        → Listed (f, lo) range_min
        → (s : S) × (score_at f ck ≡ some s) × (less s lo ≡ false))
      × ((f : Bytes) (hi : S)
          → Listed (f, hi) range_max
          → (s : S) × (score_at f ck ≡ some s) × (less hi s ≡ false))

  abbrev fits : Bytes → Bool
  fits f = in_range less payload_at score_at range_min range_max f (score_at f ck)

  abbrev all_fit : List Bytes → Bool
  all_fit = in_ranges less payload_at score_at range_min range_max ck

  in_ranges-each : (fs : List Bytes) (f : Bytes) → all_fit fs ≡ true → Listed f fs → fits f ≡ true
  unfolding in_ranges
  in_ranges-each [] f h l = absurd l
  in_ranges-each (g ∷ gs) f h (inl same) = ap fits same ∙ (&&_both (fits g) (all_fit gs) h).0
  in_ranges-each (g ∷ gs) f h (inr l) = in_ranges-each gs f (&&_both (fits g) (all_fit gs) h).1 l

  each-in_ranges :
      (fs : List Bytes) → ((f : Bytes) → Listed f fs → fits f ≡ true) → all_fit fs ≡ true
  unfolding in_ranges
  each-in_ranges [] h = refl
  each-in_ranges (g ∷ gs) h = rw (h g (inl refl), each-in_ranges gs (λ f l. h f (inr l))) refl

  in_range-parts :
      (f : Bytes) (o : Option S)
      → in_range less payload_at score_at range_min range_max f o ≡ true
      → (s : S) × (o ≡ some s)
        × (below less payload_at score_at range_min range_max s (bound_of f range_min) ≡ false)
        × (above less payload_at score_at range_min range_max s (bound_of f range_max) ≡ false)
  unfolding in_range
  in_range-parts f none h = cc
  in_range-parts f (some s) h = (s, refl, ground (arith, h), ground (arith, h))

  in_fields_min :
      (f : Bytes) (lo : S) → Listed (f, lo) range_min → Listed f (range_fields range_min range_max)
  unfolding range_fields
  in_fields_min f lo l =
      Listed-append_left f _ _ (Listed-map (λ (p : Bytes × S). p.0) (f, lo) range_min l)

  in_fields_max :
      (f : Bytes) (hi : S) → Listed (f, hi) range_max → Listed f (range_fields range_min range_max)
  unfolding range_fields
  in_fields_max f hi l = elim (Bool-cases (has_bound range_min f)) [
    | inl e ↦ Listed-append_left f _ _ (has_bound-Listed f range_min e)
    | inr e ↦ Listed-append_right f (map (λ (p : Bytes × S). p.0) range_min) _ (
        Listed-filter (λ g. not (has_bound range_min g)) f _ (rw e refl)
          (Listed-map (λ (p : Bytes × S). p.0) (f, hi) range_max l))
  ]

  in_ranges-Within :
      IsMap range_min → IsMap range_max → all_fit (range_fields range_min range_max) ≡ true → Within
  in_ranges-Within one_min one_max h = (
    λ f lo l.
        let (s, scored, low, high) =
          in_range-parts f (score_at f ck) (in_ranges-each _ f h (in_fields_min f lo l)) in
        (
          s,
          scored,
          ap (below less payload_at score_at range_min range_max s)
                (sym (map-bound_of f lo range_min one_min l))
              ∙ low,
        ),
    λ f hi l.
        let (s, scored, low, high) =
          in_range-parts f (score_at f ck) (in_ranges-each _ f h (in_fields_max f hi l)) in
        (
          s,
          scored,
          ap (above less payload_at score_at range_min range_max s)
                (sym (map-bound_of f hi range_max one_max l))
              ∙ high,
        ),
  )

  not_below :
      (f : Bytes) (s : S) (o : Option S)
      → bound_of f range_min ≡ o
      → Within
      → score_at f ck ≡ some s
      → below less payload_at score_at range_min range_max s o ≡ false
  not_below f s none e w scored = refl
  not_below f s (some lo) e w scored =
      let (t, at, low) = w.0 f lo (bound_of-Listed f lo range_min e) in
      ap (λ x. less x lo) (some-injective s t (sym scored ∙ at)) ∙ low

  not_above :
      (f : Bytes) (s : S) (o : Option S)
      → bound_of f range_max ≡ o
      → Within
      → score_at f ck ≡ some s
      → above less payload_at score_at range_min range_max s o ≡ false
  not_above f s none e w scored = refl
  not_above f s (some hi) e w scored =
      let (t, at, high) = w.1 f hi (bound_of-Listed f hi range_max e) in
      ap (λ x. less hi x) (some-injective s t (sym scored ∙ at)) ∙ high

  scored :
      (f : Bytes)
      → Listed f (range_fields range_min range_max)
      → Within
      → (s : S) × (score_at f ck ≡ some s)
  unfolding range_fields
  scored f l w = elim (Listed-append_cases f (map (λ (p : Bytes × S). p.0) range_min) _ l) [
    | inl low ↦
        let (lo, at) = names-Listed f range_min low in let (s, e, ok) = w.0 f lo at in (s, e)
    | inr high ↦
        let (hi, at) =
          names-Listed f range_max (filter-Listed (λ g. not (has_bound range_min g)) f _ high) in
        let (s, e, ok) = w.1 f hi at in (s, e)
  ]

  Within-fits : (f : Bytes) → Listed f (range_fields range_min range_max) → Within → fits f ≡ true
  unfolding in_range
  Within-fits f l w =
      let (s, e) = scored f l w in
      rw
        (
          e,
          not_below f s (bound_of f range_min) refl w e,
          not_above f s (bound_of f range_max) refl w e,
        )
        refl

  -- The range filters of a key hold exactly when its scores are within the bounds.
  pub in_ranges_iff :
      IsMap range_min
      → IsMap range_max
      → (in_ranges less payload_at score_at range_min range_max ck
            (range_fields range_min range_max)
          ≡ true)
        ↔ Within
  in_ranges_iff one_min one_max =
      (in_ranges-Within one_min one_max, λ w. each-in_ranges _ (λ f l. Within-fits f l w))
