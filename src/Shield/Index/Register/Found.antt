-- ===== src/Shield/Index/Register/Found.antt =====
-- What RegisterExistingIndexes of internal/shield/index.go registers, when it succeeds.
use sluice_go.Naming.{
  codes, pos, max_int, band_from_key, index_key, range_index_key, index_registry_key,
}
use sluice_go.Naming.Tags.{IsNamespace, band_from_key-names}
use sluice_go.Shield.Index.{Queued, sadd}
use sluice_go.Shield.Index.Register.{
  KeyPage, no_page, keys_page, Scanned, scanned_then, scan_page, scan, scan_keys, none_scanned,
  registry_of, register_in, register_keys, pattern_of, register_kind, register_existing_indexes,
}
use sluice_go.Prelude.{
  ℕ, ◌+◌, ◌≤◌, ◌||◌, ◌≡◌, refl, ap, sym, subst, ◌∙◌, Bool, false, some, List, [], ◌∷◌, ◌++◌, length,
  if◌then◌else◌, Bytes, Bool-cases, inl, inr, Listed, Listed-append_left, Listed-append_right,
  length-append, Listed-append_cases,
}

-- The keys on the pages of all masters.
abbrev pub page_keys : KeyPage → List Bytes
page_keys no_page = []
page_keys (keys_page keys answered) = keys

abbrev pub keys_of_pages : List KeyPage → List Bytes
keys_of_pages [] = []
keys_of_pages (p ∷ ps) = page_keys p ++ keys_of_pages ps

abbrev pub keys_seen : List (List KeyPage) → List Bytes
keys_seen [] = []
keys_seen (pages ∷ masters) = keys_of_pages pages ++ keys_seen masters

-- What came of a scan that has seen these keys: all are counted, and those of a band are in its
-- registry.
pub record Registers (S : Type 0) (ns : Bytes) (keys : List Bytes) (sc : Scanned (Queued S))
    : Type 0 where
  pub counted : sc.total ≡ length keys
  pub registered :
      (key : Bytes) (n : ℕ)
      → band_from_key key ≡ some (pos n)
      → Listed key keys
      → Listed (sadd (index_registry_key ns n) key) sc.commands

abbrev glued : {C : Type 0} → Scanned C → Scanned C → Bool → Scanned C
glued a b failed = record {
  total = a.total + b.total;
  failed = failed;
  commands = a.commands ++ b.commands;
}

scanned_then-ok :
    {C : Type 0} (a b : Scanned C)
    → (scanned_then a b).failed ≡ false
    → (a.failed ≡ false) × (b.failed ≡ false) × (scanned_then a b ≡ glued a b b.failed)
unfolding scanned_then
scanned_then-ok a b h = elim (Bool-cases a.failed) [
  | inl e ↦ cc
  | inr e ↦ (
    e,
    ap (λ (s : Bool). (if s then a else glued a b b.failed).failed) (sym e) ∙ h,
    rw (e, scanned_then) refl,
  )
]

abbrev pub all_seen : Bytes → (Bytes → List (List KeyPage)) → List Bytes
all_seen ns pages_of =
    keys_seen (pages_of (pattern_of ns (codes "idx")))
    ++ keys_seen (pages_of (pattern_of ns (codes "ridx")))

module _ (S : Type 0) (ns : Bytes) where
  glued-Registers :
      (xs ys : List Bytes) (a b : Scanned (Queued S)) (f : Bool)
      → Registers S ns xs a
      → Registers S ns ys b
      → Registers S ns (xs ++ ys) (glued a b f)
  glued-Registers xs ys a b f h k = record {
    counted = rw (length-append xs ys, h.counted, k.counted) refl;
    registered = λ key n e l. elim (Listed-append_cases key xs ys l) [
      | inl here ↦ Listed-append_left _ a.commands b.commands (h.registered key n e here)
      | inr there ↦ Listed-append_right _ a.commands b.commands (k.registered key n e there)
    ];
  }

  register_keys-Listed :
      (key : Bytes) (n : ℕ) (keys : List Bytes)
      → band_from_key key ≡ some (pos n)
      → Listed key keys
      → Listed (sadd (index_registry_key ns n) key) (register_keys S ns keys)
  unfolding register_keys register_in registry_of
  register_keys-Listed key n [] e h = absurd h
  register_keys-Listed key n (k ∷ ks) e (inl same) =
      Listed-append_left _ (register_in S ns k (band_from_key k)) (register_keys S ns ks)
        (rw (sym same, e) (inl refl))
  register_keys-Listed key n (k ∷ ks) e (inr h) =
      Listed-append_right _ (register_in S ns k (band_from_key k)) (register_keys S ns ks)
        (register_keys-Listed key n ks e h)

  scan_page-Registers :
      (keys : List Bytes) (answered : Bool)
      → Registers S ns keys (scan_page (some (register_keys S ns)) keys answered)
  unfolding scan_page
  scan_page-Registers [] answered = record { counted = refl; registered = λ key n e h. absurd h }
  scan_page-Registers (k ∷ ks) answered = record {
    counted = refl;
    registered = λ key n e h. register_keys-Listed key n (k ∷ ks) e h;
  }

  empty-Registers : Registers S ns [] none_scanned
  empty-Registers = record { counted = refl; registered = λ key n e h. absurd h }

  scanned_then-Registers :
      (xs ys : List Bytes) (a b : Scanned (Queued S))
      → (a.failed ≡ false → Registers S ns xs a)
      → (b.failed ≡ false → Registers S ns ys b)
      → (scanned_then a b).failed ≡ false
      → Registers S ns (xs ++ ys) (scanned_then a b)
  scanned_then-Registers xs ys a b h k ok =
      let parts = scanned_then-ok a b ok in
      subst (Registers S ns (xs ++ ys)) (sym parts.2)
        (glued-Registers xs ys a b b.failed (h parts.0) (k parts.1))

  scan-Registers :
      (pages : List KeyPage)
      → (scan (some (register_keys S ns)) pages).failed ≡ false
      → Registers S ns (keys_of_pages pages) (scan (some (register_keys S ns)) pages)
  unfolding scan
  scan-Registers [] ok = empty-Registers
  scan-Registers (no_page ∷ rest) ok = cc
  scan-Registers (keys_page keys answered ∷ rest) ok =
      scanned_then-Registers keys (keys_of_pages rest) _ _ (λ h. scan_page-Registers keys answered)
        (scan-Registers rest) ok

  scan_keys-Registers :
      (masters : List (List KeyPage))
      → (scan_keys (some (register_keys S ns)) masters).failed ≡ false
      → Registers S ns (keys_seen masters) (scan_keys (some (register_keys S ns)) masters)
  unfolding scan_keys
  scan_keys-Registers [] ok = empty-Registers
  scan_keys-Registers (pages ∷ masters) ok =
      elim (Bool-cases (scan (some (register_keys S ns)) pages).failed) [
        | inl e ↦ cc
        | inr e ↦
            glued-Registers (keys_of_pages pages) (keys_seen masters)
              (scan (some (register_keys S ns)) pages)
              (scan_keys (some (register_keys S ns)) masters) _ (scan-Registers pages e)
              (scan_keys-Registers masters (
                ap (λ x. x || (scan_keys (some (register_keys S ns)) masters).failed) (sym e) ∙ ok))
      ]

  -- When RegisterExistingIndexes succeeds, it answers the number of keys that its two scans saw, and
  -- has put each index key among them, of a namespace without braces and a band that an int holds,
  -- into the registry of the band in its name.
  pub register_existing_indexes-Registers :
      IsNamespace ns
      → (pages_of : Bytes → List (List KeyPage))
      → (register_existing_indexes S ns pages_of).failed ≡ false
      → ((register_existing_indexes S ns pages_of).total ≡ length (all_seen ns pages_of))
        × ((n : ℕ) (field value : Bytes)
            → n ≤ max_int
            → (Listed (index_key ns n field value) (all_seen ns pages_of)
                → Listed
                    (sadd (index_registry_key ns n) (index_key ns n field value))
                    (register_existing_indexes S ns pages_of).commands)
              × (Listed (range_index_key ns n field) (all_seen ns pages_of)
                  → Listed
                      (sadd (index_registry_key ns n) (range_index_key ns n field))
                      (register_existing_indexes S ns pages_of).commands))
  unfolding register_existing_indexes register_kind
  register_existing_indexes-Registers valid pages_of ok =
      let both =
        scanned_then-Registers _ _ _ _
          (scan_keys-Registers (pages_of (pattern_of ns (codes "idx"))))
          (scan_keys-Registers (pages_of (pattern_of ns (codes "ridx")))) ok in
      (
        both.counted,
        λ n field value small.
            let names = band_from_key-names ns valid n small [] field value in
            (
              both.registered (index_key ns n field value) n names.7,
              both.registered (range_index_key ns n field) n names.8,
            ),
      )
