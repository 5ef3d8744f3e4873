-- ===== src/Shield/Index/Register.antt =====
-- RegisterExistingIndexes of internal/shield/index.go and scanKeys of shield.go. The pages of a
-- SCAN are a parameter, for each master of the cluster, or for the only server.
pub mod Found
use sluice_go.Naming.{codes, ℤ, pos, negsuc, band_from_key, index_registry_key}
use sluice_go.Naming.Decimal.{itoa}
use sluice_go.Shield.Index.{Queued, sadd}
use sluice_go.Prelude.{
  ℕ, suc, ◌+◌, Bool, true, false, not, ◌||◌, Option, none, some, List, [], ◌∷◌, ◌++◌, length,
  if◌then◌else◌, Bytes,
}

-- A page of a SCAN from cursor 0 until it is 0 again: its keys, and whether the pipeline that is
-- sent for them succeeds.
pub data KeyPage : Type 0 where
  no_page : KeyPage
  keys_page : (keys : List Bytes) (answered : Bool) → KeyPage

-- The keys that were seen, an error, and the commands that were sent.
pub record Scanned (C : Type 0) : Type 0 where
  pub total : ℕ
  pub failed : Bool
  pub commands : List C

module _ {C : Type 0} where
  abbrev pub none_scanned : Scanned C
  none_scanned = record { total = 0; failed = false; commands = [] }

  abbrev pub failed_scan : Scanned C
  failed_scan = record { total = 0; failed = true; commands = [] }

  -- What came first, and what came behind it unless that failed.
  unfoldable pub scanned_then : Scanned C → Scanned C → Scanned C
  scanned_then a b = if a.failed then a else record {
    total = a.total + b.total;
    failed = b.failed;
    commands = a.commands ++ b.commands;
  }

  -- The Exec of a pipeline; one without commands sends nothing.
  abbrev pub exec_failed : Bool → List C → Bool
  exec_failed true commands = false
  exec_failed false [] = false
  exec_failed false (x ∷ xs) = true

  -- A page is counted, and its keys are handed to `fn`.
  unfoldable pub scan_page : Option (List Bytes → List C) → List Bytes → Bool → Scanned C
  scan_page none keys answered = record { total = length keys; failed = false; commands = [] }
  scan_page (some fn) [] answered = none_scanned
  scan_page (some fn) (k ∷ ks) answered = record {
    total = length (k ∷ ks);
    failed = exec_failed answered (fn (k ∷ ks));
    commands = fn (k ∷ ks);
  }

  -- The loop over the pages of one server.
  unfoldable pub scan : Option (List Bytes → List C) → List KeyPage → Scanned C
  unfolding scan_page scanned_then
  scan fn [] = none_scanned
  scan fn (no_page ∷ rest) = failed_scan
  scan fn (keys_page keys answered ∷ rest) =
      scanned_then (scan_page fn keys answered) (scan fn rest)

  -- Every master is scanned, one that fails leaves the others.
  unfoldable pub scan_keys : Option (List Bytes → List C) → List (List KeyPage) → Scanned C
  unfolding scan
  scan_keys fn [] = none_scanned
  scan_keys fn (pages ∷ masters) =
      let a = scan fn pages in
      let b = scan_keys fn masters in
      record {
        total = a.total + b.total;
        failed = a.failed || b.failed;
        commands = a.commands ++ b.commands;
      }

abbrev pub pattern_of : Bytes → Bytes → Bytes
pattern_of ns kind = codes "sl:" ++ (ns ++ (codes ":" ++ (kind ++ codes ":*")))

module _ (S : Type 0) (ns : Bytes) where
  -- The registry of a band as bandFromKey gives it, which may be negative.
  unfoldable pub registry_of : ℤ → Bytes
  registry_of (pos n) = index_registry_key ns n
  registry_of (negsuc n) =
      codes "sl:" ++ (ns ++ (codes ":idxreg:{-" ++ (itoa (suc n) ++ codes "}")))

  unfoldable pub register_in : Bytes → Option ℤ → List (Queued S)
  unfolding registry_of
  register_in key none = []
  register_in key (some band) = sadd (registry_of band) key ∷ []

  -- The pipeline for the keys of a page.
  unfoldable pub register_keys : List Bytes → List (Queued S)
  unfolding register_in
  register_keys [] = []
  register_keys (key ∷ keys) = register_in key (band_from_key key) ++ register_keys keys

  module _ (pages_of : Bytes → List (List KeyPage)) where
    -- The scan for one kind of index; the masters and their pages depend on the pattern.
    unfoldable pub register_kind : Bytes → Scanned (Queued S)
    unfolding scan_keys register_keys
    register_kind name = scan_keys (some register_keys) (pages_of (pattern_of ns name))

    unfoldable pub register_existing_indexes : Scanned (Queued S)
    unfolding register_kind scanned_then
    register_existing_indexes =
        scanned_then (register_kind (codes "idx")) (register_kind (codes "ridx"))

-- `CountHotMarkers`
unfoldable pub count_hot_markers : Bytes → (Bytes → List (List KeyPage)) → Scanned Unit
unfolding scan_keys
count_hot_markers ns pages_of = scan_keys none (pages_of (pattern_of ns (codes "hot")))
