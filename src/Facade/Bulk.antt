-- ===== src/Facade/Bulk.antt =====
-- ReadBulk and ReadBulkWithTTL of sluice_bulk.go, for a Sluice without an index bulk contract. A Go
-- map is the list of its assignments, the last one first.
pub mod Waiting
use sluice_go.LocalJournal.{Cache}
use sluice_go.Redis.{Redis, Ttl, missing, persistent, expiring}
use sluice_go.Shield.Calls.{Config}
use sluice_go.Shield.World.{World, Result, ok, err, Error}
use sluice_go.Shield.Reads.{BulkItem, HydrateResult, bulk_hydrate_journal, bulk_get_ttl}
use sluice_go.Facade.Types.{SluiceConfig, Sluice}
use sluice_go.Facade.Reads.{put_local}
use sluice_go.Prelude.{
  ℕ, Bool, true, false, Option, none, some, List, [], ◌∷◌, ◌++◌, map, if◌then◌else◌, Bytes,
}

-- The plan of a bulk read, of a type M, and the Source's answer to it, none for an error.
pub record BulkWiring (M : Type 0) : Type 0 where
  pub read_bulk_contract : Option (Bytes → Option M)
  pub read_bulk : Option (M → Option (List BulkItem))

pub data BulkOutcome : Type 0 where
  library_closed missing_contract missing_source contract_failed source_failed : BulkOutcome
  hydration_failed : Error → BulkOutcome
  bulk : (payloads : List (Bytes × Bytes)) (ttls : List (Bytes × ℕ)) → BulkOutcome

-- `cmd.Val().Milliseconds()`: go-redis has -1 and -2 nanoseconds for a key without expiry and for
-- a key that is not there.
unfoldable pub ttl_millis : Ttl → ℕ
ttl_millis missing = 0
ttl_millis persistent = 0
ttl_millis (expiring n) = n

-- payloadMap
unfoldable pub payload_map : List BulkItem → List HydrateResult → List (Bytes × Bytes)
payload_map (i ∷ is) (h ∷ hs) = payload_map is hs ++ (i.correlation_key, h.body) ∷ []
payload_map _ _ = []

unfoldable pub ttl_map : List BulkItem → List Ttl → List (Bytes × ℕ)
unfolding ttl_millis
ttl_map (i ∷ is) (t ∷ ts) = ttl_map is ts ++ (i.correlation_key, ttl_millis t) ∷ []
ttl_map _ _ = []

-- The fallback: the activity window for every key.
unfoldable pub approximate_ttls : ℕ → List BulkItem → List (Bytes × ℕ)
approximate_ttls window [] = []
approximate_ttls window (i ∷ is) = approximate_ttls window is ++ (i.correlation_key, window) ∷ []

-- The Puts into L1.
unfoldable pub put_all : ℕ → List BulkItem → List HydrateResult → Option Cache → Option Cache
unfolding put_local
put_all now (i ∷ is) (h ∷ hs) local =
    put_all now is hs (put_local now i.correlation_key h.body h.version local)
put_all now _ _ local = local

module _ {M : Type 0} (r : Redis) (c : SluiceConfig) (wires : BulkWiring M) (bulk_ts now : ℕ) where
  open r use {State}

  unfoldable pub with_ttls :
      List BulkItem
      → List (Bytes × Bytes)
      → Result (List Ttl) × World State
      → Sluice State
      → BulkOutcome × Sluice State
  unfolding ttl_map approximate_ttls
  with_ttls items payloads (ok ttls, w) s =
      (bulk payloads (ttl_map items ttls), record s { world = w })
  with_ttls items payloads (err e, w) s =
      (bulk payloads (approximate_ttls c.shield.activity_window items), record s { world = w })

  unfoldable pub after_hydration :
      List BulkItem
      → Result (List HydrateResult) × World State
      → Sluice State
      → BulkOutcome × Sluice State
  unfolding with_ttls payload_map put_all bulk_get_ttl
  after_hydration items (err e, w) s = (hydration_failed e, record s { world = w })
  after_hydration items (ok hydrated, w) s =
      with_ttls items (payload_map items hydrated)
        (bulk_get_ttl r c.shield (map (λ (i : BulkItem). i.correlation_key) items) w)
        (record s { world = w; local = put_all now items hydrated s.local })

  unfoldable pub hydrate_items : Option (List BulkItem) → Sluice State → BulkOutcome × Sluice State
  unfolding after_hydration bulk_hydrate_journal
  hydrate_items none s = (source_failed, s)
  hydrate_items (some []) s = (bulk [] [], s)
  hydrate_items (some (i ∷ is)) s =
      after_hydration (i ∷ is) (bulk_hydrate_journal r c.shield (i ∷ is) bulk_ts s.world) s

  unfoldable pub by_plan :
      (M → Option (List BulkItem)) → Option M → Sluice State → BulkOutcome × Sluice State
  unfolding hydrate_items
  by_plan source none s = (contract_failed, s)
  by_plan source (some plan) s = hydrate_items (source plan) s

  unfoldable pub read_bulk_open :
      Bytes
      → Option (Bytes → Option M)
      → Option (M → Option (List BulkItem))
      → Sluice State
      → BulkOutcome × Sluice State
  unfolding by_plan
  read_bulk_open key none source s = (missing_contract, s)
  read_bulk_open key (some contract) none s = (missing_source, s)
  read_bulk_open key (some contract) (some source) s = by_plan source (contract key) s

  -- `ReadBulkWithTTL`
  unfoldable pub read_bulk_with_ttl : Bytes → Sluice State → BulkOutcome × Sluice State
  unfolding read_bulk_open
  read_bulk_with_ttl key s =
      if s.closed
      then (library_closed, s)
      else read_bulk_open key wires.read_bulk_contract wires.read_bulk s
