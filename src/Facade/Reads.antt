-- ===== src/Facade/Reads.antt =====
-- Read, ReadFresh, ReadOld, IsHot and HotLoad of sluice.go, with the background work that they start.
use sluice_go.LocalJournal.{Cache, Lookup, hit, get, put}
use sluice_go.Naming.{pos}
use sluice_go.Redis.{Redis, Ttl, missing, persistent, expiring}
use sluice_go.Shield.World.{World, Result, ok, err}
use sluice_go.Shield.Reads.{
  JournalRead, not_found, found, read_journal, set_hot_marker, hydrate_journal, HydrateResult,
}
use sluice_go.Facade.Types.{
  SluiceConfig, SourceAnswer, record_found, record_missing, source_failed, Wiring, Job, refresh_ttl,
  hydrate_read, hot_load_read, Sluice, library_closed, missing_source, missing_read_contract,
  record_not_found, read_contract_failed, source_unavailable, redis_error, Outcome, done, failed,
}
use sluice_go.Prelude.{
  ℕ, ◌*◌, Bool, true, false, ◌&&◌, Option, none, some, [], ◌∷◌, ◌++◌, ltb, if◌then◌else◌, Bytes,
}

-- `s.local.Put`, where there is an L1.
unfoldable pub put_local : ℕ → Bytes → Bytes → ℕ → Option Cache → Option Cache
unfolding put
put_local now ck body version none = none
put_local now ck body version (some l1) = some (put now ck body (pos version) l1).1

-- jr.PTTL >= 0 && jr.PTTL < s.cfg.ActivityWindow/5, where a fifth of whole milliseconds is a whole
-- number of nanoseconds
unfoldable pub near_expiry : ℕ → Ttl → Bool
near_expiry window (expiring n) = ltb (n * 5) window
near_expiry window missing = false
near_expiry window persistent = false

module _ {V : Type 0} (r : Redis) (c : SluiceConfig) (wires : Wiring V) (now : ℕ) where
  open r use {State}

  abbrev pub starts : Job → Sluice State → Sluice State
  starts job s = record s { jobs = s.jobs ++ job ∷ [] }

  -- The answer of the Source, and the read-through hydration that it starts.
  unfoldable pub from_source :
      Bytes → Bool → SourceAnswer → Sluice State → Outcome Bytes × Sluice State
  from_source ck with_l1 (record_found body) s =
      (done body, starts (hydrate_read ck body now with_l1) s)
  from_source ck with_l1 record_missing s = (failed record_not_found, s)
  from_source ck with_l1 source_failed s = (failed source_unavailable, s)

  unfoldable pub by_model :
      Bytes
      → Bool
      → (Bytes → SourceAnswer)
      → Option Bytes
      → Sluice State
      → Outcome Bytes × Sluice State
  unfolding from_source
  by_model ck with_l1 source none s = (failed read_contract_failed, s)
  by_model ck with_l1 source (some model) s = from_source ck with_l1 (source model) s

  -- Tier 3: the Source, if it and the read contract are there.
  unfoldable pub cold_read :
      Bytes
      → Bool
      → Option (Bytes → SourceAnswer)
      → Option (Bytes → Option Bytes)
      → Sluice State
      → Outcome Bytes × Sluice State
  unfolding by_model
  cold_read ck with_l1 (some source) (some contract) s = by_model ck with_l1 source (contract ck) s
  cold_read ck with_l1 none contract s = (failed record_not_found, s)
  cold_read ck with_l1 (some source) none s = (failed record_not_found, s)

  unfoldable pub fresh_from :
      Bytes → Result JournalRead × World State → Sluice State → Outcome Bytes × Sluice State
  unfolding cold_read
  fresh_from ck (err e, w) s = (failed (redis_error e), record s { world = w })
  fresh_from ck (ok (found body ttl version), w) s = (done body, record s { world = w })
  fresh_from ck (ok not_found, w) s =
      cold_read ck false wires.source wires.read_contract (record s { world = w })

  -- `ReadFresh`
  unfoldable pub read_fresh : Bytes → Sluice State → Outcome Bytes × Sluice State
  unfolding fresh_from read_journal
  read_fresh ck s =
      if s.closed
      then (failed library_closed, s)
      else fresh_from ck (read_journal r c.shield ck s.world) s

  unfoldable pub heal : Bytes → Bytes → Ttl → ℕ → Sluice State → Sluice State
  unfolding put_local near_expiry
  heal ck body ttl version s =
      let healed = record s { local = put_local now ck body version s.local } in
      if c.hot_aware_flush && near_expiry c.shield.activity_window ttl
      then starts (refresh_ttl ck) healed
      else healed

  unfoldable pub warm_from :
      Bytes → Result JournalRead × World State → Sluice State → Outcome Bytes × Sluice State
  unfolding cold_read heal
  warm_from ck (err e, w) s = (failed (redis_error e), record s { world = w })
  warm_from ck (ok (found body ttl version), w) s =
      (done body, heal ck body ttl version (record s { world = w }))
  warm_from ck (ok not_found, w) s =
      cold_read ck true wires.source wires.read_contract (record s { world = w })

  unfoldable pub after_l1 : Bytes → Lookup → Sluice State → Outcome Bytes × Sluice State
  unfolding warm_from read_journal
  after_l1 ck (hit body version) s = (done body, s)
  after_l1 ck miss s = warm_from ck (read_journal r c.shield ck s.world) s

  unfoldable pub read_open : Bytes → Option Cache → Sluice State → Outcome Bytes × Sluice State
  unfolding after_l1 get
  read_open ck none s = warm_from ck (read_journal r c.shield ck s.world) s
  read_open ck (some l1) s =
      let (answer, l1') = get now ck l1 in after_l1 ck answer (record s { local = some l1' })

  -- `Read`: L1, then the journal, then the Source.
  unfoldable pub read : Bytes → Sluice State → Outcome Bytes × Sluice State
  unfolding read_open
  read ck s = if s.closed then (failed library_closed, s) else read_open ck s.local s

  unfoldable pub applied_hydration :
      Bytes → Bool → Result HydrateResult × World State → Sluice State → Sluice State
  unfolding put_local
  applied_hydration ck with_l1 (err e, w) s = record s { world = w }
  applied_hydration ck with_l1 (ok hr, w) s = record s {
    world = w;
    local = if with_l1 then put_local now ck hr.body hr.version s.local else s.local;
  }

  -- `hydrateReadThrough` with `applyHydration`
  unfoldable pub hydrate_read_through : Bytes → Bytes → ℕ → Bool → Sluice State → Sluice State
  unfolding applied_hydration hydrate_journal
  hydrate_read_through ck body ts with_l1 s =
      applied_hydration ck with_l1 (hydrate_journal r c.shield ck body ts s.world) s

  -- The goroutine of `HotLoad`.
  unfoldable pub hot_load_from : Bytes → SourceAnswer → Sluice State → Sluice State
  unfolding hydrate_read_through
  hot_load_from ck (record_found body) s = hydrate_read_through ck body now true s
  hot_load_from ck other s = s

  unfoldable pub marked_or :
      Bytes → Result (Unit {0}) × World State → Sluice State → Outcome (Unit {0}) × Sluice State
  marked_or ck (err e, w) s = (failed (redis_error e), record s { world = w })
  marked_or ck (ok u, w) s = (done tt, starts (hot_load_read ck) (record s { world = w }))

  unfoldable pub hot_load_open :
      Bytes
      → Option (Bytes → SourceAnswer)
      → Option (Bytes → Option Bytes)
      → Sluice State
      → Outcome (Unit {0}) × Sluice State
  unfolding marked_or set_hot_marker
  hot_load_open ck none contract s = (failed missing_source, s)
  hot_load_open ck (some source) none s = (failed missing_read_contract, s)
  hot_load_open ck (some source) (some contract) s =
      marked_or ck (set_hot_marker r c.shield ck c.shield.activity_window s.world) s

  -- `HotLoad`
  unfoldable pub hot_load : Bytes → Sluice State → Outcome (Unit {0}) × Sluice State
  unfolding hot_load_open
  hot_load ck s =
      if s.closed
      then (failed library_closed, s)
      else hot_load_open ck wires.source wires.read_contract s
