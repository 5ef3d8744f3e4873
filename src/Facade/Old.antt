-- ===== src/Facade/Old.antt =====
-- ReadOld of sluice.go, which is deprecated, and IsHot.
use sluice_go.Redis.{Redis, Ttl, missing, persistent, expiring}
use sluice_go.Shield.World.{World, Result, ok, err}
use sluice_go.Shield.Flush.{refresh_hot_ttl}
use sluice_go.Shield.Reads.{JournalRead, not_found, found, read_journal, set_hot_marker}
use sluice_go.Facade.Types.{
  SluiceConfig, Wiring, Sluice, library_closed, redis_error, Outcome, done, failed, SourceAnswer,
  record_found, record_missing, source_failed,
}
use sluice_go.Facade.Reads.{cold_read, by_model, from_source, fresh_from, read_fresh}
use sluice_go.Prelude.{
  ℕ, ltb, ◌&&◌, ◌/◌, ◌≡◌, refl, Bool, true, false, Option, none, some, [], ◌∷◌, Bytes,
  if◌then◌else◌, Bool-cases, inl, inr,
}

-- pttl > 0 && pttl < threshold
unfoldable pub soon_gone : ℕ → Ttl → Bool
soon_gone window (expiring n) = ltb 0 n && ltb n (window / 5)
soon_gone window missing = false
soon_gone window persistent = false

module _ {V : Type 0} (r : Redis) (c : SluiceConfig) (wires : Wiring V) (now : ℕ) where
  open r use {State}

  -- The hot marker and the TTL, whose errors are ignored.
  unfoldable pub keep_hot : Bytes → World State → World State
  unfolding set_hot_marker refresh_hot_ttl
  keep_hot ck w =
      (refresh_hot_ttl r c.shield now (ck ∷ [])
        (set_hot_marker r c.shield ck c.shield.activity_window w).1).1

  unfoldable pub old_from :
      Bytes → Result JournalRead × World State → Sluice State → Outcome Bytes × Sluice State
  unfolding cold_read keep_hot soon_gone
  old_from ck (ok (found body ttl version), w) s = (
    done body,
    record s { world = if soon_gone c.shield.activity_window ttl then keep_hot ck w else w },
  )
  old_from ck (ok not_found, w) s =
      cold_read r c wires now ck true wires.source wires.read_contract (record s { world = w })
  old_from ck (err e, w) s =
      cold_read r c wires now ck true wires.source wires.read_contract (record s { world = w })

  -- `ReadOld`: the Source also answers where Redis fails.
  unfoldable pub read_old : Bytes → Sluice State → Outcome Bytes × Sluice State
  unfolding old_from read_journal
  read_old ck s =
      if s.closed
      then (failed library_closed, s)
      else old_from ck (read_journal r c.shield ck s.world) s

  abbrev hot_or : Result JournalRead × World State → Sluice State → Result Bool × Sluice State
  hot_or (ok (found body ttl version), w) s = (ok true, record s { world = w })
  hot_or (ok not_found, w) s = (ok false, record s { world = w })
  hot_or (err e, w) s = (err e, record s { world = w })

  abbrev to_outcome : Result Bool × Sluice State → Outcome Bool × Sluice State
  to_outcome (ok b, s) = (done b, s)
  to_outcome (err e, s) = (failed (redis_error e), s)

  -- `IsHot`: whether the journal has the key.
  unfoldable pub is_hot_key : Bytes → Sluice State → Outcome Bool × Sluice State
  unfolding read_journal
  is_hot_key ck s =
      if s.closed
      then (failed library_closed, s)
      else to_outcome (hot_or (read_journal r c.shield ck s.world) s)

  -- The answer of the Source does not depend on where the hydration goes.
  from_source-same :
      (ck : Bytes) (answer : SourceAnswer) (s : Sluice State)
      → (from_source r c wires now ck true answer s).0
        ≡ (from_source r c wires now ck false answer s).0
  unfolding from_source
  from_source-same ck (record_found body) s = refl
  from_source-same ck record_missing s = refl
  from_source-same ck source_failed s = refl

  by_model-same :
      (ck : Bytes) (source : Bytes → SourceAnswer) (o : Option Bytes) (s : Sluice State)
      → (by_model r c wires now ck true source o s).0
        ≡ (by_model r c wires now ck false source o s).0
  unfolding by_model
  by_model-same ck source none s = refl
  by_model-same ck source (some model) s = from_source-same ck (source model) s

  cold_read-same :
      (ck : Bytes) (source : Option (Bytes → SourceAnswer))
      (contract : Option (Bytes → Option Bytes)) (s : Sluice State)
      → (cold_read r c wires now ck true source contract s).0
        ≡ (cold_read r c wires now ck false source contract s).0
  unfolding cold_read
  cold_read-same ck none contract s = refl
  cold_read-same ck (some source) none s = refl
  cold_read-same ck (some source) (some contract) s = by_model-same ck source (contract ck) s

  abbrev pub answered_read : Result JournalRead → Bool
  answered_read (ok j) = true
  answered_read (err e) = false

  old_from-same :
      (ck : Bytes) (answer : Result JournalRead) (w : World State) (s : Sluice State)
      → answered_read answer ≡ true
      → (old_from ck (answer, w) s).0 ≡ (fresh_from r c wires now ck (answer, w) s).0
  unfolding old_from fresh_from
  old_from-same ck (ok (found body ttl version)) w s h = refl
  old_from-same ck (ok not_found) w s h = cold_read-same ck wires.source wires.read_contract _
  old_from-same ck (err e) w s h = cc

  -- Where ReadJournal answers without an error, ReadOld answers what ReadFresh answers.
  pub read_old-eq-read_fresh :
      (ck : Bytes) (s : Sluice State)
      → answered_read (read_journal r c.shield ck s.world).0 ≡ true
      → (read_old ck s).0 ≡ (read_fresh r c wires now ck s).0
  unfolding read_old read_fresh
  read_old-eq-read_fresh ck s h = elim (Bool-cases s.closed) [
    | inl e ↦ simp e refl
    | inr e ↦ simp e (
        old_from-same ck (read_journal r c.shield ck s.world).0
          (read_journal r c.shield ck s.world).1 s h)
  ]
