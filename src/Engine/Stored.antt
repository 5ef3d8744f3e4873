-- ===== src/Engine/Stored.antt =====
-- A flush of a band into the PostgreSQL sink.
use sluice_go.Redis.{Redis}
use sluice_go.Shield.Calls.{band_for}
use sluice_go.Shield.Traffic.{Foreign}
use sluice_go.Shield.World.{World}
use sluice_go.Shield.World.Keeps.{Kept}
use sluice_go.Shield.Flush.Held.{IsHeld}
use sluice_go.Sink.{SinkError, Answer}
use sluice_go.Sink.Values.{Value, Model}
use sluice_go.Sink.Database.{Database, Statement, logged}
use sluice_go.Sink.Postgres
use sluice_go.Sink.Postgres.Sql.{Config}
use sluice_go.Sink.Postgres.Settled.{
  Accepted, Handled, Handled-cases, Accounts, Accounts-answered, bulk_write-Accounts,
}
use sluice_go.Engine.Types.{EngineConfig, Contract, keys_of, contains, errors_of}
use sluice_go.Engine.Partition.{named}
use sluice_go.Engine.{flush_band, flush_models}
use sluice_go.Engine.Flushed.{AcceptedOf, flush_band-IsHeld}
use sluice_go.Prelude.{
  ℕ, ◌≡◌, refl, ◌⊎◌, inl, inr, true, false, Option, List, [], ◌∷◌, Bytes, bytes_eq, bytes_eq→≡, All,
  Bool-cases, subst, arith, Listed,
}

-- Some model of the list has the key, and the database accepted a statement that carries it.
abbrev pub StoredIn :
    {A : Type 0} (show : Option A → Bytes)
    → Config
    → Bytes
    → List (Model A)
    → List (Statement A)
    → Type 0
StoredIn {A} show cfg ck models log =
    (m : Model A) × Listed m models × (m.correlation_key ≡ ck) × Accepted show cfg log m

module _ {A : Type 0} (show : Option A → Bytes) (cfg : Config) (ck : Bytes) (es : List SinkError)
    (log : List (Statement A)) (unnamed : named es ck ≡ false) where
  taken :
      (m : Model A) → m.correlation_key ≡ ck → Handled show cfg es log m → Accepted show cfg log m
  taken m same h = elim (Handled-cases show cfg es log m h) [
    | inl bad ↦ let clash : named es ck ≡ true = subst (λ k. named es k ≡ true) same bad in cc
    | inr ok ↦ ok
  ]

  found_model :
      (ms : List (Model A))
      → All (Handled show cfg es log) ms
      → contains (keys_of ms) ck ≡ true
      → StoredIn show cfg ck ms log
  unfolding contains keys_of
  found_model [] h there = cc
  found_model (m ∷ ms) h there = elim (Bool-cases (bytes_eq m.correlation_key ck)) [
    | inl same ↦ let k = bytes_eq→≡ m.correlation_key ck same in (m, inl refl, k, taken m k h.0)
    | inr other ↦ let (n, at, k, ok) = found_model ms h.1 (ground arith) in (n, inr at, k, ok)
  ]

module _ {A : Type 0} (show : Option A → Bytes) (cfg : Config) (db : Database A) (d : db.State)
    (log : List (Statement A)) where
  -- The sink, for the state of the database when the batch comes.
  abbrev pub sink_at : List (Model A) → Answer
  sink_at ms = (Postgres.bulk_write show (logged db) cfg ms (d, log)).0

  abbrev pub log_after : List (Model A) → List (Statement A)
  log_after ms = (Postgres.bulk_write show (logged db) cfg ms (d, log)).1.1

  accepted-StoredIn :
      (ck : Bytes) (ms : List (Model A))
      → AcceptedOf sink_at ck ms
      → StoredIn show cfg ck ms (log_after ms)
  accepted-StoredIn ck ms (result, e, attributed, there, unnamed) =
      found_model show cfg ck (errors_of result) (log_after ms) unnamed ms
        (Accounts-answered show cfg ms result (log_after ms) (
          subst (λ a. Accounts show cfg ms a (log_after ms)) e
            (bulk_write-Accounts show cfg db ms d log)))
        there

  -- A key of the band waits, or has a dead letter, when its band is flushed into the PostgreSQL
  -- sink; no other client settles it meanwhile. Then, whatever the contract and the database answer
  -- and whatever fails, afterwards the key still waits, has a dead letter, or the database accepted
  -- a statement that carries a model of the batch that has the key: its own raw update, or an
  -- insert with a row of the values of its map.
  pub flush_band-StoredIn :
      (r : Redis) (c : EngineConfig) (ck : Bytes) (contract : Contract (Value A)) (now : ℕ)
      (w : World r.State)
      → Kept r c.shield (Foreign ck) (IsHeld r c.shield ck) w
      → let band = band_for c.shield ck in
        let models = flush_models r c contract now band w in
        IsHeld r c.shield ck (flush_band r c contract sink_at now band w).world.redis
        ⊎ StoredIn show cfg ck models (log_after models)
  flush_band-StoredIn r c ck contract now w k =
      elim (flush_band-IsHeld r c ck contract sink_at now w k) [
        | inl held ↦ inl held
        | inr accepted ↦ inr (accepted-StoredIn ck _ accepted)
      ]
