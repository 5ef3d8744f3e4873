-- ===== src/Facade/Idempotent.antt =====
-- WriteIdempotent of sluice.go: SetNX of the idempotency key, then Write.
use sluice_go.Redis.{Redis}
use sluice_go.Redis.Keys.{HashKey}
use sluice_go.Shield.Calls.{band_for}
use sluice_go.Shield.Traffic.{act_all}
use sluice_go.Shield.World.{
  World, Turn, fine, refused, Result, ok, err, unavailable, round_trip, wait, wait_on, attempt,
}
use sluice_go.Shield.Reads.{run_script, after_evalsha, shield_write, map_result}
use sluice_go.Sink.{WriteModel}
use sluice_go.Engine.Types.{Contract}
use sluice_go.Facade.Types.{
  SluiceConfig, Wiring, Sluice, library_closed, missing_write_contract, missing_sink,
  empty_correlation_key, redis_unavailable, duplicate_idempotency_key, redis_error, Outcome, failed,
}
use sluice_go.Facade.Writes.{write, journal_write, after_write}
use sluice_go.Prelude.{
  ℕ, ◌≡◌, refl, Bool, true, false, Option, none, some, List, [], ◌∷◌, if◌then◌else◌, Bytes,
}

module _ {V : Type 0} (r : Redis) (c : SluiceConfig) (wires : Wiring V) where
  open r use {State, claimed, claim}

  -- `SetNX`, on the idempotency key in the band of the correlation key.
  unfoldable pub set_nx : Bytes → Bytes → World State → Result Bool × World State
  unfolding round_trip
  set_nx ck key =
      let band = band_for c.shield ck in
      round_trip r c.shield
        (λ s. if claimed s band key then (false, s) else (true, claim band key c.idempotency_ttl s))

  unfoldable pub after_claim :
      ℕ
      → ℕ
      → Bytes
      → Bytes
      → Result Bool × World State
      → Sluice State
      → Outcome (Unit {0}) × Sluice State
  unfolding write
  after_claim at ts ck body (err e, w) s = (failed (redis_error e), record s { world = w })
  after_claim at ts ck body (ok false, w) s =
      (failed duplicate_idempotency_key, record s { world = w })
  after_claim at ts ck body (ok true, w) s = write r c wires at ts ck body (record s { world = w })

  unfoldable pub idempotent_keys :
      ℕ → ℕ → Bytes → Bytes → Bytes → Sluice State → Outcome (Unit {0}) × Sluice State
  unfolding after_claim set_nx
  idempotent_keys at ts [] body key s = (failed empty_correlation_key, s)
  idempotent_keys at ts (x ∷ ck) body [] s = (failed empty_correlation_key, s)
  idempotent_keys at ts (x ∷ ck) body (y ∷ key) s =
      after_claim at ts (x ∷ ck) body (set_nx (x ∷ ck) (y ∷ key) s.world) s

  unfoldable pub idempotent_open :
      Option (Contract V)
      → Option (WriteModel V → Bool)
      → ℕ
      → ℕ
      → Bytes
      → Bytes
      → Bytes
      → Sluice State
      → Outcome (Unit {0}) × Sluice State
  unfolding idempotent_keys
  idempotent_open none sk at ts ck body key s = (failed missing_write_contract, s)
  idempotent_open (some contract) none at ts ck body key s = (failed missing_sink, s)
  idempotent_open (some contract) (some sk) at ts ck body key s =
      idempotent_keys at ts ck body key s

  -- `WriteIdempotent`
  unfoldable pub write_idempotent :
      ℕ → ℕ → Bytes → Bytes → Bytes → Sluice State → Outcome (Unit {0}) × Sluice State
  unfolding idempotent_open
  write_idempotent at ts ck body key s =
      if s.closed
      then (failed library_closed, s)
      else idempotent_open wires.write_contract wires.sink_write at ts ck body key s

  abbrev pub quiet : Turn
  quiet = record { traffic = []; fault = fine }

  abbrev pub down : Turn
  down = record { traffic = []; fault = refused }

  module _ (contract : Contract V) (sk : WriteModel V → Bool) (x y : ℕ) (ck key body : Bytes)
      (s : Sluice State) where
    abbrev pub band : ℕ
    band = band_for c.shield (x ∷ ck)

    -- An open Sluice in a world that begins with these turns.
    abbrev pub opened : State → List Turn → Sluice State
    opened t turns = record s { world = record { redis = t; turns = turns }; closed = false }

    module _ (has_contract : wires.write_contract ≡ some contract)
        (has_sink : wires.sink_write ≡ some sk) (plain : c.content_dedup ≡ false)
        (strict : c.degraded_mode_direct ≡ false) where
      write-down :
          (ts : ℕ) (t : State)
          → journal_write r c wires (x ∷ ck) body ts (record { redis = t; turns = down ∷ [] })
            ≡ (err unavailable, record { redis = t; turns = [] })
      unfolding journal_write shield_write run_script after_evalsha map_result round_trip wait
          wait_on attempt act_all
      write-down ts t = simp (plain, journal_write)

      after_write-down :
          (at : ℕ) (w : World State) (u : Sluice State)
          → after_write r c wires sk contract at (x ∷ ck) body (err unavailable, w) u
            ≡ (failed redis_unavailable, record u { world = w })
      unfolding after_write
      after_write-down at w u = simp (strict, after_write)

      first-fails :
          (at ts : ℕ) (t : State)
          → claimed t band (y ∷ key) ≡ false
          → write_idempotent at ts (x ∷ ck) body (y ∷ key) (opened t (quiet ∷ down ∷ []))
            ≡ (failed redis_unavailable, opened (claim band (y ∷ key) c.idempotency_ttl t) [])
      unfolding write_idempotent write round_trip wait wait_on attempt act_all
      first-fails at ts t free = simp (has_contract, has_sink, free, write-down, after_write-down)

      retry-fails :
          (at ts : ℕ) (t : State)
          → claimed t band (y ∷ key) ≡ true
          → write_idempotent at ts (x ∷ ck) body (y ∷ key) (opened t [])
            ≡ (failed duplicate_idempotency_key, opened t [])
      unfolding write_idempotent round_trip wait wait_on attempt act_all
      retry-fails at ts t taken = simp (has_contract, has_sink, taken)

      -- An open Sluice without deduplication and degraded mode, and an idempotency key that is not
      -- set. The first WriteIdempotent claims the key, then its write finds no connection, and it
      -- answers that Redis is unavailable. The caller's retry, with Redis back, answers that the key
      -- was already processed; and no hash of the journal holds anything that it did not hold before.
      pub write_idempotent-lost :
          (at ts at' ts' : ℕ) (t : State)
          → claimed t band (y ∷ key) ≡ false
          → let first =
              write_idempotent at ts (x ∷ ck) body (y ∷ key) (opened t (quiet ∷ down ∷ [])) in
            let second = write_idempotent at' ts' (x ∷ ck) body (y ∷ key) first.1 in
            (first.0 ≡ failed redis_unavailable)
            × (second.0 ≡ failed duplicate_idempotency_key)
            × ((j : HashKey) (g : Bytes) → r.hget second.1.world.redis j g ≡ r.hget t j g)
      write_idempotent-lost at ts at' ts' t free =
          let u : State = claim band (y ∷ key) c.idempotency_ttl t in
          let again = retry-fails at' ts' u (r.claimed-claim t band (y ∷ key) c.idempotency_ttl) in
          rw (first-fails at ts t free, again)
            (refl, refl, λ j g. r.hget-claim t band (y ∷ key) c.idempotency_ttl j g)
