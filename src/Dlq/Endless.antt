-- ===== src/Dlq/Endless.antt =====
-- processBand of internal/dlq/dlq.go on a batch of dead letters whose contract fails.
use sluice_go.Redis.{Redis}
use sluice_go.Shield.Calls.{Config}
use sluice_go.Shield.World.{World, ok}
use sluice_go.Shield.Flush.{FlushRecord}
use sluice_go.Shield.DeadLetters.{drain_dlq}
use sluice_go.Shield.Scripts.{or_empty}
use sluice_go.Engine.Types.{Contract}
use sluice_go.Dlq.{upsert, cancelled, Totals, Outcome, upsert_models, upsert_batch, handle_upsert}
use sluice_go.Dlq.Run.{Processor, handle, turn, go_on, process_band}
use sluice_go.Prelude.{
  ℕ, zero, suc, ◌+◌, ◌*◌, ◌≡◌, refl, subst, sym, ◌∙◌, none, some, List, [], ◌∷◌, length, All, arith,
}

-- The contract fails on every record.
abbrev pub Refused : {V : Type 0} → Contract V → List FlushRecord → Type 0
Refused contract = All λ rec. contract rec.correlation_key (or_empty rec.body) ≡ none

module _ {V : Type 0} (r : Redis) (c : Config) (p : Processor V) (now band : ℕ) where
  open r use {State}

  no_models :
      (records : List FlushRecord)
      → Refused p.contract records
      → upsert_models p.contract records ≡ []
  unfolding upsert_models
  no_models [] h = refl
  no_models (rec ∷ rest) h = rw (h.0) (no_models rest h.1)

  handle_upsert-Refused :
      (records : List FlushRecord) (total : Totals) (w : World State)
      → Refused p.contract records
      → let out = handle_upsert r c p.contract p.sink band records total w in
        (out.failure ≡ none)
        × (out.world ≡ w)
        × (out.totals.failures ≡ total.failures + length records)
        × (out.totals.succeeded ≡ total.succeeded)
  unfolding handle_upsert upsert_batch
  handle_upsert-Refused records total w h =
      rw (no_models records h) (refl, refl, omega arith, omega arith)

  -- Cancelled in that world, with so many failures added to the totals and no success.
  abbrev pub Cancelled : World State → ℕ → Totals → Outcome State → Type 0
  Cancelled w n total out =
      (out.failure ≡ some cancelled)
      × (out.world ≡ w)
      × (out.totals.failures ≡ total.failures + n)
      × (out.totals.succeeded ≡ total.succeeded)

  -- The strategy is Upsert, a drain of the band gives at least one record and changes nothing, and
  -- the contract fails on every record it gives. Then however long the context lives, processBand
  -- ends only because it is cancelled, in the world that it started in, and has counted every record
  -- once more as a failure in each turn.
  pub process_band-Cancelled :
      (rec : FlushRecord) (recs : List FlushRecord) (w : World State)
      → p.strategy ≡ upsert
      → drain_dlq r c now band p.max_batch_size w ≡ (ok (rec ∷ recs), w)
      → Refused p.contract (rec ∷ recs)
      → (budget : ℕ) (total : Totals)
      → Cancelled w
          (budget * length (rec ∷ recs))
          total
          (process_band r c p now budget band total w)
  unfolding process_band turn go_on handle
  process_band-Cancelled rec recs w s d h zero total = (refl, refl, omega arith, refl)
  process_band-Cancelled rec recs w s d h (suc budget) total =
      let out = handle_upsert r c p.contract p.sink band (rec ∷ recs) total w in
      let same = handle_upsert-Refused (rec ∷ recs) total w h in
      let rest = process_band-Cancelled rec recs w s d h budget out.totals in
      rw (d, s, same.0)
        (subst
          (λ x.
            Cancelled w (suc budget * length (rec ∷ recs)) total
              (process_band r c p now budget band out.totals x))
          (sym same.1) (rest.0, rest.1, rest.2 ∙ grind (arith, same.2), rest.3 ∙ same.3))
