-- ===== src/Facade/Degraded.antt =====
-- The degraded write and the versions that wait in Redis: degradedWrite with HasPendingVersion.
use sluice_go.Redis.{Redis}
use sluice_go.Redis.Keys.{ZKey, dirty, dlq}
use sluice_go.Shield.Calls.{Config, band_for}
use sluice_go.Shield.Pending.{is_some}
use sluice_go.Shield.Traffic.{Action, act_all, Foreign}
use sluice_go.Shield.World.{
  World, Fault, fine, refused, unanswered, unknown, Result, ok, err, Error, Command, pipeline, wait,
  attempt, first_error, is_refused,
}
use sluice_go.Shield.World.Keeps.{Kept, wait-Kept, attempt-Kept}
use sluice_go.Shield.Flush.{collect, answered}
use sluice_go.Shield.Flush.Held.{IsHeld, IsHeld-IsSafe}
use sluice_go.Shield.Traffic.Dead.{InDlq, act_all-InDlq}
use sluice_go.Shield.DeadLetters.{has_pending_version, score_reads, pending_answer, any_score}
use sluice_go.Sink.{WriteModel}
use sluice_go.Engine.Types.{Contract}
use sluice_go.Facade.{unsafe, degraded_write, after_probe}
use sluice_go.Prelude.{
  ℕ, ◌≡◌, refl, Bool, true, false, Option, none, some, List, [], ◌∷◌, Bytes, arith, inl, inr, ◌⊎◌,
  Option-cases, Bool-cases, All,
}

-- An answer that does not rule out a pending version.
abbrev pub Cautious : Result Bool → Type 0
Cautious (ok b) = b ≡ true
Cautious (err e) = Unit

module _ (r : Redis) (c : Config) (ck : Bytes) where
  open r use {State, zscore}

  abbrev score_read : ZKey → Command r c (Option ℕ)
  score_read z s = (zscore s z ck, s)

  abbrev Entered : State → Type 0
  Entered = InDlq r (band_for c ck) ck c

  -- Scores of which, when no command failed, one is there.
  abbrev Telling : List (Result (Option ℕ)) → Type 0
  Telling rs = first_error rs ≡ none → any_score r c (answered r c rs) ≡ true

  attempt-Telling :
      (f : Fault) (z : ZKey) (w : World State) (rest : List (Result (Option ℕ)))
      → (is_some (zscore w.redis z ck) ≡ true) ⊎ Telling rest
      → Telling ((attempt r c f (score_read z) w).0 ∷ rest)
  unfolding attempt any_score
  attempt-Telling fine z w rest (inl there) h = ground (arith, there)
  attempt-Telling fine z w rest (inr t) h = ground (arith, t h)
  attempt-Telling refused z w rest t h = ground (arith, h)
  attempt-Telling unanswered z w rest t h = ground (arith, h)
  attempt-Telling unknown z w rest t h = ground (arith, h)

  Entered-stable :
      (traffic : List Action) (s : State)
      → All (Foreign ck) traffic
      → Entered s
      → Entered (act_all r c traffic s)
  Entered-stable traffic s f h = act_all-InDlq r (band_for c ck) ck c traffic s f h

  dlq_read-Telling :
      (w : World State)
      → Kept r c (Foreign ck) Entered w
      → Telling (pipeline r c (score_read (dlq (band_for c ck)) ∷ []) w).0
  unfolding pipeline
  dlq_read-Telling w k =
      let (f, w1) = wait r c w in
      let k1 : Kept r c (Foreign ck) Entered w1 =
        wait-Kept r c (Foreign ck) Entered Entered-stable w k in
      elim (Bool-cases (is_refused f)) [
        | inl e ↦ rw (e, pipeline) (λ h. ground (arith, h))
        | inr e ↦ rw (e, pipeline) (attempt-Telling f (dlq (band_for c ck)) w1 [] (inl k1.now))
      ]

  reads-Telling :
      (w : World State)
      → Kept r c (Foreign ck) (IsHeld r c ck) w
      → Telling (pipeline r c (score_reads r c ck) w).0
  unfolding pipeline
  reads-Telling w k =
      let (f, w1) = wait r c w in
      let k1 : Kept r c (Foreign ck) (IsHeld r c ck) w1 =
        wait-Kept r c (Foreign ck) (IsHeld r c ck) (IsHeld-IsSafe r c ck).stable w k in
      let z : ZKey = dirty (band_for c ck) in
      let after_read : World State = (attempt r c f (score_read z) w1).1 in
      elim (Bool-cases (is_refused f)) [
        | inl e ↦ rw (e, pipeline) (λ h. ground (arith, h))
        | inr e ↦
            rw (e, pipeline)
              (attempt-Telling f z w1 _ (elim k1.now [
                | inl queued ↦ inl queued.2.queued
                | inr entered ↦ inr (
                    dlq_read-Telling after_read (
                      attempt-Kept r c (Foreign ck) Entered Entered-stable f (score_read z) w1
                        (λ s h. h) (record { now = entered; later = k1.later })))
              ]))
      ]

  answer-Cautious :
      (rs : List (Result (Option ℕ))) (w : World State)
      → Telling rs
      → Cautious (pending_answer r c (collect r c (rs, w))).0
  unfolding pending_answer collect
  answer-Cautious rs w t = elim (Option-cases (first_error rs)) [
    | inl e ↦ rw (e, collect) (t e)
    | inr (x, e) ↦ rw (e, collect) tt
  ]

  has_pending_version-Cautious :
      (w : World State)
      → Kept r c (Foreign ck) (IsHeld r c ck) w
      → Cautious (has_pending_version r c ck w).0
  unfolding has_pending_version
  has_pending_version-Cautious w k =
      answer-Cautious (pipeline r c (score_reads r c ck) w).0
        (pipeline r c (score_reads r c ck) w).1 (reads-Telling w k)

  module _ {V : Type 0} (contract : Contract V) (write : WriteModel V → Bool) (body : Bytes) where
    refuses :
        (o : Result Bool)
        → Cautious o
        → (e : Option Error) × (after_probe contract write ck body o ≡ unsafe e)
    unfolding after_probe
    refuses (err e) h = (some e, refl)
    refuses (ok true) h = (none, refl)
    refuses (ok false) h = ground (arith, h)

    -- A key waits for its flush or has a dead-letter entry, and no other client commits or
    -- dead-letters it meanwhile. Then a degraded write of the key is refused as unsafe, before the
    -- contract and the sink are called, whatever other traffic comes between the two reads and
    -- whichever of them fail.
    pub degraded_write-refuses :
        (w : World State)
        → Kept r c (Foreign ck) (IsHeld r c ck) w
        → (e : Option Error) × ((degraded_write contract write ck r c body w).0 ≡ unsafe e)
    unfolding degraded_write
    degraded_write-refuses w k = refuses _ (has_pending_version-Cautious w k)
