-- ===== src/Engine/Loop/Held.antt =====
-- The loop of a band, seen from a key that waits when it starts.
use sluice_go.Redis.{Redis}
use sluice_go.Redis.Keys.{dirty}
use sluice_go.Shield.Calls.{band_for}
use sluice_go.Shield.Traffic.{Foreign}
use sluice_go.Shield.World.{World, Result, ok, err}
use sluice_go.Shield.World.Keeps.{Kept, round_trip-Kept}
use sluice_go.Shield.Reads.{first_score, oldest_dirty_score}
use sluice_go.Shield.Flush.Held.{IsHeld, IsHeld-IsSafe}
use sluice_go.Engine.Types.{EngineConfig, Contract}
use sluice_go.Engine.{flush_models}
use sluice_go.Engine.Durable.{Later}
use sluice_go.Engine.Flushed.{AcceptedOf, flush_band-Later}
use sluice_go.Engine.Loop.{
  Meeting, BandEvent, signalled, evicting, ticked, woken, stopped, BandState, signal_volume,
  flush_now, forces_flush, pre_evict, turn, run_band,
}
use sluice_go.Prelude.{
  ℕ, ◌≡◌, sym, subst, if◌then◌else◌, Bool, true, false, List, [], ◌∷◌, Bytes, Bool-cases, ◌⊎◌, inl,
  inr,
}

module _ {V : Type 0} (r : Redis) (c : EngineConfig) (contract : Contract V) (ck : Bytes) where
  open r use {State}

  abbrev band : ℕ
  band = band_for c.shield ck

  abbrev Waiting : World State → Type 0
  Waiting = Kept r c.shield (Foreign ck) (IsHeld r c.shield ck)

  -- The sink that a flush meets accepted the key's model.
  abbrev AcceptedBy : Meeting V → World State → Type 0
  AcceptedBy m w = AcceptedOf m.sink ck (flush_models r c contract m.now band w)

  -- The turn flushes the band, and its sink accepted the key's model.
  abbrev pub Accepts : BandEvent V → BandState State → Type 0
  Accepts signalled s = ⊥
  Accepts (evicting now) s = ⊥
  Accepts (ticked m) s = AcceptedBy m s.world
  Accepts (woken m) s = (s.pending ≡ true) × AcceptedBy m s.world
  Accepts (stopped m) s = AcceptedBy m s.world

  -- Some turn that the running loop takes does so.
  abbrev pub SomeAccepts : List (BandEvent V) → BandState State → Type 0
  SomeAccepts [] s = ⊥
  SomeAccepts (e ∷ es) s =
      (s.running ≡ true) × (Accepts e s ⊎ SomeAccepts es (turn r c contract band e s))

  Later-map : (w : World State) (E F : Type 0) → (E → F) → Later r c ck E w → Later r c ck F w
  Later-map w E F f k = record {
    now = elim k.now [ inl held ↦ inl held | inr e ↦ inr (f e) ];
    later = k.later;
  }

  first_kept : (w : World State) (E : Type 0) → Waiting w → Later r c ck E w
  first_kept w E k = record { now = inl k.now; later = k.later }

  pre_evict-Waiting :
      (now : ℕ) (res : Result ℕ) (w : World State) (s : BandState State)
      → Waiting w
      → Waiting (pre_evict r c contract band now (res, w) s).world
  unfolding pre_evict signal_volume
  pre_evict-Waiting now (err e) w s k = k
  pre_evict-Waiting now (ok oldest) w s k =
      elim (Bool-cases (forces_flush r c contract band now oldest)) [
        | inl e ↦ rw (e, pre_evict) k
        | inr e ↦ rw (e, pre_evict) k
      ]

  turn-Later :
      (e : BandEvent V) (s : BandState State)
      → Waiting s.world
      → Later r c ck (Accepts e s) (turn r c contract band e s).world
  unfolding turn flush_now signal_volume
  turn-Later signalled s k = first_kept s.world ⊥ k
  turn-Later (evicting now) s k =
      let out = oldest_dirty_score r c.shield band s.world in
      first_kept _ ⊥ (
        pre_evict-Waiting now out.0 out.1 s (
          unfold oldest_dirty_score in
          round_trip-Kept r c.shield (Foreign ck) (IsHeld r c.shield ck)
            (IsHeld-IsSafe r c.shield ck).stable
            (λ t. (first_score r c.shield (r.zrange t (dirty band) 1), t)) s.world (λ t h. h) k))
  turn-Later (ticked m) s k = flush_band-Later r c ck contract m.sink m.now s.world k
  turn-Later (woken m) s k =
      let next = flush_now r c contract band m (record s { pending = false }) in
      elim (Bool-cases s.pending) [
        | inl p ↦
            subst (λ b. Later r c ck (Accepts (woken m) s) (if b then next else s).world) (sym p)
              (Later-map next.world _ (Accepts (woken m) s) (λ a. (p, a))
                (flush_band-Later r c ck contract m.sink m.now s.world k))
        | inr p ↦
            subst (λ b. Later r c ck (Accepts (woken m) s) (if b then next else s).world) (sym p)
              (first_kept s.world (Accepts (woken m) s) k)
      ]
  turn-Later (stopped m) s k = flush_band-Later r c ck contract m.sink m.now s.world k

  -- A key of the band waits, or has a dead-letter entry, when the loop of its band starts; no other
  -- client commits or dead-letters the key meanwhile. Then, however ticks, signals, evictions and
  -- the stop fall, whatever each flush meets and whichever round trips fail, afterwards the key
  -- still waits, or has a dead-letter entry, or was a model in a flush of the running loop whose
  -- sink answered with every error attributed and none for the key.
  pub run_band-IsHeld :
      (es : List (BandEvent V)) (s : BandState State)
      → Waiting s.world
      → IsHeld r c.shield ck (run_band r c contract band es s).world.redis ⊎ SomeAccepts es s
  unfolding run_band
  run_band-IsHeld [] s k = inl k.now
  run_band-IsHeld (e ∷ es) s k =
      let next = turn r c contract band e s in
      let after : BandState State = run_band r c contract band es next in
      let taken = turn-Later e s k in
      let result = λ (b : Bool). IsHeld r c.shield ck (if b then after else s).world.redis in
      elim (Bool-cases s.running) [
        | inl on ↦ elim taken.now [
          | inl held ↦ elim (run_band-IsHeld es next (record { now = held; later = taken.later })) [
            | inl h ↦ inl (subst result (sym on) h)
            | inr a ↦ inr (on, inr a)
          ]
          | inr accepted ↦ inr (on, inl accepted)
        ]
        | inr off ↦ inl (subst result (sym off) k.now)
      ]
