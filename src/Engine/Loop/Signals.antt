-- ===== src/Engine/Loop/Signals.antt =====
-- What a signal of engine.go comes to: it waits in the channel until the loop takes it.
use sluice_go.Redis.{Redis}
use sluice_go.Shield.World.{World, Result, ok, err}
use sluice_go.Shield.Reads.{oldest_dirty_score}
use sluice_go.Engine.Types.{EngineConfig, Contract}
use sluice_go.Engine.{flush_band}
use sluice_go.Engine.Loop.{
  Meeting, BandEvent, signalled, evicting, ticked, woken, stopped, BandState, signal_volume,
  flush_now, forces_flush, pre_evict, turn, run_band,
}
use sluice_go.Prelude.{
  ℕ, ◌≡◌, refl, sym, ap, ◌∙◌, subst, if◌then◌else◌, true, false, List, [], ◌∷◌, ◌++◌, All,
  Bool-cases, inl, inr,
}

module _ {V : Type 0} (r : Redis) (c : EngineConfig) (contract : Contract V) (band : ℕ) where
  open r use {State}

  -- Events in which the loop neither takes the signal nor stops.
  abbrev pub Deaf : BandEvent V → Type 0
  Deaf (woken m) = ⊥
  Deaf (stopped m) = ⊥
  Deaf e = Unit

  -- The band runs and has a token.
  abbrev pub IsSignalled : BandState State → Type 0
  IsSignalled s = (s.running ≡ true) × (s.pending ≡ true)

  evict-IsSignalled :
      (now : ℕ) (res : Result ℕ) (w : World State) (s : BandState State)
      → IsSignalled s
      → IsSignalled (pre_evict r c contract band now (res, w) s)
  unfolding pre_evict signal_volume
  evict-IsSignalled now (err e) w s h = h
  evict-IsSignalled now (ok oldest) w s h =
      elim (Bool-cases (forces_flush r c contract band now oldest)) [
        | inl e ↦ rw (e, pre_evict) (h.0, refl)
        | inr e ↦ rw (e, pre_evict) h
      ]

  turn-IsSignalled :
      (e : BandEvent V) (s : BandState State)
      → Deaf e
      → IsSignalled s
      → IsSignalled (turn r c contract band e s)
  unfolding turn signal_volume flush_now
  turn-IsSignalled signalled s d h = (h.0, refl)
  turn-IsSignalled (evicting now) s d h =
      let out = oldest_dirty_score r c.shield band s.world in evict-IsSignalled now out.0 out.1 s h
  turn-IsSignalled (ticked m) s d h = h
  turn-IsSignalled (woken m) s d h = absurd d
  turn-IsSignalled (stopped m) s d h = absurd d

  -- The reports of a flush stand at the end, behind those made before.
  abbrev pub FlushedLast : Meeting V → BandState State → BandState State → Type 0
  FlushedLast m before s =
      (s.world ≡ (flush_band r c contract m.sink m.now band before.world).world)
      × (s.reports
          ≡ before.reports ++ (flush_band r c contract m.sink m.now band before.world).reports)

  abbrev run : List (BandEvent V) → BandState State → BandState State
  run = run_band r c contract band

  run_on :
      (e : BandEvent V) (es : List (BandEvent V)) (s : BandState State)
      → s.running ≡ true
      → run (e ∷ es) s ≡ run es (turn r c contract band e s)
  unfolding run_band
  run_on e es s on = ap (λ b. if b then run es (turn r c contract band e s) else s) on

  run_off : (es : List (BandEvent V)) (s : BandState State) → s.running ≡ false → run es s ≡ s
  unfolding run_band
  run_off [] s off = refl
  run_off (e ∷ es) s off = ap (λ b. if b then run es (turn r c contract band e s) else s) off

  pub run_band-append :
      (xs ys : List (BandEvent V)) (s : BandState State) → run (xs ++ ys) s ≡ run ys (run xs s)
  run_band-append [] ys s = ap (run ys) (unfold run_band in refl)
  run_band-append (e ∷ xs) ys s = elim (Bool-cases s.running) [
    | inl on ↦
        run_on e (xs ++ ys) s on
        ∙ run_band-append xs ys (turn r c contract band e s)
        ∙ ap (run ys) (sym (run_on e xs s on))
    | inr off ↦
        run_off (e ∷ (xs ++ ys)) s off
        ∙ sym (run_off ys s off)
        ∙ ap (run ys) (sym (run_off (e ∷ xs) s off))
  ]

  run_band-IsSignalled :
      (es : List (BandEvent V)) (s : BandState State)
      → All Deaf es
      → IsSignalled s
      → IsSignalled (run es s)
  run_band-IsSignalled [] s d h = unfold run_band in h
  run_band-IsSignalled (e ∷ es) s d h =
      subst IsSignalled (sym (run_on e es s h.0))
        (run_band-IsSignalled es (turn r c contract band e s) d.1 (turn-IsSignalled e s d.0 h))

  taken :
      (m : Meeting V) (s : BandState State)
      → IsSignalled s
      → run (woken m ∷ []) s ≡ flush_now r c contract band m (record s { pending = false })
  unfolding turn
  taken m s h =
      run_on (woken m) [] s h.0
      ∙ unfold run_band in
        ap (λ b. if b then flush_now r c contract band m (record s { pending = false }) else s) h.1

  -- A band that runs is signalled, and whatever ticks, further signals and evictions come before
  -- the loop takes the signal: when it does, it flushes the band as it then is, and the token is
  -- gone, so that several signals make one flush.
  pub run_band-wakes :
      (es : List (BandEvent V)) (m : Meeting V) (s : BandState State)
      → All Deaf es
      → s.running ≡ true
      → let before = run_band r c contract band (signalled ∷ es) s in
        let after = run_band r c contract band (signalled ∷ (es ++ woken m ∷ [])) s in
        FlushedLast m before after × (after.pending ≡ false) × (after.running ≡ true)
  run_band-wakes es m s d on =
      let before = run (signalled ∷ es) s in
      let ready : IsSignalled before =
        subst IsSignalled (sym (run_on signalled es s on))
          (run_band-IsSignalled es _ d (unfold turn signal_volume in (on, refl))) in
      subst (λ after. FlushedLast m before after × (after.pending ≡ false) × (after.running ≡ true))
        (sym (run_band-append (signalled ∷ es) (woken m ∷ []) s ∙ taken m before ready))
        (unfold flush_now in ((refl, refl), refl, ready.0))
