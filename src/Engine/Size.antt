-- ===== src/Engine/Size.antt =====
-- How much one flush of engine.go takes on.
use sluice_go.Redis.{Redis}
use sluice_go.Redis.Keys.{dirty}
use sluice_go.Shield.World.{
  World, Fault, fine, refused, unanswered, unknown, Result, ok, err, Command, wait, attempt,
  round_trip, pipeline, first_error, is_refused, all_failed,
}
use sluice_go.Shield.Flush.{
  FlushRecord, read_member, answered, collect, read_members, drain_band, dirty_queue_depth,
}
use sluice_go.Sink.{WriteModel}
use sluice_go.Engine.Types.{EngineConfig, Contract, Run, Batch, no_batch}
use sluice_go.Engine.{accept_record, take_body, take_records, models_of, flush_models}
use sluice_go.Prelude.{
  ℕ, suc, ◌+◌, ◌≤◌, ◌≡◌, Option, none, some, List, [], ◌∷◌, map, length, length-append, Bytes,
  arith, Bool-cases, Option-cases, inl, inr,
}

length-map : {A B : Type 0} (f : A → B) (xs : List A) → length (map f xs) ≡ length xs
length-map f [] = omega arith
length-map f (x ∷ xs) = omega (arith, length-map f xs)

abbrev AtMost : ℕ → Result (List FlushRecord) → Type 0
AtMost n (ok records) = length records ≤ n
AtMost n (err e) = Unit

AtMost-le : (m n : ℕ) (o : Result (List FlushRecord)) → m ≤ n → AtMost m o → AtMost n o
AtMost-le m n (ok records) h k = omega arith
AtMost-le m n (err e) h k = tt

abbrev Listing : ℕ → Result (List (Bytes × ℕ)) → Type 0
Listing n (ok ms) = length ms ≤ n
Listing n (err e) = Unit

module _ (r : Redis) (c : EngineConfig) where
  open r use {State}

  length-all_failed :
      {A : Type 0} (cmds : List (Command r c.shield A))
      → length (all_failed r c.shield cmds) ≡ length cmds
  length-all_failed [] = omega arith
  length-all_failed (cmd ∷ cmds) = omega (arith, length-all_failed cmds)

  -- A pipeline has a result for each command.
  length-pipeline :
      {A : Type 0} (cmds : List (Command r c.shield A)) (w : World State)
      → length (pipeline r c.shield cmds w).0 ≡ length cmds
  unfolding pipeline
  length-pipeline [] w = omega arith
  length-pipeline (cmd ∷ cmds) w =
      let (f, w1) = wait r c.shield w in
      let w2 = (attempt r c.shield f cmd w1).1 in
      elim (Bool-cases (is_refused f)) [
        | inl e ↦ rw (e, pipeline) (omega (arith, length-all_failed cmds))
        | inr e ↦ rw (e, pipeline) (omega (arith, length-pipeline cmds w2))
      ]

  length-answered :
      {A : Type 0} (rs : List (Result A)) → length (answered r c.shield rs) ≤ length rs
  length-answered [] = omega arith
  length-answered (ok a ∷ rs) = omega (arith, length-answered rs)
  length-answered (err e ∷ rs) = omega (arith, length-answered rs)

  collect-AtMost :
      (rs : List (Result FlushRecord)) (w : World State)
      → AtMost (length rs) (collect r c.shield (rs, w)).0
  unfolding collect
  collect-AtMost rs w = elim (Option-cases (first_error rs)) [
    | inl e ↦ rw (e, collect) (length-answered rs)
    | inr (x, e) ↦ rw (e, collect) tt
  ]

  read_members-AtMost :
      (now band n : ℕ) (listed : Result (List (Bytes × ℕ))) (w : World State)
      → Listing n listed
      → AtMost n (read_members r c.shield now band (listed, w)).0
  unfolding read_members
  read_members-AtMost now band n (err e) w h = tt
  read_members-AtMost now band n (ok []) w h = h
  read_members-AtMost now band n (ok (m ∷ ms)) w h =
      let cmds = map (read_member r c.shield now band) (m ∷ ms) in
      AtMost-le (length (pipeline r c.shield cmds w).0) n _
        (omega
          (arith, h, length-pipeline cmds w, length-map (read_member r c.shield now band) (m ∷ ms)))
        (collect-AtMost (pipeline r c.shield cmds w).0 (pipeline r c.shield cmds w).1)

  attempt-Listing :
      (band n : ℕ) (f : Fault) (w : World State)
      → Listing n (attempt r c.shield f (λ s. (r.zrange s (dirty band) n, s)) w).0
  unfolding attempt
  attempt-Listing band n fine w = r.length-zrange-le w.redis (dirty band) n
  attempt-Listing band n refused w = tt
  attempt-Listing band n unanswered w = tt
  attempt-Listing band n unknown w = tt

  drain_band-AtMost :
      (now band n : ℕ) (w : World State) → AtMost n (drain_band r c.shield now band n w).0
  unfolding drain_band round_trip
  drain_band-AtMost now band n w =
      let waited = wait r c.shield w in
      read_members-AtMost now band n _ _ (attempt-Listing band n waited.0 waited.1)

  module _ {V : Type 0} where
    accept-models :
        (rec : FlushRecord) (o : Option (WriteModel V)) (now band : ℕ) (p : Batch V × Run State)
        → length (accept_record r c rec o now band p).0.models ≤ suc (length p.0.models)
    unfolding accept_record
    accept-models rec none now band (batch, run) = omega arith
    accept-models rec (some wm) now band (batch, run) =
        omega (arith, length-append batch.models (_ ∷ []))

    body-models :
        (contract : Contract V) (rec : FlushRecord) (o : Option Bytes) (now band : ℕ)
        (p : Batch V × Run State)
        → length (take_body r c contract rec o now band p).0.models ≤ suc (length p.0.models)
    unfolding take_body
    body-models contract rec none now band (batch, run) = omega arith
    body-models contract rec (some body) now band p =
        accept-models rec (contract rec.correlation_key body) now band p

    take_records-models :
        (contract : Contract V) (now band : ℕ) (records : List FlushRecord)
        (p : Batch V × Run State)
        → length (take_records r c contract now band records p).0.models
          ≤ length records + length p.0.models
    unfolding take_records
    take_records-models contract now band [] p = omega arith
    take_records-models contract now band (rec ∷ rest) p = omega (
      arith,
      body-models contract rec rec.body now band p,
      take_records-models contract now band rest (take_body r c contract rec rec.body now band p),
    )

    models_of-le :
        (contract : Contract V) (now band n : ℕ) (o : Result (List FlushRecord)) (w : World State)
        → AtMost n o
        → length (models_of r c contract now band (o, w)) ≤ n
    unfolding models_of
    models_of-le contract now band n (err e) w h = omega arith
    models_of-le contract now band n (ok records) w h =
        omega (arith, h, take_records-models contract now band records (no_batch, _))

    -- Whatever the dirty set holds, whatever the contract answers and whatever goes on meanwhile, one
    -- flush hands the sink at most MaxBatchSize models: also the one flush that each band makes when
    -- DrainAndStop stops it.
    pub flush_models-le :
        (contract : Contract V) (now band : ℕ) (w : World State)
        → length (flush_models r c contract now band w) ≤ c.max_batch_size
    unfolding flush_models
    flush_models-le contract now band w =
        let w1 = (dirty_queue_depth r c.shield band w).1 in
        models_of-le contract now band c.max_batch_size _ _
          (drain_band-AtMost now band c.max_batch_size w1)
