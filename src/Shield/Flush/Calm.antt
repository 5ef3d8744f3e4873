-- ===== src/Shield/Flush/Calm.antt =====
-- What the drain of a band and the other pipelines of shield.go answer in a calm world.
use sluice_go.Redis.{Redis}
use sluice_go.Redis.Keys.{dirty}
use sluice_go.Shield.Calls.{Config}
use sluice_go.Shield.World.{ok, Command, wait, wait_on, attempt, round_trip, pipeline}
use sluice_go.Shield.World.Calm.{calm, run_all, answers_of, pipeline-calm, first_error-answers_of}
use sluice_go.Shield.Flush.{
  FlushRecord, read_member, answered, collect, read_members, drain_band, dirty_queue_depth,
}
use sluice_go.Prelude.{ℕ, ◌≡◌, refl, ap, ◌∙◌, List, [], ◌∷◌, map, Bytes}

module _ (r : Redis) (c : Config) where
  open r use {State}

  pub collect-calm :
      {A : Type 0} (cmds : List (Command r c A)) (s : State)
      → collect r c (pipeline r c cmds (calm s))
        ≡ (ok (answered r c (answers_of r c cmds s)), calm (run_all r c cmds s))
  unfolding collect
  collect-calm cmds s =
      ap (collect r c) (pipeline-calm r c cmds s)
      ∙ rw (first_error-answers_of r c cmds s, collect) refl

  module _ (now band : ℕ) where
    -- The record of a member, read from a state that no one else changes.
    abbrev pub record_of : State → Bytes × ℕ → FlushRecord
    record_of s m = (read_member r c now band m s).0

    reads-answered :
        (ms : List (Bytes × ℕ)) (s : State)
        → (answered r c (answers_of r c (map (read_member r c now band) ms) s)
            ≡ map (record_of s) ms)
          × (run_all r c (map (read_member r c now band) ms) s ≡ s)
    unfolding read_member
    reads-answered [] s = (refl, refl)
    reads-answered ((k, score) ∷ ms) s =
        let rest = reads-answered ms s in (ap (λ z. record_of s (k, score) ∷ z) rest.0, rest.1)

    read_members-calm :
        (ms : List (Bytes × ℕ)) (s : State)
        → read_members r c now band (ok ms, calm s) ≡ (ok (map (record_of s) ms), calm s)
    unfolding read_members
    read_members-calm [] s = refl
    read_members-calm (m ∷ ms) s =
        let reads = reads-answered (m ∷ ms) s in
        collect-calm (map (read_member r c now band) (m ∷ ms)) s
        ∙ ap (λ z. (ok z, calm (run_all r c (map (read_member r c now band) (m ∷ ms)) s))) reads.0
        ∙ ap (λ t. (ok (map (record_of s) (m ∷ ms)), calm t)) reads.1

    -- A drain in a calm world answers a record for every member that is listed.
    pub drain_band-calm :
        (max_batch : ℕ) (s : State)
        → drain_band r c now band max_batch (calm s)
          ≡ (ok (map (record_of s) (r.zrange s (dirty band) max_batch)), calm s)
    unfolding drain_band round_trip wait wait_on attempt
    drain_band-calm max_batch s = read_members-calm (r.zrange s (dirty band) max_batch) s

    pub dirty_queue_depth-calm : (s : State) → (dirty_queue_depth r c band (calm s)).1 ≡ calm s
    unfolding dirty_queue_depth round_trip wait wait_on attempt
    dirty_queue_depth-calm s = refl
