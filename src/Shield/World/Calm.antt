-- ===== src/Shield/World/Calm.antt =====
-- Round trips in a world where nothing fails and no one else acts: a pipeline runs its commands
-- one after the other, and every one of them answers.
use sluice_go.Redis.{Redis}
use sluice_go.Shield.Calls.{Config}
use sluice_go.Shield.World.{
  World, Result, ok, Command, wait, wait_on, attempt, pipeline, first_error, retry,
  eval_sha_pipelined,
}
use sluice_go.Shield.World.Keeps.{Preserves}
use sluice_go.Shield.Traffic.{Action}
use sluice_go.Prelude.{◌≡◌, refl, sym, subst, none, List, [], ◌∷◌, All}

abbrev pub calm : {S : Type 0} → S → World S
calm s = record { redis = s; turns = [] }

-- A calm world, in a state of which I holds.
abbrev pub CalmAt : {S : Type 0} → (S → Type 0) → World S → Type 0
CalmAt {S} I w = (s : S) × (w ≡ calm s) × I s

-- What takes calm worlds to calm worlds.
pub CalmAt-map :
    {S : Type 0} (I J : S → Type 0) (f : World S → World S) (g : S → S)
    → ((s : S) → f (calm s) ≡ calm (g s))
    → ((s : S) → I s → J (g s))
    → (w : World S) → CalmAt I w
    → CalmAt J (f w)
CalmAt-map I J f g e k w (s, at, h) = subst (λ w. CalmAt J (f w)) (sym at) (g s, e s, k s h)

module _ (r : Redis) (c : Config) where
  open r use {State}

  module _ {A : Type 0} where
    -- The commands, one after the other: the state and the answers.
    abbrev pub run_all : List (Command r c A) → State → State
    run_all [] s = s
    run_all (cmd ∷ cmds) s = run_all cmds (cmd s).1

    abbrev pub answers_of : List (Command r c A) → State → List (Result A)
    answers_of [] s = []
    answers_of (cmd ∷ cmds) s = ok (cmd s).0 ∷ answers_of cmds (cmd s).1

    pub pipeline-calm :
        (cmds : List (Command r c A)) (s : State)
        → pipeline r c cmds (calm s) ≡ (answers_of cmds s, calm (run_all cmds s))
    unfolding pipeline wait wait_on attempt
    pipeline-calm [] s = refl
    pipeline-calm (cmd ∷ cmds) s = rw (pipeline-calm cmds (cmd s).1) refl

    pub first_error-answers_of :
        (cmds : List (Command r c A)) (s : State) → first_error (answers_of cmds s) ≡ none
    first_error-answers_of [] s = refl
    first_error-answers_of (cmd ∷ cmds) s = first_error-answers_of cmds (cmd s).1

    pub eval_sha_pipelined-calm :
        (cmds : List (Command r c A)) (s : State)
        → eval_sha_pipelined r c cmds (calm s) ≡ (ok (answers_of cmds s), calm (run_all cmds s))
    unfolding eval_sha_pipelined retry
    eval_sha_pipelined-calm cmds s = rw (pipeline-calm cmds s, first_error-answers_of cmds s) refl

    pub run_all-Preserves :
        (Q : Action → Type 0) (I : State → Type 0) (cmds : List (Command r c A))
        → All (Preserves r c Q I {A = A}) cmds
        → (s : State) → I s
        → I (run_all cmds s)
    run_all-Preserves Q I [] p s h = h
    run_all-Preserves Q I (cmd ∷ cmds) p s h = run_all-Preserves Q I cmds p.1 (cmd s).1 (p.0 s h)
