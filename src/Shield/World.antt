-- ===== src/Shield/World.antt =====
-- Round trips to Redis. Before each command other clients act, and the command may fail: the list
-- of turns says how. Connection errors come with or without the command's effect, and a script
-- may be unknown to the server (NOSCRIPT) until it is loaded.
pub mod Keeps
pub mod Ran
pub mod Calm
use sluice_go.Redis.{Redis}
use sluice_go.Shield.Calls.{Config}
use sluice_go.Shield.Traffic.{Action, act_all}
use sluice_go.Prelude.{Option, none, some, List, [], ◌∷◌, Bool, true, false}

pub data Error : Type 0 where
  noscript unavailable : Error

pub data Result {ℓ} (A : Type ℓ) : Type ℓ where
  ok : A → Result A
  err : Error → Result A

-- fine: executed and answered; refused: neither this command nor those behind it in the pipeline
-- are executed; unanswered: executed, and the answer is lost; unknown: NOSCRIPT, not executed.
pub data Fault : Type 0 where
  fine refused unanswered unknown : Fault

pub record Turn : Type 0 where
  pub traffic : List Action
  pub fault : Fault

pub record World (S : Type 0) : Type 0 where
  pub redis : S
  pub turns : List Turn

abbrev pub is_refused : Fault → Bool
is_refused refused = true
is_refused f = false

-- What `pipe.Exec` returns: the first error.
abbrev pub first_error : {A : Type 0} → List (Result A) → Option Error
first_error [] = none
first_error (ok a ∷ rest) = first_error rest
first_error (err e ∷ rest) = some e

abbrev pub answers : {A : Type 0} → List (Result A) → Result (List (Result A))
answers rs = elim (first_error rs) [ none ↦ ok rs | some e ↦ err e ]

module _ (r : Redis) (c : Config) where
  open r use {State}

  abbrev pub Command : Type 0 → Type 0
  Command A = State → A × State

  -- The traffic of a turn. When the list is at its end, nothing more happens.
  unfoldable pub wait_on : List Turn → State → Fault × World State
  wait_on [] s = (fine, record { redis = s; turns = [] })
  wait_on (t ∷ rest) s = (t.fault, record { redis = act_all r c t.traffic s; turns = rest })

  unfoldable pub wait : World State → Fault × World State
  unfolding wait_on
  wait w = wait_on w.turns w.redis

  abbrev with_redis : {A : Type 0} → A × State → World State → Result A × World State
  with_redis (a, s) w = (ok a, record w { redis = s })

  abbrev without_answer : {A : Type 0} → A × State → World State → Result A × World State
  without_answer (a, s) w = (err unavailable, record w { redis = s })

  unfoldable pub attempt : {A : Type 0} → Fault → Command A → World State → Result A × World State
  attempt fine cmd w = with_redis (cmd w.redis) w
  attempt refused cmd w = (err unavailable, w)
  attempt unanswered cmd w = without_answer (cmd w.redis) w
  attempt unknown cmd w = (err noscript, w)

  -- One command on its own.
  unfoldable pub round_trip : {A : Type 0} → Command A → World State → Result A × World State
  unfolding wait attempt
  round_trip cmd w = let (f, w') = wait w in attempt f cmd w'

  abbrev pub all_failed : {A : Type 0} → List (Command A) → List (Result A)
  all_failed [] = []
  all_failed (cmd ∷ cmds) = err unavailable ∷ all_failed cmds

  -- A pipeline: every command has its own turn and its own result.
  unfoldable pub pipeline :
      {A : Type 0} → List (Command A) → World State → List (Result A) × World State
  unfolding wait attempt
  pipeline [] w = ([], w)
  pipeline (cmd ∷ cmds) w =
      let (f, w1) = wait w in
      let (x, w2) = attempt f cmd w1 in
      let rest = pipeline cmds w2 in
      elim (is_refused f) [
        | true ↦ (err unavailable ∷ all_failed cmds, w1)
        | false ↦ (x ∷ rest.0, rest.1)
      ]

  -- `script.Load`: it changes no data.
  unfoldable pub load : World State → Result (Unit {0}) × World State
  unfolding round_trip
  load = round_trip (λ s. (tt, s))

  unfoldable pub rerun :
      {A : Type 0}
      → List (Command A)
      → Result (Unit {0}) × World State
      → Result (List (Result A)) × World State
  unfolding pipeline
  rerun cmds (ok _, w) = let (rs, w') = pipeline cmds w in (answers rs, w')
  rerun cmds (err e, w) = (err e, w)

  -- After NOSCRIPT the script is loaded and the whole pipeline run again, once.
  unfoldable pub retry :
      {A : Type 0}
      → List (Command A)
      → List (Result A)
      → World State
      → Option Error
      → Result (List (Result A)) × World State
  unfolding rerun load
  retry cmds rs w none = (ok rs, w)
  retry cmds rs w (some unavailable) = (err unavailable, w)
  retry cmds rs w (some noscript) = rerun cmds (load w)

  unfoldable pub eval_sha_pipelined :
      {A : Type 0} → List (Command A) → World State → Result (List (Result A)) × World State
  unfolding pipeline retry
  eval_sha_pipelined cmds w = let (rs, w') = pipeline cmds w in retry cmds rs w' (first_error rs)
