-- ===== src/Shield/World/Keeps.antt =====
-- What traffic and every command keep, the round trips keep.
use sluice_go.Redis.{Redis}
use sluice_go.Shield.Calls.{Config}
use sluice_go.Shield.Traffic.{Action, act_all}
use sluice_go.Shield.World.{
  World, Turn, Fault, fine, refused, unanswered, unknown, Result, ok, err, Error, noscript,
  unavailable, Command, wait, wait_on, attempt, round_trip, pipeline, load, rerun, retry,
  eval_sha_pipelined, is_refused,
}
use sluice_go.Prelude.{Option, none, some, List, [], ◌∷◌, All, Bool-cases, inl, inr}

module _ (r : Redis) (c : Config) (Q : Action → Type 0) where
  open r use {State}

  abbrev pub TurnOf : Turn → Type 0
  TurnOf t = All Q t.traffic

  module _ (I : State → Type 0) where
    -- The invariant now, and only such traffic to come.
    pub record Kept (w : World State) : Type 0 where
      pub now : I w.redis
      pub later : All TurnOf w.turns

    abbrev pub Preserves : {A : Type 0} → Command r c A → Type 0
    Preserves cmd = (s : State) → I s → I (cmd s).1

  module _ (I : State → Type 0)
      (stable : (traffic : List Action) (s : State)
        → All Q traffic
        → I s
        → I (act_all r c traffic s)) where
    wait_on-Kept :
        (turns : List Turn) (s : State) → I s → All TurnOf turns → Kept I (wait_on r c turns s).1
    unfolding wait_on
    wait_on-Kept [] s h f = record { now = h; later = tt }
    wait_on-Kept (t ∷ rest) s h f = record { now = stable t.traffic s f.0 h; later = f.1 }

    pub wait-Kept : (w : World State) → Kept I w → Kept I (wait r c w).1
    unfolding wait
    wait-Kept w k = wait_on-Kept w.turns w.redis k.now k.later

    module _ {A : Type 0} where
      pub attempt-Kept :
          (f : Fault) (cmd : Command r c A) (w : World State)
          → Preserves I cmd
          → Kept I w
          → Kept I (attempt r c f cmd w).1
      unfolding attempt
      attempt-Kept fine cmd w p k = record { now = p w.redis k.now; later = k.later }
      attempt-Kept refused cmd w p k = k
      attempt-Kept unanswered cmd w p k = record { now = p w.redis k.now; later = k.later }
      attempt-Kept unknown cmd w p k = k

      pub round_trip-Kept :
          (cmd : Command r c A) (w : World State)
          → Preserves I cmd
          → Kept I w
          → Kept I (round_trip r c cmd w).1
      unfolding round_trip
      round_trip-Kept cmd w p k = attempt-Kept (wait r c w).0 cmd (wait r c w).1 p (wait-Kept w k)

      pub pipeline-Kept :
          (cmds : List (Command r c A)) (w : World State)
          → All (Preserves I {A = A}) cmds
          → Kept I w
          → Kept I (pipeline r c cmds w).1
      unfolding pipeline
      pipeline-Kept [] w p k = k
      pipeline-Kept (cmd ∷ cmds) w p k =
          let (f, w1) = wait r c w in
          let k1 : Kept I w1 = wait-Kept w k in
          elim (Bool-cases (is_refused f)) [
            | inl e ↦ rw (e, pipeline) k1
            | inr e ↦
                rw (e, pipeline)
                  (pipeline-Kept cmds (attempt r c f cmd w1).1 p.1 (attempt-Kept f cmd w1 p.0 k1))
          ]

    pub load-Kept : (w : World State) → Kept I w → Kept I (load r c w).1
    unfolding load
    load-Kept w k = round_trip-Kept (λ s. (tt, s)) w (λ s h. h) k

    module _ {A : Type 0} (cmds : List (Command r c A)) (p : All (Preserves I {A = A}) cmds) where
      rerun-Kept :
          (loaded : Result (Unit {0})) (w : World State)
          → Kept I w
          → Kept I (rerun r c cmds (loaded, w)).1
      unfolding rerun
      rerun-Kept (ok _) w k = pipeline-Kept cmds w p k
      rerun-Kept (err e) w k = k

      retry-Kept :
          (rs : List (Result A)) (w : World State) (e : Option Error)
          → Kept I w
          → Kept I (retry r c cmds rs w e).1
      unfolding retry
      retry-Kept rs w none k = k
      retry-Kept rs w (some unavailable) k = k
      retry-Kept rs w (some noscript) k = rerun-Kept (load r c w).0 (load r c w).1 (load-Kept w k)

      -- A pipeline of scripts that keep the invariant keeps it, through traffic, lost connections
      -- and the retry after NOSCRIPT.
      pub eval_sha_pipelined-Kept :
          (w : World State) → Kept I w → Kept I (eval_sha_pipelined r c cmds w).1
      unfolding eval_sha_pipelined
      eval_sha_pipelined-Kept w k =
          retry-Kept (pipeline r c cmds w).0 (pipeline r c cmds w).1 _ (pipeline-Kept cmds w p k)
