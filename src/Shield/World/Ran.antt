-- ===== src/Shield/World/Ran.antt =====
-- A pipeline that answers without an error has run each of its commands once, in order.
use sluice_go.Redis.{Redis}
use sluice_go.Shield.Calls.{Config}
use sluice_go.Shield.Traffic.{Action, act_all}
use sluice_go.Shield.World.{
  World, Fault, fine, refused, unanswered, unknown, Result, ok, err, Error, noscript, unavailable,
  Command, wait, attempt, pipeline, rerun, retry, eval_sha_pipelined, first_error, is_refused,
}
use sluice_go.Shield.World.Keeps.{
  Kept, Preserves, wait-Kept, attempt-Kept, pipeline-Kept, load-Kept,
}
use sluice_go.Shield.Flush.{answered}
use sluice_go.Prelude.{
  ◌≡◌, refl, sym, subst, Option, none, some, Option-cases, List, [], ◌∷◌, All, Bool-cases, inl, inr,
}

module _ (r : Redis) (c : Config) (Q : Action → Type 0) (I : r.State → Type 0)
    (stable : (traffic : List Action) (s : r.State)
      → All Q traffic
      → I s
      → I (act_all r c traffic s))
    {A : Type 0} where
  open r use {State}

  -- Each answer is that of its command, in a state where the invariant holds.
  abbrev pub AllRan : List (Command r c A) → List A → Type 0
  AllRan [] [] = Unit
  AllRan (cmd ∷ cmds) (a ∷ rest) = ((s : State) × I s × ((cmd s).0 ≡ a)) × AllRan cmds rest
  AllRan _ _ = ⊥

  attempt-AllRan :
      (f : Fault) (cmd : Command r c A) (cmds : List (Command r c A)) (w : World State)
      (rest : List (Result A))
      → I w.redis
      → (first_error rest ≡ none → AllRan cmds (answered r c rest))
      → first_error ((attempt r c f cmd w).0 ∷ rest) ≡ none
      → AllRan (cmd ∷ cmds) (answered r c ((attempt r c f cmd w).0 ∷ rest))
  unfolding attempt
  attempt-AllRan fine cmd cmds w rest i ih h = ((w.redis, i, refl), ih h)
  attempt-AllRan refused cmd cmds w rest i ih h = cc
  attempt-AllRan unanswered cmd cmds w rest i ih h = cc
  attempt-AllRan unknown cmd cmds w rest i ih h = cc

  pub pipeline-AllRan :
      (cmds : List (Command r c A)) (w : World State)
      → All (Preserves r c Q I {A = A}) cmds
      → Kept r c Q I w
      → first_error (pipeline r c cmds w).0 ≡ none
      → AllRan cmds (answered r c (pipeline r c cmds w).0)
  unfolding pipeline
  pipeline-AllRan [] w p k = λ h. tt
  pipeline-AllRan (cmd ∷ cmds) w p k =
      let (f, w1) = wait r c w in
      let k1 : Kept r c Q I w1 = wait-Kept r c Q I stable w k in
      elim (Bool-cases (is_refused f)) [
        | inl e ↦ rw (e, pipeline) (λ h. cc)
        | inr e ↦
            rw (e, pipeline)
              (attempt-AllRan f cmd cmds w1 _ k1.now (
                pipeline-AllRan cmds (attempt r c f cmd w1).1 p.1
                  (attempt-Kept r c Q I stable f cmd w1 p.0 k1)))
      ]

  -- The first answer, where there is one, is that of the first command.
  abbrev pub FirstRan : Command r c A → List (Result A) → Type 0
  FirstRan cmd [] = Unit
  FirstRan cmd (ok a ∷ rest) = (s : State) × I s × ((cmd s).0 ≡ a)
  FirstRan cmd (err e ∷ rest) = Unit

  attempt-FirstRan :
      (f : Fault) (cmd : Command r c A) (w : World State) (rest : List (Result A))
      → I w.redis
      → FirstRan cmd ((attempt r c f cmd w).0 ∷ rest)
  unfolding attempt
  attempt-FirstRan fine cmd w rest i = (w.redis, i, refl)
  attempt-FirstRan refused cmd w rest i = tt
  attempt-FirstRan unanswered cmd w rest i = tt
  attempt-FirstRan unknown cmd w rest i = tt

  pub pipeline-FirstRan :
      (cmd : Command r c A) (cmds : List (Command r c A)) (w : World State)
      → Kept r c Q I w
      → FirstRan cmd (pipeline r c (cmd ∷ cmds) w).0
  unfolding pipeline
  pipeline-FirstRan cmd cmds w k =
      let (f, w1) = wait r c w in
      let k1 : Kept r c Q I w1 = wait-Kept r c Q I stable w k in
      elim (Bool-cases (is_refused f)) [
        | inl e ↦ rw (e, pipeline) tt
        | inr e ↦ rw (e, pipeline) (attempt-FirstRan f cmd w1 _ k1.now)
      ]

  -- What eval_sha_pipelined answers for a pipeline, which is then the one that ran to its end.
  abbrev pub RanIf : List (Command r c A) → Result (List (Result A)) → Type 0
  RanIf cmds (ok rs) = AllRan cmds (answered r c rs)
  RanIf cmds (err e) = Unit

  rerun-RanIf :
      (cmds : List (Command r c A)) (o : Result (Unit {0})) (w : World State)
      → All (Preserves r c Q I {A = A}) cmds
      → Kept r c Q I w
      → RanIf cmds (rerun r c cmds (o, w)).0
  unfolding rerun
  rerun-RanIf cmds (err e) w p k = tt
  rerun-RanIf cmds (ok u) w p k =
      let rs = (pipeline r c cmds w).0 in
      let answered_by =
        λ (o : Option Error). RanIf cmds (elim o [ none ↦ ok rs | some e ↦ err e ]) in
      elim (Option-cases (first_error rs)) [
        | inl e ↦ subst answered_by (sym e) (pipeline-AllRan cmds w p k e)
        | inr (x, e) ↦ subst answered_by (sym e) tt
      ]

  retry-RanIf :
      (cmds : List (Command r c A)) (rs : List (Result A)) (w : World State) (o : Option Error)
      → All (Preserves r c Q I {A = A}) cmds
      → (o ≡ none → AllRan cmds (answered r c rs))
      → Kept r c Q I w
      → RanIf cmds (retry r c cmds rs w o).0
  unfolding retry
  retry-RanIf cmds rs w none p ran k = ran refl
  retry-RanIf cmds rs w (some unavailable) p ran k = tt
  retry-RanIf cmds rs w (some noscript) p ran k =
      rerun-RanIf cmds _ _ p (load-Kept r c Q I stable w k)

  pub eval_sha_pipelined-RanIf :
      (cmds : List (Command r c A)) (w : World State)
      → All (Preserves r c Q I {A = A}) cmds
      → Kept r c Q I w
      → RanIf cmds (eval_sha_pipelined r c cmds w).0
  unfolding eval_sha_pipelined
  eval_sha_pipelined-RanIf cmds w p k =
      retry-RanIf cmds _ _ _ p (pipeline-AllRan cmds w p k)
        (pipeline-Kept r c Q I stable cmds w p k)
