-- ===== src/Shield/Batcher/Answered.antt =====
-- The results that the batcher hands to its writers, whatever fails.
use sluice_go.Redis.{Redis}
use sluice_go.Shield.Calls.{Config}
use sluice_go.Shield.World.{
  World, Result, ok, err, noscript, unavailable, Error, Command, pipeline, all_failed, is_refused,
  wait, attempt, load,
}
use sluice_go.Shield.Batcher.{
  WriteEntry, Done, unloaded, replaced, not_reloaded, write_commands, after_reload, reload,
  pipeline_writes, flush_batch, Event, run_batcher,
}
use sluice_go.Shield.Batcher.Sequential.{joined, arrivals, joined-run_batcher, flush_all}
use sluice_go.Prelude.{
  ℕ, ◌+◌, ◌≡◌, refl, sym, ap, ◌∙◌, List, [], ◌∷◌, length, length-append, Bool, true, false, arith,
}

length-replaced : (rs again : List Done) → length (replaced rs again) ≡ length rs
unfolding replaced
length-replaced [] again = refl
length-replaced (ok u ∷ rs) again = omega (arith, length-replaced rs again)
length-replaced (err unavailable ∷ rs) again = omega (arith, length-replaced rs again)
length-replaced (err noscript ∷ rs) [] = omega (arith, length-replaced rs [])
length-replaced (err noscript ∷ rs) (x ∷ again) = omega (arith, length-replaced rs again)

length-not_reloaded : (e : Error) (rs : List Done) → length (not_reloaded e rs) ≡ length rs
unfolding not_reloaded
length-not_reloaded e [] = refl
length-not_reloaded e (ok u ∷ rs) = omega (arith, length-not_reloaded e rs)
length-not_reloaded e (err unavailable ∷ rs) = omega (arith, length-not_reloaded e rs)
length-not_reloaded e (err noscript ∷ rs) = omega (arith, length-not_reloaded e rs)

module _ (r : Redis) (c : Config) where
  open r use {State}

  length-all_failed :
      {A : Type 0} (cmds : List (Command r c A)) → length (all_failed r c cmds) ≡ length cmds
  length-all_failed [] = refl
  length-all_failed (cmd ∷ cmds) = omega (arith, length-all_failed cmds)

  length-either :
      {A : Type 0} (b : Bool) (xs ys : List (Result A) × World State) (n : ℕ)
      → length xs.0 ≡ n
      → length ys.0 ≡ n
      → length (elim b as (λ t. List (Result A) × World State) [ true ↦ xs | false ↦ ys ]).0 ≡ n
  length-either true xs ys n hx hy = hx
  length-either false xs ys n hx hy = hy

  length-pipeline :
      {A : Type 0} (cmds : List (Command r c A)) (w : World State)
      → length (pipeline r c cmds w).0 ≡ length cmds
  unfolding pipeline
  length-pipeline [] w = refl
  length-pipeline (cmd ∷ cmds) w =
      let out = attempt r c (wait r c w).0 cmd (wait r c w).1 in
      length-either (is_refused (wait r c w).0)
        (err unavailable ∷ all_failed r c cmds, (wait r c w).1)
        (out.0 ∷ (pipeline r c cmds out.1).0, (pipeline r c cmds out.1).1) (length (cmd ∷ cmds))
        (omega (arith, length-all_failed cmds)) (omega (arith, length-pipeline cmds out.1))

  length-write_commands : (es : List WriteEntry) → length (write_commands r c es) ≡ length es
  length-write_commands [] = refl
  length-write_commands (e ∷ es) = omega (arith, length-write_commands es)

  length-after_reload :
      (es : List WriteEntry) (rs : List Done) (o : Done) (w : World State)
      → length (after_reload r c es rs (o, w)).0 ≡ length rs
  unfolding after_reload
  length-after_reload es rs (ok u) w = length-replaced rs _
  length-after_reload es rs (err e) w = length-not_reloaded e rs

  length-reload :
      (es : List WriteEntry) (rs : List Done) (w : World State)
      → length (reload r c es rs w).0 ≡ length rs
  unfolding reload
  length-reload [] rs w = refl
  length-reload (e ∷ es) rs w = length-after_reload (e ∷ es) rs (load r c w).0 (load r c w).1

  length-flush_batch :
      (size : ℕ) (es : List WriteEntry) (w : World State)
      → length (flush_batch r c size es w).0 ≡ length es
  unfolding flush_batch pipeline_writes
  length-flush_batch size es w =
      length-reload (unloaded es (pipeline r c (write_commands r c es) w).0)
        (pipeline r c (write_commands r c es) w).0 (pipeline r c (write_commands r c es) w).1
      ∙ length-pipeline (write_commands r c es) w
      ∙ length-write_commands es

  length-flush_all :
      (size : ℕ) (bs : List (List WriteEntry)) (w : World State)
      → length (flush_all r c size bs w).0 ≡ length (joined bs)
  length-flush_all size [] w = refl
  length-flush_all size (b ∷ bs) w =
      length-append (flush_batch r c size b w).0 _
      ∙ ap (λ n. n + length (flush_all r c size bs (flush_batch r c size b w).1.1).0)
          (length-flush_batch size b w)
      ∙ ap (λ n. length b + n) (length-flush_all size bs (flush_batch r c size b w).1.1)
      ∙ sym (length-append b (joined bs))

  -- Whatever fails, and whatever other clients do: once the batcher has stopped, its batches have
  -- given as many results as entries came and were left in the channel, so no writer waits on.
  pub flush_all-answers_each :
      (size : ℕ) (events : List Event) (left : List WriteEntry) (w : World State)
      → length (flush_all r c size (run_batcher size events left).flushed w).0
        ≡ length (arrivals events) + length left
  flush_all-answers_each size events left w =
      length-flush_all size (run_batcher size events left).flushed w
      ∙ ap length (joined-run_batcher size events left)
      ∙ length-append (arrivals events) left
