-- ===== src/Broadcast/Backoff.antt =====
-- The loop of the subscriber: its backoff.
use sluice_go.Broadcast.{
  Mode, Delivery, Subscriber, XRead, cancelled, timed_out, network_error, messages, apply_all,
  react, run, get_cursor, is_cancelled, min_backoff, max_backoff,
}
use sluice_go.Prelude.{ℕ, ◌≤◌, ◌≡◌, refl, List, [], ◌∷◌, Bytes, arith, Bool-cases, inl, inr}

-- Between a tenth of a second and five seconds.
abbrev pub InRange : ℕ → Type 0
InRange n = (min_backoff ≤ n) × (n ≤ max_backoff)

backoff-apply_all :
    (mode : Mode) (ds : List Delivery) (s : Subscriber) → (apply_all mode ds s).backoff ≡ s.backoff
unfolding apply_all
backoff-apply_all mode [] s = refl
backoff-apply_all mode (d ∷ rest) s = backoff-apply_all mode rest _

react-InRange :
    (mode : Mode) (answer : XRead) (s : Subscriber)
    → InRange s.backoff
    → InRange (react mode answer s).backoff
unfolding react
react-InRange mode cancelled s h = h
react-InRange mode timed_out s h = (omega arith, omega arith)
react-InRange mode network_error s h = ground (arith, h)
react-InRange mode (messages ds) s h =
    omega (arith, backoff-apply_all mode ds (record s { backoff = min_backoff }))

-- Whatever XREAD answers, the backoff of a loop that starts in the range stays in it.
pub run-InRange :
    (mode : Mode) (reads : List (Bytes → XRead)) (s : Subscriber)
    → InRange s.backoff
    → InRange (run mode reads s).backoff
unfolding run
run-InRange mode [] s h = h
run-InRange mode (read ∷ rest) s h =
    let answer = read (get_cursor s) in
    elim (Bool-cases (is_cancelled answer)) [
      | inl e ↦ rw (e, run) h
      | inr e ↦
          rw (e, run) (run-InRange mode rest (react mode answer s) (react-InRange mode answer s h))
    ]
