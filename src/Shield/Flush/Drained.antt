-- ===== src/Shield/Flush/Drained.antt =====
-- What `DrainBand` of shield.go hands to the engine, against the state of Redis.
use sluice_go.Naming.Decimal.{itoa}
use sluice_go.Redis.{Redis}
use sluice_go.Redis.Keys.{dirty}
use sluice_go.Shield.Calls.{Config, band_for, payload_of}
use sluice_go.Shield.Fields.{field_p, field_v}
use sluice_go.Shield.Pending.{IsPending}
use sluice_go.Shield.Traffic.{Action, act_all, Foreign}
use sluice_go.Shield.Traffic.Keeps.{act_all-IsPending}
use sluice_go.Shield.World.{
  World, Fault, fine, refused, unanswered, unknown, Result, ok, err, Command, wait, attempt,
  round_trip, pipeline, first_error, is_refused, all_failed,
}
use sluice_go.Shield.World.Keeps.{
  Kept, Preserves, wait-Kept, attempt-Kept, round_trip-Kept, pipeline-Kept,
}
use sluice_go.Shield.Flush.{
  FlushRecord, read_member, nonempty, answered, collect, read_members, drain_band,
}
use sluice_go.Prelude.{
  ℕ, ◌≡◌, refl, true, some, List, [], ◌∷◌, map, Bytes, bytes_eq, bytes_eq→≡, All, arith, Bool-cases,
  Option-cases, inl, inr,
}

module _ (r : Redis) (c : Config) (ck : Bytes) where
  open r use {State}

  -- The key waits, at some version.
  abbrev pub IsQueued : State → Type 0
  IsQueued s = (n : ℕ) × (drained : Bytes) × IsPending r c ck n drained s

  pub IsQueued-stable :
      (traffic : List Action) (s : State)
      → All (Foreign ck) traffic
      → IsQueued s
      → IsQueued (act_all r c traffic s)
  IsQueued-stable traffic s f (n, drained, h) =
      (n, drained, act_all-IsPending r c ck n drained traffic s f h)

  -- Its newest version is a drained one, seen from the same state.
  rebase :
      (s : State)
      → IsQueued s
      → (n : ℕ) × (held : Bytes) × (r.hget s (payload_of c ck) field_v ≡ some (itoa n))
        × (r.hget s (payload_of c ck) field_p ≡ some held)
        × IsPending r c ck n held s
  rebase s (n, drained, h) = (
    h.version,
    h.held,
    h.at_version,
    h.holds_body,
    record {
      version = h.version;
      held = h.held;
      at_version = h.at_version;
      holds_body = h.holds_body;
      not_older = omega arith;
      unchanged = λ e. refl;
      unexpiring = h.unexpiring;
      queued = h.queued;
    },
  )

  -- A record of the key is such a version, with its sequence and payload as text.
  pub record IsDrained (rec : FlushRecord) (s : State) : Type 0 where
    pub version : ℕ
    pub held : Bytes
    pub seq_version : rec.seq ≡ itoa version
    pub body_held : rec.body ≡ nonempty (some held)
    pub waiting : IsPending r c ck version held s

  abbrev pub DrainedIf : FlushRecord → State → Type 0
  DrainedIf rec s = bytes_eq rec.correlation_key ck ≡ true → IsDrained rec s

  abbrev AnswerDrained : State → Result FlushRecord → Type 0
  AnswerDrained s (ok rec) = DrainedIf rec s
  AnswerDrained s (err e) = Unit {0}

  module _ (now : ℕ) where
    abbrev read_one : Bytes × ℕ → Command r c FlushRecord
    read_one = read_member r c now (band_for c ck)

    -- A read changes nothing.
    read_one-Preserves :
        (I : State → Type 0) (m : Bytes × ℕ) → Preserves r c (Foreign ck) I (read_one m)
    unfolding read_member
    read_one-Preserves I (k, score) s h = h

    reads-Preserves :
        (I : State → Type 0) (ms : List (Bytes × ℕ))
        → All (Preserves r c (Foreign ck) I {A = FlushRecord}) (map read_one ms)
    reads-Preserves I [] = tt
    reads-Preserves I (m ∷ ms) = (read_one-Preserves I m, reads-Preserves I ms)

    -- The record that is read of the key, for the version that waits then and later.
    read_one-Drained :
        (k : Bytes) (score n : ℕ) (held : Bytes) (s t : State)
        → r.hget s (payload_of c ck) field_v ≡ some (itoa n)
        → r.hget s (payload_of c ck) field_p ≡ some held
        → IsPending r c ck n held t
        → DrainedIf (read_one (k, score) s).0 t
    unfolding read_member
    read_one-Drained k score n held s t at_v at_p h e = record {
      version = n;
      held = held;
      seq_version = rw (bytes_eq→≡ k ck e, at_v);
      body_held = rw (bytes_eq→≡ k ck e, at_p);
      waiting = h;
    }

    attempt-Drained :
        (f : Fault) (m : Bytes × ℕ) (w : World State) (n : ℕ) (held : Bytes) (t : State)
        → r.hget w.redis (payload_of c ck) field_v ≡ some (itoa n)
        → r.hget w.redis (payload_of c ck) field_p ≡ some held
        → IsPending r c ck n held t
        → AnswerDrained t (attempt r c f (read_one m) w).0
    unfolding attempt
    attempt-Drained fine (k, score) w n held t at_v at_p h =
        read_one-Drained k score n held w.redis t at_v at_p h
    attempt-Drained refused m w n held t at_v at_p h = tt
    attempt-Drained unanswered m w n held t at_v at_p h = tt
    attempt-Drained unknown m w n held t at_v at_p h = tt

    all_failed-Drained :
        (t : State) (ms : List (Bytes × ℕ))
        → All (AnswerDrained t) (all_failed r c (map read_one ms))
    all_failed-Drained t [] = tt
    all_failed-Drained t (m ∷ ms) = (tt, all_failed-Drained t ms)

    reads-Drained :
        (ms : List (Bytes × ℕ)) (w : World State)
        → Kept r c (Foreign ck) IsQueued w
        → let out = pipeline r c (map read_one ms) w in All (AnswerDrained out.1.redis) out.0
    unfolding pipeline
    reads-Drained [] w k = tt
    reads-Drained (m ∷ ms) w k =
        let (f, w1) = wait r c w in
        let k1 : Kept r c (Foreign ck) IsQueued w1 =
          wait-Kept r c (Foreign ck) IsQueued IsQueued-stable w k in
        let (n, held, at_v, at_p, h) = rebase w1.redis k1.now in
        let I : State → Type 0 = IsPending r c ck n held in
        let after_read : World State = (attempt r c f (read_one m) w1).1 in
        let kept : Kept r c (Foreign ck) I (pipeline r c (map read_one ms) after_read).1 =
          pipeline-Kept r c (Foreign ck) I (act_all-IsPending r c ck n held) (map read_one ms)
            after_read (reads-Preserves I ms)
            (attempt-Kept r c (Foreign ck) I (act_all-IsPending r c ck n held) f (read_one m) w1
              (read_one-Preserves I m) (record { now = h; later = k1.later })) in
        elim (Bool-cases (is_refused f)) [
          | inl e ↦ rw (e, pipeline) (tt, all_failed-Drained w1.redis ms)
          | inr e ↦
              rw (e, pipeline)
                (
                  attempt-Drained f m w1 n held _ at_v at_p kept.now,
                  reads-Drained ms after_read (
                      attempt-Kept r c (Foreign ck) IsQueued IsQueued-stable f (read_one m) w1
                        (read_one-Preserves IsQueued m) k1),
                )
        ]

    answered-Drained :
        (t : State) (rs : List (Result FlushRecord))
        → All (AnswerDrained t) rs
        → All (λ rec. DrainedIf rec t) (answered r c rs)
    answered-Drained t [] h = tt
    answered-Drained t (ok rec ∷ rs) h = (h.0, answered-Drained t rs h.1)
    answered-Drained t (err e ∷ rs) h = answered-Drained t rs h.1

    abbrev pub EveryDrained : Result (List FlushRecord) → State → Type 0
    EveryDrained (ok records) t = All (λ rec. DrainedIf rec t) records
    EveryDrained (err e) t = Unit

    collect-Drained :
        (rs : List (Result FlushRecord)) (w : World State)
        → All (AnswerDrained w.redis) rs
        → EveryDrained (collect r c (rs, w)).0 (collect r c (rs, w)).1.redis
    unfolding collect
    collect-Drained rs w h = elim (Option-cases (first_error rs)) [
      | inl e ↦ rw (e, collect) (answered-Drained w.redis rs h)
      | inr (x, e) ↦ rw (e, collect) tt
    ]

    collect_world : (rs : List (Result FlushRecord)) (w : World State) → (collect r c (rs, w)).1 ≡ w
    unfolding collect
    collect_world rs w = elim (Option-cases (first_error rs)) [
      | inl e ↦ rw (e, collect)
      | inr (x, e) ↦ rw (e, collect)
    ]

    read_members-Drained :
        (members : Result (List (Bytes × ℕ))) (w : World State)
        → Kept r c (Foreign ck) IsQueued w
        → let out = read_members r c now (band_for c ck) (members, w) in
          EveryDrained out.0 out.1.redis × Kept r c (Foreign ck) IsQueued out.1
    unfolding read_members
    read_members-Drained (err e) w k = (tt, k)
    read_members-Drained (ok []) w k = (tt, k)
    read_members-Drained (ok (m ∷ ms)) w k =
        let out = pipeline r c (map read_one (m ∷ ms)) w in
        (
          collect-Drained out.0 out.1 (reads-Drained (m ∷ ms) w k),
          rw (collect_world out.0 out.1) (
              pipeline-Kept r c (Foreign ck) IsQueued IsQueued-stable (map read_one (m ∷ ms)) w
                (reads-Preserves IsQueued (m ∷ ms)) k),
        )

    -- While a key waits, whatever turns the reads of its band take: every record of the key that
    -- the drain returns carries the sequence and the payload of a version of the key that still
    -- waits when the drain returns (an empty payload is read as none), and the key waits then.
    pub drain_band-Drained :
        (max_batch : ℕ) (w : World State)
        → Kept r c (Foreign ck) IsQueued w
        → let out = drain_band r c now (band_for c ck) max_batch w in
          EveryDrained out.0 out.1.redis × Kept r c (Foreign ck) IsQueued out.1
    unfolding drain_band
    drain_band-Drained max_batch w k =
        let cmd : Command r c (List (Bytes × ℕ)) =
          λ s. (r.zrange s (dirty (band_for c ck)) max_batch, s) in
        let out = round_trip r c cmd w in
        read_members-Drained out.0 out.1
          (round_trip-Kept r c (Foreign ck) IsQueued IsQueued-stable cmd w (λ s h. h) k)
