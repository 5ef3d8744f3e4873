-- ===== src/Facade/Fresh.antt =====
-- ReadFresh and Read of sluice.go against the journal of a key that waits for its flush.
use sluice_go.Redis.{Redis, Ttl}
use sluice_go.Shield.Fields.{field_p, field_ts}
use sluice_go.Shield.Calls.{payload_of}
use sluice_go.Shield.Traffic.Known.{Offers, Knows, act_all-Knows}
use sluice_go.Shield.World.{World, Result, ok, err, pipeline, first_error}
use sluice_go.Shield.World.Keeps.{Kept}
use sluice_go.Shield.World.Ran.{AllRan, pipeline-AllRan, FirstRan, pipeline-FirstRan}
use sluice_go.Shield.Flush.{answered, collect, nonempty}
use sluice_go.Shield.Reads.{
  JournalRead, not_found, found, Reply, read_commands, version_commands, read_journal, decode_read,
  journal_read, map_result, misses, after_exec, text, left,
}
use sluice_go.LocalJournal.{Cache, Lookup, disabled, absent, expired, hit, get}
use sluice_go.Facade.Types.{SluiceConfig, Wiring, Sluice, Outcome, done, failed}
use sluice_go.Facade.Reads.{read_fresh, fresh_from, read, read_open, warm_from, after_l1}
use sluice_go.Prelude.{
  ℕ, ◌≡◌, refl, ap, sym, ◌∙◌, false, Option, none, some, List, [], ◌∷◌, Bytes, inl, inr,
  Option-cases, Bool-cases,
}

module _ {V : Type 0} (r : Redis) (c : SluiceConfig) (wires : Wiring V) (now : ℕ) (ck : Bytes)
    (n : ℕ) (drained : Bytes) (Ok : Bytes → Type 0) where
  open r use {State, hget}

  abbrev Known : State → Type 0
  Known = Knows r c.shield ck n drained Ok

  abbrev JournalKnown : JournalRead → Type 0
  JournalKnown (found body ttl version) = Ok body
  JournalKnown not_found = Ok []

  seen-Known :
      (held : Bytes) (ttl : Ttl) (ts : Option Bytes)
      → Ok held
      → JournalKnown (journal_read (nonempty (some held)) ttl ts)
  unfolding journal_read nonempty
  seen-Known [] ttl ts h = h
  seen-Known (x ∷ xs) ttl ts h = h

  decoded-Known :
      (replies : List Reply)
      → AllRan r c.shield
          (Offers r c.shield ck n drained Ok)
          Known
          (act_all-Knows r c.shield ck n drained Ok)
          (read_commands r c.shield ck)
          replies
      → JournalKnown (decode_read replies)
  unfolding decode_read
  decoded-Known [] h = absurd h
  decoded-Known (a ∷ []) h = absurd h.1
  decoded-Known (a ∷ b ∷ []) h = absurd h.1.1
  decoded-Known (a ∷ b ∷ d ∷ e ∷ rest) h = absurd h.1.1.1
  decoded-Known (a ∷ b ∷ d ∷ []) h =
      let (t, (i, (body, known, holds)), ran) = h.0 in
      let (t', i', ran') = h.1.0 in
      let (t'', i'', ran'') = h.1.1.0 in
      rw (← ran, ← ran', ← ran'', holds)
        (seen-Known body (r.pttl t' (payload_of c.shield ck))
          (hget t'' (payload_of c.shield ck) field_ts) known)

  AnswerKnown : Result JournalRead → Type 0
  AnswerKnown (ok j) = JournalKnown j
  AnswerKnown (err e) = Unit

  -- The payload of a waiting key is there for the first command.
  misses-Known :
      (rs : List (Result Reply))
      → FirstRan r c.shield
          (Offers r c.shield ck n drained Ok)
          Known
          (act_all-Knows r c.shield ck n drained Ok)
          (λ s. (text (hget s (payload_of c.shield ck) field_p), s))
          rs
      → misses r c.shield rs ≡ false
  misses-Known [] h = refl
  misses-Known (err e ∷ rest) h = refl
  misses-Known (ok (left ttl) ∷ rest) h = refl
  misses-Known (ok (text (some p)) ∷ rest) h = refl
  misses-Known (ok (text none) ∷ rest) (s, (i, (body, known, holds)), ran) =
      let there : text (some body) ≡ text none = ap text (sym holds) ∙ ran in cc

  -- What the pipeline reads of a waiting key.
  read_journal-Known :
      (w : World State)
      → Kept r c.shield (Offers r c.shield ck n drained Ok) Known w
      → AnswerKnown (read_journal r c.shield ck w).0
  unfolding read_journal after_exec AnswerKnown map_result collect
  read_journal-Known w k =
      let rs = (pipeline r c.shield (read_commands r c.shield ck) w).0 in
      let there : misses r c.shield rs ≡ false = misses-Known rs (
        pipeline-FirstRan r c.shield (Offers r c.shield ck n drained Ok) Known
          (act_all-Knows r c.shield ck n drained Ok) _ (version_commands r c.shield ck) w k) in
      elim (Option-cases (first_error rs)) [
        | inr (x, e) ↦ rw (there, e, collect) tt
        | inl e ↦
            rw (there, e, collect)
              (decoded-Known (answered r c.shield rs) (
                pipeline-AllRan r c.shield (Offers r c.shield ck n drained Ok) Known
                  (act_all-Knows r c.shield ck n drained Ok) (read_commands r c.shield ck) w
                  (λ s h. h, (λ s h. h, (λ s h. h, tt))) k e))
      ]

  -- An answer is such a payload.
  abbrev pub AnswersKnown : Outcome Bytes → Type 0
  AnswersKnown (failed e) = Unit
  AnswersKnown (done body) = Ok body

  module _ (nonempty_only : ¬ Ok []) where
    fresh_from-Known :
        (answer : Result JournalRead) (w : World State) (s : Sluice State)
        → AnswerKnown answer
        → AnswersKnown (fresh_from r c wires now ck (answer, w) s).0
    unfolding fresh_from AnswerKnown
    fresh_from-Known (err e) w s h = tt
    fresh_from-Known (ok (found body ttl version)) w s h = h
    fresh_from-Known (ok not_found) w s h = absurd (nonempty_only h)

    -- A key waits for its flush with a payload of a set of payloads that has the empty one not in it.
    -- Other clients write to the key only payloads of the set, and do not commit or dead-letter it;
    -- else they do what they like between the reads, and any read may fail. Then ReadFresh answers
    -- an error or a payload of the set, whatever the Source holds.
    pub read_fresh-Known :
        (s : Sluice State)
        → Kept r c.shield (Offers r c.shield ck n drained Ok) Known s.world
        → AnswersKnown (read_fresh r c wires now ck s).0
    unfolding read_fresh
    read_fresh-Known s k = elim (Bool-cases s.closed) [
      | inl e ↦ simp e tt
      | inr e ↦ simp e (
          fresh_from-Known (read_journal r c.shield ck s.world).0
            (read_journal r c.shield ck s.world).1 s (read_journal-Known s.world k))
    ]

    warm_from-Known :
        (answer : Result JournalRead) (w : World State) (s : Sluice State)
        → AnswerKnown answer
        → AnswersKnown (warm_from r c wires now ck (answer, w) s).0
    unfolding warm_from AnswerKnown
    warm_from-Known (err e) w s h = tt
    warm_from-Known (ok (found body ttl version)) w s h = h
    warm_from-Known (ok not_found) w s h = absurd (nonempty_only h)

    -- What the L1 answers for the key.
    abbrev pub HitsKnown : Lookup → Type 0
    HitsKnown (hit body version) = Ok body
    HitsKnown miss = Unit

    abbrev pub CacheKnown : Option Cache → Type 0
    CacheKnown none = Unit
    CacheKnown (some l1) = HitsKnown (get now ck l1).0

    after_l1-Known :
        (answer : Lookup) (s : Sluice State)
        → HitsKnown answer
        → Kept r c.shield (Offers r c.shield ck n drained Ok) Known s.world
        → AnswersKnown (after_l1 r c wires now ck answer s).0
    unfolding after_l1
    after_l1-Known (hit body version) s h k = h
    after_l1-Known disabled s h k =
        warm_from-Known (read_journal r c.shield ck s.world).0
          (read_journal r c.shield ck s.world).1 s (read_journal-Known s.world k)
    after_l1-Known absent s h k =
        warm_from-Known (read_journal r c.shield ck s.world).0
          (read_journal r c.shield ck s.world).1 s (read_journal-Known s.world k)
    after_l1-Known expired s h k =
        warm_from-Known (read_journal r c.shield ck s.world).0
          (read_journal r c.shield ck s.world).1 s (read_journal-Known s.world k)

    read_open-Known :
        (local : Option Cache) (s : Sluice State)
        → CacheKnown local
        → Kept r c.shield (Offers r c.shield ck n drained Ok) Known s.world
        → AnswersKnown (read_open r c wires now ck local s).0
    unfolding read_open
    read_open-Known none s h k =
        warm_from-Known (read_journal r c.shield ck s.world).0
          (read_journal r c.shield ck s.world).1 s (read_journal-Known s.world k)
    read_open-Known (some l1) s h k = after_l1-Known (get now ck l1).0 _ h k

    -- As for ReadFresh, and what the L1 answers for the key, if it has it, is in the set: then Read
    -- answers an error or a payload of the set.
    pub read-Known :
        (s : Sluice State)
        → CacheKnown s.local
        → Kept r c.shield (Offers r c.shield ck n drained Ok) Known s.world
        → AnswersKnown (read r c wires now ck s).0
    unfolding read
    read-Known s h k = elim (Bool-cases s.closed) [
      | inl e ↦ simp e tt
      | inr e ↦ simp e (read_open-Known s.local s h k)
    ]
