-- ===== src/Shield/Batcher/Sequential.antt =====
-- The batcher against the writes one after the other.
use sluice_go.Redis.{Redis}
use sluice_go.Shield.Calls.{Config, write_call}
use sluice_go.Shield.World.{World, ok, pipeline, wait, wait_on, attempt}
use sluice_go.Shield.World.Calm.{calm}
use sluice_go.Shield.Batcher.{
  WriteEntry, Done, unloaded, write_commands, depth_commands, reload, pipeline_writes,
  touched_bands, flush_batch, Event, arrives, ticks, Batcher, flush_buf, flush, append_entry,
  on_event, on_events, drain, run_batcher,
}
use sluice_go.Prelude.{
  ℕ, ◌≡◌, refl, sym, ap, ◌∙◌, List, [], ◌∷◌, ◌++◌, append_assoc, append-nil, length, leb,
  Bool-cases, inl, inr,
}

-- The batches behind one another.
abbrev pub joined : List (List WriteEntry) → List WriteEntry
joined [] = []
joined (b ∷ bs) = b ++ joined bs

abbrev pub arrivals : List Event → List WriteEntry
arrivals [] = []
arrivals (arrives e ∷ xs) = e ∷ arrivals xs
arrivals (ticks ∷ xs) = arrivals xs

joined-snoc :
    (bs : List (List WriteEntry)) (b : List WriteEntry) → joined (bs ++ b ∷ []) ≡ joined bs ++ b
joined-snoc [] b = append-nil b
joined-snoc (x ∷ bs) b = ap (λ z. x ++ z) (joined-snoc bs b) ∙ sym (append_assoc x (joined bs) b)

-- All entries taken so far, in order.
abbrev contents : Batcher → List WriteEntry
contents b = joined b.flushed ++ b.buf

contents-flush_buf :
    (buf : List WriteEntry) (done : List (List WriteEntry))
    → contents (flush_buf buf done) ≡ joined done ++ buf
unfolding flush_buf
contents-flush_buf [] done = refl
contents-flush_buf (e ∷ es) done =
    append-nil (joined (done ++ (e ∷ es) ∷ [])) ∙ joined-snoc done (e ∷ es)

contents-append_entry :
    (size : ℕ) (e : WriteEntry) (b : Batcher)
    → contents (append_entry size e b) ≡ contents b ++ e ∷ []
unfolding append_entry flush
contents-append_entry size e b = elim (Bool-cases (leb size (length (b.buf ++ e ∷ [])))) [
  | inl full ↦ rw full (
      contents-flush_buf (b.buf ++ e ∷ []) b.flushed
      ∙ sym (append_assoc (joined b.flushed) b.buf (e ∷ [])))
  | inr more ↦ rw more (sym (append_assoc (joined b.flushed) b.buf (e ∷ [])))
]

contents-on_events :
    (size : ℕ) (xs : List Event) (b : Batcher)
    → contents (on_events size xs b) ≡ contents b ++ arrivals xs
unfolding on_events on_event flush
contents-on_events size [] b = sym (append-nil (contents b))
contents-on_events size (arrives e ∷ xs) b =
    contents-on_events size xs (append_entry size e b)
    ∙ ap (λ z. z ++ arrivals xs) (contents-append_entry size e b)
    ∙ append_assoc (contents b) (e ∷ []) (arrivals xs)
contents-on_events size (ticks ∷ xs) b =
    contents-on_events size xs (flush b)
    ∙ ap (λ z. z ++ arrivals xs) (contents-flush_buf b.buf b.flushed)

flush_buf-buf :
    (buf : List WriteEntry) (done : List (List WriteEntry)) → (flush_buf buf done).buf ≡ []
unfolding flush_buf
flush_buf-buf [] done = refl
flush_buf-buf (e ∷ es) done = refl

joined-drain :
    (size : ℕ) (left : List WriteEntry) (b : Batcher)
    → joined (drain size left b).flushed ≡ contents b ++ left
unfolding drain flush
joined-drain size [] b =
    sym (append-nil (joined (flush_buf b.buf b.flushed).flushed))
    ∙ ap (λ z. joined (flush_buf b.buf b.flushed).flushed ++ z)
        (sym (flush_buf-buf b.buf b.flushed))
    ∙ contents-flush_buf b.buf b.flushed
    ∙ sym (append-nil (contents b))
joined-drain size (e ∷ es) b =
    joined-drain size es (append_entry size e b)
    ∙ ap (λ z. z ++ es) (contents-append_entry size e b)
    ∙ append_assoc (contents b) (e ∷ []) es

pub joined-run_batcher :
    (size : ℕ) (events : List Event) (left : List WriteEntry)
    → joined (run_batcher size events left).flushed ≡ arrivals events ++ left
unfolding run_batcher
joined-run_batcher size events left =
    joined-drain size left (on_events size events (record { buf = []; flushed = [] }))
    ∙ ap (λ z. z ++ left) (contents-on_events size events (record { buf = []; flushed = [] }))

module _ (r : Redis) (c : Config) where
  open r use {State}

  -- The journal write of each entry, one after the other.
  abbrev pub write_all : List WriteEntry → State → State
  write_all [] s = s
  write_all (e ∷ es) s = write_all es (write_call r c e.correlation_key e.payload e.ts s)

  abbrev pub all_ok : List WriteEntry → List Done
  all_ok [] = []
  all_ok (e ∷ es) = ok tt ∷ all_ok es

  pipeline-write_commands :
      (es : List WriteEntry) (s : State)
      → pipeline r c (write_commands r c es) (calm s) ≡ (all_ok es, calm (write_all es s))
  unfolding pipeline wait wait_on attempt
  pipeline-write_commands [] s = refl
  pipeline-write_commands (e ∷ es) s =
      rw (pipeline-write_commands es (write_call r c e.correlation_key e.payload e.ts s)) refl

  pipeline-depth_commands :
      (bs : List ℕ) (s : State) → (pipeline r c (depth_commands r c bs) (calm s)).1 ≡ calm s
  unfolding pipeline wait wait_on attempt
  pipeline-depth_commands [] s = refl
  pipeline-depth_commands (b ∷ bs) s = pipeline-depth_commands bs s

  unloaded-all_ok : (es : List WriteEntry) → unloaded es (all_ok es) ≡ []
  unfolding unloaded
  unloaded-all_ok [] = refl
  unloaded-all_ok (e ∷ es) = unloaded-all_ok es

  pipeline_writes-calm :
      (es : List WriteEntry) (s : State)
      → pipeline_writes r c es (calm s) ≡ (all_ok es, calm (write_all es s))
  unfolding pipeline_writes reload
  pipeline_writes-calm es s = rw (pipeline-write_commands es s, unloaded-all_ok es) refl

  flush_batch-calm :
      (size : ℕ) (es : List WriteEntry) (s : State)
      → ((flush_batch r c size es (calm s)).0 ≡ all_ok es)
        × ((flush_batch r c size es (calm s)).1.1 ≡ calm (write_all es s))
  unfolding flush_batch
  flush_batch-calm size es s =
      rw (pipeline_writes-calm es s)
        (refl, pipeline-depth_commands (touched_bands r c [] es) (write_all es s))

  -- The batches, flushed one after the other: the results of all entries, and the world.
  abbrev pub flush_all : ℕ → List (List WriteEntry) → World State → List Done × World State
  flush_all size [] w = ([], w)
  flush_all size (b ∷ bs) w =
      let out = flush_batch r c size b w in
      let rest = flush_all size bs out.1.1 in (out.0 ++ rest.0, rest.1)

  all_ok-append : (xs ys : List WriteEntry) → all_ok (xs ++ ys) ≡ all_ok xs ++ all_ok ys
  all_ok-append [] ys = refl
  all_ok-append (x ∷ xs) ys = ap (λ z. ok tt ∷ z) (all_ok-append xs ys)

  write_all-append :
      (xs ys : List WriteEntry) (s : State) → write_all (xs ++ ys) s ≡ write_all ys (write_all xs s)
  write_all-append [] ys s = refl
  write_all-append (x ∷ xs) ys s = write_all-append xs ys _

  flush_all-joined :
      (size : ℕ) (bs : List (List WriteEntry)) (s : State)
      → flush_all size bs (calm s) ≡ (all_ok (joined bs), calm (write_all (joined bs) s))
  flush_all-joined size [] s = refl
  flush_all-joined size (b ∷ bs) s =
      rw
        (
          (flush_batch-calm size b s).0,
          (flush_batch-calm size b s).1,
          flush_all-joined size bs (write_all b s),
          all_ok-append b (joined bs),
          write_all-append b (joined bs) s,
        )
        refl

  -- Whatever the batch size and however entries and ticks fall: once the batcher has stopped, and
  -- with nothing failing and no other client acting, its batches leave in Redis what the journal
  -- writes of all entries, those that came and those left in the channel, leave one after the
  -- other in that order, and each entry gets a result without an error.
  pub flush_all-run_batcher :
      (size : ℕ) (events : List Event) (left : List WriteEntry) (s : State)
      → flush_all size (run_batcher size events left).flushed (calm s)
        ≡ (all_ok (arrivals events ++ left), calm (write_all (arrivals events ++ left) s))
  flush_all-run_batcher size events left s =
      flush_all-joined size (run_batcher size events left).flushed s
      ∙ ap (λ es. (all_ok es, calm (write_all es s))) (joined-run_batcher size events left)
