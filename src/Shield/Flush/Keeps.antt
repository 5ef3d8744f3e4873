-- ===== src/Shield/Flush/Keeps.antt =====
-- What the scripts of a flush keep for one key, all its operations keep: through traffic, lost
-- answers and retries. Only a commit of the key itself is left out.
use sluice_go.Shield.Traffic.{Foreign}
use sluice_go.Redis.{Redis}
use sluice_go.Redis.Keys.{dirty}
use sluice_go.Shield.Calls.{Config, band_for, commit_call}
use sluice_go.Shield.World.{
  World, Result, ok, err, Command, round_trip, pipeline, eval_sha_pipelined, first_error,
}
use sluice_go.Shield.World.Keeps.{
  Kept, Preserves, round_trip-Kept, pipeline-Kept, eval_sha_pipelined-Kept,
}
use sluice_go.Shield.Flush.Held.{IsSafe}
use sluice_go.Shield.Flush.{
  commit_commands, dead_letter_commands, marker_reads, marker_writes, VersionedKey, FlushedKey,
  dead_letter_keys, commit_flushed_keys, select_keys, hot_keys, refresh_hot_markers, collect,
  done_if_answered, dirty_queue_depth, drain_band, read_members, read_member, FlushRecord,
}
use sluice_go.Prelude.{ℕ, Bool, true, false, List, [], ◌∷◌, map, Bytes, All, Option-cases, inl, inr}

module _ (r : Redis) (c : Config) (ck : Bytes) where
  open r use {State}

  module _ (I : State → Type 0) (safe : IsSafe r c ck I) where
    abbrev Later : World State → Type 0
    Later = Kept r c (Foreign ck) I

    select-Kept :
        (b : Bool) (keys : List Bytes) (out : Result (List (Result Bool)) × World State)
        → Later out.1
        → Later (select_keys r c b keys out).1
    unfolding select_keys
    select-Kept b keys (ok rs, w) k = k
    select-Kept b keys (err e, w) k = k

    buries-Preserves :
        (now : ℕ) (reason : Bytes) (items : List VersionedKey)
        → All
            (Preserves r c (Foreign ck) I {A = Bool})
            (dead_letter_commands r c now (band_for c ck) reason items)
    buries-Preserves now reason [] = tt
    buries-Preserves now reason (i ∷ is) =
        (λ s h. safe.buried i.correlation_key i.seq now reason s h, buries-Preserves now reason is)

    pub dead_letter_keys-Kept :
        (now : ℕ) (items : List VersionedKey) (reason : Bytes) (w : World State)
        → Later w
        → Later (dead_letter_keys r c now (band_for c ck) items reason w).1
    unfolding dead_letter_keys
    dead_letter_keys-Kept now [] reason w k = k
    dead_letter_keys-Kept now (i ∷ is) reason w k =
        let cmds = dead_letter_commands r c now (band_for c ck) reason (i ∷ is) in
        select-Kept true (map (λ (i : VersionedKey). i.correlation_key) (i ∷ is))
          (eval_sha_pipelined r c cmds w)
          (eval_sha_pipelined-Kept r c (Foreign ck) I safe.stable {A = Bool} cmds
            (buries-Preserves now reason (i ∷ is)) w k)

    -- The commit of each item keeps the invariant.
    abbrev pub CommitsKeep : ℕ → List FlushedKey → Type 0
    CommitsKeep now = All λ i.
        Preserves r c (Foreign ck) I {A = Bool}
          (commit_call r c (band_for c ck) i.correlation_key i.seq i.ttl now)

    commits-Preserves :
        (now : ℕ) (items : List FlushedKey)
        → CommitsKeep now items
        → All
            (Preserves r c (Foreign ck) I {A = Bool})
            (commit_commands r c now (band_for c ck) items)
    commits-Preserves now [] n = tt
    commits-Preserves now (i ∷ is) n = (n.0, commits-Preserves now is n.1)

    pub commit_flushed_keys-Kept :
        (now : ℕ) (items : List FlushedKey) (w : World State)
        → CommitsKeep now items
        → Later w
        → Later (commit_flushed_keys r c now (band_for c ck) items w).1
    unfolding commit_flushed_keys
    commit_flushed_keys-Kept now [] w n k = k
    commit_flushed_keys-Kept now (i ∷ is) w n k =
        let cmds = commit_commands r c now (band_for c ck) (i ∷ is) in
        select-Kept false (map (λ (i : FlushedKey). i.correlation_key) (i ∷ is))
          (eval_sha_pipelined r c cmds w)
          (eval_sha_pipelined-Kept r c (Foreign ck) I safe.stable {A = Bool} cmds
            (commits-Preserves now (i ∷ is) n) w k)

    collect-Kept :
        {A : Type 0} (rs : List (Result A)) (w : World State)
        → Later w
        → Later (collect r c (rs, w)).1
    unfolding collect
    collect-Kept rs w k = elim (Option-cases (first_error rs)) [
      | inl e ↦ rw (e, collect) k
      | inr (x, e) ↦ rw (e, collect) k
    ]

    glances-Preserves :
        (keys : List Bytes) → All (Preserves r c (Foreign ck) I {A = Bool}) (marker_reads r c keys)
    glances-Preserves [] = tt
    glances-Preserves (k ∷ ks) = (λ s h. h, glances-Preserves ks)

    pub hot_keys-Kept :
        (keys : List Bytes) (w : World State) → Later w → Later (hot_keys r c keys w).1
    unfolding hot_keys
    hot_keys-Kept keys w k =
        let cmds = marker_reads r c keys in
        let out = pipeline r c cmds w in
        collect-Kept out.0 out.1 (
          pipeline-Kept r c (Foreign ck) I safe.stable {A = Bool} cmds w (glances-Preserves keys) k)

    marks-Preserves :
        (ttl : ℕ) (keys : List Bytes)
        → All (Preserves r c (Foreign ck) I {A = Unit {0}}) (marker_writes r c ttl keys)
    marks-Preserves ttl [] = tt
    marks-Preserves ttl (k ∷ ks) =
        (λ s h. safe.marked (band_for c k) k ttl s h, marks-Preserves ttl ks)

    done-Kept :
        {A : Type 0} (out : Result A × World State)
        → Later out.1
        → Later (done_if_answered r c out).1
    unfolding done_if_answered
    done-Kept (ok a, w) k = k
    done-Kept (err e, w) k = k

    pub refresh_hot_markers-Kept :
        (keys : List Bytes) (ttl : ℕ) (w : World State)
        → Later w
        → Later (refresh_hot_markers r c keys ttl w).1
    unfolding refresh_hot_markers
    refresh_hot_markers-Kept [] ttl w k = k
    refresh_hot_markers-Kept (j ∷ js) ttl w k =
        let cmds = marker_writes r c ttl (j ∷ js) in
        let out = pipeline r c cmds w in
        done-Kept (collect r c out) (
          collect-Kept out.0 out.1 (
            pipeline-Kept r c (Foreign ck) I safe.stable {A = Unit {0}} cmds w
              (marks-Preserves ttl (j ∷ js)) k))

    pub dirty_queue_depth-Kept :
        (b : ℕ) (w : World State) → Later w → Later (dirty_queue_depth r c b w).1
    unfolding dirty_queue_depth
    dirty_queue_depth-Kept b w k =
        round_trip-Kept r c (Foreign ck) I safe.stable {A = ℕ} (λ s. (r.zcard s (dirty b), s)) w
          (λ s h. h) k

    reads-Preserves :
        (now b : ℕ) (ms : List (Bytes × ℕ))
        → All (Preserves r c (Foreign ck) I {A = FlushRecord}) (map (read_member r c now b) ms)
    unfolding read_member
    reads-Preserves now b [] = tt
    reads-Preserves now b ((m, n) ∷ ms) = (λ s h. h, reads-Preserves now b ms)

    read_members-Kept :
        (now b : ℕ) (out : Result (List (Bytes × ℕ)) × World State)
        → Later out.1
        → Later (read_members r c now b out).1
    unfolding read_members
    read_members-Kept now b (err e, w) k = k
    read_members-Kept now b (ok [], w) k = k
    read_members-Kept now b (ok (m ∷ ms), w) k =
        let cmds = map (read_member r c now b) (m ∷ ms) in
        let out = pipeline r c cmds w in
        collect-Kept out.0 out.1 (
          pipeline-Kept r c (Foreign ck) I safe.stable {A = FlushRecord} cmds w
            (reads-Preserves now b (m ∷ ms)) k)

    pub drain_band-Kept :
        (now b max_batch : ℕ) (w : World State)
        → Later w
        → Later (drain_band r c now b max_batch w).1
    unfolding drain_band
    drain_band-Kept now b max_batch w k =
        let cmd : Command r c (List (Bytes × ℕ)) = λ s. (r.zrange s (dirty b) max_batch, s) in
        read_members-Kept now b (round_trip r c cmd w)
          (round_trip-Kept r c (Foreign ck) I safe.stable {A = List (Bytes × ℕ)} cmd w (λ s h. h) k)
