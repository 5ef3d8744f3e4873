-- ===== src/Engine/Durable.antt =====
-- The steps of engine.go that dead-letter and commit, seen by one key that is held: they keep it,
-- unless a commit names it.
use sluice_go.Shield.Traffic.{Foreign}
use sluice_go.Redis.{Redis}
use sluice_go.Shield.Calls.{band_for, commit_call}
use sluice_go.Shield.World.{World, Result, ok, err}
use sluice_go.Shield.World.Keeps.{Kept, Preserves}
use sluice_go.Shield.Flush.{VersionedKey, hot_keys, refresh_hot_markers}
use sluice_go.Shield.Flush.Held.{IsHeld, IsSafe, IsHeld-IsSafe}
use sluice_go.Shield.Flush.Keeps.{
  CommitsKeep, dead_letter_keys-Kept, commit_flushed_keys-Kept, hot_keys-Kept,
  refresh_hot_markers-Kept,
}
use sluice_go.Engine.Types.{EngineConfig, Run, contains}
use sluice_go.Engine.Commit.{
  dead_letter, handle_missing_payloads, hot_or_nil, read_hot, hot_among, flushed_items,
  commit_flushed,
}
use sluice_go.Prelude.{
  ℕ, ◌≡◌, Bool, true, false, List, [], ◌∷◌, Bytes, arith, Bool-cases, ◌⊎◌, inl, inr,
}

module _ (r : Redis) (c : EngineConfig) (ck : Bytes) (E : Type 0) where
  open r use {State}

  -- The key is held, or the evidence is there.
  abbrev pub HeldOr : State → Type 0
  HeldOr s = IsHeld r c.shield ck s ⊎ E

  abbrev pub Later : World State → Type 0
  Later = Kept r c.shield (Foreign ck) HeldOr

  pub HeldOr-IsSafe : IsSafe r c.shield ck HeldOr
  HeldOr-IsSafe =
      let safe = IsHeld-IsSafe r c.shield ck in
      record {
        stable =
            λ traffic s f h. elim h [ inl x ↦ inl (safe.stable traffic s f x) | inr e ↦ inr e ];
        buried = λ k seq now reason s h. elim h [
          | inl x ↦ inl (safe.buried k seq now reason s x)
          | inr e ↦ inr e
        ];
        committed = λ k seq ttl now s n h. elim h [
          | inl x ↦ inl (safe.committed k seq ttl now s n x)
          | inr e ↦ inr e
        ];
        marked = λ b k n s h. elim h [ inl x ↦ inl (safe.marked b k n s x) | inr e ↦ inr e ];
      }

  pub dead_letter-Kept :
      (now : ℕ) (items : List VersionedKey) (reason : Bytes) (w : World State)
      → Later w
      → Later (dead_letter r c now (band_for c.shield ck) items reason w)
  unfolding dead_letter
  dead_letter-Kept now items reason w k =
      dead_letter_keys-Kept r c.shield ck HeldOr HeldOr-IsSafe now items reason w k

  pub handle_missing-Kept :
      (now : ℕ) (items : List VersionedKey) (run : Run State)
      → Later run.world
      → Later (handle_missing_payloads r c now (band_for c.shield ck) items run).world
  unfolding handle_missing_payloads
  handle_missing-Kept now [] run k = k
  handle_missing-Kept now (i ∷ is) run k = dead_letter-Kept now (i ∷ is) _ run.world k

  read_hot-Kept : (keys : List Bytes) (w : World State) → Later w → Later (read_hot r c keys w).1
  unfolding read_hot
  read_hot-Kept keys w k = elim (Bool-cases c.hot_aware_flush) [
    | inl e ↦
        rw (e, read_hot)
          (nil (hot_keys r c.shield keys w)
            (hot_keys-Kept r c.shield ck HeldOr HeldOr-IsSafe keys w k))
    | inr e ↦ rw (e, read_hot) k
  ]
    where
      nil : (out : Result (List Bool) × World State) → Later out.1 → Later (hot_or_nil r c out).1
      nil (ok hot, w) h = h
      nil (err e, w) h = h

  -- Either the key is no item, or the evidence is there whatever becomes of it.
  abbrev pub MayCommit : List Bytes → Type 0
  MayCommit keys = (contains keys ck ≡ false) ⊎ E

  MayCommit-tail : (k : Bytes) (ks : List Bytes) → MayCommit (k ∷ ks) → MayCommit ks
  unfolding contains
  MayCommit-tail k ks (inl h) = inl (ground (arith, h))
  MayCommit-tail k ks (inr e) = inr e

  commit-Preserves :
      (k : Bytes) (ks : List Bytes) (seq : Bytes) (ttl now : ℕ)
      → MayCommit (k ∷ ks)
      → Preserves r c.shield
          (Foreign ck)
          HeldOr
          {A = Bool}
          (commit_call r c.shield (band_for c.shield ck) k seq ttl now)
  unfolding contains
  commit-Preserves k ks seq ttl now (inl h) s x =
      HeldOr-IsSafe.committed k seq ttl now s (ground (arith, h)) x
  commit-Preserves k ks seq ttl now (inr e) s x = inr e

  items-CommitsKeep :
      (now : ℕ) (seqs : List (Bytes × Bytes)) (keys : List Bytes) (hot : List Bool)
      → MayCommit keys
      → CommitsKeep r c.shield ck HeldOr HeldOr-IsSafe now (flushed_items r c seqs keys hot)
  unfolding flushed_items
  items-CommitsKeep now seqs [] hot m = tt
  items-CommitsKeep now seqs (k ∷ ks) (true ∷ hot) m =
      (commit-Preserves k ks _ _ now m, items-CommitsKeep now seqs ks hot (MayCommit-tail k ks m))
  items-CommitsKeep now seqs (k ∷ ks) (false ∷ hot) m =
      (commit-Preserves k ks _ _ now m, items-CommitsKeep now seqs ks hot (MayCommit-tail k ks m))
  items-CommitsKeep now seqs (k ∷ ks) [] m =
      (commit-Preserves k ks _ _ now m, items-CommitsKeep now seqs ks [] (MayCommit-tail k ks m))

  pub commit_flushed-Kept :
      (now : ℕ) (keys : List Bytes) (seqs : List (Bytes × Bytes)) (w : World State)
      → MayCommit keys
      → Later w
      → Later (commit_flushed r c now (band_for c.shield ck) keys seqs w)
  unfolding commit_flushed
  commit_flushed-Kept now [] seqs w m k = k
  commit_flushed-Kept now (j ∷ js) seqs w m k =
      let hot = read_hot r c (j ∷ js) w in
      let marks = hot_among r c (j ∷ js) hot.0 in
      commit_flushed_keys-Kept r c.shield ck HeldOr HeldOr-IsSafe now
        (flushed_items r c seqs (j ∷ js) hot.0)
        (refresh_hot_markers r c.shield marks c.activity_window hot.1).1
        (items-CommitsKeep now seqs (j ∷ js) hot.0 m)
        (refresh_hot_markers-Kept r c.shield ck HeldOr HeldOr-IsSafe marks c.activity_window hot.1
          (read_hot-Kept (j ∷ js) w k))
