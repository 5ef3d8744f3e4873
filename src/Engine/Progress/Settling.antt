-- ===== src/Engine/Progress/Settling.antt =====
-- `deadLetter`, `handleMissingPayloads` and `commitFlushed` of engine.go in a calm world.
use sluice_go.Naming.Decimal.{itoa}
use sluice_go.Redis.{Redis}
use sluice_go.Shield.Calls.{band_for}
use sluice_go.Shield.World.{World}
use sluice_go.Shield.World.Calm.{calm, CalmAt, CalmAt-map, run_all, eval_sha_pipelined-calm}
use sluice_go.Shield.Flush.{
  VersionedKey, FlushedKey, dead_letter_keys, commit_flushed_keys, commit_commands, select_keys,
  dead_letter_commands, hot_keys, refresh_hot_markers, marker_reads, marker_writes,
  done_if_answered,
}
use sluice_go.Shield.Flush.Calm.{collect-calm}
use sluice_go.Engine.Types.{EngineConfig, Run, seq_of, contains}
use sluice_go.Engine.Commit.{
  dead_letter, handle_missing_payloads, hot_or_nil, read_hot, hot_among, flushed_items,
  commit_flushed,
}
use sluice_go.Engine.Progress.Steps.{
  AtVersion, IsSettled, CarriesIf, HasItem, commits_settle, dead_letters-IsSettled,
  dead_letters_other,
}
use sluice_go.Prelude.{
  ℕ, ◌≡◌, refl, ◌∙◌, ap, sym, subst, Bool, true, false, List, [], ◌∷◌, Bytes, bytes_eq, bytes_eq→≡,
  All, arith, Bool-cases, ◌⊎◌, inl, inr,
}

module _ (r : Redis) (c : EngineConfig) (ck : Bytes) where
  open r use {State}

  abbrev band : ℕ
  band = band_for c.shield ck

  -- A dead letter in a calm world runs its scripts, also where it has none.
  dead_letter-calm :
      (now : ℕ) (items : List VersionedKey) (reason : Bytes) (s : State)
      → dead_letter r c now band items reason (calm s)
        ≡ calm (run_all r c.shield (dead_letter_commands r c.shield now band reason items) s)
  unfolding dead_letter dead_letter_keys select_keys
  dead_letter-calm now [] reason s = refl
  dead_letter-calm now (i ∷ is) reason s =
      rw
        (eval_sha_pipelined-calm r c.shield
          (dead_letter_commands r c.shield now band reason (i ∷ is)) s)
        refl

  pub dead_letter-AtVersion :
      (n now : ℕ) (items : List VersionedKey) (reason : Bytes) (w : World State)
      → All (λ (i : VersionedKey). bytes_eq i.correlation_key ck ≡ false) items
      → CalmAt (AtVersion r c.shield ck n) w
      → CalmAt (AtVersion r c.shield ck n) (dead_letter r c now band items reason w)
  dead_letter-AtVersion n now items reason w o =
      CalmAt-map (AtVersion r c.shield ck n) (AtVersion r c.shield ck n)
        (dead_letter r c now band items reason) _ (dead_letter-calm now items reason)
        (λ s. dead_letters_other r c.shield ck now reason n items s o) w

  pub dead_letter-IsSettled :
      (now : ℕ) (items : List VersionedKey) (reason : Bytes) (w : World State)
      → CalmAt (IsSettled r c.shield ck) w
      → CalmAt (IsSettled r c.shield ck) (dead_letter r c now band items reason w)
  dead_letter-IsSettled now items reason w =
      CalmAt-map (IsSettled r c.shield ck) (IsSettled r c.shield ck)
        (dead_letter r c now band items reason) _ (dead_letter-calm now items reason)
        (dead_letters-IsSettled r c.shield ck now reason items) w

  pub handle_missing-AtVersion :
      (n now : ℕ) (items : List VersionedKey) (run : Run State)
      → All (λ (i : VersionedKey). bytes_eq i.correlation_key ck ≡ false) items
      → CalmAt (AtVersion r c.shield ck n) run.world
      → CalmAt (AtVersion r c.shield ck n) (handle_missing_payloads r c now band items run).world
  unfolding handle_missing_payloads
  handle_missing-AtVersion n now [] run o h = h
  handle_missing-AtVersion n now (i ∷ is) run o h =
      dead_letter-AtVersion n now (i ∷ is) _ run.world o h

  -- Reading the hot markers changes nothing.
  reads-same :
      (keys : List Bytes) (s : State) → run_all r c.shield (marker_reads r c.shield keys) s ≡ s
  reads-same [] s = refl
  reads-same (k ∷ ks) s = reads-same ks s

  hot_keys-calm :
      (keys : List Bytes) (s : State)
      → (hot_or_nil r c (hot_keys r c.shield keys (calm s))).1 ≡ calm s
  unfolding hot_keys hot_or_nil
  hot_keys-calm keys s =
      ap (λ out. (hot_or_nil r c out).1) (collect-calm r c.shield (marker_reads r c.shield keys) s)
      ∙ ap calm (reads-same keys s)

  read_hot-calm : (keys : List Bytes) (s : State) → (read_hot r c keys (calm s)).1 ≡ calm s
  unfolding read_hot
  read_hot-calm keys s = elim (Bool-cases c.hot_aware_flush) [
    | inl e ↦ rw (e, read_hot) (hot_keys-calm keys s)
    | inr e ↦ rw (e, read_hot)
  ]

  -- Writing them changes no hash.
  marks-AtVersion :
      (n ttl : ℕ) (keys : List Bytes) (s : State)
      → AtVersion r c.shield ck n s
      → AtVersion r c.shield ck n (run_all r c.shield (marker_writes r c.shield ttl keys) s)
  marks-AtVersion n ttl [] s h = h
  marks-AtVersion n ttl (k ∷ ks) s h =
      marks-AtVersion n ttl ks _ (r.hget-mark s (band_for c.shield k) k ttl _ _ ∙ h)

  refresh_hot-calm :
      (ttl : ℕ) (keys : List Bytes) (s : State)
      → (refresh_hot_markers r c.shield keys ttl (calm s)).1
        ≡ calm (run_all r c.shield (marker_writes r c.shield ttl keys) s)
  unfolding refresh_hot_markers done_if_answered
  refresh_hot-calm ttl [] s = refl
  refresh_hot-calm ttl (k ∷ ks) s =
      ap (λ out. (done_if_answered r c.shield out).1)
        (collect-calm r c.shield (marker_writes r c.shield ttl (k ∷ ks)) s)

  commit_keys-calm :
      (now : ℕ) (items : List FlushedKey) (s : State)
      → (commit_flushed_keys r c.shield now band items (calm s)).1
        ≡ calm (run_all r c.shield (commit_commands r c.shield now band items) s)
  unfolding commit_flushed_keys select_keys
  commit_keys-calm now [] s = refl
  commit_keys-calm now (i ∷ is) s =
      rw (eval_sha_pipelined-calm r c.shield (commit_commands r c.shield now band (i ∷ is)) s) refl

  module _ (n : ℕ) (seqs : List (Bytes × Bytes)) (at : seq_of seqs ck ≡ itoa n) where
    abbrev Carrying : List FlushedKey → Type 0
    Carrying = All λ (i : FlushedKey). CarriesIf r c.shield ck n i.correlation_key i.seq

    seq_carries : (k : Bytes) → CarriesIf r c.shield ck n k (seq_of seqs k)
    seq_carries k e = ap (seq_of seqs) (bytes_eq→≡ k ck e) ∙ at

    items_carry : (keys : List Bytes) (hot : List Bool) → Carrying (flushed_items r c seqs keys hot)
    unfolding flushed_items
    items_carry [] hot = tt
    items_carry (k ∷ ks) [] = (seq_carries k, items_carry ks [])
    items_carry (k ∷ ks) (true ∷ hot) = (seq_carries k, items_carry ks hot)
    items_carry (k ∷ ks) (false ∷ hot) = (seq_carries k, items_carry ks hot)

    first_or_later :
        (k : Bytes) (ks : List Bytes) (Rest : Type 0)
        → contains (k ∷ ks) ck ≡ true
        → (contains ks ck ≡ true → Rest)
        → (bytes_eq k ck ≡ true) ⊎ Rest
    unfolding contains
    first_or_later k ks Rest h later = elim (Bool-cases (bytes_eq k ck)) [
      | inl e ↦ inl e
      | inr e ↦ inr (later (ground (arith, h, e)))
    ]

    items_have :
        (keys : List Bytes) (hot : List Bool)
        → contains keys ck ≡ true
        → HasItem r c.shield ck (flushed_items r c seqs keys hot)
    unfolding flushed_items
    items_have [] hot h = unfold contains in cc
    items_have (k ∷ ks) [] h = first_or_later k ks _ h (items_have ks [])
    items_have (k ∷ ks) (true ∷ hot) h = first_or_later k ks _ h (items_have ks hot)
    items_have (k ∷ ks) (false ∷ hot) h = first_or_later k ks _ h (items_have ks hot)

    -- A commit that names the key, at the version that the key has, takes it off the dirty set.
    commit_flushed-settles :
        (now : ℕ) (keys : List Bytes) (s : State)
        → contains keys ck ≡ true
        → AtVersion r c.shield ck n s
        → CalmAt (IsSettled r c.shield ck) (commit_flushed r c now band keys seqs (calm s))
    unfolding commit_flushed
    commit_flushed-settles now [] s there h = unfold contains in cc
    commit_flushed-settles now (k ∷ ks) s there h =
        let hot = (read_hot r c (k ∷ ks) (calm s)).0 in
        let marks = hot_among r c (k ∷ ks) hot in
        let items = flushed_items r c seqs (k ∷ ks) hot in
        let marked = run_all r c.shield (marker_writes r c.shield c.activity_window marks) s in
        (
          run_all r c.shield (commit_commands r c.shield now band items) marked,
          ap
                (λ w.
                  (commit_flushed_keys r c.shield now band items
                    (refresh_hot_markers r c.shield marks c.activity_window w).1).1)
                (read_hot-calm (k ∷ ks) s)
              ∙ ap (λ w. (commit_flushed_keys r c.shield now band items w).1)
                  (refresh_hot-calm c.activity_window marks s)
              ∙ commit_keys-calm now items marked,
          commits_settle r c.shield ck now n items marked (items_carry (k ∷ ks) hot)
              (items_have (k ∷ ks) hot there) (marks-AtVersion n c.activity_window marks s h),
        )

    pub commit_flushed-IsSettled :
        (now : ℕ) (keys : List Bytes) (w : World State)
        → contains keys ck ≡ true
        → CalmAt (AtVersion r c.shield ck n) w
        → CalmAt (IsSettled r c.shield ck) (commit_flushed r c now band keys seqs w)
    commit_flushed-IsSettled now keys w there (s, e, h) =
        subst (λ w. CalmAt (IsSettled r c.shield ck) (commit_flushed r c now band keys seqs w))
          (sym e) (commit_flushed-settles now keys s there h)
