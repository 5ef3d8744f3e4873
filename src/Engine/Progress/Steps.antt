-- ===== src/Engine/Progress/Steps.antt =====
-- The commits and dead letters of engine.go in a calm world, for the version of one key and for
-- its place in the dirty set.
use sluice_go.Naming.Decimal.{itoa}
use sluice_go.Redis.{Redis}
use sluice_go.Redis.Keys.{payload, hash_eq}
use sluice_go.Shield.Fields.{field_v}
use sluice_go.Shield.Calls.{Config, band_for, payload_of, dirty_of, commit_call, dead_letter_call}
use sluice_go.Shield.Scripts.{commit_flushed, dead_letter_if_unchanged}
use sluice_go.Shield.Scripts.Commit.{
  same_version, queue_zscore, commit_flushed-Agree, dead_letter-Agree, commit_flushed_done,
}
use sluice_go.Shield.World.{Command}
use sluice_go.Shield.World.Calm.{run_all}
use sluice_go.Shield.Flush.{VersionedKey, FlushedKey, commit_commands, dead_letter_commands}
use sluice_go.Prelude.{
  ℕ, ◌≡◌, ◌∙◌, sym, subst, Bool, true, false, none, some, List, [], ◌∷◌, Bytes, bytes_eq,
  bytes_eq→≡, bytes_eq_refl, All, arith, Bool-cases, ltb, ◌⊎◌, inl, inr,
}

module _ (r : Redis) (c : Config) (ck : Bytes) where
  open r use {State, hget, zscore}

  -- The key is at that version.
  abbrev pub AtVersion : ℕ → State → Type 0
  AtVersion n s = hget s (payload_of c ck) field_v ≡ some (itoa n)

  -- The key is not in the dirty set.
  abbrev pub IsSettled : State → Type 0
  IsSettled s = zscore s (dirty_of c ck) ck ≡ none

  other_hash :
      (k : Bytes)
      → bytes_eq k ck ≡ false
      → hash_eq (payload (band_for c ck) k) (payload_of c ck) ≡ false
  other_hash k e = ground (arith, e)

  module _ (k seq : Bytes) (now : ℕ) (s : State) where
    commit_other :
        (ttl n : ℕ)
        → bytes_eq k ck ≡ false
        → AtVersion n s
        → AtVersion n (commit_call r c (band_for c ck) k seq ttl now s).1
    unfolding commit_call
    commit_other ttl n e h =
        (commit_flushed-Agree r (band_for c ck) (payload (band_for c ck) k) _ k seq ttl _ s
          (band_for c ck) (payload_of c ck) ck (other_hash k e) e).version
        ∙ h

    dead_letter_other :
        (reason : Bytes) (n : ℕ)
        → bytes_eq k ck ≡ false
        → AtVersion n s
        → AtVersion n (dead_letter_call r c (band_for c ck) k seq now reason s).1
    unfolding dead_letter_call
    dead_letter_other reason n e h =
        (dead_letter-Agree r (band_for c ck) (payload (band_for c ck) k) k seq now reason c.dlq_ttl
          s (band_for c ck) (payload_of c ck) ck (other_hash k e) e).version
        ∙ h

    -- Neither script puts a key into the dirty set.
    commit-IsSettled :
        (ttl : ℕ) → IsSettled s → IsSettled (commit_call r c (band_for c ck) k seq ttl now s).1
    unfolding commit_call commit_flushed
    commit-IsSettled ttl h =
        let b = band_for c ck in
        elim (Bool-cases (same_version r (payload b k) seq s)) [
          | inl e ↦ elim (Bool-cases (ltb 0 ttl)) [
            | inl p ↦
                rw (e, p)
                  (queue_zscore r b (payload b k) _ k seq ttl _ s _ b ck
                    ∙ rw (r.zscore-pexpire, r.zscore-zrem) (ground (arith, h)))
            | inr z ↦ rw (e, z, r.zscore-zrem) (ground (arith, h))
          ]
          | inr e ↦ rw e h
        ]

    dead_letter-IsSettled :
        (reason : Bytes)
        → IsSettled s
        → IsSettled (dead_letter_call r c (band_for c ck) k seq now reason s).1
    unfolding dead_letter_call dead_letter_if_unchanged
    dead_letter-IsSettled reason h =
        elim (Bool-cases (same_version r (payload (band_for c ck) k) seq s)) [
          | inl e ↦
              rw (e, r.zscore-zrem, r.zscore-pexpire, r.zscore-hset, r.zscore-hset, r.zscore-zadd)
                (ground (arith, h))
          | inr e ↦ rw e h
        ]

  -- The commit at the version that the key has.
  commit_self :
      (n ttl now : ℕ) (s : State)
      → AtVersion n s
      → IsSettled (commit_call r c (band_for c ck) ck (itoa n) ttl now s).1
  unfolding commit_call
  commit_self n ttl now s h =
      (commit_flushed_done r (band_for c ck) (payload_of c ck) _ ck (itoa n) ttl _ s
        (rw h (bytes_eq_refl (itoa n)))).1

  -- Commits of items, of which those of the key carry its version.
  abbrev pub CarriesIf : ℕ → Bytes → Bytes → Type 0
  CarriesIf n k seq = bytes_eq k ck ≡ true → seq ≡ itoa n

  abbrev pub HasItem : List FlushedKey → Type 0
  HasItem [] = ⊥
  HasItem (i ∷ is) = (bytes_eq i.correlation_key ck ≡ true) ⊎ HasItem is

  module _ (now : ℕ) where
    abbrev commits : List FlushedKey → List (Command r c Bool)
    commits = commit_commands r c now (band_for c ck)

    commits-IsSettled :
        (is : List FlushedKey) (s : State) → IsSettled s → IsSettled (run_all r c (commits is) s)
    commits-IsSettled [] s h = h
    commits-IsSettled (i ∷ is) s h =
        commits-IsSettled is _ (commit-IsSettled i.correlation_key i.seq now s i.ttl h)

    pub commits_settle :
        (n : ℕ) (is : List FlushedKey) (s : State)
        → All (λ (i : FlushedKey). CarriesIf n i.correlation_key i.seq) is
        → HasItem is
        → AtVersion n s
        → IsSettled (run_all r c (commits is) s)
    commits_settle n [] s carry has h = absurd has
    commits_settle n (i ∷ is) s carry has h = elim (Bool-cases (bytes_eq i.correlation_key ck)) [
      | inl e ↦ commits-IsSettled is _ (
          subst (λ k. IsSettled (commit_call r c (band_for c ck) k i.seq i.ttl now s).1)
            (sym (bytes_eq→≡ i.correlation_key ck e))
            (subst (λ q. IsSettled (commit_call r c (band_for c ck) ck q i.ttl now s).1)
              (sym (carry.0 e)) (commit_self n i.ttl now s h)))
      | inr e ↦
          commits_settle n is _ carry.1 (elim has [ inl x ↦ cc | inr x ↦ x ])
            (commit_other i.correlation_key i.seq now s i.ttl n e h)
    ]

    pub dead_letters-IsSettled :
        (reason : Bytes) (is : List VersionedKey) (s : State)
        → IsSettled s
        → IsSettled (run_all r c (dead_letter_commands r c now (band_for c ck) reason is) s)
    dead_letters-IsSettled reason [] s h = h
    dead_letters-IsSettled reason (i ∷ is) s h =
        dead_letters-IsSettled reason is _
          (dead_letter-IsSettled i.correlation_key i.seq now s reason h)

    pub dead_letters_other :
        (reason : Bytes) (n : ℕ) (is : List VersionedKey) (s : State)
        → All (λ (i : VersionedKey). bytes_eq i.correlation_key ck ≡ false) is
        → AtVersion n s
        → AtVersion n (run_all r c (dead_letter_commands r c now (band_for c ck) reason is) s)
    dead_letters_other reason n [] s o h = h
    dead_letters_other reason n (i ∷ is) s o h =
        dead_letters_other reason n is _ o.1
          (dead_letter_other i.correlation_key i.seq now s reason n o.0 h)
