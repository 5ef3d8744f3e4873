-- ===== src/Shield/Index/Prune/Live.antt =====
-- What pruneIndexMembers and PruneExpiredIndexes of internal/shield/index.go send to Redis spares
-- the keys that are alive.
use sluice_go.Naming.{index_values_key, index_expiry_key, index_registry_key}
use sluice_go.Naming.Distinct.{index_values_key-injective}
use sluice_go.Redis.{Ttl, missing, persistent, expiring}
use sluice_go.Shield.Index.{
  Queued, sadd, srem, zrem, zadd, zadd_expiry, expire, del, hset, cut_equality,
}
use sluice_go.Shield.Index.Query.{drop_value, prune_member, prune_index_members}
use sluice_go.Shield.Index.Prune.{
  MemberReplies, PruneReplies, is_missing, prune_values, prune_members, requeue, requeue_all,
  dead_of, prune_due, prune_queue, prune_expired_indexes,
}
use sluice_go.Prelude.{
  ℕ, ◌≡◌, ◌≢◌, refl, ap, ◌∙◌, Bool, true, false, Option, none, some, List, [], ◌∷◌, map, filter,
  Bytes, All, All-append, Bool-cases, ◌⊎◌, inl, inr,
}

-- What fails a test that a key passes is another key.
pub filter-others :
    (t : Bytes → Bool) (ck : Bytes) (cks : List Bytes)
    → t ck ≡ false
    → All (λ k. k ≢ ck) (filter t cks)
filter-others t ck [] h = tt
filter-others t ck (k ∷ ks) h = elim (Bool-cases (t k)) [
  | inl e ↦ rw e (λ same. unlike (e) (ap t same ∙ h), filter-others t ck ks h)
  | inr e ↦ rw e (filter-others t ck ks h)
]
  where
    unlike : {b : Bool} → b ≡ true → b ≡ false → ⊥
    unlike x y = cc

module _ (S : Type 0) (ns : Bytes) (band : ℕ) (ck : Bytes) where
  -- The command takes the key out of no index and keeps what idxv has of it: only the expiry queue
  -- may lose it, and the registry a name. What is deleted is what idxv has of another key, and no
  -- key gets an expiry or a new score.
  abbrev pub KeepsIndexed : Queued S → Type 0
  KeepsIndexed (srem k m) = (m ≢ ck) ⊎ (k ≡ index_registry_key ns band)
  KeepsIndexed (zrem k m) = (m ≢ ck) ⊎ (k ≡ index_expiry_key ns band)
  KeepsIndexed (del k) =
      (k ≢ index_values_key ns band ck) × (other : Bytes) × (k ≡ index_values_key ns band other)
  KeepsIndexed (hset k fields) = ⊥
  KeepsIndexed (sadd k m) = ⊥
  KeepsIndexed (zadd k s m) = ⊥
  KeepsIndexed (zadd_expiry k at m) = k ≡ index_expiry_key ns band
  KeepsIndexed (expire k ttl) = ⊥

  module _ (other : Bytes) (differs : other ≢ ck) where
    srem-Keeps : (sets : List Bytes) → All KeepsIndexed (map (λ key. srem key other) sets)
    srem-Keeps [] = tt
    srem-Keeps (k ∷ ks) = (inl differs, srem-Keeps ks)

    zrem-Keeps : (zsets : List Bytes) → All KeepsIndexed (map (λ key. zrem key other) zsets)
    zrem-Keeps [] = tt
    zrem-Keeps (k ∷ ks) = (inl differs, zrem-Keeps ks)

    drop_value-Keeps :
        (values_at : Bytes → List (Bytes × Bytes)) (f : Bytes) (o : Option Bytes)
        → KeepsIndexed (drop_value ns band values_at other f o)
    drop_value-Keeps values_at f none = inl differs
    drop_value-Keeps values_at f (some v) = inl differs

    values-Keeps :
        (values_at : Bytes → List (Bytes × Bytes)) (values : List (Bytes × Bytes))
        → All KeepsIndexed
            (map (λ p. drop_value ns band values_at other p.0 (cut_equality p.1)) values)
    values-Keeps values_at [] = tt
    values-Keeps values_at ((f, prev) ∷ rest) =
        (drop_value-Keeps values_at f (cut_equality prev), values-Keeps values_at rest)

    prune_member-Keeps :
        (values_at : Bytes → List (Bytes × Bytes)) (sets zsets : List Bytes)
        → All KeepsIndexed (prune_member ns band values_at sets zsets other)
    unfolding prune_member
    prune_member-Keeps values_at sets zsets = All-append KeepsIndexed _ _ (srem-Keeps sets) (
        All-append KeepsIndexed _ _ (zrem-Keeps zsets) (
          All-append KeepsIndexed _ _ (values-Keeps values_at (values_at other)) (
            (λ same. differs (index_values_key-injective ns band other ck same), other, refl),
            (inl differs, tt),
          )))

  prune_index_members-Keeps :
      (values_at : Bytes → List (Bytes × Bytes)) (sets zsets cks : List Bytes)
      → All (λ k. k ≢ ck) cks
      → All KeepsIndexed (prune_index_members ns band values_at sets zsets cks)
  unfolding prune_index_members
  prune_index_members-Keeps values_at sets zsets [] h = tt
  prune_index_members-Keeps values_at sets zsets (k ∷ ks) h =
      All-append KeepsIndexed _ _ (prune_member-Keeps k h.0 values_at sets zsets)
        (prune_index_members-Keeps values_at sets zsets ks h.1)

  prune_values-Keeps :
      (replies : MemberReplies) (o : Option (Bytes → List (Bytes × Bytes)))
      (cks sets zsets : List Bytes)
      → All (λ k. k ≢ ck) cks
      → All KeepsIndexed (prune_values ns band replies o cks sets zsets).commands
  prune_values-Keeps replies none cks sets zsets h = tt
  prune_values-Keeps replies (some values_at) cks sets zsets h =
      prune_index_members-Keeps values_at sets zsets cks h

  pub prune_members-Keeps :
      (replies : MemberReplies) (cks sets zsets : List Bytes)
      → All (λ k. k ≢ ck) cks
      → All KeepsIndexed (prune_members ns band replies cks sets zsets).commands
  unfolding prune_members
  prune_members-Keeps replies [] sets zsets h = tt
  prune_members-Keeps replies (k ∷ ks) sets zsets h =
      prune_values-Keeps replies replies.values (k ∷ ks) sets zsets h

  requeue-Keeps : (now : ℕ) (k : Bytes) (t : Ttl) → All KeepsIndexed (requeue ns band now k t)
  requeue-Keeps now k missing = tt
  requeue-Keeps now k persistent = (inr refl, tt)
  requeue-Keeps now k (expiring n) = (refl, tt)

  requeue_all-Keeps :
      (now : ℕ) (ttl_at : Bytes → Ttl) (cks : List Bytes)
      → All KeepsIndexed (requeue_all ns band now ttl_at cks)
  unfolding requeue_all
  requeue_all-Keeps now ttl_at [] = tt
  requeue_all-Keeps now ttl_at (k ∷ ks) =
      All-append KeepsIndexed _ _ (requeue-Keeps now k (ttl_at k)) (requeue_all-Keeps now ttl_at ks)

  -- PTTL, where it was answered, found the payload of the key.
  abbrev pub FoundBy : Option (Bytes → Ttl) → Type 0
  FoundBy none = Unit
  FoundBy (some ttl_at) = is_missing (ttl_at ck) ≡ false

  prune_due-Keeps :
      (now : ℕ) (replies : PruneReplies) (due : List Bytes) (o : Option (Bytes → Ttl))
      → FoundBy o
      → All KeepsIndexed (prune_due ns band now replies due o).commands
  unfolding prune_due
  prune_due-Keeps now replies due none h = tt
  prune_due-Keeps now replies due (some ttl_at) h = elim (Bool-cases replies.requeued) [
    | inl e ↦
        rw (e, prune_due)
          (All-append KeepsIndexed _ _ (requeue_all-Keeps now ttl_at due) (
            prune_members-Keeps replies.members (dead_of ttl_at due) [] []
              (filter-others (λ k. is_missing (ttl_at k)) ck due h)))
    | inr e ↦ rw (e, prune_due) (requeue_all-Keeps now ttl_at due)
  ]

  prune_queue-Keeps :
      (now : ℕ) (replies : PruneReplies) (o : Option (List Bytes))
      → FoundBy replies.ttls
      → All KeepsIndexed (prune_queue ns band now replies o).commands
  unfolding prune_queue
  prune_queue-Keeps now replies none h = tt
  prune_queue-Keeps now replies (some []) h = tt
  prune_queue-Keeps now replies (some (k ∷ ks)) h =
      prune_due-Keeps now replies (k ∷ ks) replies.ttls h

  -- If PTTL, where it is answered, finds the payload of a key, then whatever Redis answers
  -- otherwise and whatever fails, nothing that PruneExpiredIndexes sends takes the key out of an
  -- index or drops what idxv has of it.
  pub prune_expired_indexes-spares :
      (now : ℕ) (replies : PruneReplies)
      → FoundBy replies.ttls
      → All KeepsIndexed (prune_expired_indexes ns band now replies).commands
  unfolding prune_expired_indexes
  prune_expired_indexes-spares now replies h = prune_queue-Keeps now replies replies.due h
