-- ===== src/Shield/Index/Prune/Due.antt =====
-- What becomes of a due key in PruneExpiredIndexes of internal/shield/index.go.
use sluice_go.Naming.{codes, index_key, range_index_key, index_values_key, index_expiry_key}
use sluice_go.Redis.{Ttl, missing, persistent, expiring}
use sluice_go.Shield.Index.{Queued, srem, zrem, zadd_expiry, del, cut_equality}
use sluice_go.Shield.Index.Query.{drop_value, prune_member, prune_index_members}
use sluice_go.Shield.Index.Prune.{
  PruneReplies, is_missing, prune_members, requeue, requeue_all, dead_of, prune_due, prune_queue,
  prune_expired_indexes,
}
use sluice_go.Prelude.{
  ℕ, ◌+◌, Bool, ◌≡◌, refl, sym, subst, true, false, some, List, [], ◌∷◌, ◌++◌, map, Bytes,
  Bool-cases, inl, inr, Listed, Listed-append_left, Listed-append_right, Listed-map, Listed-filter,
}

module _ (S : Type 0) (ns : Bytes) (band now : ℕ) (ck : Bytes)
    (values_at : Bytes → List (Bytes × Bytes)) where
  -- The commands that take a key out of its indexes, out of idxv and out of the expiry queue: idxv
  -- has "s:" and the value for an equality index, and "n" for a range index.
  abbrev pub RemovedBy : List (Queued S) → Type 0
  RemovedBy commands =
      ((f v : Bytes)
        → Listed (f, codes "s:" ++ v) (values_at ck)
        → Listed (srem (index_key ns band f v) ck) commands)
      × ((f : Bytes)
          → Listed (f, codes "n") (values_at ck)
          → Listed (zrem (range_index_key ns band f) ck) commands)
      × Listed (del (index_values_key ns band ck)) commands
      × Listed (zrem (index_expiry_key ns band) ck) commands

  -- By the PTTL of its payload, a due key is removed, leaves the queue, or gets a new time in it.
  abbrev pub SettledBy : Ttl → List (Queued S) → Type 0
  SettledBy missing commands = RemovedBy commands
  SettledBy persistent commands = Listed (zrem (index_expiry_key ns band) ck) commands
  SettledBy (expiring n) commands =
      Listed (zadd_expiry (index_expiry_key ns band) (now + n) ck) commands

  prune_member-RemovedBy :
      (sets zsets : List Bytes) → RemovedBy (prune_member ns band values_at sets zsets ck)
  unfolding prune_member
  prune_member-RemovedBy sets zsets =
      let past = λ (x : Queued S) (h : Listed x (values ++ last)).
        Listed-append_right x (map (λ key. srem key ck) sets) _
          (Listed-append_right x (map (λ key. zrem key ck) zsets) _ h) in
      let dropped = λ (f prev : Bytes) (h : Listed (f, prev) (values_at ck)). past _ (
        Listed-append_left _ values last (
          Listed-map (λ (p : Bytes × Bytes). drop_value ns band values_at ck p.0 (cut_equality p.1))
            (f, prev) (values_at ck) h)) in
      (
        λ f v h. dropped f (codes "s:" ++ v) h,
        λ f h. dropped f (codes "n") h,
        past _ (Listed-append_right _ values last (inl refl)),
        past _ (Listed-append_right _ values last (inr (inl refl))),
      )
    where
      values : List (Queued S)
      values = map (λ p. drop_value ns band values_at ck p.0 (cut_equality p.1)) (values_at ck)

      last : List (Queued S)
      last = del (index_values_key ns band ck) ∷ (zrem (index_expiry_key ns band) ck ∷ [])

  RemovedBy-append_left : (xs ys : List (Queued S)) → RemovedBy xs → RemovedBy (xs ++ ys)
  RemovedBy-append_left xs ys (v, n, d, z) = (
    λ f w h. Listed-append_left _ xs ys (v f w h),
    λ f h. Listed-append_left _ xs ys (n f h),
    Listed-append_left _ xs ys d,
    Listed-append_left _ xs ys z,
  )

  RemovedBy-append_right : (xs ys : List (Queued S)) → RemovedBy ys → RemovedBy (xs ++ ys)
  RemovedBy-append_right xs ys (v, n, d, z) = (
    λ f w h. Listed-append_right _ xs ys (v f w h),
    λ f h. Listed-append_right _ xs ys (n f h),
    Listed-append_right _ xs ys d,
    Listed-append_right _ xs ys z,
  )

  prune_index_members-RemovedBy :
      (sets zsets cks : List Bytes)
      → Listed ck cks
      → RemovedBy (prune_index_members ns band values_at sets zsets cks)
  unfolding prune_index_members
  prune_index_members-RemovedBy sets zsets [] h = absurd h
  prune_index_members-RemovedBy sets zsets (k ∷ ks) (inl e) = RemovedBy-append_left _ _ (
      subst (λ k. RemovedBy (prune_member ns band values_at sets zsets k)) e
        (prune_member-RemovedBy sets zsets))
  prune_index_members-RemovedBy sets zsets (k ∷ ks) (inr h) =
      RemovedBy-append_right _ _ (prune_index_members-RemovedBy sets zsets ks h)

  prune_members-RemovedBy :
      (removed : Bool) (cks : List Bytes)
      → Listed ck cks
      → RemovedBy
          (prune_members ns band
            (record { values = some values_at; removed = removed })
            cks
            []
            []).commands
  unfolding prune_members
  prune_members-RemovedBy removed [] h = absurd h
  prune_members-RemovedBy removed (k ∷ ks) h = prune_index_members-RemovedBy [] [] (k ∷ ks) h

  SettledBy-append_left :
      (t : Ttl) (xs ys : List (Queued S)) → SettledBy t xs → SettledBy t (xs ++ ys)
  SettledBy-append_left missing xs ys h = RemovedBy-append_left xs ys h
  SettledBy-append_left persistent xs ys h = Listed-append_left _ xs ys h
  SettledBy-append_left (expiring n) xs ys h = Listed-append_left _ xs ys h

  SettledBy-append_right :
      (t : Ttl) (xs ys : List (Queued S)) → SettledBy t ys → SettledBy t (xs ++ ys)
  SettledBy-append_right missing xs ys h = RemovedBy-append_right xs ys h
  SettledBy-append_right persistent xs ys h = Listed-append_right _ xs ys h
  SettledBy-append_right (expiring n) xs ys h = Listed-append_right _ xs ys h

  requeue-SettledBy : (t : Ttl) → is_missing t ≡ false → SettledBy t (requeue ns band now ck t)
  requeue-SettledBy missing h = cc
  requeue-SettledBy persistent h = inl refl
  requeue-SettledBy (expiring n) h = inl refl

  requeue_all-SettledBy :
      (ttl_at : Bytes → Ttl) (cks : List Bytes)
      → is_missing (ttl_at ck) ≡ false
      → Listed ck cks
      → SettledBy (ttl_at ck) (requeue_all ns band now ttl_at cks)
  unfolding requeue_all
  requeue_all-SettledBy ttl_at [] e h = absurd h
  requeue_all-SettledBy ttl_at (k ∷ ks) e (inl same) = SettledBy-append_left (ttl_at ck) _ _ (
      subst (λ k. SettledBy (ttl_at ck) (requeue ns band now k (ttl_at k))) same
        (requeue-SettledBy (ttl_at ck) e))
  requeue_all-SettledBy ttl_at (k ∷ ks) e (inr h) =
      SettledBy-append_right (ttl_at ck) _ _ (requeue_all-SettledBy ttl_at ks e h)

  missing_eq : (t : Ttl) → is_missing t ≡ true → t ≡ missing
  missing_eq missing h = refl
  missing_eq persistent h = cc
  missing_eq (expiring n) h = cc

  -- The due keys, their PTTLs and their indexed values are answered, and the pipeline of the queue
  -- succeeds.
  abbrev pub all_answered : List Bytes → (Bytes → Ttl) → Bool → PruneReplies
  all_answered due ttl_at removed = record {
    due = some due;
    ttls = some ttl_at;
    requeued = true;
    members = record { values = some values_at; removed = removed };
  }

  prune_due-SettledBy :
      (due : List Bytes) (ttl_at : Bytes → Ttl) (removed : Bool)
      → Listed ck due
      → SettledBy
          (ttl_at ck)
          (prune_due {S = S} ns band now
            (all_answered due ttl_at removed)
            due
            (some ttl_at)).commands
  unfolding prune_due
  prune_due-SettledBy due ttl_at removed h =
      let queue : List (Queued S) = requeue_all ns band now ttl_at due in
      let sent : List (Queued S) =
        (prune_members {S = S} ns band (all_answered due ttl_at removed).members
          (dead_of ttl_at due) [] []).commands in
      elim (Bool-cases (is_missing (ttl_at ck))) [
        | inl gone ↦ SettledBy-append_right (ttl_at ck) queue sent (
            subst (λ t. SettledBy t sent) (sym (missing_eq (ttl_at ck) gone))
              (prune_members-RemovedBy removed (dead_of ttl_at due)
                (Listed-filter (λ k. is_missing (ttl_at k)) ck due gone h)))
        | inr there ↦
            SettledBy-append_left (ttl_at ck) queue sent (requeue_all-SettledBy ttl_at due there h)
      ]

  -- When the due keys, their PTTLs and their indexed values are answered and the pipeline of the
  -- queue succeeds, PruneExpiredIndexes sends for every due key by its PTTL: for a payload that is
  -- gone, its removal from the index of every value that idxv has, from idxv and from the queue;
  -- for a persistent one, its removal from the queue; for one that lives n milliseconds more, the
  -- new time now + n in the queue.
  pub prune_expired_indexes-settles :
      (due : List Bytes) (ttl_at : Bytes → Ttl) (removed : Bool)
      → Listed ck due
      → SettledBy
          (ttl_at ck)
          (prune_expired_indexes {S = S} ns band now (all_answered due ttl_at removed)).commands
  unfolding prune_expired_indexes prune_queue
  prune_expired_indexes-settles [] ttl_at removed h = absurd h
  prune_expired_indexes-settles (k ∷ ks) ttl_at removed h =
      prune_due-SettledBy (k ∷ ks) ttl_at removed h
