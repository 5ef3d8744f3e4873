-- ===== src/Shield/Traffic/Dead.antt =====
-- A dead-letter entry outlives every script but those of the dead-letter processor.
use sluice_go.Redis.{Redis}
use sluice_go.Redis.Keys.{HashKey, dirty, dlq, idxexp}
use sluice_go.Shield.Fields.{field_p, field_h}
use sluice_go.Shield.Calls.{
  Config, band_for, write_call, dedup_call, hydrate_call, extend_call, commit_call,
  dead_letter_call,
}
use sluice_go.Shield.Pending.{is_some}
use sluice_go.Shield.Scripts.{
  atomic_write, atomic_dedup_write, hydrate, extend_ttl, commit_flushed, dead_letter_if_unchanged,
  refresh, holds, shorter,
}
use sluice_go.Shield.Scripts.Commit.{same_version}
use sluice_go.Shield.Traffic.{
  Action, writes, dedup_writes, hydrates, extends, commits, dead_letters, deletes, unburies,
  elapses, act, act_all, Foreign,
}
use sluice_go.Prelude.{
  ℕ, ◌+◌, ◌≡◌, ◌∙◌, true, Option, List, [], ◌∷◌, if◌then◌else◌, Bytes, All, ltb, arith, Bool-cases,
  Option-cases, inl, inr,
}

module _ (r : Redis) (b : ℕ) (ck : Bytes) where
  open r use {State, zscore}

  -- The dead-letter entry of the key in a band.
  abbrev pub entry : State → Option ℕ
  entry s = zscore s (dlq b) ck

  refresh-entry : (k : HashKey) (n : ℕ) (s : State) → entry (refresh r k n s) ≡ entry s
  unfolding refresh
  refresh-entry k n s = elim (Bool-cases (shorter (r.pttl s k) n)) [
    | inl e ↦ rw (e, r.zscore-pexpire)
    | inr e ↦ rw e
  ]

  queue-entry :
      (a n : ℕ) (v : HashKey) (l : Bytes) (t : State)
      → entry (if r.exists t v then r.zadd (idxexp a) n l t else t) ≡ entry t
  queue-entry a n v l t = elim (Bool-cases (r.exists t v)) [
    | inl e ↦ rw (e, r.zscore-zadd)
    | inr e ↦ rw e
  ]

  write-entry :
      (a ts : ℕ) (k : HashKey) (x l : Bytes) (s : State)
      → entry (atomic_write r k (dirty a) x ts l s) ≡ entry s
  unfolding atomic_write
  write-entry a ts k x l s =
      rw (r.zscore-zadd, r.zscore-persist, r.zscore-hincrby, r.zscore-hset, r.zscore-hset)

  dedup-entry :
      (a ts ttl : ℕ) (k : HashKey) (x l hash : Bytes) (s : State)
      → entry (atomic_dedup_write r k (dirty a) x ts l ttl hash s).1 ≡ entry s
  unfolding atomic_dedup_write
  dedup-entry a ts ttl k x l hash s = elim (Bool-cases (holds (r.hget s k field_h) hash)) [
    | inl e ↦ rw e (refresh-entry k ttl s)
    | inr e ↦ rw (
      e, r.zscore-zadd, r.zscore-persist, r.zscore-hincrby, r.zscore-hset, r.zscore-hset,
      r.zscore-hset,
    )
  ]

  hydrate-entry :
      (ts ttl : ℕ) (k : HashKey) (x : Bytes) (s : State)
      → entry (hydrate r k x ts ttl s).1 ≡ entry s
  unfolding hydrate
  hydrate-entry ts ttl k x s = elim (Option-cases (r.hget s k field_p)) [
    | inl e ↦ rw (e, r.zscore-pexpire, r.zscore-hdel, r.zscore-hset, r.zscore-hset)
    | inr (cur, e) ↦ rw e (refresh-entry k ttl s)
  ]

  extend-entry :
      (a ttl at : ℕ) (k v : HashKey) (l : Bytes) (s : State)
      → entry (extend_ttl r k (idxexp a) v ttl at l s).1 ≡ entry s
  unfolding extend_ttl
  extend-entry a ttl at k v l s = elim (Bool-cases (shorter (r.pttl s k) ttl)) [
    | inl e ↦ rw e (queue-entry a at v l (r.pexpire k ttl s) ∙ rw r.zscore-pexpire)
    | inr e ↦ rw e
  ]

  commit-entry :
      (a ttl at : ℕ) (k v : HashKey) (l seq : Bytes) (s : State)
      → entry (commit_flushed r (dirty a) k (idxexp a) v l seq ttl at s).1 ≡ entry s
  unfolding commit_flushed
  commit-entry a ttl at k v l seq s = elim (Bool-cases (same_version r k seq s)) [
    | inl e ↦ elim (Bool-cases (ltb 0 ttl)) [
      | inl p ↦
          rw (e, p)
            (queue-entry a at v l (r.pexpire k ttl (r.zrem (dirty a) l s))
              ∙ rw (r.zscore-pexpire, r.zscore-zrem))
      | inr z ↦ rw (e, z, r.zscore-zrem)
    ]
    | inr e ↦ rw e
  ]

  dead_letter-entry :
      (a at ttl : ℕ) (k : HashKey) (l seq reason : Bytes) (s : State)
      → is_some (entry s) ≡ true
      → is_some (entry (dead_letter_if_unchanged r (dirty a) (dlq a) k l seq at reason ttl s).1)
        ≡ true
  unfolding dead_letter_if_unchanged
  dead_letter-entry a at ttl k l seq reason s h = elim (Bool-cases (same_version r k seq s)) [
    | inl e ↦
        rw (e, r.zscore-zrem, r.zscore-pexpire, r.zscore-hset, r.zscore-hset, r.zscore-zadd)
          (ground (arith, h))
    | inr e ↦ rw e h
  ]

  module _ (c : Config) where
    abbrev pub InDlq : State → Type 0
    InDlq s = is_some (entry s) ≡ true

    pub commit_call-InDlq :
        (band : ℕ) (l seq : Bytes) (ttl now : ℕ) (s : State)
        → InDlq s
        → InDlq (commit_call r c band l seq ttl now s).1
    unfolding commit_call
    commit_call-InDlq band l seq ttl now s h = rw (commit-entry band ttl (now + ttl) _ _ l seq s) h

    pub dead_letter_call-InDlq :
        (band : ℕ) (l seq : Bytes) (now : ℕ) (reason : Bytes) (s : State)
        → InDlq s
        → InDlq (dead_letter_call r c band l seq now reason s).1
    unfolding dead_letter_call
    dead_letter_call-InDlq band l seq now reason s h =
        dead_letter-entry band now c.dlq_ttl _ l seq reason s h

    act-InDlq : (a : Action) (s : State) → Foreign ck a → InDlq s → InDlq (act r c a s)
    unfolding act write_call dedup_call hydrate_call extend_call
    act-InDlq (writes l body ts) s f h = rw (write-entry (band_for c l) ts _ body l s) h
    act-InDlq (dedup_writes l body ts hash) s f h =
        rw (dedup-entry (band_for c l) ts c.key_ttl _ body l hash s) h
    act-InDlq (hydrates l body ts) s f h = rw (hydrate-entry ts c.activity_window _ body s) h
    act-InDlq (extends l now) s f h =
        rw (extend-entry (band_for c l) c.activity_window (now + c.activity_window) _ _ l s) h
    act-InDlq (commits l seq ttl now) s f h = commit_call-InDlq (band_for c l) l seq ttl now s h
    act-InDlq (dead_letters l seq now reason) s f h =
        dead_letter_call-InDlq (band_for c l) l seq now reason s h
    act-InDlq (deletes l) s f h = rw r.zscore-del h
    act-InDlq (unburies l) s f h = rw r.zscore-zrem (ground (arith, f, h))
    act-InDlq (elapses d) s f h = rw r.zscore-elapse h

    -- No traffic that does not settle the key removes its dead-letter entry.
    pub act_all-InDlq :
        (traffic : List Action) (s : State)
        → All (Foreign ck) traffic
        → InDlq s
        → InDlq (act_all r c traffic s)
    unfolding act_all
    act_all-InDlq [] s f h = h
    act_all-InDlq (a ∷ rest) s f h = act_all-InDlq rest (act r c a s) f.1 (act-InDlq a s f.0 h)
