-- ===== src/Shield/Flush/Held.antt =====
-- What the operations of a flush keep for one key of the band: the key waits, or has a dead-letter
-- entry; only a commit of the key itself can end that.
use sluice_go.Redis.{Redis}
use sluice_go.Redis.Keys.{payload, hash_eq}
use sluice_go.Shield.Calls.{Config, band_for, payload_of, dirty_of, commit_call, dead_letter_call}
use sluice_go.Shield.Pending.{Agree, Agree-IsPending}
use sluice_go.Shield.Scripts.{dead_letter_if_unchanged}
use sluice_go.Shield.Scripts.Commit.{
  same_version, commit_flushed-Agree, dead_letter-Agree, dead_letter_skipped,
}
use sluice_go.Shield.Traffic.{Action, act_all, Foreign}
use sluice_go.Shield.Traffic.Dead.{InDlq, commit_call-InDlq, dead_letter_call-InDlq, act_all-InDlq}
use sluice_go.Shield.Flush.Drained.{IsQueued, IsQueued-stable}
use sluice_go.Prelude.{
  ℕ, ◌≡◌, subst, sym, true, false, List, Bytes, bytes_eq, ==_refl, bytes_eq→≡, bytes_eq_refl, All,
  arith, Bool-cases, ◌⊎◌, inl, inr,
}

module _ (r : Redis) (c : Config) (ck : Bytes) where
  open r use {State}

  -- The key waits for a flush, or is in the dead-letter set of its band.
  abbrev pub IsHeld : State → Type 0
  IsHeld s = IsQueued r c ck s ⊎ InDlq r (band_for c ck) ck c s

  -- What a flush may do to a key, short of committing it.
  pub record IsSafe (I : State → Type 0) : Type 0 where
    pub stable :
        (traffic : List Action) (s : State)
        → All (Foreign ck) traffic
        → I s
        → I (act_all r c traffic s)
    pub buried :
        (k seq : Bytes) (now : ℕ) (reason : Bytes) (s : State)
        → I s
        → I (dead_letter_call r c (band_for c ck) k seq now reason s).1
    pub committed :
        (k seq : Bytes) (ttl now : ℕ) (s : State)
        → bytes_eq k ck ≡ false
        → I s
        → I (commit_call r c (band_for c ck) k seq ttl now s).1
    pub marked : (b : ℕ) (k : Bytes) (n : ℕ) (s : State) → I s → I (r.mark b k n s)

  other_hash :
      (k : Bytes)
      → bytes_eq k ck ≡ false
      → hash_eq (payload (band_for c ck) k) (payload_of c ck) ≡ false
  other_hash k e = ground (arith, e)

  agreeing :
      (s t : State)
      → IsQueued r c ck s
      → Agree r (payload_of c ck) (dirty_of c ck) ck s t
      → IsQueued r c ck t
  agreeing s t (n, drained, h) a = (n, drained, Agree-IsPending r c ck n drained s t a h)

  buried-entry :
      (seq : Bytes) (now : ℕ) (reason : Bytes) (s : State)
      → same_version r (payload_of c ck) seq s ≡ true
      → InDlq r (band_for c ck) ck c (dead_letter_call r c (band_for c ck) ck seq now reason s).1
  unfolding dead_letter_call dead_letter_if_unchanged
  buried-entry seq now reason s e = rw (
    e,
    r.zscore-zrem,
    r.zscore-pexpire,
    r.zscore-hset,
    r.zscore-hset,
    r.zscore-zadd,
    bytes_eq_refl ck,
    ==_refl (band_for c ck),
  )

  buried_self :
      (seq : Bytes) (now : ℕ) (reason : Bytes) (s : State)
      → IsQueued r c ck s
      → IsHeld (dead_letter_call r c (band_for c ck) ck seq now reason s).1
  unfolding dead_letter_call
  buried_self seq now reason s h = elim (Bool-cases (same_version r (payload_of c ck) seq s)) [
    | inl e ↦ inr (buried-entry seq now reason s e)
    | inr e ↦ inl (
        rw (dead_letter_skipped r (band_for c ck) (payload_of c ck) ck seq now reason c.dlq_ttl s e)
          h)
  ]

  buried-IsHeld :
      (k seq : Bytes) (now : ℕ) (reason : Bytes) (s : State)
      → IsHeld s
      → IsHeld (dead_letter_call r c (band_for c ck) k seq now reason s).1
  buried-IsHeld k seq now reason s (inr h) =
      inr (dead_letter_call-InDlq r (band_for c ck) ck c (band_for c ck) k seq now reason s h)
  buried-IsHeld k seq now reason s (inl h) = elim (Bool-cases (bytes_eq k ck)) [
    | inl e ↦
        subst (λ x. IsHeld (dead_letter_call r c (band_for c ck) x seq now reason s).1)
          (sym (bytes_eq→≡ k ck e)) (buried_self seq now reason s h)
    | inr e ↦ inl (
        agreeing s _ h (
          unfold dead_letter_call in
          dead_letter-Agree r (band_for c ck) (payload (band_for c ck) k) k seq now reason c.dlq_ttl
            s (band_for c ck) (payload_of c ck) ck (other_hash k e) e))
  ]

  committed-IsHeld :
      (k seq : Bytes) (ttl now : ℕ) (s : State)
      → bytes_eq k ck ≡ false
      → IsHeld s
      → IsHeld (commit_call r c (band_for c ck) k seq ttl now s).1
  committed-IsHeld k seq ttl now s e (inr h) =
      inr (commit_call-InDlq r (band_for c ck) ck c (band_for c ck) k seq ttl now s h)
  committed-IsHeld k seq ttl now s e (inl h) = inl (
      agreeing s _ h (
        unfold commit_call in
        commit_flushed-Agree r (band_for c ck) (payload (band_for c ck) k) _ k seq ttl _ s
          (band_for c ck) (payload_of c ck) ck (other_hash k e) e))

  marked-IsHeld : (b : ℕ) (k : Bytes) (n : ℕ) (s : State) → IsHeld s → IsHeld (r.mark b k n s)
  marked-IsHeld b k n s (inr h) = inr (rw r.zscore-mark h)
  marked-IsHeld b k n s (inl h) = inl (
      agreeing s _ h (record {
        body = r.hget-mark s b k n _ _;
        version = r.hget-mark s b k n _ _;
        ttl = r.pttl-mark s b k n _;
        queued = r.zscore-mark s b k n _ _;
      }))

  stable-IsHeld :
      (traffic : List Action) (s : State)
      → All (Foreign ck) traffic
      → IsHeld s
      → IsHeld (act_all r c traffic s)
  stable-IsHeld traffic s f (inl h) = inl (IsQueued-stable r c ck traffic s f h)
  stable-IsHeld traffic s f (inr h) = inr (act_all-InDlq r (band_for c ck) ck c traffic s f h)

  pub IsHeld-IsSafe : IsSafe IsHeld
  IsHeld-IsSafe = record {
    stable = stable-IsHeld;
    buried = buried-IsHeld;
    committed = committed-IsHeld;
    marked = marked-IsHeld;
  }
