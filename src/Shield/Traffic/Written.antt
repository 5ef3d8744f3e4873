-- ===== src/Shield/Traffic/Written.antt =====
-- What a caller of Write and WriteIdempotent may rely on once the script has run: the payload waits
-- for its flush.
use sluice_go.Naming.Decimal.{itoa}
use sluice_go.Redis.{Redis}
use sluice_go.Shield.Fields.{field_v}
use sluice_go.Shield.Calls.{Config, band_for, payload_of, write_call}
use sluice_go.Shield.Pending.{IsPending}
use sluice_go.Shield.Scripts.Write.{
  pttl-atomic_write, hget-atomic_write_p, hget-atomic_write_v, hget-atomic_write_v_new,
  zscore-atomic_write,
}
use sluice_go.Shield.Traffic.{Action, act_all, Foreign}
use sluice_go.Shield.Traffic.Keeps.{act_all-IsPending}
use sluice_go.Prelude.{
  ℕ, suc, ◌≡◌, refl, ◌∙◌, ap, none, some, List, Bytes, bytes_eq_refl, All, sym, ==_refl, arith, ◌⊎◌,
  inl, inr,
}

module _ (r : Redis) (c : Config) (ck : Bytes) where
  open r use {State, hget, pttl, zscore}

  -- The version field of the key: not there before the first write, then a number.
  abbrev pub Versioned : ℕ → State → Type 0
  Versioned n s =
      (hget s (payload_of c ck) field_v ≡ some (itoa n))
      ⊎ ((n ≡ 0) × (hget s (payload_of c ck) field_v ≡ none))

  module _ (body : Bytes) (ts n : ℕ) (s : State) where
    written-version :
        Versioned n s
        → hget (write_call r c ck body ts s) (payload_of c ck) field_v ≡ some (itoa (suc n))
    unfolding write_call
    written-version (inl h) = hget-atomic_write_v r _ _ body ts ck s n h
    written-version (inr h) =
        hget-atomic_write_v_new r _ _ body ts ck s h.1 ∙ ap (λ m. some (itoa (suc m))) (sym h.0)

    pub written-IsPending :
        Versioned n s → IsPending r c ck (suc n) body (write_call r c ck body ts s)
    unfolding write_call
    written-IsPending h = record {
      version = suc n;
      held = body;
      at_version = written-version h;
      holds_body = hget-atomic_write_p r _ _ body ts ck s;
      not_older = omega arith;
      unchanged = λ e. refl;
      unexpiring = pttl-atomic_write r _ _ body ts ck s;
      queued =
          rw (zscore-atomic_write r _ _ body ts ck s, ==_refl (band_for c ck), bytes_eq_refl ck);
    }

  -- The key's version is n, or it has none and n is 0, when a write runs. After any traffic behind
  -- it in which commits, dead letters and CommitDLQKeys are of other keys only: the key waits in the dirty set without
  -- expiry, at a version above n, and at version n + 1 its payload is the one written.
  pub write_call-waits :
      (body : Bytes) (ts n : ℕ) (s : State) (traffic : List Action)
      → Versioned n s
      → All (Foreign ck) traffic
      → IsPending r c ck (suc n) body (act_all r c traffic (write_call r c ck body ts s))
  write_call-waits body ts n s traffic h f =
      act_all-IsPending r c ck (suc n) body traffic (write_call r c ck body ts s) f
        (written-IsPending body ts n s h)
