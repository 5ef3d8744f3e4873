-- ===== src/Shield/Traffic/Keeps.antt =====
-- No traffic loses what waits for its flush.
use sluice_go.Redis.{Redis}
use sluice_go.Shield.Fields.{field_h}
use sluice_go.Shield.Calls.{
  Config, band_for, payload_of, dirty_of, write_call, dedup_call, hydrate_call, extend_call,
}
use sluice_go.Shield.Pending.{IsPending, Agree, Agree-IsPending, is_some}
use sluice_go.Shield.Scripts.{holds}
use sluice_go.Shield.Scripts.Write.{
  pttl-atomic_write, hget-atomic_write_p, hget-atomic_write_v, zscore-atomic_write,
}
use sluice_go.Shield.Scripts.Dedup.{
  atomic_dedup_write_duplicate, pttl-dedup, hget-dedup_p, hget-dedup_v, zscore-dedup,
}
use sluice_go.Shield.Scripts.Refresh.{extend_ttl_persistent, hydrate_hit, refresh_persistent}
use sluice_go.Shield.Traffic.{
  Action, writes, dedup_writes, hydrates, extends, commits, dead_letters, deletes, unburies,
  elapses, act, act_all, Foreign,
}
use sluice_go.Shield.Traffic.Others.{Elsewhere, act_other-Agree}
use sluice_go.Prelude.{
  ℕ, suc, ◌≡◌, sym, subst, true, false, ◌&&◌, ◌==◌, ==_refl, List, [], ◌∷◌, Option, some,
  if◌then◌else◌, Bytes, bytes_eq, bytes_eq→≡, bytes_eq_refl, All, arith, Bool-cases, inl, inr,
}

module _ (r : Redis) (c : Config) (ck : Bytes) (n : ℕ) (drained : Bytes) where
  open r use {State}

  abbrev Waits : State → Type 0
  Waits = IsPending r c ck n drained

  queued_by :
      (ts : ℕ) (old : Option ℕ)
      → is_some (if (band_for c ck == band_for c ck) && bytes_eq ck ck then some ts else old) ≡ true
  queued_by ts old = rw (==_refl (band_for c ck), bytes_eq_refl ck)

  write_self : (body : Bytes) (ts : ℕ) (s : State) → Waits s → Waits (write_call r c ck body ts s)
  unfolding write_call
  write_self body ts s h = record {
    version = suc h.version;
    held = body;
    at_version =
        hget-atomic_write_v r (payload_of c ck) (dirty_of c ck) body ts ck s h.version h.at_version;
    holds_body = hget-atomic_write_p r (payload_of c ck) (dirty_of c ck) body ts ck s;
    not_older = omega (arith, h.not_older);
    unchanged = λ e. absurd (omega (arith, h.not_older));
    unexpiring = pttl-atomic_write r (payload_of c ck) (dirty_of c ck) body ts ck s;
    queued =
        rw (zscore-atomic_write r (payload_of c ck) (dirty_of c ck) body ts ck s (dirty_of c ck) ck)
          (queued_by ts _);
  }

  dedup_self :
      (body : Bytes) (ts : ℕ) (hash : Bytes) (s : State)
      → holds (r.hget s (payload_of c ck) field_h) hash ≡ false
      → Waits s
      → Waits (dedup_call r c ck body ts hash s).1
  unfolding dedup_call
  dedup_self body ts hash s fresh h =
      let k = payload_of c ck in
      let z = dirty_of c ck in
      record {
        version = suc h.version;
        held = body;
        at_version = hget-dedup_v r k z body ts ck c.key_ttl hash s fresh h.version h.at_version;
        holds_body = hget-dedup_p r k z body ts ck c.key_ttl hash s fresh;
        not_older = omega (arith, h.not_older);
        unchanged = λ e. absurd (omega (arith, h.not_older));
        unexpiring = pttl-dedup r k z body ts ck c.key_ttl hash s fresh;
        queued = rw (zscore-dedup r k z body ts ck c.key_ttl hash s fresh z ck) (queued_by ts _);
      }

  dedup_duplicate :
      (body : Bytes) (ts : ℕ) (hash : Bytes) (s : State)
      → holds (r.hget s (payload_of c ck) field_h) hash ≡ true
      → Waits s
      → Waits (dedup_call r c ck body ts hash s).1
  unfolding dedup_call
  dedup_duplicate body ts hash s old h =
      let k = payload_of c ck in
      rw
        (
          atomic_dedup_write_duplicate r k (dirty_of c ck) body ts ck c.key_ttl hash s old,
          refresh_persistent r k c.key_ttl s h.unexpiring,
        )
        h

  dedup_either :
      (body : Bytes) (ts : ℕ) (hash : Bytes) (s : State)
      → Waits s
      → Waits (dedup_call r c ck body ts hash s).1
  dedup_either body ts hash s h =
      elim (Bool-cases (holds (r.hget s (payload_of c ck) field_h) hash)) [
        | inl old ↦ dedup_duplicate body ts hash s old h
        | inr fresh ↦ dedup_self body ts hash s fresh h
      ]

  hydrate_self :
      (body : Bytes) (ts : ℕ) (s : State) → Waits s → Waits (hydrate_call r c ck body ts s).1
  unfolding hydrate_call
  hydrate_self body ts s h =
      let k = payload_of c ck in
      rw
        (
          hydrate_hit r k body h.held ts c.activity_window s h.holds_body,
          refresh_persistent r k c.activity_window s h.unexpiring,
        )
        h

  extend_self : (now : ℕ) (s : State) → Waits s → Waits (extend_call r c ck now s).1
  unfolding extend_call
  extend_self now s h = rw (extend_ttl_persistent r (payload_of c ck) _ _ _ _ ck s h.unexpiring) h

  elapse_self : (d : ℕ) (s : State) → Waits s → Waits (r.elapse d s)
  elapse_self d s h = record {
    version = h.version;
    held = h.held;
    at_version = rw (r.hget-elapse, h.unexpiring) h.at_version;
    holds_body = rw (r.hget-elapse, h.unexpiring) h.holds_body;
    not_older = h.not_older;
    unchanged = h.unchanged;
    unexpiring = rw (r.pttl-elapse, h.unexpiring);
    queued = rw r.zscore-elapse h.queued;
  }

  agreeing : (s t : State) → Waits s → Agree r (payload_of c ck) (dirty_of c ck) ck s t → Waits t
  agreeing s t h a = Agree-IsPending r c ck n drained s t a h

  other-Waits : (a : Action) (s : State) → Elsewhere ck a → Waits s → Waits (act r c a s)
  other-Waits a s e h = agreeing s _ h (act_other-Agree r c ck a h.held s e h.holds_body)

  pub act-IsPending : (a : Action) (s : State) → Foreign ck a → Waits s → Waits (act r c a s)
  unfolding act
  act-IsPending (writes other body ts) s f h = elim (Bool-cases (bytes_eq other ck)) [
    | inl e ↦
        subst (λ x. Waits (write_call r c x body ts s)) (sym (bytes_eq→≡ other ck e))
          (write_self body ts s h)
    | inr e ↦ other-Waits (writes other body ts) s e h
  ]
  act-IsPending (dedup_writes other body ts hash) s f h = elim (Bool-cases (bytes_eq other ck)) [
    | inl e ↦
        subst (λ x. Waits (dedup_call r c x body ts hash s).1) (sym (bytes_eq→≡ other ck e))
          (dedup_either body ts hash s h)
    | inr e ↦ other-Waits (dedup_writes other body ts hash) s e h
  ]
  act-IsPending (hydrates other body ts) s f h = elim (Bool-cases (bytes_eq other ck)) [
    | inl e ↦
        subst (λ x. Waits (hydrate_call r c x body ts s).1) (sym (bytes_eq→≡ other ck e))
          (hydrate_self body ts s h)
    | inr e ↦ other-Waits (hydrates other body ts) s e h
  ]
  act-IsPending (extends other now) s f h = elim (Bool-cases (bytes_eq other ck)) [
    | inl e ↦
        subst (λ x. Waits (extend_call r c x now s).1) (sym (bytes_eq→≡ other ck e))
          (extend_self now s h)
    | inr e ↦ other-Waits (extends other now) s e h
  ]
  act-IsPending (commits other seq ttl now) s f h = other-Waits (commits other seq ttl now) s f h
  act-IsPending (dead_letters other seq now reason) s f h =
      other-Waits (dead_letters other seq now reason) s f h
  act-IsPending (deletes other) s f h = other-Waits (deletes other) s f h
  act-IsPending (unburies other) s f h = other-Waits (unburies other) s f h
  act-IsPending (elapses d) s f h = elapse_self d s h

  -- Whatever traffic comes between the drain and the commit, a drained key stays queued and without
  -- expiry; and as long as its version is the drained one, so is its payload.
  pub act_all-IsPending :
      (traffic : List Action) (s : State)
      → All (Foreign ck) traffic
      → Waits s
      → Waits (act_all r c traffic s)
  unfolding act_all
  act_all-IsPending [] s f h = h
  act_all-IsPending (a ∷ rest) s f h =
      act_all-IsPending rest (act r c a s) f.1 (act-IsPending a s f.0 h)
