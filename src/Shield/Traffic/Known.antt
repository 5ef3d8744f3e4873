-- ===== src/Shield/Traffic/Known.antt =====
-- The payloads that a waiting key may hold: the one it has, and those that traffic writes to it.
use sluice_go.Redis.{Redis}
use sluice_go.Shield.Fields.{field_p, field_h}
use sluice_go.Shield.Calls.{
  Config, payload_of, dirty_of, write_call, dedup_call, hydrate_call, extend_call,
}
use sluice_go.Shield.Pending.{IsPending}
use sluice_go.Shield.Scripts.{holds}
use sluice_go.Shield.Scripts.Write.{hget-atomic_write_p}
use sluice_go.Shield.Scripts.Dedup.{atomic_dedup_write_duplicate, hget-dedup_p}
use sluice_go.Shield.Scripts.Refresh.{extend_ttl_persistent, hydrate_hit, refresh_persistent}
use sluice_go.Shield.Traffic.{
  Action, writes, dedup_writes, hydrates, extends, commits, dead_letters, deletes, unburies,
  elapses, act, act_all, Foreign,
}
use sluice_go.Shield.Traffic.Others.{Elsewhere, act_other-Agree}
use sluice_go.Shield.Traffic.Keeps.{act-IsPending}
use sluice_go.Prelude.{
  ℕ, ◌≡◌, sym, subst, ◌∙◌, true, false, List, [], ◌∷◌, some, Bytes, bytes_eq, bytes_eq→≡, All,
  Bool-cases, inl, inr,
}

module _ (r : Redis) (c : Config) (ck : Bytes) (n : ℕ) (drained : Bytes) (Ok : Bytes → Type 0) where
  open r use {State, hget}

  -- Traffic that does not settle the key, and writes only such payloads to it.
  abbrev pub Offers : Action → Type 0
  Offers (writes k body ts) = bytes_eq k ck ≡ true → Ok body
  Offers (dedup_writes k body ts hash) = bytes_eq k ck ≡ true → Ok body
  Offers (commits k seq ttl now) = bytes_eq k ck ≡ false
  Offers (dead_letters k seq now reason) = bytes_eq k ck ≡ false
  Offers (deletes k) = bytes_eq k ck ≡ false
  Offers (unburies k) = bytes_eq k ck ≡ false
  Offers a = Unit

  Offers→Foreign : (a : Action) → Offers a → Foreign ck a
  Offers→Foreign (writes k body ts) h = tt
  Offers→Foreign (dedup_writes k body ts hash) h = tt
  Offers→Foreign (hydrates k body ts) h = tt
  Offers→Foreign (extends k now) h = tt
  Offers→Foreign (commits k seq ttl now) h = h
  Offers→Foreign (dead_letters k seq now reason) h = h
  Offers→Foreign (deletes k) h = h
  Offers→Foreign (unburies k) h = h
  Offers→Foreign (elapses d) h = tt

  abbrev pub Holds : State → Type 0
  Holds s = (body : Bytes) × Ok body × (hget s (payload_of c ck) field_p ≡ some body)

  -- The key waits, with such a payload.
  abbrev pub Knows : State → Type 0
  Knows s = IsPending r c ck n drained s × Holds s

  other-Holds : (a : Action) (s : State) → Elsewhere ck a → Knows s → Holds (act r c a s)
  other-Holds a s e (i, (body, o, h)) = (body, o, (act_other-Agree r c ck a body s e h).body ∙ h)

  dedup-Holds :
      (body : Bytes) (ts : ℕ) (hash : Bytes) (s : State)
      → Ok body
      → Knows s
      → Holds (dedup_call r c ck body ts hash s).1
  unfolding dedup_call
  dedup-Holds body ts hash s o (i, h) =
      let k = payload_of c ck in
      elim (Bool-cases (holds (hget s k field_h) hash)) [
        | inl old ↦
            rw
              (
                atomic_dedup_write_duplicate r k (dirty_of c ck) body ts ck c.key_ttl hash s old,
                refresh_persistent r k c.key_ttl s i.unexpiring,
              )
              h
        | inr fresh ↦ (body, o, hget-dedup_p r k (dirty_of c ck) body ts ck c.key_ttl hash s fresh)
      ]

  self-Holds : (a : Action) (s : State) → Offers a → Knows s → Holds (act r c a s)
  unfolding act
  self-Holds (writes k body ts) s o x = elim (Bool-cases (bytes_eq k ck)) [
    | inl e ↦
        subst (λ y. Holds (write_call r c y body ts s)) (sym (bytes_eq→≡ k ck e))
          (
            body,
            o e,
            unfold write_call in
                hget-atomic_write_p r (payload_of c ck) (dirty_of c ck) body ts ck s,
          )
    | inr e ↦ other-Holds (writes k body ts) s e x
  ]
  self-Holds (dedup_writes k body ts hash) s o x = elim (Bool-cases (bytes_eq k ck)) [
    | inl e ↦
        subst (λ y. Holds (dedup_call r c y body ts hash s).1) (sym (bytes_eq→≡ k ck e))
          (dedup-Holds body ts hash s (o e) x)
    | inr e ↦ other-Holds (dedup_writes k body ts hash) s e x
  ]
  self-Holds (hydrates k body ts) s o (i, h) = elim (Bool-cases (bytes_eq k ck)) [
    | inl e ↦
        subst (λ y. Holds (hydrate_call r c y body ts s).1) (sym (bytes_eq→≡ k ck e))
          (unfold hydrate_call in
            rw
              (
                hydrate_hit r (payload_of c ck) body i.held ts c.activity_window s i.holds_body,
                refresh_persistent r (payload_of c ck) c.activity_window s i.unexpiring,
              )
              h)
    | inr e ↦ other-Holds (hydrates k body ts) s e (i, h)
  ]
  self-Holds (extends k now) s o (i, h) = elim (Bool-cases (bytes_eq k ck)) [
    | inl e ↦
        subst (λ y. Holds (extend_call r c y now s).1) (sym (bytes_eq→≡ k ck e))
          (unfold extend_call in
            rw (extend_ttl_persistent r (payload_of c ck) _ _ _ _ ck s i.unexpiring) h)
    | inr e ↦ other-Holds (extends k now) s e (i, h)
  ]
  self-Holds (commits k seq ttl now) s o x = other-Holds (commits k seq ttl now) s o x
  self-Holds (dead_letters k seq now reason) s o x =
      other-Holds (dead_letters k seq now reason) s o x
  self-Holds (deletes k) s o x = other-Holds (deletes k) s o x
  self-Holds (unburies k) s o x = other-Holds (unburies k) s o x
  self-Holds (elapses d) s o (i, (body, ok, h)) = (body, ok, rw (r.hget-elapse, i.unexpiring) h)

  pub act_all-Knows :
      (traffic : List Action) (s : State)
      → All Offers traffic
      → Knows s
      → Knows (act_all r c traffic s)
  unfolding act_all
  act_all-Knows [] s o x = x
  act_all-Knows (a ∷ rest) s o x =
      act_all-Knows rest (act r c a s) o.1
        (act-IsPending r c ck n drained a s (Offers→Foreign a o.0) x.0, self-Holds a s o.0 x)
