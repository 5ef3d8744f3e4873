-- ===== src/Shield/Pending.antt =====
-- The journal's promise for a key that waits for its flush, and the scripts that keep it.
use sluice_go.Naming.Decimal.{itoa}
use sluice_go.Redis.{Redis, persistent}
use sluice_go.Redis.Keys.{HashKey, ZKey}
use sluice_go.Shield.Fields.{field_p, field_v}
use sluice_go.Shield.Calls.{Config, payload_of, dirty_of}
use sluice_go.Prelude.{ℕ, ◌≤◌, ◌≡◌, ◌∙◌, Bool, true, false, Option, none, some, Bytes}

abbrev pub is_some {ℓ} : {A : Type ℓ} → Option A → Bool
is_some none = false
is_some (some a) = true

module _ (r : Redis) where
  open r use {State, hget, pttl, zscore}

  -- Two states hold the same of a payload hash and of a member.
  pub record Agree (k : HashKey) (z : ZKey) (ck : Bytes) (s t : State) : Type 0 where
    pub body : hget t k field_p ≡ hget s k field_p
    pub version : hget t k field_v ≡ hget s k field_v
    pub ttl : pttl t k ≡ pttl s k
    pub queued : zscore t z ck ≡ zscore s z ck

  -- A key that was drained at version n with the payload `drained`, seen from a later state: it
  -- is queued and its payload has no expiry; its version has not fallen, and at the drained
  -- version it still holds the drained payload.
  pub record IsPending (c : Config) (ck : Bytes) (n : ℕ) (drained : Bytes) (s : State)
      : Type 0 where
    pub version : ℕ
    pub held : Bytes
    pub at_version : hget s (payload_of c ck) field_v ≡ some (itoa version)
    pub holds_body : hget s (payload_of c ck) field_p ≡ some held
    pub not_older : n ≤ version
    pub unchanged : version ≡ n → held ≡ drained
    pub unexpiring : pttl s (payload_of c ck) ≡ persistent
    pub queued : is_some (zscore s (dirty_of c ck) ck) ≡ true

  pub Agree-IsPending :
      (c : Config) (ck : Bytes) (n : ℕ) (drained : Bytes) (s t : State)
      → Agree (payload_of c ck) (dirty_of c ck) ck s t
      → IsPending c ck n drained s
      → IsPending c ck n drained t
  Agree-IsPending c ck n drained s t a h = record {
    version = h.version;
    held = h.held;
    at_version = a.version ∙ h.at_version;
    holds_body = a.body ∙ h.holds_body;
    not_older = h.not_older;
    unchanged = h.unchanged;
    unexpiring = a.ttl ∙ h.unexpiring;
    queued = rw a.queued h.queued;
  }
