-- ===== src/Shield/Traffic/Others.antt =====
-- What the scripts of one key do to another key of the journal.
use sluice_go.Redis.{Redis}
use sluice_go.Redis.Keys.{hash_eq}
use sluice_go.Shield.Fields.{field_p}
use sluice_go.Shield.Calls.{
  Config, band_for, payload_of, dirty_of, write_call, dedup_call, hydrate_call, extend_call,
  commit_call, dead_letter_call,
}
use sluice_go.Shield.Pending.{Agree}
use sluice_go.Shield.Scripts.Write.{atomic_write-Agree}
use sluice_go.Shield.Scripts.Dedup.{dedup-Agree}
use sluice_go.Shield.Scripts.Refresh.{extend_ttl-Agree, hydrate-Agree}
use sluice_go.Shield.Scripts.Commit.{commit_flushed-Agree, dead_letter-Agree}
use sluice_go.Shield.Traffic.{
  Action, writes, dedup_writes, hydrates, extends, commits, dead_letters, deletes, unburies,
  elapses, act,
}
use sluice_go.Prelude.{◌+◌, ◌≡◌, refl, false, some, Bytes, bytes_eq, arith}

-- A script of another key.
abbrev pub Elsewhere : Bytes → Action → Type 0
Elsewhere ck (writes other body ts) = bytes_eq other ck ≡ false
Elsewhere ck (dedup_writes other body ts hash) = bytes_eq other ck ≡ false
Elsewhere ck (hydrates other body ts) = bytes_eq other ck ≡ false
Elsewhere ck (extends other now) = bytes_eq other ck ≡ false
Elsewhere ck (commits other seq ttl now) = bytes_eq other ck ≡ false
Elsewhere ck (dead_letters other seq now reason) = bytes_eq other ck ≡ false
Elsewhere ck (deletes other) = bytes_eq other ck ≡ false
Elsewhere ck (unburies other) = bytes_eq other ck ≡ false
Elsewhere ck (elapses d) = ⊥

module _ (r : Redis) (c : Config) (ck : Bytes) where
  open r use {State, hget}

  other_hash :
      (other : Bytes)
      → bytes_eq other ck ≡ false
      → hash_eq (payload_of c other) (payload_of c ck) ≡ false
  other_hash other e = ground (arith, e)

  pub act_other-Agree :
      (a : Action) (held : Bytes) (s : State)
      → Elsewhere ck a
      → hget s (payload_of c ck) field_p ≡ some held
      → Agree r (payload_of c ck) (dirty_of c ck) ck s (act r c a s)
  unfolding act write_call dedup_call hydrate_call extend_call commit_call dead_letter_call
  act_other-Agree (writes other body ts) held s e h =
      atomic_write-Agree r (payload_of c other) (dirty_of c other) body ts other s (payload_of c ck)
        (other_hash other e) (dirty_of c ck) ck e
  act_other-Agree (dedup_writes other body ts hash) held s e h =
      dedup-Agree r (payload_of c other) (dirty_of c other) body ts other c.key_ttl hash s
        (payload_of c ck) (dirty_of c ck) ck (other_hash other e) e
  act_other-Agree (hydrates other body ts) held s e h =
      hydrate-Agree r (payload_of c other) (payload_of c ck) body ts c.activity_window
        (dirty_of c ck) ck held s (other_hash other e) h
  act_other-Agree (extends other now) held s e h =
      extend_ttl-Agree r (payload_of c other) _ (payload_of c ck) _ (band_for c ck)
        c.activity_window _ other ck s (other_hash other e)
  act_other-Agree (commits other seq ttl now) held s e h =
      commit_flushed-Agree r _ (payload_of c other) _ other seq ttl (now + ttl) s (band_for c ck)
        (payload_of c ck) ck (other_hash other e) e
  act_other-Agree (dead_letters other seq now reason) held s e h =
      dead_letter-Agree r _ (payload_of c other) other seq now reason c.dlq_ttl s (band_for c ck)
        (payload_of c ck) ck (other_hash other e) e
  act_other-Agree (deletes other) held s e h = record {
    body = rw (r.hget-del, other_hash other e) refl;
    version = rw (r.hget-del, other_hash other e) refl;
    ttl = rw (r.pttl-del, other_hash other e) refl;
    queued = rw r.zscore-del refl;
  }
  act_other-Agree (unburies other) held s e h = record {
    body = rw r.hget-zrem refl;
    version = rw r.hget-zrem refl;
    ttl = rw r.pttl-zrem refl;
    queued = rw r.zscore-zrem refl;
  }
  act_other-Agree (elapses d) held s e h = absurd e
