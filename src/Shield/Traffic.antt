-- ===== src/Shield/Traffic.antt =====
-- What other goroutines and processes do to Redis between two round trips of a flush: each is one
-- atomic script, one of the two commands of CommitDLQKeys for a key, or time that goes by. CommitKeys
-- and MoveToDeadLetter, which nothing calls, are not among them.
pub mod Others
pub mod Keeps
pub mod Known
pub mod Settled
pub mod Dead
pub mod Written
pub mod Duplicate
use sluice_go.Redis.{Redis}
use sluice_go.Redis.Keys.{dlq}
use sluice_go.Shield.Calls.{
  Config, band_for, payload_of, write_call, dedup_call, hydrate_call, extend_call, commit_call,
  dead_letter_call,
}
use sluice_go.Prelude.{ℕ, ◌≡◌, false, List, [], ◌∷◌, Bytes, bytes_eq}

pub data Action : Type 0 where
  writes : (ck body : Bytes) (ts : ℕ) → Action
  dedup_writes : (ck body : Bytes) (ts : ℕ) (hash : Bytes) → Action
  hydrates : (ck body : Bytes) (ts : ℕ) → Action
  extends : (ck : Bytes) (now : ℕ) → Action
  commits : (ck seq : Bytes) (ttl now : ℕ) → Action
  dead_letters : (ck seq : Bytes) (now : ℕ) (reason : Bytes) → Action
  deletes unburies : (ck : Bytes) → Action
  elapses : ℕ → Action

module _ (r : Redis) (c : Config) where
  open r use {State}

  unfoldable pub act : Action → State → State
  act (writes ck body ts) s = write_call r c ck body ts s
  act (dedup_writes ck body ts hash) s = (dedup_call r c ck body ts hash s).1
  act (hydrates ck body ts) s = (hydrate_call r c ck body ts s).1
  act (extends ck now) s = (extend_call r c ck now s).1
  act (commits ck seq ttl now) s = (commit_call r c (band_for c ck) ck seq ttl now s).1
  act (dead_letters ck seq now reason) s =
      (dead_letter_call r c (band_for c ck) ck seq now reason s).1
  act (deletes ck) s = r.del (payload_of c ck) s
  act (unburies ck) s = r.zrem (dlq (band_for c ck)) ck s
  act (elapses d) s = r.elapse d s

  unfoldable pub act_all : List Action → State → State
  act_all [] s = s
  act_all (a ∷ rest) s = act_all rest (act a s)

-- No one else settles the key: the flush of a band is the only one that commits or dead-letters the
-- band's keys, and no dead-letter processor has settled the key.
abbrev pub Foreign : Bytes → Action → Type 0
Foreign ck (commits other seq ttl now) = bytes_eq other ck ≡ false
Foreign ck (dead_letters other seq now reason) = bytes_eq other ck ≡ false
Foreign ck (deletes other) = bytes_eq other ck ≡ false
Foreign ck (unburies other) = bytes_eq other ck ≡ false
Foreign ck a = Unit
