-- ===== src/Shield/Scripts.antt =====
-- The Lua scripts of internal/shield/types.go, each as one atomic step of the Redis state. The
-- arguments are KEYS and ARGV in the order of the script. A TTL that is not positive is 0.
pub mod Write
pub mod Refresh
pub mod Dedup
pub mod Commit
use sluice_go.Naming.Decimal.{itoa}
use sluice_go.Redis.{Redis, Ttl, expiring}
use sluice_go.Redis.Keys.{HashKey, ZKey}
use sluice_go.Shield.Fields.{field_p, field_ts, field_v, field_h, field_reason, field_at}
use sluice_go.Prelude.{
  ℕ, Bool, true, false, Option, none, some, ltb, if◌then◌else◌, Bytes, bytes_eq, [],
}

-- `redis.call('HGET', …) or ''`
abbrev pub or_empty : Option Bytes → Bytes
or_empty none = []
or_empty (some x) = x

-- `existingHash == contentHash`: a missing hash equals no text.
abbrev pub holds : Option Bytes → Bytes → Bool
holds none x = false
holds (some y) x = bytes_eq y x

-- `pttl >= 0 and pttl < ttl`
abbrev pub shorter : Ttl → ℕ → Bool
shorter (expiring n) ttl = ltb n ttl
shorter t ttl = false

-- What hydrateLua replies: {1}, or {0, payload, ts}.
pub data HydrateReply : Type 0 where
  filled : HydrateReply
  kept : Bytes → Bytes → HydrateReply

module _ (r : Redis) where
  open r use {State, hget, pttl, hset, hdel, hincrby, persist, pexpire, zadd, zrem}

  unfoldable pub atomic_write : HashKey → ZKey → Bytes → ℕ → Bytes → State → State
  atomic_write key dirty_set payload ts ck s =
      zadd dirty_set ts ck (
        persist key
          (hincrby key field_v (hset key field_ts (itoa ts) (hset key field_p payload s))))

  unfoldable pub commit_flushed :
      ZKey → HashKey → ZKey → HashKey → Bytes → Bytes → ℕ → ℕ → State → Bool × State
  commit_flushed dirty_set key expiry values ck seq ttl expire_at s =
      let removed = zrem dirty_set ck s in
      let timed = pexpire key ttl removed in
      let queued = if r.exists timed values then zadd expiry expire_at ck timed else timed in
      if bytes_eq (or_empty (hget s key field_v)) seq
      then (true, (if ltb 0 ttl then queued else removed))
      else (false, s)

  unfoldable pub dead_letter_if_unchanged :
      ZKey → ZKey → HashKey → Bytes → Bytes → ℕ → Bytes → ℕ → State → Bool × State
  dead_letter_if_unchanged dirty_set dead_set key ck seq failed_at reason ttl s =
      let noted =
        hset key field_at (itoa failed_at)
          (hset key field_reason reason (zadd dead_set failed_at ck s)) in
      if bytes_eq (or_empty (hget s key field_v)) seq
      then (true, zrem dirty_set ck (pexpire key ttl noted))
      else (false, s)

  unfoldable pub extend_ttl : HashKey → ZKey → HashKey → ℕ → ℕ → Bytes → State → Bool × State
  extend_ttl key expiry values ttl expire_at ck s =
      let timed = pexpire key ttl s in
      if shorter (pttl s key) ttl
      then (true, (if r.exists timed values then zadd expiry expire_at ck timed else timed))
      else (false, s)

  -- The extend-only refresh that two scripts share.
  unfoldable pub refresh : HashKey → ℕ → State → State
  refresh key ttl s = if shorter (pttl s key) ttl then pexpire key ttl s else s

  hydrate_miss : HashKey → Bytes → ℕ → ℕ → State → State
  hydrate_miss key payload ts ttl s =
      pexpire key ttl (hdel key field_h (hset key field_ts (itoa ts) (hset key field_p payload s)))

  -- `cur[2] or '0'`
  abbrev pub or_zero : Option Bytes → Bytes
  or_zero none = itoa 0
  or_zero (some x) = x

  hydrate_by : Option Bytes → HashKey → Bytes → ℕ → ℕ → State → HydrateReply × State
  unfolding hydrate_miss refresh
  hydrate_by (some cur) key payload ts ttl s =
      (kept cur (or_zero (hget s key field_ts)), refresh key ttl s)
  hydrate_by none key payload ts ttl s = (filled, hydrate_miss key payload ts ttl s)

  unfoldable pub hydrate : HashKey → Bytes → ℕ → ℕ → State → HydrateReply × State
  unfolding hydrate_by
  hydrate key payload ts ttl s = hydrate_by (hget s key field_p) key payload ts ttl s

  unfoldable pub atomic_dedup_write :
      HashKey → ZKey → Bytes → ℕ → Bytes → ℕ → Bytes → State → Bool × State
  unfolding refresh
  atomic_dedup_write key dirty_set payload ts ck ttl hash s =
      let stored =
        hset key field_h hash (hset key field_ts (itoa ts) (hset key field_p payload s)) in
      if holds (hget s key field_h) hash
      then (false, refresh key ttl s)
      else (true, zadd dirty_set ts ck (persist key (hincrby key field_v stored)))
