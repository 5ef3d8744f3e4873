-- ===== src/Shield/Reads/Torn.antt =====
-- The three commands of ReadJournal's pipeline with a write between them.
use sluice_go.Naming.Decimal.{itoa, atoi-itoa}
use sluice_go.Redis.{Redis}
use sluice_go.Redis.Keys.{hash_eq_refl}
use sluice_go.Shield.Fields.{field_p, field_ts, field_v}
use sluice_go.Shield.Calls.{Config, payload_of, dirty_of, write_call}
use sluice_go.Shield.Scripts.{atomic_write}
use sluice_go.Shield.Scripts.Write.{hget-atomic_write_p}
use sluice_go.Shield.Traffic.{writes, act, act_all}
use sluice_go.Shield.World.{World, Turn, fine, ok, pipeline, wait, wait_on, attempt}
use sluice_go.Shield.Flush.{nonempty, parse_ts, collect}
use sluice_go.Shield.Reads.{found, read_journal, after_exec, journal_read, decode_read, map_result}
use sluice_go.Prelude.{ℕ, ◌≡◌, some, [], ◌∷◌, Bytes}

module _ (r : Redis) (c : Config) (ck new : Bytes) (ts : ℕ) (s : r.State) where
  open r use {State, hget, pttl}

  hget-write_call_ts : hget (write_call r c ck new ts s) (payload_of c ck) field_ts ≡ some (itoa ts)
  unfolding write_call atomic_write
  hget-write_call_ts = rw (
    r.hget-zadd,
    r.hget-persist,
    r.hget-hincrby_other _ (payload_of c ck) (payload_of c ck) field_v field_ts (rw hash_eq_refl),
    r.hget-hset,
    hash_eq_refl (payload_of c ck),
  )

  parse-itoa : parse_ts (some (itoa ts)) ≡ ts
  unfolding parse_ts
  parse-itoa = rw (atoi-itoa ts)

  abbrev pub quiet : Turn
  quiet = record { traffic = []; fault = fine }

  -- A write just before the third command.
  abbrev pub between : World State
  between = record {
    redis = s;
    turns = quiet ∷ quiet ∷ record { traffic = writes ck new ts ∷ []; fault = fine } ∷ [];
  }

  -- The key has a payload that is not empty, and another payload is written to it at the time ts
  -- between the second and the third command of ReadJournal. Then ReadJournal answers the old payload
  -- with the version ts of the new one, while the journal holds the new payload.
  pub read_journal-torn :
      (x : ℕ) (old : Bytes)
      → hget s (payload_of c ck) field_p ≡ some (x ∷ old)
      → let out = read_journal r c ck between in
        (out.0 ≡ ok (found (x ∷ old) (pttl s (payload_of c ck)) ts))
        × (hget out.1.redis (payload_of c ck) field_p ≡ some new)
  unfolding read_journal after_exec pipeline wait wait_on attempt act act_all collect map_result
      decode_read journal_read nonempty
  read_journal-torn x old h = (
    simp (h, hget-write_call_ts, parse-itoa),
    unfold write_call in hget-atomic_write_p r (payload_of c ck) (dirty_of c ck) new ts ck s,
  )
