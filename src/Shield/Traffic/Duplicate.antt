-- ===== src/Shield/Traffic/Duplicate.antt =====
-- A plain write between two deduplicated writes of the same content.
use sluice_go.Redis.{Redis}
use sluice_go.Redis.Keys.{hash_eq_refl}
use sluice_go.Shield.Fields.{field_p, field_v, field_h}
use sluice_go.Shield.Calls.{Config, payload_of, dirty_of, write_call, dedup_call}
use sluice_go.Shield.Scripts.{atomic_write}
use sluice_go.Shield.Scripts.Write.{hget-atomic_write_p}
use sluice_go.Shield.Scripts.Dedup.{atomic_dedup_write_duplicate}
use sluice_go.Prelude.{ℕ, ◌≡◌, false, some, Bytes, bytes_eq_refl}

module _ (r : Redis) (c : Config) (ck : Bytes) (body : Bytes) (ts : ℕ) (s : r.State) where
  open r use {hget}

  hash_kept :
      hget (write_call r c ck body ts s) (payload_of c ck) field_h
      ≡ hget s (payload_of c ck) field_h
  unfolding write_call atomic_write
  hash_kept = rw (
    r.hget-zadd,
    r.hget-persist,
    r.hget-hincrby_other _ (payload_of c ck) (payload_of c ck) field_v field_h (rw hash_eq_refl),
    r.hget-hset,
    r.hget-hset,
    hash_eq_refl (payload_of c ck),
  )

  -- The key's content hash is that of an earlier deduplicated write when a plain write of another
  -- payload runs. Then a deduplicated write with the old hash, right after it, answers that it is a
  -- duplicate, whatever payload it carries.
  pub dedup_call-drops :
      (old hash : Bytes) (later : ℕ)
      → hget s (payload_of c ck) field_h ≡ some hash
      → ((dedup_call r c ck old later hash (write_call r c ck body ts s)).0 ≡ false)
        × (hget (write_call r c ck body ts s) (payload_of c ck) field_p ≡ some body)
  unfolding dedup_call
  dedup_call-drops old hash later h = (
    rw (
        atomic_dedup_write_duplicate r (payload_of c ck) (dirty_of c ck) old later ck c.key_ttl hash
          (write_call r c ck body ts s) (rw (hash_kept, h) (bytes_eq_refl hash))),
    unfold write_call in hget-atomic_write_p r (payload_of c ck) (dirty_of c ck) body ts ck s,
  )
