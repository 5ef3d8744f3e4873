-- ===== src/Tests/Journal.antt =====
-- The theorems on names, bands and the journal of one key at concrete inputs.
use sluice_go.Naming.{
  codes, pos, band_from_key, payload_key, dirty_key, dlq_key, hot_marker_key, index_values_key,
  index_registry_key, index_expiry_key, index_key, range_index_key,
}
use sluice_go.Naming.Decimal.{itoa}
use sluice_go.Naming.Tags.{band_from_key-names, IsNamespace}
use sluice_go.Band.{band_for_key}
use sluice_go.Redis.{expiring}
use sluice_go.Redis.Keys.{dlq}
use sluice_go.Redis.Memory.{Memory, memory, nothing}
use sluice_go.Shield.Fields.{field_p}
use sluice_go.Shield.Calls.{
  band_for, payload_of, dirty_of, dedup_call, write_call, commit_call, dead_letter_call,
}
use sluice_go.Shield.Pending.{IsPending}
use sluice_go.Shield.Traffic.{act_all}
use sluice_go.Shield.Scripts.{atomic_dedup_write}
use sluice_go.Shield.Traffic.Duplicate.{dedup_call-drops}
use sluice_go.Shield.Traffic.Written.{write_call-waits}
use sluice_go.Shield.Traffic.Settled.{commit_call-keeps_newer, dead_letter_call-keeps_newer}
use sluice_go.Tests.{config, key_a, body_x, body_y, one_write, one_write-IsPending, busy}
use sluice_go.Prelude.{[], ◌∷◌, ◌≡◌, refl, Bool, true, false, none, some, ◌⊎◌, inr, arith}

shop-IsNamespace : IsNamespace (codes "shop")
shop-IsNamespace = record { no_open = ground arith; no_close = ground arith }

band_from_key-names_example :
    (band_from_key (payload_key (codes "shop") 37 key_a) ≡ some (pos 37))
    × (band_from_key (dirty_key (codes "shop") 37) ≡ some (pos 37))
    × (band_from_key (dlq_key (codes "shop") 37) ≡ some (pos 37))
    × (band_from_key (hot_marker_key (codes "shop") 37 key_a) ≡ some (pos 37))
    × (band_from_key (index_values_key (codes "shop") 37 key_a) ≡ some (pos 37))
    × (band_from_key (index_registry_key (codes "shop") 37) ≡ some (pos 37))
    × (band_from_key (index_expiry_key (codes "shop") 37) ≡ some (pos 37))
    × (band_from_key (index_key (codes "shop") 37 body_x body_y) ≡ some (pos 37))
    × (band_from_key (range_index_key (codes "shop") 37 body_x) ≡ some (pos 37))
band_from_key-names_example =
    band_from_key-names (codes "shop") shop-IsNamespace 37 (omega arith) key_a body_x body_y

write_call-waits_example :
    IsPending memory config key_a 1 body_x
      (act_all memory config busy (write_call memory config key_a body_x 5 nothing))
write_call-waits_example =
    write_call-waits memory config key_a body_x 5 0 nothing busy (inr (refl, refl))
      (tt, (refl, (tt, (tt, tt))))

abbrev committed : Bool × Memory
committed =
    commit_call memory config (band_for config key_a) key_a (itoa 1) 90000 9
      (act_all memory config busy one_write)

commit_call-keeps_newer_example :
    ((committed.0 ≡ true)
      × (memory.zscore committed.1 (dirty_of config key_a) key_a ≡ none)
      × (memory.hget committed.1 (payload_of config key_a) field_p ≡ some body_x))
    ⊎ ((committed.0 ≡ false) × IsPending memory config key_a 1 body_x committed.1)
commit_call-keeps_newer_example =
    commit_call-keeps_newer memory config key_a 1 body_x busy one_write (tt, (refl, (tt, (tt, tt))))
      one_write-IsPending 90000 9

abbrev buried : Bool × Memory
buried =
    dead_letter_call memory config (band_for config key_a) key_a (itoa 1) 9 (codes "x")
      (act_all memory config busy one_write)

dead_letter_call-keeps_newer_example :
    ((buried.0 ≡ true)
      × (memory.zscore buried.1 (dirty_of config key_a) key_a ≡ none)
      × (memory.zscore buried.1 (dlq (band_for config key_a)) key_a ≡ some 9)
      × (memory.hget buried.1 (payload_of config key_a) field_p ≡ some body_x)
      × (memory.pttl buried.1 (payload_of config key_a) ≡ expiring config.dlq_ttl))
    ⊎ ((buried.0 ≡ false) × IsPending memory config key_a 1 body_x buried.1)
dead_letter_call-keeps_newer_example =
    dead_letter_call-keeps_newer memory config key_a 1 body_x busy one_write
      (tt, (refl, (tt, (tt, tt)))) one_write-IsPending 9 (codes "x") (omega arith)

-- Key "a" with the content hash 9.
abbrev hashed : Memory
hashed = (dedup_call memory config key_a body_x 5 (57 ∷ []) nothing).1

dedup_call-drops_example :
    ((dedup_call memory config key_a body_x 7
        (57 ∷ [])
        (write_call memory config key_a body_y 6 hashed)).0
      ≡ false)
    × (memory.hget
          (write_call memory config key_a body_y 6 hashed)
          (payload_of config key_a)
          field_p
        ≡ some body_y)
unfolding dedup_call atomic_dedup_write band_for band_for_key
dedup_call-drops_example =
    dedup_call-drops memory config key_a body_y 6 hashed body_x (57 ∷ []) 7 refl
