-- ===== src/Broadcast/Applied.antt =====
-- A write's stream entry, from enqueueBroadcast of shield.go to `apply` of the subscriber.
use sluice_go.Broadcast.{
  Kind, upsert, seed, touch, mode_payload, mode_invalidation, enqueue_broadcast, apply, apply_at,
  apply_kind, apply_mode, apply_payload, parse_int, parse_digits,
}
use sluice_go.Naming.{pos}
use sluice_go.Naming.Decimal.{itoa, atoi, atoi-itoa, itoa-IsDigit, length-itoa, IsDigit}
use sluice_go.LocalJournal.{Cache, put, invalidate}
use sluice_go.Prelude.{
  ℕ, ◌≤◌, ◌<◌, ◌-◌, ◌^◌, ◌≡◌, ◌≢◌, refl, [], ◌∷◌, Bytes, bytes_eq, false, some, All, length, arith,
}

-- A text of digits reads as its number, up to the largest int64.
parse_int-atoi :
    (n : ℕ) (text : Bytes)
    → 0 < length text
    → All IsDigit text
    → atoi 0 text ≡ some n
    → n ≤ 2 ^ 63 - 1
    → (bytes_eq text [] ≡ false) × (parse_int text ≡ some (pos n))
unfolding parse_int parse_digits
parse_int-atoi n [] l d e b = elim l [ ]
parse_int-atoi n (x ∷ xs) l d e b = rw e (ground (arith, d.0))

parse_int-itoa :
    (n : ℕ) → n ≤ 2 ^ 63 - 1 → (bytes_eq (itoa n) [] ≡ false) × (parse_int (itoa n) ≡ some (pos n))
parse_int-itoa n b = parse_int-atoi n (itoa n) (length-itoa n) (itoa-IsDigit n) (atoi-itoa n) b

-- In payload mode, applying the entry of an upsert or a seed whose key and payload are not empty
-- and whose version fits an int64 is a Put of that payload with that version.
pub apply-enqueue_broadcast :
    (kind : Kind) (now k ts x : ℕ) (ks xs : Bytes) (l1 : Cache)
    → kind ≢ touch
    → ts ≤ 2 ^ 63 - 1
    → apply mode_payload now (enqueue_broadcast mode_payload (k ∷ ks) ts kind (x ∷ xs)) l1
      ≡ (put now (k ∷ ks) (x ∷ xs) (pos ts) l1).1
unfolding apply enqueue_broadcast apply_at apply_kind apply_mode apply_payload
apply-enqueue_broadcast upsert now k ts x ks xs l1 h b =
    rw ((parse_int-itoa ts b).0, (parse_int-itoa ts b).1) refl
apply-enqueue_broadcast seed now k ts x ks xs l1 h b =
    rw ((parse_int-itoa ts b).0, (parse_int-itoa ts b).1) refl
apply-enqueue_broadcast touch now k ts x ks xs l1 h b = elim (h refl) [ ]

-- In invalidation mode the entry of an upsert or a seed whose key is not empty and whose version
-- fits an int64 drops the key, whatever the payload.
pub apply-invalidation :
    (kind : Kind) (now k ts : ℕ) (ks body : Bytes) (l1 : Cache)
    → kind ≢ touch
    → ts ≤ 2 ^ 63 - 1
    → apply mode_invalidation now (enqueue_broadcast mode_invalidation (k ∷ ks) ts kind body) l1
      ≡ invalidate (k ∷ ks) l1
unfolding apply enqueue_broadcast apply_at apply_kind apply_mode
apply-invalidation upsert now k ts ks body l1 h b =
    rw ((parse_int-itoa ts b).0, (parse_int-itoa ts b).1) refl
apply-invalidation seed now k ts ks body l1 h b =
    rw ((parse_int-itoa ts b).0, (parse_int-itoa ts b).1) refl
apply-invalidation touch now k ts ks body l1 h b = elim (h refl) [ ]
