-- ===== src/Redis/Keys.antt =====
-- The keys that the scripts use, by what they name, and their texts.
use sluice_go.Naming.{payload_key, index_values_key, dirty_key, dlq_key, index_expiry_key}
use sluice_go.Prelude.{ℕ, ◌≡◌, Bool, true, false, ◌&&◌, ◌==◌, Bytes, bytes_eq, bytes_eq_refl, arith}

-- Hashes: the payload of a correlation key, and its indexed values.
pub data HashKey : Type 0 where
  payload : ℕ → Bytes → HashKey
  idxv : ℕ → Bytes → HashKey

-- Sorted sets of a band.
pub data ZKey : Type 0 where
  dirty dlq idxexp : ℕ → ZKey

abbrev pub hash_eq : HashKey → HashKey → Bool
hash_eq (payload b k) (payload c j) = (b == c) && bytes_eq k j
hash_eq (idxv b k) (idxv c j) = (b == c) && bytes_eq k j
hash_eq _ _ = false

abbrev pub z_eq : ZKey → ZKey → Bool
z_eq (dirty b) (dirty c) = b == c
z_eq (dlq b) (dlq c) = b == c
z_eq (idxexp b) (idxexp c) = b == c
z_eq _ _ = false

pub hash_name : Bytes → HashKey → Bytes
hash_name ns (payload b k) = payload_key ns b k
hash_name ns (idxv b k) = index_values_key ns b k

pub z_name : Bytes → ZKey → Bytes
z_name ns (dirty b) = dirty_key ns b
z_name ns (dlq b) = dlq_key ns b
z_name ns (idxexp b) = index_expiry_key ns b

pub hash_eq_refl : (k : HashKey) → hash_eq k k ≡ true
hash_eq_refl (payload b k) = ground (arith, bytes_eq_refl k)
hash_eq_refl (idxv b k) = ground (arith, bytes_eq_refl k)
