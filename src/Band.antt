-- ===== src/Band.antt =====
-- FNV-32a, by which shield.go assigns a correlation key to a band and localjournal.go to a shard.
use sluice_go.Prelude.{ℕ, ◌*◌, ◌%◌, ◌^◌, ◌<◌, bit_and, bit_xor, [], ◌∷◌, Bytes, arith}

abbrev u32 : ℕ
u32 = 2 ^ 32

-- hash/fnv's New32a: xor the byte in, multiply by the prime, on 32 bits.
unfoldable pub fnv32a : ℕ → Bytes → ℕ
fnv32a h [] = h
fnv32a h (b ∷ bs) = fnv32a (bit_xor h b * 16777619 % u32) bs

abbrev pub offset_basis : ℕ
offset_basis = 2166136261

unfoldable pub band_for_key : Bytes → ℕ → ℕ
unfolding fnv32a
band_for_key ck band_count = fnv32a offset_basis ck % band_count

unfoldable pub shard_index : Bytes → ℕ
unfolding fnv32a
shard_index key = bit_and (fnv32a offset_basis key) 255

fnv32a-lt : (h : ℕ) (bs : Bytes) → h < u32 → fnv32a h bs < u32
unfolding fnv32a
fnv32a-lt h [] p = p
fnv32a-lt h (b ∷ bs) p = fnv32a-lt (bit_xor h b * 16777619 % u32) bs (omega arith)

-- The hash is a 32-bit word, and a band is an index below the number of bands.
pub band_for_key-lt :
    (ck : Bytes) (band_count : ℕ)
    → 0 < band_count
    → (fnv32a offset_basis ck < u32) × (band_for_key ck band_count < band_count)
unfolding band_for_key
band_for_key-lt ck n h = (fnv32a-lt offset_basis ck (omega arith), grind arith)
