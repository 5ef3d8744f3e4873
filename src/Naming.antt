-- ===== src/Naming.antt =====
-- The names of the Redis keys (internal/shield/shield.go and internal/shield/index.go), and the
-- band that a name carries in its {band} tag.
pub mod Decimal
pub mod Tags
pub mod Distinct
pub mod Kinds
use Prim.Native.Char.{code}
use Prim.Native.String.{String}
use Decimal.{itoa, is_digit}
use sluice_go.Prelude.{
  ℕ, zero, suc, ◌+◌, ◌-◌, ◌*◌, ◌^◌, Bool, true, false, ◌||◌, List, [], ◌∷◌, ◌++◌, Option, none,
  some, ltb, leb, ◌==◌, if◌then◌else◌, Bytes, take, drop, index_byte,
}

-- The bytes of an ASCII literal.
abbrev pub codes : String → Bytes
codes String.[] = []
codes (String.◌∷◌ c s) = code c ∷ codes s

pub payload_key : Bytes → ℕ → Bytes → Bytes
payload_key ns band ck =
    codes "sl:" ++ (ns ++ (codes ":payload:{" ++ (itoa band ++ (codes "}:" ++ ck))))

pub dirty_key : Bytes → ℕ → Bytes
dirty_key ns band = codes "sl:" ++ (ns ++ (codes ":dirty:{" ++ (itoa band ++ codes "}")))

pub dlq_key : Bytes → ℕ → Bytes
dlq_key ns band = codes "sl:" ++ (ns ++ (codes ":dlq:{" ++ (itoa band ++ codes "}")))

pub hot_marker_key : Bytes → ℕ → Bytes → Bytes
hot_marker_key ns band ck =
    codes "sl:" ++ (ns ++ (codes ":hot:{" ++ (itoa band ++ (codes "}:" ++ ck))))

pub index_values_key : Bytes → ℕ → Bytes → Bytes
index_values_key ns band ck =
    codes "sl:" ++ (ns ++ (codes ":idxv:{" ++ (itoa band ++ (codes "}:" ++ ck))))

pub index_registry_key : Bytes → ℕ → Bytes
index_registry_key ns band = codes "sl:" ++ (ns ++ (codes ":idxreg:{" ++ (itoa band ++ codes "}")))

pub index_expiry_key : Bytes → ℕ → Bytes
index_expiry_key ns band = codes "sl:" ++ (ns ++ (codes ":idxexp:{" ++ (itoa band ++ codes "}")))

pub index_key : Bytes → ℕ → Bytes → Bytes → Bytes
index_key ns band field value =
    codes "sl:"
    ++ (ns ++ (codes ":idx:{" ++ (itoa band ++ (codes "}:" ++ (field ++ (codes ":" ++ value))))))

pub range_index_key : Bytes → ℕ → Bytes → Bytes
range_index_key ns band field =
    codes "sl:" ++ (ns ++ (codes ":ridx:{" ++ (itoa band ++ (codes "}:" ++ field))))

-- What fmt.Sscanf leaves in an int.
pub data ℤ : Type 0 where
  pos : ℕ → ℤ
  negsuc : ℕ → ℤ

abbrev pub max_int : ℕ
max_int = 2 ^ 63 - 1

abbrev is_blank : ℕ → Bool
is_blank c = (c == 32) || (c == 9)

skip_blanks : Bytes → Bytes
skip_blanks [] = []
skip_blanks (c ∷ cs) = let rest = skip_blanks cs in if is_blank c then rest else c ∷ cs

-- The digits up to the first byte that is none.
scan_digits : ℕ → Bytes → ℕ
scan_digits acc [] = acc
scan_digits acc (c ∷ cs) =
    let rest = scan_digits (acc * 10 + (c - 48)) cs in if is_digit c then rest else acc

-- At least one digit, and a value that an int holds.
scan_unsigned : Bytes → Option ℕ
unfolding scan_digits
scan_unsigned [] = none
scan_unsigned (c ∷ cs) =
    if is_digit c
    then (if leb (scan_digits 0 (c ∷ cs)) max_int then some (scan_digits 0 (c ∷ cs)) else none)
    else none

abbrev negated : Option ℕ → Option ℤ
negated none = none
negated (some zero) = some (pos zero)
negated (some (suc n)) = some (negsuc n)

abbrev positive : Option ℕ → Option ℤ
positive none = none
positive (some n) = some (pos n)

-- The sign, then the digits.
scan_signed : Bytes → Option ℤ
unfolding scan_unsigned
scan_signed [] = none
scan_signed (c ∷ cs) =
    if c == 45
    then negated (scan_unsigned cs)
    else if c == 43
    then positive (scan_unsigned cs)
    else positive (scan_unsigned (c ∷ cs))

-- fmt.Sscanf(text, "%d", &band)
scan_int : Bytes → Option ℤ
unfolding skip_blanks scan_signed
scan_int text = scan_signed (skip_blanks text)

-- key[open+1:end] between the first '{' and the first '}', if that is not empty.
band_text : Bytes → Option ℕ → Option ℕ → Option Bytes
band_text key (some open_at) (some end) =
    if leb end (open_at + 1)
    then none
    else some (take (end - (open_at + 1)) (drop (open_at + 1) key))
band_text key _ _ = none

scan_band : Option Bytes → Option ℤ
unfolding scan_int
scan_band none = none
scan_band (some text) = scan_int text

pub band_from_key : Bytes → Option ℤ
unfolding band_text scan_band
band_from_key key = scan_band (band_text key (index_byte 123 key) (index_byte 125 key))
