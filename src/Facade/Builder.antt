-- ===== src/Facade/Builder.antt =====
-- `validate` of sluice.go: what Build requires, and the defaults it sets. Durations are signed
-- nanoseconds.
use sluice_go.Naming.{ℤ, pos, negsuc}
use sluice_go.Band.{band_for_key, band_for_key-lt}
use sluice_go.Prelude.{
  ℕ, ◌<◌, ◌≡◌, refl, ap, ◌==◌, if◌then◌else◌, Bytes, arith, List, [], ◌∷◌, Bool-cases, inl, inr,
}

pub record BuilderConfig : Type 0 where
  pub namespace : Bytes
  pub addrs : List Bytes
  pub band_count : ℤ
  pub max_batch_size : ℤ
  pub flush_window : ℤ
  pub key_ttl : ℤ

pub data Validated : Type 0 where
  missing_namespace missing_redis : Validated
  valid : BuilderConfig → Validated

-- A value that is not positive gives way to the default.
unfoldable pub or_default : ℕ → ℤ → ℤ
or_default d (pos n) = if n == 0 then pos d else pos n
or_default d (negsuc n) = pos d

unfoldable pub with_defaults : BuilderConfig → BuilderConfig
unfolding or_default
with_defaults b = record b {
  band_count = or_default 16 b.band_count;
  max_batch_size = or_default 1000 b.max_batch_size;
  flush_window = or_default 250000000 b.flush_window;
  key_ttl = or_default 30000000000 b.key_ttl;
}

unfoldable pub with_redis : List Bytes → BuilderConfig → Validated
unfolding with_defaults
with_redis [] b = missing_redis
with_redis (a ∷ more) b = valid (with_defaults b)

unfoldable pub with_namespace : Bytes → BuilderConfig → Validated
unfolding with_redis
with_namespace [] b = missing_namespace
with_namespace (x ∷ xs) b = with_redis b.addrs b

unfoldable pub validate : BuilderConfig → Validated
unfolding with_namespace
validate b = with_namespace b.namespace b

abbrev pub to_nat : ℤ → ℕ
to_nat (pos n) = n
to_nat (negsuc n) = 0

-- Usable values: all positive, and every key has a band below the band count.
abbrev pub IsUsable : BuilderConfig → Type 0
IsUsable c =
    (0 < to_nat c.max_batch_size)
    × (0 < to_nat c.flush_window)
    × (0 < to_nat c.key_ttl)
    × ((ck : Bytes) → band_for_key ck (to_nat c.band_count) < to_nat c.band_count)

-- What validate answers is usable, and a second validate leaves it.
abbrev pub Checked : Validated → Type 0
Checked missing_namespace = Unit
Checked missing_redis = Unit
Checked (valid c) = IsUsable c × (validate c ≡ valid c)

or_default-positive : (d : ℕ) (z : ℤ) → 0 < d → 0 < to_nat (or_default d z)
unfolding or_default
or_default-positive d (pos n) h = elim (Bool-cases (n == 0)) [
  | inl e ↦ rw e h
  | inr e ↦ rw e (ground arith)
]
or_default-positive d (negsuc n) h = h

or_default-kept : (d : ℕ) (z : ℤ) → 0 < to_nat z → or_default d z ≡ z
unfolding or_default
or_default-kept d (pos n) h = elim (Bool-cases (n == 0)) [
  | inl e ↦ ground arith
  | inr e ↦ rw e refl
]
or_default-kept d (negsuc n) h = elim h [ ]

or_default-again : (d : ℕ) (z : ℤ) → 0 < d → or_default d (or_default d z) ≡ or_default d z
or_default-again d z h = or_default-kept d (or_default d z) (or_default-positive d z h)

with_defaults-IsUsable : (b : BuilderConfig) → IsUsable (with_defaults b)
unfolding with_defaults
with_defaults-IsUsable b = (
  or_default-positive 1000 b.max_batch_size (omega arith),
  or_default-positive 250000000 b.flush_window (omega arith),
  or_default-positive 30000000000 b.key_ttl (omega arith),
  λ ck. (band_for_key-lt ck _ (or_default-positive 16 b.band_count (omega arith))).1,
)

with_defaults-again : (b : BuilderConfig) → with_defaults (with_defaults b) ≡ with_defaults b
unfolding with_defaults
with_defaults-again b =
    rw
      (
        or_default-again 16 b.band_count (omega arith),
        or_default-again 1000 b.max_batch_size (omega arith),
        or_default-again 250000000 b.flush_window (omega arith),
        or_default-again 30000000000 b.key_ttl (omega arith),
      )
      refl

abbrev built : Bytes → List Bytes → BuilderConfig → BuilderConfig
built ns addrs b = record b { namespace = ns; addrs = addrs }

validate-built :
    (ns : Bytes) (addrs : List Bytes) (b : BuilderConfig) → Checked (validate (built ns addrs b))
unfolding validate with_namespace with_redis with_defaults
validate-built [] addrs b = tt
validate-built (x ∷ xs) [] b = tt
validate-built (x ∷ xs) (a ∷ more) b = (
  with_defaults-IsUsable (built (x ∷ xs) (a ∷ more) b),
  ap valid (with_defaults-again (built (x ∷ xs) (a ∷ more) b)),
)

-- A builder that passes validate has a positive batch size, flush window and key TTL, and gives
-- every correlation key a band below its band count; a second validate changes nothing more.
pub validate-Checked : (b : BuilderConfig) → Checked (validate b)
validate-Checked b = validate-built b.namespace b.addrs b
