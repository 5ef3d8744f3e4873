-- ===== src/Naming/Tags.antt =====
-- `bandFromKey` against the key names: the band that a name was made with is the band read back.
use sluice_go.Naming.Decimal.{itoa, atoi, IsDigit, length-itoa, itoa-IsDigit, atoi-itoa}
use sluice_go.Naming.{
  codes, pos, max_int, scan_digits, scan_unsigned, scan_signed, skip_blanks, scan_int, scan_band,
  band_text, band_from_key, payload_key, dirty_key, dlq_key, hot_marker_key, index_values_key,
  index_registry_key, index_expiry_key, index_key, range_index_key,
}
use sluice_go.Prelude.{
  ℕ, suc, ◌+◌, ◌-◌, ◌*◌, ◌≤◌, ◌<◌, ◌≡◌, refl, sym, ap, ◌∙◌, [], ◌∷◌, ◌++◌, none, some, Bytes, All,
  All-append, Free, length, drop, take-append, length-append, index_byte, index_byte-append,
  index_byte-none, append_assoc, arith, le→leb,
}

-- Digits are scanned to the number that they spell, up to a byte that is none.
scan_digits-atoi :
    (acc n : ℕ) (ds : Bytes) → All IsDigit ds → atoi acc ds ≡ some n → scan_digits acc ds ≡ n
unfolding scan_digits atoi
scan_digits-atoi acc n [] h e = ground arith
scan_digits-atoi acc n (d ∷ ds) h e =
    ground (arith, scan_digits-atoi (acc * 10 + (d - 48)) n ds h.1)

scan_int-digits :
    (n d : ℕ) (ds : Bytes)
    → All IsDigit (d ∷ ds)
    → atoi 0 (d ∷ ds) ≡ some n
    → n ≤ max_int
    → scan_int (d ∷ ds) ≡ some (pos n)
unfolding scan_int skip_blanks scan_signed scan_unsigned
scan_int-digits n d ds h e small =
    ground (arith, scan_digits-atoi 0 n (d ∷ ds) h e, le→leb n max_int small)

-- The number of a non-empty text of digits; the empty text is no number's.
scan_int-itoa : (ds : Bytes) (n : ℕ) → itoa n ≡ ds → n ≤ max_int → scan_int (itoa n) ≡ some (pos n)
scan_int-itoa [] n e small = absurd (omega (arith, ap length e, length-itoa n))
scan_int-itoa (d ∷ ds) n e small =
    rw e (scan_int-digits n d ds (rw e at (itoa-IsDigit n)) (rw e at (atoi-itoa n)) small)

IsDigit-Free : (c : ℕ) (ds : Bytes) → 57 < c → All IsDigit ds → Free c ds
IsDigit-Free c [] h a = tt
IsDigit-Free c (d ∷ ds) h a = (ground arith, IsDigit-Free c ds h a.1)

drop-past : (c : ℕ) (xs ys : Bytes) → drop (suc (length xs)) (xs ++ c ∷ ys) ≡ ys
drop-past c [] ys = refl
drop-past c (x ∷ xs) ys = drop-past c xs ys

-- The first closing brace stands behind the digits.
close-at :
    (pre ds rest : Bytes)
    → Free 125 pre
    → Free 125 ds
    → index_byte 125 (pre ++ 123 ∷ (ds ++ 125 ∷ rest)) ≡ some (length pre + suc (length ds))
close-at pre ds rest h a =
    ap (index_byte 125) (sym (append_assoc pre (123 ∷ ds) (125 ∷ rest)))
    ∙ index_byte-append 125 (pre ++ 123 ∷ ds) rest (All-append _ pre (123 ∷ ds) h (refl, a))
    ∙ ap some (length-append pre (123 ∷ ds))

band_text-tag :
    (pre ds rest : Bytes)
    → 0 < length ds
    → band_text
        (pre ++ 123 ∷ (ds ++ 125 ∷ rest))
        (some (length pre))
        (some (length pre + suc (length ds)))
      ≡ some ds
unfolding band_text
band_text-tag pre ds rest h =
    rw (cut, past, drop-past 123 pre (ds ++ 125 ∷ rest), take-append ds (125 ∷ rest)) (ground arith)
  where
    cut : length pre + suc (length ds) - (length pre + 1) ≡ length ds
    cut = omega arith

    past : length pre + 1 ≡ suc (length pre)
    past = omega arith

-- A name with a tag: what stands in front of it has no brace.
pub band_from_key-tag :
    (pre rest : Bytes) (n : ℕ)
    → Free 123 pre
    → Free 125 pre
    → n ≤ max_int
    → band_from_key (pre ++ 123 ∷ (itoa n ++ 125 ∷ rest)) ≡ some (pos n)
unfolding band_from_key scan_band
band_from_key-tag pre rest n open_free close_free small =
    rw
      (
        index_byte-append 123 pre (itoa n ++ 125 ∷ rest) open_free,
        close-at pre (itoa n) rest close_free
            (IsDigit-Free 125 (itoa n) (omega arith) (itoa-IsDigit n)),
        band_text-tag pre (itoa n) rest (length-itoa n),
      )
      (scan_int-itoa (itoa n) n refl small)

-- `shield.New` refuses a namespace with a brace.
pub record IsNamespace (ns : Bytes) : Type 0 where
  pub no_open : Free 123 ns
  pub no_close : Free 125 ns

module _ (ns : Bytes) (valid : IsNamespace ns) (n : ℕ) (small : n ≤ max_int) where
  -- A name `sl:<namespace><kind>{<band>}<rest>`.
  tagged :
      (kind rest : Bytes)
      → index_byte 123 kind ≡ none
      → index_byte 125 kind ≡ none
      → band_from_key (codes "sl:" ++ (ns ++ (kind ++ 123 ∷ (itoa n ++ 125 ∷ rest)))) ≡ some (pos n)
  tagged kind rest h k =
      ap (λ x. band_from_key (codes "sl:" ++ x)) (sym (append_assoc ns kind _))
      ∙ band_from_key-tag (codes "sl:" ++ (ns ++ kind)) rest n
          (refl, (refl, (refl, All-append _ ns kind valid.no_open (index_byte-none 123 kind h))))
          (refl, (refl, (refl, All-append _ ns kind valid.no_close (index_byte-none 125 kind k))))
          small

  -- Every key name of a band gives that band back: all of them share one slot of a cluster.
  pub band_from_key-names :
      (ck field value : Bytes)
      → (band_from_key (payload_key ns n ck) ≡ some (pos n))
        × (band_from_key (dirty_key ns n) ≡ some (pos n))
        × (band_from_key (dlq_key ns n) ≡ some (pos n))
        × (band_from_key (hot_marker_key ns n ck) ≡ some (pos n))
        × (band_from_key (index_values_key ns n ck) ≡ some (pos n))
        × (band_from_key (index_registry_key ns n) ≡ some (pos n))
        × (band_from_key (index_expiry_key ns n) ≡ some (pos n))
        × (band_from_key (index_key ns n field value) ≡ some (pos n))
        × (band_from_key (range_index_key ns n field) ≡ some (pos n))
  unfolding payload_key dirty_key dlq_key hot_marker_key index_values_key index_registry_key
      index_expiry_key index_key range_index_key
  band_from_key-names ck field value = (
    tagged (codes ":payload:") (58 ∷ ck) refl refl,
    tagged (codes ":dirty:") [] refl refl,
    tagged (codes ":dlq:") [] refl refl,
    tagged (codes ":hot:") (58 ∷ ck) refl refl,
    tagged (codes ":idxv:") (58 ∷ ck) refl refl,
    tagged (codes ":idxreg:") [] refl refl,
    tagged (codes ":idxexp:") [] refl refl,
    tagged (codes ":idx:") (58 ∷ (field ++ 58 ∷ value)) refl refl,
    tagged (codes ":ridx:") (58 ∷ field) refl refl,
  )
