-- ===== src/Shield/Index/Sweep/Ended.antt =====
-- How SweepIndexBand of internal/shield/index.go tells the kinds of index apart, and where that
-- ends a sweep.
use sluice_go.Naming.{index_key}
use sluice_go.Naming.Kinds.{mark, index_key-marked}
use sluice_go.Shield.Index.Sweep.{
  scan_failed, SweepReplies, and_then, failed_sweep, sweep_pages, sweep_index, scan_of, sweep_keys,
  sweep_registry, sweep_index_band,
}
use sluice_go.Prelude.{
  ℕ, ◌≡◌, refl, ap, ◌∙◌, true, some, List, [], ◌∷◌, if◌then◌else◌, Bytes, contains_text,
}

module _ {S : Type 0} (ns : Bytes) (band : ℕ) where
  -- A sweep whose first scan fails is over.
  sweep_keys-failed :
      (replies : SweepReplies) (key : Bytes) (keys : List Bytes)
      → scan_of replies key ≡ scan_failed ∷ []
      → sweep_keys {S = S} ns band replies (key ∷ keys) ≡ failed_sweep ns band
  unfolding sweep_keys sweep_index sweep_pages and_then
  sweep_keys-failed replies key keys e = rw e refl

  -- The registry lists first an equality index whose value has ":ridx:" in it, and ZSCAN fails on
  -- it, as on any key that holds a SET: then SweepIndexBand fails with no member scanned and no
  -- command sent, whatever other indexes are registered and however SSCAN answers.
  pub sweep_index_band-misled :
      (replies : SweepReplies) (field value : Bytes) (keys : List Bytes)
      → contains_text mark value ≡ true
      → replies.registry ≡ some (index_key ns band field value ∷ keys)
      → replies.zscan (index_key ns band field value) ≡ scan_failed ∷ []
      → sweep_index_band {S = S} ns band replies ≡ failed_sweep ns band
  unfolding sweep_index_band sweep_registry
  sweep_index_band-misled replies field value keys has registered fails =
      ap (sweep_registry {S = S} ns band replies) registered
      ∙ sweep_keys-failed replies (index_key ns band field value) keys (
          ap
            (λ b.
              if b
              then replies.zscan (index_key ns band field value)
              else replies.sscan (index_key ns band field value))
            (index_key-marked ns band field value has)
          ∙ fails)
