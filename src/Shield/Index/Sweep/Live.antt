-- ===== src/Shield/Index/Sweep/Live.antt =====
-- What SweepIndexBand of internal/shield/index.go sends to Redis spares the keys that are alive.
use sluice_go.Shield.Index.Sweep.{
  Page, ScanReply, scan_failed, page, SweepReplies, Swept, is_range, seen, and_then, prune_absent,
  prune_dead, sweep_pages, unregister, sweep_index, scan_of, sweep_keys, sweep_registry,
  sweep_index_band,
}
use sluice_go.Shield.Index.Prune.Live.{KeepsIndexed, filter-others, prune_members-Keeps}
use sluice_go.Prelude.{
  ℕ, ◌≡◌, refl, Bool, true, false, not, Option, none, some, List, [], ◌∷◌, filter, Bytes, All,
  All-append, Bool-cases, inl, inr,
}

module _ (S : Type 0) (ns : Bytes) (band : ℕ) (ck : Bytes) where
  -- On a page, EXISTS found the payload of the key, where it was answered.
  abbrev pub AliveOn : Option (Bytes → Bool) → Type 0
  AliveOn none = Unit
  AliveOn (some alive) = alive ck ≡ true

  abbrev pub AliveIn : ScanReply → Type 0
  AliveIn scan_failed = Unit
  AliveIn (page p) = AliveOn p.alive

  abbrev Sparing : Swept S → Type 0
  Sparing swept = All (KeepsIndexed S ns band ck) swept.commands

  and_then-Sparing : (a b : Swept S) → Sparing a → Sparing b → Sparing (and_then ns band a b)
  unfolding and_then
  and_then-Sparing a b h k = elim (Bool-cases a.failed) [
    | inl e ↦ rw (e, and_then) h
    | inr e ↦ rw (e, and_then) (All-append (KeepsIndexed S ns band ck) _ _ h k)
  ]

  prune_absent-Sparing :
      (p : Page) (o : Option (Bytes → Bool)) (sets zsets : List Bytes)
      → AliveOn o
      → Sparing (prune_absent ns band p o sets zsets)
  prune_absent-Sparing p none sets zsets h = tt
  prune_absent-Sparing p (some alive) sets zsets h =
      prune_members-Keeps S ns band ck p.replies (filter (λ k. not (alive k)) p.members) sets zsets
        (filter-others (λ k. not (alive k)) ck p.members (rw h refl))

  prune_dead-Sparing :
      (key : Bytes) (range : Bool) (p : Page) (members : List Bytes)
      → AliveOn p.alive
      → Sparing (prune_dead ns band key range p members)
  unfolding prune_dead
  prune_dead-Sparing key range p [] h = tt
  prune_dead-Sparing key true p (m ∷ ms) h = prune_absent-Sparing p p.alive [] (key ∷ []) h
  prune_dead-Sparing key false p (m ∷ ms) h = prune_absent-Sparing p p.alive (key ∷ []) [] h

  sweep_pages-Sparing :
      (key : Bytes) (range : Bool) (pages : List ScanReply)
      → All AliveIn pages
      → Sparing (sweep_pages ns band key range pages)
  unfolding sweep_pages
  sweep_pages-Sparing key range [] h = tt
  sweep_pages-Sparing key range (scan_failed ∷ rest) h = tt
  sweep_pages-Sparing key range (page p ∷ rest) h =
      and_then-Sparing _ _ (prune_dead-Sparing key range p p.members h.0)
        (sweep_pages-Sparing key range rest h.1)

  unregister-Sparing : (key : Bytes) (b : Bool) → Sparing (unregister ns band key b)
  unregister-Sparing key true = tt
  unregister-Sparing key false = (inr refl, tt)

  sweep_index-Sparing :
      (key : Bytes) (range : Bool) (pages : List ScanReply)
      → All AliveIn pages
      → Sparing (sweep_index ns band key range pages)
  unfolding sweep_index
  sweep_index-Sparing key range pages h =
      and_then-Sparing _ _ (sweep_pages-Sparing key range pages h)
        (unregister-Sparing key (seen pages))

  -- So on every page of the scan of an index.
  abbrev pub AliveThrough : SweepReplies → Type 0
  AliveThrough replies = (key : Bytes) → All AliveIn (scan_of replies key)

  sweep_keys-Sparing :
      (replies : SweepReplies) (keys : List Bytes)
      → AliveThrough replies
      → Sparing (sweep_keys ns band replies keys)
  unfolding sweep_keys
  sweep_keys-Sparing replies [] h = tt
  sweep_keys-Sparing replies (key ∷ keys) h =
      and_then-Sparing _ _ (sweep_index-Sparing key (is_range key) (scan_of replies key) (h key))
        (sweep_keys-Sparing replies keys h)

  sweep_registry-Sparing :
      (replies : SweepReplies) (o : Option (List Bytes))
      → AliveThrough replies
      → Sparing (sweep_registry ns band replies o)
  unfolding sweep_registry
  sweep_registry-Sparing replies none h = tt
  sweep_registry-Sparing replies (some keys) h = sweep_keys-Sparing replies keys h

  -- If EXISTS, where it is answered, finds the payload of a key on every page of every scan, then
  -- whatever Redis answers otherwise and whatever fails, nothing that SweepIndexBand sends takes
  -- the key out of an index or drops what idxv has of it.
  pub sweep_index_band-spares :
      (replies : SweepReplies)
      → AliveThrough replies
      → All (KeepsIndexed S ns band ck) (sweep_index_band ns band replies).commands
  unfolding sweep_index_band
  sweep_index_band-spares replies h = sweep_registry-Sparing replies replies.registry h
