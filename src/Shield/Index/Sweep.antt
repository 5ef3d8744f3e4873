-- ===== src/Shield/Index/Sweep.antt =====
-- SweepIndexBand and pruneDead of internal/shield/index.go.
pub mod Ended
pub mod Live
use sluice_go.Naming.{codes, index_registry_key}
use sluice_go.Shield.Index.{Queued, srem}
use sluice_go.Shield.Index.Prune.{MemberReplies, Sent, prune_members}
use sluice_go.Prelude.{
  ℕ, ◌+◌, Bool, true, false, not, ◌||◌, Option, none, some, List, [], ◌∷◌, ◌++◌, filter, length,
  if◌then◌else◌, Bytes, contains_text,
}

-- One page of a scan: its members, what EXISTS answers for their payloads (none for an error),
-- and what pruneIndexMembers is answered.
pub record Page : Type 0 where
  pub members : List Bytes
  pub alive : Option (Bytes → Bool)
  pub replies : MemberReplies

pub data ScanReply : Type 0 where
  scan_failed : ScanReply
  page : Page → ScanReply

-- SMEMBERS of the registry, none for an error; for an index key, the pages of ZSCAN and of SSCAN
-- from cursor 0 until it is 0 again.
pub record SweepReplies : Type 0 where
  pub registry : Option (List Bytes)
  pub zscan : Bytes → List ScanReply
  pub sscan : Bytes → List ScanReply

pub record Swept (S : Type 0) : Type 0 where
  pub scanned : ℕ
  pub pruned : ℕ
  pub failed : Bool
  pub commands : List (Queued S)

-- strings.Contains(key, ":ridx:")
abbrev pub is_range : Bytes → Bool
is_range key = contains_text (codes ":ridx:") key

abbrev pub some_seen : List Bytes → Bool
some_seen [] = false
some_seen (m ∷ ms) = true

-- Whether a page of the scan had a member.
unfoldable pub seen : List ScanReply → Bool
seen [] = false
seen (scan_failed ∷ rest) = false
seen (page p ∷ rest) = some_seen p.members || seen rest

abbrev pub scan_of : SweepReplies → Bytes → List ScanReply
scan_of replies key = if is_range key then replies.zscan key else replies.sscan key

module _ {S : Type 0} (ns : Bytes) (band : ℕ) where
  abbrev pub nothing_swept : Swept S
  nothing_swept = record { scanned = 0; pruned = 0; failed = false; commands = [] }

  abbrev pub failed_sweep : Swept S
  failed_sweep = record { scanned = 0; pruned = 0; failed = true; commands = [] }

  -- What came first, and what came behind it unless that failed.
  unfoldable pub and_then : Swept S → Swept S → Swept S
  and_then a b = if a.failed then a else record {
    scanned = a.scanned + b.scanned;
    pruned = a.pruned + b.pruned;
    failed = b.failed;
    commands = a.commands ++ b.commands;
  }

  abbrev pub prune_absent : Page → Option (Bytes → Bool) → List Bytes → List Bytes → Swept S
  prune_absent p none sets zsets = record {
    scanned = length p.members;
    pruned = 0;
    failed = true;
    commands = [];
  }
  prune_absent p (some alive) sets zsets =
      let dead = filter (λ ck. not (alive ck)) p.members in
      let sent = prune_members ns band p.replies dead sets zsets in
      record {
        scanned = length p.members;
        pruned = length dead;
        failed = sent.failed;
        commands = sent.commands;
      }

  -- `pruneDead`, with the page counted as scanned.
  unfoldable pub prune_dead : Bytes → Bool → Page → List Bytes → Swept S
  unfolding prune_members
  prune_dead key range p [] = nothing_swept
  prune_dead key true p (m ∷ ms) = prune_absent p p.alive [] (key ∷ [])
  prune_dead key false p (m ∷ ms) = prune_absent p p.alive (key ∷ []) []

  -- The loop over the pages of one index.
  unfoldable pub sweep_pages : Bytes → Bool → List ScanReply → Swept S
  unfolding prune_dead and_then
  sweep_pages key range [] = nothing_swept
  sweep_pages key range (scan_failed ∷ rest) = failed_sweep
  sweep_pages key range (page p ∷ rest) =
      and_then (prune_dead key range p p.members) (sweep_pages key range rest)

  -- An index in which no member was seen leaves the registry.
  abbrev pub unregister : Bytes → Bool → Swept S
  unregister key true = nothing_swept
  unregister key false = record {
    scanned = 0;
    pruned = 0;
    failed = false;
    commands = srem (index_registry_key ns band) key ∷ [];
  }

  unfoldable pub sweep_index : Bytes → Bool → List ScanReply → Swept S
  unfolding sweep_pages and_then seen
  sweep_index key range pages = and_then (sweep_pages key range pages) (unregister key (seen pages))

  -- The loop over the index keys.
  unfoldable pub sweep_keys : SweepReplies → List Bytes → Swept S
  unfolding sweep_index and_then
  sweep_keys replies [] = nothing_swept
  sweep_keys replies (key ∷ keys) =
      and_then (sweep_index key (is_range key) (scan_of replies key)) (sweep_keys replies keys)

  unfoldable pub sweep_registry : SweepReplies → Option (List Bytes) → Swept S
  unfolding sweep_keys
  sweep_registry replies none = failed_sweep
  sweep_registry replies (some keys) = sweep_keys replies keys

  -- `SweepIndexBand`
  unfoldable pub sweep_index_band : SweepReplies → Swept S
  unfolding sweep_registry
  sweep_index_band replies = sweep_registry replies replies.registry
