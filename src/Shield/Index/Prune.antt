-- ===== src/Shield/Index/Prune.antt =====
-- PruneExpiredIndexes and pruneIndexMembers of internal/shield/index.go. What Redis answers is a
-- parameter; the result holds the commands that were sent, in order.
pub mod Live
pub mod Due
use sluice_go.Naming.{index_expiry_key}
use sluice_go.Redis.{Ttl, missing, persistent, expiring}
use sluice_go.Shield.Index.{Queued, zrem, zadd_expiry}
use sluice_go.Shield.Index.Query.{prune_index_members}
use sluice_go.Prelude.{
  ℕ, ◌+◌, Bool, true, false, not, Option, none, some, List, [], ◌∷◌, ◌++◌, filter, length,
  if◌then◌else◌, Bytes,
}

-- The answers of the HGETALLs, none for an error, and whether the last pipeline succeeds.
pub record MemberReplies : Type 0 where
  pub values : Option (Bytes → List (Bytes × Bytes))
  pub removed : Bool

-- ZRANGEBYSCORE, and the PTTL of each due key, none for an error; whether the pipeline of the
-- queue succeeds, and what pruneIndexMembers is answered.
pub record PruneReplies : Type 0 where
  pub due : Option (List Bytes)
  pub ttls : Option (Bytes → Ttl)
  pub requeued : Bool
  pub members : MemberReplies

pub record Sent (S : Type 0) : Type 0 where
  pub failed : Bool
  pub commands : List (Queued S)

pub record Pruned (S : Type 0) : Type 0 where
  pub processed : ℕ
  pub pruned : ℕ
  pub failed : Bool
  pub commands : List (Queued S)

abbrev pub is_missing : Ttl → Bool
is_missing missing = true
is_missing t = false

abbrev pub dead_of : (Bytes → Ttl) → List Bytes → List Bytes
dead_of ttl_at = filter (λ ck. is_missing (ttl_at ck))

module _ {S : Type 0} (ns : Bytes) (band : ℕ) where
  abbrev pub prune_values :
      MemberReplies
      → Option (Bytes → List (Bytes × Bytes))
      → List Bytes
      → List Bytes
      → List Bytes
      → Sent S
  prune_values replies none cks sets zsets = record { failed = true; commands = [] }
  prune_values replies (some values_at) cks sets zsets = record {
    failed = not replies.removed;
    commands = prune_index_members ns band values_at sets zsets cks;
  }

  -- `pruneIndexMembers`
  unfoldable pub prune_members : MemberReplies → List Bytes → List Bytes → List Bytes → Sent S
  unfolding prune_index_members
  prune_members replies [] sets zsets = record { failed = false; commands = [] }
  prune_members replies (ck ∷ cks) sets zsets =
      prune_values replies replies.values (ck ∷ cks) sets zsets

  -- The command of one due key that is not dead.
  abbrev pub requeue : ℕ → Bytes → Ttl → List (Queued S)
  requeue now ck missing = []
  requeue now ck persistent = zrem (index_expiry_key ns band) ck ∷ []
  requeue now ck (expiring n) = zadd_expiry (index_expiry_key ns band) (now + n) ck ∷ []

  unfoldable pub requeue_all : ℕ → (Bytes → Ttl) → List Bytes → List (Queued S)
  requeue_all now ttl_at [] = []
  requeue_all now ttl_at (ck ∷ cks) = requeue now ck (ttl_at ck) ++ requeue_all now ttl_at cks

  unfoldable pub prune_due : ℕ → PruneReplies → List Bytes → Option (Bytes → Ttl) → Pruned S
  unfolding requeue_all prune_members
  prune_due now replies due none = record {
    processed = 0;
    pruned = 0;
    failed = true;
    commands = [];
  }
  prune_due now replies due (some ttl_at) =
      let queue = requeue_all now ttl_at due in
      let dead = dead_of ttl_at due in
      let sent = prune_members replies.members dead [] [] in
      if replies.requeued
      then record {
        processed = length due;
        pruned = length dead;
        failed = sent.failed;
        commands = queue ++ sent.commands;
      }
      else record { processed = length due; pruned = 0; failed = true; commands = queue }

  unfoldable pub prune_queue : ℕ → PruneReplies → Option (List Bytes) → Pruned S
  unfolding prune_due
  prune_queue now replies none = record { processed = 0; pruned = 0; failed = true; commands = [] }
  prune_queue now replies (some []) = record {
    processed = 0;
    pruned = 0;
    failed = false;
    commands = [];
  }
  prune_queue now replies (some (ck ∷ cks)) = prune_due now replies (ck ∷ cks) replies.ttls

  -- `PruneExpiredIndexes`
  unfoldable pub prune_expired_indexes : ℕ → PruneReplies → Pruned S
  unfolding prune_queue
  prune_expired_indexes now replies = prune_queue now replies replies.due
