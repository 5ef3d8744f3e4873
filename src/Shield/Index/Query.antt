-- ===== src/Shield/Index/Query.antt =====
-- QueryBand and pruneIndexMembers of internal/shield/index.go. What Redis answers is a parameter:
-- the payload of a key, its score for a field, what idxv has of it, and the chunks whose pipeline
-- fails.
pub mod Chunks
pub mod Bounds
use sluice_go.Naming.{index_key, range_index_key, index_values_key, index_expiry_key}
use sluice_go.Shield.Index.{Queued, srem, zrem, del, value_of, cut_equality}
use sluice_go.Prelude.{
  ℕ, zero, suc, Bool, true, false, not, ◌&&◌, ◌||◌, Option, none, some, List, [], ◌∷◌, ◌++◌, map,
  filter, take, drop, length, if◌then◌else◌, Bytes, bytes_eq,
}

pub record IndexMatch : Type 0 where
  pub correlation_key : Bytes
  pub payload : Bytes

-- The matches and the keys whose payload is gone.
pub record Resolved : Type 0 where
  pub matches : List IndexMatch
  pub dead : List Bytes

abbrev pub bound_of : {S : Type 0} → Bytes → List (Bytes × S) → Option S
bound_of f [] = none
bound_of f ((g, s) ∷ rest) = if bytes_eq g f then some s else bound_of f rest

abbrev pub has_bound : {S : Type 0} → List (Bytes × S) → Bytes → Bool
has_bound [] f = false
has_bound ((g, s) ∷ rest) f = bytes_eq g f || has_bound rest f

-- The fields with a lower bound, then those with an upper bound only.
unfoldable pub range_fields : {S : Type 0} → List (Bytes × S) → List (Bytes × S) → List Bytes
range_fields range_min range_max =
    map (λ p. p.0) range_min ++ filter (λ f. not (has_bound range_min f)) (map (λ p. p.0) range_max)

abbrev pub both : Resolved → Resolved → Resolved
both a b = record { matches = a.matches ++ b.matches; dead = a.dead ++ b.dead }

abbrev pub and_rest : Resolved → Option Resolved → Option Resolved
and_rest a none = none
and_rest a (some b) = some (both a b)

module _ {S : Type 0} (less : S → S → Bool) (payload_at : Bytes → Option Bytes)
    (score_at : Bytes → Bytes → Option S) (range_min range_max : List (Bytes × S)) where
  abbrev pub below : S → Option S → Bool
  below s none = false
  below s (some lo) = less s lo

  abbrev pub above : S → Option S → Bool
  above s none = false
  above s (some hi) = less hi s

  unfoldable pub in_range : Bytes → Option S → Bool
  in_range f none = false
  in_range f (some s) = not (below s (bound_of f range_min)) && not (above s (bound_of f range_max))

  unfoldable pub in_ranges : Bytes → List Bytes → Bool
  unfolding in_range
  in_ranges ck [] = true
  in_ranges ck (f ∷ fs) = in_range f (score_at f ck) && in_ranges ck fs

  unfoldable pub resolve_one : Bytes → Option Bytes → Resolved → Resolved
  unfolding in_ranges range_fields
  resolve_one ck none rest = record rest { dead = ck ∷ rest.dead }
  resolve_one ck (some []) rest = record rest { dead = ck ∷ rest.dead }
  resolve_one ck (some (x ∷ xs)) rest =
      if in_ranges ck (range_fields range_min range_max)
      then record rest {
        matches = record { correlation_key = ck; payload = x ∷ xs } ∷ rest.matches;
      }
      else rest

  -- The candidates of one chunk.
  unfoldable pub resolve : List Bytes → Resolved
  unfolding resolve_one
  resolve [] = record { matches = []; dead = [] }
  resolve (ck ∷ cks) = resolve_one ck (payload_at ck) (resolve cks)

  module _ (fails : List Bytes → Bool) where
    -- The loop over chunks of 500; none where a pipeline fails. Its fuel counts the chunks.
    unfoldable pub resolve_chunks : ℕ → List Bytes → Option Resolved
    unfolding resolve
    resolve_chunks fuel [] = some (record { matches = []; dead = [] })
    resolve_chunks zero (ck ∷ cks) = none
    resolve_chunks (suc fuel) (ck ∷ cks) =
        let chunk = take 500 (ck ∷ cks) in
        let rest = resolve_chunks fuel (drop 500 (ck ∷ cks)) in
        if fails chunk then none else and_rest (resolve chunk) rest

    -- `QueryBand` on the candidates that SINTER gives, before the pruning.
    unfoldable pub query_band : List Bytes → Option Resolved
    unfolding resolve_chunks
    query_band cks = resolve_chunks (length cks) cks

module _ {S : Type 0} (ns : Bytes) (band : ℕ) (values_at : Bytes → List (Bytes × Bytes)) where
  abbrev pub drop_value : Bytes → Bytes → Option Bytes → Queued S
  drop_value ck f (some v) = srem (index_key ns band f v) ck
  drop_value ck f none = zrem (range_index_key ns band f) ck

  unfoldable pub prune_member : List Bytes → List Bytes → Bytes → List (Queued S)
  prune_member sets zsets ck =
      map (λ key. srem key ck) sets
      ++ (map (λ key. zrem key ck) zsets
          ++ (map (λ p. drop_value ck p.0 (cut_equality p.1)) (values_at ck)
              ++ (del (index_values_key ns band ck) ∷ (zrem (index_expiry_key ns band) ck ∷ []))))

  -- The commands of `pruneIndexMembers`.
  unfoldable pub prune_index_members : List Bytes → List Bytes → List Bytes → List (Queued S)
  unfolding prune_member
  prune_index_members sets zsets [] = []
  prune_index_members sets zsets (ck ∷ cks) =
      prune_member sets zsets ck ++ prune_index_members sets zsets cks
