-- ===== src/Tests/Registry.antt =====
-- The theorems on the registry of indexes and on UpdateIndexes at concrete inputs.
use sluice_go.Naming.{codes, max_int, index_key, range_index_key, index_registry_key}
use sluice_go.Naming.Tags.{IsNamespace}
use sluice_go.Shield.Index.{sadd, equality, score, next_values}
use sluice_go.Band.{band_for_key}
use sluice_go.Shield.Index.Current.{Spares}
use sluice_go.Shield.Index.Updates.{BulkIndexItem, UpdateReplies, update_indexes}
use sluice_go.Shield.Index.Updates.Current.{update_indexes-Spares}
use sluice_go.Shield.Index.Register.{KeyPage, keys_page, register_existing_indexes}
use sluice_go.Shield.Index.Register.Found.{all_seen, register_existing_indexes-Registers}
use sluice_go.Tests.{key_a}
use sluice_go.Prelude.{
  ℕ, ◌≤◌, ◌≡◌, refl, true, List, [], ◌∷◌, length, ltb, if◌then◌else◌, Bytes, some, All, Listed,
  arith,
}

-- Two masters, on one of which an index of band 3 is; SCAN may give a key twice.
abbrev cluster : Bytes → List (List KeyPage)
cluster pattern =
    if ltb (length pattern) 12
    then ((keys_page (index_key (codes "ns") 3 (codes "city") key_a ∷ []) true ∷ []) ∷ ([] ∷ []))
    else ((keys_page [] true ∷ (keys_page (codes "sl:ns:ridx:x" ∷ []) true ∷ [])) ∷ [])

ns-IsNamespace : IsNamespace (codes "ns")
ns-IsNamespace = record { no_open = ground arith; no_close = ground arith }

register_existing_indexes-Registers_example :
    ((register_existing_indexes ℕ (codes "ns") cluster).total
      ≡ length (all_seen (codes "ns") cluster))
    × ((n : ℕ) (field value : Bytes)
        → n ≤ max_int
        → (Listed (index_key (codes "ns") n field value) (all_seen (codes "ns") cluster)
            → Listed
                (sadd (index_registry_key (codes "ns") n) (index_key (codes "ns") n field value))
                (register_existing_indexes ℕ (codes "ns") cluster).commands)
          × (Listed (range_index_key (codes "ns") n field) (all_seen (codes "ns") cluster)
              → Listed
                  (sadd (index_registry_key (codes "ns") n) (range_index_key (codes "ns") n field))
                  (register_existing_indexes ℕ (codes "ns") cluster).commands))
unfolding register_existing_indexes
register_existing_indexes-Registers_example =
    register_existing_indexes-Registers ℕ (codes "ns") ns-IsNamespace cluster refl

-- The city changes from "a" to "b".
abbrev move : BulkIndexItem ℕ
move = record {
  correlation_key = key_a;
  fields = (codes "city", equality (codes "b")) ∷ ((codes "age", score 7) ∷ []);
  now = 9;
}

abbrev known : UpdateReplies
known = record { values = some (λ ck. (codes "city", codes "s:a") ∷ []); updated = true }

update_indexes-Spares_example :
    All
      (Spares (index_key (codes "ns") (band_for_key key_a 4) (codes "city") (codes "b")))
      (update_indexes (codes "ns") 4 60 known move).commands
unfolding next_values
update_indexes-Spares_example =
    update_indexes-Spares ℕ (codes "ns") 4 60 (codes "city") (codes "b")
      (refl, (refl, (refl, (refl, tt)))) (omega arith) move refl known
      ((refl, (refl, (refl, (refl, tt)))), tt)
