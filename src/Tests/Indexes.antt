-- ===== src/Tests/Indexes.antt =====
-- The theorems on queries, pruning and the sweep of indexes at concrete inputs.
use sluice_go.Naming.{codes, index_key}
use sluice_go.Redis.{Ttl, missing, expiring}
use sluice_go.Shield.Index.Query.{IndexMatch}
use sluice_go.Shield.Index.Prune.{MemberReplies, PruneReplies, prune_expired_indexes}
use sluice_go.Shield.Index.Prune.Live.{KeepsIndexed, prune_expired_indexes-spares}
use sluice_go.Shield.Index.Prune.Due.{SettledBy, all_answered, prune_expired_indexes-settles}
use sluice_go.Shield.Index.Sweep.{
  Page, scan_failed, page, SweepReplies, failed_sweep, is_range, sweep_index_band,
}
use sluice_go.Shield.Index.Sweep.Live.{AliveIn, AliveThrough, sweep_index_band-spares}
use sluice_go.Shield.Index.Sweep.Ended.{sweep_index_band-misled}
use sluice_go.Facade.Query.{Filters, BandAnswers, results, query}
use sluice_go.Shield.Index.Query.Bounds.{IsMap}
use sluice_go.Facade.Query.Exact.{AnswerIn, query_exact}
use sluice_go.Tests.{key_a, key_b, body_x}
use sluice_go.Prelude.{
  ℕ, ◌≡◌, ◌↔◌, refl, ap, sym, ◌∙◌, true, false, some, none, List, [], ◌∷◌, ltb, bytes_eq,
  if◌then◌else◌, Bytes, All, Listed, inl, inr,
}

-- "a" lives on, the payload of "b" is gone.
abbrev ttl_at : Bytes → Ttl
ttl_at ck = if bytes_eq ck key_a then expiring 5 else missing

abbrev values_at : Bytes → List (Bytes × Bytes)
values_at ck = (codes "city", codes "s:a") ∷ []

abbrev member_replies : MemberReplies
member_replies = record { values = some values_at; removed = true }

abbrev replies : PruneReplies
replies = record {
  due = some (key_a ∷ (key_b ∷ []));
  ttls = some ttl_at;
  requeued = true;
  members = member_replies;
}

prune_expired_indexes-spares_example :
    All
      (KeepsIndexed ℕ (codes "ns") 3 key_a)
      (prune_expired_indexes (codes "ns") 3 9 replies).commands
prune_expired_indexes-spares_example =
    prune_expired_indexes-spares ℕ (codes "ns") 3 key_a 9 replies refl

prune_expired_indexes-settles_example :
    SettledBy ℕ
      (codes "ns")
      3
      9
      key_b
      values_at
      (ttl_at key_b)
      (prune_expired_indexes {S = ℕ} (codes "ns") 3 9 (
        all_answered ℕ
          (codes "ns")
          3
          9
          key_b
          values_at
          (key_a ∷ (key_b ∷ []))
          ttl_at
          true)).commands
prune_expired_indexes-settles_example =
    prune_expired_indexes-settles ℕ (codes "ns") 3 9 key_b values_at (key_a ∷ (key_b ∷ [])) ttl_at
      true (inr (inl refl))

-- One page with both keys, of which "a" is alive.
abbrev both : Page
both = record {
  members = key_a ∷ (key_b ∷ []);
  alive = some (λ ck. bytes_eq ck key_a);
  replies = member_replies;
}

abbrev city_a : Bytes
city_a = index_key (codes "ns") 3 (codes "city") (codes "a")

abbrev swept : SweepReplies
swept = record {
  registry = some (city_a ∷ []);
  zscan = λ key. page both ∷ [];
  sscan = λ key. page both ∷ [];
}

swept-AliveThrough : AliveThrough ℕ (codes "ns") 3 key_a swept
swept-AliveThrough key =
    elim (is_range key)
      as (λ b.
        All (AliveIn ℕ (codes "ns") 3 key_a) (if b then swept.zscan key else swept.sscan key)) [
          | true ↦ (refl, tt)
          | false ↦ (refl, tt)
        ]

sweep_index_band-spares_example :
    All (KeepsIndexed ℕ (codes "ns") 3 key_a) (sweep_index_band (codes "ns") 3 swept).commands
sweep_index_band-spares_example =
    sweep_index_band-spares ℕ (codes "ns") 3 key_a swept swept-AliveThrough

-- A city with the name of the mark.
abbrev odd : SweepReplies
odd = record {
  registry = some (index_key (codes "ns") 3 (codes "city") (codes "x:ridx:") ∷ (city_a ∷ []));
  zscan = λ key. scan_failed ∷ [];
  sscan = λ key. page both ∷ [];
}

sweep_index_band-misled_example :
    sweep_index_band {S = ℕ} (codes "ns") 3 odd ≡ failed_sweep (codes "ns") 3
sweep_index_band-misled_example =
    sweep_index_band-misled (codes "ns") 3 odd (codes "city") (codes "x:ridx:") (city_a ∷ []) refl
      refl refl

-- In every band, "a" and "b" have the city; the payload of "b" is gone.
abbrev cities : Filters ℕ
cities = record {
  equality = (codes "city", codes "a") ∷ [];
  range_min = (codes "age", 5) ∷ [];
  range_max = [];
}

abbrev bands : ℕ → BandAnswers ℕ
bands band = record {
  sinter = λ keys. some (key_a ∷ (key_b ∷ []));
  payload_at = λ ck. if bytes_eq ck key_a then some body_x else none;
  score_at = λ field ck. some 7;
  fails = λ chunk. false;
}

age_IsMap : IsMap cities.range_min
age_IsMap f x y (inl e) (inl e') =
    ap (λ (p : Bytes × ℕ). p.1) e ∙ sym (ap (λ (p : Bytes × ℕ). p.1) e')
age_IsMap f x y (inl e) (inr h) = absurd h
age_IsMap f x y (inr h) k = absurd h

query_exact_example :
    (ms : List IndexMatch) × (query ltb (codes "ns") cities bands 2 false ≡ results ms)
    × ((m : IndexMatch)
        → Listed m ms
          ↔ AnswerIn ltb
              (codes "ns")
              cities
              bands
              age_IsMap
              (λ f x y h k. absurd h)
              (λ band. key_a ∷ (key_b ∷ []))
              (λ band chunk. refl)
              (λ band. refl)
              2
              0
              m)
query_exact_example =
    query_exact ltb (codes "ns") cities bands age_IsMap (λ f x y h k. absurd h)
      (λ band. key_a ∷ (key_b ∷ [])) (λ band chunk. refl) (λ band. refl) 2 (codes "city", codes "a")
      [] refl
