-- ===== src/LocalJournal/Origin.antt =====
-- What the operations on a shard of the L1 cache add to its entries.
use sluice_go.Band.{shard_index}
use sluice_go.LocalJournal.{
  Entry, Shard, Lookup, without, Cache, set_entry, found, evict_back, back, evict, put_entry,
  drop_entry, le_int, set_shard,
}
use sluice_go.Prelude.{
  ℕ, zero, suc, ◌≡◌, refl, sym, ◌⊎◌, inl, inr, Bool, true, false, Option, none, some, List, ◌∷◌,
  ltb, length, if◌then◌else◌, Bytes, bytes_eq, bytes_eq→≡, ◌==◌, ==_refl, ==→≡, subst,
}

-- One shard has no entry that the other has not.
abbrev pub Sub : Shard → Shard → Type 0
Sub s t = (k : Bytes) (e : Entry) → s.m k ≡ some e → t.m k ≡ some e

if-none :
    (b : Bool) (o : Option Entry) (e : Entry)
    → (if b then none else o) ≡ some e
    → (b ≡ false) × (o ≡ some e)
if-none true o e h = cc
if-none false o e h = (refl, h)

if-some :
    (b : Bool) (o : Option Entry) (x e : Entry)
    → (if b then some x else o) ≡ some e
    → (o ≡ some e) ⊎ ((b ≡ true) × (some x ≡ some e))
if-some true o x e h = inr (refl, h)
if-some false o x e h = inl h

evict_back-Sub : (s : Shard) (o : Option Bytes) → Sub (evict_back s o) s
unfolding evict_back
evict_back-Sub s none k e h = h
evict_back-Sub s (some key) k e h = (if-none (bytes_eq key k) (s.m k) e h).1

if-Sub :
    (b : Bool) (p q : Shard × ℕ) (t : Shard) → Sub p.0 t → Sub q.0 t → Sub (if b then p else q).0 t
if-Sub true p q t hp hq = hp
if-Sub false p q t hp hq = hq

evict-Sub : (fuel cap : ℕ) (s : Shard) → Sub (evict fuel cap s).0 s
unfolding evict
evict-Sub zero cap s = λ k e h. h
evict-Sub (suc fuel) cap s =
    let t = evict_back s (back s.lru) in
    if-Sub (ltb cap (length s.lru)) _ _ s
      (λ k e h. evict_back-Sub s (back s.lru) k e (evict-Sub fuel cap t k e h)) (λ k e h. h)

-- The second shard has the entries of the first, and for the key maybe this one.
abbrev pub Adds : Bytes → Entry → Shard → Shard → Type 0
Adds key x s t = (k : Bytes) (e : Entry) → t.m k ≡ some e → (s.m k ≡ some e) ⊎ ((k ≡ key) × (e ≡ x))

some-injective : (x e : Entry) → some x ≡ some e → e ≡ x
some-injective x e h = cc

set_entry-Adds :
    (key : Bytes) (x : Entry) (s : Shard) (lru : List Bytes)
    → Adds key x s (record { m = set_entry key x s.m; lru = lru })
set_entry-Adds key x s lru k e h = elim (if-some (bytes_eq key k) (s.m k) x e h) [
  | inl old ↦ inl old
  | inr (same, new) ↦ inr (sym (bytes_eq→≡ key k same), some-injective x e new)
]

if-Adds :
    (b : Bool) (key : Bytes) (x : Entry) (s : Shard) (p q : Bool × Shard × ℕ)
    → Adds key x s p.1
    → Adds key x s q.1
    → Adds key x s (if b then p else q).1
if-Adds true key x s p q hp hq = hp
if-Adds false key x s p q hp hq = hq

pub put_entry-Adds :
    (cap : ℕ) (key : Bytes) (x : Entry) (s : Shard) (o : Option Entry)
    → Adds key x s (put_entry cap key x s o).1
unfolding put_entry
put_entry-Adds cap key x s (some old) =
    if-Adds (le_int x.version old.version) key x s _ _ (λ k e h. inl h)
      (set_entry-Adds key x s (key ∷ without key s.lru))
put_entry-Adds cap key x s none =
    let pushed : Shard = record { m = set_entry key x s.m; lru = key ∷ s.lru } in
    λ k e h.
      set_entry-Adds key x s (key ∷ s.lru) k e (evict-Sub (suc (length s.lru)) cap pushed k e h)

if-lookup :
    (b : Bool) (p q : Lookup × Shard) (t : Shard)
    → Sub p.1 t
    → Sub q.1 t
    → Sub (if b then p else q).1 t
if-lookup true p q t hp hq = hp
if-lookup false p q t hp hq = hq

pub found-Sub : (now : ℕ) (key : Bytes) (s : Shard) (o : Option Entry) → Sub (found now key s o).1 s
unfolding found
found-Sub now key s none = λ k e h. h
found-Sub now key s (some x) =
    if-lookup (ltb x.expires_at now) _ _ s (λ k e h. (if-none (bytes_eq key k) (s.m k) e h).1)
      (λ k e h. h)

other_key :
    (b : Bool) (key k : Bytes) (s : Shard) (e : Entry)
    → s.m key ≡ none
    → s.m k ≡ some e
    → bytes_eq key k ≡ b
    → b ≡ false
other_key true key k s e gone there same =
    let moved : s.m key ≡ some e =
      subst (λ j. s.m j ≡ some e) (sym (bytes_eq→≡ key k same)) there in
    cc
other_key false key k s e gone there same = refl

pub drop_entry-Sub :
    (key : Bytes) (s : Shard) (o : Option Entry) (k : Bytes) (e : Entry)
    → s.m key ≡ o
    → (drop_entry key s o).m k ≡ some e
    → (s.m k ≡ some e) × (bytes_eq key k ≡ false)
unfolding drop_entry
drop_entry-Sub key s none k e gone h = (h, other_key (bytes_eq key k) key k s e gone h refl)
drop_entry-Sub key s (some x) k e there h =
    let cut = if-none (bytes_eq key k) (s.m k) e h in (cut.1, cut.0)

if-m :
    (b : Bool) (t s : Shard) (k : Bytes) (e : Entry)
    → (if b then t else s).m k ≡ some e
    → ((b ≡ true) × (t.m k ≡ some e)) ⊎ ((b ≡ false) × (s.m k ≡ some e))
if-m true t s k e h = inl (refl, h)
if-m false t s k e h = inr (refl, h)

apart_keys :
    (b : Bool) (key k : Bytes)
    → (shard_index key == shard_index k) ≡ false
    → bytes_eq key k ≡ b
    → b ≡ false
apart_keys true key k different same =
    let met : (shard_index key == shard_index k) ≡ true =
      subst (λ j. (shard_index key == shard_index j) ≡ true) (bytes_eq→≡ key k same)
        (==_refl (shard_index key)) in
    cc
apart_keys false key k different same = refl

-- Every entry that the cache has for a key is one of these.
abbrev pub Within : (Bytes → Entry → Type 0) → Cache → Type 0
Within P c = (k : Bytes) (e : Entry) → (c.shards (shard_index k)).m k ≡ some e → P k e

module _ (P Q : Bytes → Entry → Type 0) (key : Bytes) (c : Cache) (t : Shard) where
  -- One shard replaced.
  pub set_shard-Within :
      Within P c
      → ((k : Bytes) (e : Entry)
          → t.m k ≡ some e
          → ((c.shards (shard_index key)).m k ≡ some e → P k e)
          → Q k e)
      → ((k : Bytes) (e : Entry) → bytes_eq key k ≡ false → P k e → Q k e)
      → Within Q (set_shard key t c)
  set_shard-Within h inside outside k e there =
      elim (if-m (shard_index key == shard_index k) t (c.shards (shard_index k)) k e there) [
        | inl (same, new) ↦ inside k e new (λ old. h k e (
            subst (λ i. (c.shards i).m k ≡ some e) (==→≡ (shard_index key) (shard_index k) same)
              old))
        | inr (different, old) ↦
            outside k e (apart_keys (bytes_eq key k) key k different refl) (h k e old)
      ]
