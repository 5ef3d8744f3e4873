-- ===== src/LocalJournal.antt =====
-- internal/localjournal/localjournal.go: the L1 cache. A shard is its map and its LRU list, the most
-- recently used key first; an entry is found in the list by its key. A disabled cache has room for
-- no entry. Times are in milliseconds.
pub mod Recency
pub mod Shards
pub mod Versions
pub mod Origin
pub mod Hits
use sluice_go.Naming.{ℤ, pos, negsuc}
use sluice_go.Band.{shard_index}
use sluice_go.Prelude.{
  ℕ, zero, suc, ◌+◌, ◌/◌, ◌%◌, ◌^◌, Bool, true, false, ◌&&◌, ◌||◌, not, Option, none, some, List,
  [], ◌∷◌, filter, length, ltb, leb, ◌==◌, if◌then◌else◌, Bytes, bytes_eq,
}

-- a <= b on int64
abbrev pub le_int : ℤ → ℤ → Bool
le_int (pos a) (pos b) = leb a b
le_int (pos a) (negsuc b) = false
le_int (negsuc a) (pos b) = true
le_int (negsuc a) (negsuc b) = leb b a

pub record Entry : Type 0 where
  pub payload : Bytes
  pub version : ℤ
  pub expires_at : ℕ

pub record Shard : Type 0 where
  pub m : Bytes → Option Entry
  pub lru : List Bytes

-- What Get gives, with the reason of a miss.
pub data Lookup : Type 0 where
  disabled absent expired : Lookup
  hit : Bytes → ℤ → Lookup

abbrev pub set_entry : Bytes → Entry → (Bytes → Option Entry) → Bytes → Option Entry
set_entry key e m j = if bytes_eq key j then some e else m j

abbrev pub delete : Bytes → (Bytes → Option Entry) → Bytes → Option Entry
delete key m j = if bytes_eq key j then none else m j

-- The list without the element of a key.
unfoldable pub without : Bytes → List Bytes → List Bytes
without key [] = []
without key (k ∷ ks) = let rest = without key ks in if bytes_eq key k then rest else k ∷ rest

-- lru.Back()
unfoldable pub back : List Bytes → Option Bytes
back [] = none
back (k ∷ []) = some k
back (k ∷ j ∷ ks) = back (j ∷ ks)

-- The list without its back.
unfoldable pub but_back : List Bytes → List Bytes
but_back [] = []
but_back (k ∷ []) = []
but_back (k ∷ j ∷ ks) = k ∷ but_back (j ∷ ks)

unfoldable pub found : ℕ → Bytes → Shard → Option Entry → Lookup × Shard
unfolding without
found now key s none = (absent, s)
found now key s (some e) =
    if ltb e.expires_at now
    then (expired, record { m = delete key s.m; lru = without key s.lru })
    else (hit e.payload e.version, record { m = s.m; lru = key ∷ without key s.lru })

unfoldable pub get_shard : ℕ → Bytes → Shard → Lookup × Shard
unfolding found
get_shard now key s = found now key s (s.m key)

unfoldable pub evict_back : Shard → Option Bytes → Shard
unfolding but_back
evict_back s none = s
evict_back s (some key) = record { m = delete key s.m; lru = but_back s.lru }

-- The eviction loop of Put, with the number of its turns; fuel bounds them.
unfoldable pub evict : ℕ → ℕ → Shard → Shard × ℕ
unfolding evict_back back
evict zero cap s = (s, 0)
evict (suc fuel) cap s =
    let rest = evict fuel cap (evict_back s (back s.lru)) in
    if ltb cap (length s.lru) then (rest.0, suc rest.1) else (s, 0)

unfoldable pub put_entry : ℕ → Bytes → Entry → Shard → Option Entry → Bool × Shard × ℕ
unfolding without evict
put_entry cap key e s (some old) =
    if le_int e.version old.version
    then (false, s, 0)
    else (true, record { m = set_entry key e s.m; lru = key ∷ without key s.lru }, 0)
put_entry cap key e s none =
    let out =
      evict (suc (length s.lru)) cap (record { m = set_entry key e s.m; lru = key ∷ s.lru }) in
    (true, out.0, out.1)

unfoldable pub put_shard : ℕ → Bytes → Entry → Shard → Bool × Shard × ℕ
unfolding put_entry
put_shard cap key e s = put_entry cap key e s (s.m key)

unfoldable pub drop_entry : Bytes → Shard → Option Entry → Shard
unfolding without
drop_entry key s none = s
drop_entry key s (some e) = record { m = delete key s.m; lru = without key s.lru }

unfoldable pub invalidate_shard : Bytes → Shard → Shard
unfolding drop_entry
invalidate_shard key s = drop_entry key s (s.m key)

pub record Cache : Type 0 where
  pub local_ttl : ℕ
  pub cap_per_shard : ℕ
  pub shards : ℕ → Shard
  pub evicted : ℕ

abbrev pub default_ttl : ℤ → ℕ
default_ttl (pos n) = if n == 0 then 60000 else n
default_ttl (negsuc n) = 60000

abbrev pub per_shard : ℤ → ℕ
per_shard (pos n) = (n + 255) / 256
per_shard (negsuc n) = 0

-- `New`
unfoldable pub new_cache : ℤ → ℤ → Cache
new_cache max_entries local_ttl = record {
  local_ttl = default_ttl local_ttl;
  cap_per_shard = per_shard max_entries;
  shards = λ i. record { m = λ k. none; lru = [] };
  evicted = 0;
}

abbrev pub enabled : Cache → Bool
enabled c = ltb 0 c.cap_per_shard

abbrev pub set_shard : Bytes → Shard → Cache → Cache
set_shard key s c = record c { shards = λ i. if shard_index key == i then s else c.shards i }

-- `Get`
unfoldable pub get : ℕ → Bytes → Cache → Lookup × Cache
unfolding get_shard
get now key c =
    let out = get_shard now key (c.shards (shard_index key)) in
    if enabled c then (out.0, set_shard key out.1 c) else (disabled, c)

-- `Put`; the counter of evictions is a uint64.
unfoldable pub put : ℕ → Bytes → Bytes → ℤ → Cache → Bool × Cache
unfolding put_shard
put now key payload version c =
    let e : Entry = record {
      payload = payload;
      version = version;
      expires_at = now + c.local_ttl;
    } in
    let out = put_shard c.cap_per_shard key e (c.shards (shard_index key)) in
    if enabled c
    then (out.0, record (set_shard key out.1 c) { evicted = (c.evicted + out.2) % 2 ^ 64 })
    else (false, c)

-- `Invalidate`
unfoldable pub invalidate : Bytes → Cache → Cache
unfolding invalidate_shard
invalidate key c =
    if enabled c then set_shard key (invalidate_shard key (c.shards (shard_index key))) c else c
