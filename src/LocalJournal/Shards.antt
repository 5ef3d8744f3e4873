-- ===== src/LocalJournal/Shards.antt =====
-- The consistency of the shards of the L1 cache, through any calls of it.
use sluice_go.Naming.{ℤ}
use sluice_go.Band.{shard_index}
use sluice_go.LocalJournal.{
  Entry, Shard, Cache, set_entry, delete, without, back, found, get_shard, evict_back, evict,
  put_entry, put_shard, drop_entry, invalidate_shard, new_cache, per_shard, enabled, get, put,
  invalidate, le_int,
}
use sluice_go.LocalJournal.Recency.{
  listed, Distinct, listed-without, without-Distinct, length-without_le, length-without_lt,
  listed-but_back, but_back-Distinct, back-none, suc-length-but_back,
}
use sluice_go.Shield.Pending.{is_some}
use sluice_go.Prelude.{
  ℕ, zero, suc, ◌+◌, ◌≤◌, ◌<◌, ◌≡◌, refl, sym, true, false, ◌||◌, Option, none, some, List, [], ◌∷◌,
  length, ltb, ltb→lt, ◌==◌, if◌then◌else◌, Bytes, bytes_eq, bytes_eq→≡, bytes_eq_refl, arith,
  Bool-cases, inl, inr,
}

-- The map and the list name the same keys, each once.
pub record IsShard (s : Shard) : Type 0 where
  pub synced : (k : Bytes) → is_some (s.m k) ≡ listed k s.lru
  pub distinct : Distinct s.lru

-- And there are at most that many.
abbrev pub IsBounded : ℕ → Shard → Type 0
IsBounded cap s = IsShard s × (length s.lru ≤ cap)

removed-IsShard :
    (key : Bytes) (s : Shard)
    → IsShard s
    → IsShard (record { m = delete key s.m; lru = without key s.lru })
removed-IsShard key s h = record {
  synced = λ k. ground (arith, listed-without key k s.lru, h.synced k);
  distinct = without-Distinct key s.lru h.distinct;
}

not_listed : (key : Bytes) (ks : List Bytes) → listed key (without key ks) ≡ false
not_listed key ks = ground (arith, listed-without key key ks, bytes_eq_refl key)

promoted-IsShard :
    (key : Bytes) (m : Bytes → Option Entry) (s : Shard)
    → IsShard s
    → ((k : Bytes) → is_some (m k) ≡ (bytes_eq key k || is_some (s.m k)))
    → IsShard (record { m = m; lru = key ∷ without key s.lru })
promoted-IsShard key m s h e = record {
  synced = λ k. ground (arith, listed-without key k s.lru, h.synced k, e k);
  distinct = (not_listed key s.lru, without-Distinct key s.lru h.distinct);
}

pub pushed-Distinct :
    (key : Bytes) (s : Shard) → IsShard s → s.m key ≡ none → Distinct (key ∷ s.lru)
pushed-Distinct key s h absent = (ground (arith, h.synced key), h.distinct)

pushed-IsShard :
    (key : Bytes) (e : Entry) (s : Shard)
    → IsShard s
    → s.m key ≡ none
    → IsShard (record { m = set_entry key e s.m; lru = key ∷ s.lru })
pushed-IsShard key e s h absent = record {
  synced = λ k. ground (arith, h.synced k);
  distinct = pushed-Distinct key s h absent;
}

is_listed :
    (key : Bytes) (e : Entry) (s : Shard) → IsShard s → s.m key ≡ some e → listed key s.lru ≡ true
is_listed key e s h there = ground (arith, h.synced key)

evict_back-IsShard :
    (s : Shard) (o : Option Bytes) → back s.lru ≡ o → IsShard s → IsShard (evict_back s o)
unfolding evict_back
evict_back-IsShard s none e h = h
evict_back-IsShard s (some b) e h = record {
  synced = λ k. ground (arith, listed-but_back k b s.lru h.distinct e, h.synced k);
  distinct = but_back-Distinct b s.lru h.distinct e;
}

length-evict_back :
    (s : Shard) (o : Option Bytes)
    → back s.lru ≡ o
    → 0 < length s.lru
    → suc (length (evict_back s o).lru) ≡ length s.lru
unfolding evict_back
length-evict_back s none e p = omega (arith, back-none s.lru e)
length-evict_back s (some b) e p = suc-length-but_back b s.lru e

-- The loop ends below the capacity when it has a turn for each key above it.
pub evict-IsBounded :
    (fuel cap : ℕ) (s : Shard)
    → IsShard s
    → length s.lru ≤ fuel + cap
    → IsBounded cap (evict fuel cap s).0
unfolding evict
evict-IsBounded zero cap s h small = (h, omega arith)
evict-IsBounded (suc fuel) cap s h small = elim (Bool-cases (ltb cap (length s.lru))) [
  | inl more ↦ rw more (
      evict-IsBounded fuel cap (evict_back s (back s.lru))
        (evict_back-IsShard s (back s.lru) refl h)
        (omega (
          arith,
          length-evict_back s (back s.lru) refl (omega (arith, ltb→lt cap (length s.lru) more)),
        )))
  | inr fits ↦ rw fits (h, ground arith)
]

put_entry-IsBounded :
    (cap : ℕ) (key : Bytes) (e : Entry) (s : Shard) (o : Option Entry)
    → s.m key ≡ o
    → IsBounded cap s
    → IsBounded cap (put_entry cap key e s o).1
unfolding put_entry
put_entry-IsBounded cap key e s (some old) there h =
    elim (Bool-cases (le_int e.version old.version)) [
      | inl stale ↦ rw stale h
      | inr newer ↦ rw newer (
        promoted-IsShard key (set_entry key e s.m) s h.0 (λ k. ground arith),
        omega (arith, length-without_lt key s.lru (is_listed key old s h.0 there)),
      )
    ]
put_entry-IsBounded cap key e s none absent h =
    evict-IsBounded (suc (length s.lru)) cap _ (pushed-IsShard key e s h.0 absent) (omega arith)

found-IsBounded :
    (cap now : ℕ) (key : Bytes) (s : Shard) (o : Option Entry)
    → s.m key ≡ o
    → IsBounded cap s
    → IsBounded cap (found now key s o).1
unfolding found
found-IsBounded cap now key s none there h = h
found-IsBounded cap now key s (some e) there h = elim (Bool-cases (ltb e.expires_at now)) [
  | inl old ↦ rw old (removed-IsShard key s h.0, omega (arith, length-without_le key s.lru))
  | inr live ↦ rw live (
    promoted-IsShard key s.m s h.0 (λ k. elim (Bool-cases (bytes_eq key k)) [
      | inl same ↦ rw (same, sym (bytes_eq→≡ key k same), there, is_some)
      | inr other ↦ rw other
    ]),
    omega (arith, length-without_lt key s.lru (is_listed key e s h.0 there)),
  )
]

drop_entry-IsBounded :
    (cap : ℕ) (key : Bytes) (s : Shard) (o : Option Entry)
    → IsBounded cap s
    → IsBounded cap (drop_entry key s o)
unfolding drop_entry
drop_entry-IsBounded cap key s none h = h
drop_entry-IsBounded cap key s (some e) h =
    (removed-IsShard key s h.0, omega (arith, length-without_le key s.lru))

-- A call of the cache.
pub data Call : Type 0 where
  gets : (now : ℕ) (key : Bytes) → Call
  puts : (now : ℕ) (key payload : Bytes) (version : ℤ) → Call
  invalidates : (key : Bytes) → Call

unfoldable pub call : Call → Cache → Cache
unfolding get put invalidate
call (gets now key) c = (get now key c).1
call (puts now key payload version) c = (put now key payload version c).1
call (invalidates key) c = invalidate key c

unfoldable pub call_all : List Call → Cache → Cache
unfolding call
call_all [] c = c
call_all (x ∷ xs) c = call_all xs (call x c)

-- Every shard of the cache, with the capacity that New gave it.
abbrev pub AllBounded : ℕ → Cache → Type 0
AllBounded cap c = (c.cap_per_shard ≡ cap) × ((i : ℕ) → IsBounded cap (c.shards i))

set_shard-AllBounded :
    (cap i j : ℕ) (s t : Shard)
    → IsBounded cap s
    → IsBounded cap t
    → IsBounded cap (if i == j then s else t)
set_shard-AllBounded cap i j s t hs ht = elim (Bool-cases (i == j)) [
  | inl e ↦ rw e hs
  | inr e ↦ rw e ht
]

call-AllBounded : (cap : ℕ) (x : Call) (c : Cache) → AllBounded cap c → AllBounded cap (call x c)
unfolding call get put invalidate get_shard put_shard invalidate_shard
call-AllBounded cap (gets now key) c h = elim (Bool-cases (enabled c)) [
  | inl on ↦
      rw (on, call, get)
        (
          h.0,
          λ i.
              set_shard-AllBounded cap _ i _ _
                (found-IsBounded cap now key _ _ refl (h.1 (shard_index key))) (h.1 i),
        )
  | inr off ↦ rw (off, call, get) h
]
call-AllBounded cap (puts now key payload version) c h = elim (Bool-cases (enabled c)) [
  | inl on ↦
      rw (on, call, put)
        (
          h.0,
          λ i.
              set_shard-AllBounded cap _ i _ _
                (rw h.0 (put_entry-IsBounded cap key _ _ _ refl (h.1 (shard_index key)))) (h.1 i),
        )
  | inr off ↦ rw (off, call, put) h
]
call-AllBounded cap (invalidates key) c h = elim (Bool-cases (enabled c)) [
  | inl on ↦
      rw (on, call, invalidate)
        (
          h.0,
          λ i.
              set_shard-AllBounded cap _ i _ _
                (drop_entry-IsBounded cap key _ _ (h.1 (shard_index key))) (h.1 i),
        )
  | inr off ↦ rw (off, call, invalidate) h
]

call_all-AllBounded :
    (cap : ℕ) (calls : List Call) (c : Cache) → AllBounded cap c → AllBounded cap (call_all calls c)
unfolding call_all
call_all-AllBounded cap [] c h = h
call_all-AllBounded cap (x ∷ xs) c h =
    call_all-AllBounded cap xs (call x c) (call-AllBounded cap x c h)

-- After any calls on a new cache, in every shard the map and the LRU list name the same keys, no
-- key is listed twice, and there are at most as many as MaxEntries / 256, rounded up.
pub call_all-new_cache :
    (max_entries local_ttl : ℤ) (calls : List Call)
    → AllBounded (per_shard max_entries) (call_all calls (new_cache max_entries local_ttl))
unfolding new_cache
call_all-new_cache max_entries local_ttl calls =
    call_all-AllBounded (per_shard max_entries) calls (new_cache max_entries local_ttl)
      (refl, λ i. (record { synced = λ k. refl; distinct = tt }, omega arith))
