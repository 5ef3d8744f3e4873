-- ===== src/LocalJournal/Versions.antt =====
-- Put and Get of the L1 cache, one after the other.
use sluice_go.Naming.{ℤ, pos, negsuc}
use sluice_go.Band.{shard_index}
use sluice_go.LocalJournal.{
  Entry, Shard, Cache, hit, set_entry, delete, back, but_back, found, get_shard, evict_back, evict,
  put_entry, put_shard, enabled, get, put, le_int,
}
use sluice_go.LocalJournal.Recency.{
  listed, Distinct, back-none, but_back-Distinct, listed-but_back, other_back,
}
use sluice_go.LocalJournal.Shards.{IsShard, AllBounded, pushed-Distinct}
use sluice_go.Prelude.{
  ℕ, zero, suc, ◌+◌, ◌≤◌, ◌<◌, ◌≡◌, refl, sym, ap, ◌∙◌, Bool, true, false, Option, none, some, List,
  [], ◌∷◌, length, ltb, ltb→lt, ==_refl, Bytes, bytes_eq_refl, arith, Bool-cases, Option-cases, inl,
  inr,
}

evicted_at_back :
    (cap : ℕ) (key b : Bytes) (m : Bytes → Option Entry) (rest : List Bytes)
    → listed key rest ≡ false
    → back rest ≡ some b
    → delete b m key ≡ m key
evicted_at_back cap key b m rest h e = rw (other_back key b rest h e)

-- The eviction loop spares the most recently used key.
evict_front :
    (fuel cap : ℕ) (key : Bytes) (m : Bytes → Option Entry) (rest : List Bytes)
    → 0 < cap
    → Distinct (key ∷ rest)
    → (evict fuel cap (record { m = m; lru = key ∷ rest })).0.m key ≡ m key
unfolding evict evict_back back but_back
evict_front zero cap key m rest p d = refl
evict_front (suc fuel) cap key m [] p d = rw (lt_one cap p)
  where
    lt_one : (cap : ℕ) → 0 < cap → ltb cap 1 ≡ false
    lt_one cap p = ground arith
evict_front (suc fuel) cap key m (j ∷ js) p d =
    elim (Bool-cases (ltb cap (suc (suc (length js))))) [
      | inr fits ↦ rw fits
      | inl more ↦ elim (Option-cases (back (j ∷ js))) [
        | inl e ↦ absurd (omega (arith, back-none (j ∷ js) e))
        | inr (b, e) ↦
            rw (more, e)
              (evict_front fuel cap key (delete b m) (but_back (j ∷ js)) p (
                rw (listed-but_back key b (j ∷ js) d.1 e, d.0),
                but_back-Distinct b (j ∷ js) d.1 e,
              )
                ∙ evicted_at_back cap key b m (j ∷ js) d.0 e)
      ]
    ]

-- An accepted entry is the one that the map holds.
put_entry-holds :
    (cap : ℕ) (key : Bytes) (e : Entry) (s : Shard) (o : Option Entry)
    → s.m key ≡ o
    → 0 < cap
    → IsShard s
    → (put_entry cap key e s o).0 ≡ true
    → (put_entry cap key e s o).1.m key ≡ some e
unfolding put_entry
put_entry-holds cap key e s (some old) there p h done =
    elim (Bool-cases (le_int e.version old.version)) [
      | inl stale ↦ ground (arith, stale)
      | inr newer ↦ rw (newer, bytes_eq_refl key)
    ]
put_entry-holds cap key e s none absent p h done =
    evict_front (suc (length s.lru)) cap key (set_entry key e s.m) s.lru p
      (pushed-Distinct key s h absent)
    ∙ rw (bytes_eq_refl key)

found-live :
    (now : ℕ) (key : Bytes) (s : Shard) (e : Entry)
    → s.m key ≡ some e
    → now ≤ e.expires_at
    → (get_shard now key s).0 ≡ hit e.payload e.version
unfolding get_shard found
found-live now key s e there live = rw (there, found, not_after)
  where
    not_after : ltb e.expires_at now ≡ false
    not_after = ground arith

abbrev entry_of : ℕ → Bytes → ℤ → Cache → Entry
entry_of now payload version c = record {
  payload = payload;
  version = version;
  expires_at = now + c.local_ttl;
}

put-enabled :
    (now : ℕ) (key payload : Bytes) (version : ℤ) (c : Cache)
    → enabled c ≡ true
    → let out =
        put_shard c.cap_per_shard key
          (entry_of now payload version c)
          (c.shards (shard_index key)) in
      ((put now key payload version c).0 ≡ out.0)
      × ((put now key payload version c).1.shards (shard_index key) ≡ out.1)
      × ((put now key payload version c).1.cap_per_shard ≡ c.cap_per_shard)
unfolding put
put-enabled now key payload version c on =
    (rw (on, put), rw (on, put, ==_refl (shard_index key)), rw (on, put))

get-enabled :
    (now : ℕ) (key : Bytes) (c : Cache)
    → enabled c ≡ true
    → (get now key c).0 ≡ (get_shard now key (c.shards (shard_index key))).0
unfolding get
get-enabled now key c on = rw (on, get)

-- The entry of an accepted Put.
put-holds :
    (cap now : ℕ) (key payload : Bytes) (version : ℤ) (c : Cache)
    → AllBounded cap c
    → enabled c ≡ true
    → (put now key payload version c).0 ≡ true
    → ((put now key payload version c).1.shards (shard_index key)).m key
      ≡ some (entry_of now payload version c)
unfolding put_shard
put-holds cap now key payload version c h on done =
    let s : Shard = c.shards (shard_index key) in
    let e : Entry = entry_of now payload version c in
    let p = put-enabled now key payload version c on in
    ap (λ (t : Shard). t.m key) p.1
    ∙ put_entry-holds c.cap_per_shard key e s (s.m key) refl (ltb→lt 0 c.cap_per_shard on)
        (h.1 (shard_index key)).0 (sym p.0 ∙ done)

accepted_enabled :
    (now : ℕ) (key payload : Bytes) (version : ℤ) (c : Cache)
    → (put now key payload version c).0 ≡ true
    → enabled c ≡ true
unfolding put
accepted_enabled now key payload version c done = elim (Bool-cases (enabled c)) [
  | inl on ↦ on
  | inr off ↦ ground (arith, off)
]

-- In a cache whose shards are consistent: if Put answers true, then Get for the same key gives the
-- payload and version that were put, at every time up to the entry's expiry, that moment included.
pub put-get :
    (cap now later : ℕ) (key payload : Bytes) (version : ℤ) (c : Cache)
    → AllBounded cap c
    → (put now key payload version c).0 ≡ true
    → later ≤ now + c.local_ttl
    → (get later key (put now key payload version c).1).0 ≡ hit payload version
put-get cap now later key payload version c h done live =
    let on = accepted_enabled now key payload version c done in
    let c1 : Cache = (put now key payload version c).1 in
    get-enabled later key c1 (ap (ltb 0) (put-enabled now key payload version c on).2 ∙ on)
    ∙ found-live later key (c1.shards (shard_index key)) (entry_of now payload version c)
        (put-holds cap now key payload version c h on done) live

le_int_refl : (v : ℤ) → le_int v v ≡ true
le_int_refl (pos n) = ground arith
le_int_refl (negsuc n) = ground arith

stale_put :
    (cap : ℕ) (key : Bytes) (e old : Entry) (s : Shard)
    → s.m key ≡ some old
    → le_int e.version old.version ≡ true
    → put_shard cap key e s ≡ (false, s, 0)
unfolding put_shard put_entry
stale_put cap key e old s there le = rw (there, put_entry, le)

-- In a cache whose shards are consistent: after a Put that answers true, a second Put for the same
-- key with the same version, at any time and with any payload, answers false and leaves the key's
-- shard as it is.
pub put-put_same_version :
    (cap now later : ℕ) (key payload second : Bytes) (version : ℤ) (c : Cache)
    → AllBounded cap c
    → (put now key payload version c).0 ≡ true
    → let first = (put now key payload version c).1 in
      ((put later key second version first).0 ≡ false)
      × ((put later key second version first).1.shards (shard_index key)
          ≡ first.shards (shard_index key))
put-put_same_version cap now later key payload second version c h done =
    let on = accepted_enabled now key payload version c done in
    let c1 : Cache = (put now key payload version c).1 in
    let p =
      put-enabled later key second version c1
        (ap (ltb 0) (put-enabled now key payload version c on).2 ∙ on) in
    let q =
      stale_put c1.cap_per_shard key (entry_of later second version c1)
        (entry_of now payload version c) (c1.shards (shard_index key))
        (put-holds cap now key payload version c h on done) (le_int_refl version) in
    (p.0 ∙ ap (λ (t : Bool × Shard × ℕ). t.0) q, p.1 ∙ ap (λ (t : Bool × Shard × ℕ). t.1) q)
