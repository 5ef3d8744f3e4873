-- ===== src/LocalJournal/Hits.antt =====
-- Where the hits of the L1 cache come from: an abstract view of its calls, without shards, recency
-- and capacity.
use sluice_go.Naming.{ℤ}
use sluice_go.Band.{shard_index}
use sluice_go.LocalJournal.{
  Entry, Shard, Lookup, disabled, expired, per_shard, hit, Cache, found, get_shard, put_entry,
  put_shard, drop_entry, invalidate_shard, new_cache, default_ttl, enabled, get, put, invalidate,
}
use sluice_go.LocalJournal.Shards.{
  Call, gets, puts, invalidates, call, call_all, call_all-new_cache,
}
use sluice_go.Prelude.{
  ℕ, ◌+◌, ◌≤◌, ◌≡◌, refl, sym, ap, ◌∙◌, ◌⊎◌, inl, inr, Bool, true, false, Option, none, some, List,
  [], ◌∷◌, ltb, if◌then◌else◌, Bytes, bytes_eq, arith, subst,
}
use sluice_go.LocalJournal.Origin.{
  Within, put_entry-Adds, found-Sub, drop_entry-Sub, set_shard-Within,
}

abbrev entry_of : ℕ → ℕ → Bytes → ℤ → Entry
entry_of ttl now body version = record { payload = body; version = version; expires_at = now + ttl }

-- The entries that a key may have after some calls, oldest first: those it might have had before,
-- and one for each Put of it, less what came before an Invalidate of it.
abbrev pub After : ℕ → List Call → (Bytes → Entry → Type 0) → Bytes → Entry → Type 0
After ttl [] P = P
After ttl (gets now key ∷ xs) P = After ttl xs P
After ttl (puts now key body version ∷ xs) P =
    After ttl xs (λ k e. P k e ⊎ ((k ≡ key) × (e ≡ entry_of ttl now body version)))
After ttl (invalidates key ∷ xs) P = After ttl xs (λ k e. P k e × (bytes_eq key k ≡ false))

-- The constants of an enabled cache, and where its entries come from.
abbrev Known : ℕ → ℕ → (Bytes → Entry → Type 0) → Cache → Type 0
Known cap ttl P c = (c.cap_per_shard ≡ cap) × (c.local_ttl ≡ ttl) × Within P c

module _ (cap ttl : ℕ) (on : ltb 0 cap ≡ true) where
  enabled_lem : (c : Cache) → c.cap_per_shard ≡ cap → enabled c ≡ true
  enabled_lem c h = ap (λ n. ltb 0 n) h ∙ on

  get-Known :
      (P : Bytes → Entry → Type 0) (now : ℕ) (key : Bytes) (c : Cache)
      → Known cap ttl P c
      → Known cap ttl P (get now key c).1
  unfolding get get_shard
  get-Known P now key c h =
      let s = c.shards (shard_index key) in
      rw (enabled_lem c h.0) (
        h.0,
        h.1,
        set_shard-Within P P key c (found now key s (s.m key)).1 h.2
            (λ k e new was. was (found-Sub now key s (s.m key) k e new)) (λ k e apart known. known),
      )

  put-Known :
      (P : Bytes → Entry → Type 0) (now : ℕ) (key body : Bytes) (version : ℤ) (c : Cache)
      → Known cap ttl P c
      → Known cap ttl
          (λ k e. P k e ⊎ ((k ≡ key) × (e ≡ entry_of c.local_ttl now body version)))
          (put now key body version c).1
  unfolding put put_shard
  put-Known P now key body version c h =
      let s = c.shards (shard_index key) in
      let x = entry_of c.local_ttl now body version in
      rw (enabled_lem c h.0) (
        h.0,
        h.1,
        set_shard-Within P (λ k e. P k e ⊎ ((k ≡ key) × (e ≡ x))) key c
            (put_entry c.cap_per_shard key x s (s.m key)).1 h.2
            (λ k e new was. elim (put_entry-Adds c.cap_per_shard key x s (s.m key) k e new) [
              | inl old ↦ inl (was old)
              | inr mine ↦ inr mine
            ])
            (λ k e apart known. inl known),
      )

  invalidate-Known :
      (P : Bytes → Entry → Type 0) (key : Bytes) (c : Cache)
      → Known cap ttl P c
      → Known cap ttl (λ k e. P k e × (bytes_eq key k ≡ false)) (invalidate key c)
  unfolding invalidate invalidate_shard
  invalidate-Known P key c h =
      let s = c.shards (shard_index key) in
      rw (enabled_lem c h.0) (
        h.0,
        h.1,
        set_shard-Within P (λ k e. P k e × (bytes_eq key k ≡ false)) key c
            (drop_entry key s (s.m key)) h.2
            (λ k e new was.
              let left = drop_entry-Sub key s (s.m key) k e refl new in (was left.0, left.1))
            (λ k e apart known. (known, apart)),
      )

  call_all-Known :
      (calls : List Call) (P : Bytes → Entry → Type 0) (c : Cache)
      → Known cap ttl P c
      → Known cap ttl (After ttl calls P) (call_all calls c)
  unfolding call_all call
  call_all-Known [] P c h = h
  call_all-Known (gets now key ∷ xs) P c h = call_all-Known xs P _ (get-Known P now key c h)
  call_all-Known (puts now key body version ∷ xs) P c h = call_all-Known xs _ _ (
      subst
        (λ n.
          Known cap ttl (λ k e. P k e ⊎ ((k ≡ key) × (e ≡ entry_of n now body version)))
            (put now key body version c).1)
        h.1 (put-Known P now key body version c h))
  call_all-Known (invalidates key ∷ xs) P c h = call_all-Known xs _ _ (invalidate-Known P key c h)

-- A hit is such an entry, before its expiry.
abbrev pub HitOf : Option Entry → ℕ → Bytes → ℤ → Type 0
HitOf o now body version =
    (e : Entry) × (o ≡ some e) × (e.payload ≡ body) × (e.version ≡ version) × (now ≤ e.expires_at)

hit-payload : {a b : Bytes} {v w : ℤ} → hit a v ≡ hit b w → a ≡ b
hit-payload h = cc

hit-version : {a b : Bytes} {v w : ℤ} → hit a v ≡ hit b w → v ≡ w
hit-version h = cc

live_entry :
    (b : Bool) (now : ℕ) (p q : Shard) (e : Entry) (body : Bytes) (version : ℤ)
    → ltb e.expires_at now ≡ b
    → (if◌then◌else◌ {A = Lookup × Shard} b (expired, p) (hit e.payload e.version, q)).0
      ≡ hit body version
    → HitOf (some e) now body version
live_entry true now p q e body version old h = cc
live_entry false now p q e body version live h =
    (e, refl, hit-payload h, hit-version h, ground arith)

found-HitOf :
    (now : ℕ) (key : Bytes) (s : Shard) (o : Option Entry) (body : Bytes) (version : ℤ)
    → (found now key s o).0 ≡ hit body version
    → HitOf o now body version
unfolding found
found-HitOf now key s none body version h = cc
found-HitOf now key s (some e) body version h =
    live_entry (ltb e.expires_at now) now _ _ e body version refl h

enabled-hit :
    (b : Bool) (p : Lookup × Cache) (c : Cache) (body : Bytes) (version : ℤ)
    → (if◌then◌else◌ {A = Lookup × Cache} b p (disabled, c)).0 ≡ hit body version
    → (b ≡ true) × (p.0 ≡ hit body version)
enabled-hit true p c body version h = (refl, h)
enabled-hit false p c body version h = cc

new_cache-Known :
    (max_entries local_ttl : ℤ)
    → Known
        (per_shard max_entries)
        (default_ttl local_ttl)
        (λ k x. ⊥)
        (new_cache max_entries local_ttl)
unfolding new_cache
new_cache-Known max_entries local_ttl = (refl, refl, λ k e h. cc)

-- After any calls on a new cache, in any order and across any shards: what Get hits is a payload
-- and version that some Put gave the key, before its expiry, with no Invalidate of the key since.
pub get-After :
    (max_entries local_ttl : ℤ) (calls : List Call) (now : ℕ) (key body : Bytes) (version : ℤ)
    → (get now key (call_all calls (new_cache max_entries local_ttl))).0 ≡ hit body version
    → (e : Entry) × After (default_ttl local_ttl) calls (λ k x. ⊥) key e
      × (e.payload ≡ body)
      × (e.version ≡ version)
      × (now ≤ e.expires_at)
unfolding get get_shard
get-After max_entries local_ttl calls now key body version h =
    let start = new_cache max_entries local_ttl in
    let c = call_all calls start in
    let cap = per_shard max_entries in
    let (open_, at) = enabled-hit (enabled c) _ c body version h in
    let on : ltb 0 cap ≡ true =
      ap (λ n. ltb 0 n) (sym (call_all-new_cache max_entries local_ttl calls).0) ∙ open_ in
    let known =
      call_all-Known cap (default_ttl local_ttl) on calls (λ k x. ⊥) start
        (new_cache-Known max_entries local_ttl) in
    let (e, there, p, v, t) = found-HitOf now key _ _ body version at in
    (e, known.2 key e there, p, v, t)
