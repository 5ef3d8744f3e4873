-- ===== src/Redis.antt =====
-- The Redis server, which the repository only calls: an interface of the commands that the
-- shield and its Lua scripts issue, with their documented behaviour as laws. A key is written
-- by what it names; Redis/Keys gives its text.
pub mod Keys
pub mod Memory
use Keys.{HashKey, ZKey, hash_eq, z_eq}
use sluice_go.Naming.Decimal.{itoa}
use sluice_go.Prelude.{
  ℕ, suc, ◌-◌, ◌≤◌, ◌≡◌, Bool, true, false, ◌&&◌, Option, none, some, List, leb, ◌==◌,
  if◌then◌else◌, Bytes, bytes_eq, All, length,
}

-- PTTL: -2 for a key that is not there, -1 for one with no expiry, else the milliseconds left.
pub data Ttl : Type 0 where
  missing persistent : Ttl
  expiring : ℕ → Ttl

-- What a write makes of the expiry: a new key has none, an old one keeps its own.
abbrev pub created : Ttl → Ttl
created missing = persistent
created t = t

abbrev pub persisted : Ttl → Ttl
persisted missing = missing
persisted t = persistent

-- PEXPIRE with 0 deletes the key.
abbrev pub expires_in : ℕ → Ttl → Ttl
expires_in n missing = missing
expires_in n t = if n == 0 then missing else expiring n

abbrev pub after : ℕ → Ttl → Ttl
after d (expiring n) = if leb n d then missing else expiring (n - d)
after d t = t

abbrev pub is_there : Ttl → Bool
is_there missing = false
is_there t = true

pub record Redis : Type 1 where
  pub State : Type 0
  -- reads
  pub hget : State → HashKey → Bytes → Option Bytes
  pub pttl : State → HashKey → Ttl
  pub exists : State → HashKey → Bool
  pub zscore : State → ZKey → Bytes → Option ℕ
  -- ZRANGEBYSCORE key -inf +inf LIMIT 0 count WITHSCORES, and ZCARD
  pub zrange : State → ZKey → ℕ → List (Bytes × ℕ)
  pub zcard : State → ZKey → ℕ
  -- EXISTS and SET EX on the hot marker of a band's correlation key
  pub marked : State → ℕ → Bytes → Bool
  -- whether an idempotency key of a band is set
  pub claimed : State → ℕ → Bytes → Bool
  -- writes
  pub hset : HashKey → Bytes → Bytes → State → State
  pub hdel : HashKey → Bytes → State → State
  -- HINCRBY key field 1
  pub hincrby : HashKey → Bytes → State → State
  pub persist : HashKey → State → State
  pub pexpire : HashKey → ℕ → State → State
  pub del : HashKey → State → State
  pub zadd : ZKey → ℕ → Bytes → State → State
  pub zrem : ZKey → Bytes → State → State
  pub mark : ℕ → Bytes → ℕ → State → State
  -- SET NX EX of an idempotency key that is not set
  pub claim : ℕ → Bytes → ℕ → State → State
  -- that many milliseconds go by
  pub elapse : ℕ → State → State
  pub exists-pttl : (s : State) (k : HashKey) → exists s k ≡ is_there (pttl s k)
  -- HGET
  pub hget_missing : (s : State) (k : HashKey) (f : Bytes) → pttl s k ≡ missing → hget s k f ≡ none
  pub hget-hset :
      (s : State) (k j : HashKey) (f g x : Bytes)
      → hget (hset k f x s) j g ≡ (if hash_eq k j && bytes_eq f g then some x else hget s j g)
  pub hget-hdel :
      (s : State) (k j : HashKey) (f g : Bytes)
      → hget (hdel k f s) j g ≡ (if hash_eq k j && bytes_eq f g then none else hget s j g)
  pub hget-hincrby_other :
      (s : State) (k j : HashKey) (f g : Bytes)
      → (hash_eq k j && bytes_eq f g) ≡ false
      → hget (hincrby k f s) j g ≡ hget s j g
  pub hget-hincrby_new :
      (s : State) (k : HashKey) (f : Bytes)
      → hget s k f ≡ none
      → hget (hincrby k f s) k f ≡ some (itoa 1)
  pub hget-hincrby_old :
      (s : State) (k : HashKey) (f : Bytes) (n : ℕ)
      → hget s k f ≡ some (itoa n)
      → hget (hincrby k f s) k f ≡ some (itoa (suc n))
  pub hget-persist : (s : State) (k j : HashKey) (g : Bytes) → hget (persist k s) j g ≡ hget s j g
  pub hget-pexpire :
      (s : State) (k j : HashKey) (n : ℕ) (g : Bytes)
      → hget (pexpire k n s) j g ≡ (if hash_eq k j && (n == 0) then none else hget s j g)
  pub hget-del :
      (s : State) (k j : HashKey) (g : Bytes)
      → hget (del k s) j g ≡ (if hash_eq k j then none else hget s j g)
  pub hget-zadd :
      (s : State) (z : ZKey) (n : ℕ) (m : Bytes) (j : HashKey) (g : Bytes)
      → hget (zadd z n m s) j g ≡ hget s j g
  pub hget-zrem :
      (s : State) (z : ZKey) (m : Bytes) (j : HashKey) (g : Bytes)
      → hget (zrem z m s) j g ≡ hget s j g
  pub hget-elapse :
      (s : State) (d : ℕ) (j : HashKey) (g : Bytes)
      → hget (elapse d s) j g ≡ (if is_there (after d (pttl s j)) then hget s j g else none)
  pub hget-mark :
      (s : State) (b : ℕ) (ck : Bytes) (n : ℕ) (j : HashKey) (g : Bytes)
      → hget (mark b ck n s) j g ≡ hget s j g
  pub hget-claim :
      (s : State) (b : ℕ) (key : Bytes) (n : ℕ) (j : HashKey) (g : Bytes)
      → hget (claim b key n s) j g ≡ hget s j g
  pub claimed-claim :
      (s : State) (b : ℕ) (key : Bytes) (n : ℕ) → claimed (claim b key n s) b key ≡ true
  -- PTTL
  pub pttl-hset :
      (s : State) (k j : HashKey) (f x : Bytes)
      → pttl (hset k f x s) j ≡ (if hash_eq k j then created (pttl s j) else pttl s j)
  pub pttl-hdel :
      (s : State) (k j : HashKey) (f g x : Bytes)
      → hget s j g ≡ some x
      → (hash_eq k j && bytes_eq f g) ≡ false
      → pttl (hdel k f s) j ≡ pttl s j
  pub pttl-hincrby :
      (s : State) (k j : HashKey) (f : Bytes)
      → pttl (hincrby k f s) j ≡ (if hash_eq k j then created (pttl s j) else pttl s j)
  pub pttl-persist :
      (s : State) (k j : HashKey)
      → pttl (persist k s) j ≡ (if hash_eq k j then persisted (pttl s j) else pttl s j)
  pub pttl-pexpire :
      (s : State) (k j : HashKey) (n : ℕ)
      → pttl (pexpire k n s) j ≡ (if hash_eq k j then expires_in n (pttl s j) else pttl s j)
  pub pttl-del :
      (s : State) (k j : HashKey) → pttl (del k s) j ≡ (if hash_eq k j then missing else pttl s j)
  pub pttl-zadd :
      (s : State) (z : ZKey) (n : ℕ) (m : Bytes) (j : HashKey) → pttl (zadd z n m s) j ≡ pttl s j
  pub pttl-zrem : (s : State) (z : ZKey) (m : Bytes) (j : HashKey) → pttl (zrem z m s) j ≡ pttl s j
  pub pttl-elapse : (s : State) (d : ℕ) (j : HashKey) → pttl (elapse d s) j ≡ after d (pttl s j)
  pub pttl-mark :
      (s : State) (b : ℕ) (ck : Bytes) (n : ℕ) (j : HashKey) → pttl (mark b ck n s) j ≡ pttl s j
  -- ZSCORE
  pub zscore-hset :
      (s : State) (k : HashKey) (f x : Bytes) (z : ZKey) (m : Bytes)
      → zscore (hset k f x s) z m ≡ zscore s z m
  pub zscore-hdel :
      (s : State) (k : HashKey) (f : Bytes) (z : ZKey) (m : Bytes)
      → zscore (hdel k f s) z m ≡ zscore s z m
  pub zscore-hincrby :
      (s : State) (k : HashKey) (f : Bytes) (z : ZKey) (m : Bytes)
      → zscore (hincrby k f s) z m ≡ zscore s z m
  pub zscore-persist :
      (s : State) (k : HashKey) (z : ZKey) (m : Bytes) → zscore (persist k s) z m ≡ zscore s z m
  pub zscore-pexpire :
      (s : State) (k : HashKey) (n : ℕ) (z : ZKey) (m : Bytes)
      → zscore (pexpire k n s) z m ≡ zscore s z m
  pub zscore-del :
      (s : State) (k : HashKey) (z : ZKey) (m : Bytes) → zscore (del k s) z m ≡ zscore s z m
  pub zscore-zadd :
      (s : State) (y z : ZKey) (n : ℕ) (l m : Bytes)
      → zscore (zadd y n l s) z m ≡ (if z_eq y z && bytes_eq l m then some n else zscore s z m)
  pub zscore-zrem :
      (s : State) (y z : ZKey) (l m : Bytes)
      → zscore (zrem y l s) z m ≡ (if z_eq y z && bytes_eq l m then none else zscore s z m)
  pub zscore-mark :
      (s : State) (b : ℕ) (ck : Bytes) (n : ℕ) (z : ZKey) (m : Bytes)
      → zscore (mark b ck n s) z m ≡ zscore s z m
  pub zscore-elapse :
      (s : State) (d : ℕ) (z : ZKey) (m : Bytes) → zscore (elapse d s) z m ≡ zscore s z m
  -- ZRANGEBYSCORE gives members with their scores, and at most count of them.
  pub zrange-scores :
      (s : State) (z : ZKey) (count : ℕ) → All (λ e. zscore s z e.0 ≡ some e.1) (zrange s z count)
  pub length-zrange-le : (s : State) (z : ZKey) (count : ℕ) → length (zrange s z count) ≤ count
