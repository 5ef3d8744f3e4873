-- ===== src/Redis/Memory.antt =====
-- A Redis held in memory: one value of the interface, at which the theorems are tested.
use sluice_go.Naming.Decimal.{itoa, atoi, atoi-itoa}
use sluice_go.Redis.Keys.{HashKey, ZKey, hash_eq, z_eq, hash_eq_refl}
use sluice_go.Redis.{Redis, Ttl, missing, created, persisted, expires_in, after, is_there}
use sluice_go.Prelude.{
  ℕ, zero, suc, ◌≤◌, ◌≡◌, ◌≢◌, refl, Bool, true, false, ◌==◌, ◌&&◌, Option, none, some, List, [],
  ◌∷◌, if◌then◌else◌, Bytes, bytes_eq, bytes_eq→≡, bytes_eq_refl, All, length, take, arith,
}

abbrev Scores : Type 0
Scores = List (Bytes × ℕ)

abbrev score : Bytes → Scores → Option ℕ
score m [] = none
score m ((l, n) ∷ r) = if bytes_eq l m then some n else score m r

abbrev without : Bytes → Scores → Scores
without m [] = []
without m ((l, n) ∷ r) = let rest = without m r in if bytes_eq m l then rest else (l, n) ∷ rest

pub score-without :
    (l m : Bytes) (r : Scores) → score m (without l r) ≡ (if bytes_eq l m then none else score m r)
score-without l m [] = ground arith
score-without l m ((i, n) ∷ r) =
    ground
      (arith, score-without l m r, bytes_eq→≡ l i, bytes_eq→≡ l m, bytes_eq→≡ i m, bytes_eq_refl l)

-- Each entry with the score that a lookup gives.
abbrev or_own : ℕ → Option ℕ → ℕ
or_own n none = n
or_own n (some m) = m

abbrev ranked : Scores → Scores → Scores
ranked whole [] = []
ranked whole ((l, n) ∷ r) = (l, or_own n (score l whole)) ∷ ranked whole r

-- Every entry of the part has a score in the whole.
Within : Scores → Scores → Type 0
Within whole = All (λ e. score e.0 whole ≢ none)

score_weaken : (l m : Bytes) (n : ℕ) (r : Scores) → score m r ≢ none → score m ((l, n) ∷ r) ≢ none
score_weaken l m n r h = ground arith

Within-weaken : (l : Bytes) (n : ℕ) (r part : Scores) → Within r part → Within ((l, n) ∷ r) part
unfolding Within
Within-weaken l n r [] h = tt
Within-weaken l n r ((m, k) ∷ part) h = (score_weaken l m n r h.0, Within-weaken l n r part h.1)

Within-self : (r : Scores) → Within r r
unfolding Within
Within-self [] = tt
Within-self ((l, n) ∷ r) = (ground (arith, bytes_eq_refl l), Within-weaken l n r r (Within-self r))

ranked-scores :
    (whole part : Scores)
    → Within whole part
    → All (λ e. score e.0 whole ≡ some e.1) (ranked whole part)
unfolding Within
ranked-scores whole [] h = tt
ranked-scores whole ((l, n) ∷ r) h = (ground arith, ranked-scores whole r h.1)

All-take : (P : Bytes × ℕ → Type 0) (count : ℕ) (r : Scores) → All P r → All P (take count r)
All-take P zero r h = tt
All-take P (suc c) [] h = tt
All-take P (suc c) (e ∷ r) h = (h.0, All-take P c r h.1)

pub first-scores :
    (count : ℕ) (r : Scores) → All (λ e. score e.0 r ≡ some e.1) (take count (ranked r r))
first-scores count r = All-take _ count (ranked r r) (ranked-scores r r (Within-self r))

pub length-take-le : (count : ℕ) (ms : Scores) → length (take count ms) ≤ count
length-take-le zero ms = omega arith
length-take-le (suc c) [] = omega arith
length-take-le (suc c) (m ∷ ms) = omega (arith, length-take-le c ms)

pub record Memory : Type 0 where
  pub hashes : HashKey → Bytes → Option Bytes
  pub ttls : HashKey → Ttl
  pub zsets : ZKey → Scores
  pub markers : ℕ → Bytes → Bool
  pub claims : ℕ → Bytes → Bool

abbrev get : Memory → HashKey → Bytes → Option Bytes
get s k f = if is_there (s.ttls k) then s.hashes k f else none

abbrev incremented : Option Bytes → Option Bytes
incremented none = some (itoa 1)
incremented (some x) = elim (atoi 0 x) [ none ↦ some x | some n ↦ some (itoa (suc n)) ]

abbrev put : HashKey → Bytes → Option Bytes → Memory → Memory
put k f o s = record {
  hashes = λ j g. if hash_eq k j && bytes_eq f g then o else get s j g;
  ttls = λ j. if hash_eq k j then created (s.ttls j) else s.ttls j;
  zsets = s.zsets;
  markers = s.markers;
  claims = s.claims;
}

abbrev retime : (HashKey → Ttl → Ttl) → Memory → Memory
retime t s = record {
  hashes = get s;
  ttls = λ j. t j (s.ttls j);
  zsets = s.zsets;
  markers = s.markers;
  claims = s.claims;
}

abbrev rescore : ZKey → (Scores → Scores) → Memory → Memory
rescore y t s = record s { zsets = λ z. if z_eq y z then t (s.zsets z) else s.zsets z }

pub get-put_self :
    (s : Memory) (k : HashKey) (f : Bytes) (o : Option Bytes) → get (put k f o s) k f ≡ o
get-put_self s k f o = ground (arith, hash_eq_refl k, bytes_eq_refl f)

pub incremented-itoa : (n : ℕ) → incremented (some (itoa n)) ≡ some (itoa (suc n))
incremented-itoa n = rw (atoi-itoa n, incremented)

abbrev pub memory : Redis
memory = record {
  State = Memory;
  hget = get;
  pttl = λ s k. s.ttls k;
  exists = λ s k. is_there (s.ttls k);
  exists-pttl = λ s k. refl;
  zscore = λ s z m. score m (s.zsets z);
  zrange = λ s z count. take count (ranked (s.zsets z) (s.zsets z));
  zcard = λ s z. length (s.zsets z);
  marked = λ s b ck. s.markers b ck;
  mark = λ b ck n s. record s {
    markers = λ c m. if (b == c) && bytes_eq ck m then true else s.markers c m;
  };
  hset = λ k f x s. put k f (some x) s;
  hdel =
      λ k f s. record s { hashes = λ j g. if hash_eq k j && bytes_eq f g then none else get s j g };
  hincrby = λ k f s. put k f (incremented (get s k f)) s;
  persist = λ k. retime (λ j t. if hash_eq k j then persisted t else t);
  pexpire = λ k n. retime (λ j t. if hash_eq k j then expires_in n t else t);
  del = λ k. retime (λ j t. if hash_eq k j then missing else t);
  zadd = λ z n m. rescore z (λ r. (m, n) ∷ without m r);
  zrem = λ z m. rescore z (without m);
  elapse = λ d. retime (λ j t. after d t);
  claimed = λ s b key. s.claims b key;
  claim = λ b key n s. record s {
    claims = λ c j. if (b == c) && bytes_eq key j then true else s.claims c j;
  };
  hget-claim = λ s b key n j g. refl;
  claimed-claim = λ s b key n. ground (arith, bytes_eq_refl key);
  hget_missing = λ s k f h. ground arith;
  hget-hset = λ s k j f g x. ground arith;
  hget-hdel = λ s k j f g. ground arith;
  hget-hincrby_other = λ s k j f g h. ground arith;
  hget-hincrby_new = λ s k f h. rw (get-put_self s k f (incremented (get s k f)), h);
  hget-hincrby_old =
      λ s k f n h. rw (get-put_self s k f (incremented (get s k f)), h, incremented-itoa n);
  hget-persist = λ s k j g. ground arith;
  hget-pexpire = λ s k j n g. ground arith;
  hget-del = λ s k j g. ground arith;
  hget-zadd = λ s z n m j g. refl;
  hget-zrem = λ s z m j g. refl;
  hget-mark = λ s b ck n j g. refl;
  pttl-mark = λ s b ck n j. refl;
  zscore-mark = λ s b ck n z m. refl;
  hget-elapse = λ s d j g. ground arith;
  pttl-hset = λ s k j f x. refl;
  pttl-hdel = λ s k j f g x h e. refl;
  pttl-hincrby = λ s k j f. refl;
  pttl-persist = λ s k j. refl;
  pttl-pexpire = λ s k j n. refl;
  pttl-del = λ s k j. refl;
  pttl-zadd = λ s z n m j. refl;
  pttl-zrem = λ s z m j. refl;
  pttl-elapse = λ s d j. refl;
  zscore-hset = λ s k f x z m. refl;
  zscore-hdel = λ s k f z m. refl;
  zscore-hincrby = λ s k f z m. refl;
  zscore-persist = λ s k z m. refl;
  zscore-pexpire = λ s k n z m. refl;
  zscore-del = λ s k z m. refl;
  zscore-zadd = λ s y z n l m. ground (arith, score-without l m (s.zsets z));
  zscore-zrem = λ s y z l m. ground (arith, score-without l m (s.zsets z));
  zscore-elapse = λ s d z m. refl;
  zrange-scores = λ s z count. first-scores count (s.zsets z);
  length-zrange-le = λ s z count. length-take-le count (ranked (s.zsets z) (s.zsets z));
}

abbrev pub nothing : Memory
nothing = record {
  hashes = λ k f. none;
  ttls = λ k. missing;
  zsets = λ z. [];
  markers = λ b ck. false;
  claims = λ b key. false;
}
