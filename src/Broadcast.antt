-- ===== src/Broadcast.antt =====
-- The L1 broadcast: the stream entry that shield.go adds for a write (enqueueBroadcast), and the
-- subscriber of internal/broadcast/subscriber.go, which applies entries to the local cache. The
-- answers of XREAD come from Redis; the client's Values are text.
pub mod Applied
pub mod Backoff
pub mod Stream
use sluice_go.Naming.{codes, ℤ, pos, negsuc}
use sluice_go.Naming.Decimal.{itoa, atoi}
use sluice_go.LocalJournal.{Cache, put, invalidate}
use sluice_go.Prelude.{
  ℕ, zero, suc, ◌-◌, ◌*◌, ◌^◌, Bool, true, false, Option, none, some, List, [], ◌∷◌, leb, ltb, ◌==◌,
  if◌then◌else◌, Bytes, bytes_eq,
}

pub data Mode : Type 0 where
  mode_payload mode_invalidation : Mode

pub data Kind : Type 0 where
  upsert seed touch : Kind

abbrev pub kind_name : Kind → Bytes
kind_name upsert = codes "upsert"
kind_name seed = codes "seed"
kind_name touch = codes "touch"

-- An entry of the stream, by the fields that the subscriber reads; a missing one reads as "".
pub record Message : Type 0 where
  pub crn : Bytes
  pub ts : Bytes
  pub kind : Bytes
  pub body : Option Bytes

abbrev pub body_for : Mode → Bytes → Option Bytes
body_for mode_payload body = some body
body_for mode_invalidation body = none

-- The entry that `enqueueBroadcast` adds, less its band.
unfoldable pub enqueue_broadcast : Mode → Bytes → ℕ → Kind → Bytes → Message
enqueue_broadcast mode ck ts kind body = record {
  crn = ck;
  ts = itoa ts;
  kind = kind_name kind;
  body = body_for mode body;
}

abbrev within : ℕ → (ℕ → ℤ) → Option ℕ → Option ℤ
within bound f none = none
within bound f (some n) = if leb n bound then some (f n) else none

abbrev minus : ℕ → ℤ
minus zero = pos zero
minus (suc n) = negsuc n

-- At least one digit.
unfoldable pub parse_digits : ℕ → (ℕ → ℤ) → Bytes → Option ℤ
parse_digits bound f [] = none
parse_digits bound f (x ∷ xs) = within bound f (atoi 0 (x ∷ xs))

-- strconv.ParseInt(text, 10, 64)
unfoldable pub parse_int : Bytes → Option ℤ
unfolding parse_digits
parse_int [] = none
parse_int (x ∷ xs) =
    if x == 45
    then parse_digits (2 ^ 63) minus xs
    else if x == 43
    then parse_digits (2 ^ 63 - 1) pos xs
    else parse_digits (2 ^ 63 - 1) pos (x ∷ xs)

-- The payload of an upsert or seed in payload mode; an empty one counts as missing.
unfoldable pub apply_payload : ℕ → Bytes → ℤ → Option Bytes → Cache → Cache
unfolding put invalidate
apply_payload now ck ts none l1 = invalidate ck l1
apply_payload now ck ts (some []) l1 = invalidate ck l1
apply_payload now ck ts (some (x ∷ xs)) l1 = (put now ck (x ∷ xs) ts l1).1

unfoldable pub apply_mode : Mode → ℕ → Bytes → ℤ → Option Bytes → Cache → Cache
unfolding apply_payload
apply_mode mode_payload now ck ts body l1 = apply_payload now ck ts body l1
apply_mode mode_invalidation now ck ts body l1 = invalidate ck l1

unfoldable pub apply_kind : Mode → ℕ → Bytes → ℤ → Bytes → Option Bytes → Cache → Cache
unfolding apply_mode
apply_kind mode now ck ts kind body l1 =
    if bytes_eq kind (kind_name upsert)
    then apply_mode mode now ck ts body l1
    else if bytes_eq kind (kind_name seed)
    then apply_mode mode now ck ts body l1
    else l1

unfoldable pub apply_at : Mode → ℕ → Bytes → Option ℤ → Bytes → Option Bytes → Cache → Cache
unfolding apply_kind
apply_at mode now ck none kind body l1 = l1
apply_at mode now ck (some ts) kind body l1 = apply_kind mode now ck ts kind body l1

-- `apply`: an entry without a key or a timestamp is passed over.
unfoldable pub apply : Mode → ℕ → Message → Cache → Cache
unfolding apply_at parse_int
apply mode now msg l1 =
    if bytes_eq msg.crn []
    then l1
    else if bytes_eq msg.ts []
    then l1
    else apply_at mode now msg.crn (parse_int msg.ts) msg.kind msg.body l1

pub record Subscriber : Type 0 where
  pub local : Cache
  -- the ID of the last message applied; "" at first
  pub cursor : Bytes
  pub backoff : ℕ

abbrev pub Entry : Type 0
Entry = Bytes × Message

-- An entry that XREAD gives, with the time at which it is applied.
pub record Delivery : Type 0 where
  pub entry : Entry
  pub now : ℕ

-- The messages of one answer, each with its ID: the cursor moves with every message.
unfoldable pub apply_all : Mode → List Delivery → Subscriber → Subscriber
unfolding apply
apply_all mode [] s = s
apply_all mode (d ∷ rest) s =
    apply_all mode rest
      (record s { local = apply mode d.now d.entry.1 s.local; cursor = d.entry.0 })

-- What XREAD answers: a cancelled context, the end of BLOCK with nothing new, a network error, or
-- messages.
pub data XRead : Type 0 where
  cancelled timed_out network_error : XRead
  messages : List Delivery → XRead

abbrev pub min_backoff : ℕ
min_backoff = 100

abbrev pub max_backoff : ℕ
max_backoff = 5000

abbrev pub doubled : ℕ → ℕ
doubled backoff = if ltb max_backoff (backoff * 2) then max_backoff else backoff * 2

-- `getCursor`
unfoldable pub get_cursor : Subscriber → Bytes
get_cursor s = if bytes_eq s.cursor [] then codes "0" else s.cursor

abbrev pub is_cancelled : XRead → Bool
is_cancelled cancelled = true
is_cancelled timed_out = false
is_cancelled network_error = false
is_cancelled (messages ds) = false

-- The body of the loop behind an answer.
unfoldable pub react : Mode → XRead → Subscriber → Subscriber
unfolding apply_all
react mode cancelled s = s
react mode timed_out s = record s { backoff = min_backoff }
react mode network_error s = record s { backoff = doubled s.backoff }
react mode (messages ds) s = apply_all mode ds (record s { backoff = min_backoff })

-- The loop of `run`: each turn passes the cursor to XREAD, whose answers are a parameter.
unfoldable pub run : Mode → List (Bytes → XRead) → Subscriber → Subscriber
unfolding react get_cursor
run mode [] s = s
run mode (read ∷ rest) s =
    let answer = read (get_cursor s) in
    let later = run mode rest (react mode answer s) in if is_cancelled answer then s else later
