-- ===== src/Broadcast/Stream.antt =====
-- The loop of the subscriber against the stream that it reads.
use sluice_go.Naming.{codes}
use sluice_go.LocalJournal.{Cache}
use sluice_go.Broadcast.{
  Mode, Entry, Delivery, Subscriber, XRead, cancelled, timed_out, network_error, messages, apply,
  apply_all, react, run, get_cursor, is_cancelled, min_backoff,
}
use sluice_go.Prelude.{
  ◌≡◌, refl, ap, sym, subst, ◌∙◌, Bool, false, List, [], ◌∷◌, ◌++◌, map, append_assoc,
  if◌then◌else◌, Bytes, bytes_eq, bytes_eq_refl, All, Bool-cases, inl, inr,
}

-- The entries behind an ID; behind "0" are all.
abbrev pub behind : Bytes → List Entry → List Entry
behind id [] = []
behind id ((i, m) ∷ rest) = if bytes_eq i id then rest else behind id rest

abbrev pub since : Bytes → List Entry → List Entry
since id stream = if bytes_eq id (codes "0") then stream else behind id stream

-- The IDs of a stream are distinct, and none is empty or "0".
abbrev pub IsStream : List Entry → Type 0
IsStream [] = Unit
IsStream ((i, m) ∷ rest) =
    All (λ (e : Entry). bytes_eq i e.0 ≡ false) rest
    × (bytes_eq i [] ≡ false)
    × (bytes_eq i (codes "0") ≡ false)
    × IsStream rest

abbrev pub entries : List Delivery → List Entry
entries = map (λ d. d.entry)

-- Messages are the first entries of those.
abbrev pub Begins : XRead → List Entry → Type 0
Begins (messages ds) es = (rest : List Entry) × (es ≡ entries ds ++ rest)
Begins cancelled es = Unit
Begins timed_out es = Unit
Begins network_error es = Unit

-- XREAD gives the first entries of the stream behind the ID that it is passed, or none.
abbrev pub Reads : List Entry → (Bytes → XRead) → Type 0
Reads stream read = (id : Bytes) → Begins (read id) (since id stream)

-- Each entry is applied, in order.
abbrev pub applied : Mode → List Delivery → Cache → Cache
applied mode [] l1 = l1
applied mode (d ∷ ds) l1 = applied mode ds (apply mode d.now d.entry.1 l1)

entries-append : (xs ys : List Delivery) → entries (xs ++ ys) ≡ entries xs ++ entries ys
entries-append [] ys = refl
entries-append (x ∷ xs) ys = ap (λ es. x.entry ∷ es) (entries-append xs ys)

applied-append :
    (mode : Mode) (xs ys : List Delivery) (l1 : Cache)
    → applied mode (xs ++ ys) l1 ≡ applied mode ys (applied mode xs l1)
applied-append mode [] ys l1 = refl
applied-append mode (x ∷ xs) ys l1 = applied-append mode xs ys (apply mode x.now x.entry.1 l1)

abbrev IsId : Entry → Type 0
IsId e = (bytes_eq e.0 [] ≡ false) × (bytes_eq e.0 (codes "0") ≡ false)

stream-ids : (stream : List Entry) → IsStream stream → All IsId stream
stream-ids [] h = tt
stream-ids ((i, m) ∷ rest) (fresh, nonempty, other, more) =
    ((nonempty, other), stream-ids rest more)

abbrev behind_or : List Entry → Bytes → Bool → List Entry
behind_or rest id b = if b then rest else behind id rest

found-All :
    (P : Entry → Type 0) (id : Bytes) (stream : List Entry) (e : Entry) (rest : List Entry)
    → behind id stream ≡ e ∷ rest
    → All P stream
    → P e
found-All P id [] e rest h a = cc
found-All P id ((j, n) ∷ xs) e rest h a = elim (Bool-cases (bytes_eq j id)) [
  | inl same ↦ (subst (All P) (ap (behind_or xs id) (sym same) ∙ h) a.1).0
  | inr other ↦ found-All P id xs e rest (ap (behind_or xs id) (sym other) ∙ h) a.1
]

behind-first : (e : Entry) (rest : List Entry) → behind e.0 (e ∷ rest) ≡ rest
behind-first e rest = ap (behind_or rest e.0) (bytes_eq_refl e.0)

-- Behind the first entry that is found are the others.
behind-next :
    (id : Bytes) (stream : List Entry) (e : Entry) (rest : List Entry)
    → IsStream stream
    → behind id stream ≡ e ∷ rest
    → behind e.0 stream ≡ rest
behind-next id [] e rest s h = cc
behind-next id ((j, n) ∷ xs) e rest (fresh, nonempty, zeroless, more) h =
    elim (Bool-cases (bytes_eq j id)) [
      | inl same ↦
          let tail : xs ≡ e ∷ rest = ap (behind_or xs id) (sym same) ∙ h in
          let apart : bytes_eq j e.0 ≡ false =
            (subst (All (λ (x : Entry). bytes_eq j x.0 ≡ false)) tail fresh).0 in
          ap (behind_or xs e.0) apart ∙ ap (behind e.0) tail ∙ behind-first e rest
      | inr other ↦
          let found : behind id xs ≡ e ∷ rest = ap (behind_or xs id) (sym other) ∙ h in
          let apart : bytes_eq j e.0 ≡ false =
            found-All (λ (x : Entry). bytes_eq j x.0 ≡ false) id xs e rest found fresh in
          ap (behind_or xs e.0) apart ∙ behind-next id xs e rest more found
    ]

module _ (stream : List Entry) (valid : IsStream stream) where
  abbrev chosen : Bytes → Bool → List Entry
  chosen id b = if b then stream else behind id stream

  since-next :
      (id : Bytes) (e : Entry) (rest : List Entry)
      → since id stream ≡ e ∷ rest
      → IsId e × (since e.0 stream ≡ rest)
  since-next id e rest h = elim (Bool-cases (bytes_eq id (codes "0"))) [
    | inl start ↦
        let whole : stream ≡ e ∷ rest = ap (chosen id) (sym start) ∙ h in
        let is_id : IsId e = (subst (All IsId) whole (stream-ids stream valid)).0 in
        (is_id, ap (chosen e.0) is_id.1 ∙ ap (behind e.0) whole ∙ behind-first e rest)
    | inr later ↦
        let found : behind id stream ≡ e ∷ rest = ap (chosen id) (sym later) ∙ h in
        let is_id : IsId e = found-All IsId id stream e rest found (stream-ids stream valid) in
        (is_id, ap (chosen e.0) is_id.1 ∙ behind-next id stream e rest valid found)
  ]

  module _ (mode : Mode) where
    apply_all-applied :
        (ds : List Delivery) (s : Subscriber)
        → (apply_all mode ds s).local ≡ applied mode ds s.local
    unfolding apply_all
    apply_all-applied [] s = refl
    apply_all-applied (d ∷ ds) s = apply_all-applied ds _

    -- The cursor is behind the messages that were applied.
    apply_all-since :
        (ds : List Delivery) (rest : List Entry) (s : Subscriber)
        → since (get_cursor s) stream ≡ entries ds ++ rest
        → since (get_cursor (apply_all mode ds s)) stream ≡ rest
    unfolding apply_all get_cursor
    apply_all-since [] rest s h = h
    apply_all-since (d ∷ ds) rest s h =
        let (is_id, next) = since-next (get_cursor s) d.entry (entries ds ++ rest) h in
        apply_all-since ds rest
          (record s { local = apply mode d.now d.entry.1 s.local; cursor = d.entry.0 })
          (ap (λ (b : Bool). since (if b then codes "0" else d.entry.0) stream) is_id.0 ∙ next)

    -- The deliveries between two states: they are what the stream had behind the first cursor, up to
    -- what it has behind the second one, and the caches differ by them.
    abbrev pub Between : Subscriber → Subscriber → Type 0
    Between s t =
        (ds : List Delivery) × (since (get_cursor s) stream
          ≡ entries ds ++ since (get_cursor t) stream)
        × (t.local ≡ applied mode ds s.local)

    Between-same : (s : Subscriber) → Between s s
    Between-same s = ([], refl, refl)

    Between-trans : (s t u : Subscriber) → Between s t → Between t u → Between s u
    Between-trans s t u (xs, h, l) (ys, k, l') = (
      xs ++ ys,
      h
          ∙ ap (λ es. entries xs ++ es) k
          ∙ sym (append_assoc (entries xs) (entries ys) _)
          ∙ ap (λ es. es ++ since (get_cursor u) stream) (sym (entries-append xs ys)),
      l' ∙ ap (applied mode ys) l ∙ sym (applied-append mode xs ys s.local),
    )

    react-Between :
        (answer : XRead) (s : Subscriber)
        → Begins answer (since (get_cursor s) stream)
        → Between s (react mode answer s)
    unfolding react get_cursor
    react-Between cancelled s h = ([], refl, refl)
    react-Between timed_out s h = ([], refl, refl)
    react-Between network_error s h = ([], refl, refl)
    react-Between (messages ds) s (rest, h) =
        let woken : Subscriber = record s { backoff = min_backoff } in
        (
          ds,
          h ∙ ap (λ es. entries ds ++ es) (sym (apply_all-since ds rest woken h)),
          apply_all-applied ds woken,
        )

    -- A stream whose IDs are distinct and neither empty nor "0", from which XREAD gives the first
    -- entries behind the ID that it is passed, or nothing: whatever errors, timeouts and cancellation
    -- come between and whenever entries are applied, the entries that the loop applies to the cache
    -- are those behind its first cursor up to its last one, each once and in the stream's order.
    pub run-Between :
        (reads : List (Bytes → XRead)) (s : Subscriber)
        → All (Reads stream) reads
        → Between s (run mode reads s)
    unfolding run
    run-Between [] s h = Between-same s
    run-Between (read ∷ rest) s h =
        let answer = read (get_cursor s) in
        elim (Bool-cases (is_cancelled answer)) [
          | inl e ↦ rw (e, run) (Between-same s)
          | inr e ↦
              rw (e, run)
                (Between-trans s (react mode answer s) (run mode rest (react mode answer s))
                  (react-Between answer s (h.0 (get_cursor s)))
                  (run-Between rest (react mode answer s) h.1))
        ]
