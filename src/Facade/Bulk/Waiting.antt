-- ===== src/Facade/Bulk/Waiting.antt =====
-- ReadBulk of sluice_bulk.go against the journal of a key that waits for its flush.
use sluice_go.Redis.{Redis, Ttl}
use sluice_go.Shield.Calls.{hydrate_call, payload_of}
use sluice_go.Shield.Scripts.Refresh.{hydrate_hit}
use sluice_go.Shield.Traffic.{act, act_all, hydrates}
use sluice_go.Shield.Traffic.Known.{Offers, Knows, act_all-Knows}
use sluice_go.Shield.World.{World, Result, ok, err, first_error, eval_sha_pipelined}
use sluice_go.Shield.World.Keeps.{Kept, Preserves}
use sluice_go.Shield.World.Ran.{AllRan, RanIf, eval_sha_pipelined-RanIf}
use sluice_go.Shield.Flush.{answered, collect}
use sluice_go.Shield.Reads.{
  BulkItem, HydrateResult, hydrate_commands, parse_hydrate_result, collect_answered,
  bulk_hydrate_journal,
}
use sluice_go.Shield.Index.{value_of}
use sluice_go.Facade.Types.{SluiceConfig, Sluice}
use sluice_go.Facade.Bulk.{
  BulkWiring, BulkOutcome, library_closed, missing_contract, missing_source, contract_failed,
  source_failed, hydration_failed, bulk, payload_map, with_ttls, after_hydration, hydrate_items,
  by_plan, read_bulk_open, read_bulk_with_ttl,
}
use sluice_go.Prelude.{
  ℕ, ◌≡◌, refl, sym, subst, ◌∙◌, true, false, Option, some, List, [], ◌∷◌, ◌++◌, Bytes, bytes_eq,
  bytes_eq→≡, All, All-append, if◌then◌else◌, Bool-cases, Option-cases, ◌⊎◌, inl, inr,
}

module _ (r : Redis) (c : SluiceConfig) (bulk_ts now : ℕ) (ck : Bytes) (n : ℕ) (drained : Bytes)
    (Ok : Bytes → Type 0) where
  open r use {State}

  abbrev Known : State → Type 0
  Known = Knows r c.shield ck n drained Ok

  abbrev pub Undisturbed : World State → Type 0
  Undisturbed = Kept r c.shield (Offers r c.shield ck n drained Ok) Known

  hydrate-Preserves :
      (i : BulkItem) (s : State)
      → Known s
      → Known (hydrate_call r c.shield i.correlation_key i.body bulk_ts s).1
  hydrate-Preserves i s h =
      unfold act_all act in
      act_all-Knows r c.shield ck n drained Ok (hydrates i.correlation_key i.body bulk_ts ∷ []) s
        (tt, tt) h

  commands-Preserve :
      (items : List BulkItem)
      → All
          (Preserves r c.shield (Offers r c.shield ck n drained Ok) Known {A = HydrateResult})
          (hydrate_commands r c.shield bulk_ts items)
  commands-Preserve [] = tt
  commands-Preserve (i ∷ is) = (hydrate-Preserves i, commands-Preserve is)

  -- The hydration of the key answers with what the journal holds.
  abbrev KnownIf : BulkItem → HydrateResult → Type 0
  KnownIf i h = bytes_eq i.correlation_key ck ≡ true → Ok h.body

  abbrev AllKnown : List BulkItem → List HydrateResult → Type 0
  AllKnown [] [] = Unit
  AllKnown (i ∷ is) (h ∷ hs) = KnownIf i h × AllKnown is hs
  AllKnown _ _ = ⊥

  ran-KnownIf :
      (i : BulkItem) (s : State)
      → Known s
      → KnownIf i (
          parse_hydrate_result i.body bulk_ts
            (hydrate_call r c.shield i.correlation_key i.body bulk_ts s).0)
  unfolding hydrate_call parse_hydrate_result
  ran-KnownIf i s (waits, (body, known, holds)) e =
      subst
        (λ k.
          Ok
            (parse_hydrate_result i.body bulk_ts
              (hydrate_call r c.shield k i.body bulk_ts s).0).body)
        (sym (bytes_eq→≡ i.correlation_key ck e))
        (rw
          (hydrate_hit r (payload_of c.shield ck) i.body body bulk_ts c.shield.activity_window s
            holds)
          known)

  commands-Known :
      (items : List BulkItem) (hs : List HydrateResult)
      → AllRan r c.shield
          (Offers r c.shield ck n drained Ok)
          Known
          (act_all-Knows r c.shield ck n drained Ok)
          (hydrate_commands r c.shield bulk_ts items)
          hs
      → AllKnown items hs
  commands-Known [] [] h = tt
  commands-Known [] (x ∷ xs) h = absurd h
  commands-Known (i ∷ is) [] h = absurd h
  commands-Known (i ∷ is) (x ∷ xs) ((s, known, ran), rest) =
      (subst (KnownIf i) ran (ran-KnownIf i s known), commands-Known is xs rest)

  abbrev HydratedKnown : List BulkItem → Result (List HydrateResult) → Type 0
  HydratedKnown items (ok hs) = AllKnown items hs
  HydratedKnown items (err e) = Unit

  collect-Known :
      (items : List BulkItem) (rs : List (Result HydrateResult)) (w : World State)
      → AllKnown items (answered r c.shield rs)
      → HydratedKnown items (collect r c.shield (rs, w)).0
  unfolding collect
  collect-Known items rs w h = elim (Option-cases (first_error rs)) [
    | inl e ↦ rw (e, collect) h
    | inr (x, e) ↦ rw (e, collect) tt
  ]

  evaluated-Known :
      (items : List BulkItem) (o : Result (List (Result HydrateResult))) (w : World State)
      → RanIf r c.shield
          (Offers r c.shield ck n drained Ok)
          Known
          (act_all-Knows r c.shield ck n drained Ok)
          (hydrate_commands r c.shield bulk_ts items)
          o
      → HydratedKnown items (collect_answered r c.shield (o, w)).0
  unfolding collect_answered
  evaluated-Known items (err e) w h = tt
  evaluated-Known items (ok rs) w h = collect-Known items rs w (commands-Known items _ h)

  bulk_hydrate-Known :
      (i : BulkItem) (is : List BulkItem) (w : World State)
      → Undisturbed w
      → HydratedKnown (i ∷ is) (bulk_hydrate_journal r c.shield (i ∷ is) bulk_ts w).0
  unfolding bulk_hydrate_journal
  bulk_hydrate-Known i is w k =
      let cmds = hydrate_commands r c.shield bulk_ts (i ∷ is) in
      let out = eval_sha_pipelined r c.shield cmds w in
      evaluated-Known (i ∷ is) out.0 out.1 (
        eval_sha_pipelined-RanIf r c.shield (Offers r c.shield ck n drained Ok) Known
          (act_all-Knows r c.shield ck n drained Ok) cmds w (commands-Preserve (i ∷ is)) k)

  -- Wherever the key stands in a map, it has such a payload.
  abbrev MapKnown : List (Bytes × Bytes) → Type 0
  MapKnown = All λ p. bytes_eq p.0 ck ≡ true → Ok p.1

  abbrev pub HasItem : List BulkItem → Type 0
  HasItem [] = ⊥
  HasItem (i ∷ is) = (bytes_eq i.correlation_key ck ≡ true) ⊎ HasItem is

  -- The payload of the key in a map.
  abbrev pub HasKnown : List (Bytes × Bytes) → Type 0
  HasKnown payloads = (body : Bytes) × (value_of ck payloads ≡ some body) × Ok body

  -- The first place of the key in the map is one of those.
  HasKnown-append_left :
      (xs : List (Bytes × Bytes)) (k body : Bytes) → HasKnown xs → HasKnown (xs ++ (k, body) ∷ [])
  HasKnown-append_left [] k body (held, at, known) = cc
  HasKnown-append_left ((j, b) ∷ xs) k body (held, at, known) = elim (Bool-cases (bytes_eq j ck)) [
    | inl e ↦ (held, (rw e refl ∙ (rw e at at)), known)
    | inr e ↦
        let (held', at', known') = HasKnown-append_left xs k body (held, rw e at at, known) in
        (held', rw e at', known')
  ]

  HasKnown-last :
      (xs : List (Bytes × Bytes)) (k body : Bytes)
      → MapKnown xs
      → bytes_eq k ck ≡ true
      → Ok body
      → HasKnown (xs ++ (k, body) ∷ [])
  HasKnown-last [] k body h e o = (body, rw e refl, o)
  HasKnown-last ((j, b) ∷ xs) k body h e o = elim (Bool-cases (bytes_eq j ck)) [
    | inl same ↦ (b, rw same refl, h.0 same)
    | inr other ↦
        let (held, at, known) = HasKnown-last xs k body h.1 e o in (held, rw other at, known)
  ]

  payload_map-MapKnown :
      (items : List BulkItem) (hs : List HydrateResult)
      → AllKnown items hs
      → MapKnown (payload_map items hs)
  unfolding payload_map
  payload_map-MapKnown [] [] h = tt
  payload_map-MapKnown [] (x ∷ xs) h = absurd h
  payload_map-MapKnown (i ∷ is) [] h = absurd h
  payload_map-MapKnown (i ∷ is) (x ∷ xs) h =
      All-append _ (payload_map is xs) (_ ∷ []) (payload_map-MapKnown is xs h.1) (h.0, tt)

  payload_map-HasKnown :
      (items : List BulkItem) (hs : List HydrateResult)
      → AllKnown items hs
      → HasItem items
      → HasKnown (payload_map items hs)
  unfolding payload_map
  payload_map-HasKnown [] hs h has = absurd has
  payload_map-HasKnown (i ∷ is) [] h has = absurd h
  payload_map-HasKnown (i ∷ is) (x ∷ xs) h (inl e) =
      HasKnown-last (payload_map is xs) i.correlation_key x.body (payload_map-MapKnown is xs h.1) e
        (h.0 e)
  payload_map-HasKnown (i ∷ is) (x ∷ xs) h (inr has) =
      HasKnown-append_left (payload_map is xs) i.correlation_key x.body
        (payload_map-HasKnown is xs h.1 has)

  -- An error of the hydration, or a map in which the key has such a payload.
  abbrev pub AnswersKnown : BulkOutcome → Type 0
  AnswersKnown (bulk payloads ttls) = HasKnown payloads
  AnswersKnown (hydration_failed e) = Unit
  AnswersKnown library_closed = ⊥
  AnswersKnown missing_contract = ⊥
  AnswersKnown missing_source = ⊥
  AnswersKnown contract_failed = ⊥
  AnswersKnown source_failed = ⊥

  module _ {M : Type 0} (contract : Bytes → Option M) (source : M → Option (List BulkItem)) where
    abbrev wires : BulkWiring M
    wires = record { read_bulk_contract = some contract; read_bulk = some source }

    with_ttls-Known :
        (items : List BulkItem) (payloads : List (Bytes × Bytes)) (o : Result (List Ttl))
        (w : World State) (s : Sluice State)
        → HasKnown payloads
        → AnswersKnown (with_ttls r c wires bulk_ts now items payloads (o, w) s).0
    unfolding with_ttls
    with_ttls-Known items payloads (ok ttls) w s h = h
    with_ttls-Known items payloads (err e) w s h = h

    after_hydration-Known :
        (items : List BulkItem) (o : Result (List HydrateResult)) (w : World State)
        (s : Sluice State)
        → HydratedKnown items o
        → HasItem items
        → AnswersKnown (after_hydration r c wires bulk_ts now items (o, w) s).0
    unfolding after_hydration
    after_hydration-Known items (err e) w s h has = tt
    after_hydration-Known items (ok hs) w s h has =
        with_ttls-Known items (payload_map items hs) _ _ _ (payload_map-HasKnown items hs h has)

    hydrate_items-Known :
        (items : List BulkItem) (s : Sluice State)
        → HasItem items
        → Undisturbed s.world
        → AnswersKnown (hydrate_items r c wires bulk_ts now (some items) s).0
    unfolding hydrate_items
    hydrate_items-Known [] s has k = absurd has
    hydrate_items-Known (i ∷ is) s has k =
        after_hydration-Known (i ∷ is) _ _ s (bulk_hydrate-Known i is s.world k) has

    -- A key waits for its flush with a payload of a set of payloads; other clients write to it only
    -- payloads of the set, and do not commit or dead-letter it; else they do what they like, and
    -- any round trip may fail. The plan of a bulk read is there and the Source answers it with an
    -- item of the key. Then ReadBulk answers an error of the hydration, or a map in which the key
    -- has a payload of the set, whatever payload the Source has for it.
    pub read_bulk_with_ttl-Known :
        (key : Bytes) (plan : M) (items : List BulkItem) (s : Sluice State)
        → s.closed ≡ false
        → contract key ≡ some plan
        → source plan ≡ some items
        → HasItem items
        → Undisturbed s.world
        → AnswersKnown (read_bulk_with_ttl r c wires bulk_ts now key s).0
    unfolding read_bulk_with_ttl read_bulk_open by_plan
    read_bulk_with_ttl-Known key plan items s running planned found has k =
        let done_by = λ (o : Option M). by_plan r c wires bulk_ts now source o s in
        subst (λ b. AnswersKnown (if b then (library_closed, s) else done_by (contract key)).0)
          (sym running)
          (subst (λ o. AnswersKnown (done_by o).0) (sym planned)
            (subst (λ o. AnswersKnown (hydrate_items r c wires bulk_ts now o s).0) (sym found)
              (hydrate_items-Known items s has k)))
