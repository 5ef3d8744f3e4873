-- ===== src/Engine/Progress/Built.antt =====
-- The loop over the drained records in engine.go, in a calm world: the model of a key that is
-- listed comes into the batch.
use sluice_go.Naming.{codes}
use sluice_go.Naming.Decimal.{itoa}
use sluice_go.Redis.{Redis}
use sluice_go.Shield.Calls.{band_for}
use sluice_go.Shield.World.Calm.{CalmAt}
use sluice_go.Shield.Flush.{FlushRecord, VersionedKey}
use sluice_go.Sink.{WriteModel}
use sluice_go.Engine.Types.{EngineConfig, Contract, Run, Batch, seq_of}
use sluice_go.Engine.{accept_record, take_body, take_records}
use sluice_go.Engine.Progress.Steps.{AtVersion}
use sluice_go.Engine.Progress.Settling.{dead_letter-AtVersion}
use sluice_go.Prelude.{
  ℕ, ◌≡◌, refl, ◌∙◌, ap, sym, subst, true, false, Option, some, none, List, [], ◌∷◌, ◌++◌, Bytes,
  bytes_eq, bytes_eq→≡, All, All-append, arith, Bool-cases, ◌⊎◌, inl, inr, Listed,
  Listed-append_left, Listed-last,
}

-- The model of a contract under the key of its record.
abbrev pub under : {V : Type 0} → Bytes → WriteModel V → WriteModel V
under ck wm = record wm { correlation_key = ck }

module _ {V : Type 0} (r : Redis) (c : EngineConfig) (ck : Bytes) (contract : Contract V) (n : ℕ)
    (body : Bytes) (wm : WriteModel V) (modelled : contract ck body ≡ some wm) (now : ℕ) where
  open r use {State}

  abbrev band : ℕ
  band = band_for c.shield ck

  -- A record of the key carries its payload and its version.
  abbrev pub ReadsIf : FlushRecord → Type 0
  ReadsIf rec = bytes_eq rec.correlation_key ck ≡ true → (rec.body ≡ some body) × (rec.seq ≡ itoa n)

  abbrev pub HasRecord : List FlushRecord → Type 0
  HasRecord [] = ⊥
  HasRecord (rec ∷ rest) = (bytes_eq rec.correlation_key ck ≡ true) ⊎ HasRecord rest

  -- The key is at its version, and not among the keys whose payload is missing.
  pub record Going (p : Batch V × Run State) : Type 0 where
    pub world : CalmAt (AtVersion r c.shield ck n) p.1.world
    pub others : All (λ (i : VersionedKey). bytes_eq i.correlation_key ck ≡ false) p.0.missing

  -- Its model is in the batch, with its version.
  pub record Ready (batch : Batch V) : Type 0 where
    pub listed : Listed (under ck wm) batch.models
    pub carries : seq_of batch.seqs ck ≡ itoa n

  accept-Going :
      (rec : FlushRecord) (o : Option (WriteModel V)) (p : Batch V × Run State)
      → (bytes_eq rec.correlation_key ck ≡ true → o ≡ some wm)
      → Going p
      → Going (accept_record r c rec o now band p)
  unfolding accept_record
  accept-Going rec none (batch, run) m g = record {
    world =
        dead_letter-AtVersion r c ck n now
          (record { correlation_key = rec.correlation_key; seq = rec.seq } ∷ [])
          (codes "contract_violation") run.world (other, tt) g.world;
    others = g.others;
  }
    where
      other : bytes_eq rec.correlation_key ck ≡ false
      other = elim (Bool-cases (bytes_eq rec.correlation_key ck)) [
        | inl e ↦ let clash : none ≡ some wm = m e in cc
        | inr e ↦ e
      ]
  accept-Going rec (some x) (batch, run) m g = record { world = g.world; others = g.others }

  modelled_if :
      (rec : FlushRecord) (held : Bytes)
      → rec.body ≡ some held
      → ReadsIf rec
      → bytes_eq rec.correlation_key ck ≡ true
      → contract rec.correlation_key held ≡ some wm
  modelled_if rec held b reads e =
      let same : some held ≡ some body = sym b ∙ (reads e).0 in
      cc (same, bytes_eq→≡ rec.correlation_key ck e, modelled)

  body-Going :
      (rec : FlushRecord) (o : Option Bytes) (p : Batch V × Run State)
      → rec.body ≡ o
      → ReadsIf rec
      → Going p
      → Going (take_body r c contract rec o now band p)
  unfolding take_body
  body-Going rec none (batch, run) b reads g = record {
    world = g.world;
    others = All-append _ batch.missing (_ ∷ []) g.others (other, tt);
  }
    where
      other : bytes_eq rec.correlation_key ck ≡ false
      other = elim (Bool-cases (bytes_eq rec.correlation_key ck)) [
        | inl e ↦ let clash : none ≡ some body = sym b ∙ (reads e).0 in cc
        | inr e ↦ e
      ]
  body-Going rec (some held) p b reads g =
      accept-Going rec (contract rec.correlation_key held) p (modelled_if rec held b reads) g

  -- A later record of the key carries the same version.
  seq-cons :
      (rec : FlushRecord) (seqs : List (Bytes × Bytes))
      → ReadsIf rec
      → seq_of seqs ck ≡ itoa n
      → seq_of ((rec.correlation_key, rec.seq) ∷ seqs) ck ≡ itoa n
  unfolding seq_of
  seq-cons rec seqs reads h = elim (Bool-cases (bytes_eq rec.correlation_key ck)) [
    | inl e ↦ ground (arith, (reads e).1)
    | inr e ↦ ground (arith, h)
  ]

  accept-Ready :
      (rec : FlushRecord) (o : Option (WriteModel V)) (p : Batch V × Run State)
      → ReadsIf rec
      → Ready p.0
      → Ready (accept_record r c rec o now band p).0
  unfolding accept_record
  accept-Ready rec none (batch, run) reads h = record {
    listed = h.listed;
    carries = seq-cons rec batch.seqs reads h.carries;
  }
  accept-Ready rec (some x) (batch, run) reads h = record {
    listed = Listed-append_left _ batch.models _ h.listed;
    carries = seq-cons rec batch.seqs reads h.carries;
  }

  body-Ready :
      (rec : FlushRecord) (o : Option Bytes) (p : Batch V × Run State)
      → ReadsIf rec
      → Ready p.0
      → Ready (take_body r c contract rec o now band p).0
  unfolding take_body
  body-Ready rec none (batch, run) reads h = record { listed = h.listed; carries = h.carries }
  body-Ready rec (some held) p reads h =
      accept-Ready rec (contract rec.correlation_key held) p reads h

  accepted-Ready :
      (rec : FlushRecord) (o : Option (WriteModel V)) (p : Batch V × Run State)
      → o ≡ some wm
      → bytes_eq rec.correlation_key ck ≡ true
      → ReadsIf rec
      → Ready (accept_record r c rec o now band p).0
  unfolding accept_record seq_of
  accepted-Ready rec none p m e reads = cc
  accepted-Ready rec (some x) (batch, run) m e reads =
      let key = bytes_eq→≡ rec.correlation_key ck e in
      let same : x ≡ wm = cc in
      record {
        listed =
            subst (λ y. Listed (under ck wm) (batch.models ++ y ∷ []))
              (ap (λ k. under k wm) (sym key) ∙ ap (under rec.correlation_key) (sym same))
              (Listed-last (under ck wm) batch.models);
        carries = ground (arith, e, (reads e).1);
      }

  -- The record of the key brings its model in.
  taken-Ready :
      (rec : FlushRecord) (o : Option Bytes) (p : Batch V × Run State)
      → rec.body ≡ o
      → bytes_eq rec.correlation_key ck ≡ true
      → ReadsIf rec
      → Ready (take_body r c contract rec o now band p).0
  unfolding take_body
  taken-Ready rec none p b e reads = let clash : none ≡ some body = sym b ∙ (reads e).0 in cc
  taken-Ready rec (some held) p b e reads =
      accepted-Ready rec (contract rec.correlation_key held) p (modelled_if rec held b reads e) e
        reads

  pub take_records-Going :
      (records : List FlushRecord) (p : Batch V × Run State)
      → All ReadsIf records
      → Going p
      → Going (take_records r c contract now band records p)
  unfolding take_records
  take_records-Going [] p reads g = g
  take_records-Going (rec ∷ rest) p reads g =
      take_records-Going rest _ reads.1 (body-Going rec rec.body p refl reads.0 g)

  pub take_records-Ready :
      (records : List FlushRecord) (p : Batch V × Run State)
      → All ReadsIf records
      → HasRecord records ⊎ Ready p.0
      → Ready (take_records r c contract now band records p).0
  unfolding take_records
  take_records-Ready [] p reads (inl h) = absurd h
  take_records-Ready [] p reads (inr h) = h
  take_records-Ready (rec ∷ rest) p reads (inl (inl e)) =
      take_records-Ready rest _ reads.1 (inr (taken-Ready rec rec.body p refl e reads.0))
  take_records-Ready (rec ∷ rest) p reads (inl (inr later)) =
      take_records-Ready rest _ reads.1 (inl later)
  take_records-Ready (rec ∷ rest) p reads (inr h) =
      take_records-Ready rest _ reads.1 (inr (body-Ready rec rec.body p reads.0 h))
