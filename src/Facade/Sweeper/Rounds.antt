-- ===== src/Facade/Sweeper/Rounds.antt =====
-- The rounds of the index sweeper of sluice.go: how much a round of the pruner does, and that the
-- sweep comes to every band.
use sluice_go.Facade.Sweeper.{
  sweep_batch, max_batches, Call, joined, one_call, prune_batches, prune_bands, prune_all,
  swept_bands,
}
use sluice_go.Prelude.{
  ℕ, zero, suc, ◌+◌, ◌-◌, ◌*◌, ◌%◌, ◌≤◌, ◌<◌, ◌==◌, ==→≡, ◌≡◌, sym, ap, subst, ◌∙◌, Bool, ◌||◌, ltb,
  if◌then◌else◌, arith, Bool-cases, inl, inr, Listed,
}

module _ (prune : ℕ → ℕ → Call) where
  ends_at : ℕ → ℕ → Bool
  ends_at band i = (prune band i).call_failed || ltb (prune band i).processed sweep_batch

  batches-calls :
      (band left i : ℕ)
      → ((prune_batches prune band left i).calls ≤ left)
        × (0 < left → 0 < (prune_batches prune band left i).calls)
  unfolding prune_batches
  batches-calls band zero i = (omega arith, λ h. h)
  batches-calls band (suc left) i =
      let c = prune band i in
      let rest = batches-calls band left (suc i) in
      let result = λ (b : Bool).
        let round =
          if b then one_call c else joined (one_call c) (prune_batches prune band left (suc i)) in
        (round.calls ≤ suc left) × (0 < suc left → 0 < round.calls) in
      elim (Bool-cases (c.call_failed || ltb c.processed sweep_batch)) [
        | inl ends ↦ subst result (sym ends) (omega arith, λ h. omega arith)
        | inr more ↦ subst result (sym more) (omega (arith, rest.0), λ h. omega arith)
      ]

  bands-calls :
      (left band : ℕ)
      → ((prune_bands prune left band).calls ≤ left * max_batches)
        × (left ≤ (prune_bands prune left band).calls)
  unfolding prune_bands
  bands-calls zero band = (omega arith, omega arith)
  bands-calls (suc left) band =
      let own = batches-calls band max_batches 0 in
      let rest = bands-calls left (suc band) in
      let some_call = own.1 (omega arith) in
      (omega (arith, own.0, rest.0), omega (arith, some_call, rest.1))

  -- Whatever the calls of PruneExpiredIndexes give, errors included: a round of the pruner makes at
  -- least one call for every band, and at most 20 for every band.
  pub prune_all-bounds :
      (band_count : ℕ)
      → (band_count ≤ (prune_all prune band_count).calls)
        × ((prune_all prune band_count).calls ≤ band_count * max_batches)
  unfolding prune_all
  prune_all-bounds band_count = let h = bands-calls band_count 0 in (h.1, h.0)

-- The ticks up to the last band.
sweep-tick :
    (n ticks band target : ℕ)
    → 0 < n
    → band ≤ target
    → target < n
    → target < band + ticks
    → Listed target (swept_bands n ticks band)
unfolding swept_bands
sweep-tick n zero band target p a b t = absurd (omega arith)
sweep-tick n (suc ticks) band target p a b t = elim (Bool-cases (band == target)) [
  | inl same ↦ inl (sym (==→≡ band target same))
  | inr other ↦
      let up : band + 1 ≤ target = ground (arith, other, a) in
      let whole : (band + 1) % n ≡ band + 1 = grind arith in
      inr (
        subst (λ b. Listed target (swept_bands n ticks b)) (sym whole)
          (sweep-tick n ticks (band + 1) target p up b (omega arith)))
]

self_mod : (n : ℕ) → 0 < n → n % n ≡ 0
self_mod n p = grind arith

-- Behind the last band the sweep starts again.
sweep-wrap :
    (n d ticks total band target : ℕ)
    → total ≡ suc d + ticks
    → 0 < n
    → band + suc d ≡ n
    → Listed target (swept_bands n ticks 0)
    → Listed target (swept_bands n total band)
unfolding swept_bands
sweep-wrap n d ticks zero band target whole p e h = absurd (omega arith)
sweep-wrap n zero ticks (suc total) band target whole p e h =
    let last : (band + 1) % n ≡ 0 = ap (λ k. k % n) (omega arith) ∙ self_mod n p in
    let left : ticks ≡ total = omega arith in
    inr (
      subst (λ b. Listed target (swept_bands n total b)) (sym last)
        (subst (λ k. Listed target (swept_bands n k 0)) left h))
sweep-wrap n (suc d) ticks (suc total) band target whole p e h =
    let next : (band + 1) % n ≡ band + 1 = grind arith in
    inr (
      subst (λ b. Listed target (swept_bands n total b)) (sym next)
        (sweep-wrap n d ticks total (band + 1) target (omega arith) p (omega arith) h))

-- From whatever band the sweep goes on, as many ticks as there are bands take it to every band.
pub swept_bands-all :
    (n band target : ℕ) → band < n → target < n → Listed target (swept_bands n n band)
swept_bands-all n band target b t = elim (Bool-cases (ltb target band)) [
  | inl before ↦
      let d : ℕ = n - band - 1 in
      sweep-wrap n d band n band target (omega arith) (omega arith) (omega arith)
        (sweep-tick n band 0 target (omega arith) (omega arith) t (ground (arith, before)))
  | inr behind ↦ sweep-tick n n band target (omega arith) (ground (arith, behind)) t (omega arith)
]
