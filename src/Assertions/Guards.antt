-- ===== src/Assertions/Guards.antt =====
-- Which probes a list of assertions becomes.
use orb_operator.Base.{
  ℕ, ◌+◌, String, Option, none, some, List, [], ◌∷◌, ◌≡◌, refl, ap, ◌⊎◌, inl, inr, All, All-imp,
  Memᴰ, subst,
}
use orb_operator.Errors.{Error, Result, ok, err}
use orb_operator.Errors.Steps.{ok-injective}
use orb_operator.Api.{Assertion}
use orb_operator.Assertions.{
  Probe, one, and, Prober, observed_generation, always_false, probe_for_assertion, add_probe,
  probers_from, combine, probe_for_assertions,
}

-- The probes that must all pass for a prober to pass.
abbrev pub probes_of {ℓ} : {Cel : Type ℓ} → Option (Prober Cel) → List (Probe Cel)
probes_of none = []
probes_of (some (observed_generation (one p))) = p ∷ []
probes_of (some (observed_generation (and ps))) = ps
probes_of (some (always_false m)) = []

module _ {Cel : Type 0} (new_cel_probe : String → String → Result Cel) where
  -- The probe of an assertion is there and is among those of a list.
  abbrev pub IsProbedBy : List (Probe Cel) → Assertion → Type 0
  IsProbedBy ps a = (p : Probe Cel) × (probe_for_assertion new_cel_probe a ≡ ok p) × Memᴰ p ps

  add_probe-ok :
      (i : ℕ) (r : Result (Probe Cel)) (rest : Result (List (Probe Cel))) (ps : List (Probe Cel))
      → add_probe new_cel_probe i r rest ≡ ok ps
      → (p : Probe Cel) × (qs : List (Probe Cel)) × (r ≡ ok p) × (rest ≡ ok qs) × (p ∷ qs ≡ ps)
  unfolding add_probe
  add_probe-ok i (err e) rest ps h = absurd (cc h)
  add_probe-ok i (ok p) (err e) ps h = absurd (cc h)
  add_probe-ok i (ok p) (ok qs) ps h = (p, qs, refl, refl, ok-injective (p ∷ qs) ps h)

  probers_from-IsProbedBy :
      (i : ℕ) (as' : List Assertion) (ps : List (Probe Cel))
      → probers_from new_cel_probe i as' ≡ ok ps
      → All (IsProbedBy ps) as'
  unfolding probers_from
  probers_from-IsProbedBy i [] ps h = tt
  probers_from-IsProbedBy i (a ∷ as') ps h =
      let (p, qs, first, rest, e) =
        add_probe-ok i (probe_for_assertion new_cel_probe a)
          (probers_from new_cel_probe (i + 1) as') ps h in
      subst (λ l. All (IsProbedBy l) (a ∷ as')) e
        (
          (p, first, Memᴰ.head refl),
          All-imp (λ b (q, k, m). (q, k, Memᴰ.tail m)) as'
              (probers_from-IsProbedBy (i + 1) as' qs rest),
        )

  combine-ok :
      (r : Result (List (Probe Cel))) (o : Option (Prober Cel))
      → combine new_cel_probe r ≡ ok o
      → r ≡ ok (probes_of o)
  unfolding combine
  combine-ok (err e) o h = absurd (cc h)
  combine-ok (ok []) o h = ap (λ q. ok (probes_of q)) (ok-injective none o h)
  combine-ok (ok (p ∷ [])) o h =
      ap (λ q. ok (probes_of q)) (ok-injective (some (observed_generation (one p))) o h)
  combine-ok (ok (p ∷ q ∷ ps)) o h =
      ap (λ r. ok (probes_of r)) (ok-injective (some (observed_generation (and (p ∷ q ∷ ps)))) o h)

  -- Where a list of assertions becomes a prober without an error, no assertion is dropped: each
  -- becomes a probe, and that probe is among those that must pass.
  pub probe_for_assertions-IsProbedBy :
      (assertions : List Assertion) (o : Option (Prober Cel))
      → probe_for_assertions new_cel_probe assertions ≡ ok o
      → All (IsProbedBy (probes_of o)) assertions
  unfolding probe_for_assertions
  probe_for_assertions-IsProbedBy assertions o h =
      probers_from-IsProbedBy 0 assertions (probes_of o)
        (combine-ok (probers_from new_cel_probe 0 assertions) o h)

  combine-add_probe :
      (i : ℕ) (r : Result (Probe Cel)) (rest : Result (List (Probe Cel)))
      → ((p : Prober Cel) × (combine new_cel_probe (add_probe new_cel_probe i r rest)
            ≡ ok (some p)))
        ⊎ ((e : Error) × (combine new_cel_probe (add_probe new_cel_probe i r rest) ≡ err e))
  unfolding combine add_probe
  combine-add_probe i (err e) rest = inr (_, refl)
  combine-add_probe i (ok p) (err e) = inr (_, refl)
  combine-add_probe i (ok p) (ok []) = inl (_, refl)
  combine-add_probe i (ok p) (ok (q ∷ qs)) = inl (_, refl)

  pub probe_for_assertions-cons :
      (a : Assertion) (as' : List Assertion)
      → ((p : Prober Cel) × (probe_for_assertions new_cel_probe (a ∷ as') ≡ ok (some p)))
        ⊎ ((e : Error) × (probe_for_assertions new_cel_probe (a ∷ as') ≡ err e))
  unfolding probe_for_assertions probers_from
  probe_for_assertions-cons a as' =
      combine-add_probe 0 (probe_for_assertion new_cel_probe a) (probers_from new_cel_probe 1 as')
