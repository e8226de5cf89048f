-- ===== src/Revision/Engine/Split.antt =====
-- How the phases that the gated pass did not reach are split between the two later passes.
use mathlib.Core.List.{append-nil, append_assoc}
use orb_operator.Base.{
  ℕ, zero, suc, String, ◌≡◌, ◌≢◌, refl, sym, ap, ◌∙◌, Bool, true, false, not, List, [], ◌∷◌, ◌++◌,
  contains, String_eq, eq_iff, arith, All, filter, take, drop, inl, inr, Bool-cases, if◌then◌else◌,
  subst,
}
use orb_operator.Boxcutter.{BoxPhase}
use orb_operator.Revision.Engine.{phases_after_from, phases_after, split_from, split_phases}

module _ {ℓ} {Obj Probe : Type ℓ} where
  -- No two phases have one name.
  abbrev pub HasUniqueNames : List (BoxPhase Obj Probe) → Type 0
  HasUniqueNames [] = Unit
  HasUniqueNames (p ∷ ps) = All (λ (q : BoxPhase Obj Probe). p.name ≢ q.name) ps × HasUniqueNames ps

  -- In the middle of such a list a phase differs from those before it and from those after it.
  unique_middle :
      (pre : List (BoxPhase Obj Probe)) (p : BoxPhase Obj Probe) (ps : List (BoxPhase Obj Probe))
      → HasUniqueNames (pre ++ p ∷ ps)
      → All (λ (q : BoxPhase Obj Probe). p.name ≢ q.name) pre
        × All (λ (q : BoxPhase Obj Probe). p.name ≢ q.name) ps
  unique_middle [] p ps u = (tt, u.0)
  unique_middle (q ∷ pre) p ps u =
      let (l, r) = unique_middle pre p ps u.1 in (((λ e. at_middle pre u.0 (sym e)), l), r)
    where
      at_middle :
          (qs : List (BoxPhase Obj Probe))
          → All (λ (r : BoxPhase Obj Probe). q.name ≢ r.name) (qs ++ p ∷ ps)
          → q.name ≢ p.name
      at_middle [] h = h.0
      at_middle (r ∷ qs) h = at_middle qs h.1

module _ {ℓ} {Obj Probe : Type ℓ} (gated : List String) where
  abbrev pub is_not_gated : BoxPhase Obj Probe → Bool
  is_not_gated p = not (contains gated p.name)

  -- After the phase was found, the rest of the loop filters.
  phases_after_from-found :
      (ps : List (BoxPhase Obj Probe)) (name : String)
      → All (λ (q : BoxPhase Obj Probe). name ≢ q.name) ps
      → phases_after_from gated true ps name ≡ filter is_not_gated ps
  unfolding phases_after_from
  phases_after_from-found [] name h = refl
  phases_after_from-found (p ∷ ps) name h =
      ground (arith, eq_iff name p.name, h.0, phases_after_from-found ps name h.1)

  -- `phasesAfter` gives the phases behind the named one that are not gated.
  phases_after_lem :
      (pre : List (BoxPhase Obj Probe)) (p : BoxPhase Obj Probe) (ps : List (BoxPhase Obj Probe))
      → All (λ (q : BoxPhase Obj Probe). p.name ≢ q.name) pre
      → All (λ (q : BoxPhase Obj Probe). p.name ≢ q.name) ps
      → phases_after gated (pre ++ p ∷ ps) p.name ≡ filter is_not_gated ps
  unfolding phases_after
  phases_after_lem [] p ps l r =
      ground (arith, eq_iff p.name p.name, phases_after_from-found ps p.name r)
  phases_after_lem (q ∷ pre) p ps l r =
      ground (arith, eq_iff p.name q.name, l.0, phases_after_lem pre p ps l.1 r)

  -- How many phases at the front of a list have completed before.
  abbrev pub completed_prefix : List String → List (BoxPhase Obj Probe) → ℕ
  completed_prefix completed [] = 0
  completed_prefix completed (p ∷ ps) =
      let rest = completed_prefix completed ps in if contains completed p.name then suc rest else 0

  -- The phases that are corrected: those at the front that completed before and, if there are any,
  -- the one behind them.
  abbrev pub drift_count : List String → List (BoxPhase Obj Probe) → ℕ
  drift_count completed ps = elim (completed_prefix completed ps) [
    | zero ↦ zero
    | suc n ↦ suc (suc n)
  ]

  drift_count_completed :
      (completed : List String) (p : BoxPhase Obj Probe) (ps : List (BoxPhase Obj Probe))
      → contains completed p.name ≡ true
      → drift_count completed (p ∷ ps) ≡ suc (suc (completed_prefix completed ps))
  drift_count_completed completed p ps c = ground arith

  drift_count_not_completed :
      (completed : List String) (p : BoxPhase Obj Probe) (ps : List (BoxPhase Obj Probe))
      → contains completed p.name ≡ false
      → drift_count completed (p ∷ ps) ≡ 0
  drift_count_not_completed completed p ps c = ground arith

  module _ (phases : List (BoxPhase Obj Probe)) (unique : HasUniqueNames phases)
      (completed : List String) where
    -- The loop after a completed phase was seen.
    split_from-saw :
        (pre ps drift : List (BoxPhase Obj Probe))
        → phases ≡ pre ++ ps
        → let n = suc (completed_prefix completed (filter is_not_gated ps)) in
          split_from gated phases completed ps true drift
          ≡ (drift ++ take n (filter is_not_gated ps), drop n (filter is_not_gated ps))
    unfolding split_from
    split_from-saw pre [] drift e = ap (λ l. (l, [])) (sym (append-nil drift))
    split_from-saw pre (p ∷ ps) drift e =
        let (l, r) = unique_middle pre p ps (subst HasUniqueNames e unique) in
        let after = ap (λ q. phases_after gated q p.name) e ∙ phases_after_lem pre p ps l r in
        let e' = e ∙ sym (append_assoc pre (p ∷ []) ps) in
        let skip = split_from-saw (pre ++ (p ∷ [])) ps drift e' in
        let ng = filter is_not_gated ps in
        let n = suc (completed_prefix completed ng) in
        let more = split_from-saw (pre ++ (p ∷ [])) ps (drift ++ (p ∷ [])) e' in
        elim (Bool-cases (contains gated p.name)) [
          | inl g ↦ rw g skip
          | inr g ↦ elim (Bool-cases (contains completed p.name)) [
            | inl c ↦
                rw (g, c)
                  (more ∙ ap (λ l. (l, drop n ng)) (append_assoc drift (p ∷ []) (take n ng)))
            | inr c ↦ rw (g, c) (ap (λ l. (drift ++ (p ∷ []), l)) after)
          ]
        ]

    split_from-start :
        (pre ps : List (BoxPhase Obj Probe))
        → phases ≡ pre ++ ps
        → let n = drift_count completed (filter is_not_gated ps) in
          split_from gated phases completed ps false []
          ≡ (take n (filter is_not_gated ps), drop n (filter is_not_gated ps))
    unfolding split_from
    split_from-start pre [] e = refl
    split_from-start pre (p ∷ ps) e =
        let (l, r) = unique_middle pre p ps (subst HasUniqueNames e unique) in
        let after = ap (λ q. phases_after gated q p.name) e ∙ phases_after_lem pre p ps l r in
        let e' = e ∙ sym (append_assoc pre (p ∷ []) ps) in
        let ng = filter is_not_gated ps in
        let skip = split_from-start (pre ++ (p ∷ [])) ps e' in
        elim (Bool-cases (contains gated p.name)) [
          | inl g ↦ rw g skip
          | inr g ↦ elim (Bool-cases (contains completed p.name)) [
            | inl c ↦
                rw (g, drift_count_completed completed p ng c, c)
                  (split_from-saw (pre ++ (p ∷ [])) ps (p ∷ []) e')
            | inr c ↦
                rw (g, drift_count_not_completed completed p ng c, c) (ap (λ l. ([], p ∷ l)) after)
          ]
        ]

    -- Where the phases of the revision have different names: of the phases that the gated pass did
    -- not report, taken in order, the phases at the front that completed before and the one behind
    -- them are corrected, none if the first of them never completed; all others are only read.
    pub split_phases_lem :
        let n = drift_count completed (filter is_not_gated phases) in
        split_phases gated phases completed
        ≡ (take n (filter is_not_gated phases), drop n (filter is_not_gated phases))
    unfolding split_phases
    split_phases_lem = split_from-start [] phases refl
