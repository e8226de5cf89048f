-- ===== src/Status/Cos/Phases/Order.antt =====
-- The phases that a status reports, against those of the spec.
use orb_operator.Base.{
  String, ◌≡◌, refl, Bool, Option, none, some, List, [], ◌∷◌, map, lookup, Bool-cases, inl, inr, ap,
  ap₂, All, String_eq, ◌==◌, arith, ℕ,
}
use orb_operator.Api.{Phase, ObservedPhase, PhaseStatus, ObjectCounts, zero_counts, superseded}
use orb_operator.Boxcutter.{
  PhaseValidationError, PhaseResult, RevisionResult, PhaseTeardownResult, RevisionTeardownResult,
  RevisionValidationError,
}
use orb_operator.Status.Cos.Mapping.{index_by_name, map_spec_phase, map_spec_phases}
use orb_operator.Status.Cos.Mapping.Names.{names-map_spec_phases}
use orb_operator.Status.Cos.Incomplete.{incomplete_phase}
use orb_operator.Status.Cos.Phases.{
  all_counts, build_observed_phases, all_phases_with_status, invalid_phase,
  invalid_phases_from_validation_error, valid_result_phases, observed_phases_from_reconcile_result,
  tearing_down_phase, observed_phases_from_teardown_result,
}

abbrev pub observed_names : List ObservedPhase → List String
observed_names = map (λ (p : ObservedPhase). p.name)

abbrev pub spec_names : List Phase → List String
spec_names = map (λ (sp : Phase). sp.name)

name-incomplete_phase : (sp : Phase) (pr : PhaseResult) → (incomplete_phase sp pr).name ≡ pr.name
unfolding incomplete_phase
name-incomplete_phase sp pr = ground arith

names-build_observed_phases :
    (sps : List Phase) (rs : List PhaseResult)
    → observed_names (build_observed_phases sps rs) ≡ spec_names sps
unfolding build_observed_phases
names-build_observed_phases sps rs =
    names-map_spec_phases (λ (pr : PhaseResult). pr.name) _ _ _ all_counts incomplete_phase
      name-incomplete_phase sps rs

names-all_phases_with_status :
    (sps : List Phase) (s : PhaseStatus)
    → observed_names (all_phases_with_status sps s) ≡ spec_names sps
unfolding all_phases_with_status
names-all_phases_with_status [] s = refl
names-all_phases_with_status (sp ∷ sps) s =
    ap (λ r. sp.name ∷ r) (names-all_phases_with_status sps s)

name-invalid_phase :
    (sp : Phase) (o : Option PhaseValidationError) → (invalid_phase sp o).name ≡ sp.name
unfolding invalid_phase
name-invalid_phase sp none = refl
name-invalid_phase sp (some v) = refl

names-invalid_phases :
    (sps : List Phase) (verr : RevisionValidationError)
    → observed_names (invalid_phases_from_validation_error sps verr) ≡ spec_names sps
unfolding invalid_phases_from_validation_error
names-invalid_phases [] verr = refl
names-invalid_phases (sp ∷ sps) verr =
    ap₂ (λ x y. x ∷ y) (name-invalid_phase sp _) (names-invalid_phases sps verr)

names-valid_result_phases :
    (sps : List Phase) (r : RevisionResult) (o : Option RevisionValidationError)
    → observed_names (valid_result_phases sps r o) ≡ spec_names sps
unfolding valid_result_phases
names-valid_result_phases sps r (some verr) = names-invalid_phases sps verr
names-valid_result_phases sps r none = elim (Bool-cases r.has_progressed) [
  | inl e ↦ rw e (names-all_phases_with_status sps superseded)
  | inr e ↦ rw e (names-build_observed_phases sps r.phases)
]

-- Whatever the result of a reconcile is, the observed phases are those of the spec, one for one, in
-- the spec's order and under the spec's names.
pub names-observed_phases_from_reconcile_result :
    (sps : List Phase) (r : RevisionResult)
    → observed_names (observed_phases_from_reconcile_result sps (some r)) ≡ spec_names sps
unfolding observed_phases_from_reconcile_result
names-observed_phases_from_reconcile_result sps r =
    names-valid_result_phases sps r r.validation_error

name-tearing_down_phase :
    (sp : Phase) (pr : PhaseTeardownResult) (b : Bool) → (tearing_down_phase sp pr b).name ≡ pr.name
unfolding tearing_down_phase
name-tearing_down_phase sp pr b = refl

-- Whatever the result of a teardown is, the observed phases are those of the spec, one for one, in
-- the spec's order and under the spec's names.
pub names-observed_phases_from_teardown_result :
    (sps : List Phase) (r : RevisionTeardownResult)
    → observed_names (observed_phases_from_teardown_result sps (some r)) ≡ spec_names sps
unfolding observed_phases_from_teardown_result
names-observed_phases_from_teardown_result sps r =
    names-map_spec_phases (λ (pr : PhaseTeardownResult). pr.name) _ _ _
      (λ total. record zero_counts { total = total })
      (λ sp pr. tearing_down_phase sp pr (pr.name == r.active_phase_name))
      (λ sp pr. name-tearing_down_phase sp pr (pr.name == r.active_phase_name)) sps r.phases

-- Phases that have no completion time.
abbrev pub AreFresh : List ObservedPhase → Type 0
AreFresh = All (λ (p : ObservedPhase). p.completed_at ≡ none)

AreFresh-map :
    (f : Phase → ObservedPhase) (sps : List Phase)
    → ((sp : Phase) → (f sp).completed_at ≡ none)
    → AreFresh (map f sps)
AreFresh-map f [] h = tt
AreFresh-map f (sp ∷ sps) h = (h sp, AreFresh-map f sps h)

fresh_incomplete_phase :
    (sp : Phase) (pr : PhaseResult) → (incomplete_phase sp pr).completed_at ≡ none
unfolding incomplete_phase
fresh_incomplete_phase sp pr = ground arith

AreFresh-map_spec_phases {ℓ} :
    {T : Type ℓ} (get_name : T → String) (is_complete : T → Bool) (status : PhaseStatus)
    (message : String) (counts : ℕ → ObjectCounts) (build : Phase → T → ObservedPhase)
    → ((sp : Phase) (r : T) → (build sp r).completed_at ≡ none)
    → (sps : List Phase) (rs : List T)
    → AreFresh (map_spec_phases get_name is_complete status message counts build sps rs)
unfolding map_spec_phases
AreFresh-map_spec_phases {T = T} get_name is_complete status message counts build h sps rs =
    AreFresh-map _ sps (λ sp. one sp (lookup (index_by_name get_name rs []) sp.name))
  where
    one :
        (sp : Phase) (o : Option T)
        → (map_spec_phase get_name is_complete status message counts build sp o).completed_at ≡ none
    one sp none = refl
    one sp (some r) = ground (arith, h sp r)

fresh_invalid_phase :
    (sp : Phase) (o : Option PhaseValidationError) → (invalid_phase sp o).completed_at ≡ none
unfolding invalid_phase
fresh_invalid_phase sp none = refl
fresh_invalid_phase sp (some v) = refl

AreFresh-valid_result_phases :
    (sps : List Phase) (r : RevisionResult) (o : Option RevisionValidationError)
    → AreFresh (valid_result_phases sps r o)
unfolding valid_result_phases
AreFresh-valid_result_phases sps r (some verr) = AreFresh-map _ sps (λ sp. fresh_invalid_phase sp _)
AreFresh-valid_result_phases sps r none = elim (Bool-cases r.has_progressed) [
  | inl e ↦ rw e (AreFresh-map _ sps (λ sp. refl))
  | inr e ↦ rw e (
      AreFresh-map_spec_phases (λ (pr : PhaseResult). pr.name) _ _ _ all_counts incomplete_phase
        fresh_incomplete_phase sps r.phases)
]

pub AreFresh-observed_phases_from_reconcile_result :
    (sps : List Phase) (o : Option RevisionResult)
    → AreFresh (observed_phases_from_reconcile_result sps o)
unfolding observed_phases_from_reconcile_result
AreFresh-observed_phases_from_reconcile_result sps none = tt
AreFresh-observed_phases_from_reconcile_result sps (some r) =
    AreFresh-valid_result_phases sps r r.validation_error
