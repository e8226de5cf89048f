-- ===== src/Status/Cos/Phases.antt =====
-- The observed phases of a revision, from the results of a reconcile or of a teardown.
pub mod Order
use orb_operator.Base.{
  ℕ, String, Bool, Option, none, some, List, [], ◌∷◌, map, length, lookup, ◌==◌, String_eq,
  if◌then◌else◌,
}
use orb_operator.Base.Int.{i64}
use orb_operator.Api.{
  Phase, PhaseStatus, pending, available, unknown, superseded, tearing_down, teardown_complete,
  ObjectCounts, zero_counts, ObservedPhase,
}
use orb_operator.Boxcutter.{
  PhaseValidationError, RevisionValidationError, PhaseResult, RevisionResult, PhaseTeardownResult,
  RevisionTeardownResult,
}
use orb_operator.Status.Cos.Mapping.{
  total_of, object_status_from_ref, index_by_name, map_spec_phases,
}
use orb_operator.Status.Cos.Incomplete.{apply_validation_error, incomplete_phase}

abbrev pub all_counts : ℕ → ObjectCounts
all_counts total = record { total = total; present = total; synced = total; available = total }

unfoldable pub build_observed_phases : List Phase → List PhaseResult → List ObservedPhase
unfolding map_spec_phases incomplete_phase
build_observed_phases =
    map_spec_phases (λ pr. pr.name) (λ pr. pr.is_complete) available "Phase was not evaluated"
      all_counts incomplete_phase

unfoldable pub all_phases_with_status : List Phase → PhaseStatus → List ObservedPhase
all_phases_with_status spec_phases status =
    map
      (λ (sp : Phase). record {
        name = sp.name;
        status = status;
        completed_at = none;
        message = "";
        object_counts = record zero_counts { total = total_of sp };
        object_details = [];
      })
      spec_phases

invalid_phase : Phase → Option PhaseValidationError → ObservedPhase
unfolding apply_validation_error
invalid_phase sp (some pve) =
    apply_validation_error
      (record {
        name = sp.name;
        status = unknown;
        completed_at = none;
        message = "";
        object_counts = zero_counts;
        object_details = [];
      })
      pve
invalid_phase sp none = record {
  name = sp.name;
  status = unknown;
  completed_at = none;
  message = "Blocked by preflight errors in other phases";
  object_counts = zero_counts;
  object_details = [];
}

unfoldable pub invalid_phases_from_validation_error :
    List Phase → RevisionValidationError → List ObservedPhase
unfolding invalid_phase index_by_name
invalid_phases_from_validation_error spec_phases verr =
    let phase_errors = index_by_name (λ (p : PhaseValidationError). p.phase_name) verr.phases [] in
    map (λ sp. invalid_phase sp (lookup phase_errors sp.name)) spec_phases

valid_result_phases :
    List Phase → RevisionResult → Option RevisionValidationError → List ObservedPhase
unfolding invalid_phases_from_validation_error all_phases_with_status build_observed_phases
valid_result_phases spec_phases result (some verr) =
    invalid_phases_from_validation_error spec_phases verr
valid_result_phases spec_phases result none =
    if result.has_progressed
    then all_phases_with_status spec_phases superseded
    else build_observed_phases spec_phases result.phases

unfoldable pub observed_phases_from_reconcile_result :
    List Phase → Option RevisionResult → List ObservedPhase
unfolding valid_result_phases
observed_phases_from_reconcile_result spec_phases none = []
observed_phases_from_reconcile_result spec_phases (some result) =
    valid_result_phases spec_phases result result.validation_error

unfoldable pub tearing_down_phase : Phase → PhaseTeardownResult → Bool → ObservedPhase
unfolding object_status_from_ref
tearing_down_phase sp pr active = record {
  name = pr.name;
  status = if active then tearing_down else pending;
  completed_at = none;
  message = if active then "" else "Waiting for later phases to complete teardown";
  object_counts = record zero_counts { total = total_of sp; present = i64 (length pr.waiting) };
  object_details = map (λ ref. object_status_from_ref ref ("awaiting deletion" ∷ [])) pr.waiting;
}

unfoldable pub build_teardown_observed_phases :
    List Phase → List PhaseTeardownResult → String → List ObservedPhase
unfolding map_spec_phases tearing_down_phase
build_teardown_observed_phases spec_phases phase_results active_phase_name =
    map_spec_phases (λ (pr : PhaseTeardownResult). pr.name) (λ pr. pr.is_complete) teardown_complete
      "" (λ total. record zero_counts { total = total })
      (λ sp pr. tearing_down_phase sp pr (pr.name == active_phase_name)) spec_phases phase_results

unfoldable pub observed_phases_from_teardown_result :
    List Phase → Option RevisionTeardownResult → List ObservedPhase
unfolding build_teardown_observed_phases
observed_phases_from_teardown_result spec_phases none = []
observed_phases_from_teardown_result spec_phases (some result) =
    build_teardown_observed_phases spec_phases result.phases result.active_phase_name
