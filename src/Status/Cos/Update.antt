-- ===== src/Status/Cos/Update.antt =====
-- `Update`, `Apply`, `FromReconcile` and `FromTeardown`.
pub mod Laws
pub mod Allowed
use orb_operator.Base.{
  ℕ, ◌+◌, String, ◌<>◌, Bool, true, false, not, Option, none, some, List, [], ◌∷◌, ◌==◌, String_eq,
  is_some, if◌then◌else◌,
}
use orb_operator.Base.Int.{i64}
use orb_operator.Errors.{Error, message, errors_as, resolution, internal}
use orb_operator.Api.{
  Time, Condition, ConditionStatus, condition_true, condition_false, condition_unknown,
  ObjectCounts, zero_counts, ObservedPhase, ClusterObjectSet, condition_type_available,
  reason_available, reason_unavailable, reason_archived, reason_superseded, reason_invalid_revision,
  reason_internal_error, reason_reconcile_error, reason_teardown_error,
}
use orb_operator.Boxcutter.{RevisionValidationError, RevisionResult, RevisionTeardownResult}
use orb_operator.Kube.{ConditionApi}
use orb_operator.Status.Cos.Phases.{
  observed_phases_from_reconcile_result, observed_phases_from_teardown_result,
}
use orb_operator.Status.Cos.Completion.{preserve_completion_times}

pub record Update : Type 0 where
  pub condition : Condition
  pub observed_phases : Option (List ObservedPhase)
  pub completed_at : Option Time

add_counts : ObjectCounts → ObjectCounts → ObjectCounts
add_counts a b = record {
  total = i64 (a.total + b.total);
  present = i64 (a.present + b.present);
  synced = i64 (a.synced + b.synced);
  available = i64 (a.available + b.available);
}

-- The loop of `sumObjectCounts`.
unfoldable pub sum_from : ObjectCounts → List ObservedPhase → ObjectCounts
unfolding add_counts
sum_from counts [] = counts
sum_from counts (p ∷ ps) = sum_from (add_counts counts p.object_counts) ps

unfoldable pub sum_object_counts : List ObservedPhase → Option ObjectCounts
unfolding sum_from
sum_object_counts [] = none
sum_object_counts (p ∷ ps) = some (sum_from zero_counts (p ∷ ps))

abbrev pub replaced {ℓ} : {A : Type ℓ} → Option A → A → A
replaced none old = old
replaced (some new) old = new

-- `if u.CompletedAt != nil && cos.Status.CompletedAt == nil`
abbrev pub set_once {ℓ} : {A : Type ℓ} → Option A → Option A → Option A
set_once new (some old) = some old
set_once new none = new

unfoldable pub apply : ConditionApi → ClusterObjectSet → Update → ClusterObjectSet
unfolding sum_object_counts
apply api cos u =
    let phases = replaced u.observed_phases cos.status.observed_phases in
    record cos {
      status = record {
        conditions =
            api.set_status_condition cos.status.conditions
              (record u.condition { observed_generation = cos.metadata.generation });
        resolved_content_hash = cos.status.resolved_content_hash;
        completed_at = set_once u.completed_at cos.status.completed_at;
        object_counts = sum_object_counts phases;
        observed_phases = phases;
      };
    }

unfoldable pub new_condition : ConditionStatus → String → String → Condition
new_condition status reason message = record {
  type = condition_type_available;
  status = status;
  observed_generation = 0;
  reason = reason;
  message = message;
}

unfoldable pub resolution_error_update : String → Error → Update
unfolding new_condition
resolution_error_update existing_hash err = record {
  condition =
      new_condition (if existing_hash == "" then condition_false else condition_unknown)
        reason_invalid_revision (message err);
  observed_phases = none;
  completed_at = none;
}

unfoldable pub internal_error_update : Error → Update
unfolding new_condition
internal_error_update err = record {
  condition = new_condition condition_unknown reason_internal_error (message err);
  observed_phases = some [];
  completed_at = none;
}

-- The part of `FromReconcile` after the error is handled.
result_update : List ObservedPhase → RevisionResult → Option RevisionValidationError → Time → Update
unfolding new_condition
result_update phases result (some verr) now = record {
  condition = new_condition condition_false reason_invalid_revision verr.error;
  observed_phases = some phases;
  completed_at = none;
}
result_update phases result none now =
    if result.has_progressed
    then record {
      condition =
          new_condition condition_false reason_superseded "all objects adopted by a newer revision";
      observed_phases = some phases;
      completed_at = none;
    }
    else if result.is_complete
    then record {
      condition = new_condition condition_true reason_available "all phases complete";
      observed_phases = some phases;
      completed_at = some now;
    }
    else record {
      condition = new_condition condition_false reason_unavailable "phases not yet complete";
      observed_phases = some phases;
      completed_at = none;
    }

-- `result` is a nil pointer where there is neither an error nor a result: `none` is that panic.
reconcile_update : List ObservedPhase → Option RevisionResult → Option Error → Time → Option Update
unfolding result_update
reconcile_update phases result (some err) now = some (record {
  condition =
      new_condition condition_unknown reason_reconcile_error ("reconcile failed: " <> message err);
  observed_phases = some phases;
  completed_at = none;
})
reconcile_update phases none none now = none
reconcile_update phases (some result) none now =
    some (result_update phases result result.validation_error now)

unfoldable pub from_reconcile :
    ClusterObjectSet → Option RevisionResult → Option Error → Time → Option Update
unfolding reconcile_update resolution_error_update internal_error_update
from_reconcile cos result none now =
    reconcile_update
      (preserve_completion_times cos.status.observed_phases
        (observed_phases_from_reconcile_result cos.spec.phases result) now)
      result none now
from_reconcile cos result (some err) now =
    if errors_as resolution err
    then some (resolution_error_update cos.status.resolved_content_hash err)
    else if errors_as internal err
    then some (internal_error_update err)
    else reconcile_update
        (preserve_completion_times cos.status.observed_phases
          (observed_phases_from_reconcile_result cos.spec.phases result) now)
        result (some err) now

-- The `switch` at the end of `FromTeardown`.
unfoldable teardown_condition : Option RevisionTeardownResult → Option Error → Condition
unfolding new_condition
teardown_condition result (some err) =
    new_condition condition_unknown reason_teardown_error ("teardown failed: " <> message err)
teardown_condition none none = new_condition condition_false reason_archived "teardown complete"
teardown_condition (some result) none =
    if not result.is_complete
    then new_condition condition_false reason_archived "teardown in progress"
    else new_condition condition_false reason_archived "teardown complete"

unfoldable teardown_update :
    ClusterObjectSet → Option RevisionTeardownResult → Option Error → Time → Update
unfolding teardown_condition
teardown_update cos result err now = record {
  condition = teardown_condition result err;
  observed_phases = some (
      preserve_completion_times cos.status.observed_phases
        (observed_phases_from_teardown_result cos.spec.phases result) now);
  completed_at = none;
}

unfoldable pub from_teardown :
    ClusterObjectSet → Option RevisionTeardownResult → Option Error → Time → Update
unfolding teardown_update resolution_error_update internal_error_update
from_teardown cos result none now = teardown_update cos result none now
from_teardown cos result (some err) now =
    if errors_as resolution err
    then resolution_error_update cos.status.resolved_content_hash err
    else if errors_as internal err
    then internal_error_update err
    else teardown_update cos result (some err) now
