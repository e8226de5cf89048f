-- ===== src/Status/Cod/Availability.antt =====
-- internal/status/cod/availability.go
use orb_operator.Base.{ℕ, Bool, not, ◌||◌, Option, none, some, List, [], ◌∷◌, if◌then◌else◌}
use orb_operator.Api.{
  Condition, condition_true, condition_false, condition_unknown, ObjectCounts, ClusterObjectSet,
  ClusterObjectSetStatusSummary, condition_type_available, reason_available, reason_unavailable,
  reason_progressing, is_zero, is_archived_state,
}
use orb_operator.Kube.{ConditionApi}

module _ (api : ConditionApi) where
  unfoldable pub evaluate_availability : ℕ → List ClusterObjectSetStatusSummary → Condition
  evaluate_availability generation [] = record {
    type = condition_type_available;
    status = condition_false;
    observed_generation = generation;
    reason = reason_unavailable;
    message = "no active revisions";
  }
  evaluate_availability generation (summary ∷ []) =
      if api.is_status_condition_true summary.conditions condition_type_available
      then record {
        type = condition_type_available;
        status = condition_true;
        observed_generation = generation;
        reason = reason_available;
        message = "active revision is available";
      }
      else record {
        type = condition_type_available;
        status = condition_false;
        observed_generation = generation;
        reason = reason_unavailable;
        message = "active revision is not yet available";
      }
  evaluate_availability generation (a ∷ b ∷ more) = record {
    type = condition_type_available;
    status = condition_unknown;
    observed_generation = generation;
    reason = reason_progressing;
    message = "revision transition in progress";
  }

  unfoldable pub is_available : ClusterObjectSet → Bool
  is_available cos = api.is_status_condition_true cos.status.conditions condition_type_available

unfoldable pub active_revision_summaries :
    List ClusterObjectSet → List ClusterObjectSetStatusSummary
active_revision_summaries [] = []
active_revision_summaries (cos ∷ coss) =
    let rest = active_revision_summaries coss in
    if is_archived_state cos.spec.lifecycle_state || not (is_zero cos.metadata.deletion_timestamp)
    then rest
    else record { name = cos.metadata.name; conditions = cos.status.conditions } ∷ rest

unfoldable pub object_counts_from_cos : Option ClusterObjectSet → Option ObjectCounts
object_counts_from_cos none = none
object_counts_from_cos (some cos) = cos.status.object_counts
