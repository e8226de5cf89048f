-- ===== src/Status/Cod/Progress.antt =====
-- internal/status/cod/progress.go. Durations are `int64` nanoseconds.
pub mod Deadline
use orb_operator.Base.{ℕ, Bool, true, false, Option, none, some, List, [], ◌∷◌, ltb, if◌then◌else◌}
use orb_operator.Base.Int.{ℤ, pos, sub_ℕ, ◌-ℤ◌, ◌*ℤ◌, leb_ℤ, wrap64, sat64}
use orb_operator.Api.{
  Time, Condition, condition_true, condition_false, ObservedPhase, ClusterObjectSet,
  ClusterObjectDeployment, condition_type_progressing, reason_no_active_revisions,
  reason_new_cluster_object_set_progressed, reason_new_cluster_object_set_progressing,
  reason_progress_deadline_exceeded,
}
use orb_operator.Kube.{CtrlResult, no_requeue}

unfoldable pub later_of : Time → Option Time → Time
later_of last none = last
later_of last (some t) = if ltb last t then t else last

-- The loop over the observed phases.
unfoldable pub last_milestone_from : Time → List ObservedPhase → Time
unfolding later_of
last_milestone_from last [] = last
last_milestone_from last (p ∷ ps) = last_milestone_from (later_of last p.completed_at) ps

unfoldable pub last_milestone : ClusterObjectSet → Time
unfolding last_milestone_from
last_milestone cos = last_milestone_from cos.metadata.creation_timestamp cos.status.observed_phases

unfoldable pub deadline_of : ℕ → ℤ → ℤ
deadline_of minutes deadline_unit = wrap64 (pos minutes *ℤ deadline_unit)

unfoldable pub elapsed_since : Time → Time → ℤ
elapsed_since last now = sat64 (sub_ℕ now last)

abbrev progressing_condition : ClusterObjectDeployment → Condition
progressing_condition cod = record {
  type = condition_type_progressing;
  status = condition_true;
  observed_generation = cod.metadata.generation;
  reason = reason_new_cluster_object_set_progressing;
  message = "latest revision is progressing";
}

-- From the test of the deadline on.
unfoldable evaluate_limit :
    ClusterObjectDeployment → Option ℕ → Time → Time → ℤ → Condition × CtrlResult
unfolding deadline_of elapsed_since
evaluate_limit cod none last now deadline_unit =
    (progressing_condition cod, record no_requeue { requeue_after = pos 0 })
evaluate_limit cod (some minutes) last now deadline_unit =
    let deadline = deadline_of minutes deadline_unit in
    let elapsed = elapsed_since last now in
    if leb_ℤ deadline elapsed
    then (
      record {
        type = condition_type_progressing;
        status = condition_false;
        observed_generation = cod.metadata.generation;
        reason = reason_progress_deadline_exceeded;
        message = "latest revision has not made progress within the deadline";
      },
      no_requeue,
    )
    else (
      progressing_condition cod,
      record no_requeue { requeue_after = wrap64 (deadline -ℤ elapsed) },
    )

unfoldable evaluate_latest :
    ClusterObjectDeployment → ClusterObjectSet → Option Time → Time → ℤ → Condition × CtrlResult
unfolding evaluate_limit last_milestone
evaluate_latest cod cos (some _) now deadline_unit = (
  record {
    type = condition_type_progressing;
    status = condition_true;
    observed_generation = cod.metadata.generation;
    reason = reason_new_cluster_object_set_progressed;
    message = "latest revision has progressed";
  },
  no_requeue,
)
evaluate_latest cod cos none now deadline_unit =
    evaluate_limit cod cod.spec.progress_deadline_minutes (last_milestone cos) now deadline_unit

unfoldable pub evaluate_deadline :
    ClusterObjectDeployment → Option ClusterObjectSet → Time → ℤ → Condition × CtrlResult
unfolding evaluate_latest
evaluate_deadline cod none now deadline_unit = (
  record {
    type = condition_type_progressing;
    status = condition_false;
    observed_generation = cod.metadata.generation;
    reason = reason_no_active_revisions;
    message = "no active revisions";
  },
  no_requeue,
)
evaluate_deadline cod (some cos) now deadline_unit =
    evaluate_latest cod cos cos.status.completed_at now deadline_unit
