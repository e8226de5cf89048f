-- ===== src/Tests/Cos.antt =====
-- Runs of the status of a revision.
use orb_operator.Base.{count_if}
use orb_operator.Base.Int.{i64}
use orb_operator.Status.Cos.Mapping.{total_of}
use orb_operator.Tests.Fixtures.{spec_phase}
use orb_operator.Status.Cos.Incomplete.{is_synced, incomplete_phase, is_present}
use orb_operator.Status.Cos.Incomplete.Counts.{is_object_complete, status_of, incomplete_phase_lem}
use orb_operator.Base.{String, true, false, none, some, [], ◌∷◌, ◌≡◌, refl, ◌≢◌, ◌<◌}
use orb_operator.Tests.Fixtures.{conditions, conditions-SetsByType, cos, phase}
use orb_operator.Api.{available, active, condition_type_available, ClusterObjectSet, condition_true}
use orb_operator.Api.Rules.{ArePhasesSetOnce}
use orb_operator.Boxcutter.{
  PhaseResult, RevisionResult, ObjectResult, BoxRef, created, updated, Comparison, Action,
}
use orb_operator.Status.Cos.Update.{Update, from_reconcile, apply}
use orb_operator.Status.Cos.Update.Laws.{
  is_success, completed_after, apply-from_reconcile_available,
  apply-from_reconcile-ArePhasesSetOnce,
}
use orb_operator.Status.Cos.Messages.{
  rune_count, paused_object_messages, compare_details, join_lines,
}
use orb_operator.Status.Cos.Completion.{preserve_completion_times}
use orb_operator.Status.Cos.Phases.{observed_phases_from_reconcile_result}
use orb_operator.Status.Cos.Messages.Bounds.{paused_object_messages-length}

abbrev crds_done : PhaseResult
crds_done = record { name = "crds"; is_complete = true; validation_error = none; objects = [] }

abbrev config_map : BoxRef
config_map = record { group = ""; version = "v1"; kind = "ConfigMap"; namespace = "a"; name = "b" }

abbrev new_object : ObjectResult
new_object = record {
  object = config_map;
  action = created;
  is_paused = false;
  is_complete = false;
  probe_results = [];
  compare_result = none;
}

abbrev changes : Comparison
changes = record {
  added = none;
  modified = some (record { empty = false; leaves = ".data.k" ∷ [] });
  removed = none;
}

abbrev changed_object : ObjectResult
changed_object = record new_object { action = updated; compare_result = some (some changes) }

abbrev deploy_going : PhaseResult
deploy_going = record {
  name = "deploy";
  is_complete = false;
  validation_error = none;
  objects = new_object ∷ [];
}

abbrev going : RevisionResult
going = record {
  validation_error = none;
  phases = crds_done ∷ deploy_going ∷ [];
  in_transition = true;
  is_complete = false;
  has_progressed = false;
}

abbrev done : RevisionResult
done = record going {
  phases = crds_done ∷ record deploy_going { is_complete = true } ∷ [];
  in_transition = false;
  is_complete = true;
}

abbrev one : ClusterObjectSet
one = cos "app-1" 1 active []

abbrev complete_update : Update
complete_update = record {
  condition = record {
    type = "Available";
    status = condition_true;
    observed_generation = 0;
    reason = "Available";
    message = "all phases complete";
  };
  observed_phases =
      some (phase "crds" available (some 20) ∷ phase "deploy" available (some 30) ∷ []);
  completed_at = some 30;
}

from_reconcile-done : from_reconcile one (some done) none 30 ≡ some complete_update
unfolding from_reconcile preserve_completion_times observed_phases_from_reconcile_result
from_reconcile-done = refl

apply-from_reconcile_available_example :
    (conditions.is_status_condition_true
        (apply conditions one complete_update).status.conditions
        condition_type_available
      ≡ is_success (some done) none)
    × ((apply conditions one complete_update).status.completed_at
        ≡ completed_after (is_success (some done) none) 30 one.status.completed_at)
apply-from_reconcile_available_example =
    apply-from_reconcile_available conditions one (some done) none 30 complete_update
      conditions-SetsByType from_reconcile-done

crds≢deploy : ◌≢◌ {A = String} "crds" "deploy"
crds≢deploy e = absurd (cc e)

apply-from_reconcile-ArePhasesSetOnce_example :
    ArePhasesSetOnce one.status.observed_phases
      (apply conditions one complete_update).status.observed_phases
apply-from_reconcile-ArePhasesSetOnce_example =
    apply-from_reconcile-ArePhasesSetOnce conditions one (some done) none 30 complete_update
      ((crds≢deploy, tt), (tt, tt)) from_reconcile-done

incomplete_phase_lem_example :
    ((incomplete_phase (spec_phase "deploy") deploy_going).object_counts ≡ record {
      total = total_of (spec_phase "deploy");
      present = i64 (count_if is_present deploy_going.objects);
      synced = i64 (count_if is_synced deploy_going.objects);
      available = i64 (count_if is_object_complete deploy_going.objects);
    })
    × ((incomplete_phase (spec_phase "deploy") deploy_going).status
        ≡ status_of (spec_phase "deploy") deploy_going.objects)
incomplete_phase_lem_example = incomplete_phase_lem (spec_phase "deploy") deploy_going refl

compare_details_changed : compare_details changed_object ≡ " - modified: .data.k" ∷ []
unfolding compare_details
compare_details_changed = refl

updated≢created : Action.updated ≢ created
updated≢created e = absurd (cc e)

paused_object_messages-length_example :
    (m : String) × (paused_object_messages changed_object ≡ m ∷ [])
    × (rune_count (join_lines (" - modified: .data.k" ∷ [])) < rune_count m)
paused_object_messages-length_example =
    paused_object_messages-length changed_object " - modified: .data.k" [] updated≢created
      compare_details_changed
