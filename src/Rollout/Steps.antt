-- ===== src/Rollout/Steps.antt =====
-- `buildSteps` of examples/gated-rollout/main.go.
use orb_operator.Base.{
  String, Bool, true, false, ◌&&◌, Option, none, some, List, [], ◌∷◌, String_eq, ◌==◌, nat_eq,
}
use orb_operator.Api.{
  ClusterObjectSet, PhaseStatus, waiting_for_assertions, reason_available, is_available_status,
  condition_type_available,
}
use orb_operator.Rollout.{Step, Shown, create_v1, update_v2, patch}
use orb_operator.Rollout.Objects.{phase_status, condition_info}

abbrev is_waiting_status : PhaseStatus → Bool
is_waiting_status waiting_for_assertions = true
is_waiting_status _ = false

abbrev holds_of {ℓ} : {A : Type ℓ} → (A → Bool) → Option A → Bool
holds_of test none = false
holds_of test (some a) = test a

-- A `waitFor` that is false while there is no revision.
abbrev on_cos : (ClusterObjectSet → Bool) → Option (Shown → Bool)
on_cos test = some (λ s. holds_of test s.cos)

unfoldable pub phase_waits : String → ClusterObjectSet → Bool
unfolding phase_status
phase_waits name cos = holds_of is_waiting_status (phase_status cos name)

unfoldable pub phase_is_available : String → ClusterObjectSet → Bool
unfolding phase_status
phase_is_available name cos = holds_of is_available_status (phase_status cos name)

unfoldable pub cos_is_available : ClusterObjectSet → Bool
unfolding condition_info
cos_is_available cos =
    let (_, reason) = condition_info cos.status.conditions condition_type_available in
    reason == reason_available

abbrev open_gate : String → String → Step
open_gate description name = record {
  description = description;
  action = patch name "gate" "open";
  wait_for = none;
  wait_msg = "";
}

unfoldable pub build_steps : List Step
unfolding phase_waits phase_is_available cos_is_available
build_steps =
    record {
      description = "Create COD v1 (3 phases, 7 gated objects, progressDeadlineMinutes=1)";
      action = create_v1;
      wait_for = on_cos (phase_waits "phase-1");
      wait_msg = "Waiting for phase-1 = WaitingForAssertions...";
    }
    ∷ open_gate "Open gate: cm-p1-o1" "cm-p1-o1"
    ∷ record (open_gate "Open gate: cm-p1-o2" "cm-p1-o2") {
      wait_for = on_cos (phase_is_available "phase-1");
      wait_msg = "Waiting for phase-1 = Available...";
    }
    ∷ open_gate "Open gate: cm-p2-o1" "cm-p2-o1"
    ∷ record (open_gate "Open gate: cm-p2-o2" "cm-p2-o2") {
      wait_for = on_cos (phase_is_available "phase-2");
      wait_msg = "Waiting for phase-2 = Available...";
    }
    ∷ open_gate "Open gate: cm-p3-o1" "cm-p3-o1"
    ∷ open_gate "Open gate: cm-p3-o2" "cm-p3-o2"
    ∷ record (open_gate "Open gate: cm-p3-o3" "cm-p3-o3") {
      wait_for = on_cos cos_is_available;
      wait_msg = "Waiting for COS Available = True...";
    }
    ∷ record {
      description =
          "Apply upgrade (COD v2): phase-1 content+gate change, phase-2 unchanged, phase-3 mixed";
      action = update_v2;
      wait_for = on_cos (λ cos. nat_eq cos.spec.revision 2 && phase_waits "phase-1" cos);
      wait_msg = "Waiting for rev 2 phase-1 = WaitingForAssertions...";
    }
    ∷ record {
      description = "Open gate: cm-p1-o1 (v2-open)";
      action = patch "cm-p1-o1" "gate" "v2-open";
      wait_for = none;
      wait_msg = "";
    }
    ∷ record {
      description = "Open gate: cm-p1-o2 (v2-open)";
      action = patch "cm-p1-o2" "gate" "v2-open";
      wait_for = on_cos (phase_is_available "phase-1");
      wait_msg = "Waiting for phase-1 = Available...";
    }
    ∷ record {
      description = "Open gate: cm-p3-o1 (v2-open)";
      action = patch "cm-p3-o1" "gate" "v2-open";
      wait_for = none;
      wait_msg = "";
    }
    ∷ record {
      description = "Satisfy assertion: cm-p3-o3 (upgrade=done)";
      action = patch "cm-p3-o3" "upgrade" "done";
      wait_for = on_cos cos_is_available;
      wait_msg = "Waiting for COS Available = True...";
    }
    ∷ []
