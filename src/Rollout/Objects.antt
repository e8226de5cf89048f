-- ===== src/Rollout/Objects.antt =====
-- The deployments that the example creates, and how it reads their status: the builders and the
-- helpers of examples/gated-rollout/main.go. `json.Marshal` is a parameter.
use orb_operator.Base.{ℕ, String, Option, none, some, List, [], ◌∷◌, String_eq, ◌==◌, if◌then◌else◌}
use orb_operator.Api.{
  Condition, ConditionStatus, condition_true, condition_false, condition_unknown, PhaseObject,
  Phase, Assertion, ClusterObjectDeploymentSpec, ClusterObjectSet, ObservedPhase, PhaseStatus,
}

abbrev pub cod_name : String
cod_name = "gated-rollout"

abbrev pub namespace : String
namespace = "default"

abbrev pub gate_open : String
gate_open = "has(self.data) && has(self.data.gate) && self.data.gate == 'open'"

abbrev pub gate_v2 : String
gate_v2 = "has(self.data) && has(self.data.gate) && self.data.gate == 'v2-open'"

abbrev pub upgrade_check : String
upgrade_check = "has(self.data) && has(self.data.upgrade) && self.data.upgrade == 'done'"

-- The JSON text of the config map in the namespace with a name and one datum `foo`.
abbrev pub MarshalConfigMap : Type 0
MarshalConfigMap = String → String → List ℕ

abbrev cel : String → String → Assertion
cel expression message = record {
  condition_equal = none;
  fields_equal = none;
  field_value = none;
  cel_expression = some (record { expression = expression; message = message });
}

module _ (marshal : MarshalConfigMap) where
  unfoldable pub gated_cm_extra : String → String → String → String → String → PhaseObject
  gated_cm_extra name foo_value gate_expr extra_expr extra_msg = record {
    object = marshal name foo_value;
    object_ref = none;
    collision_protection = none;
    assertions =
        cel gate_expr "gate is not open"
        ∷ (if extra_expr == "" then [] else cel extra_expr extra_msg ∷ []);
  }

  unfoldable pub gated_cm : String → String → String → PhaseObject
  unfolding gated_cm_extra
  gated_cm name foo_value gate_expr = gated_cm_extra name foo_value gate_expr "" ""

  unfoldable pub new_phase : String → List PhaseObject → Phase
  new_phase name objects = record { name = name; collision_protection = none; objects = objects }

  spec_of : List Phase → ClusterObjectDeploymentSpec
  spec_of phases = record {
    revision_history_limit = none;
    progress_deadline_minutes = some 1;
    template = record {
      metadata = record { labels = []; annotations = [] };
      spec = record { collision_protection = none; phases = phases };
    };
  }

  unfoldable pub build_cod_v1 : ClusterObjectDeploymentSpec
  unfolding spec_of new_phase gated_cm
  build_cod_v1 = spec_of (
      new_phase "phase-1"
        (gated_cm "cm-p1-o1" "bar" gate_open ∷ gated_cm "cm-p1-o2" "bar" gate_open ∷ [])
      ∷ new_phase "phase-2"
          (gated_cm "cm-p2-o1" "bar" gate_open ∷ gated_cm "cm-p2-o2" "bar" gate_open ∷ [])
      ∷ new_phase "phase-3" (
          gated_cm "cm-p3-o1" "bar" gate_open
          ∷ gated_cm "cm-p3-o2" "bar" gate_open
          ∷ gated_cm "cm-p3-o3" "bar" gate_open
          ∷ [])
      ∷ [])

  unfoldable pub build_cod_v2 : ClusterObjectDeploymentSpec
  unfolding spec_of new_phase gated_cm gated_cm_extra
  build_cod_v2 = spec_of (
      new_phase "phase-1"
        (gated_cm "cm-p1-o1" "baz" gate_v2 ∷ gated_cm "cm-p1-o2" "baz" gate_v2 ∷ [])
      ∷ new_phase "phase-2"
          (gated_cm "cm-p2-o1" "bar" gate_open ∷ gated_cm "cm-p2-o2" "bar" gate_open ∷ [])
      ∷ new_phase "phase-3" (
          gated_cm "cm-p3-o1" "baz" gate_v2
          ∷ gated_cm "cm-p3-o2" "bar" gate_open
          ∷ gated_cm_extra "cm-p3-o3" "bar" gate_open upgrade_check "upgrade is not done"
          ∷ [])
      ∷ [])

find_condition : List Condition → String → Option Condition
find_condition [] type = none
find_condition (c ∷ cs) type = if c.type == type then some c else find_condition cs type

-- `string(cond.Status)`
abbrev status_text : ConditionStatus → String
status_text condition_true = "True"
status_text condition_false = "False"
status_text condition_unknown = "Unknown"

-- The status of a condition and its reason.
unfoldable pub condition_info : List Condition → String → String × String
unfolding find_condition
condition_info conditions type = elim (find_condition conditions type) [
  | none ↦ ("Unknown", "")
  | some c ↦ (status_text c.status, c.reason)
]

phase_status_in : List ObservedPhase → String → Option PhaseStatus
phase_status_in [] name = none
phase_status_in (op ∷ ops) name =
    if op.name == name then some op.status else phase_status_in ops name

-- `none` is the empty status of a phase that is not listed.
unfoldable pub phase_status : ClusterObjectSet → String → Option PhaseStatus
unfolding phase_status_in
phase_status cos name = phase_status_in cos.status.observed_phases name
