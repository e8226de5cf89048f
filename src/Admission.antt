-- ===== src/Admission.antt =====
-- What the API server asks of a revision's spec: the markers of api/v1alpha1/types.go and
-- types_clusterobjectset.go, and the policies of deploy/lib/api.libsonnet.
pub mod Patterns
pub mod Named
pub mod Created
pub mod Archived
pub mod Finalizers
use orb_operator.Base.{
  ℕ, ◌+◌, ◌≤◌, String, ◌<>◌, ◌≡◌, ◌⊎◌, Bool, true, Option, none, some, List, [], ◌∷◌, All, is_some,
  if◌then◌else◌, length,
}
use orb_operator.Api.{
  Assertion, ConditionEqualAssertion, FieldsEqualAssertion, FieldValueAssertion,
  CelExpressionAssertion, ObjectRef, ObjectKey, PhaseObject, Phase,
  ClusterObjectDeploymentTemplateSpec, ClusterObjectSetSpec, archived, LifecycleState,
}
use orb_operator.ApplyConfig.{ApplyConfig, SpecConfig, empty_spec}
use orb_operator.Status.Cos.Messages.{rune_count}
use orb_operator.Template.{decimal}
use orb_operator.Admission.Patterns.{
  is_label, is_domain_label, is_kind, is_object_name, is_subdomain, is_api_version,
}

-- `MinLength` and `MaxLength`, in characters.
abbrev pub HasLength : ℕ → ℕ → String → Type 0
HasLength least most s = (least ≤ rune_count s) × (rune_count s ≤ most)

abbrev pub IfSet : {A : Type 0} → (A → Type 0) → Option A → Type 0
IfSet Holds none = Unit
IfSet Holds (some a) = Holds a

abbrev IsConditionStatus : String → Type 0
IsConditionStatus s = (s ≡ "True") ⊎ ((s ≡ "False") ⊎ (s ≡ "Unknown"))

abbrev pub count_set : Bool → ℕ
count_set b = if b then 1 else 0

-- `ExactlyOneOf=conditionEqual;fieldsEqual;fieldValue;celExpression`, and the rules of each.
pub record IsAllowedAssertion (a : Assertion) : Type 0 where
  pub exactly_one :
      count_set (is_some a.condition_equal)
        + count_set (is_some a.fields_equal)
        + count_set (is_some a.field_value)
        + count_set (is_some a.cel_expression)
      ≡ 1
  pub condition_equal :
      IfSet
        (λ (c : ConditionEqualAssertion). HasLength 1 316 c.type × IsConditionStatus c.status)
        a.condition_equal
  pub fields_equal :
      IfSet
        (λ (f : FieldsEqualAssertion). HasLength 1 512 f.field_a × HasLength 1 512 f.field_b)
        a.fields_equal
  pub field_value :
      IfSet
        (λ (f : FieldValueAssertion). HasLength 1 512 f.field_path × HasLength 0 1024 f.value)
        a.field_value
  pub cel_expression :
      IfSet
        (λ (e : CelExpressionAssertion). HasLength 1 4096 e.expression × HasLength 0 1024 e.message)
        a.cel_expression

pub record IsAllowedKey (k : ObjectKey) : Type 0 where
  pub api_version : HasLength 1 253 k.api_version × (is_api_version k.api_version ≡ true)
  pub kind : HasLength 1 63 k.kind × (is_kind k.kind ≡ true)
  pub name : HasLength 1 253 k.name × (is_object_name k.name ≡ true)
  pub namespace :
      HasLength 0 63 k.namespace × ((k.namespace ≡ "") ⊎ (is_domain_label k.namespace ≡ true))

pub record IsAllowedRef (r : ObjectRef) : Type 0 where
  pub slice_name : HasLength 1 253 r.slice_name × (is_subdomain r.slice_name ≡ true)
  pub object_key : IsAllowedKey r.object_key

abbrev is_given : List ℕ → Bool
is_given [] = Bool.false
is_given (_ ∷ _) = Bool.true

pub record IsAllowedObject (o : PhaseObject) : Type 0 where
  pub exactly_one : count_set (is_given o.object) + count_set (is_some o.object_ref) ≡ 1
  pub object_ref : IfSet IsAllowedRef o.object_ref
  pub assertions : (length o.assertions ≤ 16) × All IsAllowedAssertion o.assertions

pub record IsAllowedPhase (p : Phase) : Type 0 where
  pub name : HasLength 1 63 p.name × (is_label p.name ≡ true)
  pub objects : (1 ≤ length p.objects) × (length p.objects ≤ 50) × All IsAllowedObject p.objects

pub record IsAllowedTemplate (t : ClusterObjectDeploymentTemplateSpec) : Type 0 where
  pub phases : (1 ≤ length t.phases) × (length t.phases ≤ 20) × All IsAllowedPhase t.phases

abbrev pub template_of : ClusterObjectSetSpec → ClusterObjectDeploymentTemplateSpec
template_of spec = record { collision_protection = spec.collision_protection; phases = spec.phases }

-- A revision's own rules, with those of the template that it embeds.
pub record IsAllowedSpec (spec : ClusterObjectSetSpec) : Type 0 where
  pub group : HasLength 1 52 spec.group × (is_label spec.group ≡ true)
  pub revision : 1 ≤ spec.revision
  pub template : IsAllowedTemplate (template_of spec)

-- The rules on an update of a spec.
pub record IsAllowedUpdate (old new : ClusterObjectSetSpec) : Type 0 where
  pub group : new.group ≡ old.group
  pub revision : new.revision ≡ old.revision
  pub phases : new.phases ≡ old.phases
  pub collision_protection : new.collision_protection ≡ old.collision_protection
  pub lifecycle_state : old.lifecycle_state ≡ archived → new.lifecycle_state ≡ archived

-- The policy on the names of new revisions: `{group}-{revision}`.
abbrev pub IsNamedByRevision : String → ClusterObjectSetSpec → Type 0
IsNamedByRevision name spec = name ≡ (spec.group <> "-" <> decimal spec.revision)

spec_from :
    Option String
    → Option ℕ
    → Option LifecycleState
    → Option ClusterObjectDeploymentTemplateSpec
    → Option ClusterObjectSetSpec
spec_from (some group) (some revision) (some state) (some template) = some (record {
  group = group;
  revision = revision;
  lifecycle_state = state;
  collision_protection = template.collision_protection;
  phases = template.phases;
})
spec_from _ _ _ _ = none

-- The spec that a configuration of a new revision has, if it sets all required fields.
unfoldable pub created_spec : ApplyConfig → Option ClusterObjectSetSpec
unfolding spec_from
created_spec ac = elim ac.spec [
  | none ↦ none
  | some s ↦ spec_from s.group s.revision s.lifecycle_state s.template_spec
]

-- The creation of a revision is admitted.
abbrev pub IsAdmitted : ApplyConfig → Type 0
IsAdmitted ac =
    (spec : ClusterObjectSetSpec) × (created_spec ac ≡ some spec)
    × IsAllowedSpec spec
    × IsNamedByRevision ac.name spec

-- A spec after a manager, which owned the fields of the first configuration, applies the second one:
-- `none` where the API server refuses the result.
abbrev pub ServerSideApply : Type 0
ServerSideApply = ApplyConfig → ClusterObjectSetSpec → ApplyConfig → Option ClusterObjectSetSpec

abbrev pub spec_fields : ApplyConfig → SpecConfig
spec_fields ac = elim ac.spec [ none ↦ empty_spec | some s ↦ s ]

-- A field that was owned is sent.
abbrev pub IsSent : {A : Type 0} → Option A → Option A → Type 0
IsSent none sent = Unit
IsSent (some _) sent = is_some sent ≡ true

pub record AreSent (owned sent : SpecConfig) : Type 0 where
  pub group : IsSent owned.group sent.group
  pub revision : IsSent owned.revision sent.revision
  pub lifecycle_state : IsSent owned.lifecycle_state sent.lifecycle_state
  pub template_spec : IsSent owned.template_spec sent.template_spec

abbrev pub get_or {ℓ} : {A : Type ℓ} → Option A → A → A
get_or none a = a
get_or (some b) a = b

-- The spec with the values of the fields that are sent.
abbrev pub with_fields : ClusterObjectSetSpec → SpecConfig → ClusterObjectSetSpec
with_fields spec sent =
    let template = get_or sent.template_spec (template_of spec) in
    record {
      group = get_or sent.group spec.group;
      revision = get_or sent.revision spec.revision;
      lifecycle_state = get_or sent.lifecycle_state spec.lifecycle_state;
      collision_protection = template.collision_protection;
      phases = template.phases;
    }

-- What is documented of a forced apply: the fields that are sent get their values, and others stay
-- as long as the manager still sends all that it owned. Nothing is said of an apply that leaves out
-- a field that its manager owned, as that field may be removed.
abbrev pub SetsSentFields : ServerSideApply → Type 0
SetsSentFields server_apply =
    (owned : ApplyConfig) (spec : ClusterObjectSetSpec) (sent : ApplyConfig)
    → AreSent (spec_fields owned) (spec_fields sent)
    → server_apply owned spec sent ≡ some (with_fields spec (spec_fields sent))
