-- ===== src/Tests/Admission.antt =====
-- Runs of what is admitted.
use orb_operator.Api.{LifecycleState, ClusterObjectSetSpec}
use orb_operator.Admission.{
  ServerSideApply, SetsSentFields, IsSent, get_or, spec_fields, template_of,
}
use orb_operator.Base.{
  ℕ, String, ◌≡◌, ◌≤◌, ◌↔◌, refl, subst, true, ap, Option, none, some, [], ◌∷◌, arith,
}
use orb_operator.Errors.{ok, err}
use orb_operator.Errors.Steps.{ok-injective}
use orb_operator.Api.{ClusterObjectDeployment, ClusterObjectDeploymentTemplateSpec, PhaseObject}
use orb_operator.ApplyConfig.{ApplyConfig, SpecConfig, cluster_object_set, empty_spec}
use orb_operator.Status.Cos.Messages.{rune_count}
use orb_operator.Template.{Codec, revision_name, build_cos}
use orb_operator.Admission.{IsAdmitted, IsAllowedTemplate}
use orb_operator.Admission.Patterns.{is_label}
use orb_operator.Admission.Named.{revision_name-IsLabel}
use orb_operator.Admission.Created.{build_cos-IsAdmitted}
use orb_operator.Admission.Archived.{
  IsAllowedArchiving, archive_superseded-IsAllowed, AreOwnFields, AreKept, ExtractsOwnFields,
}
use orb_operator.Controller.Server.Effects.{Adds}
use orb_operator.Controller.Apply.{Extract}
use orb_operator.Controller.Cod.Env.{Env, but_last}
use orb_operator.Controller.Cod.Handler.{archive_superseded}
use orb_operator.Controller.Cod.Reconcile.{reconcile}
use orb_operator.Controller.Cod.Protocol.{Completes}
use orb_operator.Controller.Cod.Protocol.Ordered.{reconcile-Completes}
use orb_operator.Tests.Fixtures.{cod, spec_phase}
use orb_operator.Tests.Cod.{app, codec, env, superseded, ready}
use orb_operator.Base.{String}
use orb_operator.Base.{ℕ}

app-IsLabel : is_label "app" ≡ true
unfolding is_label
app-IsLabel = refl

app-count : rune_count "app" ≤ 52
unfolding rune_count
app-count = omega arith

revision_name-IsLabel_example :
    (is_label (revision_name (cod none none) 4294967295) ≡ true)
    × (rune_count (revision_name (cod none none) 4294967295) ≤ 63)
revision_name-IsLabel_example =
    revision_name-IsLabel (cod none none) 4294967295 app-IsLabel app-count (omega arith)

abbrev inline_object : PhaseObject
inline_object = record {
  object = 123 ∷ 125 ∷ [];
  object_ref = none;
  collision_protection = none;
  assertions = [];
}

abbrev one_phase : ClusterObjectDeploymentTemplateSpec
one_phase = record {
  collision_protection = none;
  phases = record (spec_phase "deploy") { objects = inline_object ∷ [] } ∷ [];
}

abbrev deployment : ClusterObjectDeployment
deployment =
    let d = cod none none in
    record d { spec = record d.spec { template = record d.spec.template { spec = one_phase } } }

one_phase-IsAllowed : IsAllowedTemplate one_phase
unfolding is_label rune_count
one_phase-IsAllowed = record {
  phases = (
    omega arith,
    omega arith,
    (
      record {
        name = ((omega arith, omega arith), refl);
        objects = (
          omega arith,
          omega arith,
          (record { exactly_one = refl; object_ref = tt; assertions = (omega arith, tt) }, tt),
        );
      },
      tt,
    ),
  );
}

abbrev reading : Codec
reading = record codec { unmarshal_spec = λ b. ok one_phase }

abbrev built : ApplyConfig
built = elim (build_cos reading deployment 1 "0a") [ ok ac ↦ ac | err e ↦ cluster_object_set "" ]

build_cos-built : build_cos reading deployment 1 "0a" ≡ ok built
unfolding build_cos
build_cos-built = refl

build_cos-IsAdmitted_example :
    IsAdmitted built ↔ ((is_label "app" ≡ true) × (rune_count "app" ≤ 52))
build_cos-IsAdmitted_example =
    build_cos-IsAdmitted reading deployment 1 "0a" built (λ json e. refl) one_phase-IsAllowed
      (omega arith) build_cos-built

-- The fields of a revision that its controller set.
abbrev own_fields : Extract
own_fields c owner = ok (record (cluster_object_set c.metadata.name) {
  spec = some (record empty_spec { group = some c.spec.group; revision = some c.spec.revision });
})

abbrev fields_of : Option SpecConfig → SpecConfig
fields_of none = empty_spec
fields_of (some s) = s

own_fields-extracts : ExtractsOwnFields own_fields
unfolding cluster_object_set
own_fields-extracts c owner ac e = subst (AreOwnFields c) (ok-injective _ ac e) (
  refl,
  λ s q.
      subst (AreKept c.spec) (ap fields_of q)
        (record { group = refl; revision = refl; template_spec = tt }),
)

abbrev extracting : Env
extracting = record env { extract = own_fields }

-- Server-side apply to a revision of which no other manager owns a field: one that is no longer sent
-- is removed, which the API server refuses, as all are required.
abbrev applied_field {ℓ} : {A : Type ℓ} → Option A → Option A → A → Option A
applied_field owned (some sent) old = some sent
applied_field (some _) none old = none
applied_field none none old = some old

abbrev assembled :
    Option String
    → Option ℕ
    → Option LifecycleState
    → Option ClusterObjectDeploymentTemplateSpec
    → Option ClusterObjectSetSpec
assembled (some group) (some revision) (some state) (some template) = some (record {
  group = group;
  revision = revision;
  lifecycle_state = state;
  collision_protection = template.collision_protection;
  phases = template.phases;
})
assembled _ _ _ _ = none

abbrev server_apply : ServerSideApply
server_apply owned spec ac =
    let own = spec_fields owned in
    let sent = spec_fields ac in
    assembled (applied_field own.group sent.group spec.group)
      (applied_field own.revision sent.revision spec.revision)
      (applied_field own.lifecycle_state sent.lifecycle_state spec.lifecycle_state)
      (applied_field own.template_spec sent.template_spec (template_of spec))

applied_field-IsSent :
    {A : Type 0} (owned sent : Option A) (old : A)
    → IsSent owned sent
    → applied_field owned sent old ≡ some (get_or sent old)
applied_field-IsSent owned (some b) old h = refl
applied_field-IsSent (some a) none old h = absurd (cc h)
applied_field-IsSent none none old h = refl

server_apply-SetsSentFields : SetsSentFields server_apply
server_apply-SetsSentFields owned spec ac sent =
    let own = spec_fields owned in
    let new = spec_fields ac in
    rw
      (
        applied_field-IsSent own.group new.group spec.group sent.group,
        applied_field-IsSent own.revision new.revision spec.revision sent.revision,
        applied_field-IsSent own.lifecycle_state new.lifecycle_state spec.lifecycle_state
            sent.lifecycle_state,
        applied_field-IsSent own.template_spec new.template_spec (template_of spec)
            sent.template_spec,
      )
      refl

archive_superseded-IsAllowed_example :
    Adds
      (IsAllowedArchiving server_apply own_fields (but_last (superseded ∷ ready ∷ [])))
      []
      (archive_superseded extracting (superseded ∷ ready ∷ []) []).1
archive_superseded-IsAllowed_example =
    archive_superseded-IsAllowed extracting server_apply (superseded ∷ ready ∷ []) []
      own_fields-extracts server_apply-SetsSentFields

-- The server lists two revisions, the newest first, and takes every call.
abbrev listing : Env
listing = record extracting {
  server = λ h call. none;
  list_group = λ h group. ok (ready ∷ superseded ∷ []);
}

reconcile-Completes_example : Completes listing app server_apply [] (reconcile listing "app" []).1
reconcile-Completes_example =
    reconcile-Completes listing server_apply "app" [] app own_fields-extracts
      server_apply-SetsSentFields refl refl
