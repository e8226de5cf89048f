-- ===== src/Admission/Created.antt =====
-- Which deployments can have revisions.
use orb_operator.Base.{
  ℕ, ◌≤◌, String, ◌≡◌, ◌↔◌, refl, ap, sym, ◌∙◌, true, Option, none, some, List, arith, subst,
}
use orb_operator.Errors.{ok}
use orb_operator.Errors.Steps.{of_bind, ok-injective}
use orb_operator.Api.{
  ClusterObjectDeployment, ClusterObjectDeploymentTemplateSpec, ClusterObjectSetSpec, active,
}
use orb_operator.ApplyConfig.{ApplyConfig}
use orb_operator.Status.Cos.Messages.{rune_count}
use orb_operator.Template.{Codec, build_cos, revision_name}
use orb_operator.Admission.{IsAdmitted, IsAllowedTemplate, created_spec}
use orb_operator.Admission.Patterns.{is_label}

-- `json.Unmarshal` reads back what `json.Marshal` writes of this spec.
abbrev pub ReadsBack : Codec → ClusterObjectDeploymentTemplateSpec → Type 0
ReadsBack c t = (json : List ℕ) → c.marshal_spec t ≡ ok json → c.unmarshal_spec json ≡ ok t

-- The spec of revision `n` of a deployment.
abbrev pub spec_of_revision : ClusterObjectDeployment → ℕ → ClusterObjectSetSpec
spec_of_revision cod n = record {
  group = cod.metadata.name;
  revision = n;
  lifecycle_state = active;
  collision_protection = cod.spec.template.spec.collision_protection;
  phases = cod.spec.template.spec.phases;
}

abbrev IsBuilt : ClusterObjectDeployment → ℕ → ApplyConfig → Type 0
IsBuilt cod n ac =
    (created_spec ac ≡ some (spec_of_revision cod n)) × (ac.name ≡ revision_name cod n)

build_cos-IsBuilt :
    (c : Codec) (cod : ClusterObjectDeployment)
    → ReadsBack c cod.spec.template.spec
    → (n : ℕ) (v : String) (ac : ApplyConfig) → build_cos c cod n v ≡ ok ac
    → IsBuilt cod n ac
unfolding build_cos created_spec
build_cos-IsBuilt c cod back n v ac e =
    let (json, e1, f) = of_bind (c.marshal_spec cod.spec.template.spec) _ ac e in
    let (spec, e2, g) = of_bind (c.unmarshal_spec json) _ ac f in
    let same = ok-injective _ _ (sym (back json e1) ∙ e2) in
    subst (IsBuilt cod n) (ok-injective _ ac g) (
      ap
          (λ (t : ClusterObjectDeploymentTemplateSpec). some (record (spec_of_revision cod n) {
            collision_protection = t.collision_protection;
            phases = t.phases;
          }))
          (sym same),
      refl,
    )

abbrev group_in : Option ClusterObjectSetSpec → String
group_in none = ""
group_in (some spec) = spec.group

label-ne-empty : (s : String) → is_label s ≡ true → 1 ≤ rune_count s
unfolding is_label rune_count
label-ne-empty String.[] h = absurd (cc h)
label-ne-empty (String.◌∷◌ c s) h = omega arith

-- A revision that is built for a deployment, from number 1 on, where its template meets the rules
-- and JSON reads back the template's spec, is admitted exactly when the deployment's name is a
-- lower-case label of at most 52 characters.
pub build_cos-IsAdmitted :
    (c : Codec) (cod : ClusterObjectDeployment) (n : ℕ) (v : String) (ac : ApplyConfig)
    → ReadsBack c cod.spec.template.spec
    → IsAllowedTemplate cod.spec.template.spec
    → 1 ≤ n
    → build_cos c cod n v ≡ ok ac
    → IsAdmitted ac ↔ ((is_label cod.metadata.name ≡ true) × (rune_count cod.metadata.name ≤ 52))
unfolding revision_name
build_cos-IsAdmitted c cod n v ac back allowed h e =
    let (spec, name) = build_cos-IsBuilt c cod back n v ac e in
    (
      (λ a.
          let group = ap group_in (sym spec ∙ a.1) in
          (
            ap is_label group ∙ a.2.group.1,
            subst (λ s. rune_count s ≤ 52) (sym group) a.2.group.0.1,
          )),
      (λ l. (
        spec_of_revision cod n,
        spec,
        record {
          group = ((label-ne-empty cod.metadata.name l.0, l.1), l.0);
          revision = h;
          template = allowed;
        },
        name,
      )),
    )
