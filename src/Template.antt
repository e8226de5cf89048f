-- ===== src/Template.antt =====
-- internal/template/template.go. `json.Marshal`, `json.Unmarshal` and SHA-256 are parameters.
pub mod Decimal
use orb_operator.Base.{
  ℕ, zero, suc, ◌/◌, ◌%◌, String, ◌<>◌, true, some, List, [], ◌∷◌, String_eq, insert, take, ltb,
  nat_eq, if◌then◌else◌,
}
use orb_operator.Errors.{wrap_step, Result, ok, err, ◌>>=◌}
use orb_operator.Api.{
  OwnerReference, ClusterObjectDeployment, ClusterObjectDeploymentTemplate, active,
  ClusterObjectDeploymentTemplateSpec,
}
use orb_operator.ApplyConfig.{
  ApplyConfig, empty_spec, cluster_object_set, with_group, with_revision, with_lifecycle_state,
  with_labels, with_annotations, with_owner_references, with_spec,
}

-- `json.Marshal` of a template and of its spec, `json.Unmarshal` into the apply configuration's
-- spec, SHA-256, and the two hexadecimal digits of a byte.
pub record Codec : Type 0 where
  pub marshal_template : ClusterObjectDeploymentTemplate → Result (List ℕ)
  pub marshal_spec : ClusterObjectDeploymentTemplateSpec → Result (List ℕ)
  pub unmarshal_spec : List ℕ → Result ClusterObjectDeploymentTemplateSpec
  pub sha256 : List ℕ → List ℕ
  pub hex : ℕ → String

abbrev pub label_template_hash : String
label_template_hash = "orb.operatorframework.io/template-hash"

abbrev pub digit : ℕ → String
digit n =
    if nat_eq n 0
    then "0"
    else if nat_eq n 1
    then "1"
    else if nat_eq n 2
    then "2"
    else if nat_eq n 3
    then "3"
    else if nat_eq n 4
    then "4"
    else if nat_eq n 5
    then "5"
    else if nat_eq n 6
    then "6"
    else if nat_eq n 7
    then "7"
    else if nat_eq n 8
    then "8"
    else "9"

unfoldable pub decimal_from : ℕ → ℕ → String
decimal_from zero n = ""
decimal_from (suc fuel) n =
    let more = decimal_from fuel (n / 10) in if ltb n 10 then digit n else (more <> digit (n % 10))

-- `%d` of a `uint32`, which has at most 10 digits.
unfoldable pub decimal : ℕ → String
unfolding decimal_from
decimal n = decimal_from 10 n

unfoldable pub hex_string : (ℕ → String) → List ℕ → String
hex_string hex [] = ""
hex_string hex (b ∷ bs) = hex b <> hex_string hex bs

unfoldable pub hash : Codec → ClusterObjectDeploymentTemplate → Result String
unfolding hex_string
hash c tmpl = do
  data' ← wrap_step "marshalling template for hash: " (c.marshal_template tmpl)
  ok (hex_string c.hex (take 4 (c.sha256 data')))

unfoldable pub controller_reference : ClusterObjectDeployment → OwnerReference
controller_reference cod = record {
  api_version = "orb.operatorframework.io/v1alpha1";
  kind = "ClusterObjectDeployment";
  name = cod.metadata.name;
  uid = cod.metadata.uid;
  controller = true;
  block_owner_deletion = true;
}

unfoldable pub set_controller_reference : ClusterObjectDeployment → ApplyConfig → ApplyConfig
unfolding controller_reference with_owner_references
set_controller_reference cod cos = with_owner_references (controller_reference cod ∷ []) cos

unfoldable pub revision_name : ClusterObjectDeployment → ℕ → String
unfolding decimal
revision_name cod revision = cod.metadata.name <> "-" <> decimal revision

unfoldable pub build_cos : Codec → ClusterObjectDeployment → ℕ → String → Result ApplyConfig
unfolding set_controller_reference revision_name with_group with_revision with_lifecycle_state
    with_labels with_annotations with_spec cluster_object_set
build_cos c cod revision template_hash = do
  let labels = insert label_template_hash template_hash cod.spec.template.metadata.labels
  tmpl_spec_json ← c.marshal_spec cod.spec.template.spec
  tmpl_spec ← c.unmarshal_spec tmpl_spec_json
  let cos_spec = with_lifecycle_state active (
      with_revision revision
        (with_group cod.metadata.name (record empty_spec { template_spec = some tmpl_spec })))
  ok (
      set_controller_reference cod (
        with_spec cos_spec (
          with_annotations cod.spec.template.metadata.annotations
            (with_labels labels (cluster_object_set (revision_name cod revision))))))
