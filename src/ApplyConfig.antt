-- ===== src/ApplyConfig.antt =====
-- applyconfigurations/api/v1alpha1: the part of the generated apply configuration of a
-- ClusterObjectSet that the operator sets.
use orb_operator.Base.{ℕ, String, Option, none, some, List, [], ◌++◌, Map}
use orb_operator.Api.{OwnerReference, LifecycleState, ClusterObjectDeploymentTemplateSpec}

pub record SpecConfig : Type 0 where
  pub group : Option String
  pub revision : Option ℕ
  pub lifecycle_state : Option LifecycleState
  pub template_spec : Option ClusterObjectDeploymentTemplateSpec

pub record ApplyConfig : Type 0 where
  pub name : String
  pub labels : Map String String
  pub annotations : Map String String
  pub owner_references : List OwnerReference
  pub finalizers : List String
  pub spec : Option SpecConfig

abbrev pub empty_spec : SpecConfig
empty_spec = record { group = none; revision = none; lifecycle_state = none; template_spec = none }

unfoldable pub cluster_object_set : String → ApplyConfig
cluster_object_set name = record {
  name = name;
  labels = [];
  annotations = [];
  owner_references = [];
  finalizers = [];
  spec = none;
}

unfoldable pub with_group : String → SpecConfig → SpecConfig
with_group value b = record b { group = some value }

unfoldable pub with_revision : ℕ → SpecConfig → SpecConfig
with_revision value b = record b { revision = some value }

unfoldable pub with_lifecycle_state : LifecycleState → SpecConfig → SpecConfig
with_lifecycle_state value b = record b { lifecycle_state = some value }

-- Entries that are set replace those of the same key.
unfoldable pub with_labels : Map String String → ApplyConfig → ApplyConfig
with_labels entries b = record b { labels = entries ++ b.labels }

unfoldable pub with_annotations : Map String String → ApplyConfig → ApplyConfig
with_annotations entries b = record b { annotations = entries ++ b.annotations }

unfoldable pub with_owner_references : List OwnerReference → ApplyConfig → ApplyConfig
with_owner_references values b = record b { owner_references = b.owner_references ++ values }

unfoldable pub with_finalizers : List String → ApplyConfig → ApplyConfig
with_finalizers values b = record b { finalizers = b.finalizers ++ values }

unfoldable pub with_spec : SpecConfig → ApplyConfig → ApplyConfig
with_spec value b = record b { spec = some value }
