-- ===== src/Api/Deployment.antt =====
-- api/v1alpha1/types_clusterobjectdeployment.go
use orb_operator.Base.{ℕ, String, Option, List, Map}
use orb_operator.Api.Meta.{ObjectMeta, Condition}
use orb_operator.Api.Types.{ClusterObjectDeploymentTemplateSpec}
use orb_operator.Api.Set.{ObjectCounts}

pub record ClusterObjectDeploymentTemplateMetadata : Type 0 where
  pub labels : Map String String
  pub annotations : Map String String

pub record ClusterObjectDeploymentTemplate : Type 0 where
  pub metadata : ClusterObjectDeploymentTemplateMetadata
  pub spec : ClusterObjectDeploymentTemplateSpec

-- Both numbers are `int32` with a minimum (0 and 1), so no negative value is admitted.
pub record ClusterObjectDeploymentSpec : Type 0 where
  pub revision_history_limit : Option ℕ
  pub progress_deadline_minutes : Option ℕ
  pub template : ClusterObjectDeploymentTemplate

pub record ClusterObjectSetStatusSummary : Type 0 where
  pub name : String
  pub conditions : List Condition

pub record ClusterObjectDeploymentStatus : Type 0 where
  pub conditions : List Condition
  pub object_counts : Option ObjectCounts
  pub active_revisions : List ClusterObjectSetStatusSummary

pub record ClusterObjectDeployment : Type 0 where
  pub metadata : ObjectMeta
  pub spec : ClusterObjectDeploymentSpec
  pub status : ClusterObjectDeploymentStatus
