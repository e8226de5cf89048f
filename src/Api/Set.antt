-- ===== src/Api/Set.antt =====
-- api/v1alpha1/types_clusterobjectset.go
use orb_operator.Base.{ℕ, String, Option, List, Bool}
use orb_operator.Api.Meta.{Time, ObjectMeta, Condition}
use orb_operator.Api.Types.{Phase, CollisionProtection}

pub data LifecycleState : Type 0 where
  active archived : LifecycleState

pub data PhaseStatus : Type 0 where
  invalid pending reconciling waiting_for_assertions available unknown : PhaseStatus
  superseded tearing_down teardown_complete : PhaseStatus

-- Each count is an `int64`, kept as its bit pattern.
pub record ObjectCounts : Type 0 where
  pub total : ℕ
  pub present : ℕ
  pub synced : ℕ
  pub available : ℕ

abbrev pub zero_counts : ObjectCounts
zero_counts = record { total = 0; present = 0; synced = 0; available = 0 }

pub record ObjectStatus : Type 0 where
  pub group : String
  pub version : String
  pub kind : String
  pub namespace : String
  pub name : String
  pub messages : List String

pub record ObservedPhase : Type 0 where
  pub name : String
  pub status : PhaseStatus
  pub completed_at : Option Time
  pub message : String
  pub object_counts : ObjectCounts
  pub object_details : List ObjectStatus

pub record ClusterObjectSetSpec : Type 0 where
  pub group : String
  pub revision : ℕ
  pub lifecycle_state : LifecycleState
  pub collision_protection : Option CollisionProtection
  pub phases : List Phase

pub record ClusterObjectSetStatus : Type 0 where
  pub conditions : List Condition
  pub resolved_content_hash : String
  pub completed_at : Option Time
  pub object_counts : Option ObjectCounts
  pub observed_phases : List ObservedPhase

pub record ClusterObjectSet : Type 0 where
  pub metadata : ObjectMeta
  pub spec : ClusterObjectSetSpec
  pub status : ClusterObjectSetStatus

-- `cos.Spec.LifecycleState == Archived`
abbrev pub is_archived_state : LifecycleState → Bool
is_archived_state active = Bool.false
is_archived_state archived = Bool.true

-- `status == PhaseStatusAvailable`
abbrev pub is_available_status : PhaseStatus → Bool
is_available_status available = Bool.true
is_available_status _ = Bool.false
