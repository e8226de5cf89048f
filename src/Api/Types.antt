-- ===== src/Api/Types.antt =====
-- api/v1alpha1/types.go
use orb_operator.Base.{ℕ, String, Option, List}
use orb_operator.Api.Slice.{ObjectKey}

pub data CollisionProtection : Type 0 where
  prevent if_no_controller unprotected : CollisionProtection

abbrev pub condition_type_available : String
condition_type_available = "Available"

abbrev pub condition_type_progressing : String
condition_type_progressing = "Progressing"

abbrev pub reason_available : String
reason_available = "Available"

abbrev pub reason_unavailable : String
reason_unavailable = "Unavailable"

abbrev pub reason_progressing : String
reason_progressing = "Progressing"

abbrev pub reason_archived : String
reason_archived = "Archived"

abbrev pub reason_superseded : String
reason_superseded = "Superseded"

abbrev pub reason_invalid_revision : String
reason_invalid_revision = "InvalidRevision"

abbrev pub reason_internal_error : String
reason_internal_error = "InternalError"

abbrev pub reason_reconcile_error : String
reason_reconcile_error = "ReconcileError"

abbrev pub reason_teardown_error : String
reason_teardown_error = "TeardownError"

abbrev pub reason_new_cluster_object_set_progressing : String
reason_new_cluster_object_set_progressing = "NewClusterObjectSetProgressing"

abbrev pub reason_new_cluster_object_set_progressed : String
reason_new_cluster_object_set_progressed = "NewClusterObjectSetProgressed"

abbrev pub reason_progress_deadline_exceeded : String
reason_progress_deadline_exceeded = "ProgressDeadlineExceeded"

abbrev pub reason_no_active_revisions : String
reason_no_active_revisions = "NoActiveRevisions"

pub record ConditionEqualAssertion : Type 0 where
  pub type : String
  pub status : String

pub record FieldsEqualAssertion : Type 0 where
  pub field_a : String
  pub field_b : String

pub record FieldValueAssertion : Type 0 where
  pub field_path : String
  pub value : String

pub record CelExpressionAssertion : Type 0 where
  pub expression : String
  pub message : String

-- Four pointers, of which the API server admits one that is set.
pub record Assertion : Type 0 where
  pub condition_equal : Option ConditionEqualAssertion
  pub fields_equal : Option FieldsEqualAssertion
  pub field_value : Option FieldValueAssertion
  pub cel_expression : Option CelExpressionAssertion

pub record ObjectRef : Type 0 where
  pub slice_name : String
  pub object_key : ObjectKey

-- `object` is `Object.Raw`, the JSON text of an inline object, empty if there is none.
pub record PhaseObject : Type 0 where
  pub object : List ℕ
  pub object_ref : Option ObjectRef
  pub collision_protection : Option CollisionProtection
  pub assertions : List Assertion

pub record Phase : Type 0 where
  pub name : String
  pub collision_protection : Option CollisionProtection
  pub objects : List PhaseObject

pub record ClusterObjectDeploymentTemplateSpec : Type 0 where
  pub collision_protection : Option CollisionProtection
  pub phases : List Phase
