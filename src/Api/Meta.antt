-- ===== src/Api/Meta.antt =====
-- The fields of the Kubernetes types `metav1.ObjectMeta` and `metav1.Condition` that the operator
-- uses. A `metav1.Time` is the number of nanoseconds since Go's zero time.
use orb_operator.Base.{ℕ, String, Bool, true, false, Option, none, some, List, Map, zero, suc}

abbrev pub Time : Type 0
Time = ℕ

-- `t.IsZero()`: no pointer, or the zero time.
abbrev pub is_zero : Option Time → Bool
is_zero none = true
is_zero (some zero) = true
is_zero (some (suc _)) = false

pub record OwnerReference : Type 0 where
  pub api_version : String
  pub kind : String
  pub name : String
  pub uid : String
  pub controller : Bool
  pub block_owner_deletion : Bool

-- `fields_v1` is the raw JSON text, `none` for a nil `FieldsV1`.
pub record ManagedFieldsEntry : Type 0 where
  pub manager : String
  pub fields_v1 : Option (List ℕ)

pub record ObjectMeta : Type 0 where
  pub name : String
  pub uid : String
  pub generation : ℕ
  pub creation_timestamp : Time
  pub deletion_timestamp : Option Time
  pub labels : Map String String
  pub annotations : Map String String
  pub finalizers : List String
  pub owner_references : List OwnerReference
  pub managed_fields : List ManagedFieldsEntry

pub data ConditionStatus : Type 0 where
  condition_true condition_false condition_unknown : ConditionStatus

pub record Condition : Type 0 where
  pub type : String
  pub status : ConditionStatus
  pub observed_generation : ℕ
  pub reason : String
  pub message : String
