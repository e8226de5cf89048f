-- ===== src/Boxcutter.antt =====
-- What the operator reads of boxcutter's results. The results are Go interfaces of a library that
-- is not in this repository: each record holds the values of the getters that the operator calls.
use orb_operator.Base.{String, Bool, Option, List, Map, true, false, ℕ}
use orb_operator.Errors.{Error}

-- `types.ObjectRef`
pub record BoxRef : Type 0 where
  pub group : String
  pub version : String
  pub kind : String
  pub namespace : String
  pub name : String

-- The actions that the operator names, and any other.
pub data Action : Type 0 where
  created idle updated recovered collision : Action
  other_action : String → Action

-- `ProbeStatusTrue`, or another status with its text.
pub data ProbeStatus : Type 0 where
  probe_true : ProbeStatus
  probe_other : String → ProbeStatus

pub record ProbeResult : Type 0 where
  pub status : ProbeStatus
  pub messages : List String

-- A `fieldpath.Set`: `Empty()`, and the printed paths of `Leaves()` in the order of `Iterate`.
pub record FieldSet : Type 0 where
  pub empty : Bool
  pub leaves : List String

pub record Comparison : Type 0 where
  pub added : Option FieldSet
  pub modified : Option FieldSet
  pub removed : Option FieldSet

-- `compare_result` is `none` where the result has no method `CompareResult`; within it, `none` is
-- a nil `Comparison`.
pub record ObjectResult : Type 0 where
  pub object : BoxRef
  pub action : Action
  pub is_paused : Bool
  pub is_complete : Bool
  pub probe_results : Map String ProbeResult
  pub compare_result : Option (Option Comparison)

pub record ObjectValidationError : Type 0 where
  pub object_ref : BoxRef
  pub errors : List Error

pub record PhaseValidationError : Type 0 where
  pub phase_name : String
  pub phase_error : Option Error
  pub objects : List ObjectValidationError

pub record RevisionValidationError : Type 0 where
  pub phases : List PhaseValidationError
  pub error : String

pub record PhaseResult : Type 0 where
  pub name : String
  pub is_complete : Bool
  pub validation_error : Option PhaseValidationError
  pub objects : List ObjectResult

pub record RevisionResult : Type 0 where
  pub validation_error : Option RevisionValidationError
  pub phases : List PhaseResult
  pub in_transition : Bool
  pub is_complete : Bool
  pub has_progressed : Bool

pub record PhaseTeardownResult : Type 0 where
  pub name : String
  pub is_complete : Bool
  pub waiting : List BoxRef

-- `active_phase_name` is the first value of `GetActivePhaseName`.
pub record RevisionTeardownResult : Type 0 where
  pub phases : List PhaseTeardownResult
  pub active_phase_name : String
  pub waiting_phase_names : List String
  pub is_complete : Bool

abbrev pub is_created : Action → Bool
is_created created = true
is_created _ = false

abbrev pub is_idle : Action → Bool
is_idle idle = true
is_idle _ = false

abbrev pub is_collision : Action → Bool
is_collision collision = true
is_collision _ = false

-- `boxcutter.WithCollisionProtection` and the other options that the operator passes.

pub data BoxCollisionProtection : Type 0 where
  box_prevent box_if_no_controller box_none : BoxCollisionProtection

pub data ObjectOption {ℓ} (Probe : Type ℓ) : Type ℓ where
  with_probe : Probe → ObjectOption Probe
  object_collision : BoxCollisionProtection → ObjectOption Probe

pub data PhaseOption {ℓ} (Obj Probe : Type ℓ) : Type ℓ where
  phase_collision : BoxCollisionProtection → PhaseOption Obj Probe
  with_object_options : Obj → List (ObjectOption Probe) → PhaseOption Obj Probe
  with_paused : PhaseOption Obj Probe

pub data RevisionOption {ℓ} (Owner : Type ℓ) : Type ℓ where
  revision_collision : BoxCollisionProtection → RevisionOption Owner
  with_sibling_owners : List Owner → RevisionOption Owner

-- What `NewPhaseWithOwner` and `NewRevisionWithOwner` are given, and the options added to it.
pub record BoxPhase {ℓ} (Obj Probe : Type ℓ) : Type ℓ where
  pub name : String
  pub objects : List Obj
  pub reconcile_options : List (PhaseOption Obj Probe)

pub record BoxRevision {ℓ} (Obj Probe Owner : Type ℓ) : Type ℓ where
  pub name : String
  pub revision_number : ℕ
  pub phases : List (BoxPhase Obj Probe)
  pub owner : Owner
  pub reconcile_options : List (RevisionOption Owner)
