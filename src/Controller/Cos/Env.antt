-- ===== src/Controller/Cos/Env.antt =====
-- What the handler of a revision is given and what it calls of other code, and its constants.
use orb_operator.Base.{ℕ, String, Bool, Option, List}
use orb_operator.Errors.{Result}
use orb_operator.Api.{
  Time, ObjectMeta, OwnerReference, ClusterObjectSet, ClusterObjectSetStatus, ClusterObjectSlice,
}
use orb_operator.Kube.{ConditionApi, FinalizerApi}
use orb_operator.Assertions.{Prober}
use orb_operator.Object.{ObjectLib}
use orb_operator.Revision.Engine.{Engines}
use orb_operator.Controller.Server.{History, Server}
use orb_operator.Controller.Apply.{Extract}
use orb_operator.Controller.Finalizer.{FieldsJson, Poll}

abbrev pub field_owner : String
field_owner = "cos-controller"

abbrev pub managed_by : String
managed_by = "orb-operator"

abbrev pub system_prefix : String
system_prefix = "orb.operatorframework.io"

abbrev pub finalizer_key : String
finalizer_key = "orb.operatorframework.io/cos-finalizer"

-- The texts of `boxcutter.RevisionEngineOptions`.
pub record EngineOptions : Type 0 where
  pub field_owner : String
  pub system_prefix : String
  pub managed_by : String

-- Reads of the cache are functions of the calls made so far; `get_later` is the read at an attempt
-- of the polling. `status_equal` is `equality.Semantic.DeepEqual`. `new_revision_engine` and
-- `new_phase_engine` check the options, and `engines` are those that act through an accessor;
-- `aggregate` is the option with which they are called. boxcutter acts on the history, to which its
-- writes are added.
pub record Env (Obj GzipReader Cel Options PhaseOptions : Type 0) : Type 0 where
  pub server : Server
  pub get : History → String → Result (Option ClusterObjectSet)
  pub get_later : History → String → ℕ → Result (Option ClusterObjectSet)
  pub list_group : History → String → Result (List ClusterObjectSet)
  pub get_slice : History → String → Result ClusterObjectSlice
  pub now : History → Time
  pub poll : Poll
  pub extract : Extract
  pub conditions : ConditionApi
  pub finalizers : FinalizerApi
  pub fields_json : FieldsJson
  pub get_controller_of : ObjectMeta → Option OwnerReference
  pub status_equal : ClusterObjectSetStatus → ClusterObjectSetStatus → Bool
  pub objects : ObjectLib Obj GzipReader
  pub new_cel_probe : String → String → Result Cel
  pub new_revision_engine : EngineOptions → Result (Unit {0})
  pub new_phase_engine : EngineOptions → Result (Unit {0})
  pub engines :
      EngineOptions → Engines History Obj (Prober Cel) ClusterObjectSet Options PhaseOptions
  pub aggregate : Options
