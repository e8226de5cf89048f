-- ===== src/Controller/Cod/Env.antt =====
-- What the handler of a deployment is given, and its small functions on revisions.
use orb_operator.Base.{ℕ, String, Bool, Option, none, some, List, [], ◌∷◌, String_eq}
use orb_operator.Base.Int.{ℤ}
use orb_operator.Errors.{Result}
use orb_operator.Api.{
  Time, ObjectMeta, OwnerReference, ClusterObjectSet, ClusterObjectDeployment,
  ClusterObjectDeploymentStatus, archived, is_archived_state,
}
use orb_operator.ApplyConfig.{ApplyConfig, empty_spec}
use orb_operator.Kube.{ConditionApi}
use orb_operator.Template.{Codec}
use orb_operator.Controller.Server.{History, Server}
use orb_operator.Controller.Apply.{Extract}

abbrev pub field_owner : String
field_owner = "cod-controller"

abbrev pub default_revision_history_limit : ℕ
default_revision_history_limit = 5

-- What the handler is given and what it calls of other code. `get` gives the deployment, or `none`
-- if it is not found; `list_group` lists by the field index; `status_equal` and `config_equal` are
-- `equality.Semantic.DeepEqual`; `to_unstructured` is the runtime's converter, of which only the
-- error counts.
pub record Env : Type 0 where
  pub server : Server
  pub get : History → String → Result (Option ClusterObjectDeployment)
  pub list_group : History → String → Result (List ClusterObjectSet)
  pub now : History → Time
  pub extract : Extract
  pub codec : Codec
  pub conditions : ConditionApi
  pub get_controller_of : ObjectMeta → Option OwnerReference
  pub to_unstructured : ApplyConfig → Result (Unit {0})
  pub config_equal : ApplyConfig → ApplyConfig → Bool
  pub status_equal : ClusterObjectDeploymentStatus → ClusterObjectDeploymentStatus → Bool
  pub deadline_unit : ℤ

abbrev pub revision_of : ClusterObjectSet → ℕ
revision_of cos = cos.spec.revision

-- All but the last item.
abbrev pub but_last {ℓ} : {A : Type ℓ} → List A → List A
but_last [] = []
but_last (x ∷ []) = []
but_last (x ∷ y ∷ ys) = x ∷ but_last (y ∷ ys)

-- The mutation by which a revision is archived.
abbrev pub set_archived : ApplyConfig → ApplyConfig
set_archived ac = elim ac.spec [
  | none ↦ record ac { spec = some (record empty_spec { lifecycle_state = some archived }) }
  | some spec ↦ record ac { spec = some (record spec { lifecycle_state = some archived }) }
]

abbrev pub is_archived : ClusterObjectSet → Bool
is_archived cos = is_archived_state cos.spec.lifecycle_state

abbrev pub limit_of : Option ℕ → ℕ
limit_of none = default_revision_history_limit
limit_of (some limit) = limit
