-- ===== src/Kube.antt =====
-- Functions of the Kubernetes libraries that the operator calls. They are not in this repository:
-- each is a parameter, and the law states what its documentation promises.
use orb_operator.Base.{String, ◌≡◌, Bool, true, false, List, ◌==◌, String_eq, if◌then◌else◌}
use orb_operator.Api.{
  Condition, ConditionStatus, condition_true, condition_false, condition_unknown,
}
use orb_operator.Base.Int.{ℤ, pos}

abbrev pub is_true : ConditionStatus → Bool
is_true condition_true = true
is_true condition_false = false
is_true condition_unknown = false

-- `meta.SetStatusCondition`, `meta.IsStatusConditionTrue`
pub record ConditionApi : Type 0 where
  pub set_status_condition : List Condition → Condition → List Condition
  pub is_status_condition_true : List Condition → String → Bool

-- A condition that is set is found with its status, and conditions of other types stay.
abbrev pub SetsByType : ConditionApi → Type 0
SetsByType api =
    (cs : List Condition) (c : Condition) (t : String)
    → api.is_status_condition_true (api.set_status_condition cs c) t
      ≡ (if c.type == t then is_true c.status else api.is_status_condition_true cs t)

-- `ctrl.Result`
pub record CtrlResult : Type 0 where
  pub requeue : Bool
  pub requeue_after : ℤ

abbrev pub no_requeue : CtrlResult
no_requeue = record { requeue = false; requeue_after = pos 0 }

-- `controllerutil.ContainsFinalizer` and `controllerutil.RemoveFinalizer`, on the finalizers.
pub record FinalizerApi : Type 0 where
  pub contains_finalizer : List String → String → Bool
  pub remove_finalizer : List String → String → List String

-- The removal takes out that finalizer and no other.
abbrev pub RemovesFinalizer : FinalizerApi → Type 0
RemovesFinalizer api =
    (fs : List String) (f g : String)
    → api.contains_finalizer (api.remove_finalizer fs f) g
      ≡ (if f == g then false else api.contains_finalizer fs g)
