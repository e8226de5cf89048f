-- ===== src/Controller/Cod/Handler/Summary.antt =====
-- What the status of a deployment says of its revisions.
use orb_operator.Base.{
  Bool, true, not, ◌&&◌, List, [], ◌∷◌, ◌≡◌, refl, map, filter, ℕ, ◌↔◌, Bool-cases, inl, arith, inr,
  last_of,
}
use orb_operator.Api.{
  Time, ClusterObjectSet, ClusterObjectDeployment, ClusterObjectSetStatusSummary,
  condition_type_available, condition_type_progressing, is_zero, Condition,
}
use orb_operator.Kube.{ConditionApi, SetsByType, is_true}
use orb_operator.Status.Cod.Availability.{
  evaluate_availability, is_available, active_revision_summaries,
}
use orb_operator.Status.Cod.Progress.{evaluate_deadline}
use orb_operator.Controller.Cod.Handler.{update_status}
use orb_operator.Controller.Cod.Env.{Env, is_archived}
use orb_operator.Status.Cod.Progress.Deadline.{evaluate_deadline-type}

-- Revisions that are neither archived nor being deleted.
abbrev pub is_active : ClusterObjectSet → Bool
is_active cos = not (is_archived cos) && is_zero cos.metadata.deletion_timestamp

abbrev summary_of : ClusterObjectSet → ClusterObjectSetStatusSummary
summary_of cos = record { name = cos.metadata.name; conditions = cos.status.conditions }

-- There is exactly one revision, and it is available.
abbrev pub IsOneAvailable : ConditionApi → List ClusterObjectSet → Type 0
IsOneAvailable api [] = ⊥
IsOneAvailable api (cos ∷ []) = is_available api cos ≡ true
IsOneAvailable api (_ ∷ _ ∷ _) = ⊥

active_revision_summaries_lem :
    (coss : List ClusterObjectSet)
    → active_revision_summaries coss ≡ map summary_of (filter is_active coss)
unfolding active_revision_summaries
active_revision_summaries_lem [] = refl
active_revision_summaries_lem (cos ∷ coss) = elim (Bool-cases (is_active cos)) [
  | inl e ↦ ground (arith, e, active_revision_summaries_lem coss)
  | inr e ↦ ground (arith, e, active_revision_summaries_lem coss)
]

filter-one :
    (api : ConditionApi) (generation : ℕ) (coss : List ClusterObjectSet)
    → is_true (evaluate_availability api generation (map summary_of coss)).status ≡ true
      ↔ IsOneAvailable api coss
unfolding evaluate_availability is_available
filter-one api generation [] = (λ e. absurd (cc e), λ e. absurd e)
filter-one api generation (cos ∷ []) = (λ e. ground (arith, e), λ e. ground (arith, e))
filter-one api generation (_ ∷ _ ∷ _) = (λ e. absurd (cc e), λ e. absurd e)

evaluate_availability-type :
    (api : ConditionApi) (generation : ℕ) (xs : List ClusterObjectSetStatusSummary)
    → (evaluate_availability api generation xs).type ≡ condition_type_available
unfolding evaluate_availability
evaluate_availability-type api generation [] = refl
evaluate_availability-type api generation (x ∷ []) = ground arith
evaluate_availability-type api generation (_ ∷ _ ∷ _) = refl

set-twice :
    (api : ConditionApi) (cs : List Condition) (av progressing : Condition)
    → SetsByType api
    → av.type ≡ condition_type_available
    → progressing.type ≡ condition_type_progressing
    → api.is_status_condition_true
        (api.set_status_condition (api.set_status_condition cs av) progressing)
        condition_type_available
      ≡ is_true av.status
set-twice api cs av progressing sets ha hp =
    rw
      (
        sets (api.set_status_condition cs av) progressing condition_type_available,
        hp,
        sets cs av condition_type_available,
        ha,
      )
      refl

-- Where conditions are set and read by their type, the deployment is marked available exactly if it
-- owns one active revision, and that one is available.
pub update_status_available :
    (env : Env) (cod : ClusterObjectDeployment) (owned : List ClusterObjectSet) (now : Time)
    → SetsByType env.conditions
    → env.conditions.is_status_condition_true
          (update_status env cod owned now).0.status.conditions
          condition_type_available
        ≡ true
      ↔ IsOneAvailable env.conditions (filter is_active owned)
unfolding update_status
update_status_available env cod owned now sets =
    let api = env.conditions in
    let coss = filter is_active owned in
    rw
      (
        set-twice api cod.status.conditions
            (evaluate_availability api cod.metadata.generation (active_revision_summaries owned))
            (evaluate_deadline cod (last_of coss) now env.deadline_unit).0 sets
            (evaluate_availability-type api cod.metadata.generation
              (active_revision_summaries owned))
            (evaluate_deadline-type cod (last_of coss) now env.deadline_unit),
        active_revision_summaries_lem owned,
      )
      (filter-one api cod.metadata.generation coss)
