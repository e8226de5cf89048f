-- ===== src/Status/Cos/Update/Laws.antt =====
-- What a reconcile writes into the status of a revision.
use orb_operator.Base.{
  ◌+◌, ◌≡◌, String_eq, List, [], ◌∷◌, map, arith, Option, none, Bool, ◌↔◌, some, false, not, refl,
  true, ap, ◌&&◌, if◌then◌else◌, ◌∙◌, subst, some-injective, ◌⊎◌, inl, inr,
}
use orb_operator.Base.Int.{i64}
use orb_operator.Api.{
  ObjectCounts, ObservedPhase, Time, ClusterObjectSet, zero_counts, condition_type_available,
}
use orb_operator.Api.Rules.{sum, AreCountsSums, IsSetOnce, ArePhasesSetOnce}
use orb_operator.Status.Cos.Update.{
  add_counts, sum_from, sum_object_counts, from_reconcile, apply, Update, set_once, replaced,
  result_update, from_teardown, teardown_update, teardown_condition,
}
use orb_operator.Boxcutter.{RevisionResult, RevisionTeardownResult, RevisionValidationError}
use orb_operator.Errors.{Error}
use orb_operator.Kube.{ConditionApi, is_true, SetsByType}
use orb_operator.Status.Cos.Completion.{preserve_completion_times}
use orb_operator.Status.Cos.Completion.Immutable.{
  HasUniqueNames, ArePhasesSetOnce-self, ArePhasesSetOnce-nil,
  preserve_completion_times-ArePhasesSetOnce,
}
use orb_operator.Status.Cos.Phases.{observed_phases_from_reconcile_result}

-- The loop of `sumObjectCounts` against the sums of the rules.
record IsSummed (c : ObjectCounts) (ps : List ObservedPhase) (d : ObjectCounts) : Type 0 where
  total : d.total ≡ i64 (c.total + sum (map (λ (q : ObservedPhase). q.object_counts.total) ps))
  present :
      d.present ≡ i64 (c.present + sum (map (λ (q : ObservedPhase). q.object_counts.present) ps))
  synced : d.synced ≡ i64 (c.synced + sum (map (λ (q : ObservedPhase). q.object_counts.synced) ps))
  available :
      d.available
      ≡ i64 (c.available + sum (map (λ (q : ObservedPhase). q.object_counts.available) ps))

sum_from-IsSummed :
    (c : ObjectCounts) (p : ObservedPhase) (ps : List ObservedPhase)
    → IsSummed c (p ∷ ps) (sum_from c (p ∷ ps))
unfolding sum_from
sum_from-IsSummed c p [] = omega arith
sum_from-IsSummed c p (q ∷ ps) =
    omega (arith, sum_from-IsSummed (add_counts c p.object_counts) q ps)

AreCountsSums-sum_object_counts :
    (ps : List ObservedPhase) → AreCountsSums (sum_object_counts ps) ps
unfolding sum_object_counts
AreCountsSums-sum_object_counts [] = refl
AreCountsSums-sum_object_counts (p ∷ ps) =
    let h = sum_from-IsSummed zero_counts p ps in ground (arith, h)

IsSetOnce-set_once : (new old : Option Time) → IsSetOnce old (set_once new old)
IsSetOnce-set_once new none = tt
IsSetOnce-set_once new (some t) = refl

-- Whatever update is applied: the counts are there exactly if there are observed phases, and are
-- the sums over them; a completion time that is set stays; the pinned hash is not touched.
pub apply-rules :
    (api : ConditionApi) (cos : ClusterObjectSet) (u : Update)
    → AreCountsSums (apply api cos u).status.object_counts (apply api cos u).status.observed_phases
      × IsSetOnce cos.status.completed_at (apply api cos u).status.completed_at
      × ((apply api cos u).status.resolved_content_hash ≡ cos.status.resolved_content_hash)
unfolding apply
apply-rules api cos u = (
  AreCountsSums-sum_object_counts (replaced u.observed_phases cos.status.observed_phases),
  IsSetOnce-set_once u.completed_at cos.status.completed_at,
  refl,
)

-- No result and no error is the one case in which `FromReconcile` panics.
pub from_reconcile_panics :
    (cos : ClusterObjectSet) (result : Option RevisionResult) (e : Option Error) (now : Time)
    → (from_reconcile cos result e now ≡ none) ↔ ((result ≡ none) × (e ≡ none))
unfolding from_reconcile
from_reconcile_panics cos none none now = (λ h. (refl, refl), λ h. refl)
from_reconcile_panics cos (some r) none now = (λ h. cc, λ h. cc)
from_reconcile_panics cos result (some e) now = (λ h. ground arith, λ h. cc)

-- The revision is available by a reconcile: no error, no validation error, not superseded, complete.
abbrev pub succeeds : RevisionResult → Option RevisionValidationError → Bool
succeeds r (some _) = false
succeeds r none = not r.has_progressed && r.is_complete

abbrev pub is_success : Option RevisionResult → Option Error → Bool
is_success none e = false
is_success (some r) (some e) = false
is_success (some r) none = succeeds r r.validation_error

-- What an update says of availability and completion.
pub record Reports (success : Bool) (now : Time) (u : Update) : Type 0 where
  pub type : u.condition.type ≡ condition_type_available
  pub status : is_true u.condition.status ≡ success
  pub completed_at : u.completed_at ≡ (if success then some now else none)

result_update-Reports :
    (phases : List ObservedPhase) (r : RevisionResult) (o : Option RevisionValidationError)
    (now : Time)
    → Reports (succeeds r o) now (result_update phases r o now)
unfolding result_update
result_update-Reports phases r (some verr) now = record {
  type = refl;
  status = refl;
  completed_at = refl;
}
result_update-Reports phases r none now = record {
  type = ground arith;
  status = ground arith;
  completed_at = ground arith;
}

from_reconcile-Reports :
    (cos : ClusterObjectSet) (result : Option RevisionResult) (e : Option Error) (now : Time)
    (u : Update)
    → from_reconcile cos result e now ≡ some u
    → Reports (is_success result e) now u
unfolding from_reconcile
from_reconcile-Reports cos none none now u h = cc
from_reconcile-Reports cos (some r) none now u h =
    subst (Reports (succeeds r r.validation_error) now) (some-injective _ _ h)
      (result_update-Reports _ r r.validation_error now)
from_reconcile-Reports cos none (some e) now u h = record {
  type = ground arith;
  status = ground arith;
  completed_at = ground arith;
}
from_reconcile-Reports cos (some r) (some e) now u h = record {
  type = ground arith;
  status = ground arith;
  completed_at = ground arith;
}

pub from_teardown-Reports :
    (cos : ClusterObjectSet) (result : Option RevisionTeardownResult) (e : Option Error)
    (now : Time)
    → Reports false now (from_teardown cos result e now)
unfolding from_teardown teardown_update teardown_condition
from_teardown-Reports cos none none now = record { type = refl; status = refl; completed_at = refl }
from_teardown-Reports cos (some r) none now = record {
  type = ground arith;
  status = ground arith;
  completed_at = refl;
}
from_teardown-Reports cos result (some e) now = record {
  type = ground arith;
  status = ground arith;
  completed_at = ground arith;
}

pub apply_available :
    (api : ConditionApi) (cos : ClusterObjectSet) (success : Bool) (now : Time) (u : Update)
    → SetsByType api
    → Reports success now u
    → api.is_status_condition_true (apply api cos u).status.conditions condition_type_available
      ≡ success
unfolding apply
apply_available api cos success now u sets r =
    sets cos.status.conditions
      (record u.condition { observed_generation = cos.metadata.generation })
      condition_type_available
    ∙ rw (r.type, r.status)

abbrev pub completed_after : Bool → Time → Option Time → Option Time
completed_after success now (some t) = some t
completed_after true now none = some now
completed_after false now none = none

set_once-eq-completed_after :
    (success : Bool) (now : Time) (old : Option Time)
    → set_once (if success then some now else none) old ≡ completed_after success now old
set_once-eq-completed_after success now (some t) = refl
set_once-eq-completed_after true now none = refl
set_once-eq-completed_after false now none = refl

-- Where conditions are set and read by their type, and the reconcile does not panic: after it the
-- revision is Available exactly if there was no error and the result has no
-- validation error, is not superseded and is complete; its completion time is the one it had, or
-- else, if it is now Available, the present time.
pub apply-from_reconcile_available :
    (api : ConditionApi) (cos : ClusterObjectSet) (result : Option RevisionResult)
    (e : Option Error) (now : Time) (u : Update)
    → SetsByType api
    → from_reconcile cos result e now ≡ some u
    → (api.is_status_condition_true (apply api cos u).status.conditions condition_type_available
        ≡ is_success result e)
      × ((apply api cos u).status.completed_at
          ≡ completed_after (is_success result e) now cos.status.completed_at)
unfolding apply
apply-from_reconcile_available api cos result e now u sets h =
    let r = from_reconcile-Reports cos result e now u h in
    (
      apply_available api cos (is_success result e) now u sets r,
      ap (λ c. set_once c cos.status.completed_at) r.completed_at
          ∙ set_once-eq-completed_after (is_success result e) now cos.status.completed_at,
    )

observed_phases-result_update :
    (phases : List ObservedPhase) (r : RevisionResult) (o : Option RevisionValidationError)
    (now : Time)
    → (result_update phases r o now).observed_phases ≡ some phases
unfolding result_update
observed_phases-result_update phases r (some verr) now = refl
observed_phases-result_update phases r none now = ground arith

-- The phases that a reconcile observes: the old ones, none, or new ones with the old times.
abbrev observed : ClusterObjectSet → Option RevisionResult → Time → List ObservedPhase
observed cos result now =
    preserve_completion_times cos.status.observed_phases
      (observed_phases_from_reconcile_result cos.spec.phases result) now

from_reconcile_phases :
    (cos : ClusterObjectSet) (result : Option RevisionResult) (e : Option Error) (now : Time)
    (u : Update)
    → from_reconcile cos result e now ≡ some u
    → (u.observed_phases ≡ none)
      ⊎ ((u.observed_phases ≡ some []) ⊎ (u.observed_phases ≡ some (observed cos result now)))
unfolding from_reconcile
from_reconcile_phases cos none none now u h = cc
from_reconcile_phases cos (some r) none now u h =
    ground
      (arith, observed_phases-result_update (observed cos (some r) now) r r.validation_error now)
from_reconcile_phases cos result (some e) now u h = ground arith

-- Where the old phases have different names, as the API server requires, no reconcile changes or
-- removes the completion time of a phase that it goes on to report.
pub apply-from_reconcile-ArePhasesSetOnce :
    (api : ConditionApi) (cos : ClusterObjectSet) (result : Option RevisionResult)
    (e : Option Error) (now : Time) (u : Update)
    → HasUniqueNames cos.status.observed_phases
    → from_reconcile cos result e now ≡ some u
    → ArePhasesSetOnce cos.status.observed_phases (apply api cos u).status.observed_phases
unfolding apply
apply-from_reconcile-ArePhasesSetOnce api cos result e now u unique h =
    elim (from_reconcile_phases cos result e now u h) [
      | inl same ↦ rw same (ArePhasesSetOnce-self cos.status.observed_phases unique)
      | inr (inl empty) ↦ rw empty (ArePhasesSetOnce-nil cos.status.observed_phases)
      | inr (inr fresh) ↦
          rw fresh
            (preserve_completion_times-ArePhasesSetOnce cos.status.observed_phases _ now unique)
    ]
