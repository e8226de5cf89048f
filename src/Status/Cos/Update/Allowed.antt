-- ===== src/Status/Cos/Update/Allowed.antt =====
-- A new status against the rules of the resource definition.
use orb_operator.Base.{
  String_eq, Option, none, some, List, [], ◌≡◌, refl, sym, subst, ◌∙◌, inl, inr, ◌⊎◌, arith,
}
use orb_operator.Errors.{Error}
use orb_operator.Kube.{ConditionApi}
use orb_operator.Api.{Time, ObservedPhase, ClusterObjectSet, ClusterObjectSetStatus}
use orb_operator.Api.Rules.{IsSetOnce, IsHashSetOnce, IsAllowedChange, ArePhasesSetOnce}
use orb_operator.Boxcutter.{RevisionResult, RevisionTeardownResult}
use orb_operator.Status.Cos.Completion.{preserve_completion_times}
use orb_operator.Status.Cos.Completion.Immutable.{
  HasUniqueNames, ArePhasesSetOnce-self, ArePhasesSetOnce-nil,
  preserve_completion_times-ArePhasesSetOnce,
}
use orb_operator.Status.Cos.Phases.{observed_phases_from_teardown_result}
use orb_operator.Status.Cos.Update.{Update, apply, from_reconcile, from_teardown, teardown_update}
use orb_operator.Status.Cos.Update.Laws.{apply-rules, apply-from_reconcile-ArePhasesSetOnce}

-- The second status has the phases and times of the first, and its hash if there is one.
pub record IsPinned (old new : ClusterObjectSetStatus) : Type 0 where
  pub completed_at : new.completed_at ≡ old.completed_at
  pub observed_phases : new.observed_phases ≡ old.observed_phases
  pub resolved_content_hash : IsHashSetOnce old.resolved_content_hash new.resolved_content_hash

pub IsPinned-self : (s : ClusterObjectSetStatus) → IsPinned s s
IsPinned-self s = record {
  completed_at = refl;
  observed_phases = refl;
  resolved_content_hash = λ _. refl;
}

apply-IsAllowedChange :
    (api : ConditionApi) (old : ClusterObjectSetStatus) (cos : ClusterObjectSet) (u : Update)
    → IsPinned old cos.status
    → ArePhasesSetOnce cos.status.observed_phases (apply api cos u).status.observed_phases
    → IsAllowedChange old (apply api cos u).status
apply-IsAllowedChange api old cos u pin phases =
    let (counts, once, hash) = apply-rules api cos u in
    record {
      completed_at =
          subst (λ t. IsSetOnce t (apply api cos u).status.completed_at) pin.completed_at once;
      resolved_content_hash = λ some_hash. hash ∙ pin.resolved_content_hash some_hash;
      counts = counts;
      phases =
          subst (λ ps. ArePhasesSetOnce ps (apply api cos u).status.observed_phases)
            pin.observed_phases phases;
    }

pub apply-from_reconcile-IsAllowedChange :
    (api : ConditionApi) (old : ClusterObjectSetStatus) (cos : ClusterObjectSet)
    (result : Option RevisionResult) (e : Option Error) (now : Time) (u : Update)
    → HasUniqueNames old.observed_phases
    → IsPinned old cos.status
    → from_reconcile cos result e now ≡ some u
    → IsAllowedChange old (apply api cos u).status
apply-from_reconcile-IsAllowedChange api old cos result e now u unique pin q =
    apply-IsAllowedChange api old cos u pin (
      apply-from_reconcile-ArePhasesSetOnce api cos result e now u
        (subst HasUniqueNames (sym pin.observed_phases) unique) q)

-- The phases that a teardown observes: the old ones, none, or new ones with the old times.
abbrev torn_phases : ClusterObjectSet → Option RevisionTeardownResult → Time → List ObservedPhase
torn_phases cos result now =
    preserve_completion_times cos.status.observed_phases
      (observed_phases_from_teardown_result cos.spec.phases result) now

from_teardown_phases :
    (cos : ClusterObjectSet) (result : Option RevisionTeardownResult) (e : Option Error)
    (now : Time)
    → ((from_teardown cos result e now).observed_phases ≡ none)
      ⊎ (((from_teardown cos result e now).observed_phases ≡ some [])
          ⊎ ((from_teardown cos result e now).observed_phases ≡ some (torn_phases cos result now)))
unfolding from_teardown teardown_update
from_teardown_phases cos result none now = inr (inr refl)
from_teardown_phases cos result (some e) now = ground arith

pub apply-from_teardown-IsAllowedChange :
    (api : ConditionApi) (cos : ClusterObjectSet) (result : Option RevisionTeardownResult)
    (e : Option Error) (now : Time)
    → HasUniqueNames cos.status.observed_phases
    → IsAllowedChange cos.status (apply api cos (from_teardown cos result e now)).status
unfolding apply
apply-from_teardown-IsAllowedChange api cos result e now unique =
    apply-IsAllowedChange api cos.status cos (from_teardown cos result e now)
      (IsPinned-self cos.status)
      (elim (from_teardown_phases cos result e now) [
        | inl same ↦ rw same (ArePhasesSetOnce-self cos.status.observed_phases unique)
        | inr (inl empty) ↦ rw empty (ArePhasesSetOnce-nil cos.status.observed_phases)
        | inr (inr fresh) ↦
            rw fresh
              (preserve_completion_times-ArePhasesSetOnce cos.status.observed_phases _ now unique)
      ])
