-- ===== src/Rollout/Deadline/Agrees.antt =====
-- The deadline that the example shows is the one that the operator's controller enforces.
use orb_operator.Base.{
  ℕ, ◌+◌, ◌*◌, ◌<◌, ◌≡◌, ◌↔◌, refl, ap, ◌∙◌, true, Option, none, some, List, [], ◌∷◌, arith,
}
use orb_operator.Base.Int.{pos, sub_ℕ, leb_ℤ}
use orb_operator.Api.{
  Time, ObservedPhase, ClusterObjectSet, ClusterObjectDeployment, condition_false, condition_true,
}
use orb_operator.Status.Cod.Progress.{
  last_milestone, last_milestone_from, later_of, evaluate_deadline,
}
use orb_operator.Status.Cod.Progress.Deadline.{evaluate_deadline-Judges, limit}
use orb_operator.Rollout.Deadline.{
  minute, later, last_progress_from, last_progress, remaining_of, remaining_at, deadline_remaining,
}

later_agrees : (o : Option Time) (last : Time) → later o last ≡ later_of last o
unfolding later later_of
later_agrees none last = refl
later_agrees (some t) last = refl

last_progress_from-agrees :
    (last : Time) (ops : List ObservedPhase)
    → last_progress_from last ops ≡ last_milestone_from last ops
unfolding last_progress_from last_milestone_from
last_progress_from-agrees last [] = refl
last_progress_from-agrees last (op ∷ ops) =
    ap (λ t. last_progress_from t ops) (later_agrees op.completed_at last)
    ∙ last_progress_from-agrees (later_of last op.completed_at) ops

remaining_of-eq :
    (minutes last now : ℕ)
    → minutes * minute < limit
    → now < last + limit
    → last + minutes * minute < now + limit
    → remaining_of minutes last now ≡ sub_ℕ (last + minutes * minute) now
unfolding remaining_of
remaining_of-eq minutes last now h k l = ground arith

deadline_remaining-eq :
    (cod : ClusterObjectDeployment) (cos : ClusterObjectSet) (now minutes : ℕ)
    → cod.spec.progress_deadline_minutes ≡ some minutes
    → deadline_remaining (record { cos = some cos; cod = some cod }) now
      ≡ remaining_of minutes (last_milestone cos) now
unfolding deadline_remaining remaining_at last_progress last_milestone
deadline_remaining-eq cod cos now minutes e = rw e (
    ap (λ t. remaining_of minutes t now)
      (last_progress_from-agrees cos.metadata.creation_timestamp cos.status.observed_phases))

-- For a revision that has not completed, under a deadline in minutes that is an `int64` of
-- nanoseconds, at a time near enough to its last milestone: the time that the example shows as
-- remaining is not positive exactly if the operator reports that the deadline has passed, and
-- otherwise it is the time after which the operator evaluates it again.
pub deadline_remaining-agrees :
    (cod : ClusterObjectDeployment) (cos : ClusterObjectSet) (now minutes : ℕ)
    → cod.spec.progress_deadline_minutes ≡ some minutes
    → cos.status.completed_at ≡ none
    → minutes * minute < limit
    → now < last_milestone cos + limit
    → last_milestone cos + minutes * minute < now + limit
    → ((leb_ℤ (deadline_remaining (record { cos = some cos; cod = some cod }) now) (pos 0) ≡ true)
        ↔ ((evaluate_deadline cod (some cos) now (pos minute)).0.status ≡ condition_false))
      × ((evaluate_deadline cod (some cos) now (pos minute)).0.status ≡ condition_true
          → (evaluate_deadline cod (some cos) now (pos minute)).1.requeue_after
            ≡ deadline_remaining (record { cos = some cos; cod = some cod }) now)
deadline_remaining-agrees cod cos now minutes e c h k l =
    let j = evaluate_deadline-Judges cod cos now minutes minute e c h k l in
    let last = last_milestone cos in
    let shown =
      deadline_remaining-eq cod cos now minutes e ∙ remaining_of-eq minutes last now h k l in
    rw shown (
      (λ p. ground (arith, j.status), λ p. ground (arith, j.status)),
      λ p. j.requeue ∙ ground (arith, j.status),
    )
