-- ===== src/Revision/Engine/Answers.antt =====
-- That the engine gives a result or an error.
use orb_operator.Base.{List, Option, none, some, ◌≡◌, refl, ◌||◌, if-elim, is_some}
use orb_operator.Errors.{Error}
use orb_operator.Api.{ObservedPhase}
use orb_operator.Boxcutter.{BoxRevision, RevisionResult}
use orb_operator.Revision.Engine.{Answer, Engines, after_gated, later_passes, reconcile}

-- Not both are nil.
abbrev pub IsAnswer : {A : Type 0} → Option A → Option Error → Type 0
IsAnswer result error = ¬ ((result ≡ none) × (error ≡ none))

module _ {W Obj Probe Owner Options PhaseOptions : Type 0}
    (e : Engines W Obj Probe Owner Options PhaseOptions) where
  -- boxcutter's engine gives a result or an error.
  abbrev pub GivesAnswers : Type 0
  GivesAnswers =
      (rev : BoxRevision Obj Probe Owner) (opts : Options) (w : W)
      → IsAnswer (e.revision_reconcile rev opts w).result (e.revision_reconcile rev opts w).error

  abbrev IsAnswered : Option (Answer W RevisionResult) → Type 0
  IsAnswered o = (a : Answer W RevisionResult) × (o ≡ some a) × IsAnswer a.result a.error

  after_gated-answers :
      (existing : List ObservedPhase) (rev : BoxRevision Obj Probe Owner) (opts : Options)
      (result : Option RevisionResult) (error : Option Error) (w : W)
      → IsAnswer result error
      → IsAnswered (after_gated e existing rev opts result error w)
  unfolding after_gated later_passes
  after_gated-answers existing rev opts result (some x) w n = (_, refl, λ q. absurd (cc (q.1)))
  after_gated-answers existing rev opts none none w n = absurd (n (refl, refl))
  after_gated-answers existing rev opts (some gated) none w n =
      if-elim IsAnswered (is_some gated.validation_error || gated.has_progressed) _ _
        (λ _. (_, refl, λ q. absurd (cc (q.0)))) (λ _. (_, refl, λ q. absurd (cc (q.0))))

  pub reconcile-answers :
      (existing : List ObservedPhase) (rev : BoxRevision Obj Probe Owner) (opts : Options) (w : W)
      → GivesAnswers
      → IsAnswered (reconcile e existing rev opts w)
  unfolding reconcile
  reconcile-answers existing rev opts w gives =
      after_gated-answers existing rev opts _ _ _ (gives rev opts w)
