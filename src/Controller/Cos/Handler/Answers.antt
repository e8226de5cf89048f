-- ===== src/Controller/Cos/Handler/Answers.antt =====
-- That the handler of a revision does not panic.
use orb_operator.Base.{
  some-injective, Bool, true, false, ◌||◌, Option, none, some, List, ◌≡◌, refl, if-elim, subst, ap,
  sym,
}
use orb_operator.Errors.{Result, ok, err}
use orb_operator.Api.{ClusterObjectSet, is_archived_state}
use orb_operator.Kube.{CtrlResult}
use orb_operator.Boxcutter.{RevisionResult}
use orb_operator.Object.{Resolved}
use orb_operator.Revision.Engine.{Answer}
use orb_operator.Revision.Engine.Answers.{GivesAnswers, IsAnswer, reconcile-answers}
use orb_operator.Status.Cos.Update.{Update}
use orb_operator.Status.Cos.Update.Laws.{from_reconcile_panics}
use orb_operator.Controller.Server.{History}
use orb_operator.Controller.Cos.Env.{Env, EngineOptions}
use orb_operator.Controller.Cos.Prepare.{
  as_error, classified, ensure_finalizer, resolve_and_prepare, resolve_pinned, resolve_siblings,
}
use orb_operator.Controller.Cos.Handler.Worked.{IsReady, Ready, prepared-IsReady}
use orb_operator.Controller.Cos.Handler.{
  Outcome, Preparation, answered, answered_option, do_reconcile, ensured, failed, is_deleted,
  no_result, reconcile_active, reconcile_cos, reconcile_prepared, report, with_siblings,
  write_update,
}

module _ {Obj GzipReader Cel Options PhaseOptions : Type 0}
    (env : Env Obj GzipReader Cel Options PhaseOptions) where
  abbrev pub Answers : {A : Type 0} → Option A → Type 0
  Answers {A} o = (a : A) × (o ≡ some a)

  abbrev Works : Option (Outcome RevisionResult) → Type 0
  Works work = (o : Outcome RevisionResult) × (work ≡ some o) × IsAnswer o.result o.error

  module _ (gives : (opts : EngineOptions) → GivesAnswers (env.engines opts)) where
    answered_option-Works :
        (cos : ClusterObjectSet) (answer : Option (Answer History RevisionResult))
        → (a : Answer History RevisionResult) × (answer ≡ some a) × IsAnswer a.result a.error
        → Works (answered_option cos answer)
    unfolding answered_option answered
    answered_option-Works cos none (a, q, n) = absurd (cc q)
    answered_option-Works cos (some b) (a, q, n) = (
      _,
      refl,
      subst (λ (x : Answer History RevisionResult). IsAnswer x.result x.error)
          (sym (some-injective _ _ q)) n,
    )

    reconcile_prepared-Works :
        (cos : ClusterObjectSet) (resolution : Result (Resolved Obj))
        (siblings : List ClusterObjectSet) (h : History) (p : Preparation env)
        → resolve_and_prepare env cos resolution siblings h ≡ p
        → Works (reconcile_prepared env cos p)
    unfolding reconcile_prepared failed resolve_and_prepare classified as_error
    reconcile_prepared-Works cos r siblings h (err e, h') prepared =
        (_, refl, λ q. absurd (cc (q.1)))
    reconcile_prepared-Works cos (err e) siblings h (ok r, h') prepared =
        absurd (cc (ap (λ (p : Preparation env). p.0) prepared))
    reconcile_prepared-Works cos (ok resolved) siblings h (ok r, h') prepared =
        let ready =
          subst (IsReady env cos resolved siblings) prepared
            (prepared-IsReady env cos resolved siblings h) r refl in
        answered_option-Works cos _ (
          reconcile-answers r.0 cos.status.observed_phases r.1 env.aggregate h'
            (subst (λ (x : Ready env). GivesAnswers x.0) ready (gives _)))

    do_reconcile-Works :
        (cos : ClusterObjectSet) (siblings : List ClusterObjectSet) (h : History)
        → Works (do_reconcile env cos siblings h)
    unfolding do_reconcile
    do_reconcile-Works cos siblings h =
        let (resolution, cos') = resolve_pinned env cos h in
        reconcile_prepared-Works cos' resolution siblings h _ refl

    write_update-Answers :
        (cos : ClusterObjectSet) (o : Outcome RevisionResult) (u : Option Update)
        → ¬ (u ≡ none)
        → Answers (write_update env cos o u)
    unfolding write_update
    write_update-Answers cos o none n = absurd (n refl)
    write_update-Answers cos o (some u) n = (_, refl)

    report-Answers :
        (cos : ClusterObjectSet) (work : Option (Outcome RevisionResult))
        → Works work
        → Answers (report env cos work)
    unfolding report
    report-Answers cos none (o, q, n) = absurd (cc q)
    report-Answers cos (some o) (o', q, n) = write_update-Answers cos o _ (λ panics.
        subst (λ (x : Outcome RevisionResult). IsAnswer x.result x.error)
          (sym (some-injective _ _ q)) n
          ((from_reconcile_panics o.cos o.result o.error (env.now o.history)).0 panics))

    ensured-Answers :
        (cos : ClusterObjectSet) (siblings : List ClusterObjectSet) (p : Result Bool × History)
        → Answers (ensured env cos siblings p)
    unfolding ensured
    ensured-Answers cos siblings (err e, h) = (_, refl)
    ensured-Answers cos siblings (ok true, h) = (_, refl)
    ensured-Answers cos siblings (ok false, h) =
        report-Answers cos _ (do_reconcile-Works cos siblings h)

    with_siblings-Answers :
        (cos : ClusterObjectSet) (p : Result (List ClusterObjectSet) × History)
        → Answers (with_siblings env cos p)
    unfolding with_siblings
    with_siblings-Answers cos (err e, h) = (_, refl)
    with_siblings-Answers cos (ok siblings, h) =
        ensured-Answers cos siblings (ensure_finalizer env cos h)

    no_result-Answers :
        (r : Option (Result (Unit {0}) × History)) → Answers r → Answers (no_result r)
    unfolding no_result
    no_result-Answers none (a, q) = absurd (cc q)
    no_result-Answers (some (ok _, h)) _ = (_, refl)
    no_result-Answers (some (err e, h)) _ = (_, refl)

    -- Where boxcutter's reconcile of a revision gives a result or an error, the handler of a
    -- revision never dereferences a nil result: on every revision and history it returns.
    pub reconcile_cos-answers :
        (cos : ClusterObjectSet) (h : History)
        → (r : Result CtrlResult × History) × (reconcile_cos env cos h ≡ some r)
    unfolding reconcile_cos reconcile_active
    reconcile_cos-answers cos h =
        if-elim (λ (o : Option (Result CtrlResult × History)). Answers o)
          (is_deleted cos || is_archived_state cos.spec.lifecycle_state) _ _ (λ _. (_, refl))
          (λ _. no_result-Answers _ (with_siblings-Answers cos (resolve_siblings env cos h)))
