-- ===== src/Controller/Cos/Handler/Worked.antt =====
-- What a reconcile of the objects that ends without an error has done.
use orb_operator.Base.{
  none, some, Option, List, ◌≡◌, refl, sym, ap, ◌∙◌, subst, some-injective, true, String_eq,
}
use orb_operator.Errors.{Result, ok, err, internal_error}
use orb_operator.Errors.Steps.{ok-injective}
use orb_operator.Api.{ClusterObjectSet}
use orb_operator.Assertions.{Prober}
use orb_operator.Boxcutter.{BoxRevision, RevisionResult}
use orb_operator.Object.{Resolved}
use orb_operator.Revision.Builder.{build}
use orb_operator.Revision.Engine
use orb_operator.Revision.Engine.{Answer}
use orb_operator.Controller.Server.{History, return}
use orb_operator.Controller.Server.Effects.{ends-bind}
use orb_operator.Controller.Cos.Env.{Env}
use orb_operator.Controller.Cos.Prepare.{
  EngineOf, as_error, classified, engine_options, new_engine, pin, pin_result, resolve_and_prepare,
  resolve_pinned, resolve_verified,
}
use orb_operator.Controller.Cos.Handler.{
  Outcome, Preparation, answered, answered_option, do_reconcile, failed, reconcile_prepared,
}
use orb_operator.Controller.Cos.Handler.Work.{facts_of, new_engine-Ready, as_error-ok}

module _ {Obj GzipReader Cel Options PhaseOptions : Type 0}
    (env : Env Obj GzipReader Cel Options PhaseOptions) where
  -- The objects are those of the revision, by the hash of its status; the engine is the one of the
  -- revision's options; and what it made of the revision that is built is the outcome.
  pub record Worked (cos : ClusterObjectSet) (siblings : List ClusterObjectSet) (h : History)
      (o : Outcome RevisionResult) : Type 0 where
    pub resolved : Resolved Obj
    pub verified : resolve_verified env cos h ≡ ok resolved
    pub opened : History
    pub answer : Answer History RevisionResult
    pub reconciled :
        let cos' = pin resolved.hash cos in
        Engine.reconcile
          (env.engines (engine_options cos'))
          cos'.status.observed_phases
          (build env.new_cel_probe cos' resolved siblings)
          env.aggregate
          opened
        ≡ some answer
    pub outcome : o ≡ answered (pin resolved.hash cos) answer

  abbrev pub Ready : Type 0
  Ready = EngineOf env × BoxRevision Obj (Prober Cel) ClusterObjectSet

  -- The engine and the revision, where there are any.
  abbrev pub IsReady :
      ClusterObjectSet → Resolved Obj → List ClusterObjectSet → Result Ready × History → Type 0
  IsReady cos resolved siblings (p, h) =
      (r : Ready)
      → p ≡ ok r
      → (env.engines (engine_options cos), build env.new_cel_probe cos resolved siblings) ≡ r

  pub prepared-IsReady :
      (cos : ClusterObjectSet) (resolved : Resolved Obj) (siblings : List ClusterObjectSet)
      (h : History)
      → IsReady cos resolved siblings (resolve_and_prepare env cos (ok resolved) siblings h)
  unfolding resolve_and_prepare classified
  prepared-IsReady cos resolved siblings h =
      let rev = build env.new_cel_probe cos resolved siblings in
      ends-bind {B = Ready} (IsReady cos resolved siblings)
        (classified (λ e. internal_error e) (new_engine env cos resolved))
        (λ engine. return (engine, rev)) h
        (λ engine q r e.
          ap (λ (x : EngineOf env). (x, rev))
            ((new_engine-Ready env (record (facts_of env cos) { held = true }) cos resolved h
                refl).1
              engine (as_error-ok env _ _ engine q))
          ∙ ok-injective _ _ e)
        (λ x q r e. absurd (cc e))

  answered_option-some :
      (cos : ClusterObjectSet) (a : Option (Answer History RevisionResult))
      (o : Outcome RevisionResult)
      → answered_option cos a ≡ some o
      → (b : Answer History RevisionResult) × (a ≡ some b) × (o ≡ answered cos b)
  unfolding answered_option
  answered_option-some cos none o q = absurd (cc q)
  answered_option-some cos (some b) o q = (b, refl, sym (some-injective _ _ q))

  reconcile_prepared-Worked :
      (cos : ClusterObjectSet) (siblings : List ClusterObjectSet) (h : History)
      (r : Result (Resolved Obj)) (o : Outcome RevisionResult) (p : Preparation env)
      → resolve_verified env cos h ≡ r
      → resolve_and_prepare env (pin_result r cos) r siblings h ≡ p
      → reconcile_prepared env (pin_result r cos) p ≡ some o
      → o.error ≡ none
      → Worked cos siblings h o
  unfolding reconcile_prepared failed pin_result resolve_and_prepare classified as_error
  reconcile_prepared-Worked cos siblings h r o (err e, h') verified prepared done clean =
      absurd (cc (ap (λ (x : Outcome RevisionResult). x.error) (some-injective _ _ done), clean))
  reconcile_prepared-Worked cos siblings h (err e) o (ok r, h') verified prepared done clean =
      absurd (cc (ap (λ (p : Preparation env). p.0) prepared))
  reconcile_prepared-Worked cos siblings h (ok resolved) o (ok r, h') verified prepared done clean =
      let cos' = pin resolved.hash cos in
      let ready =
        subst (IsReady cos' resolved siblings) prepared (prepared-IsReady cos' resolved siblings h)
          r refl in
      let (answer, ran, outcome) = answered_option-some cos' _ o done in
      record {
        resolved = resolved;
        verified = verified;
        opened = h';
        answer = answer;
        reconciled =
            subst
              (λ (x : Ready).
                Engine.reconcile x.0 cos'.status.observed_phases x.1 env.aggregate h' ≡ some answer)
              (sym ready) ran;
        outcome = outcome;
      }

  pub do_reconcile-Worked :
      (cos : ClusterObjectSet) (siblings : List ClusterObjectSet) (h : History)
      (o : Outcome RevisionResult)
      → do_reconcile env cos siblings h ≡ some o
      → o.error ≡ none
      → Worked cos siblings h o
  unfolding do_reconcile resolve_pinned
  do_reconcile-Worked cos siblings h o done clean =
      reconcile_prepared-Worked cos siblings h (resolve_verified env cos h) o _ refl refl done clean
