-- ===== src/Controller/Cos/Handler/Unopened.antt =====
-- What is left of the status if no engine can be opened.
use orb_operator.Base.{false, none, some, List, [], ◌≡◌, refl, sym, ap, ◌∙◌, String_eq}
use orb_operator.Errors.{Error, internal_error, errors_as, resolution, ok, err}
use orb_operator.Api.{ClusterObjectSet, Time}
use orb_operator.Object.{Resolved}
use orb_operator.Status.Cos.Update.{
  Update, apply, from_reconcile, internal_error_update, new_condition, sum_object_counts,
}
use orb_operator.Controller.Server.{History, return}
use orb_operator.Controller.Server.Effects.{ends-bind}
use orb_operator.Errors.Steps.{err-injective}
use orb_operator.Revision.Builder.{build}
use orb_operator.Controller.Cos.Env.{Env}
use orb_operator.Controller.Cos.Prepare.{
  pin, pin_result, new_engine, resolve_verified, resolve_pinned, resolve_and_prepare, classified,
  as_error,
}
use orb_operator.Controller.Cos.Handler.{failed, do_reconcile, reconcile_prepared}

-- The work fails, and what the status then says of the phases.
pub record Forgets {Obj GzipReader Cel Options PhaseOptions : Type 0}
    (env : Env Obj GzipReader Cel Options PhaseOptions) (cos : ClusterObjectSet)
    (siblings : List ClusterObjectSet) (h : History) (now : Time) : Type 0 where
  pub cos' : ClusterObjectSet
  pub error : Error
  pub history : History
  pub work : do_reconcile env cos siblings h ≡ some (failed cos' error history)
  pub update : Update
  pub updated : from_reconcile cos' none (some error) now ≡ some update
  pub observed_phases : (apply env.conditions cos' update).status.observed_phases ≡ []
  pub object_counts : (apply env.conditions cos' update).status.object_counts ≡ none

module _ {Obj GzipReader Cel Options PhaseOptions : Type 0}
    (env : Env Obj GzipReader Cel Options PhaseOptions) where
  prepared_refused :
      (cos : ClusterObjectSet) (siblings : List ClusterObjectSet) (h : History) (r : Resolved Obj)
      (e : Error)
      → (new_engine env cos r h).0 ≡ err e
      → resolve_and_prepare env cos (ok r) siblings h
        ≡ (err (internal_error e), (new_engine env cos r h).1)
  unfolding resolve_and_prepare classified as_error
  prepared_refused cos siblings h r e refused =
      ends-bind (λ p. p ≡ (err (internal_error e), (new_engine env cos r h).1))
        (classified (λ x. internal_error x) (new_engine env cos r))
        (λ engine. return (engine, build env.new_cel_probe cos r siblings)) h
        (λ _ q. absurd (cc (q, failing)))
        (λ x q. ap (λ y. (err y, (new_engine env cos r h).1)) (err-injective _ _ (sym q ∙ failing)))
    where
      failing : as_error (λ x. internal_error x) (new_engine env cos r h).0 ≡ err (internal_error e)
      failing = ap (as_error (λ x. internal_error x)) refused

  -- If the objects are resolved but the accessor or an engine is refused, with an error that is not
  -- one of resolution, then the status that results has no observed phases and no counts, so the
  -- completion times of the phases are lost.
  pub do_reconcile-Forgets :
      (cos : ClusterObjectSet) (siblings : List ClusterObjectSet) (h : History) (now : Time)
      (r : Resolved Obj) (e : Error)
      → resolve_verified env cos h ≡ ok r
      → (new_engine env (pin r.hash cos) r h).0 ≡ err e
      → errors_as resolution e ≡ false
      → Forgets env cos siblings h now
  unfolding do_reconcile resolve_pinned pin_result reconcile_prepared failed from_reconcile
      errors_as internal_error_update new_condition apply sum_object_counts
  do_reconcile-Forgets cos siblings h now r e q refused other = record {
    cos' = pin r.hash cos;
    error = internal_error e;
    history = (new_engine env (pin r.hash cos) r h).1;
    work = worked;
    update = internal_error_update (internal_error e);
    updated = rw other refl;
    observed_phases = refl;
    object_counts = refl;
  }
    where
      worked :
          do_reconcile env cos siblings h
          ≡ some
              (failed (pin r.hash cos) (internal_error e) (new_engine env (pin r.hash cos) r h).1)
      worked = rw q (
          ap (reconcile_prepared env (pin r.hash cos))
            (prepared_refused (pin r.hash cos) siblings h r e refused))
