-- ===== src/Controller/Cos/Handler/Substituted.antt =====
-- Runs on a revision whose objects have another content than its status says.
use orb_operator.Base.{
  String, false, none, some, List, ◌≡◌, ◌≢◌, refl, inl, inr, Bool-cases, ◌==◌, String_eq, eq_iff,
  ◌<>◌,
}
use orb_operator.Errors.{Error, text, object_resolution_error, errors_as, ok, err}
use orb_operator.Api.{ClusterObjectSet, Time, condition_unknown}
use orb_operator.Object.{Resolved}
use orb_operator.Object.Resolver.{resolve, verify_hash}
use orb_operator.Status.Cos.Update.{Update, from_reconcile, resolution_error_update, new_condition}
use orb_operator.Controller.Server.{History}
use orb_operator.Controller.Cos.Env.{Env}
use orb_operator.Controller.Cos.Prepare.{and_verify, resolve_verified, resolve_pinned}
use orb_operator.Controller.Cos.Handler.{failed, do_reconcile}

differs : (a b : String) → a ≢ b → (a == b) ≡ false
differs a b n = elim (Bool-cases (a == b)) [ inl q ↦ absurd (n ((eq_iff a b).0 q)) | inr q ↦ q ]

verify_hash-differs :
    {Obj : Type 0} (r : Resolved Obj) (existing : String)
    → existing ≢ ""
    → existing ≢ r.hash
    → verify_hash r existing
      ≡ err (text ("resolved content hash mismatch: expected " <> existing <> ", got " <> r.hash))
unfolding verify_hash
verify_hash-differs r existing some_hash other =
    rw (differs existing "" some_hash, differs existing r.hash other) refl

-- What a run does with such objects: the work fails before any call, and the revision is reported to
-- be in an unknown state, with the phases that it had.
pub record IsRefused {Obj GzipReader Cel Options PhaseOptions : Type 0}
    (env : Env Obj GzipReader Cel Options PhaseOptions) (cos : ClusterObjectSet)
    (siblings : List ClusterObjectSet) (h : History) (now : Time) : Type 0 where
  pub error : Error
  pub work : do_reconcile env cos siblings h ≡ some (failed cos error h)
  pub update : Update
  pub updated : from_reconcile cos none (some error) now ≡ some update
  pub status : update.condition.status ≡ condition_unknown
  pub phases : update.observed_phases ≡ none

module _ {Obj GzipReader Cel Options PhaseOptions : Type 0}
    (env : Env Obj GzipReader Cel Options PhaseOptions) where
  -- If the status of a revision has a content hash and the objects are resolved to another, then no
  -- call is made for the objects, not even for the accessor, and the status that results says that
  -- the state is unknown and keeps the phases.
  pub do_reconcile-IsRefused :
      (cos : ClusterObjectSet) (siblings : List ClusterObjectSet) (h : History) (now : Time)
      (r : Resolved Obj)
      → cos.status.resolved_content_hash ≢ ""
      → cos.status.resolved_content_hash ≢ r.hash
      → resolve env.objects (env.get_slice h) cos.spec.phases ≡ ok r
      → IsRefused env cos siblings h now
  unfolding do_reconcile resolve_pinned resolve_verified and_verify from_reconcile errors_as
      resolution_error_update new_condition failed
  do_reconcile-IsRefused cos siblings h now r some_hash other q =
      let e = verify_hash-differs r cos.status.resolved_content_hash some_hash other in
      record {
        error = refusal;
        work = rw (q, e) refl;
        update = resolution_error_update cos.status.resolved_content_hash refusal;
        updated = refl;
        status = rw (differs cos.status.resolved_content_hash "" some_hash) refl;
        phases = refl;
      }
    where
      refusal : Error
      refusal = object_resolution_error (
          text (
            "resolved content hash mismatch: expected " <> cos.status.resolved_content_hash
            <> ", got " <> r.hash))
