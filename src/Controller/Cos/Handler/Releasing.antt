-- ===== src/Controller/Cos/Handler/Releasing.antt =====
-- When the finalizer of a revision is given back.
use orb_operator.Base.{true, not, Option, none, some, ◌≡◌, ◌≢◌, refl, ap, if-elim, not-false, ◌∙◌}
use orb_operator.Errors.{Error, Result, ok, err}
use orb_operator.Api.{ClusterObjectSet}
use orb_operator.Kube.{CtrlResult, no_requeue}
use orb_operator.Boxcutter.{RevisionTeardownResult}
use orb_operator.Status.Cos.Update.{apply, from_teardown}
use orb_operator.Controller.Server.{Call, update_cos_status, History, M, return}
use orb_operator.Controller.Server.Effects.{ends-bind}
use orb_operator.Controller.Finalizer.{PollsUntil}
use orb_operator.Controller.Cos.Env.{Env, finalizer_key}
use orb_operator.Controller.Cos.Prepare.{has_finalizer}
use orb_operator.Controller.Cos.Handler.{
  do_teardown, teardown_objects, is_torn_down, write_status, release, finish_teardown, result_of,
  written, Outcome,
}
use orb_operator.Errors.Steps.{ok-injective}
use orb_operator.Controller.Cos.Handler.Released.{Released, release-Released}
use orb_operator.Controller.Cos.Handler.Closing.{do_teardown-cos}

pub data IsStatusUpdate : Call → Type 0 where
  is_status_update : {cos : ClusterObjectSet} → IsStatusUpdate (update_cos_status cos)

module _ {Obj GzipReader Cel Options PhaseOptions : Type 0}
    (env : Env Obj GzipReader Cel Options PhaseOptions) where
  write_status-ok :
      (existing cos : ClusterObjectSet) (e : Option Error) (h : History)
      → (write_status env existing cos e h).0 ≡ ok tt
      → e ≡ none
  unfolding write_status written result_of
  write_status-ok existing cos none h = λ q. refl
  write_status-ok existing cos (some e) h =
      if-elim (λ (p : Result (Unit {0}) × History). p.0 ≡ ok tt → some e ≡ none)
        (env.status_equal existing.status cos.status) _ _ (λ _ q. absurd (cc q))
        (λ _ q. absurd (not_ok _ q))
    where
      not_ok : (r : Result (Unit {0})) → written env cos (some e) r ≢ ok tt
      not_ok (ok _) q = absurd (cc q)
      not_ok (err x) q = absurd (cc q)

  requeues : record no_requeue { requeue = true } ≢ no_requeue
  requeues q = absurd (cc (ap (λ (r : CtrlResult). r.requeue) q))

  pub still_held :
      (cos : ClusterObjectSet) (h : History)
      → has_finalizer env cos finalizer_key ≡ true
      → let o = do_teardown env cos h in
        has_finalizer env
          (apply env.conditions o.cos (from_teardown o.cos o.result o.error (env.now o.history)))
          finalizer_key
        ≡ true
  unfolding apply
  still_held cos h held =
      ap (λ (c : ClusterObjectSet). has_finalizer env c finalizer_key) (do_teardown-cos env cos h)
      ∙ held

  -- What a teardown that is done with the revision has found and done.
  pub record IsDone (o : Outcome RevisionTeardownResult) (cos : ClusterObjectSet) (h' : History)
      : Type 0 where
    pub error : o.error ≡ none
    pub torn_down : is_torn_down o.result ≡ true
    pub before : History
    pub released : Released env cos before h'

  finish_teardown-ok :
      (cos : ClusterObjectSet) (result : Option RevisionTeardownResult) (h : History)
      → PollsUntil env.poll
      → has_finalizer env cos finalizer_key ≡ true
      → (finish_teardown env cos result h).0 ≡ ok no_requeue
      → (is_torn_down result ≡ true) × Released env cos h (finish_teardown env cos result h).1
  unfolding finish_teardown
  finish_teardown-ok cos result h polls held =
      if-elim
        (λ (m : M CtrlResult).
          (m h).0 ≡ ok no_requeue → (is_torn_down result ≡ true) × Released env cos h (m h).1)
        (not (is_torn_down result)) _ _ (λ _ q. absurd (requeues (ok-injective _ _ q)))
        (λ torn q. (
          not-false _ torn,
          ends-bind {B = CtrlResult} (λ p. p.0 ≡ ok no_requeue → Released env cos h p.1)
              (release env cos) (λ _. return no_requeue) h
              (λ _ r _. release-Released env cos h polls held r) (λ _ _ r. absurd (cc r)) q,
        ))

  pub teardown_objects-IsDone :
      (cos : ClusterObjectSet) (h : History)
      → PollsUntil env.poll
      → has_finalizer env cos finalizer_key ≡ true
      → (teardown_objects env cos h).0 ≡ ok no_requeue
      → let o = do_teardown env cos h in
        IsDone o
          (apply env.conditions o.cos (from_teardown o.cos o.result o.error (env.now o.history)))
          (teardown_objects env cos h).1
  unfolding teardown_objects
  teardown_objects-IsDone cos h polls held =
      let o = do_teardown env cos h in
      let cos' =
        apply env.conditions o.cos (from_teardown o.cos o.result o.error (env.now o.history)) in
      ends-bind {B = CtrlResult} (λ p. p.0 ≡ ok no_requeue → IsDone o cos' p.1)
        (write_status env cos cos' o.error) (λ _. finish_teardown env cos' o.result) o.history
        (λ _ q r.
          let (torn, released) =
            finish_teardown-ok cos' o.result _ polls (still_held cos h held) r in
          record {
            error = write_status-ok cos cos' o.error o.history q;
            torn_down = torn;
            before = _;
            released = released;
          })
        (λ e _ r. absurd (cc r))
