-- ===== src/Controller/Cos/Handler/Unavailable.antt =====
-- A teardown writes no status that says that the revision is available.
use orb_operator.Base.{true, false, not, ◌&&◌, ◌≡◌, if-elim, not-false}
use orb_operator.Api.{ClusterObjectSet, condition_type_available}
use orb_operator.Kube.{CtrlResult, SetsByType}
use orb_operator.Revision.Engine.Effects.{Bounds}
use orb_operator.Status.Cos.Update.{apply, from_teardown}
use orb_operator.Status.Cos.Update.Laws.{apply_available, from_teardown-Reports}
use orb_operator.Controller.Server.{History, M}
use orb_operator.Controller.Server.Effects.{Adds, Adds-bind, Adds-nothing, Adds-trans}
use orb_operator.Controller.Cos.Env.{Env, EngineOptions, finalizer_key}
use orb_operator.Controller.Cos.Protocol.{IsWrite}
use orb_operator.Controller.Cos.Prepare.{has_finalizer}
use orb_operator.Controller.Cos.Handler.{
  do_teardown, finish_teardown, is_deleted, teardown, teardown_objects, write_status,
}
use orb_operator.Controller.Cos.Handler.Work.{do_teardown-WorkEnds, facts_of}
use orb_operator.Controller.Cos.Handler.Writes.{
  WorkEnds-Writes, Writes, finish_teardown-Writes, released-Writes, write_status-Writes,
}

module _ {Obj GzipReader Cel Options PhaseOptions : Type 0}
    (env : Env Obj GzipReader Cel Options PhaseOptions) (sets : SetsByType env.conditions)
    (writes : (opts : EngineOptions) → Bounds (env.engines opts) (Adds IsWrite))
    (Q : ClusterObjectSet → Type 0)
    (quiet : (cos : ClusterObjectSet)
      → env.conditions.is_status_condition_true cos.status.conditions condition_type_available
        ≡ false
      → Q cos) where
  teardown_objects-Writes :
      (cos : ClusterObjectSet) (h : History)
      → has_finalizer env cos finalizer_key ≡ true
      → Adds (Writes Q) h (teardown_objects env cos h).1
  unfolding teardown_objects
  teardown_objects-Writes cos h held =
      let o = do_teardown env cos h in
      let u = from_teardown o.cos o.result o.error (env.now o.history) in
      let cos' = apply env.conditions o.cos u in
      let unavailable =
        apply_available env.conditions o.cos false _ u sets
          (from_teardown-Reports o.cos o.result o.error (env.now o.history)) in
      Adds-trans (Writes Q)
        (WorkEnds-Writes Q env (facts_of env cos) h o
          (do_teardown-WorkEnds env writes (facts_of env cos) cos h held))
        (Adds-bind (Writes Q) (write_status env cos cos' o.error)
          (λ _. finish_teardown env cos' o.result) o.history
          (write_status-Writes Q env cos cos' o.error o.history (quiet cos' unavailable))
          (λ _ _. finish_teardown-Writes Q env cos' o.result _))

  pub teardown-Writes :
      (cos : ClusterObjectSet) (h : History) → Adds (Writes Q) h (teardown env cos h).1
  unfolding teardown
  teardown-Writes cos h =
      let P = Writes Q in
      if-elim (λ (m : M CtrlResult). Adds P h (m h).1) (not (has_finalizer env cos finalizer_key)) _
        _ (λ _. Adds-nothing P h)
        (λ q.
          if-elim (λ (m : M CtrlResult). Adds P h (m h).1)
            (is_deleted cos && has_finalizer env cos "orphan") _ _
            (λ _. released-Writes Q env cos h) (λ _. teardown_objects-Writes cos h (not-false _ q)))
