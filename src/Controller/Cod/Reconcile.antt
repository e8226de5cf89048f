-- ===== src/Controller/Cod/Reconcile.antt =====
-- `Reconcile` and `reconcile`: how the handler composes its steps.
pub mod Failing
use orb_operator.Base.{String, not, Option, none, some, List, String_eq, if◌then◌else◌}
use orb_operator.Errors.{Error, wrap, join, Result, ok, err}
use orb_operator.Api.{ClusterObjectSet, ClusterObjectDeployment, is_zero}
use orb_operator.Kube.{CtrlResult, no_requeue}
use orb_operator.Controller.Server.{update_cod_status, History, M, ◌>>=◌, ◌>>◌, return, perform}
use orb_operator.Controller.Cod.Env.{Env}
use orb_operator.Controller.Cod.Handler.{
  list_group_revisions, adopt_orphans, sync_revision, update_status, archive_superseded,
  prune_archived,
}

module _ (env : Env) where
  -- The steps before the status is computed, and those after.
  unfoldable pub before_status : ClusterObjectDeployment → M (List ClusterObjectSet)
  unfolding list_group_revisions adopt_orphans sync_revision
  before_status cod = do
    all_coss ← list_group_revisions env cod.metadata.name
    owned_coss ← adopt_orphans env cod all_coss
    sync_revision env cod all_coss owned_coss
    return owned_coss

  unfoldable pub after_status :
      ClusterObjectDeployment → List ClusterObjectSet → CtrlResult → M CtrlResult
  unfolding archive_superseded prune_archived
  after_status cod owned_coss requeue_after = do
    archive_superseded env owned_coss
    prune_archived env cod owned_coss
    return requeue_after

  -- The pointer `cod` is written to: the deployment is returned on error too.
  unfoldable pub reconcile_cod :
      ClusterObjectDeployment → History → Result CtrlResult × ClusterObjectDeployment × History
  unfolding before_status update_status after_status
  reconcile_cod cod h =
      let (before, h₁) = before_status cod h in
      elim before [
        | err e ↦ (err e, cod, h₁)
        | ok owned_coss ↦
            let (updated, requeue_after) = update_status env cod owned_coss (env.now h₁) in
            let (after, h₂) = after_status cod owned_coss requeue_after h₁ in (after, updated, h₂)
      ]

  result_of : Result CtrlResult → CtrlResult
  result_of (ok r) = r
  result_of (err e) = no_requeue

  unfoldable error_of : Result CtrlResult → Option Error
  error_of (ok r) = none
  error_of (err e) = some e

  -- `errors.Join` leaves nil errors out.
  unfoldable joined : Option Error → Result (Unit {0}) → Option Error
  joined e (ok _) = e
  joined none (err f) = some (wrap "updating status: " f)
  joined (some e) (err f) = some (join e (wrap "updating status: " f))

  unfoldable pub finish :
      ClusterObjectDeployment
      → Result CtrlResult
      → ClusterObjectDeployment
      → History
      → (CtrlResult × Option Error) × History
  unfolding perform result_of error_of joined
  finish existing result updated h =
      if env.status_equal existing.status updated.status
      then ((result_of result, error_of result), h)
      else let (r, h') = perform env.server (update_cod_status updated) h in
        ((result_of result, joined (error_of result) r), h')

  unfoldable pub reconcile_found :
      Result (Option ClusterObjectDeployment) → History → (CtrlResult × Option Error) × History
  unfolding reconcile_cod finish
  reconcile_found (err e) h = ((no_requeue, some e), h)
  reconcile_found (ok none) h = ((no_requeue, none), h)
  reconcile_found (ok (some existing)) h =
      let (result, updated, h') = reconcile_cod existing h in
      let done = finish existing result updated h' in
      if not (is_zero existing.metadata.deletion_timestamp) then ((no_requeue, none), h) else done

  -- `Reconciler.Reconcile`
  unfoldable pub reconcile : String → History → (CtrlResult × Option Error) × History
  unfolding reconcile_found
  reconcile name h = reconcile_found (env.get h name) h
