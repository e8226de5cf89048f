-- ===== src/Controller/Cos/Handler.antt =====
-- The handler of a revision. A result `none` is a panic of the code that it calls.
pub mod Work
pub mod Worked
pub mod Writes
pub mod Unavailable
pub mod Earned
pub mod Answers
pub mod Opening
pub mod Closing
pub mod TeardownFollows
pub mod Follows
pub mod Released
pub mod Orphaned
pub mod Releasing
pub mod Substituted
pub mod Unopened
pub mod Lifetime
pub mod Progress
use orb_operator.Base.{
  String, ◌<>◌, Bool, true, false, not, ◌||◌, ◌&&◌, Option, none, some, List, [], if◌then◌else◌,
}
use orb_operator.Errors.{Error, wrap, join, Result, ok, err}
use orb_operator.Api.{ClusterObjectSet, is_zero, is_archived_state}
use orb_operator.Kube.{CtrlResult, no_requeue}
use orb_operator.Assertions.{Prober}
use orb_operator.Boxcutter.{BoxRevision, RevisionResult, RevisionTeardownResult}
use orb_operator.Object.Identity.{resolve_identities}
use orb_operator.Revision.Engine.{Answer}
use orb_operator.Revision.Engine
use orb_operator.Status.Cos.Update.{Update, apply, from_reconcile, from_teardown}
use orb_operator.Controller.Server.{
  update_cos_status, free_accessor, History, M, ◌>>=◌, ◌>>◌, return, lift, perform, wrapping,
}
use orb_operator.Controller.Finalizer.{remove_finalizer, wait_for_finalizer_removal}
use orb_operator.Controller.Cos.Env.{field_owner, finalizer_key, Env}
use orb_operator.Controller.Cos.Prepare.{
  resolve_siblings, has_finalizer, EngineOf, ensure_finalizer, resolve_and_prepare, resolve_pinned,
}

-- What `doReconcile` and `doTeardown` give, with the revision in the pointer.
pub record Outcome (A : Type 0) : Type 0 where
  pub cos : ClusterObjectSet
  pub result : Option A
  pub error : Option Error
  pub history : History

unfoldable pub failed : {A : Type 0} → ClusterObjectSet → Error → History → Outcome A
failed cos e h = record { cos = cos; result = none; error = some e; history = h }

unfoldable pub answered : {A : Type 0} → ClusterObjectSet → Answer History A → Outcome A
answered cos a = record { cos = cos; result = a.result; error = a.error; history = a.cluster }

unfoldable answered_option :
    {A : Type 0} → ClusterObjectSet → Option (Answer History A) → Option (Outcome A)
unfolding answered
answered_option cos none = none
answered_option cos (some a) = some (answered cos a)

-- `errors.Join` of an error that may be nil and one that is not.
unfoldable join_error : Option Error → Error → Error
join_error none f = f
join_error (some e) f = join e f

unfoldable result_of : Option Error → Result (Unit {0})
result_of none = ok tt
result_of (some e) = err e

-- `ctrl.Result{}, err`
unfoldable no_result : Option (Result (Unit {0}) × History) → Option (Result CtrlResult × History)
no_result none = none
no_result (some (ok _, h)) = some (ok no_requeue, h)
no_result (some (err e, h)) = some (err e, h)

-- `!cos.DeletionTimestamp.IsZero()`
abbrev pub is_deleted : ClusterObjectSet → Bool
is_deleted cos = not (is_zero cos.metadata.deletion_timestamp)

-- `result == nil || result.IsComplete()`
abbrev pub is_torn_down : Option RevisionTeardownResult → Bool
is_torn_down none = true
is_torn_down (some result) = result.is_complete

module _ {Obj GzipReader Cel Options PhaseOptions : Type 0}
    (env : Env Obj GzipReader Cel Options PhaseOptions) where
  abbrev pub Preparation : Type 0
  Preparation = Result (EngineOf env × BoxRevision Obj (Prober Cel) ClusterObjectSet) × History

  unfoldable reconcile_prepared : ClusterObjectSet → Preparation → Option (Outcome RevisionResult)
  unfolding Engine.reconcile failed answered_option
  reconcile_prepared cos (err e, h) = some (failed cos e h)
  reconcile_prepared cos (ok (engine, rev), h) =
      answered_option cos (Engine.reconcile engine cos.status.observed_phases rev env.aggregate h)

  unfoldable pub do_reconcile :
      ClusterObjectSet → List ClusterObjectSet → History → Option (Outcome RevisionResult)
  unfolding resolve_pinned resolve_and_prepare reconcile_prepared
  do_reconcile cos siblings h =
      let (resolution, cos') = resolve_pinned env cos h in
      reconcile_prepared cos' (resolve_and_prepare env cos' resolution siblings h)

  unfoldable teardown_prepared : ClusterObjectSet → Preparation → Outcome RevisionTeardownResult
  unfolding Engine.teardown failed answered
  teardown_prepared cos (err e, h) = failed cos e h
  teardown_prepared cos (ok (engine, rev), h) = answered cos (Engine.teardown engine rev h)

  unfoldable pub do_teardown : ClusterObjectSet → History → Outcome RevisionTeardownResult
  unfolding resolve_and_prepare resolve_identities teardown_prepared
  do_teardown cos h =
      teardown_prepared cos
        (resolve_and_prepare env cos (resolve_identities env.objects cos.spec.phases) [] h)

  unfoldable written : ClusterObjectSet → Option Error → Result (Unit {0}) → Result (Unit {0})
  unfolding join_error result_of
  written cos error (ok _) = result_of error
  written cos error (err f) =
      err (join_error error (wrap ("updating status for " <> cos.metadata.name <> ": ") f))

  -- The status is written if it differs from the one that was read. What is returned is the error
  -- of the work, joined with that of the write.
  unfoldable pub write_status : ClusterObjectSet → ClusterObjectSet → Option Error → M (Unit {0})
  unfolding perform written result_of
  write_status existing cos error h =
      let (r, h') = perform env.server (update_cos_status cos) h in
      if env.status_equal existing.status cos.status
      then (result_of error, h)
      else (written cos error r, h')

  unfoldable pub release : ClusterObjectSet → M (Unit {0})
  unfolding wrapping perform remove_finalizer wait_for_finalizer_removal
  release cos = do
    wrapping "freeing access manager: " (perform env.server (free_accessor cos))
    wrapping "removing finalizer: "
        (remove_finalizer env.fields_json env.server env.finalizers cos field_owner finalizer_key)
    wrapping "waiting for cache to sync finalizer removal: " (λ h. (
      wait_for_finalizer_removal env.finalizers env.poll (env.get_later h cos.metadata.name)
          finalizer_key,
      h,
    ))

  unfoldable write_update :
      ClusterObjectSet
      → Outcome RevisionResult
      → Option Update
      → Option (Result (Unit {0}) × History)
  unfolding apply write_status
  write_update existing o none = none
  write_update existing o (some u) =
      some (write_status existing (apply env.conditions o.cos u) o.error o.history)

  -- The end of `reconcileActive`.
  unfoldable pub report :
      ClusterObjectSet → Option (Outcome RevisionResult) → Option (Result (Unit {0}) × History)
  unfolding from_reconcile write_update
  report existing none = none
  report existing (some o) =
      write_update existing o (from_reconcile o.cos o.result o.error (env.now o.history))

  unfoldable ensured :
      ClusterObjectSet
      → List ClusterObjectSet
      → Result Bool × History
      → Option (Result (Unit {0}) × History)
  unfolding report do_reconcile
  ensured cos siblings (err e, h) = some (err e, h)
  ensured cos siblings (ok true, h) = some (ok tt, h)
  ensured cos siblings (ok false, h) = report cos (do_reconcile cos siblings h)

  unfoldable with_siblings :
      ClusterObjectSet
      → Result (List ClusterObjectSet) × History
      → Option (Result (Unit {0}) × History)
  unfolding ensured ensure_finalizer
  with_siblings cos (err e, h) = some (err e, h)
  with_siblings cos (ok siblings, h) = ensured cos siblings (ensure_finalizer env cos h)

  unfoldable pub reconcile_active :
      ClusterObjectSet → History → Option (Result (Unit {0}) × History)
  unfolding with_siblings resolve_siblings
  reconcile_active cos h = with_siblings cos (resolve_siblings env cos h)

  -- The end of `teardown`, after the status is written.
  unfoldable pub finish_teardown : ClusterObjectSet → Option RevisionTeardownResult → M CtrlResult
  unfolding release
  finish_teardown cos result =
      if not (is_torn_down result)
      then return (record no_requeue { requeue = true })
      else (do release cos; return no_requeue)

  unfoldable pub teardown_objects : ClusterObjectSet → M CtrlResult
  unfolding do_teardown from_teardown apply write_status finish_teardown
  teardown_objects cos h =
      let o = do_teardown cos h in
      let cos' =
        apply env.conditions o.cos (from_teardown o.cos o.result o.error (env.now o.history)) in
      (do write_status cos cos' o.error; finish_teardown cos' o.result) o.history

  unfoldable pub teardown : ClusterObjectSet → M CtrlResult
  unfolding release teardown_objects
  teardown cos =
      if not (has_finalizer env cos finalizer_key)
      then return no_requeue
      else if is_deleted cos && has_finalizer env cos "orphan"
      then (do release cos; return no_requeue)
      else teardown_objects cos

  unfoldable pub reconcile_cos : ClusterObjectSet → History → Option (Result CtrlResult × History)
  unfolding teardown no_result reconcile_active
  reconcile_cos cos h =
      if is_deleted cos || is_archived_state cos.spec.lifecycle_state
      then some (teardown cos h)
      else no_result (reconcile_active cos h)

  unfoldable reconcile_found :
      Result (Option ClusterObjectSet) → History → Option (Result CtrlResult × History)
  unfolding reconcile_cos
  reconcile_found (err e) h = some (err e, h)
  reconcile_found (ok none) h = some (ok no_requeue, h)
  reconcile_found (ok (some existing)) h = reconcile_cos existing h

  -- `Reconciler.Reconcile`
  unfoldable pub reconcile : String → History → Option (Result CtrlResult × History)
  unfolding reconcile_found
  reconcile name h = reconcile_found (env.get h name) h
