-- ===== src/Controller/Cos/Handler/Earned.antt =====
-- What a run has done when it writes that a revision is available.
use orb_operator.Base.{
  Bool, true, false, ◌||◌, ◌≡◌, refl, sym, subst, ◌∙◌, if-elim, List, none, some, Option, Memᴰ,
  ◌++◌, ap₂,
}
use orb_operator.Errors.{Error, Result, ok, err}
use orb_operator.Api.{ClusterObjectSet, condition_type_available, is_archived_state}
use orb_operator.Kube.{CtrlResult, SetsByType}
use orb_operator.Boxcutter.{RevisionResult}
use orb_operator.Revision.Engine.Effects.{Bounds}
use orb_operator.Status.Cos.Update.{Update, apply, from_reconcile}
use orb_operator.Status.Cos.Update.Laws.{
  apply-from_reconcile_available, completed_after, is_success,
}
use orb_operator.Revision.Builder.{build}
use orb_operator.Revision.Engine.Completed.{Completed, reconcile-Completed}
use orb_operator.Controller.Server.{Call, update_cos_status, History}
use orb_operator.Controller.Server.Effects.{Adds, Adds-at, Adds-nothing, Adds-trans}
use orb_operator.Controller.Cos.Env.{Env, EngineOptions, finalizer_key}
use orb_operator.Controller.Cos.Protocol.{IsWrite}
use orb_operator.Controller.Cos.Prepare.{
  engine_options, pin, ensure_finalizer, has_finalizer, resolve_siblings,
}
use orb_operator.Controller.Cos.Handler.{
  answered, Outcome, do_reconcile, ensured, is_deleted, no_result, reconcile_active, reconcile_cos,
  report, with_siblings, write_update,
}
use orb_operator.Controller.Cos.Handler.Opening.{
  Ensured, asked, do_reconcile-IsPinned, ensure_finalizer-Ensured, failing,
  resolve_siblings-history, there,
}
use orb_operator.Controller.Cos.Handler.Work.{do_reconcile-WorkEnds, facts_of}
use orb_operator.Controller.Cos.Handler.Unavailable.{teardown-Writes}
use orb_operator.Controller.Cos.Handler.Worked.{Worked, do_reconcile-Worked}
use orb_operator.Controller.Cos.Handler.Writes.{
  WorkEnds-Writes, Writes, ensure_finalizer-Writes, write_status-Writes,
}

is_success-clean : (r : Option RevisionResult) (e : Option Error) → is_success r e ≡ true → e ≡ none
is_success-clean none e q = absurd (cc q)
is_success-clean (some r) (some e) q = absurd (cc q)
is_success-clean (some r) none q = refl

module _ {Obj GzipReader Cel Options PhaseOptions : Type 0}
    (env : Env Obj GzipReader Cel Options PhaseOptions) where
  -- The revision is neither deleted nor archived and has the finalizer; its objects have the hash of
  -- its status; the engine completed the revision that is built of them and of its siblings; and the
  -- completion time is the one it had, or else the present time.
  pub record Earned (cos : ClusterObjectSet) (h : History) (cos' : ClusterObjectSet) : Type 0 where
    pub current : (is_deleted cos || is_archived_state cos.spec.lifecycle_state) ≡ false
    pub held : has_finalizer env cos finalizer_key ≡ true
    pub siblings : List ClusterObjectSet
    pub found : (resolve_siblings env cos h).0 ≡ ok siblings
    pub outcome : Outcome RevisionResult
    pub worked : Worked env cos siblings h outcome
    pub completed :
        let cos'' = pin worked.resolved.hash cos in
        Completed
          (env.engines (engine_options cos''))
          cos''.status.observed_phases
          (build env.new_cel_probe cos'' worked.resolved siblings)
          env.aggregate
          worked.opened
    pub completed_at :
        cos'.status.completed_at
        ≡ completed_after true (env.now outcome.history) cos.status.completed_at

  -- If the status says that the revision is available, then it is earned.
  abbrev pub EarnsAvailable : ClusterObjectSet → History → ClusterObjectSet → Type 0
  EarnsAvailable cos h cos' =
      env.conditions.is_status_condition_true cos'.status.conditions condition_type_available ≡ true
      → Earned cos h cos'

  module _ (sets : SetsByType env.conditions)
      (writes : (opts : EngineOptions) → Bounds (env.engines opts) (Adds IsWrite)) where
    unfoldable AddsAfter :
        {A : Type 0} → ClusterObjectSet → History → Option (Result A × History) → Type 0
    AddsAfter cos h none = Unit
    AddsAfter cos h (some (r, h')) = Adds (Writes (EarnsAvailable cos h)) h h'

    write_update-AddsAfter :
        (cos : ClusterObjectSet) (siblings : List ClusterObjectSet) (h : History)
        (o : Outcome RevisionResult) (u : Option Update)
        → (is_deleted cos || is_archived_state cos.spec.lifecycle_state) ≡ false
        → (resolve_siblings env cos h).0 ≡ ok siblings
        → has_finalizer env cos finalizer_key ≡ true
        → do_reconcile env cos siblings h ≡ some o
        → from_reconcile o.cos o.result o.error (env.now o.history) ≡ u
        → AddsAfter cos h (write_update env cos o u)
    unfolding write_update AddsAfter answered
    write_update-AddsAfter cos siblings h o none current found held done updated = tt
    write_update-AddsAfter cos siblings h o (some u) current found held done updated =
        let P = EarnsAvailable cos h in
        let now = env.now o.history in
        let (status, time) =
          apply-from_reconcile_available env.conditions o.cos o.result o.error now u sets updated in
        Adds-trans (Writes P)
          (WorkEnds-Writes P env (facts_of env cos) h o
            (do_reconcile-WorkEnds env writes (facts_of env cos) cos siblings h o held done))
          (write_status-Writes P env cos (apply env.conditions o.cos u) o.error o.history
            (λ available.
              let success = sym status ∙ available in
              let worked =
                do_reconcile-Worked env cos siblings h o done
                  (is_success-clean o.result o.error success) in
              record {
                current = current;
                held = held;
                siblings = siblings;
                found = found;
                outcome = o;
                worked = worked;
                completed =
                    reconcile-Completed _ _ _ _ worked.opened worked.answer worked.reconciled (
                      subst (λ (x : Outcome RevisionResult). is_success x.result x.error ≡ true)
                        worked.outcome success);
                completed_at =
                    time
                    ∙ ap₂ (λ b t. completed_after b now t) success
                        (do_reconcile-IsPinned env cos siblings h o done).completed_at;
              }))

    report-AddsAfter :
        (cos : ClusterObjectSet) (siblings : List ClusterObjectSet) (h : History)
        (work : Option (Outcome RevisionResult))
        → (is_deleted cos || is_archived_state cos.spec.lifecycle_state) ≡ false
        → (resolve_siblings env cos h).0 ≡ ok siblings
        → has_finalizer env cos finalizer_key ≡ true
        → do_reconcile env cos siblings h ≡ work
        → AddsAfter cos h (report env cos work)
    unfolding report AddsAfter
    report-AddsAfter cos siblings h none current found held done = tt
    report-AddsAfter cos siblings h (some o) current found held done =
        write_update-AddsAfter cos siblings h o _ current found held done refl

    ensured-AddsAfter :
        (cos : ClusterObjectSet) (siblings : List ClusterObjectSet) (h : History)
        (p : Result Bool × History)
        → (is_deleted cos || is_archived_state cos.spec.lifecycle_state) ≡ false
        → (resolve_siblings env cos h).0 ≡ ok siblings
        → Ensured env (facts_of env cos) h p
        → Adds (Writes (EarnsAvailable cos h)) h p.1
        → AddsAfter cos h (ensured env cos siblings p)
    unfolding ensured AddsAfter
    ensured-AddsAfter cos siblings h p current found (failing _) adds = adds
    ensured-AddsAfter cos siblings h p current found (asked _) adds = adds
    ensured-AddsAfter cos siblings h p current found (there held) adds =
        report-AddsAfter cos siblings h _ current found held refl

    with_siblings-AddsAfter :
        (cos : ClusterObjectSet) (h : History) (p : Result (List ClusterObjectSet) × History)
        → (is_deleted cos || is_archived_state cos.spec.lifecycle_state) ≡ false
        → (resolve_siblings env cos h).0 ≡ p.0
        → p.1 ≡ h
        → AddsAfter cos h (with_siblings env cos p)
    unfolding with_siblings AddsAfter
    with_siblings-AddsAfter cos h (err e, h') current found same =
        subst (Adds (Writes (EarnsAvailable cos h)) h) (sym same) (Adds-nothing _ h)
    with_siblings-AddsAfter cos h (ok siblings, h') current found same =
        subst (λ k. AddsAfter cos h (ensured env cos siblings (ensure_finalizer env cos k)))
          (sym same)
          (ensured-AddsAfter cos siblings h _ current found
            (ensure_finalizer-Ensured env (facts_of env cos) cos h refl current)
            (ensure_finalizer-Writes (EarnsAvailable cos h) env cos h))

    no_result-AddsAfter :
        (cos : ClusterObjectSet) (h : History) (r : Option (Result (Unit {0}) × History))
        → AddsAfter cos h r
        → AddsAfter cos h (no_result r)
    unfolding no_result AddsAfter
    no_result-AddsAfter cos h none adds = tt
    no_result-AddsAfter cos h (some (ok _, h')) adds = adds
    no_result-AddsAfter cos h (some (err e, h')) adds = adds

    reconcile_cos-AddsAfter :
        (cos : ClusterObjectSet) (h : History) → AddsAfter cos h (reconcile_cos env cos h)
    unfolding reconcile_cos reconcile_active AddsAfter
    reconcile_cos-AddsAfter cos h =
        if-elim (AddsAfter cos h) (is_deleted cos || is_archived_state cos.spec.lifecycle_state) _ _
          (λ _.
            teardown-Writes env sets writes (EarnsAvailable cos h)
              (λ cos' unavailable available. absurd (cc (unavailable, available))) cos h)
          (λ current.
            no_result-AddsAfter cos h _
              (with_siblings-AddsAfter cos h _ current refl (resolve_siblings-history env cos h)))

    -- Where conditions are set and read by their type and the engines only write objects: if a run
    -- on a revision writes a status that says Available, then the revision is neither deleted nor
    -- archived and has the finalizer; its objects were resolved and have the hash that the status
    -- had, if it had one; of the revision that is built of them and of its siblings, boxcutter's
    -- pass gave no error and is complete, valid and not superseded, and the second pass gave no
    -- error and only complete results; and the completion time is the one that the status had, or
    -- else the time after these passes.
    pub reconcile_cos-Earned :
        (cos cos' : ClusterObjectSet) (h : History) (r : Result CtrlResult × History)
        (calls : List Call)
        → reconcile_cos env cos h ≡ some r
        → r.1 ≡ h ++ calls
        → Memᴰ (update_cos_status cos') calls
        → env.conditions.is_status_condition_true cos'.status.conditions condition_type_available
          ≡ true
        → Earned cos h cos'
    unfolding AddsAfter
    reconcile_cos-Earned cos cos' h r calls ran added written available =
        Adds-at (subst (AddsAfter cos h) ran (reconcile_cos-AddsAfter cos h)) calls
          (update_cos_status cos') added written cos' refl available
