-- ===== src/Controller/Cos/Handler/Follows.antt =====
-- The calls of the handler against the protocol.
use orb_operator.Base.{
  Bool, true, false, ◌||◌, Option, none, some, List, ◌≡◌, refl, sym, subst, if-elim,
}
use orb_operator.Errors.{Result, ok, err}
use orb_operator.Api.{ClusterObjectSet, is_archived_state}
use orb_operator.Kube.{RemovesFinalizer, CtrlResult}
use orb_operator.Boxcutter.{RevisionResult}
use orb_operator.Revision.Engine.Effects.{Bounds}
use orb_operator.Controller.Server.{History}
use orb_operator.Controller.Server.Effects.{Adds}
use orb_operator.Status.Cos.Update.{Update, apply}
use orb_operator.Controller.Cos.Env.{Env, EngineOptions, finalizer_key}
use orb_operator.Controller.Cos.Protocol.{Facts, start, Run, Follows, IsWrite}
use orb_operator.Controller.Cos.Prepare.{has_finalizer, ensure_finalizer}
use orb_operator.Controller.Cos.Handler.{
  report, write_update, reconcile_active, ensured, with_siblings, no_result, reconcile_cos, Outcome,
  is_deleted, do_reconcile,
}
use orb_operator.Controller.Cos.Handler.Work.{facts_of, WorkEnds, do_reconcile-WorkEnds}
use orb_operator.Controller.Cos.Handler.Closing.{write_status-StatusWritten}
use orb_operator.Controller.Cos.Handler.TeardownFollows.{teardown-Follows}
use orb_operator.Api.Rules.{IsAllowedChange}
use orb_operator.Status.Cos.Completion.Immutable.{HasUniqueNames}
use orb_operator.Status.Cos.Update.Allowed.{IsPinned, apply-from_reconcile-IsAllowedChange}
use orb_operator.Controller.Cos.Handler.Opening.{
  Ensured, failing, asked, there, do_reconcile-IsPinned, ensure_finalizer-Ensured,
  resolve_siblings-history,
}

module _ {Obj GzipReader Cel Options PhaseOptions : Type 0}
    (env : Env Obj GzipReader Cel Options PhaseOptions) (removes : RemovesFinalizer env.finalizers)
    (writes : (opts : EngineOptions) → Bounds (env.engines opts) (Adds IsWrite)) where
  -- What `reconcileActive` returns and leaves.
  unfoldable FollowsAfter : {A : Type 0} → Facts → History → Option (Result A × History) → Type 0
  FollowsAfter f h none = Unit
  FollowsAfter f h (some (r, h')) = Follows f start h h'

  write_update-Follows :
      (f : Facts) (cos : ClusterObjectSet) (h : History) (o : Outcome RevisionResult)
      (u : Option Update)
      → f.held ≡ true
      → ((v : Update) → u ≡ some v → IsAllowedChange f.before (apply env.conditions o.cos v).status)
      → WorkEnds env f h o
      → FollowsAfter f h (write_update env cos o u)
  unfolding write_update FollowsAfter
  write_update-Follows f cos h o none held allowed ends = tt
  write_update-Follows f cos h o (some u) held allowed ends =
      let w =
        write_status-StatusWritten env f h cos (apply env.conditions o.cos u) o held
          (allowed u refl) ends in
      (w.stage, w.run)

  report-Follows :
      (f : Facts) (cos : ClusterObjectSet) (h : History) (work : Option (Outcome RevisionResult))
      → f.held ≡ true
      → HasUniqueNames f.before.observed_phases
      → ((o : Outcome RevisionResult)
          → work ≡ some o
          → IsPinned f.before o.cos.status × WorkEnds env f h o)
      → FollowsAfter f h (report env cos work)
  unfolding report FollowsAfter
  report-Follows f cos h none held unique ends = tt
  report-Follows f cos h (some o) held unique ends =
      let (pinned, work_ends) = ends o refl in
      write_update-Follows f cos h o _ held
        (λ u q.
          apply-from_reconcile-IsAllowedChange env.conditions f.before o.cos o.result o.error
            (env.now o.history) u unique pinned q)
        work_ends

  ensured-Follows :
      (f : Facts) (cos : ClusterObjectSet) (siblings : List ClusterObjectSet) (h : History)
      (p : Result Bool × History)
      → f.before ≡ cos.status
      → HasUniqueNames f.before.observed_phases
      → Ensured env f h p
      → FollowsAfter f h (ensured env cos siblings p)
  unfolding ensured FollowsAfter
  ensured-Follows f cos siblings h p before unique (failing run) = run
  ensured-Follows f cos siblings h p before unique (asked run) = run
  ensured-Follows f cos siblings h p before unique (there held) =
      report-Follows f cos h (do_reconcile env cos siblings h) held unique (λ o q. (
        subst (λ b. IsPinned b o.cos.status) (sym before)
            (do_reconcile-IsPinned env cos siblings h o q),
        do_reconcile-WorkEnds env writes f cos siblings h o held q,
      ))

  with_siblings-Follows :
      (f : Facts) (cos : ClusterObjectSet) (h : History)
      (p : Result (List ClusterObjectSet) × History)
      → p.1 ≡ h
      → f.before ≡ cos.status
      → HasUniqueNames f.before.observed_phases
      → f.held ≡ has_finalizer env cos finalizer_key
      → f.going ≡ false
      → FollowsAfter f h (with_siblings env cos p)
  unfolding with_siblings FollowsAfter
  with_siblings-Follows f cos h (err e, h') same before unique held going =
      (start, subst (λ k. Run f start h start k) (sym same) Run.stay)
  with_siblings-Follows f cos h (ok siblings, h') same before unique held going =
      subst (λ k. FollowsAfter f k (ensured env cos siblings (ensure_finalizer env cos h'))) same
        (ensured-Follows f cos siblings h' _ before unique
          (ensure_finalizer-Ensured env f cos h' held going))

  no_result-Follows :
      (f : Facts) (h : History) (r : Option (Result (Unit {0}) × History))
      → FollowsAfter f h r
      → FollowsAfter f h (no_result r)
  unfolding no_result FollowsAfter
  no_result-Follows f h none follows = tt
  no_result-Follows f h (some (ok _, h')) follows = follows
  no_result-Follows f h (some (err e, h')) follows = follows

  reconcile_cos-FollowsAfter :
      (cos : ClusterObjectSet) (h : History)
      → HasUniqueNames cos.status.observed_phases
      → FollowsAfter (facts_of env cos) h (reconcile_cos env cos h)
  unfolding reconcile_cos reconcile_active FollowsAfter
  reconcile_cos-FollowsAfter cos h unique =
      if-elim (FollowsAfter (facts_of env cos) h)
        (is_deleted cos || is_archived_state cos.spec.lifecycle_state) _ _
        (λ q. teardown-Follows env removes writes (facts_of env cos) cos h unique refl q)
        (λ q. no_result-Follows (facts_of env cos) h _ (
          with_siblings-Follows (facts_of env cos) cos h _ (resolve_siblings-history env cos h) refl
            unique refl q))

  -- A run of the handler on a revision that does not panic makes its calls in an order that the
  -- protocol allows: a finalizer is asked for only on a revision that lacks it and stays; the objects
  -- are touched only on a revision that has it, after the accessor is asked for; a status is written
  -- at most once, after any object, and keeps the hash, the completion time and, of the phases that
  -- it reports, the completion times of the one that was read, with counts that are the sums over its
  -- phases; and the accessor is freed, and after it the finalizer taken out, only on a revision that
  -- has the finalizer and is deleted or archived, as the last of the calls. This is for observed
  -- phases of different names, a library that removes the finalizer that it is told to, and engines
  -- whose only calls are writes of objects.
  pub reconcile_cos-Follows :
      (cos : ClusterObjectSet) (h : History) (r : Result CtrlResult × History)
      → HasUniqueNames cos.status.observed_phases
      → reconcile_cos env cos h ≡ some r
      → Follows (facts_of env cos) start h r.1
  unfolding FollowsAfter
  reconcile_cos-Follows cos h r unique q =
      subst (FollowsAfter (facts_of env cos) h) q (reconcile_cos-FollowsAfter cos h unique)
