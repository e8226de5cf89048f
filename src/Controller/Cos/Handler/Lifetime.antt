-- ===== src/Controller/Cos/Handler/Lifetime.antt =====
-- What is kept of a status over all the runs of the handler.
use orb_operator.Base.{
  String, List, ◌++◌, ◌≡◌, ◌≢◌, refl, sym, ◌∙◌, subst, Memᴰ, Option, none, some,
}
use orb_operator.Errors.{Result}
use orb_operator.Api.{Time, ClusterObjectSet, ClusterObjectSetStatus}
use orb_operator.Api.Rules.{IsSetOnce, IsHashSetOnce, IsAllowedChange}
use orb_operator.Kube.{RemovesFinalizer, CtrlResult}
use orb_operator.Revision.Engine.Effects.{Bounds}
use orb_operator.Status.Cos.Completion.Immutable.{HasUniqueNames}
use orb_operator.Controller.Server.{Call, update_cos_status, History}
use orb_operator.Controller.Server.Effects.{Adds, Adds-at, Adds-nothing, Adds-one, Adds-trans}
use orb_operator.Controller.Cos.Env.{Env, EngineOptions}
use orb_operator.Controller.Cos.Protocol.{Facts, Stage, Move, Run, IsWrite}
use orb_operator.Controller.Cos.Handler.{reconcile_cos}
use orb_operator.Controller.Cos.Handler.Writes.{Writes, Writes-status}
use orb_operator.Controller.Cos.Handler.Follows.{reconcile_cos-Follows}

-- A status that is written is allowed after the one given.
abbrev WritesAllowed : ClusterObjectSetStatus → Call → Type 0
WritesAllowed old = Writes (λ cos. IsAllowedChange old cos.status)

Move-WritesAllowed :
    {f : Facts} {s s' : Stage} {c : Call} → Move f s c s' → WritesAllowed f.before c
Move-WritesAllowed {f} (Move.report_unopened {cos} held allowed) other q =
    Writes-status (λ c. IsAllowedChange f.before c.status) cos allowed other q
Move-WritesAllowed {f} (Move.report {cos} allowed) other q =
    Writes-status (λ c. IsAllowedChange f.before c.status) cos allowed other q
Move-WritesAllowed (Move.hold _ _ _) cos q = absurd (cc q)
Move-WritesAllowed (Move.open_accessor _) cos q = absurd (cc q)
Move-WritesAllowed Move.write cos q = absurd (cc q)
Move-WritesAllowed (Move.free_unreported _) cos q = absurd (cc q)
Move-WritesAllowed (Move.free _) cos q = absurd (cc q)
Move-WritesAllowed (Move.free_orphaned _ _ _) cos q = absurd (cc q)
Move-WritesAllowed (Move.give_back _) cos q = absurd (cc q)

Run-WritesAllowed :
    {f : Facts} {s s' : Stage} {h h' : History}
    → Run f s h s' h'
    → Adds (WritesAllowed f.before) h h'
Run-WritesAllowed Run.stay = Adds-nothing _ _
Run-WritesAllowed {f} (Run.call r m e) = subst (Adds (WritesAllowed f.before) _) (sym e) (
    Adds-trans (WritesAllowed f.before) (Run-WritesAllowed r)
      (Adds-one _ _ _ (Move-WritesAllowed m)))

module _ {Obj GzipReader Cel Options PhaseOptions : Type 0}
    (env : Env Obj GzipReader Cel Options PhaseOptions) where
  -- The statuses that runs of the handler and the writes of other clients make of a status. A run may
  -- be on any revision with the present status, whose observed phases have different names, as the
  -- API server requires. Another client may write any status that the rules allow after the present
  -- one, as the API server refuses others.
  pub data Becomes (old : ClusterObjectSetStatus) : ClusterObjectSetStatus → Type 0 where
    same : Becomes old old
    other_write :
        (before after : ClusterObjectSetStatus)
        → Becomes old before
        → IsAllowedChange before after
        → Becomes old after
    run :
        (before cos : ClusterObjectSet) (h : History) (r : Result CtrlResult × History)
        (calls : List Call)
        → Becomes old before.status
        → HasUniqueNames before.status.observed_phases
        → reconcile_cos env before h ≡ some r
        → r.1 ≡ h ++ calls
        → Memᴰ (update_cos_status cos) calls
        → Becomes old cos.status

  module _ (removes : RemovesFinalizer env.finalizers)
      (writes : (opts : EngineOptions) → Bounds (env.engines opts) (Adds IsWrite)) where
    run-allowed :
        (before cos : ClusterObjectSet) (h : History) (r : Result CtrlResult × History)
        (calls : List Call)
        → HasUniqueNames before.status.observed_phases
        → reconcile_cos env before h ≡ some r
        → r.1 ≡ h ++ calls
        → Memᴰ (update_cos_status cos) calls
        → IsAllowedChange before.status cos.status
    run-allowed before cos h r calls unique q added m =
        let (s, steps) = reconcile_cos-Follows env removes writes before h r unique q in
        Adds-at (Run-WritesAllowed steps) calls (update_cos_status cos) added m cos refl

    IsSetOnce-self : (a : Option Time) → IsSetOnce a a
    IsSetOnce-self none = tt
    IsSetOnce-self (some t) = refl

    IsSetOnce-trans : (a b c : Option Time) → IsSetOnce a b → IsSetOnce b c → IsSetOnce a c
    IsSetOnce-trans none b c p q = tt
    IsSetOnce-trans (some t) b c p q = subst (λ o. IsSetOnce o c) p q

    IsHashSetOnce-trans :
        (a b c : String) → IsHashSetOnce a b → IsHashSetOnce b c → IsHashSetOnce a c
    IsHashSetOnce-trans a b c p q set = q (subst (λ h. h ≢ "") (sym (p set)) set) ∙ p set

    IsAllowedChange-IsSetOnce :
        (old before new : ClusterObjectSetStatus)
        → IsHashSetOnce old.resolved_content_hash before.resolved_content_hash
        → IsSetOnce old.completed_at before.completed_at
        → IsAllowedChange before new
        → IsHashSetOnce old.resolved_content_hash new.resolved_content_hash
          × IsSetOnce old.completed_at new.completed_at
    IsAllowedChange-IsSetOnce old before new hash time allowed = (
      IsHashSetOnce-trans old.resolved_content_hash before.resolved_content_hash _ hash
          allowed.resolved_content_hash,
      IsSetOnce-trans old.completed_at _ _ time allowed.completed_at,
    )

    -- Over any number of runs and of writes by other clients that the rules on the status allow, in
    -- any order and whatever the server answers, a content hash that is in the status stays, and so
    -- does the completion time. This is for runs that do not panic, on statuses whose observed phases
    -- have different names, a library that removes the finalizer that it is told to, and engines
    -- whose only calls are writes of objects.
    pub Becomes-IsSetOnce :
        (old new : ClusterObjectSetStatus)
        → Becomes old new
        → IsHashSetOnce old.resolved_content_hash new.resolved_content_hash
          × IsSetOnce old.completed_at new.completed_at
    Becomes-IsSetOnce old new same = (λ _. refl, IsSetOnce-self old.completed_at)
    Becomes-IsSetOnce old new (other_write before after b allowed) =
        let (hash, time) = Becomes-IsSetOnce old before b in
        IsAllowedChange-IsSetOnce old before after hash time allowed
    Becomes-IsSetOnce old new (run before cos h r calls b unique q added m) =
        let (hash, time) = Becomes-IsSetOnce old before.status b in
        IsAllowedChange-IsSetOnce old before.status cos.status hash time
          (run-allowed before cos h r calls unique q added m)
