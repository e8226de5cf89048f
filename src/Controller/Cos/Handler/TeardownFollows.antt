-- ===== src/Controller/Cos/Handler/TeardownFollows.antt =====
-- The calls of a teardown against the protocol.
use orb_operator.Base.{
  true, not, ◌&&◌, Option, ◌≡◌, refl, sym, subst, ap, inl, inr, Bool-cases, ◌∙◌, if-elim, not-false,
}
use orb_operator.Api.{ClusterObjectSet}
use orb_operator.Kube.{RemovesFinalizer, CtrlResult, no_requeue}
use orb_operator.Boxcutter.{RevisionTeardownResult}
use orb_operator.Revision.Engine.Effects.{Bounds}
use orb_operator.Controller.Server.{History, M, ◌>>=◌, return}
use orb_operator.Controller.Server.Effects.{Adds, ends-bind}
use orb_operator.Status.Cos.Update.{apply, from_teardown}
use orb_operator.Controller.Cos.Env.{Env, EngineOptions, finalizer_key}
use orb_operator.Controller.Cos.Protocol.{Facts, Stage, start, Run, Follows, IsWrite, Run-trans}
use orb_operator.Controller.Cos.Prepare.{has_finalizer}
use orb_operator.Controller.Cos.Handler.{
  do_teardown, teardown_objects, teardown, is_torn_down, is_deleted, write_status, release,
  finish_teardown,
}
use orb_operator.Controller.Cos.Handler.Work.{facts_of, do_teardown-WorkEnds}
use orb_operator.Controller.Cos.Handler.Closing.{
  do_teardown-cos, Follows-bind, IsReleasable, write_status-StatusWritten, release-Follows,
}
use orb_operator.Status.Cos.Completion.Immutable.{HasUniqueNames}
use orb_operator.Api.Rules.{IsAllowedChange}
use orb_operator.Status.Cos.Update.Allowed.{apply-from_teardown-IsAllowedChange}

module _ {Obj GzipReader Cel Options PhaseOptions : Type 0}
    (env : Env Obj GzipReader Cel Options PhaseOptions) (removes : RemovesFinalizer env.finalizers)
    (writes : (opts : EngineOptions) → Bounds (env.engines opts) (Adds IsWrite)) where
  finish_teardown-Follows :
      (f : Facts) (s : Stage) (cos : ClusterObjectSet) (result : Option RevisionTeardownResult)
      (h : History)
      → f.holds ≡ (facts_of env cos).holds
      → IsReleasable env f s
      → Follows f s h (finish_teardown env cos result h).1
  unfolding finish_teardown
  finish_teardown-Follows f s cos result h same can = elim (Bool-cases (is_torn_down result)) [
    | inl q ↦ rw q (
        let (s', run) = release-Follows env removes f s cos h same can in
        Follows-bind (release env cos) (λ _. return no_requeue) h run (λ _ _. (s', Run.stay)))
    | inr q ↦ rw q (s, Run.stay)
  ]

  -- The status that a teardown writes.
  torn_down_allowed :
      (cos : ClusterObjectSet) (h : History)
      → HasUniqueNames cos.status.observed_phases
      → let o = do_teardown env cos h in
        IsAllowedChange cos.status
          (apply env.conditions o.cos
            (from_teardown o.cos o.result o.error (env.now o.history))).status
  unfolding do_teardown
  torn_down_allowed cos h unique =
      let o = do_teardown env cos h in
      subst
        (λ (c : ClusterObjectSet).
          IsAllowedChange cos.status
            (apply env.conditions c (from_teardown c o.result o.error (env.now o.history))).status)
        (sym (do_teardown-cos env cos h))
        (apply-from_teardown-IsAllowedChange env.conditions cos o.result o.error _ unique)

  teardown_objects-Follows :
      (f : Facts) (cos : ClusterObjectSet) (h : History)
      → f.before ≡ cos.status
      → HasUniqueNames cos.status.observed_phases
      → f.holds ≡ (facts_of env cos).holds
      → f.held ≡ true
      → f.going ≡ true
      → Follows f start h (teardown_objects env cos h).1
  unfolding teardown_objects
  teardown_objects-Follows f cos h before unique same held going =
      let o = do_teardown env cos h in
      let cos' =
        apply env.conditions o.cos (from_teardown o.cos o.result o.error (env.now o.history)) in
      let w =
        write_status-StatusWritten env f h cos cos' o held
          (subst (λ b. IsAllowedChange b cos'.status) (sym before) (torn_down_allowed cos h unique))
          (do_teardown-WorkEnds env writes f cos h held) in
      ends-bind {B = CtrlResult} (λ p. Follows f start h p.1) (write_status env cos cos' o.error)
        (λ _. finish_teardown env cos' o.result) o.history
        (λ _ q.
          let (s', more) =
            finish_teardown-Follows f w.stage cos' o.result _ same
              (held, going, inr (w.releasable q)) in
          (s', Run-trans w.run more))
        (λ _ _. (w.stage, w.run))

  pub teardown-Follows :
      (f : Facts) (cos : ClusterObjectSet) (h : History)
      → HasUniqueNames cos.status.observed_phases
      → f ≡ facts_of env cos
      → f.going ≡ true
      → Follows f start h (teardown env cos h).1
  unfolding teardown
  teardown-Follows f cos h unique e going =
      if-elim (λ (m : M CtrlResult). Follows f start h (m h).1)
        (not (has_finalizer env cos finalizer_key)) _ _ (λ _. (start, Run.stay))
        (λ q.
          let held = ap (λ (g : Facts). g.held) e ∙ not-false _ q in
          if-elim (λ (m : M CtrlResult). Follows f start h (m h).1)
            (is_deleted cos && has_finalizer env cos "orphan") _ _
            (λ r. orphaned held (ap (λ (g : Facts). g.orphaned) e ∙ r))
            (λ _.
              teardown_objects-Follows f cos h (ap (λ (g : Facts). g.before) e) unique same held
                going))
    where
      same : f.holds ≡ (facts_of env cos).holds
      same = ap (λ (g : Facts). g.holds) e

      orphaned :
          f.held ≡ true
          → f.orphaned ≡ true
          → Follows f start h ((release env cos >>= λ _. return no_requeue) h).1
      orphaned held left =
          let (s', run) =
            release-Follows env removes f start cos h same (held, going, inl (left, refl)) in
          Follows-bind (release env cos) (λ _. return no_requeue) h run (λ _ _. (s', Run.stay))
