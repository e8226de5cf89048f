-- ===== src/Controller/Cos/Handler/Orphaned.antt =====
-- The deletion of a revision that has the orphan finalizer.
use orb_operator.Base.{
  String_eq, true, false, some, ◌≡◌, refl, sym, ◌∙◌, contains, ◌⊎◌, inl, inr, arith,
}
use orb_operator.Errors.{Error, Result, err}
use orb_operator.Api.{ClusterObjectSet}
use orb_operator.Kube.{CtrlResult, RemovesFinalizer, no_requeue}
use orb_operator.Admission.Finalizers.{FindsFinalizer, is_ordered_removal}
use orb_operator.Controller.Server.{Call, History, ◌>>◌, free_accessor, patch_cos, return}
use orb_operator.Controller.Server.Effects.{Adds, ends-bind}
use orb_operator.Controller.Finalizer.{PollsUntil, without_finalizer}
use orb_operator.Controller.Cos.Env.{Env, field_owner, finalizer_key}
use orb_operator.Controller.Cos.Prepare.{has_finalizer}
use orb_operator.Controller.Cos.Handler.{is_deleted, reconcile_cos, release, teardown}
use orb_operator.Controller.Cos.Handler.Released.{Released, release-Released, released-Adds}

-- The accessor is freed, or the finalizer of the controller is taken out while that for orphans
-- stays, in an update that the policy admits.
pub data IsHandOver (cos : ClusterObjectSet) : Call → Type 0 where
  freeing : IsHandOver cos (free_accessor cos)
  giving_back :
      (after : ClusterObjectSet)
      → contains after.metadata.finalizers "orphan" ≡ true
      → contains after.metadata.finalizers finalizer_key ≡ false
      → is_ordered_removal cos.metadata.finalizers after.metadata.finalizers ≡ true
      → IsHandOver cos (patch_cos cos after)

module _ {Obj GzipReader Cel Options PhaseOptions : Type 0}
    (env : Env Obj GzipReader Cel Options PhaseOptions) where
  -- The calls of a run that hands the objects over: it fails, or it has freed the accessor, taken
  -- the finalizer out and seen that it is gone.
  abbrev pub HandsOver : ClusterObjectSet → History → Result CtrlResult × History → Type 0
  HandsOver cos h (r, h') =
      Adds (IsHandOver cos) h h' × (((e : Error) × (r ≡ err e)) ⊎ Released env cos h h')

  module _ (finds : FindsFinalizer env.finalizers) (removes : RemovesFinalizer env.finalizers)
      (polls : PollsUntil env.poll) where
    given_back :
        (cos : ClusterObjectSet)
        → has_finalizer env cos "orphan" ≡ true
        → IsHandOver cos (
            patch_cos cos
              (without_finalizer env.fields_json env.finalizers cos field_owner finalizer_key))
    unfolding without_finalizer is_ordered_removal
    given_back cos orphan =
        let fs = cos.metadata.finalizers in
        let rest = env.finalizers.remove_finalizer fs finalizer_key in
        let kept = sym (finds rest "orphan") ∙ removes fs finalizer_key "orphan" ∙ orphan in
        let gone = sym (finds rest finalizer_key) ∙ removes fs finalizer_key finalizer_key in
        giving_back _ kept gone (rw (kept, gone) (ground arith))

    released-HandsOver :
        (cos : ClusterObjectSet) (h : History)
        → has_finalizer env cos "orphan" ≡ true
        → has_finalizer env cos finalizer_key ≡ true
        → HandsOver cos h ((release env cos >> return no_requeue) h)
    released-HandsOver cos h orphan held = (
      released-Adds env (IsHandOver cos) cos h freeing (given_back cos orphan),
      ends-bind {B = CtrlResult} (λ p. ((e : Error) × (p.0 ≡ err e)) ⊎ Released env cos h p.1)
          (release env cos) (λ _. return no_requeue) h
          (λ _ q. inr (release-Released env cos h polls held q)) (λ e _. inl (e, refl)),
    )

    -- Where finalizers are found and removed as their names say, and a polling succeeds only after an
    -- attempt that does: a run on a deleted revision that has the orphan finalizer and the
    -- controller's touches no object. Its calls only free the accessor and take out the controller's
    -- finalizer, while the other stays, in an update that the policy on their order admits; and it
    -- fails, or it has made both calls and seen that the finalizer is gone.
    pub reconcile_cos-HandsOver :
        (cos : ClusterObjectSet) (h : History)
        → is_deleted cos ≡ true
        → has_finalizer env cos "orphan" ≡ true
        → has_finalizer env cos finalizer_key ≡ true
        → (r : Result CtrlResult × History) × (reconcile_cos env cos h ≡ some r) × HandsOver cos h r
    unfolding reconcile_cos teardown
    reconcile_cos-HandsOver cos h deleted orphan held =
        (_, rw (deleted, held, orphan) refl, released-HandsOver cos h orphan held)
