-- ===== src/Controller/Cos/Handler/Opening.antt =====
-- The first steps on a revision that is not going away, and the hash that is kept.
use orb_operator.Base.{
  String_eq, String, eq_iff, Bool, true, false, not, Option, none, some, List, [], ◌∷◌, ◌≡◌, refl,
  sym, subst, ap, Memᴰ, ◌∙◌, if-elim, not-false, not-true, some-injective, ◌==◌,
}
use orb_operator.Errors.{Error, Result, ok, err}
use orb_operator.Api.{ClusterObjectSet}
use orb_operator.ApplyConfig.{ApplyConfig, with_finalizers}
use orb_operator.Boxcutter.{RevisionResult}
use orb_operator.Controller.Server.{
  apply_cos, History, M, ◌>>=◌, ◌>>◌, return, lift, perform, wrapping, wrap_result,
}
use orb_operator.Controller.Server.Effects.{ends-bind}
use orb_operator.Controller.Apply
use orb_operator.Controller.Cos.Env.{Env, finalizer_key, field_owner}
use orb_operator.Controller.Cos.Protocol.{Facts, start, done, Move, Run, Follows, Run-one}
use orb_operator.Controller.Cos.Prepare.{
  has_finalizer, ensure_finalizer, resolve_siblings, list_group_members, resolve_pinned, pin_result,
  pin, resolve_verified, resolve_and_prepare,
}
use orb_operator.Controller.Cos.Handler.{
  Outcome, do_reconcile, reconcile_prepared, answered_option, failed, answered, Preparation,
}
use orb_operator.Base.Members.{Memᴰ-append}
use orb_operator.Base.Sort.{sort_by, ascending}
use orb_operator.Revision.Chain.{revision_of, siblings_of, build_chain, filter_by_owner}
use orb_operator.Status.Cos.Update.Allowed.{IsPinned, IsPinned-self}
use orb_operator.Object.{Resolved}
use orb_operator.Revision.Engine.{Answer}

module _ {Obj GzipReader Cel Options PhaseOptions : Type 0}
    (env : Env Obj GzipReader Cel Options PhaseOptions) where
  answered_option-cos :
      (cos : ClusterObjectSet) (a : Option (Answer History RevisionResult))
      (o : Outcome RevisionResult)
      → answered_option cos a ≡ some o
      → o.cos ≡ cos
  unfolding answered_option answered
  answered_option-cos cos none o q = absurd (cc q)
  answered_option-cos cos (some a) o q =
      sym (ap (λ (x : Outcome RevisionResult). x.cos) (some-injective _ _ q))

  reconcile_prepared-cos :
      (cos : ClusterObjectSet) (p : Preparation env) (o : Outcome RevisionResult)
      → reconcile_prepared env cos p ≡ some o
      → o.cos ≡ cos
  unfolding reconcile_prepared failed
  reconcile_prepared-cos cos (err e, h) o q =
      sym (ap (λ (x : Outcome RevisionResult). x.cos) (some-injective _ _ q))
  reconcile_prepared-cos cos (ok (engine, rev), h) o q = answered_option-cos cos _ o q

  pin_result-IsPinned :
      (r : Result (Resolved Obj)) (cos : ClusterObjectSet)
      → IsPinned cos.status (pin_result r cos).status
  unfolding pin_result pin
  pin_result-IsPinned (err e) cos = IsPinned-self cos.status
  pin_result-IsPinned (ok resolved) cos =
      if-elim (λ (c : ClusterObjectSet). IsPinned cos.status c.status)
        (cos.status.resolved_content_hash == "") _ _
        (λ q. record {
          completed_at = refl;
          observed_phases = refl;
          resolved_content_hash =
              λ set. absurd (set ((eq_iff cos.status.resolved_content_hash "").0 q));
        })
        (λ _. IsPinned-self cos.status)

  pub do_reconcile-IsPinned :
      (cos : ClusterObjectSet) (siblings : List ClusterObjectSet) (h : History)
      (o : Outcome RevisionResult)
      → do_reconcile env cos siblings h ≡ some o
      → IsPinned cos.status o.cos.status
  unfolding do_reconcile resolve_pinned
  do_reconcile-IsPinned cos siblings h o q =
      let (resolution, cos') = resolve_pinned env cos h in
      subst (λ (c : ClusterObjectSet). IsPinned cos.status c.status)
        (sym (reconcile_prepared-cos cos' (resolve_and_prepare env cos' resolution siblings h) o q))
        (pin_result-IsPinned (resolve_verified env cos h) cos)

  -- What `ensureFinalizer` leaves: a finalizer that is asked for, or one that is there.
  pub data Ensured (f : Facts) (h : History) : Result Bool × History → Type 0 where
    failing : {e : Error} {h' : History} → Follows f start h h' → Ensured f h (err e, h')
    asked : {h' : History} → Follows f start h h' → Ensured f h (ok true, h')
    there : f.held ≡ true → Ensured f h (ok false, h)

  wrapped-Ensured :
      (f : Facts) (h : History) (context : String) (p : Result Bool × History)
      → Ensured f h p
      → Ensured f h (wrap_result context p.0, p.1)
  unfolding wrap_result
  wrapped-Ensured f h context p (failing run) = failing run
  wrapped-Ensured f h context p (asked run) = asked run
  wrapped-Ensured f h context p (there held) = there held

  pub ensure_finalizer-Ensured :
      (f : Facts) (cos : ClusterObjectSet) (h : History)
      → f.held ≡ has_finalizer env cos finalizer_key
      → f.going ≡ false
      → Ensured f h (ensure_finalizer env cos h)
  unfolding ensure_finalizer orb_operator.Controller.Apply.apply wrapping wrap_result perform
      with_finalizers
  ensure_finalizer-Ensured f cos h same going = wrapped-Ensured f h _ (apply_step h) (
      if-elim (λ (m : M Bool). Ensured f h (m h)) (not (has_finalizer env cos finalizer_key)) _ _
        (λ q. asking (same ∙ not-true _ q)) (λ q. there (same ∙ not-false _ q)))
    where
      extracting : M ApplyConfig
      extracting = wrapping "extracting apply config: " (lift (env.extract cos field_owner))

      applying : ApplyConfig → M (Unit {0})
      applying ac =
          perform env.server (apply_cos (with_finalizers (finalizer_key ∷ []) ac) field_owner)

      apply_step : M Bool
      apply_step =
          orb_operator.Controller.Apply.apply env.server env.extract cos field_owner
            (λ c. not (has_finalizer env c finalizer_key)) (with_finalizers (finalizer_key ∷ []))

      asking : f.held ≡ false → Ensured f h ((extracting >>= λ ac. applying ac >> return true) h)
      asking held =
          ends-bind {B = Bool} (Ensured f h) extracting (λ ac. applying ac >> return true) h
            (λ ac _.
              let run = Run-one h (
                Move.hold held going
                  (Memᴰ-append finalizer_key ac.finalizers _ (Memᴰ.head refl))) in
              ends-bind {B = Bool} (Ensured f h) (applying ac) (λ _. return true) h
                (λ _ _. asked (done, run)) (λ _ _. failing (done, run)))
            (λ _ _. failing (start, Run.stay))

  pub resolve_siblings-history :
      (cos : ClusterObjectSet) (h : History) → (resolve_siblings env cos h).1 ≡ h
  unfolding resolve_siblings list_group_members wrapping
  resolve_siblings-history cos h =
      ends-bind {B = List ClusterObjectSet} (λ p. p.1 ≡ h) (list_group_members env cos.spec.group)
        (λ ms.
          return (siblings_of (build_chain (filter_by_owner env.get_controller_of ms cos)) cos))
        h (λ _ _. members) (λ _ _. members)
    where
      listed : M (List ClusterObjectSet)
      listed = wrapping "listing group members: " (λ k. (env.list_group k cos.spec.group, k))

      members : (list_group_members env cos.spec.group h).1 ≡ h
      members =
          ends-bind {B = List ClusterObjectSet} (λ p. p.1 ≡ h) listed
            (λ items. return (sort_by (ascending revision_of) items)) h (λ _ _. refl) (λ _ _. refl)
