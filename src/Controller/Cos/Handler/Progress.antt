-- ===== src/Controller/Cos/Handler/Progress.antt =====
-- How a teardown comes to its end.
use orb_operator.Base.{
  ℕ, [], ◌∷◌, ◌++◌, String, Bool, true, not, Option, none, ◌≡◌, refl, sym, ap, ◌∙◌, subst, if-elim,
  not-true,
}
use orb_operator.Errors.Steps.{ok-injective}
use orb_operator.Errors.{Result, ok}
use orb_operator.Api.{ClusterObjectSet}
use orb_operator.Kube.{RemovesFinalizer, CtrlResult, no_requeue}
use orb_operator.Boxcutter.{RevisionTeardownResult}
use orb_operator.Status.Cos.Update.{apply, from_teardown}
use orb_operator.Controller.Server.{
  Call, patch_cos, update_cos_status, free_accessor, History, M, ◌>>=◌, ◌>>◌, return, perform,
  wrapping, wrap_result, answer,
}
use orb_operator.Controller.Server.Effects.{ends-bind}
use orb_operator.Controller.Finalizer.{
  PollsUntil, without_finalizer, Poll, is_removed, remove_finalizer, wait_for_finalizer_removal,
}
use orb_operator.Controller.Cos.Env.{Env, finalizer_key, field_owner}
use orb_operator.Controller.Cos.Prepare.{has_finalizer}
use orb_operator.Controller.Cos.Handler.{
  do_teardown, teardown_objects, is_torn_down, write_status, written, result_of, release,
  finish_teardown,
}
use orb_operator.Controller.Cos.Handler.Closing.{do_teardown-cos}
use orb_operator.Controller.Cos.Handler.Released.{removing-history}
use orb_operator.Controller.Cos.Handler.Releasing.{IsDone, still_held, teardown_objects-IsDone}
use orb_operator.Base.{false}

-- The polling makes its first attempt at once.
abbrev pub PollsAtOnce : Poll → Type 0
PollsAtOnce poll = (condition : ℕ → Result Bool) → condition 0 ≡ ok true → poll condition ≡ ok tt

module _ {Obj GzipReader Cel Options PhaseOptions : Type 0}
    (env : Env Obj GzipReader Cel Options PhaseOptions) where
  -- The server takes every call, and a read of the revision right after a patch that leaves it without
  -- the finalizer finds it so, or gone.
  pub record IsWilling (name : String) : Type 0 where
    pub accepts : (h : History) (c : Call) → env.server h c ≡ none
    pub polls : PollsAtOnce env.poll
    pub removed :
        (h : History) (before after : ClusterObjectSet)
        → before.metadata.name ≡ name
        → env.finalizers.contains_finalizer after.metadata.finalizers finalizer_key ≡ false
        → is_removed env.finalizers finalizer_key
            (env.get_later (h ++ (patch_cos before after ∷ [])) name 0)
          ≡ ok true

  -- A step that is accepted, before one that succeeds.
  accepted :
      {A B : Type 0} (b : B) (m : M A) (f : A → M B) (h : History) (a : A)
      → (m h).0 ≡ ok a
      → (f a (m h).1).0 ≡ ok b
      → ((m >>= f) h).0 ≡ ok b
  accepted {B} b m f h a q next =
      ends-bind {B = B} (λ p. p.0 ≡ ok b) m f h
        (λ x r. subst (λ y. (f y (m h).1).0 ≡ ok b) (ok-injective _ _ (sym q ∙ r)) next)
        (λ e r. absurd (cc (q, r)))

  perform-ok : (c : Call) (h : History) → env.server h c ≡ none → (perform env.server c h).0 ≡ ok tt
  unfolding perform answer
  perform-ok c h q = rw q refl

  wrapping-ok :
      {A : Type 0} (context : String) (m : M A) (h : History) (a : A)
      → (m h).0 ≡ ok a
      → (wrapping context m h).0 ≡ ok a
  unfolding wrapping wrap_result
  wrapping-ok context m h a q = rw q refl

  remove_finalizer-ok :
      (cos : ClusterObjectSet) (h : History)
      → ((h : History) (c : Call) → env.server h c ≡ none)
      → (remove_finalizer env.fields_json env.server env.finalizers cos field_owner finalizer_key
          h).0
        ≡ ok tt
  unfolding remove_finalizer
  remove_finalizer-ok cos h accepts =
      if-elim (λ (m : M (Unit {0})). (m h).0 ≡ ok tt) (not (has_finalizer env cos finalizer_key)) _
        _ (λ _. refl) (λ _. perform-ok _ h (accepts h _))

  abbrev freeing : ClusterObjectSet → M (Unit {0})
  freeing cos = perform env.server (free_accessor cos)

  abbrev removing : ClusterObjectSet → M (Unit {0})
  removing cos =
      remove_finalizer env.fields_json env.server env.finalizers cos field_owner finalizer_key

  abbrev waiting : ClusterObjectSet → M (Unit {0})
  waiting cos k = (
    wait_for_finalizer_removal env.finalizers env.poll (env.get_later k cos.metadata.name)
        finalizer_key,
    k,
  )

  abbrev wait_context : String
  wait_context = "waiting for cache to sync finalizer removal: "

  waiting-ok :
      (cos : ClusterObjectSet) (h : History)
      → IsWilling cos.metadata.name
      → RemovesFinalizer env.finalizers
      → has_finalizer env cos finalizer_key ≡ true
      → (waiting cos (wrapping "removing finalizer: " (removing cos) h).1).0 ≡ ok tt
  unfolding wait_for_finalizer_removal wrapping without_finalizer
  waiting-ok cos h willing removes held =
      let after = without_finalizer env.fields_json env.finalizers cos field_owner finalizer_key in
      let k = (wrapping "removing finalizer: " (removing cos) h).1 in
      willing.polls
        (λ n. is_removed env.finalizers finalizer_key (env.get_later k cos.metadata.name n))
        (subst
          (λ l.
            is_removed env.finalizers finalizer_key (env.get_later l cos.metadata.name 0) ≡ ok true)
          (sym (removing-history env cos h held))
          (willing.removed h cos after refl
            (removes cos.metadata.finalizers finalizer_key finalizer_key)))

  release-ok :
      (cos : ClusterObjectSet) (h : History)
      → IsWilling cos.metadata.name
      → RemovesFinalizer env.finalizers
      → has_finalizer env cos finalizer_key ≡ true
      → (release env cos h).0 ≡ ok tt
  unfolding release
  release-ok cos h willing removes held =
      let k = (wrapping "freeing access manager: " (freeing cos) h).1 in
      let k' = (wrapping "removing finalizer: " (removing cos) k).1 in
      accepted tt (wrapping "freeing access manager: " (freeing cos))
        (λ _. wrapping "removing finalizer: " (removing cos) >> wrapping wait_context (waiting cos))
        h tt
        (wrapping-ok "freeing access manager: " (freeing cos) h tt
          (perform-ok (free_accessor cos) h (willing.accepts h _)))
        (accepted tt (wrapping "removing finalizer: " (removing cos))
          (λ _. wrapping wait_context (waiting cos)) k tt
          (wrapping-ok "removing finalizer: " (removing cos) k tt
            (remove_finalizer-ok cos k willing.accepts))
          (wrapping-ok wait_context (waiting cos) k' tt (waiting-ok cos k willing removes held)))

  write_status-done :
      (existing cos : ClusterObjectSet) (h : History)
      → ((h : History) (c : Call) → env.server h c ≡ none)
      → (write_status env existing cos none h).0 ≡ ok tt
  unfolding write_status written result_of
  write_status-done existing cos h accepts =
      if-elim (λ (p : Result (Unit {0}) × History). p.0 ≡ ok tt)
        (env.status_equal existing.status cos.status) _ _ (λ _. refl)
        (λ _. ap (written env cos none) (perform-ok (update_cos_status cos) h (accepts h _)))

  finish_teardown-done :
      (cos : ClusterObjectSet) (result : Option RevisionTeardownResult) (h : History)
      → IsWilling cos.metadata.name
      → RemovesFinalizer env.finalizers
      → has_finalizer env cos finalizer_key ≡ true
      → is_torn_down result ≡ true
      → (finish_teardown env cos result h).0 ≡ ok no_requeue
  unfolding finish_teardown
  finish_teardown-done cos result h willing removes held torn =
      if-elim (λ (m : M CtrlResult). (m h).0 ≡ ok no_requeue) (not (is_torn_down result)) _ _
        (λ q. absurd (cc (torn, not-true _ q)))
        (λ _.
          accepted no_requeue (release env cos) (λ _. return no_requeue) h tt
            (release-ok cos h willing removes held) refl)

  same_name :
      (cos : ClusterObjectSet) (h : History)
      → let o = do_teardown env cos h in
        (apply env.conditions o.cos
          (from_teardown o.cos o.result o.error (env.now o.history))).metadata.name
        ≡ cos.metadata.name
  unfolding apply
  same_name cos h = ap (λ (c : ClusterObjectSet). c.metadata.name) (do_teardown-cos env cos h)

  teardown_objects-ok :
      (cos : ClusterObjectSet) (h : History)
      → IsWilling cos.metadata.name
      → RemovesFinalizer env.finalizers
      → has_finalizer env cos finalizer_key ≡ true
      → (do_teardown env cos h).error ≡ none
      → is_torn_down (do_teardown env cos h).result ≡ true
      → (teardown_objects env cos h).0 ≡ ok no_requeue
  unfolding teardown_objects
  teardown_objects-ok cos h willing removes held fine torn =
      let o = do_teardown env cos h in
      let cos' =
        apply env.conditions o.cos (from_teardown o.cos o.result o.error (env.now o.history)) in
      accepted no_requeue (write_status env cos cos' o.error)
        (λ _. finish_teardown env cos' o.result) o.history tt
        (subst (λ e. (write_status env cos cos' e o.history).0 ≡ ok tt) (sym fine)
          (write_status-done cos cos' o.history willing.accepts))
        (finish_teardown-done cos' o.result _ (subst IsWilling (sym (same_name cos h)) willing)
          removes (still_held env cos h held) torn)

  -- If the server takes every call, and the polling makes its first attempt at once, which finds the
  -- revision as the patch left it or gone, then a teardown of a revision that has the finalizer, of
  -- which boxcutter reports no error and no object that is left, ends the work on it: no error, no wish
  -- to be run again, and as the last two calls the accessor is freed and the finalizer taken out.
  -- This is for a library that removes the finalizer that it is told to, and a polling that succeeds
  -- only after an attempt that did.
  pub teardown_objects-ends :
      (cos : ClusterObjectSet) (h : History)
      → IsWilling cos.metadata.name
      → RemovesFinalizer env.finalizers
      → PollsUntil env.poll
      → has_finalizer env cos finalizer_key ≡ true
      → (do_teardown env cos h).error ≡ none
      → is_torn_down (do_teardown env cos h).result ≡ true
      → let o = do_teardown env cos h in
        ((teardown_objects env cos h).0 ≡ ok no_requeue)
        × IsDone env o
            (apply env.conditions o.cos (from_teardown o.cos o.result o.error (env.now o.history)))
            (teardown_objects env cos h).1
  teardown_objects-ends cos h willing removes polls held fine torn =
      let done = teardown_objects-ok cos h willing removes held fine torn in
      (done, teardown_objects-IsDone env cos h polls held done)
