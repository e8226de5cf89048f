-- ===== src/Controller/Cos/Handler/Work.antt =====
-- What the work of one run, up to the status, adds to the history.
use orb_operator.Base.{
  true, ◌||◌, ◌&&◌, Option, none, some, List, [], ◌∷◌, ◌++◌, ◌≡◌, refl, sym, subst, ap, inl, inr,
  map, ◌⊎◌, some-injective,
}
use orb_operator.Errors.{Error, Result, ok, err, internal_error}
use orb_operator.Api.{ClusterObjectSet, is_archived_state}
use orb_operator.Assertions.{Prober}
use orb_operator.Boxcutter.{BoxRevision, RevisionResult}
use orb_operator.Object.{Resolved}
use orb_operator.Revision.Engine.Effects.{Bounds, reconcile-Rel, teardown-Rel}
use orb_operator.Controller.Server.{History, perform, wrapping, lift, get_accessor, return, ◌>>◌}
use orb_operator.Controller.Server.Effects.{Adds, ends-bind}
use orb_operator.Controller.Cos.Env.{Env, finalizer_key, EngineOptions}
use orb_operator.Controller.Cos.Protocol.{
  Facts, start, opened, Move, Run, IsWrite, Run-trans, Run-one, Adds-Run,
}
use orb_operator.Controller.Cos.Prepare.{
  has_finalizer, classified, as_error, open_engine, new_engine, resolve_and_prepare, EngineOf,
  engine_options, resolve_pinned,
}
use orb_operator.Controller.Cos.Handler.{
  is_deleted, teardown_prepared, Outcome, failed, answered, Preparation, reconcile_prepared,
  answered_option, do_teardown, do_reconcile,
}
use orb_operator.Object.Resolver.{managed_objects}
use orb_operator.Revision.Builder.{build}
use orb_operator.Errors.Steps.{ok-injective}
use orb_operator.Revision.Engine.{Answer}

module _ {Obj GzipReader Cel Options PhaseOptions : Type 0}
    (env : Env Obj GzipReader Cel Options PhaseOptions) where
  abbrev pub facts_of : ClusterObjectSet → Facts
  facts_of cos = record {
    held = has_finalizer env cos finalizer_key;
    going = is_deleted cos || is_archived_state cos.spec.lifecycle_state;
    orphaned = is_deleted cos && has_finalizer env cos "orphan";
    holds = λ fs. env.finalizers.contains_finalizer fs finalizer_key;
    before = cos.status;
  }

  -- Where the preparation ends: an engine is there only if the accessor was asked for.
  data Prepared {A : Type 0} (Good : A → Type 0) (f : Facts) (h : History)
      : Result A × History → Type 0 where
    unresolved : {e : Error} → Prepared Good f h (err e, h)
    unopened : {e : Error} {h' : History} → Run f start h opened h' → Prepared Good f h (err e, h')
    ready : {a : A} {h' : History} → Good a → Run f start h opened h' → Prepared Good f h (ok a, h')

  -- The history stays, and the engine is the one of the options.
  abbrev Opens : EngineOptions → History → Result (EngineOf env) × History → Type 0
  Opens opts h (r, h') = (h' ≡ h) × ((e : EngineOf env) → r ≡ ok e → env.engines opts ≡ e)

  open_engine-Opens : (opts : EngineOptions) (h : History) → Opens opts h (open_engine env opts h)
  unfolding open_engine
  open_engine-Opens opts h =
      ends-bind {B = EngineOf env} (Opens opts h) (lift (env.new_revision_engine opts))
        (λ _. lift (env.new_phase_engine opts) >> return (env.engines opts)) h
        (λ _ _.
          ends-bind {B = EngineOf env} (Opens opts h) (lift (env.new_phase_engine opts))
            (λ _. return (env.engines opts)) h (λ _ _. (refl, λ e q. ok-injective _ _ q))
            (λ _ _. (refl, λ e q. absurd (cc q))))
        (λ _ _. (refl, λ e q. absurd (cc q)))

  -- An engine that works for the revision, after the accessor.
  abbrev Ready : Facts → ClusterObjectSet → History → Result (EngineOf env) × History → Type 0
  Ready f cos h (r, h') =
      Run f start h opened h'
      × ((e : EngineOf env) → r ≡ ok e → env.engines (engine_options cos) ≡ e)

  pub new_engine-Ready :
      (f : Facts) (cos : ClusterObjectSet) (resolved : Resolved Obj) (h : History)
      → f.held ≡ true
      → Ready f cos h (new_engine env cos resolved h)
  unfolding new_engine perform wrapping
  new_engine-Ready f cos resolved h held =
      let kinds = map env.objects.group_version_kind (managed_objects env.objects resolved) in
      let first = Run-one h (Move.open_accessor {cos = cos} {kinds = kinds} held) in
      ends-bind {B = EngineOf env} (Ready f cos h)
        (wrapping "getting accessor: " (perform env.server (get_accessor cos kinds)))
        (λ _. open_engine env (engine_options cos)) h
        (λ _ _.
          let (same, only) =
            open_engine-Opens (engine_options cos) (h ++ (get_accessor cos kinds ∷ [])) in
          (subst (Run f start h opened) (sym same) first, only))
        (λ _ _. (first, λ e q. absurd (cc q)))

  abbrev IsEngineOf :
      ClusterObjectSet → EngineOf env × BoxRevision Obj (Prober Cel) ClusterObjectSet → Type 0
  IsEngineOf cos (engine, rev) = env.engines (engine_options cos) ≡ engine

  pub as_error-ok :
      {A : Type 0} (class : Error → Error) (r : Result A) (a : A)
      → as_error class r ≡ ok a
      → r ≡ ok a
  unfolding as_error
  as_error-ok class (ok b) a q = q
  as_error-ok class (err e) a q = absurd (cc q)

  resolve_and_prepare-Prepared :
      (f : Facts) (cos : ClusterObjectSet) (r : Result (Resolved Obj))
      (siblings : List ClusterObjectSet) (h : History)
      → f.held ≡ true
      → Prepared (IsEngineOf cos) f h (resolve_and_prepare env cos r siblings h)
  unfolding resolve_and_prepare classified as_error
  resolve_and_prepare-Prepared f cos (err e) siblings h held = unresolved
  resolve_and_prepare-Prepared f cos (ok resolved) siblings h held =
      let (run, only) = new_engine-Ready f cos resolved h held in
      ends-bind (Prepared (IsEngineOf cos) f h)
        (classified (λ e. internal_error e) (new_engine env cos resolved))
        (λ engine. return (engine, build env.new_cel_probe cos resolved siblings)) h
        (λ engine q. ready (only engine (as_error-ok _ _ engine q)) run) (λ _ _. unopened run)

  -- Where the work ends: with an error before an engine is opened, or after it is.
  abbrev pub WorkEnds : {A : Type 0} → Facts → History → Outcome A → Type 0
  WorkEnds f h o =
      ((e : Error) × (o.error ≡ some e) × (o.history ≡ h)) ⊎ Run f start h opened o.history

  module _ (writes : (opts : EngineOptions) → Bounds (env.engines opts) (Adds IsWrite)) where
    teardown_prepared-WorkEnds :
        (f : Facts) (cos : ClusterObjectSet) (h : History) (p : Preparation env)
        → Prepared (IsEngineOf cos) f h p
        → WorkEnds f h (teardown_prepared env cos p)
    unfolding teardown_prepared failed answered
    teardown_prepared-WorkEnds f cos h p unresolved = inl (_, refl, refl)
    teardown_prepared-WorkEnds f cos h p (unopened run) = inr run
    teardown_prepared-WorkEnds f cos h p (ready {a} {h'} only run) = inr (
        Run-trans run (
          Adds-Run (
            teardown-Rel a.0 (Adds IsWrite) (subst (λ e. Bounds e (Adds IsWrite)) only (writes _))
              a.1 h')))

    answered_option-WorkEnds :
        (f : Facts) (cos : ClusterObjectSet) (h h' : History)
        (answer : Option (Answer History RevisionResult)) (o : Outcome RevisionResult)
        → Run f start h opened h'
        → ((a : Answer History RevisionResult) → answer ≡ some a → Adds IsWrite h' a.cluster)
        → answered_option cos answer ≡ some o
        → WorkEnds f h o
    unfolding answered_option answered
    answered_option-WorkEnds f cos h h' none o run adds q = absurd (cc q)
    answered_option-WorkEnds f cos h h' (some a) o run adds q = inr (
        subst (λ (x : Outcome RevisionResult). Run f start h opened x.history)
          (some-injective _ _ q) (Run-trans run (Adds-Run (adds a refl))))

    reconcile_prepared-WorkEnds :
        (f : Facts) (cos : ClusterObjectSet) (h : History) (p : Preparation env)
        (o : Outcome RevisionResult)
        → Prepared (IsEngineOf cos) f h p
        → reconcile_prepared env cos p ≡ some o
        → WorkEnds f h o
    unfolding reconcile_prepared failed
    reconcile_prepared-WorkEnds f cos h p o unresolved q = inl (
      _,
      sym (ap (λ (x : Outcome RevisionResult). x.error) (some-injective _ _ q)),
      sym (ap (λ (x : Outcome RevisionResult). x.history) (some-injective _ _ q)),
    )
    reconcile_prepared-WorkEnds f cos h p o (unopened run) q = inr (
        subst (λ (x : Outcome RevisionResult). Run f start h opened x.history)
          (some-injective _ _ q) run)
    reconcile_prepared-WorkEnds f cos h p o (ready {a} {h'} only run) q =
        answered_option-WorkEnds f cos h h' _ o run
          (λ answer r.
            reconcile-Rel a.0 (Adds IsWrite) (subst (λ e. Bounds e (Adds IsWrite)) only (writes _))
              cos.status.observed_phases a.1 env.aggregate h' answer r)
          q

    pub do_teardown-WorkEnds :
        (f : Facts) (cos : ClusterObjectSet) (h : History)
        → f.held ≡ true
        → WorkEnds f h (do_teardown env cos h)
    unfolding do_teardown
    do_teardown-WorkEnds f cos h held =
        teardown_prepared-WorkEnds f cos h _ (resolve_and_prepare-Prepared f cos _ [] h held)

    pub do_reconcile-WorkEnds :
        (f : Facts) (cos : ClusterObjectSet) (siblings : List ClusterObjectSet) (h : History)
        (o : Outcome RevisionResult)
        → f.held ≡ true
        → do_reconcile env cos siblings h ≡ some o
        → WorkEnds f h o
    unfolding do_reconcile
    do_reconcile-WorkEnds f cos siblings h o held q =
        let (resolution, cos') = resolve_pinned env cos h in
        reconcile_prepared-WorkEnds f cos' h _ o
          (resolve_and_prepare-Prepared f cos' resolution siblings h held) q
