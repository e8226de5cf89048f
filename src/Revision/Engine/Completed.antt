-- ===== src/Revision/Engine/Completed.antt =====
-- What a successful reconcile of a revision says of the engine's passes.
use orb_operator.Base.{
  true, false, ◌||◌, Option, none, some, List, [], ◌∷◌, ◌≡◌, refl, ap, ap₂, ◌∙◌, All, map, is_some,
  some-injective, if-elim, arith,
}
use orb_operator.Errors.{Error}
use orb_operator.Api.{ObservedPhase}
use orb_operator.Boxcutter.{BoxRevision, PhaseResult, RevisionResult, RevisionValidationError}
use orb_operator.Status.Cos.Update.Laws.{is_success, succeeds}
use orb_operator.Revision.Engine.{
  Answer, Engines, PassResult, after_gated, any_incomplete, as_revision_result,
  completed_phase_names, is_complete, later_passes, reconcile, run_phases, split_phases,
}

any_incomplete-false :
    (rs : List PhaseResult)
    → any_incomplete rs ≡ false
    → All (λ (r : PhaseResult). r.is_complete ≡ true) rs
unfolding any_incomplete
any_incomplete-false [] q = tt
any_incomplete-false (r ∷ rs) q = (ground (arith, q), any_incomplete-false rs (ground (arith, q)))

is_complete-both :
    (gated : RevisionResult) (drift : List PhaseResult)
    → is_complete (record { gated = gated; drift_results = drift; read_only_results = [] }) ≡ true
    → (gated.is_complete ≡ true) × (any_incomplete drift ≡ false)
unfolding is_complete
is_complete-both gated drift q = (ground (arith, q), ground (arith, q))

succeeds_lem :
    (r : RevisionResult) (o : Option RevisionValidationError)
    → succeeds r o ≡ true
    → (o ≡ none) × (r.has_progressed ≡ false) × (r.is_complete ≡ true)
succeeds_lem r (some v) q = absurd (cc q)
succeeds_lem r none q = (refl, ground (arith, q), ground (arith, q))

refused :
    (gated r : RevisionResult)
    → gated ≡ r
    → (is_some gated.validation_error || gated.has_progressed) ≡ true
    → succeeds r r.validation_error ≡ true
    → ⊥
refused gated r same stopped success =
    let (valid, current, _) = succeeds_lem r r.validation_error success in
    absurd (
      cc (
        stopped,
        ap (λ (x : RevisionResult). is_some x.validation_error || x.has_progressed) same,
        ap₂ (λ o b. is_some o || b) valid current,
      ))

module _ {W Obj Probe Owner Options PhaseOptions : Type 0}
    (e : Engines W Obj Probe Owner Options PhaseOptions) (existing : List ObservedPhase)
    (rev : BoxRevision Obj Probe Owner) (opts : Options) (w : W) where
  -- The pass over the phases that boxcutter did not report and that are corrected all the same.
  abbrev pub second_pass_of : RevisionResult → PassResult W
  second_pass_of gated =
      run_phases e (λ o. o) rev.revision_number opts
        (split_phases (map (λ (p : PhaseResult). p.name) gated.phases) rev.phases
          (completed_phase_names existing)).0
        (e.revision_reconcile rev opts w).cluster

  -- The pass of boxcutter over the revision succeeded and is complete, and the second pass ended
  -- without an error, with results that are all complete.
  pub record Completed : Type 0 where
    pub gated : RevisionResult
    pub answered : (e.revision_reconcile rev opts w).result ≡ some gated
    pub no_error : (e.revision_reconcile rev opts w).error ≡ none
    pub valid : gated.validation_error ≡ none
    pub unsuperseded : gated.has_progressed ≡ false
    pub complete : gated.is_complete ≡ true
    pub second_pass :
        let pass = second_pass_of gated in
        (pass.error ≡ none) × All (λ (p : PhaseResult). p.is_complete ≡ true) pass.results

  later_passes-Completed :
      (gated : RevisionResult) (r : RevisionResult)
      → (e.revision_reconcile rev opts w).result ≡ some gated
      → (e.revision_reconcile rev opts w).error ≡ none
      → (later_passes e existing rev opts gated (e.revision_reconcile rev opts w).cluster).result
        ≡ some r
      → (later_passes e existing rev opts gated (e.revision_reconcile rev opts w).cluster).error
        ≡ none
      → succeeds r r.validation_error ≡ true
      → Completed
  unfolding later_passes as_revision_result is_complete
  later_passes-Completed gated r answered no_error q clean success =
      let same = some-injective _ _ q in
      let (valid, current, complete) = succeeds_lem r r.validation_error success in
      let (first, second) =
        is_complete-both gated (second_pass_of gated).results
          (ap (λ (x : RevisionResult). x.is_complete) same ∙ complete) in
      record {
        gated = gated;
        answered = answered;
        no_error = no_error;
        valid = ap (λ (x : RevisionResult). x.validation_error) same ∙ valid;
        unsuperseded = ap (λ (x : RevisionResult). x.has_progressed) same ∙ current;
        complete = first;
        second_pass = (clean, any_incomplete-false _ second);
      }

  after_gated-Completed :
      (result : Option RevisionResult) (error : Option Error) (a : Answer W RevisionResult)
      (r : RevisionResult)
      → (e.revision_reconcile rev opts w).result ≡ result
      → (e.revision_reconcile rev opts w).error ≡ error
      → after_gated e existing rev opts result error (e.revision_reconcile rev opts w).cluster
        ≡ some a
      → a.result ≡ some r
      → a.error ≡ none
      → succeeds r r.validation_error ≡ true
      → Completed
  unfolding after_gated
  after_gated-Completed result (some x) a r answered no_error done q clean success =
      absurd (cc (ap (λ (b : Answer W RevisionResult). b.error) (some-injective _ _ done), clean))
  after_gated-Completed none none a r answered no_error done q clean success = absurd (cc done)
  after_gated-Completed (some gated) none a r answered no_error done q clean success =
      if-elim (λ (x : Option (Answer W RevisionResult)). x ≡ some a → Completed)
        (is_some gated.validation_error || gated.has_progressed) _ _
        (λ stopped done. absurd (
          refused gated r
            (some-injective _ _
              (ap (λ (b : Answer W RevisionResult). b.result) (some-injective _ _ done) ∙ q))
            stopped success))
        (λ _ done.
          let same = some-injective _ _ done in
          later_passes-Completed gated r answered no_error
            (ap (λ (b : Answer W RevisionResult). b.result) same ∙ q)
            (ap (λ (b : Answer W RevisionResult). b.error) same ∙ clean) success)
        done

  by_result :
      (a : Answer W RevisionResult) (result : Option RevisionResult) (error : Option Error)
      → reconcile e existing rev opts w ≡ some a
      → a.result ≡ result
      → a.error ≡ error
      → is_success result error ≡ true
      → Completed
  unfolding reconcile
  by_result a none error done q clean success = absurd (cc success)
  by_result a (some r) (some x) done q clean success = absurd (cc success)
  by_result a (some r) none done q clean success =
      after_gated-Completed _ _ a r refl refl done q clean success

  pub reconcile-Completed :
      (a : Answer W RevisionResult)
      → reconcile e existing rev opts w ≡ some a
      → is_success a.result a.error ≡ true
      → Completed
  reconcile-Completed a done success = by_result a a.result a.error done refl refl success
