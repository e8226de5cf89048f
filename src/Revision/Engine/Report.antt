-- ===== src/Revision/Engine/Report.antt =====
-- Which phases the result of a reconcile reports.
use mathlib.Core.List.{append_assoc}
use orb_operator.Base.{
  ℕ, String, ◌≡◌, refl, sym, ap, ◌∙◌, false, Option, none, some, List, [], ◌∷◌, ◌++◌, map, take,
  drop, filter, take-append-drop, ap₂,
}
use orb_operator.Api.{ObservedPhase}
use orb_operator.Boxcutter.{BoxPhase, BoxRevision, PhaseResult, RevisionResult}
use orb_operator.Revision.Engine.{
  Engines, Answer, run_phases, read_only_pass, later_passes, reconcile, completed_phase_names,
  get_phases, EngineResult, after_gated,
}
use orb_operator.Revision.Engine.Split.{HasUniqueNames, is_not_gated, drift_count, split_phases_lem}

abbrev pub result_names : List PhaseResult → List String
result_names = map (λ (pr : PhaseResult). pr.name)

abbrev pub phase_names {ℓ} : {Obj Probe : Type ℓ} → List (BoxPhase Obj Probe) → List String
phase_names = map (λ (p : BoxPhase _ _). p.name)

module _ {W Obj Probe Owner Options PhaseOptions : Type 0}
    (e : Engines W Obj Probe Owner Options PhaseOptions) where
  -- boxcutter reconciles a phase without an error, and names its result for the phase.
  abbrev pub ReportsPhases : Type 0
  ReportsPhases =
      (number : ℕ) (p : BoxPhase Obj Probe) (o : PhaseOptions) (w : W)
      → (r : PhaseResult) × ((e.phase_reconcile number p o w).result ≡ some r)
        × (r.name ≡ p.name)
        × ((e.phase_reconcile number p o w).error ≡ none)

  module _ (reports : ReportsPhases) where
    run_phases-names :
        (adjust : PhaseOptions → PhaseOptions) (number : ℕ) (opts : Options)
        (ps : List (BoxPhase Obj Probe)) (w : W)
        → ((run_phases e adjust number opts ps w).error ≡ none)
          × (result_names (run_phases e adjust number opts ps w).results ≡ phase_names ps)
    unfolding run_phases
    run_phases-names adjust number opts [] w = (refl, refl)
    run_phases-names adjust number opts (p ∷ ps) w =
        let (r, result, name, no_error) = reports number p (adjust (e.for_phase opts p.name)) w in
        let (none_left, names) =
          run_phases-names adjust number opts ps
            (e.phase_reconcile number p (adjust (e.for_phase opts p.name)) w).cluster in
        rw (no_error, result) (none_left, ap₂ (λ x xs. x ∷ xs) name names)

    read_only_pass-names :
        (number : ℕ) (opts : Options) (ps : List (BoxPhase Obj Probe)) (w : W)
        → result_names (read_only_pass e none number opts ps w).results ≡ phase_names ps
    unfolding read_only_pass
    read_only_pass-names number opts ps w = (run_phases-names e.pause number opts ps w).1

abbrev pub reported : Option RevisionResult → List String
reported none = []
reported (some r) = result_names r.phases

map-append {ℓ κ} :
    {A : Type ℓ} {B : Type κ} (f : A → B) (xs ys : List A) → map f (xs ++ ys) ≡ map f xs ++ map f ys
map-append f [] ys = refl
map-append f (x ∷ xs) ys = ap (λ l. f x ∷ l) (map-append f xs ys)

result_names-get_phases :
    (r : EngineResult)
    → result_names (get_phases r)
      ≡ result_names r.gated.phases
        ++ (result_names r.drift_results ++ result_names r.read_only_results)
unfolding get_phases
result_names-get_phases r =
    map-append (λ (pr : PhaseResult). pr.name) (r.gated.phases ++ r.drift_results)
      r.read_only_results
    ∙ ap (λ l. l ++ result_names r.read_only_results)
        (map-append (λ (pr : PhaseResult). pr.name) r.gated.phases r.drift_results)
    ∙ append_assoc (result_names r.gated.phases) (result_names r.drift_results)
        (result_names r.read_only_results)

-- The two later passes together take each phase that is not gated once, in order.
phase_names-split {ℓ} :
    {Obj Probe : Type ℓ} (n : ℕ) (ps : List (BoxPhase Obj Probe))
    → phase_names (take n ps) ++ phase_names (drop n ps) ≡ phase_names ps
phase_names-split n ps =
    sym (map-append (λ (p : BoxPhase _ _). p.name) (take n ps) (drop n ps))
    ∙ ap phase_names (take-append-drop n ps)

module _ {W Obj Probe Owner Options PhaseOptions : Type 0}
    (e : Engines W Obj Probe Owner Options PhaseOptions) (reports : ReportsPhases e)
    (existing : List ObservedPhase) (rev : BoxRevision Obj Probe Owner) (opts : Options)
    (gated : RevisionResult) where
  later_passes-reported :
      (w : W)
      → HasUniqueNames rev.phases
      → ((later_passes e existing rev opts gated w).error ≡ none)
        × (reported (later_passes e existing rev opts gated w).result
            ≡ result_names gated.phases
              ++ phase_names (filter (is_not_gated (result_names gated.phases)) rev.phases))
  unfolding later_passes
  later_passes-reported w unique =
      let gs = result_names gated.phases in
      let rest = filter (is_not_gated gs) rev.phases in
      let n = drift_count gs (completed_phase_names existing) rest in
      let d = run_phases e (λ o. o) rev.revision_number opts (take n rest) w in
      let (no_error, drift) =
        run_phases-names e reports (λ o. o) rev.revision_number opts (take n rest) w in
      let more = read_only_pass-names e reports rev.revision_number opts (drop n rest) d.cluster in
      let r : EngineResult = record {
        gated = gated;
        drift_results = d.results;
        read_only_results =
            (read_only_pass e none rev.revision_number opts (drop n rest) d.cluster).results;
      } in
      rw (split_phases_lem gs rev.phases unique (completed_phase_names existing), no_error)
        (
          refl,
          result_names-get_phases r
              ∙ ap (λ l. gs ++ l) (ap₂ (λ a b. a ++ b) drift more ∙ phase_names-split n rest),
        )

  -- Where boxcutter's gated pass succeeds with a result that is valid and not superseded, every
  -- other phase is reconciled without an error, and the phases of the revision have different
  -- names: the result reports the phases of the gated pass and then, in the revision's order, each
  -- remaining phase once.
  pub reconcile-reported :
      (w : W)
      → HasUniqueNames rev.phases
      → (e.revision_reconcile rev opts w).result ≡ some gated
      → (e.revision_reconcile rev opts w).error ≡ none
      → gated.validation_error ≡ none
      → gated.has_progressed ≡ false
      → (a : Answer W RevisionResult) × (reconcile e existing rev opts w ≡ some a)
        × (a.error ≡ none)
        × (reported a.result
            ≡ result_names gated.phases
              ++ phase_names (filter (is_not_gated (result_names gated.phases)) rev.phases))
  unfolding reconcile after_gated
  reconcile-reported w unique result no_error valid current =
      let after = (e.revision_reconcile rev opts w).cluster in
      let (f, names) = later_passes-reported after unique in
      (
        later_passes e existing rev opts gated after,
        rw (result, no_error, valid, current) refl,
        f,
        names,
      )
