-- ===== src/Revision/Engine.antt =====
-- internal/revision/engine.go: boxcutter's engine for a revision, and the two passes of the operator
-- over the phases that it did not reach. The cluster is a state of unknown type that each call of
-- boxcutter changes; a call gives a result, which may be nil, and an error, which may be nil.
pub mod Effects
pub mod Split
pub mod Report
pub mod Answers
pub mod Completed
use orb_operator.Base.{
  ℕ, String, Bool, true, false, not, ◌&&◌, ◌||◌, Option, none, some, List, [], ◌∷◌, ◌++◌, map,
  if◌then◌else◌, contains, String_eq, is_some, filter,
}
use orb_operator.Errors.{Error}
use orb_operator.Api.{ObservedPhase}
use orb_operator.Boxcutter.{
  BoxRef, PhaseResult, RevisionResult, PhaseTeardownResult, RevisionTeardownResult, BoxPhase,
  BoxRevision, RevisionValidationError,
}

-- `completedPhaseNames`: the names of the phases that have a completion time.
unfoldable pub completed_phase_names : List ObservedPhase → List String
completed_phase_names [] = []
completed_phase_names (op ∷ ops) =
    let rest = completed_phase_names ops in if is_some op.completed_at then op.name ∷ rest else rest

module _ {ℓ} {Obj Probe : Type ℓ} (gated : List String) where
  -- The loop of `phasesAfter`; the flag is `found`.
  unfoldable pub phases_after_from :
      Bool → List (BoxPhase Obj Probe) → String → List (BoxPhase Obj Probe)
  phases_after_from found [] after_name = []
  phases_after_from found (p ∷ ps) after_name =
      let from_here = phases_after_from true ps after_name in
      let rest = phases_after_from found ps after_name in
      if contains (after_name ∷ []) p.name
      then from_here
      else if not found
      then rest
      else if contains gated p.name
      then rest
      else p ∷ rest

  unfoldable pub phases_after : List (BoxPhase Obj Probe) → String → List (BoxPhase Obj Probe)
  unfolding phases_after_from
  phases_after phases after_name = phases_after_from false phases after_name

  -- The loop of `splitPhases` over the phases that are left; `phases` are all of the revision's.
  unfoldable pub split_from :
      (phases : List (BoxPhase Obj Probe)) (completed : List String)
      → List (BoxPhase Obj Probe)
      → Bool
      → List (BoxPhase Obj Probe)
      → List (BoxPhase Obj Probe) × List (BoxPhase Obj Probe)
  unfolding phases_after
  split_from phases completed [] saw_completed drift = (drift, [])
  split_from phases completed (p ∷ ps) saw_completed drift =
      let skip = split_from phases completed ps saw_completed drift in
      let go_on = split_from phases completed ps true (drift ++ (p ∷ [])) in
      let is_completed = contains completed p.name in
      if contains gated p.name
      then skip
      else if not is_completed && not saw_completed
      then (drift, p ∷ phases_after phases p.name)
      else if not is_completed
      then (drift ++ (p ∷ []), phases_after phases p.name)
      else go_on

  unfoldable pub split_phases :
      List (BoxPhase Obj Probe)
      → List String
      → List (BoxPhase Obj Probe) × List (BoxPhase Obj Probe)
  unfolding split_from
  split_phases phases completed = split_from phases completed phases false []

-- The struct `Result`, and the getters by which it is a `machinery.RevisionResult`.
pub record EngineResult : Type 0 where
  pub gated : RevisionResult
  pub drift_results : List PhaseResult
  pub read_only_results : List PhaseResult

any_incomplete : List PhaseResult → Bool
any_incomplete [] = false
any_incomplete (dr ∷ drs) = not dr.is_complete || any_incomplete drs

unfoldable pub in_transition : EngineResult → Bool
unfolding any_incomplete
in_transition r = if r.gated.in_transition then true else any_incomplete r.drift_results

unfoldable pub is_complete : EngineResult → Bool
unfolding any_incomplete
is_complete r = if not r.gated.is_complete then false else not (any_incomplete r.drift_results)

unfoldable pub get_phases : EngineResult → List PhaseResult
get_phases r = (r.gated.phases ++ r.drift_results) ++ r.read_only_results

unfoldable pub as_revision_result : EngineResult → RevisionResult
unfolding in_transition is_complete get_phases
as_revision_result r = record {
  validation_error = r.gated.validation_error;
  phases = get_phases r;
  in_transition = in_transition r;
  is_complete = is_complete r;
  has_progressed = r.gated.has_progressed;
}

-- A result and an error, each of which may be nil, and the cluster afterwards.
pub record Answer {ℓ} (W A : Type ℓ) : Type ℓ where
  pub result : Option A
  pub error : Option Error
  pub cluster : W

-- boxcutter's two engines and the reader. The options are those of the call; `for_phase` is
-- `RevisionReconcileOptions.ForPhase`, and `pause` appends `WithPaused`. `get` is `reader.Get`, with
-- the reference of the object that it found.
pub record Engines (W Obj Probe Owner Options PhaseOptions : Type 0) : Type 0 where
  pub revision_reconcile : BoxRevision Obj Probe Owner → Options → W → Answer W RevisionResult
  pub revision_teardown : BoxRevision Obj Probe Owner → W → Answer W RevisionTeardownResult
  pub phase_reconcile : ℕ → BoxPhase Obj Probe → PhaseOptions → W → Answer W PhaseResult
  pub for_phase : Options → String → PhaseOptions
  pub pause : PhaseOptions → PhaseOptions
  pub get : Obj → W → Option BoxRef

-- Results that are not nil are kept.
abbrev pub keep {ℓ} : {A : Type ℓ} → Option A → List A → List A
keep none rs = rs
keep (some r) rs = r ∷ rs

-- What a pass over phases returns.
pub record PassResult (W : Type 0) : Type 0 where
  pub results : List PhaseResult
  pub error : Option Error
  pub cluster : W

module _ {W Obj Probe Owner Options PhaseOptions : Type 0}
    (e : Engines W Obj Probe Owner Options PhaseOptions) where
  -- The loop over phases that both passes have; `adjust` is the identity or `pause`. An error ends
  -- the loop.
  unfoldable pub run_phases :
      (PhaseOptions → PhaseOptions) → ℕ → Options → List (BoxPhase Obj Probe) → W → PassResult W
  run_phases adjust number opts [] w = record { results = []; error = none; cluster = w }
  run_phases adjust number opts (p ∷ ps) w =
      let a = e.phase_reconcile number p (adjust (e.for_phase opts p.name)) w in
      let rest = run_phases adjust number opts ps a.cluster in
      if is_some a.error
      then record { results = keep a.result []; error = a.error; cluster = a.cluster }
      else record rest { results = keep a.result rest.results }

  -- The third pass runs only if the second ended without an error, and its error is dropped.
  unfoldable read_only_pass :
      Option Error → ℕ → Options → List (BoxPhase Obj Probe) → W → PassResult W
  unfolding run_phases
  read_only_pass (some _) number opts phases w = record { results = []; error = none; cluster = w }
  read_only_pass none number opts phases w = run_phases e.pause number opts phases w

  unfoldable pub later_passes :
      List ObservedPhase
      → BoxRevision Obj Probe Owner
      → Options
      → RevisionResult
      → W
      → Answer W RevisionResult
  unfolding run_phases read_only_pass split_phases completed_phase_names as_revision_result
  later_passes existing rev opts gated w =
      let (drift, read_only) =
        split_phases (map (λ (pr : PhaseResult). pr.name) gated.phases) rev.phases
          (completed_phase_names existing) in
      let d = run_phases (λ o. o) rev.revision_number opts drift w in
      let r = read_only_pass d.error rev.revision_number opts read_only d.cluster in
      record {
        result = some (
            as_revision_result
              (record { gated = gated; drift_results = d.results; read_only_results = r.results }));
        error = d.error;
        cluster = r.cluster;
      }

  unfoldable after_gated :
      List ObservedPhase
      → BoxRevision Obj Probe Owner
      → Options
      → Option RevisionResult
      → Option Error
      → W
      → Option (Answer W RevisionResult)
  unfolding later_passes
  after_gated existing rev opts result (some err) w =
      some (record { result = result; error = some err; cluster = w })
  after_gated existing rev opts none none w = none
  after_gated existing rev opts (some gated) none w =
      if is_some gated.validation_error || gated.has_progressed
      then some (record { result = some gated; error = none; cluster = w })
      else some (later_passes existing rev opts gated w)

  -- `Engine.Reconcile`. `none` is the panic on a nil result that comes with no error.
  unfoldable pub reconcile :
      List ObservedPhase
      → BoxRevision Obj Probe Owner
      → Options
      → W
      → Option (Answer W RevisionResult)
  unfolding after_gated
  reconcile existing rev opts w =
      let a = e.revision_reconcile rev opts w in
      after_gated existing rev opts a.result a.error a.cluster

  -- The objects of a waiting phase that are still there.
  present_objects : List Obj → W → List BoxRef
  present_objects [] w = []
  present_objects (o ∷ os) w = keep (e.get o w) (present_objects os w)

  read_only_phases : List String → List (BoxPhase Obj Probe) → W → List PhaseTeardownResult
  unfolding present_objects
  read_only_phases waiting [] w = []
  read_only_phases waiting (p ∷ ps) w =
      let rest = read_only_phases waiting ps w in
      if not (contains waiting p.name)
      then rest
      else record { name = p.name; is_complete = false; waiting = present_objects p.objects w }
        ∷ rest

  with_read_only :
      BoxRevision Obj Probe Owner
      → Option RevisionTeardownResult
      → Option Error
      → W
      → Answer W RevisionTeardownResult
  unfolding read_only_phases
  with_read_only rev result (some err) w = record { result = result; error = some err; cluster = w }
  with_read_only rev none none w = record { result = none; error = none; cluster = w }
  with_read_only rev (some r) none w = record {
    result = some (elim r.waiting_phase_names [
      | [] ↦ r
      | n ∷ ns ↦ record r {
        phases = r.phases ++ read_only_phases (n ∷ ns) rev.phases w;
        waiting_phase_names = [];
      }
    ]);
    error = none;
    cluster = w;
  }

  -- `Engine.Teardown`
  unfoldable pub teardown : BoxRevision Obj Probe Owner → W → Answer W RevisionTeardownResult
  unfolding with_read_only
  teardown rev w =
      let a = e.revision_teardown rev w in with_read_only rev a.result a.error a.cluster
