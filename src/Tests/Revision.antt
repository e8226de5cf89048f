-- ===== src/Tests/Revision.antt =====
-- Runs of chains and of the engine.
use orb_operator.Base.{
  String, true, Option, none, List, [], ◌∷◌, ◌≡◌, ◌↔◌, refl, take, drop, filter, Memᴰ, ℕ, false,
  Bool, some, ◌++◌, ◌+◌, All,
}
use orb_operator.Api.{
  ObjectMeta, OwnerReference, ClusterObjectSet, active, archived, ObservedPhase, available,
  Assertion,
}
use orb_operator.Boxcutter.{BoxPhase, RevisionResult, BoxRevision}
use orb_operator.Revision.Chain.{build_chain, siblings_of, filter_by_owner, same_owner, is_other}
use orb_operator.Revision.Chain.Order.{is_active, siblings_iff}
use orb_operator.Revision.Engine.{split_phases, Engines, Answer, reconcile}
use orb_operator.Revision.Engine.Report.{reported, result_names, phase_names, reconcile-reported}
use orb_operator.Assertions.Guards.{probe_for_assertions-IsProbedBy, IsProbedBy, probes_of}
use orb_operator.Errors.{Result, ok, err, text}
use orb_operator.Assertions.{
  Prober, observed_generation, Combined, condition_probe, probe_for_assertions,
}
use orb_operator.Revision.Engine.Split.{HasUniqueNames, drift_count, is_not_gated, split_phases_lem}
use orb_operator.Api.{prevent}
use orb_operator.Object.{ResolvedObject, ResolvedPhase}
use orb_operator.Revision.Builder.{build_phase}
use orb_operator.Revision.Builder.Probed.{IsProbed, build_phase-IsProbed}
use orb_operator.Tests.Fixtures.{phase, cos, names_differ}

abbrev first : ClusterObjectSet
first = cos "app-1" 1 archived []

abbrev second : ClusterObjectSet
second = cos "app-2" 2 active []

abbrev third : ClusterObjectSet
third = cos "app-3" 3 active []

abbrev group : List ClusterObjectSet
group = second ∷ third ∷ first ∷ []

abbrev no_controller : ObjectMeta → Option OwnerReference
no_controller m = none

siblings_iff_example :
    Memᴰ third (siblings_of (build_chain (filter_by_owner no_controller group second)) second) ↔ (
      Memᴰ third group
      × (same_owner no_controller second third ≡ true)
      × (is_active third ≡ true)
      × (is_other second third ≡ true))
siblings_iff_example = siblings_iff no_controller group second third

abbrev box_phase : String → BoxPhase String String
box_phase name = record { name = name; objects = []; reconcile_options = [] }

abbrev four : List (BoxPhase String String)
four = box_phase "a" ∷ box_phase "b" ∷ box_phase "c" ∷ box_phase "d" ∷ []

four-HasUniqueNames : HasUniqueNames four
four-HasUniqueNames = (
  (names_differ "a" "b" refl, (names_differ "a" "c" refl, (names_differ "a" "d" refl, tt))),
  (
    (names_differ "b" "c" refl, (names_differ "b" "d" refl, tt)),
    ((names_differ "c" "d" refl, tt), (tt, tt)),
  ),
)

-- The gated pass reports the first phase; the second has completed before.
split_phases_lem_example :
    let n = drift_count ("a" ∷ []) ("b" ∷ []) (filter (is_not_gated ("a" ∷ [])) four) in
    split_phases ("a" ∷ []) four ("b" ∷ []) ≡ (
      take n (filter (is_not_gated ("a" ∷ [])) four),
      drop n (filter (is_not_gated ("a" ∷ [])) four),
    )
split_phases_lem_example = split_phases_lem ("a" ∷ []) four four-HasUniqueNames ("b" ∷ [])

abbrev gated_pass : RevisionResult
gated_pass = record {
  validation_error = none;
  phases = record { name = "a"; is_complete = false; validation_error = none; objects = [] } ∷ [];
  in_transition = true;
  is_complete = false;
  has_progressed = false;
}

-- The cluster counts the calls of the engines.
abbrev engines : Engines ℕ String String String Bool Bool
engines = record {
  revision_reconcile =
      λ rev o w. record { result = some gated_pass; error = none; cluster = w + 1 };
  revision_teardown = λ rev w. record { result = none; error = none; cluster = w + 1 };
  phase_reconcile = λ number p o w. record {
    result =
        some (record { name = p.name; is_complete = true; validation_error = none; objects = [] });
    error = none;
    cluster = w + 1;
  };
  for_phase = λ o name. o;
  pause = λ o. true;
  get = λ obj w. none;
}

abbrev observed : List ObservedPhase
observed = phase "b" available (some 20) ∷ []

abbrev box_revision : BoxRevision String String String
box_revision = record {
  name = "app-2";
  revision_number = 2;
  phases = four;
  owner = "app";
  reconcile_options = [];
}

reconcile-reported_example :
    (a : Answer ℕ RevisionResult) × (reconcile engines observed box_revision false 0 ≡ some a)
    × (a.error ≡ none)
    × (reported a.result
        ≡ result_names gated_pass.phases
          ++ phase_names (filter (is_not_gated (result_names gated_pass.phases)) four))
reconcile-reported_example =
    reconcile-reported engines (λ number p o w. (_, refl, refl, refl)) observed box_revision false
      gated_pass 0 four-HasUniqueNames refl refl refl refl

abbrev ready_assertion : Assertion
ready_assertion = record {
  condition_equal = some (record { type = "Ready"; status = "True" });
  fields_equal = none;
  field_value = none;
  cel_expression = none;
}

-- No CEL program compiles.
abbrev no_cel : String → String → Result String
no_cel expression message = err (text "syntax error")

abbrev ready_prober : Option (Prober String)
ready_prober = some (observed_generation (Combined.one (condition_probe "Ready" "True")))

probe_for_assertions-ready : probe_for_assertions no_cel (ready_assertion ∷ []) ≡ ok ready_prober
unfolding probe_for_assertions
probe_for_assertions-ready = refl

probe_for_assertions-IsProbedBy_example :
    All (IsProbedBy no_cel (probes_of ready_prober)) (ready_assertion ∷ [])
probe_for_assertions-IsProbedBy_example =
    probe_for_assertions-IsProbedBy no_cel (ready_assertion ∷ []) ready_prober
      probe_for_assertions-ready

abbrev no_assertion : Assertion
no_assertion = record ready_assertion { condition_equal = none }

abbrev resolved_object : ResolvedObject String
resolved_object = record {
  obj = "config";
  assertions = no_assertion ∷ [];
  collision_protection = none;
}

abbrev resolved_phase : ResolvedPhase String
resolved_phase = record {
  name = "a";
  collision_protection = some prevent;
  objects = resolved_object ∷ [];
}

build_phase-IsProbed_example :
    IsProbed "config" (build_phase no_cel resolved_phase).reconcile_options
build_phase-IsProbed_example =
    build_phase-IsProbed no_cel resolved_phase resolved_object no_assertion [] (Memᴰ.head refl) refl
