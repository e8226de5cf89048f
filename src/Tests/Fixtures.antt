-- ===== src/Tests/Fixtures.antt =====
-- The objects that the runs share.
use orb_operator.Base.{
  ℕ, String, Bool, false, Option, none, some, List, [], ◌∷◌, ◌≡◌, refl, String_eq, ◌==◌,
  if◌then◌else◌, arith, eq_iff, ◌≢◌,
}
use orb_operator.Api.{
  Time, ObjectMeta, Condition, condition_true, ClusterObjectSet, ClusterObjectDeployment,
  LifecycleState, ObservedPhase, PhaseStatus, available, reconciling, Phase, zero_counts,
}
use orb_operator.Kube.{ConditionApi, SetsByType, is_true}

abbrev pub replace : List Condition → Condition → List Condition
replace [] c = c ∷ []
replace (d ∷ ds) c = let rest = replace ds c in if d.type == c.type then c ∷ ds else d ∷ rest

abbrev pub holds : List Condition → String → Bool
holds [] t = false
holds (c ∷ cs) t = let rest = holds cs t in if c.type == t then is_true c.status else rest

-- Conditions as a list without repetitions.
abbrev pub conditions : ConditionApi
conditions = record { set_status_condition = replace; is_status_condition_true = holds }

pub conditions-SetsByType : SetsByType conditions
conditions-SetsByType [] c t = refl
conditions-SetsByType (d ∷ ds) c t =
    ground
      (arith, eq_iff d.type c.type, eq_iff d.type t, eq_iff c.type t, conditions-SetsByType ds c t)

abbrev pub meta : String → ObjectMeta
meta name = record {
  name = name;
  uid = name;
  generation = 1;
  creation_timestamp = 10;
  deletion_timestamp = none;
  labels = [];
  annotations = [];
  finalizers = [];
  owner_references = [];
  managed_fields = [];
}

abbrev pub spec_phase : String → Phase
spec_phase name = record { name = name; collision_protection = none; objects = [] }

abbrev pub phase : String → PhaseStatus → Option Time → ObservedPhase
phase name status at = record {
  name = name;
  status = status;
  completed_at = at;
  message = "";
  object_counts = zero_counts;
  object_details = [];
}

abbrev pub cos : String → ℕ → LifecycleState → List Condition → ClusterObjectSet
cos name revision state cs = record {
  metadata = meta name;
  spec = record {
    group = "app";
    revision = revision;
    lifecycle_state = state;
    collision_protection = none;
    phases = spec_phase "crds" ∷ spec_phase "deploy" ∷ [];
  };
  status = record {
    conditions = cs;
    resolved_content_hash = "";
    completed_at = none;
    object_counts = none;
    observed_phases = phase "crds" available (some 20) ∷ phase "deploy" reconciling none ∷ [];
  };
}

abbrev pub available_condition : Condition
available_condition = record {
  type = "Available";
  status = condition_true;
  observed_generation = 1;
  reason = "Available";
  message = "";
}

abbrev pub cod : Option ℕ → Option ℕ → ClusterObjectDeployment
cod history_limit deadline = record {
  metadata = meta "app";
  spec = record {
    revision_history_limit = history_limit;
    progress_deadline_minutes = deadline;
    template = record {
      metadata = record { labels = []; annotations = [] };
      spec = record { collision_protection = none; phases = [] };
    };
  };
  status = record { conditions = []; object_counts = none; active_revisions = [] };
}

-- Names that the test tells apart differ.
pub names_differ : (x y : String) → (x == y) ≡ false → x ≢ y
names_differ x y h = λ e. absurd (ground (arith, h, (eq_iff x y).1 e))
