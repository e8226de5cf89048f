-- ===== src/Status/Cos/Mapping.antt =====
-- `mapSpecPhases`, generic in the kind of result, and `objectStatusFromRef`.
pub mod Names
use orb_operator.Base.{
  ℕ, String, Bool, Option, none, some, List, [], ◌∷◌, map, length, Map, lookup, insert, String_eq,
  if◌then◌else◌,
}
use orb_operator.Base.Int.{i64}
use orb_operator.Api.{
  Phase, PhaseStatus, unknown, ObjectCounts, zero_counts, ObjectStatus, ObservedPhase,
}
use orb_operator.Boxcutter.{BoxRef}

-- `int64(len(sp.Objects))`
abbrev pub total_of : Phase → ℕ
total_of sp = i64 (length sp.objects)

unfoldable pub object_status_from_ref : BoxRef → List String → ObjectStatus
object_status_from_ref ref messages = record {
  group = ref.group;
  version = ref.version;
  kind = ref.kind;
  namespace = ref.namespace;
  name = ref.name;
  messages = messages;
}

-- The loop of `mapSpecPhases` that indexes the results by name; a later result replaces an earlier.
module _ {ℓ} {T : Type ℓ} (get_name : T → String) where
  unfoldable pub index_by_name : List T → Map String T → Map String T
  index_by_name [] m = m
  index_by_name (r ∷ rs) m = index_by_name rs (insert (get_name r) r m)

module _ {ℓ} {T : Type ℓ} (get_name : T → String) (is_complete : T → Bool)
    (complete_status : PhaseStatus) (unevaluated_message : String)
    (complete_object_counts : ℕ → ObjectCounts) (build_incomplete : Phase → T → ObservedPhase) where
  unfoldable pub map_spec_phase : Phase → Option T → ObservedPhase
  map_spec_phase sp none = record {
    name = sp.name;
    status = unknown;
    completed_at = none;
    message = unevaluated_message;
    object_counts = record zero_counts { total = total_of sp };
    object_details = [];
  }
  map_spec_phase sp (some r) =
      if is_complete r
      then record {
        name = sp.name;
        status = complete_status;
        completed_at = none;
        message = "";
        object_counts = complete_object_counts (total_of sp);
        object_details = [];
      }
      else build_incomplete sp r

  unfoldable pub map_spec_phases : List Phase → List T → List ObservedPhase
  unfolding map_spec_phase index_by_name
  map_spec_phases spec_phases results =
      let results_by_name = index_by_name get_name results [] in
      map (λ sp. map_spec_phase sp (lookup results_by_name sp.name)) spec_phases
