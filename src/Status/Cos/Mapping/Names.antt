-- ===== src/Status/Cos/Mapping/Names.antt =====
-- The names of the phases that `map_spec_phases` reports.
use orb_operator.Base.{
  String, ◌≡◌, refl, Bool, Option, none, some, List, [], ◌∷◌, map, Map, lookup, insert, String_eq,
  eq_iff, arith, ℕ, ap₂,
}
use orb_operator.Api.{Phase, PhaseStatus, ObjectCounts, ObservedPhase}
use orb_operator.Status.Cos.Mapping.{index_by_name, map_spec_phase, map_spec_phases}

module _ {ℓ} {T : Type ℓ} (get_name : T → String) where
  -- Every entry of the index stands under its own name.
  pub lookup-index_by_name :
      (rs : List T) (m : Map String T) (k : String) (r : T)
      → ((q : T) → lookup m k ≡ some q → get_name q ≡ k)
      → lookup (index_by_name get_name rs m) k ≡ some r
      → get_name r ≡ k
  unfolding index_by_name
  lookup-index_by_name [] m k r h e = h r e
  lookup-index_by_name (x ∷ rs) m k r h e =
      lookup-index_by_name rs (insert (get_name x) x m) k r
        (λ q f. ground (arith, eq_iff (get_name x) k, h q)) e

  pub lookup-index_by_name_nil :
      (rs : List T) (k : String) (r : T)
      → lookup (index_by_name get_name rs []) k ≡ some r
      → get_name r ≡ k
  lookup-index_by_name_nil rs k r = lookup-index_by_name rs [] k r (λ q f. cc)

module _ {ℓ} {T : Type ℓ} (get_name : T → String) (is_complete : T → Bool)
    (complete_status : PhaseStatus) (unevaluated_message : String)
    (complete_object_counts : ℕ → ObjectCounts) (build_incomplete : Phase → T → ObservedPhase) where
  name-map_spec_phase :
      ((sp : Phase) (r : T) → (build_incomplete sp r).name ≡ get_name r)
      → (sp : Phase) (o : Option T) → ((r : T) → o ≡ some r → get_name r ≡ sp.name)
      → (map_spec_phase get_name is_complete complete_status unevaluated_message
          complete_object_counts build_incomplete sp o).name
        ≡ sp.name
  unfolding map_spec_phase
  name-map_spec_phase built sp none h = refl
  name-map_spec_phase built sp (some r) h = ground (arith, built sp r, h r)

  -- One observed phase for each phase of the spec, in the same order and under the same name.
  pub names-map_spec_phases :
      ((sp : Phase) (r : T) → (build_incomplete sp r).name ≡ get_name r)
      → (sps : List Phase) (rs : List T)
      → map
          (λ (p : ObservedPhase). p.name)
          (map_spec_phases get_name is_complete complete_status unevaluated_message
            complete_object_counts build_incomplete sps rs)
        ≡ map (λ (sp : Phase). sp.name) sps
  unfolding map_spec_phases
  names-map_spec_phases built [] rs = refl
  names-map_spec_phases built (sp ∷ sps) rs =
      ap₂ (λ x y. x ∷ y)
        (name-map_spec_phase built sp _ (lookup-index_by_name_nil get_name rs sp.name))
        (names-map_spec_phases built sps rs)
