-- ===== src/Object/Identity/Agree.antt =====
-- The phases of a teardown against those of a reconcile.
use orb_operator.Base.{String, Option, List, [], ◌∷◌, map, ◌≡◌, refl, ap, ap₂, ◌∙◌, sym}
use orb_operator.Errors.{Result, ok}
use orb_operator.Errors.Steps.{Returns, Returns-ok, Returns-bind}
use orb_operator.Api.{CollisionProtection, PhaseObject, Phase, ClusterObjectSlice}
use orb_operator.Object.{ResolvedObject, ResolvedPhase, Resolved, ObjectLib}
use orb_operator.Object.Resolver.{resolve}
use orb_operator.Object.Resolver.Shape.{
  PhaseShape, spec_shape, resolved_shape, spec_protections, protections_of, resolve-shape,
}
use orb_operator.Object.Identity.{
  extract_identity, identify_objects, identify_phases, resolve_identities,
}

-- A phase's name and collision protection, and that of each of its objects.
abbrev pub Outline : Type 0
Outline = String × Option CollisionProtection × List (Option CollisionProtection)

abbrev pub spec_outline : Phase → Outline
spec_outline p = (p.name, p.collision_protection, spec_protections p.objects)

abbrev pub outline : {Obj : Type 0} → ResolvedPhase Obj → Outline
outline rp = (rp.name, rp.collision_protection, protections_of rp.objects)

-- The outline of a phase of a known shape.
outline_of_shape : PhaseShape → Outline
outline_of_shape s = (s.name, s.collision_protection, s.protections)

spec_outline-shapes :
    (ps : List Phase) → map outline_of_shape (map spec_shape ps) ≡ map spec_outline ps
unfolding outline_of_shape
spec_outline-shapes [] = refl
spec_outline-shapes (p ∷ ps) = ap (λ l. spec_outline p ∷ l) (spec_outline-shapes ps)

outline-shapes :
    {Obj : Type 0} (rps : List (ResolvedPhase Obj))
    → map outline_of_shape (map resolved_shape rps) ≡ map outline rps
unfolding outline_of_shape
outline-shapes [] = refl
outline-shapes (rp ∷ rps) = ap (λ l. outline rp ∷ l) (outline-shapes rps)

module _ {Obj GzipReader : Type 0} (lib : ObjectLib Obj GzipReader) where
  identify_objects-protections :
      (name : String) (pos : List PhaseObject)
      → Returns
          (λ (ros : List (ResolvedObject Obj)). protections_of ros ≡ spec_protections pos)
          (identify_objects lib name pos)
  unfolding identify_objects
  identify_objects-protections name [] = Returns-ok [] refl
  identify_objects-protections name (po ∷ pos) =
      Returns-bind (extract_identity lib name po) _ λ id _.
        Returns-bind (identify_objects lib name pos) _ λ ros e.
          Returns-ok _ (
            ap (λ l. po.collision_protection ∷ l)
              ((identify_objects-protections name pos).at ros e))

  identify_phases-outline :
      (ps : List Phase)
      → Returns
          (λ (rps : List (ResolvedPhase Obj)). map outline rps ≡ map spec_outline ps)
          (identify_phases lib ps)
  unfolding identify_phases
  identify_phases-outline [] = Returns-ok [] refl
  identify_phases-outline (p ∷ ps) = Returns-bind (identify_objects lib p.name p.objects) _ λ ros e.
      Returns-bind (identify_phases lib ps) _ λ rps f. Returns-ok _ (
        ap₂ (λ o l. (p.name, p.collision_protection, o) ∷ l)
          ((identify_objects-protections p.name p.objects).at ros e)
          ((identify_phases-outline ps).at rps f))

  resolve_identities-outline :
      (ps : List Phase) (r : Resolved Obj)
      → resolve_identities lib ps ≡ ok r
      → map outline r.phases ≡ map spec_outline ps
  unfolding resolve_identities
  resolve_identities-outline ps r e =
      (Returns-bind {P = λ (r : Resolved Obj). map outline r.phases ≡ map spec_outline ps}
          (identify_phases lib ps) _
          λ rps f. Returns-ok _ ((identify_phases-outline ps).at rps f)).at
        r e

  -- Where both ways to resolve a spec succeed, they give the same phases in the same order, with the
  -- same collision protection of each phase and of each of its objects.
  pub resolve_identities-eq-resolve :
      (get_slice : String → Result ClusterObjectSlice) (ps : List Phase) (r s : Resolved Obj)
      → resolve lib get_slice ps ≡ ok r
      → resolve_identities lib ps ≡ ok s
      → map outline s.phases ≡ map outline r.phases
  resolve_identities-eq-resolve get_slice ps r s e f =
      resolve_identities-outline ps s f
      ∙ sym (spec_outline-shapes ps)
      ∙ ap (map outline_of_shape) (sym (resolve-shape lib get_slice ps r e))
      ∙ outline-shapes r.phases
