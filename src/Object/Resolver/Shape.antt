-- ===== src/Object/Resolver/Shape.antt =====
-- The shape of resolved phases against that of the spec.
use orb_operator.Base.{ℕ, String, Option, List, [], ◌∷◌, map, ◌≡◌, refl, ap, ap₂}
use orb_operator.Errors.{Result, ok, wrap_step}
use orb_operator.Errors.Steps.{Returns, Returns-ok, Returns-bind}
use orb_operator.Api.{CollisionProtection, Assertion, PhaseObject, Phase, ClusterObjectSlice}
use orb_operator.Object.{ResolvedObject, ResolvedPhase, Resolved, ObjectLib}
use orb_operator.Object.Resolver.{
  phase_prefix, resolve_raw, unmarshal_unstructured, resolve_objects, resolve_phases, resolve,
}

abbrev pub assertions_of : {Obj : Type 0} → List (ResolvedObject Obj) → List (List Assertion)
assertions_of = map (λ (ro : ResolvedObject _). ro.assertions)

abbrev pub protections_of :
    {Obj : Type 0} → List (ResolvedObject Obj) → List (Option CollisionProtection)
protections_of = map (λ (ro : ResolvedObject _). ro.collision_protection)

abbrev pub spec_assertions : List PhaseObject → List (List Assertion)
spec_assertions = map (λ (po : PhaseObject). po.assertions)

abbrev pub spec_protections : List PhaseObject → List (Option CollisionProtection)
spec_protections = map (λ (po : PhaseObject). po.collision_protection)

-- What the builder reads of a phase besides its objects.
pub record PhaseShape : Type 0 where
  pub name : String
  pub collision_protection : Option CollisionProtection
  pub assertions : List (List Assertion)
  pub protections : List (Option CollisionProtection)

abbrev pub spec_shape : Phase → PhaseShape
spec_shape p = record {
  name = p.name;
  collision_protection = p.collision_protection;
  assertions = spec_assertions p.objects;
  protections = spec_protections p.objects;
}

abbrev pub resolved_shape : {Obj : Type 0} → ResolvedPhase Obj → PhaseShape
resolved_shape rp = record {
  name = rp.name;
  collision_protection = rp.collision_protection;
  assertions = assertions_of rp.objects;
  protections = protections_of rp.objects;
}

module _ {Obj GzipReader : Type 0} (lib : ObjectLib Obj GzipReader)
    (get_slice : String → Result ClusterObjectSlice) where
  resolve_objects-shape :
      (name : String) (pos : List PhaseObject)
      → Returns
          (λ ((ros, written) : List (ResolvedObject Obj) × List ℕ).
            (assertions_of ros ≡ spec_assertions pos) × (protections_of ros ≡ spec_protections pos))
          (resolve_objects lib get_slice name pos)
  unfolding resolve_objects
  resolve_objects-shape name [] = Returns-ok ([], []) (refl, refl)
  resolve_objects-shape name (po ∷ pos) =
      Returns-bind (resolve_raw lib get_slice name po) _ λ raw _.
        Returns-bind (wrap_step (phase_prefix lib name) (unmarshal_unstructured lib raw)) _ λ obj _.
          Returns-bind (resolve_objects lib get_slice name pos) _ λ rest e.
            let (a, p) = (resolve_objects-shape name pos).at rest e in
            Returns-ok _ (ap (λ l. po.assertions ∷ l) a, ap (λ l. po.collision_protection ∷ l) p)

  resolve_phases-shape :
      (ps : List Phase)
      → Returns
          (λ ((rps, written) : List (ResolvedPhase Obj) × List ℕ).
            map resolved_shape rps ≡ map spec_shape ps)
          (resolve_phases lib get_slice ps)
  unfolding resolve_phases
  resolve_phases-shape [] = Returns-ok ([], []) refl
  resolve_phases-shape (p ∷ ps) =
      Returns-bind (resolve_objects lib get_slice p.name p.objects) _ λ (ros, written) e.
        Returns-bind (resolve_phases lib get_slice ps) _ λ (rps, more) f.
          let (a, q) = (resolve_objects-shape p.name p.objects).at (ros, written) e in
          Returns-ok _ (
            ap₂ (λ x xs. x ∷ xs)
              (ap₂
                (λ assertions protections. record {
                  name = p.name;
                  collision_protection = p.collision_protection;
                  assertions = assertions;
                  protections = protections;
                })
                a q)
              ((resolve_phases-shape ps).at (rps, more) f))

  -- What is resolved has the shape of the spec: the same phases in the same order, with the spec's
  -- collision protection, and for each object of the spec one object with its assertions and its
  -- collision protection.
  pub resolve-shape :
      (ps : List Phase) (r : Resolved Obj)
      → resolve lib get_slice ps ≡ ok r
      → map resolved_shape r.phases ≡ map spec_shape ps
  unfolding resolve
  resolve-shape ps r e =
      (Returns-bind {P = λ (r : Resolved Obj). map resolved_shape r.phases ≡ map spec_shape ps}
          (resolve_phases lib get_slice ps) _
          λ (rps, written) f. Returns-ok _ ((resolve_phases-shape ps).at (rps, written) f)).at
        r e
