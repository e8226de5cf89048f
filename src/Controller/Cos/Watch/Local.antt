-- ===== src/Controller/Cos/Watch/Local.antt =====
-- Which slices the resolution of a revision reads.
use orb_operator.Base.Members.{Memᴰ-map, Memᴰ-filter}
use orb_operator.Base.{
  ℕ, String, Bool, true, Option, none, some, List, [], ◌∷◌, ◌≡◌, refl, String_eq, eq_refl, if-elim,
  ◌≢◌, Memᴰ, subst,
}
use orb_operator.Errors.{Result, ok}
use orb_operator.Api.{ObjectRef, PhaseObject, Phase, ClusterObjectSlice, ClusterObjectSet}
use orb_operator.Object.{ObjectLib}
use orb_operator.Object.Resolver.{
  resolve_ref, resolve_raw, resolve_objects, resolve_phases, resolve,
}
use orb_operator.Controller.Cos.Watch.{
  coses_for_slice, refers_to, object_references_slice, phase_references_slice, cos_references_slice,
}

-- The two readers give the same for the slices of the test.
abbrev pub AgreeOn : (String → Bool) → (read read' : String → Result ClusterObjectSlice) → Type 0
AgreeOn is_read read read' = (s : String) → is_read s ≡ true → read s ≡ read' s

module _ {Obj GzipReader : Type 0} (lib : ObjectLib Obj GzipReader)
    (read read' : String → Result ClusterObjectSlice) where
  resolve_ref-local :
      (name : String) (raw : List ℕ) (ref : Option ObjectRef)
      → AgreeOn (refers_to ref) read read'
      → resolve_ref lib read name raw ref ≡ resolve_ref lib read' name raw ref
  unfolding resolve_ref refers_to
  resolve_ref-local name raw none agree = refl
  resolve_ref-local name raw (some ref) agree =
      rw (agree ref.slice_name (eq_refl ref.slice_name)) refl

  resolve_objects-local :
      (name : String) (pos : List PhaseObject)
      → AgreeOn (object_references_slice pos) read read'
      → resolve_objects lib read name pos ≡ resolve_objects lib read' name pos
  unfolding resolve_objects object_references_slice resolve_raw
  resolve_objects-local name [] agree = refl
  resolve_objects-local name (po ∷ pos) agree =
      rw
        (
          resolve_ref-local name po.object po.object_ref (λ s q. agree s (rw q refl)),
          resolve_objects-local name pos (λ s q. agree s (
              if-elim (λ (b : Bool). b ≡ true) (refers_to po.object_ref s) _ _ (λ _. refl)
                (λ _. q))),
        )
        refl

  resolve_phases-local :
      (ps : List Phase)
      → AgreeOn (phase_references_slice ps) read read'
      → resolve_phases lib read ps ≡ resolve_phases lib read' ps
  unfolding resolve_phases phase_references_slice
  resolve_phases-local [] agree = refl
  resolve_phases-local (p ∷ ps) agree =
      rw
        (
          resolve_objects-local p.name p.objects (λ s q. agree s (rw q refl)),
          resolve_phases-local ps (λ s q. agree s (
              if-elim (λ (b : Bool). b ≡ true) (object_references_slice p.objects s) _ _ (λ _. refl)
                (λ _. q))),
        )
        refl

  resolve-local :
      (cos : ClusterObjectSet)
      → AgreeOn (cos_references_slice cos) read read'
      → resolve lib read cos.spec.phases ≡ resolve lib read' cos.spec.phases
  unfolding resolve cos_references_slice
  resolve-local cos agree = rw (resolve_phases-local cos.spec.phases agree) refl

  -- If only one slice has changed, a listed revision that no request is made for is resolved to the
  -- same objects, or with the same error, as before.
  pub coses_for_slice_lem :
      (items : List ClusterObjectSet) (slice_name : String) (cos : ClusterObjectSet)
      → ((s : String) → s ≢ slice_name → read s ≡ read' s)
      → Memᴰ cos items
      → (Memᴰ cos.metadata.name (coses_for_slice (ok items) slice_name) → ⊥)
      → resolve lib read cos.spec.phases ≡ resolve lib read' cos.spec.phases
  unfolding coses_for_slice
  coses_for_slice_lem items slice_name cos others listed unrequested = resolve-local cos (λ s q.
      others s
        (λ same. unrequested (requested (subst (λ t. cos_references_slice cos t ≡ true) same q))))
    where
      requested :
          cos_references_slice cos slice_name ≡ true
          → Memᴰ cos.metadata.name (coses_for_slice (ok items) slice_name)
      requested q =
          Memᴰ-map (λ (c : ClusterObjectSet). c.metadata.name) cos _
            (Memᴰ-filter (λ c. cos_references_slice c slice_name) cos items listed q)
