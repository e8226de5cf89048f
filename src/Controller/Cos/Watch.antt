-- ===== src/Controller/Cos/Watch.antt =====
-- Which revisions are reconciled when a slice changes.
pub mod Local
use orb_operator.Base.{
  String, Bool, true, false, ◌||◌, Option, none, some, List, [], ◌∷◌, ◌==◌, String_eq,
  if◌then◌else◌, filter, map,
}
use orb_operator.Errors.{Result, ok, err}
use orb_operator.Api.{ObjectRef, PhaseObject, Phase, ClusterObjectSet}

unfoldable refers_to : Option ObjectRef → String → Bool
refers_to none slice_name = false
refers_to (some ref) slice_name = ref.slice_name == slice_name

unfoldable object_references_slice : List PhaseObject → String → Bool
unfolding refers_to
object_references_slice [] slice_name = false
object_references_slice (o ∷ os) slice_name =
    let rest = object_references_slice os slice_name in
    if refers_to o.object_ref slice_name then true else rest

unfoldable phase_references_slice : List Phase → String → Bool
unfolding object_references_slice
phase_references_slice [] slice_name = false
phase_references_slice (p ∷ ps) slice_name =
    let rest = phase_references_slice ps slice_name in
    if object_references_slice p.objects slice_name then true else rest

unfoldable pub cos_references_slice : ClusterObjectSet → String → Bool
unfolding phase_references_slice
cos_references_slice cos slice_name = phase_references_slice cos.spec.phases slice_name

-- The names that the requests carry, from the list of all revisions.
unfoldable pub coses_for_slice : Result (List ClusterObjectSet) → String → List String
unfolding cos_references_slice
coses_for_slice (err e) slice_name = []
coses_for_slice (ok items) slice_name =
    map (λ (cos : ClusterObjectSet). cos.metadata.name)
      (filter (λ cos. cos_references_slice cos slice_name) items)
