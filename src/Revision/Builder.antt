-- ===== src/Revision/Builder.antt =====
-- internal/revision/builder.go: what boxcutter is given for a revision.
pub mod Probed
pub mod Collision
use orb_operator.Base.{ℕ, String, ◌<>◌, Option, none, some, List, [], ◌∷◌, ◌++◌, map}
use orb_operator.Errors.{Error, message, Result, ok, err}
use orb_operator.Api.{
  CollisionProtection, prevent, if_no_controller, unprotected, ClusterObjectSet, Assertion,
}
use orb_operator.Boxcutter.{
  BoxCollisionProtection, box_prevent, box_if_no_controller, box_none, ObjectOption, with_probe,
  object_collision, PhaseOption, phase_collision, with_object_options, RevisionOption,
  revision_collision, with_sibling_owners, BoxPhase, BoxRevision,
}
use orb_operator.Assertions.{Prober, always_false, probe_for_assertions}
use orb_operator.Object.{ResolvedObject, ResolvedPhase, Resolved}

unfoldable pub map_collision_protection : CollisionProtection → BoxCollisionProtection
map_collision_protection if_no_controller = box_if_no_controller
map_collision_protection unprotected = box_none
map_collision_protection prevent = box_prevent

revision_collision_option : Option CollisionProtection → RevisionOption ClusterObjectSet
unfolding map_collision_protection
revision_collision_option none = revision_collision (map_collision_protection prevent)
revision_collision_option (some cp) = revision_collision (map_collision_protection cp)

sibling_options : List ClusterObjectSet → List (RevisionOption ClusterObjectSet)
sibling_options [] = []
sibling_options (s ∷ ss) = with_sibling_owners (s ∷ ss) ∷ []

module _ {Cel : Type 0} where
  -- An invalid assertion becomes a probe that is always false.
  unfoldable probe_of : Result (Option (Prober Cel)) → Option (Prober Cel)
  probe_of (ok probe) = probe
  probe_of (err e) = some (always_false ("invalid assertion: " <> message e))

  unfoldable probe_options : Option (Prober Cel) → List (ObjectOption (Prober Cel))
  probe_options none = []
  probe_options (some probe) = with_probe probe ∷ []

  object_collision_options : Option CollisionProtection → List (ObjectOption (Prober Cel))
  unfolding map_collision_protection
  object_collision_options none = []
  object_collision_options (some cp) = object_collision (map_collision_protection cp) ∷ []

module _ {Obj Cel : Type 0} (new_cel_probe : String → String → Result Cel) where
  unfoldable pub object_options : ResolvedObject Obj → List (ObjectOption (Prober Cel))
  unfolding probe_of probe_options object_collision_options probe_for_assertions
  object_options ro =
      probe_options (probe_of (probe_for_assertions new_cel_probe ro.assertions))
      ++ object_collision_options ro.collision_protection

  -- `WithObjectReconcileOptions`, if there are options.
  unfoldable object_entry :
      Obj → List (ObjectOption (Prober Cel)) → List (PhaseOption Obj (Prober Cel))
  object_entry obj [] = []
  object_entry obj (o ∷ os) = with_object_options obj (o ∷ os) ∷ []

  unfoldable pub object_entries : List (ResolvedObject Obj) → List (PhaseOption Obj (Prober Cel))
  unfolding object_entry object_options
  object_entries [] = []
  object_entries (ro ∷ ros) = object_entry ro.obj (object_options ro) ++ object_entries ros

  phase_collision_options : Option CollisionProtection → List (PhaseOption Obj (Prober Cel))
  unfolding map_collision_protection
  phase_collision_options none = []
  phase_collision_options (some cp) = phase_collision (map_collision_protection cp) ∷ []

  unfoldable pub build_phase : ResolvedPhase Obj → BoxPhase Obj (Prober Cel)
  unfolding phase_collision_options object_entries
  build_phase rp = record {
    name = rp.name;
    objects = map (λ (ro : ResolvedObject Obj). ro.obj) rp.objects;
    reconcile_options =
        phase_collision_options rp.collision_protection ++ object_entries rp.objects;
  }

  unfoldable pub build :
      ClusterObjectSet
      → Resolved Obj
      → List ClusterObjectSet
      → BoxRevision Obj (Prober Cel) ClusterObjectSet
  unfolding build_phase revision_collision_option sibling_options
  build cos resolved siblings = record {
    name = cos.metadata.name;
    revision_number = cos.spec.revision;
    phases = map build_phase resolved.phases;
    owner = cos;
    reconcile_options =
        revision_collision_option cos.spec.collision_protection ∷ sibling_options siblings;
  }
