-- ===== src/Revision/Builder/Collision.antt =====
-- Which collision protection holds for an object. boxcutter applies the options of the revision,
-- then those of the phase and then those of the object, and the last one that is set counts.
use orb_operator.Base.{
  String, ◌≡◌, refl, sym, ap, ◌∙◌, Bool, true, false, Option, none, some, List, [], ◌∷◌, ◌++◌, All,
}
use orb_operator.Errors.{Result}
use orb_operator.Api.{CollisionProtection, prevent, ClusterObjectSet}
use orb_operator.Boxcutter.{
  BoxCollisionProtection, ObjectOption, with_probe, object_collision, PhaseOption, phase_collision,
  with_object_options, with_paused, RevisionOption, revision_collision, with_sibling_owners,
}
use orb_operator.Assertions.{Prober}
use orb_operator.Object.{ResolvedObject, ResolvedPhase, Resolved}
use orb_operator.Revision.Builder.{
  map_collision_protection, revision_collision_option, sibling_options, probe_options,
  object_collision_options, object_options, object_entry, object_entries, phase_collision_options,
  build_phase, build,
}

-- The second one overrides the first.
abbrev overridden : {A : Type 0} → Option A → Option A → Option A
overridden first none = first
overridden first (some a) = some a

of_object_option : {P : Type 0} → ObjectOption P → Option BoxCollisionProtection
of_object_option (with_probe _) = none
of_object_option (object_collision c) = some c

last_of_object : {P : Type 0} → List (ObjectOption P) → Option BoxCollisionProtection
unfolding of_object_option
last_of_object [] = none
last_of_object (o ∷ os) = overridden (of_object_option o) (last_of_object os)

of_phase_option : {Obj P : Type 0} → PhaseOption Obj P → Option BoxCollisionProtection
of_phase_option (phase_collision c) = some c
of_phase_option (with_object_options _ _) = none
of_phase_option with_paused = none

last_of_phase : {Obj P : Type 0} → List (PhaseOption Obj P) → Option BoxCollisionProtection
unfolding of_phase_option
last_of_phase [] = none
last_of_phase (o ∷ os) = overridden (of_phase_option o) (last_of_phase os)

of_revision_option : {Owner : Type 0} → RevisionOption Owner → Option BoxCollisionProtection
of_revision_option (revision_collision c) = some c
of_revision_option (with_sibling_owners _) = none

last_of_revision : {Owner : Type 0} → List (RevisionOption Owner) → Option BoxCollisionProtection
unfolding of_revision_option
last_of_revision [] = none
last_of_revision (o ∷ os) = overridden (of_revision_option o) (last_of_revision os)

module _ {Obj : Type 0} (same : Obj → Obj → Bool) where
  given_to : {P : Type 0} → Bool → List (ObjectOption P) → Option BoxCollisionProtection
  unfolding last_of_object
  given_to true os = last_of_object os
  given_to false os = none

  of_entry : {P : Type 0} → Obj → PhaseOption Obj P → Option BoxCollisionProtection
  unfolding given_to
  of_entry obj (phase_collision _) = none
  of_entry obj (with_object_options other os) = given_to (same other obj) os
  of_entry obj with_paused = none

  last_for : {P : Type 0} → Obj → List (PhaseOption Obj P) → Option BoxCollisionProtection
  unfolding of_entry
  last_for obj [] = none
  last_for obj (o ∷ os) = overridden (of_entry obj o) (last_for obj os)

  -- What holds for an object of a phase, `none` for boxcutter's own default.
  pub protection_for :
      {P Owner : Type 0}
      → List (RevisionOption Owner)
      → List (PhaseOption Obj P)
      → Obj
      → Option BoxCollisionProtection
  unfolding last_for last_of_phase last_of_revision
  protection_for revision phase obj =
      overridden (overridden (last_of_revision revision) (last_of_phase phase)) (last_for obj phase)

abbrev pub first_set : Option CollisionProtection → CollisionProtection → CollisionProtection
first_set none cp = cp
first_set (some c) cp = c

overridden-none : {A : Type 0} (o : Option A) → overridden none o ≡ o
overridden-none none = refl
overridden-none (some a) = refl

last_of_revision-build :
    (cp : Option CollisionProtection) (siblings : List ClusterObjectSet)
    → last_of_revision (revision_collision_option cp ∷ sibling_options siblings)
      ≡ some (map_collision_protection (first_set cp prevent))
unfolding last_of_revision revision_collision_option sibling_options
last_of_revision-build none [] = refl
last_of_revision-build none (s ∷ ss) = refl
last_of_revision-build (some c) [] = refl
last_of_revision-build (some c) (s ∷ ss) = refl

abbrev mapped : Option CollisionProtection → Option BoxCollisionProtection
mapped none = none
mapped (some c) = some (map_collision_protection c)

last_of_object-options :
    {Cel : Type 0} (probe : Option (Prober Cel)) (cp : Option CollisionProtection)
    → last_of_object (probe_options probe ++ object_collision_options cp) ≡ mapped cp
unfolding last_of_object probe_options object_collision_options
last_of_object-options none none = refl
last_of_object-options none (some c) = refl
last_of_object-options (some p) none = refl
last_of_object-options (some p) (some c) = refl

module _ {Obj Cel : Type 0} (new_cel_probe : String → String → Result Cel)
    (same : Obj → Obj → Bool) where
  abbrev Entries : Type 0
  Entries = List (PhaseOption Obj (Prober Cel))

  last_of_phase-entry :
      (obj : Obj) (os : List (ObjectOption (Prober Cel))) (rest : Entries)
      → last_of_phase (object_entry new_cel_probe obj os ++ rest) ≡ last_of_phase rest
  unfolding last_of_phase object_entry
  last_of_phase-entry obj [] rest = refl
  last_of_phase-entry obj (o ∷ os) rest = overridden-none (last_of_phase rest)

  last_of_phase-entries :
      (ros : List (ResolvedObject Obj)) → last_of_phase (object_entries new_cel_probe ros) ≡ none
  unfolding object_entries last_of_phase
  last_of_phase-entries [] = refl
  last_of_phase-entries (ro ∷ ros) =
      last_of_phase-entry ro.obj (object_options new_cel_probe ro)
        (object_entries new_cel_probe ros)
      ∙ last_of_phase-entries ros

  last_for-entry :
      (obj other : Obj) (b : Bool) (os : List (ObjectOption (Prober Cel))) (rest : Entries)
      → same other obj ≡ b
      → last_for same obj (object_entry new_cel_probe other os ++ rest)
        ≡ overridden (given_to same b os) (last_for same obj rest)
  unfolding last_for object_entry given_to last_of_object
  last_for-entry obj other true [] rest e = sym (overridden-none _)
  last_for-entry obj other false [] rest e = sym (overridden-none _)
  last_for-entry obj other b (o ∷ os) rest e = rw e refl

  -- No object of the list is the given one.
  abbrev pub HasNone : Obj → List (ResolvedObject Obj) → Type 0
  HasNone obj = All (λ (r : ResolvedObject Obj). same r.obj obj ≡ false)

  last_for-none :
      (obj : Obj) (ros : List (ResolvedObject Obj))
      → HasNone obj ros
      → last_for same obj (object_entries new_cel_probe ros) ≡ none
  unfolding object_entries last_for given_to
  last_for-none obj [] h = refl
  last_for-none obj (r ∷ ros) (first, rest) =
      last_for-entry obj r.obj false (object_options new_cel_probe r) _ first
      ∙ overridden-none _
      ∙ last_for-none obj ros rest

  last_for-object :
      (ro : ResolvedObject Obj) (before after : List (ResolvedObject Obj))
      → same ro.obj ro.obj ≡ true
      → HasNone ro.obj before
      → HasNone ro.obj after
      → last_for same ro.obj (object_entries new_cel_probe (before ++ (ro ∷ after)))
        ≡ mapped ro.collision_protection
  unfolding object_entries last_for given_to object_options
  last_for-object ro [] after s before_h h =
      last_for-entry ro.obj ro.obj true (object_options new_cel_probe ro) _ s
      ∙ ap (overridden _) (last_for-none ro.obj after h)
      ∙ last_of_object-options _ ro.collision_protection
  last_for-object ro (r ∷ before) after s (first, rest) h =
      last_for-entry ro.obj r.obj false (object_options new_cel_probe r) _ first
      ∙ overridden-none _
      ∙ last_for-object ro before after s rest h

  chosen :
      (a b : Option CollisionProtection) (c : CollisionProtection)
      → overridden (overridden (some (map_collision_protection c)) (mapped b)) (mapped a)
        ≡ some (map_collision_protection (first_set a (first_set b c)))
  chosen none none c = refl
  chosen none (some b) c = refl
  chosen (some a) none c = refl
  chosen (some a) (some b) c = refl

  phase_level :
      (cp : Option CollisionProtection) (rest : Entries)
      → last_of_phase rest ≡ none
      → last_of_phase (phase_collision_options new_cel_probe cp ++ rest) ≡ mapped cp
  unfolding phase_collision_options last_of_phase
  phase_level none rest e = e
  phase_level (some c) rest e = ap (overridden (some (map_collision_protection c))) e

  object_level :
      (cp : Option CollisionProtection) (obj : Obj) (rest : Entries)
      → last_for same obj (phase_collision_options new_cel_probe cp ++ rest)
        ≡ last_for same obj rest
  unfolding phase_collision_options last_for
  object_level none obj rest = refl
  object_level (some c) obj rest = overridden-none _

  -- For an object that occurs once in its phase, what boxcutter is given is the object's own
  -- collision protection, else its phase's, else the revision's, else Prevent.
  pub build-protection :
      (cos : ClusterObjectSet) (resolved : Resolved Obj) (siblings : List ClusterObjectSet)
      (rp : ResolvedPhase Obj) (ro : ResolvedObject Obj) (before after : List (ResolvedObject Obj))
      → rp.objects ≡ before ++ (ro ∷ after)
      → same ro.obj ro.obj ≡ true
      → HasNone ro.obj before
      → HasNone ro.obj after
      → protection_for same
          (build new_cel_probe cos resolved siblings).reconcile_options
          (build_phase new_cel_probe rp).reconcile_options
          ro.obj
        ≡ some (
            map_collision_protection (
              first_set ro.collision_protection (
                first_set rp.collision_protection
                  (first_set cos.spec.collision_protection prevent))))
  unfolding build build_phase protection_for
  build-protection cos resolved siblings rp ro before after e s hb ha =
      let entries = object_entries new_cel_probe rp.objects in
      let own =
        object_level rp.collision_protection ro.obj entries
        ∙ ap (λ l. last_for same ro.obj (object_entries new_cel_probe l)) e
        ∙ last_for-object ro before after s hb ha in
      let of_phase =
        phase_level rp.collision_protection entries (last_of_phase-entries rp.objects) in
      let of_revision = last_of_revision-build cos.spec.collision_protection siblings in
      rw (own, of_phase, of_revision)
        (chosen ro.collision_protection rp.collision_protection
          (first_set cos.spec.collision_protection prevent))
