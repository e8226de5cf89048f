-- ===== src/Revision/Builder/Probed.antt =====
-- The probes of objects with assertions.
use orb_operator.Base.Members.{Memᴰ-append}
use orb_operator.Base.{
  String, some, List, [], ◌∷◌, ◌≡◌, refl, Memᴰ, inl, inr, sym, subst, ap, ◌∙◌, ◌<>◌,
}
use orb_operator.Errors.{Result, message}
use orb_operator.Api.{Assertion}
use orb_operator.Boxcutter.{ObjectOption, with_probe, PhaseOption, with_object_options}
use orb_operator.Assertions.{Prober, probe_for_assertions, always_false}
use orb_operator.Assertions.Guards.{probe_for_assertions-cons}
use orb_operator.Object.{ResolvedObject, ResolvedPhase}
use orb_operator.Revision.Builder.{
  probe_of, probe_options, object_options, object_entry, object_entries, build_phase,
}

-- The options of a phase have a probe for the object.
pub record IsProbed {Obj Cel : Type 0} (obj : Obj) (options : List (PhaseOption Obj (Prober Cel)))
    : Type 0 where
  pub prober : Prober Cel
  pub object_options : List (ObjectOption (Prober Cel))
  pub entry : Memᴰ (with_object_options obj object_options) options
  pub probe : Memᴰ (with_probe prober) object_options

probe_of-cons :
    {Cel : Type 0} (new_cel_probe : String → String → Result Cel) (a : Assertion)
    (as' : List Assertion)
    → (p : Prober Cel) × (probe_of (probe_for_assertions new_cel_probe (a ∷ as')) ≡ some p)
unfolding probe_of
probe_of-cons new_cel_probe a as' = elim (probe_for_assertions-cons new_cel_probe a as') [
  | inl (p, e) ↦ (p, rw e refl)
  | inr (f, e) ↦ (always_false ("invalid assertion: " <> message f), rw e refl)
]

module _ {Obj Cel : Type 0} (new_cel_probe : String → String → Result Cel) where
  object_entries-IsProbed :
      (ros : List (ResolvedObject Obj)) (ro : ResolvedObject Obj) (a : Assertion)
      (as' : List Assertion)
      → Memᴰ ro ros
      → ro.assertions ≡ a ∷ as'
      → IsProbed ro.obj (object_entries new_cel_probe ros)
  unfolding object_entries object_options probe_options object_entry
  object_entries-IsProbed [] ro a as' m h = elim m [ ]
  object_entries-IsProbed (r ∷ ros) ro a as' (Memᴰ.head q) h =
      let (p, e) = probe_of-cons new_cel_probe a as' in
      subst (λ x. IsProbed x.obj (object_entries new_cel_probe (r ∷ ros))) (sym q)
        (rw (ap (λ x. x.assertions) (sym q) ∙ h, e)
          (record {
            prober = p;
            object_options = _;
            entry = Memᴰ.head refl;
            probe = Memᴰ.head refl;
          }))
  object_entries-IsProbed (r ∷ ros) ro a as' (Memᴰ.tail m) h =
      let later = object_entries-IsProbed ros ro a as' m h in
      record {
        prober = later.prober;
        object_options = later.object_options;
        entry = Memᴰ-append _ _ (object_entries new_cel_probe ros) later.entry;
        probe = later.probe;
      }

  -- Each object of a resolved phase that has assertions gets, in the phase that is built, an entry
  -- with a probe, whether or not the assertions are valid.
  pub build_phase-IsProbed :
      (rp : ResolvedPhase Obj) (ro : ResolvedObject Obj) (a : Assertion) (as' : List Assertion)
      → Memᴰ ro rp.objects
      → ro.assertions ≡ a ∷ as'
      → IsProbed ro.obj (build_phase new_cel_probe rp).reconcile_options
  unfolding build_phase
  build_phase-IsProbed rp ro a as' m h =
      let found = object_entries-IsProbed rp.objects ro a as' m h in
      record {
        prober = found.prober;
        object_options = found.object_options;
        entry = Memᴰ-append _ _ (object_entries new_cel_probe rp.objects) found.entry;
        probe = found.probe;
      }
