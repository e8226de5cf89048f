-- ===== src/Object/Resolver.antt =====
-- The rest of internal/object/resolver.go. The slices are read from the cache: `get_slice` is the
-- reader's `Get` at the time of the call.
pub mod Shape
pub mod Kinds
use orb_operator.Base.{
  ℕ, String, ◌<>◌, Bool, true, false, Option, none, some, List, [], ◌∷◌, ◌++◌, ◌==◌, String_eq,
  nat_eq, if◌then◌else◌, contains, Eq, eq_iff, arith, ◌↔◌, ◌≡◌, ◌&&◌, not,
}
use orb_operator.Errors.{Error, text, wrap_step, Result, ok, err, ◌>>=◌}
use orb_operator.Api.{ObjectKey, ObjectRef, PhaseObject, Phase, ClusterObjectSlice}
use orb_operator.Template.{hex_string}
use orb_operator.Object.{ResolvedObject, ResolvedPhase, Resolved, ObjectLib, GroupVersionKind}
use orb_operator.Object.Lookup.{lookup_in_slice}

abbrev pub kind_eq : GroupVersionKind → GroupVersionKind → Bool
kind_eq a b = a.group == b.group && a.version == b.version && a.kind == b.kind

pub kind_eq_iff : (a b : GroupVersionKind) → (kind_eq a b ≡ true) ↔ (a ≡ b)
kind_eq_iff a b =
    ground (arith, eq_iff a.group b.group, eq_iff a.version b.version, eq_iff a.kind b.kind)

instance abbrev pub GroupVersionKind_eq : Eq GroupVersionKind
GroupVersionKind_eq = record { equals = kind_eq; equals_iff = kind_eq_iff }

-- The gzip magic number.
abbrev pub is_gzip : List ℕ → Bool
is_gzip (a ∷ b ∷ rest) = nat_eq a 0x1f && nat_eq b 0x8b
is_gzip _ = false

module _ {Obj GzipReader : Type 0} (lib : ObjectLib Obj GzipReader) where
  unfoldable pub decompress_gzip : List ℕ → Result (List ℕ)
  decompress_gzip data' = do r ← lib.new_gzip_reader data'; lib.read_all r

  unfoldable pub unmarshal_unstructured : List ℕ → Result Obj
  unmarshal_unstructured raw = wrap_step "unmarshalling: " (lib.unmarshal_json raw)

  -- `phase %q: `
  unfoldable phase_prefix : String → String
  phase_prefix phase_name = "phase " <> lib.quote phase_name <> ": "

  ref_text : ObjectRef → String
  ref_text ref =
      ref.object_key.kind <> " " <> ref.object_key.namespace <> "/" <> ref.object_key.name

  content_of : String → ObjectRef → Option (List ℕ) → Result (List ℕ)
  unfolding decompress_gzip phase_prefix ref_text
  content_of phase_name ref none = err (
      text (
        phase_prefix phase_name
        <> "object "
        <> ref_text ref
        <> " not found in slice "
        <> lib.quote ref.slice_name))
  content_of phase_name ref (some content) =
      if is_gzip content
      then wrap_step
          (phase_prefix phase_name
            <> "decompress "
            <> ref_text ref
            <> " from slice "
            <> lib.quote ref.slice_name
            <> ": ")
          (decompress_gzip content)
      else ok content

  module _ (get_slice : String → Result ClusterObjectSlice) where
    unfoldable pub resolve_ref : String → List ℕ → Option ObjectRef → Result (List ℕ)
    unfolding content_of lookup_in_slice phase_prefix
    resolve_ref phase_name raw none = ok raw
    resolve_ref phase_name raw (some ref) = do
      slice ←
          wrap_step
            (phase_prefix phase_name <> "fetching slice " <> lib.quote ref.slice_name <> ": ")
            (get_slice ref.slice_name)
      content_of phase_name ref (lookup_in_slice slice ref.object_key)

    unfoldable pub resolve_raw : String → PhaseObject → Result (List ℕ)
    unfolding resolve_ref
    resolve_raw phase_name po = resolve_ref phase_name po.object po.object_ref

    -- The inner loop: the objects, and the bytes that are written to the hash.
    unfoldable pub resolve_objects :
        String → List PhaseObject → Result (List (ResolvedObject Obj) × List ℕ)
    unfolding resolve_raw unmarshal_unstructured phase_prefix
    resolve_objects phase_name [] = ok ([], [])
    resolve_objects phase_name (po ∷ pos) = do
      raw ← resolve_raw phase_name po
      obj ← wrap_step (phase_prefix phase_name) (unmarshal_unstructured raw)
      (ros, written) ← resolve_objects phase_name pos
      ok (
        record {
          obj = obj;
          assertions = po.assertions;
          collision_protection = po.collision_protection;
        }
            ∷ ros,
        raw ++ written,
      )

    unfoldable pub resolve_phases : List Phase → Result (List (ResolvedPhase Obj) × List ℕ)
    unfolding resolve_objects
    resolve_phases [] = ok ([], [])
    resolve_phases (p ∷ ps) = do
      (ros, written) ← resolve_objects p.name p.objects
      (rps, more) ← resolve_phases ps
      ok (
        record { name = p.name; collision_protection = p.collision_protection; objects = ros }
            ∷ rps,
        written ++ more,
      )

    unfoldable pub resolve : List Phase → Result (Resolved Obj)
    unfolding resolve_phases hex_string
    resolve spec_phases = do
      (phases, written) ← resolve_phases spec_phases
      ok (record { phases = phases; hash = hex_string lib.hex (lib.sha256 written) })

  -- The loops of `ManagedObjects`: the first object of each kind that was not seen before.
  unfoldable pub new_kinds :
      List (ResolvedObject Obj) → List GroupVersionKind → List Obj × List GroupVersionKind
  new_kinds [] seen = ([], seen)
  new_kinds (o ∷ os) seen =
      let gvk = lib.group_version_kind o.obj in
      let rest = new_kinds os seen in
      let (objs, seen') = new_kinds os (gvk ∷ seen) in
      if contains seen gvk then rest else (o.obj ∷ objs, seen')

  unfoldable pub new_kinds_of : List (ResolvedPhase Obj) → List GroupVersionKind → List Obj
  unfolding new_kinds
  new_kinds_of [] seen = []
  new_kinds_of (p ∷ ps) seen =
      let (objs, seen') = new_kinds p.objects seen in objs ++ new_kinds_of ps seen'

  unfoldable pub managed_objects : Resolved Obj → List Obj
  unfolding new_kinds_of
  managed_objects res = new_kinds_of res.phases []

unfoldable pub verify_hash : {Obj : Type 0} → Resolved Obj → String → Result (Unit {0})
verify_hash res existing =
    if existing == ""
    then ok tt
    else if not (existing == res.hash)
    then err
        (text ("resolved content hash mismatch: expected " <> existing <> ", got " <> res.hash))
    else ok tt
