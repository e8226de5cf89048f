-- ===== src/Object/Identity.antt =====
-- internal/object/identity.go: objects by their identity alone, as a teardown needs them.
pub mod Agree
use orb_operator.Base.{ℕ, String, ◌<>◌, Option, none, some, List, [], ◌∷◌}
use orb_operator.Errors.{Error, text, wrap_step, Result, ok, err, ◌>>=◌}
use orb_operator.Api.{ObjectRef, PhaseObject, Phase}
use orb_operator.Object.{ResolvedObject, ResolvedPhase, Resolved, ObjectLib, ObjectIdentity}

module _ {Obj GzipReader : Type 0} (lib : ObjectLib Obj GzipReader) where
  raw_identity : String → List ℕ → Result ObjectIdentity
  raw_identity phase_name [] = err (
      text
        ("phase " <> lib.quote phase_name <> ": object has neither inline content nor objectRef"))
  raw_identity phase_name (b ∷ bs) =
      wrap_step ("phase " <> lib.quote phase_name <> ": extracting identity: ")
        (lib.unmarshal_identity (b ∷ bs))

  identity_of : String → List ℕ → Option ObjectRef → Result ObjectIdentity
  unfolding raw_identity
  identity_of phase_name raw (some ref) = ok (record {
    api_version = ref.object_key.api_version;
    kind = ref.object_key.kind;
    name = ref.object_key.name;
    namespace = ref.object_key.namespace;
  })
  identity_of phase_name raw none = raw_identity phase_name raw

  unfoldable pub extract_identity : String → PhaseObject → Result ObjectIdentity
  unfolding identity_of
  extract_identity phase_name po = identity_of phase_name po.object po.object_ref

  -- A new object on which the four setters were called.
  unfoldable pub object_of : ObjectIdentity → Obj
  object_of id = lib.set_namespace id.namespace (
      lib.set_name id.name
        (lib.set_kind id.kind (lib.set_api_version id.api_version lib.empty_object)))

  unfoldable pub identify_objects : String → List PhaseObject → Result (List (ResolvedObject Obj))
  unfolding extract_identity object_of
  identify_objects phase_name [] = ok []
  identify_objects phase_name (po ∷ pos) = do
    id ← extract_identity phase_name po
    ros ← identify_objects phase_name pos
    ok (
        record {
          obj = object_of id;
          assertions = [];
          collision_protection = po.collision_protection;
        }
        ∷ ros)

  unfoldable pub identify_phases : List Phase → Result (List (ResolvedPhase Obj))
  unfolding identify_objects
  identify_phases [] = ok []
  identify_phases (p ∷ ps) = do
    ros ← identify_objects p.name p.objects
    rps ← identify_phases ps
    ok (
        record { name = p.name; collision_protection = p.collision_protection; objects = ros }
        ∷ rps)

  unfoldable pub resolve_identities : List Phase → Result (Resolved Obj)
  unfolding identify_phases
  resolve_identities phases = do
    result ← identify_phases phases
    ok (record { phases = result; hash = "" })
