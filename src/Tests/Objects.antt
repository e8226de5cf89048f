-- ===== src/Tests/Objects.antt =====
-- Runs of the resolution of objects and of the watch on slices.
use orb_operator.Base.{
  ℕ, String, Option, none, some, List, [], ◌∷◌, map, ◌≡◌, ◌≢◌, refl, Memᴰ, String_eq, ◌==◌,
  if◌then◌else◌, if-elim, eq_iff, subst,
}
use orb_operator.Errors.{Result, ok, err, text}
use orb_operator.Api.{
  ObjectKey, CollisionProtection, PhaseObject, Phase, ClusterObjectSlice, ClusterObjectSet, active,
  prevent,
}
use orb_operator.Object.{ResolvedObject, Resolved, ObjectLib, ObjectIdentity}
use orb_operator.Object.Lookup.{lookup_in_slice, transform_cluster_object_slice}
use orb_operator.Object.Lookup.Same.{lookup_in_slice-transform}
use orb_operator.Object.Resolver.{resolve, GroupVersionKind_eq}
use orb_operator.Object.Identity.{resolve_identities}
use orb_operator.Object.Identity.Agree.{outline, resolve_identities-eq-resolve}
use orb_operator.Controller.Cos.Watch.{coses_for_slice}
use orb_operator.Controller.Cos.Watch.Local.{coses_for_slice_lem}
use orb_operator.Tests.Fixtures.{cos}

abbrev pub config_map : ObjectIdentity
config_map = record { api_version = "v1"; kind = "ConfigMap"; name = "config"; namespace = "app" }

-- An object is what identifies it; every text is one config map.
abbrev pub lib : ObjectLib ObjectIdentity (List ℕ)
lib = record {
  unmarshal_json = λ raw. ok config_map;
  empty_object = record { api_version = ""; kind = ""; name = ""; namespace = "" };
  set_api_version = λ v o. record o { api_version = v };
  set_kind = λ v o. record o { kind = v };
  set_name = λ v o. record o { name = v };
  set_namespace = λ v o. record o { namespace = v };
  group_version_kind = λ o. record { group = ""; version = o.api_version; kind = o.kind };
  unmarshal_identity = λ raw. ok config_map;
  new_gzip_reader = λ raw. ok raw;
  read_all = λ reader. ok reader;
  sha256 = λ raw. raw;
  hex = λ b. "0a";
  quote = λ s. s;
}

abbrev key : ObjectKey
key = record { api_version = "v1"; kind = "ConfigMap"; name = "config"; namespace = "app" }

abbrev slice : ClusterObjectSlice
slice = record {
  name = "slice-1";
  count = 1;
  objects = record { object_key = key; content = 7 ∷ [] } ∷ [];
  object_map = none;
}

lookup_in_slice-transform_example :
    lookup_in_slice (transform_cluster_object_slice slice) key ≡ lookup_in_slice slice key
lookup_in_slice-transform_example = lookup_in_slice-transform slice key refl (tt, tt)

abbrev inline_object : PhaseObject
inline_object = record {
  object = 7 ∷ 8 ∷ [];
  object_ref = none;
  collision_protection = some prevent;
  assertions = [];
}

abbrev referred_object : PhaseObject
referred_object = record {
  object = [];
  object_ref = some (record { slice_name = "slice-1"; object_key = key });
  collision_protection = none;
  assertions = [];
}

abbrev phases : List Phase
phases =
    record {
      name = "a";
      collision_protection = some prevent;
      objects = inline_object ∷ referred_object ∷ [];
    }
    ∷ []

abbrev get_slice : String → Result ClusterObjectSlice
get_slice name = ok slice

abbrev resolved_object : Option CollisionProtection → ResolvedObject ObjectIdentity
resolved_object protection = record {
  obj = config_map;
  assertions = [];
  collision_protection = protection;
}

abbrev resolved : String → Resolved ObjectIdentity
resolved hash = record {
  phases =
      record {
        name = "a";
        collision_protection = some prevent;
        objects = resolved_object (some prevent) ∷ resolved_object none ∷ [];
      }
      ∷ [];
  hash = hash;
}

phases-resolved : resolve lib get_slice phases ≡ ok (resolved "0a0a0a")
unfolding resolve
phases-resolved = refl

phases-identified : resolve_identities lib phases ≡ ok (resolved "")
unfolding resolve_identities
phases-identified = refl

resolve_identities-eq-resolve_example :
    map outline (resolved "").phases ≡ map outline (resolved "0a0a0a").phases
resolve_identities-eq-resolve_example =
    resolve_identities-eq-resolve lib get_slice phases (resolved "0a0a0a") (resolved "")
      phases-resolved phases-identified

abbrev referring : ClusterObjectSet
referring = let c = cos "app-1" 1 active [] in record c { spec = record c.spec { phases = phases } }

-- The cache after another slice is gone.
abbrev without_slice : String → Result ClusterObjectSlice
without_slice name = if name == "slice-2" then err (text "not found") else ok slice

referring-is_not_requested : coses_for_slice (ok (referring ∷ [])) "slice-2" ≡ []
unfolding coses_for_slice
referring-is_not_requested = refl

same_elsewhere : (s : String) → s ≢ "slice-2" → get_slice s ≡ without_slice s
same_elsewhere s n =
    if-elim (λ (r : Result ClusterObjectSlice). get_slice s ≡ r) (s == "slice-2")
      (err (text "not found")) (ok slice) (λ q. absurd (n ((eq_iff s "slice-2").0 q))) (λ _. refl)

not_in_nil : {a : String} → Memᴰ a [] → ⊥
not_in_nil m = elim m [ ]

coses_for_slice_lem_example : resolve lib get_slice phases ≡ resolve lib without_slice phases
coses_for_slice_lem_example =
    coses_for_slice_lem lib get_slice without_slice (referring ∷ []) "slice-2" referring
      same_elsewhere (Memᴰ.head refl)
      (λ m. not_in_nil (subst (Memᴰ "app-1") referring-is_not_requested m))
