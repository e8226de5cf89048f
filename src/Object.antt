-- ===== src/Object.antt =====
-- internal/object: how the objects of a revision are found. An object is of a type that is a
-- parameter, and the functions of the Kubernetes and Go libraries on it are fields of a record.
pub mod Lookup
pub mod Resolver
pub mod Identity
use orb_operator.Base.{String, Option, List, ℕ}
use orb_operator.Api.{CollisionProtection, Assertion}
use orb_operator.Errors.{Result}

pub record ResolvedObject {ℓ} (Obj : Type ℓ) : Type ℓ where
  pub obj : Obj
  pub assertions : List Assertion
  pub collision_protection : Option CollisionProtection

pub record ResolvedPhase {ℓ} (Obj : Type ℓ) : Type ℓ where
  pub name : String
  pub collision_protection : Option CollisionProtection
  pub objects : List (ResolvedObject Obj)

pub record Resolved {ℓ} (Obj : Type ℓ) : Type ℓ where
  pub phases : List (ResolvedPhase Obj)
  pub hash : String

-- `schema.GroupVersionKind`
pub record GroupVersionKind : Type 0 where
  pub group : String
  pub version : String
  pub kind : String

-- The struct `objectIdentity`.
pub record ObjectIdentity : Type 0 where
  pub api_version : String
  pub kind : String
  pub name : String
  pub namespace : String

-- `unstructured.Unstructured` and its methods, `json.Unmarshal` into an identity, gzip, SHA-256 with
-- the hexadecimal digits of a byte, and the quoting of `%q`.
pub record ObjectLib (Obj GzipReader : Type 0) : Type 0 where
  pub unmarshal_json : List ℕ → Result Obj
  pub empty_object : Obj
  pub set_api_version : String → Obj → Obj
  pub set_kind : String → Obj → Obj
  pub set_name : String → Obj → Obj
  pub set_namespace : String → Obj → Obj
  pub group_version_kind : Obj → GroupVersionKind
  pub unmarshal_identity : List ℕ → Result ObjectIdentity
  pub new_gzip_reader : List ℕ → Result GzipReader
  pub read_all : GzipReader → Result (List ℕ)
  pub sha256 : List ℕ → List ℕ
  pub hex : ℕ → String
  pub quote : String → String
