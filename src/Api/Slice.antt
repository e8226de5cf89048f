-- ===== src/Api/Slice.antt =====
-- api/v1alpha1/types_clusterobjectslice.go
use orb_operator.Base.{
  ℕ, String, ◌≡◌, ◌↔◌, Bool, true, ◌&&◌, Option, List, Map, Eq, ◌==◌, arith, String_eq, eq_iff,
}

pub record ObjectKey : Type 0 where
  pub api_version : String
  pub kind : String
  pub name : String
  pub namespace : String

-- Go's `==` of two such structs.
abbrev pub key_eq : ObjectKey → ObjectKey → Bool
key_eq a b =
    a.api_version == b.api_version
    && a.kind == b.kind
    && a.name == b.name
    && a.namespace == b.namespace

pub key_eq_iff : (a b : ObjectKey) → (key_eq a b ≡ true) ↔ (a ≡ b)
key_eq_iff a b = ground (
  arith,
  eq_iff a.api_version b.api_version,
  eq_iff a.kind b.kind,
  eq_iff a.name b.name,
  eq_iff a.namespace b.namespace,
)

instance abbrev pub ObjectKey_eq : Eq ObjectKey
ObjectKey_eq = record { equals = key_eq; equals_iff = key_eq_iff }

pub record SliceObject : Type 0 where
  pub object_key : ObjectKey
  pub content : List ℕ

-- `object_map` is the unserialised field that the cache's transform fills, `none` for a nil map.
pub record ClusterObjectSlice : Type 0 where
  pub name : String
  pub count : ℕ
  pub objects : List SliceObject
  pub object_map : Option (Map ObjectKey (List ℕ))
