-- ===== src/Object/Lookup.antt =====
-- `lookupInSlice` of resolver.go and internal/object/transform.go.
pub mod Same
use orb_operator.Base.{
  ℕ, Option, none, some, List, [], ◌∷◌, Map, lookup, insert, ◌==◌, if◌then◌else◌,
}
use orb_operator.Api.{ObjectKey, ObjectKey_eq, SliceObject, ClusterObjectSlice}

-- The loop over the list: the first entry with the key.
unfoldable pub lookup_in_objects : List SliceObject → ObjectKey → Option (List ℕ)
lookup_in_objects [] key = none
lookup_in_objects (so ∷ sos) key =
    if so.object_key == key then some so.content else lookup_in_objects sos key

unfoldable lookup_by :
    Option (Map ObjectKey (List ℕ)) → List SliceObject → ObjectKey → Option (List ℕ)
unfolding lookup_in_objects
lookup_by (some object_map) objects key = lookup object_map key
lookup_by none objects key = lookup_in_objects objects key

-- `none` where the key is not found.
unfoldable pub lookup_in_slice : ClusterObjectSlice → ObjectKey → Option (List ℕ)
unfolding lookup_by
lookup_in_slice slice key = lookup_by slice.object_map slice.objects key

-- The loop that fills the map; a later entry replaces an earlier one.
unfoldable pub fill_map : List SliceObject → Map ObjectKey (List ℕ) → Map ObjectKey (List ℕ)
fill_map [] m = m
fill_map (so ∷ sos) m = fill_map sos (insert so.object_key so.content m)

-- The informer's transform, on an object of the expected type.
unfoldable pub transform_cluster_object_slice : ClusterObjectSlice → ClusterObjectSlice
unfolding fill_map
transform_cluster_object_slice slice = record slice {
  object_map = some (fill_map slice.objects []);
  objects = [];
}
