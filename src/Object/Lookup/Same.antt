-- ===== src/Object/Lookup/Same.antt =====
-- The cached form of a slice against its list.
use orb_operator.Base.{
  ℕ, ◌≡◌, ◌≢◌, refl, sym, ◌∙◌, Option, none, some, List, [], ◌∷◌, Map, lookup, insert, All, arith,
  Bool-cases, inl, subst, inr,
}
use orb_operator.Api.{ObjectKey, ObjectKey_eq, key_eq_iff, SliceObject, ClusterObjectSlice, key_eq}
use orb_operator.Object.Lookup.{
  lookup_in_objects, lookup_in_slice, fill_map, transform_cluster_object_slice, lookup_by,
}

-- No two entries have one key.
abbrev pub HasUniqueKeys : List SliceObject → Type 0
HasUniqueKeys [] = Unit
HasUniqueKeys (so ∷ sos) =
    All (λ (t : SliceObject). so.object_key ≢ t.object_key) sos × HasUniqueKeys sos

abbrev pub or_else : Option (List ℕ) → Option (List ℕ) → Option (List ℕ)
or_else (some a) b = some a
or_else none b = b

lookup_in_objects-absent :
    (sos : List SliceObject) (k : ObjectKey)
    → All (λ (t : SliceObject). k ≢ t.object_key) sos
    → lookup_in_objects sos k ≡ none
unfolding lookup_in_objects
lookup_in_objects-absent [] k h = refl
lookup_in_objects-absent (so ∷ sos) k h =
    ground (arith, key_eq_iff so.object_key k, h.0, lookup_in_objects-absent sos k h.1)

lookup-fill_map :
    (sos : List SliceObject) (m : Map ObjectKey (List ℕ)) (k : ObjectKey)
    → HasUniqueKeys sos
    → lookup (fill_map sos m) k ≡ or_else (lookup_in_objects sos k) (lookup m k)
unfolding fill_map lookup_in_objects
lookup-fill_map [] m k u = refl
lookup-fill_map (so ∷ sos) m k u =
    lookup-fill_map sos (insert so.object_key so.content m) k u.1
    ∙ elim (Bool-cases (key_eq so.object_key k)) [
      | inl same ↦
          let absent = lookup_in_objects-absent sos k (
            subst (λ j. All (λ (t : SliceObject). j ≢ t.object_key) sos)
              ((key_eq_iff so.object_key k).0 same) u.0) in
          rw (same, absent) refl
      | inr other ↦ rw other refl
    ]

or_else-none : (o : Option (List ℕ)) → or_else o none ≡ o
or_else-none none = refl
or_else-none (some a) = refl

lookup_in_slice-untransformed :
    (slice : ClusterObjectSlice) (key : ObjectKey) (o : Option (Map ObjectKey (List ℕ)))
    → o ≡ none
    → lookup_by o slice.objects key ≡ lookup_in_objects slice.objects key
unfolding lookup_by
lookup_in_slice-untransformed slice key none e = refl
lookup_in_slice-untransformed slice key (some m) e = absurd (cc e)

-- For a slice that is not transformed yet, with different keys as the API server requires: the
-- transformed slice finds the same content under every key.
pub lookup_in_slice-transform :
    (slice : ClusterObjectSlice) (key : ObjectKey)
    → slice.object_map ≡ none
    → HasUniqueKeys slice.objects
    → lookup_in_slice (transform_cluster_object_slice slice) key ≡ lookup_in_slice slice key
unfolding lookup_in_slice transform_cluster_object_slice
lookup_in_slice-transform slice key fresh u =
    lookup-fill_map slice.objects [] key u
    ∙ or_else-none (lookup_in_objects slice.objects key)
    ∙ sym (lookup_in_slice-untransformed slice key slice.object_map fresh)
