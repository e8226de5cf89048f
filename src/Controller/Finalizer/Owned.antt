-- ===== src/Controller/Finalizer/Owned.antt =====
-- Which finalizers the fields of one entry own.
use orb_operator.Base.{
  some-injective, String, Bool, false, Option, none, some, ◌≡◌, refl, sym, ap, ◌∙◌, inl, inr,
  Bool-cases, is_some, ◌==◌, String_eq, if◌then◌else◌, eq_iff, eq_refl, arith,
}
use orb_operator.Controller.Finalizer.{
  Value, Fields, empty_map, entry, as_map, get_field, delete_field, put_or_delete, f_metadata,
  f_finalizers, clear_in_finalizers, clear_in_metadata, clear_fields,
}

abbrev get_map : Fields → String → Option Fields
get_map m k = as_map (get_field m k)

abbrev has_key : String → Option Fields → Bool
has_key k none = false
has_key k (some m) = is_some (get_field m k)

abbrev owns_in_metadata : String → Option Fields → Bool
owns_in_metadata k none = false
owns_in_metadata k (some m) = has_key k (get_map m f_finalizers)

-- Whether `f:metadata` has `f:finalizers` with the key.
unfoldable pub owns_key : String → Fields → Bool
owns_key k fields = owns_in_metadata k (get_map fields f_metadata)

get_field-delete_field :
    (j : String) (m : Fields) (k : String)
    → get_field (delete_field j m) k ≡ (if j == k then none else get_field m k)
get_field-delete_field j empty_map k = ground arith
get_field-delete_field j (entry i v m) k =
    let ih = get_field-delete_field j m k in
    elim (Bool-cases (i == j)) [
      | inl e ↦ rw e (ih ∙ same ((eq_iff i j).0 e) (get_field m k))
      | inr e ↦ rw e (elim (Bool-cases (i == k)) [
        | inl q ↦ rw q (rw (other e ((eq_iff i k).0 q)) refl)
        | inr q ↦ rw q ih
      ])
    ]
  where
    same :
        i ≡ j
        → (o : Option Value)
        → (if j == k then none else o) ≡ (if j == k then none else if i == k then some v else o)
    same q o = rw q (elim (Bool-cases (j == k)) [ inl r ↦ rw r refl | inr r ↦ rw r refl ])

    other : i == j ≡ false → i ≡ k → j == k ≡ false
    other e q = elim (Bool-cases (j == k)) [
      | inl r ↦ absurd (cc (e, (eq_iff i j).1 (q ∙ sym ((eq_iff j k).0 r))))
      | inr r ↦ r
    ]

get_field-delete_field_self : (j : String) (m : Fields) → get_field (delete_field j m) j ≡ none
get_field-delete_field_self j m = get_field-delete_field j m j ∙ rw (eq_refl j) refl

-- What is put at a key is found there, an empty map being left out.
owns_in_metadata-put_or_delete :
    (k : String) (inner m : Fields)
    → owns_in_metadata k (get_map (put_or_delete f_metadata inner m) f_metadata)
      ≡ owns_in_metadata k (some inner)
owns_in_metadata-put_or_delete k empty_map m = rw (get_field-delete_field_self f_metadata m) refl
owns_in_metadata-put_or_delete k (entry j v rest) m = refl

has_key-put_or_delete :
    (k : String) (inner m : Fields)
    → has_key k (get_map (put_or_delete f_finalizers inner m) f_finalizers) ≡ has_key k (some inner)
has_key-put_or_delete k empty_map m = rw (get_field-delete_field_self f_finalizers m) refl
has_key-put_or_delete k (entry j v rest) m = refl

owns_key-put :
    (k key : String) (fs m fields : Fields)
    → owns_key k
        (put_or_delete f_metadata (put_or_delete f_finalizers (delete_field key fs) m) fields)
      ≡ (if key == k then false else has_key k (some fs))
unfolding owns_key
owns_key-put k key fs m fields =
    owns_in_metadata-put_or_delete k (put_or_delete f_finalizers (delete_field key fs) m) fields
    ∙ has_key-put_or_delete k (delete_field key fs) m
    ∙ rw (get_field-delete_field key fs k)
        (elim (Bool-cases (key == k)) [ inl r ↦ rw r refl | inr r ↦ rw r refl ])

clear_in_finalizers-owned :
    (key k : String) (fields f_meta : Fields) (fs : Option Fields) (cleared : Fields)
    → clear_in_finalizers key fields f_meta fs ≡ some cleared
    → owns_key k cleared ≡ (if key == k then false else has_key k fs)
unfolding clear_in_finalizers
clear_in_finalizers-owned key k fields f_meta none cleared q = absurd (cc q)
clear_in_finalizers-owned key k fields f_meta (some fs) cleared q =
    ap (owns_key k) (sym (some-injective _ _ q)) ∙ owns_key-put k key fs f_meta fields

clear_in_metadata-owned :
    (key k : String) (fields : Fields) (f_meta : Option Fields) (cleared : Fields)
    → clear_in_metadata key fields f_meta ≡ some cleared
    → owns_key k cleared ≡ (if key == k then false else owns_in_metadata k f_meta)
unfolding clear_in_metadata
clear_in_metadata-owned key k fields none cleared q = absurd (cc q)
clear_in_metadata-owned key k fields (some m) cleared q =
    clear_in_finalizers-owned key k fields m (get_map m f_finalizers) cleared q

pub clear_fields-owned :
    (key k : String) (fields cleared : Fields)
    → clear_fields key fields ≡ some cleared
    → owns_key k cleared ≡ (if key == k then false else owns_key k fields)
unfolding clear_fields owns_key
clear_fields-owned key k fields cleared q =
    clear_in_metadata-owned key k fields (get_map fields f_metadata) cleared q

clear_in_finalizers-none :
    (key k : String) (fields f_meta : Fields) (fs : Option Fields)
    → clear_in_finalizers key fields f_meta fs ≡ none
    → has_key k fs ≡ false
unfolding clear_in_finalizers
clear_in_finalizers-none key k fields f_meta none q = refl
clear_in_finalizers-none key k fields f_meta (some fs) q = absurd (cc q)

clear_in_metadata-none :
    (key k : String) (fields : Fields) (f_meta : Option Fields)
    → clear_in_metadata key fields f_meta ≡ none
    → owns_in_metadata k f_meta ≡ false
unfolding clear_in_metadata
clear_in_metadata-none key k fields none q = refl
clear_in_metadata-none key k fields (some m) q =
    clear_in_finalizers-none key k fields m (get_map m f_finalizers) q

pub clear_fields-none :
    (key k : String) (fields : Fields) → clear_fields key fields ≡ none → owns_key k fields ≡ false
unfolding clear_fields owns_key
clear_fields-none key k fields q = clear_in_metadata-none key k fields (get_map fields f_metadata) q
