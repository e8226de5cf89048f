-- ===== src/Controller/Finalizer/Cleared.antt =====
-- Which finalizers a field manager owns, by the managed fields of an object, and how that changes.
use orb_operator.Base.{
  ℕ, String, Bool, true, false, not, ◌&&◌, Option, none, some, List, [], ◌∷◌, ◌≡◌, refl, ◌∙◌, inl,
  inr, Bool-cases, ◌==◌, String_eq, if◌then◌else◌, if-elim, not-true, not-false, eq_iff, subst,
}
use orb_operator.Errors.{Result, ok, err}
use orb_operator.Api.{ManagedFieldsEntry}
use orb_operator.Controller.Finalizer.{
  Fields, FieldsJson, finalizer_field, clear_fields, rewritten, marshalled, clear_parsed, clear_raw,
  clear_entry, clear_finalizer_field_ownership,
}
use orb_operator.Controller.Finalizer.Owned.{owns_key, clear_fields-owned, clear_fields-none}

-- The map is written to a text that is read as a map in which the same is owned.
pub record IsRewritten (json : FieldsJson) (fields : Fields) : Type 0 where
  pub raw : List ℕ
  pub marshals : json.marshal fields ≡ ok raw
  pub back : Fields
  pub unmarshals : json.unmarshal raw ≡ ok back
  pub owns : (k : String) → owns_key k back ≡ owns_key k fields

-- Every map that was read from a text, and from which the key was taken, can be written.
abbrev pub KeepsOwned : FieldsJson → Type 0
KeepsOwned json =
    (raw : List ℕ) (fields cleared : Fields) (key : String)
    → json.unmarshal raw ≡ ok fields
    → clear_fields key fields ≡ some cleared
    → IsRewritten json cleared

module _ (json : FieldsJson) where
  unfoldable owned_by_parsed : String → Result Fields → Bool
  owned_by_parsed k (ok fields) = owns_key k fields
  owned_by_parsed k (err _) = false

  unfoldable owned_by_raw : String → Option (List ℕ) → Bool
  unfolding owned_by_parsed
  owned_by_raw k none = false
  owned_by_raw k (some raw) = owned_by_parsed k (json.unmarshal raw)

  -- Whether an entry of the manager has the finalizer.
  unfoldable pub is_owned : List ManagedFieldsEntry → String → String → Bool
  unfolding owned_by_raw
  is_owned [] manager finalizer = false
  is_owned (e ∷ es) manager finalizer =
      let rest = is_owned es manager finalizer in
      if e.manager == manager && owned_by_raw (finalizer_field finalizer) e.fields_v1
      then true
      else rest

  module _ (keeps : KeepsOwned json) where
    marshalled-owned :
        (key k : String) (e : ManagedFieldsEntry) (raw : List ℕ) (fields : Fields)
        (cleared : Option Fields)
        → json.unmarshal raw ≡ ok fields
        → clear_fields key fields ≡ cleared
        → owned_by_raw k e.fields_v1 ≡ owns_key k fields
        → owned_by_raw k (marshalled json e cleared).fields_v1
          ≡ (if key == k then false else owns_key k fields)
    unfolding marshalled owned_by_raw owned_by_parsed rewritten
    marshalled-owned key k e raw fields none parsed q same =
        same
        ∙ rw (clear_fields-none key k fields q)
            (elim (Bool-cases (key == k)) [ inl r ↦ rw r refl | inr r ↦ rw r refl ])
    marshalled-owned key k e raw fields (some cleared) parsed q same =
        let w = keeps raw fields cleared key parsed q in
        rw w.marshals (rw w.unmarshals (w.owns k ∙ clear_fields-owned key k fields cleared q))

    unless-false : (b : Bool) → false ≡ (if b then false else false)
    unless-false true = refl
    unless-false false = refl

    clear_raw-owned :
        (key k : String) (e : ManagedFieldsEntry) (raw : Option (List ℕ))
        → e.fields_v1 ≡ raw
        → owned_by_raw k (clear_raw json key e raw).fields_v1
          ≡ (if key == k then false else owned_by_raw k raw)
    unfolding clear_raw owned_by_raw
    clear_raw-owned key k e none q = rw q (unless-false (key == k))
    clear_raw-owned key k e (some raw) q = parsed (json.unmarshal raw) refl
      where
        parsed :
            (r : Result Fields)
            → json.unmarshal raw ≡ r
            → owned_by_raw k (clear_parsed json key e r).fields_v1
              ≡ (if key == k then false else owned_by_parsed k r)
        parsed (err x) s = rw q (rw s (unless-false (key == k)))
        parsed (ok fields) s = marshalled-owned key k e raw fields _ s refl (rw q (rw s refl))

    rewritten-manager :
        (e : ManagedFieldsEntry) (r : Result (List ℕ)) → (rewritten json e r).manager ≡ e.manager
    unfolding rewritten
    rewritten-manager e (ok raw) = refl
    rewritten-manager e (err _) = refl

    marshalled-manager :
        (e : ManagedFieldsEntry) (cleared : Option Fields)
        → (marshalled json e cleared).manager ≡ e.manager
    unfolding marshalled
    marshalled-manager e none = refl
    marshalled-manager e (some fields) = rewritten-manager e (json.marshal fields)

    clear_parsed-manager :
        (key : String) (e : ManagedFieldsEntry) (r : Result Fields)
        → (clear_parsed json key e r).manager ≡ e.manager
    unfolding clear_parsed
    clear_parsed-manager key e (ok fields) = marshalled-manager e (clear_fields key fields)
    clear_parsed-manager key e (err _) = refl

    clear_raw-manager :
        (key : String) (e : ManagedFieldsEntry) (raw : Option (List ℕ))
        → (clear_raw json key e raw).manager ≡ e.manager
    unfolding clear_raw
    clear_raw-manager key e none = refl
    clear_raw-manager key e (some raw) = clear_parsed-manager key e (json.unmarshal raw)

    -- What an entry says of a manager and a key.
    unfoldable says : String → String → ManagedFieldsEntry → Bool
    says other k e = e.manager == other && owned_by_raw k e.fields_v1

    masked : (a b o : Bool) → (a && (if b then false else o)) ≡ (if a && b then false else a && o)
    masked true true o = refl
    masked true false o = refl
    masked false b o = refl

    cleared_says :
        (manager other key k : String) (e : ManagedFieldsEntry)
        → e.manager ≡ manager
        → says other k (clear_raw json key e e.fields_v1)
          ≡ (if manager == other && key == k then false else says other k e)
    unfolding says
    cleared_says manager other key k e same =
        rw (clear_raw-manager key e e.fields_v1, clear_raw-owned key k e e.fields_v1 refl, same)
          (masked (manager == other) (key == k) (owned_by_raw k e.fields_v1))

    kept_says :
        (manager other key k : String) (e : ManagedFieldsEntry)
        → e.manager == manager ≡ false
        → says other k e ≡ (if manager == other && key == k then false else says other k e)
    unfolding says
    kept_says manager other key k e differs = elim (Bool-cases (manager == other)) [
      | inl q ↦
          rw (q, subst (λ m. (e.manager == m) ≡ false) ((eq_iff manager other).0 q) differs)
            (unless-false (key == k))
      | inr q ↦ rw q refl
    ]

    clear_entry-says :
        (manager finalizer other k : String) (e : ManagedFieldsEntry)
        → says other k (clear_entry json manager finalizer e)
          ≡ (if manager == other && finalizer_field finalizer == k then false else says other k e)
    unfolding clear_entry
    clear_entry-says manager finalizer other k e =
        if-elim
          (λ (x : ManagedFieldsEntry). says other k x ≡ (
            if manager == other && finalizer_field finalizer == k then false else says other k e))
          (not (e.manager == manager)) _ _
          (λ q. kept_says manager other (finalizer_field finalizer) k e (not-true _ q))
          (λ q.
            cleared_says manager other (finalizer_field finalizer) k e
              ((eq_iff e.manager manager).0 (not-false _ q)))

    also_later :
        (b x r : Bool)
        → (if (if b then false else x) then true else if b then false else r)
          ≡ (if b then false else if x then true else r)
    also_later true x r = refl
    also_later false x r = refl

    -- Where JSON keeps what is owned: after a manager's ownership of a finalizer is cleared, the manager
    -- does not own that finalizer, and every other ownership, of the manager and of others, is as
    -- before.
    pub is_owned-clear :
        (managed_fields : List ManagedFieldsEntry) (manager finalizer other f : String)
        → is_owned (clear_finalizer_field_ownership json managed_fields manager finalizer) other f
          ≡ (if manager == other && finalizer_field finalizer == finalizer_field f
              then false
              else is_owned managed_fields other f)
    unfolding clear_finalizer_field_ownership is_owned says
    is_owned-clear [] manager finalizer other f =
        unless-false (manager == other && finalizer_field finalizer == finalizer_field f)
    is_owned-clear (e ∷ es) manager finalizer other f =
        rw
          (
            clear_entry-says manager finalizer other (finalizer_field f) e,
            is_owned-clear es manager finalizer other f,
          )
          (also_later (manager == other && finalizer_field finalizer == finalizer_field f)
            (says other (finalizer_field f) e) (is_owned es other f))
