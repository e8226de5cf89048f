-- ===== src/Controller/Finalizer.antt =====
-- `RemoveFinalizer`, `WaitForFinalizerRemoval` and `ClearFinalizerFieldOwnership` of
-- internal/cosutil/apply.go.
pub mod Owned
pub mod Cleared
use orb_operator.Base.{
  ℕ, String, ◌<>◌, Bool, true, false, not, Option, none, some, List, [], ◌∷◌, ◌==◌, String_eq,
  if◌then◌else◌, map, ◌≡◌,
}
use orb_operator.Errors.{Result, ok, err}
use orb_operator.Api.{ObjectMeta, ManagedFieldsEntry, ClusterObjectSet}
use orb_operator.Kube.{FinalizerApi}
use orb_operator.Controller.Server.{patch_cos, Server, M, return, perform}

-- What `json.Unmarshal` makes of a text: a Go map, or another value with its text.
mutual
  pub data Value : Type 0 where
    object : Fields → Value
    other_value : String → Value

  -- `map[string]any`
  pub data Fields : Type 0 where
    empty_map : Fields
    entry : String → Value → Fields → Fields

-- `v, _ := x.(map[string]any)`, with `none` for nil.
abbrev pub as_map : Option Value → Option Fields
as_map none = none
as_map (some (object fs)) = some fs
as_map (some (other_value _)) = none

-- `m[k]`
abbrev pub get_field : Fields → String → Option Value
get_field empty_map k = none
get_field (entry j v fs) k = let rest = get_field fs k in if j == k then some v else rest

-- `delete(m, k)`
abbrev pub delete_field : String → Fields → Fields
delete_field k empty_map = empty_map
delete_field k (entry j v fs) =
    let rest = delete_field k fs in if j == k then rest else entry j v rest

-- The map with another value at the key.
abbrev pub put_field : String → Value → Fields → Fields
put_field k v fs = entry k v (delete_field k fs)

-- `delete(m, k)` if the value at the key is an empty map: else the map has the changed value.
abbrev pub put_or_delete : String → Fields → Fields → Fields
put_or_delete k empty_map fs = delete_field k fs
put_or_delete k (entry j v rest) fs = put_field k (object (entry j v rest)) fs

-- `json.Unmarshal` into a `map[string]any`, where a nil map has no fields, and `json.Marshal`.
pub record FieldsJson : Type 0 where
  pub unmarshal : List ℕ → Result Fields
  pub marshal : Fields → Result (List ℕ)

abbrev pub finalizer_field : String → String
finalizer_field finalizer = "v:" <> finalizer

abbrev pub f_metadata : String
f_metadata = "f:metadata"

abbrev pub f_finalizers : String
f_finalizers = "f:finalizers"

unfoldable clear_in_finalizers : String → Fields → Fields → Option Fields → Option Fields
clear_in_finalizers key fields f_meta none = none
clear_in_finalizers key fields f_meta (some fs) =
    some (put_or_delete f_metadata (put_or_delete f_finalizers (delete_field key fs) f_meta) fields)

unfoldable clear_in_metadata : String → Fields → Option Fields → Option Fields
unfolding clear_in_finalizers
clear_in_metadata key fields none = none
clear_in_metadata key fields (some f_meta) =
    clear_in_finalizers key fields f_meta (as_map (get_field f_meta f_finalizers))

-- The fields without the key: `none` where the loop goes on without a change.
unfoldable pub clear_fields : String → Fields → Option Fields
unfolding clear_in_metadata
clear_fields key fields = clear_in_metadata key fields (as_map (get_field fields f_metadata))

module _ (json : FieldsJson) where
  unfoldable rewritten : ManagedFieldsEntry → Result (List ℕ) → ManagedFieldsEntry
  rewritten e (ok raw) = record e { fields_v1 = some raw }
  rewritten e (err _) = e

  unfoldable marshalled : ManagedFieldsEntry → Option Fields → ManagedFieldsEntry
  unfolding rewritten
  marshalled e none = e
  marshalled e (some fields) = rewritten e (json.marshal fields)

  unfoldable clear_parsed : String → ManagedFieldsEntry → Result Fields → ManagedFieldsEntry
  unfolding marshalled clear_fields
  clear_parsed key e (ok fields) = marshalled e (clear_fields key fields)
  clear_parsed key e (err _) = e

  unfoldable clear_raw : String → ManagedFieldsEntry → Option (List ℕ) → ManagedFieldsEntry
  unfolding clear_parsed
  clear_raw key e none = e
  clear_raw key e (some raw) = clear_parsed key e (json.unmarshal raw)

  -- The body of the loop.
  unfoldable pub clear_entry : String → String → ManagedFieldsEntry → ManagedFieldsEntry
  unfolding clear_raw
  clear_entry manager finalizer e =
      if not (e.manager == manager) then e else clear_raw (finalizer_field finalizer) e e.fields_v1

  unfoldable pub clear_finalizer_field_ownership :
      List ManagedFieldsEntry → String → String → List ManagedFieldsEntry
  unfolding clear_entry
  clear_finalizer_field_ownership managed_fields manager finalizer =
      map (clear_entry manager finalizer) managed_fields

  -- The revision that `RemoveFinalizer` leaves in the pointer.
  unfoldable pub without_finalizer :
      FinalizerApi → ClusterObjectSet → String → String → ClusterObjectSet
  unfolding clear_finalizer_field_ownership
  without_finalizer api cos field_owner finalizer = record cos {
    metadata = record cos.metadata {
      finalizers = api.remove_finalizer cos.metadata.finalizers finalizer;
      managed_fields =
          clear_finalizer_field_ownership cos.metadata.managed_fields field_owner finalizer;
    };
  }

  unfoldable pub remove_finalizer :
      Server → FinalizerApi → ClusterObjectSet → String → String → M (Unit {0})
  unfolding perform without_finalizer
  remove_finalizer server api cos field_owner finalizer =
      if not (api.contains_finalizer cos.metadata.finalizers finalizer)
      then return tt
      else perform server (patch_cos cos (without_finalizer api cos field_owner finalizer))

-- One attempt: `none` is a revision that is not found.
abbrev pub is_removed : FinalizerApi → String → Result (Option ClusterObjectSet) → Result Bool
is_removed api finalizer (err e) = err e
is_removed api finalizer (ok none) = ok true
is_removed api finalizer (ok (some cos)) =
    ok (not (api.contains_finalizer cos.metadata.finalizers finalizer))

-- `wait.PollUntilContextTimeout` with the interval and the timeout of the call, immediately: the
-- condition of each attempt, from 0, gives what the polling returns.
abbrev pub Poll : Type 0
Poll = (ℕ → Result Bool) → Result (Unit {0})

-- The polling succeeds only after an attempt whose condition held.
abbrev pub PollsUntil : Poll → Type 0
PollsUntil poll =
    (condition : ℕ → Result Bool) → poll condition ≡ ok tt → (n : ℕ) × (condition n ≡ ok true)

-- `get` reads the revision from the cache at an attempt.
unfoldable pub wait_for_finalizer_removal :
    FinalizerApi → Poll → (ℕ → Result (Option ClusterObjectSet)) → String → Result (Unit {0})
wait_for_finalizer_removal api poll get finalizer = poll (λ n. is_removed api finalizer (get n))
