-- ===== src/Revision/Chain.antt =====
-- internal/revision/chain.go
pub mod Order
use orb_operator.Base.{
  ℕ, String, Bool, not, ◌&&◌, Option, none, some, List, [], ◌∷◌, ◌++◌, ◌==◌, String_eq,
  if◌then◌else◌, filter, to_list, is_some,
}
use orb_operator.Base.Sort.{sort_by, descending}
use orb_operator.Api.{ObjectMeta, OwnerReference, ClusterObjectSet, is_zero, is_archived_state}

pub record Chain : Type 0 where
  pub latest_active : Option ClusterObjectSet
  pub predecessors : List ClusterObjectSet
  pub archived : List ClusterObjectSet
  pub deleted : List ClusterObjectSet

abbrev pub is_deleted : ClusterObjectSet → Bool
is_deleted m = not (is_zero m.metadata.deletion_timestamp)

abbrev pub is_archived : ClusterObjectSet → Bool
is_archived m = is_archived_state m.spec.lifecycle_state

abbrev pub empty_chain : Chain
empty_chain = record { latest_active = none; predecessors = []; archived = []; deleted = [] }

-- The body of the loop.
unfoldable pub add_member : ClusterObjectSet → Chain → Chain
add_member m ch =
    if is_deleted m
    then record ch { deleted = ch.deleted ++ (m ∷ []) }
    else if is_archived m
    then record ch { archived = ch.archived ++ (m ∷ []) }
    else if not (is_some ch.latest_active)
    then record ch { latest_active = some m }
    else record ch { predecessors = ch.predecessors ++ (m ∷ []) }

unfoldable pub add_members : List ClusterObjectSet → Chain → Chain
unfolding add_member
add_members [] ch = ch
add_members (m ∷ ms) ch = add_members ms (add_member m ch)

abbrev pub revision_of : ClusterObjectSet → ℕ
revision_of m = m.spec.revision

unfoldable pub build_chain : List ClusterObjectSet → Chain
unfolding add_members sort_by
build_chain members = add_members (sort_by (descending revision_of) members) empty_chain

-- `m.Name != cos.Name`
abbrev pub is_other : ClusterObjectSet → ClusterObjectSet → Bool
is_other cos m = not (m.metadata.name == cos.metadata.name)

unfoldable pub siblings_of : Chain → ClusterObjectSet → List ClusterObjectSet
siblings_of ch cos =
    filter (is_other cos) (to_list ch.latest_active) ++ filter (is_other cos) ch.predecessors

pub record ControllerOwnerKey : Type 0 where
  pub kind : String
  pub name : String

key_of_reference : Option OwnerReference → ControllerOwnerKey
key_of_reference none = record { kind = ""; name = "" }
key_of_reference (some ref) = record { kind = ref.kind; name = ref.name }

-- `metav1.GetControllerOf` is a function of the Kubernetes libraries.
module _ (get_controller_of : ObjectMeta → Option OwnerReference) where
  unfoldable pub controller_owner_key_of : ClusterObjectSet → ControllerOwnerKey
  unfolding key_of_reference
  controller_owner_key_of cos = key_of_reference (get_controller_of cos.metadata)

  abbrev pub same_owner : ClusterObjectSet → ClusterObjectSet → Bool
  same_owner cos m =
      (controller_owner_key_of m).kind == (controller_owner_key_of cos).kind
      && (controller_owner_key_of m).name == (controller_owner_key_of cos).name

  unfoldable pub filter_by_owner : List ClusterObjectSet → ClusterObjectSet → List ClusterObjectSet
  unfolding controller_owner_key_of
  filter_by_owner members cos = filter (same_owner cos) members
