-- ===== src/Controller/Cod/Protocol.antt =====
-- The order of calls in one run of the handler of a deployment, stated apart from the code.
pub mod Steps
pub mod Ordered
use orb_operator.Base.Sort.{ascending, sort_by}
use orb_operator.Controller.Cod.Handler.Archiving.{IsSuperseding}
use orb_operator.Controller.Cod.Env.{revision_of}
use orb_operator.Base.{
  filter, String_eq, ◌==◌, ℕ, String, ◌≡◌, ◌⊎◌, true, Bool, Option, none, some, List, [], ◌∷◌, ◌++◌,
  false, Memᴰ, All, length, ◌≤◌,
}
use orb_operator.Errors.{Result, ok, err}
use orb_operator.Api.{ClusterObjectSet, ClusterObjectDeployment, OwnerReference}
use orb_operator.ApplyConfig.{ApplyConfig}
use orb_operator.Template.{hash, set_controller_reference}
use orb_operator.Controller.Server.{
  Call, History, apply_cos, create_cos, delete_cos, update_cos_status, update_cod_status, patch_cos,
  get_accessor, free_accessor, write_object,
}
use orb_operator.Controller.Server.Effects.{Adds}
use orb_operator.Admission.{ServerSideApply}
use orb_operator.Admission.Archived.{IsAllowedArchiving}
use orb_operator.Controller.Cod.Env.{Env, field_owner, is_archived, but_last}
use orb_operator.Controller.Cod.Handler.Syncing.{IsRevisionCall}

-- An archived revision of these is deleted.
pub data IsPruning (owned : List ClusterObjectSet) : Call → Type 0 where
  pruning :
      (cos : ClusterObjectSet)
      → Memᴰ cos owned
      → is_archived cos ≡ true
      → IsPruning owned (delete_cos cos)

module _ (env : Env) (cod : ClusterObjectDeployment) where
  -- The revision is the deployment's, or nobody's.
  abbrev pub is_owned_or_orphan : ClusterObjectSet → Bool
  is_owned_or_orphan cos = elim (env.get_controller_of cos.metadata) [
    | none ↦ true
    | some ref ↦ ref.uid == cod.metadata.uid
  ]

  -- Those of the revisions that the server lists for the group, in the order of their numbers.
  pub record IsFound (h : History) (owned : List ClusterObjectSet) : Type 0 where
    pub items : List ClusterObjectSet
    pub listed : env.list_group h cod.metadata.name ≡ ok items
    pub exactly : owned ≡ filter is_owned_or_orphan (sort_by (ascending revision_of) items)

  -- The deployment is added as the controller of a revision that has none.
  pub record Adopts (ac : ApplyConfig) (owner : String) : Type 0 where
    pub cos : ClusterObjectSet
    pub own : ApplyConfig
    pub orphan : env.get_controller_of cos.metadata ≡ none
    pub extracted : env.extract cos field_owner ≡ ok own
    pub referred : ac ≡ set_controller_reference cod own
    pub owner_is : owner ≡ field_owner

  pub data IsAdoption : Call → Type 0 where
    adoption :
        {ac : ApplyConfig} {owner : String} → Adopts ac owner → IsAdoption (apply_cos ac owner)

  -- A revision of the deployment is written, with the hash of its template.
  abbrev pub IsSync : Call → Type 0
  IsSync c = (v : String) × (hash env.codec cod.spec.template ≡ ok v) × IsRevisionCall cod v c

  -- An owned revision other than the newest is archived, in an update that is allowed, while the
  -- newest is available.
  abbrev pub IsArchiving : ServerSideApply → List ClusterObjectSet → Call → Type 0
  IsArchiving server_apply owned c =
      IsSuperseding env owned c × IsAllowedArchiving server_apply env.extract (but_last owned) c

  -- Orphans are adopted, then a revision is written, then owned revisions but the newest are
  -- archived, and then archived ones of them are deleted. If the owned ones are not found, then none
  -- is archived or deleted.
  pub record InOrder (server_apply : ServerSideApply) (h h' : History) : Type 0 where
    pub owned : List ClusterObjectSet
    pub found : (owned ≡ []) ⊎ IsFound h owned
    pub adopted : History
    pub synced : History
    pub archived : History
    pub adopts : Adds IsAdoption h adopted
    pub syncs : Adds IsSync adopted synced
    pub archives : Adds (IsArchiving server_apply owned) synced archived
    pub prunes : Adds (IsPruning owned) archived h'

  -- The handler's own calls, and then the status if it has changed.
  pub record Completes (server_apply : ServerSideApply) (h h' : History) : Type 0 where
    pub before : History
    pub in_order : InOrder server_apply h before
    pub reports :
        (h' ≡ before)
        ⊎ ((updated : ClusterObjectDeployment) × (h' ≡ before ++ (update_cod_status updated ∷ []))
            × (env.status_equal cod.status updated.status ≡ false))
