-- ===== src/Admission/Archived.antt =====
-- Archiving is an update that the API server admits.
use orb_operator.Base.{
  String, ◌≡◌, refl, ap, ◌∙◌, Option, none, some, List, Memᴰ, Option-cases, inl, inr, All-imp,
  All-members,
}
use orb_operator.Api.{ClusterObjectSet, ClusterObjectSetSpec, archived}
use orb_operator.ApplyConfig.{ApplyConfig, SpecConfig}
use orb_operator.Errors.{ok}
use orb_operator.Admission.{
  IsAllowedUpdate, template_of, ServerSideApply, SetsSentFields, AreSent, IsSent, spec_fields,
  get_or, with_fields,
}
use orb_operator.Controller.Server.{
  Call, apply_cos, History, create_cos, delete_cos, update_cos_status, update_cod_status, patch_cos,
  free_accessor, get_accessor, write_object,
}
use orb_operator.Controller.Server.Effects.{Adds}
use orb_operator.Controller.Apply.{Extract}
use orb_operator.Controller.Cod.Handler.{archive_superseded}
use orb_operator.Controller.Cod.Handler.Archiving.{archive_superseded-All}
use orb_operator.Controller.Cod.Env.{Env, field_owner, set_archived, but_last}

-- A field that is set has this value.
abbrev IsKept : {A : Type 0} → Option A → A → Type 0
IsKept none a = Unit
IsKept (some b) a = b ≡ a

pub record AreKept (spec : ClusterObjectSetSpec) (s : SpecConfig) : Type 0 where
  pub group : IsKept s.group spec.group
  pub revision : IsKept s.revision spec.revision
  pub template_spec : IsKept s.template_spec (template_of spec)

abbrev pub AreOwnFields : ClusterObjectSet → ApplyConfig → Type 0
AreOwnFields cos ac =
    (ac.name ≡ cos.metadata.name) × ((s : SpecConfig) → ac.spec ≡ some s → AreKept cos.spec s)

-- What is extracted of a revision is its name and, with their values, the fields of one owner.
abbrev pub ExtractsOwnFields : Extract → Type 0
ExtractsOwnFields extract =
    (cos : ClusterObjectSet) (owner : String) (ac : ApplyConfig)
    → extract cos owner ≡ ok ac
    → AreOwnFields cos ac

get_or-IsKept : {A : Type 0} (o : Option A) (a : A) → IsKept o a → get_or o a ≡ a
get_or-IsKept none a h = refl
get_or-IsKept (some b) a h = h

IsSent-self : {A : Type 0} (o : Option A) → IsSent o o
IsSent-self none = tt
IsSent-self (some a) = refl

IsSent-some : {A : Type 0} (o : Option A) (a : A) → IsSent o (some a)
IsSent-some none a = tt
IsSent-some (some b) a = refl

-- The revision is one of the list, the controller owned what is extracted of it, and the call leaves
-- it archived in an update that is allowed.
pub record Archives (server_apply : ServerSideApply) (extract : Extract)
    (coss : List ClusterObjectSet) (ac : ApplyConfig) (owner : String) : Type 0 where
  pub cos : ClusterObjectSet
  pub mem : Memᴰ cos coss
  pub name : ac.name ≡ cos.metadata.name
  pub owner_is : owner ≡ field_owner
  pub own : ApplyConfig
  pub extracted : extract cos field_owner ≡ ok own
  pub after : ClusterObjectSetSpec
  pub applied : server_apply own cos.spec ac ≡ some after
  pub allowed : IsAllowedUpdate cos.spec after
  pub state : after.lifecycle_state ≡ archived

abbrev pub IsAllowedArchiving : ServerSideApply → Extract → List ClusterObjectSet → Call → Type 0
IsAllowedArchiving server_apply extract coss (apply_cos ac owner) =
    Archives server_apply extract coss ac owner
IsAllowedArchiving server_apply extract coss (create_cos _ _) = ⊥
IsAllowedArchiving server_apply extract coss (delete_cos _) = ⊥
IsAllowedArchiving server_apply extract coss (update_cos_status _) = ⊥
IsAllowedArchiving server_apply extract coss (update_cod_status _) = ⊥
IsAllowedArchiving server_apply extract coss (patch_cos _ _) = ⊥
IsAllowedArchiving server_apply extract coss (get_accessor _ _) = ⊥
IsAllowedArchiving server_apply extract coss (write_object _) = ⊥
IsAllowedArchiving server_apply extract coss (free_accessor _) = ⊥

archived_fields :
    (spec : ClusterObjectSetSpec) (s : SpecConfig)
    → AreKept spec s
    → with_fields spec (record s { lifecycle_state = some archived })
      ≡ record spec { lifecycle_state = archived }
archived_fields spec s k =
    rw
      (
        get_or-IsKept s.group spec.group k.group,
        get_or-IsKept s.revision spec.revision k.revision,
        get_or-IsKept s.template_spec (template_of spec) k.template_spec,
      )
      refl

-- All that was extracted is sent again.
set_archived-AreSent : (ac : ApplyConfig) → AreSent (spec_fields ac) (spec_fields (set_archived ac))
set_archived-AreSent ac = elim (Option-cases ac.spec) [
  | inl e ↦ rw e (record { group = tt; revision = tt; lifecycle_state = tt; template_spec = tt })
  | inr (s, e) ↦ rw e (record {
    group = IsSent-self s.group;
    revision = IsSent-self s.revision;
    lifecycle_state = IsSent-some s.lifecycle_state archived;
    template_spec = IsSent-self s.template_spec;
  })
]

-- Archiving changes nothing else of the spec.
archived_spec :
    (server_apply : ServerSideApply) (spec : ClusterObjectSetSpec) (ac : ApplyConfig)
    → SetsSentFields server_apply
    → ((s : SpecConfig) → ac.spec ≡ some s → AreKept spec s)
    → server_apply ac spec (set_archived ac) ≡ some (record spec { lifecycle_state = archived })
archived_spec server_apply spec ac sets kept =
    sets ac spec (set_archived ac) (set_archived-AreSent ac)
    ∙ ap (λ x. some x)
        (elim (Option-cases ac.spec) [
          | inl e ↦ rw e refl
          | inr (s, e) ↦ rw e (archived_fields spec s (kept s e))
        ])

name-set_archived : (ac : ApplyConfig) → (set_archived ac).name ≡ ac.name
name-set_archived ac = elim (Option-cases ac.spec) [ inl e ↦ rw e refl | inr (s, e) ↦ rw e refl ]

pub set_archived-Archives :
    (server_apply : ServerSideApply) (extract : Extract) (coss : List ClusterObjectSet)
    (cos : ClusterObjectSet) (ac : ApplyConfig)
    → SetsSentFields server_apply
    → Memᴰ cos coss
    → extract cos field_owner ≡ ok ac
    → AreOwnFields cos ac
    → Archives server_apply extract coss (set_archived ac) field_owner
set_archived-Archives server_apply extract coss cos ac sets m extracted (name, kept) = record {
  cos = cos;
  mem = m;
  name = name-set_archived ac ∙ name;
  owner_is = refl;
  own = ac;
  extracted = extracted;
  after = record cos.spec { lifecycle_state = archived };
  applied = archived_spec server_apply cos.spec ac sets kept;
  allowed = record {
    group = refl;
    revision = refl;
    phases = refl;
    collision_protection = refl;
    lifecycle_state = λ _. refl;
  };
  state = refl;
}

-- Where what is extracted of a revision are the fields that the controller owns, with their values,
-- and an apply that sends all of these changes what it sends and nothing else: archiving calls the
-- server only to apply, as the controller, the configuration of an owned revision but the last, which
-- leaves that revision archived in an update that the rules on its spec allow.
pub archive_superseded-IsAllowed :
    (env : Env) (server_apply : ServerSideApply) (owned : List ClusterObjectSet) (h : History)
    → ExtractsOwnFields env.extract
    → SetsSentFields server_apply
    → Adds
        (IsAllowedArchiving server_apply env.extract (but_last owned))
        h
        (archive_superseded env owned h).1
archive_superseded-IsAllowed env server_apply owned h own sets =
    archive_superseded-All env (IsAllowedArchiving server_apply env.extract (but_last owned)) owned
      h
      (λ _ _ _.
        All-imp
          (λ cos m ac x.
            set_archived-Archives server_apply env.extract (but_last owned) cos ac sets m x
              (own cos field_owner ac x))
          (but_last owned) (All-members (but_last owned)))
