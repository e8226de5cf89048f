-- ===== src/Controller/Cod/Handler/Syncing.antt =====
-- Which revisions a deployment writes.
use orb_operator.Base.{
  String, ℕ, String_eq, true, not, Option, none, some, List, [], ◌∷◌, ◌≡◌, refl, lookup, subst,
  if◌then◌else◌, Bool-cases, ◌++◌, inl, ◌==◌, inr, eq_iff,
}
use orb_operator.Errors.{ok}
use orb_operator.Errors.Steps.{of_bind, ok-injective}
use orb_operator.Api.{ClusterObjectSet, ClusterObjectDeployment}
use orb_operator.ApplyConfig.{ApplyConfig}
use orb_operator.Template.{Codec, build_cos, hash, controller_reference, label_template_hash}
use orb_operator.Controller.Server.{
  ◌>>=◌, ◌>>◌, wrap_result, Call, create_cos, apply_cos, History, M, perform, wrapping, lift,
  return, delete_cos, update_cos_status, update_cod_status, patch_cos, free_accessor, get_accessor,
  write_object,
}
use orb_operator.Controller.Server.Effects.{Adds, Adds-nothing, Adds-one, Adds-bind, of_wrap_result}
use orb_operator.Controller.Cod.Revision.{latest_active, next_revision_number}
use orb_operator.Controller.Cod.Handler.{
  create_revision, ensure_field_ownership, sync_revision, label_of, sync_latest,
}
use orb_operator.Controller.Cod.Env.{Env, field_owner}

abbrev pub group_of : ApplyConfig → Option String
group_of ac = elim ac.spec [ none ↦ none | some s ↦ s.group ]

-- A revision of the deployment, made from a template with the given hash.
abbrev pub IsRevisionOf : ClusterObjectDeployment → String → ApplyConfig → Type 0
IsRevisionOf cod template_hash ac =
    (lookup ac.labels label_template_hash ≡ some template_hash)
    × (group_of ac ≡ some cod.metadata.name)
    × (ac.owner_references ≡ controller_reference cod ∷ [])

-- A call that writes such a revision as the controller.
abbrev pub IsRevisionCall : ClusterObjectDeployment → String → Call → Type 0
IsRevisionCall cod v (apply_cos ac owner) = (owner ≡ field_owner) × IsRevisionOf cod v ac
IsRevisionCall cod v (create_cos ac owner) = (owner ≡ field_owner) × IsRevisionOf cod v ac
IsRevisionCall cod v (delete_cos _) = ⊥
IsRevisionCall cod v (update_cos_status _) = ⊥
IsRevisionCall cod v (update_cod_status _) = ⊥
IsRevisionCall cod v (patch_cos _ _) = ⊥
IsRevisionCall cod v (get_accessor _ _) = ⊥
IsRevisionCall cod v (write_object _) = ⊥
IsRevisionCall cod v (free_accessor _) = ⊥

build_cos-IsRevisionOf :
    (c : Codec) (cod : ClusterObjectDeployment) (n : ℕ) (v : String) (ac : ApplyConfig)
    → build_cos c cod n v ≡ ok ac
    → IsRevisionOf cod v ac
unfolding build_cos
build_cos-IsRevisionOf c cod n v ac e =
    let (json, e1, f) = of_bind (c.marshal_spec cod.spec.template.spec) _ ac e in
    let (spec, e2, g) = of_bind (c.unmarshal_spec json) _ ac f in
    subst (IsRevisionOf cod v) (ok-injective _ ac g) (refl, refl, refl)

module _ (env : Env) (cod : ClusterObjectDeployment) (v : String) where
  abbrev write : ApplyConfig → M (Unit {0})
  write ac =
      wrapping "creating COS: " (perform env.server (create_cos ac field_owner))
      >> wrapping "claiming field ownership for new COS: "
          (perform env.server (apply_cos ac field_owner))

  write-Adds :
      (ac : ApplyConfig) (h : History)
      → IsRevisionOf cod v ac
      → Adds (IsRevisionCall cod v) h (write ac h).1
  unfolding wrapping perform
  write-Adds ac h i =
      let P = IsRevisionCall cod v in
      Adds-bind P (wrapping "creating COS: " (perform env.server (create_cos ac field_owner)))
        (λ _.
          wrapping "claiming field ownership for new COS: "
            (perform env.server (apply_cos ac field_owner)))
        h (Adds-one P h (create_cos ac field_owner) (refl, i))
        (λ _ _.
          Adds-one P (h ++ (create_cos ac field_owner ∷ [])) (apply_cos ac field_owner) (refl, i))

  create_revision-Adds :
      (all : List ClusterObjectSet) (h : History)
      → Adds (IsRevisionCall cod v) h (create_revision env cod all v h).1
  unfolding create_revision wrapping perform
  create_revision-Adds all h =
      let P = IsRevisionCall cod v in
      Adds-bind P
        (wrapping "building COS from template: "
          (lift (build_cos env.codec cod (next_revision_number all) v)))
        (λ ac.
          wrapping "converting COS to unstructured: " (lift (env.to_unstructured ac)) >> write ac)
        h (Adds-nothing P h)
        (λ ac e.
          Adds-bind P (wrapping "converting COS to unstructured: " (lift (env.to_unstructured ac)))
            (λ _. write ac) h (Adds-nothing P h)
            (λ _ _. write-Adds ac h (
              build_cos-IsRevisionOf env.codec cod (next_revision_number all) v ac
                (of_wrap_result _ _ ac e))))

  abbrev claim : ApplyConfig → ApplyConfig → M (Unit {0})
  claim desired existing =
      if not (env.config_equal existing desired)
      then wrapping "applying COS: " (perform env.server (apply_cos desired field_owner))
      else return tt

  claim-Adds :
      (desired existing : ApplyConfig) (h : History)
      → IsRevisionOf cod v desired
      → Adds (IsRevisionCall cod v) h (claim desired existing h).1
  unfolding wrapping perform
  claim-Adds desired existing h i = elim (Bool-cases (env.config_equal existing desired)) [
    | inl e ↦ rw e (Adds-nothing (IsRevisionCall cod v) h)
    | inr e ↦ rw e (Adds-one (IsRevisionCall cod v) h (apply_cos desired field_owner) (refl, i))
  ]

  ensure_field_ownership-Adds :
      (latest : ClusterObjectSet) (h : History)
      → Adds (IsRevisionCall cod v) h (ensure_field_ownership env cod latest v h).1
  unfolding ensure_field_ownership wrapping perform
  ensure_field_ownership-Adds latest h =
      let P = IsRevisionCall cod v in
      Adds-bind P
        (wrapping "building desired COS apply config: "
          (lift (build_cos env.codec cod latest.spec.revision v)))
        (λ desired.
          wrapping "extracting COS apply config: " (lift (env.extract latest field_owner))
          >>= claim desired)
        h (Adds-nothing P h)
        (λ desired e.
          Adds-bind P
            (wrapping "extracting COS apply config: " (lift (env.extract latest field_owner)))
            (claim desired) h (Adds-nothing P h)
            (λ existing _. claim-Adds desired existing h (
              build_cos-IsRevisionOf env.codec cod latest.spec.revision v desired
                (of_wrap_result _ _ desired e))))

  sync_latest-Adds :
      (all : List ClusterObjectSet) (latest : Option ClusterObjectSet) (h : History)
      → Adds (IsRevisionCall cod v) h (sync_latest env cod all latest v h).1
  unfolding sync_latest
  sync_latest-Adds all none h = create_revision-Adds all h
  sync_latest-Adds all (some latest) h = elim (Bool-cases (label_of env latest == v)) [
    | inl e ↦ rw e (ensure_field_ownership-Adds latest h)
    | inr e ↦ rw e (create_revision-Adds all h)
  ]

-- Where the template has a hash, every call that syncing makes writes, as the controller, a revision of the deployment: in its
-- group, controlled by it, and labelled with the hash of its template as it is now.
pub sync_revision-Adds :
    (env : Env) (cod : ClusterObjectDeployment) (all owned : List ClusterObjectSet) (v : String)
    (h : History)
    → hash env.codec cod.spec.template ≡ ok v
    → Adds (IsRevisionCall cod v) h (sync_revision env cod all owned h).1
unfolding sync_revision wrapping wrap_result
sync_revision-Adds env cod all owned v h e =
    rw e (sync_latest-Adds env cod v all (latest_active owned) h)

ensure_field_ownership-idle :
    (env : Env) (cod : ClusterObjectDeployment) (latest : ClusterObjectSet) (v : String)
    (existing desired : ApplyConfig) (h : History)
    → env.extract latest field_owner ≡ ok existing
    → build_cos env.codec cod latest.spec.revision v ≡ ok desired
    → env.config_equal existing desired ≡ true
    → ensure_field_ownership env cod latest v h ≡ (ok tt, h)
unfolding ensure_field_ownership wrapping wrap_result
ensure_field_ownership-idle env cod latest v existing desired h x b q = rw (b, x, q) refl

sync_latest-idle :
    (env : Env) (cod : ClusterObjectDeployment) (all : List ClusterObjectSet)
    (latest : ClusterObjectSet) (v : String) (existing desired : ApplyConfig) (h : History)
    → label_of env latest ≡ v
    → env.extract latest field_owner ≡ ok existing
    → build_cos env.codec cod latest.spec.revision v ≡ ok desired
    → env.config_equal existing desired ≡ true
    → sync_latest env cod all (some latest) v h ≡ (ok tt, h)
unfolding sync_latest
sync_latest-idle env cod all latest v existing desired h l x b q =
    rw ((eq_iff (label_of env latest) v).1 l)
      (ensure_field_ownership-idle env cod latest v existing desired h x b q)

-- Where the newest active revision has the hash of the template and the fields that the controller
-- would set, syncing calls nothing.
pub sync_revision-idle :
    (env : Env) (cod : ClusterObjectDeployment) (all owned : List ClusterObjectSet)
    (latest : ClusterObjectSet) (v : String) (existing desired : ApplyConfig) (h : History)
    → hash env.codec cod.spec.template ≡ ok v
    → latest_active owned ≡ some latest
    → label_of env latest ≡ v
    → env.extract latest field_owner ≡ ok existing
    → build_cos env.codec cod latest.spec.revision v ≡ ok desired
    → env.config_equal existing desired ≡ true
    → sync_revision env cod all owned h ≡ (ok tt, h)
unfolding sync_revision wrapping wrap_result
sync_revision-idle env cod all owned latest v existing desired h e n l x b q =
    rw (e, n) (sync_latest-idle env cod all latest v existing desired h l x b q)
