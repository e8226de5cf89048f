-- ===== src/Controller/Cod/Handler.antt =====
-- The handler of a deployment and its steps.
pub mod Pruning
pub mod Archiving
pub mod Syncing
pub mod Summary
use orb_operator.Base.{
  ℕ, ◌-◌, ◌<◌, zero, suc, String, ◌<>◌, Bool, true, false, not, ◌&&◌, Option, none, some, List, [],
  ◌∷◌, ◌==◌, String_eq, if◌then◌else◌, filter, length, take, last_of, lookup, ltb, is_some,
}
use orb_operator.Base.Int.{ℤ}
use orb_operator.Base.Sort.{sort_by, ascending}
use orb_operator.Errors.{Error, wrap, join, Result, ok, err}
use orb_operator.Api.{
  Time, ObjectMeta, OwnerReference, ClusterObjectSet, ClusterObjectDeployment,
  ClusterObjectDeploymentStatus, archived, is_zero, is_archived_state,
}
use orb_operator.ApplyConfig.{ApplyConfig, empty_spec, SpecConfig}
use orb_operator.Kube.{ConditionApi, CtrlResult, no_requeue}
use orb_operator.Template.{Codec, label_template_hash, hash, build_cos, set_controller_reference}
use orb_operator.Status.Cod.Availability.{
  evaluate_availability, is_available, active_revision_summaries, object_counts_from_cos,
}
use orb_operator.Status.Cod.Progress.{evaluate_deadline}
use orb_operator.Controller.Server.{
  Call, create_cos, apply_cos, delete_cos, update_cod_status, History, Server, M, ◌>>=◌, ◌>>◌,
  return, lift, perform, wrapping,
}
use orb_operator.Controller.Apply.{Extract, apply}
use orb_operator.Controller.Cod.Revision.{next_revision_number, latest_active}
use orb_operator.Controller.Cod.Env.{
  Env, field_owner, revision_of, but_last, set_archived, is_archived, limit_of,
}

module _ (env : Env) where
  unfoldable pub list_group_revisions : String → M (List ClusterObjectSet)
  unfolding wrapping sort_by
  list_group_revisions group = do
    items ← wrapping "listing group revisions: " (λ h. (env.list_group h group, h))
    return (sort_by (ascending revision_of) items)

  unfoldable pub adopt : ClusterObjectDeployment → ClusterObjectSet → M Bool
  unfolding wrapping apply set_controller_reference
  adopt cod cos =
      wrapping ("adopting COS " <> cos.metadata.name <> ": ")
        (apply env.server env.extract cos field_owner (λ _. true) (set_controller_reference cod))

  unfoldable pub adopt_one :
      ClusterObjectDeployment
      → ClusterObjectSet
      → Option OwnerReference
      → M (List ClusterObjectSet)
      → M (List ClusterObjectSet)
  unfolding adopt
  adopt_one cod cos none rest = do _ ← adopt cod cos; owned ← rest; return (cos ∷ owned)
  adopt_one cod cos (some ref) rest = do
    owned ← rest
    return (if ref.uid == cod.metadata.uid then cos ∷ owned else owned)

  unfoldable pub adopt_orphans :
      ClusterObjectDeployment → List ClusterObjectSet → M (List ClusterObjectSet)
  unfolding adopt_one
  adopt_orphans cod [] = return []
  adopt_orphans cod (cos ∷ coss) =
      adopt_one cod cos (env.get_controller_of cos.metadata) (adopt_orphans cod coss)

  unfoldable pub create_revision :
      ClusterObjectDeployment → List ClusterObjectSet → String → M (Unit {0})
  unfolding wrapping perform build_cos next_revision_number
  create_revision cod all_coss template_hash = do
    cos ←
        wrapping "building COS from template: "
          (lift (build_cos env.codec cod (next_revision_number all_coss) template_hash))
    wrapping "converting COS to unstructured: " (lift (env.to_unstructured cos))
    wrapping "creating COS: " (perform env.server (create_cos cos field_owner))
    wrapping "claiming field ownership for new COS: "
        (perform env.server (apply_cos cos field_owner))

  unfoldable pub ensure_field_ownership :
      ClusterObjectDeployment → ClusterObjectSet → String → M (Unit {0})
  unfolding wrapping perform build_cos
  ensure_field_ownership cod latest_owned template_hash = do
    desired ←
        wrapping "building desired COS apply config: "
          (lift (build_cos env.codec cod latest_owned.spec.revision template_hash))
    existing ←
        wrapping "extracting COS apply config: " (lift (env.extract latest_owned field_owner))
    if not (env.config_equal existing desired)
        then wrapping "applying COS: " (perform env.server (apply_cos desired field_owner))
        else return tt

  -- `latestActive.Labels[LabelTemplateHash]` is empty where there is no such label.
  abbrev pub label_of : ClusterObjectSet → String
  label_of cos = elim (lookup cos.metadata.labels label_template_hash) [ some v ↦ v | none ↦ "" ]

  unfoldable sync_latest :
      ClusterObjectDeployment
      → List ClusterObjectSet
      → Option ClusterObjectSet
      → String
      → M (Unit {0})
  unfolding create_revision ensure_field_ownership
  sync_latest cod all_coss none current_hash = create_revision cod all_coss current_hash
  sync_latest cod all_coss (some latest) current_hash =
      if not (label_of latest == current_hash)
      then create_revision cod all_coss current_hash
      else ensure_field_ownership cod latest current_hash

  unfoldable pub sync_revision :
      ClusterObjectDeployment → List ClusterObjectSet → List ClusterObjectSet → M (Unit {0})
  unfolding wrapping hash latest_active sync_latest
  sync_revision cod all_coss owned_coss = do
    current_hash ← wrapping "computing template hash: " (lift (hash env.codec cod.spec.template))
    sync_latest cod all_coss (latest_active owned_coss) current_hash

  -- The deployment with its new status, and when to come back.
  unfoldable pub update_status :
      ClusterObjectDeployment → List ClusterObjectSet → Time → ClusterObjectDeployment × CtrlResult
  unfolding evaluate_availability evaluate_deadline active_revision_summaries object_counts_from_cos
  update_status cod owned_coss now =
      let active = active_revision_summaries owned_coss in
      let active_coss =
        filter (λ cos. not (is_archived cos) && is_zero cos.metadata.deletion_timestamp)
          owned_coss in
      let available =
        env.conditions.set_status_condition cod.status.conditions
          (evaluate_availability env.conditions cod.metadata.generation active) in
      let latest = last_of active_coss in
      let (progressing, requeue_after) = evaluate_deadline cod latest now env.deadline_unit in
      (
        record cod {
          status = record {
            conditions = env.conditions.set_status_condition available progressing;
            object_counts = object_counts_from_cos latest;
            active_revisions = active;
          };
        },
        requeue_after,
      )

  -- The loop of `archiveSuperseded`.
  unfoldable pub archive_all : List ClusterObjectSet → M (Unit {0})
  unfolding wrapping apply
  archive_all [] = return tt
  archive_all (cos ∷ coss) = do
    _ ←
        wrapping ("archiving COS " <> cos.metadata.name <> ": ")
          (apply env.server env.extract cos field_owner (λ c. not (is_archived c)) set_archived)
    archive_all coss

  unfoldable archive_before : Option ClusterObjectSet → List ClusterObjectSet → M (Unit {0})
  unfolding is_available archive_all
  archive_before none older = return tt
  archive_before (some latest) older =
      if not (is_available env.conditions latest) then return tt else archive_all older

  unfoldable pub archive_superseded : List ClusterObjectSet → M (Unit {0})
  unfolding archive_before
  archive_superseded owned_coss =
      if ltb (length owned_coss) 2
      then return tt
      else archive_before (last_of owned_coss) (but_last owned_coss)

  unfoldable pub delete_all : List ClusterObjectSet → M (Unit {0})
  unfolding wrapping perform
  delete_all [] = return tt
  delete_all (cos ∷ coss) = do
    wrapping ("pruning archived COS " <> cos.metadata.name <> ": ")
        (perform env.server (delete_cos cos))
    delete_all coss

  -- The archived revisions, the oldest first. A negative excess deletes nothing, as `-` stops at 0.
  abbrev pub prunable : List ClusterObjectSet → List ClusterObjectSet
  prunable coss = sort_by (ascending revision_of) (filter is_archived coss)

  unfoldable pub prune_archived : ClusterObjectDeployment → List ClusterObjectSet → M (Unit {0})
  unfolding delete_all sort_by
  prune_archived cod coss =
      delete_all
        (take (length (prunable coss) - limit_of cod.spec.revision_history_limit) (prunable coss))
