-- ===== src/Controller/Cos/Prepare.antt =====
-- What is made ready before boxcutter is called: the siblings, the finalizer, the objects, the
-- engine.
use orb_operator.Base.{String, ◌<>◌, Bool, not, List, [], ◌∷◌, map, ◌==◌, String_eq, if◌then◌else◌}
use orb_operator.Base.Sort.{sort_by, ascending}
use orb_operator.Errors.{Error, object_resolution_error, internal_error, Result, ok, err}
use orb_operator.Api.{ClusterObjectSet}
use orb_operator.ApplyConfig.{with_finalizers}
use orb_operator.Assertions.{Prober}
use orb_operator.Boxcutter.{BoxRevision}
use orb_operator.Object.{Resolved}
use orb_operator.Object.Resolver.{resolve, managed_objects, verify_hash}
use orb_operator.Revision.Chain.{revision_of, build_chain, siblings_of, filter_by_owner}
use orb_operator.Revision.Builder.{build}
use orb_operator.Revision.Engine.{Engines}
use orb_operator.Controller.Server.{
  get_accessor, History, M, ◌>>=◌, ◌>>◌, return, lift, perform, wrapping,
}
use orb_operator.Controller.Apply.{apply}
use orb_operator.Controller.Cos.Env.{
  field_owner, managed_by, system_prefix, finalizer_key, EngineOptions, Env,
}

-- An error of a step as the error of a class.
unfoldable pub as_error : {A : Type 0} → (Error → Error) → Result A → Result A
as_error class (ok a) = ok a
as_error class (err e) = err (class e)

unfoldable pub classified : {A : Type 0} → (Error → Error) → M A → M A
unfolding as_error
classified class m h = let (r, h') = m h in (as_error class r, h')

-- The hash is kept in the status when none was.
unfoldable pub pin : String → ClusterObjectSet → ClusterObjectSet
pin hash cos =
    if cos.status.resolved_content_hash == ""
    then record cos { status = record cos.status { resolved_content_hash = hash } }
    else cos

module _ {Obj : Type 0} where
  unfoldable pub pin_result : Result (Resolved Obj) → ClusterObjectSet → ClusterObjectSet
  unfolding pin
  pin_result (ok resolved) cos = pin resolved.hash cos
  pin_result (err e) cos = cos

  unfoldable keep_verified : Resolved Obj → Result (Unit {0}) → Result (Resolved Obj)
  keep_verified resolved (ok _) = ok resolved
  keep_verified resolved (err e) = err e

  unfoldable pub and_verify : String → Result (Resolved Obj) → Result (Resolved Obj)
  unfolding keep_verified verify_hash
  and_verify existing (ok resolved) = keep_verified resolved (verify_hash resolved existing)
  and_verify existing (err e) = err e

abbrev pub engine_options : ClusterObjectSet → EngineOptions
engine_options cos = record {
  field_owner = "cos-group/" <> cos.spec.group;
  system_prefix = system_prefix;
  managed_by = managed_by;
}

module _ {Obj GzipReader Cel Options PhaseOptions : Type 0}
    (env : Env Obj GzipReader Cel Options PhaseOptions) where
  unfoldable pub list_group_members : String → M (List ClusterObjectSet)
  unfolding wrapping sort_by
  list_group_members group = do
    items ← wrapping "listing group members: " (λ h. (env.list_group h group, h))
    return (sort_by (ascending revision_of) items)

  unfoldable pub resolve_siblings : ClusterObjectSet → M (List ClusterObjectSet)
  unfolding list_group_members filter_by_owner build_chain siblings_of
  resolve_siblings cos = do
    group_members ← list_group_members cos.spec.group
    return (siblings_of (build_chain (filter_by_owner env.get_controller_of group_members cos)) cos)

  abbrev pub has_finalizer : ClusterObjectSet → String → Bool
  has_finalizer cos finalizer = env.finalizers.contains_finalizer cos.metadata.finalizers finalizer

  unfoldable pub ensure_finalizer : ClusterObjectSet → M Bool
  unfolding wrapping apply with_finalizers
  ensure_finalizer cos = wrapping ("adding finalizer to " <> cos.metadata.name <> ": ") (
      apply env.server env.extract cos field_owner (λ c. not (has_finalizer c finalizer_key))
        (with_finalizers (finalizer_key ∷ [])))

  abbrev pub EngineOf : Type 0
  EngineOf = Engines History Obj (Prober Cel) ClusterObjectSet Options PhaseOptions

  -- `revision.NewEngine`, of which the options are the part that can fail.
  unfoldable pub open_engine : EngineOptions → M EngineOf
  open_engine opts = do
    lift (env.new_revision_engine opts)
    lift (env.new_phase_engine opts)
    return (env.engines opts)

  unfoldable pub new_engine : ClusterObjectSet → Resolved Obj → M EngineOf
  unfolding wrapping perform managed_objects open_engine
  new_engine cos resolved = do
    wrapping "getting accessor: " (
        perform env.server (
          get_accessor cos
            (map env.objects.group_version_kind (managed_objects env.objects resolved))))
    open_engine (engine_options cos)

  unfoldable pub resolve_and_prepare :
      ClusterObjectSet
      → Result (Resolved Obj)
      → List ClusterObjectSet
      → M (EngineOf × BoxRevision Obj (Prober Cel) ClusterObjectSet)
  unfolding classified new_engine build
  resolve_and_prepare cos resolution siblings = do
    resolved ← classified object_resolution_error (lift resolution)
    engine ← classified internal_error (new_engine cos resolved)
    return (engine, build env.new_cel_probe cos resolved siblings)

  -- The resolution, if its hash is the one that the status has.
  unfoldable pub resolve_verified : ClusterObjectSet → History → Result (Resolved Obj)
  unfolding resolve and_verify
  resolve_verified cos h =
      and_verify cos.status.resolved_content_hash
        (resolve env.objects (env.get_slice h) cos.spec.phases)

  -- The closure `resolve` of `doReconcile`, with the revision that it leaves in the pointer.
  unfoldable pub resolve_pinned :
      ClusterObjectSet → History → Result (Resolved Obj) × ClusterObjectSet
  unfolding resolve_verified pin_result
  resolve_pinned cos h =
      let resolution = resolve_verified cos h in (resolution, pin_result resolution cos)
