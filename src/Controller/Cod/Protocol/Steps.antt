-- ===== src/Controller/Cod/Protocol/Steps.antt =====
-- The calls of the steps that come before the status is computed.
use orb_operator.Base.{
  sym, ap, ◌∙◌, filter, String, ◌≡◌, refl, true, Option, none, some, List, [], ◌∷◌, ◌==◌, String_eq,
  if◌then◌else◌,
}
use orb_operator.Base.Sort.{sort_by, ascending}
use orb_operator.Errors.{Error, Result, ok, err}
use orb_operator.Errors.Steps.{ok-injective}
use orb_operator.Api.{ClusterObjectSet, ClusterObjectDeployment, OwnerReference}
use orb_operator.Template.{set_controller_reference}
use orb_operator.Controller.Server.{
  History, M, ◌>>=◌, ◌>>◌, return, lift, perform, wrapping, apply_cos,
}
use orb_operator.Controller.Server.Effects.{
  Adds, Adds-nothing, Adds-one, Adds-bind, Adds-trans, ends-bind, of_wrap_result,
}
use orb_operator.Controller.Apply.{apply}
use orb_operator.Controller.Cod.Env.{Env, field_owner, revision_of}
use orb_operator.Controller.Cod.Handler.{list_group_revisions, adopt, adopt_one, adopt_orphans}
use orb_operator.Controller.Cod.Protocol.{is_owned_or_orphan, IsAdoption, adoption}

module _ (env : Env) (cod : ClusterObjectDeployment) where
  adopt-Adds :
      (cos : ClusterObjectSet) (h : History)
      → env.get_controller_of cos.metadata ≡ none
      → Adds (IsAdoption env cod) h (adopt env cod cos h).1
  unfolding adopt wrapping apply perform
  adopt-Adds cos h orphan =
      let P = IsAdoption env cod in
      Adds-bind P (wrapping "extracting apply config: " (lift (env.extract cos field_owner)))
        (λ ac.
          perform env.server (apply_cos (set_controller_reference cod ac) field_owner)
          >> return true)
        h (Adds-nothing P h)
        (λ ac x.
          Adds-bind P (perform env.server (apply_cos (set_controller_reference cod ac) field_owner))
            (λ _. return true) h
            (Adds-one P h (apply_cos (set_controller_reference cod ac) field_owner) (
              adoption (record {
                cos = cos;
                own = ac;
                orphan = orphan;
                extracted = of_wrap_result _ _ ac x;
                referred = refl;
                owner_is = refl;
              })))
            (λ _ _. Adds-nothing P _))

  -- The calls of a step of the loop, and the revisions that it finds to be owned.
  abbrev Finds : List ClusterObjectSet → History → Result (List ClusterObjectSet) × History → Type 0
  Finds coss h r =
      Adds (IsAdoption env cod) h r.1
      × ((owned : List ClusterObjectSet)
          → r.0 ≡ ok owned
          → owned ≡ filter (is_owned_or_orphan env cod) coss)

  Finds-none :
      (coss : List ClusterObjectSet) (h : History) (e : Error) (h' : History)
      → Adds (IsAdoption env cod) h h'
      → Finds coss h (err e, h')
  Finds-none coss h e h' a = (a, λ owned q. absurd (cc q))

  adopt_one-Finds :
      (cos : ClusterObjectSet) (coss : List ClusterObjectSet) (ref : Option OwnerReference)
      (rest : M (List ClusterObjectSet)) (h : History)
      → env.get_controller_of cos.metadata ≡ ref
      → ((k : History) → Finds coss k (rest k))
      → Finds (cos ∷ coss) h (adopt_one env cod cos ref rest h)
  unfolding adopt_one
  adopt_one-Finds cos coss none rest h q more =
      ends-bind (Finds (cos ∷ coss) h) (adopt env cod cos)
        (λ _. rest >>= λ owned. return (cos ∷ owned)) h
        (λ _ _.
          let k = (adopt env cod cos h).1 in
          ends-bind (Finds (cos ∷ coss) h) rest (λ owned. return (cos ∷ owned)) k
            (λ owned e. (
              Adds-trans (IsAdoption env cod) (adopt-Adds cos h q) (more k).0,
              λ found f.
                  sym (ok-injective _ found f)
                  ∙ rw (is_owned_or_orphan, q) (ap (λ l. cos ∷ l) ((more k).1 owned e)),
            ))
            (λ e _.
              Finds-none (cos ∷ coss) h e _
                (Adds-trans (IsAdoption env cod) (adopt-Adds cos h q) (more k).0)))
        (λ e _. Finds-none (cos ∷ coss) h e _ (adopt-Adds cos h q))
  adopt_one-Finds cos coss (some ref) rest h q more =
      ends-bind (Finds (cos ∷ coss) h) rest
        (λ owned. return (if ref.uid == cod.metadata.uid then cos ∷ owned else owned)) h
        (λ owned e. (
          (more h).0,
          λ found f.
              sym (ok-injective _ found f)
              ∙ rw (is_owned_or_orphan, q)
                  (ap (λ l. if ref.uid == cod.metadata.uid then cos ∷ l else l)
                    ((more h).1 owned e)),
        ))
        (λ e _. Finds-none (cos ∷ coss) h e _ (more h).0)

  pub adopt_orphans-Finds :
      (coss : List ClusterObjectSet) (h : History) → Finds coss h (adopt_orphans env cod coss h)
  unfolding adopt_orphans
  adopt_orphans-Finds [] h =
      (Adds-nothing (IsAdoption env cod) h, λ owned q. sym (ok-injective _ owned q))
  adopt_orphans-Finds (cos ∷ coss) h =
      adopt_one-Finds cos coss (env.get_controller_of cos.metadata) (adopt_orphans env cod coss) h
        refl (adopt_orphans-Finds coss)

  -- What is listed is sorted.
  pub list_group_revisions-sorted :
      (group : String) (h : History) (all : List ClusterObjectSet)
      → (list_group_revisions env group h).0 ≡ ok all
      → (items : List ClusterObjectSet) × (env.list_group h group ≡ ok items)
        × (all ≡ sort_by (ascending revision_of) items)
  unfolding list_group_revisions wrapping
  list_group_revisions-sorted group h =
      ends-bind {B = List ClusterObjectSet}
        (λ r.
          (all : List ClusterObjectSet)
          → r.0 ≡ ok all
          → (items : List ClusterObjectSet) × (env.list_group h group ≡ ok items)
            × (all ≡ sort_by (ascending revision_of) items))
        (wrapping "listing group revisions: " (λ k. (env.list_group k group, k)))
        (λ items. return (sort_by (ascending revision_of) items)) h
        (λ items e all q. (items, of_wrap_result _ _ items e, sym (ok-injective _ all q)))
        (λ e _ all q. absurd (cc q))

  -- Listing calls nothing.
  pub list_group_revisions-history :
      (group : String) (h : History) → (list_group_revisions env group h).1 ≡ h
  unfolding list_group_revisions wrapping
  list_group_revisions-history group h =
      ends-bind (λ r. r.1 ≡ h)
        (wrapping "listing group revisions: " (λ k. (env.list_group k group, k)))
        (λ items. return (sort_by (ascending revision_of) items)) h (λ items _. refl) (λ e _. refl)
