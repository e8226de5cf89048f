-- ===== src/Controller/Cod/Protocol/Ordered.antt =====
-- A whole run of the handler of a deployment makes its calls in order.
use orb_operator.Controller.Cod.Handler.Pruning.{All-take}
use orb_operator.Controller.Cod.Handler.Archiving.{archive_superseded-All, set_archived-Supersedes}
use orb_operator.Base.{
  ap, ◌∙◌, All-imp, String, ◌≡◌, ◌⊎◌, refl, sym, subst, true, some, List, [], ◌∷◌, Memᴰ, All, inl,
  inr, Bool-cases, filter, All-members,
}
use orb_operator.Base.Sort.{
  All-sort_by, ascending, IsSortedBy, filter-IsSortedBy, sort_by-IsSortedBy, ascending-IsTotalOrder,
}
use orb_operator.Errors.{Error, Result, ok, err}
use orb_operator.Errors.Steps.{ok-injective}
use orb_operator.Api.{ClusterObjectSet, ClusterObjectDeployment, is_zero}
use orb_operator.Kube.{CtrlResult}
use orb_operator.Template.{hash}
use orb_operator.Controller.Server.{
  Call, History, ◌>>=◌, ◌>>◌, return, perform, wrapping, wrap_result, delete_cos,
}
use orb_operator.Controller.Server.Effects.{
  Adds, Adds-nothing, Adds-one, Adds-bind, Adds-imp, ends-bind,
}
use orb_operator.Controller.Cod.Env.{Env, field_owner, is_archived, revision_of, but_last}
use orb_operator.Controller.Cod.Handler.{
  list_group_revisions, adopt_orphans, sync_revision, delete_all, prunable, prune_archived,
  update_status, archive_superseded,
}
use orb_operator.Controller.Cod.Handler.Syncing.{sync_revision-Adds}
use orb_operator.Controller.Cod.Reconcile.{
  before_status, after_status, reconcile_cod, finish, reconcile_found, reconcile,
}
use orb_operator.Controller.Cod.Protocol.{
  is_owned_or_orphan, IsFound, IsArchiving, IsAdoption, IsSync, IsPruning, pruning, InOrder,
  Completes,
}
use orb_operator.Controller.Cod.Protocol.Steps.{
  adopt_orphans-Finds, list_group_revisions-history, list_group_revisions-sorted,
}
use orb_operator.Admission.{ServerSideApply, SetsSentFields}
use orb_operator.Admission.Archived.{set_archived-Archives, ExtractsOwnFields}

module _ (env : Env) (P : Call → Type 0) where
  delete_all-Adds :
      (coss : List ClusterObjectSet) (h : History)
      → All (λ cos. P (delete_cos cos)) coss
      → Adds P h (delete_all env coss h).1
  unfolding delete_all wrapping perform
  delete_all-Adds [] h holds = Adds-nothing P h
  delete_all-Adds (cos ∷ coss) h (first, rest) =
      Adds-bind P (wrapping _ (perform env.server (delete_cos cos))) (λ _. delete_all env coss) h
        (Adds-one P h (delete_cos cos) first) (λ _ _. delete_all-Adds coss _ rest)

abbrev ArePruned : List ClusterObjectSet → ClusterObjectSet → Type 0
ArePruned owned cos = IsPruning owned (delete_cos cos)

archived-ArePruned :
    (owned coss : List ClusterObjectSet)
    → All (λ cos. Memᴰ cos owned) coss
    → All (ArePruned owned) (filter is_archived coss)
archived-ArePruned owned [] h = tt
archived-ArePruned owned (cos ∷ coss) (m, rest) = elim (Bool-cases (is_archived cos)) [
  | inl e ↦ rw e (pruning cos m e, archived-ArePruned owned coss rest)
  | inr e ↦ rw e (archived-ArePruned owned coss rest)
]

prune_archived-Adds :
    (env : Env) (cod : ClusterObjectDeployment) (owned : List ClusterObjectSet) (h : History)
    → Adds (IsPruning owned) h (prune_archived env cod owned h).1
unfolding prune_archived
prune_archived-Adds env cod owned h = delete_all-Adds env (IsPruning owned) _ h (
    All-take (ArePruned owned) _ (prunable env owned) (
      All-sort_by (ascending revision_of) (ArePruned owned) (filter is_archived owned)
        (archived-ArePruned owned owned (All-members owned))))

sync-Adds :
    (env : Env) (cod : ClusterObjectDeployment) (all owned : List ClusterObjectSet) (h : History)
    (r : Result String)
    → hash env.codec cod.spec.template ≡ r
    → Adds (IsSync env cod) h (sync_revision env cod all owned h).1
unfolding sync_revision wrapping wrap_result
sync-Adds env cod all owned h (ok v) e =
    Adds-imp (λ c i. (v, e, i)) (sync_revision-Adds env cod all owned v h e)
sync-Adds env cod all owned h (err x) e = rw e (Adds-nothing (IsSync env cod) h)

Result-cases : {A : Type 0} (r : Result A) → ((a : A) × (r ≡ ok a)) ⊎ ((e : Error) × (r ≡ err e))
Result-cases (ok a) = inl (a, refl)
Result-cases (err e) = inr (e, refl)

module _ (env : Env) (cod : ClusterObjectDeployment) where
  -- What the owned revisions are, once they are found.
  abbrev Finding : History → Result (List ClusterObjectSet) → Type 0
  Finding h r = (owned : List ClusterObjectSet) → r ≡ ok owned → IsFound env cod h owned

  record Before (h : History) (r : Result (List ClusterObjectSet) × History) : Type 0 where
    adopted : History
    adopts : Adds (IsAdoption env cod) h adopted
    syncs : Adds (IsSync env cod) adopted r.1
    found : Finding h r.0

  failed-Before :
      (h : History) (e : Error) (adopted h' : History)
      → Adds (IsAdoption env cod) h adopted
      → Adds (IsSync env cod) adopted h'
      → Before h (err e, h')
  failed-Before h e adopted h' adopts syncs = record {
    adopted = adopted;
    adopts = adopts;
    syncs = syncs;
    found = λ o q. absurd (cc q);
  }

  before_status-Before : (h : History) → Before h (before_status env cod h)
  unfolding before_status
  before_status-Before h =
      let A = IsAdoption env cod in
      let S = IsSync env cod in
      let group = cod.metadata.name in
      let listed = list_group_revisions-history env cod group h in
      let h₀ = (list_group_revisions env group h).1 in
      ends-bind (Before h) (list_group_revisions env group)
        (λ all.
          adopt_orphans env cod all >>= λ owned. sync_revision env cod all owned >> return owned)
        h
        (λ all listing.
          let finds = adopt_orphans-Finds env cod all h₀ in
          let (items, answered, sorted) = list_group_revisions-sorted env cod group h all listing in
          let h₁ = (adopt_orphans env cod all h₀).1 in
          let adopts = subst (λ k. Adds A k h₁) listed finds.0 in
          ends-bind (Before h) (adopt_orphans env cod all)
            (λ owned. sync_revision env cod all owned >> return owned) h₀
            (λ owned e.
              let syncs = sync-Adds env cod all owned h₁ _ refl in
              ends-bind (Before h) (sync_revision env cod all owned) (λ _. return owned) h₁
                (λ _ _. record {
                  adopted = h₁;
                  adopts = adopts;
                  syncs = syncs;
                  found = λ o q. record {
                    items = items;
                    listed = answered;
                    exactly =
                        sym (ok-injective owned o q)
                        ∙ finds.1 owned e
                        ∙ ap (filter (is_owned_or_orphan env cod)) sorted;
                  };
                })
                (λ x _. failed-Before h x h₁ _ adopts syncs))
            (λ x _. failed-Before h x h₁ h₁ adopts (Adds-nothing S h₁)))
        (λ x _.
          failed-Before h x h₀ h₀ (subst (λ k. Adds A h k) (sym listed) (Adds-nothing A h))
            (Adds-nothing S h₀))

  record After (server_apply : ServerSideApply) (owned : List ClusterObjectSet) (h h' : History)
      : Type 0 where
    archived : History
    archives : Adds (IsArchiving env cod server_apply owned) h archived
    prunes : Adds (IsPruning owned) archived h'

  -- The owned revisions are in the order of their numbers.
  found-IsSortedBy :
      (h : History) (owned : List ClusterObjectSet)
      → IsFound env cod h owned
      → IsSortedBy (ascending revision_of) owned
  found-IsSortedBy h owned f = subst (IsSortedBy (ascending revision_of)) (sym f.exactly) (
      filter-IsSortedBy (ascending revision_of) (is_owned_or_orphan env cod) _
        (sort_by-IsSortedBy (ascending revision_of) (ascending-IsTotalOrder revision_of) f.items))

  module _ (server_apply : ServerSideApply) (sets : SetsSentFields server_apply)
      (own : ExtractsOwnFields env.extract) where
    archive_superseded-IsArchiving :
        (owned : List ClusterObjectSet) (h : History)
        → IsSortedBy (ascending revision_of) owned
        → Adds (IsArchiving env cod server_apply owned) h (archive_superseded env owned h).1
    archive_superseded-IsArchiving owned h sorted =
        archive_superseded-All env (IsArchiving env cod server_apply owned) owned h
          (λ latest is_last available.
            All-imp
              (λ cos m ac x. (
                set_archived-Supersedes env owned latest cos ac sorted is_last available m x,
                set_archived-Archives server_apply env.extract (but_last owned) cos ac sets m x
                    (own cos field_owner ac x),
              ))
              (but_last owned) (All-members (but_last owned)))

    after_status-After :
        (owned : List ClusterObjectSet) (result : CtrlResult) (h : History)
        → IsSortedBy (ascending revision_of) owned
        → After server_apply owned h (after_status env cod owned result h).1
    unfolding after_status
    after_status-After owned result h sorted =
        let archives = archive_superseded-IsArchiving owned h sorted in
        let h₁ = (archive_superseded env owned h).1 in
        let prunes = prune_archived-Adds env cod owned h₁ in
        ends-bind (λ r. After server_apply owned h r.1) (archive_superseded env owned)
          (λ _. prune_archived env cod owned >> return result) h
          (λ _ _.
            ends-bind (λ r. After server_apply owned h r.1) (prune_archived env cod owned)
              (λ _. return result) h₁
              (λ _ _. record { archived = h₁; archives = archives; prunes = prunes })
              (λ x _. record { archived = h₁; archives = archives; prunes = prunes }))
          (λ x _. record {
            archived = h₁;
            archives = archives;
            prunes = Adds-nothing (IsPruning owned) h₁;
          })

    reconcile_cod-InOrder :
        (h : History) → InOrder env cod server_apply h (reconcile_cod env cod h).2
    unfolding reconcile_cod
    reconcile_cod-InOrder h =
        let b = before_status-Before h in
        let h₁ = (before_status env cod h).1 in
        elim (Result-cases (before_status env cod h).0) [
          | inl (owned, e) ↦
              let (updated, requeue_after) = update_status env cod owned (env.now h₁) in
              let f = b.found owned e in
              let a = after_status-After owned requeue_after h₁ (found-IsSortedBy h owned f) in
              rw (reconcile_cod, e)
                (record {
                  owned = owned;
                  found = inr f;
                  adopted = b.adopted;
                  synced = h₁;
                  archived = a.archived;
                  adopts = b.adopts;
                  syncs = b.syncs;
                  archives = a.archives;
                  prunes = a.prunes;
                })
          | inr (x, e) ↦
              rw (reconcile_cod, e)
                (record {
                  owned = [];
                  found = inl refl;
                  adopted = b.adopted;
                  synced = h₁;
                  archived = h₁;
                  adopts = b.adopts;
                  syncs = b.syncs;
                  archives = Adds-nothing (IsArchiving env cod server_apply []) h₁;
                  prunes = Adds-nothing (IsPruning []) h₁;
                })
        ]

    finish-Completes :
        (result : Result CtrlResult) (updated : ClusterObjectDeployment) (h h' : History)
        → InOrder env cod server_apply h h'
        → Completes env cod server_apply h (finish env cod result updated h').1
    unfolding finish perform
    finish-Completes result updated h h' o =
        elim (Bool-cases (env.status_equal cod.status updated.status)) [
          | inl e ↦ rw (finish, e) (record { before = h'; in_order = o; reports = inl refl })
          | inr e ↦
              rw (finish, e)
                (record { before = h'; in_order = o; reports = inr (updated, refl, e) })
        ]

-- A reconcile of a deployment that is found and not being deleted, where what is extracted of a
-- revision is the controller's own fields, and an apply that sends all of these changes what it
-- sends and nothing else, calls the server in this order: it adopts orphans; writes a revision with
-- the hash of the template; archives revisions that it owns; deletes archived ones of those; and last
-- writes the status, once and only if it has changed. The owned revisions are those of the listed ones
-- that are the deployment's or nobody's, and if they are not found then none is archived or deleted.
-- One that is archived is not the newest of them, which is available, and the update keeps all other
-- fields of its spec.
pub reconcile-Completes :
    (env : Env) (server_apply : ServerSideApply) (name : String) (h : History)
    (existing : ClusterObjectDeployment)
    → ExtractsOwnFields env.extract
    → SetsSentFields server_apply
    → env.get h name ≡ ok (some existing)
    → is_zero existing.metadata.deletion_timestamp ≡ true
    → Completes env existing server_apply h (reconcile env name h).1
unfolding reconcile reconcile_found
reconcile-Completes env server_apply name h existing own sets found live =
    rw (found, live)
      (finish-Completes env existing server_apply sets own (reconcile_cod env existing h).0
        (reconcile_cod env existing h).1 h (reconcile_cod env existing h).2
        (reconcile_cod-InOrder env existing server_apply sets own h))
