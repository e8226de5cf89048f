-- ===== src/Tests/Cod.antt =====
-- Runs of the controller of deployments.
use orb_operator.Base.{
  ℕ, ◌+◌, ◌<◌, true, false, none, some, List, [], ◌∷◌, ◌≡◌, ◌↔◌, refl, All, arith, filter, Memᴰ,
}
use orb_operator.Base.Int.{pos}
use orb_operator.Errors.{ok, err, text}
use orb_operator.Api.{
  ClusterObjectSet, ClusterObjectDeployment, active, archived, condition_false, condition_true,
  condition_type_available,
}
use orb_operator.ApplyConfig.{cluster_object_set}
use orb_operator.Template.{Codec, hash}
use orb_operator.Status.Cod.Progress.{evaluate_deadline, last_milestone}
use orb_operator.Status.Cod.Progress.Deadline.{
  evaluate_deadline_requeue, evaluate_deadline_overflow,
}
use orb_operator.Controller.Server.{Server}
use orb_operator.Controller.Server.Effects.{Adds}
use orb_operator.Controller.Cod.Revision.{next_revision_number}
use orb_operator.Controller.Cod.Revision.Number.{
  next_revision_number-fresh, next_revision_number_wraps,
}
use orb_operator.Controller.Cod.Handler.{
  prune_archived, archive_superseded, update_status, sync_revision,
}
use orb_operator.Controller.Cod.Env.{Env}
use orb_operator.Controller.Cod.Handler.Pruning.{Prunes, prune_archived-Prunes}
use orb_operator.Controller.Cod.Handler.Archiving.{IsSuperseding, archive_superseded-IsSuperseding}
use orb_operator.Controller.Cod.Handler.Summary.{IsOneAvailable, update_status_available, is_active}
use orb_operator.Controller.Cod.Handler.Syncing.{IsRevisionCall, sync_revision-Adds}
use orb_operator.Tests.Fixtures.{conditions, conditions-SetsByType, available_condition, cos, cod}

-- A server that refuses the third call.
abbrev server : Server
server (_ ∷ _ ∷ []) call = some (text "timeout")
server _ call = none

abbrev pub codec : Codec
codec = record {
  marshal_template = λ t. ok (1 ∷ []);
  marshal_spec = λ s. ok (2 ∷ []);
  unmarshal_spec = λ b. ok (record { collision_protection = none; phases = [] });
  sha256 = λ b. 10 ∷ 11 ∷ 12 ∷ 13 ∷ 14 ∷ [];
  hex = λ b. "0a";
}

abbrev pub env : Env
env = record {
  server = server;
  get = λ h name. ok (some (cod (some 1) (some 5)));
  list_group = λ h group. ok [];
  now = λ h. 100;
  extract = λ c owner. ok (cluster_object_set c.metadata.name);
  codec = codec;
  conditions = conditions;
  get_controller_of = λ m. none;
  to_unstructured = λ ac. ok tt;
  config_equal = λ a b. true;
  status_equal = λ a b. false;
  deadline_unit = pos 60000000000;
}

abbrev pub app : ClusterObjectDeployment
app = cod (some 1) (some 5)

abbrev pub ready : ClusterObjectSet
ready = cos "app-4" 4 active (available_condition ∷ [])

abbrev pub starting : ClusterObjectSet
starting = cos "app-5" 5 active []

abbrev old_revisions : List ClusterObjectSet
old_revisions =
    cos "app-1" 1 archived [] ∷ cos "app-2" 2 archived [] ∷ cos "app-3" 3 archived [] ∷ []

prune_archived-Prunes_example : Prunes 1 old_revisions [] (prune_archived env app old_revisions [])
prune_archived-Prunes_example = prune_archived-Prunes env app old_revisions []

-- The revision before `ready`.
abbrev pub superseded : ClusterObjectSet
superseded = cos "app-3" 3 active []

archive_superseded-IsSuperseding_example :
    Adds
      (IsSuperseding env (superseded ∷ ready ∷ []))
      []
      (archive_superseded env (superseded ∷ ready ∷ []) []).1
archive_superseded-IsSuperseding_example =
    archive_superseded-IsSuperseding env (superseded ∷ ready ∷ []) [] ((refl, tt), (tt, tt))

update_status_available_example :
    (conditions.is_status_condition_true
        (update_status env app (ready ∷ []) 100).0.status.conditions
        condition_type_available
      ≡ true)
    ↔ IsOneAvailable conditions (filter is_active (ready ∷ []))
update_status_available_example =
    update_status_available env app (ready ∷ []) 100 conditions-SetsByType

hash_app : hash codec app.spec.template ≡ ok "0a0a0a0a"
unfolding hash
hash_app = refl

sync_revision-Adds_example :
    Adds (IsRevisionCall app "0a0a0a0a") [] (sync_revision env app [] [] []).1
sync_revision-Adds_example = sync_revision-Adds env app [] [] "0a0a0a0a" [] hash_app

pub last_milestone-starting : last_milestone starting ≡ 20
unfolding last_milestone
last_milestone-starting = refl

evaluate_deadline_requeue_example :
    (n : ℕ) × ((evaluate_deadline app (some starting) 100 (pos 60)).1.requeue_after ≡ pos n)
    × ((evaluate_deadline app (some starting) (100 + n) (pos 60)).0.status ≡ condition_false)
    × ((k : ℕ)
        → k < n
        → (evaluate_deadline app (some starting) (100 + k) (pos 60)).0.status ≡ condition_true)
evaluate_deadline_requeue_example =
    evaluate_deadline_requeue app starting 100 5 60 refl refl (omega arith)
      (rw last_milestone-starting (omega arith)) (rw last_milestone-starting (omega arith))

evaluate_deadline_overflow_example :
    (evaluate_deadline (cod none (some 200000000)) (some starting) 100 (pos 60000000000)).0.status
    ≡ condition_false
evaluate_deadline_overflow_example =
    evaluate_deadline_overflow (cod none (some 200000000)) starting 100 200000000 refl refl
      (omega arith) (omega arith) (rw last_milestone-starting (omega arith))

next_revision_number-fresh_example :
    (0 < next_revision_number (starting ∷ ready ∷ []))
    × (next_revision_number (starting ∷ ready ∷ []) < 4294967296)
    × All
        (λ (c : ClusterObjectSet). c.spec.revision < next_revision_number (starting ∷ ready ∷ []))
        (starting ∷ ready ∷ [])
next_revision_number-fresh_example =
    next_revision_number-fresh (starting ∷ ready ∷ []) (omega arith, (omega arith, tt))

abbrev last_possible : ClusterObjectSet
last_possible = cos "app-last" 4294967295 active []

next_revision_number_wraps_example : next_revision_number (ready ∷ last_possible ∷ []) ≡ 0
next_revision_number_wraps_example =
    next_revision_number_wraps (ready ∷ last_possible ∷ []) last_possible
      (omega arith, (omega arith, tt)) (Memᴰ.tail (Memᴰ.head refl)) refl

-- Revisions cannot be listed.
abbrev failing : Env
failing = record env { list_group = λ h group. err (text "timeout") }
