-- ===== src/Tests/Lifetime.antt =====
-- Runs of the controller of revisions to their end.
use orb_operator.Controller.Cos.Env.{Env}
use orb_operator.Object.{ObjectIdentity}
use orb_operator.Controller.Cos.Handler.Releasing.{IsDone}
use orb_operator.Status.Cos.Update.{apply, from_teardown}
use orb_operator.Tests.Fixtures.{conditions}
use orb_operator.Base.{ℕ, String, Bool, List, ◌++◌, true, none, some, [], ◌∷◌, ◌≡◌, refl, ap, Memᴰ}
use orb_operator.Errors.{Result, ok}
use orb_operator.Api.{ClusterObjectSet}
use orb_operator.Api.Rules.{IsSetOnce, IsHashSetOnce}
use orb_operator.Kube.{CtrlResult, no_requeue}
use orb_operator.Controller.Server.{Call, patch_cos, update_cos_status, History}
use orb_operator.Controller.Cos.Handler.{reconcile_cos, do_teardown, teardown_objects, is_torn_down}
use orb_operator.Controller.Cos.Handler.Progress.{IsWilling, teardown_objects-ends}
use orb_operator.Controller.Cos.Handler.Lifetime.{same, run, Becomes-IsSetOnce}
use orb_operator.Controller.Cos.Env.{finalizer_key}
use orb_operator.Controller.Cos.Handler.Orphaned.{HandsOver, reconcile_cos-HandsOver}
use orb_operator.Tests.Handler.{
  poll_once-PollsUntil, env, going, engines_for-Bounds, finalizers-RemovesFinalizer,
  going-HasUniqueNames, attempted,
}

-- An archived revision that was complete once.
abbrev completed : ClusterObjectSet
completed = record going {
  status = record going.status { resolved_content_hash = "0a0a"; completed_at = some 30 };
}

abbrev finished : Result CtrlResult × History
finished = elim (reconcile_cos (env true) completed []) [ none ↦ (ok no_requeue, []) | some r ↦ r ]

-- The first status that is written.
abbrev written_by : History → ClusterObjectSet
written_by [] = completed
written_by (update_cos_status cos ∷ calls) = cos
written_by (_ ∷ calls) = written_by calls

completed-finished : reconcile_cos (env true) completed [] ≡ some finished
unfolding reconcile_cos
completed-finished = refl

status-is_written : Memᴰ (update_cos_status (written_by finished.1)) finished.1
unfolding reconcile_cos
status-is_written = Memᴰ.tail (Memᴰ.tail (Memᴰ.head refl))

Becomes-IsSetOnce_example :
    IsHashSetOnce "0a0a" (written_by finished.1).status.resolved_content_hash
    × IsSetOnce (some 30) (written_by finished.1).status.completed_at
Becomes-IsSetOnce_example =
    Becomes-IsSetOnce (env true) finalizers-RemovesFinalizer (λ o. engines_for-Bounds true)
      completed.status (written_by finished.1).status
      (run completed (written_by finished.1) [] finished finished.1 same going-HasUniqueNames
        completed-finished refl status-is_written)

-- A cache that shows what the last patch left, and before it the finalizer.
abbrev after_call : ClusterObjectSet → Call → ClusterObjectSet
after_call shown (patch_cos before after) = after
after_call shown _ = shown

abbrev shown_by : ClusterObjectSet → History → ClusterObjectSet
shown_by shown [] = shown
shown_by shown (c ∷ h) = shown_by (after_call shown c) h

shown_by-patch :
    (shown before after : ClusterObjectSet) (h : History)
    → shown_by shown (h ++ (patch_cos before after ∷ [])) ≡ after
shown_by-patch shown before after [] = refl
shown_by-patch shown before after (c ∷ h) = shown_by-patch (after_call shown c) before after h

abbrev cached : Env ObjectIdentity (List ℕ) String Bool Bool
cached = record (env true) { get_later = λ h name n. ok (some (shown_by going h)) }

cached-IsWilling : IsWilling cached "app-1"
cached-IsWilling = record {
  accepts = λ h c. refl;
  polls = λ condition q. ap attempted q;
  removed = λ h before after named gone. rw (shown_by-patch going before after h, gone) refl;
}

going-torn_down : is_torn_down (do_teardown cached going []).result ≡ true
unfolding do_teardown
going-torn_down = refl

going-without_error : (do_teardown cached going []).error ≡ none
unfolding do_teardown
going-without_error = refl

teardown_objects-ends_example :
    let o = do_teardown cached going [] in
    ((teardown_objects cached going []).0 ≡ ok no_requeue)
    × IsDone cached o
        (apply conditions o.cos (from_teardown o.cos o.result o.error 100))
        (teardown_objects cached going []).1
teardown_objects-ends_example =
    teardown_objects-ends cached going [] cached-IsWilling finalizers-RemovesFinalizer
      poll_once-PollsUntil refl going-without_error going-torn_down

-- A deleted revision whose objects are to stay.
abbrev orphaned : ClusterObjectSet
orphaned = record going {
  metadata = record going.metadata {
    finalizers = finalizer_key ∷ "orphan" ∷ [];
    deletion_timestamp = some 50;
  };
}

reconcile_cos-HandsOver_example :
    (r : Result CtrlResult × History) × (reconcile_cos (env true) orphaned [] ≡ some r)
    × HandsOver (env true) orphaned [] r
reconcile_cos-HandsOver_example =
    reconcile_cos-HandsOver (env true) (λ fs f. refl) finalizers-RemovesFinalizer
      poll_once-PollsUntil orphaned [] refl refl refl
