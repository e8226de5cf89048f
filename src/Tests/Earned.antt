-- ===== src/Tests/Earned.antt =====
-- A run of the controller of revisions that finds the revision complete.
use orb_operator.Base.{true, none, some, [], ◌∷◌, ◌≡◌, refl, Memᴰ}
use orb_operator.Errors.{Result, ok}
use orb_operator.Api.{ClusterObjectSet, active, condition_type_available}
use orb_operator.Kube.{CtrlResult, no_requeue}
use orb_operator.Controller.Server.{update_cos_status, History}
use orb_operator.Controller.Cos.Env.{finalizer_key}
use orb_operator.Controller.Cos.Handler.{reconcile_cos}
use orb_operator.Controller.Cos.Handler.Earned.{Earned, reconcile_cos-Earned}
use orb_operator.Controller.Cos.Handler.Answers.{reconcile_cos-answers}
use orb_operator.Tests.Fixtures.{conditions, conditions-SetsByType, cos}
use orb_operator.Tests.Handler.{env, engines_for-Bounds}

-- An active revision that has the finalizer.
abbrev rolling : ClusterObjectSet
rolling =
    let c = cos "app-2" 2 active [] in
    record c { metadata = record c.metadata { finalizers = finalizer_key ∷ [] } }

abbrev rolled : Result CtrlResult × History
rolled = elim (reconcile_cos (env true) rolling []) [ none ↦ (ok no_requeue, []) | some r ↦ r ]

-- The first status that is written.
abbrev reported_by : History → ClusterObjectSet
reported_by [] = rolling
reported_by (update_cos_status c ∷ calls) = c
reported_by (_ ∷ calls) = reported_by calls

rolling-rolled : reconcile_cos (env true) rolling [] ≡ some rolled
unfolding reconcile_cos
rolling-rolled = refl

rolled-is_reported : Memᴰ (update_cos_status (reported_by rolled.1)) rolled.1
unfolding reconcile_cos
rolled-is_reported = Memᴰ.tail (Memᴰ.tail (Memᴰ.tail (Memᴰ.tail (Memᴰ.head refl))))

rolled-is_available :
    conditions.is_status_condition_true
      (reported_by rolled.1).status.conditions
      condition_type_available
    ≡ true
unfolding reconcile_cos
rolled-is_available = refl

reconcile_cos-Earned_example : Earned (env true) rolling [] (reported_by rolled.1)
reconcile_cos-Earned_example =
    reconcile_cos-Earned (env true) conditions-SetsByType (λ o. engines_for-Bounds true) rolling
      (reported_by rolled.1) [] rolled rolled.1 rolling-rolled refl rolled-is_reported
      rolled-is_available

reconcile_cos-answers_example :
    (r : Result CtrlResult × History) × (reconcile_cos (env true) rolling [] ≡ some r)
reconcile_cos-answers_example =
    reconcile_cos-answers (env true) (λ o rev opts w q. absurd (cc (q.0))) rolling []
