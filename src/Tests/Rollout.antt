-- ===== src/Tests/Rollout.antt =====
-- Runs of the example.
use orb_operator.Base.{
  ℕ, zero, suc, ◌≡◌, ◌≢◌, ◌↔◌, refl, true, false, none, some, List, [], ◌∷◌, arith, is_some,
}
use orb_operator.Base.Int.{pos, leb_ℤ}
use orb_operator.Errors.{ok, text}
use orb_operator.Api.{ClusterObjectSet, active, condition_false, condition_true}
use orb_operator.Status.Cod.Progress.{evaluate_deadline}
use orb_operator.Rollout.{Step, Shown, create_v1, patch, new_model, update, step_done}
use orb_operator.Rollout.Run.{Running, typed, ended, Reached, Leads, here, next, receive, actions}
use orb_operator.Rollout.Run.Order.{IsInOrder, Reached-IsInOrder, Reached-answers}
use orb_operator.Rollout.Run.Ends.{Reached-ends}
use orb_operator.Rollout.Deadline.{minute, deadline_remaining}
use orb_operator.Rollout.Deadline.Agrees.{deadline_remaining-agrees}
use orb_operator.Rollout.Cleanup.{cleanup, GoneAt, cleanup_ends, any_in_group}
use orb_operator.Tests.Fixtures.{cos}
use orb_operator.Tests.Cod.{starting, app, last_milestone-starting}

abbrev nothing_shown : Shown
nothing_shown = record { cos = none; cod = none }

abbrev first_step : Step
first_step = record {
  description = "Create";
  action = create_v1;
  wait_for = some (λ s. is_some s.cos);
  wait_msg = "Waiting";
}

abbrev two_steps : List Step
two_steps =
    first_step
    ∷ record {
      description = "Open";
      action = patch "cm" "gate" "open";
      wait_for = none;
      wait_msg = "";
    }
    ∷ []

two_steps-ne : two_steps ≢ []
two_steps-ne e = absurd (cc e)

-- The first action has begun.
abbrev first_begun : Running
first_begun = record {
  model = record {
    steps = two_steps;
    current_step = 0;
    shown = nothing_shown;
    waiting = false;
    executing = true;
    error = none;
    is_done = false;
  };
  in_flight = create_v1 ∷ [];
  completed = [];
}

Reached-first_begun : Reached two_steps first_begun
unfolding receive update new_model
Reached-first_begun = next here (typed "enter") refl

Reached-IsInOrder_example : IsInOrder two_steps first_begun
Reached-IsInOrder_example = Reached-IsInOrder two_steps-ne Reached-first_begun

-- It has ended with an error.
abbrev first_ended : Running
first_ended = record first_begun { in_flight = [] }

Reached-answers_example :
    (r : Running) × (receive first_ended (step_done (some (text "timeout"))) ≡ some r)
Reached-answers_example =
    Reached-answers two_steps-ne Reached-first_begun
      (ended create_v1 [] (some (text "timeout")) refl)

abbrev revision_shown : Shown
revision_shown = record { cos = some starting; cod = none }

Reached-ends_example :
    (r : Running) × Leads first_begun r
    × (r.model.is_done ≡ true)
    × (r.in_flight ≡ [])
    × (r.completed ≡ actions two_steps)
Reached-ends_example =
    Reached-ends two_steps-ne
      (
        record { shown = revision_shown; awaited_then = λ _. refl },
        (record { shown = revision_shown; awaited_then = λ e. absurd (cc e) }, tt),
      )
      Reached-first_begun

deadline_remaining-agrees_example :
    ((leb_ℤ (deadline_remaining (record { cos = some starting; cod = some app }) 100) (pos 0)
        ≡ true)
      ↔ ((evaluate_deadline app (some starting) 100 (pos minute)).0.status ≡ condition_false))
    × ((evaluate_deadline app (some starting) 100 (pos minute)).0.status ≡ condition_true
        → (evaluate_deadline app (some starting) 100 (pos minute)).1.requeue_after
          ≡ deadline_remaining (record { cos = some starting; cod = some app }) 100)
deadline_remaining-agrees_example =
    deadline_remaining-agrees app starting 100 5 refl refl (omega arith)
      (rw last_milestone-starting (omega arith)) (rw last_milestone-starting (omega arith))

-- A revision of the group is listed twice.
abbrev leaving : ClusterObjectSet
leaving =
    let c = cos "gated-rollout-1" 1 active [] in
    record c { spec = record c.spec { group = "gated-rollout" } }

abbrev listed_at : ℕ → List ClusterObjectSet
listed_at zero = leaving ∷ []
listed_at (suc zero) = leaving ∷ []
listed_at (suc (suc _)) = []

gone_third : GoneAt (λ k. ok (listed_at k)) 2
unfolding any_in_group
gone_third = record { items = listed_at; listed = λ k h. refl; gone = refl }

cleanup_ends_example : cleanup none (λ k. ok (listed_at k)) 3 ≡ some none
cleanup_ends_example = cleanup_ends (λ k. ok (listed_at k)) 2 3 gone_third (omega arith)
