-- ===== src/Rollout/Run/Order.antt =====
-- What holds throughout a run of the example in which no refresh fails.
use mathlib.Core.List.{append_assoc, append-nil}
use orb_operator.Base.{
  ◌≤◌, ◌≡◌, ◌≢◌, refl, ap, sym, ◌∙◌, subst, true, some, List, [], ◌∷◌, ◌++◌, length, arith,
}
use orb_operator.Rollout.{Action, Step, Msg, Shown}
use orb_operator.Rollout.Run.{
  Running, receive, Arrives, Reached, Progress, idle, running, waits, failed, actions, program_at,
  all_steps, actions-append,
}
use orb_operator.Rollout.Run.Points.{IsAt-Answers, Reached-IsAt}

-- The program does not panic: whatever message arrives in a run of at least one step, in which no
-- refresh failed, is answered.
pub Reached-answers :
    {steps : List Step} {r r' : Running} {msg : Msg}
    → steps ≢ []
    → Reached steps r
    → Arrives r msg r'
    → (r'' : Running) × (receive r' msg ≡ some r'')
Reached-answers h reached arrives =
    let a = IsAt-Answers (Reached-IsAt h reached) arrives in (a.after, a.answered_by)

-- The actions that ended without an error, the one in flight, and those to come are the steps'
-- actions in order.
pub record IsInOrder (steps : List Step) (r : Running) : Type 0 where
  pub to_come : List Action
  pub order : actions steps ≡ (r.completed ++ r.in_flight) ++ to_come
  pub one : length r.in_flight ≤ 1
  pub ended : r.model.is_done ≡ true → (r.in_flight ++ to_come) ≡ []

program_at-IsInOrder : (p : Progress) (shown : Shown) → IsInOrder (all_steps p) (program_at p shown)
program_at-IsInOrder (idle before []) shown = record {
  to_come = [];
  order =
      ap actions (append-nil before)
      ∙ sym (append-nil (actions before))
      ∙ sym (append-nil (actions before ++ []));
  one = omega arith;
  ended = λ _. refl;
}
program_at-IsInOrder (idle before (s ∷ rest)) shown = record {
  to_come = actions (s ∷ rest);
  order =
      actions-append before (s ∷ rest)
      ∙ ap (λ l. l ++ actions (s ∷ rest)) (sym (append-nil (actions before)));
  one = omega arith;
  ended = λ e. absurd (cc e);
}
program_at-IsInOrder (running before s rest) shown = record {
  to_come = actions rest;
  order =
      actions-append before (s ∷ rest)
      ∙ sym (append_assoc (actions before) (s.action ∷ []) (actions rest));
  one = omega arith;
  ended = λ e. absurd (cc e);
}
program_at-IsInOrder (waits before s rest h) shown = record {
  to_come = actions rest;
  order =
      actions-append before (s ∷ rest)
      ∙ sym (append_assoc (actions before) (s.action ∷ []) (actions rest))
      ∙ ap (λ l. l ++ actions rest) (sym (append-nil (actions before ++ (s.action ∷ []))));
  one = omega arith;
  ended = λ e. absurd (cc e);
}
program_at-IsInOrder (failed before s rest e) shown = record {
  to_come = actions (s ∷ rest);
  order =
      actions-append before (s ∷ rest)
      ∙ ap (λ l. l ++ actions (s ∷ rest)) (sym (append-nil (actions before)));
  one = omega arith;
  ended = λ q. absurd (cc q);
}

-- In a run of at least one step in which no refresh fails, each action is completed once and in
-- the order of the steps: those completed, then at most one in flight, then those to come. When the
-- program says that it is done, none is left.
pub Reached-IsInOrder :
    {steps : List Step} {r : Running} → steps ≢ [] → Reached steps r → IsInOrder steps r
Reached-IsInOrder {steps} h reached =
    let at = Reached-IsAt h reached in
    subst (IsInOrder steps) (sym at.program) (
      subst (λ l. IsInOrder l (program_at at.point at.shown)) at.same_steps
        (program_at-IsInOrder at.point at.shown))
