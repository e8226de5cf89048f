-- ===== src/Rollout/Run/Ends.antt =====
-- The example can always go on to its end.
use mathlib.Core.List.{append-nil}
use orb_operator.Base.{
  ◌≡◌, ◌≢◌, refl, ap, sym, ◌∙◌, subst, true, false, not, not-true, not-false, none, some, List, [],
  ◌∷◌, ◌++◌, Bool-cases, inl, inr, if-elim, is_some, All,
}
use orb_operator.Rollout.{
  Step, Msg, key, step_done, refreshed, Shown, update, press_enter, execute_current, step_ended,
  finish_step, stop_waiting, awaited,
}
use orb_operator.Errors.{ok, Error}
use orb_operator.Rollout.Run.{
  Running, receive, answered, Arrives, typed, seen, ended, Leads, here, next, Reached, Progress,
  idle, running, waits, failed, actions, program_at, all_steps, current_lem, length-lt,
}
use orb_operator.Rollout.Run.Points.{Reached-IsAt, passed, ended_now}
use orb_operator.Rollout.Run.Order.{Reached-IsInOrder}

-- Objects for which the step's `waitFor` is true, if it has one.
pub record CanPass (s : Step) : Type 0 where
  pub shown : Shown
  pub awaited_then : is_some s.wait_for ≡ true → awaited (some s) shown ≡ true

Leads-trans : {a b c : Running} → Leads a b → Leads b c → Leads a c
Leads-trans p here = p
Leads-trans p (next q arrives e) = next (Leads-trans p q) arrives e

Leads-one :
    {r r' r'' : Running} {msg : Msg} → Arrives r msg r' → receive r' msg ≡ some r'' → Leads r r''
Leads-one arrives e = next here arrives e

enter_idle :
    (before rest : List Step) (s : Step) (shown : Shown)
    → receive (program_at (idle before (s ∷ rest)) shown) (key "enter")
      ≡ some (program_at (running before s rest) shown)
unfolding receive update press_enter
enter_idle before rest s shown =
    rw (length-lt before rest s, execute_current, current_lem before rest s) refl

enter_failed :
    (before rest : List Step) (s : Step) (shown : Shown) (e : _)
    → receive (program_at (failed before s rest e) shown) (key "enter")
      ≡ some (program_at (running before s rest) shown)
unfolding receive update press_enter
enter_failed before rest s shown e = rw (execute_current, current_lem before rest s) refl

step_done_now :
    (before rest : List Step) (s : Step) (shown : Shown)
    → is_some s.wait_for ≡ false
    → receive (ended_now before rest s shown) (step_done none)
      ≡ some (program_at (idle (before ++ (s ∷ [])) rest) shown)
unfolding receive update step_ended finish_step
step_done_now before rest s shown h = rw (current_lem before rest s) (
    if-elim
      (λ o.
        answered (ended_now before rest s shown) o
        ≡ some (program_at (idle (before ++ (s ∷ [])) rest) shown))
      (not (is_some s.wait_for)) _ _ (λ _. ap (λ r. some r) (passed before rest s shown))
      (λ q. absurd (cc (not-false _ q, h))))

step_done_waits :
    (before rest : List Step) (s : Step) (shown : Shown) (h : is_some s.wait_for ≡ true)
    → receive (ended_now before rest s shown) (step_done none)
      ≡ some (program_at (waits before s rest h) shown)
unfolding receive update step_ended finish_step
step_done_waits before rest s shown h = rw (current_lem before rest s) (
    if-elim
      (λ o.
        answered (ended_now before rest s shown) o
        ≡ some (program_at (waits before s rest h) shown))
      (not (is_some s.wait_for)) _ _ (λ q. absurd (cc (not-true _ q, h))) (λ _. refl))

refreshed_waits :
    (before rest : List Step) (s : Step) (w : is_some s.wait_for ≡ true) (shown new : Shown)
    → awaited (some s) new ≡ true
    → receive (program_at (waits before s rest w) shown) (refreshed (ok new))
      ≡ some (program_at (idle (before ++ (s ∷ [])) rest) new)
unfolding receive update stop_waiting
refreshed_waits before rest s w shown new h =
    rw (length-lt before rest s, current_lem before rest s, h)
      (ap (λ r. some r) (passed before rest s new))

-- A step that waits is passed by a refresh that shows what it waits for.
module _ (before rest : List Step) (s : Step) (pass : CanPass s) where
  abbrev Passes : Running → Type 0
  Passes r = (shown : Shown) × Leads r (program_at (idle (before ++ (s ∷ [])) rest) shown)

  waits-Passes :
      (shown : Shown) (h : is_some s.wait_for ≡ true)
      → Passes (program_at (waits before s rest h) shown)
  waits-Passes shown h = (
    pass.shown,
    Leads-one (seen pass.shown)
        (refreshed_waits before rest s h shown pass.shown (pass.awaited_then h)),
  )

  running-Passes : (shown : Shown) → Passes (program_at (running before s rest) shown)
  running-Passes shown = elim (Bool-cases (is_some s.wait_for)) [
    | inl h ↦
        let (new, leads) = waits-Passes shown h in
        (
          new,
          Leads-trans
              (Leads-one (ended s.action [] none refl) (step_done_waits before rest s shown h))
              leads,
        )
    | inr h ↦ (shown, Leads-one (ended s.action [] none refl) (step_done_now before rest s shown h))
  ]

  idle-Passes : (shown : Shown) → Passes (program_at (idle before (s ∷ rest)) shown)
  idle-Passes shown =
      let (new, leads) = running-Passes shown in
      (new, Leads-trans (Leads-one (typed "enter") (enter_idle before rest s shown)) leads)

  failed-Passes : (e : Error) (shown : Shown) → Passes (program_at (failed before s rest e) shown)
  failed-Passes e shown =
      let (new, leads) = running-Passes shown in
      (new, Leads-trans (Leads-one (typed "enter") (enter_failed before rest s shown e)) leads)

-- All steps are behind the program.
record Finishes (r : Running) : Type 0 where
  behind : List Step
  shown : Shown
  leads : Leads r (program_at (idle behind []) shown)

idle-Finishes :
    (before rest : List Step) (shown : Shown)
    → All CanPass rest
    → Finishes (program_at (idle before rest) shown)
idle-Finishes before [] shown pass = record { behind = before; shown = shown; leads = here }
idle-Finishes before (s ∷ rest) shown (first, more) =
    let (new, leads) = idle-Passes before rest s first shown in
    let f = idle-Finishes (before ++ (s ∷ [])) rest new more in
    record { behind = f.behind; shown = f.shown; leads = Leads-trans leads f.leads }

then-Finishes :
    (before rest : List Step) (s : Step) (r : Running)
    → All CanPass rest
    → (shown : Shown) × Leads r (program_at (idle (before ++ (s ∷ [])) rest) shown)
    → Finishes r
then-Finishes before rest s r pass (shown, leads) =
    let f = idle-Finishes (before ++ (s ∷ [])) rest shown pass in
    record { behind = f.behind; shown = f.shown; leads = Leads-trans leads f.leads }

All-right : (before rest : List Step) → All CanPass (before ++ rest) → All CanPass rest
All-right [] rest h = h
All-right (x ∷ before) rest h = All-right before rest h.1

point-Finishes :
    (p : Progress) (shown : Shown) → All CanPass (all_steps p) → Finishes (program_at p shown)
point-Finishes (idle before after) shown pass =
    idle-Finishes before after shown (All-right before after pass)
point-Finishes (running before s rest) shown pass =
    let (first, more) = All-right before (s ∷ rest) pass in
    then-Finishes before rest s _ more (running-Passes before rest s first shown)
point-Finishes (waits before s rest h) shown pass =
    let (first, more) = All-right before (s ∷ rest) pass in
    then-Finishes before rest s _ more (waits-Passes before rest s first shown h)
point-Finishes (failed before s rest e) shown pass =
    let (first, more) = All-right before (s ∷ rest) pass in
    then-Finishes before rest s _ more (failed-Passes before rest s first e shown)

-- From every state that a run of at least one step reaches while no refresh fails, where the objects
-- can come to be as each step awaits them, the run can go on to a state in which the program says
-- that it is done, and where nothing is in flight and all actions are completed.
pub Reached-ends :
    {steps : List Step} {r : Running}
    → steps ≢ []
    → All CanPass steps
    → Reached steps r
    → (r' : Running) × Leads r r'
      × (r'.model.is_done ≡ true)
      × (r'.in_flight ≡ [])
      × (r'.completed ≡ actions steps)
Reached-ends {steps} {r} h pass reached =
    let at = Reached-IsAt h reached in
    let f = point-Finishes at.point at.shown (subst (All CanPass) (sym at.same_steps) pass) in
    let leads =
      subst (λ x. Leads x (program_at (idle f.behind []) f.shown)) (sym at.program) f.leads in
    let order = Reached-IsInOrder h (Leads-trans reached leads) in
    (
      program_at (idle f.behind []) f.shown,
      leads,
      refl,
      refl,
      sym (
          order.order
          ∙ ap (λ l. (actions f.behind ++ []) ++ l) (order.ended refl)
          ∙ append-nil (actions f.behind ++ [])
          ∙ append-nil (actions f.behind)),
    )
