-- ===== src/Rollout/Run/Points.antt =====
-- Each message takes a run from one point to another.
use mathlib.Core.List.{append_assoc, append-nil}
use orb_operator.Base.{
  String, Bool, not, true, false, ◌≡◌, refl, ap, ◌∙◌, sym, Option, none, some, List, [], ◌∷◌, ◌++◌,
  String_eq, ◌==◌, if◌then◌else◌, is_some, if-elim, not-false, subst, ◌≢◌, Bool-cases, inl, inr,
}
use orb_operator.Errors.{Error, ok}
use orb_operator.Rollout.{
  Action, Shown, Step, Model, Msg, key, step_done, refreshed, tick, Cmd, new_model, update, awaited,
  press_enter, execute_current, step_ended, finish_step, advance, stop_waiting,
}
use orb_operator.Rollout.Run.{
  Running, receive, Arrives, typed, ticked, seen, ended, Reached, Leads, here, next, initial,
  Progress, idle, running, waits, failed, actions, base, program_at, all_steps, IsAt, current_lem,
  length-lt, length-last, actions-append, is_last, answered, completes,
}

if_bool : (b c : Bool) → b ≡ c → (if b then true else false) ≡ c
if_bool true c p = p
if_bool false c p = p

-- Past a step.
advanced :
    (before rest : List Step) (s : Step) (shown : Shown)
    → advance (base before (s ∷ rest) shown) ≡ base (before ++ (s ∷ [])) rest shown
unfolding advance
advanced before rest s shown = λ i. record {
  steps = sym (append_assoc before (s ∷ []) rest) i;
  current_step = sym (length-last before s) i;
  shown = shown;
  waiting = false;
  executing = false;
  error = none;
  is_done = if_bool _ _ (is_last before rest s) i;
}

-- The program just after a step, and all steps then.
pub passed :
    (before rest : List Step) (s : Step) (shown : Shown)
    → ◌≡◌ {A = Running}
        (record {
          model = advance (base before (s ∷ rest) shown);
          in_flight = [];
          completed = actions before ++ (s.action ∷ []);
        })
        (program_at (idle (before ++ (s ∷ [])) rest) shown)
passed before rest s shown = λ i. record {
  model = advanced before rest s shown i;
  in_flight = [];
  completed = sym (actions-append before (s ∷ [])) i;
}

-- What follows a message: the next program, and where the run is then.
pub record Answers (steps : List Step) (answer : Option Running) : Type 0 where
  pub after : Running
  pub answered_by : answer ≡ some after
  pub is_at : IsAt steps after

stays :
    (p : Progress) (shown : Shown) (answer : Option Running)
    → answer ≡ some (program_at p shown)
    → Answers (all_steps p) answer
stays p shown answer e = record {
  after = program_at p shown;
  answered_by = e;
  is_at = record { point = p; shown = shown; program = refl; same_steps = refl };
}

passes :
    (before rest : List Step) (s : Step) (shown : Shown) (answer : Option Running)
    → answer
      ≡ some (record {
        model = advance (base before (s ∷ rest) shown);
        in_flight = [];
        completed = actions before ++ (s.action ∷ []);
      })
    → Answers (before ++ (s ∷ rest)) answer
passes before rest s shown answer e = record {
  after = program_at (idle (before ++ (s ∷ [])) rest) shown;
  answered_by = e ∙ ap (λ r. some r) (passed before rest s shown);
  is_at = record {
    point = idle (before ++ (s ∷ [])) rest;
    shown = shown;
    program = refl;
    same_steps = append_assoc before (s ∷ []) rest;
  };
}

-- A key is answered by the program itself, unless it is the key that goes on.
on_key :
    (steps : List Step) (r : Running) (k : String)
    → ((answer : Option Running) → answer ≡ some r → Answers steps answer)
    → Answers steps (answered r (press_enter r.model))
    → Answers steps (receive r (key k))
unfolding receive update
on_key steps r k same enter =
    let kept = same _ (ap (λ l. some (record r { in_flight = l })) (append-nil r.in_flight)) in
    let Holds = λ (o : Option (Model × Cmd)). Answers steps (answered r o) in
    if-elim Holds (k == "q") _ _ (λ _. kept)
      λ _.
        if-elim Holds (k == "ctrl+c") _ _ (λ _. kept)
          λ _. if-elim Holds (k == "enter") _ _ (λ _. enter) (λ _. kept)

on_enter :
    (p : Progress) (shown : Shown)
    → Answers (all_steps p) (answered (program_at p shown) (press_enter (program_at p shown).model))
unfolding press_enter execute_current
on_enter (idle before []) shown = stays (idle before []) shown _ refl
on_enter (idle before (s ∷ rest)) shown =
    rw (length-lt before rest s, execute_current, current_lem before rest s)
      (stays (running before s rest) shown _ refl)
on_enter (running before s rest) shown = stays (running before s rest) shown _ refl
on_enter (waits before s rest h) shown = stays (waits before s rest h) shown _ refl
on_enter (failed before s rest e) shown =
    rw (execute_current, current_lem before rest s) (stays (running before s rest) shown _ refl)

on_tick : (p : Progress) (shown : Shown) → Answers (all_steps p) (receive (program_at p shown) tick)
unfolding receive update
on_tick p shown = stays p shown _ (
    ap (λ l. some (record (program_at p shown) { in_flight = l }))
      (append-nil (program_at p shown).in_flight))

on_refresh :
    (p : Progress) (shown new : Shown)
    → Answers (all_steps p) (receive (program_at p shown) (refreshed (ok new)))
unfolding receive update stop_waiting
on_refresh (idle before after) shown new = stays (idle before after) new _ refl
on_refresh (running before s rest) shown new = stays (running before s rest) new _ refl
on_refresh (failed before s rest e) shown new = stays (failed before s rest e) new _ refl
on_refresh (waits before s rest h) shown new = elim (Bool-cases (awaited (some s) new)) [
  | inl e ↦
      rw (length-lt before rest s, current_lem before rest s, e) (passes before rest s new _ refl)
  | inr e ↦
      rw (length-lt before rest s, current_lem before rest s, e)
        (stays (waits before s rest h) new _ refl)
]

-- The action of the step that was running has ended without an error.
abbrev pub ended_now : List Step → List Step → Step → Shown → Running
ended_now before rest s shown = record (program_at (running before s rest) shown) {
  in_flight = [];
  completed = actions before ++ (s.action ∷ []);
}

-- The end of the action of the step that is running.
on_step_done :
    (before rest : List Step) (s : Step) (shown : Shown) (e : Option Error)
    → Answers (before ++ (s ∷ rest)) (
        receive
          (record (program_at (running before s rest) shown) {
            in_flight = [];
            completed = actions before ++ completes e s.action;
          })
          (step_done e))
unfolding receive update step_ended finish_step
on_step_done before rest s shown (some e) = stays (failed before s rest e) shown _ (
    ap (λ l. some (record (program_at (failed before s rest e) shown) { completed = l }))
      (append-nil (actions before)))
on_step_done before rest s shown none = rw (current_lem before rest s) (
    if-elim (λ o. Answers (before ++ (s ∷ rest)) (answered (ended_now before rest s shown) o))
      (not (is_some s.wait_for)) _ _ (λ _. passes before rest s shown _ refl)
      (λ q. stays (waits before s rest (not-false _ q)) shown _ refl))

-- The end of an action at a point: only a running step has one in flight.
on_ended :
    (p : Progress) (shown : Shown) (a : Action) (left : List Action) (e : Option Error)
    → (program_at p shown).in_flight ≡ a ∷ left
    → Answers (all_steps p) (
        receive
          (record (program_at p shown) {
            in_flight = left;
            completed = (program_at p shown).completed ++ completes e a;
          })
          (step_done e))
on_ended (idle before after) shown a left e q = absurd (cc q)
on_ended (waits before s rest h) shown a left e q = absurd (cc q)
on_ended (failed before s rest x) shown a left e q = absurd (cc q)
on_ended (running before s rest) shown a left e q =
    let same : s.action ≡ a = cc q in
    let none_left : [] ≡ left = cc q in
    rw (← same, ← none_left) (on_step_done before rest s shown e)

on_arrival :
    (p : Progress) (shown : Shown) {r' : Running} {msg : Msg}
    → Arrives (program_at p shown) msg r'
    → Answers (all_steps p) (receive r' msg)
on_arrival p shown (typed k) =
    on_key (all_steps p) (program_at p shown) k (λ answer e. stays p shown answer e)
      (on_enter p shown)
on_arrival p shown ticked = on_tick p shown
on_arrival p shown (seen new) = on_refresh p shown new
on_arrival p shown (ended a rest e q) = on_ended p shown a rest e q

-- At every point, each message that arrives is answered, and the run is at a point again.
pub IsAt-Answers :
    {steps : List Step} {r r' : Running} {msg : Msg}
    → IsAt steps r
    → Arrives r msg r'
    → Answers steps (receive r' msg)
IsAt-Answers {steps} {r} {r'} {msg} at arrives =
    subst (λ l. Answers l (receive r' msg)) at.same_steps
      (on_arrival at.point at.shown (subst (λ x. Arrives x msg r') at.program arrives))

some-path : (x y : Running) → some x ≡ some y → x ≡ y
some-path x y e = cc e

IsAt-initial : (steps : List Step) → steps ≢ [] → IsAt steps (initial steps)
unfolding new_model
IsAt-initial [] h = absurd (h refl)
IsAt-initial (s ∷ rest) h = record {
  point = idle [] (s ∷ rest);
  shown = record { cos = none; cod = none };
  program = refl;
  same_steps = refl;
}

Leads-IsAt : {steps : List Step} {r r' : Running} → IsAt steps r → Leads r r' → IsAt steps r'
Leads-IsAt at here = at
Leads-IsAt {steps} at (next leads arrives e) =
    let a = IsAt-Answers (Leads-IsAt at leads) arrives in
    subst (IsAt steps) (some-path _ _ (sym a.answered_by ∙ e)) a.is_at

pub Reached-IsAt : {steps : List Step} {r : Running} → steps ≢ [] → Reached steps r → IsAt steps r
Reached-IsAt {steps} h reached = Leads-IsAt (IsAt-initial steps h) reached
