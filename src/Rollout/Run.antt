-- ===== src/Rollout/Run.antt =====
-- Runs of the example: the messages that can arrive, with the actions that are on their way, and an
-- account of a run apart from the code.
pub mod Points
pub mod Order
pub mod Ends
use mathlib.Core.List.{append_assoc}
use orb_operator.Base.{
  ℕ, zero, suc, ◌+◌, String, Bool, true, false, ◌≡◌, refl, ap, ◌∙◌, sym, Option, none, some, List,
  [], ◌∷◌, ◌++◌, map, String_eq, ◌==◌, if◌then◌else◌, ltb, leb, length, get_elem?, is_some, arith,
  Bool-cases, inl, inr, length-append, Option-cases,
}
use orb_operator.Errors.{Error, Result, ok, err}
use orb_operator.Rollout.{
  Action, Shown, Step, Model, Msg, key, step_done, refreshed, tick, Cmd, no_cmd, quit, execute,
  refresh, next_tick, new_model, update, awaited, press_enter, execute_current, step_ended,
  finish_step, advance, stop_waiting, current,
}

-- The program and the actions that were begun, in the order in which they end, and those that
-- ended without an error.
pub record Running : Type 0 where
  pub model : Model
  pub in_flight : List Action
  pub completed : List Action

abbrev pub begun : Cmd → List Action
begun no_cmd = []
begun quit = []
begun (execute s) = s.action ∷ []
begun refresh = []
begun next_tick = []

abbrev answered : Running → Option (Model × Cmd) → Option Running
answered r none = none
answered r (some (m, cmd)) = some (record r { model = m; in_flight = r.in_flight ++ begun cmd })

-- `Update` on a message, and the start of the command that it returns.
unfoldable pub receive : Running → Msg → Option Running
receive r msg = answered r (update r.model msg)

abbrev pub completes : Option Error → Action → List Action
completes none a = a ∷ []
completes (some _) a = []

-- The messages that can arrive, with what is left in flight: keys, ticks, refreshes that do not
-- fail, and the end of an action that was begun.
pub data Arrives (r : Running) : Msg → Running → Type 0 where
  typed : (k : String) → Arrives r (key k) r
  ticked : Arrives r tick r
  seen : (shown : Shown) → Arrives r (refreshed (ok shown)) r
  ended :
      (a : Action) (rest : List Action) (e : Option Error)
      → r.in_flight ≡ a ∷ rest
      → Arrives r
          (step_done e)
          (record r { in_flight = rest; completed = r.completed ++ completes e a })

-- Messages that arrive one after another.
pub data Leads (r : Running) : Running → Type 0 where
  here : Leads r r
  next :
      {r' r'' last : Running} {msg : Msg}
      → Leads r r'
      → Arrives r' msg r''
      → receive r'' msg ≡ some last
      → Leads r last

abbrev pub initial : List Step → Running
initial steps = record { model = new_model steps; in_flight = []; completed = [] }

-- A run of the program with these steps, from its start.
abbrev pub Reached : List Step → Running → Type 0
Reached steps r = Leads (initial steps) r

-- How far a run has come: the steps that are behind it, and what it does with the next one.
pub data Progress : Type 0 where
  idle : List Step → List Step → Progress
  running : List Step → Step → List Step → Progress
  waits : List Step → (s : Step) → List Step → is_some s.wait_for ≡ true → Progress
  failed : List Step → Step → List Step → Error → Progress

abbrev pub actions : List Step → List Action
actions = map (λ (s : Step). s.action)

abbrev is_nil : List Step → Bool
is_nil [] = true
is_nil (_ ∷ _) = false

abbrev base : List Step → List Step → Shown → Model
base before after shown = record {
  steps = before ++ after;
  current_step = length before;
  shown = shown;
  waiting = false;
  executing = false;
  error = none;
  is_done = is_nil after;
}

-- The program at each point.
abbrev pub program_at : Progress → Shown → Running
program_at (idle before after) shown = record {
  model = base before after shown;
  in_flight = [];
  completed = actions before;
}
program_at (running before s rest) shown = record {
  model = record (base before (s ∷ rest) shown) { executing = true };
  in_flight = s.action ∷ [];
  completed = actions before;
}
program_at (waits before s rest h) shown = record {
  model = record (base before (s ∷ rest) shown) { waiting = true };
  in_flight = [];
  completed = actions before ++ (s.action ∷ []);
}
program_at (failed before s rest e) shown = record {
  model = record (base before (s ∷ rest) shown) { error = some e };
  in_flight = [];
  completed = actions before;
}

abbrev pub all_steps : Progress → List Step
all_steps (idle before after) = before ++ after
all_steps (running before s rest) = before ++ (s ∷ rest)
all_steps (waits before s rest h) = before ++ (s ∷ rest)
all_steps (failed before s rest e) = before ++ (s ∷ rest)

-- Where a run that started with these steps can be.
pub record IsAt (steps : List Step) (r : Running) : Type 0 where
  pub point : Progress
  pub shown : Shown
  pub program : r ≡ program_at point shown
  pub same_steps : all_steps point ≡ steps

-- The step after those behind.
pub current_lem :
    (before rest : List Step) (s : Step) → get_elem? (before ++ (s ∷ rest)) (length before) ≡ some s
current_lem [] rest s = refl
current_lem (x ∷ before) rest s = current_lem before rest s

pub length-lt :
    (before rest : List Step) (s : Step)
    → ltb (length before) (length (before ++ (s ∷ rest))) ≡ true
length-lt before rest s = ground (arith, length-append before (s ∷ rest))

pub length-last : (before : List Step) (s : Step) → length (before ++ (s ∷ [])) ≡ length before + 1
length-last before s = omega (arith, length-append before (s ∷ []))

pub actions-append : (xs ys : List Step) → actions (xs ++ ys) ≡ actions xs ++ actions ys
actions-append [] ys = refl
actions-append (x ∷ xs) ys = ap (λ l. x.action ∷ l) (actions-append xs ys)

pub is_last :
    (before rest : List Step) (s : Step)
    → leb (length (before ++ (s ∷ rest))) (length before + 1) ≡ is_nil rest
is_last before [] s = ground (arith, length-append before (s ∷ []))
is_last before (x ∷ rest) s = ground (arith, length-append before (s ∷ x ∷ rest))
