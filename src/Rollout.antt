-- ===== src/Rollout.antt =====
-- examples/gated-rollout/main.go: the program that walks through a rollout step by step. Its model
-- and `Update`, which answers each message with a new model and a command that sends another one.
pub mod Objects
pub mod Steps
pub mod Run
pub mod Deadline
pub mod View
pub mod Cleanup
use orb_operator.Base.{
  ℕ, ◌+◌, String, Bool, true, false, not, ◌&&◌, Option, none, some, List, [], ◌∷◌, String_eq, ◌==◌,
  if◌then◌else◌, ltb, leb, length, get_elem?, is_some,
}
use orb_operator.Errors.{Error, Result, ok, err}
use orb_operator.Api.{ClusterObjectSet, ClusterObjectDeployment, is_archived_state}
use orb_operator.Rollout.Objects.{cod_name}

-- What a step does to the cluster: the closures of `buildSteps`.
pub data Action : Type 0 where
  create_v1 : Action
  update_v2 : Action
  patch : String → String → String → Action

-- The objects that the model shows, which are all that a `waitFor` reads of it.
pub record Shown : Type 0 where
  pub cos : Option ClusterObjectSet
  pub cod : Option ClusterObjectDeployment

pub record Step : Type 0 where
  pub description : String
  pub action : Action
  pub wait_for : Option (Shown → Bool)
  pub wait_msg : String

pub record Model : Type 0 where
  pub steps : List Step
  pub current_step : ℕ
  pub shown : Shown
  pub waiting : Bool
  pub executing : Bool
  pub error : Option Error
  pub is_done : Bool

-- A refresh brings the objects, or the error of a read.
pub data Msg : Type 0 where
  key : String → Msg
  step_done : Option Error → Msg
  refreshed : Result Shown → Msg
  tick : Msg

pub data Cmd : Type 0 where
  no_cmd : Cmd
  quit : Cmd
  execute : Step → Cmd
  refresh : Cmd
  next_tick : Cmd

unfoldable pub new_model : List Step → Model
new_model steps = record {
  steps = steps;
  current_step = 0;
  shown = record { cos = none; cod = none };
  waiting = false;
  executing = false;
  error = none;
  is_done = false;
}

-- `m.steps[m.currentStep]`; `none` is the panic of an index out of range.
abbrev pub current : Model → Option Step
current m = get_elem? m.steps m.current_step

-- `m.currentStep++`, and the test for the last step.
unfoldable pub advance : Model → Model
advance m = record m {
  current_step = m.current_step + 1;
  is_done = if leb (length m.steps) (m.current_step + 1) then true else m.is_done;
}

unfoldable pub execute_current : Model → Option (Model × Cmd)
execute_current m = elim (current m) [ none ↦ none | some s ↦ some (m, execute s) ]

unfoldable pub press_enter : Model → Option (Model × Cmd)
unfolding execute_current
press_enter m =
    if is_some m.error
    then execute_current (record m { error = none; executing = true })
    else if not m.waiting && not m.executing && not m.is_done && ltb m.current_step (length m.steps)
    then execute_current (record m { executing = true })
    else some (m, no_cmd)

finish_step : Model → Option Step → Option (Model × Cmd)
unfolding advance
finish_step m none = none
finish_step m (some s) =
    if not (is_some s.wait_for)
    then some (advance m, refresh)
    else some (record m { waiting = true }, refresh)

unfoldable pub step_ended : Model → Option Error → Option (Model × Cmd)
unfolding finish_step
step_ended m (some e) = some (record m { executing = false; error = some e }, no_cmd)
step_ended m none = finish_step (record m { executing = false; error = none }) (current m)

-- The answer of `waitFor`, which is false where there is none.
abbrev pub awaited : Option Step → Shown → Bool
awaited none shown = false
awaited (some s) shown = elim s.wait_for [ none ↦ false | some wait ↦ wait shown ]

unfoldable pub stop_waiting : Model → Model
unfolding advance
stop_waiting m =
    if m.waiting && ltb m.current_step (length m.steps) && awaited (current m) m.shown
    then advance (record m { waiting = false })
    else m

abbrev pub shown_after : Model → Result Shown → Model
shown_after m (ok shown) = record m { shown = shown }
shown_after m (err e) = record m { error = some e }

-- `Update`; `none` is a panic.
unfoldable pub update : Model → Msg → Option (Model × Cmd)
unfolding press_enter step_ended stop_waiting
update m (key k) =
    if k == "q"
    then some (m, quit)
    else if k == "ctrl+c"
    then some (m, quit)
    else if k == "enter"
    then press_enter m
    else some (m, no_cmd)
update m (step_done e) = step_ended m e
update m (refreshed r) = some (stop_waiting (shown_after m r), next_tick)
update m tick = some (m, refresh)

newer : Option ClusterObjectSet → ClusterObjectSet → Bool
newer none item = true
newer (some cos) item = ltb cos.spec.revision item.spec.revision

-- The loop of `refreshCmd` over the revisions.
unfoldable pub newest : Option ClusterObjectSet → List ClusterObjectSet → Option ClusterObjectSet
unfolding newer
newest cos [] = cos
newest cos (item ∷ items) =
    newest
      (if not (item.spec.group == cod_name)
        then cos
        else if is_archived_state item.spec.lifecycle_state
        then cos
        else if newer cos item
        then some item
        else cos)
      items

-- `refreshCmd`: the deployment, `none` if it is not found, and its newest revision.
unfoldable pub refresh_cmd :
    Result (Option ClusterObjectDeployment) → Result (List ClusterObjectSet) → Result Shown
unfolding newest
refresh_cmd (err e) list = err e
refresh_cmd (ok cod) (err e) = err e
refresh_cmd (ok cod) (ok items) = ok (record { cos = newest none items; cod = cod })
