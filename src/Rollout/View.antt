-- ===== src/Rollout/View.antt =====
-- `View` of examples/gated-rollout/main.go: the prompt, the line on the deployment, and the colours.
pub mod Total
pub mod Details
use orb_operator.Base.{
  ℕ, ◌+◌, zero, suc, String, ◌<>◌, String_eq, ◌==◌, Bool, true, false, Option, none, some, List, [],
  ◌∷◌, is_some, if◌then◌else◌, length, contains,
}
use orb_operator.Errors.{Error}
use orb_operator.Api.{
  ClusterObjectSet, ClusterObjectDeployment, ObjectStatus, Time, condition_type_available,
  condition_type_progressing,
}
use orb_operator.Template.{decimal}
use orb_operator.Rollout.{Model, Step, current}
use orb_operator.Rollout.Objects.{cod_name, condition_info}
use orb_operator.Rollout.Deadline.{
  Style, green, yellow, red, dim, cyan, bold, Render, deadline_line,
}

unfoldable repeat : ℕ → String → String
repeat zero s = ""
repeat (suc n) s = s <> repeat n s

unfoldable pub color_condition : Render → String → String
color_condition render status =
    if status == "True"
    then render green status
    else if status == "False"
    then render yellow status
    else if status == "Unknown"
    then render red status
    else status

unfoldable pub color_status : Render → String → String
color_status render s =
    if contains ("Available" ∷ "TeardownComplete" ∷ []) s
    then render green s
    else if contains ("WaitingForAssertions" ∷ "Reconciling" ∷ "Pending" ∷ []) s
    then render yellow s
    else if contains ("Invalid" ∷ "Unknown" ∷ []) s
    then render red s
    else if contains ("Superseded" ∷ "TearingDown" ∷ []) s
    then render dim s
    else s

unfoldable pub object_label : ObjectStatus → String
object_label od =
    if od.namespace == ""
    then od.kind <> " " <> od.name
    else od.kind <> " " <> od.namespace <> "/" <> od.name

-- `viewCODStatus`
unfoldable pub view_cod_status :
    Render → ClusterObjectDeployment → Option ClusterObjectSet → Time → String
unfolding condition_info color_condition deadline_line
view_cod_status render cod cos now =
    let (avail_status, avail_reason) =
      condition_info cod.status.conditions condition_type_available in
    let (prog_status, prog_reason) =
      condition_info cod.status.conditions condition_type_progressing in
    "  COD: "
    <> render bold cod.metadata.name
    <> " | Available: "
    <> color_condition render avail_status
    <> " ("
    <> avail_reason
    <> ") | Progressing: "
    <> color_condition render prog_status
    <> " ("
    <> prog_reason
    <> ")\n"
    <> deadline_line render cod cos prog_reason now

-- `Step %d/%d: %s` of the current step, and what stands below it.
unfoldable step_text : Render → Model → Style → (Step → String) → Option String
step_text render m style below = elim (current m) [
  | none ↦ none
  | some s ↦ some (
      render style (
        "  Step "
        <> decimal (m.current_step + 1)
        <> "/"
        <> decimal (length m.steps)
        <> ": "
        <> s.description)
      <> "\n"
      <> below s)
]

unfoldable prompt_text : Render → (Error → String) → Model → Option String
prompt_text render text m = elim m.error [
  | some e ↦
      some (render red ("  Error: " <> text e) <> "\n" <> "  Press ENTER to retry, q to quit\n")
  | none ↦
      if m.is_done
      then some (
          render green "  Done! All steps completed."
          <> "\n"
          <> render dim ("  Cleanup: kubectl delete clusterobjectdeployment " <> cod_name)
          <> "\n"
          <> "  Press q to quit\n")
      else if m.executing
      then step_text render m yellow (λ _. render dim "  Executing..." <> "\n")
      else if m.waiting
      then step_text render m yellow (λ s. render dim ("  " <> s.wait_msg) <> "\n")
      else step_text render m cyan (λ _. "  Press ENTER to continue, q to quit\n")
]

-- `viewPrompt`; `none` is the panic of an index out of range.
unfoldable pub view_prompt : Render → (Error → String) → Model → Option String
unfolding prompt_text step_text repeat
view_prompt render text m = elim (prompt_text render text m) [
  | none ↦ none
  | some prompt ↦ some (render dim ("  " <> repeat 64 "─") <> "\n" <> prompt)
]
