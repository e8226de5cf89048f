-- ===== src/Rollout/View/Details.antt =====
-- `viewHeader` and `viewObjectDetails` of examples/gated-rollout/main.go.
use orb_operator.Base.{
  String, ◌<>◌, String_eq, ◌==◌, Bool, true, false, Option, none, some, List, [], ◌∷◌, ◌≡◌, refl,
  All, if◌then◌else◌,
}
use orb_operator.Api.{
  ClusterObjectDeployment, ClusterObjectSet, ObjectStatus, ObservedPhase, PhaseStatus, Time,
  available, condition_type_available, invalid, pending, reconciling, superseded, teardown_complete,
  tearing_down, unknown, waiting_for_assertions,
}
use orb_operator.Template.{decimal}
use orb_operator.Rollout.{Shown}
use orb_operator.Rollout.Objects.{condition_info}
use orb_operator.Rollout.Deadline.{Render, bold, dim}
use orb_operator.Rollout.View.{color_condition, color_status, object_label, repeat, view_cod_status}

-- `string(op.Status)`
unfoldable phase_status_text : PhaseStatus → String
phase_status_text invalid = "Invalid"
phase_status_text pending = "Pending"
phase_status_text reconciling = "Reconciling"
phase_status_text waiting_for_assertions = "WaitingForAssertions"
phase_status_text available = "Available"
phase_status_text unknown = "Unknown"
phase_status_text superseded = "Superseded"
phase_status_text tearing_down = "TearingDown"
phase_status_text teardown_complete = "TeardownComplete"

-- `strings.Join(od.Messages, "; ")`
unfoldable join_messages : List String → String
join_messages [] = ""
join_messages (m ∷ []) = m
join_messages (m ∷ n ∷ ms) = m <> "; " <> join_messages (n ∷ ms)

-- `strings.Split(msg, "\n")`: the first line, and the lines behind it.
unfoldable split_lines : String → String × List String
split_lines String.[] = ("", [])
split_lines (String.◌∷◌ c s) =
    let (line, lines) = split_lines s in
    if String.◌∷◌ c "" == "\n" then ("", line ∷ lines) else (String.◌∷◌ c line, lines)

other_lines : List String → String
other_lines [] = ""
other_lines (line ∷ lines) = "        " <> line <> "\n" <> other_lines lines

-- A message without a newline is its only line.
object_lines : List ObjectStatus → String
unfolding object_label join_messages split_lines other_lines
object_lines [] = ""
object_lines (od ∷ ods) =
    let (line, lines) = split_lines (join_messages od.messages) in
    "      " <> object_label od <> ": " <> line <> "\n" <> other_lines lines <> object_lines ods

details_heading : Render → Bool → String
details_heading render true = ""
details_heading render false = "\n" <> render bold "  Object details:" <> "\n"

-- The loop over the phases; the flag is `hasDetails`.
unfoldable object_details_from : Render → Bool → List ObservedPhase → String
unfolding details_heading color_status phase_status_text object_lines
object_details_from render has_details [] = ""
object_details_from render has_details (op ∷ ops) =
    let skipped = object_details_from render has_details ops in
    let rest = object_details_from render true ops in
    elim op.object_details [
      | [] ↦ skipped
      | od ∷ ods ↦
          details_heading render has_details
          <> "    "
          <> op.name
          <> " ("
          <> color_status render (phase_status_text op.status)
          <> "):\n"
          <> object_lines (od ∷ ods)
          <> rest
    ]

unfoldable view_object_details : Render → ClusterObjectSet → String
unfolding object_details_from
view_object_details render cos = object_details_from render false cos.status.observed_phases

-- `m.cos.Status.CompletedAt.Time.Format("15:04:05")`, where there is one.
completed_text : (Time → String) → Option Time → String
completed_text clock none = "not set"
completed_text clock (some t) = clock t

cos_header : Render → (Time → String) → Option ClusterObjectSet → String
unfolding condition_info color_condition completed_text
cos_header render clock none = render dim "  No COS yet" <> "\n\n"
cos_header render clock (some cos) =
    let (avail_status, avail_reason) =
      condition_info cos.status.conditions condition_type_available in
    "  COS: "
    <> render bold cos.metadata.name
    <> " | Rev "
    <> decimal cos.spec.revision
    <> " | Available: "
    <> color_condition render avail_status
    <> " ("
    <> avail_reason
    <> ")\n  completedAt: "
    <> completed_text clock cos.status.completed_at
    <> "\n\n"

cod_header : Render → Option ClusterObjectDeployment → Option ClusterObjectSet → Time → String
unfolding view_cod_status
cod_header render none cos now = ""
cod_header render (some cod) cos now = view_cod_status render cod cos now

-- `clock` formats a time as `15:04:05`; the deadline is computed at a later time.
unfoldable view_header : Render → (Time → String) → Shown → Time → Time → String
unfolding repeat cod_header cos_header
view_header render clock shown now later =
    render bold ("  Gated Rollout Demo" <> repeat 42 " " <> clock now)
    <> "\n\n"
    <> cod_header render shown.cod shown.cos later
    <> "\n"
    <> cos_header render clock shown.cos

-- Where no phase has details, nothing is shown, not even the heading.
view_object_details_none :
    (render : Render) (cos : ClusterObjectSet)
    → All (λ (op : ObservedPhase). op.object_details ≡ []) cos.status.observed_phases
    → view_object_details render cos ≡ ""
unfolding view_object_details object_details_from
view_object_details_none render cos blank = none_from cos.status.observed_phases blank
  where
    none_from :
        (ops : List ObservedPhase)
        → All (λ (op : ObservedPhase). op.object_details ≡ []) ops
        → object_details_from render false ops ≡ ""
    none_from [] blank = refl
    none_from (op ∷ ops) (q, blank) = rw q (none_from ops blank)
