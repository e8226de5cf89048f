-- ===== src/Rollout/Deadline.antt =====
-- The deadline that the example shows: `deadlineRemaining`, and its line in `viewCODStatus`, of
-- examples/gated-rollout/main.go. Durations are `int64` nanoseconds.
pub mod Agrees
use orb_operator.Base.{
  ℕ, ◌+◌, ◌/◌, String, ◌<>◌, String_eq, ◌==◌, Bool, true, false, Option, none, some, List, [], ◌∷◌,
  ltb, is_some, if◌then◌else◌, not, ◌≡◌, refl,
}
use orb_operator.Base.Int.{ℤ, pos, negsuc, sub_ℕ, ◌-ℤ◌, ◌*ℤ◌, leb_ℤ, wrap64, sat64}
use orb_operator.Api.{
  Time, ObservedPhase, ClusterObjectSet, ClusterObjectDeployment, reason_progress_deadline_exceeded,
}
use orb_operator.Template.{decimal}
use orb_operator.Rollout.{Shown}

-- `time.Minute` and `time.Second`
abbrev pub minute : ℕ
minute = 60000000000

abbrev second : ℕ
second = 1000000000

-- `op.CompletedAt != nil && op.CompletedAt.Time.After(lastProgress)`
later : Option Time → Time → Time
later none last = last
later (some t) last = if ltb last t then t else last

unfoldable pub last_progress_from : Time → List ObservedPhase → Time
unfolding later
last_progress_from last [] = last
last_progress_from last (op ∷ ops) = last_progress_from (later op.completed_at last) ops

unfoldable pub last_progress : ClusterObjectSet → Time
unfolding last_progress_from
last_progress cos = last_progress_from cos.metadata.creation_timestamp cos.status.observed_phases

-- `time.Duration(minutes)*time.Minute - time.Since(last)`
unfoldable pub remaining_of : ℕ → Time → Time → ℤ
remaining_of minutes last now =
    wrap64 (wrap64 (pos minutes *ℤ pos minute) -ℤ sat64 (sub_ℕ now last))

remaining_at : Option ClusterObjectSet → Option ℕ → Time → ℤ
unfolding remaining_of last_progress
remaining_at (some cos) (some minutes) now = remaining_of minutes (last_progress cos) now
remaining_at _ _ now = pos 0

unfoldable pub deadline_remaining : Shown → Time → ℤ
unfolding remaining_at
deadline_remaining shown now = elim shown.cod [
  | none ↦ pos 0
  | some cod ↦ remaining_at shown.cos cod.spec.progress_deadline_minutes now
]

pub data Style : Type 0 where
  bold dim green yellow red cyan : Style

-- lipgloss's rendering of a text in a style.
abbrev pub Render : Type 0
Render = Style → String → String

-- `int(remaining.Seconds())`, towards zero: its size, as the sign is known where it is printed.
abbrev seconds : ℤ → ℕ
seconds (pos n) = n / second
seconds (negsuc n) = (n + 1) / second

-- The text of a deadline, `dl`.
unfoldable pub deadline_text : Render → Bool → String → ℤ → String
deadline_text render cos_complete reason remaining =
    if cos_complete
    then render green "n/a (rollout complete)"
    else if reason == reason_progress_deadline_exceeded
    then render red "EXCEEDED"
    else if not (leb_ℤ remaining (pos 15000000000))
    then render green (decimal (seconds remaining) <> "s remaining")
    else if not (leb_ℤ remaining (pos 0))
    then render yellow (decimal (seconds remaining) <> "s remaining")
    else render red ("EXPIRED (" <> decimal (seconds remaining) <> "s ago)")

-- The line on the deadline, if there are a deadline and a revision.
unfoldable pub deadline_line :
    Render → ClusterObjectDeployment → Option ClusterObjectSet → String → Time → String
unfolding deadline_text deadline_remaining
deadline_line render cod cos reason now = elim cod.spec.progress_deadline_minutes [
  | none ↦ ""
  | some _ ↦ elim cos [
    | none ↦ ""
    | some c ↦
        "  Progress deadline: "
        <> (deadline_text render (is_some c.status.completed_at) reason
              (deadline_remaining (record { cos = some c; cod = some cod }) now)
            <> " (resets on each phase completion)\n")
  ]
]
