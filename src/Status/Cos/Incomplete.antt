-- ===== src/Status/Cos/Incomplete.antt =====
-- `incompletePhase` and `applyValidationError`.
pub mod Counts
use orb_operator.Base.{
  ℕ, ◌+◌, String, ◌<>◌, Bool, true, false, not, ◌||◌, Option, none, some, List, [], ◌∷◌, ◌++◌, map,
  String_eq, nat_eq, if◌then◌else◌,
}
use orb_operator.Base.Int.{i64}
use orb_operator.Errors.{Error, message}
use orb_operator.Api.{
  Phase, invalid, pending, reconciling, waiting_for_assertions, unknown, ObjectCounts, zero_counts,
  ObjectStatus, ObservedPhase,
}
use orb_operator.Boxcutter.{
  Action, created, idle, updated, recovered, ObjectResult, ObjectValidationError,
  PhaseValidationError, PhaseResult, is_created, is_idle,
}
use orb_operator.Status.Cos.Messages.{truncate_message, object_messages}
use orb_operator.Status.Cos.Mapping.{total_of, object_status_from_ref}

-- `applyValidationError`: the message and the details; the status becomes `Invalid`.
validation_message : Option Error → String
validation_message none = ""
validation_message (some e) = truncate_message ("validation error: " <> message e)

validation_details : List ObjectValidationError → List ObjectStatus
unfolding object_status_from_ref
validation_details = map λ o.
    object_status_from_ref o.object_ref
      (map (λ e. truncate_message ("validation error: " <> message e)) o.errors)

unfoldable pub apply_validation_error : ObservedPhase → PhaseValidationError → ObservedPhase
unfolding validation_message validation_details
apply_validation_error op verr = record op {
  status = invalid;
  message = validation_message verr.phase_error;
  object_details = op.object_details ++ validation_details verr.objects;
}

-- What the loop of `incompletePhase` keeps.
pub record Tally : Type 0 where
  pub counts : ObjectCounts
  pub paused : Bool
  pub details : List ObjectStatus

-- The actions after which an object that is not paused counts as synced.
abbrev pub syncs : Action → Bool
syncs idle = true
syncs updated = true
syncs created = true
syncs recovered = true
syncs _ = false

abbrev pub is_present : ObjectResult → Bool
is_present obj = not obj.is_paused || not (is_created obj.action)

abbrev pub is_synced : ObjectResult → Bool
is_synced obj = if obj.is_paused then is_idle obj.action else syncs obj.action

abbrev inc : Bool → ℕ → ℕ
inc b n = if b then i64 (n + 1) else n

-- The body of the loop.
unfoldable pub tally_object : ObjectResult → Tally → Tally
unfolding object_status_from_ref object_messages
tally_object obj t = record {
  counts = record {
    total = t.counts.total;
    present = inc (is_present obj) t.counts.present;
    synced = inc (is_synced obj) t.counts.synced;
    available = inc obj.is_complete t.counts.available;
  };
  paused = t.paused || obj.is_paused;
  details =
      if obj.is_complete
      then t.details
      else (t.details ++ (object_status_from_ref obj.object (object_messages obj) ∷ []));
}

unfoldable pub tally_objects : List ObjectResult → Tally → Tally
unfolding tally_object
tally_objects [] t = t
tally_objects (obj ∷ objs) t = tally_objects objs (tally_object obj t)

-- The `switch` at the end of `incompletePhase`.
unfoldable pub finish_phase : String → Tally → ObservedPhase
finish_phase name t = record {
  name = name;
  status =
      if t.paused
      then pending
      else if nat_eq t.counts.synced t.counts.total
      then waiting_for_assertions
      else reconciling;
  completed_at = none;
  message = if t.paused then "Waiting for earlier phases to complete" else "";
  object_counts = t.counts;
  object_details = t.details;
}

incomplete_phase_of :
    Phase → String → Option PhaseValidationError → List ObjectResult → ObservedPhase
unfolding apply_validation_error tally_objects finish_phase
incomplete_phase_of sp name (some verr) objects =
    apply_validation_error
      (record {
        name = name;
        status = unknown;
        completed_at = none;
        message = "";
        object_counts = record zero_counts { total = total_of sp };
        object_details = [];
      })
      verr
incomplete_phase_of sp name none objects = finish_phase name (
    tally_objects objects (record {
      counts = record zero_counts { total = total_of sp };
      paused = false;
      details = [];
    }))

unfoldable pub incomplete_phase : Phase → PhaseResult → ObservedPhase
unfolding incomplete_phase_of
incomplete_phase sp pr = incomplete_phase_of sp pr.name pr.validation_error pr.objects
