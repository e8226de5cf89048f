-- ===== src/Status/Cos/Completion.antt =====
-- `PreserveCompletionTimes`, which writes into its second argument: here the new list is returned.
pub mod Immutable
use orb_operator.Base.{
  String, Option, none, some, List, [], ◌∷◌, map, Map, lookup, insert, String_eq, if◌then◌else◌,
}
use orb_operator.Api.{Time, ObservedPhase, is_available_status}

remember : ObservedPhase → Option Time → Map String Time → Map String Time
remember p none m = m
remember p (some t) m = insert p.name t m

-- The first loop: the completion times of the existing phases, by name.
unfoldable pub completion_times : List ObservedPhase → Map String Time → Map String Time
unfolding remember
completion_times [] m = m
completion_times (p ∷ ps) m = completion_times ps (remember p p.completed_at m)

-- The body of the second loop.
unfoldable pub stamp : Time → ObservedPhase → Option Time → ObservedPhase
stamp now p (some t) = record p { completed_at = some t }
stamp now p none = if is_available_status p.status then record p { completed_at = some now } else p

unfoldable pub preserve_completion_times :
    List ObservedPhase → List ObservedPhase → Time → List ObservedPhase
unfolding completion_times stamp
preserve_completion_times existing current now =
    let completed_at = completion_times existing [] in
    map (λ p. stamp now p (lookup completed_at p.name)) current
