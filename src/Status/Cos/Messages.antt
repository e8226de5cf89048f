-- ===== src/Status/Cos/Messages.antt =====
-- The texts of a phase's status: `truncateMessage` and the messages about one object.
pub mod Bounds
use Prim.Native.String.{compare}
use Prim.Native.Nat.{Ordering}
use orb_operator.Base.{
  ℕ, zero, suc, String, ◌<>◌, not, ◌&&◌, Option, none, some, List, [], ◌∷◌, ◌++◌, map, Map, lookup,
  String_eq, if◌then◌else◌, leb, ◌-◌,
}
use orb_operator.Boxcutter.{
  Action, created, recovered, ProbeStatus, probe_true, probe_other, ProbeResult, FieldSet,
  Comparison, ObjectResult, is_idle, is_collision,
}

abbrev pub max_message_length : ℕ
max_message_length = 1024

-- `len([]rune(s))`
unfoldable pub rune_count : String → ℕ
rune_count String.[] = 0
rune_count (String.◌∷◌ c s) = suc (rune_count s)

-- `string([]rune(s)[:n])`
unfoldable pub take_runes : ℕ → String → String
take_runes zero s = ""
take_runes (suc n) String.[] = String.[]
take_runes (suc n) (String.◌∷◌ c s) = String.◌∷◌ c (take_runes n s)

unfoldable pub truncate_message : String → String
truncate_message s =
    if leb (rune_count s) max_message_length
    then s
    else (take_runes (max_message_length - 3) s <> "...")

-- `strings.Join(parts, "\n")`
unfoldable pub join_lines : List String → String
join_lines [] = ""
join_lines (s ∷ []) = s
join_lines (s ∷ t ∷ rest) = s <> "\n" <> join_lines (t ∷ rest)

-- One of the three blocks of `compareDetails`.
field_details : String → Option FieldSet → List String
field_details label none = []
field_details label (some set) = if set.empty then [] else map (λ p. label <> p) set.leaves

comparison_details : Comparison → List String
unfolding field_details
comparison_details c =
    field_details " - added: " c.added
    ++ (field_details " - modified: " c.modified ++ field_details " - removed: " c.removed)

compare_details_of : Option (Option Comparison) → List String
unfolding comparison_details
compare_details_of none = []
compare_details_of (some none) = []
compare_details_of (some (some c)) = comparison_details c

unfoldable pub compare_details : ObjectResult → List String
unfolding compare_details_of
compare_details obj = compare_details_of obj.compare_result

paused_summary : String → List String → List String
unfolding join_lines
paused_summary summary [] = summary ∷ []
paused_summary summary (d ∷ ds) = (summary <> "\n" <> join_lines (d ∷ ds)) ∷ []

paused_messages : Action → List String → List String
unfolding paused_summary
paused_messages created details = "object does not exist" ∷ []
paused_messages recovered details = paused_summary "object was modified by another actor" details
paused_messages _ details = paused_summary "object content has changed" details

unfoldable pub paused_object_messages : ObjectResult → List String
unfolding paused_messages compare_details
paused_object_messages obj = paused_messages obj.action (compare_details obj)

-- `slices.Sorted(maps.Keys(probes))`
insert_key : String → List String → List String
insert_key k [] = k ∷ []
insert_key k (j ∷ ks) =
    let later = j ∷ insert_key k ks in
    elim (compare k j) [ Ordering.lt ↦ k ∷ j ∷ ks | Ordering.eq ↦ j ∷ ks | Ordering.gt ↦ later ]

sorted_keys {ℓ} : {V : Type ℓ} → Map String V → List String
unfolding insert_key
sorted_keys [] = []
sorted_keys ((k, _) ∷ m) = insert_key k (sorted_keys m)

status_messages : String → ProbeStatus → List String → List String
unfolding truncate_message rune_count take_runes
status_messages probe_type probe_true ms = []
status_messages probe_type (probe_other status) [] = (probe_type <> ": " <> status) ∷ []
status_messages probe_type (probe_other status) (m ∷ ms) =
    map (λ t. truncate_message (probe_type <> ": " <> t)) (m ∷ ms)

probe_messages : String → Option ProbeResult → List String
unfolding status_messages
probe_messages probe_type none = []
probe_messages probe_type (some r) = status_messages probe_type r.status r.messages

-- The loop over the sorted probe types.
all_probe_messages : Map String ProbeResult → List String → List String
unfolding probe_messages
all_probe_messages probes [] = []
all_probe_messages probes (k ∷ ks) =
    probe_messages k (lookup probes k) ++ all_probe_messages probes ks

or_not_complete : List String → List String
or_not_complete [] = "not yet complete" ∷ []
or_not_complete (m ∷ ms) = m ∷ ms

unfoldable pub object_messages : ObjectResult → List String
unfolding paused_object_messages all_probe_messages sorted_keys or_not_complete
object_messages obj =
    if obj.is_paused && not (is_idle obj.action)
    then paused_object_messages obj
    else or_not_complete (
        (if is_collision obj.action then "object ownership collision" ∷ [] else [])
        ++ all_probe_messages obj.probe_results (sorted_keys obj.probe_results))
