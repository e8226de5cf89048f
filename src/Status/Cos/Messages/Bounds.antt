-- ===== src/Status/Cos/Messages/Bounds.antt =====
-- How long the messages can be. The resource definition admits 1024 characters each.
use text.Mathlib.TextLemmas.{nil-append, cons-append}
use orb_operator.Base.{
  ℕ, zero, suc, ◌+◌, ◌≤◌, ◌<◌, String, ◌<>◌, ◌≡◌, refl, List, [], ◌∷◌, ◌≢◌, arith, Bool-cases, inl,
  inr, leb, leb→le,
}
use orb_operator.Boxcutter.{Action, created, recovered, ObjectResult}
use orb_operator.Status.Cos.Messages.{
  rune_count, take_runes, truncate_message, join_lines, paused_object_messages, compare_details,
  paused_summary, paused_messages,
}

pub rune_count-append : (s t : String) → rune_count (s <> t) ≡ rune_count s + rune_count t
unfolding rune_count
rune_count-append String.[] t = rw nil-append (omega arith)
rune_count-append (String.◌∷◌ c s) t = rw cons-append (omega (arith, rune_count-append s t))

rune_count-take_runes : (n : ℕ) (s : String) → rune_count (take_runes n s) ≤ n
unfolding rune_count take_runes
rune_count-take_runes zero s = omega arith
rune_count-take_runes (suc n) String.[] = omega arith
rune_count-take_runes (suc n) (String.◌∷◌ c s) = omega (arith, rune_count-take_runes n s)

dots : rune_count "..." ≡ 3
unfolding rune_count
dots = refl

newline : rune_count "\n" ≡ 1
unfolding rune_count
newline = refl

-- A truncated message has at most 1024 characters, and a text of at most 1024 characters is
-- left as it is.
pub rune_count-truncate_message :
    (s : String)
    → (rune_count (truncate_message s) ≤ 1024) × (rune_count s ≤ 1024 → truncate_message s ≡ s)
unfolding truncate_message
rune_count-truncate_message s = elim (Bool-cases (leb (rune_count s) 1024)) [
  | inl short ↦ (rw short (leb→le _ _ short), λ h. rw short)
  | inr long ↦ (
    rw (long, rune_count-append) (omega (arith, rune_count-take_runes 1021 s, dots)),
    λ h. absurd (ground arith),
  )
]

summary-length :
    (s d : String) (ds : List String)
    → (m : String) × (paused_summary s (d ∷ ds) ≡ m ∷ [])
      × (rune_count (join_lines (d ∷ ds)) < rune_count m)
unfolding paused_summary
summary-length s d ds = (
  s <> "\n" <> join_lines (d ∷ ds),
  refl,
  rw (rune_count-append, rune_count-append) (omega (arith, newline)),
)

paused_messages-length :
    (a : Action) (d : String) (ds : List String)
    → a ≢ created
    → (m : String) × (paused_messages a (d ∷ ds) ≡ m ∷ [])
      × (rune_count (join_lines (d ∷ ds)) < rune_count m)
unfolding paused_messages
paused_messages-length created d ds h = absurd (h refl)
paused_messages-length recovered d ds h = summary-length _ d ds
paused_messages-length _ d ds h = summary-length _ d ds

-- The message of a paused object that exists is not truncated: where the comparison lists
-- differences, the object has one message, with more characters than the comparison's lines
-- joined.
pub paused_object_messages-length :
    (obj : ObjectResult) (d : String) (ds : List String)
    → obj.action ≢ created
    → compare_details obj ≡ d ∷ ds
    → (m : String) × (paused_object_messages obj ≡ m ∷ [])
      × (rune_count (join_lines (d ∷ ds)) < rune_count m)
unfolding paused_object_messages
paused_object_messages-length obj d ds h e = rw e (paused_messages-length obj.action d ds h)
