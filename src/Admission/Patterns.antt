-- ===== src/Admission/Patterns.antt =====
-- The patterns of names in the rules of api/v1alpha1: `self.matches('^…$')`, on characters.
use Prim.Native.Char.{code, Char}
use orb_operator.Base.{
  ℕ, String, Bool, true, false, ◌&&◌, ◌||◌, List, [], ◌∷◌, leb, nat_eq, if◌then◌else◌,
}

abbrev pub is_lower : ℕ → Bool
is_lower c = leb b'a' c && leb c b'z'

abbrev pub is_digit : ℕ → Bool
is_digit c = leb b'0' c && leb c b'9'

abbrev pub is_letter : ℕ → Bool
is_letter c = is_lower c || (leb b'A' c && leb c b'Z')

abbrev pub is_lower_alnum : ℕ → Bool
is_lower_alnum c = is_lower c || is_digit c

abbrev pub is_alnum : ℕ → Bool
is_alnum c = is_letter c || is_digit c

-- The rest of a name: all characters are inner ones, and the last one read is a closing one.
unfoldable pub closes : (ℕ → Bool) → (ℕ → Bool) → Bool → String → Bool
closes inner closing ok String.[] = ok
closes inner closing ok (String.◌∷◌ c s) =
    inner (code c) && closes inner closing (closing (code c)) s

-- `^[opening]([inner]*[closing])?$`, where each closing character is an inner one.
unfoldable pub is_framed : (ℕ → Bool) → (ℕ → Bool) → (ℕ → Bool) → String → Bool
unfolding closes
is_framed opening inner closing String.[] = false
is_framed opening inner closing (String.◌∷◌ c s) = opening (code c) && closes inner closing true s

abbrev pub is_label_inner : ℕ → Bool
is_label_inner c = is_lower_alnum c || nat_eq c b'-'

-- `^[a-z]([a-z0-9-]*[a-z0-9])?$`
unfoldable pub is_label : String → Bool
unfolding is_framed
is_label = is_framed is_lower is_label_inner is_lower_alnum

-- `^[a-z0-9]([-a-z0-9]*[a-z0-9])?$`
unfoldable pub is_domain_label : String → Bool
unfolding is_framed
is_domain_label = is_framed is_lower_alnum is_label_inner is_lower_alnum

-- `^[a-zA-Z]([-a-zA-Z0-9]*[a-zA-Z0-9])?$`
unfoldable pub is_kind : String → Bool
unfolding is_framed
is_kind = is_framed is_letter (λ c. is_alnum c || nat_eq c b'-') is_alnum

-- `^[a-z0-9]([a-z0-9.-]*[a-z0-9])?$`
unfoldable pub is_object_name : String → Bool
unfolding is_framed
is_object_name = is_framed is_lower_alnum (λ c. is_label_inner c || nat_eq c b'.') is_lower_alnum

onto : Char → List String → List String
onto c [] = String.◌∷◌ c "" ∷ []
onto c (t ∷ ts) = String.◌∷◌ c t ∷ ts

-- The parts of a text between separators.
unfoldable split_on : ℕ → String → List String
unfolding onto
split_on separator String.[] = "" ∷ []
split_on separator (String.◌∷◌ c s) =
    let parts = split_on separator s in
    if nat_eq (code c) separator then "" ∷ parts else onto c parts

all_domain_labels : List String → Bool
unfolding is_domain_label
all_domain_labels [] = true
all_domain_labels (t ∷ ts) = is_domain_label t && all_domain_labels ts

-- `^[a-z0-9]([-a-z0-9]*[a-z0-9])?(\.[a-z0-9]([-a-z0-9]*[a-z0-9])?)*$`
unfoldable pub is_subdomain : String → Bool
unfolding split_on all_domain_labels
is_subdomain s = all_domain_labels (split_on b'.' s)

are_version_parts : List String → Bool
unfolding is_label is_subdomain
are_version_parts (version ∷ []) = is_label version
are_version_parts (group ∷ version ∷ []) = is_subdomain group && is_label version
are_version_parts _ = false

-- An optional group and a slash, and then a version.
unfoldable pub is_api_version : String → Bool
unfolding split_on are_version_parts
is_api_version s = are_version_parts (split_on b'/' s)
