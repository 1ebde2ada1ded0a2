-- ===== src/Paths/Names.antt =====
-- internal/store/paths.go: the validation of slugs, folder names and secret keys, with their
-- regular expressions written out. An error stands without its message text.
use maintainerd_secret.Base.{
  ℕ, zero, suc, Bool, true, false, ◌&&◌, ◌||◌, Option, none, some, [], ◌∷◌, ltb, leb, ◌==◌,
  if◌then◌else◌, length,
}
use maintainerd_secret.Paths.Strings.{Text, text_eq, dot, dot_dot}

abbrev pub max_slug_len : ℕ
max_slug_len = 63

abbrev pub max_folder_name_len : ℕ
max_folder_name_len = 255

abbrev pub max_key_len : ℕ
max_key_len = 255

pub data NameError : Type 0 where
  is_required too_long is_reserved malformed : NameError

abbrev pub is_lower : ℕ → Bool
is_lower c = leb b'a' c && leb c b'z'

abbrev pub is_upper : ℕ → Bool
is_upper c = leb b'A' c && leb c b'Z'

abbrev pub is_digit : ℕ → Bool
is_digit c = leb b'0' c && leb c b'9'

abbrev pub is_alphanumeric : ℕ → Bool
is_alphanumeric c = is_upper c || is_lower c || is_digit c

-- `([middle]{0,n}[edge])?$`.
unfoldable pub matches_end : (ℕ → Bool) → (ℕ → Bool) → ℕ → Text → Bool
matches_end middle edge n [] = true
matches_end middle edge n (c ∷ []) = edge c
matches_end middle edge zero (c ∷ (d ∷ s)) = false
matches_end middle edge (suc n) (c ∷ (d ∷ s)) = middle c && matches_end middle edge n (d ∷ s)

-- `^[edge]([middle]{0,n}[edge])?$`.
unfoldable pub matches_label : (ℕ → Bool) → (ℕ → Bool) → ℕ → Text → Bool
unfolding matches_end
matches_label middle edge n [] = false
matches_label middle edge n (c ∷ s) = edge c && matches_end middle edge n s

-- `[class]{0,n}$`.
unfoldable pub matches_run : (ℕ → Bool) → ℕ → Text → Bool
matches_run class n [] = true
matches_run class zero (c ∷ s) = false
matches_run class (suc n) (c ∷ s) = class c && matches_run class n s

abbrev pub slug_edge : ℕ → Bool
slug_edge c = is_lower c || is_digit c

abbrev pub slug_middle : ℕ → Bool
slug_middle c = is_lower c || is_digit c || c == b'-'

abbrev pub folder_middle : ℕ → Bool
folder_middle c = is_alphanumeric c || c == b'.' || c == b'_' || c == b'-'

abbrev pub key_start : ℕ → Bool
key_start c = is_alphanumeric c || c == b'_'

unfoldable pub slug_pattern : Text → Bool
unfolding matches_label
slug_pattern s = matches_label slug_middle slug_edge 61 s

unfoldable pub folder_name_pattern : Text → Bool
unfolding matches_label
folder_name_pattern s = matches_label folder_middle is_alphanumeric 253 s

unfoldable pub key_pattern : Text → Bool
unfolding matches_run
key_pattern [] = false
key_pattern (c ∷ s) = key_start c && matches_run folder_middle 254 s

unfoldable pub validate_slug : Text → Option NameError
unfolding slug_pattern
validate_slug s =
    if text_eq s []
    then some is_required
    else if ltb max_slug_len (length s)
    then some too_long
    else if slug_pattern s
    then none
    else some malformed

unfoldable pub validate_folder_name : Text → Option NameError
unfolding folder_name_pattern
validate_folder_name s =
    if text_eq s []
    then some is_required
    else if ltb max_folder_name_len (length s)
    then some too_long
    else if text_eq s dot || text_eq s dot_dot
    then some is_reserved
    else if folder_name_pattern s
    then none
    else some malformed

unfoldable pub validate_key : Text → Option NameError
unfolding key_pattern
validate_key s =
    if text_eq s []
    then some is_required
    else if ltb max_key_len (length s)
    then some too_long
    else if key_pattern s
    then none
    else some malformed
