-- ===== src/Rotation.antt =====
-- internal/rotation/generator.go: what a rotated secret's new value is. Text is a list of code points;
-- the random source is an argument.
pub mod Generated
use maintainerd_secret.Base.{
  ℕ, zero, suc, ◌+◌, ◌-◌, ◌*◌, ◌/◌, ◌%◌, ◌≡◌, Bool, true, false, not, ◌&&◌, ◌||◌, Option, none,
  some, List, [], ◌∷◌, ◌++◌, String, ltb, leb, ◌==◌, if◌then◌else◌, length, str_eq,
}
use maintainerd_secret.Paths.Strings.{Text, codes}

abbrev pub min_length : ℕ
min_length = 12

abbrev pub max_length : ℕ
max_length = 512

abbrev pub default_length : ℕ
default_length = 32

-- Spec. A length below zero is refused as every length below the least one.
pub record Spec : Type 0 where
  pub kind : String
  pub length : ℕ
  pub charset : String
  pub value : String

abbrev pub alphanumeric_alphabet : Text
alphanumeric_alphabet = codes "ABCDEFGHIJKLMNOPQRSTUVWXYZabcdefghijklmnopqrstuvwxyz0123456789"

abbrev pub symbol_alphabet : Text
symbol_alphabet = codes "!#%&()*+,-.:;<=>?@[]^_{|}~"

unfoldable pub alphabet : String → Option Text
alphabet charset =
    if str_eq charset "alphanumeric" || str_eq charset ""
    then some alphanumeric_alphabet
    else if str_eq charset "alphanumeric-symbols"
    then some (alphanumeric_alphabet ++ symbol_alphabet)
    else if str_eq charset "hex" || str_eq charset "base64url"
    then some []
    else none

abbrev pub accept_alphabet : Option Text → Spec → Option Spec
accept_alphabet none s = none
accept_alphabet (some a) s = some s

abbrev pub validate_random : Spec → Option Spec
validate_random s =
    let length = if s.length == 0 then default_length else s.length in
    let charset = if str_eq s.charset "" then "alphanumeric" else s.charset in
    if ltb length min_length || ltb max_length length
    then none
    else accept_alphabet (alphabet charset) (record s { length = length; charset = charset })

-- Validate, with the normalized spec as its result.
unfoldable pub validate : Bool → Spec → Option Spec
validate scheduled s =
    let kind = if str_eq s.kind "" then "random" else s.kind in
    let named = record s { kind = kind } in
    if str_eq kind "random"
    then validate_random named
    else if str_eq kind "supplied"
    then (if scheduled || str_eq s.value "" then none else some named)
    else none

-- What crypto/rand gives: so many bytes, and an index below a bound; or it fails.
pub record Random : Type 0 where
  pub read : ℕ → Option (List ℕ)
  pub index : ℕ → ℕ → Option ℕ

abbrev pub hex_digit : ℕ → ℕ
hex_digit n = if ltb n 10 then 48 + n else 87 + n

-- hex.EncodeToString.
unfoldable pub hex_encode : List ℕ → Text
hex_encode [] = []
hex_encode (b ∷ bs) = hex_digit (b / 16) ∷ hex_digit (b % 16) ∷ hex_encode bs

abbrev pub base64_digit : ℕ → ℕ
base64_digit n =
    if ltb n 26
    then 65 + n
    else if ltb n 52
    then 71 + n
    else if ltb n 62
    then n - 4
    else if n == 62
    then 45
    else 95

-- base64.RawURLEncoding.EncodeToString.
unfoldable pub base64_encode : List ℕ → Text
base64_encode [] = []
base64_encode (a ∷ []) = base64_digit (a / 4) ∷ base64_digit (a % 4 * 16) ∷ []
base64_encode (a ∷ b ∷ []) =
    base64_digit (a / 4) ∷ base64_digit (a % 4 * 16 + b / 16) ∷ base64_digit (b % 16 * 4) ∷ []
base64_encode (a ∷ b ∷ c ∷ rest) =
    base64_digit (a / 4)
    ∷ base64_digit (a % 4 * 16 + b / 16)
    ∷ base64_digit (b % 16 * 4 + c / 64)
    ∷ base64_digit (c % 64)
    ∷ base64_encode rest

-- `s[:n]`, which panics past the end.
unfoldable pub slice_to : ℕ → Text → Option Text
slice_to zero s = some []
slice_to (suc n) [] = none
slice_to (suc n) (c ∷ cs) = elim (slice_to n cs) [ none ↦ none | some r ↦ some (c ∷ r) ]

unfoldable pub char_at : ℕ → Text → Option ℕ
char_at n [] = none
char_at zero (c ∷ cs) = some c
char_at (suc n) (c ∷ cs) = char_at n cs

abbrev pub put_char : Option ℕ → Option Text → Option Text
put_char (some c) (some r) = some (c ∷ r)
put_char _ _ = none

abbrev pub char_drawn : Option ℕ → Text → Option ℕ
char_drawn none alpha = none
char_drawn (some i) alpha = char_at i alpha

-- The loop of randomString, from the last character on; a failure, and an index past the end, which
-- panics, leave no value.
unfoldable pub pick : Random → Text → ℕ → Option Text
pick r alpha zero = some []
pick r alpha (suc n) = put_char (char_drawn (r.index n (length alpha)) alpha) (pick r alpha n)

abbrev pub pick_from : Random → Option Text → ℕ → Option Text
pick_from r none n = none
pick_from r (some alpha) n = pick r alpha n

abbrev pub encode_read : (List ℕ → Text) → ℕ → Option (List ℕ) → Option Text
encode_read encode n none = none
encode_read encode n (some raw) = slice_to n (encode raw)

unfoldable pub random_string : Random → String → ℕ → Option Text
random_string r charset n =
    if str_eq charset "hex"
    then encode_read hex_encode n (r.read ((n + 1) / 2))
    else if str_eq charset "base64url"
    then encode_read base64_encode n (r.read n)
    else pick_from r (alphabet charset) n

-- Generate.
unfoldable pub generate : Random → Spec → Option Text
generate r s =
    if str_eq s.kind "supplied"
    then (if str_eq s.value "" then none else some (codes s.value))
    else if str_eq s.kind "random" || str_eq s.kind ""
    then random_string r s.charset (if s.length == 0 then default_length else s.length)
    else none
