-- ===== src/Paths/Strings.antt =====
-- What internal/store/paths.go uses of Go's strings and path packages, on a text that is the list
-- of its code points. An ASCII text has as many code points as bytes, and no other text passes the
-- name patterns.
use Prim.Native.Char.{code}
use mathlib.Core.List.{foldl}
use maintainerd_secret.Base.{
  ℕ, ◌≡◌, refl, ◌↔◌, String, Bool, true, false, ◌&&◌, ◌||◌, List, [], ◌∷◌, ◌++◌, reverse, arith,
  leb, ◌==◌, if◌then◌else◌,
}

abbrev pub Text : Type 0
Text = List ℕ

-- The code points of a literal.
abbrev pub codes : String → Text
codes String.[] = []
codes (String.◌∷◌ c s) = code c ∷ codes s

abbrev pub slash : ℕ
slash = b'/'

abbrev pub root : Text
root = slash ∷ []

-- `==` of two strings.
unfoldable pub text_eq : Text → Text → Bool
text_eq [] [] = true
text_eq [] (d ∷ t) = false
text_eq (c ∷ s) [] = false
text_eq (c ∷ s) (d ∷ t) = c == d && text_eq s t

pub text_eq_iff : (s t : Text) → (text_eq s t ≡ true) ↔ (s ≡ t)
unfolding text_eq
text_eq_iff [] [] = (λ _. refl, λ _. refl)
text_eq_iff [] (d ∷ t) = (λ e. cc, λ e. cc)
text_eq_iff (c ∷ s) [] = (λ e. cc, λ e. cc)
text_eq_iff (c ∷ s) (d ∷ t) = ground (arith, text_eq_iff s t)

-- strings.HasPrefix.
unfoldable pub has_prefix : Text → Text → Bool
has_prefix s [] = true
has_prefix [] (c ∷ p) = false
has_prefix (d ∷ s) (c ∷ p) = d == c && has_prefix s p

-- strings.TrimPrefix.
unfoldable pub trim_prefix : Text → Text → Text
trim_prefix s [] = s
trim_prefix [] (c ∷ p) = []
trim_prefix (d ∷ s) (c ∷ p) =
    let rest = trim_prefix s p in if has_prefix (d ∷ s) (c ∷ p) then rest else d ∷ s

-- unicode.IsSpace.
unfoldable pub is_space : ℕ → Bool
is_space c =
    leb 9 c && leb c 13
    || c == 32
    || c == 0x85
    || c == 0xa0
    || c == 0x1680
    || leb 0x2000 c && leb c 0x200a
    || c == 0x2028
    || c == 0x2029
    || c == 0x202f
    || c == 0x205f
    || c == 0x3000

unfoldable pub trim_left : Text → Text
trim_left [] = []
trim_left (c ∷ s) = let rest = trim_left s in if is_space c then rest else c ∷ s

-- A character in front of a text whose end is trimmed: it is dropped when only space follows it.
abbrev trim_onto : ℕ → Text → Text
trim_onto c [] = if is_space c then [] else c ∷ []
trim_onto c (d ∷ s) = c ∷ (d ∷ s)

unfoldable pub trim_right : Text → Text
trim_right [] = []
trim_right (c ∷ s) = trim_onto c (trim_right s)

-- strings.TrimSpace.
unfoldable pub trim_space : Text → Text
unfolding trim_left trim_right
trim_space s = trim_right (trim_left s)

abbrev pub onto_first : ℕ → List Text → List Text
onto_first c [] = (c ∷ []) ∷ []
onto_first c (w ∷ ws) = (c ∷ w) ∷ ws

-- strings.Split by a slash: never empty.
unfoldable pub split : Text → List Text
split [] = [] ∷ []
split (c ∷ s) = let rest = split s in if c == slash then [] ∷ rest else onto_first c rest

-- Every word behind a slash.
unfoldable pub render : List Text → Text
render [] = []
render (w ∷ ws) = (slash ∷ w) ++ render ws

abbrev pub dot : Text
dot = b'.' ∷ []

abbrev pub dot_dot : Text
dot_dot = b'.' ∷ (b'.' ∷ [])

abbrev pop : List Text → List Text
pop [] = []
pop (w ∷ ws) = ws

-- path.Clean on one segment of a rooted path, the segments kept so far in reverse.
unfoldable pub clean_step : List Text → Text → List Text
clean_step kept w =
    if text_eq w []
    then kept
    else if text_eq w dot
    then kept
    else if text_eq w dot_dot
    then pop kept
    else w ∷ kept

-- path.Clean of a path with a leading slash.
unfoldable pub clean : Text → Text
unfolding clean_step
clean s =
    let kept = render (reverse (foldl clean_step [] (split s))) in
    if text_eq kept [] then root else kept
