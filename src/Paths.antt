-- ===== src/Paths.antt =====
-- internal/store/paths.go: folder paths, their parents and subtrees, and the resource path of a
-- secret.
pub mod Strings
pub mod Names
pub mod Segments
pub mod Normal
pub mod Parents
pub mod Like
pub mod Mrn
pub mod Subtrees
use maintainerd_secret.Base.{
  ℕ, ◌≡◌, ◌≢◌, refl, sym, ap, ◌∙◌, ◌↔◌, ◌⊎◌, inl, inr, Bool, true, false, not, ◌&&◌, ◌||◌, Option,
  none, some, List, [], ◌∷◌, ◌++◌, reverse, arith, ltb, leb, ◌==◌, ==_iff, if◌then◌else◌, length,
  Bool-cases, Option-cases, All,
}
use maintainerd_secret.Paths.Strings.{
  Text, codes, slash, root, text_eq, has_prefix, trim_prefix, trim_space, split, dot_dot, clean,
}
use maintainerd_secret.Paths.Names.{NameError, validate_folder_name}

abbrev pub max_path_len : ℕ
max_path_len = 1024

abbrev pub max_path_depth : ℕ
max_path_depth = 32

pub data PathError : Type 0 where
  climbs too_long too_deep : PathError
  bad_name : NameError → PathError

-- `for _, seg := range ... { if seg == ".." }`.
unfoldable pub climbs_out : List Text → Bool
climbs_out [] = false
climbs_out (w ∷ ws) = text_eq w dot_dot || climbs_out ws

-- The first segment that is not a folder name.
unfoldable pub first_bad_name : List Text → Option NameError
first_bad_name [] = none
first_bad_name (w ∷ ws) =
    let rest = first_bad_name ws in elim (validate_folder_name w) [ none ↦ rest | some e ↦ some e ]

unfoldable pub check_segments : Text → PathError ⊎ Text
check_segments cleaned =
    let segments = split (trim_prefix cleaned root) in
    if ltb max_path_depth (length segments)
    then inl too_deep
    else elim (first_bad_name segments) [ none ↦ inr cleaned | some e ↦ inl (bad_name e) ]

unfoldable pub check_cleaned : Text → PathError ⊎ Text
check_cleaned cleaned =
    if text_eq cleaned root
    then inr root
    else if ltb max_path_len (length cleaned)
    then inl too_long
    else check_segments cleaned

unfoldable pub rooted : Text → Text
rooted s = if has_prefix s root then s else slash ∷ s

unfoldable pub normalize_path : Text → PathError ⊎ Text
normalize_path p =
    let s = trim_space p in
    if text_eq s [] || text_eq s root
    then inr root
    else if climbs_out (split (rooted s))
    then inl climbs
    else check_cleaned (clean (rooted s))

-- strings.LastIndexByte(s, '/') as the texts before and after the last slash, if there is one.
unfoldable pub cut_last : Text → Option (Text × Text)
cut_last [] = none
cut_last (c ∷ s) = elim (cut_last s) [
  | some (before, after) ↦ some (c ∷ before, after)
  | none ↦ if c == slash then some ([], s) else none
]

abbrev pub tail : Text → Text
tail [] = []
tail (c ∷ s) = s

-- The case `i <= 0` is that of no slash, or of nothing before it.
unfoldable pub split_path : Text → Text × Text
unfolding cut_last
split_path p = if text_eq p root then ([], []) else elim (cut_last p) [
  | none ↦ (root, tail p)
  | some (before, after) ↦ if text_eq before [] then (root, tail p) else (before, after)
]

unfoldable pub join_path : Text → Text → Text
join_path parent name =
    if text_eq parent [] || text_eq parent root then slash ∷ name else parent ++ (slash ∷ name)

unfoldable pub is_at_or_under : Text → Text → Bool
is_at_or_under candidate ancestor =
    text_eq candidate ancestor || text_eq ancestor root || has_prefix candidate (ancestor ++ root)

abbrev pub percent : ℕ
percent = b'%'

abbrev pub underscore : ℕ
underscore = b'_'

abbrev pub backslash : ℕ
backslash = 92

unfoldable pub escape_like : Text → Text
escape_like [] = []
escape_like (c ∷ s) =
    if c == backslash || c == percent || c == underscore
    then backslash ∷ (c ∷ escape_like s)
    else c ∷ escape_like s

unfoldable pub subtree_pattern : Text → Text
unfolding escape_like
subtree_pattern p =
    if text_eq p root then slash ∷ (percent ∷ []) else escape_like p ++ (slash ∷ (percent ∷ []))

abbrev pub secret_prefix : Text
secret_prefix = codes "secret/"

unfoldable pub mrn_resource_path : Text → Text → Text → Text
mrn_resource_path environment folder key =
    if text_eq folder root
    then secret_prefix ++ (environment ++ (slash ∷ key))
    else secret_prefix ++ (environment ++ (folder ++ (slash ∷ key)))
