-- ===== src/Paths/Normal.antt =====
-- Canonical folder paths: what NormalizePath returns, and returns for itself.
use mathlib.Core.List.{foldl, reverse-reverse}
use maintainerd_secret.Base.{
  ℕ, ◌≤◌, ◌≡◌, refl, sym, inl, inr, false, ◌||◌, none, some, List, [], ◌∷◌, ◌++◌, reverse, arith,
  ltb, if◌then◌else◌, length, Bool-cases, Option-cases, All, All-map,
}
use maintainerd_secret.Paths.Strings.{
  Text, slash, root, text_eq, has_prefix, trim_prefix, is_space, trim_space, split, render,
  clean_step, clean,
}
use maintainerd_secret.Paths.{
  normalize_path, check_cleaned, check_segments, rooted, first_bad_name, climbs_out, max_path_len,
  max_path_depth, too_deep, bad_name,
}
use maintainerd_secret.Paths.Names.{is_required, validate_folder_name}
use maintainerd_secret.Paths.Segments.{
  IsNameChar, IsFolderName, IsFolderName-All, All-IsFolderName, first_bad_name-none, render-split,
  All-split_chars, climbs_out-names, clean_step-names, clean_step-split_rooted,
  climbs_out-split_rooted, trim_space-none,
}

-- A text behind a slash whose segments are folder names, within the bounds.
pub record IsNested (rest : Text) : Type 0 where
  pub names : All IsFolderName (split rest)
  pub shallow : length (split rest) ≤ max_path_depth
  pub short : length (slash ∷ rest) ≤ max_path_len

-- The root, or a slash and a nested path.
pub data IsCanonical : Text → Type 0 where
  at_root : {p : Text} → p ≡ root → IsCanonical p
  nested : {p rest : Text} → p ≡ slash ∷ rest → IsNested rest → IsCanonical p

-- No folder has the empty name, so a nested path is not the root.
pub IsNested-text_eq : (rest : Text) → IsNested rest → text_eq (slash ∷ rest) root ≡ false
unfolding text_eq validate_folder_name split
IsNested-text_eq [] v = absurd (let f : some is_required ≡ none = v.names.0 in cc)
IsNested-text_eq (c ∷ s) v = refl

trim_prefix-slash : (rest : Text) → trim_prefix (slash ∷ rest) root ≡ rest
unfolding trim_prefix has_prefix
trim_prefix-slash rest = refl

check_segments-nested :
    (rest : Text) → IsNested rest → check_segments (slash ∷ rest) ≡ inr (slash ∷ rest)
unfolding check_segments
check_segments-nested rest v =
    rw (trim_prefix-slash rest, first_bad_name-none (split rest) v.names)
      (ground (arith, v.shallow))

check_cleaned-nested :
    (rest : Text) → IsNested rest → check_cleaned (slash ∷ rest) ≡ inr (slash ∷ rest)
unfolding check_cleaned
check_cleaned-nested rest v =
    ground (arith, IsNested-text_eq rest v, v.short, check_segments-nested rest v)

clean-nested : (rest : Text) → IsNested rest → clean (slash ∷ rest) ≡ slash ∷ rest
unfolding clean text_eq
clean-nested rest v =
    rw
      (
        clean_step-split_rooted rest,
        clean_step-names [] (split rest) v.names,
        reverse-reverse (split rest),
        render-split rest,
      )
      refl

trim_space-nested : (rest : Text) → IsNested rest → trim_space (slash ∷ rest) ≡ slash ∷ rest
unfolding is_space
trim_space-nested rest v = trim_space-none (slash ∷ rest) (
  refl,
  All-split_chars (λ c. is_space c ≡ false) rest refl (All-map _ _ no_space (split rest) v.names),
)
  where
    no_space_char : (c : ℕ) → IsNameChar c → is_space c ≡ false
    no_space_char c h = ground arith

    no_space : (w : Text) → IsFolderName w → All (λ c. is_space c ≡ false) w
    no_space w h = All-map _ _ no_space_char w (IsFolderName-All w h)

normalize_path-root : normalize_path root ≡ inr root
unfolding normalize_path text_eq trim_space is_space
normalize_path-root = refl

rooted-slash : (rest : Text) → rooted (slash ∷ rest) ≡ slash ∷ rest
unfolding rooted has_prefix
rooted-slash rest = refl

normalize_path-nested :
    (rest : Text) → IsNested rest → normalize_path (slash ∷ rest) ≡ inr (slash ∷ rest)
unfolding normalize_path text_eq
normalize_path-nested rest v =
    rw
      (
        trim_space-nested rest v,
        rooted-slash rest,
        IsNested-text_eq rest v,
        climbs_out-split_rooted rest,
        climbs_out-names (split rest) v.names,
        clean-nested rest v,
      )
      (check_cleaned-nested rest v)

-- A canonical path is its own normal form.
pub normalize_path-canonical : (p : Text) → IsCanonical p → normalize_path p ≡ inr p
normalize_path-canonical p (at_root e) = rw e normalize_path-root
normalize_path-canonical p (nested {rest} e v) = rw e (normalize_path-nested rest v)

-- The cleaned path is rooted.
clean-rooted : (s : Text) → (rest : Text) × (clean s ≡ slash ∷ rest)
unfolding clean render text_eq
clean-rooted s = rooted_either (reverse (foldl clean_step [] (split s)))
  where
    rooted_either :
        (ws : List Text)
        → (rest : Text) × ((if text_eq (render ws) [] then root else render ws) ≡ slash ∷ rest)
    rooted_either [] = ([], refl)
    rooted_either (w ∷ ws) = (w ++ render ws, refl)

check_segments-IsCanonical :
    (rest q : Text)
    → length (slash ∷ rest) ≤ max_path_len
    → check_segments (slash ∷ rest) ≡ inr q
    → IsCanonical q
unfolding check_segments
check_segments-IsCanonical rest q short h =
    elim (Bool-cases (ltb max_path_depth (length (split rest)))) [
      | inl e ↦ absurd (let f : inl too_deep ≡ inr q = rw (trim_prefix-slash rest, e) at h in cc)
      | inr e ↦ elim (Option-cases (first_bad_name (split rest))) [
        | inl b ↦
            nested
              (sym
                (let f : inr (slash ∷ rest) ≡ inr q = rw (trim_prefix-slash rest, e, b) at h in cc))
              (record {
                names = All-IsFolderName (split rest) b;
                shallow = ground arith;
                short = short;
              })
        | inr (a, b) ↦
            absurd (let f : inl (bad_name a) ≡ inr q = rw (trim_prefix-slash rest, e, b) at h in cc)
      ]
    ]

check_cleaned-IsCanonical : (rest q : Text) → check_cleaned (slash ∷ rest) ≡ inr q → IsCanonical q
unfolding check_cleaned
check_cleaned-IsCanonical rest q h = elim (Bool-cases (text_eq (slash ∷ rest) root)) [
  | inl e ↦ at_root (ground arith)
  | inr e ↦ elim (Bool-cases (ltb max_path_len (length (slash ∷ rest)))) [
    | inl f ↦ absurd (ground arith)
    | inr f ↦ check_segments-IsCanonical rest q (ground arith) (ground arith)
  ]
]

-- What NormalizePath returns is canonical.
pub normalize_path-IsCanonical : (p q : Text) → normalize_path p ≡ inr q → IsCanonical q
unfolding normalize_path
normalize_path-IsCanonical p q h =
    let s = trim_space p in
    let (rest, e) = clean-rooted (rooted s) in
    elim (Bool-cases (text_eq s [] || text_eq s root)) [
      | inl f ↦ at_root (ground arith)
      | inr f ↦ elim (Bool-cases (climbs_out (split (rooted s)))) [
        | inl g ↦ absurd (ground arith)
        | inr g ↦ check_cleaned-IsCanonical rest q (rw (f, g, e) at h)
      ]
    ]

-- NormalizePath returns a canonical path, which it returns for itself.
pub normalize_path_idem :
    (p q : Text) → normalize_path p ≡ inr q → IsCanonical q × (normalize_path q ≡ inr q)
normalize_path_idem p q h =
    let c = normalize_path-IsCanonical p q h in (c, normalize_path-canonical q c)
