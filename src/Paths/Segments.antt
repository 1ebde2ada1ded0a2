-- ===== src/Paths/Segments.antt =====
-- The segments of a path: its text is theirs behind slashes, and names have no slash, no space and
-- are no dots.
use mathlib.Core.List.{foldl, reverse_aux}
use maintainerd_secret.Base.{
  ℕ, zero, suc, ◌≡◌, refl, sym, ap, ◌∙◌, subst, inl, inr, true, false, none, some, List, [], ◌∷◌,
  arith, ◌==◌, ==_iff, Bool-cases, Option-cases, All,
}
use maintainerd_secret.Paths.Strings.{
  Text, slash, text_eq, is_space, trim_left, trim_right, trim_space, split, render, dot, dot_dot,
  clean_step, onto_first,
}
use maintainerd_secret.Paths.Names.{
  validate_folder_name, folder_middle, matches_end, matches_label, is_alphanumeric,
}
use maintainerd_secret.Paths.{first_bad_name, climbs_out}

-- A character of a folder name.
abbrev pub IsNameChar : ℕ → Type 0
IsNameChar c = folder_middle c ≡ true

abbrev pub IsFolderName : Text → Type 0
IsFolderName w = validate_folder_name w ≡ none

matches_end-All :
    (n : ℕ) (s : Text) → matches_end folder_middle is_alphanumeric n s ≡ true → All IsNameChar s
unfolding matches_end
matches_end-All n [] h = tt
matches_end-All n (c ∷ []) h = (ground arith, tt)
matches_end-All zero (c ∷ (d ∷ s)) h = absurd (cc)
matches_end-All (suc n) (c ∷ (d ∷ s)) h = (ground arith, matches_end-All n (d ∷ s) (ground arith))

pub IsFolderName-All : (w : Text) → IsFolderName w → All IsNameChar w
unfolding validate_folder_name matches_label
IsFolderName-All [] h = tt
IsFolderName-All (c ∷ s) h = (ground arith, matches_end-All 253 s (ground arith))

-- No name is empty, the current or the parent folder.
pub IsFolderName-text_eq :
    (w : Text)
    → IsFolderName w
    → (text_eq w [] ≡ false) × (text_eq w dot ≡ false) × (text_eq w dot_dot ≡ false)
unfolding validate_folder_name
IsFolderName-text_eq w h = ground arith

pub All-IsFolderName : (ws : List Text) → first_bad_name ws ≡ none → All IsFolderName ws
unfolding first_bad_name
All-IsFolderName [] h = tt
All-IsFolderName (w ∷ ws) h = elim (Option-cases (validate_folder_name w)) [
  | inl e ↦ (e, All-IsFolderName ws (rw (e, first_bad_name) at h))
  | inr (a, e) ↦ absurd (let f : some a ≡ none = rw (e, first_bad_name) at h in cc)
]

pub first_bad_name-none : (ws : List Text) → All IsFolderName ws → first_bad_name ws ≡ none
unfolding first_bad_name
first_bad_name-none [] h = refl
first_bad_name-none (w ∷ ws) h = rw (h.0, first_bad_name) (first_bad_name-none ws h.1)

render-onto_first :
    (c : ℕ) (s : Text) (ws : List Text)
    → render ws ≡ slash ∷ s
    → render (onto_first c ws) ≡ slash ∷ (c ∷ s)
unfolding render
render-onto_first c s [] h = absurd (let f : [] ≡ slash ∷ s = h in cc)
render-onto_first c s (w ∷ ws) h = ground arith

pub render-split : (s : Text) → render (split s) ≡ slash ∷ s
unfolding render split
render-split [] = refl
render-split (c ∷ s) = elim (Bool-cases (c == slash)) [
  | inl e ↦
      rw e (ap (λ t. slash ∷ t) (render-split s ∙ ap (λ d. d ∷ s) (sym ((==_iff c slash).0 e))))
  | inr e ↦ rw e (render-onto_first c s (split s) (render-split s))
]

onto_first-All {κ} :
    (P : ℕ → Type κ) (c : ℕ) (ws : List Text)
    → All (λ w. All P w) (onto_first c ws)
    → P c × All (λ w. All P w) ws
onto_first-All P c [] h = (h.0.0, tt)
onto_first-All P c (w ∷ ws) h = (h.0.0, (h.0.1, h.1))

-- What holds of the slash and of every character of the segments holds of the text.
pub All-split_chars {κ} :
    (P : ℕ → Type κ) (s : Text) → P slash → All (λ w. All P w) (split s) → All P s
unfolding split
All-split_chars P [] p h = tt
All-split_chars P (c ∷ s) p h = elim (Bool-cases (c == slash)) [
  | inl e ↦
      let rest : All (λ w. All P w) ([] ∷ split s) = rw e at h in
      (subst P (sym ((==_iff c slash).0 e)) p, All-split_chars P s p rest.1)
  | inr e ↦
      let (here, rest) = onto_first-All P c (split s) (rw e at h) in
      (here, All-split_chars P s p rest)
]

-- Names are climbed through by no segment.
pub climbs_out-names : (ws : List Text) → All IsFolderName ws → climbs_out ws ≡ false
unfolding climbs_out
climbs_out-names [] h = refl
climbs_out-names (w ∷ ws) h = ground (arith, IsFolderName-text_eq w h.0, climbs_out-names ws h.1)

-- Cleaning keeps every name.
clean_step-name : (kept : List Text) (w : Text) → IsFolderName w → clean_step kept w ≡ w ∷ kept
unfolding clean_step
clean_step-name kept w h = ground (arith, IsFolderName-text_eq w h)

pub clean_step-names :
    (kept ws : List Text) → All IsFolderName ws → foldl clean_step kept ws ≡ reverse_aux ws kept
clean_step-names kept [] h = refl
clean_step-names kept (w ∷ ws) h =
    rw (clean_step-name kept w h.0) (clean_step-names (w ∷ kept) ws h.1)

trim_right-none : (s : Text) → All (λ c. is_space c ≡ false) s → trim_right s ≡ s
unfolding trim_right
trim_right-none [] h = refl
trim_right-none (c ∷ []) h = rw h.0 refl
trim_right-none (c ∷ (d ∷ s)) h = rw (trim_right-none (d ∷ s) h.1) refl

-- A text with no space is its own trimmed text.
pub trim_space-none : (s : Text) → All (λ c. is_space c ≡ false) s → trim_space s ≡ s
unfolding trim_space trim_left
trim_space-none [] h = refl
trim_space-none (c ∷ s) h = rw h.0 (trim_right-none (c ∷ s) h)

-- A leading slash opens with an empty segment, which cleaning drops.
pub clean_step-split_rooted :
    (s : Text) → foldl clean_step [] (split (slash ∷ s)) ≡ foldl clean_step [] (split s)
unfolding clean_step split text_eq
clean_step-split_rooted s = refl

pub climbs_out-split_rooted : (s : Text) → climbs_out (split (slash ∷ s)) ≡ climbs_out (split s)
unfolding climbs_out split text_eq
climbs_out-split_rooted s = refl
