-- ===== src/Paths/Mrn.antt =====
-- The resource path of a secret names its environment, folder and key: no two addresses share one.
use maintainerd_secret.Base.{ℕ, zero, suc, ◌≡◌, true, none, [], ◌∷◌, arith, if◌then◌else◌}
use maintainerd_secret.Paths.Strings.{Text, root, text_eq}
use maintainerd_secret.Paths.Names.{
  validate_slug, validate_key, slug_middle, slug_edge, matches_end, matches_label, matches_run,
  folder_middle,
}
use maintainerd_secret.Paths.Parents.{NoSlash}

matches_end-NoSlash : (n : ℕ) (s : Text) → matches_end slug_middle slug_edge n s ≡ true → NoSlash s
unfolding matches_end
matches_end-NoSlash n [] h = tt
matches_end-NoSlash n (c ∷ []) h = (ground arith, tt)
matches_end-NoSlash zero (c ∷ (d ∷ s)) h = absurd (cc)
matches_end-NoSlash (suc n) (c ∷ (d ∷ s)) h =
    (ground arith, matches_end-NoSlash n (d ∷ s) (ground arith))

pub validate_slug-NoSlash : (s : Text) → validate_slug s ≡ none → NoSlash s
unfolding validate_slug matches_label
validate_slug-NoSlash [] h = tt
validate_slug-NoSlash (c ∷ s) h = (ground arith, matches_end-NoSlash 61 s (ground arith))

matches_run-NoSlash : (n : ℕ) (s : Text) → matches_run folder_middle n s ≡ true → NoSlash s
unfolding matches_run
matches_run-NoSlash n [] h = tt
matches_run-NoSlash zero (c ∷ s) h = absurd (cc)
matches_run-NoSlash (suc n) (c ∷ s) h = (ground arith, matches_run-NoSlash n s (ground arith))

pub validate_key-NoSlash : (s : Text) → validate_key s ≡ none → NoSlash s
unfolding validate_key
validate_key-NoSlash [] h = tt
validate_key-NoSlash (c ∷ s) h = (ground arith, matches_run-NoSlash 254 s (ground arith))

-- The folder's part of the resource path: nothing for the root.
stem : Text → Text
stem folder = if text_eq folder root then [] else folder
