-- ===== src/Paths/Like.antt =====
-- SubtreePattern against the SQL operator LIKE, whose patterns escape by a backslash: the queries
-- select the paths that IsAtOrUnder accepts.
use mathlib.Core.List.{map-append, append_assoc}
use maintainerd_secret.Base.{
  ℕ, ◌≡◌, refl, Bool, true, false, ◌&&◌, ◌||◌, List, [], ◌∷◌, ◌++◌, map, inl, inr, arith, ◌==◌,
  if◌then◌else◌, Bool-cases,
}
use maintainerd_secret.Paths.Strings.{Text, slash, root, text_eq, text_eq_iff, has_prefix}
use maintainerd_secret.Paths.{
  is_at_or_under, escape_like, subtree_pattern, percent, underscore, backslash,
}

-- `%`, `_` and a character of its own.
pub data LikeToken : Type 0 where
  any_run any_one : LikeToken
  exactly : ℕ → LikeToken

token_of : ℕ → LikeToken
token_of c = if c == percent then any_run else if c == underscore then any_one else exactly c

-- Whether the last character was an escape.
like_tokens : Bool → Text → List LikeToken
like_tokens escaped [] = []
like_tokens true (c ∷ s) = exactly c ∷ like_tokens false s
like_tokens false (c ∷ s) =
    let rest = like_tokens (c == backslash) s in if c == backslash then rest else token_of c ∷ rest

abbrev accepts_suffix : (Text → Bool) → Text → Bool
accepts_suffix p [] = p []
accepts_suffix p (c ∷ s) = p (c ∷ s) || accepts_suffix p s

abbrev accepts_head : (ℕ → Bool) → (Text → Bool) → Text → Bool
accepts_head test p [] = false
accepts_head test p (c ∷ s) = test c && p s

accepts : List LikeToken → Text → Bool
accepts [] [] = true
accepts [] (c ∷ s) = false
accepts (any_run ∷ ts) s = accepts_suffix (accepts ts) s
accepts (any_one ∷ ts) s = accepts_head (λ c. true) (accepts ts) s
accepts (exactly d ∷ ts) s = accepts_head (λ c. c == d) (accepts ts) s

-- `text LIKE pattern`.
unfoldable pub like : Text → Text → Bool
unfolding accepts like_tokens token_of
like text pattern = accepts (like_tokens false pattern) text

-- An escaped text stands for its own characters.
like_tokens-escape_like :
    (s rest : Text)
    → like_tokens false (escape_like s ++ rest) ≡ map exactly s ++ like_tokens false rest
unfolding like_tokens escape_like token_of
like_tokens-escape_like [] rest = refl
like_tokens-escape_like (c ∷ s) rest = ground (arith, like_tokens-escape_like s rest)

accepts-any : (s : Text) → accepts (any_run ∷ []) s ≡ true
unfolding accepts
accepts-any [] = refl
accepts-any (c ∷ s) = accepts-any s

-- Characters of their own before any run are a prefix.
accepts-has_prefix : (p s : Text) → accepts (map exactly p ++ (any_run ∷ [])) s ≡ has_prefix s p
unfolding has_prefix accepts
accepts-has_prefix [] s = accepts-any s
accepts-has_prefix (d ∷ p) [] = refl
accepts-has_prefix (d ∷ p) (c ∷ s) = ground (arith, accepts-has_prefix p s)

map-append_root :
    (p : Text)
    → map exactly (p ++ root) ++ (any_run ∷ []) ≡ map exactly p ++ (exactly slash ∷ (any_run ∷ []))
map-append_root p = simp (map-append, append_assoc)

like-subtree_pattern :
    (p q : Text) → text_eq p root ≡ false → like q (subtree_pattern p) ≡ has_prefix q (p ++ root)
unfolding like subtree_pattern
like-subtree_pattern p q h =
    rw (h, like_tokens-escape_like p (slash ∷ (percent ∷ [])), ← map-append_root p)
      (accepts-has_prefix (p ++ root) q)

like_whole_tree : (q : Text) → like q (subtree_pattern root) ≡ has_prefix q root
unfolding like subtree_pattern text_eq
like_whole_tree q = accepts-has_prefix root q

-- `path = @path OR path LIKE @pattern`, as the queries on a subtree select.
unfoldable pub in_subtree : Text → Text → Bool
in_subtree path p = text_eq path p || like path (subtree_pattern p)

-- The queries select a rooted path for a subtree exactly when it is at or under the subtree's own.
pub in_subtree-is_at_or_under :
    (p q : Text) → has_prefix q root ≡ true → in_subtree q p ≡ is_at_or_under q p
unfolding in_subtree is_at_or_under
in_subtree-is_at_or_under p q h = elim (Bool-cases (text_eq p root)) [
  | inl e ↦ rw ((text_eq_iff p root).0 e) (ground (arith, like_whole_tree q, text_eq_iff root root))
  | inr e ↦ rw (e, like-subtree_pattern p q e) (ground arith)
]

-- For a subtree other than the root's the two agree on every text.
pub in_subtree-not_root :
    (p q : Text) → text_eq p root ≡ false → in_subtree q p ≡ is_at_or_under q p
unfolding in_subtree is_at_or_under
in_subtree-not_root p q e = rw (e, like-subtree_pattern p q e) (ground arith)
