-- ===== src/Paths/Subtrees.antt =====
-- A path at or under another is that path and a tail, which a move carries over to the new path.
use maintainerd_secret.Base.{
  ◌≡◌, refl, sym, ap, ◌∙◌, subst, ◌⊎◌, true, false, ◌||◌, List, [], ◌∷◌, ◌++◌, inl, inr, arith,
  Bool-cases, length, drop, All,
}
use mathlib.Core.List.{append_assoc, append-nil, foldl}
use maintainerd_secret.Paths.Strings.{Text, slash, root, text_eq, text_eq_iff, has_prefix, render}
use maintainerd_secret.Paths.{join_path, is_at_or_under}
use maintainerd_secret.Paths.Segments.{IsFolderName, IsFolderName-text_eq}
use maintainerd_secret.Paths.Normal.{IsNested, IsNested-text_eq}
use maintainerd_secret.Paths.Parents.{NoSlash}

-- What follows a path in the paths at or under it.
pub data IsTail : Text → Type 0 where
  whole : IsTail []
  below : (s : Text) → IsTail (slash ∷ s)

-- A path other than the root.
abbrev pub NotRoot : Text → Type 0
NotRoot p = (text_eq p [] ≡ false) × (text_eq p root ≡ false)

pub has_prefix-append : (p s : Text) → has_prefix (p ++ s) p ≡ true
unfolding has_prefix
has_prefix-append [] s = refl
has_prefix-append (c ∷ p) s = ground (arith, has_prefix-append p s)

pub has_prefix-split : (q p : Text) → has_prefix q p ≡ true → (s : Text) × (q ≡ p ++ s)
unfolding has_prefix
has_prefix-split q [] h = (q, refl)
has_prefix-split [] (c ∷ p) h = absurd (cc)
has_prefix-split (d ∷ q) (c ∷ p) h =
    let (s, e) = has_prefix-split q p (ground arith) in (s, ground arith)

-- At or under a path that is not the root.
pub is_at_or_under-IsTail :
    (q p : Text) → NotRoot p → is_at_or_under q p ≡ true → (y : Text) × (q ≡ p ++ y) × IsTail y
unfolding is_at_or_under
is_at_or_under-IsTail q p v h = elim (Bool-cases (text_eq q p)) [
  | inl e ↦ ([], (text_eq_iff q p).0 e ∙ sym (append-nil p), whole)
  | inr e ↦
      let (s, f) = has_prefix-split q (p ++ root) (ground arith) in
      (slash ∷ s, f ∙ append_assoc p root s, below s)
]

pub is_at_or_under-append : (p y : Text) → IsTail y → is_at_or_under (p ++ y) p ≡ true
unfolding is_at_or_under
is_at_or_under-append p [] whole = rw (append-nil p) (ground (arith, text_eq_iff p p))
is_at_or_under-append p y (below s) =
    rw (← append_assoc p root s) (ground (arith, has_prefix-append (p ++ root) s))

pub drop-length_append : (p y : Text) → drop (length p) (p ++ y) ≡ y
drop-length_append [] y = refl
drop-length_append (c ∷ p) y = drop-length_append p y

NoSlash-slash : (b x : Text) → ¬ (NoSlash (b ++ (slash ∷ x)))
NoSlash-slash [] x h = let f : true ≡ false = h.0 in cc
NoSlash-slash (c ∷ b) x h = NoSlash-slash b x h.1

-- The common prefix of two texts, the first of which ends in a name.
common_prefix :
    (a b n x : Text)
    → NoSlash n
    → a ++ (slash ∷ n) ≡ b ++ (slash ∷ x)
    → (y : Text) × (a ≡ b ++ y) × IsTail y × (slash ∷ x ≡ y ++ (slash ∷ n))
common_prefix [] [] n x h e = ([], refl, whole, sym e)
common_prefix (c ∷ a) [] n x h e =
    let f : c ≡ slash = cc in
    (slash ∷ a, ap (λ d. d ∷ a) f, below a, sym e ∙ ap (λ d. d ∷ (a ++ (slash ∷ n))) f)
common_prefix [] (d ∷ b) n x h e = absurd (NoSlash-slash b x (subst (λ t. NoSlash t) (cc) h))
common_prefix (c ∷ a) (d ∷ b) n x h e =
    let (y, f, t, g) = common_prefix a b n x h (cc) in (y, cc, t, g)

pub NotRoot-append : (p y : Text) → NotRoot p → NotRoot (p ++ y)
unfolding text_eq
NotRoot-append [] y v = absurd (let f : true ≡ false = v.0 in cc)
NotRoot-append (c ∷ []) y v = (refl, ground arith)
NotRoot-append (c ∷ (d ∷ p)) y v = (refl, ground arith)

-- A folder's path at or under another path, and not at it, has its parent at or under it.
pub parent_under :
    (p n old y : Text)
    → NoSlash n
    → NotRoot old
    → join_path p n ≡ old ++ y
    → IsTail y
    → (y ≡ []) ⊎ ((z : Text) × (p ≡ old ++ z) × IsTail z × (y ≡ z ++ (slash ∷ n)))
unfolding join_path
parent_under p n old y h v e whole = inl refl
parent_under p n old y h v e (below x) = inr (elim (Bool-cases (text_eq p [] || text_eq p root)) [
  | inl r ↦
      let (z, f, t, g) = common_prefix [] old n x h (rw r at e) in
      absurd (ground (arith, (NotRoot-append old z v).0, text_eq_iff (old ++ z) []))
  | inr r ↦ common_prefix p old n x h (rw r at e)
])

pub join_path-NotRoot : (p n : Text) → NotRoot p → join_path p n ≡ p ++ (slash ∷ n)
unfolding join_path
join_path-NotRoot p n v = rw (v.0, v.1) refl

NotRoot-word : (built w : Text) → text_eq w [] ≡ false → NotRoot (built ++ (slash ∷ w))
unfolding text_eq
NotRoot-word [] w h = (refl, h)
NotRoot-word (c ∷ []) w h = (refl, ground arith)
NotRoot-word (c ∷ (d ∷ s)) w h = (refl, ground arith)

join_path-word :
    (built w : Text) → (built ≡ []) ⊎ NotRoot built → join_path built w ≡ built ++ (slash ∷ w)
unfolding join_path text_eq
join_path-word built w (inl e) = rw e refl
join_path-word built w (inr v) = join_path-NotRoot built w v

-- The paths that are joined from names are the text behind their slashes.
pub foldl-join_path :
    (built : Text) (ws : List Text)
    → (built ≡ []) ⊎ NotRoot built
    → All IsFolderName ws
    → foldl join_path built ws ≡ built ++ render ws
unfolding render
foldl-join_path built [] a h = sym (append-nil built)
foldl-join_path built (w ∷ ws) a h =
    ap (λ p. foldl join_path p ws) (join_path-word built w a)
    ∙ (foldl-join_path (built ++ (slash ∷ w)) ws
          (inr (NotRoot-word built w (IsFolderName-text_eq w h.0).0)) h.1
        ∙ append_assoc built (slash ∷ w) (render ws))

pub IsNested-NotRoot : (rest : Text) → IsNested rest → NotRoot (slash ∷ rest)
unfolding text_eq
IsNested-NotRoot rest v = (refl, IsNested-text_eq rest v)
