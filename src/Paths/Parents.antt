-- ===== src/Paths/Parents.antt =====
-- A folder path is its parent's path and its name: SplitPath and JoinPath are inverse.
use maintainerd_secret.Base.{
  ℕ, ◌≡◌, ◌≢◌, inl, inr, refl, sym, ap, subst, false, Option, none, some, List, [], ◌∷◌, ◌++◌,
  arith, ◌==◌, length, length-append, Bool-cases, Option-cases, All, All-map, All-split,
}
use maintainerd_secret.Paths.Strings.{Text, slash, root, text_eq, split, onto_first}
use maintainerd_secret.Paths.{cut_last, split_path, join_path}
use maintainerd_secret.Paths.Segments.{
  IsNameChar, IsFolderName, IsFolderName-All, IsFolderName-text_eq,
}
use maintainerd_secret.Paths.Normal.{IsNested, IsCanonical, at_root, nested, IsNested-text_eq}

abbrev pub NoSlash : Text → Type 0
NoSlash s = All (λ c. (c == slash) ≡ false) s

IsNameChar-no_slash : (c : ℕ) → IsNameChar c → (c == slash) ≡ false
IsNameChar-no_slash c h = ground arith

pub IsFolderName-NoSlash : (w : Text) → IsFolderName w → NoSlash w
IsFolderName-NoSlash w h = All-map _ _ IsNameChar-no_slash w (IsFolderName-All w h)

pub cut_last-none : (s : Text) → NoSlash s → cut_last s ≡ none
unfolding cut_last
cut_last-none [] h = refl
cut_last-none (c ∷ s) h = rw (cut_last-none s h.1, cut_last) (rw h.0 refl)

pub cut_last-append :
    (before after : Text)
    → NoSlash after
    → cut_last (before ++ (slash ∷ after)) ≡ some (before, after)
unfolding cut_last
cut_last-append [] after h = rw (cut_last-none after h, cut_last) refl
cut_last-append (c ∷ before) after h = rw (cut_last-append before after h, cut_last) refl

NoSlash-cut_last : (s : Text) → cut_last s ≡ none → NoSlash s
unfolding cut_last
NoSlash-cut_last [] h = tt
NoSlash-cut_last (c ∷ s) h = elim (Option-cases (cut_last s)) [
  | inl e ↦ (ground arith, NoSlash-cut_last s e)
  | inr ((b, a), e) ↦ absurd (ground arith)
]

cut_last-some :
    (s before after : Text)
    → cut_last s ≡ some (before, after)
    → (s ≡ before ++ (slash ∷ after)) × NoSlash after
unfolding cut_last
cut_last-some [] before after h = absurd (cc)
cut_last-some (c ∷ s) before after h = elim (Option-cases (cut_last s)) [
  | inl e ↦ elim (Bool-cases (c == slash)) [
    | inl g ↦
        let f : ◌≡◌ {A = Option (Text × Text)} (some ([], s)) (some (before, after)) =
          rw (e, g, cut_last) at h in
        (ground arith, subst (λ t. NoSlash t) (cc) (NoSlash-cut_last s e))
    | inr g ↦ absurd (
        let f : ◌≡◌ {A = Option (Text × Text)} none (some (before, after)) =
          rw (e, g, cut_last) at h in
        cc)
  ]
  | inr ((b, a), e) ↦
      let (f, g) = cut_last-some s b a e in
      let k : ◌≡◌ {A = Option (Text × Text)} (some (c ∷ b, a)) (some (before, after)) =
        rw (e, cut_last) at h in
      (ground arith, subst (λ t. NoSlash t) (cc) g)
]

onto_first-ne-nil : (c : ℕ) (ws : List Text) → onto_first c ws ≢ []
onto_first-ne-nil c [] h = cc
onto_first-ne-nil c (w ∷ ws) h = cc

split-ne-nil : (s : Text) → split s ≢ []
unfolding split
split-ne-nil [] h = cc
split-ne-nil (c ∷ s) h = elim (Bool-cases (c == slash)) [
  | inl e ↦ let f : [] ∷ split s ≡ [] = rw e at h in cc
  | inr e ↦ onto_first-ne-nil c (split s) (rw e at h)
]

onto_first-append :
    (c : ℕ) (ws vs : List Text) → ws ≢ [] → onto_first c ws ++ vs ≡ onto_first c (ws ++ vs)
onto_first-append c [] vs h = absurd (h refl)
onto_first-append c (w ∷ ws) vs h = refl

-- The segments of two texts with a slash between them are those of both.
split-append : (s t : Text) → split (s ++ (slash ∷ t)) ≡ split s ++ split t
unfolding split
split-append [] t = refl
split-append (c ∷ s) t = elim (Bool-cases (c == slash)) [
  | inl e ↦ rw e (ap (λ ws. [] ∷ ws) (split-append s t))
  | inr e ↦
      rw (e, split-append s t) (sym (onto_first-append c (split s) (split t) (split-ne-nil s)))
]

split-NoSlash : (s : Text) → NoSlash s → split s ≡ s ∷ []
unfolding split
split-NoSlash [] h = refl
split-NoSlash (c ∷ s) h = rw h.0 (ap (onto_first c) (split-NoSlash s h.1))

join_path-root : (name : Text) → join_path root name ≡ slash ∷ name
unfolding join_path text_eq
join_path-root name = refl

join_path-nested :
    (rest name : Text)
    → IsNested rest
    → join_path (slash ∷ rest) name ≡ slash ∷ (rest ++ (slash ∷ name))
unfolding join_path text_eq
join_path-nested rest name v = rw (IsNested-text_eq rest v) refl

split_path-root : (name : Text) → IsFolderName name → split_path (slash ∷ name) ≡ (root, name)
unfolding split_path text_eq cut_last
split_path-root name v =
    rw ((IsFolderName-text_eq name v).0, cut_last-none name (IsFolderName-NoSlash name v)) refl

text_eq-append_slash : (s t : Text) → text_eq (slash ∷ (s ++ (slash ∷ t))) root ≡ false
unfolding text_eq
text_eq-append_slash [] t = refl
text_eq-append_slash (c ∷ s) t = refl

split_path-nested :
    (rest name : Text)
    → NoSlash name
    → split_path (slash ∷ (rest ++ (slash ∷ name))) ≡ (slash ∷ rest, name)
unfolding split_path text_eq
split_path-nested rest name h =
    rw (text_eq-append_slash rest name, cut_last-append (slash ∷ rest) name h) refl

-- A folder of a canonical parent is split into the parent and its own name.
pub split_path-join_path :
    (parent name : Text)
    → IsCanonical parent
    → IsFolderName name
    → split_path (join_path parent name) ≡ (parent, name)
split_path-join_path parent name (at_root e) v =
    rw (e, join_path-root name) (split_path-root name v)
split_path-join_path parent name (nested {rest} e p) v =
    rw (e, join_path-nested rest name p) (split_path-nested rest name (IsFolderName-NoSlash name v))

-- The part of a nested path before its last slash is nested, and the part after it is a name.
IsNested-split :
    (before after : Text)
    → IsNested (before ++ (slash ∷ after))
    → NoSlash after
    → IsNested before × IsFolderName after
IsNested-split before after v h =
    let names : All IsFolderName (split before ++ (after ∷ [])) =
      rw (split-append before after, split-NoSlash after h) at v.names in
    let (front, back) = All-split IsFolderName (split before) (after ∷ []) names in
    (
      record {
        names = front;
        shallow = omega (
          arith,
          v.shallow,
          ap length (split-append before after),
          length-append (split before) (split after),
        );
        short = omega (arith, v.short, length-append before (slash ∷ after));
      },
      back.0,
    )

-- A folder path other than the root is joined from its canonical parent and its name.
pub join_path-split_path :
    (p : Text)
    → IsCanonical p
    → p ≢ root
    → IsCanonical (split_path p).0
      × IsFolderName (split_path p).1
      × (join_path (split_path p).0 (split_path p).1 ≡ p)
join_path-split_path p (at_root e) h = absurd (h e)
join_path-split_path p (nested {rest} e v) h = elim (Option-cases (cut_last rest)) [
  | inl f ↦
      let names : All IsFolderName (rest ∷ []) =
        rw (split-NoSlash rest (NoSlash-cut_last rest f)) at v.names in
      rw (e, split_path-root rest names.0) (at_root refl, names.0, join_path-root rest)
  | inr ((b, a), f) ↦
      let (g, k) = cut_last-some rest b a f in
      let (before, after) = IsNested-split b a (subst IsNested g v) k in
      rw (e, g, split_path-nested b a k) (nested refl before, after, join_path-nested b a before)
]
