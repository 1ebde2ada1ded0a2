-- ===== src/Base/Lists.antt =====
-- Lists measured by native numbers, searched and filtered by Boolean tests.
use Prim.Native.Nat.{ℕ, zero, suc, ◌+◌, ◌≤◌, ◌<◌, min}
use mathlib.Core.Path.{◌≡◌, refl}
use mathlib.Core.Bool.{Bool, true, false}
use mathlib.Core.Option.{Option, none, some}
use mathlib.Core.Logic.{inl, inr}
use mathlib.Core.List.{List, [], ◌∷◌, ◌++◌}
use native.Mathlib.Omega.{arith}
use maintainerd_secret.Base.Tests.{if◌then◌else◌, Bool-cases}

module _ {ℓ} {A : Type ℓ} where
  abbrev pub length : List A → ℕ
  length [] = 0
  length (x ∷ xs) = suc (length xs)

  -- Every entry satisfies the predicate.
  abbrev pub All {κ} : (A → Type κ) → List A → Type κ
  All P [] = Unit
  All P (x ∷ xs) = P x × All P xs

  -- The first entry that passes the test.
  unfoldable pub find_first : (A → Bool) → List A → Option A
  find_first p [] = none
  find_first p (x ∷ xs) = if p x then some x else find_first p xs

  -- The entries that pass the test, in order.
  unfoldable pub keep : (A → Bool) → List A → List A
  keep p [] = []
  keep p (x ∷ xs) = let rest = keep p xs in if p x then x ∷ rest else rest

  -- Rewrites each entry that passes the test, as an SQL UPDATE does.
  unfoldable pub update_where : (A → Bool) → (A → A) → List A → List A
  update_where p f [] = []
  update_where p f (x ∷ xs) = let rest = update_where p f xs in if p x then f x ∷ rest else x ∷ rest

  -- The number of entries that pass the test.
  unfoldable pub count_where : (A → Bool) → List A → ℕ
  count_where p [] = 0
  count_where p (x ∷ xs) = let rest = count_where p xs in if p x then suc rest else rest

  abbrev pub take : ℕ → List A → List A
  take zero xs = []
  take (suc n) [] = []
  take (suc n) (x ∷ xs) = x ∷ take n xs

  abbrev pub drop : ℕ → List A → List A
  drop zero xs = xs
  drop (suc n) [] = []
  drop (suc n) (x ∷ xs) = drop n xs

  pub length-append : (xs ys : List A) → length (xs ++ ys) ≡ length xs + length ys
  length-append [] ys = omega arith
  length-append (x ∷ xs) ys = omega (arith, length-append xs ys)

  pub length-take : (n : ℕ) (xs : List A) → length (take n xs) ≡ min n (length xs)
  length-take zero xs = omega arith
  length-take (suc n) [] = omega arith
  length-take (suc n) (x ∷ xs) = omega (arith, length-take n xs)

  -- An update whose result passes a test only where the row did leaves no more rows that pass.
  pub count_where-update_where-le :
      (q p : A → Bool) (f : A → A)
      → ((x : A) → q (f x) ≡ true → q x ≡ true)
      → (xs : List A) → count_where q (update_where p f xs) ≤ count_where q xs
  unfolding count_where update_where
  count_where-update_where-le q p f h [] = omega arith
  count_where-update_where-le q p f h (x ∷ xs) =
      ground (arith, h x, count_where-update_where-le q p f h xs)

  pub count_where-find_first-none :
      (q : A → Bool) (xs : List A) → find_first q xs ≡ none → count_where q xs ≡ 0
  unfolding count_where find_first
  count_where-find_first-none q [] h = refl
  count_where-find_first-none q (x ∷ xs) h = ground (arith, count_where-find_first-none q xs)

  pub update_where-All {κ} :
      (P : A → Type κ) (p : A → Bool) (f : A → A)
      → ((x : A) → p x ≡ true → P x → P (f x))
      → (xs : List A) → All P xs
      → All P (update_where p f xs)
  unfolding update_where
  update_where-All P p f h [] a = tt
  update_where-All P p f h (x ∷ xs) a = elim (Bool-cases (p x)) [
    | inl e ↦ rw e (h x e a.0, update_where-All P p f h xs a.1)
    | inr e ↦ rw e (a.0, update_where-All P p f h xs a.1)
  ]

  -- An update that matches no row changes nothing.
  pub update_where-find_first-none :
      (p : A → Bool) (f : A → A) (xs : List A) → find_first p xs ≡ none → update_where p f xs ≡ xs
  unfolding update_where find_first
  update_where-find_first-none p f [] h = refl
  update_where-find_first-none p f (x ∷ xs) h = ground (arith, update_where-find_first-none p f xs)

  -- A row that is found passes the test.
  pub find_first_passes :
      (p : A → Bool) (xs : List A) (a : A) → find_first p xs ≡ some a → p a ≡ true
  unfolding find_first
  find_first_passes p [] a h = cc
  find_first_passes p (x ∷ xs) a h = elim (Bool-cases (p x)) [
    | inl e ↦ ground arith
    | inr e ↦ ground (arith, find_first_passes p xs a)
  ]

  abbrev pub sum : (A → ℕ) → List A → ℕ
  sum f [] = 0
  sum f (x ∷ xs) = f x + sum f xs

  pub sum-append : (f : A → ℕ) (xs ys : List A) → sum f (xs ++ ys) ≡ sum f xs + sum f ys
  sum-append f [] ys = omega arith
  sum-append f (x ∷ xs) ys = omega (arith, sum-append f xs ys)

  pub All-append {κ} : (P : A → Type κ) (xs ys : List A) → All P xs → All P ys → All P (xs ++ ys)
  All-append P [] ys a b = b
  All-append P (x ∷ xs) ys a b = (a.0, All-append P xs ys a.1 b)

  pub All-split {κ} : (P : A → Type κ) (xs ys : List A) → All P (xs ++ ys) → All P xs × All P ys
  All-split P [] ys a = (tt, a)
  All-split P (x ∷ xs) ys a = let (p, q) = All-split P xs ys a.1 in ((a.0, p), q)

  -- An entry is taken out of a list.
  pub sum-remove :
      (f : A → ℕ) (xs ys : List A) (a : A) → sum f (xs ++ (a ∷ ys)) ≡ f a + sum f (xs ++ ys)
  sum-remove f xs ys a = omega (arith, sum-append f xs (a ∷ ys), sum-append f xs ys)

  pub All-remove {κ} :
      (P : A → Type κ) (xs ys : List A) (a : A) → All P (xs ++ (a ∷ ys)) → P a × All P (xs ++ ys)
  All-remove P xs ys a h =
      let (before, after) = All-split P xs (a ∷ ys) h in
      (after.0, All-append P xs ys before after.1)

  pub All-map {κ μ} :
      (P : A → Type κ) (Q : A → Type μ)
      → ((x : A) → P x → Q x)
      → (xs : List A) → All P xs
      → All Q xs
  All-map P Q f [] h = tt
  All-map P Q f (x ∷ xs) h = (f x h.0, All-map P Q f xs h.1)

  pub All-both {κ μ} :
      (P : A → Type κ) (Q : A → Type μ) (xs : List A)
      → All P xs
      → All Q xs
      → All (λ x. P x × Q x) xs
  All-both P Q [] a b = tt
  All-both P Q (x ∷ xs) a b = ((a.0, b.0), All-both P Q xs a.1 b.1)

  -- A predicate of the rows before an update that gives one of the rows after it.
  pub All-update_where {κ μ} :
      (P : A → Type κ) (Q : A → Type μ) (p : A → Bool) (f : A → A)
      → ((x : A) → p x ≡ true → P x → Q (f x))
      → ((x : A) → p x ≡ false → P x → Q x)
      → (xs : List A) → All P xs
      → All Q (update_where p f xs)
  unfolding update_where
  All-update_where P Q p f h k [] a = tt
  All-update_where P Q p f h k (x ∷ xs) a = elim (Bool-cases (p x)) [
    | inl e ↦ rw (e, update_where) (h x e a.0, All-update_where P Q p f h k xs a.1)
    | inr e ↦ rw (e, update_where) (k x e a.0, All-update_where P Q p f h k xs a.1)
  ]

  -- An update that lowers the measure of each entry it rewrites lowers the sum if it rewrites one.
  pub sum-update_where-le {κ} :
      (m : A → ℕ) (P : A → Type κ) (p : A → Bool) (f : A → A)
      → ((x : A) → p x ≡ true → P x → m (f x) < m x)
      → (xs : List A) → All P xs
      → sum m (update_where p f xs) ≤ sum m xs
  unfolding update_where
  sum-update_where-le m P p f h [] a = omega arith
  sum-update_where-le m P p f h (x ∷ xs) a = elim (Bool-cases (p x)) [
    | inl e ↦ rw (e, update_where) (omega (arith, h x e a.0, sum-update_where-le m P p f h xs a.1))
    | inr e ↦ rw (e, update_where) (omega (arith, sum-update_where-le m P p f h xs a.1))
  ]

  pub sum-update_where-lt {κ} :
      (m : A → ℕ) (P : A → Type κ) (p : A → Bool) (f : A → A)
      → ((x : A) → p x ≡ true → P x → m (f x) < m x)
      → (xs : List A) → All P xs
      → 0 < count_where p xs
      → sum m (update_where p f xs) < sum m xs
  unfolding update_where count_where
  sum-update_where-lt m P p f h [] a n = absurd (omega arith)
  sum-update_where-lt m P p f h (x ∷ xs) a n = elim (Bool-cases (p x)) [
    | inl e ↦ rw (e, update_where) (omega (arith, h x e a.0, sum-update_where-le m P p f h xs a.1))
    | inr e ↦
        rw (e, update_where)
          (omega (arith, sum-update_where-lt m P p f h xs a.1 (ground (arith, n))))
  ]
