-- ===== src/Rewrap/Listing.antt =====
-- The rows that a batch of a rewrap lists (internal/crypto/rewrap.go, ListVersionWraps).
use maintainerd_secret.Base.{
  ℕ, zero, suc, ◌≤◌, ◌<◌, ◌≡◌, refl, sym, ◌∙◌, inl, inr, Bool, true, false, ◌||◌, List, [], ◌∷◌,
  ◌++◌, String, arith, ◌==◌, length, take, keep, count_where, All, All-append, All-map, Bool-cases,
  if-cases,
}
use maintainerd_secret.Secrets.Rows.{VersionRow}
use maintainerd_secret.Rewrap.{under, names, oldest_first, list_wraps}

-- Whether a row of the list has the id.
abbrev pub listed : ℕ → List VersionRow → Bool
listed id [] = false
listed id (w ∷ ws) = (w.version_id == id) || listed id ws

listed-append :
    (id : ℕ) (xs ys : List VersionRow) → listed id (xs ++ ys) ≡ (listed id xs || listed id ys)
listed-append id [] ys = refl
listed-append id (x ∷ xs) ys = ground (arith, listed-append id xs ys)

listed-oldest_first : (id : ℕ) (xs : List VersionRow) → listed id (oldest_first xs) ≡ listed id xs
listed-oldest_first id [] = refl
listed-oldest_first id (x ∷ xs) =
    ground (arith, listed-append id (oldest_first xs) (x ∷ []), listed-oldest_first id xs)

oldest_first-All :
    (P : VersionRow → Type 0) (xs : List VersionRow) → All P xs → All P (oldest_first xs)
oldest_first-All P [] h = tt
oldest_first-All P (x ∷ xs) h =
    All-append P (oldest_first xs) (x ∷ []) (oldest_first-All P xs h.1) (h.0, tt)

take-All : (P : VersionRow → Type 0) (n : ℕ) (xs : List VersionRow) → All P xs → All P (take n xs)
take-All P zero xs h = tt
take-All P (suc n) [] h = tt
take-All P (suc n) (x ∷ xs) h = (h.0, take-All P n xs h.1)

take_short : (n : ℕ) (xs : List VersionRow) → length (take n xs) < n → take n xs ≡ xs
take_short zero xs h = absurd (omega (arith, h))
take_short (suc n) [] h = refl
take_short (suc n) (x ∷ xs) h = rw (take_short n xs (omega (arith, h))) refl

module _ (kek : String) where
  keep-under-All :
      (P : VersionRow → Type 0) (rs : List VersionRow)
      → All (λ r. under kek r ≡ true → P r) rs
      → All P (keep (under kek) rs)
  unfolding keep
  keep-under-All P [] h = tt
  keep-under-All P (r ∷ rs) h = elim (Bool-cases (under kek r)) [
    | inl e ↦ rw e (h.0 e, keep-under-All P rs h.1)
    | inr e ↦ rw e (keep-under-All P rs h.1)
  ]

  -- What holds of the rows under the key holds of the listed rows.
  pub list_wraps-All :
      (P : VersionRow → Type 0) (batch : ℕ) (rs : List VersionRow)
      → All (λ r. under kek r ≡ true → P r) rs
      → All P (list_wraps kek batch rs)
  unfolding list_wraps
  list_wraps-All P batch rs h =
      take-All P batch _ (oldest_first-All P (keep (under kek) rs) (keep-under-All P rs h))

  -- Each row under the key waits in the list.
  abbrev pub Waits : List VersionRow → List VersionRow → Type 0
  Waits ws rs = All (λ r. under kek r ≡ true → listed r.version_id ws ≡ true) rs

  Waits-keep : (rs : List VersionRow) → Waits (keep (under kek) rs) rs
  unfolding keep
  Waits-keep [] = tt
  Waits-keep (r ∷ rs) =
      if-cases (λ ws. Waits ws (r ∷ rs)) (under kek r) (r ∷ keep (under kek) rs)
        (keep (under kek) rs)
        (λ e. (
          (λ u. ground arith),
          All-map (λ x. under kek x ≡ true → listed x.version_id (keep (under kek) rs) ≡ true)
              (λ x. under kek x ≡ true → listed x.version_id (r ∷ keep (under kek) rs) ≡ true)
              (λ x f u. let g = f u in ground arith) rs (Waits-keep rs),
        ))
        (λ e. ((λ u. let f : false ≡ true = sym e ∙ u in absurd cc), Waits-keep rs))

  -- A batch that is not full lists every row under the key.
  pub list_wraps-Waits :
      (batch : ℕ) (rs : List VersionRow)
      → length (list_wraps kek batch rs) < batch
      → Waits (list_wraps kek batch rs) rs
  unfolding list_wraps
  list_wraps-Waits batch rs short =
      rw (take_short batch (oldest_first (keep (under kek) rs)) short) (
        All-map (λ x. under kek x ≡ true → listed x.version_id (keep (under kek) rs) ≡ true)
          (λ x.
            under kek x ≡ true → listed x.version_id (oldest_first (keep (under kek) rs)) ≡ true)
          (λ x f u. listed-oldest_first x.version_id (keep (under kek) rs) ∙ f u) rs
          (Waits-keep rs))

  pub Waits-none : (rs : List VersionRow) → Waits [] rs → count_where (under kek) rs ≡ 0
  unfolding count_where
  Waits-none [] h = refl
  Waits-none (r ∷ rs) h = elim (Bool-cases (under kek r)) [
    | inl e ↦ let f : false ≡ true = h.0 e in absurd cc
    | inr e ↦ rw e (Waits-none rs h.1)
  ]

  -- A row under the key is found by its id.
  pub own_count :
      (rs : List VersionRow)
      → All (λ r. under kek r ≡ true → 1 ≤ count_where (names r.version_id kek) rs) rs
  unfolding count_where
  own_count [] = tt
  own_count (r ∷ rs) = (
    (λ u. ground arith),
    All-map (λ x. under kek x ≡ true → 1 ≤ count_where (names x.version_id kek) rs)
        (λ x. under kek x ≡ true → 1 ≤ count_where (names x.version_id kek) (r ∷ rs))
        (λ x f u. let g = f u in ground arith) rs (own_count rs),
  )
