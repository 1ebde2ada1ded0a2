-- ===== src/Secrets/Ranks.antt =====
-- Counting the rows that pruning chooses and the highest versions of a secret
-- (internal/store/secrets.go, pruneVersions).
use maintainerd_secret.Base.{
  ℕ, suc, ◌+◌, ◌-◌, ◌≤◌, ◌<◌, ◌≡◌, refl, sym, ◌∙◌, inl, inr, Bool, true, false, not, ◌&&◌, ◌||◌,
  List, [], ◌∷◌, arith, ltb, ltb→lt, &&_iff, ◌==◌, keep, count_where, All, All-map, Bool-cases,
  if-cases,
}
use maintainerd_secret.Secrets.Rows.{VersionRow, of_secret, above, delete_version}
use maintainerd_secret.Secrets.{prune_each}
use maintainerd_secret.Secrets.Order.{Under, Newest}

pub count_where-All-le :
    (f g : VersionRow → Bool) (rs : List VersionRow)
    → All (λ r. f r ≡ true → g r ≡ true) rs
    → count_where f rs ≤ count_where g rs
unfolding count_where
count_where-All-le f g [] h = omega arith
count_where-All-le f g (r ∷ rs) h = elim (Bool-cases (f r)) [
  | inl e ↦ let e' = h.0 e in rw e (rw e' (omega (arith, count_where-All-le f g rs h.1)))
  | inr e ↦ rw e (ground (arith, count_where-All-le f g rs h.1))
]

count_where-keep :
    (f g : VersionRow → Bool) (rs : List VersionRow)
    → count_where f (keep g rs) ≡ count_where (λ r. f r && g r) rs
unfolding count_where keep
count_where-keep f g [] = refl
count_where-keep f g (r ∷ rs) = ground (arith, count_where-keep f g rs)

abbrev pub chosen : ℕ → List VersionRow → Bool
chosen id [] = false
chosen id (p ∷ ps) = (p.version_id == id) || chosen id ps

-- The rows that pruning leaves are among those that it did not choose.
pub prune_each-count :
    (current : ℕ) (q : VersionRow → Bool) (ps rs : List VersionRow)
    → All (λ p. (p.version == current) ≡ false) ps
    → count_where q (prune_each current ps rs).1
      ≤ count_where (λ r. q r && not (chosen r.version_id ps)) rs
unfolding prune_each delete_version
prune_each-count current q [] rs h = count_where-All-le q (λ r. q r && true) rs (all_pass q rs)
  where
    all_pass :
        (q : VersionRow → Bool) (rs : List VersionRow)
        → All (λ r. q r ≡ true → (q r && true) ≡ true) rs
    all_pass q [] = tt
    all_pass q (r ∷ rs) = ((λ u. ground arith), all_pass q rs)
prune_each-count current q (p ∷ ps) rs h =
    let more =
      prune_each-count current q ps (keep (λ r. not (r.version_id == p.version_id)) rs) h.1 in
    let same =
      count_where-keep (λ r. q r && not (chosen r.version_id ps))
        (λ r. not (r.version_id == p.version_id)) rs in
    let le =
      count_where-All-le
        (λ r. (q r && not (chosen r.version_id ps)) && not (r.version_id == p.version_id))
        (λ r. q r && not (chosen r.version_id (p ∷ ps))) rs (stays rs) in
    rw h.0 (omega (arith, more, same, le))
  where
    stays :
        (rs : List VersionRow)
        → All
            (λ r.
              ((q r && not (chosen r.version_id ps)) && not (r.version_id == p.version_id)) ≡ true
              → (q r && not (chosen r.version_id (p ∷ ps))) ≡ true)
            rs
    stays [] = tt
    stays (r ∷ rs) = ((λ u. ground arith), stays rs)

pub keep-chosen :
    (g : VersionRow → Bool) (rs : List VersionRow)
    → All (λ r. g r ≡ true → chosen r.version_id (keep g rs) ≡ true) rs
unfolding keep
keep-chosen g [] = tt
keep-chosen g (r ∷ rs) =
    if-cases (λ ps. All (λ x. g x ≡ true → chosen x.version_id ps ≡ true) (r ∷ rs)) (g r)
      (r ∷ keep g rs) (keep g rs)
      (λ e. (
        (λ u. ground arith),
        All-map (λ x. g x ≡ true → chosen x.version_id (keep g rs) ≡ true)
            (λ x. g x ≡ true → chosen x.version_id (r ∷ keep g rs) ≡ true)
            (λ x f u. let c = f u in ground arith) rs (keep-chosen g rs),
      ))
      (λ e. ((λ u. let f : false ≡ true = sym e ∙ u in absurd cc), keep-chosen g rs))

pub count_nil : (f : VersionRow → Bool) (n : ℕ) → count_where f [] ≤ n
unfolding count_where
count_nil f n = omega arith

pub head_count :
    (f : VersionRow → Bool) (x : VersionRow) (xs : List VersionRow)
    → (f x ≡ true → count_where f (x ∷ xs) ≡ suc (count_where f xs))
      × (f x ≡ false → count_where f (x ∷ xs) ≡ count_where f xs)
unfolding count_where
head_count f x xs = ((λ e. rw e refl), (λ e. rw e refl))

-- Of the rows of one secret, at most k are among its k highest versions.
module _ (id : ℕ) where
  abbrev pub is_top : ℕ → ℕ → List VersionRow → VersionRow → Bool
  is_top k m rs r = of_secret id r && ltb (m + above id r.version rs) k

  above-own :
      (n : ℕ) (x : VersionRow) (xs : List VersionRow)
      → of_secret id x ≡ true
      → n < x.version
      → above id n (x ∷ xs) ≡ suc (above id n xs)
  unfolding count_where
  above-own n x xs own lt = ground arith

  above-other :
      (n : ℕ) (x : VersionRow) (xs : List VersionRow)
      → of_secret id x ≡ false
      → above id n (x ∷ xs) ≡ above id n xs
  unfolding count_where
  above-other n x xs other = rw other refl

  is_top-own :
      (k m : ℕ) (x : VersionRow) (xs : List VersionRow) (r : VersionRow)
      → of_secret id x ≡ true
      → Under x r
      → is_top k m (x ∷ xs) r ≡ true
      → is_top k (suc m) xs r ≡ true
  is_top-own k m x xs r own under t =
      let (of_it, low) = (&&_iff (of_secret id r) (ltb (m + above id r.version (x ∷ xs)) k)).0 t in
      let same : r.secret_id ≡ x.secret_id = ground arith in
      let lt = under same in
      let more = above-own r.version x xs own lt in
      (&&_iff (of_secret id r) (ltb (suc m + above id r.version xs) k)).1 (of_it, ground arith)

  is_top-other :
      (k m : ℕ) (x : VersionRow) (xs : List VersionRow) (r : VersionRow)
      → of_secret id x ≡ false
      → is_top k m (x ∷ xs) r ≡ true
      → is_top k m xs r ≡ true
  is_top-other k m x xs r other t = rw (above-other r.version x xs other) at t

  pub top_count :
      (k m : ℕ) (rs : List VersionRow) → Newest rs → count_where (is_top k m rs) rs ≤ k - m
  top_count k m [] h = count_nil (is_top k m []) (k - m)
  top_count k m (x ∷ xs) h = elim (Bool-cases (of_secret id x)) [
    | inl own ↦
        let le = count_where-All-le (is_top k m (x ∷ xs)) (is_top k (suc m) xs) xs (
          All-map (Under x) (λ r. is_top k m (x ∷ xs) r ≡ true → is_top k (suc m) xs r ≡ true)
            (λ r under t. is_top-own k m x xs r own under t) xs h.0) in
        let most = top_count k (suc m) xs h.1 in
        let head = head_count (is_top k m (x ∷ xs)) x xs in
        elim (Bool-cases (is_top k m (x ∷ xs) x)) [
          | inl e ↦
              let (_, low) =
                (&&_iff (of_secret id x) (ltb (m + above id x.version (x ∷ xs)) k)).0 e in
              let lt = ltb→lt (m + above id x.version (x ∷ xs)) k low in omega (arith, head.0 e)
          | inr e ↦ omega (arith, head.1 e)
        ]
    | inr other ↦
        let le = count_where-All-le (is_top k m (x ∷ xs)) (is_top k m xs) xs (
          All-map (Under x) (λ r. is_top k m (x ∷ xs) r ≡ true → is_top k m xs r ≡ true)
            (λ r under t. is_top-other k m x xs r other t) xs h.0) in
        let most = top_count k m xs h.1 in
        let head = head_count (is_top k m (x ∷ xs)) x xs in
        let low : is_top k m (x ∷ xs) x ≡ false = rw other refl in omega (arith, head.1 low)
  ]
