-- ===== src/Secrets/Order.antt =====
-- The order of the rows of secrets and secret_versions (internal/store/secrets.go), and what the
-- statements keep of it.
use maintainerd_secret.Base.{
  ℕ, ◌≤◌, ◌<◌, ◌≡◌, refl, inl, inr, Bool, true, false, Option, none, some, List, [], ◌∷◌, arith,
  ltb, ◌==◌, if◌then◌else◌, find_first, update_where, keep, All, Bool-cases, Option-cases,
}
use maintainerd_secret.Secrets.Rows.{SecretRow, VersionRow, of_secret, latest}

abbrev pub SFalls : ℕ → List SecretRow → Type 0
SFalls n [] = Unit {0}
SFalls n (s ∷ ss) = (s.secret_id < n) × SFalls s.secret_id ss

abbrev pub VFalls : ℕ → List VersionRow → Type 0
VFalls n [] = Unit {0}
VFalls n (r ∷ rs) = (r.version_id < n) × VFalls r.version_id rs

-- Of one secret's versions, the first is higher than the others.
abbrev pub Under : VersionRow → VersionRow → Type 0
Under new r = r.secret_id ≡ new.secret_id → r.version < new.version

abbrev pub Newest : List VersionRow → Type 0
Newest [] = Unit {0}
Newest (r ∷ rs) = All (Under r) rs × Newest rs

abbrev pub has_id : ℕ → SecretRow → Bool
has_id id s = s.secret_id == id

abbrev pub version_of : Option SecretRow → ℕ
version_of none = 0
version_of (some s) = s.current_version

-- The current version of a secret, 0 where there is none.
unfoldable pub current_of : ℕ → List SecretRow → ℕ
current_of id ss = version_of (find_first (has_id id) ss)

pub SFalls-find_first :
    (p : SecretRow → Bool) (n : ℕ) (ss : List SecretRow) (s : SecretRow)
    → SFalls n ss
    → find_first p ss ≡ some s
    → s.secret_id < n
unfolding find_first
SFalls-find_first p n [] s h e = absurd cc
SFalls-find_first p n (x ∷ xs) s h e = elim (Bool-cases (p x)) [
  | inl y ↦ let eq : some x ≡ some s = rw y at e in let same : x ≡ s = cc in rw (← same) h.0
  | inr y ↦
      let below = SFalls-find_first p x.secret_id xs s h.1 (rw y at e) in omega (arith, below, h.0)
]

-- A row that any test finds is the row of its id.
pub find_first-has_id :
    (p : SecretRow → Bool) (n : ℕ) (ss : List SecretRow) (s : SecretRow)
    → SFalls n ss
    → find_first p ss ≡ some s
    → find_first (has_id s.secret_id) ss ≡ some s
unfolding find_first
find_first-has_id p n [] s h e = absurd cc
find_first-has_id p n (x ∷ xs) s h e = elim (Bool-cases (p x)) [
  | inl y ↦
      let eq : some x ≡ some s = rw y at e in
      let same : x ≡ s = cc in
      let hit : (x.secret_id == s.secret_id) ≡ true = rw same (ground arith) in rw hit eq
  | inr y ↦
      let below = SFalls-find_first p x.secret_id xs s h.1 (rw y at e) in
      let miss : (x.secret_id == s.secret_id) ≡ false = ground arith in
      rw miss (find_first-has_id p x.secret_id xs s h.1 (rw y at e))
]

pub update_where-SFalls :
    (p : SecretRow → Bool) (f : SecretRow → SecretRow)
    → ((s : SecretRow) → (f s).secret_id ≡ s.secret_id)
    → (n : ℕ) (ss : List SecretRow) → SFalls n ss
    → SFalls n (update_where p f ss)
unfolding update_where
update_where-SFalls p f same n [] h = tt
update_where-SFalls p f same n (s ∷ ss) h = elim (Bool-cases (p s)) [
  | inl e ↦ rw e (rw (same s) (h.0, update_where-SFalls p f same s.secret_id ss h.1))
  | inr e ↦ rw e (h.0, update_where-SFalls p f same s.secret_id ss h.1)
]

abbrev pub updated :
    (SecretRow → Bool) → (SecretRow → SecretRow) → Option SecretRow → Option SecretRow
updated p f none = none
updated p f (some s) = some (if p s then f s else s)

-- What a test finds after an update that does not change what it tests.
pub find_first-update_where :
    (q p : SecretRow → Bool) (f : SecretRow → SecretRow)
    → ((s : SecretRow) → q (f s) ≡ q s)
    → (ss : List SecretRow) → find_first q (update_where p f ss) ≡ updated p f (find_first q ss)
unfolding find_first update_where
find_first-update_where q p f same [] = refl
find_first-update_where q p f same (s ∷ ss) = elim (Bool-cases (p s)) [
  | inl e ↦ rw e (
      rw (same s) (elim (Bool-cases (q s)) [
        | inl e' ↦ rw e' (rw e refl)
        | inr e' ↦ rw e' (find_first-update_where q p f same ss)
      ]))
  | inr e ↦ rw e (elim (Bool-cases (q s)) [
    | inl e' ↦ rw e' (rw e refl)
    | inr e' ↦ rw e' (find_first-update_where q p f same ss)
  ])
]

pub keep-All :
    (P : VersionRow → Type 0) (p : VersionRow → Bool) (rs : List VersionRow)
    → All P rs
    → All P (keep p rs)
unfolding keep
keep-All P p [] h = tt
keep-All P p (r ∷ rs) h = elim (Bool-cases (p r)) [
  | inl e ↦ rw e (h.0, keep-All P p rs h.1)
  | inr e ↦ rw e (keep-All P p rs h.1)
]

pub keep-Newest : (p : VersionRow → Bool) (rs : List VersionRow) → Newest rs → Newest (keep p rs)
unfolding keep
keep-Newest p [] h = tt
keep-Newest p (r ∷ rs) h = elim (Bool-cases (p r)) [
  | inl e ↦ rw e (keep-All (Under r) p rs h.0, keep-Newest p rs h.1)
  | inr e ↦ rw e (keep-Newest p rs h.1)
]

pub VFalls-le : (m n : ℕ) (rs : List VersionRow) → m ≤ n → VFalls m rs → VFalls n rs
VFalls-le m n [] le h = tt
VFalls-le m n (r ∷ rs) le h = (omega (arith, h.0), h.1)

pub keep-VFalls :
    (p : VersionRow → Bool) (n : ℕ) (rs : List VersionRow) → VFalls n rs → VFalls n (keep p rs)
unfolding keep
keep-VFalls p n [] h = tt
keep-VFalls p n (r ∷ rs) h = elim (Bool-cases (p r)) [
  | inl e ↦ rw e (h.0, keep-VFalls p r.version_id rs h.1)
  | inr e ↦ rw e (
      VFalls-le r.version_id n (keep p rs) (omega (arith, h.0)) (keep-VFalls p r.version_id rs h.1))
]

-- The latest version comes from the table.
pub latest-All :
    (P : VersionRow → Type 0) (id : ℕ) (rs : List VersionRow) (r : VersionRow)
    → All P rs
    → latest id rs ≡ some r
    → P r × (r.secret_id ≡ id)
unfolding latest
latest-All P id [] r h e = absurd cc
latest-All P id (x ∷ xs) r h e = elim (Bool-cases (of_secret id x)) [
  | inr y ↦ latest-All P id xs r h.1 (rw y at e)
  | inl y ↦ elim (Option-cases (latest id xs)) [
    | inl z ↦
        let eq : some x ≡ some r = rw (y, z) at e in
        let same : x ≡ r = cc in rw (← same) (h.0, ground arith)
    | inr (s, z) ↦ elim (Bool-cases (ltb x.version s.version)) [
      | inl w ↦
          let eq : some s ≡ some r = rw (y, z, w) at e in
          let same : s ≡ r = cc in rw (← same) (latest-All P id xs s h.1 z)
      | inr w ↦
          let eq : some x ≡ some r = rw (y, z, w) at e in
          let same : x ≡ r = cc in rw (← same) (h.0, ground arith)
    ]
  ]
]
