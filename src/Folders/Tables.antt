-- ===== src/Folders/Tables.antt =====
-- Rows found by their id and by their path, through an update of every row that keeps the ids.
use maintainerd_secret.Base.{
  ℕ, ◌≡◌, subst, inl, inr, Bool, true, some, List, [], ◌∷◌, arith, ==_iff, Bool-cases, find_first,
  find_first_passes, All,
}
use maintainerd_secret.Paths.Strings.{Text, text_eq_iff}
use maintainerd_secret.Folders.{
  FolderRow, has_id, lives_at, find_id, find_path, all_first, map_rows,
}

pub map_rows-All {κ μ} :
    (P : FolderRow → Type κ) (Q : FolderRow → Type μ) (f : FolderRow → FolderRow)
    → ((r : FolderRow) → P r → Q (f r))
    → (rows : List FolderRow) → All P rows
    → All Q (map_rows f rows)
map_rows-All P Q f h [] a = tt
map_rows-All P Q f h (r ∷ rs) a = (h r a.0, map_rows-All P Q f h rs a.1)

-- An update that keeps the ids finds the updated row.
pub find_id-map_rows :
    (f : FolderRow → FolderRow)
    → ((r : FolderRow) → (f r).folder_id ≡ r.folder_id)
    → (i : ℕ) (rows : List FolderRow) (r : FolderRow) → find_id rows i ≡ some r
    → find_id (map_rows f rows) i ≡ some (f r)
unfolding find_first
find_id-map_rows f keeps i [] r h = absurd (cc)
find_id-map_rows f keeps i (x ∷ xs) r h = ground (arith, keeps x, find_id-map_rows f keeps i xs r)

-- What holds of every row holds of one that is found.
pub find_first-All {κ} :
    (P : FolderRow → Type κ) (q : FolderRow → Bool) (rows : List FolderRow) (r : FolderRow)
    → All P rows
    → find_first q rows ≡ some r
    → P r
unfolding find_first
find_first-All P q [] r a h = absurd (cc)
find_first-All P q (x ∷ xs) r a h = elim (Bool-cases (q x)) [
  | inl e ↦ let f : some x ≡ some r = rw (e, find_first) at h in subst P (cc) a.0
  | inr e ↦ find_first-All P q xs r a.1 (rw (e, find_first) at h)
]

pub find_id-id :
    (rows : List FolderRow) (i : ℕ) (r : FolderRow) → find_id rows i ≡ some r → r.folder_id ≡ i
find_id-id rows i r h = (==_iff r.folder_id i).0 (find_first_passes (has_id i) rows r h)

-- A row that is found by a path is live and stands at that path.
pub find_path-lives :
    (rows : List FolderRow) (path : Text) (r : FolderRow)
    → find_path rows path ≡ some r
    → (r.is_live ≡ true) × (r.path ≡ path)
find_path-lives rows path r h =
    ground (arith, find_first_passes (lives_at path) rows r h, text_eq_iff r.path path)

-- Under the index, a live row is the one that is found at its path.
abbrev pub IsFirst : List FolderRow → FolderRow → Type 0
IsFirst rows r =
    (node : FolderRow)
    → r.is_live ≡ true
    → find_path rows r.path ≡ some node
    → node.folder_id ≡ r.folder_id

pub all_first-All : (rows rs : List FolderRow) → all_first rows rs ≡ true → All (IsFirst rows) rs
unfolding all_first
all_first-All rows [] h = tt
all_first-All rows (r ∷ rs) h = (λ node live e. ground arith, all_first-All rows rs (ground arith))
