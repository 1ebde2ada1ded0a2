-- ===== src/Folders.antt =====
-- internal/store/service.go, storage/folder.sql.go and secret.sql.go: the folders of one environment
-- and where its secrets are filed. The tables hold the rows of the environment that was resolved.
-- Each operation of the service runs in a transaction: an error leaves the tables as they were.
pub mod Tables
pub mod Growth
pub mod Moved
pub mod Move
pub mod Replaced
pub mod Refiled
pub mod Relocated
pub mod Preserved
pub mod Filing
pub mod Stale
pub mod Orphans
use maintainerd_secret.Base.{
  ℕ, ◌+◌, ◌≡◌, ◌⊎◌, inl, inr, Bool, true, false, not, ◌&&◌, ◌||◌, Option, none, some, List, [], ◌∷◌,
  ◌++◌, String, ◌==◌, if◌then◌else◌, length, drop, find_first, update_where, is_null, Fallible,
  AppError, err, ok, ◌>>=◌, not_found, conflict, validation, forbidden, internal, All,
}
use maintainerd_secret.Paths.Strings.{Text, slash, root, text_eq, split}
use maintainerd_secret.Paths.{
  PathError, normalize_path, split_path, join_path, is_at_or_under, mrn_resource_path, tail,
}
use maintainerd_secret.Paths.Like.{in_subtree}

-- A row of folders; `is_live` is `deleted_at IS NULL`.
pub record FolderRow : Type 0 where
  pub folder_id : ℕ
  pub parent_folder_id : Option ℕ
  pub name : Text
  pub path : Text
  pub is_live : Bool

-- What a row of secrets has of its place.
pub record FiledSecret : Type 0 where
  pub secret_uuid : ℕ
  pub folder_id : ℕ
  pub key : Text
  pub resource_path : Text
  pub is_live : Bool

-- The tables of one environment, and the next number of the sequence of folder ids.
pub record Tree : Type 0 where
  pub slug : Text
  pub next_id : ℕ
  pub folders : List FolderRow
  pub secrets : List FiledSecret

abbrev pub has_id : ℕ → FolderRow → Bool
has_id i r = r.folder_id == i

abbrev pub lives_at : Text → FolderRow → Bool
lives_at path r = r.is_live && text_eq r.path path

abbrev pub find_id : List FolderRow → ℕ → Option FolderRow
find_id rows i = find_first (has_id i) rows

-- GetFolderByPath.
abbrev pub find_path : List FolderRow → Text → Option FolderRow
find_path rows path = find_first (lives_at path) rows

abbrev pub is_row : ℕ → Option FolderRow → Bool
is_row i none = false
is_row i (some r) = r.folder_id == i

abbrev pub first_at_path : List FolderRow → FolderRow → Bool
first_at_path rows r = not r.is_live || is_row r.folder_id (find_path rows r.path)

unfoldable pub all_first : List FolderRow → List FolderRow → Bool
all_first rows [] = true
all_first rows (r ∷ rs) = first_at_path rows r && all_first rows rs

-- The index uq_folders_environment_path: the first live row at a live row's path is the row itself.
unfoldable pub has_unique_paths : List FolderRow → Bool
has_unique_paths rows = all_first rows rows

-- A write is refused when the index would be violated.
unfoldable pub write_folders : AppError → List FolderRow → Tree → Fallible Tree
write_folders e rows t = if has_unique_paths rows then ok (record t { folders = rows }) else err e

unfoldable pub create_row : Tree → FolderRow → Text → Text → Fallible (Tree × FolderRow)
unfolding write_folders
create_row t parent segment built =
    let row : FolderRow = record {
      folder_id = t.next_id;
      parent_folder_id = some parent.folder_id;
      name = segment;
      path = built;
      is_live = true;
    } in
    write_folders conflict (row ∷ t.folders) t >>= λ t'.
    ok (record t' { next_id = t.next_id + 1 }, row)

-- One round of the walk down a path: the folder there, made if it is missing.
unfoldable pub enter : Tree → FolderRow → Text → Text → Fallible (Tree × FolderRow)
enter t current segment built = elim (find_path t.folders built) [
  | some existing ↦ ok (t, existing)
  | none ↦ create_row t current segment built
]

unfoldable pub walk : Tree → FolderRow → Text → List Text → Fallible (Tree × FolderRow)
walk t current built [] = ok (t, current)
walk t current built (segment ∷ rest) = enter t current segment (join_path built segment) >>= λ e.
    walk e.0 e.1 (join_path built segment) rest

-- splitSegments.
unfoldable pub split_segments : Text → List Text
split_segments normalized = if text_eq normalized root then [] else split (tail normalized)

unfoldable pub ensure_folder_path : Tree → Text → Fallible (Tree × FolderRow)
ensure_folder_path t normalized = elim (find_path t.folders root) [
  | none ↦ err (not_found "environment root folder")
  | some current ↦ walk t current [] (split_segments normalized)
]

-- `NormalizePath(p)` with its error as a validation error.
unfoldable pub normalized : Text → Fallible Text
normalized p = elim (normalize_path p) [ inl e ↦ err validation | inr q ↦ ok q ]

unfoldable pub create_folder : Tree → Text → Fallible (Tree × FolderRow)
create_folder t path = normalized path >>= λ p. ensure_folder_path t p

-- ReparentFolder.
abbrev pub reparent : ℕ → ℕ → Text → Text → FolderRow → FolderRow
reparent node parent name path r =
    if r.folder_id == node && r.is_live
    then record r { parent_folder_id = some parent; name = name; path = path }
    else r

-- MoveFolderSubtreePaths.
abbrev pub rebase : Text → Text → Text → Text
rebase old new path = new ++ drop (length old) path

abbrev pub rebase_row : Text → Text → FolderRow → FolderRow
rebase_row old new r =
    if in_subtree r.path old && r.is_live then record r { path = rebase old new r.path } else r

abbrev pub map_rows : (FolderRow → FolderRow) → List FolderRow → List FolderRow
map_rows f [] = []
map_rows f (r ∷ rs) = f r ∷ map_rows f rs

-- RefreshSecretMrnPathsInSubtree, on the folder that the secret's row joins.
abbrev pub refreshed : Text → Text → FiledSecret → FolderRow → FiledSecret
refreshed slug new s f =
    if in_subtree f.path new && s.is_live
    then record s { resource_path = mrn_resource_path slug f.path s.key }
    else s

abbrev pub refresh_secret : Text → List FolderRow → Text → FiledSecret → FiledSecret
refresh_secret slug rows new s = elim (find_id rows s.folder_id) [
  | none ↦ s
  | some f ↦ refreshed slug new s f
]

abbrev pub refresh : Text → List FolderRow → Text → List FiledSecret → List FiledSecret
refresh slug rows new [] = []
refresh slug rows new (s ∷ ss) = refresh_secret slug rows new s ∷ refresh slug rows new ss

-- The three writes of a move.
unfoldable pub relocate :
    Tree → FolderRow → FolderRow → Text → Text → Text → Fallible (Tree × FolderRow)
relocate t node parent name old new =
    write_folders conflict (map_rows (reparent node.folder_id parent.folder_id name new) t.folders)
      t
    >>= λ t'. write_folders internal (map_rows (rebase_row old new) t'.folders) t' >>= λ t''. ok (
      record t'' { secrets = refresh t.slug t''.folders new t''.secrets },
      reparent node.folder_id parent.folder_id name new node,
    )

-- The body of the transaction of MoveFolder.
unfoldable pub move_within : Tree → Text → Text → Fallible (Tree × FolderRow)
move_within t old new = elim (find_path t.folders old) [
  | none ↦ err (not_found "folder")
  | some node ↦
      if is_null (find_path t.folders new)
      then (ensure_folder_path t (split_path new).0 >>= λ e.
          relocate e.0 node e.1 (split_path new).1 old new)
      else err conflict
]

unfoldable pub move_folder : Tree → Text → Text → Fallible (Tree × FolderRow)
move_folder t from to = normalized from >>= λ old. normalized to >>= λ new.
    if text_eq old root
    then err forbidden
    else if text_eq new root
    then err validation
    else if text_eq old new
    then err validation
    else if is_at_or_under new old
    then err validation
    else move_within t old new
