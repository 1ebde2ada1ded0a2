-- ===== src/Folders/Filing.antt =====
-- internal/store/service.go and secrets.go: what deleting a folder, and deleting and restoring a
-- secret, do to the secrets of an environment. RestoreSecret runs in no transaction of its own: its
-- update stays when a later read fails.
use maintainerd_secret.Base.{
  ℕ, Bool, true, false, not, ◌&&◌, none, some, List, ◌==◌, if◌then◌else◌, find_first, update_where,
  is_null, Fallible, err, ok, ◌>>=◌, not_found, conflict, forbidden,
}
use maintainerd_secret.Paths.Strings.{Text, root, text_eq}
use maintainerd_secret.Paths.Like.{in_subtree}
use maintainerd_secret.Folders.{
  FolderRow, FiledSecret, Tree, find_id, find_path, map_rows, normalized,
}

-- SoftDeleteFolderSubtree on one row.
abbrev pub delete_row : Text → FolderRow → FolderRow
delete_row path r = if in_subtree r.path path && r.is_live then record r { is_live = false } else r

abbrev pub in_folder : List FolderRow → Text → FiledSecret → Bool
in_folder rows path s = elim (find_id rows s.folder_id) [
  | none ↦ false
  | some f ↦ in_subtree f.path path
]

-- SoftDeleteSecretsInFolderSubtree.
abbrev pub doomed : List FolderRow → Text → FiledSecret → Bool
doomed rows path s = s.is_live && in_folder rows path s

abbrev pub bury : FiledSecret → FiledSecret
bury s = record s { is_live = false }

unfoldable pub delete_folder : Tree → Text → Fallible Tree
delete_folder t path = normalized path >>= λ p.
    if text_eq p root
    then err forbidden
    else if is_null (find_path t.folders p)
    then err (not_found "folder")
    else ok (record t {
      secrets = update_where (doomed t.folders p) bury t.secrets;
      folders = map_rows (delete_row p) t.folders;
    })

abbrev pub is_deleted_uuid : ℕ → FiledSecret → Bool
is_deleted_uuid uuid s = s.secret_uuid == uuid && not s.is_live

abbrev pub takes_address : FiledSecret → FiledSecret → Bool
takes_address s other = other.is_live && (other.folder_id == s.folder_id && text_eq other.key s.key)

abbrev pub revive : FiledSecret → FiledSecret
revive s = record s { is_live = true }

-- GetFolderByID reads live folders only.
abbrev pub live_folder : ℕ → FolderRow → Bool
live_folder i r = r.is_live && r.folder_id == i

-- The read of the folder after the update.
abbrev pub folder_read : Tree → FiledSecret → Fallible FiledSecret
folder_read t s =
    if is_null (find_first (live_folder s.folder_id) t.folders)
    then err (not_found "folder")
    else ok (revive s)

unfoldable pub restore_secret : Tree → ℕ → Tree × Fallible FiledSecret
restore_secret t uuid = elim (find_first (is_deleted_uuid uuid) t.secrets) [
  | none ↦ (t, err (not_found "secret"))
  | some s ↦
      if is_null (find_first (takes_address s) t.secrets)
      then (
        record t { secrets = update_where (is_deleted_uuid uuid) revive t.secrets },
        folder_read t s,
      )
      else (t, err conflict)
]
