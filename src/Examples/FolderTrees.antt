-- ===== src/Examples/FolderTrees.antt =====
-- Folder paths and a small tree of folders on which the theorems about them are applied.
use maintainerd_secret.Base.{
  ℕ, ◌≡◌, refl, inl, inr, Bool, true, false, Option, none, some, [], ◌∷◌, ◌++◌, arith, find_first,
  update_where, ok, err, OnOk, not_found,
}
use maintainerd_secret.Paths.Strings.{
  Text, codes, root, text_eq, has_prefix, trim_prefix, trim_space, is_space, split, render, clean,
  clean_step,
}
use maintainerd_secret.Paths.Names.{validate_folder_name}
use maintainerd_secret.Paths.{
  normalize_path, climbs, first_bad_name, climbs_out, check_segments, check_cleaned, rooted,
  split_path, join_path, is_at_or_under, escape_like, subtree_pattern, mrn_resource_path,
}
use maintainerd_secret.Paths.Normal.{IsCanonical, normalize_path_idem}
use maintainerd_secret.Paths.Parents.{join_path-split_path}
use maintainerd_secret.Paths.Like.{in_subtree, like, in_subtree-is_at_or_under}
use maintainerd_secret.Paths.Subtrees.{IsTail, below}
use maintainerd_secret.Folders.{
  FolderRow, FiledSecret, Tree, move_folder, has_unique_paths, all_first, normalized,
}
use maintainerd_secret.Folders.Growth.{IsTree, IsIn}
use maintainerd_secret.Folders.Relocated.{IsCarried}
use maintainerd_secret.Folders.Preserved.{move_folder-IsTree, move_folder_carries}
use maintainerd_secret.Folders.Filing.{delete_folder, restore_secret, is_deleted_uuid, live_folder}
use maintainerd_secret.Folders.Stale.{restore_secret-move_folder}
use maintainerd_secret.Folders.Orphans.{has_uuid, restore_secret-delete_folder}

normalize_path_messy : normalize_path (codes " //db/./primary/ ") ≡ inr (codes "/db/primary")
unfolding normalize_path trim_space is_space rooted clean clean_step climbs_out check_cleaned
    check_segments split render text_eq has_prefix trim_prefix first_bad_name validate_folder_name
normalize_path_messy = refl

normalize_path_climbing : normalize_path (codes "/../x") ≡ inl climbs
unfolding normalize_path trim_space is_space rooted climbs_out split text_eq has_prefix
normalize_path_climbing = refl

normalize_path_idem_example :
    IsCanonical (codes "/db/primary")
    × (normalize_path (codes "/db/primary") ≡ inr (codes "/db/primary"))
normalize_path_idem_example =
    normalize_path_idem (codes " //db/./primary/ ") (codes "/db/primary") normalize_path_messy

primary-IsCanonical : IsCanonical (codes "/db/primary")
primary-IsCanonical = normalize_path_idem_example.0

join_path-split_path_example :
    IsCanonical (split_path (codes "/db/primary")).0
    × (validate_folder_name (split_path (codes "/db/primary")).1 ≡ none)
    × (join_path (split_path (codes "/db/primary")).0 (split_path (codes "/db/primary")).1
        ≡ codes "/db/primary")
join_path-split_path_example =
    join_path-split_path (codes "/db/primary") primary-IsCanonical (λ e. cc)

-- An underscore in a folder's name does not match another character.
in_subtree_underscore : in_subtree (codes "/myXfolder/a") (codes "/my_folder") ≡ false
unfolding in_subtree text_eq like subtree_pattern escape_like
in_subtree_underscore = refl

in_subtree-is_at_or_under_example :
    in_subtree (codes "/my_folder/a") (codes "/my_folder")
    ≡ is_at_or_under (codes "/my_folder/a") (codes "/my_folder")
unfolding has_prefix
in_subtree-is_at_or_under_example =
    in_subtree-is_at_or_under (codes "/my_folder") (codes "/my_folder/a") refl

abbrev row : ℕ → Option ℕ → Text → Text → FolderRow
row id parent name path = record {
  folder_id = id;
  parent_folder_id = parent;
  name = name;
  path = path;
  is_live = true;
}

abbrev top_row : FolderRow
top_row = row 1 none [] root

abbrev db_row : FolderRow
db_row = row 2 (some 1) (codes "db") (codes "/db")

abbrev primary_row : FolderRow
primary_row = row 3 (some 2) (codes "primary") (codes "/db/primary")

abbrev secret : ℕ → ℕ → Text → Text → Bool → FiledSecret
secret uuid folder key path live = record {
  secret_uuid = uuid;
  folder_id = folder;
  key = key;
  resource_path = path;
  is_live = live;
}

-- A live password and a deleted token, both below /db.
abbrev tree : Tree
tree = record {
  slug = codes "dev";
  next_id = 4;
  folders = top_row ∷ (db_row ∷ (primary_row ∷ []));
  secrets =
      secret 10 3 (codes "password") (codes "secret/dev/db/primary/password") true
      ∷ (secret 11 3 (codes "token") (codes "secret/dev/db/primary/token") false ∷ []);
}

tree-IsTree : IsTree tree
unfolding find_first has_unique_paths all_first text_eq join_path mrn_resource_path
tree-IsTree = record {
  numbered = ((omega arith, refl), ((omega arith, refl), ((omega arith, refl), tt)));
  placed = (
    λ _. inl (refl, refl),
    (
      λ _. inr (top_row, refl, refl, refl, refl, ground arith),
      (λ _. inr (db_row, refl, refl, refl, refl, ground arith), tt),
    ),
  );
  unique = refl;
  filed = (λ _. (primary_row, refl, refl), ((λ h. absurd (cc)), tt));
}

move_folder-IsTree_example :
    OnOk (λ e. IsTree e.0) (move_folder tree (codes "/db") (codes "/data/main"))
move_folder-IsTree_example = move_folder-IsTree tree (codes "/db") (codes "/data/main") tree-IsTree

db_normal : normalize_path (codes "/db") ≡ inr (codes "/db")
unfolding normalize_path trim_space is_space rooted clean clean_step climbs_out check_cleaned
    check_segments split render text_eq has_prefix trim_prefix first_bad_name validate_folder_name
db_normal = refl

data_normal : normalize_path (codes "/data/main") ≡ inr (codes "/data/main")
unfolding normalize_path trim_space is_space rooted clean clean_step climbs_out check_cleaned
    check_segments split render text_eq has_prefix trim_prefix first_bad_name validate_folder_name
data_normal = refl

primary-IsIn : IsIn tree primary_row
unfolding find_first
primary-IsIn = (refl, refl)

below_db : IsTail (codes "/primary")
below_db = below (codes "primary")

move_folder_carries_example :
    OnOk
      (IsCarried 3 (codes "/data/main" ++ codes "/primary"))
      (move_folder tree (codes "/db") (codes "/data/main"))
move_folder_carries_example =
    move_folder_carries tree (codes "/db") (codes "/data/main") (codes "/db") (codes "/data/main")
      (codes "/primary") primary_row tree-IsTree db_normal data_normal primary-IsIn refl below_db

abbrev token : FiledSecret
token = secret 11 3 (codes "token") (codes "secret/dev/db/primary/token") false

token_deleted : find_first (is_deleted_uuid 11) tree.secrets ≡ some token
unfolding find_first
token_deleted = refl

restore_secret-move_folder_example :
    OnOk
      (λ e.
        IsCarried 3 (codes "/data/main" ++ codes "/primary") e
        × OnOk
            (λ q. (q.folder_id ≡ 3) × (q.resource_path ≡ codes "secret/dev/db/primary/token"))
            (restore_secret e.0 11).1)
      (move_folder tree (codes "/db") (codes "/data/main"))
restore_secret-move_folder_example =
    restore_secret-move_folder tree (codes "/db") (codes "/data/main") (codes "/db")
      (codes "/data/main") (codes "/primary") primary_row 11 token tree-IsTree db_normal data_normal
      primary-IsIn refl below_db token_deleted refl

-- The tree after the deletion of /db.
abbrev pruned : Tree
pruned = record {
  slug = codes "dev";
  next_id = 4;
  folders =
      top_row ∷ (record db_row { is_live = false } ∷ (record primary_row { is_live = false } ∷ []));
  secrets =
      secret 10 3 (codes "password") (codes "secret/dev/db/primary/password") false ∷ (token ∷ []);
}

db_deleted : delete_folder tree (codes "/db") ≡ ok pruned
unfolding delete_folder normalized normalize_path trim_space is_space rooted clean clean_step
    climbs_out check_cleaned check_segments split render text_eq has_prefix trim_prefix
    first_bad_name validate_folder_name find_first update_where in_subtree like subtree_pattern
    escape_like
db_deleted = refl

db_normalized : normalized (codes "/db") ≡ ok (codes "/db")
unfolding normalized
db_normalized = rw (db_normal, normalized) refl

restore_secret-delete_folder_example :
    ((restore_secret pruned 10).1 ≡ err (not_found "folder"))
    × (find_first (has_uuid 10) (restore_secret pruned 10).0.secrets
        ≡ some (secret 10 3 (codes "password") (codes "secret/dev/db/primary/password") true))
    × (find_first (live_folder 3) (restore_secret pruned 10).0.folders ≡ none)
unfolding find_first in_subtree like subtree_pattern escape_like text_eq
restore_secret-delete_folder_example =
    restore_secret-delete_folder tree pruned (codes "/db") (codes "/db") 10
      (secret 10 3 (codes "password") (codes "secret/dev/db/primary/password") false) primary_row
      tree-IsTree db_normalized db_deleted refl refl refl refl
