-- ===== src/Folders/Relocated.antt =====
-- The three writes of a move keep the shape of the tree and carry the subtree over.
use maintainerd_secret.Base.{
  ℕ, ◌<◌, ◌≡◌, refl, sym, ap, ◌∙◌, subst, true, some, List, ◌++◌, if-cases, All-both, err, OnOk,
  OnOk-chain, OnOk-map, conflict, internal, AppError,
}
use maintainerd_secret.Paths.Strings.{Text}
use maintainerd_secret.Paths.Subtrees.{IsTail}
use maintainerd_secret.Folders.{
  FolderRow, Tree, find_id, has_unique_paths, map_rows, refresh, relocate, write_folders, reparent,
  rebase_row,
}
use maintainerd_secret.Folders.Tables.{map_rows-All}
use maintainerd_secret.Folders.Growth.{IsPlaced, IsNumbered, IsTree, IsIn}
use maintainerd_secret.Folders.Moved.{moved-folder_id, moved-is_live, map_rows-moved}
use maintainerd_secret.Folders.Move.{IsMove, move, moves, found, moved_path_under}
use maintainerd_secret.Folders.Replaced.{place}
use maintainerd_secret.Folders.Refiled.{refresh-All}

write_folders_lem :
    (e : AppError) (rows : List FolderRow) (t : Tree)
    → OnOk
        (λ u. (u ≡ record t { folders = rows }) × (has_unique_paths rows ≡ true))
        (write_folders e rows t)
unfolding write_folders
write_folders_lem e rows t =
    if-cases (OnOk (λ u. (u ≡ record t { folders = rows }) × (has_unique_paths rows ≡ true)))
      (has_unique_paths rows) _ (err e) (λ u. (refl, u)) (λ _. tt)

-- A live folder with the id stands at the path.
abbrev pub IsCarried : ℕ → Text → Tree × FolderRow → Type 0
IsCarried i path e =
    (q : FolderRow) × (find_id e.0.folders i ≡ some q) × (q.is_live ≡ true) × (q.path ≡ path)

module _ {t : Tree} {node parent : FolderRow} {old new name : Text}
    (m : IsMove t node parent old new name) where
  number :
      (r : FolderRow)
      → IsNumbered t.next_id t.folders r
      → IsNumbered t.next_id (moves m) ((move m) r)
  number r k =
      let e = moved-folder_id old new name node.folder_id parent.folder_id m.old_path m.apart r in
      (
        subst (λ i. i < t.next_id) (sym e) k.0,
        subst (λ i. find_id (moves m) i ≡ some ((move m) r)) (sym e) (found m r.folder_id r k.1),
      )

  pub moved_tree-IsTree :
      has_unique_paths (moves m) ≡ true
      → IsTree (record t { folders = (moves m); secrets = refresh t.slug (moves m) new t.secrets })
  moved_tree-IsTree u = record {
    numbered =
        map_rows-All (IsNumbered t.next_id t.folders) _ (move m) number t.folders m.tree.numbered;
    placed =
        map_rows-All (λ r. IsNumbered t.next_id t.folders r × IsPlaced t.folders r)
          (IsPlaced (moves m)) (move m) (place m) t.folders
          (All-both _ _ t.folders m.tree.numbered m.tree.placed);
    unique = u;
    filed = refresh-All m t.secrets m.tree.filed;
  }

  -- Both writes of the folders' paths.
  abbrev IsMoved : Tree → Type 0
  IsMoved u = (u ≡ record t { folders = (moves m) }) × (has_unique_paths (moves m) ≡ true)

  rewritten : List FolderRow
  rewritten = map_rows (reparent node.folder_id parent.folder_id name new) t.folders

  second_write : OnOk IsMoved (
      write_folders internal
        (map_rows (rebase_row old new) rewritten)
        (record t { folders = rewritten }))
  unfolding rewritten
  second_write =
      OnOk-map _ IsMoved _ (write_folders_lem internal _ (record t { folders = rewritten }))
        (λ u (e, f).
          let same =
            map_rows-moved old new name node.folder_id parent.folder_id m.old_path m.apart
              t.folders in
          (
            e ∙ ap (λ rows. record t { folders = rows }) same,
            subst (λ rows. has_unique_paths rows ≡ true) same f,
          ))

  -- The tree after the three writes.
  relocate_lem :
      OnOk
        (λ e.
          (e.0 ≡ record t { folders = (moves m); secrets = refresh t.slug (moves m) new t.secrets })
          × (has_unique_paths (moves m) ≡ true))
        (relocate t node parent name old new)
  unfolding relocate rewritten
  relocate_lem =
      OnOk-chain _ _ (write_folders conflict rewritten t) _ (write_folders_lem conflict rewritten t)
        (λ u (e, f).
          OnOk-chain IsMoved _ _ _
            (subst
              (λ (q : Tree).
                OnOk IsMoved (write_folders internal (map_rows (rebase_row old new) q.folders) q))
              (sym e) second_write)
            (λ (q : Tree) (g, unique). (
              ap (λ (q : Tree). record q { secrets = refresh t.slug q.folders new q.secrets }) g,
              unique,
            )))

  pub relocate-IsTree : OnOk (λ e. IsTree e.0) (relocate t node parent name old new)
  relocate-IsTree =
      OnOk-map _ (λ e. IsTree e.0) _ relocate_lem
        (λ e (f, unique). subst IsTree (sym f) (moved_tree-IsTree unique))

  pub relocate_secrets :
      OnOk
        (λ e. e.0.secrets ≡ refresh t.slug (moves m) new t.secrets)
        (relocate t node parent name old new)
  relocate_secrets =
      OnOk-map _ (λ e. e.0.secrets ≡ refresh t.slug (moves m) new t.secrets) _ relocate_lem
        (λ e (f, _). ap (λ (u : Tree). u.secrets) f)

  -- A folder at or under the old path is found m as far under the new one.
  pub relocate_carries :
      (r : FolderRow) (y : Text)
      → IsIn t r
      → r.path ≡ old ++ y
      → IsTail y
      → OnOk (IsCarried r.folder_id (new ++ y)) (relocate t node parent name old new)
  relocate_carries r y ir at tail =
      OnOk-map _ (IsCarried r.folder_id (new ++ y)) _ relocate_lem (λ e (f, unique). (
        (move m) r,
        ap (λ (u : Tree). find_id u.folders r.folder_id) f ∙ found m r.folder_id r ir.0,
        moved-is_live old new name node.folder_id parent.folder_id m.old_path m.apart r ∙ ir.1,
        moved_path_under m r y ir at tail,
      ))
