-- ===== src/Folders/Move.antt =====
-- What a move of a folder does to the rows of the tree, seen from their place in it.
use maintainerd_secret.Base.{
  ℕ, ◌≡◌, refl, sym, ap, ◌∙◌, subst, inl, inr, true, false, some, List, [], ◌∷◌, ◌++◌, arith, ◌==◌,
  ==_iff, Bool-cases, find_first,
}
use mathlib.Core.List.{append-nil}
use maintainerd_secret.Paths.Strings.{Text, text_eq_iff}
use maintainerd_secret.Paths.{join_path, is_at_or_under}
use maintainerd_secret.Paths.Parents.{NoSlash}
use maintainerd_secret.Paths.Subtrees.{IsTail, whole, NotRoot, is_at_or_under-append}
use maintainerd_secret.Folders.{
  FolderRow, Tree, has_id, lives_at, find_id, find_path, has_unique_paths, map_rows,
}
use maintainerd_secret.Folders.Tables.{find_id-map_rows, find_first-All, IsFirst, all_first-All}
use maintainerd_secret.Folders.Growth.{IsTree, IsIn}
use maintainerd_secret.Folders.Moved.{
  moved, moved-folder_id, moved-node, moved-other, moved-under, join_path-under,
}

-- A live row is found at its path.
live-find_path :
    (rows : List FolderRow) (i : ℕ) (r : FolderRow)
    → find_id rows i ≡ some r
    → r.is_live ≡ true
    → (n : FolderRow) × (find_path rows r.path ≡ some n)
unfolding find_first
live-find_path [] i r h live = absurd (cc)
live-find_path (x ∷ xs) i r h live = elim (Bool-cases (lives_at r.path x)) [
  | inl e ↦ (x, rw (e, find_first) refl)
  | inr e ↦
      let (n, f) = live-find_path xs i r (ground (arith, text_eq_iff r.path r.path)) live in
      (n, rw (e, find_first) f)
]

-- Two live rows at one path are one row.
pub same_path :
    (t : Tree) (a b : FolderRow)
    → IsTree t
    → IsIn t a
    → IsIn t b
    → a.path ≡ b.path
    → a.folder_id ≡ b.folder_id
unfolding has_unique_paths
same_path t a b v ia ib e =
    let (n, f) = live-find_path t.folders a.folder_id a ia.0 ia.1 in
    let firsts = all_first-All t.folders t.folders v.unique in
    let first = λ (r : FolderRow) (h : find_id t.folders r.folder_id ≡ some r).
      find_first-All (IsFirst t.folders) (has_id r.folder_id) t.folders r firsts h in
    sym (first a ia.0 n ia.1 f)
    ∙ first b ib.0 n ib.1 (subst (λ q. find_path t.folders q ≡ some n) e f)

-- A live folder `node` is moved from its path to that of a name in the folder `parent`.
pub record IsMove (t : Tree) (node parent : FolderRow) (old new name : Text) : Type 0 where
  pub tree : IsTree t
  pub node_in : IsIn t node
  pub parent_in : IsIn t parent
  pub old_path : NotRoot old
  pub new_path : NotRoot new
  pub at_old : node.path ≡ old
  pub at_new : new ≡ join_path parent.path name
  pub plain : NoSlash name
  pub apart : is_at_or_under new old ≡ false

module _ {t : Tree} {node parent : FolderRow} {old new name : Text}
    (m : IsMove t node parent old new name) where
  abbrev pub move : FolderRow → FolderRow
  move r = moved old new name node.folder_id parent.folder_id m.old_path m.apart r

  abbrev pub moves : List FolderRow
  moves = map_rows move t.folders

  -- A row found by its id is the only one with that id.
  pub one_id : (a b : FolderRow) → IsIn t a → IsIn t b → a.folder_id ≡ b.folder_id → a ≡ b
  one_id a b ia ib e =
      let f : some a ≡ some b = sym ia.0 ∙ (ap (λ i. find_id t.folders i) e ∙ ib.0) in cc

  pub found :
      (i : ℕ) (r : FolderRow) → find_id t.folders i ≡ some r → find_id moves i ≡ some (move r)
  found i r h =
      find_id-map_rows move
        (moved-folder_id old new name node.folder_id parent.folder_id m.old_path m.apart) i
        t.folders r h

  pub old_itself : is_at_or_under node.path old ≡ true
  old_itself =
      subst (λ q. is_at_or_under q old ≡ true) (append-nil old ∙ sym m.at_old)
        (is_at_or_under-append old [] whole)

  -- A live row outside the old path is not the moved folder, and stays.
  pub outside : (r : FolderRow) → IsIn t r → is_at_or_under r.path old ≡ false → move r ≡ r
  outside r ir out =
      moved-other old new name node.folder_id parent.folder_id m.old_path m.apart r
        (λ e.
          let f = one_id r node ir m.node_in e in
          let g : true ≡ false =
            sym (subst (λ (q : FolderRow). is_at_or_under q.path old ≡ true) (sym f) old_itself)
            ∙ out in
          cc)
        out

  pub parent_stays : move parent ≡ parent
  parent_stays = outside parent m.parent_in (elim (Bool-cases (is_at_or_under parent.path old)) [
    | inr out ↦ out
    | inl under ↦ absurd (
        let f : is_at_or_under new old ≡ true = rw m.at_new (
          join_path-under old new name node.folder_id parent.folder_id m.old_path m.apart
            parent.path name under) in
        let g : true ≡ false = sym f ∙ m.apart in cc)
  ])

  pub found_moved : (r : FolderRow) → IsIn t r → find_id moves (move r).folder_id ≡ some (move r)
  found_moved r ir =
      subst (λ i. find_id moves i ≡ some (move r))
        (sym (moved-folder_id old new name node.folder_id parent.folder_id m.old_path m.apart r))
        (found r.folder_id r ir.0)

  pub append_same : (s z : Text) → s ≡ s ++ z → z ≡ []
  append_same [] z e = sym e
  append_same (c ∷ s) z e = append_same s z (cc)

  pub moved_path_under :
      (r : FolderRow) (z : Text)
      → IsIn t r
      → r.path ≡ old ++ z
      → IsTail z
      → (move r).path ≡ new ++ z
  moved_path_under r z ir at tail = elim (Bool-cases (r.folder_id == node.folder_id)) [
    | inl e ↦
        let same = (==_iff r.folder_id node.folder_id).0 e in
        let f = one_id r node ir m.node_in same in
        let empty =
          append_same old z (sym m.at_old ∙ (ap (λ (q : FolderRow). q.path) (sym f) ∙ at)) in
        ap (λ (q : FolderRow). q.path)
          (moved-node old new name node.folder_id parent.folder_id m.old_path m.apart r same ir.1)
        ∙ (sym (append-nil new) ∙ ap (λ q. new ++ q) (sym empty))
    | inr e ↦
        ap (λ (q : FolderRow). q.path)
          (moved-under old new name node.folder_id parent.folder_id m.old_path m.apart r z
            (ground arith) ir.1 at tail)
  ]
