-- ===== src/Folders/Replaced.antt =====
-- After a move, every folder stands at the path of its parent and its name.
use maintainerd_secret.Base.{
  ◌≡◌, ◌≢◌, refl, sym, ap, ◌∙◌, subst, inl, inr, true, false, some, ◌∷◌, ◌++◌, arith, ◌==◌, ==_iff,
  Bool-cases,
}
use mathlib.Core.List.{append_assoc, append-nil}
use maintainerd_secret.Paths.Strings.{Text, slash, root, text_eq_iff}
use maintainerd_secret.Paths.{join_path, is_at_or_under}
use maintainerd_secret.Paths.Parents.{NoSlash}
use maintainerd_secret.Paths.Subtrees.{
  IsTail, NotRoot-append, is_at_or_under-IsTail, join_path-NotRoot, parent_under,
}
use maintainerd_secret.Folders.{FolderRow, Tree, find_id}
use maintainerd_secret.Folders.Growth.{Placement, IsPlaced, IsNumbered, IsIn}
use maintainerd_secret.Folders.Moved.{
  moved-folder_id, moved-is_live, moved-node, moved-under, join_path-under,
}
use maintainerd_secret.Folders.Move.{
  IsMove, same_path, move, moves, found, outside, parent_stays, found_moved, moved_path_under,
}

module _ {t : Tree} {node parent : FolderRow} {old new name : Text}
    (m : IsMove t node parent old new name) where
  -- The moved folder stands under its new parent.
  place_node :
      (r : FolderRow) → IsIn t r → r.folder_id ≡ node.folder_id → IsPlaced (moves m) ((move m) r)
  place_node r ir e live =
      subst (IsPlaced (moves m))
        (sym (moved-node old new name node.folder_id parent.folder_id m.old_path m.apart r e ir.1))
        (λ _. inr (
          parent,
          refl,
          subst (λ q. find_id (moves m) parent.folder_id ≡ some q) (parent_stays m)
              (found m parent.folder_id parent m.parent_in.0),
          m.parent_in.1,
          m.at_new,
          m.plain,
        ))
        (moved-is_live old new name node.folder_id parent.folder_id m.old_path m.apart r ∙ ir.1)

  -- A folder under the moved one keeps its place.
  place_under :
      (r : FolderRow) (y : Text)
      → IsIn t r
      → r.folder_id ≢ node.folder_id
      → r.path ≡ old ++ y
      → IsTail y
      → IsPlaced t.folders r
      → IsPlaced (moves m) ((move m) r)
  place_under r y ir e at tail placed live =
      subst (IsPlaced (moves m))
        (sym (
          moved-under old new name node.folder_id parent.folder_id m.old_path m.apart r y e ir.1 at
            tail))
        (λ _. inr (child (placed ir.1)))
        (moved-is_live old new name node.folder_id parent.folder_id m.old_path m.apart r ∙ ir.1)
    where
      child :
          Placement t.folders r
          → (q : FolderRow) × (r.parent_folder_id ≡ some q.folder_id)
            × (find_id (moves m) q.folder_id ≡ some q)
            × (q.is_live ≡ true)
            × (new ++ y ≡ join_path q.path r.name)
            × NoSlash r.name
      child (inl (a, b)) =
          absurd (ground (arith, (NotRoot-append old y m.old_path).1, text_eq_iff (old ++ y) root))
      child (inr (q, a, b, c, d, k)) =
          elim (parent_under q.path r.name old y k m.old_path (sym d ∙ at) tail) [
            | inl none_left ↦ absurd (
                e (
                  same_path t r node m.tree ir m.node_in
                    (at ∙ (ap (λ q. old ++ q) none_left ∙ (append-nil old ∙ sym m.at_old)))))
            | inr (z, f, tz, g) ↦ (
              (move m) q,
              a
                  ∙ ap (λ i. some i)
                      (sym (
                        moved-folder_id old new name node.folder_id parent.folder_id m.old_path
                          m.apart q)),
              found_moved m q (b, c),
              moved-is_live old new name node.folder_id parent.folder_id m.old_path m.apart q ∙ c,
              ap (λ q. new ++ q) g
                  ∙ (sym (append_assoc new z (slash ∷ r.name))
                      ∙ (sym (join_path-NotRoot (new ++ z) r.name (NotRoot-append new z m.new_path))
                          ∙ ap (λ s. join_path s r.name)
                              (sym (moved_path_under m q z (b, c) f tz)))),
              k,
            )
          ]

  place_outside :
      (r : FolderRow)
      → IsIn t r
      → is_at_or_under r.path old ≡ false
      → IsPlaced t.folders r
      → IsPlaced (moves m) ((move m) r)
  place_outside r ir out placed =
      subst (IsPlaced (moves m)) (sym (outside m r ir out)) (λ live. still (placed live))
    where
      out_above :
          (q : FolderRow) → r.path ≡ join_path q.path r.name → is_at_or_under q.path old ≡ false
      out_above q d = elim (Bool-cases (is_at_or_under q.path old)) [
        | inr away ↦ away
        | inl under ↦ absurd (
            let f : is_at_or_under r.path old ≡ true = rw d (
              join_path-under old new name node.folder_id parent.folder_id m.old_path m.apart q.path
                r.name under) in
            let g : true ≡ false = sym f ∙ out in cc)
      ]

      still : Placement t.folders r → Placement (moves m) r
      still (inl top) = inl top
      still (inr (q, a, b, c, d, k)) = inr (
        q,
        a,
        subst (λ x. find_id (moves m) q.folder_id ≡ some x) (outside m q (b, c) (out_above q d))
            (found m q.folder_id q b),
        c,
        d,
        k,
      )

  pub place :
      (r : FolderRow)
      → IsNumbered t.next_id t.folders r × IsPlaced t.folders r
      → IsPlaced (moves m) ((move m) r)
  place r (numbered, placed) live = elim (Bool-cases (r.folder_id == node.folder_id)) [
    | inl e ↦ place_node r ir ((==_iff r.folder_id node.folder_id).0 e) live
    | inr e ↦ elim (Bool-cases (is_at_or_under r.path old)) [
      | inl under ↦
          let (y, at, tail) = is_at_or_under-IsTail r.path old m.old_path under in
          place_under r y ir (ground arith) at tail placed live
      | inr out ↦ place_outside r ir out placed live
    ]
  ]
    where
      ir : IsIn t r
      ir = (
        numbered.1,
        sym (moved-is_live old new name node.folder_id parent.folder_id m.old_path m.apart r)
            ∙ live,
      )
