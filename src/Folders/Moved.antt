-- ===== src/Folders/Moved.antt =====
-- What the writes of a move do to one row: the moved folder, the folders under it, and the others.
use mathlib.Core.List.{append_assoc, append-nil}
use maintainerd_secret.Base.{
  ℕ, ◌≡◌, ◌≢◌, refl, sym, ap, ◌∙◌, subst, ◌⊎◌, inl, inr, true, false, some, List, [], ◌∷◌, ◌++◌,
  arith, ◌==◌, ==_iff, Bool-cases,
}
use maintainerd_secret.Paths.Strings.{Text, slash}
use maintainerd_secret.Paths.{join_path, is_at_or_under}
use maintainerd_secret.Paths.Like.{in_subtree-not_root}
use maintainerd_secret.Paths.Subtrees.{
  IsTail, whole, below, NotRoot, NotRoot-append, is_at_or_under-IsTail, is_at_or_under-append,
  drop-length_append, join_path-NotRoot,
}
use maintainerd_secret.Folders.{FolderRow, map_rows, reparent, rebase_row}

module _ (old new name : Text) (node parent : ℕ) (o : NotRoot old)
    (apart : is_at_or_under new old ≡ false) where
  -- Both writes on one row.
  pub moved : FolderRow → FolderRow
  moved r = rebase_row old new (reparent node parent name new r)

  pub moved-folder_id : (r : FolderRow) → (moved r).folder_id ≡ r.folder_id
  unfolding moved
  moved-folder_id r = ground arith

  pub moved-is_live : (r : FolderRow) → (moved r).is_live ≡ r.is_live
  unfolding moved
  moved-is_live r = ground arith

  -- A deleted row stays.
  pub moved-dead : (r : FolderRow) → r.is_live ≡ false → moved r ≡ r
  unfolding moved
  moved-dead r dead = ground arith

  -- The moved folder itself is not rewritten twice.
  pub moved-node :
      (r : FolderRow)
      → r.folder_id ≡ node
      → r.is_live ≡ true
      → moved r ≡ record r { parent_folder_id = some parent; name = name; path = new }
  unfolding moved
  moved-node r e live = ground (arith, in_subtree-not_root old new o.1)

  pub moved-other :
      (r : FolderRow) → r.folder_id ≢ node → is_at_or_under r.path old ≡ false → moved r ≡ r
  unfolding moved
  moved-other r e out = ground (arith, in_subtree-not_root old r.path o.1)

  pub moved-under :
      (r : FolderRow) (y : Text)
      → r.folder_id ≢ node
      → r.is_live ≡ true
      → r.path ≡ old ++ y
      → IsTail y
      → moved r ≡ record r { path = new ++ y }
  unfolding moved
  moved-under r y e live at t = ground (
    arith,
    in_subtree-not_root old r.path o.1,
    is_at_or_under-append old y t,
    drop-length_append old y,
  )

  -- A folder that is not at or under the old path has no child there but the old path itself.
  pub join_path-under :
      (p n : Text) → is_at_or_under p old ≡ true → is_at_or_under (join_path p n) old ≡ true
  join_path-under p n h =
      let (y, e, t) = is_at_or_under-IsTail p old o h in
      subst (λ q. is_at_or_under q old ≡ true)
        (sym (
          ap (λ q. join_path q n) e
          ∙ (join_path-NotRoot (old ++ y) n (NotRoot-append old y o)
              ∙ append_assoc old y (slash ∷ n))))
        (is_at_or_under-append old (y ++ (slash ∷ n)) (IsTail-append y t n))
    where
      IsTail-append : (y : Text) → IsTail y → (n : Text) → IsTail (y ++ (slash ∷ n))
      IsTail-append y whole n = below n
      IsTail-append y (below s) n = below (s ++ (slash ∷ n))

  -- A row at or under the new path is one that was moved there, or has its path still.
  pub moved-path :
      (r : FolderRow) → (is_at_or_under (moved r).path new ≡ true) ⊎ ((moved r).path ≡ r.path)
  moved-path r = elim (Bool-cases r.is_live) [
    | inr dead ↦ inr (ap (λ (m : FolderRow). m.path) (moved-dead r dead))
    | inl live ↦ elim (Bool-cases (r.folder_id == node)) [
      | inl e ↦ inl (
          at_new (moved r) []
            (ap (λ (m : FolderRow). m.path) (moved-node r ((==_iff _ _).0 e) live)
              ∙ sym (append-nil new))
            whole)
      | inr e ↦ beside live e
    ]
  ]
    where
      at_new :
          (m : FolderRow) (y : Text)
          → m.path ≡ new ++ y
          → IsTail y
          → is_at_or_under m.path new ≡ true
      at_new m y e t = rw e (is_at_or_under-append new y t)

      beside :
          r.is_live ≡ true
          → (r.folder_id == node) ≡ false
          → (is_at_or_under (moved r).path new ≡ true) ⊎ ((moved r).path ≡ r.path)
      beside live e = elim (Bool-cases (is_at_or_under r.path old)) [
        | inr out ↦ inr (ap (λ (m : FolderRow). m.path) (moved-other r (ground arith) out))
        | inl under ↦
            let (y, at, t) = is_at_or_under-IsTail r.path old o under in
            inl (
              at_new (moved r) y
                (ap (λ (m : FolderRow). m.path) (moved-under r y (ground arith) live at t)) t)
      ]

  pub map_rows-moved :
      (rows : List FolderRow)
      → map_rows (rebase_row old new) (map_rows (reparent node parent name new) rows)
        ≡ map_rows moved rows
  unfolding moved
  map_rows-moved [] = refl
  map_rows-moved (r ∷ rs) = ap (λ ms. moved r ∷ ms) (map_rows-moved rs)
