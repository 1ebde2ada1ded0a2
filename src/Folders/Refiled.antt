-- ===== src/Folders/Refiled.antt =====
-- After a move, every live secret has the resource path of its folder.
use maintainerd_secret.Base.{
  ◌≡◌, refl, sym, ap, ◌∙◌, subst, inl, inr, true, false, ◌&&◌, some, List, [], ◌∷◌, arith, if-cases,
  Bool-cases, All,
}
use maintainerd_secret.Paths.Strings.{Text}
use maintainerd_secret.Paths.{mrn_resource_path}
use maintainerd_secret.Paths.Like.{in_subtree, in_subtree-not_root}
use maintainerd_secret.Folders.{
  FolderRow, FiledSecret, Tree, find_id, refresh, refresh_secret, refreshed,
}
use maintainerd_secret.Folders.Growth.{IsFiled}
use maintainerd_secret.Folders.Moved.{moved-path}
use maintainerd_secret.Folders.Move.{IsMove, move, moves, found}

pub refresh_secret-is_live :
    (slug : Text) (rows : List FolderRow) (new : Text) (s : FiledSecret)
    → (refresh_secret slug rows new s).is_live ≡ s.is_live
refresh_secret-is_live slug rows new s = ground arith

module _ {t : Tree} {node parent : FolderRow} {old new name : Text}
    (m : IsMove t node parent old new name) where
  pub file :
      (s : FiledSecret)
      → IsFiled t.slug t.folders s
      → IsFiled t.slug (moves m) (refresh_secret t.slug (moves m) new s)
  file s filed = elim (Bool-cases s.is_live) [
    | inr dead ↦ λ live. absurd (
        let g : true ≡ false = sym live ∙ (refresh_secret-is_live t.slug (moves m) new s ∙ dead) in
        cc)
    | inl alive ↦
        let (f, a, b) = filed alive in
        subst (IsFiled t.slug (moves m)) (sym (joined f a)) (file_at f a b alive)
  ]
    where
      joined :
          (f : FolderRow)
          → find_id t.folders s.folder_id ≡ some f
          → refresh_secret t.slug (moves m) new s ≡ refreshed t.slug new s ((move m) f)
      joined f a = rw (found m s.folder_id f a, refresh_secret) refl

      path_same :
          (f : FolderRow)
          → (in_subtree ((move m) f).path new && s.is_live) ≡ false
          → s.is_live ≡ true
          → ((move m) f).path ≡ f.path
      path_same f away alive =
          elim (moved-path old new name node.folder_id parent.folder_id m.old_path m.apart f) [
            | inl at ↦
                absurd (ground (arith, in_subtree-not_root new ((move m) f).path m.new_path.1))
            | inr same ↦ same
          ]

      file_at :
          (f : FolderRow)
          → find_id t.folders s.folder_id ≡ some f
          → s.resource_path ≡ mrn_resource_path t.slug f.path s.key
          → s.is_live ≡ true
          → IsFiled t.slug (moves m) (refreshed t.slug new s ((move m) f))
      file_at f a b alive =
          if-cases (IsFiled t.slug (moves m)) (in_subtree ((move m) f).path new && s.is_live) _ s
            (λ _ _. ((move m) f, found m s.folder_id f a, refl))
            (λ away _. (
              (move m) f,
              found m s.folder_id f a,
              b ∙ ap (λ q. mrn_resource_path t.slug q s.key) (sym (path_same f away alive)),
            ))

  pub refresh-All :
      (ss : List FiledSecret)
      → All (IsFiled t.slug t.folders) ss
      → All (IsFiled t.slug (moves m)) (refresh t.slug (moves m) new ss)
  refresh-All [] a = tt
  refresh-All (s ∷ ss) a = (file s a.0, refresh-All ss a.1)
