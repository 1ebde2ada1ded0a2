-- ===== src/Folders/Orphans.antt =====
-- A secret that was deleted with its folder: a restore makes it live and answers that its folder is
-- not found.
use maintainerd_secret.Base.{
  ℕ, ◌≡◌, refl, sym, ap, ◌∙◌, subst, inl, inr, Bool, true, false, Option, none, some, List, [], ◌∷◌,
  arith, ◌==◌, ==_iff, if◌then◌else◌, Bool-cases, find_first, update_where, err, ok, not_found, All,
  All-map,
}
use maintainerd_secret.Paths.Strings.{Text}
use maintainerd_secret.Paths.Like.{in_subtree}
use maintainerd_secret.Folders.{FolderRow, FiledSecret, Tree, find_id, map_rows, normalized}
use maintainerd_secret.Folders.Growth.{IsTree, IsNumbered}
use maintainerd_secret.Folders.Filing.{
  delete_folder, delete_row, doomed, bury, in_folder, is_deleted_uuid, restore_secret, revive,
  live_folder, takes_address,
}

find_first-update_where :
    (test p : FiledSecret → Bool) (f : FiledSecret → FiledSecret)
    → ((s : FiledSecret) → test (if p s then f s else s) ≡ false)
    → (ss : List FiledSecret) → find_first test (update_where p f ss) ≡ none
unfolding find_first update_where
find_first-update_where test p f h [] = refl
find_first-update_where test p f h (s ∷ ss) =
    ground (arith, h s, find_first-update_where test p f h ss)

find_first-map_rows :
    (test : FolderRow → Bool) (f : FolderRow → FolderRow) (rows : List FolderRow)
    → All (λ r. test (f r) ≡ false) rows
    → find_first test (map_rows f rows) ≡ none
unfolding find_first
find_first-map_rows test f [] h = refl
find_first-map_rows test f (r ∷ rs) h = rw (h.0, find_first) (find_first-map_rows test f rs h.1)

module _ (t : Tree) (p : Text) (s : FiledSecret) (f : FolderRow) (v : IsTree t)
    (at : find_id t.folders s.folder_id ≡ some f) (under : in_subtree f.path p ≡ true) where
  -- No live secret is left in the folder.
  address_free :
      find_first (takes_address s) (update_where (doomed t.folders p) bury t.secrets) ≡ none
  address_free = find_first-update_where (takes_address s) (doomed t.folders p) bury free t.secrets
    where
      free :
          (o : FiledSecret) → takes_address s (if doomed t.folders p o then bury o else o) ≡ false
      free o = elim (Bool-cases (o.folder_id == s.folder_id)) [
        | inl e ↦
            let g : in_folder t.folders p o ≡ true =
              rw ((==_iff o.folder_id s.folder_id).0 e, at, in_folder) under in
            ground arith
        | inr e ↦ ground arith
      ]

  -- The folder is not live.
  folder_gone : find_first (live_folder s.folder_id) (map_rows (delete_row p) t.folders) ≡ none
  folder_gone =
      find_first-map_rows (live_folder s.folder_id) (delete_row p) t.folders
        (All-map (IsNumbered t.next_id t.folders) _ gone t.folders v.numbered)
    where
      gone :
          (r : FolderRow)
          → IsNumbered t.next_id t.folders r
          → live_folder s.folder_id (delete_row p r) ≡ false
      gone r n = elim (Bool-cases (r.folder_id == s.folder_id)) [
        | inl e ↦
            let g : ◌≡◌ {A = Option FolderRow} (some f) (some r) =
              sym at
              ∙ (ap (λ i. find_id t.folders i) (sym ((==_iff r.folder_id s.folder_id).0 e))
                  ∙ n.1) in
            let h : in_subtree r.path p ≡ true =
              let k : f ≡ r = cc in subst (λ (q : FolderRow). in_subtree q.path p ≡ true) k under in
            ground arith
        | inr e ↦ ground arith
      ]

abbrev pub has_uuid : ℕ → FiledSecret → Bool
has_uuid uuid s = s.secret_uuid == uuid

module _ (uuid : ℕ) (s : FiledSecret) where
  -- The first row of a uuid, when it is deleted, is the first deleted row of the uuid.
  first_deleted :
      (ss : List FiledSecret)
      → find_first (has_uuid uuid) ss ≡ some s
      → s.is_live ≡ false
      → find_first (is_deleted_uuid uuid) ss ≡ some s
  unfolding find_first
  first_deleted [] h dead = absurd cc
  first_deleted (x ∷ ss) h dead = elim (Bool-cases (has_uuid uuid x)) [
    | inl e ↦
        let head : ◌≡◌ {A = Option FiledSecret} (some x) (some s) = (rw e at h) in
        let same : s ≡ x = cc in
        let off : x.is_live ≡ false = subst (λ (y : FiledSecret). y.is_live ≡ false) same dead in
        let goal : is_deleted_uuid uuid x ≡ true = ground (arith, e, off) in
        rw (goal, find_first) head
    | inr e ↦
        let no : is_deleted_uuid uuid x ≡ false = ground (arith, e) in
        rw (no, find_first) (first_deleted ss (rw e at h) dead)
  ]

  -- The update makes it live.
  first_revived :
      (ss : List FiledSecret)
      → find_first (has_uuid uuid) ss ≡ some s
      → s.is_live ≡ false
      → find_first (has_uuid uuid) (update_where (is_deleted_uuid uuid) revive ss) ≡ some (revive s)
  unfolding find_first update_where
  first_revived [] h dead = absurd cc
  first_revived (x ∷ ss) h dead = elim (Bool-cases (has_uuid uuid x)) [
    | inl e ↦
        let head : ◌≡◌ {A = Option FiledSecret} (some x) (some s) = (rw e at h) in
        let same : s ≡ x = cc in
        let off : x.is_live ≡ false = subst (λ (y : FiledSecret). y.is_live ≡ false) same dead in
        let goal : is_deleted_uuid uuid x ≡ true = ground (arith, e, off) in
        rw (goal, e, find_first) (ap (λ (y : FiledSecret). some (revive y)) (sym same))
    | inr e ↦
        let no : is_deleted_uuid uuid x ≡ false = ground (arith, e) in
        rw (no, e, find_first) (first_revived ss (rw e at h) dead)
  ]

deleted_tree :
    (t u : Tree) (path p : Text)
    → normalized path ≡ ok p
    → delete_folder t path ≡ ok u
    → u ≡ record t {
      secrets = update_where (doomed t.folders p) bury t.secrets;
      folders = map_rows (delete_row p) t.folders;
    }
unfolding delete_folder
deleted_tree t u path p h d = ground arith

orphan :
    (u : Tree) (uuid : ℕ) (s : FiledSecret)
    → find_first (is_deleted_uuid uuid) u.secrets ≡ some s
    → find_first (takes_address s) u.secrets ≡ none
    → find_first (live_folder s.folder_id) u.folders ≡ none
    → restore_secret u uuid ≡ (
      record u { secrets = update_where (is_deleted_uuid uuid) revive u.secrets },
      err (not_found "folder"),
    )
unfolding restore_secret
orphan u uuid s found free gone = rw (found, free, gone, restore_secret) refl

-- A folder at or below the path of a folder delete holds a secret, and the first row of the secret's
-- uuid is deleted afterwards: then RestoreSecret answers that there is no folder, while the first row of
-- the uuid is the secret made live, and there is no live folder of its folder's id.
pub restore_secret-delete_folder :
    (t u : Tree) (path p : Text) (uuid : ℕ) (s : FiledSecret) (f : FolderRow)
    → IsTree t
    → normalized path ≡ ok p
    → delete_folder t path ≡ ok u
    → find_first (has_uuid uuid) u.secrets ≡ some s
    → s.is_live ≡ false
    → find_id t.folders s.folder_id ≡ some f
    → in_subtree f.path p ≡ true
    → ((restore_secret u uuid).1 ≡ err (not_found "folder"))
      × (find_first (has_uuid uuid) (restore_secret u uuid).0.secrets
          ≡ some (record s { is_live = true }))
      × (find_first (live_folder s.folder_id) (restore_secret u uuid).0.folders ≡ none)
restore_secret-delete_folder t u path p uuid s f v h d there dead at under =
    let e = deleted_tree t u path p h d in
    let found = first_deleted uuid s u.secrets there dead in
    let free : find_first (takes_address s) u.secrets ≡ none =
      ap (λ (q : Tree). find_first (takes_address s) q.secrets) e
      ∙ address_free t p s f v at under in
    let gone : find_first (live_folder s.folder_id) u.folders ≡ none =
      ap (λ (q : Tree). find_first (live_folder s.folder_id) q.folders) e
      ∙ folder_gone t p s f v at under in
    rw (orphan u uuid s found free gone) (refl, first_revived uuid s u.secrets there dead, gone)
