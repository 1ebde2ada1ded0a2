-- ===== src/Folders/Stale.antt =====
-- A secret that is deleted when its folder moves is restored with its old resource path.
use maintainerd_secret.Base.{
  ℕ, ◌≡◌, refl, sym, ap, ◌∙◌, subst, inr, false, some, List, [], ◌∷◌, ◌++◌, arith, if-cases,
  find_first, is_null, OnOk, OnOk-map, OnOk-both, Fallible, err, conflict,
}
use maintainerd_secret.Paths.Strings.{Text}
use maintainerd_secret.Paths.{normalize_path}
use maintainerd_secret.Paths.Subtrees.{IsTail}
use maintainerd_secret.Folders.{FolderRow, FiledSecret, Tree, refresh, refresh_secret, move_folder}
use maintainerd_secret.Folders.Growth.{IsTree, IsIn}
use maintainerd_secret.Folders.Relocated.{IsCarried, relocate_secrets}
use maintainerd_secret.Folders.Refiled.{refresh_secret-is_live}
use maintainerd_secret.Folders.Preserved.{move_folder_rule, move_folder_carries}
use maintainerd_secret.Folders.Filing.{
  is_deleted_uuid, restore_secret, folder_read, revive, live_folder, takes_address,
}

refresh_secret-dead :
    (slug : Text) (rows : List FolderRow) (new : Text) (s : FiledSecret)
    → s.is_live ≡ false
    → refresh_secret slug rows new s ≡ s
refresh_secret-dead slug rows new s dead = ground arith

refresh_secret-secret_uuid :
    (slug : Text) (rows : List FolderRow) (new : Text) (s : FiledSecret)
    → (refresh_secret slug rows new s).secret_uuid ≡ s.secret_uuid
refresh_secret-secret_uuid slug rows new s = ground arith

-- A refresh leaves the deleted secrets as they are.
find_first-refresh :
    (slug : Text) (rows : List FolderRow) (new : Text) (uuid : ℕ) (ss : List FiledSecret)
    → find_first (is_deleted_uuid uuid) (refresh slug rows new ss)
      ≡ find_first (is_deleted_uuid uuid) ss
unfolding find_first
find_first-refresh slug rows new uuid [] = refl
find_first-refresh slug rows new uuid (s ∷ ss) = ground (
  arith,
  refresh_secret-dead slug rows new s,
  refresh_secret-is_live slug rows new s,
  refresh_secret-secret_uuid slug rows new s,
  find_first-refresh slug rows new uuid ss,
)

-- What a restore answers is the deleted row, live again.
folder_read_lem : (t : Tree) (s : FiledSecret) → OnOk (λ r. r ≡ revive s) (folder_read t s)
folder_read_lem t s =
    if-cases (OnOk (λ r. r ≡ revive s)) (is_null (find_first (live_folder s.folder_id) t.folders)) _
      _ (λ _. tt) (λ _. refl)

restore_secret_lem :
    (t : Tree) (uuid : ℕ) (s : FiledSecret)
    → find_first (is_deleted_uuid uuid) t.secrets ≡ some s
    → OnOk (λ r. r ≡ revive s) (restore_secret t uuid).1
unfolding restore_secret
restore_secret_lem t uuid s h =
    rw (h, restore_secret)
      (if-cases (λ (x : Tree × Fallible FiledSecret). OnOk (λ r. r ≡ revive s) x.1)
        (is_null (find_first (takes_address s) t.secrets)) _ (t, err conflict)
        (λ _. folder_read_lem t s) (λ _. tt))

-- A move finds the deleted secrets that there were.
deleted-move_folder :
    (t : Tree) (from to : Text) (uuid : ℕ)
    → IsTree t
    → OnOk
        (λ e.
          find_first (is_deleted_uuid uuid) e.0.secrets
          ≡ find_first (is_deleted_uuid uuid) t.secrets)
        (move_folder t from to)
deleted-move_folder t from to uuid v =
    move_folder_rule t
      (λ e.
        find_first (is_deleted_uuid uuid) e.0.secrets ≡ find_first (is_deleted_uuid uuid) t.secrets)
      v from to
      (λ old new _ _ u node parent name m more.
        OnOk-map (λ e. e.0.secrets ≡ refresh u.slug _ new u.secrets)
          (λ e.
            find_first (is_deleted_uuid uuid) e.0.secrets
            ≡ find_first (is_deleted_uuid uuid) t.secrets)
          _ (relocate_secrets m)
          (λ e f.
            ap (λ ss. find_first (is_deleted_uuid uuid) ss) f
            ∙ (find_first-refresh u.slug _ new uuid u.secrets
                ∙ ap (λ ss. find_first (is_deleted_uuid uuid) ss) more.2)))

-- After a move of its folder, a deleted secret is restored into the moved folder with the resource
-- path that it had before.
pub restore_secret-move_folder :
    (t : Tree) (from to old new y : Text) (r : FolderRow) (uuid : ℕ) (s : FiledSecret)
    → IsTree t
    → normalize_path from ≡ inr old
    → normalize_path to ≡ inr new
    → IsIn t r
    → r.path ≡ old ++ y
    → IsTail y
    → find_first (is_deleted_uuid uuid) t.secrets ≡ some s
    → s.folder_id ≡ r.folder_id
    → OnOk
        (λ e.
          IsCarried s.folder_id (new ++ y) e
          × OnOk
              (λ q. (q.folder_id ≡ s.folder_id) × (q.resource_path ≡ s.resource_path))
              (restore_secret e.0 uuid).1)
        (move_folder t from to)
restore_secret-move_folder t from to old new y r uuid s v hf ht ir at tail h same =
    OnOk-both _ _ (move_folder t from to)
      (subst (λ i. OnOk (IsCarried i (new ++ y)) (move_folder t from to)) (sym same)
        (move_folder_carries t from to old new y r v hf ht ir at tail))
      (OnOk-map {A = Tree × FolderRow} _ _ _ (deleted-move_folder t from to uuid v) (λ e f.
        OnOk-map _
          (λ (q : FiledSecret). (q.folder_id ≡ s.folder_id) × (q.resource_path ≡ s.resource_path)) _
          (restore_secret_lem e.0 uuid s (f ∙ h))
          (λ q g. (
            ap (λ (x : FiledSecret). x.folder_id) g,
            ap (λ (x : FiledSecret). x.resource_path) g,
          ))))
