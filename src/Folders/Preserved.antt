-- ===== src/Folders/Preserved.antt =====
-- MoveFolder and CreateFolder keep the shape of the tree.
use maintainerd_secret.Base.{
  ◌++◌, ◌≡◌, sym, ap, ◌∙◌, subst, ◌⊎◌, inr, false, is_null, arith, if-cases, elim-cases, OnOk,
  OnOk-chain, OnOk-bind, OnOk-map, ok, err, conflict,
}
use maintainerd_secret.Paths.Strings.{Text, root, text_eq, text_eq_iff}
use maintainerd_secret.Paths.{PathError, normalize_path, split_path, is_at_or_under}
use maintainerd_secret.Paths.Normal.{IsCanonical, at_root, nested, normalize_path-IsCanonical}
use maintainerd_secret.Paths.Parents.{join_path-split_path, IsFolderName-NoSlash}
use maintainerd_secret.Paths.Subtrees.{NotRoot, IsNested-NotRoot, IsTail}
use maintainerd_secret.Folders.{
  FolderRow, Tree, find_path, normalized, create_folder, move_within, move_folder, relocate,
}
use maintainerd_secret.Folders.Growth.{
  IsTree, IsIn, join_path-IsAt, Extends, Reaches, ensure_folder_path-IsTree, find_path-IsIn,
}
use maintainerd_secret.Folders.Move.{IsMove}
use maintainerd_secret.Folders.Relocated.{relocate-IsTree, IsCarried, relocate_carries}

normalized-ok : (p q : Text) → normalized p ≡ ok q → normalize_path p ≡ inr q
unfolding normalized
normalized-ok p q h = ground arith

normalized-IsCanonical : (p q : Text) → normalized p ≡ ok q → IsCanonical q
normalized-IsCanonical p q h = normalize_path-IsCanonical p q (normalized-ok p q h)

pub create_folder-IsTree :
    (t : Tree) (path : Text) → IsTree t → OnOk (λ e. IsTree e.0) (create_folder t path)
unfolding create_folder
create_folder-IsTree t path v =
    OnOk-bind (λ e. IsTree e.0) (normalized path) _
      (λ p h.
        OnOk-map (Reaches t p) (λ e. IsTree e.0) _
          (ensure_folder_path-IsTree t p v (normalized-IsCanonical path p h)) (λ e r. r.0))

IsCanonical-NotRoot : (p : Text) → IsCanonical p → text_eq p root ≡ false → NotRoot p
IsCanonical-NotRoot p (at_root e) h = absurd (ground (arith, text_eq_iff p root))
IsCanonical-NotRoot p (nested {rest} e v) h = subst NotRoot (sym e) (IsNested-NotRoot rest v)

-- What a move changes is the writes' doing, on a tree in which the new parent was made.
abbrev pub Relocates : Tree → Text → Text → (Tree × FolderRow → Type 0) → Type 0
Relocates t old new P =
    (u : Tree) (node parent : FolderRow) (name : Text)
    → IsMove u node parent old new name
    → Extends t u
    → OnOk P (relocate u node parent name old new)

module _ (t : Tree) (P : Tree × FolderRow → Type 0) (v : IsTree t) where
  move_within_rule :
      (old new : Text)
      → Relocates t old new P
      → IsCanonical new
      → NotRoot old
      → NotRoot new
      → is_at_or_under new old ≡ false
      → OnOk P (move_within t old new)
  unfolding move_within
  move_within_rule old new step c o w apart =
      let (canonical, plain, joined) =
        join_path-split_path new c (λ e. absurd (ground (arith, text_eq_iff new root))) in
      elim-cases (OnOk P) (find_path t.folders old) _ _ (λ _. tt)
        (λ node found.
          if-cases (OnOk P) (is_null (find_path t.folders new)) _ (err conflict)
            (λ _.
              OnOk-chain (Reaches t (split_path new).0) P _ _
                (ensure_folder_path-IsTree t (split_path new).0 v canonical)
                (λ e (u, ip, at, more).
                  let (inside, at_old) = find_path-IsIn t old node v found in
                  step e.0 node e.1 (split_path new).1
                    (record {
                      tree = u;
                      node_in = (more.1 node.folder_id node inside.0, inside.1);
                      parent_in = ip;
                      old_path = o;
                      new_path = w;
                      at_old = at_old;
                      at_new =
                          sym joined ∙ join_path-IsAt (split_path new).0 (split_path new).1 e.1 at;
                      plain = IsFolderName-NoSlash (split_path new).1 plain;
                      apart = apart;
                    })
                    more))
            (λ _. tt))

  pub move_folder_rule :
      (from to : Text)
      → ((old new : Text)
          → normalize_path from ≡ inr old
          → normalize_path to ≡ inr new
          → Relocates t old new P)
      → OnOk P (move_folder t from to)
  unfolding move_folder
  move_folder_rule from to step = OnOk-bind P (normalized from) _ (λ old c.
      OnOk-bind P (normalized to) _ (λ new d.
        if-cases (OnOk P) (text_eq old root) _ _ (λ _. tt)
          (λ e.
            if-cases (OnOk P) (text_eq new root) _ _ (λ _. tt)
              (λ f.
                if-cases (OnOk P) (text_eq old new) _ _ (λ _. tt)
                  (λ _.
                    if-cases (OnOk P) (is_at_or_under new old) _ _ (λ _. tt)
                      (λ apart.
                        move_within_rule old new
                          (step old new (normalized-ok from old c) (normalized-ok to new d))
                          (normalized-IsCanonical to new d)
                          (IsCanonical-NotRoot old (normalized-IsCanonical from old c) e)
                          (IsCanonical-NotRoot new (normalized-IsCanonical to new d) f) apart))))))

pub move_folder-IsTree :
    (t : Tree) (from to : Text) → IsTree t → OnOk (λ e. IsTree e.0) (move_folder t from to)
move_folder-IsTree t from to v =
    move_folder_rule t (λ e. IsTree e.0) v from to
      (λ old new _ _ u node parent name m _. relocate-IsTree m)

-- A folder at or under the source path stands, after the move, as far under the destination.
pub move_folder_carries :
    (t : Tree) (from to old new y : Text) (r : FolderRow)
    → IsTree t
    → normalize_path from ≡ inr old
    → normalize_path to ≡ inr new
    → IsIn t r
    → r.path ≡ old ++ y
    → IsTail y
    → OnOk (IsCarried r.folder_id (new ++ y)) (move_folder t from to)
move_folder_carries t from to old new y r v hf ht ir at tail =
    move_folder_rule t (IsCarried r.folder_id (new ++ y)) v from to
      (λ old' new' hf' ht' u node parent name m more.
        let e : old' ≡ old = inr_injective (sym hf' ∙ hf) in
        let f : new' ≡ new = inr_injective (sym ht' ∙ ht) in
        subst (λ q. OnOk (IsCarried r.folder_id (q ++ y)) (relocate u node parent name old' new')) f
          (relocate_carries m r y (more.1 r.folder_id r ir.0, ir.1) (at ∙ ap (λ q. q ++ y) (sym e))
            tail))
  where
    inr_injective : {p q : Text} → ◌≡◌ {A = PathError ⊎ Text} (inr p) (inr q) → p ≡ q
    inr_injective h = cc
