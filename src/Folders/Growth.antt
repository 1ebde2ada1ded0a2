-- ===== src/Folders/Growth.antt =====
-- The shape of the tree, and that the folders made along a path keep it.
use mathlib.Core.List.{foldl}
use maintainerd_secret.Base.{
  ℕ, ◌+◌, ◌<◌, ◌≡◌, refl, sym, ap, ◌∙◌, subst, ◌⊎◌, inl, inr, true, none, some, List, [], ◌∷◌,
  arith, if-cases, elim-cases, find_first, All, All-map, Fallible, ok, err, ◌>>=◌, OnOk, OnOk-chain,
  OnOk-map, conflict,
}
use maintainerd_secret.Paths.Strings.{Text, slash, root, text_eq, split}
use maintainerd_secret.Paths.{join_path, mrn_resource_path}
use maintainerd_secret.Paths.Parents.{NoSlash, IsFolderName-NoSlash}
use maintainerd_secret.Paths.Segments.{render-split}
use maintainerd_secret.Paths.Normal.{IsCanonical, IsNested, at_root, nested, IsNested-text_eq}
use maintainerd_secret.Paths.Subtrees.{foldl-join_path}
use maintainerd_secret.Folders.{
  FolderRow, FiledSecret, Tree, has_id, lives_at, find_id, find_path, has_unique_paths,
  write_folders, create_row, enter, walk, split_segments, ensure_folder_path,
}
use maintainerd_secret.Folders.Tables.{find_first-All, find_id-id, find_path-lives}

-- The root, or a folder whose path is its parent's path and its own name.
abbrev pub Placement : List FolderRow → FolderRow → Type 0
Placement rows r =
    ((r.parent_folder_id ≡ none) × (r.path ≡ root))
    ⊎ ((p : FolderRow) × (r.parent_folder_id ≡ some p.folder_id)
        × (find_id rows p.folder_id ≡ some p)
        × (p.is_live ≡ true)
        × (r.path ≡ join_path p.path r.name)
        × NoSlash r.name)

abbrev pub IsPlaced : List FolderRow → FolderRow → Type 0
IsPlaced rows r = r.is_live ≡ true → Placement rows r

-- The resource path of a secret is that of its folder and key.
abbrev pub IsFiled : Text → List FolderRow → FiledSecret → Type 0
IsFiled slug rows s =
    s.is_live ≡ true
    → (f : FolderRow) × (find_id rows s.folder_id ≡ some f)
      × (s.resource_path ≡ mrn_resource_path slug f.path s.key)

abbrev pub IsNumbered : ℕ → List FolderRow → FolderRow → Type 0
IsNumbered next rows r = (r.folder_id < next) × (find_id rows r.folder_id ≡ some r)

pub record IsTree (t : Tree) : Type 0 where
  pub numbered : All (IsNumbered t.next_id t.folders) t.folders
  pub placed : All (IsPlaced t.folders) t.folders
  pub unique : has_unique_paths t.folders ≡ true
  pub filed : All (IsFiled t.slug t.folders) t.secrets

-- A live row of the tree.
abbrev pub IsIn : Tree → FolderRow → Type 0
IsIn t r = (find_id t.folders r.folder_id ≡ some r) × (r.is_live ≡ true)

-- A found row is found under a row with a new id.
find_id-new :
    (t : Tree) (row : FolderRow)
    → IsTree t
    → row.folder_id ≡ t.next_id
    → (i : ℕ) (r : FolderRow) → find_id t.folders i ≡ some r
    → find_id (row ∷ t.folders) i ≡ some r
unfolding find_first
find_id-new t row v e i r h =
    let n = find_first-All (IsNumbered t.next_id t.folders) (has_id i) t.folders r v.numbered h in
    ground (arith, find_id-id t.folders i r h)

-- More rows are found.
abbrev pub Keeps : List FolderRow → List FolderRow → Type 0
Keeps rows more = (i : ℕ) (r : FolderRow) → find_id rows i ≡ some r → find_id more i ≡ some r

IsPlaced-more :
    (rows more : List FolderRow)
    → Keeps rows more
    → (r : FolderRow) → IsPlaced rows r
    → IsPlaced more r
IsPlaced-more rows more keeps r placed live = elim (placed live) [
  | inl top ↦ inl top
  | inr (p, a, b, c, d, e) ↦ inr (p, a, keeps p.folder_id p b, c, d, e)
]

IsFiled-more :
    (slug : Text) (rows more : List FolderRow)
    → Keeps rows more
    → (s : FiledSecret) → IsFiled slug rows s
    → IsFiled slug more s
IsFiled-more slug rows more keeps s filed live =
    let (f, a, b) = filed live in (f, keeps s.folder_id f a, b)

-- A new row, at the path of its parent and its name.
abbrev pub IsNewRow : Tree → FolderRow → FolderRow → Type 0
IsNewRow t parent row =
    (row.folder_id ≡ t.next_id)
    × (row.parent_folder_id ≡ some parent.folder_id)
    × (row.path ≡ join_path parent.path row.name)
    × NoSlash row.name

insert-IsTree :
    (t : Tree) (parent row : FolderRow)
    → IsTree t
    → IsIn t parent
    → IsNewRow t parent row
    → has_unique_paths (row ∷ t.folders) ≡ true
    → IsTree (record t { folders = row ∷ t.folders; next_id = t.next_id + 1 })
unfolding find_first
insert-IsTree t parent row v p (e, f, g, k) u =
    let keeps = find_id-new t row v e in
    record {
      numbered = (
        (omega arith, ground arith),
        All-map _ _ (λ (r : FolderRow) n. (omega (arith, n.0), keeps r.folder_id r n.1)) t.folders
            v.numbered,
      );
      placed = (
        λ live. inr (parent, f, keeps parent.folder_id parent p.0, p.1, g, k),
        All-map _ _ (IsPlaced-more t.folders (row ∷ t.folders) keeps) t.folders v.placed,
      );
      unique = u;
      filed = All-map _ _ (IsFiled-more t.slug t.folders (row ∷ t.folders) keeps) t.secrets v.filed;
    }

-- The old rows are still found, and the secrets are the same.
abbrev pub Extends : Tree → Tree → Type 0
Extends t t' = (t'.slug ≡ t.slug) × Keeps t.folders t'.folders × (t'.secrets ≡ t.secrets)

abbrev Enters : Tree → Text → Tree × FolderRow → Type 0
Enters t built e = IsTree e.0 × IsIn e.0 e.1 × (e.1.path ≡ built) × Extends t e.0

create_row-IsTree :
    (t : Tree) (parent : FolderRow) (segment built : Text)
    → IsTree t
    → IsIn t parent
    → built ≡ join_path parent.path segment
    → NoSlash segment
    → OnOk (Enters t built) (create_row t parent segment built)
unfolding create_row write_folders find_first
create_row-IsTree t parent segment built v p e h =
    if-cases
      (λ (call : Fallible Tree).
        OnOk (Enters t built) (call >>= λ t'. ok (record t' { next_id = t.next_id + 1 }, row)))
      (has_unique_paths (row ∷ t.folders)) (ok (record t { folders = row ∷ t.folders }))
      (err conflict)
      (λ u. (
        insert-IsTree t parent row v p (refl, refl, e, h) u,
        (ground arith, refl),
        refl,
        (refl, find_id-new t row v refl, refl),
      ))
      (λ _. tt)
  where
    row : FolderRow
    row = record {
      folder_id = t.next_id;
      parent_folder_id = some parent.folder_id;
      name = segment;
      path = built;
      is_live = true;
    }

-- A row that is found by its path is in the tree.
pub find_path-IsIn :
    (t : Tree) (path : Text) (r : FolderRow)
    → IsTree t
    → find_path t.folders path ≡ some r
    → IsIn t r × (r.path ≡ path)
find_path-IsIn t path r v h =
    let (live, at) = find_path-lives t.folders path r h in
    let n =
      find_first-All (IsNumbered t.next_id t.folders) (lives_at path) t.folders r v.numbered h in
    ((n.1, live), at)

enter-IsTree :
    (t : Tree) (current : FolderRow) (segment built : Text)
    → IsTree t
    → IsIn t current
    → built ≡ join_path current.path segment
    → NoSlash segment
    → OnOk (Enters t built) (enter t current segment built)
unfolding enter
enter-IsTree t current segment built v p e h =
    elim-cases (OnOk (Enters t built)) (find_path t.folders built) _ _
      (λ _. create_row-IsTree t current segment built v p e h)
      (λ r found.
        let (inside, at) = find_path-IsIn t built r v found in
        (v, inside, at, (refl, λ i q e. e, refl)))

-- The folder that a walk has reached: the one at its path, or the root before the first step.
abbrev pub IsAt : Text → FolderRow → Type 0
IsAt built r = (r.path ≡ built) ⊎ ((built ≡ []) × (r.path ≡ root))

pub join_path-IsAt :
    (built segment : Text) (r : FolderRow)
    → IsAt built r
    → join_path built segment ≡ join_path r.path segment
unfolding join_path text_eq
join_path-IsAt built segment r (inl e) = ap (λ p. join_path p segment) (sym e)
join_path-IsAt built segment r (inr (e, f)) =
    ap (λ p. join_path p segment) e ∙ sym (ap (λ p. join_path p segment) f)

abbrev pub Reaches : Tree → Text → Tree × FolderRow → Type 0
Reaches t built e = IsTree e.0 × IsIn e.0 e.1 × IsAt built e.1 × Extends t e.0

Reaches-Extends :
    (t u : Tree) (built : Text)
    → Extends t u
    → (e : Tree × FolderRow) → Reaches u built e
    → Reaches t built e
Reaches-Extends t u built (s, k, f) e (v, p, a, (s', k', f')) =
    (v, p, a, (s' ∙ s, λ i r h. k' i r (k i r h), f' ∙ f))

walk-IsTree :
    (segments : List Text) (t : Tree) (current : FolderRow) (built : Text)
    → IsTree t
    → IsIn t current
    → IsAt built current
    → All NoSlash segments
    → OnOk (Reaches t (foldl join_path built segments)) (walk t current built segments)
unfolding walk
walk-IsTree [] t current built v p a h = (v, p, a, (refl, λ i q e. e, refl))
walk-IsTree (s ∷ ss) t current built v p a h =
    let built' = join_path built s in
    let goal = Reaches t (foldl join_path built' ss) in
    OnOk-chain (Enters t built') goal (enter t current s built') (λ e. walk e.0 e.1 built' ss)
      (enter-IsTree t current s built' v p (join_path-IsAt built s current a) h.0)
      (λ e entered.
        OnOk-map (Reaches e.0 (foldl join_path built' ss)) goal _
          (walk-IsTree ss e.0 e.1 built' entered.0 entered.1 (inl entered.2) h.1)
          (Reaches-Extends t e.0 _ entered.3))

walk_path : (rest : Text) → IsNested rest → foldl join_path [] (split rest) ≡ slash ∷ rest
walk_path rest v = foldl-join_path [] (split rest) (inl refl) v.names ∙ render-split rest

split_segments-root : split_segments root ≡ []
unfolding split_segments text_eq
split_segments-root = refl

split_segments-nested : (rest : Text) → IsNested rest → split_segments (slash ∷ rest) ≡ split rest
unfolding split_segments
split_segments-nested rest v = rw (IsNested-text_eq rest v) refl

from_root :
    (t : Tree) (p : Text) (current : FolderRow)
    → IsTree t
    → IsIn t current
    → current.path ≡ root
    → IsCanonical p
    → OnOk (Reaches t p) (walk t current [] (split_segments p))
unfolding walk
from_root t p current v inside at (at_root e) =
    rw (e, split_segments-root, walk) (v, inside, inl at, (refl, λ i q e. e, refl))
from_root t p current v inside at (nested {rest} e n) =
    subst (λ q. OnOk (Reaches t q) (walk t current [] (split_segments p)))
      (walk_path rest n ∙ sym e)
      (rw (e, split_segments-nested rest n)
        (walk-IsTree (split rest) t current [] v inside (inr (refl, at))
          (All-map _ _ IsFolderName-NoSlash (split rest) n.names)))

-- The folders made along a canonical path keep the shape of the tree, and the last one stands there.
pub ensure_folder_path-IsTree :
    (t : Tree) (p : Text) → IsTree t → IsCanonical p → OnOk (Reaches t p) (ensure_folder_path t p)
unfolding ensure_folder_path
ensure_folder_path-IsTree t p v c =
    elim-cases (OnOk (Reaches t p)) (find_path t.folders root) _ _ (λ _. tt)
      (λ current found.
        let (inside, at) = find_path-IsIn t root current v found in
        from_root t p current v inside at c)
