-- ===== src/Imports.antt =====
-- internal/store/imports.go: one folder inherits the secrets of another. The table scope_imports
-- (migrations/00010_create_scope_imports.sql) with the statements of
-- internal/storage/queries/scope_import.sql, the cycle check and the resolver. Names of projects,
-- environments and folders are left out: the walks compare folder ids alone.
pub mod Rows
pub mod Steps
pub mod Reach
pub mod Acyclic
pub mod Create
pub mod Reenable
pub mod Resolver
pub mod Depth
pub mod Refused
use maintainerd_secret.Base.{
  ℕ, zero, suc, ◌+◌, ◌≡◌, ◌⊎◌, inl, inr, Bool, true, false, ◌&&◌, not, Option, none, some, List, [],
  ◌∷◌, ◌++◌, map, ltb, ◌==◌, if◌then◌else◌, length, keep, find_first, update_where, count_where,
  is_null,
}
use Rows.{ScopeImport, ImportTable, list_by_target}

abbrev pub max_import_depth : ℕ
max_import_depth = 8

unfoldable pub contains : ℕ → List ℕ → Bool
contains x [] = false
contains x (y ∷ ys) = let rest = contains x ys in if x == y then true else rest

-- The folders that a folder imports, in precedence order.
unfoldable pub sources : ImportTable → ℕ → ℕ → List ℕ
sources g tenant folder = map (λ e. e.source_folder_id) (list_by_target g tenant folder)

-- The variables of the walks: `visited` the newest first, `next` and `path` in order.
pub record Walk : Type 0 where
  pub visited : List ℕ
  pub next : List ℕ
  pub path : List ℕ

abbrev pub visit : ℕ → Walk → Walk
visit x w = record w { visited = x ∷ w.visited; next = w.next ++ x ∷ []; path = w.path ++ x ∷ [] }

abbrev pub visit_new : ℕ → Walk → Walk
visit_new x w = if contains x w.visited then w else visit x w

-- The inner loop of assertNoImportCycle over the rows of one folder. `none`: the target was met.
unfoldable pub check_rows : ℕ → List ℕ → Walk → Option Walk
check_rows target [] w = some w
check_rows target (x ∷ xs) w =
    let rest = check_rows target xs (visit_new x w) in if x == target then none else rest

-- The loop over the frontier.
unfoldable pub check_frontier : ImportTable → ℕ → ℕ → List ℕ → Walk → Option Walk
check_frontier g tenant target [] w = some w
check_frontier g tenant target (x ∷ xs) w = elim (check_rows target (sources g tenant x) w) [
  | none ↦ none
  | some w' ↦ check_frontier g tenant target xs w'
]

-- The outer loop, with the rounds left: it stops on an empty frontier.
unfoldable pub check_rounds : ImportTable → ℕ → ℕ → ℕ → List ℕ → Walk → Option Walk
check_rounds g tenant target zero frontier w = some w
check_rounds g tenant target (suc n) [] w = some w
check_rounds g tenant target (suc n) (x ∷ xs) w =
    elim (check_frontier g tenant target (x ∷ xs) (record w { next = [] })) [
      | none ↦ none
      | some w' ↦ check_rounds g tenant target n w'.next w'
    ]

pub data Verdict : Type 0 where
  accepted closes_cycle too_deep : Verdict

judge : Option Walk → Verdict
judge none = closes_cycle
judge (some w) = if ltb max_import_depth (length w.path) then too_deep else accepted

-- assertNoImportCycle. The depth runs from 0 to max_import_depth, both included.
unfoldable pub assert_no_import_cycle : ImportTable → ℕ → ℕ → ℕ → Verdict
unfolding judge
assert_no_import_cycle g tenant source target = judge (
    check_rounds g tenant target (suc max_import_depth) (source ∷ [])
      (record { visited = []; next = []; path = source ∷ [] }))

pub data CreateError : Type 0 where
  imports_itself cycle_error depth_error already_imported : CreateError

-- Whether a live row holds the edge: the index uq_scope_imports_edge.
edge_taken : ScopeImport → ImportTable → Bool
edge_taken new g =
    elim (find_first
      (λ e.
        (e.folder_id == new.folder_id && e.source_folder_id == new.source_folder_id)
        && not e.deleted)
      g.rows) [ none ↦ false | some _ ↦ true ]

unfoldable pub insert_row : ScopeImport → ImportTable → ImportTable
insert_row new g = record g {
  rows = record new { import_id = g.next_id } ∷ g.rows;
  next_id = suc g.next_id;
}

insert_checked : ScopeImport → ImportTable → Verdict → CreateError ⊎ ImportTable
unfolding edge_taken
insert_checked new g closes_cycle = inl cycle_error
insert_checked new g too_deep = inl depth_error
insert_checked new g accepted =
    if edge_taken new g then inl already_imported else inr (insert_row new g)

-- The row that CreateImport inserts; the table gives it its id.
abbrev pub new_import : ℕ → ℕ → ℕ → ℕ → ScopeImport
new_import tenant target source position = record {
  import_id = 0;
  tenant_id = tenant;
  folder_id = target;
  source_folder_id = source;
  position = position;
  enabled = true;
  deleted = false;
}

-- CreateImport, from the resolved folders on. The new row is enabled and not deleted.
unfoldable pub create_import : ℕ → ℕ → ℕ → ℕ → ImportTable → CreateError ⊎ ImportTable
unfolding insert_checked
create_import tenant target source position g =
    if target == source
    then inl imports_itself
    else insert_checked (new_import tenant target source position) g
        (assert_no_import_cycle g tenant source target)

abbrev pub names_import : ℕ → ℕ → ScopeImport → Bool
names_import tenant id e = (e.tenant_id == tenant && e.import_id == id) && not e.deleted

-- SetScopeImportEnabled, by the id of the row.
unfoldable pub switch_import : ℕ → ℕ → Bool → ℕ → ImportTable → ImportTable
switch_import tenant id enabled position g = record g {
  rows =
      update_where (names_import tenant id)
        (λ e. record e { enabled = enabled; position = position }) g.rows;
}

-- SetImportEnabled, from the resolved tenant on; none: no row is updated, which is not found.
unfoldable pub set_import_enabled : ℕ → ℕ → Bool → ℕ → ImportTable → Option ImportTable
set_import_enabled tenant id enabled position g =
    if is_null (find_first (names_import tenant id) g.rows)
    then none
    else some (switch_import tenant id enabled position g)

-- SoftDeleteScopeImport, with the number of rows that it changed.
unfoldable pub delete_import : ℕ → ℕ → ImportTable → ℕ × ImportTable
delete_import tenant id g = (
  count_where (λ e. (e.tenant_id == tenant && e.import_id == id) && not e.deleted) g.rows,
  record g {
    rows =
        update_where (λ e. (e.tenant_id == tenant && e.import_id == id) && not e.deleted)
          (λ e. record e { deleted = true }) g.rows;
  },
)

-- The loops of ResolveImportChain. `path` is `out`, and `visited` holds the folder itself too.
unfoldable pub follow_rows : List ℕ → Walk → Walk
follow_rows [] w = w
follow_rows (x ∷ xs) w = follow_rows xs (visit_new x w)

unfoldable pub follow_frontier : ImportTable → ℕ → List ℕ → Walk → Walk
follow_frontier g tenant [] w = w
follow_frontier g tenant (x ∷ xs) w =
    follow_frontier g tenant xs (follow_rows (sources g tenant x) w)

unfoldable pub follow_rounds : ImportTable → ℕ → ℕ → List ℕ → Walk → Walk
follow_rounds g tenant zero frontier w = w
follow_rounds g tenant (suc n) [] w = w
follow_rounds g tenant (suc n) (x ∷ xs) w =
    let w' = follow_frontier g tenant (x ∷ xs) (record w { next = [] }) in
    follow_rounds g tenant n w'.next w'

unfoldable pub resolve_import_chain : ImportTable → ℕ → ℕ → List ℕ
resolve_import_chain g tenant folder =
    (follow_rounds g tenant max_import_depth (folder ∷ [])
      (record { visited = folder ∷ []; next = []; path = [] })).path
