-- ===== src/Imports/Rows.antt =====
-- The table scope_imports and its listing in precedence order.
use maintainerd_secret.Base.{
  ℕ, Bool, true, false, ◌&&◌, not, List, [], ◌∷◌, ltb, ◌==◌, if◌then◌else◌, keep,
}

-- A position, which is a signed INT, is its offset from the least one, which keeps the order.
pub record ScopeImport : Type 0 where
  pub import_id : ℕ
  pub tenant_id : ℕ
  pub folder_id : ℕ
  pub source_folder_id : ℕ
  pub position : ℕ
  pub enabled : Bool
  pub deleted : Bool

-- `source_live f`: folder f and its environment are not deleted.
pub record ImportTable : Type 0 where
  pub rows : List ScopeImport
  pub next_id : ℕ
  pub source_live : ℕ → Bool

-- ORDER BY position, import_id.
unfoldable pub precedes : ScopeImport → ScopeImport → Bool
precedes a b =
    if ltb a.position b.position
    then true
    else if ltb b.position a.position
    then false
    else ltb a.import_id b.import_id

unfoldable pub insert_sorted : ScopeImport → List ScopeImport → List ScopeImport
insert_sorted e [] = e ∷ []
insert_sorted e (x ∷ xs) =
    let rest = insert_sorted e xs in if precedes e x then e ∷ x ∷ xs else x ∷ rest

unfoldable pub sort_rows : List ScopeImport → List ScopeImport
sort_rows [] = []
sort_rows (x ∷ xs) = insert_sorted x (sort_rows xs)

-- The WHERE clause of ListScopeImportsByTarget.
unfoldable pub is_visible : ImportTable → ℕ → ℕ → ScopeImport → Bool
is_visible g tenant folder e =
    ((e.tenant_id == tenant && e.folder_id == folder) && not e.deleted)
    && (e.enabled && g.source_live e.source_folder_id)

unfoldable pub list_by_target : ImportTable → ℕ → ℕ → List ScopeImport
list_by_target g tenant folder = sort_rows (keep (is_visible g tenant folder) g.rows)
