-- ===== src/Imports/Reenable.antt =====
-- SetImportEnabled of internal/store/imports.go switches an import on without the cycle check.
use maintainerd_secret.Base.{
  ℕ, ◌≡◌, refl, ◌⊎◌, inl, inr, true, false, ◌&&◌, not, List, [], ◌∷◌, arith, ◌==◌, update_where,
  find_first, is_null, some,
}
use maintainerd_secret.Imports.Rows.{ScopeImport, ImportTable, is_visible}
use maintainerd_secret.Imports.Reach.{Chain, one, more, Chain-snoc}
use maintainerd_secret.Imports.Acyclic.{IsAcyclic, HasEdge, sources-HasEdge, HasEdge-sources}
use maintainerd_secret.Imports.{names_import, switch_import, set_import_enabled}

abbrev pub HasRow : ScopeImport → List ScopeImport → Type 0
HasRow e [] = ⊥
HasRow e (x ∷ xs) = (e ≡ x) ⊎ HasRow e xs

module _ (g : ImportTable) (tenant id position : ℕ) where
  abbrev on : ImportTable
  on = switch_import tenant id true position g

  stays :
      (x y : ℕ) (es : List ScopeImport)
      → HasEdge g tenant x y es
      → HasEdge on tenant x y (
          update_where
            (λ e. (e.tenant_id == tenant && e.import_id == id) && not e.deleted)
            (λ e. record e { enabled = true; position = position })
            es)
  unfolding update_where is_visible switch_import
  stays x y [] h = h
  stays x y (e ∷ es) h = ground (arith, stays x y es)

  switched_on :
      (e : ScopeImport) (es : List ScopeImport)
      → HasRow e es
      → e.tenant_id ≡ tenant
      → e.import_id ≡ id
      → e.deleted ≡ false
      → g.source_live e.source_folder_id ≡ true
      → HasEdge on tenant e.folder_id e.source_folder_id (
          update_where
            (λ e. (e.tenant_id == tenant && e.import_id == id) && not e.deleted)
            (λ e. record e { enabled = true; position = position })
            es)
  unfolding update_where is_visible switch_import
  switched_on e [] h t i d l = absurd h
  switched_on e (x ∷ xs) (inl same) t i d l = ground arith
  switched_on e (x ∷ xs) (inr h) t i d l = ground (arith, switched_on e xs h t i d l)

  stays-Chain : {x y : ℕ} → Chain g tenant x y → Chain on tenant x y
  unfolding switch_import
  stays-Chain (one {x} {y} i) =
      one (HasEdge-sources on tenant x y (stays x y g.rows (sources-HasEdge g tenant x y i)))
  stays-Chain (more {x} {y} i c) =
      more (HasEdge-sources on tenant x y (stays x y g.rows (sources-HasEdge g tenant x y i)))
        (stays-Chain c)

-- The row is found.
found_row :
    (e : ScopeImport) (es : List ScopeImport)
    → HasRow e es
    → e.deleted ≡ false
    → is_null (find_first (names_import e.tenant_id e.import_id) es) ≡ false
unfolding find_first
found_row e [] h d = absurd h
found_row e (x ∷ xs) (inl same) d = ground arith
found_row e (x ∷ xs) (inr h) d = ground (arith, found_row e xs h d)

-- Switching an import back on succeeds and closes a cycle whenever its source has come to import its
-- target in the meantime, through any number of imports: no check stands in the way.
pub enable_closes_cycle :
    (g : ImportTable) (e : ScopeImport) (position : ℕ)
    → HasRow e g.rows
    → e.deleted ≡ false
    → g.source_live e.source_folder_id ≡ true
    → Chain g e.tenant_id e.source_folder_id e.folder_id
    → (g' : ImportTable) × (set_import_enabled e.tenant_id e.import_id true position g ≡ some g')
      × (¬ IsAcyclic g' e.tenant_id)
unfolding IsAcyclic switch_import set_import_enabled
enable_closes_cycle g e position h d l c = (
  switch_import e.tenant_id e.import_id true position g,
  (let found = found_row e g.rows h d in rw (found, set_import_enabled) refl),
  λ acyclic. acyclic e.source_folder_id (
      Chain-snoc (stays-Chain g e.tenant_id e.import_id position c) (
        HasEdge-sources _ e.tenant_id e.folder_id e.source_folder_id
          (switched_on g e.tenant_id e.import_id position e g.rows h refl refl d l))),
)
