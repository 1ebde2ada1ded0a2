-- ===== src/Examples/ImportGraphs.antt =====
-- Examples for internal/store/imports.go, in tenant 1.
use maintainerd_secret.Base.{
  ◌⊎◌, some, ℕ, ◌≡◌, ◌≢◌, refl, inl, inr, Bool, true, false, List, [], ◌∷◌, arith, keep, find_first,
  update_where,
}
use maintainerd_secret.Imports.Rows.{
  ScopeImport, ImportTable, is_visible, list_by_target, sort_rows, insert_sorted, precedes,
}
use maintainerd_secret.Imports.Steps.{In}
use maintainerd_secret.Imports.Reach.{Chain, one, more, accepted-no-Chain}
use maintainerd_secret.Imports.Acyclic.{IsAcyclic, sources-HasEdge}
use maintainerd_secret.Imports.Create.{create_import-IsAcyclic}
use maintainerd_secret.Imports.Reenable.{enable_closes_cycle}
use maintainerd_secret.Imports.Resolver.{Distinct, resolve_import_chain-Listed}
use maintainerd_secret.Imports.Depth.{Leads, stay, go, resolve_import_chain_complete}
use maintainerd_secret.Imports.Refused.{closes_cycle-Chain, wide_import_refused}
use maintainerd_secret.Imports.{
  sources, contains, too_deep, closes_cycle, assert_no_import_cycle, create_import,
  set_import_enabled, switch_import, insert_row, resolve_import_chain, check_rows, check_frontier,
  check_rounds, follow_rows, follow_frontier, follow_rounds, cycle_error,
}

abbrev row : ℕ → ℕ → ℕ → ℕ → Bool → ScopeImport
row id folder source position enabled = record {
  import_id = id;
  tenant_id = 1;
  folder_id = folder;
  source_folder_id = source;
  position = position;
  enabled = enabled;
  deleted = false;
}

abbrev table : List ScopeImport → ℕ → ImportTable
table rows next = record { rows = rows; next_id = next; source_live = λ f. true }

-- Folder 3 (staging) imports 2 (dev) and 4 (shared); dev imports 1 (base).
abbrev staging : ImportTable
staging = table (row 3 2 1 0 true ∷ row 2 3 4 1 true ∷ row 1 3 2 0 true ∷ []) 4

-- Direct imports come before indirect ones.
breadth_first : resolve_import_chain staging 1 3 ≡ 2 ∷ 4 ∷ 1 ∷ []
unfolding resolve_import_chain follow_rounds follow_frontier follow_rows sources list_by_target
    sort_rows insert_sorted precedes keep is_visible contains
breadth_first = refl

refuses_cycle : create_import 1 1 3 0 staging ≡ inl cycle_error
unfolding create_import assert_no_import_cycle check_rounds check_frontier check_rows sources
    list_by_target sort_rows insert_sorted precedes keep is_visible contains
refuses_cycle = refl

closes_cycle-Chain_example : Chain staging 1 3 1
unfolding assert_no_import_cycle check_rounds check_frontier check_rows sources list_by_target
    sort_rows insert_sorted precedes keep is_visible contains
closes_cycle-Chain_example = closes_cycle-Chain staging 1 3 1 refl

accepted-no-Chain_example : ¬ Chain staging 1 4 3
unfolding assert_no_import_cycle check_rounds check_frontier check_rows sources list_by_target
    sort_rows insert_sorted precedes keep is_visible contains
accepted-no-Chain_example = accepted-no-Chain staging 1 4 3 refl

resolve_import_chain-Listed_example :
    ((y : ℕ) → In y (resolve_import_chain staging 1 3) → Chain staging 1 3 y × (y ≢ 3))
    × Distinct (resolve_import_chain staging 1 3)
resolve_import_chain-Listed_example = resolve_import_chain-Listed staging 1 3

two_steps : Leads staging 1 2 3 1
unfolding sources list_by_target sort_rows insert_sorted precedes keep is_visible
two_steps = go {x = 3} {y = 2} (inl refl) (go {x = 2} {y = 1} (inl refl) stay)

resolve_import_chain_complete_example : In 1 (resolve_import_chain staging 1 3)
resolve_import_chain_complete_example =
    resolve_import_chain_complete staging 1 3 2 1 two_steps (omega arith) (omega arith)

-- Without rows there is no chain.
no-Chain : {x y : ℕ} → ¬ Chain (table [] 1) 1 x y
no-Chain (one {x} {y} i) = sources-HasEdge (table [] 1) 1 x y i
no-Chain (more {x} {y} i c) = sources-HasEdge (table [] 1) 1 x y i

empty-IsAcyclic : IsAcyclic (table [] 1) 1
unfolding IsAcyclic
empty-IsAcyclic x c = no-Chain c

create_import-IsAcyclic_example : IsAcyclic (table (row 1 5 6 0 true ∷ []) 2) 1
unfolding create_import insert_row assert_no_import_cycle check_rounds check_frontier check_rows
    sources list_by_target sort_rows insert_sorted precedes keep is_visible contains find_first
create_import-IsAcyclic_example =
    create_import-IsAcyclic 1 5 6 0 (table [] 1) _ empty-IsAcyclic refl

-- 5 imports 6, is switched off, and then 6 imports 5: every call is accepted.
abbrev turned : ImportTable
turned = table (row 2 6 5 0 true ∷ row 1 5 6 0 false ∷ []) 3

abbrev switched_off : ImportTable
switched_off = table (row 1 5 6 0 false ∷ []) 2

off_by_call : set_import_enabled 1 1 false 0 (table (row 1 5 6 0 true ∷ []) 2) ≡ some switched_off
unfolding set_import_enabled switch_import find_first update_where
off_by_call = refl

turned_by_call : create_import 1 6 5 0 switched_off ≡ inr turned
unfolding create_import insert_row assert_no_import_cycle check_rounds check_frontier check_rows
    sources list_by_target sort_rows insert_sorted precedes keep is_visible contains find_first
turned_by_call = refl

six_imports_five : Chain turned 1 6 5
unfolding sources list_by_target sort_rows insert_sorted precedes keep is_visible
six_imports_five = one {x = 6} {y = 5} (inl refl)

enable_closes_cycle_example :
    (g' : ImportTable) × (set_import_enabled 1 1 true 0 turned ≡ some g') × (¬ IsAcyclic g' 1)
enable_closes_cycle_example =
    enable_closes_cycle turned (row 1 5 6 0 false) 0 (inr (inl refl)) refl refl six_imports_five

-- One folder that imports eight others, none of which imports anything.
abbrev star : ImportTable
star =
    table
      (row 8 1 18 8 true
        ∷ row 7 1 17 7 true
        ∷ row 6 1 16 6 true
        ∷ row 5 1 15 5 true
        ∷ row 4 1 14 4 true
        ∷ row 3 1 13 3 true
        ∷ row 2 1 12 2 true
        ∷ row 1 1 11 1 true
        ∷ [])
      9

wide_import_refused_example :
    (assert_no_import_cycle star 1 1 9 ≡ too_deep)
    ⊎ ((assert_no_import_cycle star 1 1 9 ≡ closes_cycle) × Chain star 1 1 9)
unfolding sources list_by_target sort_rows insert_sorted precedes keep is_visible
wide_import_refused_example = wide_import_refused star 1 1 9 (ground arith) (omega arith)
