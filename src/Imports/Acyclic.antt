-- ===== src/Imports/Acyclic.antt =====
-- Which calls of internal/store/imports.go keep the import graph of a tenant free of cycles.
use maintainerd_secret.Base.{
  ℕ, ◌≡◌, refl, ◌⊎◌, inl, inr, Bool, true, false, List, [], ◌∷◌, arith, Bool-cases, map, keep,
  update_where,
}
use maintainerd_secret.Imports.Rows.{
  ScopeImport, ImportTable, is_visible, list_by_target, sort_rows, insert_sorted,
}
use maintainerd_secret.Imports.Steps.{In}
use maintainerd_secret.Imports.Reach.{Chain, one, more}
use maintainerd_secret.Imports.{sources, delete_import, switch_import}

unfoldable pub IsAcyclic : ImportTable → ℕ → Type 0
IsAcyclic g tenant = (x : ℕ) → ¬ Chain g tenant x x

-- A row of the list makes folder x import folder y.
abbrev pub HasEdge : ImportTable → ℕ → ℕ → ℕ → List ScopeImport → Type 0
HasEdge g tenant x y [] = ⊥
HasEdge g tenant x y (e ∷ es) =
    ((is_visible g tenant x e ≡ true) × (y ≡ e.source_folder_id)) ⊎ HasEdge g tenant x y es

abbrev source_ids : List ScopeImport → List ℕ
source_ids = map (λ e. e.source_folder_id)

In-insert_sorted :
    (y : ℕ) (e : ScopeImport) (xs : List ScopeImport)
    → In y (source_ids (insert_sorted e xs))
    → (y ≡ e.source_folder_id) ⊎ In y (source_ids xs)
unfolding insert_sorted
In-insert_sorted y e [] h = h
In-insert_sorted y e (x ∷ xs) h = ground (arith, In-insert_sorted y e xs)

insert_sorted-In :
    (y : ℕ) (e : ScopeImport) (xs : List ScopeImport)
    → (y ≡ e.source_folder_id) ⊎ In y (source_ids xs)
    → In y (source_ids (insert_sorted e xs))
unfolding insert_sorted
insert_sorted-In y e [] h = h
insert_sorted-In y e (x ∷ xs) h = ground (arith, insert_sorted-In y e xs)

module _ (g : ImportTable) (tenant x y : ℕ) where
  In-HasEdge :
      (es : List ScopeImport)
      → In y (source_ids (sort_rows (keep (is_visible g tenant x) es)))
      → HasEdge g tenant x y es
  unfolding sort_rows keep
  In-HasEdge [] h = h
  In-HasEdge (e ∷ es) h = elim (Bool-cases (is_visible g tenant x e)) [
    | inl v ↦ elim (In-insert_sorted y e _ (rw v at h)) [
      | inl s ↦ inl (v, s)
      | inr i ↦ inr (In-HasEdge es i)
    ]
    | inr v ↦ inr (In-HasEdge es (rw v at h))
  ]

  HasEdge-In :
      (es : List ScopeImport)
      → HasEdge g tenant x y es
      → In y (source_ids (sort_rows (keep (is_visible g tenant x) es)))
  unfolding sort_rows keep
  HasEdge-In [] h = h
  HasEdge-In (e ∷ es) (inl (v, s)) = rw v (insert_sorted-In y e _ (inl s))
  HasEdge-In (e ∷ es) (inr i) =
      let rest = HasEdge-In es i in
      elim (Bool-cases (is_visible g tenant x e)) [
        | inl v ↦ rw v (insert_sorted-In y e _ (inr rest))
        | inr v ↦ rw v rest
      ]

  pub sources-HasEdge : In y (sources g tenant x) → HasEdge g tenant x y g.rows
  unfolding sources list_by_target
  sources-HasEdge = In-HasEdge g.rows

  pub HasEdge-sources : HasEdge g tenant x y g.rows → In y (sources g tenant x)
  unfolding sources list_by_target
  HasEdge-sources = HasEdge-In g.rows

-- Fewer edges, fewer chains.
Chain-mono :
    (g g' : ImportTable) (tenant : ℕ)
    → ((x y : ℕ) → In y (sources g' tenant x) → In y (sources g tenant x))
    → {x y : ℕ} → Chain g' tenant x y
    → Chain g tenant x y
Chain-mono g g' tenant sub (one {x} {y} i) = one (sub x y i)
Chain-mono g g' tenant sub (more {x} {y} i c) = more (sub x y i) (Chain-mono g g' tenant sub c)

module _ (g : ImportTable) (tenant : ℕ) (p : ScopeImport → Bool) (f : ScopeImport → ScopeImport)
    (kept : (x : ℕ) (e : ScopeImport)
      → is_visible g tenant x (f e) ≡ true
      → is_visible g tenant x e ≡ true)
    (same : (e : ScopeImport) → (f e).source_folder_id ≡ e.source_folder_id) where
  update-HasEdge :
      (x y : ℕ) (es : List ScopeImport)
      → HasEdge g tenant x y (update_where p f es)
      → HasEdge g tenant x y es
  unfolding update_where
  update-HasEdge x y [] h = h
  update-HasEdge x y (e ∷ es) h = elim (Bool-cases (p e)) [
    | inl t ↦ elim (rw t at h) [
      | inl (v, s) ↦ inl (kept x e v, rw same at s)
      | inr i ↦ inr (update-HasEdge x y es i)
    ]
    | inr t ↦ elim (rw t at h) [ inl a ↦ inl a | inr i ↦ inr (update-HasEdge x y es i) ]
  ]

  update-IsAcyclic :
      IsAcyclic g tenant → IsAcyclic (record g { rows = update_where p f g.rows }) tenant
  unfolding IsAcyclic is_visible
  update-IsAcyclic acyclic x c = acyclic x (Chain-mono g _ tenant fewer c)
    where
      fewer :
          (x y : ℕ)
          → In y (sources (record g { rows = update_where p f g.rows }) tenant x)
          → In y (sources g tenant x)
      fewer x y i =
          HasEdge-sources g tenant x y (update-HasEdge x y g.rows (sources-HasEdge _ tenant x y i))

-- Removing an import keeps the graph free of cycles.
pub delete_import-IsAcyclic :
    (tenant owner id : ℕ) (g : ImportTable)
    → IsAcyclic g tenant
    → IsAcyclic (delete_import owner id g).1 tenant
unfolding delete_import is_visible
delete_import-IsAcyclic tenant owner id g =
    update-IsAcyclic g tenant _ _ (λ x e v. ground arith) (λ e. refl)

-- So does switching one off, or reordering it while it is switched off.
pub disable-IsAcyclic :
    (tenant owner id position : ℕ) (g : ImportTable)
    → IsAcyclic g tenant
    → IsAcyclic (switch_import owner id false position g) tenant
unfolding switch_import is_visible
disable-IsAcyclic tenant owner id position g =
    update-IsAcyclic g tenant _ _ (λ x e v. ground arith) (λ e. refl)
