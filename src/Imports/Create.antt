-- ===== src/Imports/Create.antt =====
-- CreateImport of internal/store/imports.go keeps the import graph free of cycles.
use maintainerd_secret.Base.{ℕ, ◌≡◌, ◌≢◌, sym, ◌⊎◌, inl, inr, arith, subst}
use maintainerd_secret.Imports.Rows.{ImportTable, is_visible}
use maintainerd_secret.Imports.Steps.{In}
use maintainerd_secret.Imports.Reach.{Chain, one, more, accepted-no-Chain}
use maintainerd_secret.Imports.Acyclic.{IsAcyclic, sources-HasEdge, HasEdge-sources}
use maintainerd_secret.Imports.{
  sources, accepted, assert_no_import_cycle, create_import, insert_row, new_import,
}

create_import_inv :
    (tenant target source position : ℕ) (g g' : ImportTable)
    → create_import tenant target source position g ≡ inr g'
    → (target ≢ source)
      × (assert_no_import_cycle g tenant source target ≡ accepted)
      × (g' ≡ insert_row (new_import tenant target source position) g)
unfolding create_import
create_import_inv tenant target source position g g' e = (ground arith, ground arith, ground arith)

-- No import or more lead from the first folder to the second.
abbrev Reaches : ImportTable → ℕ → ℕ → ℕ → Type 0
Reaches g tenant x y = (x ≡ y) ⊎ Chain g tenant x y

module _ (g : ImportTable) (tenant target source position : ℕ) where
  abbrev grown : ImportTable
  grown = insert_row (new_import tenant target source position) g

  grown-sources :
      (x y : ℕ)
      → In y (sources grown tenant x)
      → In y (sources g tenant x) ⊎ ((x ≡ target) × (y ≡ source))
  unfolding insert_row is_visible
  grown-sources x y i = elim (sources-HasEdge grown tenant x y i) [
    | inl (v, s) ↦ inr (ground arith, s)
    | inr old ↦ inl (HasEdge-sources g tenant x y old)
  ]

  Reaches-cons :
      (x y z : ℕ) → In y (sources g tenant x) → Reaches g tenant y z → Reaches g tenant x z
  Reaches-cons x y z i (inl e) = inr (one (subst (λ k. In k (sources g tenant x)) e i))
  Reaches-cons x y z i (inr c) = inr (more i c)

  -- A chain of the new graph is one of the old, or passes over the new edge.
  grown-Chain :
      {x y : ℕ}
      → Chain grown tenant x y
      → Chain g tenant x y ⊎ (Reaches g tenant x target × Reaches g tenant source y)
  grown-Chain (one {x} {y} i) = elim (grown-sources x y i) [
    | inl old ↦ inl (one old)
    | inr (t, s) ↦ inr (inl t, inl (sym s))
  ]
  grown-Chain (more {x} {y} {z} i c) = elim (grown-sources x y i) [
    | inl old ↦ elim (grown-Chain c) [
      | inl rest ↦ inl (more old rest)
      | inr (a, b) ↦ inr (Reaches-cons x y target old a, b)
    ]
    | inr (t, s) ↦ elim (grown-Chain c) [
      | inl rest ↦ inr (inl t, inr (subst (λ k. Chain g tenant k z) s rest))
      | inr (a, b) ↦ inr (inl t, b)
    ]
  ]

  Chain-append : {x y z : ℕ} → Chain g tenant x y → Chain g tenant y z → Chain g tenant x z
  Chain-append (one i) d = more i d
  Chain-append (more i c) d = more i (Chain-append c d)

  Reaches-append : (x y z : ℕ) → Reaches g tenant x y → Reaches g tenant y z → Reaches g tenant x z
  Reaches-append x y z (inl e) r = subst (λ k. Reaches g tenant k z) (sym e) r
  Reaches-append x y z (inr c) (inl e) = inr (subst (λ k. Chain g tenant x k) e c)
  Reaches-append x y z (inr c) (inr d) = inr (Chain-append c d)

-- An import that CreateImport makes closes no cycle: if the imports of the tenant form none before,
-- they form none after.
pub create_import-IsAcyclic :
    (tenant target source position : ℕ) (g g' : ImportTable)
    → IsAcyclic g tenant
    → create_import tenant target source position g ≡ inr g'
    → IsAcyclic g' tenant
unfolding IsAcyclic
create_import-IsAcyclic tenant target source position g g' acyclic e =
    let (ne, passed, same) = create_import_inv tenant target source position g g' e in
    rw same λ x c. elim (grown-Chain g tenant target source position c) [
      | inl old ↦ acyclic x old
      | inr (a, b) ↦ elim (Reaches-append g tenant target source position source x target b a) [
        | inl loop ↦ ne (sym loop)
        | inr chain ↦ accepted-no-Chain g tenant source target passed chain
      ]
    ]
