-- ===== src/Imports/Depth.antt =====
-- How far the resolver of internal/store/imports.go follows imports.
use maintainerd_secret.Base.{ℕ, zero, suc, ◌≤◌, ◌≢◌, refl, ◌⊎◌, inl, inr, List, [], ◌∷◌, arith}
use maintainerd_secret.Imports.Rows.{ImportTable}
use maintainerd_secret.Imports.Steps.{
  In, Extends, Extends-refl, Extends-trans, visit_new-Extends, visit_new-In,
}
use maintainerd_secret.Imports.{
  sources, Walk, visit_new, follow_rows, follow_frontier, follow_rounds, resolve_import_chain,
  max_import_depth,
}
use maintainerd_secret.Imports.Resolver.{resolved-Listed}

-- Imports lead from the first folder to the second in so many steps.
pub data Leads (g : ImportTable) (tenant : ℕ) : ℕ → ℕ → ℕ → Type 0 where
  stay : {x : ℕ} → Leads g tenant zero x x
  go : {n x y z : ℕ} → In y (sources g tenant x) → Leads g tenant n y z → Leads g tenant (suc n) x z

-- Every folder of the list was visited.
abbrev Visited : List ℕ → Walk → Type 0
Visited xs w = (y : ℕ) → In y xs → In y w.visited

follow_rows_lem :
    (xs : List ℕ) (w : Walk) → Extends w (follow_rows xs w) × Visited xs (follow_rows xs w)
unfolding follow_rows
follow_rows_lem [] w = (Extends-refl w, λ y i. absurd i)
follow_rows_lem (x ∷ xs) w =
    let (ext, seen) = follow_rows_lem xs (visit_new x w) in
    (
      Extends-trans (visit_new-Extends x w) ext,
      λ y i. elim i [ inl e ↦ rw e (ext.keeps_visited x (visit_new-In x w)) | inr j ↦ seen y j ],
    )

module _ (g : ImportTable) (tenant : ℕ) where
  follow_frontier_lem :
      (xs : List ℕ) (w : Walk)
      → Extends w (follow_frontier g tenant xs w)
        × ((x : ℕ) → In x xs → Visited (sources g tenant x) (follow_frontier g tenant xs w))
  unfolding follow_frontier
  follow_frontier_lem [] w = (Extends-refl w, λ x i. absurd i)
  follow_frontier_lem (x ∷ xs) w =
      let (ext, seen) = follow_rows_lem (sources g tenant x) w in
      let (ext', seen') = follow_frontier_lem xs (follow_rows (sources g tenant x) w) in
      (
        Extends-trans ext ext',
        λ y i. elim i [ inl e ↦ rw e (λ z j. ext'.keeps_visited z (seen z j)) | inr j ↦ seen' y j ],
      )

  -- A visited folder waits in the frontier, or its imports were visited.
  abbrev Explored : List ℕ → Walk → Type 0
  Explored xs w = (x : ℕ) → In x w.visited → In x xs ⊎ Visited (sources g tenant x) w

  Explored-round :
      (xs : List ℕ) (w : Walk)
      → Explored xs w
      → let w' = follow_frontier g tenant xs (record w { next = [] }) in Explored w'.next w'
  Explored-round xs w old x seen =
      let (ext, done) = follow_frontier_lem xs (record w { next = [] }) in
      elim (ext.queued x seen) [
        | inr new ↦ inl new
        | inl before ↦ elim (old x before) [
          | inl waiting ↦ inr (done x waiting)
          | inr clear ↦ inr (λ y i. ext.keeps_visited y (clear y i))
        ]
      ]

  follow_rounds-Extends :
      (n : ℕ) (xs : List ℕ) (w : Walk) (y : ℕ)
      → In y w.visited
      → In y (follow_rounds g tenant n xs w).visited
  unfolding follow_rounds
  follow_rounds-Extends zero xs w y i = i
  follow_rounds-Extends (suc n) [] w y i = i
  follow_rounds-Extends (suc n) (x ∷ xs) w y i =
      let (ext, _) = follow_frontier_lem (x ∷ xs) (record w { next = [] }) in
      follow_rounds-Extends n _ _ y (ext.keeps_visited y i)

  Explored-nil :
      (w : Walk)
      → Explored [] w
      → {m x y : ℕ} → Leads g tenant m x y
      → In x w.visited
      → In y w.visited
  Explored-nil w ex stay i = i
  Explored-nil w ex (go {n} {x} {y} {z} j l) i = elim (ex x i) [
    | inl b ↦ absurd b
    | inr seen ↦ Explored-nil w ex l (seen y j)
  ]

  follow_rounds_complete :
      (n : ℕ) (xs : List ℕ) (w : Walk) {m x y : ℕ}
      → Leads g tenant m x y
      → m ≤ n
      → Explored xs w
      → In x w.visited
      → In y (follow_rounds g tenant n xs w).visited
  unfolding follow_rounds
  follow_rounds_complete n xs w {x = x} stay le ex i = follow_rounds-Extends n xs w x i
  follow_rounds_complete zero xs w (go j l) le ex i = absurd (omega arith)
  follow_rounds_complete (suc n) [] w (go j l) le ex i = Explored-nil w ex (go j l) i
  follow_rounds_complete (suc n) (k ∷ ks) w (go {x = x} {y = y} j l) le ex i =
      let (ext, done) = follow_frontier_lem (k ∷ ks) (record w { next = [] }) in
      follow_rounds_complete n _ _ l (omega arith) (Explored-round (k ∷ ks) w ex) (elim (ex x i) [
        | inl waiting ↦ done x waiting y j
        | inr seen ↦ ext.keeps_visited y (seen y j)
      ])

-- Every folder that at most eight imports lead to is listed, unless it is the folder itself.
pub resolve_import_chain_complete :
    (g : ImportTable) (tenant folder n y : ℕ)
    → Leads g tenant n folder y
    → n ≤ max_import_depth
    → y ≢ folder
    → In y (resolve_import_chain g tenant folder)
unfolding resolve_import_chain
resolve_import_chain_complete g tenant folder n y l le ne =
    elim ((resolved-Listed g tenant folder).listed y (
      follow_rounds_complete g tenant max_import_depth (folder ∷ [])
        (record { visited = folder ∷ []; next = []; path = [] }) l le
        (λ x i. elim i [ inl e ↦ inl (inl e) | inr b ↦ absurd b ]) (inl refl))) [
          | inl same ↦ absurd (ne same)
          | inr i ↦ i
        ]
