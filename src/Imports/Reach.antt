-- ===== src/Imports/Reach.antt =====
-- The cycle check of internal/store/imports.go against reachability through imports.
use maintainerd_secret.Base.{
  ℕ, zero, suc, ◌+◌, ◌≤◌, ◌<◌, ◌≡◌, ◌≢◌, refl, subst, ◌⊎◌, inl, inr, some, List, [], ◌∷◌, arith,
  Option-cases, length,
}
use maintainerd_secret.Imports.Rows.{ImportTable}
use maintainerd_secret.Imports.{
  sources, Walk, check_rows, check_frontier, check_rounds, accepted, assert_no_import_cycle,
  max_import_depth,
}
use maintainerd_secret.Imports.Steps.{
  In, Extends, Extends-refl, Extends-trans, Cleared, check_rows_lem,
}

-- One import or more lead from the first folder to the second.
pub data Chain (g : ImportTable) (tenant : ℕ) : ℕ → ℕ → Type 0 where
  one : {x y : ℕ} → In y (sources g tenant x) → Chain g tenant x y
  more : {x y z : ℕ} → In y (sources g tenant x) → Chain g tenant y z → Chain g tenant x z

pub Chain-snoc :
    {g : ImportTable} {tenant x y z : ℕ}
    → Chain g tenant x y
    → In z (sources g tenant y)
    → Chain g tenant x z
Chain-snoc (one i) j = more i (one j)
Chain-snoc (more i c) j = more i (Chain-snoc c j)

List-cases : (xs : List ℕ) → (xs ≡ []) ⊎ (0 < length xs)
List-cases [] = inl refl
List-cases (x ∷ xs) = inr (omega arith)

module _ (g : ImportTable) (tenant target : ℕ) where
  Cleared-mono :
      (xs : List ℕ) {w w' : Walk} → Extends w w' → Cleared target xs w → Cleared target xs w'
  Cleared-mono xs ext c y i = (ext.keeps_visited y (c y i).0, (c y i).1)

  pub check_frontier_lem :
      (xs : List ℕ) (w w' : Walk)
      → check_frontier g tenant target xs w ≡ some w'
      → Extends w w' × ((x : ℕ) → In x xs → Cleared target (sources g tenant x) w')
  unfolding check_frontier
  check_frontier_lem [] w w' h = let e : w ≡ w' = cc in rw (← e) (Extends-refl w, λ x i. absurd i)
  check_frontier_lem (x ∷ xs) w w' h =
      elim (Option-cases (check_rows target (sources g tenant x) w)) [
        | inl e ↦ cc (rw (e, check_frontier) at h)
        | inr (v, e) ↦
            let (ext, clear) = check_rows_lem target (sources g tenant x) w v e in
            let (ext', clears) = check_frontier_lem xs v w' (rw (e, check_frontier) at h) in
            (
              Extends-trans ext ext',
              λ y i. elim i [
                | inl same ↦ rw same (Cleared-mono (sources g tenant x) ext' clear)
                | inr j ↦ clears y j
              ],
            )
      ]

  module _ (source : ℕ) where
    abbrev Seen : Walk → ℕ → Type 0
    Seen w x = (x ≡ source) ⊎ In x w.visited

    -- Every folder that was seen waits in the frontier, or its imports were visited.
    abbrev Explored : List ℕ → Walk → Type 0
    Explored frontier w = (x : ℕ) → Seen w x → In x frontier ⊎ Cleared target (sources g tenant x) w

    Explored-round :
        (frontier : List ℕ) (w w' : Walk)
        → Explored frontier w
        → check_frontier g tenant target frontier (record w { next = [] }) ≡ some w'
        → Explored w'.next w'
    Explored-round frontier w w' old e x seen =
        let (ext, clears) = check_frontier_lem frontier _ w' e in
        elim (was_seen ext seen) [
          | inr queued ↦ inl queued
          | inl before ↦ elim (old x before) [
            | inl waiting ↦ inr (clears x waiting)
            | inr clear ↦ inr (λ y i. (ext.keeps_visited y (clear y i).0, (clear y i).1))
          ]
        ]
      where
        was_seen : Extends (record w { next = [] }) w' → Seen w' x → Seen w x ⊎ In x w'.next
        was_seen ext (inl start) = inl (inl start)
        was_seen ext (inr visited) = elim (ext.queued x visited) [
          | inl o ↦ inl (inr o)
          | inr n ↦ inr n
        ]

    abbrev Closed : Walk → Type 0
    Closed w = (x : ℕ) → Seen w x → Cleared target (sources g tenant x) w

    Explored-nil : (w : Walk) → Explored [] w → Closed w
    Explored-nil w h x seen = elim (h x seen) [ inl i ↦ absurd i | inr c ↦ c ]

    check_rounds-nil :
        (n : ℕ) (w w' : Walk) → check_rounds g tenant target n [] w ≡ some w' → w ≡ w'
    unfolding check_rounds
    check_rounds-nil zero w w' h = cc
    check_rounds-nil (suc n) w w' h = cc

    -- The rounds end with everything explored, or every round lengthened the path.
    check_rounds_lem :
        (n : ℕ) (frontier : List ℕ) (w w' : Walk)
        → check_rounds g tenant target n frontier w ≡ some w'
        → Explored frontier w
        → Closed w' ⊎ (length w.path + n ≤ length w'.path)
    unfolding check_rounds
    check_rounds_lem zero frontier w w' h ex = let e : w ≡ w' = cc in rw (← e) (inr (omega arith))
    check_rounds_lem (suc n) [] w w' h ex =
        let e : w ≡ w' = cc in rw (← e) (inl (Explored-nil w ex))
    check_rounds_lem (suc n) (x ∷ xs) w w' h ex =
        elim (Option-cases (check_frontier g tenant target (x ∷ xs) (record w { next = [] }))) [
          | inl e ↦ cc (rw (e, check_rounds) at h)
          | inr (v, e) ↦
              let (ext, _) = check_frontier_lem (x ∷ xs) _ v e in
              let rest = rw (e, check_rounds) at h in
              let seen = Explored-round (x ∷ xs) w v ex e in
              elim (List-cases v.next) [
                | inl empty ↦ inl (
                    rw
                      (← check_rounds-nil n v w'
                        (subst (λ f. check_rounds g tenant target n f v ≡ some w') empty rest))
                      (Explored-nil v (subst (λ f. Explored f v) empty seen)))
                | inr queued ↦ elim (check_rounds_lem n v.next v w' rest seen) [
                  | inl closed ↦ inl closed
                  | inr long ↦ inr (let g = ext.grown in omega arith)
                ]
              ]
        ]

    Closed-Chain :
        (w : Walk) {x y : ℕ}
        → Closed w
        → Seen w x
        → Chain g tenant x y
        → In y w.visited × (y ≢ target)
    Closed-Chain w closed seen (one {x} {y} i) = closed x seen y i
    Closed-Chain w closed seen (more {x} {y} i c) =
        Closed-Chain w closed (inr (closed x seen y i).0) c

pub accepted_walk :
    (g : ImportTable) (tenant source target : ℕ)
    → assert_no_import_cycle g tenant source target ≡ accepted
    → (w : Walk) × (check_rounds g tenant target
          (suc max_import_depth)
          (source ∷ [])
          (record { visited = []; next = []; path = source ∷ [] })
        ≡ some w)
      × (length w.path ≤ max_import_depth)
unfolding assert_no_import_cycle
accepted_walk g tenant source target h =
    elim (Option-cases (
      check_rounds g tenant target (suc max_import_depth) (source ∷ [])
        (record { visited = []; next = []; path = source ∷ [] }))) [
          | inl e ↦ cc (rw e at h)
          | inr (w, e) ↦ (w, e, ground arith)
        ]

-- An accepted edge closes no cycle: the target cannot be reached from the source through any number
-- of imports, although the walk is bounded.
pub accepted-no-Chain :
    (g : ImportTable) (tenant source target : ℕ)
    → assert_no_import_cycle g tenant source target ≡ accepted
    → ¬ Chain g tenant source target
accepted-no-Chain g tenant source target h c =
    let (w, e, short) = accepted_walk g tenant source target h in
    elim (check_rounds_lem g tenant target source (suc max_import_depth) (source ∷ []) _ w e
      (λ x seen. elim seen [ inl s ↦ inl (inl s) | inr i ↦ absurd i ])) [
        | inl closed ↦ (Closed-Chain g tenant target source w closed (inl refl) c).1 refl
        | inr long ↦ absurd (omega arith)
      ]
