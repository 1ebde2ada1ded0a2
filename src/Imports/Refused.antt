-- ===== src/Imports/Refused.antt =====
-- What the refusals of the cycle check of internal/store/imports.go mean.
use maintainerd_secret.Base.{
  ℕ, zero, suc, ◌+◌, ◌≤◌, ◌≡◌, refl, sym, subst, ◌⊎◌, inl, inr, none, some, List, [], ◌∷◌, arith,
  ◌==◌, ==_iff, Bool-cases, Option-cases, length, length-append,
}
use maintainerd_secret.Imports.Rows.{ImportTable}
use maintainerd_secret.Imports.Steps.{In, In-append, contains-In}
use maintainerd_secret.Imports.Reach.{Chain, one, Chain-snoc, check_frontier_lem, accepted_walk}
use maintainerd_secret.Imports.Resolver.{Distinct}
use maintainerd_secret.Imports.{
  sources, contains, Walk, visit, visit_new, check_rows, check_frontier, check_rounds, accepted,
  Verdict, too_deep, closes_cycle, assert_no_import_cycle, max_import_depth,
}

target_of_rows :
    (target : ℕ) (xs : List ℕ) (w : Walk) → check_rows target xs w ≡ none → In target xs
unfolding check_rows
target_of_rows target [] w h = cc
target_of_rows target (x ∷ xs) w h = elim (Bool-cases (x == target)) [
  | inl e ↦ inl (sym ((==_iff x target).0 e))
  | inr e ↦ inr (target_of_rows target xs (visit_new x w) (rw e at h))
]

module _ (g : ImportTable) (tenant target source : ℕ) where
  -- The source, or a folder that it imports through others.
  abbrev From : ℕ → Type 0
  From x = (x ≡ source) ⊎ Chain g tenant source x

  From-next : (x y : ℕ) → From x → In y (sources g tenant x) → Chain g tenant source y
  From-next x y (inl e) i = one (subst (λ k. In y (sources g tenant k)) e i)
  From-next x y (inr c) i = Chain-snoc c i

  abbrev Queue : Walk → Type 0
  Queue w = (y : ℕ) → In y w.next → From y

  visit_new-Queue : (x : ℕ) (w : Walk) → From x → Queue w → Queue (visit_new x w)
  visit_new-Queue x w f q = elim (Bool-cases (contains x w.visited)) [
    | inl e ↦ rw e q
    | inr e ↦ rw e (λ y i. elim (In-append y w.next (x ∷ []) i) [
      | inl o ↦ q y o
      | inr (inl s) ↦ rw s f
      | inr (inr b) ↦ absurd b
    ])
  ]

  check_rows-Queue :
      (xs : List ℕ) (w w' : Walk)
      → ((y : ℕ) → In y xs → From y)
      → Queue w
      → check_rows target xs w ≡ some w'
      → Queue w'
  unfolding check_rows
  check_rows-Queue [] w w' f q h = let e : w ≡ w' = cc in rw (← e) q
  check_rows-Queue (x ∷ xs) w w' f q h = elim (Bool-cases (x == target)) [
    | inl e ↦ cc (rw e at h)
    | inr e ↦
        check_rows-Queue xs (visit_new x w) w' (λ y i. f y (inr i))
          (visit_new-Queue x w (f x (inl refl)) q) (rw e at h)
  ]

  check_frontier-Queue :
      (xs : List ℕ) (w w' : Walk)
      → ((y : ℕ) → In y xs → From y)
      → Queue w
      → check_frontier g tenant target xs w ≡ some w'
      → Queue w'
  unfolding check_frontier
  check_frontier-Queue [] w w' f q h = let e : w ≡ w' = cc in rw (← e) q
  check_frontier-Queue (x ∷ xs) w w' f q h =
      elim (Option-cases (check_rows target (sources g tenant x) w)) [
        | inl e ↦ cc (rw (e, check_frontier) at h)
        | inr (v, e) ↦
            check_frontier-Queue xs v w' (λ y i. f y (inr i))
              (check_rows-Queue (sources g tenant x) w v
                (λ y i. inr (From-next x y (f x (inl refl)) i)) q e)
              (rw (e, check_frontier) at h)
      ]

  target_of_frontier :
      (xs : List ℕ) (w : Walk)
      → ((y : ℕ) → In y xs → From y)
      → check_frontier g tenant target xs w ≡ none
      → Chain g tenant source target
  unfolding check_frontier
  target_of_frontier [] w f h = cc
  target_of_frontier (x ∷ xs) w f h =
      elim (Option-cases (check_rows target (sources g tenant x) w)) [
        | inl e ↦ From-next x target (f x (inl refl)) (target_of_rows target _ w e)
        | inr (v, e) ↦ target_of_frontier xs v (λ y i. f y (inr i)) (rw (e, check_frontier) at h)
      ]

  target_of_rounds :
      (n : ℕ) (xs : List ℕ) (w : Walk)
      → ((y : ℕ) → In y xs → From y)
      → check_rounds g tenant target n xs w ≡ none
      → Chain g tenant source target
  unfolding check_rounds
  target_of_rounds zero xs w f h = cc
  target_of_rounds (suc n) [] w f h = cc
  target_of_rounds (suc n) (x ∷ xs) w f h =
      elim (Option-cases (check_frontier g tenant target (x ∷ xs) (record w { next = [] }))) [
        | inl e ↦ target_of_frontier (x ∷ xs) _ f e
        | inr (v, e) ↦
            target_of_rounds n v.next v (check_frontier-Queue (x ∷ xs) _ v f (λ y i. absurd i) e)
              (rw (e, check_rounds) at h)
      ]

  -- The path never gets shorter.
  check_rounds-longer :
      (n : ℕ) (xs : List ℕ) (w w' : Walk)
      → check_rounds g tenant target n xs w ≡ some w'
      → length w.path ≤ length w'.path
  unfolding check_rounds
  check_rounds-longer zero xs w w' h = let e : w ≡ w' = cc in rw (← e) (omega arith)
  check_rounds-longer (suc n) [] w w' h = let e : w ≡ w' = cc in rw (← e) (omega arith)
  check_rounds-longer (suc n) (x ∷ xs) w w' h =
      elim (Option-cases (check_frontier g tenant target (x ∷ xs) (record w { next = [] }))) [
        | inl e ↦ cc (rw (e, check_rounds) at h)
        | inr (v, e) ↦
            let (ext, _) = check_frontier_lem g tenant target (x ∷ xs) _ v e in
            let a = ext.longer in
            let b = check_rounds-longer n v.next v w' (rw (e, check_rounds) at h) in omega arith
      ]

-- An edge is refused as closing a cycle only where the source does import the target, through one
-- import or more.
pub closes_cycle-Chain :
    (g : ImportTable) (tenant source target : ℕ)
    → assert_no_import_cycle g tenant source target ≡ closes_cycle
    → Chain g tenant source target
unfolding assert_no_import_cycle
closes_cycle-Chain g tenant source target h =
    elim (Option-cases (
      check_rounds g tenant target (suc max_import_depth) (source ∷ [])
        (record { visited = []; next = []; path = source ∷ [] }))) [
          | inl e ↦
              target_of_rounds g tenant target source (suc max_import_depth) (source ∷ []) _
                (λ y i. elim i [ inl s ↦ inl s | inr b ↦ absurd b ]) e
          | inr (w, e) ↦ ground arith
        ]

-- Distinct folders that were not visited are all added to the path.
check_rows-adds :
    (target : ℕ) (xs : List ℕ) (w w' : Walk)
    → Distinct xs
    → ((y : ℕ) → In y xs → ¬ In y w.visited)
    → check_rows target xs w ≡ some w'
    → length w'.path ≡ length w.path + length xs
unfolding check_rows
check_rows-adds target [] w w' d new h = let e : w ≡ w' = cc in rw (← e) (omega arith)
check_rows-adds target (x ∷ xs) w w' d new h = elim (Bool-cases (contains x w.visited)) [
  | inl c ↦ absurd (new x (inl refl) (contains-In x w.visited c))
  | inr c ↦ elim (Bool-cases (x == target)) [
    | inl e ↦ cc (rw e at h)
    | inr e ↦
        let ih =
          check_rows-adds target xs (visit x w) w' d.1
            (λ y i s. elim s [
              | inl same ↦ d.0 (subst (λ k. In k xs) same i)
              | inr old ↦ new y (inr i) old
            ])
            (rw (e, c) at h) in
        omega (arith, length-append w.path (x ∷ []))
  ]
]

-- The first round reads the imports of the source alone.
first_round :
    (g : ImportTable) (tenant target source n : ℕ) (w w' : Walk)
    → check_rounds g tenant target (suc n) (source ∷ []) w ≡ some w'
    → (v : Walk) × (check_rows target (sources g tenant source) (record w { next = [] }) ≡ some v)
      × (check_rounds g tenant target n v.next v ≡ some w')
unfolding check_rounds check_frontier
first_round g tenant target source n w w' h =
    elim (Option-cases (check_rows target (sources g tenant source) (record w { next = [] }))) [
      | inl met ↦ cc (rw (met, check_frontier, check_rounds) at h)
      | inr (v, e) ↦ (v, e, rw (e, check_frontier, check_rounds) at h)
    ]

-- A source that directly imports eight distinct folders or more is never accepted, however shallow its
-- imports are: the verdict is that the imports are too deep, for the bound on the depth counts folders,
-- or else that the edge closes a cycle, and then the source does import the target.
pub wide_import_refused :
    (g : ImportTable) (tenant source target : ℕ)
    → Distinct (sources g tenant source)
    → max_import_depth ≤ length (sources g tenant source)
    → (assert_no_import_cycle g tenant source target ≡ too_deep)
      ⊎ ((assert_no_import_cycle g tenant source target ≡ closes_cycle)
          × Chain g tenant source target)
wide_import_refused g tenant source target d wide =
    verdict_cases (assert_no_import_cycle g tenant source target) refl
  where
    verdict_cases :
        (v : Verdict)
        → assert_no_import_cycle g tenant source target ≡ v
        → (assert_no_import_cycle g tenant source target ≡ too_deep)
          ⊎ ((assert_no_import_cycle g tenant source target ≡ closes_cycle)
              × Chain g tenant source target)
    verdict_cases too_deep e = inl e
    verdict_cases closes_cycle e = inr (e, closes_cycle-Chain g tenant source target e)
    verdict_cases accepted h =
        let (w, e, short) = accepted_walk g tenant source target h in
        let (v, rows, rest) = first_round g tenant target source max_import_depth _ w e in
        let adds = check_rows-adds target _ _ v d (λ y i b. b) rows in
        let longer = check_rounds-longer g tenant target source max_import_depth v.next v w rest in
        absurd (omega arith)
