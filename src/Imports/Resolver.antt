-- ===== src/Imports/Resolver.antt =====
-- ResolveImportChain of internal/store/imports.go: what it lists, and in which order.
use maintainerd_secret.Base.{
  ℕ, zero, suc, ◌≡◌, ◌≢◌, refl, sym, subst, ◌∙◌, ◌⊎◌, inl, inr, List, [], ◌∷◌, ◌++◌, Bool-cases,
}
use maintainerd_secret.Imports.Rows.{ImportTable}
use maintainerd_secret.Imports.Steps.{In, In-append, In-append_left, In-append_right, In-contains}
use maintainerd_secret.Imports.Reach.{Chain, one, Chain-snoc}
use maintainerd_secret.Imports.{
  sources, contains, Walk, visit, visit_new, follow_rows, follow_frontier, follow_rounds,
  resolve_import_chain, max_import_depth,
}

-- No folder is listed twice.
abbrev pub Distinct : List ℕ → Type 0
Distinct [] = Unit {0}
Distinct (x ∷ xs) = (¬ In x xs) × Distinct xs

Distinct-snoc : (x : ℕ) (xs : List ℕ) → ¬ In x xs → Distinct xs → Distinct (xs ++ x ∷ [])
Distinct-snoc x [] out d = ((λ h. h), tt)
Distinct-snoc x (y ∷ ys) out d = (
  λ i. elim (In-append y ys (x ∷ []) i) [
    | inl l ↦ d.0 l
    | inr (inl e) ↦ out (inl (sym e))
    | inr (inr b) ↦ b
  ],
  Distinct-snoc x ys (λ i. out (inr i)) d.1,
)

module _ (g : ImportTable) (tenant folder : ℕ) where
  -- What holds of the variables of the resolver throughout.
  pub record Listed (w : Walk) : Type 0 where
    pub reach : (y : ℕ) → In y w.path → Chain g tenant folder y
    pub other : (y : ℕ) → In y w.path → y ≢ folder
    pub start : In folder w.visited
    pub seen : (y : ℕ) → In y w.path → In y w.visited
    pub listed : (y : ℕ) → In y w.visited → (y ≡ folder) ⊎ In y w.path
    pub distinct : Distinct w.path
    pub queue : (y : ℕ) → In y w.next → In y w.path

  visit-Listed :
      (x : ℕ) (w : Walk)
      → Chain g tenant folder x
      → ¬ In x w.visited
      → Listed w
      → Listed (visit x w)
  visit-Listed x w c new v = record {
    reach = λ y i. elim (In-append y w.path (x ∷ []) i) [
      | inl l ↦ v.reach y l
      | inr (inl e) ↦ rw e c
      | inr (inr b) ↦ absurd b
    ];
    other = λ y i. elim (In-append y w.path (x ∷ []) i) [
      | inl l ↦ v.other y l
      | inr (inl e) ↦ (λ f. new (subst (λ k. In k w.visited) (sym f ∙ e) v.start))
      | inr (inr b) ↦ absurd b
    ];
    start = inr v.start;
    seen = λ y i. elim (In-append y w.path (x ∷ []) i) [
      | inl l ↦ inr (v.seen y l)
      | inr (inl e) ↦ inl e
      | inr (inr b) ↦ absurd b
    ];
    listed = λ y i. elim i [
      | inl e ↦ inr (In-append_right y w.path (x ∷ []) (inl e))
      | inr o ↦ elim (v.listed y o) [
        | inl e ↦ inl e
        | inr p ↦ inr (In-append_left y w.path (x ∷ []) p)
      ]
    ];
    distinct = Distinct-snoc x w.path (λ i. new (v.seen x i)) v.distinct;
    queue = λ y i. elim (In-append y w.next (x ∷ []) i) [
      | inl l ↦ In-append_left y w.path (x ∷ []) (v.queue y l)
      | inr r ↦ In-append_right y w.path (x ∷ []) r
    ];
  }

  visit_new-Listed :
      (x : ℕ) (w : Walk) → Chain g tenant folder x → Listed w → Listed (visit_new x w)
  visit_new-Listed x w c v = elim (Bool-cases (contains x w.visited)) [
    | inl e ↦ rw e v
    | inr e ↦ rw e (visit-Listed x w c (λ i. cc (In-contains x w.visited i, e)) v)
  ]

  follow_rows-Listed :
      (xs : List ℕ) (w : Walk)
      → ((y : ℕ) → In y xs → Chain g tenant folder y)
      → Listed w
      → Listed (follow_rows xs w)
  unfolding follow_rows
  follow_rows-Listed [] w c v = v
  follow_rows-Listed (x ∷ xs) w c v =
      follow_rows-Listed xs (visit_new x w) (λ y i. c y (inr i))
        (visit_new-Listed x w (c x (inl refl)) v)

  -- The folders of a frontier are the folder itself or were reached.
  abbrev Front : List ℕ → Type 0
  Front xs = (y : ℕ) → In y xs → (y ≡ folder) ⊎ Chain g tenant folder y

  reached :
      (x : ℕ)
      → (x ≡ folder) ⊎ Chain g tenant folder x
      → (y : ℕ) → In y (sources g tenant x)
      → Chain g tenant folder y
  reached x (inl e) y i = one (subst (λ k. In y (sources g tenant k)) e i)
  reached x (inr c) y i = Chain-snoc c i

  follow_frontier-Listed :
      (xs : List ℕ) (w : Walk) → Front xs → Listed w → Listed (follow_frontier g tenant xs w)
  unfolding follow_frontier
  follow_frontier-Listed [] w f v = v
  follow_frontier-Listed (x ∷ xs) w f v =
      follow_frontier-Listed xs _ (λ y i. f y (inr i))
        (follow_rows-Listed (sources g tenant x) w (reached x (f x (inl refl))) v)

  follow_rounds-Listed :
      (n : ℕ) (xs : List ℕ) (w : Walk)
      → Front xs
      → Listed w
      → Listed (follow_rounds g tenant n xs w)
  unfolding follow_rounds
  follow_rounds-Listed zero xs w f v = v
  follow_rounds-Listed (suc n) [] w f v = v
  follow_rounds-Listed (suc n) (x ∷ xs) w f v =
      let v' = follow_frontier-Listed (x ∷ xs) (record w { next = [] }) f (cleared v) in
      follow_rounds-Listed n _ _ (λ y i. inr (v'.reach y (v'.queue y i))) v'
    where
      cleared : Listed w → Listed (record w { next = [] })
      cleared u = record {
        reach = u.reach;
        other = u.other;
        start = u.start;
        seen = u.seen;
        listed = u.listed;
        distinct = u.distinct;
        queue = λ y i. absurd i;
      }

-- The variables of the resolver when its rounds are over.
abbrev pub resolved : ImportTable → ℕ → ℕ → Walk
resolved g tenant folder =
    follow_rounds g tenant max_import_depth (folder ∷ [])
      (record { visited = folder ∷ []; next = []; path = [] })

pub resolved-Listed :
    (g : ImportTable) (tenant folder : ℕ) → Listed g tenant folder (resolved g tenant folder)
resolved-Listed g tenant folder =
    follow_rounds-Listed g tenant folder max_import_depth (folder ∷ []) _
      (λ y i. elim i [ inl e ↦ inl e | inr b ↦ absurd b ])
      (record {
        reach = λ y i. absurd i;
        other = λ y i. absurd i;
        start = inl refl;
        seen = λ y i. absurd i;
        listed = λ y i. elim i [ inl e ↦ inl e | inr b ↦ absurd b ];
        distinct = tt;
        queue = λ y i. absurd i;
      })

-- The chain that is resolved lists folders that imports lead to, none twice, and never the folder
-- itself, also where the imports form a cycle.
pub resolve_import_chain-Listed :
    (g : ImportTable) (tenant folder : ℕ)
    → ((y : ℕ)
        → In y (resolve_import_chain g tenant folder)
        → Chain g tenant folder y × (y ≢ folder))
      × Distinct (resolve_import_chain g tenant folder)
unfolding resolve_import_chain
resolve_import_chain-Listed g tenant folder =
    let v = resolved-Listed g tenant folder in ((λ y i. (v.reach y i, v.other y i)), v.distinct)
