-- ===== src/Imports/Steps.antt =====
-- What one pass of the cycle check does to its variables.
use maintainerd_secret.Base.{
  ℕ, ◌+◌, ◌≤◌, ◌≡◌, ◌≢◌, refl, ◌⊎◌, inl, inr, true, some, List, [], ◌∷◌, ◌++◌, arith, ◌==◌, ==_iff,
  Bool-cases, length, length-append,
}
use maintainerd_secret.Imports.{contains, Walk, visit, visit_new, check_rows}

-- Membership, by recursion.
abbrev pub In : ℕ → List ℕ → Type 0
In x [] = ⊥
In x (y ∷ ys) = (x ≡ y) ⊎ In x ys

pub In-append_left : (x : ℕ) (xs ys : List ℕ) → In x xs → In x (xs ++ ys)
In-append_left x [] ys h = absurd h
In-append_left x (y ∷ xs) ys (inl e) = inl e
In-append_left x (y ∷ xs) ys (inr h) = inr (In-append_left x xs ys h)

pub In-append_right : (x : ℕ) (xs ys : List ℕ) → In x ys → In x (xs ++ ys)
In-append_right x [] ys h = h
In-append_right x (y ∷ xs) ys h = inr (In-append_right x xs ys h)

pub In-append : (x : ℕ) (xs ys : List ℕ) → In x (xs ++ ys) → In x xs ⊎ In x ys
In-append x [] ys h = inr h
In-append x (y ∷ xs) ys (inl e) = inl (inl e)
In-append x (y ∷ xs) ys (inr h) = elim (In-append x xs ys h) [ inl l ↦ inl (inr l) | inr r ↦ inr r ]

pub contains-In : (x : ℕ) (ys : List ℕ) → contains x ys ≡ true → In x ys
unfolding contains
contains-In x [] h = cc
contains-In x (y ∷ ys) h = elim (Bool-cases (x == y)) [
  | inl e ↦ inl ((==_iff x y).0 e)
  | inr e ↦ inr (contains-In x ys (ground arith))
]

pub In-contains : (x : ℕ) (ys : List ℕ) → In x ys → contains x ys ≡ true
unfolding contains
In-contains x [] h = absurd h
In-contains x (y ∷ ys) (inl e) = rw ((==_iff x y).1 e) refl
In-contains x (y ∷ ys) (inr h) = ground (arith, In-contains x ys h)

-- How a pass extends the variables: nothing is forgotten, what is newly visited is queued, and the
-- path grows with the queue.
pub record Extends (w w' : Walk) : Type 0 where
  pub keeps_visited : (y : ℕ) → In y w.visited → In y w'.visited
  pub keeps_next : (y : ℕ) → In y w.next → In y w'.next
  pub queued : (y : ℕ) → In y w'.visited → In y w.visited ⊎ In y w'.next
  pub grown : length w'.path + length w.next ≡ length w.path + length w'.next
  pub longer : length w.path ≤ length w'.path

pub Extends-refl : (w : Walk) → Extends w w
Extends-refl w = record {
  keeps_visited = λ y h. h;
  keeps_next = λ y h. h;
  queued = λ y h. inl h;
  grown = refl;
  longer = omega arith;
}

pub Extends-trans : {u v w : Walk} → Extends u v → Extends v w → Extends u w
Extends-trans a b = record {
  keeps_visited = λ y h. b.keeps_visited y (a.keeps_visited y h);
  keeps_next = λ y h. b.keeps_next y (a.keeps_next y h);
  queued = λ y h. elim (b.queued y h) [
    | inr n ↦ inr n
    | inl v ↦ elim (a.queued y v) [ inl o ↦ inl o | inr n ↦ inr (b.keeps_next y n) ]
  ];
  grown = omega arith;
  longer = omega arith;
}

visit-Extends : (x : ℕ) (w : Walk) → Extends w (visit x w)
visit-Extends x w = record {
  keeps_visited = λ y h. inr h;
  keeps_next = λ y h. In-append_left y w.next (x ∷ []) h;
  queued =
      λ y h. elim h [ inl e ↦ inr (In-append_right y w.next (x ∷ []) (inl e)) | inr o ↦ inl o ];
  grown = omega (arith, length-append w.path (x ∷ []), length-append w.next (x ∷ []));
  longer = omega (arith, length-append w.path (x ∷ []));
}

pub visit_new-Extends : (x : ℕ) (w : Walk) → Extends w (visit_new x w)
visit_new-Extends x w = elim (Bool-cases (contains x w.visited)) [
  | inl e ↦ rw e (Extends-refl w)
  | inr e ↦ rw e (visit-Extends x w)
]

pub visit_new-In : (x : ℕ) (w : Walk) → In x (visit_new x w).visited
visit_new-In x w = elim (Bool-cases (contains x w.visited)) [
  | inl e ↦ rw e (contains-In x w.visited e)
  | inr e ↦ rw e (inl refl)
]

-- The folders of a list were visited, and none of them is the target.
abbrev pub Cleared : ℕ → List ℕ → Walk → Type 0
Cleared target xs w = (y : ℕ) → In y xs → In y w.visited × (y ≢ target)

check_rows_cons :
    (target x : ℕ) (xs : List ℕ) (w w' : Walk)
    → check_rows target (x ∷ xs) w ≡ some w'
    → (x ≢ target) × (check_rows target xs (visit_new x w) ≡ some w')
unfolding check_rows
check_rows_cons target x xs w w' h = elim (Bool-cases (x == target)) [
  | inl e ↦ cc (rw e at h)
  | inr e ↦ (ground arith, rw e at h)
]

pub check_rows_lem :
    (target : ℕ) (xs : List ℕ) (w w' : Walk)
    → check_rows target xs w ≡ some w'
    → Extends w w' × Cleared target xs w'
unfolding check_rows
check_rows_lem target [] w w' h = let e : w ≡ w' = cc in rw (← e) (Extends-refl w, λ y i. absurd i)
check_rows_lem target (x ∷ xs) w w' h =
    let (ne, more) = check_rows_cons target x xs w w' h in
    let (ext, clear) = check_rows_lem target xs (visit_new x w) w' more in
    (
      Extends-trans (visit_new-Extends x w) ext,
      λ y i. elim i [
        | inl e ↦ rw e (ext.keeps_visited x (visit_new-In x w), ne)
        | inr j ↦ clear y j
      ],
    )
