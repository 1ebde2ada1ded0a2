-- ===== src/Webhooks/Batches.antt =====
-- The batch that a pass claims: distinct rows of the table, each of them due.
use maintainerd_secret.Base.{
  ℕ, zero, suc, ◌≡◌, refl, sym, subst, inl, inr, Bool, false, List, [], ◌∷◌, arith, leb, ◌==◌,
  Bool-cases, All, keep, take, update_where, update_where-All,
}
use maintainerd_secret.Webhooks.Rows.{
  is_retrying, Delivery, delivery_is, is_due, due_at, insert_due, sort_due, due_batch,
}

-- No two rows share an id.
abbrev pub Apart : List Delivery → Type 0
Apart [] = Unit
Apart (d ∷ ds) = All (λ e. (e.delivery_id == d.delivery_id) ≡ false) ds × Apart ds

module _ {κ} (P : Delivery → Type κ) where
  pub keep-All : (p : Delivery → Bool) (ds : List Delivery) → All P ds → All P (keep p ds)
  unfolding keep
  keep-All p [] h = tt
  keep-All p (d ∷ ds) h = elim (Bool-cases (p d)) [
    | inl e ↦ rw e (h.0, keep-All p ds h.1)
    | inr e ↦ rw e (keep-All p ds h.1)
  ]

  insert_due-All : (d : Delivery) (ds : List Delivery) → P d → All P ds → All P (insert_due d ds)
  unfolding insert_due
  insert_due-All d [] p h = (p, tt)
  insert_due-All d (e ∷ es) p h = elim (Bool-cases (leb (due_at d) (due_at e))) [
    | inl f ↦ rw f (p, h)
    | inr f ↦ rw f (h.0, insert_due-All d es p h.1)
  ]

  pub sort_due-All : (ds : List Delivery) → All P ds → All P (sort_due ds)
  unfolding sort_due
  sort_due-All [] h = tt
  sort_due-All (d ∷ ds) h = insert_due-All d (sort_due ds) h.0 (sort_due-All ds h.1)

  pub take-All : (n : ℕ) (ds : List Delivery) → All P ds → All P (take n ds)
  take-All zero ds h = tt
  take-All (suc n) [] h = tt
  take-All (suc n) (d ∷ ds) h = (h.0, take-All n ds h.1)

  pub due_batch-All :
      (limit now : ℕ) (ds : List Delivery) → All P ds → All P (due_batch limit now ds)
  unfolding due_batch
  due_batch-All limit now ds h =
      take-All limit (sort_due (keep (is_due now) ds))
        (sort_due-All (keep (is_due now) ds) (keep-All (is_due now) ds h))

keep-Apart : (p : Delivery → Bool) (ds : List Delivery) → Apart ds → Apart (keep p ds)
unfolding keep
keep-Apart p [] h = tt
keep-Apart p (d ∷ ds) h = elim (Bool-cases (p d)) [
  | inl e ↦ rw e (keep-All _ p ds h.0, keep-Apart p ds h.1)
  | inr e ↦ rw e (keep-Apart p ds h.1)
]

insert_due-Apart :
    (d : Delivery) (ds : List Delivery)
    → All (λ e. (e.delivery_id == d.delivery_id) ≡ false) ds
    → Apart ds
    → Apart (insert_due d ds)
unfolding insert_due
insert_due-Apart d [] h a = (tt, tt)
insert_due-Apart d (e ∷ es) h a = elim (Bool-cases (leb (due_at d) (due_at e))) [
  | inl f ↦ rw f (h, a)
  | inr f ↦ rw f (insert_due-All _ d es (ground (arith, h.0)) a.0, insert_due-Apart d es h.1 a.1)
]

sort_due-Apart : (ds : List Delivery) → Apart ds → Apart (sort_due ds)
unfolding sort_due
sort_due-Apart [] h = tt
sort_due-Apart (d ∷ ds) h =
    insert_due-Apart d (sort_due ds) (sort_due-All _ ds h.0) (sort_due-Apart ds h.1)

take-Apart : (n : ℕ) (ds : List Delivery) → Apart ds → Apart (take n ds)
take-Apart zero ds h = tt
take-Apart (suc n) [] h = tt
take-Apart (suc n) (d ∷ ds) h = (take-All _ n ds h.0, take-Apart n ds h.1)

pub due_batch-Apart :
    (limit now : ℕ) (ds : List Delivery) → Apart ds → Apart (due_batch limit now ds)
unfolding due_batch
due_batch-Apart limit now ds h =
    take-Apart limit (sort_due (keep (is_due now) ds))
      (sort_due-Apart (keep (is_due now) ds) (keep-Apart (is_due now) ds h))

-- The budget that is spent, and whether a delivery is retried.
abbrev pub Alike : Delivery → Delivery → Type 0
Alike d c =
    (d.redrive_attempts ≡ c.redrive_attempts) × (is_retrying d.status ≡ is_retrying c.status)

-- The row of the table with a claim's id is like the claim.
abbrev pub Agrees : List Delivery → Delivery → Type 0
Agrees ds c = All (λ d. d.delivery_id ≡ c.delivery_id → Alike d c) ds

Agrees-more :
    (d : Delivery) (ds cs : List Delivery)
    → All (λ e. (e.delivery_id == d.delivery_id) ≡ false) cs
    → All (Agrees ds) cs
    → All (Agrees (d ∷ ds)) cs
Agrees-more d ds [] f a = tt
Agrees-more d ds (c ∷ cs) f a =
    ((λ e. absurd (ground (arith, f.0)), a.0), Agrees-more d ds cs f.1 a.1)

Agrees-apart :
    (d : Delivery) (ds : List Delivery)
    → All (λ e. (e.delivery_id == d.delivery_id) ≡ false) ds
    → Agrees ds d
Agrees-apart d [] h = tt
Agrees-apart d (e ∷ es) h = (λ f. absurd (ground (arith, h.0)), Agrees-apart d es h.1)

pub Apart-Agrees : (ds : List Delivery) → Apart ds → All (Agrees ds) ds
Apart-Agrees [] h = tt
Apart-Agrees (d ∷ ds) h =
    ((λ e. (refl, refl), Agrees-apart d ds h.0), Agrees-more d ds ds h.0 (Apart-Agrees ds h.1))

-- An update by id that keeps the ids keeps them apart.
pub update_where-Apart :
    (i : ℕ) (f : Delivery → Delivery) (ds : List Delivery)
    → ((d : Delivery) → (f d).delivery_id ≡ d.delivery_id)
    → Apart ds
    → Apart (update_where (delivery_is i) f ds)
unfolding update_where
update_where-Apart i f [] k h = tt
update_where-Apart i f (d ∷ ds) k h =
    let rest =
      update_where-All (λ e. (e.delivery_id == d.delivery_id) ≡ false) (delivery_is i) f
        (λ x _ g. subst (λ (j : ℕ). (j == d.delivery_id) ≡ false) (sym (k x)) g) ds h.0 in
    elim (Bool-cases (d.delivery_id == i)) [
      | inl e ↦
          rw (e, update_where)
            (
              subst
                  (λ (j : ℕ).
                    All (λ x. (x.delivery_id == j) ≡ false) (update_where (delivery_is i) f ds))
                  (sym (k d)) rest,
              update_where-Apart i f ds k h.1,
            )
      | inr e ↦ rw (e, update_where) (rest, update_where-Apart i f ds k h.1)
    ]
