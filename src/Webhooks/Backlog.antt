-- ===== src/Webhooks/Backlog.antt =====
-- The deliveries that wait: a claim takes some when they are due, and their budget bounds the passes.
use maintainerd_secret.Base.{
  ℕ, zero, suc, ◌*◌, ◌≤◌, ◌<◌, ◌≡◌, refl, inl, inr, Bool, List, [], ◌∷◌, arith, leb, Bool-cases,
  All, keep, take, count_where,
}
use maintainerd_secret.Webhooks.Rows.{
  is_retrying, Delivery, is_due, due_at, insert_due, sort_due, due_batch,
}
use maintainerd_secret.Webhooks.Kept.{IsDelivery}
use maintainerd_secret.Webhooks.Progress.{left}

abbrev pub IsCons : List Delivery → Type 0
IsCons [] = ⊥
IsCons (d ∷ ds) = Unit

keep-IsCons : (p : Delivery → Bool) (ds : List Delivery) → 0 < count_where p ds → IsCons (keep p ds)
unfolding keep count_where
keep-IsCons p [] h = absurd (omega (arith, h))
keep-IsCons p (d ∷ ds) h = elim (Bool-cases (p d)) [
  | inl e ↦ rw e tt
  | inr e ↦ rw e (keep-IsCons p ds (ground (arith, h, e)))
]

insert_due-IsCons : (d : Delivery) (ds : List Delivery) → IsCons (insert_due d ds)
unfolding insert_due
insert_due-IsCons d [] = tt
insert_due-IsCons d (e ∷ es) = elim (Bool-cases (leb (due_at d) (due_at e))) [
  | inl f ↦ rw f tt
  | inr f ↦ rw f tt
]

sort_due-IsCons : (ds : List Delivery) → IsCons ds → IsCons (sort_due ds)
unfolding sort_due
sort_due-IsCons [] h = h
sort_due-IsCons (d ∷ ds) h = insert_due-IsCons d (sort_due ds)

take-IsCons : (n : ℕ) (ds : List Delivery) → 0 < n → IsCons ds → IsCons (take n ds)
take-IsCons zero ds k h = absurd (omega (arith, k))
take-IsCons (suc n) [] k h = h
take-IsCons (suc n) (d ∷ ds) k h = tt

pub due_batch-IsCons :
    (limit now : ℕ) (ds : List Delivery)
    → 0 < limit
    → 0 < count_where (is_due now) ds
    → IsCons (due_batch limit now ds)
unfolding due_batch
due_batch-IsCons limit now ds k h =
    take-IsCons limit (sort_due (keep (is_due now) ds)) k
      (sort_due-IsCons (keep (is_due now) ds) (keep-IsCons (is_due now) ds h))

-- A delivery that is retried is due once its time has come.
pub due_count :
    (max now : ℕ) (ds : List Delivery)
    → All (IsDelivery max) ds
    → All (λ d. due_at d ≤ now) ds
    → count_where (is_due now) ds ≡ count_where (λ d. is_retrying d.status) ds
unfolding count_where
due_count max now [] v h = refl
due_count max now (d ∷ ds) v h =
    let rest = due_count max now ds v.1 h.1 in
    let same = v.0.scheduled in let here = h.0 in ground (arith, rest, same, here)

-- Nothing is left to attempt only when nothing is retried.
pub left-count :
    (max : ℕ) (ds : List Delivery)
    → All (IsDelivery max) ds
    → count_where (λ d. is_retrying d.status) ds ≤ left max ds
unfolding count_where
left-count max [] v = omega arith
left-count max (d ∷ ds) v =
    let rest = left-count max ds v.1 in let here = v.0.budgeted in ground (arith, rest, here)

-- The budget of a delivery that is retried is positive and at most the bound.
pub left-bound :
    (max : ℕ) (ds : List Delivery) → left max ds ≤ max * count_where (λ d. is_retrying d.status) ds
unfolding count_where
left-bound max [] = omega arith
left-bound max (d ∷ ds) =
    let rest = left-bound max ds in
    elim (Bool-cases (is_retrying d.status)) [
      | inl e ↦ rw e (grind (arith, rest))
      | inr e ↦ rw e (omega (arith, rest))
    ]
