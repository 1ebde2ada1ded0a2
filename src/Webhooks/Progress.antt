-- ===== src/Webhooks/Progress.antt =====
-- A pass that claims a delivery, and can open its endpoint and write, spends some of the budget.
use maintainerd_secret.Base.{
  ℕ, ◌-◌, ◌≤◌, ◌<◌, ◌≡◌, refl, sym, ◌∙◌, inl, inr, true, false, List, [], ◌∷◌, arith, ==_iff,
  if◌then◌else◌, All, All-map, update_where, sum, sum-update_where-le, sum-update_where-lt,
  count_where,
}
use maintainerd_secret.Crypto.{Suite, KeyRing}
use maintainerd_secret.Webhooks.Rows.{
  is_retrying, Delivery, Outbox, delivery_is, postponed, postpone_all,
}
use maintainerd_secret.Webhooks.{RedriveOptions, Turn, attempt_one, attempt_all, signed_endpoint}
use maintainerd_secret.Webhooks.Batches.{Apart, Alike}
use maintainerd_secret.Webhooks.Effects.{
  Effect, lands, dies, waits, drops, apply, IsSettled, attempt_one-Outcome,
}
use maintainerd_secret.Webhooks.Kept.{IsClaim, Proceeds, attempt_one-Proceeds}

-- The attempts that the worker may still make.
abbrev pub remaining : ℕ → Delivery → ℕ
remaining max d = if is_retrying d.status then max - d.redrive_attempts else 0

abbrev pub left : ℕ → List Delivery → ℕ
left max ds = sum (remaining max) ds

apply-remaining :
    (max : ℕ) (c : Delivery) (e : Effect) (d : Delivery)
    → c.redrive_attempts < max
    → is_retrying c.status ≡ true
    → Alike d c
    → remaining max (apply e d) < remaining max d
apply-remaining max c (lands response) d k r a = ground arith
apply-remaining max c (dies response) d k r a = ground arith
apply-remaining max c (waits response at) d k r a = ground arith
apply-remaining max c drops d k r a = ground arith

module _ (max : ℕ) (c : Delivery) (e : Effect) (ds : List Delivery) (k : IsClaim max ds c) where
  effect-le : left max (update_where (delivery_is c.delivery_id) (apply e) ds) ≤ left max ds
  effect-le =
      sum-update_where-le (remaining max) (λ d. d.delivery_id ≡ c.delivery_id → Alike d c)
        (delivery_is c.delivery_id) (apply e)
        (λ d at a.
          apply-remaining max c e d k.1 k.2 (a ((==_iff d.delivery_id c.delivery_id).0 at)))
        ds k.0

  effect-lt :
      0 < count_where (delivery_is c.delivery_id) ds
      → left max (update_where (delivery_is c.delivery_id) (apply e) ds) < left max ds
  effect-lt =
      sum-update_where-lt (remaining max) (λ d. d.delivery_id ≡ c.delivery_id → Alike d c)
        (delivery_is c.delivery_id) (apply e)
        (λ d at a.
          apply-remaining max c e d k.1 k.2 (a ((==_iff d.delivery_id c.delivery_id).0 at)))
        ds k.0

module _ (c : Suite) (ring : KeyRing) (o : RedriveOptions) where
  attempt_one-left-le :
      (turn : Turn) (d : Delivery) (b : Outbox)
      → IsClaim o.max_attempts b.deliveries d
      → left o.max_attempts (attempt_one c ring o turn d b).0.deliveries
        ≤ left o.max_attempts b.deliveries
  attempt_one-left-le turn d b k = elim (attempt_one-Outcome c ring o turn d b) [
    | inl (same, _) ↦ rw same (omega arith)
    | inr (e, w, f) ↦ rw f (effect-le o.max_attempts d e b.deliveries k)
  ]

  pub attempt_one-left-lt :
      (turn : Turn) (d : Delivery) (b : Outbox)
      → IsClaim o.max_attempts b.deliveries d
      → 0 < count_where (delivery_is d.delivery_id) b.deliveries
      → turn.writes ≡ true
      → IsSettled (signed_endpoint c ring turn.reads d.endpoint_id b)
      → left o.max_attempts (attempt_one c ring o turn d b).0.deliveries
        < left o.max_attempts b.deliveries
  attempt_one-left-lt turn d b k n w s = elim (attempt_one-Outcome c ring o turn d b) [
    | inl (_, inl f) ↦ absurd (let g : true ≡ false = sym w ∙ f in cc)
    | inl (_, inr f) ↦ absurd (f s)
    | inr (e, _, f) ↦ rw f (effect-lt o.max_attempts d e b.deliveries k n)
  ]

  pub attempt_all-left-le :
      (turns : List Turn) (cs : List Delivery) (b : Outbox)
      → Apart cs
      → Proceeds o.max_attempts cs b.deliveries
      → left o.max_attempts (attempt_all c ring o turns cs b).deliveries
        ≤ left o.max_attempts b.deliveries
  unfolding attempt_all
  attempt_all-left-le [] cs b a p = omega arith
  attempt_all-left-le (turn ∷ turns) [] b a p = omega arith
  attempt_all-left-le (turn ∷ turns) (d ∷ cs) b a p = omega (
    arith,
    attempt_one-left-le turn d b p.1.0,
    attempt_all-left-le turns cs (attempt_one c ring o turn d b).0 a.1
        (attempt_one-Proceeds c ring o turn d cs b a.0 p),
  )

-- The claim neither spends a budget nor loses a row.
postponed-left :
    (max at i : ℕ) (ds : List Delivery)
    → left max (update_where (delivery_is i) (postponed at) ds) ≡ left max ds
unfolding update_where
postponed-left max at i [] = refl
postponed-left max at i (d ∷ ds) = ground (arith, postponed-left max at i ds)

postponed-count :
    (at i j : ℕ) (ds : List Delivery)
    → count_where (delivery_is j) (update_where (delivery_is i) (postponed at) ds)
      ≡ count_where (delivery_is j) ds
unfolding update_where count_where
postponed-count at i j [] = refl
postponed-count at i j (d ∷ ds) = ground (arith, postponed-count at i j ds)

pub postpone_all-left :
    (max at : ℕ) (cs ds : List Delivery) → left max (postpone_all at cs ds) ≡ left max ds
unfolding postpone_all
postpone_all-left max at [] ds = refl
postpone_all-left max at (c ∷ cs) ds =
    postpone_all-left max at cs _ ∙ postponed-left max at c.delivery_id ds

pub postpone_all-count :
    (at j : ℕ) (cs ds : List Delivery)
    → count_where (delivery_is j) (postpone_all at cs ds) ≡ count_where (delivery_is j) ds
unfolding postpone_all
postpone_all-count at j [] ds = refl
postpone_all-count at j (c ∷ cs) ds =
    postpone_all-count at j cs _ ∙ postponed-count at c.delivery_id j ds

-- Every row of the table is found by its id.
pub own_id : (ds : List Delivery) → All (λ d. 0 < count_where (delivery_is d.delivery_id) ds) ds
unfolding count_where
own_id [] = tt
own_id (d ∷ ds) = (ground arith, All-map _ _ (λ (x : Delivery) h. ground (arith, h)) ds (own_id ds))
