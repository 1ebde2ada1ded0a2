-- ===== src/Webhooks/Kept.antt =====
-- The well-formed deliveries, and the ticks of the re-drive worker on them.
use maintainerd_secret.Base.{
  ℕ, ◌≤◌, ◌<◌, ◌≡◌, refl, sym, subst, inl, inr, true, false, not, List, [], ◌∷◌, arith, ◌==◌,
  ==_iff, Bool-cases, if-cases, All, All-map, All-both, keep, All-update_where, update_where,
  is_null,
}
use maintainerd_secret.Crypto.{Suite, KeyRing}
use maintainerd_secret.Webhooks.Rows.{
  is_retrying, Delivery, Outbox, delivery_is, postponed, postpone_all, due_batch, is_due, sort_due,
}
use maintainerd_secret.Webhooks.{
  RedriveOptions, Turn, attempt_one, attempt_all, claim, work, tick, WorkerPass, proceeds,
}
use maintainerd_secret.Webhooks.Batches.{
  take-All, sort_due-All, Apart, Alike, Agrees, Apart-Agrees, update_where-Apart, due_batch-Apart,
}
use maintainerd_secret.Webhooks.Effects.{
  Effect, lands, dies, waits, drops, apply, IsWithin, attempt_one-Outcome,
}

-- Only a delivery that is retried has a next attempt, and its budget is not spent.
pub record IsDelivery (max : ℕ) (d : Delivery) : Type 0 where
  pub scheduled : is_retrying d.status ≡ not (is_null d.next_attempt_at)
  pub counted : d.redrive_attempts ≤ d.attempt_count
  pub bounded : d.redrive_attempts ≤ max
  pub budgeted : is_retrying d.status ≡ true → d.redrive_attempts < max

pub record IsOutbox (max : ℕ) (ds : List Delivery) : Type 0 where
  pub apart : Apart ds
  pub rows : All (IsDelivery max) ds

-- A claimed row is retried, within the budget, and like the table's row with its id.
abbrev pub IsClaim : ℕ → List Delivery → Delivery → Type 0
IsClaim max ds c = Agrees ds c × (c.redrive_attempts < max) × (is_retrying c.status ≡ true)

apply-delivery_id : (e : Effect) (d : Delivery) → (apply e d).delivery_id ≡ d.delivery_id
apply-delivery_id (lands response) d = refl
apply-delivery_id (dies response) d = refl
apply-delivery_id (waits response at) d = refl
apply-delivery_id drops d = refl

apply-IsDelivery :
    (max : ℕ) (c : Delivery) (e : Effect) (d : Delivery)
    → c.redrive_attempts < max
    → IsWithin max c e
    → d.redrive_attempts ≡ c.redrive_attempts
    → IsDelivery max d
    → IsDelivery max (apply e d)
apply-IsDelivery max c (lands response) d k w a v = ground arith
apply-IsDelivery max c (dies response) d k w a v = ground arith
apply-IsDelivery max c (waits response at) d k w a v = ground arith
apply-IsDelivery max c drops d k w a v = ground arith

effect-IsOutbox :
    (max : ℕ) (c : Delivery) (e : Effect) (ds : List Delivery)
    → IsWithin max c e
    → IsClaim max ds c
    → IsOutbox max ds
    → IsOutbox max (update_where (delivery_is c.delivery_id) (apply e) ds)
effect-IsOutbox max c e ds w k v = record {
  apart = update_where-Apart c.delivery_id (apply e) ds (apply-delivery_id e) v.apart;
  rows =
      All-update_where (λ d. IsDelivery max d × (d.delivery_id ≡ c.delivery_id → Alike d c))
        (IsDelivery max) (delivery_is c.delivery_id) (apply e)
        (λ d at p.
          apply-IsDelivery max c e d k.1 w (p.1 ((==_iff d.delivery_id c.delivery_id).0 at)).0 p.0)
        (λ d away p. p.0) ds (All-both _ _ ds v.rows k.0);
}

-- An attempt on one claim leaves the others as they are.
effect-Agrees :
    (c x : Delivery) (e : Effect) (ds : List Delivery)
    → (x.delivery_id == c.delivery_id) ≡ false
    → Agrees ds x
    → Agrees (update_where (delivery_is c.delivery_id) (apply e) ds) x
effect-Agrees c x e ds away a =
    All-update_where _ _ (delivery_is c.delivery_id) (apply e)
      (λ d at p f. absurd (ground (arith, apply-delivery_id e d))) (λ d _ p. p) ds a

effect-claims :
    (max : ℕ) (c : Delivery) (e : Effect) (ds cs : List Delivery)
    → All (λ x. (x.delivery_id == c.delivery_id) ≡ false) cs
    → All (IsClaim max ds) cs
    → All (IsClaim max (update_where (delivery_is c.delivery_id) (apply e) ds)) cs
effect-claims max c e ds [] f a = tt
effect-claims max c e ds (x ∷ xs) f a =
    ((effect-Agrees c x e ds f.0 a.0.0, a.0.1, a.0.2), effect-claims max c e ds xs f.1 a.1)

-- What a pass needs of the table and of the claims that are left.
abbrev pub Proceeds : ℕ → List Delivery → List Delivery → Type 0
Proceeds max cs ds = IsOutbox max ds × All (IsClaim max ds) cs

module _ (c : Suite) (ring : KeyRing) (o : RedriveOptions) where
  pub attempt_one-Proceeds :
      (turn : Turn) (d : Delivery) (cs : List Delivery) (b : Outbox)
      → All (λ x. (x.delivery_id == d.delivery_id) ≡ false) cs
      → Proceeds o.max_attempts (d ∷ cs) b.deliveries
      → Proceeds o.max_attempts cs (attempt_one c ring o turn d b).0.deliveries
  attempt_one-Proceeds turn d cs b away (v, k) = elim (attempt_one-Outcome c ring o turn d b) [
    | inl (same, _) ↦ subst (Proceeds o.max_attempts cs) (sym same) (v, k.1)
    | inr (e, w, f) ↦ subst (Proceeds o.max_attempts cs) (sym f) (
      effect-IsOutbox o.max_attempts d e b.deliveries w k.0 v,
      effect-claims o.max_attempts d e b.deliveries cs away k.1,
    )
  ]

  pub attempt_all-IsOutbox :
      (turns : List Turn) (cs : List Delivery) (b : Outbox)
      → Apart cs
      → Proceeds o.max_attempts cs b.deliveries
      → IsOutbox o.max_attempts (attempt_all c ring o turns cs b).deliveries
  unfolding attempt_all
  attempt_all-IsOutbox [] cs b a p = p.0
  attempt_all-IsOutbox (turn ∷ turns) [] b a p = p.0
  attempt_all-IsOutbox (turn ∷ turns) (d ∷ cs) b a p =
      attempt_all-IsOutbox turns cs (attempt_one c ring o turn d b).0 a.1
        (attempt_one-Proceeds turn d cs b a.0 p)

postponed-Claim :
    (max at i : ℕ) (ds : List Delivery) (x : Delivery)
    → IsClaim max ds x
    → IsClaim max (update_where (delivery_is i) (postponed at) ds) x
postponed-Claim max at i ds x (a, b, c) =
    (All-update_where _ _ (delivery_is i) (postponed at) (λ d _ p. p) (λ d _ p. p) ds a, b, c)

postponed-claims :
    (max at i : ℕ) (ds cs : List Delivery)
    → All (IsClaim max ds) cs
    → All (IsClaim max (update_where (delivery_is i) (postponed at) ds)) cs
postponed-claims max at i ds cs a = All-map _ _ (postponed-Claim max at i ds) cs a

postponed-IsDelivery :
    (max at : ℕ) (c d : Delivery)
    → is_retrying c.status ≡ true
    → is_retrying d.status ≡ is_retrying c.status
    → IsDelivery max d
    → IsDelivery max (postponed at d)
postponed-IsDelivery max at c d retried same v = ground arith

-- The claim postpones rows that are retried, which spends no budget.
postponed-IsOutbox :
    (max at : ℕ) (c : Delivery) (ds : List Delivery)
    → IsClaim max ds c
    → IsOutbox max ds
    → IsOutbox max (update_where (delivery_is c.delivery_id) (postponed at) ds)
postponed-IsOutbox max at c ds (a, b, retried) v = record {
  apart = update_where-Apart c.delivery_id (postponed at) ds (λ d. refl) v.apart;
  rows =
      All-update_where (λ d. IsDelivery max d × (d.delivery_id ≡ c.delivery_id → Alike d c))
        (IsDelivery max) (delivery_is c.delivery_id) (postponed at)
        (λ d h p.
          postponed-IsDelivery max at c d retried (p.1 ((==_iff d.delivery_id c.delivery_id).0 h)).1
            p.0)
        (λ d away p. p.0) ds (All-both _ _ ds v.rows a);
}

pub postpone_all-Proceeds :
    (max at : ℕ) (todo cs ds : List Delivery)
    → IsOutbox max ds
    → All (IsClaim max ds) todo
    → All (IsClaim max ds) cs
    → Proceeds max cs (postpone_all at todo ds)
unfolding postpone_all
postpone_all-Proceeds max at [] cs ds v t k = (v, k)
postpone_all-Proceeds max at (c ∷ todo) cs ds v t k =
    postpone_all-Proceeds max at todo cs
      (update_where (delivery_is c.delivery_id) (postponed at) ds)
      (postponed-IsOutbox max at c ds t.0 v) (postponed-claims max at c.delivery_id ds todo t.1)
      (postponed-claims max at c.delivery_id ds cs k)

-- The claimed rows are claims of the table.
pub claims :
    (max limit now : ℕ) (ds : List Delivery)
    → IsOutbox max ds
    → All (IsClaim max ds) (due_batch limit now ds)
unfolding due_batch keep
claims max limit now ds v = take-All _ limit (sort_due (keep (is_due now) ds)) (
    sort_due-All _ (keep (is_due now) ds)
      (kept now ds (All-both (Agrees ds) (IsDelivery max) ds (Apart-Agrees ds v.apart) v.rows)))
  where
    kept :
        (now : ℕ) (rows : List Delivery)
        → All (λ d. Agrees ds d × IsDelivery max d) rows
        → All (IsClaim max ds) (keep (is_due now) rows)
    kept now [] h = tt
    kept now (d ∷ rows) h = elim (Bool-cases (is_due now d)) [
      | inl e ↦
          let retried : is_retrying d.status ≡ true = ground (arith, e) in
          rw (e, keep) ((h.0.0, h.0.1.budgeted retried, retried), kept now rows h.1)
      | inr e ↦ rw (e, keep) (kept now rows h.1)
    ]

pub work-IsOutbox :
    (c : Suite) (ring : KeyRing) (o : RedriveOptions) (now : ℕ) (turns : List Turn) (b : Outbox)
    → IsOutbox o.max_attempts b.deliveries
    → IsOutbox o.max_attempts (work c ring o now turns b).deliveries
unfolding work claim
work-IsOutbox c ring o now turns b v =
    let due = due_batch o.batch now b.deliveries in
    let k = claims o.max_attempts o.batch now b.deliveries v in
    attempt_all-IsOutbox c ring o turns due _ (due_batch-Apart o.batch now b.deliveries v.apart)
      (postpone_all-Proceeds o.max_attempts _ due due b.deliveries v k k)

-- A tick of the re-drive worker, whether it proceeds or not, keeps the deliveries well formed: a
-- delivery has a next attempt exactly while it is retried, its worker attempts are within the
-- budget and within all its attempts, a retried one has some left, and the ids are distinct.
pub tick-IsOutbox :
    (c : Suite) (ring : KeyRing) (o : RedriveOptions) (p : WorkerPass) (b : Outbox)
    → IsOutbox o.max_attempts b.deliveries
    → IsOutbox o.max_attempts (tick c ring o p b).deliveries
unfolding tick
tick-IsOutbox c ring o p b v =
    if-cases (λ (x : Outbox). IsOutbox o.max_attempts x.deliveries) (proceeds c ring o p) _ _
      (λ e. work-IsOutbox c ring o p.clock p.turns b v) (λ e. v)
