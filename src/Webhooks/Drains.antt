-- ===== src/Webhooks/Drains.antt =====
-- The re-drive worker and its backlog of deliveries that wait, over several ticks.
use maintainerd_secret.Base.{
  ℕ, ◌+◌, ◌*◌, ◌≤◌, ◌<◌, ◌≡◌, refl, sym, subst, Bool, true, false, List, [], ◌∷◌, arith, ◌==◌,
  if-cases, All, All-map, length, count_where,
}
use maintainerd_secret.Crypto.{Suite, KeyRing}
use maintainerd_secret.Webhooks.Rows.{
  Delivery, Outbox, delivery_is, postpone_all, due_at, due_batch, count_awaiting,
}
use maintainerd_secret.Webhooks.{
  RedriveOptions, Turn, attempt_one, attempt_all, claim, work, tick, proceeds, signed_endpoint,
  WorkerPass, run, lease_seconds, second,
}
use maintainerd_secret.Webhooks.Batches.{Apart, due_batch-All, due_batch-Apart}
use maintainerd_secret.Webhooks.Effects.{IsSettled}
use maintainerd_secret.Webhooks.Kept.{
  IsOutbox, Proceeds, attempt_one-Proceeds, postpone_all-Proceeds, claims, tick-IsOutbox,
}
use maintainerd_secret.Webhooks.Backlog.{
  IsCons, due_batch-IsCons, due_count, left-count, left-bound,
}
use maintainerd_secret.Webhooks.Openings.{Opens, signed_endpoint-Opens, tick-Opens}
use maintainerd_secret.Webhooks.Progress.{
  left, attempt_one-left-lt, attempt_all-left-le, postpone_all-left, postpone_all-count, own_id,
}

-- The first attempt of a pass reads the endpoint and writes the outcome.
abbrev Reaches : List Turn → Type 0
Reaches [] = ⊥
Reaches (turn ∷ turns) = (turn.reads ≡ true) × (turn.writes ≡ true)

-- Each pass claims when every delivery that waits is due, and its first attempt reaches the database.
abbrev pub Timely :
    (c : Suite) (ring : KeyRing) → RedriveOptions → List WorkerPass → Outbox → Type 0
Timely c ring o [] b = Unit
Timely c ring o (p ∷ ps) b =
    (proceeds c ring o p ≡ true)
    × All (λ d. due_at d ≤ p.clock) b.deliveries
    × Reaches p.turns
    × Timely c ring o ps (tick c ring o p b)

module _ (c : Suite) (ring : KeyRing) (o : RedriveOptions) where
  attempt_all-left-lt :
      (turns : List Turn) (cs : List Delivery) (b : Outbox)
      → Apart cs
      → Proceeds o.max_attempts cs b.deliveries
      → Opens c ring b.endpoints
      → All (λ d. 0 < count_where (delivery_is d.delivery_id) b.deliveries) cs
      → IsCons cs
      → Reaches turns
      → left o.max_attempts (attempt_all c ring o turns cs b).deliveries
        < left o.max_attempts b.deliveries
  unfolding attempt_all
  attempt_all-left-lt [] cs b a p h n k r = absurd r
  attempt_all-left-lt (turn ∷ turns) [] b a p h n k r = absurd k
  attempt_all-left-lt (turn ∷ turns) (d ∷ cs) b a p h n k (reads, writes) =
      let opens =
        subst (λ (f : Bool). IsSettled (signed_endpoint c ring f d.endpoint_id b)) (sym reads)
          (signed_endpoint-Opens c ring d.endpoint_id b h) in
      omega (
        arith,
        attempt_one-left-lt c ring o turn d b p.1.0 n.0 writes opens,
        attempt_all-left-le c ring o turns cs (attempt_one c ring o turn d b).0 a.1
            (attempt_one-Proceeds c ring o turn d cs b a.0 p),
      )

  work-left-lt :
      (now : ℕ) (turns : List Turn) (b : Outbox)
      → 0 < o.batch
      → IsOutbox o.max_attempts b.deliveries
      → Opens c ring b.endpoints
      → All (λ d. due_at d ≤ now) b.deliveries
      → Reaches turns
      → 0 < count_awaiting b
      → left o.max_attempts (work c ring o now turns b).deliveries
        < left o.max_attempts b.deliveries
  unfolding work claim count_awaiting
  work-left-lt now turns b n v h late r k =
      let due = due_batch o.batch now b.deliveries in
      let at = now + lease_seconds c ring o.lease * second in
      let k1 = claims o.max_attempts o.batch now b.deliveries v in
      let found : All
          (λ (d : Delivery).
            0 < count_where (delivery_is d.delivery_id) (postpone_all at due b.deliveries))
          due =
        All-map _ _
          (λ (d : Delivery) g.
            subst (λ (m : ℕ). 0 < m) (sym (postpone_all-count at d.delivery_id due b.deliveries)) g)
          due
          (due_batch-All (λ d. 0 < count_where (delivery_is d.delivery_id) b.deliveries) o.batch now
            b.deliveries (own_id b.deliveries)) in
      let some_due =
        subst (λ (m : ℕ). 0 < m) (sym (due_count o.max_attempts now b.deliveries v.rows late)) k in
      subst
        (λ (m : ℕ).
          left o.max_attempts
            (attempt_all c ring o turns due
              (record b { deliveries = postpone_all at due b.deliveries })).deliveries
          < m)
        (postpone_all-left o.max_attempts at due b.deliveries)
        (attempt_all-left-lt turns due (record b { deliveries = postpone_all at due b.deliveries })
          (due_batch-Apart o.batch now b.deliveries v.apart)
          (postpone_all-Proceeds o.max_attempts at due due b.deliveries v k1 k1) h found
          (due_batch-IsCons o.batch now b.deliveries n some_due) r)

  work-left-le :
      (now : ℕ) (turns : List Turn) (b : Outbox)
      → IsOutbox o.max_attempts b.deliveries
      → left o.max_attempts (work c ring o now turns b).deliveries
        ≤ left o.max_attempts b.deliveries
  unfolding work claim
  work-left-le now turns b v =
      let due = due_batch o.batch now b.deliveries in
      let at = now + lease_seconds c ring o.lease * second in
      let k1 = claims o.max_attempts o.batch now b.deliveries v in
      omega (
        arith,
        postpone_all-left o.max_attempts at due b.deliveries,
        attempt_all-left-le c ring o turns due
            (record b { deliveries = postpone_all at due b.deliveries })
            (due_batch-Apart o.batch now b.deliveries v.apart)
            (postpone_all-Proceeds o.max_attempts at due due b.deliveries v k1 k1),
      )

  tick-left-le :
      (p : WorkerPass) (b : Outbox)
      → IsOutbox o.max_attempts b.deliveries
      → left o.max_attempts (tick c ring o p b).deliveries ≤ left o.max_attempts b.deliveries
  unfolding tick
  tick-left-le p b v =
      if-cases (λ (x : Outbox). left o.max_attempts x.deliveries ≤ left o.max_attempts b.deliveries)
        (proceeds c ring o p) _ _ (λ e. work-left-le p.clock p.turns b v) (λ e. omega arith)

  tick-left-lt :
      (p : WorkerPass) (b : Outbox)
      → 0 < o.batch
      → IsOutbox o.max_attempts b.deliveries
      → Opens c ring b.endpoints
      → proceeds c ring o p ≡ true
      → All (λ d. due_at d ≤ p.clock) b.deliveries
      → Reaches p.turns
      → 0 < count_awaiting b
      → left o.max_attempts (tick c ring o p b).deliveries < left o.max_attempts b.deliveries
  unfolding tick
  tick-left-lt p b n v h goes late r k = rw goes (work-left-lt p.clock p.turns b n v h late r k)

run-spends :
    (c : Suite) (ring : KeyRing) (o : RedriveOptions) (passes : List WorkerPass) (b : Outbox)
    → 0 < o.batch
    → IsOutbox o.max_attempts b.deliveries
    → Opens c ring b.endpoints
    → Timely c ring o passes b
    → left o.max_attempts b.deliveries ≤ length passes
    → count_awaiting (run c ring o passes b) ≡ 0
unfolding run count_awaiting
run-spends c ring o [] b n v h t k = omega (arith, k, left-count o.max_attempts b.deliveries v.rows)
run-spends c ring o (p ∷ ps) b n v h (goes, late, r, t) k =
    let b' = tick c ring o p b in
    let kept = tick-IsOutbox c ring o p b v in
    let opens = tick-Opens c ring o p b h in
    run-spends c ring o ps b' n kept opens t (shorter (count_awaiting b == 0) refl)
  where
    shorter :
        (idle : Bool)
        → (count_awaiting b == 0) ≡ idle
        → left o.max_attempts (tick c ring o p b).deliveries ≤ length ps
    shorter true e =
        let none_waits : count_awaiting b ≡ 0 = ground arith in
        let spent : left o.max_attempts b.deliveries ≤ o.max_attempts * 0 =
          subst (λ (m : ℕ). left o.max_attempts b.deliveries ≤ o.max_attempts * m) none_waits
            (left-bound o.max_attempts b.deliveries) in
        omega (arith, spent, tick-left-le c ring o p b v)
    shorter false e = omega (arith, k, tick-left-lt c ring o p b n v h goes late r (ground arith))

-- With a positive batch, well-formed deliveries and endpoints whose signing keys open: when every
-- tick proceeds at a time at which every scheduled delivery is due, and its first attempt reaches
-- the database, then as many ticks as the bound on attempts times the deliveries that wait leave
-- no delivery that waits, whatever the receivers do.
pub run_drains :
    (c : Suite) (ring : KeyRing) (o : RedriveOptions) (passes : List WorkerPass) (b : Outbox)
    → 0 < o.batch
    → IsOutbox o.max_attempts b.deliveries
    → Opens c ring b.endpoints
    → Timely c ring o passes b
    → o.max_attempts * count_awaiting b ≤ length passes
    → count_awaiting (run c ring o passes b) ≡ 0
unfolding count_awaiting
run_drains c ring o passes b n v h t k =
    run-spends c ring o passes b n v h t (omega (arith, k, left-bound o.max_attempts b.deliveries))
