-- ===== src/Webhooks/Effects.antt =====
-- What one attempt of the worker writes to its delivery.
use maintainerd_secret.Base.{
  ℕ, ◌+◌, ◌≤◌, ◌<◌, ◌≡◌, refl, sym, subst, inl, inr, ◌⊎◌, Bool, true, false, Option, none, some,
  List, arith, leb, if-cases, update_where, Fallible, err, ok, not_found,
}
use maintainerd_secret.Crypto.Aad.{Bytes}
use maintainerd_secret.Crypto.{Suite, KeyRing}
use maintainerd_secret.Webhooks.Rows.{
  success, retrying, failed, Endpoint, Delivery, Outbox, delivery_is, outcome_row, abandoned_row,
  record_outcome, abandon_delivery, touch_endpoint,
}
use maintainerd_secret.Webhooks.{
  RedriveOptions, Turn, RedriveOutcome, if_written, signed_endpoint, attempt_one, attempt_with,
  settle, fail_attempt, post, backoff,
}

pub data Effect : Type 0 where
  lands dies : Option ℕ → Effect
  waits : Option ℕ → ℕ → Effect
  drops : Effect

abbrev pub apply : Effect → Delivery → Delivery
apply (lands response) = outcome_row success response none
apply (dies response) = outcome_row failed response none
apply (waits response at) = outcome_row retrying response (some at)
apply drops = abandoned_row

-- The worker reschedules exactly while the budget lasts.
abbrev pub IsWithin : ℕ → Delivery → Effect → Type 0
IsWithin max c (lands response) = Unit
IsWithin max c (dies response) = max ≤ c.redrive_attempts + 1
IsWithin max c (waits response at) = c.redrive_attempts + 1 < max
IsWithin max c drops = Unit

-- The endpoint was opened, or is known to be gone.
abbrev pub IsSettled : Fallible (Endpoint × Bytes) → Type 0
IsSettled (ok e) = Unit
IsSettled (err (not_found x)) = Unit
IsSettled (err x) = ⊥

-- The rows of deliveries after an attempt: as they were, or with an effect on the attempted one.
abbrev pub Outcome :
    ℕ → Bool → Fallible (Endpoint × Bytes) → Delivery → List Delivery → List Delivery → Type 0
Outcome max writes r c ds ds' =
    ((ds' ≡ ds) × ((writes ≡ false) ⊎ (¬ (IsSettled r))))
    ⊎ ((e : Effect) × IsWithin max c e
        × (ds' ≡ update_where (delivery_is c.delivery_id) (apply e) ds))

if_written-Outcome :
    (max : ℕ) (writes : Bool) (r : Fallible (Endpoint × Bytes)) (c : Delivery) (b : Outbox)
    (write : Outbox → Outbox) (e : Effect)
    → IsWithin max c e
    → (write b).deliveries ≡ update_where (delivery_is c.delivery_id) (apply e) b.deliveries
    → Outcome max writes r c b.deliveries (if_written writes write b).deliveries
if_written-Outcome max true r c b write e w h = inr (e, w, h)
if_written-Outcome max false r c b write e w h = inl (refl, inl refl)

touched :
    (w : Bool) (i now : ℕ) (b : Outbox)
    → (if_written w (touch_endpoint now i) b).deliveries ≡ b.deliveries
unfolding touch_endpoint
touched true i now b = refl
touched false i now b = refl

module _ (c : Suite) (ring : KeyRing) (o : RedriveOptions) (turn : Turn) (d : Delivery)
    (b : Outbox) where
  abbrev Writes : Fallible (Endpoint × Bytes) → Outbox → Type 0
  Writes r b' = Outcome o.max_attempts turn.writes r d b.deliveries b'.deliveries

  fail_attempt-Writes :
      (r : Fallible (Endpoint × Bytes)) (response : Option ℕ)
      → Writes r (fail_attempt c ring o turn d response b).0
  unfolding record_outcome
  fail_attempt-Writes r response =
      if-cases (λ (x : Outbox × RedriveOutcome). Writes r x.0)
        (leb o.max_attempts (d.redrive_attempts + 1)) _ _
        (λ f.
          if_written-Outcome o.max_attempts turn.writes r d b
            (record_outcome d.delivery_id failed response none) (dies response) (ground arith) refl)
        (λ f.
          if_written-Outcome o.max_attempts turn.writes r d b
            (record_outcome d.delivery_id retrying response
              (some (turn.now + backoff o.base_backoff o.max_backoff (d.redrive_attempts + 1))))
            (waits response
              (turn.now + backoff o.base_backoff o.max_backoff (d.redrive_attempts + 1)))
            (ground arith) refl)

  settle-Writes :
      (r : Fallible (Endpoint × Bytes)) (e : Endpoint) (answer : Option ℕ × Bool)
      → Writes r (settle c ring o turn d e answer b).0
  unfolding record_outcome
  settle-Writes r e (response, true) =
      let b' = if_written turn.writes (record_outcome d.delivery_id success response none) b in
      subst (λ ds. Outcome o.max_attempts turn.writes r d b.deliveries ds)
        (sym (touched turn.touches e.endpoint_id turn.now b'))
        (if_written-Outcome o.max_attempts turn.writes r d b
          (record_outcome d.delivery_id success response none) (lands response) tt refl)
  settle-Writes r e (response, false) = fail_attempt-Writes r response

  attempt_with-Writes :
      (r : Fallible (Endpoint × Bytes)) → Writes r (attempt_with c ring o turn d r b).0
  unfolding abandon_delivery
  attempt_with-Writes (ok (e, key)) =
      settle-Writes (ok (e, key)) e (post o.max_timeout e.timeout_seconds d.payload turn.receiver)
  attempt_with-Writes (err (not_found x)) =
      if_written-Outcome o.max_attempts turn.writes (err (not_found x)) d b
        (abandon_delivery d.delivery_id) drops tt refl
  attempt_with-Writes (err x) = inl (refl, inr (λ h. h))

  pub attempt_one-Outcome :
      Writes (signed_endpoint c ring turn.reads d.endpoint_id b) (attempt_one c ring o turn d b).0
  unfolding attempt_one
  attempt_one-Outcome = attempt_with-Writes (signed_endpoint c ring turn.reads d.endpoint_id b)
