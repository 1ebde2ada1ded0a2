-- ===== src/Webhooks/Openings.antt =====
-- Endpoints whose signing key opens: a pass of the worker finds them, and leaves them so.
use maintainerd_secret.Base.{
  ℕ, ◌+◌, inl, inr, Bool, true, false, Option, none, some, List, [], ◌∷◌, leb, ◌==◌, Bool-cases,
  All, find_first, update_where-All, Fallible, err, ok, not_found, unavailable, internal, if-cases,
}
use maintainerd_secret.Crypto.Aad.{Bytes}
use maintainerd_secret.Crypto.{Suite, KeyRing, RootKeyProvider, lookup, open_envelope}
use maintainerd_secret.Webhooks.Rows.{
  Endpoint, Delivery, Outbox, find_endpoint, live_endpoint, touch_endpoint, record_outcome,
  abandon_delivery, success,
}
use maintainerd_secret.Webhooks.{
  RedriveOptions, Turn, attempt_one, attempt_all, claim, work, tick, WorkerPass, proceeds,
  signed_endpoint, webhook_identity, post, opened_endpoint, if_written, fail_attempt, settle,
  attempt_with, RedriveOutcome,
}
use maintainerd_secret.Webhooks.Effects.{IsSettled}

-- The endpoints whose signing key opens.
abbrev pub Opens : (c : Suite) (ring : KeyRing) → List Endpoint → Type 0
Opens c ring es = All (λ e. IsSettled (opened_endpoint c ring e)) es

abbrev FoundOpens : (c : Suite) (ring : KeyRing) → Option Endpoint → Type 0
FoundOpens c ring none = Unit
FoundOpens c ring (some e) = IsSettled (opened_endpoint c ring e)

find_first-Opens :
    (c : Suite) (ring : KeyRing) (p : Endpoint → Bool) (es : List Endpoint)
    → Opens c ring es
    → FoundOpens c ring (find_first p es)
unfolding find_first
find_first-Opens c ring p [] h = tt
find_first-Opens c ring p (e ∷ es) h = elim (Bool-cases (p e)) [
  | inl f ↦ rw f h.0
  | inr f ↦ rw f (find_first-Opens c ring p es h.1)
]

signed_found :
    (c : Suite) (ring : KeyRing) (r : Option Endpoint)
    → FoundOpens c ring r
    → IsSettled
        (elim r [ none ↦ err (not_found "webhook endpoint") | some e ↦ opened_endpoint c ring e ])
signed_found c ring none h = tt
signed_found c ring (some e) h = h

pub signed_endpoint-Opens :
    (c : Suite) (ring : KeyRing) (i : ℕ) (b : Outbox)
    → Opens c ring b.endpoints
    → IsSettled (signed_endpoint c ring true i b)
unfolding signed_endpoint find_endpoint
signed_endpoint-Opens c ring i b h =
    signed_found c ring (find_first (live_endpoint i) b.endpoints)
      (find_first-Opens c ring (live_endpoint i) b.endpoints h)

-- An attempt sets no more of an endpoint than its time.
if_written-Opens :
    (c : Suite) (ring : KeyRing) (w : Bool) (write : Outbox → Outbox) (b : Outbox)
    → (Opens c ring b.endpoints → Opens c ring (write b).endpoints)
    → Opens c ring b.endpoints
    → Opens c ring (if_written w write b).endpoints
if_written-Opens c ring true write b f h = f h
if_written-Opens c ring false write b f h = h

abbrev keyed :
    (c : Suite) (ring : KeyRing)
    → Endpoint
    → Endpoint
    → Option RootKeyProvider
    → Fallible (Endpoint × Bytes)
keyed c ring e e2 none = err unavailable
keyed c ring e e2 (some p) = elim (open_envelope c p (webhook_identity e) e.signing_key) [
  | err x ↦ err internal
  | ok key ↦ ok (e2, key)
]

keyed-as :
    (e e2 : Endpoint) (r : Fallible Bytes)
    → IsSettled (elim r [ err x ↦ err internal | ok key ↦ ok (e, key) ])
    → IsSettled (elim r [ err x ↦ err internal | ok key ↦ ok (e2, key) ])
keyed-as e e2 (err x) h = h
keyed-as e e2 (ok key) h = tt

reopened :
    (c : Suite) (ring : KeyRing) (e e2 : Endpoint) (p : Option RootKeyProvider)
    → IsSettled (keyed c ring e e p)
    → IsSettled (keyed c ring e e2 p)
reopened c ring e e2 none h = h
reopened c ring e e2 (some p) h =
    keyed-as e e2 (open_envelope c p (webhook_identity e) e.signing_key) h

touch_endpoint-Opens :
    (c : Suite) (ring : KeyRing) (now i : ℕ) (b : Outbox)
    → Opens c ring b.endpoints
    → Opens c ring (touch_endpoint now i b).endpoints
unfolding touch_endpoint
touch_endpoint-Opens c ring now i b h =
    update_where-All (λ e. IsSettled (opened_endpoint c ring e)) (λ e. e.endpoint_id == i)
      (λ e. record e { last_triggered_at = some now })
      (λ e _ k. reopened c ring e _ (lookup e.signing_key.kek_id ring.by_id) k) b.endpoints h

module _ (c : Suite) (ring : KeyRing) (o : RedriveOptions) where
  fail_attempt-Opens :
      (turn : Turn) (d : Delivery) (response : Option ℕ) (b : Outbox)
      → Opens c ring b.endpoints
      → Opens c ring (fail_attempt c ring o turn d response b).0.endpoints
  unfolding record_outcome
  fail_attempt-Opens turn d response b h =
      if-cases (λ (x : Outbox × RedriveOutcome). Opens c ring x.0.endpoints)
        (leb o.max_attempts (d.redrive_attempts + 1)) _ _
        (λ f. if_written-Opens c ring turn.writes _ b (λ k. k) h)
        (λ f. if_written-Opens c ring turn.writes _ b (λ k. k) h)

  attempt_with-Opens :
      (turn : Turn) (d : Delivery) (r : Fallible (Endpoint × Bytes)) (b : Outbox)
      → Opens c ring b.endpoints
      → Opens c ring (attempt_with c ring o turn d r b).0.endpoints
  unfolding record_outcome abandon_delivery
  attempt_with-Opens turn d (ok (e, key)) b h =
      settled (post o.max_timeout e.timeout_seconds d.payload turn.receiver)
    where
      settled :
          (answer : Option ℕ × Bool) → Opens c ring (settle c ring o turn d e answer b).0.endpoints
      settled (response, true) =
          let b' = if_written turn.writes (record_outcome d.delivery_id success response none) b in
          if_written-Opens c ring turn.touches (touch_endpoint turn.now e.endpoint_id) b'
            (touch_endpoint-Opens c ring turn.now e.endpoint_id b')
            (if_written-Opens c ring turn.writes
              (record_outcome d.delivery_id success response none) b (λ k. k) h)
      settled (response, false) = fail_attempt-Opens turn d response b h
  attempt_with-Opens turn d (err (not_found x)) b h =
      if_written-Opens c ring turn.writes (abandon_delivery d.delivery_id) b (λ k. k) h
  attempt_with-Opens turn d (err x) b h = h

  attempt_all-Opens :
      (turns : List Turn) (ds : List Delivery) (b : Outbox)
      → Opens c ring b.endpoints
      → Opens c ring (attempt_all c ring o turns ds b).endpoints
  unfolding attempt_all attempt_one
  attempt_all-Opens [] ds b h = h
  attempt_all-Opens (turn ∷ turns) [] b h = h
  attempt_all-Opens (turn ∷ turns) (d ∷ ds) b h =
      attempt_all-Opens turns ds _
        (attempt_with-Opens turn d (signed_endpoint c ring turn.reads d.endpoint_id b) b h)

  work-Opens :
      (now : ℕ) (turns : List Turn) (b : Outbox)
      → Opens c ring b.endpoints
      → Opens c ring (work c ring o now turns b).endpoints
  unfolding work claim
  work-Opens now turns b h = attempt_all-Opens turns _ _ h

  pub tick-Opens :
      (p : WorkerPass) (b : Outbox)
      → Opens c ring b.endpoints
      → Opens c ring (tick c ring o p b).endpoints
  unfolding tick
  tick-Opens p b h =
      if-cases (λ (x : Outbox). Opens c ring x.endpoints) (proceeds c ring o p) _ _
        (λ e. work-Opens p.clock p.turns b h) (λ e. h)
