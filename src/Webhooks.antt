-- ===== src/Webhooks.antt =====
-- internal/webhook/redrive.go, webhook.go and internal/store/webhooks.go: the delivery of a change to
-- the endpoints of a project, inline and by the re-drive worker. What a receiver does, the clock, and
-- whether the database answers are arguments.
pub mod Rows
pub mod Doubles
pub mod Schedule
pub mod Batches
pub mod Effects
pub mod Kept
pub mod Progress
pub mod Openings
pub mod Backlog
pub mod Drains
pub mod Inline
pub mod Recorded
use maintainerd_secret.Base.{
  ℕ, zero, suc, ◌+◌, ◌-◌, ◌*◌, ◌/◌, ◌^◌, ◌≡◌, Bool, true, false, not, ◌&&◌, ◌||◌, Option, none,
  some, List, [], ◌∷◌, String, ltb, leb, ◌==◌, if◌then◌else◌, Fallible, err, ok, ◌>>=◌, not_found,
  unavailable, internal, AppError,
}
use maintainerd_secret.Crypto.Aad.{Bytes, Identity}
use maintainerd_secret.Crypto.{Suite, KeyRing, lookup, open_envelope}
use maintainerd_secret.Webhooks.Doubles.{float64}
use maintainerd_secret.Webhooks.Rows.{
  DeliveryStatus, success, retrying, failed, Endpoint, Delivery, Outbox, create_delivery,
  finish_delivery, due_batch, postpone_all, record_outcome, abandon_delivery, find_endpoint,
  touch_endpoint,
}

abbrev pub second : ℕ
second = 1000000000

-- RedriveOptions. An interval or a bound of 0 stands for every value that is not positive.
pub record RedriveOptions : Type 0 where
  pub enabled : Bool
  pub interval : ℕ
  pub batch : ℕ
  pub max_attempts : ℕ
  pub base_backoff : ℕ
  pub max_backoff : ℕ
  pub lease : ℕ
  pub max_timeout : ℕ

-- `if o.Field <= 0 { o.Field = default }`.
abbrev pub or_default : ℕ → ℕ → ℕ
or_default n default = if n == 0 then default else n

abbrev pub widened_lease : ℕ → ℕ → ℕ
widened_lease lease timeout = if leb lease timeout then 2 * timeout else lease

unfoldable pub redrive_defaults : RedriveOptions → RedriveOptions
redrive_defaults o =
    let base = or_default o.base_backoff (30 * second) in
    let cap = or_default o.max_backoff (3600 * second) in
    let timeout = or_default o.max_timeout (30 * second) in
    record {
      enabled = o.enabled;
      interval = or_default o.interval (30 * second);
      batch = or_default o.batch 50;
      max_attempts = or_default o.max_attempts 10;
      base_backoff = base;
      max_backoff = if ltb cap base then base else cap;
      lease = widened_lease (or_default o.lease (120 * second)) timeout;
      max_timeout = timeout;
    }

-- The delay from a base that is positive and a cap that is no less.
abbrev pub doubled : ℕ → ℕ → ℕ → ℕ
doubled base cap shift =
    if ltb 62 shift
    then cap
    else if leb (float64 cap) (float64 base * 2 ^ shift)
    then cap
    else float64 base * 2 ^ shift

-- Backoff.
unfoldable pub backoff : ℕ → ℕ → ℕ → ℕ
backoff base max attempt =
    let b = or_default base (30 * second) in
    let cap = if max == 0 || ltb max b then b else max in doubled b cap (attempt - 1)

-- A receiver answers a request with a code after a delay, or never.
pub record Receiver : Type 0 where
  pub delay : ℕ
  pub code : Option ℕ

-- The timeout of one attempt.
unfoldable pub attempt_timeout : ℕ → ℕ → ℕ
attempt_timeout max seconds =
    if seconds == 0 || ltb max (seconds * second) then max else seconds * second

abbrev pub answer_within : ℕ → Receiver → Option ℕ
answer_within timeout r = if ltb r.delay timeout then r.code else none

-- The status that is recorded, and whether the delivery was accepted.
abbrev pub judged : Option ℕ → Option ℕ × Bool
judged none = (none, false)
judged (some code) = (some code, ltb code 300)

-- post.
unfoldable pub post : ℕ → ℕ → Bytes → Receiver → Option ℕ × Bool
post max seconds [] r = (none, false)
post max seconds (c ∷ cs) r = judged (answer_within (attempt_timeout max seconds) r)

-- What surrounds one attempt of the worker: the clock, the receiver, whether the endpoint's row can
-- be read, and whether the outcome and the endpoint's time can be written.
pub record Turn : Type 0 where
  pub now : ℕ
  pub receiver : Receiver
  pub reads : Bool
  pub writes : Bool
  pub touches : Bool

pub data RedriveOutcome : Type 0 where
  delivered requeued abandoned : RedriveOutcome

-- One tick of the worker: whether its context is cancelled and its claim answered, the clock of the
-- claim, and the attempts.
pub record WorkerPass : Type 0 where
  pub cancelled : Bool
  pub answers : Bool
  pub clock : ℕ
  pub turns : List Turn

-- webhookIdentity.
abbrev pub webhook_identity : Endpoint → Identity
webhook_identity e = record {
  tenant_uuid = e.tenant_uuid;
  secret_uuid = e.endpoint_uuid;
  version = 1;
}

-- A write that fails is logged, and the row stays.
abbrev pub if_written : Bool → (Outbox → Outbox) → Outbox → Outbox
if_written true write b = write b
if_written false write b = b

module _ (c : Suite) (ring : KeyRing) where
  -- SignedEndpointByID, with the key opened.
  abbrev pub opened_endpoint : Endpoint → Fallible (Endpoint × Bytes)
  opened_endpoint e = elim (lookup e.signing_key.kek_id ring.by_id) [
    | none ↦ err unavailable
    | some p ↦ elim (open_envelope c p (webhook_identity e) e.signing_key) [
      | err x ↦ err internal
      | ok key ↦ ok (e, key)
    ]
  ]

  unfoldable pub signed_endpoint : Bool → ℕ → Outbox → Fallible (Endpoint × Bytes)
  signed_endpoint reads i b = if not reads then err internal else elim (find_endpoint i b) [
    | none ↦ err (not_found "webhook endpoint")
    | some e ↦ opened_endpoint e
  ]

  -- The end of attemptOne after a post that was not accepted.
  abbrev pub fail_attempt :
      RedriveOptions → Turn → Delivery → Option ℕ → Outbox → Outbox × RedriveOutcome
  fail_attempt o turn d response b =
      let spent = d.redrive_attempts + 1 in
      if leb o.max_attempts spent
      then (if_written turn.writes (record_outcome d.delivery_id failed response none) b, abandoned)
      else (
        if_written turn.writes
            (record_outcome d.delivery_id retrying response
              (some (turn.now + backoff o.base_backoff o.max_backoff spent)))
            b,
        requeued,
      )

  abbrev pub settle :
      RedriveOptions
      → Turn
      → Delivery
      → Endpoint
      → Option ℕ × Bool
      → Outbox
      → Outbox × RedriveOutcome
  settle o turn d e (response, true) b = (
    if_written turn.touches (touch_endpoint turn.now e.endpoint_id)
        (if_written turn.writes (record_outcome d.delivery_id success response none) b),
    delivered,
  )
  settle o turn d e (response, false) b = fail_attempt o turn d response b

  abbrev pub attempt_with :
      RedriveOptions
      → Turn
      → Delivery
      → Fallible (Endpoint × Bytes)
      → Outbox
      → Outbox × RedriveOutcome
  attempt_with o turn d (err (not_found x)) b =
      (if_written turn.writes (abandon_delivery d.delivery_id) b, abandoned)
  attempt_with o turn d (err x) b = (b, requeued)
  attempt_with o turn d (ok (e, key)) b =
      settle o turn d e (post o.max_timeout e.timeout_seconds d.payload turn.receiver) b

  -- attemptOne.
  unfoldable pub attempt_one : RedriveOptions → Turn → Delivery → Outbox → Outbox × RedriveOutcome
  attempt_one o turn d b = attempt_with o turn d (signed_endpoint turn.reads d.endpoint_id b) b

  -- The loop of Tick over the claimed deliveries; a pass that is cancelled has fewer turns.
  unfoldable pub attempt_all : RedriveOptions → List Turn → List Delivery → Outbox → Outbox
  attempt_all o [] ds b = b
  attempt_all o (turn ∷ turns) [] b = b
  attempt_all o (turn ∷ turns) (d ∷ ds) b = attempt_all o turns ds (attempt_one o turn d b).0

  -- ClaimDeliveriesForRedrive: the lease is in whole seconds, and at least one.
  abbrev pub lease_seconds : ℕ → ℕ
  lease_seconds lease = or_default (lease / second) 1

  unfoldable pub claim : ℕ → ℕ → ℕ → Outbox → Outbox × List Delivery
  claim limit lease now b =
      let due = due_batch limit now b.deliveries in
      (
        record b {
          deliveries = postpone_all (now + lease_seconds lease * second) due b.deliveries;
        },
        due,
      )

  -- Tick after its claim.
  unfoldable pub work : RedriveOptions → ℕ → List Turn → Outbox → Outbox
  work o now turns b =
      let (b', claimed) = claim o.batch o.lease now b in attempt_all o turns claimed b'

  abbrev pub proceeds : RedriveOptions → WorkerPass → Bool
  proceeds o p = o.enabled && (not p.cancelled && p.answers)

  -- Tick. The rows stay as they were when the claim fails.
  unfoldable pub tick : RedriveOptions → WorkerPass → Outbox → Outbox
  tick o p b = if proceeds o p then work o p.clock p.turns b else b

  -- A tick after each interval, until the context is cancelled.
  unfoldable pub run : RedriveOptions → List WorkerPass → Outbox → Outbox
  run o [] b = b
  run o (p ∷ ps) b = run o ps (tick o p b)
