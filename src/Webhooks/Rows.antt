-- ===== src/Webhooks/Rows.antt =====
-- The tables webhook_endpoints and webhook_deliveries, and the statements of
-- internal/storage/webhook.sql.go that deliver. An error text is left out.
use maintainerd_secret.Base.{
  ℕ, ◌+◌, Bool, true, false, not, ◌&&◌, Option, none, some, List, [], ◌∷◌, String, leb, ◌==◌,
  if◌then◌else◌, find_first, keep, update_where, count_where, take,
}
use maintainerd_secret.Crypto.Aad.{Bytes}
use maintainerd_secret.Crypto.{Envelope}

pub data DeliveryStatus : Type 0 where
  pending success retrying failed : DeliveryStatus

abbrev pub is_retrying : DeliveryStatus → Bool
is_retrying retrying = true
is_retrying _ = false

pub record Endpoint : Type 0 where
  pub endpoint_id : ℕ
  pub endpoint_uuid : Bytes
  pub tenant_uuid : Bytes
  pub is_active : Bool
  pub endpoint_deleted : Bool
  pub events : List String
  pub timeout_seconds : ℕ
  pub max_attempts : ℕ
  pub signing_key : Envelope
  pub last_triggered_at : Option ℕ

pub record Delivery : Type 0 where
  pub delivery_id : ℕ
  pub tenant_id : ℕ
  pub endpoint_id : ℕ
  pub event_type : String
  pub payload : Bytes
  pub attempt_count : ℕ
  pub status : DeliveryStatus
  pub response_status : Option ℕ
  pub next_attempt_at : Option ℕ
  pub redrive_attempts : ℕ

pub record Outbox : Type 0 where
  pub endpoints : List Endpoint
  pub deliveries : List Delivery
  pub next_id : ℕ

abbrev pub delivery_is : ℕ → Delivery → Bool
delivery_is i d = d.delivery_id == i

-- CreateWebhookDelivery.
unfoldable pub create_delivery : ℕ → ℕ → String → Bytes → Outbox → Outbox
create_delivery tenant endpoint event payload b = record b {
  next_id = b.next_id + 1;
  deliveries =
      record {
        delivery_id = b.next_id;
        tenant_id = tenant;
        endpoint_id = endpoint;
        event_type = event;
        payload = payload;
        attempt_count = 0;
        status = pending;
        response_status = none;
        next_attempt_at = none;
        redrive_attempts = 0;
      }
      ∷ b.deliveries;
}

abbrev pub finished : ℕ → DeliveryStatus → Option ℕ → Option ℕ → Delivery → Delivery
finished attempts status response next d = record d {
  attempt_count = attempts;
  status = status;
  response_status = response;
  next_attempt_at = next;
}

-- FinishWebhookDelivery.
unfoldable pub finish_delivery : ℕ → ℕ → DeliveryStatus → Option ℕ → Option ℕ → Outbox → Outbox
finish_delivery i attempts status response next b = record b {
  deliveries = update_where (delivery_is i) (finished attempts status response next) b.deliveries;
}

abbrev pub is_due : ℕ → Delivery → Bool
is_due now d =
    is_retrying d.status && elim d.next_attempt_at [ none ↦ false | some at ↦ leb at now ]

abbrev pub due_at : Delivery → ℕ
due_at d = elim d.next_attempt_at [ none ↦ 0 | some at ↦ at ]

unfoldable pub insert_due : Delivery → List Delivery → List Delivery
insert_due d [] = d ∷ []
insert_due d (e ∷ es) =
    let rest = insert_due d es in if leb (due_at d) (due_at e) then d ∷ (e ∷ es) else e ∷ rest

-- `ORDER BY next_attempt_at`.
unfoldable pub sort_due : List Delivery → List Delivery
sort_due [] = []
sort_due (d ∷ ds) = insert_due d (sort_due ds)

-- The deliveries that the claim locks.
unfoldable pub due_batch : ℕ → ℕ → List Delivery → List Delivery
due_batch limit now ds = take limit (sort_due (keep (is_due now) ds))

abbrev pub postponed : ℕ → Delivery → Delivery
postponed at d = record d { next_attempt_at = some at }

unfoldable pub postpone_all : ℕ → List Delivery → List Delivery → List Delivery
postpone_all at [] ds = ds
postpone_all at (c ∷ cs) ds =
    postpone_all at cs (update_where (delivery_is c.delivery_id) (postponed at) ds)

-- RecordWebhookRedriveOutcome.
abbrev pub outcome_row : DeliveryStatus → Option ℕ → Option ℕ → Delivery → Delivery
outcome_row status response next d = record d {
  attempt_count = d.attempt_count + 1;
  redrive_attempts = d.redrive_attempts + 1;
  status = status;
  response_status = response;
  next_attempt_at = next;
}

unfoldable pub record_outcome : ℕ → DeliveryStatus → Option ℕ → Option ℕ → Outbox → Outbox
record_outcome i status response next b = record b {
  deliveries = update_where (delivery_is i) (outcome_row status response next) b.deliveries;
}

abbrev pub abandoned_row : Delivery → Delivery
abandoned_row d = record d { status = failed; next_attempt_at = none }

-- AbandonWebhookDelivery.
unfoldable pub abandon_delivery : ℕ → Outbox → Outbox
abandon_delivery i b = record b {
  deliveries = update_where (delivery_is i) abandoned_row b.deliveries;
}

-- CountWebhookDeliveriesAwaitingRedrive.
unfoldable pub count_awaiting : Outbox → ℕ
count_awaiting b = count_where (λ d. is_retrying d.status) b.deliveries

abbrev pub live_endpoint : ℕ → Endpoint → Bool
live_endpoint i e = e.endpoint_id == i && not e.endpoint_deleted

-- GetSignedWebhookEndpointByID.
unfoldable pub find_endpoint : ℕ → Outbox → Option Endpoint
find_endpoint i b = find_first (live_endpoint i) b.endpoints

-- TouchWebhookEndpoint.
unfoldable pub touch_endpoint : ℕ → ℕ → Outbox → Outbox
touch_endpoint now i b = record b {
  endpoints =
      update_where (λ e. e.endpoint_id == i) (λ e. record e { last_triggered_at = some now })
        b.endpoints;
}
