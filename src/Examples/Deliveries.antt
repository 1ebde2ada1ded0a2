-- ===== src/Examples/Deliveries.antt =====
-- Two passes of the re-drive worker over one delivery whose receiver first fails and then accepts.
use maintainerd_secret.Base.{
  ℕ, ◌<◌, ◌==◌, if◌then◌else◌, Option, ◌*◌, ◌≤◌, ◌≡◌, refl, true, false, none, some, [], ◌∷◌, arith,
  min, List, length, keep, update_where, find_first, count_where, ok, err,
}
use maintainerd_secret.Crypto.{KeyRing, Envelope, seal, open_envelope, lookup}
use maintainerd_secret.Crypto.Aad.{Identity, bytes_equal, put_uint32, put_field, aad}
use maintainerd_secret.Examples.Ciphers.{toy, key_one, a_draw}
use maintainerd_secret.Webhooks.Rows.{
  Endpoint, Delivery, Outbox, retrying, insert_due, sort_due, due_batch, postpone_all,
  record_outcome, count_awaiting, find_endpoint, touch_endpoint,
}
use maintainerd_secret.Webhooks.{
  redrive_defaults, RedriveOptions, Turn, WorkerPass, backoff, attempt_timeout, post,
  signed_endpoint, attempt_one, attempt_all, claim, work, tick, run, second,
}
use maintainerd_secret.Webhooks.Doubles.{float64, nearest_multiple, last_digit}
use maintainerd_secret.Webhooks.Schedule.{worker_delays}
use maintainerd_secret.Webhooks.Kept.{IsOutbox, tick-IsOutbox}
use maintainerd_secret.Webhooks.Openings.{Opens}
use maintainerd_secret.Webhooks.Drains.{Timely, run_drains}
use maintainerd_secret.Webhooks.Inline.{NotifierOptions, Sending, deliver, first_accepted}
use maintainerd_secret.Webhooks.Recorded.{recorded, opened_row, deliver_records}

backoff_capped : backoff 2 10 4 ≡ 10
unfolding backoff float64 nearest_multiple last_digit
backoff_capped = refl

abbrev ring : KeyRing
ring = record { active = key_one; by_id = ("env:1", key_one) ∷ [] }

abbrev hook_identity : Identity
hook_identity = record { tenant_uuid = 65 ∷ []; secret_uuid = 66 ∷ []; version = 1 }

abbrev hook_key : Envelope
hook_key = elim (seal toy key_one hook_identity (42 ∷ []) (some a_draw)) [
  | ok envelope ↦ envelope
  | err e ↦ record {
    ciphertext = [];
    nonce = [];
    dek_wrapped = [];
    dek_nonce = [];
    kek_id = "env:1";
    checksum = [];
  }
]

abbrev hook : Endpoint
hook = record {
  endpoint_id = 4;
  endpoint_uuid = 66 ∷ [];
  tenant_uuid = 65 ∷ [];
  is_active = true;
  endpoint_deleted = false;
  events = [];
  timeout_seconds = 5;
  max_attempts = 3;
  signing_key = hook_key;
  last_triggered_at = none;
}

abbrev waiting : Delivery
waiting = record {
  delivery_id = 1;
  tenant_id = 1;
  endpoint_id = 4;
  event_type = "secret.rotated";
  payload = 123 ∷ 125 ∷ [];
  attempt_count = 3;
  status = retrying;
  response_status = some 503;
  next_attempt_at = some 5;
  redrive_attempts = 0;
}

abbrev backlog : Outbox
backlog = record { endpoints = hook ∷ []; deliveries = waiting ∷ []; next_id = 2 }

abbrev options : RedriveOptions
options = record {
  enabled = true;
  interval = second;
  batch = 1;
  max_attempts = 2;
  base_backoff = 2;
  max_backoff = 10;
  lease = 60 * second;
  max_timeout = second;
}

abbrev failing : Turn
failing = record {
  now = 10;
  receiver = record { delay = 1; code = some 500 };
  reads = true;
  writes = true;
  touches = true;
}

abbrev accepting : Turn
accepting = record failing { now = 20; receiver = record { delay = 1; code = some 204 } }

abbrev passes : List WorkerPass
passes =
    record { cancelled = false; answers = true; clock = 9; turns = failing ∷ [] }
    ∷ record { cancelled = false; answers = true; clock = 19; turns = accepting ∷ [] }
    ∷ []

worker_delays_example :
    (0 < (redrive_defaults options).base_backoff)
    × (backoff (redrive_defaults options).base_backoff (redrive_defaults options).max_backoff 1
        ≡ (redrive_defaults options).base_backoff)
    × (backoff (redrive_defaults options).base_backoff (redrive_defaults options).max_backoff 3
        ≡ min (redrive_defaults options).max_backoff (
            2
            * backoff
                (redrive_defaults options).base_backoff
                (redrive_defaults options).max_backoff
                2))
worker_delays_example = worker_delays options 1 (omega arith) (omega arith)

backlog-IsOutbox : IsOutbox 2 backlog.deliveries
backlog-IsOutbox = record {
  apart = (tt, tt);
  rows = (
    record {
      scheduled = refl;
      counted = omega arith;
      bounded = omega arith;
      budgeted = λ e. omega arith;
    },
    tt,
  );
}

backlog-Opens : Opens toy ring backlog.endpoints
unfolding seal open_envelope put_uint32 put_field aad bytes_equal lookup
backlog-Opens = (tt, tt)

tick-IsOutbox_example :
    IsOutbox 2
      (tick toy ring options
        (record { cancelled = false; answers = true; clock = 9; turns = failing ∷ [] })
        backlog).deliveries
tick-IsOutbox_example =
    tick-IsOutbox toy ring options
      (record { cancelled = false; answers = true; clock = 9; turns = failing ∷ [] }) backlog
      backlog-IsOutbox

passes-Timely : Timely toy ring options passes backlog
unfolding seal open_envelope put_uint32 put_field aad bytes_equal lookup tick work claim attempt_all
    attempt_one signed_endpoint find_endpoint find_first post attempt_timeout backoff float64
    nearest_multiple last_digit due_batch sort_due insert_due keep postpone_all update_where
    record_outcome touch_endpoint
passes-Timely = (refl, (omega arith, tt), (refl, refl), (refl, (omega arith, tt), (refl, refl), tt))

backlog_bound : 2 * count_awaiting backlog ≤ length passes
unfolding count_awaiting count_where
backlog_bound = omega arith

run_drains_example : count_awaiting (run toy ring options passes backlog) ≡ 0
run_drains_example =
    run_drains toy ring options passes backlog (omega arith) backlog-IsOutbox backlog-Opens
      passes-Timely backlog_bound

abbrev notifier : NotifierOptions
notifier = record { longest = second; most_attempts = 5; redrive_delay = 30 * second }

abbrev second_time : Sending
second_time = record {
  receivers = λ k. record { delay = 1; code = if k == 2 then some 200 else some 503 };
  ends_after = λ k. false;
  handed_at = 100;
  touched_at = 100;
  opens = true;
  finishes = true;
  touches = true;
}

deliver_records_example :
    (response : Option ℕ) × ((deliver notifier 1 "secret.rotated"
        (123 ∷ 125 ∷ [])
        second_time
        hook
        backlog).deliveries
      ≡ recorded notifier hook 100
          (first_accepted notifier hook second_time 3 1)
          response
          (opened_row 2 1 "secret.rotated" (123 ∷ 125 ∷ []) hook)
        ∷ backlog.deliveries)
deliver_records_example =
    deliver_records notifier 1 "secret.rotated" (123 ∷ 125 ∷ []) second_time hook backlog
      (omega arith, tt) refl refl (λ k. refl)

accepted_second : first_accepted notifier hook second_time 3 1 ≡ some 2
unfolding attempt_timeout
accepted_second = refl
