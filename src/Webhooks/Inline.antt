-- ===== src/Webhooks/Inline.antt =====
-- internal/webhook/webhook.go: the attempts of the notifier on one endpoint, made while a secret is
-- written, and the hand-over to the re-drive worker.
use maintainerd_secret.Base.{
  ℕ, zero, suc, ◌+◌, Bool, true, false, ◌&&◌, Option, none, some, String, ltb, ◌==◌, min,
  if◌then◌else◌,
}
use maintainerd_secret.Crypto.Aad.{Bytes}
use maintainerd_secret.Webhooks.Rows.{
  success, retrying, failed, Endpoint, Outbox, create_delivery, finish_delivery, touch_endpoint,
}
use maintainerd_secret.Webhooks.{Receiver, attempt_timeout, answer_within, judged, if_written}

-- Options, with its defaults.
pub record NotifierOptions : Type 0 where
  pub longest : ℕ
  pub most_attempts : ℕ
  pub redrive_delay : ℕ

-- The deliver's surroundings: the receiver at each attempt, whether the context ends in the pause
-- after it, the clock of the hand-over and of the touch, and which calls of the database answer.
pub record Sending : Type 0 where
  pub receivers : ℕ → Receiver
  pub ends_after : ℕ → Bool
  pub handed_at : ℕ
  pub touched_at : ℕ
  pub opens : Bool
  pub finishes : Bool
  pub touches : Bool

-- The local variables when the loop is left: the attempt, the last status, and whether it was accepted.
pub record Sequence : Type 0 where
  pub attempt : ℕ
  pub last_status : Option ℕ
  pub accepted : Bool

-- `if status != 0 { lastStatus = &s }`.
abbrev pub last_code : Option ℕ → Option ℕ → Option ℕ
last_code none last = last
last_code (some code) last = some code

-- attempt.
abbrev pub send : NotifierOptions → Endpoint → Receiver → Option ℕ × Bool
send o e r = judged (answer_within (attempt_timeout o.longest e.timeout_seconds) r)

abbrev pub allowed_attempts : NotifierOptions → Endpoint → ℕ
allowed_attempts o e =
    let asked = if ltb e.max_attempts 1 then 1 else e.max_attempts in
    if ltb o.most_attempts asked then o.most_attempts else asked

-- The loop of deliver, with the number of attempts that are left; none when the context ends.
unfoldable pub attempt_loop :
    NotifierOptions → Endpoint → Sending → ℕ → ℕ → Option ℕ → Option Sequence
attempt_loop o e s zero attempt last =
    some (record { attempt = attempt; last_status = last; accepted = false })
attempt_loop o e s (suc n) attempt last =
    let (status, accepted) = send o e (s.receivers attempt) in
    let rest = attempt_loop o e s n (suc attempt) (last_code status last) in
    if accepted
    then some (record { attempt = attempt; last_status = last_code status last; accepted = true })
    else if ltb 0 n && s.ends_after attempt
    then none
    else rest

-- The end of deliver.
abbrev pub hand_over : NotifierOptions → Endpoint → Sending → ℕ → Option Sequence → Outbox → Outbox
hand_over o e s i none b = b
hand_over o e s i (some q) b =
    let attempts = min q.attempt (allowed_attempts o e) in
    if q.accepted
    then if_written s.touches (touch_endpoint s.touched_at e.endpoint_id)
        (if_written s.finishes (finish_delivery i attempts success q.last_status none) b)
    else if o.redrive_delay == 0
    then if_written s.finishes (finish_delivery i attempts failed q.last_status none) b
    else if_written s.finishes
        (finish_delivery i attempts retrying q.last_status (some (s.handed_at + o.redrive_delay))) b

-- deliver.
unfoldable pub deliver : NotifierOptions → ℕ → String → Bytes → Sending → Endpoint → Outbox → Outbox
deliver o tenant event payload s e b =
    if s.opens
    then hand_over o e s b.next_id (attempt_loop o e s (allowed_attempts o e) 1 none)
        (create_delivery tenant e.endpoint_id event payload b)
    else b

-- The first attempt that is accepted, from one on, among as many as are left.
abbrev pub first_accepted : NotifierOptions → Endpoint → Sending → ℕ → ℕ → Option ℕ
first_accepted o e s zero attempt = none
first_accepted o e s (suc n) attempt =
    let rest = first_accepted o e s n (suc attempt) in
    if (send o e (s.receivers attempt)).1 then some attempt else rest
