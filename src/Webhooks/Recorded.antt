-- ===== src/Webhooks/Recorded.antt =====
-- What the notifier records of its attempts on one endpoint.
use maintainerd_secret.Base.{
  ℕ, zero, suc, ◌+◌, ◌<◌, ◌≡◌, refl, sym, ◌∙◌, subst, inl, inr, Bool, true, false, ◌&&◌, Option,
  none, some, List, [], ◌∷◌, String, arith, ltb, ◌==◌, min, if◌then◌else◌, Bool-cases, All,
  update_where,
}
use maintainerd_secret.Crypto.Aad.{Bytes}
use maintainerd_secret.Webhooks.Rows.{
  DeliveryStatus, pending, success, retrying, failed, Endpoint, Delivery, Outbox, delivery_is,
  create_delivery, finish_delivery, finished, touch_endpoint,
}
use maintainerd_secret.Webhooks.{if_written}
use maintainerd_secret.Webhooks.Inline.{
  NotifierOptions, Sending, Sequence, send, last_code, allowed_attempts, attempt_loop, hand_over,
  deliver, first_accepted,
}

-- No row has the id that the next one gets.
abbrev pub IsFresh : Outbox → Type 0
IsFresh b = All (λ d. d.delivery_id < b.next_id) b.deliveries

update_where_fresh :
    (i : ℕ) (f : Delivery → Delivery) (ds : List Delivery)
    → All (λ d. d.delivery_id < i) ds
    → update_where (delivery_is i) f ds ≡ ds
unfolding update_where
update_where_fresh i f [] h = refl
update_where_fresh i f (d ∷ ds) h =
    let rest = update_where_fresh i f ds h.1 in
    let other : (d.delivery_id == i) ≡ false = ground (arith, h.0) in rw (other, rest) refl

-- The loop ends at the first accepted attempt, or past the last.
abbrev Ends : (first : Option ℕ) → ℕ → Option Sequence → Type 0
Ends first past none = ⊥
Ends none past (some q) = (q.attempt ≡ past) × (q.accepted ≡ false)
Ends (some k) past (some q) = (q.attempt ≡ k) × (q.accepted ≡ true) × (k < past)

steps :
    (n attempt : ℕ) (last : Option ℕ) (status : Option ℕ) (accepted more ended : Bool)
    (first : Option ℕ) (rest : Option Sequence)
    → ended ≡ false
    → Ends first (n + suc attempt) rest
    → Ends (if accepted then some attempt else first) (suc n + attempt) (
        if accepted
        then some
            (record { attempt = attempt; last_status = last_code status last; accepted = true })
        else if more && ended
        then none
        else rest)
steps n attempt last status true more ended first rest g h = (refl, refl, omega arith)
steps n attempt last status false true true first rest g h = absurd cc
steps n attempt last status false true false first rest g h =
    subst (λ (m : ℕ). Ends first m rest) (omega arith) h
steps n attempt last status false false ended first rest g h =
    subst (λ (m : ℕ). Ends first m rest) (omega arith) h

attempt_loop-Ends :
    (o : NotifierOptions) (e : Endpoint) (s : Sending) (n attempt : ℕ) (last : Option ℕ)
    → ((k : ℕ) → s.ends_after k ≡ false)
    → Ends (first_accepted o e s n attempt) (n + attempt) (attempt_loop o e s n attempt last)
unfolding attempt_loop
attempt_loop-Ends o e s zero attempt last h = (omega arith, refl)
attempt_loop-Ends o e s (suc n) attempt last h =
    let answer = send o e (s.receivers attempt) in
    steps n attempt last answer.0 answer.1 (ltb 0 n) (s.ends_after attempt)
      (first_accepted o e s n (suc attempt)) _ (h attempt)
      (attempt_loop-Ends o e s n (suc attempt) (last_code answer.0 last) h)

abbrev pub opened_row : ℕ → ℕ → String → Bytes → Endpoint → Delivery
opened_row i tenant event payload e = record {
  delivery_id = i;
  tenant_id = tenant;
  endpoint_id = e.endpoint_id;
  event_type = event;
  payload = payload;
  attempt_count = 0;
  status = pending;
  response_status = none;
  next_attempt_at = none;
  redrive_attempts = 0;
}

-- The row at the end: accepted at an attempt, given up, or handed to the re-drive worker.
abbrev pub recorded : NotifierOptions → Endpoint → ℕ → Option ℕ → Option ℕ → Delivery → Delivery
recorded o e at (some k) response d = finished k success response none d
recorded o e at none response d =
    if o.redrive_delay == 0
    then finished (allowed_attempts o e) failed response none d
    else finished (allowed_attempts o e) retrying response (some (at + o.redrive_delay)) d

module _ (o : NotifierOptions) (tenant : ℕ) (event : String) (payload : Bytes) (s : Sending)
    (e : Endpoint) (b : Outbox) (fresh : IsFresh b) where
  abbrev opened_outbox : Outbox
  opened_outbox = create_delivery tenant e.endpoint_id event payload b

  abbrev row : Delivery
  row = opened_row b.next_id tenant event payload e

  finish_opened :
      (attempts : ℕ) (status : DeliveryStatus) (response at : Option ℕ)
      → (finish_delivery b.next_id attempts status response at opened_outbox).deliveries
        ≡ finished attempts status response at row ∷ b.deliveries
  unfolding finish_delivery create_delivery update_where
  finish_opened attempts status response at =
      let here : (b.next_id == b.next_id) ≡ true = ground arith in
      rw
        (
          here,
          update_where_fresh b.next_id (finished attempts status response at) b.deliveries fresh,
        )
        refl

  touched :
      (w : Bool) (at i : ℕ) (x : Outbox)
      → (if_written w (touch_endpoint at i) x).deliveries ≡ x.deliveries
  unfolding touch_endpoint
  touched true at i x = refl
  touched false at i x = refl

  abbrev Records : Option ℕ → Outbox → Type 0
  Records first x =
      (response : Option ℕ) × (x.deliveries
        ≡ recorded o e s.handed_at first response row ∷ b.deliveries)

  hand_over-Records :
      (first : Option ℕ) (q : Option Sequence)
      → s.finishes ≡ true
      → Ends first (allowed_attempts o e + 1) q
      → Records first (hand_over o e s b.next_id q opened_outbox)
  hand_over-Records first none w h = absurd h
  hand_over-Records (some k) (some q) w (at, accepted, within) =
      let count : min q.attempt (allowed_attempts o e) ≡ k = ground arith in
      rw (accepted, w, count)
        (
          q.last_status,
          touched s.touches s.touched_at e.endpoint_id _
              ∙ finish_opened k success q.last_status none,
        )
  hand_over-Records none (some q) w (at, rejected) =
      let count : min q.attempt (allowed_attempts o e) ≡ allowed_attempts o e = ground arith in
      elim (Bool-cases (o.redrive_delay == 0)) [
        | inl off ↦
            rw (rejected, w, count, off) (q.last_status, finish_opened _ failed q.last_status none)
        | inr on ↦
            rw (rejected, w, count, on)
              (
                q.last_status,
                finish_opened _ retrying q.last_status (some (s.handed_at + o.redrive_delay)),
              )
      ]

-- When the row can be opened and finished and the context lasts, the notifier adds one delivery: it
-- is a success at the first attempt that is accepted, and otherwise has spent all attempts that it is
-- allowed and is retried after the delay, or failed when there is none.
pub deliver_records :
    (o : NotifierOptions) (tenant : ℕ) (event : String) (payload : Bytes) (s : Sending)
    (e : Endpoint) (b : Outbox)
    → IsFresh b
    → s.opens ≡ true
    → s.finishes ≡ true
    → ((k : ℕ) → s.ends_after k ≡ false)
    → (response : Option ℕ) × ((deliver o tenant event payload s e b).deliveries
        ≡ recorded o e s.handed_at
            (first_accepted o e s (allowed_attempts o e) 1)
            response
            (opened_row b.next_id tenant event payload e)
          ∷ b.deliveries)
unfolding deliver
deliver_records o tenant event payload s e b fresh opens finishes lasts =
    let first = first_accepted o e s (allowed_attempts o e) 1 in
    subst
      (λ (f : Bool). Records o tenant event payload s e b fresh first (
        if f
        then hand_over o e s b.next_id (attempt_loop o e s (allowed_attempts o e) 1 none)
            (create_delivery tenant e.endpoint_id event payload b)
        else b))
      (sym opens)
      (hand_over-Records o tenant event payload s e b fresh first _ finishes
        (attempt_loop-Ends o e s (allowed_attempts o e) 1 none lasts))
