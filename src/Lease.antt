-- ===== src/Lease.antt =====
-- internal/lease/lease.go: the decision on one read of a lease-governed secret.
-- Times and durations are nanoseconds since the epoch. A duration or count that Go holds below zero
-- takes the branch of zero in every test of this file, so both are natural numbers.
pub mod Outcome
pub mod Rows
pub mod Read
pub mod Accounting
pub mod History
pub mod Bounds
use maintainerd_secret.Base.{
  ℕ, ◌-◌, ◌*◌, Bool, true, false, ◌&&◌, Option, none, some, ltb, leb, not, if◌then◌else◌,
}

abbrev pub second : ℕ
second = 1_000_000_000

-- DefaultTTL.
abbrev pub default_ttl : ℕ
default_ttl = 3600 * second

-- A zero field means that the policy does not set it.
pub record Policy : Type 0 where
  pub ttl : ℕ
  pub max_ttl : ℕ
  pub max_reads : ℕ

unfoldable pub enabled : Policy → Bool
enabled p = ltb 0 p.ttl

-- `none` is the refusal of a request above the ceiling.
unfoldable pub resolve_ttl : Policy → ℕ → Option ℕ
resolve_ttl p requested =
    let ttl = if leb p.ttl 0 then default_ttl else p.ttl in
    let ceiling = if leb p.max_ttl 0 then ttl else p.max_ttl in
    if leb requested 0 then some ttl else if ltb ceiling requested then none else some requested

pub record State : Type 0 where
  pub expires_at : ℕ
  pub max_reads : ℕ
  pub reads_used : ℕ

-- The reads left, and whether the lease is capped at all.
unfoldable pub remaining : State → ℕ × Bool
remaining s = if leb s.max_reads 0 then (0, false) else (s.max_reads - s.reads_used, true)

pub data Decision : Type 0 where
  issue consume supersede : Decision
  refuse : Decision

-- The second result of Evaluate, without its wording.
pub data Reason : Type 0 where
  no_reason : Reason
  secret_expired : ℕ → Reason
  reads_spent : ℕ → ℕ → Reason

pub record Request : Type 0 where
  pub policy : Policy
  pub existing : Option State
  pub secret_expires_at : Option ℕ
  pub now : ℕ

-- `t.After(now)`.
abbrev pub after : ℕ → ℕ → Bool
after t now = ltb now t

-- The checks on the requester's own lease.
evaluate_lease : Option State → ℕ → Decision × Reason
unfolding remaining
evaluate_lease none now = (issue, no_reason)
evaluate_lease (some s) now =
    if not (after s.expires_at now)
    then (supersede, no_reason)
    else if (remaining s).1 && leb (remaining s).0 0
    then (refuse, reads_spent s.max_reads s.expires_at)
    else (consume, no_reason)

-- The checks from the secret's own expiry on.
evaluate_expiry : Option ℕ → Option State → ℕ → Decision × Reason
unfolding evaluate_lease
evaluate_expiry none existing now = evaluate_lease existing now
evaluate_expiry (some t) existing now =
    if not (after t now) then (refuse, secret_expired t) else evaluate_lease existing now

unfoldable pub evaluate : Request → Decision × Reason
unfolding evaluate_expiry enabled
evaluate r =
    if not (enabled r.policy)
    then (consume, no_reason)
    else evaluate_expiry r.secret_expires_at r.existing r.now
