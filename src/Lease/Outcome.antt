-- ===== src/Lease/Outcome.antt =====
-- What the decision of internal/lease/lease.go guarantees.
use maintainerd_secret.Base.{ℕ, ◌≤◌, ◌<◌, ◌≡◌, ◌⊎◌, ◌↔◌, Option, none, some, arith}
use maintainerd_secret.Lease.{
  Policy, State, Request, Decision, issue, consume, supersede, refuse, resolve_ttl, evaluate,
}

-- The secret has no expiry of its own, or it lies after `now`.
abbrev pub IsUnexpired : Option ℕ → ℕ → Type 0
IsUnexpired none now = Unit {0}
IsUnexpired (some t) now = now < t

-- The lease is inside its window and, if it is capped, has a read left.
abbrev pub IsUsable : Option State → ℕ → Type 0
IsUsable none now = ⊥
IsUsable (some s) now = (now < s.expires_at) × ((s.max_reads ≡ 0) ⊎ (s.reads_used < s.max_reads))

-- The window of the lease has closed.
abbrev pub IsOver : Option State → ℕ → Type 0
IsOver none now = ⊥
IsOver (some s) now = s.expires_at ≤ now

-- The lease is inside its window and its reads are used up.
abbrev pub IsSpent : Option State → ℕ → Type 0
IsSpent none now = ⊥
IsSpent (some s) now = (now < s.expires_at) × (0 < s.max_reads) × (s.max_reads ≤ s.reads_used)

-- When each decision is prescribed, told by conditions on the request instead of by an order of
-- checks.
abbrev pub Prescribes : Policy → Option State → Option ℕ → ℕ → Decision → Type 0
Prescribes p e t now issue = (0 < p.ttl) × IsUnexpired t now × (e ≡ none)
Prescribes p e t now consume = (p.ttl ≡ 0) ⊎ ((0 < p.ttl) × IsUnexpired t now × IsUsable e now)
Prescribes p e t now supersede = (0 < p.ttl) × IsUnexpired t now × IsOver e now
Prescribes p e t now refuse =
    (0 < p.ttl) × ((¬ IsUnexpired t now) ⊎ (IsUnexpired t now × IsSpent e now))

abbrev pub request : Policy → Option State → Option ℕ → ℕ → Request
request p e t now = record { policy = p; existing = e; secret_expires_at = t; now = now }

evaluate-Prescribes :
    (p : Policy) (e : Option State) (t : Option ℕ) (now : ℕ) (d : Decision)
    → (evaluate (request p e t now)).0 ≡ d
    → Prescribes p e t now d
unfolding evaluate
evaluate-Prescribes p none none now issue h = ground arith
evaluate-Prescribes p none (some t) now _ h = ground arith
evaluate-Prescribes p (some s) none now _ h = ground arith
evaluate-Prescribes p (some s) (some t) now _ h = ground arith
evaluate-Prescribes p _ _ now _ h = ground arith

Prescribes-evaluate :
    (p : Policy) (e : Option State) (t : Option ℕ) (now : ℕ) (d : Decision)
    → Prescribes p e t now d
    → (evaluate (request p e t now)).0 ≡ d
unfolding evaluate
Prescribes-evaluate p none none now issue h = ground arith
Prescribes-evaluate p none (some t) now _ h = ground arith
Prescribes-evaluate p (some s) none now _ h = ground arith
Prescribes-evaluate p (some s) (some t) now _ h = ground arith
Prescribes-evaluate p _ _ now _ h = ground arith

-- The code decides as prescribed, for every request and every decision: it serves exactly when
-- the secret is not governed or the lease is usable, and refuses exactly a dead secret or a spent
-- lease.
pub evaluate_iff :
    (p : Policy) (e : Option State) (t : Option ℕ) (now : ℕ) (d : Decision)
    → ((evaluate (request p e t now)).0 ≡ d) ↔ Prescribes p e t now d
evaluate_iff p e t now d = (evaluate-Prescribes p e t now d, Prescribes-evaluate p e t now d)

-- A lifetime is positive, and is the requested one or, for a request of zero, the default.
pub resolve_ttl_bounds :
    (p : Policy) (requested : ℕ) {d : ℕ}
    → 0 < p.ttl
    → (p.max_ttl ≡ 0) ⊎ (p.ttl ≤ p.max_ttl)
    → resolve_ttl p requested ≡ some d
    → (0 < d)
      × ((d ≤ p.ttl) ⊎ (d ≤ p.max_ttl))
      × ((d ≡ requested) ⊎ ((requested ≡ 0) × (d ≡ p.ttl)))
unfolding resolve_ttl
resolve_ttl_bounds p requested h m e = ground arith
