-- ===== src/Lease/Read.antt =====
-- internal/store/leases.go: the policy on a secret row and the transaction that serves one
-- governed read. A failed transaction leaves the table as it was.
use maintainerd_secret.Base.{
  ℕ, ◌+◌, ◌*◌, Bool, true, false, ◌&&◌, not, Option, none, some, String, ltb, ◌==◌, str_eq,
  if◌then◌else◌, is_null, AppError, conflict, validation, internal,
}
use maintainerd_secret.Lease.{
  Policy, State, Request, Decision, Reason, issue, consume, supersede, refuse, secret_expired,
  reads_spent, second, resolve_ttl, evaluate,
}
use maintainerd_secret.Lease.Rows.{
  LeaseRow, LeaseTable, get_live, create, consume_lease, revoke, revoke_for_secret,
}

-- SecretLeasePolicy: seconds, as the columns hold them.
pub record SecretLeasePolicy : Type 0 where
  pub ttl_seconds : Option ℕ
  pub max_ttl_seconds : Option ℕ
  pub max_reads : Option ℕ

-- The columns of a row of `secrets` that leases depend on.
pub record SecretRow : Type 0 where
  pub tenant_id : ℕ
  pub secret_id : ℕ
  pub lease : SecretLeasePolicy
  pub expires_at : Option ℕ

abbrev or_zero : Option ℕ → ℕ
or_zero none = 0
or_zero (some n) = n

unfoldable pub policy_enabled : SecretLeasePolicy → Bool
policy_enabled p = ltb 0 (or_zero p.ttl_seconds)

unfoldable pub to_lease_policy : SecretLeasePolicy → Policy
to_lease_policy p = record {
  ttl = or_zero p.ttl_seconds * second;
  max_ttl = or_zero p.max_ttl_seconds * second;
  max_reads = or_zero p.max_reads;
}

abbrev pub min_lease_ttl : ℕ
min_lease_ttl = 60 * second

abbrev pub max_lease_ttl : ℕ
max_lease_ttl = 30 * (24 * (3600 * second))

abbrev pub max_lease_reads : ℕ
max_lease_reads = 1_048_576

valid_max_ttl : ℕ → Option ℕ → Bool
valid_max_ttl ttl none = true
valid_max_ttl ttl (some m) =
    if ltb (m * second) ttl then false else not (ltb max_lease_ttl (m * second))

valid_max_reads : Option ℕ → Bool
valid_max_reads none = true
valid_max_reads (some n) = if ltb n 1 then false else not (ltb max_lease_reads n)

-- Whether validateLeasePolicy accepts the policy.
unfoldable pub validate_lease_policy : SecretLeasePolicy → Bool
unfolding valid_max_ttl valid_max_reads
validate_lease_policy p = elim p.ttl_seconds [
  | none ↦ is_null p.max_ttl_seconds && is_null p.max_reads
  | some s ↦
      if ltb (s * second) min_lease_ttl
      then false
      else if ltb max_lease_ttl (s * second)
      then false
      else if valid_max_ttl (s * second) p.max_ttl_seconds
      then valid_max_reads p.max_reads
      else false
]

-- The service's clock and the database's now().
pub record Clock : Type 0 where
  pub app_now : ℕ
  pub db_now : ℕ

-- Who reads what.
pub record Caller : Type 0 where
  pub requester : String
  pub requester_kind : String
  pub resource_mrn : String
  pub requested_ttl : ℕ

pub record LeaseDecision : Type 0 where
  pub governed : Bool
  pub lease : Option LeaseRow
  pub issued : Bool

-- How a read ends: served, refused by the lease, or failed.
pub data Outcome (A : Type 0) : Type 0 where
  served : A → Outcome A
  refused : Reason → Outcome A
  failed : AppError → Outcome A

unfoldable pub to_state : Option LeaseRow → Option State
to_state none = none
to_state (some r) = some (record {
  expires_at = r.expires_at;
  max_reads = or_zero r.max_reads;
  reads_used = r.reads_used;
})

abbrev pub default_requester_kind : String → String
default_requester_kind kind = if str_eq kind "" then "service" else kind

-- The row that an issue inserts; the table gives it its id.
unfoldable pub new_lease : Clock → SecretRow → Caller → ℕ → LeaseRow
new_lease c s who ttl = record {
  lease_id = 0;
  tenant_id = s.tenant_id;
  secret_id = s.secret_id;
  resource_mrn = who.resource_mrn;
  requester = who.requester;
  requester_kind = default_requester_kind who.requester_kind;
  issued_at = c.db_now;
  expires_at = c.app_now + ttl;
  max_reads = s.lease.max_reads;
  reads_used = 0;
  last_read_at = none;
  revoked_at = none;
  revoke_reason = "";
}

-- The refusal when the update of ConsumeSecretLease changed no row.
late_refusal : LeaseRow → Reason
late_refusal r = elim r.max_reads [
  | some cap ↦ reads_spent cap r.expires_at
  | none ↦ secret_expired r.expires_at
]

-- The common end of the branches: consume one read of the row.
unfoldable pub spend : Clock → LeaseRow → Bool → LeaseTable → Outcome LeaseDecision × LeaseTable
unfolding late_refusal
spend c r issued t = elim (consume_lease r.lease_id c.db_now t) [
  | none ↦ (failed internal, t)
  | some (n, t') ↦ if n == 0 then (refused (late_refusal r), t) else (
    served (record {
      governed = true;
      lease = some (record r { reads_used = r.reads_used + 1 });
      issued = issued;
    }),
    t',
  )
]

unfoldable pub issue_lease :
    Clock → SecretRow → Caller → ℕ → LeaseTable → Outcome LeaseDecision × LeaseTable
issue_lease c s who ttl t = elim (create (new_lease c s who ttl) t) [
  | none ↦ (failed conflict, t)
  | some (row, t') ↦ spend c row true t'
]

-- The zero value that `existing` keeps where no row was read.
abbrev zero_lease : LeaseRow
zero_lease = record {
  lease_id = 0;
  tenant_id = 0;
  secret_id = 0;
  resource_mrn = "";
  requester = "";
  requester_kind = "";
  issued_at = 0;
  expires_at = 0;
  max_reads = none;
  reads_used = 0;
  last_read_at = none;
  revoked_at = none;
  revoke_reason = "";
}

-- The switch on the decision. `Supersede` falls through into `Issue`.
unfoldable pub act :
    Decision × Reason
    → Clock
    → SecretRow
    → Caller
    → ℕ
    → Option LeaseRow
    → LeaseTable
    → Outcome LeaseDecision × LeaseTable
act (refuse, why) c s who ttl existing t = (refused why, t)
act (issue, why) c s who ttl existing t = issue_lease c s who ttl t
act (supersede, why) c s who ttl none t = issue_lease c s who ttl t
act (supersede, why) c s who ttl (some r) t =
    issue_lease c s who ttl (revoke r.lease_id c.db_now "expired" t)
act (consume, why) c s who ttl none t = spend c zero_lease false t
act (consume, why) c s who ttl (some r) t = spend c r false t

-- A transaction that does not serve is rolled back.
unfoldable pub in_tx :
    LeaseTable → Outcome LeaseDecision × LeaseTable → Outcome LeaseDecision × LeaseTable
in_tx t (served d, t') = (served d, t')
in_tx t (refused why, t') = (refused why, t)
in_tx t (failed e, t') = (failed e, t)

-- The transaction of AuthorizeLeasedRead at a granted lifetime.
unfoldable pub read_tx :
    Clock → SecretRow → Caller → ℕ → LeaseTable → Outcome LeaseDecision × LeaseTable
read_tx c s who ttl t =
    let existing = get_live s.tenant_id s.secret_id who.requester t in
    let request : Request = record {
      policy = to_lease_policy s.lease;
      existing = to_state existing;
      secret_expires_at = s.expires_at;
      now = c.app_now;
    } in
    in_tx t (act (evaluate request) c s who ttl existing t)

-- AuthorizeLeasedRead, from the secret row that the address resolved to.
unfoldable pub authorize_leased_read :
    Clock → SecretRow → Caller → LeaseTable → Outcome LeaseDecision × LeaseTable
authorize_leased_read c s who t =
    if not (policy_enabled s.lease)
    then (served (record { governed = false; lease = none; issued = false }), t)
    else elim (resolve_ttl (to_lease_policy s.lease) who.requested_ttl) [
      | none ↦ (failed validation, t)
      | some ttl ↦ read_tx c s who ttl t
    ]

-- SetSecretLeasePolicy, from the resolved secret row on: the row's policy is replaced, and a policy
-- that is not enabled closes the leases under the old one.
unfoldable pub set_secret_lease_policy :
    ℕ → SecretRow → SecretLeasePolicy → LeaseTable → Option (SecretRow × LeaseTable)
set_secret_lease_policy now s p t =
    if not (validate_lease_policy p)
    then none
    else some (
      record s { lease = p },
      if not (policy_enabled p)
          then (revoke_for_secret s.tenant_id s.secret_id now "policy" t).1
          else t,
    )
