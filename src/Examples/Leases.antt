-- ===== src/Examples/Leases.antt =====
-- Examples for internal/lease and internal/store/leases.go.
use maintainerd_secret.Base.{
  ℕ, ◌*◌, ◌≤◌, ◌<◌, ◌≡◌, refl, ◌⊎◌, ◌↔◌, none, some, List, [], ◌∷◌, count_where, find_first,
  update_where,
}
use maintainerd_secret.Lease.{Policy, State, refuse, second, evaluate, resolve_ttl}
use maintainerd_secret.Lease.Rows.{
  of_secret, get_live, create, consume_lease, revoke, revoke_for_secret,
}
use maintainerd_secret.Lease.Read.{
  Clock, SecretRow, SecretLeasePolicy, Caller, authorize_leased_read, set_secret_lease_policy,
  policy_enabled, to_lease_policy, validate_lease_policy, max_lease_ttl, min_lease_ttl, act,
  read_tx, in_tx, spend, issue_lease, new_lease, to_state,
}
use maintainerd_secret.Lease.Outcome.{Prescribes, request, evaluate_iff}
use maintainerd_secret.Lease.Bounds.{lifetime_bounds, policy_removal_closes}
use maintainerd_secret.Lease.Accounting.{IsTable, total_reads}
use maintainerd_secret.Lease.History.{
  Accounts, authorize_leased_read-Accounts, Call, reads_secret, sets_policy, run, step,
  governed_reads, empty_table, empty-IsTable, run_accounts,
}

abbrev two_reads : SecretLeasePolicy
two_reads = record { ttl_seconds = some 60; max_ttl_seconds = some 600; max_reads = some 2 }

abbrev no_policy : SecretLeasePolicy
no_policy = record { ttl_seconds = none; max_ttl_seconds = none; max_reads = none }

abbrev password : SecretRow
password = record { tenant_id = 1; secret_id = 7; lease = two_reads; expires_at = none }

abbrev worker : Caller
worker = record {
  requester = "worker";
  requester_kind = "";
  resource_mrn = "mrn:secret:acme:web:secret/prod/DB";
  requested_ttl = 0;
}

abbrev at_seconds : ℕ → Clock
at_seconds n = record { app_now = n * second; db_now = n * second }

abbrev reads_at : ℕ → Call
reads_at n = reads_secret (at_seconds n) password worker

-- Two reads, a refused third, a renewal after the window, and the removal of the policy.
abbrev day : List Call
day = reads_at 10 ∷ reads_at 20 ∷ reads_at 30 ∷ reads_at 80 ∷ sets_policy 90 password no_policy ∷ []

day_serves_three : governed_reads empty_table day ≡ 3
unfolding governed_reads step authorize_leased_read read_tx in_tx act evaluate spend issue_lease
    create consume_lease get_live revoke revoke_for_secret to_state new_lease find_first
    update_where count_where policy_enabled to_lease_policy resolve_ttl set_secret_lease_policy
    validate_lease_policy
day_serves_three = refl

run_accounts_example :
    IsTable (run empty_table day)
    × (total_reads (run empty_table day) ≡ governed_reads empty_table day)
run_accounts_example = run_accounts day

authorize_leased_read-Accounts_example :
    Accounts two_reads empty_table
      (authorize_leased_read (at_seconds 10) password worker empty_table)
authorize_leased_read-Accounts_example =
    authorize_leased_read-Accounts (at_seconds 10) password worker empty_table empty-IsTable

abbrev spent_lease : State
spent_lease = record { expires_at = 100; max_reads = 2; reads_used = 2 }

abbrev minute : Policy
minute = record { ttl = 60; max_ttl = 0; max_reads = 2 }

evaluate_iff_example :
    ((evaluate (request minute (some spent_lease) none 50)).0 ≡ refuse)
    ↔ Prescribes minute (some spent_lease) none 50 refuse
evaluate_iff_example = evaluate_iff minute (some spent_lease) none 50 refuse

lifetime_bounds_example :
    (0 < 120 * second)
    × (120 * second ≤ max_lease_ttl)
    × ((0 < 120 * second) ⊎ (min_lease_ttl ≤ 120 * second))
    × ((0 < 120 * second → ◌≡◌ {A = ℕ} (120 * second) (120 * second)))
unfolding validate_lease_policy policy_enabled to_lease_policy resolve_ttl
lifetime_bounds_example = lifetime_bounds two_reads (120 * second) (120 * second) refl refl refl

policy_removal_closes_example :
    (count_where (of_secret 1 7) (run empty_table day).rows ≡ 0)
    × (◌≡◌ {A = SecretLeasePolicy} no_policy no_policy)
unfolding governed_reads run step authorize_leased_read read_tx in_tx act evaluate spend issue_lease
    create consume_lease get_live revoke revoke_for_secret to_state new_lease find_first
    update_where count_where policy_enabled to_lease_policy resolve_ttl set_secret_lease_policy
    validate_lease_policy
policy_removal_closes_example =
    policy_removal_closes 90 password (record password { lease = no_policy }) no_policy
      (run empty_table (reads_at 10 ∷ reads_at 20 ∷ reads_at 30 ∷ reads_at 80 ∷ [])) _ refl refl
