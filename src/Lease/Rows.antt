-- ===== src/Lease/Rows.antt =====
-- The table secret_leases (migrations/00014_create_secret_leases.sql) and the statements of
-- internal/storage/queries/secret_lease.sql that change it. `created_at` and `updated_at` are left
-- out: no decision reads them. New rows stand at the front.
use maintainerd_secret.Base.{
  ℕ, suc, ◌+◌, Bool, true, ◌&&◌, Option, none, some, List, ◌∷◌, String, ltb, leb, ◌==◌, str_eq,
  if◌then◌else◌, find_first, is_null, update_where, count_where,
}

pub record LeaseRow : Type 0 where
  pub lease_id : ℕ
  pub tenant_id : ℕ
  pub secret_id : ℕ
  pub resource_mrn : String
  pub requester : String
  pub requester_kind : String
  pub issued_at : ℕ
  pub expires_at : ℕ
  pub max_reads : Option ℕ
  pub reads_used : ℕ
  pub last_read_at : Option ℕ
  pub revoked_at : Option ℕ
  pub revoke_reason : String

pub record LeaseTable : Type 0 where
  pub rows : List LeaseRow
  pub next_id : ℕ  -- the sequence behind lease_id

-- The largest value of an INT column.
abbrev pub int4_max : ℕ
int4_max = 2_147_483_647

abbrev pub is_live : LeaseRow → Bool
is_live r = is_null r.revoked_at

abbrev pub held_by : ℕ → String → LeaseRow → Bool
held_by secret requester r = (r.secret_id == secret && str_eq r.requester requester) && is_live r

-- GetLiveSecretLeaseForUpdate.
unfoldable pub get_live : ℕ → ℕ → String → LeaseTable → Option LeaseRow
get_live tenant secret requester t =
    find_first (λ r. r.tenant_id == tenant && held_by secret requester r) t.rows

-- CreateSecretLease. `none` is a violation of the index uq_secret_leases_live.
unfoldable pub create : LeaseRow → LeaseTable → Option (LeaseRow × LeaseTable)
create new t =
    let row = record new { lease_id = t.next_id } in
    elim (find_first (held_by new.secret_id new.requester) t.rows) [
      | some _ ↦ none
      | none ↦ some (row, record t { rows = row ∷ t.rows; next_id = suc t.next_id })
    ]

abbrev pub under_cap : Option ℕ → ℕ → Bool
under_cap none used = true
under_cap (some cap) used = ltb used cap

-- The WHERE clause of ConsumeSecretLease.
abbrev pub consumable : ℕ → ℕ → LeaseRow → Bool
consumable id now r =
    (r.lease_id == id && is_live r) && (ltb now r.expires_at && under_cap r.max_reads r.reads_used)

abbrev pub charge : ℕ → LeaseRow → LeaseRow
charge now r = record r { reads_used = r.reads_used + 1; last_read_at = some now }

-- ConsumeSecretLease, with the number of rows that it changed. `none` is the out-of-range error of
-- an INT column at its maximum.
unfoldable pub consume_lease : ℕ → ℕ → LeaseTable → Option (ℕ × LeaseTable)
consume_lease id now t = elim (find_first (consumable id now) t.rows) [
  | none ↦ some (0, t)
  | some r ↦
      if leb int4_max r.reads_used
      then none
      else some (1, record t { rows = update_where (consumable id now) (charge now) t.rows })
]

abbrev pub close : ℕ → String → LeaseRow → LeaseRow
close now reason r = record r { revoked_at = some now; revoke_reason = reason }

-- RevokeSecretLease.
unfoldable pub revoke : ℕ → ℕ → String → LeaseTable → LeaseTable
revoke id now reason t = record t {
  rows = update_where (λ r. r.lease_id == id && is_live r) (close now reason) t.rows;
}

abbrev pub of_secret : ℕ → ℕ → LeaseRow → Bool
of_secret tenant secret r = (r.tenant_id == tenant && r.secret_id == secret) && is_live r

-- RevokeSecretLeasesForSecret, with the number of rows that it changed.
unfoldable pub revoke_for_secret : ℕ → ℕ → ℕ → String → LeaseTable → ℕ × LeaseTable
revoke_for_secret tenant secret now reason t = (
  count_where (of_secret tenant secret) t.rows,
  record t { rows = update_where (of_secret tenant secret) (close now reason) t.rows },
)
