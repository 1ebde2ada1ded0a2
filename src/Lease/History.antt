-- ===== src/Lease/History.antt =====
-- Histories of calls of internal/store/leases.go on one lease table.
use maintainerd_secret.Base.{
  ℕ, ◌+◌, ◌≡◌, ◌<◌, refl, ap, ◌∙◌, ltb, ◌⊎◌, inl, inr, Bool, true, false, Option, none, some, List,
  [], ◌∷◌, String, arith, ◌==◌, if◌then◌else◌, Bool-cases, Option-cases, count_where,
}
use maintainerd_secret.Lease.{Decision, Reason, issue, consume, supersede, refuse, resolve_ttl}
use maintainerd_secret.Lease.Rows.{
  LeaseRow, LeaseTable, create, consume_lease, revoke, revoke_for_secret,
}
use maintainerd_secret.Lease.Accounting.{
  IsTable, total_reads, close-IsTable, consume_lease-IsTable, create-IsTable, ChargesOne, SameReads,
  close-SameReads, consume_lease-ChargesOne, create-SameReads,
}
use maintainerd_secret.Lease.Read.{
  Clock, SecretRow, SecretLeasePolicy, Caller, LeaseDecision, Outcome, served, refused, failed,
  spend, issue_lease, act, in_tx, read_tx, new_lease, authorize_leased_read,
  set_secret_lease_policy, policy_enabled, to_lease_policy, validate_lease_policy,
}

-- One read more in the table, charged to the lease of the decision alone.
abbrev pub ChargesRead : LeaseTable → LeaseDecision → LeaseTable → Type 0
ChargesRead t d t' =
    IsTable t'
    × (total_reads t' ≡ total_reads t + 1)
    × (d.governed ≡ true)
    × ((r : LeaseRow) × (d.lease ≡ some r) × ChargesOne r.lease_id t t')

-- A read that is served inside the transaction charges one read.
abbrev pub Charges : LeaseTable → Outcome LeaseDecision × LeaseTable → Type 0
Charges t (served d, t') = ChargesRead t d t'
Charges t (refused why, t') = Unit {0}
Charges t (failed e, t') = Unit {0}

ChargesOne-after :
    (id : ℕ) (t₀ t t' : LeaseTable) → SameReads t₀ t → ChargesOne id t t' → ChargesOne id t₀ t'
ChargesOne-after id t₀ t t' same (one, others) =
    (one ∙ ap (λ (k : ℕ). k + 1) (same id), λ other ne. others other ne ∙ same other)

spend-Charges :
    (c : Clock) (r : LeaseRow) (issued : Bool) (t t₀ : LeaseTable)
    → IsTable t
    → total_reads t ≡ total_reads t₀
    → SameReads t₀ t
    → Charges t₀ (spend c r issued t)
unfolding spend
spend-Charges c r issued t t₀ v same each =
    elim (Option-cases (consume_lease r.lease_id c.db_now t)) [
      | inl e ↦ rw (e, spend) tt
      | inr ((n, t'), e) ↦
          let (v', total, most) = consume_lease-IsTable r.lease_id c.db_now n t t' v e in
          elim (Bool-cases (n == 0)) [
            | inl z ↦ rw (e, spend) (rw z tt)
            | inr nz ↦
                rw (e, spend)
                  (rw nz (
                    v',
                    ground arith,
                    refl,
                    (
                      record r { reads_used = r.reads_used + 1 },
                      refl,
                      ChargesOne-after r.lease_id t₀ t t' each
                          (consume_lease-ChargesOne r.lease_id c.db_now n t t' v e nz),
                    ),
                  ))
          ]
    ]

issue_lease-Charges :
    (c : Clock) (s : SecretRow) (who : Caller) (ttl : ℕ) (t t₀ : LeaseTable)
    → IsTable t
    → total_reads t ≡ total_reads t₀
    → SameReads t₀ t
    → Charges t₀ (issue_lease c s who ttl t)
unfolding issue_lease new_lease
issue_lease-Charges c s who ttl t t₀ v same each =
    elim (Option-cases (create (new_lease c s who ttl) t)) [
      | inl e ↦ rw (e, issue_lease) tt
      | inr ((row, t'), e) ↦
          let (v', total) = create-IsTable (new_lease c s who ttl) row t t' v refl e in
          rw (e, issue_lease)
            (spend-Charges c row true t' t₀ v' (omega arith)
              (λ id. create-SameReads (new_lease c s who ttl) row t t' refl e id ∙ each id))
    ]

revoke-IsTable :
    (id now : ℕ) (reason : String) (t : LeaseTable)
    → IsTable t
    → IsTable (revoke id now reason t) × (total_reads (revoke id now reason t) ≡ total_reads t)
unfolding revoke
revoke-IsTable id now reason t v = close-IsTable _ now reason t v

revoke-SameReads :
    (id now : ℕ) (reason : String) (t : LeaseTable) → SameReads t (revoke id now reason t)
unfolding revoke
revoke-SameReads id now reason t = close-SameReads _ now reason t

act-Charges :
    (d : Decision) (why : Reason) (c : Clock) (s : SecretRow) (who : Caller) (ttl : ℕ)
    (existing : Option LeaseRow) (t : LeaseTable)
    → IsTable t
    → Charges t (act (d, why) c s who ttl existing t)
unfolding act
act-Charges refuse why c s who ttl existing t v = tt
act-Charges issue why c s who ttl existing t v =
    issue_lease-Charges c s who ttl t t v refl (λ id. refl)
act-Charges supersede why c s who ttl none t v =
    issue_lease-Charges c s who ttl t t v refl (λ id. refl)
act-Charges supersede why c s who ttl (some r) t v =
    let (v', total) = revoke-IsTable r.lease_id c.db_now "expired" t v in
    issue_lease-Charges c s who ttl (revoke r.lease_id c.db_now "expired" t) t v' total
      (revoke-SameReads r.lease_id c.db_now "expired" t)
act-Charges consume why c s who ttl none t v = spend-Charges c _ false t t v refl (λ id. refl)
act-Charges consume why c s who ttl (some r) t v = spend-Charges c r false t t v refl (λ id. refl)

-- A policy governs a secret when it has a lifetime that is positive.
abbrev pub Governs : SecretLeasePolicy → Type 0
Governs p = (ttl : ℕ) × (p.ttl_seconds ≡ some ttl) × (0 < ttl)

-- A governed read that is served charges one lease; every other read leaves the very same table, and
-- an ungoverned read is served.
abbrev pub Accounts : SecretLeasePolicy → LeaseTable → Outcome LeaseDecision × LeaseTable → Type 0
Accounts p t (served d, t') =
    (Governs p × ChargesRead t d t') ⊎ ((¬ Governs p) × (t' ≡ t) × (d.governed ≡ false))
Accounts p t (refused why, t') = Governs p × (t' ≡ t)
Accounts p t (failed e, t') = Governs p × (t' ≡ t)

in_tx-Accounts :
    (p : SecretLeasePolicy) (t : LeaseTable) (o : Outcome LeaseDecision) (t' : LeaseTable)
    → Governs p
    → Charges t (o, t')
    → Accounts p t (in_tx t (o, t'))
unfolding in_tx
in_tx-Accounts p t (served d) t' g h = inl (g, h)
in_tx-Accounts p t (refused why) t' g h = (g, refl)
in_tx-Accounts p t (failed e) t' g h = (g, refl)

policy_enabled-Governs : (p : SecretLeasePolicy) → policy_enabled p ≡ true → Governs p
unfolding policy_enabled
policy_enabled-Governs p h = elim (Option-cases p.ttl_seconds) [
  | inl e ↦ absurd (let f : false ≡ true = (rw e at h) in cc)
  | inr (ttl, e) ↦ (ttl, e, let f : ltb 0 ttl ≡ true = (rw e at h) in ground arith)
]

policy_enabled-no_lease : (p : SecretLeasePolicy) → policy_enabled p ≡ false → ¬ Governs p
unfolding policy_enabled
policy_enabled-no_lease p h (ttl, e, positive) =
    let f : ltb 0 ttl ≡ false = (rw e at h) in absurd (ground arith)

-- A read of a secret whose policy has a positive lifetime charges, when it is served, one read to the
-- lease that it returns and none to another lease, and keeps the table well formed; when it is refused or
-- fails the table is as it was. A read of any other secret is served and leaves the table as it was.
pub authorize_leased_read-Accounts :
    (c : Clock) (s : SecretRow) (who : Caller) (t : LeaseTable)
    → IsTable t
    → Accounts s.lease t (authorize_leased_read c s who t)
unfolding authorize_leased_read read_tx
authorize_leased_read-Accounts c s who t v = elim (Bool-cases (policy_enabled s.lease)) [
  | inr off ↦ rw off (inr (policy_enabled-no_lease s.lease off, refl, refl))
  | inl on ↦
      let g = policy_enabled-Governs s.lease on in
      rw on (elim (Option-cases (resolve_ttl (to_lease_policy s.lease) who.requested_ttl)) [
        | inl e ↦ rw (e, authorize_leased_read) (g, refl)
        | inr (ttl, e) ↦ rw e (in_tx-Accounts s.lease t _ _ g (act-Charges _ _ c s who ttl _ t v))
      ])
]

-- A call that changes the lease table.
pub data Call : Type 0 where
  reads_secret : Clock → SecretRow → Caller → Call
  sets_policy : ℕ → SecretRow → SecretLeasePolicy → Call
  revokes_all : ℕ → SecretRow → Call

abbrev after_policy : LeaseTable → Option (SecretRow × LeaseTable) → LeaseTable
after_policy t none = t
after_policy t (some (s, t')) = t'

-- The table after a call. RevokeSecretLeases closes the secret's leases as `explicit`.
unfoldable pub step : LeaseTable → Call → LeaseTable
step t (reads_secret c s who) = (authorize_leased_read c s who t).1
step t (sets_policy now s p) = after_policy t (set_secret_lease_policy now s p t)
step t (revokes_all now s) = (revoke_for_secret s.tenant_id s.secret_id now "explicit" t).1

unfoldable pub run : LeaseTable → List Call → LeaseTable
run t [] = t
run t (c ∷ cs) = run (step t c) cs

-- 1 where the call is a read that is served under a lease.
governed_read : LeaseTable → Call → ℕ
governed_read t (reads_secret c s who) = elim (authorize_leased_read c s who t).0 [
  | served d ↦ if d.governed then 1 else 0
  | refused why ↦ 0
  | failed e ↦ 0
]
governed_read t (sets_policy now s p) = 0
governed_read t (revokes_all now s) = 0

-- The reads that a history serves under leases.
unfoldable pub governed_reads : LeaseTable → List Call → ℕ
unfolding governed_read
governed_reads t [] = 0
governed_reads t (c ∷ cs) = governed_read t c + governed_reads (step t c) cs

read-IsTable :
    (p : SecretLeasePolicy) (t : LeaseTable) (o : Outcome LeaseDecision) (t' : LeaseTable)
    → IsTable t
    → Accounts p t (o, t')
    → IsTable t'
      × (total_reads t'
          ≡ total_reads t
            + (elim o [ served d ↦ if d.governed then 1 else 0 | refused why ↦ 0 | failed e ↦ 0 ]))
read-IsTable p t (served d) t' v (inl (on, (v', total, g, charged))) = (v', rw g total)
read-IsTable p t (served d) t' v (inr (off, same, g)) = rw (same, g) (v, omega arith)
read-IsTable p t (refused why) t' v (on, h) = rw h (v, omega arith)
read-IsTable p t (failed e) t' v (on, h) = rw h (v, omega arith)

revoke_for_secret-IsTable :
    (tenant secret now : ℕ) (reason : String) (t : LeaseTable)
    → IsTable t
    → let t' = (revoke_for_secret tenant secret now reason t).1 in
      IsTable t' × (total_reads t' ≡ total_reads t)
unfolding revoke_for_secret
revoke_for_secret-IsTable tenant secret now reason t v = close-IsTable _ now reason t v

policy-IsTable :
    (now : ℕ) (s : SecretRow) (p : SecretLeasePolicy) (t : LeaseTable)
    → IsTable t
    → let t' = after_policy t (set_secret_lease_policy now s p t) in
      IsTable t' × (total_reads t' ≡ total_reads t)
unfolding set_secret_lease_policy
policy-IsTable now s p t v = elim (Bool-cases (validate_lease_policy p)) [
  | inr bad ↦ rw bad (v, refl)
  | inl good ↦ rw good (elim (Bool-cases (policy_enabled p)) [
    | inl on ↦ rw on (v, refl)
    | inr off ↦ rw off (revoke_for_secret-IsTable s.tenant_id s.secret_id now "policy" t v)
  ])
]

step-IsTable :
    (t : LeaseTable) (c : Call)
    → IsTable t
    → IsTable (step t c) × (total_reads (step t c) ≡ total_reads t + governed_read t c)
unfolding step governed_read
step-IsTable t (reads_secret c s who) v =
    read-IsTable s.lease t _ _ v (authorize_leased_read-Accounts c s who t v)
step-IsTable t (sets_policy now s p) v =
    let (v', total) = policy-IsTable now s p t v in (v', omega arith)
step-IsTable t (revokes_all now s) v =
    let (v', total) = revoke_for_secret-IsTable s.tenant_id s.secret_id now "explicit" t v in
    (v', omega arith)

abbrev pub empty_table : LeaseTable
empty_table = record { rows = []; next_id = 1 }

pub empty-IsTable : IsTable empty_table
unfolding count_where
empty-IsTable = record { falls = tt; capped = tt; one_live = λ secret who. omega arith }

total_reads-empty : total_reads empty_table ≡ 0
unfolding total_reads
total_reads-empty = refl

run-IsTable :
    (t : LeaseTable) (cs : List Call)
    → IsTable t
    → IsTable (run t cs) × (total_reads (run t cs) ≡ total_reads t + governed_reads t cs)
unfolding run governed_reads
run-IsTable t [] v = (v, omega arith)
run-IsTable t (c ∷ cs) v =
    let (v', total) = step-IsTable t c v in
    let (v'', total') = run-IsTable (step t c) cs v' in (v'', omega arith)

-- After any history of reads, policy changes and revocations, lease ids are distinct, each
-- requester holds at most one live lease on a secret, no lease has served more reads than its cap,
-- and the reads charged to all leases are exactly the governed reads that were served.
pub run_accounts :
    (cs : List Call)
    → IsTable (run empty_table cs)
      × (total_reads (run empty_table cs) ≡ governed_reads empty_table cs)
run_accounts cs =
    let (v, total) = run-IsTable empty_table cs empty-IsTable in
    (v, omega (arith, total_reads-empty))
