-- ===== src/Lease/Bounds.antt =====
-- What a lease policy of internal/store/leases.go bounds, and what removing it does.
use maintainerd_secret.Base.{
  ℕ, ◌≤◌, ◌<◌, ◌≡◌, refl, ◌⊎◌, inl, inr, true, false, Option, none, some, List, [], ◌∷◌, arith,
  update_where, count_where, Bool-cases, String,
}
use maintainerd_secret.Lease.{resolve_ttl}
use maintainerd_secret.Lease.Rows.{LeaseRow, LeaseTable, of_secret, close, revoke_for_secret}
use maintainerd_secret.Lease.Read.{
  SecretRow, SecretLeasePolicy, policy_enabled, to_lease_policy, validate_lease_policy,
  max_lease_ttl, min_lease_ttl, set_secret_lease_policy,
}

resolve_lifetime :
    (p : SecretLeasePolicy) (a b : Option ℕ) (requested d : ℕ)
    → p.ttl_seconds ≡ a
    → p.max_ttl_seconds ≡ b
    → validate_lease_policy p ≡ true
    → policy_enabled p ≡ true
    → resolve_ttl (to_lease_policy p) requested ≡ some d
    → (0 < d)
      × (d ≤ max_lease_ttl)
      × ((0 < requested) ⊎ (min_lease_ttl ≤ d))
      × ((0 < requested → d ≡ requested))
unfolding validate_lease_policy policy_enabled to_lease_policy resolve_ttl
resolve_lifetime p none none requested d ha hb v on e = ground arith
resolve_lifetime p none (some m) requested d ha hb v on e = ground arith
resolve_lifetime p (some s) none requested d ha hb v on e = ground arith
resolve_lifetime p (some s) (some m) requested d ha hb v on e = ground arith

-- Under an enabled policy that validation accepts, every lifetime that is granted is positive and
-- at most 30 days; a request is granted to the letter, and without one the lifetime is at least a
-- minute.
pub lifetime_bounds :
    (p : SecretLeasePolicy) (requested d : ℕ)
    → validate_lease_policy p ≡ true
    → policy_enabled p ≡ true
    → resolve_ttl (to_lease_policy p) requested ≡ some d
    → (0 < d)
      × (d ≤ max_lease_ttl)
      × ((0 < requested) ⊎ (min_lease_ttl ≤ d))
      × ((0 < requested → d ≡ requested))
lifetime_bounds p requested d =
    resolve_lifetime p p.ttl_seconds p.max_ttl_seconds requested d refl refl

close_all :
    (tenant secret now : ℕ) (reason : String) (rs : List LeaseRow)
    → count_where
        (of_secret tenant secret)
        (update_where (of_secret tenant secret) (close now reason) rs)
      ≡ 0
unfolding count_where update_where
close_all tenant secret now reason [] = refl
close_all tenant secret now reason (r ∷ rs) = elim (Bool-cases (of_secret tenant secret r)) [
  | inl e ↦ rw e (ground (arith, close_all tenant secret now reason rs))
  | inr e ↦ rw e (rw e (close_all tenant secret now reason rs))
]

-- Removing a secret's policy leaves no live lease on the secret, so a policy that is set later never
-- resumes an allowance of the old one. The row then carries the new policy.
pub policy_removal_closes :
    (now : ℕ) (s s' : SecretRow) (p : SecretLeasePolicy) (t t' : LeaseTable)
    → policy_enabled p ≡ false
    → set_secret_lease_policy now s p t ≡ some (s', t')
    → (count_where (of_secret s.tenant_id s.secret_id) t'.rows ≡ 0) × (s'.lease ≡ p)
unfolding set_secret_lease_policy revoke_for_secret
policy_removal_closes now s s' p t t' off e =
    let none_live = close_all s.tenant_id s.secret_id now "policy" t.rows in
    (ground (arith, none_live), ground arith)
