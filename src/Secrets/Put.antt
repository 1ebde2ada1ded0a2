-- ===== src/Secrets/Put.antt =====
-- What PutSecret leaves in the tables (internal/store/secrets.go).
use maintainerd_secret.Base.{
  ℕ, suc, ◌+◌, ◌≡◌, refl, sym, ◌∙◌, subst, inl, inr, Bool, false, none, some, ◌∷◌, String, arith,
  find_first, update_where, Option-cases, find_first_passes, err, ok, OnOk, OnOk-bind, elim-cases,
  not_found,
}
use maintainerd_secret.Crypto.Aad.{Bytes}
use maintainerd_secret.Crypto.{Suite, Envelope, seal}
use maintainerd_secret.Secrets.Rows.{
  SecretRow, VersionRow, Vault, Address, stands_at, get_by_address, latest, get_version,
  create_version, advances, advance, set_current_version,
}
use maintainerd_secret.Secrets.{
  Service, PutResult, Surroundings, identity, effective_keep_versions, next_version, finish_put,
  advance_to, new_version, write_version,
}
use maintainerd_secret.Secrets.Order.{has_id, find_first-has_id}
use maintainerd_secret.Secrets.Prune.{IsVault, prune_rows_head}
use maintainerd_secret.Secrets.Writes.{latest_head, seal_positive, still_at, committed}

module _ (c : Suite) (svc : Service) (a : Address) (w : Surroundings) (value_type : String)
    (text : Bytes) (s : SecretRow) where
  -- The secret is found at its address, and its latest version is the new one, one above the last.
  pub record IsWritten (out : Vault × PutResult) : Type 0 where
    pub vault_ok : IsVault out.0
    pub raised : out.1.version ≡ s.current_version + 1
    pub changed : out.1.unchanged ≡ false
    pub row : SecretRow
    pub found : get_by_address a out.0 ≡ some row
    pub row_uuid : row.secret_uuid ≡ s.secret_uuid
    pub new : VersionRow
    pub is_latest : latest row.secret_id out.0.versions ≡ some new
    pub new_number : new.version ≡ out.1.version
    pub new_type : new.value_type ≡ value_type
    pub is_sealed :
        seal c svc.ring.active (identity a s out.1.version) text w.draw ≡ ok new.envelope

  module _ (v : Vault) (n : ℕ) (env : Envelope) (created : Bool) (ok_v : IsVault v)
      (at : get_by_address a v ≡ some s) (number : n ≡ s.current_version + 1)
      (sealed_as : seal c svc.ring.active (identity a s n) text w.draw ≡ ok env) where
    row_of : VersionRow
    row_of = record (new_version s n value_type env) { version_id = v.next_version_id }

    with_row : Vault
    with_row = record v { versions = row_of ∷ v.versions; next_version_id = suc v.next_version_id }

    finish_put-IsWritten :
        find_first (advances a.tenant_id s.secret_id n) v.secrets ≡ some s
        → OnOk IsWritten (
            finish_put svc (advance n w.now s) n created (record with_row {
              secrets =
                  update_where (advances a.tenant_id s.secret_id n) (advance n w.now) v.secrets;
            }))
    unfolding row_of with_row get_by_address
    finish_put-IsWritten found =
        let u = advance n w.now s in
        let (rest, same, f) =
          prune_rows_head u (effective_keep_versions svc u) row_of v.versions refl
            ok_v.versions_fall in
        let (safe, under) =
          committed a.tenant_id n w.now v s ok_v found row_of rest refl refl refl (omega arith) f in
        record {
          vault_ok = rw same safe;
          raised = number;
          changed = refl;
          row = u;
          found = still_at a.tenant_id n w.now v s ok_v found a at;
          row_uuid = refl;
          new = row_of;
          is_latest = rw same (latest_head row_of rest under);
          new_number = refl;
          new_type = refl;
          is_sealed = sealed_as;
        }

    -- The row of the id is the locked row.
    advances_own :
        (s₀ : SecretRow)
        → find_first (advances a.tenant_id s.secret_id n) v.secrets ≡ some s₀
        → s₀ ≡ s
    unfolding get_by_address
    advances_own s₀ found =
        let passes = find_first_passes (advances a.tenant_id s.secret_id n) v.secrets s₀ found in
        let same_id : s₀.secret_id ≡ s.secret_id = ground arith in
        let by_id =
          find_first-has_id (advances a.tenant_id s.secret_id n) v.next_secret_id v.secrets s₀
            ok_v.secrets_fall found in
        let by_id' =
          find_first-has_id (stands_at a) v.next_secret_id v.secrets s ok_v.secrets_fall at in
        let both : some s₀ ≡ some s =
          sym by_id ∙ subst (λ i. find_first (has_id i) v.secrets ≡ some s) (sym same_id) by_id' in
        cc

    stored-IsWritten : OnOk IsWritten (advance_to svc a w s n created (some with_row))
    unfolding set_current_version row_of with_row
    stored-IsWritten =
        elim-cases (OnOk IsWritten) (set_current_version a.tenant_id s.secret_id n w.now with_row)
          (err (not_found "secret")) (λ out. finish_put svc out.0 n created out.1) (λ e. tt)
          (λ out e.
            elim (Option-cases (find_first (advances a.tenant_id s.secret_id n) v.secrets)) [
              | inl e' ↦ let f : none ≡ some out = rw (e', set_current_version) at e in absurd cc
              | inr (s₀, e') ↦
                  let same = advances_own s₀ e' in
                  let e'' : find_first (advances a.tenant_id s.secret_id n) v.secrets ≡ some s =
                    rw same at e' in
                  let eq = rw (e'', set_current_version) at e in
                  subst
                    (λ (o : SecretRow × Vault). OnOk IsWritten (finish_put svc o.0 n created o.1))
                    (cc) (finish_put-IsWritten e'')
            ])

    advance_to-IsWritten :
        OnOk IsWritten
          (advance_to svc a w s n created (create_version (new_version s n value_type env) v))
    unfolding create_version row_of with_row
    advance_to-IsWritten = elim (Option-cases (get_version s.secret_id n v.versions)) [
      | inr (r, e) ↦ rw (e, create_version) tt
      | inl e ↦ rw (e, create_version) stored-IsWritten
    ]

  pub write_version-IsWritten :
      (v : Vault) (created : Bool)
      → IsVault v
      → get_by_address a v ≡ some s
      → OnOk IsWritten (write_version c svc a w value_type text s created v)
  unfolding write_version
  write_version-IsWritten v created ok_v at =
      OnOk-bind IsWritten (seal c svc.ring.active (identity a s (next_version s)) text w.draw) _
        (λ env sealed_as.
          let positive =
            seal_positive c svc.ring.active (identity a s (next_version s)) text w.draw env
              sealed_as in
          let number : next_version s ≡ s.current_version + 1 = ground arith in
          advance_to-IsWritten v (next_version s) env created ok_v at number sealed_as)
