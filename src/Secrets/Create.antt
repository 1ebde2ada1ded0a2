-- ===== src/Secrets/Create.antt =====
-- The two outcomes of PutSecret (internal/store/secrets.go): nothing is written, or one new version.
use maintainerd_secret.Base.{
  ℕ, suc, ◌≡◌, refl, ◌⊎◌, inl, inr, true, false, Option, none, some, List, [], ◌∷◌, String, arith,
  ◌==◌, str_eq_iff, find_first, All, Option-cases, if-cases, Fallible, err, ok, OnOk,
}
use maintainerd_secret.Crypto.Aad.{Bytes}
use maintainerd_secret.Crypto.{Suite}
use maintainerd_secret.Secrets.Rows.{
  SecretRow, VersionRow, Vault, Address, get_by_address, same_place, create_secret, latest,
}
use maintainerd_secret.Secrets.{
  Service, PutResult, Surroundings, same_checksum, put_existing, put_tx, new_secret,
}
use maintainerd_secret.Secrets.Order.{current_of}
use maintainerd_secret.Secrets.Prune.{Current, Known, IsVault}
use maintainerd_secret.Secrets.Put.{IsWritten, write_version-IsWritten}

abbrev pub with_secret : SecretRow → Vault → Vault
with_secret s v = record v {
  secrets = record s { secret_id = v.next_secret_id } ∷ v.secrets;
  next_secret_id = suc v.next_secret_id;
}

old-Current :
    (s : SecretRow) (ss : List SecretRow) (n : ℕ) (rs : List VersionRow)
    → s.secret_id ≡ n
    → All (Known n) rs
    → All (Current ss) rs
    → All (Current (s ∷ ss)) rs × All (Known (suc n)) rs
unfolding current_of find_first
old-Current s ss n [] e k h = (tt, tt)
old-Current s ss n (r ∷ rs) e k h =
    let other : (s.secret_id == r.secret_id) ≡ false = (let lt = k.0 in ground arith) in
    let (more, known) = old-Current s ss n rs e k.1 h.1 in
    ((rw other h.0, more), (let lt = k.0 in omega arith, known))

with_secret-IsVault : (s : SecretRow) (v : Vault) → IsVault v → IsVault (with_secret s v)
with_secret-IsVault s v h =
    let (current, known) =
      old-Current (record s { secret_id = v.next_secret_id }) v.secrets v.next_secret_id v.versions
        refl h.known h.current in
    record {
      secrets_fall = (omega arith, h.secrets_fall);
      versions_fall = h.versions_fall;
      newest_first = h.newest_first;
      current = current;
      known = known;
    }

-- A value that hashes to the checksum of the latest version leaves the tables as they were; any other
-- accepted value becomes the next version of its secret.
abbrev pub Puts :
    Suite → Service → Address → Surroundings → String → Bytes → Vault → Vault × PutResult → Type 0
Puts c svc a w value_type text v out =
    ((out.0 ≡ v) × (out.1.unchanged ≡ true))
    ⊎ ((s : SecretRow) × IsWritten c svc a w value_type text s out)

module _ (c : Suite) (svc : Service) (a : Address) (w : Surroundings) (value_type : String)
    (text : Bytes) (v : Vault) where
  written :
      (o : Fallible (Vault × PutResult)) (s : SecretRow)
      → OnOk (IsWritten c svc a w value_type text s) o
      → OnOk (Puts c svc a w value_type text v) o
  written (err e) s h = tt
  written (ok out) s h = inr (s, h)

  put_existing-Puts :
      (s : SecretRow) (o : Option VersionRow)
      → IsVault v
      → get_by_address a v ≡ some s
      → OnOk (Puts c svc a w value_type text v) (put_existing c svc a w value_type text s v o)
  put_existing-Puts s none h at =
      written _ s (write_version-IsWritten c svc a w value_type text s v false h at)
  put_existing-Puts s (some r) h at =
      if-cases (OnOk (Puts c svc a w value_type text v)) (same_checksum c text r) _ _
        (λ same. inl (refl, refl))
        (λ other. written _ s (write_version-IsWritten c svc a w value_type text s v false h at))

  found_new :
      (keeps : Option ℕ)
      → get_by_address a (with_secret (new_secret c a w.new_uuid keeps) v)
        ≡ some (record (new_secret c a w.new_uuid keeps) { secret_id = v.next_secret_id })
  unfolding get_by_address find_first
  found_new keeps = rw ((str_eq_iff a.key a.key).1 refl) (ground arith)

  pub put_tx-Puts :
      (keeps : Option ℕ)
      → IsVault v
      → OnOk (Puts c svc a w value_type text v) (put_tx c svc a w value_type text keeps v)
  unfolding put_tx create_secret
  put_tx-Puts keeps h = elim (Option-cases (get_by_address a v)) [
    | inr (s, e) ↦ rw (e, put_tx) (put_existing-Puts s (latest s.secret_id v.versions) h e)
    | inl e ↦
        rw (e, put_tx)
          (elim (Option-cases
            (find_first (same_place (new_secret c a w.new_uuid keeps)) v.secrets)) [
              | inr (s, e') ↦ rw (e', create_secret) tt
              | inl e' ↦
                  rw (e', create_secret)
                    (written _
                      (record (new_secret c a w.new_uuid keeps) { secret_id = v.next_secret_id })
                      (write_version-IsWritten c svc a w value_type text
                        (record (new_secret c a w.new_uuid keeps) { secret_id = v.next_secret_id })
                        (with_secret (new_secret c a w.new_uuid keeps) v) true
                        (with_secret-IsVault (new_secret c a w.new_uuid keeps) v h)
                        (found_new keeps)))
            ])
  ]
