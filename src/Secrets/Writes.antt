-- ===== src/Secrets/Writes.antt =====
-- What a write of a new version leaves in the tables (internal/store/secrets.go, PutSecret).
use maintainerd_secret.Base.{
  ℕ, suc, ◌≤◌, ◌<◌, ◌≡◌, ◌≢◌, refl, ◌∙◌, subst, inl, inr, true, false, Option, none, some, List,
  ◌∷◌, arith, ltb, ◌==◌, find_first, update_where, All, All-map, Option-cases, find_first_passes,
  err, ok, internal,
}
use maintainerd_secret.Crypto.Aad.{Bytes, Identity}
use maintainerd_secret.Crypto.{Suite, Envelope, Draw, RootKeyProvider, seal}
use maintainerd_secret.Secrets.Rows.{
  SecretRow, VersionRow, Vault, Address, stands_at, get_by_address, latest, advances, advance,
}
use maintainerd_secret.Secrets.Order.{
  Under, has_id, current_of, version_of, SFalls-find_first, find_first-has_id, update_where-SFalls,
  updated, find_first-update_where, latest-All,
}
use maintainerd_secret.Secrets.Prune.{Current, Known, IsVault, Filters}

-- The head of the table is the latest version of its secret.
pub latest_head :
    (x : VersionRow) (rest : List VersionRow)
    → All (Under x) rest
    → latest x.secret_id (x ∷ rest) ≡ some x
unfolding latest
latest_head x rest h =
    let own : (x.secret_id == x.secret_id) ≡ true = ground arith in
    elim (Option-cases (latest x.secret_id rest)) [
      | inl e ↦ rw own (rw e refl)
      | inr (r, e) ↦
          let (under, same) = latest-All (Under x) x.secret_id rest r h e in
          let lower : ltb x.version r.version ≡ false = (let lt = under same in ground arith) in
          rw own (rw e (rw lower refl))
    ]

pub seal_positive :
    (c : Suite) (p : RootKeyProvider) (id : Identity) (text : Bytes) (d : Option Draw)
    (env : Envelope)
    → seal c p id text d ≡ ok env
    → id.version ≢ 0
unfolding seal
seal_positive c p id text none env h = absurd cc
seal_positive c p id text (some d) env h = λ zero_version.
    let z : (id.version == 0) ≡ true = ground arith in
    let f : err internal ≡ ok env = rw z at h in cc

module _ (tenant n now : ℕ) (v : Vault) (s : SecretRow) (ok_v : IsVault v)
    (found : find_first (advances tenant s.secret_id n) v.secrets ≡ some s) where
  abbrev pub raised_secrets : List SecretRow
  raised_secrets = update_where (advances tenant s.secret_id n) (advance n now) v.secrets

  current_mono : (id : ℕ) → current_of id v.secrets ≤ current_of id raised_secrets
  unfolding current_of
  current_mono id =
      rw
        (find_first-update_where (has_id id) (advances tenant s.secret_id n) (advance n now)
          (λ x. refl) v.secrets)
        (raised (find_first (has_id id) v.secrets))
    where
      raised :
          (o : Option SecretRow)
          → version_of o ≤ version_of (updated (advances tenant s.secret_id n) (advance n now) o)
      raised none = omega arith
      raised (some x) = ground arith

  current-before : current_of s.secret_id v.secrets ≡ s.current_version
  unfolding current_of
  current-before =
      rw
        (find_first-has_id (advances tenant s.secret_id n) v.next_secret_id v.secrets s
          ok_v.secrets_fall found)
        refl

  current-after : current_of s.secret_id raised_secrets ≡ n
  unfolding current_of
  current-after =
      rw
        (find_first-update_where (has_id s.secret_id) (advances tenant s.secret_id n)
          (advance n now) (λ x. refl) v.secrets)
        (rw
          (find_first-has_id (advances tenant s.secret_id n) v.next_secret_id v.secrets s
            ok_v.secrets_fall found)
          (rw (find_first_passes (advances tenant s.secret_id n) v.secrets s found) refl))

  pub still_at :
      (a : Address)
      → get_by_address a v ≡ some s
      → find_first (stands_at a) raised_secrets ≡ some (advance n now s)
  unfolding get_by_address
  still_at a at =
      rw
        (find_first-update_where (stands_at a) (advances tenant s.secret_id n) (advance n now)
          (λ x. refl) v.secrets)
        (rw at (rw (find_first_passes (advances tenant s.secret_id n) v.secrets s found) refl))

  own_version :
      (r : VersionRow)
      → r.version ≤ current_of r.secret_id v.secrets
      → r.secret_id ≡ s.secret_id
      → r.version ≤ s.current_version
  own_version r le same =
      let le' : r.version ≤ current_of s.secret_id v.secrets =
        subst (λ i. r.version ≤ current_of i v.secrets) same le in
      let before = current-before in omega arith

  -- The tables after the new row stands first and the older rows were filtered.
  pub committed :
      (x : VersionRow) (rest : List VersionRow)
      → x.version_id ≡ v.next_version_id
      → x.secret_id ≡ s.secret_id
      → x.version ≡ n
      → s.current_version < n
      → Filters v.versions rest
      → IsVault (record v {
        secrets = update_where (advances tenant s.secret_id n) (advance n now) v.secrets;
        versions = x ∷ rest;
        next_version_id = suc v.next_version_id;
      })
        × All (Under x) rest
  committed x rest x_id x_secret x_version higher f =
      let under : All (Under x) v.versions =
        All-map (Current v.secrets) (Under x)
          (λ r le same. let most = own_version r le (same ∙ x_secret) in omega arith) v.versions
          ok_v.current in
      (
        record {
          secrets_fall =
              update_where-SFalls (advances tenant s.secret_id n) (advance n now) (λ x. refl)
                v.next_secret_id v.secrets ok_v.secrets_fall;
          versions_fall = (omega arith, rw x_id (f.falls v.next_version_id ok_v.versions_fall));
          newest_first = (f.all (Under x) under, f.newest ok_v.newest_first);
          current = (
            rw x_secret (let after = current-after in omega arith),
            f.all (Current raised_secrets) (
                All-map (Current v.secrets) (Current raised_secrets)
                  (λ r le. let up = current_mono r.secret_id in omega arith) v.versions
                  ok_v.current),
          );
          known = (
            rw x_secret (
                SFalls-find_first (advances tenant s.secret_id n) v.next_secret_id v.secrets s
                  ok_v.secrets_fall found),
            f.all (Known v.next_secret_id) ok_v.known,
          );
        },
        f.all (Under x) under,
      )
