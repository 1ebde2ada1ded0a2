-- ===== src/Secrets/Keeps.antt =====
-- Updates and deletions of rows that keep the invariant of the tables of secrets
-- (internal/store/secrets.go).
use maintainerd_secret.Base.{
  ℕ, ◌≤◌, ◌≡◌, refl, inl, inr, Bool, false, not, Option, none, some, List, [], ◌∷◌, arith, ◌==◌,
  find_first, update_where, keep, All, Bool-cases,
}
use maintainerd_secret.Secrets.Rows.{SecretRow, VersionRow, Vault, of_secret}
use maintainerd_secret.Secrets.Order.{
  SFalls, has_id, version_of, current_of, update_where-SFalls, updated, find_first-update_where,
}
use maintainerd_secret.Secrets.Prune.{Current, Known, IsVault, Filters, Filters-keep}

-- An update of columns that carry neither the id nor the current version.
module _ (p : SecretRow → Bool) (f : SecretRow → SecretRow)
    (same_id : (s : SecretRow) → (f s).secret_id ≡ s.secret_id)
    (same_version : (s : SecretRow) → (f s).current_version ≡ s.current_version) where
  current_of-update_where :
      (id : ℕ) (ss : List SecretRow) → current_of id (update_where p f ss) ≡ current_of id ss
  unfolding current_of
  current_of-update_where id ss =
      rw (find_first-update_where (has_id id) p f (λ s. rw (same_id s) refl) ss)
        (unmoved (find_first (has_id id) ss))
    where
      unmoved : (o : Option SecretRow) → version_of (updated p f o) ≡ version_of o
      unmoved none = refl
      unmoved (some s) = elim (Bool-cases (p s)) [
        | inl e ↦ rw e (same_version s)
        | inr e ↦ rw e refl
      ]

  still-Current :
      (ss : List SecretRow) (rs : List VersionRow)
      → All (Current ss) rs
      → All (Current (update_where p f ss)) rs
  still-Current ss [] h = tt
  still-Current ss (r ∷ rs) h =
      (rw (current_of-update_where r.secret_id ss) h.0, still-Current ss rs h.1)

  pub update-IsVault :
      (v : Vault) → IsVault v → IsVault (record v { secrets = update_where p f v.secrets })
  update-IsVault v h = record {
    secrets_fall = update_where-SFalls p f same_id v.next_secret_id v.secrets h.secrets_fall;
    versions_fall = h.versions_fall;
    newest_first = h.newest_first;
    current = still-Current v.secrets v.versions h.current;
    known = h.known;
  }

pub filter-IsVault :
    (v : Vault) (rs : List VersionRow)
    → IsVault v
    → Filters v.versions rs
    → IsVault (record v { versions = rs })
filter-IsVault v rs h f = record {
  secrets_fall = h.secrets_fall;
  versions_fall = f.falls v.next_version_id h.versions_fall;
  newest_first = f.newest h.newest_first;
  current = f.all (Current v.secrets) h.current;
  known = f.all (Known v.next_secret_id) h.known;
}

-- The secret of an id is taken out.
abbrev pub others : ℕ → SecretRow → Bool
others id s = not (s.secret_id == id)

SFalls-le : (m n : ℕ) (ss : List SecretRow) → m ≤ n → SFalls m ss → SFalls n ss
SFalls-le m n [] le h = tt
SFalls-le m n (s ∷ ss) le h = (omega (arith, h.0), h.1)

others-SFalls : (id n : ℕ) (ss : List SecretRow) → SFalls n ss → SFalls n (keep (others id) ss)
unfolding keep
others-SFalls id n [] h = tt
others-SFalls id n (s ∷ ss) h = elim (Bool-cases (s.secret_id == id)) [
  | inr e ↦ rw e (h.0, others-SFalls id s.secret_id ss h.1)
  | inl e ↦
      rw e (SFalls-le s.secret_id n _ (omega (arith, h.0)) (others-SFalls id s.secret_id ss h.1))
]

current_of-others :
    (id k : ℕ) (ss : List SecretRow)
    → (k == id) ≡ false
    → current_of k (keep (others id) ss) ≡ current_of k ss
unfolding current_of find_first keep
current_of-others id k [] e = refl
current_of-others id k (s ∷ ss) e = elim (Bool-cases (s.secret_id == id)) [
  | inl e' ↦
      let miss : (s.secret_id == k) ≡ false = ground arith in
      rw e' (rw miss (current_of-others id k ss e))
  | inr e' ↦ rw e' (elim (Bool-cases (s.secret_id == k)) [
    | inl hit ↦ rw hit refl
    | inr miss ↦ rw miss (current_of-others id k ss e)
  ])
]

others-Current :
    (id : ℕ) (ss : List SecretRow) (rs : List VersionRow)
    → All (Current ss) rs
    → All (Current (keep (others id) ss)) (keep (λ r. not (of_secret id r)) rs)
unfolding keep
others-Current id ss [] h = tt
others-Current id ss (r ∷ rs) h = elim (Bool-cases (r.secret_id == id)) [
  | inl e ↦ rw e (others-Current id ss rs h.1)
  | inr e ↦ rw e (rw (current_of-others id r.secret_id ss e) h.0, others-Current id ss rs h.1)
]

abbrev pub without : ℕ → Vault → Vault
without id v = record v {
  secrets = keep (others id) v.secrets;
  versions = keep (λ r. not (of_secret id r)) v.versions;
}

pub without-IsVault : (id : ℕ) (v : Vault) → IsVault v → IsVault (without id v)
without-IsVault id v h =
    let f = Filters-keep (λ r. not (of_secret id r)) v.versions in
    record {
      secrets_fall = others-SFalls id v.next_secret_id v.secrets h.secrets_fall;
      versions_fall = f.falls v.next_version_id h.versions_fall;
      newest_first = f.newest h.newest_first;
      current = others-Current id v.secrets v.versions h.current;
      known = f.all (Known v.next_secret_id) h.known;
    }
