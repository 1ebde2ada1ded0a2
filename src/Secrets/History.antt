-- ===== src/Secrets/History.antt =====
-- Histories of operations on secrets (internal/store/secrets.go).
use maintainerd_secret.Base.{
  Bool, ℕ, ◌≤◌, ◌≡◌, refl, subst, inl, inr, not, Option, none, some, List, [], ◌∷◌, String, arith,
  ltb, leb, find_first, count_where, keep, is_null, Bool-cases, Option-cases, if-cases, Fallible,
  err, ok, OnOk, validation, forbidden, not_found,
}
use maintainerd_secret.Crypto.Aad.{Bytes}
use maintainerd_secret.Crypto.{Suite}
use maintainerd_secret.Secrets.Rows.{
  SecretRow, VersionRow, Vault, Address, get_by_address, same_place, of_secret,
}
use maintainerd_secret.Secrets.{
  Service, PutInput, PutResult, Surroundings, prune_rows, put_secret, prune_versions, or_opaque,
  known_type,
}
use maintainerd_secret.Secrets.Removal.{
  delete_secret, is_deleted, undelete, restore_secret, destroy_secret,
}
use maintainerd_secret.Secrets.Prune.{IsVault, prune_each-Filters}
use maintainerd_secret.Secrets.Keeps.{update-IsVault, filter-IsVault, without, without-IsVault}
use maintainerd_secret.Secrets.Create.{Puts}
use maintainerd_secret.Secrets.RoundTrip.{put_secret-Puts}

-- A call that changes the tables.
pub data Op : Type 0 where
  puts : Address → Surroundings → PutInput → Op
  prunes : Address → Op
  deletes : Address → Option ℕ → ℕ → Op
  restores : ℕ → Bytes → (ℕ → Bool) → Op
  destroys : ℕ → Bytes → ℕ → ℕ → Op

-- A call that fails leaves the tables as they were.
abbrev after : Vault → Fallible Vault → Vault
after v (err e) = v
after v (ok v') = v'

abbrev put_after : Vault → Fallible (Vault × PutResult) → Vault
put_after v (err e) = v
put_after v (ok (v', r)) = v'

abbrev prune_after : Vault → Fallible (Vault × ℕ) → Vault
prune_after v (err e) = v
prune_after v (ok (v', n)) = v'

module _ (c : Suite) (svc : Service) where
  unfoldable pub perform : Op → Vault → Vault
  perform (puts a w i) v = put_after v (put_secret c svc a w i v)
  perform (prunes a) v = prune_after v (prune_versions svc a v)
  perform (deletes a window now) v = after v (delete_secret svc a window now v)
  perform (restores tenant uuid folder_live) v = (restore_secret tenant uuid folder_live v).0
  perform (destroys tenant uuid now db_now) v = after v (destroy_secret tenant uuid now db_now v)

  unfoldable pub run : List Op → Vault → Vault
  run [] v = v
  run (op ∷ ops) v = run ops (perform op v)

  put_after-IsVault :
      (a : Address) (w : Surroundings) (value_type : String) (text : Bytes) (v : Vault)
      (o : Fallible (Vault × PutResult))
      → IsVault v
      → OnOk (Puts c svc a w value_type text v) o
      → IsVault (put_after v o)
  put_after-IsVault a w value_type text v (err e) h p = h
  put_after-IsVault a w value_type text v (ok out) h (inl (same, unchanged)) = rw same h
  put_after-IsVault a w value_type text v (ok out) h (inr (s, written)) = written.vault_ok

  nil_value :
      (a : Address) (w : Surroundings) (i : PutInput) (v : Vault)
      → i.value ≡ none
      → put_secret c svc a w i v ≡ err validation
  unfolding put_secret
  nil_value a w i v e = elim (Bool-cases (known_type c (or_opaque c i.value_type))) [
    | inr e' ↦ rw e' refl
    | inl e' ↦ rw e' (rw (e, put_secret) refl)
  ]

  puts-IsVault :
      (a : Address) (w : Surroundings) (i : PutInput) (v : Vault)
      → IsVault v
      → IsVault (put_after v (put_secret c svc a w i v))
  puts-IsVault a w i v h = elim (Option-cases i.value) [
    | inr (text, e) ↦
        put_after-IsVault a w (or_opaque c i.value_type) text v (put_secret c svc a w i v) h
          (put_secret-Puts c svc a w i text v h e)
    | inl e ↦ rw (nil_value a w i v e) h
  ]

  prunes-IsVault :
      (a : Address) (v : Vault) → IsVault v → IsVault (prune_after v (prune_versions svc a v))
  unfolding prune_versions prune_rows
  prunes-IsVault a v h = elim (Option-cases (get_by_address a v)) [
    | inl e ↦ rw (e, prune_versions) h
    | inr (s, e) ↦
        rw (e, prune_versions)
          (filter-IsVault v _ h (prune_each-Filters s.current_version _ v.versions))
  ]

  deletes-IsVault :
      (a : Address) (window : Option ℕ) (now : ℕ) (v : Vault)
      → IsVault v
      → IsVault (after v (delete_secret svc a window now v))
  unfolding delete_secret
  deletes-IsVault a window now v h = elim (Option-cases (get_by_address a v)) [
    | inl e ↦ rw (e, delete_secret) h
    | inr (s, e) ↦ rw (e, delete_secret) (update-IsVault _ _ (λ s. refl) (λ s. refl) v h)
  ]

  restores-IsVault :
      (tenant : ℕ) (uuid : Bytes) (folder_live : ℕ → Bool) (v : Vault)
      → IsVault v
      → IsVault (restore_secret tenant uuid folder_live v).0
  unfolding restore_secret
  restores-IsVault tenant uuid folder_live v h =
      elim (Option-cases (find_first (is_deleted tenant uuid) v.secrets)) [
        | inl e ↦ rw (e, restore_secret) h
        | inr (s, e) ↦
            rw (e, restore_secret)
              (if-cases (λ (o : Vault × Fallible SecretRow). IsVault o.0)
                (is_null (find_first (same_place s) v.secrets)) _ _
                (λ free.
                  update-IsVault (is_deleted tenant uuid) undelete (λ s. refl) (λ s. refl) v h)
                (λ taken. h))
      ]

  destroys-IsVault :
      (tenant : ℕ) (uuid : Bytes) (now db_now : ℕ) (v : Vault)
      → IsVault v
      → IsVault (after v (destroy_secret tenant uuid now db_now v))
  unfolding destroy_secret
  destroys-IsVault tenant uuid now db_now v h =
      elim (Option-cases (find_first (is_deleted tenant uuid) v.secrets)) [
        | inl e ↦ rw (e, destroy_secret) h
        | inr (s, e) ↦
            rw (e, destroy_secret)
              (elim (Option-cases s.destroy_after) [
                | inl e' ↦ rw (e', destroy_secret) h
                | inr (t, e') ↦
                    rw (e', destroy_secret)
                      (if-cases (λ o. IsVault (after v o)) (ltb now t) _ _ (λ early. h)
                        (λ due.
                          if-cases (λ o. IsVault (after v o)) (not (leb t db_now)) _ _ (λ early. h)
                            (λ due. without-IsVault s.secret_id v h)))
              ])
      ]

  perform-IsVault : (op : Op) (v : Vault) → IsVault v → IsVault (perform op v)
  unfolding perform
  perform-IsVault (puts a w i) v h = puts-IsVault a w i v h
  perform-IsVault (prunes a) v h = prunes-IsVault a v h
  perform-IsVault (deletes a window now) v h = deletes-IsVault a window now v h
  perform-IsVault (restores tenant uuid folder_live) v h =
      restores-IsVault tenant uuid folder_live v h
  perform-IsVault (destroys tenant uuid now db_now) v h =
      destroys-IsVault tenant uuid now db_now v h

  -- After any history of writes, prunings, deletions, restorations and destructions, failed calls
  -- included, the tables are well formed if they were before it: ids are distinct and fresh, a
  -- secret's versions fall along the table and so differ, none is above its secret's current version,
  -- and none is left of a secret that is yet to be created.
  pub run-IsVault : (ops : List Op) (v : Vault) → IsVault v → IsVault (run ops v)
  unfolding run
  run-IsVault [] v h = h
  run-IsVault (op ∷ ops) v h = run-IsVault ops (perform op v) (perform-IsVault op v h)

no_versions :
    (id : ℕ) (rs : List VersionRow)
    → count_where (of_secret id) (keep (λ r. not (of_secret id r)) rs) ≡ 0
unfolding count_where keep
no_versions id [] = refl
no_versions id (r ∷ rs) = elim (Bool-cases (of_secret id r)) [
  | inl e ↦ rw e (no_versions id rs)
  | inr e ↦ rw e (rw e (no_versions id rs))
]

-- What allows a destruction: a deleted secret whose window is over by both clocks.
pub record IsDestroyed (tenant : ℕ) (uuid : Bytes) (now db_now : ℕ) (v v' : Vault) : Type 0 where
  pub secret : SecretRow
  pub found : find_first (is_deleted tenant uuid) v.secrets ≡ some secret
  pub until : ℕ
  pub window : secret.destroy_after ≡ some until
  pub over : until ≤ now
  pub over_there : until ≤ db_now
  pub gone : count_where (of_secret secret.secret_id) v'.versions ≡ 0

-- A destruction that succeeds is of a deleted secret whose recovery window is over by the clock of
-- the service and by the clock of the database, and no version of the secret is left.
pub destroy_secret-IsDestroyed :
    (tenant : ℕ) (uuid : Bytes) (now db_now : ℕ) (v v' : Vault)
    → destroy_secret tenant uuid now db_now v ≡ ok v'
    → IsDestroyed tenant uuid now db_now v v'
unfolding destroy_secret
destroy_secret-IsDestroyed tenant uuid now db_now v v' h =
    elim (Option-cases (find_first (is_deleted tenant uuid) v.secrets)) [
      | inl e ↦
          let f : err (not_found "deleted secret") ≡ ok v' = rw (e, destroy_secret) at h in
          absurd cc
      | inr (s, e) ↦ elim (Option-cases s.destroy_after) [
        | inl e' ↦ let f : err forbidden ≡ ok v' = rw (e, destroy_secret, e') at h in absurd cc
        | inr (t, e') ↦ elim (Bool-cases (ltb now t)) [
          | inl y ↦ let f : err forbidden ≡ ok v' = rw (e, destroy_secret, e', y) at h in absurd cc
          | inr n ↦ elim (Bool-cases (leb t db_now)) [
            | inr n' ↦
                let f : err forbidden ≡ ok v' = rw (e, destroy_secret, e', n, n') at h in absurd cc
            | inl y' ↦
                let f : ok (without s.secret_id v) ≡ ok v' =
                  rw (e, destroy_secret, e', n, y') at h in
                let same : without s.secret_id v ≡ v' = cc in
                record {
                  secret = s;
                  found = e;
                  until = t;
                  window = e';
                  over = ground arith;
                  over_there = ground arith;
                  gone =
                      subst (λ (x : Vault). count_where (of_secret s.secret_id) x.versions ≡ 0) same
                        (no_versions s.secret_id v.versions);
                }
          ]
        ]
      ]
    ]
