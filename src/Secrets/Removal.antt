-- ===== src/Secrets/Removal.antt =====
-- Deletion, restoration and destruction of a secret (internal/store/secrets.go), from the resolved
-- address on.
use maintainerd_secret.Base.{
  ℕ, ◌+◌, Bool, not, ◌&&◌, Option, none, some, ltb, leb, ◌==◌, if◌then◌else◌, find_first, is_null,
  update_where, keep, Fallible, err, ok, not_found, conflict, forbidden,
}
use maintainerd_secret.Crypto.Aad.{Bytes, bytes_equal}
use maintainerd_secret.Secrets.Rows.{
  SecretRow, Vault, Address, is_live, get_by_address, same_place, of_secret,
}
use maintainerd_secret.Secrets.{Service, keep_of}

abbrev pub mark_deleted : ℕ → ℕ → SecretRow → SecretRow
mark_deleted now after s = record s { deleted_at = some now; destroy_after = some after }

-- DeleteSecret; a negative window is 0.
unfoldable pub delete_secret : Service → Address → Option ℕ → ℕ → Vault → Fallible Vault
delete_secret svc a window now v = elim (get_by_address a v) [
  | none ↦ err (not_found "secret")
  | some s ↦ ok (record v {
    secrets =
        update_where (λ x. (x.tenant_id == a.tenant_id && x.secret_id == s.secret_id) && is_live x)
          (mark_deleted now (now + keep_of svc.recovery_window window)) v.secrets;
  })
]

abbrev pub is_deleted : ℕ → Bytes → SecretRow → Bool
is_deleted tenant uuid s =
    (s.tenant_id == tenant && bytes_equal s.secret_uuid uuid) && not (is_live s)

abbrev pub undelete : SecretRow → SecretRow
undelete s = record s { deleted_at = none; destroy_after = none }

-- RestoreSecret: a live secret at the same place is a violation of uq_secrets_address. The update stays
-- when the folder, which is read after it, is deleted. `folder_live f`: folder f is not deleted.
unfoldable pub restore_secret : ℕ → Bytes → (ℕ → Bool) → Vault → Vault × Fallible SecretRow
restore_secret tenant uuid folder_live v = elim (find_first (is_deleted tenant uuid) v.secrets) [
  | none ↦ (v, err (not_found "secret"))
  | some s ↦
      if is_null (find_first (same_place s) v.secrets)
      then (
        record v { secrets = update_where (is_deleted tenant uuid) undelete v.secrets },
        if folder_live s.folder_id then ok (undelete s) else err (not_found "folder"),
      )
      else (v, err conflict)
]

-- DestroySecret, with the clock of the service and the clock of the database. The versions go with
-- the secret (ON DELETE CASCADE).
unfoldable pub destroy_secret : ℕ → Bytes → ℕ → ℕ → Vault → Fallible Vault
destroy_secret tenant uuid now db_now v = elim (find_first (is_deleted tenant uuid) v.secrets) [
  | none ↦ err (not_found "deleted secret")
  | some s ↦ elim s.destroy_after [
    | none ↦ err forbidden
    | some after ↦
        if ltb now after
        then err forbidden
        else if not (leb after db_now)
        then err forbidden
        else ok (record v {
          secrets = keep (λ x. not (x.secret_id == s.secret_id)) v.secrets;
          versions = keep (λ r. not (of_secret s.secret_id r)) v.versions;
        })
  ]
]
