-- ===== src/Secrets/Rows.antt =====
-- The tables secrets and secret_versions, and the statements of internal/storage/queries/secret.sql
-- and secret_version.sql that the operations on secrets run. The columns that no decision reads
-- (description, tags, rotation policy, expiry, metadata, the parts of the MRN, and the times of
-- creation and update) are left out. New rows stand at the front.
use maintainerd_secret.Base.{
  ℕ, suc, Bool, not, ◌&&◌, Option, none, some, List, [], ◌∷◌, String, ltb, ◌==◌, str_eq,
  if◌then◌else◌, find_first, is_null, update_where, count_where, keep,
}
use maintainerd_secret.Crypto.{Envelope}
use maintainerd_secret.Crypto.Aad.{Bytes}

pub record SecretRow : Type 0 where
  pub secret_id : ℕ
  pub secret_uuid : Bytes
  pub tenant_id : ℕ
  pub environment_id : ℕ
  pub folder_id : ℕ
  pub key : String
  pub current_version : ℕ
  pub keep_versions : Option ℕ
  pub rotated_at : Option ℕ
  pub deleted_at : Option ℕ
  pub destroy_after : Option ℕ

pub record VersionRow : Type 0 where
  pub version_id : ℕ
  pub secret_id : ℕ
  pub version : ℕ
  pub envelope : Envelope
  pub value_type : String

pub record Vault : Type 0 where
  pub secrets : List SecretRow
  pub versions : List VersionRow
  pub next_secret_id : ℕ
  pub next_version_id : ℕ

-- A tenant, an environment, a folder and a key, as the path of a secret resolves to them.
pub record Address : Type 0 where
  pub tenant_id : ℕ
  pub tenant_uuid : Bytes
  pub environment_id : ℕ
  pub folder_id : ℕ
  pub key : String

abbrev pub is_live : SecretRow → Bool
is_live s = is_null s.deleted_at

abbrev pub stands_at : Address → SecretRow → Bool
stands_at a s =
    (s.tenant_id == a.tenant_id && s.environment_id == a.environment_id)
    && ((s.folder_id == a.folder_id && str_eq s.key a.key) && is_live s)

-- GetSecretByAddress and GetSecretByAddressForUpdate.
unfoldable pub get_by_address : Address → Vault → Option SecretRow
get_by_address a v = find_first (stands_at a) v.secrets

-- The index uq_secrets_address: live rows only, and without the tenant.
abbrev pub same_place : SecretRow → SecretRow → Bool
same_place new s =
    (s.environment_id == new.environment_id && s.folder_id == new.folder_id)
    && (str_eq s.key new.key && is_live s)

-- CreateSecret. `none` is a violation of the index.
unfoldable pub create_secret : SecretRow → Vault → Option (SecretRow × Vault)
create_secret new v =
    let row = record new { secret_id = v.next_secret_id } in
    elim (find_first (same_place new) v.secrets) [
      | some _ ↦ none
      | none ↦
          some (row, record v { secrets = row ∷ v.secrets; next_secret_id = suc v.next_secret_id })
    ]

abbrev pub of_secret : ℕ → VersionRow → Bool
of_secret id r = r.secret_id == id

-- The newer of a row and the newest of the rows after it.
abbrev pub newer : VersionRow → Option VersionRow → VersionRow
newer r none = r
newer r (some s) = if ltb r.version s.version then s else r

-- GetLatestSecretVersion, and GetLatestVersionChecksum by its columns: the highest version.
unfoldable pub latest : ℕ → List VersionRow → Option VersionRow
latest id [] = none
latest id (r ∷ rs) = let rest = latest id rs in if of_secret id r then some (newer r rest) else rest

-- GetSecretVersion.
unfoldable pub get_version : ℕ → ℕ → List VersionRow → Option VersionRow
get_version id n rows = find_first (λ r. of_secret id r && r.version == n) rows

-- CreateSecretVersion. `none` is a violation of uq_secret_versions_secret_version.
unfoldable pub create_version : VersionRow → Vault → Option Vault
create_version new v = elim (get_version new.secret_id new.version v.versions) [
  | some _ ↦ none
  | none ↦ some (record v {
    versions = record new { version_id = v.next_version_id } ∷ v.versions;
    next_version_id = suc v.next_version_id;
  })
]

abbrev pub advances : ℕ → ℕ → ℕ → SecretRow → Bool
advances tenant id n s =
    (s.tenant_id == tenant && s.secret_id == id) && (is_live s && ltb s.current_version n)

abbrev pub advance : ℕ → ℕ → SecretRow → SecretRow
advance n now s = record s {
  current_version = n;
  rotated_at = if ltb 1 n then some now else s.rotated_at;
}

-- SetSecretCurrentVersion, whose mark_rotated is `version > 1`. `none`: no row was updated.
unfoldable pub set_current_version : ℕ → ℕ → ℕ → ℕ → Vault → Option (SecretRow × Vault)
set_current_version tenant id n now v = elim (find_first (advances tenant id n) v.secrets) [
  | none ↦ none
  | some s ↦ some (
    advance n now s,
    record v { secrets = update_where (advances tenant id n) (advance n now) v.secrets },
  )
]

-- How many versions of the secret are higher: below k for the k highest ones, since versions of one
-- secret differ.
abbrev pub above : ℕ → ℕ → List VersionRow → ℕ
above id n rows = count_where (λ r. of_secret id r && ltb n r.version) rows

abbrev pub is_prunable : ℕ → ℕ → ℕ → List VersionRow → VersionRow → Bool
is_prunable id current k rows r =
    of_secret id r && (not (r.version == current) && not (ltb (above id r.version rows) k))

-- ListPrunableVersions. Their order is left out: the deletions of different rows commute.
unfoldable pub list_prunable : ℕ → ℕ → ℕ → List VersionRow → List VersionRow
list_prunable id current k rows = keep (is_prunable id current k rows) rows

-- DeleteSecretVersion, with the number of rows.
unfoldable pub delete_version : ℕ → List VersionRow → ℕ × List VersionRow
delete_version id rows =
    (count_where (λ r. r.version_id == id) rows, keep (λ r. not (r.version_id == id)) rows)
