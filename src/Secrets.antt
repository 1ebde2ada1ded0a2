-- ===== src/Secrets.antt =====
-- Writing, pruning and revealing of secrets (internal/store/secrets.go), from the resolved address on: the
-- tenant, the environment and the folder are found, and the key is valid. A transaction that fails leaves the
-- tables as they were, since its error carries none.
pub mod Rows
pub mod Removal
pub mod Order
pub mod Prune
pub mod Writes
pub mod Put
pub mod Create
pub mod RoundTrip
pub mod Ranks
pub mod Retention
pub mod Keeps
pub mod History
use maintainerd_secret.Base.{
  ℕ, ◌+◌, ◌≤◌, Bool, true, false, not, ◌&&◌, ◌||◌, Option, none, some, List, [], ◌∷◌, String, ltb,
  leb, ◌==◌, str_eq, if◌then◌else◌, find_first, is_null, update_where, count_where, keep, length,
  Fallible, err, ok, ◌>>=◌, not_found, conflict, validation, forbidden, internal,
}
use maintainerd_secret.Crypto.Aad.{Bytes, Identity, bytes_equal}
use maintainerd_secret.Crypto.{
  Suite, RootKeyProvider, Envelope, Draw, KeyRing, seal, open_envelope, provider,
}
use maintainerd_secret.Secrets.Rows.{
  SecretRow, VersionRow, Vault, Address, is_live, get_by_address, same_place, create_secret, latest,
  get_version, create_version, set_current_version, list_prunable, delete_version, of_secret,
}

-- The ring and the policy of the service; a count that is not positive is 0.
pub record Service : Type 0 where
  pub ring : KeyRing
  pub keep_versions : ℕ
  pub recovery_window : ℕ

-- A nil value is `none`; a retention that is not positive is `some 0`.
pub record PutInput : Type 0 where
  pub value : Option Bytes
  pub value_type : String
  pub keep_versions : Option ℕ

pub record PutResult : Type 0 where
  pub secret_uuid : Bytes
  pub version : ℕ
  pub created : Bool
  pub unchanged : Bool
  pub pruned : ℕ

-- What one write takes from outside: the random source, the uuid that the database generates, and
-- the clock.
pub record Surroundings : Type 0 where
  pub draw : Option Draw
  pub new_uuid : Bytes
  pub now : ℕ

abbrev pub identity : Address → SecretRow → ℕ → Identity
identity a s n = record { tenant_uuid = a.tenant_uuid; secret_uuid = s.secret_uuid; version = n }

abbrev keep_of : ℕ → Option ℕ → ℕ
keep_of policy none = policy
keep_of policy (some n) = n

unfoldable pub effective_keep_versions : Service → SecretRow → ℕ
effective_keep_versions svc s =
    let k = keep_of svc.keep_versions s.keep_versions in if k == 0 then 1 else k

-- The loop of pruneVersions over the rows that are listed.
unfoldable pub prune_each : ℕ → List VersionRow → List VersionRow → ℕ × List VersionRow
prune_each current [] rows = (0, rows)
prune_each current (r ∷ rs) rows =
    let (n, rows') = if r.version == current then (0, rows) else delete_version r.version_id rows in
    let (m, rows'') = prune_each current rs rows' in (n + m, rows'')

unfoldable pub prune_rows : SecretRow → ℕ → List VersionRow → ℕ × List VersionRow
prune_rows s k rows =
    prune_each s.current_version (list_prunable s.secret_id s.current_version k rows) rows

-- The largest value of an INT column.
abbrev int4_max : ℕ
int4_max = 2_147_483_647

-- CurrentVersion + 1 on int32: past the maximum it is negative, which is 0 here and Seal refuses.
abbrev pub next_version : SecretRow → ℕ
next_version s = if leb int4_max s.current_version then 0 else s.current_version + 1

abbrev finish_put : Service → SecretRow → ℕ → Bool → Vault → Fallible (Vault × PutResult)
finish_put svc updated n created v =
    let (pruned, rows) = prune_rows updated (effective_keep_versions svc updated) v.versions in
    ok (
      record v { versions = rows },
      record {
        secret_uuid = updated.secret_uuid;
        version = n;
        created = created;
        unchanged = false;
        pruned = pruned;
      },
    )

abbrev advance_to :
    Service
    → Address
    → Surroundings
    → SecretRow
    → ℕ
    → Bool
    → Option Vault
    → Fallible (Vault × PutResult)
advance_to svc a w s n created none = err conflict
advance_to svc a w s n created (some v) =
    elim (set_current_version a.tenant_id s.secret_id n w.now v) [
      | none ↦ err (not_found "secret")
      | some (updated, v') ↦ finish_put svc updated n created v'
    ]

abbrev new_version : SecretRow → ℕ → String → Envelope → VersionRow
new_version s n value_type env = record {
  version_id = 0;
  secret_id = s.secret_id;
  version = n;
  envelope = env;
  value_type = value_type;
}

pub record Revealed : Type 0 where
  pub version : ℕ
  pub value_type : String
  pub value : Bytes

module _ (c : Suite) where
  -- PutSecret from the locked row on, where the value changed.
  unfoldable pub write_version :
      Service
      → Address
      → Surroundings
      → String
      → Bytes
      → SecretRow
      → Bool
      → Vault
      → Fallible (Vault × PutResult)
  write_version svc a w value_type text s created v =
      let n = next_version s in
      seal c svc.ring.active (identity a s n) text w.draw >>= (λ env.
        advance_to svc a w s n created (create_version (new_version s n value_type env) v))

  abbrev same_checksum : Bytes → VersionRow → Bool
  same_checksum text r =
      not (length r.envelope.checksum == 0) && bytes_equal r.envelope.checksum (c.sha256 text)

  abbrev put_existing :
      Service
      → Address
      → Surroundings
      → String
      → Bytes
      → SecretRow
      → Vault
      → Option VersionRow
      → Fallible (Vault × PutResult)
  put_existing svc a w value_type text s v none = write_version svc a w value_type text s false v
  put_existing svc a w value_type text s v (some r) =
      if same_checksum text r
      then ok (
        v,
        record {
          secret_uuid = s.secret_uuid;
          version = r.version;
          created = false;
          unchanged = true;
          pruned = 0;
        },
      )
      else write_version svc a w value_type text s false v

  abbrev new_secret : Address → Bytes → Option ℕ → SecretRow
  new_secret a uuid keeps = record {
    secret_id = 0;
    secret_uuid = uuid;
    tenant_id = a.tenant_id;
    environment_id = a.environment_id;
    folder_id = a.folder_id;
    key = a.key;
    current_version = 0;
    keep_versions = keeps;
    rotated_at = none;
    deleted_at = none;
    destroy_after = none;
  }

  abbrev put_created :
      Service
      → Address
      → Surroundings
      → String
      → Bytes
      → Option (SecretRow × Vault)
      → Fallible (Vault × PutResult)
  put_created svc a w value_type text none = err conflict
  put_created svc a w value_type text (some (s, v)) = write_version svc a w value_type text s true v

  -- The transaction of PutSecret.
  unfoldable pub put_tx :
      Service
      → Address
      → Surroundings
      → String
      → Bytes
      → Option ℕ
      → Vault
      → Fallible (Vault × PutResult)
  put_tx svc a w value_type text keeps v = elim (get_by_address a v) [
    | some s ↦ put_existing svc a w value_type text s v (latest s.secret_id v.versions)
    | none ↦ put_created svc a w value_type text (create_secret (new_secret a w.new_uuid keeps) v)
  ]

  abbrev pub or_opaque : String → String
  or_opaque value_type = if str_eq value_type "" then "opaque" else value_type

  abbrev known_type : String → Bool
  known_type value_type =
      str_eq value_type "opaque" || (str_eq value_type "json" || str_eq value_type "reference")

  abbrev valid_keep : Option ℕ → Bool
  valid_keep none = true
  valid_keep (some k) = not (k == 0)

  -- PutSecret.
  unfoldable pub put_secret :
      Service → Address → Surroundings → PutInput → Vault → Fallible (Vault × PutResult)
  put_secret svc a w i v =
      if not (known_type (or_opaque i.value_type)) then err validation else elim i.value [
        | none ↦ err validation
        | some text ↦
            if not (valid_keep i.keep_versions)
            then err validation
            else put_tx svc a w (or_opaque i.value_type) text i.keep_versions v
      ]

  abbrev revealed : VersionRow → Fallible Bytes → Fallible Revealed
  revealed r (err e) = err internal
  revealed r (ok text) =
      ok (record { version = r.version; value_type = r.value_type; value = text })

  abbrev decrypt : Service → Address → SecretRow → Option VersionRow → Fallible Revealed
  decrypt svc a s none = err (not_found "secret version")
  decrypt svc a s (some r) =
      provider r.envelope.kek_id svc.ring
      >>= (λ p. revealed r (open_envelope c p (identity a s r.version) r.envelope))

  -- getVersion, where version 0 is the latest.
  unfoldable pub reveal : Service → Address → ℕ → Vault → Fallible Revealed
  reveal svc a n v = elim (get_by_address a v) [
    | none ↦ err (not_found "secret")
    | some s ↦
        decrypt svc a s
          (if n == 0 then latest s.secret_id v.versions else get_version s.secret_id n v.versions)
  ]

  unfoldable pub get_secret_version : Service → Address → ℕ → Vault → Fallible Revealed
  get_secret_version svc a n v = if n == 0 then err validation else reveal svc a n v

-- PruneVersions.
unfoldable pub prune_versions : Service → Address → Vault → Fallible (Vault × ℕ)
prune_versions svc a v = elim (get_by_address a v) [
  | none ↦ err (not_found "secret")
  | some s ↦
      let (n, rows) = prune_rows s (effective_keep_versions svc s) v.versions in
      ok (record v { versions = rows }, n)
]
