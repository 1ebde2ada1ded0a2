-- ===== src/Examples/Vaults.antt =====
-- Operations on secrets, run on a small vault: tests, and instances of the theorems.
use maintainerd_secret.Base.{
  ℕ, ◌≤◌, arith, ◌≡◌, refl, true, false, none, some, List, [], ◌∷◌, find_first, keep, update_where,
  count_where, ok,
}
use maintainerd_secret.Crypto.{KeyRing, lookup, seal, Envelope}
use maintainerd_secret.Crypto.Aad.{put_uint32, put_field, aad, bytes_equal}
use maintainerd_secret.Examples.Ciphers.{
  toy, toy-IsSuite, plain_key-IsProvider, key_one, a_draw, nonce12,
}
use maintainerd_secret.Secrets.Rows.{
  SecretRow, VersionRow, Vault, Address, get_by_address, create_secret, latest, get_version,
  create_version, set_current_version, list_prunable, delete_version, of_secret,
}
use maintainerd_secret.Secrets.{
  Service, PutInput, PutResult, Surroundings, effective_keep_versions, prune_each, prune_rows,
  write_version, put_tx, put_secret, reveal, prune_versions,
}
use maintainerd_secret.Secrets.Removal.{delete_secret, destroy_secret}
use maintainerd_secret.Secrets.Prune.{IsVault}
use maintainerd_secret.Secrets.Order.{current_of}
use maintainerd_secret.Secrets.Retention.{prune_versions_bound}
use maintainerd_secret.Secrets.RoundTrip.{put_then_reveal}
use maintainerd_secret.Secrets.History.{
  Op, puts, deletes, destroys, run, perform, run-IsVault, IsDestroyed, destroy_secret-IsDestroyed,
}

abbrev ring : KeyRing
ring = record { active = key_one; by_id = ("env:1", key_one) ∷ [] }

abbrev service : Service
service = record { ring = ring; keep_versions = 2; recovery_window = 100 }

abbrev place : Address
place = record {
  tenant_id = 1;
  tenant_uuid = 65 ∷ [];
  environment_id = 2;
  folder_id = 3;
  key = "DB_PASSWORD";
}

abbrev around : Surroundings
around = record { draw = some a_draw; new_uuid = 66 ∷ []; now = 5 }

abbrev password : ℕ → PutInput
password n = record { value = some (n ∷ []); value_type = ""; keep_versions = none }

abbrev empty_vault : Vault
empty_vault = record { secrets = []; versions = []; next_secret_id = 1; next_version_id = 1 }

empty_vault-IsVault : IsVault empty_vault
empty_vault-IsVault = record {
  secrets_fall = tt;
  versions_fall = tt;
  newest_first = tt;
  current = tt;
  known = tt;
}

abbrev first_envelope : Envelope
first_envelope = record {
  ciphertext =
      toy.aead_seal (7 ∷ []) nonce12 (42 ∷ [])
        (aad (record { tenant_uuid = 65 ∷ []; secret_uuid = 66 ∷ []; version = 1 }));
  nonce = nonce12;
  dek_wrapped = 7 ∷ [];
  dek_nonce = 9 ∷ [];
  kek_id = "env:1";
  checksum = 1 ∷ 42 ∷ [];
}

abbrev stored : Vault × PutResult
stored = (
  record {
    secrets =
        (record {
          secret_id = 1;
          secret_uuid = 66 ∷ [];
          tenant_id = 1;
          environment_id = 2;
          folder_id = 3;
          key = "DB_PASSWORD";
          current_version = 1;
          keep_versions = none;
          rotated_at = none;
          deleted_at = none;
          destroy_after = none;
        })
        ∷ [];
    versions =
        (record {
          version_id = 1;
          secret_id = 1;
          version = 1;
          envelope = first_envelope;
          value_type = "opaque";
        })
        ∷ [];
    next_secret_id = 2;
    next_version_id = 2;
  },
  record { secret_uuid = 66 ∷ []; version = 1; created = true; unchanged = false; pruned = 0 },
)

first_put : put_secret toy service place around (password 42) empty_vault ≡ ok stored
unfolding put_secret put_tx get_by_address create_secret find_first write_version seal aad put_field
    put_uint32 create_version get_version set_current_version update_where prune_rows list_prunable
    prune_each keep count_where effective_keep_versions
first_put = refl

put_then_reveal_example :
    reveal toy service place 0 stored.0
    ≡ ok (record { version = 1; value_type = "opaque"; value = 42 ∷ [] })
unfolding lookup
put_then_reveal_example =
    put_then_reveal toy service place around (password 42) (42 ∷ []) a_draw empty_vault stored
      toy-IsSuite (plain_key-IsProvider "env:1") refl refl refl empty_vault-IsVault refl first_put
      refl

abbrev three_writes : List Op
three_writes =
    puts place around (password 42)
    ∷ puts place around (password 43)
    ∷ puts place around (password 43)
    ∷ puts place around (password 44)
    ∷ deletes place none 10
    ∷ destroys 1 (66 ∷ []) 50 200
    ∷ []

run-IsVault_example : IsVault (run toy service three_writes empty_vault)
run-IsVault_example = run-IsVault toy service three_writes empty_vault empty_vault-IsVault

abbrev numbers : List VersionRow → List ℕ
numbers [] = []
numbers (r ∷ rs) = r.version ∷ numbers rs

-- The repeated value is not written, two versions are kept, and the early destruction is refused.
three_writes_kept : numbers (run toy service three_writes empty_vault).versions ≡ 3 ∷ 2 ∷ []
unfolding run perform put_secret put_tx get_by_address create_secret find_first write_version seal
    aad put_field put_uint32 create_version get_version set_current_version update_where prune_rows
    list_prunable prune_each keep count_where effective_keep_versions latest bytes_equal
    delete_version delete_secret destroy_secret
three_writes_kept = refl

abbrev buried : Vault
buried = record {
  secrets =
      (record {
        secret_id = 1;
        secret_uuid = 66 ∷ [];
        tenant_id = 1;
        environment_id = 2;
        folder_id = 3;
        key = "DB_PASSWORD";
        current_version = 1;
        keep_versions = none;
        rotated_at = none;
        deleted_at = some 10;
        destroy_after = some 110;
      })
      ∷ [];
  versions = stored.0.versions;
  next_secret_id = 2;
  next_version_id = 2;
}

abbrev cleared : Vault
cleared = record { secrets = []; versions = []; next_secret_id = 2; next_version_id = 2 }

destroyed : destroy_secret 1 (66 ∷ []) 120 130 buried ≡ ok cleared
unfolding destroy_secret find_first keep bytes_equal
destroyed = refl

destroy_secret-IsDestroyed_example : IsDestroyed 1 (66 ∷ []) 120 130 buried cleared
destroy_secret-IsDestroyed_example =
    destroy_secret-IsDestroyed 1 (66 ∷ []) 120 130 buried cleared destroyed

abbrev the_secret : SecretRow
the_secret = record {
  secret_id = 1;
  secret_uuid = 66 ∷ [];
  tenant_id = 1;
  environment_id = 2;
  folder_id = 3;
  key = "DB_PASSWORD";
  current_version = 1;
  keep_versions = none;
  rotated_at = none;
  deleted_at = none;
  destroy_after = none;
}

abbrev numbered : ℕ → VersionRow
numbered n = record {
  version_id = n;
  secret_id = 1;
  version = n;
  envelope = first_envelope;
  value_type = "opaque";
}

abbrev three_versions : Vault
three_versions = record stored.0 {
  secrets = record (the_secret) { current_version = 3 } ∷ [];
  versions = numbered 3 ∷ numbered 2 ∷ numbered 1 ∷ [];
  next_version_id = 4;
}

abbrev two_versions : Vault
two_versions = record three_versions { versions = numbered 3 ∷ numbered 2 ∷ [] }

three_versions-IsVault : IsVault three_versions
unfolding current_of find_first
three_versions-IsVault = record {
  secrets_fall = (ground arith, tt);
  versions_fall = (ground arith, (ground arith, (ground arith, tt)));
  newest_first =
      (((λ e. ground arith), ((λ e. ground arith), tt)), (((λ e. ground arith), tt), (tt, tt)));
  current = (ground arith, (ground arith, (ground arith, tt)));
  known = (ground arith, (ground arith, (ground arith, tt)));
}

pruned : prune_versions service place three_versions ≡ ok (two_versions, 1)
unfolding prune_versions get_by_address find_first prune_rows list_prunable keep count_where
    effective_keep_versions prune_each delete_version
pruned = refl

prune_versions_bound_example :
    count_where (of_secret 1) two_versions.versions
    ≤ effective_keep_versions service (record the_secret { current_version = 3 })
unfolding get_by_address find_first
prune_versions_bound_example =
    prune_versions_bound service place (record the_secret { current_version = 3 }) 1 three_versions
      two_versions three_versions-IsVault refl pruned
