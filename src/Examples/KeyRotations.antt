-- ===== src/Examples/KeyRotations.antt =====
-- A rotation of the root key on two versions: a test, and instances of the theorems.
use maintainerd_secret.Base.{
  ℕ, ◌≡◌, refl, true, false, some, [], ◌∷◌, str_eq_iff, keep, count_where, update_where, find_first,
}
use maintainerd_secret.Crypto.{KeyRing, lookup, rewrap}
use maintainerd_secret.Crypto.Aad.{Bytes}
use maintainerd_secret.Examples.Ciphers.{key_one, key_two, an_envelope}
use maintainerd_secret.Secrets.Rows.{VersionRow}
use maintainerd_secret.Rewrap.{
  KeyTables, RewrapReport, active, retiring, retired, is_key, under, list_wraps, rewrap_version,
  rewrap_one, rewrap_batch, rewrap_loop, retire_root_key, rewrap_all,
}
use maintainerd_secret.Rewrap.Payload.{payloads, payloads-rewrap_all}
use maintainerd_secret.Rewrap.Drain.{CanRewrap, rewrap_all_drains}

abbrev ring : KeyRing
ring = record { active = key_two; by_id = ("env:1", key_one) ∷ ("env:2", key_two) ∷ [] }

abbrev version_row : ℕ → VersionRow
version_row id = record {
  version_id = id;
  secret_id = 1;
  version = id;
  envelope = an_envelope;
  value_type = "opaque";
}

abbrev tables : KeyTables
tables = record {
  versions = version_row 2 ∷ version_row 1 ∷ [];
  root_keys =
      record { kek_id = "env:1"; state = retiring }
      ∷ record { kek_id = "env:2"; state = active }
      ∷ [];
}

abbrev draw : ℕ → Bytes
draw n = n ∷ []

rewraps : (r : VersionRow) → CanRewrap key_one key_two r
unfolding rewrap
rewraps r nonce = ((r.envelope.dek_wrapped, nonce), refl)

rewrap_all_drains_example :
    (report : RewrapReport) × ((rewrap_all draw ring "env:1" 1 tables).0 ≡ some report)
    × (report.remaining ≡ 0)
    × (report.retired_key ≡ true)
    × (find_first (is_key "env:1") (rewrap_all draw ring "env:1" 1 tables).1.root_keys
        ≡ some (record { kek_id = "env:1"; state = retired }))
    × (count_where (under "env:1") (rewrap_all draw ring "env:1" 1 tables).1.versions ≡ 0)
unfolding lookup find_first
rewrap_all_drains_example =
    rewrap_all_drains draw ring key_one "env:1" (record { kek_id = "env:1"; state = retiring }) 1
      tables (λ e. let f : false ≡ true = (str_eq_iff "env:1" "env:2").1 e in cc) refl refl refl
      ((λ u. rewraps (version_row 2)), ((λ u. rewraps (version_row 1)), tt))

payloads-rewrap_all_example :
    payloads (rewrap_all draw ring "env:1" 1 tables).1.versions ≡ payloads tables.versions
payloads-rewrap_all_example = payloads-rewrap_all draw ring "env:1" 1 tables

-- Batches of one row: two rewraps, and a third batch that is empty.
two_rewraps :
    (rewrap_all draw ring "env:1" 1 tables).0
    ≡ some (record { rewrapped = 2; remaining = 0; retired_key = true })
unfolding rewrap_all lookup rewrap_loop list_wraps keep rewrap_batch rewrap_one rewrap
    rewrap_version update_where count_where retire_root_key find_first
two_rewraps = refl
