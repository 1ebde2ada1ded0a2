-- ===== src/Rewrap.antt =====
-- The rotation of the root key: RewrapAll of internal/crypto/rewrap.go on the store of
-- internal/store/rootkeys.go and the statements of internal/storage/queries. Each rewrap of one row is a
-- transaction of its own, so an error leaves the rows before it rewrapped.
pub mod Payload
pub mod Listing
pub mod Drain
use maintainerd_secret.Base.{
  ℕ, zero, suc, ◌+◌, Bool, true, false, not, ◌&&◌, Option, none, some, List, [], ◌∷◌, ◌++◌, String,
  ltb, ◌==◌, str_eq, if◌then◌else◌, length, take, keep, count_where, update_where, find_first,
  Fallible, err, ok,
}
use maintainerd_secret.Crypto.Aad.{Bytes}
use maintainerd_secret.Crypto.{Envelope, RootKeyProvider, KeyRing, lookup, rewrap}
use maintainerd_secret.Secrets.Rows.{VersionRow}

pub data KeyState : Type 0 where
  active retiring retired : KeyState

pub record RootKey : Type 0 where
  pub kek_id : String
  pub state : KeyState

-- The versions of all secrets, the newest first, and the table root_keys.
pub record KeyTables : Type 0 where
  pub versions : List VersionRow
  pub root_keys : List RootKey

pub record RewrapReport : Type 0 where
  pub rewrapped : ℕ
  pub remaining : ℕ
  pub retired_key : Bool

abbrev pub under : String → VersionRow → Bool
under kek r = str_eq r.envelope.kek_id kek

-- The rows by version_id, which rises with time.
abbrev pub oldest_first : List VersionRow → List VersionRow
oldest_first [] = []
oldest_first (r ∷ rs) = oldest_first rs ++ r ∷ []

-- ListVersionWrapsByKEK.
unfoldable pub list_wraps : String → ℕ → List VersionRow → List VersionRow
list_wraps kek batch rows = take batch (oldest_first (keep (under kek) rows))

abbrev pub names : ℕ → String → VersionRow → Bool
names id kek r = r.version_id == id && under kek r

abbrev pub set_wrap : Bytes → Bytes → String → VersionRow → VersionRow
set_wrap wrapped nonce kek r = record r {
  envelope = record r.envelope { dek_wrapped = wrapped; dek_nonce = nonce; kek_id = kek };
}

-- RewrapSecretVersion, guarded on the key that the row was listed under.
unfoldable pub rewrap_version :
    ℕ → String → Bytes → Bytes → String → List VersionRow → List VersionRow
rewrap_version id from wrapped nonce to rows =
    update_where (names id from) (set_wrap wrapped nonce to) rows

-- The rows after a part of the loop, the number of rewraps, and whether none has failed.
pub record Pass : Type 0 where
  pub rows : List VersionRow
  pub count : ℕ
  pub fine : Bool

abbrev persist : String → RootKeyProvider → VersionRow → Pass → Option (Bytes × Bytes) → Pass
persist from target w p none = record p { fine = false }
persist from target w p (some (wrapped, nonce)) = record {
  rows = rewrap_version w.version_id from wrapped nonce target.key_id p.rows;
  count = p.count + 1;
  fine = true;
}

module _ (draw : ℕ → Bytes) (from_id : String) (from target : RootKeyProvider) where
  -- One row of a batch; the random source gives the nonce of the nth rewrap.
  unfoldable pub rewrap_one : VersionRow → Pass → Pass
  rewrap_one w p =
      persist from_id target w p
        (rewrap from target (draw p.count) w.envelope.dek_wrapped w.envelope.dek_nonce)

  -- The loop over one batch.
  unfoldable pub rewrap_batch : List VersionRow → Pass → Pass
  rewrap_batch [] p = p
  rewrap_batch (w ∷ ws) p =
      let p' = rewrap_one w p in let rest = rewrap_batch ws p' in if p'.fine then rest else p'

  -- The loop over the batches. A batch that is not full, or a failure, ends it; out of fuel it is
  -- not fine.
  unfoldable pub rewrap_loop : ℕ → ℕ → Pass → Pass
  rewrap_loop batch zero p = record p { fine = false }
  rewrap_loop batch (suc fuel) p =
      let ws = list_wraps from_id batch p.rows in
      let p' = rewrap_batch ws p in
      let rest = rewrap_loop batch fuel p' in
      if not p'.fine then p' else if ltb (length ws) batch then p' else rest

abbrev pub is_key : String → RootKey → Bool
is_key kek k = str_eq k.kek_id kek

abbrev pub retirable : String → RootKey → Bool
retirable kek k = is_key kek k && elim k.state [ active ↦ false | _ ↦ true ]

-- RetireRootKey; `none`: no row was updated, for the key is active or is not there.
unfoldable pub retire_root_key : String → List RootKey → Option (List RootKey)
retire_root_key kek keys = elim (find_first (retirable kek) keys) [
  | none ↦ none
  | some _ ↦ some (update_where (λ k. retirable kek k) (λ k. record k { state = retired }) keys)
]

abbrev retire : KeyTables → Pass → String → Option (List RootKey) → Option RewrapReport × KeyTables
retire t p kek none = (none, record t { versions = p.rows })
retire t p kek (some keys) = (
  some (record {
    rewrapped = p.count;
    remaining = count_where (under kek) p.rows;
    retired_key = true;
  }),
  record { versions = p.rows; root_keys = keys },
)

abbrev conclude : KeyTables → String → Pass → Option RewrapReport × KeyTables
conclude t kek p =
    let left = count_where (under kek) p.rows in
    if not p.fine
    then (none, record t { versions = p.rows })
    else if not (left == 0)
    then (
      some (record { rewrapped = p.count; remaining = left; retired_key = false }),
      record t { versions = p.rows },
    )
    else retire t p kek (retire_root_key kek t.root_keys)

-- One more round than there are rows under the key.
abbrev rounds : String → List VersionRow → ℕ
rounds kek rows = suc (count_where (under kek) rows)

abbrev batch_size : ℕ → ℕ
batch_size batch = if batch == 0 then 100 else batch

abbrev drain_with :
    (ℕ → Bytes)
    → RootKeyProvider
    → String
    → ℕ
    → KeyTables
    → Option RootKeyProvider
    → Option RewrapReport × KeyTables
drain_with draw target kek batch t none = (none, t)
drain_with draw target kek batch t (some from) = conclude t kek (
    rewrap_loop draw kek from target (batch_size batch) (rounds kek t.versions)
      (record { rows = t.versions; count = 0; fine = true }))

-- RewrapAll; no report is an error.
unfoldable pub rewrap_all :
    (ℕ → Bytes) → KeyRing → String → ℕ → KeyTables → Option RewrapReport × KeyTables
rewrap_all draw ring kek batch t =
    if str_eq kek ring.active.key_id
    then (some (record { rewrapped = 0; remaining = 0; retired_key = false }), t)
    else drain_with draw ring.active kek batch t (lookup kek ring.by_id)
