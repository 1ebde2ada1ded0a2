-- ===== src/Crypto.antt =====
-- Envelope encryption (internal/crypto/envelope.go) and the ring of root keys
-- (internal/crypto/keyring.go). AES-256-GCM and SHA-256 come from Go's library and the root keys from
-- their providers: both are interfaces here, and randomness is an argument. Zeroing a key after use is
-- left out, and so is the wording of errors.
pub mod Aad
pub mod Envelopes
pub mod Kek
use maintainerd_secret.Base.{
  ℕ, ◌≡◌, Bool, true, false, not, ◌&&◌, Option, none, some, List, [], ◌∷◌, String, str_eq, ltb,
  ◌==◌, if◌then◌else◌, length, keep, Fallible, err, ok, ◌>>=◌, internal, unavailable,
}
use maintainerd_secret.Crypto.Aad.{Bytes, Identity, bytes_equal, aad}

-- Seal and Open of an AEAD (key, nonce, text, additional data), and the hash.
pub record Suite : Type 0 where
  pub aead_seal : Bytes → Bytes → Bytes → Bytes → Bytes
  pub aead_open : Bytes → Bytes → Bytes → Bytes → Option Bytes
  pub sha256 : Bytes → Bytes

-- RootKeyProvider. Wrap draws its nonce from the argument before the key, and answers with the
-- wrapped key and the nonce, or with an error.
pub record RootKeyProvider : Type 0 where
  pub key_id : String
  pub wrap : Bytes → Bytes → Option (Bytes × Bytes)
  pub unwrap : Bytes → Bytes → Option Bytes

pub record Envelope : Type 0 where
  pub ciphertext : Bytes
  pub nonce : Bytes
  pub dek_wrapped : Bytes
  pub dek_nonce : Bytes
  pub kek_id : String
  pub checksum : Bytes

-- What one Seal reads from the random source.
pub record Draw : Type 0 where
  pub dek : Bytes
  pub payload_nonce : Bytes
  pub wrap_nonce : Bytes

-- NonceSize of GCM.
abbrev pub nonce_size : ℕ
nonce_size = 12

module _ (c : Suite) where
  abbrev checksum_of : Bytes → Bytes
  checksum_of plaintext = c.sha256 plaintext

  abbrev sealed :
      RootKeyProvider → Identity → Bytes → Draw → Option (Bytes × Bytes) → Fallible Envelope
  sealed p id plaintext d none = err internal
  sealed p id plaintext d (some (wrapped, wrap_nonce)) = ok (record {
    ciphertext = c.aead_seal d.dek d.payload_nonce plaintext (aad id);
    nonce = d.payload_nonce;
    dek_wrapped = wrapped;
    dek_nonce = wrap_nonce;
    kek_id = p.key_id;
    checksum = c.sha256 plaintext;
  })

  -- Seal. `none` is a failure of the random source.
  unfoldable pub seal : RootKeyProvider → Identity → Bytes → Option Draw → Fallible Envelope
  seal p id plaintext none = err internal
  seal p id plaintext (some d) =
      if id.version == 0 then err internal else sealed p id plaintext d (p.wrap d.wrap_nonce d.dek)

  -- The check against the stored checksum, which an empty column skips.
  abbrev intact : Bytes → Bytes → Bool
  intact plaintext [] = true
  intact plaintext (b ∷ bs) = bytes_equal (c.sha256 plaintext) (b ∷ bs)

  abbrev checked : Bytes → Option Bytes → Fallible Bytes
  checked stored none = err internal
  checked stored (some plaintext) = if intact plaintext stored then ok plaintext else err internal

  abbrev opened : Identity → Envelope → Option Bytes → Fallible Bytes
  opened id env none = err internal
  opened id env (some dek) =
      if not (length env.nonce == nonce_size)
      then err internal
      else checked env.checksum (c.aead_open dek env.nonce env.ciphertext (aad id))

  -- Open.
  unfoldable pub open_envelope : RootKeyProvider → Identity → Envelope → Fallible Bytes
  open_envelope p id env =
      if not (str_eq env.kek_id "") && not (str_eq p.key_id env.kek_id)
      then err internal
      else opened id env (p.unwrap env.dek_wrapped env.dek_nonce)

-- Rewrap: the key wrapped anew, and its nonce.
unfoldable pub rewrap :
    RootKeyProvider → RootKeyProvider → Bytes → Bytes → Bytes → Option (Bytes × Bytes)
rewrap from to wrap_nonce wrapped nonce =
    if str_eq from.key_id to.key_id
    then some (wrapped, nonce)
    else elim (from.unwrap wrapped nonce) [ none ↦ none | some dek ↦ to.wrap wrap_nonce dek ]

pub record KeyRing : Type 0 where
  pub active : RootKeyProvider
  pub by_id : List (String × RootKeyProvider)

abbrev pub with_key :
    RootKeyProvider → List (String × RootKeyProvider) → List (String × RootKeyProvider)
with_key p ring = (p.key_id, p) ∷ keep (λ e. not (str_eq e.0 p.key_id)) ring

abbrev pub with_keys :
    List RootKeyProvider → List (String × RootKeyProvider) → List (String × RootKeyProvider)
with_keys [] ring = ring
with_keys (p ∷ ps) ring = with_keys ps (with_key p ring)

-- NewKeyRing: a later key replaces an earlier one with its id.
unfoldable pub new_key_ring : RootKeyProvider → List RootKeyProvider → KeyRing
new_key_ring active previous = record {
  active = active;
  by_id = with_keys previous (with_key active []);
}

unfoldable pub add : RootKeyProvider → KeyRing → KeyRing
add p ring = record ring { by_id = with_key p ring.by_id }

unfoldable pub lookup : String → List (String × RootKeyProvider) → Option RootKeyProvider
lookup id [] = none
lookup id ((k, p) ∷ ring) = let rest = lookup id ring in if str_eq k id then some p else rest

-- Provider.
unfoldable pub provider : String → KeyRing → Fallible RootKeyProvider
provider id ring = elim (lookup id ring.by_id) [ none ↦ err unavailable | some p ↦ ok p ]
