-- ===== src/Crypto/Kek.antt =====
-- The root key that the env, file and ephemeral providers share (internal/crypto/rootkey.go).
use maintainerd_secret.Base.{
  ℕ, ◌≡◌, refl, inl, inr, Option, none, some, ◌++◌, String, ◌==◌, if◌then◌else◌, length, Bool-cases,
}
use maintainerd_secret.Crypto.{Suite, RootKeyProvider, nonce_size}
use maintainerd_secret.Crypto.Aad.{Bytes}
use maintainerd_secret.Crypto.Envelopes.{IsSuite, IsProvider}

abbrev pub key_size : ℕ
key_size = 32

-- The cipher, the bytes of a string, the id that the fingerprint gives the key, and the key.
module _ (c : Suite) (bytes_of : String → Bytes) (id : String) (key : Bytes) where
  abbrev dek_wrap_aad : Bytes
  dek_wrap_aad = bytes_of "maintainerd-secret/dek-wrap/v1|" ++ bytes_of id

  -- The random source fills the nonce, or fails.
  abbrev wrap_dek : Bytes → Bytes → Option (Bytes × Bytes)
  wrap_dek draw dek =
      if length dek == key_size
      then if length draw == nonce_size
        then some (c.aead_seal key draw dek dek_wrap_aad, draw)
        else none
      else none

  abbrev sized : Option Bytes → Option Bytes
  sized none = none
  sized (some dek) = if length dek == key_size then some dek else none

  abbrev unwrap_dek : Bytes → Bytes → Option Bytes
  unwrap_dek wrapped nonce =
      if length nonce == nonce_size
      then sized (c.aead_open key nonce wrapped dek_wrap_aad)
      else none

  -- aesKEK with its KeyID, Wrap and Unwrap.
  unfoldable pub aes_kek : RootKeyProvider
  aes_kek = record { key_id = id; wrap = wrap_dek; unwrap = unwrap_dek }

  -- Unwrap undoes every Wrap that succeeds, so sealed values under an AES root key can be opened.
  pub aes_kek-IsProvider : IsSuite c → IsProvider aes_kek
  unfolding aes_kek
  aes_kek-IsProvider hc = record { unwraps = undo }
    where
      undo :
          (draw dek wrapped nonce : Bytes)
          → wrap_dek draw dek ≡ some (wrapped, nonce)
          → unwrap_dek wrapped nonce ≡ some dek
      undo draw dek wrapped nonce h = elim (Bool-cases (length dek == key_size)) [
        | inr e ↦ let f : none ≡ some (wrapped, nonce) = rw e at h in absurd cc
        | inl e ↦ elim (Bool-cases (length draw == nonce_size)) [
          | inr e' ↦ let f : none ≡ some (wrapped, nonce) = rw (e, e') at h in absurd cc
          | inl e' ↦
              let f : some (c.aead_seal key draw dek dek_wrap_aad, draw) ≡ some (wrapped, nonce) =
                rw (e, e') at h in
              let w : wrapped ≡ c.aead_seal key draw dek dek_wrap_aad = cc in
              let n : nonce ≡ draw = cc in
              rw n (rw w (rw e' (rw (hc.opens key draw dek dek_wrap_aad) (rw e refl))))
        ]
      ]
