-- ===== src/Crypto/Envelopes.antt =====
-- Sealing, opening and rewrapping (internal/crypto/envelope.go).
use maintainerd_secret.Base.{
  ◌≡◌, ◌≢◌, refl, sym, ap, ◌∙◌, inl, inr, Bool, true, false, not, ◌&&◌, Option, none, some, [], ◌∷◌,
  arith, String, str_eq, str_eq_iff, ◌==◌, length, Bool-cases, Option-cases, err, ok, ◌>>=◌,
  internal,
}
use maintainerd_secret.Crypto.Aad.{Bytes, Identity, bytes_equal_iff, aad, Fits, aad_inj}
use maintainerd_secret.Crypto.{
  Suite, RootKeyProvider, Envelope, Draw, nonce_size, seal, intact, checked, opened, open_envelope,
  rewrap,
}

-- What GCM promises: Open undoes Seal, and authenticates the additional data.
pub record IsSuite (c : Suite) : Type 0 where
  pub opens :
      (key nonce text extra : Bytes)
      → c.aead_open key nonce (c.aead_seal key nonce text extra) extra ≡ some text
  pub authenticates :
      (key nonce text text' extra extra' : Bytes)
      → c.aead_open key nonce (c.aead_seal key nonce text extra) extra' ≡ some text'
      → extra ≡ extra'

-- Unwrap undoes Wrap.
pub record IsProvider (p : RootKeyProvider) : Type 0 where
  pub unwraps :
      (draw dek wrapped nonce : Bytes)
      → p.wrap draw dek ≡ some (wrapped, nonce)
      → p.unwrap wrapped nonce ≡ some dek

str_eq_refl : (s : String) → str_eq s s ≡ true
str_eq_refl s = (str_eq_iff s s).1 refl

module _ (c : Suite) where
  -- The envelope that Seal returns.
  envelope : RootKeyProvider → Identity → Bytes → Draw → Bytes → Bytes → Envelope
  envelope p id text d wrapped nonce = record {
    ciphertext = c.aead_seal d.dek d.payload_nonce text (aad id);
    nonce = d.payload_nonce;
    dek_wrapped = wrapped;
    dek_nonce = nonce;
    kek_id = p.key_id;
    checksum = c.sha256 text;
  }

  intact_self : (text sum : Bytes) → c.sha256 text ≡ sum → intact c text sum ≡ true
  intact_self text [] e = refl
  intact_self text (b ∷ bs) e = (bytes_equal_iff (c.sha256 text) (b ∷ bs)).1 e

  own_key : (a b : Bool) → b ≡ true → (not a && not b) ≡ false
  own_key a b h = ground arith

  -- Opening an envelope that was sealed under the same provider: the AEAD decides.
  open_envelope-sealed :
      (p : RootKeyProvider) (id id' : Identity) (text : Bytes) (d : Draw) (wrapped nonce : Bytes)
      → IsProvider p
      → length d.payload_nonce ≡ nonce_size
      → p.wrap d.wrap_nonce d.dek ≡ some (wrapped, nonce)
      → open_envelope c p id' (envelope p id text d wrapped nonce)
        ≡ checked c (c.sha256 text) (
            c.aead_open d.dek d.payload_nonce
              (c.aead_seal d.dek d.payload_nonce text (aad id))
              (aad id'))
  unfolding open_envelope envelope
  open_envelope-sealed p id id' text d wrapped nonce hp size w =
      let own = own_key (str_eq p.key_id "") (str_eq p.key_id p.key_id) (str_eq_refl p.key_id) in
      let fits : (length d.payload_nonce == nonce_size) ≡ true = ground arith in
      rw own (rw (hp.unwraps d.wrap_nonce d.dek wrapped nonce w) (rw fits refl))

  -- Sealing a value and opening it with the same provider and identity gives the value back, where
  -- the provider wraps the key and the version is at least 1.
  pub seal_opens :
      (p : RootKeyProvider) (id : Identity) (text : Bytes) (d : Draw) (wrapped nonce : Bytes)
      → IsSuite c
      → IsProvider p
      → length d.payload_nonce ≡ nonce_size
      → id.version ≢ 0
      → p.wrap d.wrap_nonce d.dek ≡ some (wrapped, nonce)
      → (seal c p id text (some d) >>= open_envelope c p id) ≡ ok text
  unfolding seal envelope
  seal_opens p id text d wrapped nonce hc hp size pos w =
      let some_version : (id.version == 0) ≡ false = ground arith in
      rw some_version (
        rw w (
          rw (open_envelope-sealed p id id text d wrapped nonce hp size w) (
            rw (hc.opens d.dek d.payload_nonce text (aad id))
              (rw (intact_self text (c.sha256 text) refl) refl))))

  checked-some :
      (sum : Bytes) (o : Option Bytes) (text : Bytes) → checked c sum o ≡ ok text → o ≡ some text
  checked-some sum none text h = cc
  checked-some sum (some t) text h = elim (Bool-cases (intact c t sum)) [
    | inl e ↦ let eq : ok t ≡ ok text = rw e at h in cc
    | inr e ↦ let eq : err internal ≡ ok text = rw e at h in cc
  ]

  -- A sealed value opens under no other identity: an envelope moved to the row of another tenant,
  -- secret or version is refused.
  pub seal_binds :
      (p : RootKeyProvider) (id id' : Identity) (text text' : Bytes) (d : Draw)
      (wrapped nonce : Bytes)
      → IsSuite c
      → IsProvider p
      → length d.payload_nonce ≡ nonce_size
      → id.version ≢ 0
      → p.wrap d.wrap_nonce d.dek ≡ some (wrapped, nonce)
      → Fits id
      → Fits id'
      → (seal c p id text (some d) >>= open_envelope c p id') ≡ ok text'
      → id ≡ id'
  unfolding seal envelope
  seal_binds p id id' text text' d wrapped nonce hc hp size pos w fits fits' h =
      let some_version : (id.version == 0) ≡ false = ground arith in
      let h₁ : open_envelope c p id' (envelope p id text d wrapped nonce) ≡ ok text' =
        rw (some_version, w) at h in
      let h₂ = sym (open_envelope-sealed p id id' text d wrapped nonce hp size w) ∙ h₁ in
      aad_inj id id' fits fits' (
        hc.authenticates d.dek d.payload_nonce text text' (aad id) (aad id')
          (checked-some (c.sha256 text) _ text' h₂))

  unwrapped :
      (p : RootKeyProvider) (id : Identity) (env : Envelope) (text : Bytes)
      → open_envelope c p id env ≡ ok text
      → opened c id env (p.unwrap env.dek_wrapped env.dek_nonce) ≡ ok text
  unfolding open_envelope
  unwrapped p id env text h =
      elim (Bool-cases (not (str_eq env.kek_id "") && not (str_eq p.key_id env.kek_id))) [
        | inl e ↦ let eq : err internal ≡ ok text = rw e at h in cc
        | inr e ↦ rw e at h
      ]

  -- A rewrap changes no text: what opened under the old key opens to the same under the new one,
  -- with the ciphertext, its nonce and the checksum left as they were.
  pub rewrap_opens :
      (old new : RootKeyProvider) (id : Identity) (env : Envelope) (text draw wrapped nonce : Bytes)
      → IsProvider new
      → old.key_id ≢ new.key_id
      → open_envelope c old id env ≡ ok text
      → rewrap old new draw env.dek_wrapped env.dek_nonce ≡ some (wrapped, nonce)
      → open_envelope c new id
          (record env { dek_wrapped = wrapped; dek_nonce = nonce; kek_id = new.key_id })
        ≡ ok text
  unfolding rewrap open_envelope
  rewrap_opens old new id env text draw wrapped nonce hp apart h r =
      let moved : str_eq old.key_id new.key_id ≡ false =
        elim (Bool-cases (str_eq old.key_id new.key_id)) [
          | inl e ↦ absurd (apart ((str_eq_iff old.key_id new.key_id).0 e))
          | inr e ↦ e
        ] in
      let own =
        own_key (str_eq new.key_id "") (str_eq new.key_id new.key_id) (str_eq_refl new.key_id) in
      let h₁ = unwrapped old id env text h in
      elim (Option-cases (old.unwrap env.dek_wrapped env.dek_nonce)) [
        | inl e ↦ let eq : err internal ≡ ok text = rw (e, opened) at h₁ in absurd cc
        | inr (dek, e) ↦
            let w : new.wrap draw dek ≡ some (wrapped, nonce) = rw (moved, e) at r in
            rw own (rw (hp.unwraps draw dek wrapped nonce w) (rw (e, opened) at h₁))
      ]

  -- An envelope that Seal returned is under the provider's key, and opens to the value.
  pub sealed_opens :
      (p : RootKeyProvider) (id : Identity) (text : Bytes) (d : Draw) (env : Envelope)
      → IsSuite c
      → IsProvider p
      → length d.payload_nonce ≡ nonce_size
      → seal c p id text (some d) ≡ ok env
      → (env.kek_id ≡ p.key_id) × (open_envelope c p id env ≡ ok text)
  unfolding seal envelope
  sealed_opens p id text d env hc hp size h = elim (Bool-cases (id.version == 0)) [
    | inl e ↦ let f : err internal ≡ ok env = rw e at h in absurd cc
    | inr e ↦ elim (Option-cases (p.wrap d.wrap_nonce d.dek)) [
      | inl e' ↦ let f : err internal ≡ ok env = rw (e, e') at h in absurd cc
      | inr ((wrapped, nonce), e') ↦
          let pos : id.version ≢ 0 = ground arith in
          let f : ok (envelope p id text d wrapped nonce) ≡ ok env = rw (e, e') at h in
          let same : envelope p id text d wrapped nonce ≡ env = cc in
          let opens = seal_opens p id text d wrapped nonce hc hp size pos e' in
          (ap (λ (x : Envelope). x.kek_id) (sym same), rw h at opens)
    ]
  ]
