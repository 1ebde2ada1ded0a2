-- ===== src/Secrets/RoundTrip.antt =====
-- What is put is what is revealed (internal/store/secrets.go, PutSecret and getVersion).
use maintainerd_secret.Base.{
  ◌≡◌, refl, sym, ◌∙◌, subst, inl, inr, true, false, some, String, length, Bool-cases, ok, OnOk,
}
use maintainerd_secret.Crypto.Aad.{Bytes}
use maintainerd_secret.Crypto.{Suite, Draw, KeyRing, nonce_size, open_envelope, lookup, provider}
use maintainerd_secret.Crypto.Envelopes.{IsSuite, IsProvider, sealed_opens}
use maintainerd_secret.Secrets.Rows.{SecretRow, Vault, Address}
use maintainerd_secret.Secrets.{
  Service, PutInput, PutResult, Surroundings, identity, or_opaque, known_type, valid_keep,
  put_secret, decrypt, reveal,
}
use maintainerd_secret.Secrets.Prune.{IsVault}
use maintainerd_secret.Secrets.Put.{IsWritten}
use maintainerd_secret.Secrets.Create.{Puts, put_tx-Puts}

module _ (c : Suite) (svc : Service) (a : Address) (w : Surroundings) where
  pub put_secret-Puts :
      (i : PutInput) (text : Bytes) (v : Vault)
      → IsVault v
      → i.value ≡ some text
      → OnOk (Puts c svc a w (or_opaque c i.value_type) text v) (put_secret c svc a w i v)
  unfolding put_secret
  put_secret-Puts i text v h given = elim (Bool-cases (known_type c (or_opaque c i.value_type))) [
    | inr e ↦ rw e tt
    | inl e ↦ rw e (
        rw (given, put_secret)
          (elim (Bool-cases (valid_keep c i.keep_versions)) [
            | inr e' ↦ rw e' tt
            | inl e' ↦
                rw e' (put_tx-Puts c svc a w (or_opaque c i.value_type) text v i.keep_versions h)
          ]))
  ]

  -- The ring resolves the id of its active key to that key.
  abbrev pub IsRing : KeyRing → Type 0
  IsRing ring = lookup ring.active.key_id ring.by_id ≡ some ring.active

  active_provider :
      (id : String)
      → IsRing svc.ring
      → id ≡ svc.ring.active.key_id
      → provider id svc.ring ≡ ok svc.ring.active
  unfolding provider
  active_provider id ring e = rw e (rw (ring, provider) refl)

  reveal-IsWritten :
      (value_type : String) (text : Bytes) (s : SecretRow) (d : Draw) (out : Vault × PutResult)
      → IsSuite c
      → IsProvider svc.ring.active
      → IsRing svc.ring
      → w.draw ≡ some d
      → length d.payload_nonce ≡ nonce_size
      → IsWritten c svc a w value_type text s out
      → reveal c svc a 0 out.0
        ≡ ok (record { version = out.1.version; value_type = value_type; value = text })
  unfolding reveal
  reveal-IsWritten value_type text s d out hc hp ring drawn size h =
      let sealed_as = rw drawn at h.is_sealed in
      let (kek, opens) =
        sealed_opens c svc.ring.active (identity a s out.1.version) text d h.new.envelope hc hp size
          sealed_as in
      let same_id : identity a h.row h.new.version ≡ identity a s out.1.version =
        rw h.row_uuid (rw h.new_number refl) in
      let opens' : open_envelope c svc.ring.active (identity a h.row h.new.version) h.new.envelope
          ≡ ok text =
        subst (λ id. open_envelope c svc.ring.active id h.new.envelope ≡ ok text) (sym same_id)
          opens in
      rw (h.found, reveal)
        (rw (h.is_latest, decrypt)
          (rw (active_provider h.new.envelope.kek_id ring kek) (
            rw opens' (λ j.
              ok (record { version = h.new_number j; value_type = h.new_type j; value = text })))))

  -- A put that reports a change is what the next reveal of the latest version returns: the version it
  -- reports, its type and its value. The provider of the active key keeps its promise, the ring knows
  -- the key, and the random source delivers a nonce of the right size.
  pub put_then_reveal :
      (i : PutInput) (text : Bytes) (d : Draw) (v : Vault) (out : Vault × PutResult)
      → IsSuite c
      → IsProvider svc.ring.active
      → IsRing svc.ring
      → w.draw ≡ some d
      → length d.payload_nonce ≡ nonce_size
      → IsVault v
      → i.value ≡ some text
      → put_secret c svc a w i v ≡ ok out
      → out.1.unchanged ≡ false
      → reveal c svc a 0 out.0
        ≡ ok (record {
          version = out.1.version;
          value_type = or_opaque c i.value_type;
          value = text;
        })
  put_then_reveal i text d v out hc hp ring drawn size h given put changed =
      elim (rw put at (put_secret-Puts i text v h given)) [
        | inl (same, unchanged) ↦ let f : true ≡ false = sym unchanged ∙ changed in absurd cc
        | inr (s, written) ↦
            reveal-IsWritten (or_opaque c i.value_type) text s d out hc hp ring drawn size written
      ]
