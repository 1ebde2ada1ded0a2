-- ===== src/Rewrap/Payload.antt =====
-- No rewrap touches a payload (internal/crypto/rewrap.go).
use maintainerd_secret.Base.{
  ℕ, zero, suc, ◌≡◌, refl, ◌∙◌, inl, inr, Bool, true, not, Option, none, some, List, [], ◌∷◌,
  String, ltb, ◌==◌, str_eq, length, count_where, update_where, Bool-cases, Option-cases, if-cases,
}
use maintainerd_secret.Crypto.Aad.{Bytes}
use maintainerd_secret.Crypto.{RootKeyProvider, KeyRing, lookup, rewrap}
use maintainerd_secret.Secrets.Rows.{VersionRow}
use maintainerd_secret.Rewrap.{
  KeyTables, RootKey, RewrapReport, Pass, names, under, set_wrap, rewrap_version, list_wraps,
  persist, rewrap_one, rewrap_batch, rewrap_loop, retire_root_key, retire, drain_with, rewrap_all,
  batch_size, rounds,
}

-- The columns that no rewrap may change.
pub record Payload : Type 0 where
  pub version_id : ℕ
  pub secret_id : ℕ
  pub version : ℕ
  pub ciphertext : Bytes
  pub nonce : Bytes
  pub checksum : Bytes
  pub value_type : String

abbrev pub payload : VersionRow → Payload
payload r = record {
  version_id = r.version_id;
  secret_id = r.secret_id;
  version = r.version;
  ciphertext = r.envelope.ciphertext;
  nonce = r.envelope.nonce;
  checksum = r.envelope.checksum;
  value_type = r.value_type;
}

abbrev pub payloads : List VersionRow → List Payload
payloads [] = []
payloads (r ∷ rs) = payload r ∷ payloads rs

payloads-update_where :
    (p : VersionRow → Bool) (wrapped nonce : Bytes) (to : String) (rs : List VersionRow)
    → payloads (update_where p (set_wrap wrapped nonce to) rs) ≡ payloads rs
unfolding update_where
payloads-update_where p wrapped nonce to [] = refl
payloads-update_where p wrapped nonce to (r ∷ rs) = elim (Bool-cases (p r)) [
  | inl e ↦ rw e (rw (payloads-update_where p wrapped nonce to rs) refl)
  | inr e ↦ rw e (rw (payloads-update_where p wrapped nonce to rs) refl)
]

module _ (draw : ℕ → Bytes) (from_id : String) (from target : RootKeyProvider) where
  abbrev Same : List VersionRow → Pass → Type 0
  Same rows p = payloads p.rows ≡ payloads rows

  rewrap_one-Same :
      (w : VersionRow) (p : Pass) → Same p.rows (rewrap_one draw from_id from target w p)
  unfolding rewrap_one rewrap_version
  rewrap_one-Same w p =
      elim (Option-cases
        (rewrap from target (draw p.count) w.envelope.dek_wrapped w.envelope.dek_nonce)) [
          | inl e ↦ rw (e, persist) refl
          | inr ((wrapped, nonce), e) ↦
              rw (e, persist)
                (payloads-update_where (names w.version_id from_id) wrapped nonce target.key_id
                  p.rows)
        ]

  rewrap_batch-Same :
      (ws : List VersionRow) (p : Pass) → Same p.rows (rewrap_batch draw from_id from target ws p)
  unfolding rewrap_batch
  rewrap_batch-Same [] p = refl
  rewrap_batch-Same (w ∷ ws) p =
      let one = rewrap_one-Same w p in
      if-cases (Same p.rows) (rewrap_one draw from_id from target w p).fine _ _
        (λ e. rewrap_batch-Same ws (rewrap_one draw from_id from target w p) ∙ one) (λ e. one)

  rewrap_loop-Same :
      (batch fuel : ℕ) (p : Pass) → Same p.rows (rewrap_loop draw from_id from target batch fuel p)
  unfolding rewrap_loop
  rewrap_loop-Same batch zero p = refl
  rewrap_loop-Same batch (suc fuel) p =
      let ws = list_wraps from_id batch p.rows in
      let once = rewrap_batch-Same ws p in
      let p' = rewrap_batch draw from_id from target ws p in
      if-cases (Same p.rows) (not p'.fine) _ _ (λ e. once)
        (λ e.
          if-cases (Same p.rows) (ltb (length ws) batch) _ _ (λ e. once)
            (λ e. rewrap_loop-Same batch fuel p' ∙ once))

abbrev Kept : KeyTables → Option RewrapReport × KeyTables → Type 0
Kept t out = payloads out.1.versions ≡ payloads t.versions

retire-Kept :
    (t : KeyTables) (p : Pass) (kek : String) (o : Option (List RootKey))
    → payloads p.rows ≡ payloads t.versions
    → Kept t (retire t p kek o)
retire-Kept t p kek none h = h
retire-Kept t p kek (some keys) h = h

-- A rotation changes no payload, whether it ends, fails or is repeated: ids, version numbers,
-- ciphertexts, their nonces, checksums and value types stay as they were, in the same order.
pub payloads-rewrap_all :
    (draw : ℕ → Bytes) (ring : KeyRing) (kek : String) (batch : ℕ) (t : KeyTables)
    → payloads (rewrap_all draw ring kek batch t).1.versions ≡ payloads t.versions
unfolding rewrap_all
payloads-rewrap_all draw ring kek batch t =
    if-cases (Kept t) (str_eq kek ring.active.key_id) _ _ (λ e. refl)
      (λ e. drained (lookup kek ring.by_id))
  where
    drained : (o : Option RootKeyProvider) → Kept t (drain_with draw ring.active kek batch t o)
    drained none = refl
    drained (some from) =
        let p =
          rewrap_loop draw kek from ring.active (batch_size batch) (rounds kek t.versions)
            (record { rows = t.versions; count = 0; fine = true }) in
        let h =
          rewrap_loop-Same draw kek from ring.active (batch_size batch) (rounds kek t.versions)
            (record { rows = t.versions; count = 0; fine = true }) in
        if-cases (Kept t) (not p.fine) _ _ (λ e. h)
          (λ e.
            if-cases (Kept t) (not (count_where (under kek) p.rows == 0)) _ _ (λ e. h)
              (λ e. retire-Kept t p kek (retire_root_key kek t.root_keys) h))
