-- ===== src/Examples/Ciphers.antt =====
-- Envelopes under a concrete cipher: the theorems' hypotheses can hold together. The cipher writes the
-- length of the additional data, the data and the text, and opens only under the same data.
use maintainerd_secret.Base.{
  ◌≡◌, refl, inl, inr, true, false, Option, none, some, [], ◌∷◌, ◌++◌, String, arith, str_eq_iff,
  ◌==◌, if◌then◌else◌, length, Bool-cases, ok, ◌>>=◌,
}
use maintainerd_secret.Crypto.{Suite, RootKeyProvider, Envelope, Draw, seal, open_envelope, rewrap}
use maintainerd_secret.Crypto.Aad.{Bytes, Identity, bytes_equal, put_uint32, put_field, aad}
use maintainerd_secret.Crypto.Kek.{aes_kek, aes_kek-IsProvider}
use maintainerd_secret.Crypto.Envelopes.{IsSuite, IsProvider, seal_opens, seal_binds, rewrap_opens}

abbrev pub strip : Bytes → Bytes → Option Bytes
strip [] text = some text
strip (e ∷ es) [] = none
strip (e ∷ es) (x ∷ xs) = let rest = strip es xs in if e == x then rest else none

abbrev pub toy_open : Bytes → Bytes → Bytes → Bytes → Option Bytes
toy_open key nonce [] extra = none
toy_open key nonce (n ∷ rest) extra = if n == length extra then strip extra rest else none

abbrev pub toy : Suite
toy = record {
  aead_seal = λ key nonce text extra. length extra ∷ extra ++ text;
  aead_open = toy_open;
  sha256 = λ text. 1 ∷ text;
}

strip-append : (extra text : Bytes) → strip extra (extra ++ text) ≡ some text
strip-append [] text = refl
strip-append (e ∷ es) text = ground (arith, strip-append es text)

strip_same :
    (extra extra' text text' : Bytes)
    → length extra ≡ length extra'
    → strip extra' (extra ++ text) ≡ some text'
    → extra ≡ extra'
strip_same [] [] text text' l h = refl
strip_same [] (e ∷ es) text text' l h = absurd (omega (arith, l))
strip_same (e ∷ es) [] text text' l h = absurd (omega (arith, l))
strip_same (e ∷ es) (e' ∷ es') text text' l h = elim (Bool-cases (e' == e)) [
  | inl same ↦
      let rest = strip_same es es' text text' (omega (arith, l)) (rw same at h) in
      let eq : e ≡ e' = ground arith in cc
  | inr other ↦ let no_text : none ≡ some text' = (rw other at h) in absurd cc
]

toy_authenticates :
    (key nonce text text' extra extra' : Bytes)
    → toy_open key nonce (length extra ∷ extra ++ text) extra' ≡ some text'
    → extra ≡ extra'
toy_authenticates key nonce text text' extra extra' h =
    elim (Bool-cases (length extra == length extra')) [
      | inl e ↦ strip_same extra extra' text text' (ground arith) (rw e at h)
      | inr e ↦ let no_text : none ≡ some text' = (rw e at h) in absurd cc
    ]

pub toy-IsSuite : IsSuite toy
toy-IsSuite = record {
  opens = λ key nonce text extra.
      let same : (length extra == length extra) ≡ true = ground arith in
      rw same (strip-append extra text);
  authenticates = toy_authenticates;
}

abbrev pub plain_key : String → RootKeyProvider
plain_key id = record {
  key_id = id;
  wrap = λ draw dek. some (dek, draw);
  unwrap = λ wrapped nonce. some wrapped;
}

pub plain_key-IsProvider : (id : String) → IsProvider (plain_key id)
plain_key-IsProvider id = record {
  unwraps = λ draw dek wrapped nonce h. let eq : dek ≡ wrapped = cc in cc;
}

abbrev pub nonce12 : Bytes
nonce12 = 1 ∷ 2 ∷ 3 ∷ 4 ∷ 5 ∷ 6 ∷ 7 ∷ 8 ∷ 9 ∷ 10 ∷ 11 ∷ 12 ∷ []

abbrev pub a_draw : Draw
a_draw = record { dek = 7 ∷ []; payload_nonce = nonce12; wrap_nonce = 9 ∷ [] }

abbrev an_id : Identity
an_id = record { tenant_uuid = 65 ∷ []; secret_uuid = 66 ∷ 67 ∷ []; version = 1 }

abbrev pub key_one : RootKeyProvider
key_one = plain_key "env:1"

abbrev pub key_two : RootKeyProvider
key_two = plain_key "env:2"

seal_opens_example :
    (seal toy key_one an_id (42 ∷ []) (some a_draw) >>= open_envelope toy key_one an_id)
    ≡ ok (42 ∷ [])
seal_opens_example =
    seal_opens toy key_one an_id (42 ∷ []) a_draw (7 ∷ []) (9 ∷ []) toy-IsSuite
      (plain_key-IsProvider "env:1") refl (ground arith) refl

sealed_then_opened :
    (seal toy key_one an_id (42 ∷ []) (some a_draw) >>= open_envelope toy key_one an_id)
    ≡ ok (42 ∷ [])
unfolding seal open_envelope put_uint32 put_field aad bytes_equal
sealed_then_opened = refl

seal_binds_example : an_id ≡ an_id
seal_binds_example =
    seal_binds toy key_one an_id an_id (42 ∷ []) (42 ∷ []) a_draw (7 ∷ []) (9 ∷ []) toy-IsSuite
      (plain_key-IsProvider "env:1") refl (ground arith) refl
      (ground arith, ground arith, ground arith) (ground arith, ground arith, ground arith)
      sealed_then_opened

abbrev pub an_envelope : Envelope
an_envelope = record {
  ciphertext = toy.aead_seal (7 ∷ []) nonce12 (42 ∷ []) (aad an_id);
  nonce = nonce12;
  dek_wrapped = 7 ∷ [];
  dek_nonce = 9 ∷ [];
  kek_id = "env:1";
  checksum = 1 ∷ 42 ∷ [];
}

opens_before : open_envelope toy key_one an_id an_envelope ≡ ok (42 ∷ [])
unfolding open_envelope put_uint32 put_field aad bytes_equal
opens_before = refl

rewrap_opens_example :
    open_envelope toy key_two an_id
      (record an_envelope { dek_wrapped = 7 ∷ []; dek_nonce = 8 ∷ []; kek_id = "env:2" })
    ≡ ok (42 ∷ [])
unfolding rewrap
rewrap_opens_example =
    rewrap_opens toy key_one key_two an_id an_envelope (42 ∷ []) (8 ∷ []) (7 ∷ []) (8 ∷ [])
      (plain_key-IsProvider "env:2")
      (λ e. let f : false ≡ true = (str_eq_iff "env:1" "env:2").1 e in cc) opens_before refl

aes_kek-IsProvider_example : IsProvider (aes_kek toy (λ s. 3 ∷ []) "env:1" (5 ∷ []))
aes_kek-IsProvider_example = aes_kek-IsProvider toy (λ s. 3 ∷ []) "env:1" (5 ∷ []) toy-IsSuite
