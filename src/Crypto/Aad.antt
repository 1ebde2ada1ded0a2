-- ===== src/Crypto/Aad.antt =====
-- The identity that a ciphertext is bound to, and its encoding (internal/crypto/envelope.go). A
-- string is the list of its bytes.
use maintainerd_secret.Base.{
  ℕ, ◌/◌, ◌%◌, ◌^◌, ◌<◌, ◌≡◌, refl, sym, ◌↔◌, Bool, true, false, ◌&&◌, &&_iff, ◌==◌, List, [], ◌∷◌,
  ◌++◌, arith, length,
}

abbrev pub Bytes : Type 0
Bytes = List ℕ

no_nil : (y : ℕ) (ys : Bytes) → [] ≡ y ∷ ys → ⊥
no_nil y ys h = cc

-- bytes.Equal.
unfoldable pub bytes_equal : Bytes → Bytes → Bool
bytes_equal [] [] = true
bytes_equal [] (y ∷ ys) = false
bytes_equal (x ∷ xs) [] = false
bytes_equal (x ∷ xs) (y ∷ ys) = x == y && bytes_equal xs ys

pub bytes_equal_iff : (xs ys : Bytes) → (bytes_equal xs ys ≡ true) ↔ (xs ≡ ys)
unfolding bytes_equal
bytes_equal_iff [] [] = ground arith
bytes_equal_iff [] (y ∷ ys) = (λ h. cc, λ h. absurd (no_nil y ys h))
bytes_equal_iff (x ∷ xs) [] = (λ h. cc, λ h. absurd (no_nil x xs (sym h)))
bytes_equal_iff (x ∷ xs) (y ∷ ys) = (
  λ h.
      let (head_eq, tail_eq) = (&&_iff (x == y) (bytes_equal xs ys)).0 h in
      let e : x ≡ y = ground arith in let es = (bytes_equal_iff xs ys).0 tail_eq in cc,
  λ h.
      let e : x ≡ y = cc in
      let es : xs ≡ ys = cc in
      (&&_iff (x == y) (bytes_equal xs ys)).1 (ground arith, (bytes_equal_iff xs ys).1 es),
)

pub record Identity : Type 0 where
  pub tenant_uuid : Bytes
  pub secret_uuid : Bytes
  pub version : ℕ

-- The text maintainerd-secret/aad/v1.
abbrev pub aad_domain : Bytes
aad_domain =
    109 ∷ 97 ∷ 105 ∷ 110 ∷ 116 ∷ 97 ∷ 105 ∷ 110 ∷ 101 ∷ 114 ∷ 100 ∷ 45 ∷ 115 ∷ 101 ∷ 99 ∷ 114 ∷ 101
    ∷ 116 ∷ 47 ∷ 97 ∷ 97 ∷ 100 ∷ 47 ∷ 118 ∷ 49 ∷ []

-- PutUint32 of binary.BigEndian, after the conversion to uint32.
unfoldable pub put_uint32 : ℕ → Bytes
put_uint32 n = (n / 16_777_216) % 256 ∷ (n / 65_536) % 256 ∷ (n / 256) % 256 ∷ n % 256 ∷ []

unfoldable pub put_field : Bytes → Bytes
put_field f = put_uint32 (length f) ++ f

unfoldable pub aad : Identity → Bytes
aad id =
    aad_domain ++ (put_field id.tenant_uuid ++ (put_field id.secret_uuid ++ put_uint32 id.version))

put_uint32_inj :
    (m n : ℕ) (xs ys : Bytes)
    → m < 2 ^ 32
    → n < 2 ^ 32
    → put_uint32 m ++ xs ≡ put_uint32 n ++ ys
    → (m ≡ n) × (xs ≡ ys)
unfolding put_uint32
put_uint32_inj m n xs ys hm hn e = (ground arith, cc)

append_same_length :
    (xs ys us vs : Bytes) → length xs ≡ length ys → xs ++ us ≡ ys ++ vs → (xs ≡ ys) × (us ≡ vs)
append_same_length [] [] us vs h e = (refl, e)
append_same_length [] (y ∷ ys) us vs h e = absurd (omega (arith, h))
append_same_length (x ∷ xs) [] us vs h e = absurd (omega (arith, h))
append_same_length (x ∷ xs) (y ∷ ys) us vs h e =
    let same : x ≡ y = cc in
    let rest : xs ++ us ≡ ys ++ vs = cc in
    let (front, back) = append_same_length xs ys us vs (omega (arith, h)) rest in (cc, back)

put_field_inj :
    (f g xs ys : Bytes)
    → length f < 2 ^ 32
    → length g < 2 ^ 32
    → put_field f ++ xs ≡ put_field g ++ ys
    → (f ≡ g) × (xs ≡ ys)
unfolding put_field put_uint32
put_field_inj f g xs ys hf hg e =
    let (same, rest) = put_uint32_inj (length f) (length g) (f ++ xs) (g ++ ys) hf hg e in
    append_same_length f g xs ys same rest

-- Two fields that fit their length prefix, and a version that fits its four bytes.
abbrev pub Fits : Identity → Type 0
Fits id =
    (length id.tenant_uuid < 2 ^ 32) × (length id.secret_uuid < 2 ^ 32) × (id.version < 2 ^ 32)

same_fields :
    (a b : Identity)
    → a.tenant_uuid ≡ b.tenant_uuid
    → a.secret_uuid ≡ b.secret_uuid
    → a.version ≡ b.version
    → a ≡ b
same_fields a b t s v = λ i. record { tenant_uuid = t i; secret_uuid = s i; version = v i }

-- Identities whose fields fit their prefixes have the same encoding only if they are the same: no
-- boundary between two fields can be moved.
pub aad_inj : (a b : Identity) → Fits a → Fits b → aad a ≡ aad b → a ≡ b
unfolding aad put_uint32
aad_inj a b (ta, sa, va) (tb, sb, vb) e =
    let (_, fields) = append_same_length aad_domain aad_domain _ _ refl e in
    let (tenants, more) = put_field_inj a.tenant_uuid b.tenant_uuid _ _ ta tb fields in
    let (secrets, last) = put_field_inj a.secret_uuid b.secret_uuid _ _ sa sb more in
    let (versions, _) = put_uint32_inj a.version b.version [] [] va vb last in
    same_fields a b tenants secrets versions
