-- ===== src/Limiter/Table.antt =====
-- The map `buckets` of the limiter of internal/platform/middleware/rate_limit.go.
use maintainerd_secret.Base.{
  ℕ, Bool, true, false, not, ◌≡◌, refl, ◌⊎◌, inl, inr, Option, none, some, List, [], ◌∷◌, String,
  ◌∙◌, subst, str_eq, str_eq_iff, if◌then◌else◌, keep, Bool-cases,
}

pub record Bucket : Type 0 where
  pub count : ℕ
  pub window_start : ℕ
  pub reset_at : ℕ
  pub granted : ℕ
  pub spent : ℕ
  pub exhausted : Bool
  pub backoff_at : ℕ

abbrev pub Buckets : Type 0
Buckets = List (String × Bucket)

unfoldable pub bucket_at : String → Buckets → Option Bucket
bucket_at key [] = none
bucket_at key ((k, b) ∷ bs) = let rest = bucket_at key bs in if str_eq k key then some b else rest

abbrev pub other_than : String → String × Bucket → Bool
other_than key (k, b) = not (str_eq k key)

unfoldable pub set_bucket : String → Bucket → Buckets → Buckets
set_bucket key b bs = (key, b) ∷ keep (other_than key) bs

str_eq_refl : (s : String) → str_eq s s ≡ true
str_eq_refl s = (str_eq_iff s s).1 refl

pub bucket_at-set_bucket :
    (key : String) (b : Bucket) (bs : Buckets) → bucket_at key (set_bucket key b bs) ≡ some b
unfolding bucket_at set_bucket
bucket_at-set_bucket key b bs = rw (str_eq_refl key) refl

bucket_at-keep-other :
    (key k : String) (bs : Buckets)
    → str_eq key k ≡ false
    → bucket_at k (keep (other_than key) bs) ≡ bucket_at k bs
unfolding bucket_at keep
bucket_at-keep-other key k [] h = refl
bucket_at-keep-other key k ((k', b') ∷ bs) h = elim (Bool-cases (str_eq k' key)) [
  | inl e ↦
      let same : k' ≡ key = (str_eq_iff k' key).0 e in
      rw e (rw same (rw h (bucket_at-keep-other key k bs h)))
  | inr e ↦ rw (e, bucket_at) (rw (bucket_at-keep-other key k bs h) refl)
]

pub bucket_at-set_bucket-other :
    (key k : String) (b : Bucket) (bs : Buckets)
    → str_eq key k ≡ false
    → bucket_at k (set_bucket key b bs) ≡ bucket_at k bs
unfolding bucket_at set_bucket
bucket_at-set_bucket-other key k b bs h = rw h (bucket_at-keep-other key k bs h)

-- No key has two buckets.
abbrev pub Distinct : Buckets → Type 0
Distinct [] = Unit {0}
Distinct ((k, b) ∷ bs) = (bucket_at k bs ≡ none) × Distinct bs

-- A bucket that survives a filter is the one that was there.
pub bucket_at-keep :
    (p : String × Bucket → Bool) (k : String) (bs : Buckets)
    → Distinct bs
    → (bucket_at k (keep p bs) ≡ bucket_at k bs) ⊎ (bucket_at k (keep p bs) ≡ none)
unfolding bucket_at keep
bucket_at-keep p k [] d = inl refl
bucket_at-keep p k ((k', b') ∷ bs) d = elim (Bool-cases (str_eq k' k)) [
  | inr e ↦ elim (Bool-cases (p (k', b'))) [
    | inl q ↦ rw (q, e, bucket_at) (bucket_at-keep p k bs d.1)
    | inr q ↦ rw (q, e, bucket_at) (bucket_at-keep p k bs d.1)
  ]
  | inl e ↦ elim (Bool-cases (p (k', b'))) [
    | inl q ↦ rw (q, e, bucket_at) (inl refl)
    | inr q ↦
        let gone : bucket_at k bs ≡ none =
          subst (λ s. bucket_at s bs ≡ none) ((str_eq_iff k' k).0 e) d.0 in
        rw (q, bucket_at)
          (elim (bucket_at-keep p k bs d.1) [ inl same ↦ inr (same ∙ gone) | inr out ↦ inr out ])
  ]
]

keep-none :
    (p : String × Bucket → Bool) (k : String) (bs : Buckets)
    → Distinct bs
    → bucket_at k bs ≡ none
    → bucket_at k (keep p bs) ≡ none
keep-none p k bs d h = elim (bucket_at-keep p k bs d) [ inl same ↦ same ∙ h | inr gone ↦ gone ]

pub keep-Distinct : (p : String × Bucket → Bool) (bs : Buckets) → Distinct bs → Distinct (keep p bs)
unfolding keep
keep-Distinct p [] d = tt
keep-Distinct p ((k, b) ∷ bs) d = elim (Bool-cases (p (k, b))) [
  | inl q ↦ rw q (keep-none p k bs d.1 d.0, keep-Distinct p bs d.1)
  | inr q ↦ rw q (keep-Distinct p bs d.1)
]

bucket_at-keep_self :
    (key : String) (bs : Buckets) → bucket_at key (keep (other_than key) bs) ≡ none
unfolding bucket_at keep
bucket_at-keep_self key [] = refl
bucket_at-keep_self key ((k, b) ∷ bs) = elim (Bool-cases (str_eq k key)) [
  | inl e ↦ rw e (bucket_at-keep_self key bs)
  | inr e ↦ rw (e, bucket_at) (rw e (bucket_at-keep_self key bs))
]

pub set_bucket-Distinct :
    (key : String) (b : Bucket) (bs : Buckets) → Distinct bs → Distinct (set_bucket key b bs)
unfolding set_bucket
set_bucket-Distinct key b bs d = (bucket_at-keep_self key bs, keep-Distinct (other_than key) bs d)
