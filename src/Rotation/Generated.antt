-- ===== src/Rotation/Generated.antt =====
-- The lengths of generated values, randomString of internal/rotation/generator.go.
use maintainerd_secret.Base.{
  ℕ, zero, suc, ◌+◌, ◌*◌, ◌/◌, ◌≤◌, ◌<◌, ◌≡◌, refl, sym, ap, subst, Bool, true, false, ◌||◌, Option,
  none, some, List, [], ◌∷◌, ◌++◌, String, arith, ltb, ◌==◌, if◌then◌else◌, length, if-cases,
  str_eq, str_eq_iff,
}
use maintainerd_secret.Paths.Strings.{Text, codes}
use maintainerd_secret.Rotation.{
  Spec, Random, alphabet, accept_alphabet, validate, validate_random, hex_encode, base64_encode,
  slice_to, char_at, put_char, char_drawn, encode_read, pick, pick_from, random_string, generate,
  min_length, max_length, default_length, alphanumeric_alphabet, symbol_alphabet,
}

length-hex_encode : (bs : List ℕ) → length (hex_encode bs) ≡ 2 * length bs
unfolding hex_encode
length-hex_encode [] = refl
length-hex_encode (b ∷ bs) = omega (arith, length-hex_encode bs)

length-base64_encode : (bs : List ℕ) → length bs ≤ length (base64_encode bs)
unfolding base64_encode
length-base64_encode [] = omega arith
length-base64_encode (a ∷ []) = omega arith
length-base64_encode (a ∷ b ∷ []) = omega arith
length-base64_encode (a ∷ b ∷ c ∷ rest) = omega (arith, length-base64_encode rest)

-- A text of the length, where there is one.
abbrev pub IsOfLength : ℕ → Option Text → Type 0
IsOfLength n none = ⊥
IsOfLength n (some t) = length t ≡ n

slice_more :
    (n c : ℕ) (r : Option Text)
    → IsOfLength n r
    → IsOfLength (suc n) (elim r [ none ↦ none | some t ↦ some (c ∷ t) ])
slice_more n c none h = h
slice_more n c (some t) h = omega (arith, h)

length-slice_to : (n : ℕ) (t : Text) → n ≤ length t → IsOfLength n (slice_to n t)
unfolding slice_to
length-slice_to zero t h = refl
length-slice_to (suc n) [] h = absurd (omega (arith, h))
length-slice_to (suc n) (c ∷ cs) h =
    slice_more n c (slice_to n cs) (length-slice_to n cs (omega (arith, h)))

abbrev IsThere : Option ℕ → Type 0
IsThere none = ⊥
IsThere (some c) = Unit

char_at-IsThere : (n : ℕ) (t : Text) → n < length t → IsThere (char_at n t)
unfolding char_at
char_at-IsThere n [] h = absurd (omega (arith, h))
char_at-IsThere zero (c ∷ cs) h = tt
char_at-IsThere (suc n) (c ∷ cs) h = char_at-IsThere n cs (omega (arith, h))

put_char-IsOfLength :
    (n : ℕ) (c : Option ℕ) (r : Option Text)
    → IsThere c
    → IsOfLength n r
    → IsOfLength (suc n) (put_char c r)
put_char-IsOfLength n none r h k = absurd h
put_char-IsOfLength n (some c) none h k = k
put_char-IsOfLength n (some c) (some t) h k = omega (arith, k)

-- The random source answers: rand.Read fills its bytes, and rand.Int gives an index below its bound.
pub record IsRandom (r : Random) : Type 0 where
  pub reads : (n : ℕ) → (raw : List ℕ) × (r.read n ≡ some raw) × (length raw ≡ n)
  pub draws : (n bound : ℕ) → 0 < bound → (i : ℕ) × (r.index n bound ≡ some i) × (i < bound)

pick-IsOfLength :
    (r : Random) (alpha : Text) (n : ℕ)
    → IsRandom r
    → 0 < length alpha
    → IsOfLength n (pick r alpha n)
unfolding pick
pick-IsOfLength r alpha zero h k = refl
pick-IsOfLength r alpha (suc n) h k =
    let (i, e, below) = h.draws n (length alpha) k in
    put_char-IsOfLength n (char_drawn (r.index n (length alpha)) alpha) (pick r alpha n)
      (subst (λ (o : Option ℕ). IsThere (char_drawn o alpha)) (sym e)
        (char_at-IsThere i alpha below))
      (pick-IsOfLength r alpha n h k)

read-IsOfLength :
    (r : Random) (encode : List ℕ → Text) (n size : ℕ)
    → IsRandom r
    → ((raw : List ℕ) → length raw ≡ size → n ≤ length (encode raw))
    → IsOfLength n (encode_read encode n (r.read size))
read-IsOfLength r encode n size h enough =
    let (raw, e, count) = h.reads size in
    subst (λ (o : Option (List ℕ)). IsOfLength n (encode_read encode n o)) (sym e)
      (length-slice_to n (encode raw) (enough raw count))

abbrev pub HasAlphabet : Option Text → Type 0
HasAlphabet none = ⊥
HasAlphabet (some a) = Unit

-- By the tests on the name of the charset.
charset_cases :
    (r : Random) (n : ℕ) (plain symbols hex base64 : Bool)
    → IsRandom r
    → HasAlphabet (
        if plain
        then some alphanumeric_alphabet
        else if symbols
        then some (alphanumeric_alphabet ++ symbol_alphabet)
        else if hex || base64
        then some []
        else none)
    → IsOfLength n (
        if hex
        then encode_read hex_encode n (r.read ((n + 1) / 2))
        else if base64
        then encode_read base64_encode n (r.read n)
        else pick_from r
            (if plain
              then some alphanumeric_alphabet
              else if symbols
              then some (alphanumeric_alphabet ++ symbol_alphabet)
              else if hex || base64
              then some []
              else none)
            n)
charset_cases r n plain symbols true base64 h k =
    read-IsOfLength r hex_encode n ((n + 1) / 2) h
      (λ raw count. omega (arith, count, length-hex_encode raw))
charset_cases r n plain symbols false true h k =
    read-IsOfLength r base64_encode n n h
      (λ raw count. omega (arith, count, length-base64_encode raw))
charset_cases r n true symbols false false h k =
    pick-IsOfLength r alphanumeric_alphabet n h (omega arith)
charset_cases r n false true false false h k =
    pick-IsOfLength r (alphanumeric_alphabet ++ symbol_alphabet) n h (omega arith)
charset_cases r n false false false false h k = absurd k

random_string-IsOfLength :
    (r : Random) (charset : String) (n : ℕ)
    → IsRandom r
    → HasAlphabet (alphabet charset)
    → IsOfLength n (random_string r charset n)
unfolding random_string alphabet
random_string-IsOfLength r charset n h k =
    charset_cases r n (str_eq charset "alphanumeric" || str_eq charset "")
      (str_eq charset "alphanumeric-symbols") (str_eq charset "hex") (str_eq charset "base64url") h
      k

-- What a specification that passes has when it asks for a random value.
abbrev IsSound : Spec → Type 0
IsSound s =
    str_eq s.kind "random" ≡ true
    → (min_length ≤ s.length) × (s.length ≤ max_length) × HasAlphabet (alphabet s.charset)

abbrev Passes : Option Spec → Type 0
Passes none = Unit
Passes (some s) = IsSound s

accept_alphabet-Passes :
    (a : Option Text) (s : Spec)
    → a ≡ alphabet s.charset
    → min_length ≤ s.length
    → s.length ≤ max_length
    → Passes (accept_alphabet a s)
accept_alphabet-Passes none s e h k = tt
accept_alphabet-Passes (some a) s e h k = λ f. (h, k, subst HasAlphabet e tt)

validate_random-Passes : (s : Spec) → Passes (validate_random s)
validate_random-Passes s =
    let n = if s.length == 0 then default_length else s.length in
    let charset = if str_eq s.charset "" then "alphanumeric" else s.charset in
    if-cases Passes (ltb n min_length || ltb max_length n) _ _ (λ e. tt)
      (λ e.
        accept_alphabet-Passes (alphabet charset) (record s { length = n; charset = charset }) refl
          (ground (arith, e)) (ground (arith, e)))

-- A supplied value is another kind.
supplied-Passes :
    (s : Spec) (refused : Bool)
    → str_eq s.kind "random" ≡ false
    → Passes (if refused then none else some s)
supplied-Passes s true e = tt
supplied-Passes s false e = λ f. absurd cc

validate-Passes : (scheduled : Bool) (s : Spec) → Passes (validate scheduled s)
unfolding validate
validate-Passes scheduled s =
    let kind = if str_eq s.kind "" then "random" else s.kind in
    let named = record s { kind = kind } in
    if-cases Passes (str_eq kind "random") _ _ (λ e. validate_random-Passes named)
      (λ e.
        if-cases Passes (str_eq kind "supplied") _ _
          (λ f. supplied-Passes named (scheduled || str_eq s.value "") e) (λ f. tt))

generate-random :
    (r : Random) (s : Spec)
    → str_eq s.kind "random" ≡ true
    → 0 < s.length
    → generate r s ≡ random_string r s.charset s.length
unfolding generate
generate-random r s e h =
    let named : s.kind ≡ "random" = (str_eq_iff s.kind "random").0 e in
    let asked : (if s.length == 0 then default_length else s.length) ≡ s.length =
      ground (arith, h) in
    subst
      (λ (kind : String).
        (if str_eq kind "supplied"
          then (if str_eq s.value "" then none else some (codes s.value))
          else if str_eq kind "random" || str_eq kind ""
          then random_string r s.charset (if s.length == 0 then default_length else s.length)
          else none)
        ≡ random_string r s.charset s.length)
      (sym named) (ap (random_string r s.charset) asked)

-- When the random source answers, a specification for a random value that passes
-- validation asks for 12 to 512 characters, and exactly as many are generated.
pub generate_validated :
    (r : Random) (scheduled : Bool) (s asked : Spec)
    → IsRandom r
    → validate scheduled asked ≡ some s
    → str_eq s.kind "random" ≡ true
    → (min_length ≤ s.length) × (s.length ≤ max_length) × IsOfLength s.length (generate r s)
generate_validated r scheduled s asked h v k =
    let (least, most, known) = (subst Passes v (validate-Passes scheduled asked)) k in
    (
      least,
      most,
      subst (IsOfLength s.length) (sym (generate-random r s k (omega (arith, least))))
          (random_string-IsOfLength r s.charset s.length h known),
    )
