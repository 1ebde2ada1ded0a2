-- ===== src/Examples/Generators.antt =====
-- Generated values under a fixed random source.
use maintainerd_secret.Base.{
  ℕ, zero, suc, List, [], ◌∷◌, length, arith, ◌≤◌, ◌≡◌, refl, true, some, none,
}
use maintainerd_secret.Paths.Strings.{codes}
use maintainerd_secret.Rotation.{
  Spec, Random, validate, alphabet, generate, random_string, slice_to, hex_encode, min_length,
  max_length,
}
use maintainerd_secret.Rotation.Generated.{IsOfLength, IsRandom, generate_validated}

abbrev repeated : ℕ → List ℕ
repeated zero = []
repeated (suc n) = 171 ∷ repeated n

length-repeated : (n : ℕ) → length (repeated n) ≡ n
length-repeated zero = refl
length-repeated (suc n) = omega (arith, length-repeated n)

abbrev zeros : Random
zeros = record { read = λ n. some (repeated n); index = λ k bound. some 0 }

zeros-IsRandom : IsRandom zeros
zeros-IsRandom = record {
  reads = λ n. (repeated n, refl, length-repeated n);
  draws = λ n bound h. (0, refl, h);
}

abbrev asked : Spec
asked = record { kind = ""; length = 13; charset = "hex"; value = "" }

abbrev sound_spec : Spec
sound_spec = record asked { kind = "random" }

asked_passes : validate true asked ≡ some sound_spec
unfolding validate alphabet
asked_passes = refl

generate_validated_example :
    (min_length ≤ 13) × (13 ≤ max_length) × IsOfLength 13 (generate zeros sound_spec)
generate_validated_example =
    generate_validated zeros true sound_spec asked zeros-IsRandom asked_passes refl

too_short : validate true (record asked { length = 11 }) ≡ none
unfolding validate
too_short = refl

supplied_on_schedule : validate true (record asked { kind = "supplied"; value = "x" }) ≡ none
unfolding validate
supplied_on_schedule = refl

generated_hex : generate zeros sound_spec ≡ some (codes "ababababababa")
unfolding generate random_string slice_to hex_encode
generated_hex = refl
