-- ===== src/Protocol/Crypto/Tests.antt =====
-- A concrete `Primitives`, whose seal appends a tag of zeros, for the runs of the code.
use kanrin.Common.{
  ℕ, ◌-◌, ◌≡◌, refl, List, [], ◌∷◌, ◌++◌, Option, none, some, arith, ltb, if◌then◌else◌, length,
  take, length-append, length-take, take-append,
}
use kanrin.Common.Table.{same_bytes, same_bytes_refl, same_bytes_sound}
use kanrin.Protocol.Crypto.{Primitives}

abbrev pub tag : List ℕ
tag = 0 ∷ 0 ∷ 0 ∷ 0 ∷ 0 ∷ 0 ∷ 0 ∷ 0 ∷ 0 ∷ 0 ∷ 0 ∷ 0 ∷ 0 ∷ 0 ∷ 0 ∷ 0 ∷ []

abbrev toy_seal : (key nonce plaintext aad : List ℕ) → Option (List ℕ)
toy_seal key nonce plaintext aad = some (plaintext ++ tag)

abbrev toy_unseal : (key nonce ciphertext aad : List ℕ) → Option (List ℕ)
toy_unseal key nonce ciphertext aad =
    if ltb (length ciphertext) 16 then none else some (take (length ciphertext - 16) ciphertext)

pub unseal_of_append :
    (key nonce plaintext aad : List ℕ)
    → toy_unseal key nonce (plaintext ++ tag) aad ≡ some plaintext
unseal_of_append key nonce plaintext aad =
    let size = length-append plaintext tag in
    let rest : length (plaintext ++ tag) - 16 ≡ length plaintext = omega (arith, size) in
    rw rest (ground (arith, size, take-append plaintext tag))

abbrev pub toy : Primitives
toy = record {
  seal = toy_seal;
  unseal = toy_unseal;
  expand = λ salt ikm info. some (tag ++ tag);
  hmac = λ key message. tag ++ tag;
  ct_eq = same_bytes;
  unseal-seal =
      λ key nonce plaintext aad sealed e. ground (arith, unseal_of_append key nonce plaintext aad);
  length-seal = λ key nonce plaintext aad sealed e. ground (arith, length-append plaintext tag);
  length-unseal = λ key nonce ciphertext aad opened e.
      ground (arith, length-take (length ciphertext - 16) ciphertext);
  ct_eq_iff = λ a b same. (same_bytes_sound a b, λ e. ground (arith, same_bytes_refl a));
  length-hmac = λ key message. refl;
}

abbrev seven : ℕ
seven = 7
