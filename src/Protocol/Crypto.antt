-- ===== src/Protocol/Crypto.antt =====
-- crates/kanrin-protocol/src/crypto.rs: nonces, key derivation, and the wrappers of the crates
-- chacha20poly1305, hkdf, hmac and subtle, which are the parameter `Primitives`.
pub mod Nonce
pub mod Compare
pub mod Tests
use kanrin.Common.{
  ℕ, ◌+◌, ◌-◌, ◌%◌, ◌^◌, ◌≡◌, ◌<◌, ◌↔◌, Bool, true, false, not, List, [], ◌∷◌, ◌++◌, Option, none,
  some, ltb, ◌==◌, if◌then◌else◌, length, drop, take,
}
use kanrin.Common.Bytes.{to_be}
use kanrin.Protocol.Error.{Result, ok, err, ◌>>=◌, crypto, nonce_exhausted}
use mathlib.Core.List.{reverse}

-- The primitives that the program calls and does not implement, with what their documentation
-- promises: `open` undoes `seal` under the same key, nonce and associated data, a tag adds sixteen
-- bytes, and `ct_eq` compares slices of one length. `none` is the crates' opaque error.
pub record Primitives : Type 0 where
  pub seal : (key nonce plaintext aad : List ℕ) → Option (List ℕ)
  pub unseal : (key nonce ciphertext aad : List ℕ) → Option (List ℕ)
  pub expand : (salt : Option (List ℕ)) (ikm info : List ℕ) → Option (List ℕ)
  pub hmac : (key message : List ℕ) → List ℕ
  pub ct_eq : List ℕ → List ℕ → Bool
  pub unseal-seal :
      (key nonce plaintext aad sealed : List ℕ)
      → seal key nonce plaintext aad ≡ some sealed
      → unseal key nonce sealed aad ≡ some plaintext
  pub length-seal :
      (key nonce plaintext aad sealed : List ℕ)
      → seal key nonce plaintext aad ≡ some sealed
      → length sealed ≡ length plaintext + 16
  pub length-unseal :
      (key nonce ciphertext aad opened : List ℕ)
      → unseal key nonce ciphertext aad ≡ some opened
      → length opened + 16 ≡ length ciphertext
  pub ct_eq_iff : (a b : List ℕ) → length a ≡ length b → (ct_eq a b ≡ true) ↔ (a ≡ b)
  pub length-hmac : (key message : List ℕ) → length (hmac key message) ≡ 32

-- The exchange of the crate x25519-dalek, on the bytes of its keys: both sides compute one secret.
pub record Exchange : Type 0 where
  pub public_bytes : (secret : List ℕ) → List ℕ
  pub diffie_hellman : (secret peer_public : List ℕ) → List ℕ
  pub diffie_hellman_comm :
      (a b : List ℕ) → diffie_hellman a (public_bytes b) ≡ diffie_hellman b (public_bytes a)
  pub length-public_bytes : (secret : List ℕ) → length (public_bytes secret) ≡ 32

abbrev pub max_nonce : ℕ
max_nonce = 2 ^ 64 - 2

pub record SessionKeys : Type 0 where
  pub client_write_key : List ℕ
  pub server_write_key : List ℕ

-- `NonceCounter`, whose one field is the value.
pub record NonceCounter : Type 0 where
  pub value : ℕ

-- `v.to_le_bytes()` in eight bytes, padded to twelve by zeros.
to_bytes : NonceCounter → List ℕ
to_bytes c = reverse (to_be 8 c.value) ++ (0 ∷ 0 ∷ 0 ∷ 0 ∷ [])

pub next : NonceCounter → Result (List ℕ × NonceCounter)
next c =
    if not (ltb c.value max_nonce)
    then err nonce_exhausted
    else ok (to_bytes c, record { value = (c.value + 1) % 2 ^ 64 })

pub nonce_from_sequence : ℕ → List ℕ
nonce_from_sequence seq = 0 ∷ 0 ∷ 0 ∷ 0 ∷ to_be 8 seq

abbrev or_crypto {ℓ} : {A : Type ℓ} → Option A → Result A
or_crypto none = err crypto
or_crypto (some a) = ok a

-- "kanrin-client-write"
abbrev client_write_label : List ℕ
client_write_label =
    107 ∷ 97 ∷ 110 ∷ 114 ∷ 105 ∷ 110 ∷ 45 ∷ 99 ∷ 108 ∷ 105 ∷ 101 ∷ 110 ∷ 116 ∷ 45 ∷ 119 ∷ 114 ∷ 105
    ∷ 116 ∷ 101 ∷ []

-- "kanrin-server-write"
abbrev server_write_label : List ℕ
server_write_label =
    107 ∷ 97 ∷ 110 ∷ 114 ∷ 105 ∷ 110 ∷ 45 ∷ 115 ∷ 101 ∷ 114 ∷ 118 ∷ 101 ∷ 114 ∷ 45 ∷ 119 ∷ 114 ∷ 105
    ∷ 116 ∷ 101 ∷ []

-- "kanrin-resumption"
abbrev resumption_label : List ℕ
resumption_label =
    107 ∷ 97 ∷ 110 ∷ 114 ∷ 105 ∷ 110 ∷ 45 ∷ 114 ∷ 101 ∷ 115 ∷ 117 ∷ 109 ∷ 112 ∷ 116 ∷ 105 ∷ 111
    ∷ 110 ∷ []

-- What a mac is fed, part by part.
unfoldable pub concatenate : List (List ℕ) → List ℕ
concatenate [] = []
concatenate (part ∷ parts) = part ++ concatenate parts

module _ (prim : Primitives) where
  unfoldable pub encrypt : (key nonce plaintext aad : List ℕ) → Result (List ℕ)
  encrypt key nonce plaintext aad = or_crypto (prim.seal key nonce plaintext aad)

  unfoldable pub decrypt : (key nonce ciphertext aad : List ℕ) → Result (List ℕ)
  decrypt key nonce ciphertext aad = or_crypto (prim.unseal key nonce ciphertext aad)

  pub constant_time_eq : List ℕ → List ℕ → Bool
  constant_time_eq a b = if not (length a == length b) then false else prim.ct_eq a b

  -- `Hkdf::new(Some(salt), shared_secret)`, expanded once for each direction.
  unfoldable pub derive_session_keys : (shared_secret salt : List ℕ) → Result SessionKeys
  derive_session_keys shared_secret salt = do
    client_key ← or_crypto (prim.expand (some salt) shared_secret client_write_label)
    server_key ← or_crypto (prim.expand (some salt) shared_secret server_write_label)
    ok (record { client_write_key = client_key; server_write_key = server_key })

  -- `Hkdf::new(None, ikm)`, where `ikm` is one write key behind the other.
  unfoldable pub derive_resumption_key : SessionKeys → Result (List ℕ)
  derive_resumption_key keys =
      or_crypto (prim.expand none (keys.client_write_key ++ keys.server_write_key) resumption_label)

  unfoldable pub mac_sha256 : (key : List ℕ) (parts : List (List ℕ)) → List ℕ
  unfolding concatenate
  mac_sha256 key parts = prim.hmac key (concatenate parts)
