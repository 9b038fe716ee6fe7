-- ===== src/Protocol/Handshake/Auth.antt =====
-- The server accepts the password that it expects, and no other.
use kanrin.Common.{
  ℕ, ltb, if◌then◌else◌, ◌≡◌, ◌+◌, ◌↔◌, ◌++◌, [], append-nil, refl, List, Option-cases, Bool-cases,
  inl, inr, arith, length, length-append,
}
use kanrin.Common.Bytes.{slice?-append, slice?_total}
use kanrin.Protocol.Error.{ok}
use kanrin.Protocol.Crypto.{Primitives, SessionKeys, encrypt, decrypt, constant_time_eq}
use kanrin.Protocol.Crypto.Compare.{constant_time_eq_iff}
use kanrin.Protocol.Handshake.{ClientFinished, AuthStatus, authenticated, invalid_credentials}
use kanrin.Protocol.Handshake.Client.{auth_label, client_finished}
use kanrin.Protocol.Handshake.Server.{verify_auth}

module _ (prim : Primitives) where
  pub verify_auth_total :
      (f : ClientFinished) (keys : SessionKeys) (expected : List ℕ)
      → (s : AuthStatus) × (verify_auth prim f keys expected ≡ ok s)
  unfolding verify_auth decrypt
  verify_auth_total f keys expected = elim (Bool-cases (ltb (length f.encrypted_auth) 12)) [
    | inl short ↦ (invalid_credentials, ground (arith, short))
    | inr long ↦
        let (nonce, a, _) = slice?_total 0 12 f.encrypted_auth (omega arith) (ground arith) in
        let (sealed, b, _) =
          slice?_total 12 (length f.encrypted_auth) f.encrypted_auth (ground arith) (omega arith) in
        elim (Option-cases (prim.unseal keys.client_write_key nonce sealed auth_label)) [
          | inl refused ↦ (invalid_credentials, ground (arith, long, a, b, refused))
          | inr (opened, done) ↦ (
            if constant_time_eq prim opened expected then authenticated else invalid_credentials,
            ground (arith, long, a, b, done),
          )
        ]
  ]

  -- A server accepts the last message of a client with the same keys, made with a nonce of twelve
  -- bytes, if and only if the password in it is the one expected.
  pub verify_auth-client_finished :
      (password expected nonce : List ℕ) (keys : SessionKeys) {f : ClientFinished}
      → length nonce ≡ 12
      → client_finished prim password keys nonce ≡ ok f
      → (verify_auth prim f keys expected ≡ ok authenticated) ↔ (password ≡ expected)
  unfolding verify_auth client_finished encrypt decrypt
  verify_auth-client_finished password expected nonce keys {f = f} twelve e =
      elim (Option-cases (prim.seal keys.client_write_key nonce password auth_label)) [
        | inl refused ↦ ground (arith, refused)
        | inr (sealed, done) ↦
            let behind = slice?-append nonce sealed [] 12 (12 + length sealed) in
            let opened =
              prim.unseal-seal keys.client_write_key nonce password auth_label sealed done in
            let auth : f.encrypted_auth ≡ nonce ++ sealed = ground (arith, done) in
            rw auth (
              ground (
                arith,
                done,
                opened,
                slice?-append [] nonce sealed 0 12 refl,
                rw append-nil at behind,
                length-append nonce sealed,
                constant_time_eq_iff prim password expected,
              ))
      ]
