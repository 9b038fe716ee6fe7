-- ===== src/Protocol/Session/Migration.antt =====
-- The migration token of a session.
use kanrin.Common.{ℕ, ◌≡◌, ◌↔◌, refl, true, false, List}
use kanrin.Protocol.Crypto.{Primitives}
use kanrin.Protocol.Session.{
  Session, generate_migration_token, validate_migration_token, begin_migration, complete_migration,
}
use kanrin.Protocol.Crypto.Compare.{constant_time_eq_iff}

module _ (prim : Primitives) where
  -- While a session migrates, the token that was generated is valid and no other is; once the
  -- migration is complete, none is.
  pub validate_migration_token_iff :
      (s : Session) (token other : List ℕ)
      → ((validate_migration_token prim (begin_migration (generate_migration_token s token).1) other
            ≡ true)
          ↔ (token ≡ other))
        × (validate_migration_token prim
              (complete_migration (begin_migration (generate_migration_token s token).1))
              other
            ≡ false)
  unfolding validate_migration_token begin_migration generate_migration_token complete_migration
  validate_migration_token_iff s token other = (constant_time_eq_iff prim token other, refl)
