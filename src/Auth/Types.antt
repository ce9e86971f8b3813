-- ===== src/Auth/Types.antt =====
-- The rows and the results of apps/api/src/modules/auth/token.service.ts (apps/api/prisma/schema.prisma). A
-- random value and its hash are texts, an id is a number.
use gemone.Prelude.{ℕ, Option, Text}
use gemone.Conversions.Pipeline.{UserStatus}

pub data UserRole : Type 0 where
  user admin : UserRole

pub record Account : Type 0 where
  pub id : ℕ
  pub role : UserRole
  pub status : UserStatus

pub data RevocationReason : Type 0 where
  logout rotated reuse_detected password_reset : RevocationReason

pub record RefreshToken : Type 0 where
  pub id : ℕ
  pub user_id : ℕ
  pub family_id : ℕ
  pub token_hash : Text
  pub issued_at : ℕ
  pub expires_at : ℕ
  pub used_at : Option ℕ
  pub revoked_at : Option ℕ
  pub revoked_reason : Option RevocationReason
  pub issued_ip : Option Text
  pub issued_user_agent : Option Text

pub record SessionContext : Type 0 where
  pub ip : Option Text
  pub user_agent : Option Text

pub record IssuedSession : Type 0 where
  pub access_token : Text
  pub expires_in : ℕ
  pub refresh_token : Text
  pub refresh_expires_at : ℕ
