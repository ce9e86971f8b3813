-- ===== src/Postbacks/Types.antt =====
-- packages/contracts/src/postbacks.ts, and the rows of `provider_postbacks`
-- (apps/api/prisma/schema.prisma). What a delivery carries is archived as a value of JSON.
use gemone.Prelude.{ℕ, Option, Text}
pub use gemone.Prelude.Json.{
  Json, null, boolean, number, string, array, object, JsonList, no_item, item, JsonFields, no_field,
  field,
}

pub data PostbackState : Type 0 where
  received processed quarantined rejected failed : PostbackState

pub record ProviderPostback : Type 0 where
  pub id : ℕ
  pub provider_id : ℕ
  pub external_transaction_id : Option Text
  pub payload : Json
  pub headers : Json
  pub source_ip : Option Text
  pub state : PostbackState
  pub processing_attempts : ℕ
  pub error_detail : Option Text
  pub duplicate_count : ℕ
  pub last_duplicate_at : Option ℕ
  pub received_at : ℕ
