-- ===== src/Conversions/Process.antt =====
-- `process` of apps/api/src/modules/conversions/conversions.service.ts: one archived postback, to its
-- outcome.
use gemone.Prelude.{ℕ, Bool, true, false, none, some, Text, codes, AppError, ok, err, if◌then◌else◌}
use gemone.Postbacks.Types.{ProviderPostback, PostbackState}
use gemone.Postbacks.Lifecycle.{find_postback, mark_quarantined, mark_failed}
use gemone.Conversions.Types.{
  QuarantineReason, sub_id_invalid, click_not_found, attribution_expired, provider_mismatch,
  currency_mismatch, reversal_original_not_found, reversal_ambiguous, payload_unreadable,
  provider_unavailable, Tables,
}
use gemone.Conversions.Pipeline.{Services, done, quarantine, failure, Work, attribute}
use gemone.Conversions.Persist.{Ids, persist}

abbrev pub is_received : PostbackState → Bool
is_received PostbackState.received = true
is_received PostbackState.processed = false
is_received PostbackState.quarantined = false
is_received PostbackState.rejected = false
is_received PostbackState.failed = false

-- The name of a reason, which `error_detail` keeps.
abbrev pub reason_name : QuarantineReason → Text
reason_name sub_id_invalid = codes "SUB_ID_INVALID"
reason_name click_not_found = codes "CLICK_NOT_FOUND"
reason_name attribution_expired = codes "ATTRIBUTION_EXPIRED"
reason_name provider_mismatch = codes "PROVIDER_MISMATCH"
reason_name currency_mismatch = codes "CURRENCY_MISMATCH"
reason_name reversal_original_not_found = codes "REVERSAL_ORIGINAL_NOT_FOUND"
reason_name reversal_ambiguous = codes "REVERSAL_AMBIGUOUS"
reason_name payload_unreadable = codes "PAYLOAD_UNREADABLE"
reason_name provider_unavailable = codes "PROVIDER_UNAVAILABLE"

-- `ConversionProcessingResult`, or the error that the job ends with.
pub data Outcome : Type 0 where
  converted : ℕ → Outcome
  quarantined : QuarantineReason → Outcome
  skipped : Outcome
  threw : AppError → Outcome

-- The row is marked before the error is thrown on; a mark that cannot be written is passed over.
unfoldable pub fail_with : Services → ℕ → AppError → Tables → Outcome × Tables
fail_with s i e d = elim s.mark_failure [
  | none ↦ (threw e, record d { postbacks = mark_failed i (s.describe_failure e) d.postbacks })
  | some _ ↦ (threw e, d)
]

-- A quarantine whose mark cannot be written throws the error of the write.
unfoldable pub quarantine_with : Services → ℕ → QuarantineReason → Tables → Outcome × Tables
quarantine_with s i r d = elim s.mark_failure [
  | none ↦ (
    Outcome.quarantined r,
    record d { postbacks = mark_quarantined i (reason_name r) d.postbacks },
  )
  | some e ↦ (threw e, d)
]

unfoldable pub finish : Services → Ids → ProviderPostback → Work → Tables → Outcome × Tables
unfolding fail_with
finish s c postback w d = elim (persist s c postback w d) [
  | ok (x, d') ↦ (converted x.id, d')
  | err e ↦ fail_with s postback.id e d
]

unfoldable pub process_received : Services → Ids → ProviderPostback → Tables → Outcome × Tables
unfolding finish fail_with quarantine_with
process_received s c postback d = elim (attribute s c.now postback d) [
  | done w ↦ finish s c postback w d
  | quarantine r ↦ quarantine_with s postback.id r d
  | failure e ↦ fail_with s postback.id e d
]

unfoldable pub process : Services → Ids → ℕ → Tables → Outcome × Tables
unfolding process_received
process s c i d = elim (find_postback i d.postbacks) [
  | none ↦ (skipped, d)
  | some postback ↦
      if is_received postback.state then process_received s c postback d else (skipped, d)
]
