-- ===== src/Postbacks/Intake.antt =====
-- `receive` of apps/api/src/modules/conversions/postback-intake.service.ts: a delivery is checked,
-- archived once per transaction of its provider, and acknowledged.
use gemone.Prelude.{
  ℕ, ◌+◌, Bool, false, ◌&&◌, Option, none, some, Text, text_eq, List, ◌∷◌, any, ◌==◌, if◌then◌else◌,
  Result, ok, err, provider_not_found, postback_source_not_allowed, postback_signature_invalid,
  postback_payload_invalid, unique_violation, update_first,
}
use gemone.Postbacks.Types.{Json, ProviderPostback, PostbackState}
use gemone.Postbacks.Replay.{QueryValue}
use gemone.Providers.Range.{is_postback_source_allowed}
use gemone.Postbacks.Capture.{capture_payload, capture_headers}

pub record IntakeProvider : Type 0 where
  pub id : ℕ
  pub slug : Text
  pub postback_ip_ranges : List Text

-- `PostbackEnvelope`; a header is looked up by its name.
pub record PostbackEnvelope : Type 0 where
  pub provider_slug : Text
  pub method : Text
  pub query : List (Text × Option QueryValue)
  pub body : Json
  pub raw_body : Option Text
  pub header : Text → Option QueryValue
  pub source_ip : Option Text

-- The adapter of a network, as intake uses it: is the signature valid, and which transaction is it; a
-- parse that throws has the line that `summarizeFailure` makes of the error.
pub data Parsed : Type 0 where
  transaction : Text → Parsed
  unparseable : Text → Parsed

pub record IntakeAdapter : Type 0 where
  pub verify : PostbackEnvelope → Bool
  pub parse : PostbackEnvelope → Parsed

-- The providers' table and their registry, whose `require` refuses a provider that is disabled or whose
-- adapter is not up.
pub record IntakeServices : Type 0 where
  pub find_by_slug : Text → Option IntakeProvider
  pub require_adapter : Text → Result IntakeAdapter
  pub is_space : ℕ → Bool
  pub to_upper_case : Text → Text

pub data Acknowledgement : Type 0 where
  accepted duplicate : Acknowledgement

-- The unique key `(provider_id, external_transaction_id)`, in which a null clashes with nothing.
abbrev pub has_key : ℕ → Text → ProviderPostback → Bool
has_key provider_id transaction_id p =
    p.provider_id == provider_id
    && elim p.external_transaction_id [ none ↦ false | some t ↦ text_eq transaction_id t ]

abbrev pub key_clash : ℕ → Option Text → ProviderPostback → Bool
key_clash provider_id none p = false
key_clash provider_id (some t) p = has_key provider_id t p

-- `providerPostback.create`
unfoldable pub create_postback :
    ProviderPostback → List ProviderPostback → Result (ProviderPostback × List ProviderPostback)
create_postback p ps =
    if any (λ q. p.id == q.id) ps
    then err unique_violation
    else if any (key_clash p.provider_id p.external_transaction_id) ps
    then err unique_violation
    else ok (p, p ∷ ps)

unfoldable pub new_postback :
    ℕ
    → ℕ
    → IntakeServices
    → PostbackEnvelope
    → ℕ
    → Option Text
    → PostbackState
    → Option Text
    → ProviderPostback
new_postback id now s e provider_id transaction_id state detail = record {
  id = id;
  provider_id = provider_id;
  external_transaction_id = transaction_id;
  payload = capture_payload s.to_upper_case e.method e.query e.body;
  headers = capture_headers e.header;
  source_ip = e.source_ip;
  state = state;
  processing_attempts = 0;
  error_detail = detail;
  duplicate_count = 0;
  last_duplicate_at = none;
  received_at = now;
}

abbrev pub count_duplicate : ℕ → ProviderPostback → ProviderPostback
count_duplicate now p = record p {
  duplicate_count = p.duplicate_count + 1;
  last_duplicate_at = some now;
}

unfoldable pub mark_duplicate : ℕ → Text → ℕ → List ProviderPostback → List ProviderPostback
mark_duplicate provider_id transaction_id now =
    update_first (has_key provider_id transaction_id) (count_duplicate now)

-- What the handler answers, and the archive after it. A clash of the generated id, which
-- `markDuplicate` cannot find a row for, is the database's refusal of that update.
abbrev pub Received : Type 0
Received = Result Acknowledgement × List ProviderPostback

unfoldable pub archive :
    ℕ → ℕ → IntakeServices → PostbackEnvelope → ℕ → Text → List ProviderPostback → Received
archive id now s e provider_id t ps =
    elim (create_postback (new_postback id now s e provider_id (some t) PostbackState.received none)
      ps) [
        | ok (stored, ps') ↦ (ok accepted, ps')
        | err x ↦
            if any (has_key provider_id t) ps
            then (ok duplicate, mark_duplicate provider_id t now ps)
            else (err x, ps)
      ]

unfoldable pub archive_unparseable :
    ℕ → ℕ → IntakeServices → PostbackEnvelope → ℕ → Text → List ProviderPostback → Received
archive_unparseable id now s e provider_id detail ps =
    elim (create_postback
      (new_postback id now s e provider_id none PostbackState.rejected (some detail)) ps) [
        | ok (stored, ps') ↦ (err postback_payload_invalid, ps')
        | err x ↦ (err x, ps)
      ]

unfoldable pub receive :
    ℕ → ℕ → IntakeServices → PostbackEnvelope → List ProviderPostback → Received
receive id now s e ps = elim (s.find_by_slug e.provider_slug) [
  | none ↦ (err provider_not_found, ps)
  | some provider ↦ elim (s.require_adapter provider.slug) [
    | err x ↦ (err x, ps)
    | ok adapter ↦
        if is_postback_source_allowed s.is_space provider.postback_ip_ranges e.source_ip
        then if adapter.verify e
          then elim (adapter.parse e) [
            | transaction t ↦ archive id now s e provider.id t ps
            | unparseable detail ↦ archive_unparseable id now s e provider.id detail ps
          ]
          else (err postback_signature_invalid, ps)
        else (err postback_source_not_allowed, ps)
  ]
]
