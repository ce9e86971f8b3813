-- ===== src/Postbacks/Tests.antt =====
-- The theorems of the archive at small deliveries.
use gemone.Prelude.{
  any, false, ◌⊎◌, ◌≡◌, ◌+◌, ◌==◌, refl, true, none, some, Text, codes, List, [], ◌∷◌, map, ok,
  arith,
}
use gemone.Postbacks.Types.{
  ProviderPostback, Json, string, number, object, array, no_field, field, item, no_item,
}
use gemone.Postbacks.Replay.{QueryValue, one, many, to_raw_request}
use gemone.Postbacks.Capture.{
  capture_payload, capture_query, capture_query_from, assign, put_field, capture_value, proto_key,
}
use gemone.Postbacks.Query.{defined}
use gemone.Postbacks.Roundtrip.{IsSmall, AreSmall, SmallFields, to_raw_request-capture_payload}
use gemone.Postbacks.Intake.{
  IntakeProvider, IntakeAdapter, PostbackEnvelope, transaction, IntakeServices, duplicate, accepted,
  receive, archive, create_postback, new_postback,
}
use gemone.Providers.Range.{is_postback_source_allowed}
use gemone.Postbacks.Acknowledged.{IsGenuine, IsArchived, IsRefused, receive_lem}
use gemone.Postbacks.Repeated.{Delivery, receive_all, duplicates, receive_again}

abbrev network : IntakeServices
network = record {
  find_by_slug = λ slug. some (record { id = 4; slug = slug; postback_ip_ranges = [] });
  require_adapter = λ slug. ok (record { verify = λ e. true; parse = λ e. transaction e.method });
  is_space = λ c. c == 32;
  to_upper_case = λ s. s;
}

abbrev query : List (Text × QueryValue)
query = (codes "sub_id", one (codes "abc")) ∷ (codes "tag", many (codes "x" ∷ codes "y" ∷ [])) ∷ []

abbrev body : Json
body = object (
    field (codes "payout") (number (codes "1.50")) (
      field (codes "events")
        (array (item (object (field (codes "id") (string (codes "e1")) no_field)) no_item))
        no_field))

-- A delivery whose transaction is named by its method.
abbrev delivery : Text → PostbackEnvelope
delivery t = record {
  provider_slug = codes "acme";
  method = t;
  query = defined query;
  body = body;
  raw_body = none;
  header = λ name. none;
  source_ip = none;
}

abbrev first : PostbackEnvelope
first = delivery (codes "t1")

abbrev stored : List ProviderPostback
stored = (receive 1 10 network first []).1

abbrev between : List Delivery
between =
    record { services = network; envelope = delivery (codes "t2"); id = 2; now = 11 }
    ∷ record { services = network; envelope = first; id = 3; now = 12 }
    ∷ []

receive_again_example :
    ((receive 5 13 network first (receive_all stored between)).0 ≡ ok duplicate)
    × (map (λ p. p.id) (receive 5 13 network first (receive_all stored between)).1
        ≡ map (λ p. p.id) (receive_all stored between))
    × (duplicates (receive 5 13 network first (receive_all stored between)).1
        ≡ duplicates (receive_all stored between) + 1)
receive_again_example =
    receive_again 1 5 10 13 network first [] stored accepted between
      (unfold receive is_postback_source_allowed archive create_postback in refl)

id_new : any (λ q. 3 == q.id) stored ≡ false
unfolding receive is_postback_source_allowed archive create_postback new_postback
id_new = refl

-- The same delivery twice: the second is a duplicate of the row of the first.
receive_lem_example :
    ((provider : IntakeProvider) × (adapter : IntakeAdapter) × (t : Text) × IsGenuine network first
        provider adapter t
      × IsArchived 3 12 network first stored id_new provider.id t)
    ⊎ (((provider : IntakeProvider) (adapter : IntakeAdapter) (t : Text)
          → ¬ IsGenuine network first provider adapter t)
        × IsRefused 3 12 network first stored id_new)
receive_lem_example = receive_lem 3 12 network first stored id_new

to_raw_request-capture_payload_example :
    (to_raw_request
      (capture_payload (λ s. s) (codes "POST") (defined query) body)
      (object no_field)
      none).body
    ≡ body
unfolding IsSmall AreSmall SmallFields
to_raw_request-capture_payload_example =
    (to_raw_request-capture_payload (λ s. s) (codes "POST") query body (object no_field) none
      (omega arith)
      (
        ((omega arith, refl), omega arith),
        (((omega arith, refl), (omega arith, (omega arith, (omega arith, tt)))), tt),
      )
      ((refl, tt), (tt, tt))
      (
        omega arith,
        (
          (omega arith, refl),
          tt,
          (refl, tt),
          (
            (omega arith, refl),
            (omega arith, ((omega arith, ((omega arith, refl), omega arith, tt, tt)), tt)),
            tt,
            tt,
          ),
        ),
      )).1

-- A field with the key `__proto__` is not in the archive.
proto_lost :
    capture_query ((proto_key, some (one (codes "x"))) ∷ (codes "a", some (one (codes "y"))) ∷ [])
    ≡ field (codes "a") (string (codes "y")) no_field
unfolding capture_query capture_query_from assign put_field capture_value
proto_lost = refl
