-- ===== src/Postbacks/Capture.antt =====
-- apps/api/src/modules/conversions/internal/request-capture.ts: what of a delivery is archived. A body
-- is the value that the JSON parser made of it; `to_upper_case` is the engine's.
use gemone.Prelude.{
  ℕ, zero, suc, Option, none, some, Text, codes, text_eq, List, [], ◌∷◌, ◌++◌, map, take,
  if◌then◌else◌,
}
use gemone.Postbacks.Types.{
  Json, null, boolean, number, string, array, object, JsonList, no_item, item, JsonFields, no_field,
  field,
}
use gemone.Postbacks.Replay.{QueryValue, one, many}

abbrev pub max_value : ℕ
max_value = 2048

abbrev pub max_keys : ℕ
max_keys = 128

-- The value of a key that is there, or a new last field.
unfoldable pub put_field : Text → Json → JsonFields → JsonFields
put_field k v no_field = field k v no_field
put_field k v (field name old fs) =
    if text_eq k name then field name v fs else field name old (put_field k v fs)

abbrev pub proto_key : Text
proto_key = codes "__proto__"

-- `captured[key] = value` on an object that began as `{}`: the key `__proto__` runs the setter of the
-- prototype, which adds no property.
unfoldable pub assign : Text → Json → JsonFields → JsonFields
assign k v fs = if text_eq k proto_key then fs else put_field k v fs

abbrev pub json_of_texts : List Text → JsonList
json_of_texts [] = no_item
json_of_texts (s ∷ ss) = item (string s) (json_of_texts ss)

unfoldable pub capture_value : QueryValue → Json
capture_value (one s) = string (take max_value s)
capture_value (many ss) = array (json_of_texts (map (take max_value) (take max_keys ss)))

-- The loop of `captureQuery`, with the number of keys that may still be captured; an undefined value
-- is passed over.
unfoldable pub capture_query_from : ℕ → List (Text × Option QueryValue) → JsonFields → JsonFields
unfolding assign capture_value
capture_query_from n [] captured = captured
capture_query_from zero (entry ∷ q) captured = captured
capture_query_from (suc n) ((k, none) ∷ q) captured = capture_query_from (suc n) q captured
capture_query_from (suc n) ((k, some v) ∷ q) captured =
    capture_query_from n q (assign (take max_value k) (capture_value v) captured)

unfoldable pub capture_query : List (Text × Option QueryValue) → JsonFields
capture_query q = capture_query_from max_keys q no_field

abbrev truncated : Json
truncated = string (codes "[truncated]")

-- `captureBody`, with the number of levels of containers that are still kept; the fields of an object
-- are assigned in order.
unfoldable mutual
  pub capture_body : ℕ → Json → Json
  capture_body levels null = null
  capture_body levels (string s) = string (take max_value s)
  capture_body levels (number n) = number n
  capture_body levels (boolean b) = boolean b
  capture_body zero (array js) = truncated
  capture_body zero (object fs) = truncated
  capture_body (suc levels) (array js) = array (capture_items levels max_keys js)
  capture_body (suc levels) (object fs) = object (capture_fields levels max_keys fs no_field)

  pub capture_items : ℕ → ℕ → JsonList → JsonList
  capture_items levels n no_item = no_item
  capture_items levels zero (item j js) = no_item
  capture_items levels (suc n) (item j js) =
      item (capture_body levels j) (capture_items levels n js)

  pub capture_fields : ℕ → ℕ → JsonFields → JsonFields → JsonFields
  capture_fields levels n no_field captured = captured
  capture_fields levels zero (field k v fs) captured = captured
  capture_fields levels (suc n) (field k v fs) captured =
      capture_fields levels n fs (assign (take max_value k) (capture_body levels v) captured)

-- `capturePayload`
unfoldable pub capture_payload :
    (Text → Text) → Text → List (Text × Option QueryValue) → Json → Json
capture_payload to_upper_case method query body = object (
    field (codes "method") (string (take 16 (to_upper_case method))) (
      field (codes "query") (object (capture_query query))
        (field (codes "body") (capture_body 4 body) no_field)))

-- `CAPTURED_HEADERS`
abbrev captured_headers : List Text
captured_headers =
    codes "content-type"
    ∷ codes "user-agent"
    ∷ codes "host"
    ∷ codes "referer"
    ∷ codes "x-forwarded-for"
    ∷ codes "x-real-ip"
    ∷ codes "x-request-id"
    ∷ codes "date"
    ∷ []

abbrev join : List Text → Text
join [] = []
join (s ∷ []) = s
join (s ∷ t ∷ ss) = s ++ codes ", " ++ join (t ∷ ss)

abbrev header_text : QueryValue → Text
header_text (one s) = s
header_text (many ss) = join ss

abbrev keep_header : Text → Text → JsonFields → JsonFields
keep_header name [] rest = rest
keep_header name (c ∷ s) rest = field name (string (take max_value (c ∷ s))) rest

-- `captureHeaders`, from the names on the list; `header` is the lookup in the request's headers.
unfoldable pub capture_headers_from : (Text → Option QueryValue) → List Text → JsonFields
capture_headers_from header [] = no_field
capture_headers_from header (name ∷ names) =
    let rest = capture_headers_from header names in
    elim (header name) [ none ↦ rest | some v ↦ keep_header name (header_text v) rest ]

unfoldable pub capture_headers : (Text → Option QueryValue) → Json
capture_headers header = object (capture_headers_from header captured_headers)
