-- ===== src/Postbacks/Replay.antt =====
-- apps/api/src/modules/conversions/internal/postback-replay.ts: the archived delivery as the request
-- that an adapter parses. An object's keys are distinct, so a copy of its fields is built in order.
use gemone.Prelude.{Option, none, some, Text, codes, text_eq, List, [], ◌∷◌, if◌then◌else◌}
use gemone.Postbacks.Types.{
  Json, null, boolean, number, string, array, object, JsonList, no_item, item, JsonFields, no_field,
  field,
}

pub data QueryValue : Type 0 where
  one : Text → QueryValue
  many : List Text → QueryValue

-- `RawPostbackRequest` without `rawBody`, which is not archived.
pub record RawPostbackRequest : Type 0 where
  pub query : List (Text × QueryValue)
  pub body : Json
  pub headers : List (Text × Text)
  pub source_ip : Text

abbrev pub as_record : Json → JsonFields
as_record (object fs) = fs
as_record null = no_field
as_record (boolean b) = no_field
as_record (number n) = no_field
as_record (string s) = no_field
as_record (array js) = no_field

unfoldable pub lookup : Text → JsonFields → Option Json
lookup k no_field = none
lookup k (field name v fs) = if text_eq k name then some v else lookup k fs

-- `filter((entry) => typeof entry === 'string')`
abbrev pub strings_of : JsonList → List Text
strings_of no_item = []
strings_of (item (string s) js) = s ∷ strings_of js
strings_of (item null js) = strings_of js
strings_of (item (boolean b) js) = strings_of js
strings_of (item (number n) js) = strings_of js
strings_of (item (array a) js) = strings_of js
strings_of (item (object o) js) = strings_of js

unfoldable pub as_query : JsonFields → List (Text × QueryValue)
as_query no_field = []
as_query (field k (string s) fs) = (k, one s) ∷ as_query fs
as_query (field k (array js) fs) = (k, many (strings_of js)) ∷ as_query fs
as_query (field k null fs) = as_query fs
as_query (field k (boolean b) fs) = as_query fs
as_query (field k (number n) fs) = as_query fs
as_query (field k (object o) fs) = as_query fs

unfoldable pub as_headers : JsonFields → List (Text × Text)
as_headers no_field = []
as_headers (field k (string s) fs) = (k, s) ∷ as_headers fs
as_headers (field k (array js) fs) = as_headers fs
as_headers (field k null fs) = as_headers fs
as_headers (field k (boolean b) fs) = as_headers fs
as_headers (field k (number n) fs) = as_headers fs
as_headers (field k (object o) fs) = as_headers fs

abbrev or_null : Option Json → Json
or_null none = null
or_null (some j) = j

abbrev or_empty : Option Text → Text
or_empty none = []
or_empty (some s) = s

unfoldable pub to_raw_request : Json → Json → Option Text → RawPostbackRequest
unfolding lookup as_query as_headers
to_raw_request payload headers source_ip =
    let fields = as_record payload in
    record {
      query = as_query (as_record (or_null (lookup (codes "query") fields)));
      body = or_null (lookup (codes "body") fields);
      headers = as_headers (as_record headers);
      source_ip = or_empty source_ip;
    }
