-- ===== src/Postbacks/Roundtrip.antt =====
-- `toRawRequest` of postback-replay.ts after `capturePayload` of request-capture.ts
-- (apps/api/src/modules/conversions/internal): what processing parses against what intake parsed.
use gemone.Prelude.{
  ℕ, zero, suc, ◌≤◌, ◌≡◌, refl, sym, ap, ◌∙◌, Option, Text, List, [], ◌∷◌, length, All, arith,
}
use gemone.Postbacks.Types.{
  Json, null, boolean, number, string, array, object, JsonList, no_item, item, JsonFields, no_field,
  field,
}
use gemone.Postbacks.Replay.{QueryValue, lookup, to_raw_request}
use gemone.Postbacks.Capture.{
  max_value, max_keys, put_field, assign, capture_query, capture_body, capture_items,
  capture_fields, capture_payload,
}
use gemone.Postbacks.Query.{
  take_all, Short, Kept, assign-put_field, ShortValue, Absent, DistinctKeys, defined, Absent-assign,
  as_query-capture_query_from, length_items, length_fields, NoKey,
}

-- A body with at most `levels` levels of containers, none of more than 128 entries, no text of more
-- than 2048, and no object with a key twice or a key `__proto__`.
unfoldable mutual
  pub IsSmall : ℕ → Json → Type 0
  IsSmall levels null = Unit
  IsSmall levels (string s) = Short s
  IsSmall levels (number n) = Unit
  IsSmall levels (boolean b) = Unit
  IsSmall zero (array js) = ⊥
  IsSmall zero (object fs) = ⊥
  IsSmall (suc levels) (array js) = (length_items js ≤ max_keys) × AreSmall levels js
  IsSmall (suc levels) (object fs) = (length_fields fs ≤ max_keys) × SmallFields levels fs

  pub AreSmall : ℕ → JsonList → Type 0
  AreSmall levels no_item = Unit
  AreSmall levels (item j js) = IsSmall levels j × AreSmall levels js

  pub SmallFields : ℕ → JsonFields → Type 0
  SmallFields levels no_field = Unit
  SmallFields levels (field k v fs) = Kept k × IsSmall levels v × NoKey k fs × SmallFields levels fs

abbrev append_field : JsonFields → Text → Json → JsonFields
append_field no_field k v = field k v no_field
append_field (field name w fs) k v = field name w (append_field fs k v)

abbrev append_fields : JsonFields → JsonFields → JsonFields
append_fields no_field gs = gs
append_fields (field k v fs) gs = field k v (append_fields fs gs)

put_field-Absent :
    (k : Text) (v : Json) (fs : JsonFields) → Absent k fs → put_field k v fs ≡ append_field fs k v
unfolding put_field
put_field-Absent k v no_field a = refl
put_field-Absent k v (field name w fs) a =
    rw (a.0) (ap (λ r. field name w r) (put_field-Absent k v fs a.1))

append_fields_one :
    (fs gs : JsonFields) (k : Text) (v : Json)
    → append_fields (append_field fs k v) gs ≡ append_fields fs (field k v gs)
append_fields_one no_field gs k v = refl
append_fields_one (field name w fs) gs k v = ap (λ r. field name w r) (append_fields_one fs gs k v)

abbrev Fresh : JsonFields → JsonFields → Type 0
Fresh no_field captured = Unit
Fresh (field k v fs) captured = Absent k captured × Fresh fs captured

Fresh-assign :
    (k : Text) (v : Json) (captured fs : JsonFields)
    → NoKey k fs
    → Fresh fs captured
    → Fresh fs (assign k v captured)
Fresh-assign k v captured no_field ne a = tt
Fresh-assign k v captured (field name w fs) ne a =
    (Absent-assign name k v captured ne.0 a.0, Fresh-assign k v captured fs ne.1 a.1)

Fresh-empty : (fs : JsonFields) → Fresh fs no_field
Fresh-empty no_field = tt
Fresh-empty (field k v fs) = (tt, Fresh-empty fs)

append_fields_none : (fs : JsonFields) → append_fields fs no_field ≡ fs
append_fields_none no_field = refl
append_fields_none (field k v fs) = ap (λ r. field k v r) (append_fields_none fs)

mutual
  unfolding capture_body capture_items capture_fields IsSmall AreSmall SmallFields

  capture_body_small : (levels : ℕ) (j : Json) → IsSmall levels j → capture_body levels j ≡ j
  capture_body_small levels null h = refl
  capture_body_small levels (string s) h = ap string (take_all max_value s h)
  capture_body_small levels (number n) h = refl
  capture_body_small levels (boolean b) h = refl
  capture_body_small zero (array js) h = absurd h
  capture_body_small zero (object fs) h = absurd h
  capture_body_small (suc levels) (array js) h =
      ap array (capture_items_small levels max_keys js h.0 h.1)
  capture_body_small (suc levels) (object fs) h =
      ap object (capture_fields_small levels max_keys fs no_field h.0 h.1 (Fresh-empty fs))

  capture_items_small :
      (levels n : ℕ) (js : JsonList)
      → length_items js ≤ n
      → AreSmall levels js
      → capture_items levels n js ≡ js
  capture_items_small levels n no_item len h = refl
  capture_items_small levels zero (item j js) len h = absurd (omega arith)
  capture_items_small levels (suc n) (item j js) len h =
      ap (λ r. item r (capture_items levels n js)) (capture_body_small levels j h.0)
      ∙ ap (λ r. item j r) (capture_items_small levels n js (omega arith) h.1)

  capture_fields_small :
      (levels n : ℕ) (fs captured : JsonFields)
      → length_fields fs ≤ n
      → SmallFields levels fs
      → Fresh fs captured
      → capture_fields levels n fs captured ≡ append_fields captured fs
  capture_fields_small levels n no_field captured len h a = sym (append_fields_none captured)
  capture_fields_small levels zero (field k v fs) captured len h a = absurd (omega arith)
  capture_fields_small levels (suc n) (field k v fs) captured len h a =
      ap (λ name. capture_fields levels n fs (assign name (capture_body levels v) captured))
        (take_all max_value k h.0.0)
      ∙ (ap (λ r. capture_fields levels n fs (assign k r captured))
            (capture_body_small levels v h.1)
          ∙ (capture_fields_small levels n fs (assign k v captured) (omega arith) h.3
                (Fresh-assign k v captured fs h.2 a.1)
              ∙ (ap (λ r. append_fields r fs)
                    (assign-put_field k v captured h.0 ∙ put_field-Absent k v captured a.0)
                  ∙ append_fields_one captured fs k v)))

Absent-empty : (q : List (Text × QueryValue)) → All (λ e. Absent e.0 no_field) q
Absent-empty [] = tt
Absent-empty (e ∷ q) = (tt, Absent-empty q)

-- A delivery within the limits is replayed as it was: the query and the body that processing parses
-- are those that intake parsed, if no key is `__proto__`, longer than 2048 or there twice, no value is longer, there
-- are at most 128 entries at each level, and the body has at most four levels of containers.
pub to_raw_request-capture_payload :
    (to_upper_case : Text → Text) (method : Text) (q : List (Text × QueryValue))
    (body headers : Json) (source_ip : Option Text)
    → length q ≤ max_keys
    → All (λ e. Kept e.0 × ShortValue e.1) q
    → DistinctKeys q
    → IsSmall 4 body
    → let replayed =
        to_raw_request (capture_payload to_upper_case method (defined q) body) headers source_ip in
      (replayed.query ≡ q) × (replayed.body ≡ body)
unfolding to_raw_request capture_payload lookup capture_query
to_raw_request-capture_payload to_upper_case method q body headers source_ip len short distinct
      small =
    (
      as_query-capture_query_from max_keys q no_field len short distinct (Absent-empty q),
      capture_body_small 4 body small,
    )
