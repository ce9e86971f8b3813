-- ===== src/Postbacks/Query.antt =====
-- The query of a delivery, captured and read back (apps/api/src/modules/conversions/internal,
-- request-capture.ts and postback-replay.ts).
use gemone.Prelude.{
  ℕ, zero, suc, ◌≤◌, ◌≡◌, refl, sym, ap, ◌∙◌, false, Option, some, Text, text_eq, List, [], ◌∷◌,
  ◌++◌, map, take, length, All, arith, Bool-cases, inl, inr,
}
use gemone.Postbacks.Types.{
  Json, null, boolean, number, string, array, object, JsonList, no_item, item, JsonFields, no_field,
  field,
}
use gemone.Postbacks.Replay.{QueryValue, one, many, strings_of, as_query}
use gemone.Postbacks.Capture.{
  max_value, max_keys, proto_key, put_field, assign, json_of_texts, capture_value,
  capture_query_from,
}

pub take_all : {A : Type 0} (n : ℕ) (xs : List A) → length xs ≤ n → take n xs ≡ xs
take_all zero [] h = refl
take_all zero (x ∷ xs) h = absurd (omega arith)
take_all (suc n) [] h = refl
take_all (suc n) (x ∷ xs) h = ap (λ ys. x ∷ ys) (take_all n xs (omega arith))

-- A text, and a value of a query, that is short enough to be kept whole.
abbrev pub Short : Text → Type 0
Short s = length s ≤ max_value

-- A key that is kept: short enough, and a property of its own when it is assigned.
abbrev pub Kept : Text → Type 0
Kept s = Short s × (text_eq s proto_key ≡ false)

abbrev pub ShortValue : QueryValue → Type 0
ShortValue (one s) = Short s
ShortValue (many ss) = (length ss ≤ max_keys) × All Short ss

abbrev pub Absent : Text → JsonFields → Type 0
Absent k no_field = Unit
Absent k (field name v fs) = (text_eq k name ≡ false) × Absent k fs

abbrev pub DistinctKeys : List (Text × QueryValue) → Type 0
DistinctKeys [] = Unit
DistinctKeys (e ∷ q) = All (λ x. text_eq x.0 e.0 ≡ false) q × DistinctKeys q

abbrev pub defined : List (Text × QueryValue) → List (Text × Option QueryValue)
defined [] = []
defined ((k, v) ∷ q) = (k, some v) ∷ defined q

map-take : (ss : List Text) → All Short ss → map (take max_value) ss ≡ ss
map-take [] h = refl
map-take (s ∷ ss) h = rw (take_all max_value s h.0, map-take ss h.1) refl

strings_of-json_of_texts : (ss : List Text) → strings_of (json_of_texts ss) ≡ ss
strings_of-json_of_texts [] = refl
strings_of-json_of_texts (s ∷ ss) = ap (λ xs. s ∷ xs) (strings_of-json_of_texts ss)

pub assign-put_field :
    (k : Text) (v : Json) (fs : JsonFields) → Kept k → assign k v fs ≡ put_field k v fs
unfolding assign
assign-put_field k v fs h = rw (h.1) refl

-- A new key is read back after the others.
as_query-put_field :
    (k : Text) (v : QueryValue) (fs : JsonFields)
    → ShortValue v
    → Absent k fs
    → as_query (put_field k (capture_value v) fs) ≡ as_query fs ++ ((k, v) ∷ [])
unfolding as_query put_field capture_value
as_query-put_field k (one s) no_field h a = rw (take_all max_value s h) refl
as_query-put_field k (many ss) no_field h a =
    rw (take_all max_keys ss h.0, map-take ss h.1, strings_of-json_of_texts ss) refl
as_query-put_field k v (field name (string s) fs) h a =
    rw (a.0) (ap (λ q. (name, one s) ∷ q) (as_query-put_field k v fs h a.1))
as_query-put_field k v (field name (array js) fs) h a =
    rw (a.0) (ap (λ q. (name, many (strings_of js)) ∷ q) (as_query-put_field k v fs h a.1))
as_query-put_field k v (field name null fs) h a = rw (a.0) (as_query-put_field k v fs h a.1)
as_query-put_field k v (field name (boolean b) fs) h a = rw (a.0) (as_query-put_field k v fs h a.1)
as_query-put_field k v (field name (number n) fs) h a = rw (a.0) (as_query-put_field k v fs h a.1)
as_query-put_field k v (field name (object o) fs) h a = rw (a.0) (as_query-put_field k v fs h a.1)

Absent-put_field :
    (k name : Text) (v : Json) (fs : JsonFields)
    → text_eq k name ≡ false
    → Absent k fs
    → Absent k (put_field name v fs)
unfolding put_field
Absent-put_field k name v no_field ne a = (ne, tt)
Absent-put_field k name v (field other w fs) ne a = elim (Bool-cases (text_eq name other)) [
  | inl same ↦ rw same a
  | inr apart ↦ rw apart (a.0, Absent-put_field k name v fs ne a.1)
]

pub Absent-assign :
    (k name : Text) (v : Json) (fs : JsonFields)
    → text_eq k name ≡ false
    → Absent k fs
    → Absent k (assign name v fs)
unfolding assign
Absent-assign k name v fs ne a = elim (Bool-cases (text_eq name proto_key)) [
  | inl lost ↦ rw lost a
  | inr own ↦ rw own (Absent-put_field k name v fs ne a)
]

All-Absent-assign :
    (name : Text) (v : Json) (fs : JsonFields) (q : List (Text × QueryValue))
    → All (λ x. text_eq x.0 name ≡ false) q
    → All (λ x. Absent x.0 fs) q
    → All (λ x. Absent x.0 (assign name v fs)) q
All-Absent-assign name v fs [] d a = tt
All-Absent-assign name v fs (e ∷ q) d a =
    (Absent-assign e.0 name v fs d.0 a.0, All-Absent-assign name v fs q d.1 a.1)

append_assoc : {A : Type 0} (x : A) (xs ys : List A) → (xs ++ (x ∷ [])) ++ ys ≡ xs ++ (x ∷ ys)
append_assoc x [] ys = refl
append_assoc x (z ∷ xs) ys = ap (λ r. z ∷ r) (append_assoc x xs ys)

append_nil : {A : Type 0} (xs : List A) → xs ++ [] ≡ xs
append_nil [] = refl
append_nil (x ∷ xs) = ap (λ r. x ∷ r) (append_nil xs)

pub as_query-capture_query_from :
    (n : ℕ) (q : List (Text × QueryValue)) (fs : JsonFields)
    → length q ≤ n
    → All (λ e. Kept e.0 × ShortValue e.1) q
    → DistinctKeys q
    → All (λ e. Absent e.0 fs) q
    → as_query (capture_query_from n (defined q) fs) ≡ as_query fs ++ q
unfolding capture_query_from
as_query-capture_query_from n [] fs len short distinct absent = sym (append_nil (as_query fs))
as_query-capture_query_from zero (e ∷ q) fs len short distinct absent = absurd (omega arith)
as_query-capture_query_from (suc n) ((k, v) ∷ q) fs len short distinct absent =
    ap (λ name. as_query (capture_query_from n (defined q) (assign name (capture_value v) fs)))
      (take_all max_value k short.0.0.0)
    ∙ (as_query-capture_query_from n q (assign k (capture_value v) fs) (omega arith) short.1
          distinct.1 (All-Absent-assign k (capture_value v) fs q distinct.0 absent.1)
        ∙ (ap (λ r. r ++ q)
              (ap as_query (assign-put_field k (capture_value v) fs short.0.0)
                ∙ as_query-put_field k v fs short.0.1 absent.0)
            ∙ append_assoc (k, v) (as_query fs) q))

abbrev pub length_items : JsonList → ℕ
length_items no_item = 0
length_items (item j js) = suc (length_items js)

abbrev pub length_fields : JsonFields → ℕ
length_fields no_field = 0
length_fields (field k v fs) = suc (length_fields fs)

abbrev pub NoKey : Text → JsonFields → Type 0
NoKey k no_field = Unit
NoKey k (field name v fs) = (text_eq name k ≡ false) × NoKey k fs
