-- ===== src/Config/Applied.antt =====
-- What `set` wrote is what `resolve` answers next (apps/api/src/core/config/configuration.service.ts, `set`,
-- `unset`, `resolve`).
use gemone.Prelude.{
  ◌≡◌, refl, ◌∙◌, inl, inr, Bool, true, false, ◌&&◌, Option, none, some, some-inj, Text, text_eq,
  ok, get_at, get_at-delete_at, Bool-cases, Option-cases, Result-cases,
}
use gemone.Prelude.Json.{Json, null}
use gemone.Config.Types.{
  stored, ConfigScope, provider, global, same_scope, ConfigurationKeyDefinition,
  SetConfigurationOptions, InvalidationEntry, WrittenConfiguration, ConfigurationTables,
  ConfigurationService,
}
use gemone.Config.Read.{
  global_scope_id, cache_key, reading, read_stored, invalidate, invalidate_and_broadcast,
  provider_entry, global_entry, has_scope, resolved_at, resolve_global, resolve_scoped,
  resolve_with, require_definition, resolve,
}
use gemone.Config.Write.{
  ConfigurationState, Stamp, scope_of, scope_id_of, entry_of, write_set, set_checks, after_commit,
  set, written_configuration, given_or,
}
use gemone.Config.Rows.{reading-write_set}

-- With which scope id a value that was set is asked for.
abbrev pub asked_with : ConfigScope → Text → Option Text
asked_with provider scope_id = some scope_id
asked_with global scope_id = none

-- Right after the invalidation a read answers as the row reads.
read-invalidated :
    (d : ConfigurationKeyDefinition) (e : InvalidationEntry) (t : ConfigurationTables)
    (s : ConfigurationService)
    → (read_stored d e t (invalidate_and_broadcast e s)).0 ≡ reading d e t.values
unfolding read_stored invalidate_and_broadcast invalidate
read-invalidated d e t s = rw (get_at-delete_at (cache_key e) s.cache, read_stored) refl

-- What the checks of `set` let through.
pub set_checks-ok :
    (key : Text) (value validated : Json) (o : SetConfigurationOptions) (s : ConfigurationService)
    (d : ConfigurationKeyDefinition)
    → set_checks key value o s ≡ ok (d, validated)
    → (get_at key s.definitions ≡ some d)
      × (has_scope (scope_of o) d ≡ true)
      × (d.safe_parse value ≡ some validated)
unfolding set_checks require_definition
set_checks-ok key value validated o s d h = elim (Option-cases (get_at key s.definitions)) [
  | inl unknown ↦ let bad = rw (unknown, set_checks) at h in cc
  | inr (d', known) ↦ elim (Bool-cases (has_scope (scope_of o) d')) [
    | inr foreign ↦ let bad = rw foreign at (rw (known, set_checks) at h) in cc
    | inl takes ↦
        elim (Bool-cases
          (same_scope (scope_of o) provider && text_eq (scope_id_of o) global_scope_id)) [
            | inl nowhere ↦
                let bad = rw nowhere at (rw takes at (rw (known, set_checks) at h)) in cc
            | inr somewhere ↦ elim (Option-cases (d'.safe_parse value)) [
              | inl refused ↦
                  let bad =
                    rw refused at (rw somewhere at (rw takes at (rw (known, set_checks) at h))) in
                  cc
              | inr (v, parsed) ↦
                  let made =
                    rw parsed at (rw somewhere at (rw takes at (rw (known, set_checks) at h))) in
                  let same : d' ≡ d = cc in
                  let val : v ≡ validated = cc in rw (← same, ← val) (known, takes, parsed)
            ]
          ]
  ]
]

-- A resolution that the row of an entry decides.
resolved_by :
    (key : Text) (scope : ConfigScope) (scope_id : Text) (d : ConfigurationKeyDefinition)
    (value : Json) (t : ConfigurationTables) (s : ConfigurationService)
    → get_at key s.definitions ≡ some d
    → has_scope scope d ≡ true
    → (scope ≡ global → scope_id ≡ global_scope_id)
    → (read_stored d (record { key = key; scope = scope; scope_id = scope_id }) t s).0 ≡ some value
    → (after : ConfigurationService) × (resolve key (asked_with scope scope_id) t s
        ≡ ok (
          resolved_at
              (record { key = key; scope = scope; scope_id = scope_id })
              (asked_with scope scope_id)
              value,
          after,
        ))
unfolding resolve require_definition resolve_with resolve_scoped resolve_global
resolved_by key provider scope_id d value t s known takes only there = (
  (read_stored d (provider_entry key scope_id) t s).1,
  rw (known, resolve) (rw takes (rw (there, resolve_scoped) refl)),
)
resolved_by key global scope_id d value t s known takes only there =
    let e = global_entry key global_scope_id in
    let here : (read_stored d e t s).0 ≡ some value = rw (only refl) at there in
    ((read_stored d e t s).1, rw (known, resolve) (rw (here, resolve_global) refl))

-- What an accepted `set` did.
pub set-ok :
    (stamp : Stamp) (key : Text) (value : Json) (o : SetConfigurationOptions) (client : Bool)
    (s s' : ConfigurationState) (w : WrittenConfiguration)
    → set stamp key value o client s ≡ ok (w, s')
    → (d : ConfigurationKeyDefinition) × (validated : Json) × (set_checks key value o s.service
        ≡ ok (d, validated))
      × (w
          ≡ written_configuration
              (entry_of key o)
              (given_or null (write_set stamp d (entry_of key o) validated o s.tables).0)
              validated)
      × (s' ≡ record {
        service = after_commit client (entry_of key o) s.service;
        tables = (write_set stamp d (entry_of key o) validated o s.tables).1;
      })
unfolding set
set-ok stamp key value o client s s' w h = elim (Result-cases (set_checks key value o s.service)) [
  | inl (x, refused) ↦ let bad = rw (refused, set) at h in cc
  | inr ((d, validated), passed) ↦
      let done_set = rw (passed, set) at h in (d, validated, passed, cc, cc)
]

scope_id_of-global :
    (o : SetConfigurationOptions) → scope_of o ≡ global → scope_id_of o ≡ global_scope_id
scope_id_of-global o h = rw h refl

-- After a `set` that owns its transaction and does not throw, of a key whose schema takes each value that
-- it gave back as it is: the process resolves the key, at the entry that was written, to the value that
-- the schema made of the one given, and says that the entry is its source. Its cache may hold anything
-- before.
pub resolve-set :
    (stamp : Stamp) (key : Text) (value : Json) (o : SetConfigurationOptions)
    (s s' : ConfigurationState) (w : WrittenConfiguration) (d : ConfigurationKeyDefinition)
    → get_at key s.service.definitions ≡ some d
    → ((v v' : Json) → d.safe_parse v ≡ some v' → d.safe_parse v' ≡ some v')
    → set stamp key value o false s ≡ ok (w, s')
    → (w.entry ≡ entry_of key o)
      × (d.safe_parse value ≡ some w.value)
      × (after : ConfigurationService) × (resolve key
            (asked_with (scope_of o) (scope_id_of o))
            s'.tables
            s'.service
          ≡ ok (
            record {
              key = key;
              value = w.value;
              source = stored (scope_of o);
              scope_id = asked_with (scope_of o) (scope_id_of o);
            },
            after,
          ))
unfolding invalidate_and_broadcast invalidate
resolve-set stamp key value o s s' w d known again h =
    let (d', validated, passed, written_is, state_is) = set-ok stamp key value o false s s' w h in
    let (found, takes, parsed) = set_checks-ok key value validated o s.service d' passed in
    let same = some-inj d' d (rw found at known) in
    let again' : (v v' : Json) → d'.safe_parse v ≡ some v' → d'.safe_parse v' ≡ some v' =
      rw same again in
    let e = entry_of key o in
    let t = (write_set stamp d' e validated o s.tables).1 in
    let row = read-invalidated d' e t s.service in
    let read = row ∙ reading-write_set e stamp d' d' validated o s.tables in
    let there = read ∙ again' value validated parsed in
    let (after, answer) =
      resolved_by key (scope_of o) (scope_id_of o) d' validated t
        (invalidate_and_broadcast e s.service) found takes (scope_id_of-global o) there in
    rw (written_is, state_is) (refl, rw same at parsed, after, answer)
