-- ===== src/Config/Write.antt =====
-- The writes of apps/api/src/core/config/configuration.service.ts: `set` and `unset`. The `client` is whether
-- the caller owns the transaction; a throw leaves the tables and the process as they were.
use gemone.Prelude.{
  ℕ, Bool, true, false, not, ◌&&◌, Option, none, some, Text, codes, text_eq, List, ◌∷◌, is_some,
  filter_by, if◌then◌else◌, Result, ok, err, config_invalid_scope, config_invalid_value,
  update_first,
}
use gemone.Prelude.Json.{Json, null}
use gemone.Config.Types.{
  ConfigScope, provider, global, same_scope, ConfigurationKeyDefinition, ConfigActor, admin, system,
  migration, SetConfigurationOptions, InvalidationEntry, WrittenConfiguration, ConfigurationValue,
  ConfigurationHistory, ConfigurationTables, ConfigurationService,
}
use gemone.Config.Read.{
  global_scope_id, invalidate_and_broadcast, is_at, find_value, has_scope, require_definition,
}

pub record ConfigurationState : Type 0 where
  pub service : ConfigurationService
  pub tables : ConfigurationTables

-- The ids that the database gives the two rows, and the time.
pub record Stamp : Type 0 where
  pub value_id : ℕ
  pub history_id : ℕ
  pub now : ℕ

abbrev pub type_of_actor : ConfigActor → Text
type_of_actor (admin _) = codes "admin"
type_of_actor system = codes "system"
type_of_actor migration = codes "migration"

abbrev pub id_of_actor : ConfigActor → Option Text
id_of_actor (admin id) = some id
id_of_actor _ = none

abbrev pub author_of : ConfigActor → Text
author_of (admin id) = id
author_of actor = type_of_actor actor

abbrev pub given_or : {A : Type 0} → A → Option A → A
given_or a none = a
given_or a (some b) = b

abbrev pub scope_of : SetConfigurationOptions → ConfigScope
scope_of o = given_or global o.scope

abbrev pub scope_id_of : SetConfigurationOptions → Text
scope_id_of o =
    if same_scope (scope_of o) global then global_scope_id else given_or global_scope_id o.scope_id

abbrev pub entry_of : Text → SetConfigurationOptions → InvalidationEntry
entry_of key o = record { key = key; scope = scope_of o; scope_id = scope_id_of o }

abbrev pub set_in :
    ConfigurationKeyDefinition → Json → ConfigActor → ConfigurationValue → ConfigurationValue
set_in d value actor row = record row {
  value = value;
  value_type = d.value_type;
  updated_by = author_of actor;
}

unfoldable pub upsert :
    Stamp
    → ConfigurationKeyDefinition
    → InvalidationEntry
    → Json
    → ConfigActor
    → List ConfigurationValue
    → List ConfigurationValue
upsert stamp d e value actor values =
    if is_some (find_value e values)
    then update_first (is_at e) (set_in d value actor) values
    else record {
      id = stamp.value_id;
      entry = e;
      value = value;
      value_type = d.value_type;
      updated_by = author_of actor;
    }
      ∷ values

abbrev pub history_row :
    Stamp
    → InvalidationEntry
    → Option Json
    → Option Json
    → SetConfigurationOptions
    → ConfigurationHistory
history_row stamp e old_value new_value o = record {
  id = stamp.history_id;
  entry = e;
  old_value = old_value;
  new_value = new_value;
  actor_type = type_of_actor o.actor;
  actor_id = id_of_actor o.actor;
  reason = o.reason;
  created_at = stamp.now;
}

abbrev pub value_of : Option ConfigurationValue → Option Json
value_of none = none
value_of (some row) = some row.value

abbrev pub stored_value : InvalidationEntry → List ConfigurationValue → Option Json
stored_value e values = value_of (find_value e values)

-- The transaction of `set`.
unfoldable pub write_set :
    Stamp
    → ConfigurationKeyDefinition
    → InvalidationEntry
    → Json
    → SetConfigurationOptions
    → ConfigurationTables
    → Option Json × ConfigurationTables
write_set stamp d e value o t =
    let previous = stored_value e t.values in
    (
      previous,
      record {
        values = upsert stamp d e value o.actor t.values;
        history = history_row stamp e previous (some value) o ∷ t.history;
      },
    )

unfoldable pub set_checks :
    Text
    → Json
    → SetConfigurationOptions
    → ConfigurationService
    → Result (ConfigurationKeyDefinition × Json)
set_checks key value o s = elim (require_definition key s) [
  | err x ↦ err x
  | ok d ↦
      if not (has_scope (scope_of o) d)
      then err config_invalid_scope
      else if same_scope (scope_of o) provider && text_eq (scope_id_of o) global_scope_id
      then err config_invalid_scope
      else elim (d.safe_parse value) [
        | none ↦ err config_invalid_value
        | some validated ↦ ok (d, validated)
      ]
]

abbrev pub after_commit : Bool → InvalidationEntry → ConfigurationService → ConfigurationService
after_commit client e s = if client then s else invalidate_and_broadcast e s

abbrev pub written_configuration : InvalidationEntry → Json → Json → WrittenConfiguration
written_configuration e previous value = record {
  entry = e;
  previous_value = previous;
  value = value;
}

unfoldable pub set :
    Stamp
    → Text
    → Json
    → SetConfigurationOptions
    → Bool
    → ConfigurationState
    → Result (WrittenConfiguration × ConfigurationState)
set stamp key value o client s = elim (set_checks key value o s.service) [
  | err x ↦ err x
  | ok (d, validated) ↦
      let e = entry_of key o in
      let (previous, t) = write_set stamp d e validated o s.tables in
      ok (
        written_configuration e (given_or null previous) validated,
        record { service = after_commit client e s.service; tables = t },
      )
]

-- The transaction of `unset`: the value that it removed. Nothing comes between the query and the
-- removal here, so the count of what `deleteMany` removes is not 0.
unfoldable pub write_unset :
    Stamp
    → InvalidationEntry
    → SetConfigurationOptions
    → ConfigurationTables
    → Option Json × ConfigurationTables
write_unset stamp e o t = elim (stored_value e t.values) [
  | none ↦ (none, t)
  | some value ↦ (
    some value,
    record {
      values = filter_by (λ row. not (is_at e row)) t.values;
      history = history_row stamp e (some value) none o ∷ t.history;
    },
  )
]

abbrev pub is_null : Json → Bool
is_null null = true
is_null _ = false

-- `previous === null`: nothing was removed, or what was removed is the null of JSON.
abbrev pub is_nothing : Option Json → Bool
is_nothing none = true
is_nothing (some value) = is_null value

unfoldable pub unset_checked :
    Stamp
    → InvalidationEntry
    → SetConfigurationOptions
    → Bool
    → ConfigurationState
    → Option WrittenConfiguration × ConfigurationState
unset_checked stamp e o client s =
    let (previous, t) = write_unset stamp e o s.tables in
    if is_nothing previous then (none, record s { tables = t }) else (
      some (written_configuration e (given_or null previous) null),
      record { service = after_commit client e s.service; tables = t },
    )

unfoldable pub unset :
    Stamp
    → Text
    → SetConfigurationOptions
    → Bool
    → ConfigurationState
    → Result (Option WrittenConfiguration × ConfigurationState)
unset stamp key o client s = elim (require_definition key s.service) [
  | err x ↦ err x
  | ok d ↦
      if has_scope (scope_of o) d
      then ok (unset_checked stamp (entry_of key o) o client s)
      else err config_invalid_scope
]
