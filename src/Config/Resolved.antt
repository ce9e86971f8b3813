-- ===== src/Config/Resolved.antt =====
-- `resolve` and its cache against the tables (apps/api/src/core/config/configuration.service.ts, `resolve`): the
-- reference reads the rows themselves.
use gemone.Prelude.{◌≡◌, false, Option, none, some, Text, List, if◌then◌else◌, get_at}
use gemone.Prelude.Json.{Json}
use gemone.Config.Types.{
  provider, ConfigurationKeyDefinition, ResolvedConfiguration, InvalidationEntry,
  ConfigurationTables, ConfigurationService, ConfigurationValue,
}
use gemone.Config.Read.{
  global_scope_id, cache_key, reading, provider_entry, global_entry, has_scope, resolved_at,
  or_default,
}
use gemone.Config.Machine.{System}
use gemone.Config.Cached.{is_pending}

-- The value in force by the rows: the provider's, where the key takes one, then the global one, then the default.
abbrev reference_global :
    ConfigurationKeyDefinition → Text → List ConfigurationValue → ResolvedConfiguration
reference_global d key values =
    or_default d key (reading d (global_entry key global_scope_id) values)

abbrev or_global :
    ConfigurationKeyDefinition
    → Text
    → Text
    → List ConfigurationValue
    → Option Json
    → ResolvedConfiguration
or_global d key scope_id values none = reference_global d key values
or_global d key scope_id values (some value) =
    resolved_at (provider_entry key scope_id) (some scope_id) value

abbrev pub reference :
    ConfigurationKeyDefinition
    → Text
    → Option Text
    → List ConfigurationValue
    → ResolvedConfiguration
reference d key none values = reference_global d key values
reference d key (some scope_id) values =
    if has_scope provider d
    then or_global d key scope_id values (reading d (provider_entry key scope_id) values)
    else reference_global d key values

-- What the cache does not get wrong, a read answers as the row reads.
abbrev IsTrue :
    ConfigurationKeyDefinition
    → InvalidationEntry
    → ConfigurationTables
    → ConfigurationService
    → Type 0
IsTrue d e t s =
    (held : Option Json) → get_at (cache_key e) s.cache ≡ some held → held ≡ reading d e t.values

-- The entries that a resolution asks for have no invalidation on its way.
abbrev pub HasArrived : Text → Option Text → System → Type 0
HasArrived key scope_id s =
    (is_pending (global_entry key global_scope_id) s.pending ≡ false)
    × ((id : Text) → scope_id ≡ some id → is_pending (provider_entry key id) s.pending ≡ false)
