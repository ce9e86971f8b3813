-- ===== src/Config/Read.antt =====
-- The reads of apps/api/src/core/config/configuration.service.ts: `register`, `readStored`, `remember` and
-- `resolve`, with the invalidations of the cache.
use gemone.Prelude.{
  ℕ, suc, Bool, Option, none, some, Text, codes, List, [], ◌∷◌, ◌++◌, any, ◌==◌, if◌then◌else◌,
  Result, ok, err, config_unknown_key, config_already_registered, get_at, delete_at, put_at,
  find_first,
}
use gemone.Prelude.Json.{Json}
use gemone.Config.Types.{
  ConfigScope, provider, global, same_scope, ConfigurationKeyDefinition, stored, default,
  ResolvedConfiguration, InvalidationEntry, same_entry, ConfigurationValue, ConfigurationTables,
  ConfigurationService,
}

abbrev pub global_scope_id : Text
global_scope_id = []

abbrev pub scope_text : ConfigScope → Text
scope_text provider = codes "PROVIDER"
scope_text global = codes "GLOBAL"

-- 124 is the code of `|`.
unfoldable pub cache_key : InvalidationEntry → Text
cache_key e = e.key ++ (124 ∷ scope_text e.scope ++ (124 ∷ e.scope_id))

unfoldable pub register :
    ConfigurationKeyDefinition → ConfigurationService → Result ConfigurationService
register d s =
    let registered = record s { definitions = put_at d.key d s.definitions } in
    elim (get_at d.key s.definitions) [
      | none ↦ ok registered
      | some existing ↦
          if existing.object == d.object then ok registered else err config_already_registered
    ]

unfoldable pub invalidate : InvalidationEntry → ConfigurationService → ConfigurationService
invalidate e s = record s { cache = delete_at (cache_key e) s.cache; generation = suc s.generation }

unfoldable pub invalidate_all : ConfigurationService → ConfigurationService
invalidate_all s = record s { cache = []; generation = suc s.generation }

unfoldable pub invalidate_and_broadcast :
    InvalidationEntry → ConfigurationService → ConfigurationService
invalidate_and_broadcast e s =
    let dropped = invalidate e s in record dropped { published = e ∷ dropped.published }

-- What the subscriber of `onModuleInit` does with a message.
unfoldable pub on_message : Option InvalidationEntry → ConfigurationService → ConfigurationService
on_message none s = invalidate_all s
on_message (some e) s = invalidate e s

abbrev pub is_at : InvalidationEntry → ConfigurationValue → Bool
is_at e row = same_entry e row.entry

unfoldable pub find_value : InvalidationEntry → List ConfigurationValue → Option ConfigurationValue
find_value e = find_first (is_at e)

abbrev pub parsed_row : ConfigurationKeyDefinition → Option ConfigurationValue → Option Json
parsed_row d none = none
parsed_row d (some row) = d.safe_parse row.value

-- What a query finds, as `readStored` reads it: none for no row and for a row that the schema refuses.
unfoldable pub reading :
    ConfigurationKeyDefinition → InvalidationEntry → List ConfigurationValue → Option Json
reading d e values = parsed_row d (find_value e values)

unfoldable pub remember : Text → Option Json → ℕ → ConfigurationService → ConfigurationService
remember key value generation s =
    if generation == s.generation then record s { cache = put_at key value s.cache } else s

-- A read that nothing comes between.
unfoldable pub read_stored :
    ConfigurationKeyDefinition
    → InvalidationEntry
    → ConfigurationTables
    → ConfigurationService
    → Option Json × ConfigurationService
read_stored d e t s = elim (get_at (cache_key e) s.cache) [
  | some cached ↦ (cached, s)
  | none ↦ let found = reading d e t.values in (found, remember (cache_key e) found s.generation s)
]

abbrev pub provider_entry : Text → Text → InvalidationEntry
provider_entry key scope_id = record { key = key; scope = provider; scope_id = scope_id }

abbrev pub global_entry : Text → Text → InvalidationEntry
global_entry key scope_id = record { key = key; scope = global; scope_id = scope_id }

abbrev pub has_scope : ConfigScope → ConfigurationKeyDefinition → Bool
has_scope scope d = any (same_scope scope) d.scopes

abbrev pub resolved_at : InvalidationEntry → Option Text → Json → ResolvedConfiguration
resolved_at e scope_id value = record {
  key = e.key;
  value = value;
  source = stored e.scope;
  scope_id = scope_id;
}

abbrev pub resolved_default : Text → ConfigurationKeyDefinition → ResolvedConfiguration
resolved_default key d = record {
  key = key;
  value = d.default_value;
  source = default;
  scope_id = none;
}

-- The end of the chain: the global row, then the default.
abbrev pub or_default : ConfigurationKeyDefinition → Text → Option Json → ResolvedConfiguration
or_default d key none = resolved_default key d
or_default d key (some value) = resolved_at (global_entry key global_scope_id) none value

unfoldable pub resolve_global :
    ConfigurationKeyDefinition
    → Text
    → ConfigurationTables
    → ConfigurationService
    → ResolvedConfiguration × ConfigurationService
resolve_global d key t s =
    let (found, s') = read_stored d (global_entry key global_scope_id) t s in
    (or_default d key found, s')

unfoldable pub resolve_scoped :
    ConfigurationKeyDefinition
    → Text
    → Text
    → ConfigurationTables
    → ConfigurationService
    → ResolvedConfiguration × ConfigurationService
resolve_scoped d key scope_id t s =
    let e = provider_entry key scope_id in
    let (found, s') = read_stored d e t s in
    elim found [
      | some value ↦ (resolved_at e (some scope_id) value, s')
      | none ↦ resolve_global d key t s'
    ]

unfoldable pub resolve_with :
    ConfigurationKeyDefinition
    → Text
    → Option Text
    → ConfigurationTables
    → ConfigurationService
    → ResolvedConfiguration × ConfigurationService
resolve_with d key none t s = resolve_global d key t s
resolve_with d key (some scope_id) t s =
    if has_scope provider d then resolve_scoped d key scope_id t s else resolve_global d key t s

unfoldable pub require_definition : Text → ConfigurationService → Result ConfigurationKeyDefinition
require_definition key s = elim (get_at key s.definitions) [
  | none ↦ err config_unknown_key
  | some d ↦ ok d
]

unfoldable pub resolve :
    Text
    → Option Text
    → ConfigurationTables
    → ConfigurationService
    → Result (ResolvedConfiguration × ConfigurationService)
resolve key scope_id t s = elim (require_definition key s) [
  | err x ↦ err x
  | ok d ↦ ok (resolve_with d key scope_id t s)
]
