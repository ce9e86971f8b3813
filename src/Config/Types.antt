-- ===== src/Config/Types.antt =====
-- apps/api/src/core/config/configuration-key.ts, the types of configuration.service.ts, and the rows
-- of `configuration_values` and `configuration_history` (apps/api/prisma/schema.prisma). A schema is
-- its `safeParse`: what it makes of a value, or none when it refuses it.
use gemone.Prelude.{ℕ, Bool, true, false, Option, Text, List, text_eq, ◌&&◌}
use gemone.Prelude.Json.{Json}

pub data ConfigScope : Type 0 where
  provider global : ConfigScope

abbrev pub same_scope : ConfigScope → ConfigScope → Bool
same_scope ConfigScope.provider ConfigScope.provider = true
same_scope ConfigScope.global ConfigScope.global = true
same_scope _ _ = false

-- `object` tells the definition objects apart, as `===` does.
pub record ConfigurationKeyDefinition : Type 0 where
  pub object : ℕ
  pub key : Text
  pub safe_parse : Json → Option Json
  pub default_value : Json
  pub scopes : List ConfigScope
  pub value_type : Text

pub data Source : Type 0 where
  stored : ConfigScope → Source
  default : Source

pub record ResolvedConfiguration : Type 0 where
  pub key : Text
  pub value : Json
  pub source : Source
  pub scope_id : Option Text

pub data ConfigActor : Type 0 where
  admin : Text → ConfigActor
  system migration : ConfigActor

pub record SetConfigurationOptions : Type 0 where
  pub scope : Option ConfigScope
  pub scope_id : Option Text
  pub reason : Option Text
  pub actor : ConfigActor

-- The unique key of a row, and what a broadcast names.
pub record InvalidationEntry : Type 0 where
  pub key : Text
  pub scope : ConfigScope
  pub scope_id : Text

abbrev pub same_entry : InvalidationEntry → InvalidationEntry → Bool
same_entry e f = text_eq e.key f.key && same_scope e.scope f.scope && text_eq e.scope_id f.scope_id

pub record WrittenConfiguration : Type 0 where
  pub entry : InvalidationEntry
  pub previous_value : Json
  pub value : Json

pub record ConfigurationValue : Type 0 where
  pub id : ℕ
  pub entry : InvalidationEntry
  pub value : Json
  pub value_type : Text
  pub updated_by : Text

-- A value of none is the database's NULL.
pub record ConfigurationHistory : Type 0 where
  pub id : ℕ
  pub entry : InvalidationEntry
  pub old_value : Option Json
  pub new_value : Option Json
  pub actor_type : Text
  pub actor_id : Option Text
  pub reason : Option Text
  pub created_at : ℕ

-- The newest history in front.
pub record ConfigurationTables : Type 0 where
  pub values : List ConfigurationValue
  pub history : List ConfigurationHistory

-- One process. A cached miss is an entry of none. `published` is what it has handed to the bus, the
-- latest in front.
pub record ConfigurationService : Type 0 where
  pub definitions : List (Text × ConfigurationKeyDefinition)
  pub cache : List (Text × Option Json)
  pub generation : ℕ
  pub published : List InvalidationEntry
