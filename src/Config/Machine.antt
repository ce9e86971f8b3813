-- ===== src/Config/Machine.antt =====
-- One process and the tables (apps/api/src/core/config/configuration.service.ts): the reads that wait for
-- their query, the commits of any process, and the invalidations on their way here, in any order.
use gemone.Prelude.{ℕ, ◌≡◌, Option, none, some, List, [], ◌∷◌, ◌++◌, Text, get_at}
use gemone.Prelude.Json.{Json}
use gemone.Config.Types.{
  ConfigurationKeyDefinition, SetConfigurationOptions, InvalidationEntry, ConfigurationTables,
  ConfigurationService,
}
use gemone.Config.Read.{cache_key, reading, remember, invalidate, invalidate_all}
use gemone.Config.Write.{Stamp, stored_value, write_set, write_unset}

-- A read that missed the cache: the generation it captured, and what its query found once it has answered.
pub record Read : Type 0 where
  pub definition : ConfigurationKeyDefinition
  pub entry : InvalidationEntry
  pub generation : ℕ
  pub answer : Option (Option Json)

-- `pending`: the entries whose rows have changed since, and whose invalidations have still to arrive.
pub record System : Type 0 where
  pub service : ConfigurationService
  pub tables : ConfigurationTables
  pub reads : List Read
  pub pending : List InvalidationEntry

-- A transaction that commits, of this process or of another.
pub data Commit (e : InvalidationEntry) (t : ConfigurationTables)
    : ConfigurationTables → Type 0 where
  set_row :
      (stamp : Stamp) (d : ConfigurationKeyDefinition) (value : Json) (o : SetConfigurationOptions)
      → Commit e t (write_set stamp d e value o t).1
  unset_row :
      (stamp : Stamp) (o : SetConfigurationOptions) (value : Json)
      → stored_value e t.values ≡ some value
      → Commit e t (write_unset stamp e o t).1

abbrev pub asked : ConfigurationKeyDefinition → InvalidationEntry → System → Read
asked d e s = record { definition = d; entry = e; generation = s.service.generation; answer = none }

abbrev pub answered : Read → System → Read
answered r s = record r { answer = some (reading r.definition r.entry s.tables.values) }

pub data Step (s : System) : System → Type 0 where
  began :
      (d : ConfigurationKeyDefinition) (e : InvalidationEntry)
      → get_at e.key s.service.definitions ≡ some d
      → get_at (cache_key e) s.service.cache ≡ none
      → Step s (record s { reads = asked d e s ∷ s.reads })
  queried :
      (before after : List Read) (r : Read)
      → s.reads ≡ before ++ (r ∷ after)
      → Step s (record s { reads = before ++ (answered r s ∷ after) })
  finished :
      (before after : List Read) (r : Read) (found : Option Json)
      → s.reads ≡ before ++ (r ∷ after)
      → r.answer ≡ some found
      → Step s (record s {
        service = remember (cache_key r.entry) found r.generation s.service;
        reads = before ++ after;
      })
  written :
      (e : InvalidationEntry) (t : ConfigurationTables)
      → Commit e s.tables t
      → Step s (record s { tables = t; pending = e ∷ s.pending })
  delivered :
      (before after : List InvalidationEntry) (e : InvalidationEntry)
      → s.pending ≡ before ++ (e ∷ after)
      → Step s (record s { service = invalidate e s.service; pending = before ++ after })
  repeated : (e : InvalidationEntry) → Step s (record s { service = invalidate e s.service })
  resynced : Step s (record s { service = invalidate_all s.service; pending = [] })

-- A process starts with its definitions, and an empty cache.
abbrev pub started : List (Text × ConfigurationKeyDefinition) → ConfigurationTables → System
started definitions t = record {
  service = record { definitions = definitions; cache = []; generation = 0; published = [] };
  tables = t;
  reads = [];
  pending = [];
}

pub data Reachable (definitions : List (Text × ConfigurationKeyDefinition)) : System → Type 0 where
  start : (t : ConfigurationTables) → Reachable definitions (started definitions t)
  later : (s s' : System) → Reachable definitions s → Step s s' → Reachable definitions s'
