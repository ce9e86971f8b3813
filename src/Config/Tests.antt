-- ===== src/Config/Tests.antt =====
-- Runs of the settings on concrete tables.
use gemone.Prelude.{
  ◌≡◌, refl, inl, inr, true, false, Option, none, some, Text, codes, text_eq, List, [], ◌∷◌, ok,
  get_at, some-inj, Bool-cases, text_eq→eq, find_first,
}
use gemone.Prelude.Json.{Json, null, boolean, number, string, array, object}
use gemone.Config.Types.{
  stored, provider, global, ConfigurationKeyDefinition, admin, SetConfigurationOptions,
  InvalidationEntry, ConfigurationTables, ConfigurationService,
}
use gemone.Config.Read.{
  cache_key, reading, find_value, invalidate_and_broadcast, provider_entry, remember, invalidate,
  resolve, require_definition,
}
use gemone.Config.Write.{
  ConfigurationState, Stamp, entry_of, write_set, set, set_checks, written_configuration,
}
use gemone.Config.Machine.{
  Read, System, set_row, asked, answered, began, queried, finished, written, delivered, started,
  Reachable, start, later,
}
use gemone.Config.Cached.{ArePlain, IsCoherent}
use gemone.Config.Coherence.{Reachable-IsCoherent}
use gemone.Config.Applied.{resolve-set}
use gemone.Config.Audit.{Change, set_to, unset_at, IsAudited, run_changes, run_changes-IsAudited}

abbrev numbers_only : Json → Option Json
numbers_only (number t) = some (number t)
numbers_only _ = none

abbrev hold_days : ConfigurationKeyDefinition
hold_days = record {
  object = 1;
  key = codes "rewards.hold";
  safe_parse = numbers_only;
  default_value = number (codes "30");
  scopes = global ∷ provider ∷ [];
  value_type = codes "number";
}

abbrev hold_registry : List (Text × ConfigurationKeyDefinition)
hold_registry = (codes "rewards.hold", hold_days) ∷ []

hold_registry-ArePlain : ArePlain hold_registry
unfolding get_at
hold_registry-ArePlain key d known = elim (Bool-cases (text_eq key (codes "rewards.hold"))) [
  | inl same ↦ rw (text_eq→eq key (codes "rewards.hold") same) refl
  | inr other ↦ let bad = rw other at known in cc
]

abbrev empty_tables : ConfigurationTables
empty_tables = record { values = []; history = [] }

abbrev hold_at : InvalidationEntry
hold_at = provider_entry (codes "rewards.hold") (codes "p1")

abbrev by_root : SetConfigurationOptions
by_root = record {
  scope = some provider;
  scope_id = some (codes "p1");
  reason = none;
  actor = admin (codes "root");
}

abbrev stamp : Stamp
stamp = record { value_id = 1; history_id = 2; now = 3 }

abbrev sixty : Json
sixty = number (codes "60")

-- A read whose query answers, then a commit, then its invalidation, and only then the read's end.
abbrev fresh : System
fresh = started hold_registry empty_tables

abbrev waiting : Read
waiting = asked hold_days hold_at fresh

abbrev waits : System
waits = record fresh { reads = waiting ∷ [] }

abbrev has_answer : System
has_answer = record waits { reads = answered waiting waits ∷ [] }

abbrev changed : System
changed = record has_answer {
  tables = (write_set stamp hold_days hold_at sixty by_root empty_tables).1;
  pending = hold_at ∷ [];
}

abbrev dropped : System
dropped = record changed { service = invalidate hold_at changed.service; pending = [] }

abbrev ended : System
ended = record dropped { service = remember (cache_key hold_at) none 0 dropped.service; reads = [] }

ended-Reachable : Reachable hold_registry ended
unfolding get_at reading find_value find_first
ended-Reachable =
    later dropped ended
      (later changed dropped
        (later has_answer changed
          (later waits has_answer
            (later fresh waits (start empty_tables) (began hold_days hold_at refl refl))
            (queried [] [] waiting refl))
          (written hold_at _ (set_row stamp hold_days sixty by_root)))
        (delivered [] [] hold_at refl))
      (finished [] [] (answered waiting waits) none refl refl)

Reachable-IsCoherent_example : IsCoherent ended
Reachable-IsCoherent_example =
    Reachable-IsCoherent hold_registry ended hold_registry-ArePlain ended-Reachable

abbrev before_set : ConfigurationState
before_set = record { service = fresh.service; tables = empty_tables }

abbrev after_set : ConfigurationState
after_set = record {
  service = invalidate_and_broadcast hold_at fresh.service;
  tables = (write_set stamp hold_days hold_at sixty by_root empty_tables).1;
}

numbers_only-again : (v v' : Json) → numbers_only v ≡ some v' → numbers_only v' ≡ some v'
numbers_only-again (number t) v' h = rw (← some-inj (number t) v' h) refl
numbers_only-again null v' h = cc
numbers_only-again (boolean b) v' h = cc
numbers_only-again (string t) v' h = cc
numbers_only-again (array xs) v' h = cc
numbers_only-again (object xs) v' h = cc

resolve-set_example :
    (hold_at ≡ entry_of (codes "rewards.hold") by_root)
    × (numbers_only sixty ≡ some sixty)
    × (after : ConfigurationService) × (resolve
          (codes "rewards.hold")
          (some (codes "p1"))
          after_set.tables
          after_set.service
        ≡ ok (
          record {
            key = codes "rewards.hold";
            value = sixty;
            source = stored (provider);
            scope_id = some (codes "p1");
          },
          after,
        ))
unfolding get_at set set_checks require_definition write_set find_value find_first
resolve-set_example =
    resolve-set stamp (codes "rewards.hold") sixty by_root before_set after_set
      (written_configuration hold_at null sixty) hold_days refl numbers_only-again refl

abbrev set_and_unset : List Change
set_and_unset =
    set_to stamp (codes "rewards.hold") sixty by_root false
    ∷ unset_at stamp (codes "rewards.hold") by_root true
    ∷ set_to stamp (codes "unknown") sixty by_root false
    ∷ []

run_changes-IsAudited_example : IsAudited (run_changes set_and_unset before_set).tables
unfolding find_value find_first
run_changes-IsAudited_example = run_changes-IsAudited set_and_unset before_set (tt, λ e. refl)
