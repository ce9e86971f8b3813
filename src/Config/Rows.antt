-- ===== src/Config/Rows.antt =====
-- The rows that `set` and `unset` leave (apps/api/src/core/config/configuration.service.ts): the row of the entry
-- written, and the rows of the other entries.
use gemone.Prelude.{
  ◌≡◌, refl, ap, inl, inr, true, false, none, some, List, [], ◌∷◌, not, filter_by, find_first,
  is_some, Bool-cases, Option-cases, find_first-update_first, find_first-update_first_ne,
  find_first-passes, if◌then◌else◌,
}
use gemone.Prelude.Json.{Json}
use gemone.Config.Types.{
  ConfigurationKeyDefinition, ConfigActor, SetConfigurationOptions, InvalidationEntry, same_entry,
  ConfigurationValue, ConfigurationTables,
}
use gemone.Config.Read.{is_at, find_value, parsed_row, reading}
use gemone.Config.Write.{Stamp, upsert, write_set, write_unset, set_in}
use gemone.Config.Machine.{Commit, set_row, unset_row}
use gemone.Config.Keys.{same_entry_refl, same_entry→eq}

module _ (e f : InvalidationEntry) (apart : same_entry e f ≡ false) where
  elsewhere : (x : ConfigurationValue) → is_at f x ≡ true → is_at e x ≡ false
  elsewhere x here = rw (same_entry→eq f x.entry here) at apart

  find_value-upsert_ne :
      (stamp : Stamp) (d : ConfigurationKeyDefinition) (value : Json) (actor : ConfigActor)
      (values : List ConfigurationValue)
      → find_value e (upsert stamp d f value actor values) ≡ find_value e values
  unfolding find_value upsert find_first
  find_value-upsert_ne stamp d value actor values =
      elim (Bool-cases (is_some (find_value f values))) [
        | inl found ↦ rw found (
            find_first-update_first_ne (is_at e) (is_at f) _ values
              (λ x here. (elsewhere x here, elsewhere x here)))
        | inr absent ↦ rw (absent, apart) refl
      ]

  find_value-filter_by_ne :
      (values : List ConfigurationValue)
      → find_value e (filter_by (λ row. not (is_at f row)) values) ≡ find_value e values
  unfolding find_value find_first
  find_value-filter_by_ne [] = refl
  find_value-filter_by_ne (x ∷ xs) = elim (Bool-cases (is_at f x)) [
    | inl here ↦ rw (here, elsewhere x here) (find_value-filter_by_ne xs)
    | inr other ↦ rw other (ap (λ r. if is_at e x then some x else r) (find_value-filter_by_ne xs))
  ]

  -- A commit changes no reading but that of its own entry.
  pub reading-Commit :
      (d : ConfigurationKeyDefinition) (t t' : ConfigurationTables)
      → Commit f t t'
      → reading d e t'.values ≡ reading d e t.values
  unfolding reading write_set write_unset
  reading-Commit d t t' (set_row stamp d' value o) =
      ap (parsed_row d) (find_value-upsert_ne stamp d' value o.actor t.values)
  reading-Commit d t t' (unset_row stamp o value found) =
      rw (found, write_unset) (ap (parsed_row d) (find_value-filter_by_ne t.values))

module _ (e : InvalidationEntry) where
  -- The row that `set` leaves has the value that it validated.
  pub reading-write_set :
      (stamp : Stamp) (d d' : ConfigurationKeyDefinition) (value : Json)
      (o : SetConfigurationOptions) (t : ConfigurationTables)
      → reading d e (write_set stamp d' e value o t).1.values ≡ d.safe_parse value
  unfolding reading write_set upsert find_value find_first
  reading-write_set stamp d d' value o t = elim (Option-cases (find_value e t.values)) [
    | inl absent ↦ rw (absent, find_value) (rw (same_entry_refl e) refl)
    | inr (row, found) ↦
        rw (found, find_value)
          (rw
            (find_first-update_first (is_at e) (set_in d' value o.actor) row t.values found
              (find_first-passes (is_at e) row t.values found))
            refl)
  ]

  filtered-none :
      (values : List ConfigurationValue)
      → find_value e (filter_by (λ row. not (is_at e row)) values) ≡ none
  unfolding find_value find_first
  filtered-none [] = refl
  filtered-none (x ∷ xs) = elim (Bool-cases (is_at e x)) [
    | inl here ↦ rw here (filtered-none xs)
    | inr other ↦ rw (other, other) (filtered-none xs)
  ]

  -- After `unset` there is no row.
  pub reading-write_unset :
      (stamp : Stamp) (d : ConfigurationKeyDefinition) (o : SetConfigurationOptions)
      (t : ConfigurationTables)
      → reading d e (write_unset stamp e o t).1.values ≡ none
  unfolding reading write_unset
  reading-write_unset stamp d o t = elim (Option-cases (find_value e t.values)) [
    | inl absent ↦ rw (absent, write_unset) (rw absent refl)
    | inr (row, found) ↦ rw (found, write_unset) (rw (filtered-none t.values) refl)
  ]
