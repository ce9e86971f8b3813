-- ===== src/Config/Audit.antt =====
-- The history of the settings accounts for what is stored (apps/api/src/core/config/configuration.service.ts,
-- `set` and `unset`), one transaction after another.
use gemone.Prelude.{
  ◌≡◌, refl, sym, ◌∙◌, inl, inr, Bool, false, Option, none, some, Text, List, [], ◌∷◌, Result, ok,
  err, find_first, Bool-cases, Option-cases, Result-cases,
}
use gemone.Prelude.Json.{Json}
use gemone.Config.Types.{
  ConfigurationKeyDefinition, SetConfigurationOptions, InvalidationEntry, same_entry,
  ConfigurationHistory, ConfigurationValue, ConfigurationTables,
}
use gemone.Config.Read.{find_value, parsed_row, reading, has_scope, require_definition}
use gemone.Config.Write.{
  ConfigurationState, Stamp, scope_of, entry_of, value_of, stored_value, history_row, is_nothing,
  write_set, write_unset, set, unset_checked, unset,
}
use gemone.Config.Keys.{same_entry→eq}
use gemone.Config.Machine.{Commit, set_row, unset_row}
use gemone.Config.Applied.{set-ok}
use gemone.Config.Rows.{reading-Commit, reading-write_set, reading-write_unset}

pub data Change : Type 0 where
  set_to : Stamp → Text → Json → SetConfigurationOptions → Bool → Change
  unset_at : Stamp → Text → SetConfigurationOptions → Bool → Change

abbrev pub state_of :
    {A : Type 0} → ConfigurationState → Result (A × ConfigurationState) → ConfigurationState
state_of s (err x) = s
state_of s (ok (a, s')) = s'

unfoldable pub change : Change → ConfigurationState → ConfigurationState
change (set_to stamp key value o client) s = state_of s (set stamp key value o client s)
change (unset_at stamp key o client) s = state_of s (unset stamp key o client s)

unfoldable pub run_changes : List Change → ConfigurationState → ConfigurationState
run_changes [] s = s
run_changes (c ∷ cs) s = run_changes cs (change c s)

abbrev new_value_of : Option ConfigurationHistory → Option Json
new_value_of none = none
new_value_of (some row) = row.new_value

-- What the latest row of the history says that an entry has.
abbrev pub latest : InvalidationEntry → List ConfigurationHistory → Option Json
latest e history = new_value_of (find_first (λ row. same_entry e row.entry) history)

-- Each row starts from where the one before it of the same entry ended.
abbrev pub IsChained : List ConfigurationHistory → Type 0
IsChained [] = Unit
IsChained (row ∷ rest) = (row.old_value ≡ latest row.entry rest) × IsChained rest

abbrev pub IsAudited : ConfigurationTables → Type 0
IsAudited t =
    IsChained t.history × ((e : InvalidationEntry) → stored_value e t.values ≡ latest e t.history)

-- A stored value is a reading by a schema that takes everything.
abbrev unread : ConfigurationKeyDefinition → ConfigurationKeyDefinition
unread d = record d { safe_parse = some }

unread-parsed :
    (d : ConfigurationKeyDefinition) (row : Option ConfigurationValue)
    → value_of row ≡ parsed_row (unread d) row
unread-parsed d none = refl
unread-parsed d (some row) = refl

stored-reading :
    (d : ConfigurationKeyDefinition) (e : InvalidationEntry) (t : ConfigurationTables)
    → stored_value e t.values ≡ reading (unread d) e t.values
unfolding reading
stored-reading d e t = unread-parsed d (find_value e t.values)

stored-Commit :
    (d : ConfigurationKeyDefinition) (e f : InvalidationEntry) (t t' : ConfigurationTables)
    → same_entry e f ≡ false
    → Commit f t t'
    → stored_value e t'.values ≡ stored_value e t.values
stored-Commit d e f t t' apart c =
    stored-reading d e t'
    ∙ (reading-Commit e f apart (unread d) t t' c ∙ sym (stored-reading d e t))

write_set-IsAudited :
    (stamp : Stamp) (d : ConfigurationKeyDefinition) (e : InvalidationEntry) (value : Json)
    (o : SetConfigurationOptions) (t : ConfigurationTables)
    → IsAudited t
    → IsAudited (write_set stamp d e value o t).1
unfolding write_set find_first
write_set-IsAudited stamp d e value o t (chained, accounts) =
    let after = (write_set stamp d e value o t).1 in
    (
      (accounts e, chained),
      λ f. elim (Bool-cases (same_entry f e)) [
        | inl same ↦ rw same (
            rw (same_entry→eq f e same)
              (stored-reading d e after ∙ reading-write_set e stamp (unread d) d value o t))
        | inr apart ↦
            rw apart (stored-Commit d f e t after apart (set_row stamp d value o) ∙ accounts f)
      ],
    )

write_unset-IsAudited :
    (stamp : Stamp) (d : ConfigurationKeyDefinition) (e : InvalidationEntry)
    (o : SetConfigurationOptions) (t : ConfigurationTables)
    → IsAudited t
    → IsAudited (write_unset stamp e o t).1
unfolding find_first write_unset
write_unset-IsAudited stamp d e o t (chained, accounts) =
    elim (Option-cases (stored_value e t.values)) [
      | inl nothing ↦ rw (nothing, write_unset) (chained, accounts)
      | inr (value, there) ↦ go value there
    ]
  where
    go :
        (value : Json)
        → stored_value e t.values ≡ some value
        → IsAudited (write_unset stamp e o t).1
    go value there =
        let after = (write_unset stamp e o t).1 in
        let rows = history_row stamp e (some value) none o ∷ t.history in
        let says : after.history ≡ rows = rw (there, write_unset) refl in
        (
          rw says (sym there ∙ accounts e, chained),
          λ f. elim (Bool-cases (same_entry f e)) [
            | inl same ↦ rw says (
                rw same (
                  rw (same_entry→eq f e same)
                    (stored-reading d e after ∙ reading-write_unset e stamp (unread d) o t)))
            | inr apart ↦ rw says (
                rw apart
                  (stored-Commit d f e t after apart (unset_row stamp o value there) ∙ accounts f))
          ],
        )

state_of-ok :
    {A : Type 0} (P : ConfigurationState → Type 0) (s : ConfigurationState)
    (r : Result (A × ConfigurationState))
    → P s
    → ((a : A) (s' : ConfigurationState) → r ≡ ok (a, s') → P s')
    → P (state_of s r)
state_of-ok P s r h f = elim (Result-cases r) [
  | inl (x, refused) ↦ rw refused h
  | inr ((a, s'), done_) ↦ rw done_ (f a s' done_)
]

change-IsAudited :
    (c : Change) (s : ConfigurationState) → IsAudited s.tables → IsAudited (change c s).tables
unfolding change unset unset_checked
change-IsAudited (set_to stamp key value o client) s h =
    state_of-ok (λ s'. IsAudited s'.tables) s (set stamp key value o client s) h
      (λ w s' e.
        let (d, validated, passed, is_w, is_s) = set-ok stamp key value o client s s' w e in
        rw is_s (write_set-IsAudited stamp d (entry_of key o) validated o s.tables h))
change-IsAudited (unset_at stamp key o client) s h =
    elim (Result-cases (require_definition key s.service)) [
      | inl (x, unknown) ↦ rw (unknown, unset) h
      | inr (d, known) ↦ elim (Bool-cases (has_scope (scope_of o) d)) [
        | inr foreign ↦ rw (known, unset) (rw foreign h)
        | inl takes ↦
            let e = entry_of key o in
            let kept = write_unset-IsAudited stamp d e o s.tables h in
            rw (known, unset)
              (rw takes (elim (Bool-cases (is_nothing (write_unset stamp e o s.tables).0)) [
                | inl nothing ↦ rw (nothing, unset_checked) kept
                | inr something ↦ rw (something, unset_checked) kept
              ]))
      ]
    ]

-- Whatever settings are set and unset, one after another, and whichever of them are refused, from tables
-- whose history accounts for what they hold: the history still accounts for it. Each row of it
-- starts from the value that the one before it of the same entry ended with, and the latest row of an
-- entry ends with the value that is stored, or with none where none is.
pub run_changes-IsAudited :
    (cs : List Change) (s : ConfigurationState)
    → IsAudited s.tables
    → IsAudited (run_changes cs s).tables
unfolding run_changes
run_changes-IsAudited [] s h = h
run_changes-IsAudited (c ∷ cs) s h = run_changes-IsAudited cs (change c s) (change-IsAudited c s h)
