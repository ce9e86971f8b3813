-- ===== src/Config/Cached.antt =====
-- What the cache of a process and its reads hold against the tables, and what a commit, an invalidation
-- and the end of a read do to it (apps/api/src/core/config/configuration.service.ts, `remember`,
-- `invalidate`).
use gemone.Prelude.{
  suc, ◌≤◌, ◌≡◌, refl, ◌⊎◌, inl, inr, Bool, true, false, Option, some, some-inj, Text, text_eq,
  List, [], ◌∷◌, ◌++◌, any, All, arith, ◌==◌, ==_iff, Bool-cases, get_at, text_eq→eq, text_eq_refl,
  get_at-put_at, get_at-put_at_ne, get_at-delete_at, get_at-delete_at_ne,
}
use gemone.Prelude.Json.{Json}
use gemone.Config.Types.{
  ConfigurationKeyDefinition, InvalidationEntry, same_entry, ConfigurationTables,
  ConfigurationService,
}
use gemone.Config.Read.{cache_key, reading, remember, invalidate}
use gemone.Config.Keys.{IsPlain, cache_key-apart, same_entry→eq}
use gemone.Config.Rows.{reading-Commit}
use gemone.Config.Machine.{Read, System, Commit}

-- Every registered key is plain.
abbrev pub ArePlain : List (Text × ConfigurationKeyDefinition) → Type 0
ArePlain definitions =
    (key : Text) (d : ConfigurationKeyDefinition) → get_at key definitions ≡ some d → IsPlain key

abbrev pub is_pending : InvalidationEntry → List InvalidationEntry → Bool
is_pending e = any (same_entry e)

-- What is held for an entry is what its row reads as, or its invalidation is on its way.
abbrev pub Agrees :
    List InvalidationEntry
    → ConfigurationKeyDefinition
    → InvalidationEntry
    → ConfigurationTables
    → Option Json
    → Type 0
Agrees pending d e t held = (is_pending e pending ≡ true) ⊎ (held ≡ reading d e t.values)

abbrev pub IsCached : List InvalidationEntry → ConfigurationTables → ConfigurationService → Type 0
IsCached pending t s =
    (e : InvalidationEntry) (d : ConfigurationKeyDefinition) (held : Option Json)
    → get_at e.key s.definitions ≡ some d
    → get_at (cache_key e) s.cache ≡ some held
    → Agrees pending d e t held

-- A read is of a registered key. If nothing was invalidated since it began, what it found agrees too.
abbrev pub IsReading :
    List InvalidationEntry → ConfigurationTables → ConfigurationService → Read → Type 0
IsReading pending t s r =
    (get_at r.entry.key s.definitions ≡ some r.definition)
    × (r.generation ≤ s.generation)
    × ((found : Option Json)
        → r.answer ≡ some found
        → r.generation ≡ s.generation
        → Agrees pending r.definition r.entry t found)

abbrev pub IsCoherent : System → Type 0
IsCoherent s =
    IsCached s.pending s.tables s.service × All (IsReading s.pending s.tables s.service) s.reads

module _ {A : Type 0} (P : A → Type 0) where
  pub All-taken : (xs ys : List A) (x : A) → All P (xs ++ (x ∷ ys)) → P x × All P (xs ++ ys)
  All-taken [] ys x h = h
  All-taken (y ∷ xs) ys x h = let (here, rest) = All-taken xs ys x h.1 in (here, (h.0, rest))

  pub All-placed : (xs ys : List A) (x : A) → P x → All P (xs ++ ys) → All P (xs ++ (x ∷ ys))
  All-placed [] ys x here h = (here, h)
  All-placed (y ∷ xs) ys x here h = (h.0, All-placed xs ys x here h.1)

pub any-taken :
    {A : Type 0} (p : A → Bool) (xs ys : List A) (x : A)
    → p x ≡ false
    → any p (xs ++ (x ∷ ys)) ≡ true
    → any p (xs ++ ys) ≡ true
any-taken p [] ys x no_match h = rw no_match at h
any-taken p (y ∷ xs) ys x no_match h = elim (Bool-cases (p y)) [
  | inl here ↦ rw here refl
  | inr other ↦ rw other (any-taken p xs ys x no_match (rw other at h))
]

-- A commit leaves what agrees agreeing.
pub Agrees-Commit :
    (pending : List InvalidationEntry) (d : ConfigurationKeyDefinition) (e f : InvalidationEntry)
    (t t' : ConfigurationTables) (held : Option Json)
    → Commit f t t'
    → Agrees pending d e t held
    → Agrees (f ∷ pending) d e t' held
Agrees-Commit pending d e f t t' held c h = elim (Bool-cases (same_entry e f)) [
  | inl same ↦ inl (rw same refl)
  | inr apart ↦ elim h [
    | inl waits ↦ inl (rw (apart, waits) refl)
    | inr now ↦ inr (rw (reading-Commit e f apart d t t' c) now)
  ]
]

pub IsReading-Commit :
    (s : System) (f : InvalidationEntry) (t' : ConfigurationTables)
    → Commit f s.tables t'
    → (r : Read) → IsReading s.pending s.tables s.service r
    → IsReading (f ∷ s.pending) t' s.service r
IsReading-Commit s f t' c r (known, old, holds) = (
  known,
  old,
  λ found at now.
      Agrees-Commit s.pending r.definition r.entry f s.tables t' found c (holds found at now),
)

-- An invalidation ends every read that has begun.
pub IsReading-invalidated :
    (pending pending' : List InvalidationEntry) (t : ConfigurationTables)
    (s s' : ConfigurationService)
    → s'.definitions ≡ s.definitions
    → s'.generation ≡ suc s.generation
    → (r : Read) → IsReading pending t s r
    → IsReading pending' t s' r
IsReading-invalidated pending pending' t s s' same next r (known, old, holds) =
    (rw same known, omega (arith, next, old), λ found at now. elim (impossible now) [ ])
  where
    impossible : r.generation ≡ s'.generation → ⊥
    impossible now = omega (arith, next, old, now)

apart_entries :
    (e f : InvalidationEntry) → text_eq (cache_key e) (cache_key f) ≡ false → same_entry e f ≡ false
apart_entries e f apart = elim (Bool-cases (same_entry e f)) [
  | inr other ↦ other
  | inl same ↦
      let one = same_entry→eq e f same in
      let bad = rw (one, text_eq_refl (cache_key f)) at apart in cc
]

module _ (s : ConfigurationService) (t : ConfigurationTables) (plain : ArePlain s.definitions) where
  -- The entry that is dropped is held no more; of the others nothing changes.
  pub invalidate-IsCached :
      (pending pending' : List InvalidationEntry) (e : InvalidationEntry)
      → ((f : InvalidationEntry)
          → same_entry f e ≡ false
          → is_pending f pending ≡ true
          → is_pending f pending' ≡ true)
      → IsCached pending t s
      → IsCached pending' t (invalidate e s)
  unfolding invalidate
  invalidate-IsCached pending pending' e keeps h f d held known found =
      elim (Bool-cases (text_eq (cache_key f) (cache_key e))) [
        | inl same ↦
            let gone = get_at-delete_at (cache_key e) s.cache in
            let one = text_eq→eq (cache_key f) (cache_key e) same in
            let bad = rw (one, gone) at found in cc
        | inr apart ↦
            elim (h f d held known
              (rw (get_at-delete_at_ne (cache_key f) (cache_key e) s.cache apart) at found)) [
                | inl waits ↦ inl (keeps f (apart_entries f e apart) waits)
                | inr now ↦ inr now
              ]
      ]

  pub remember-IsCached :
      (pending : List InvalidationEntry) (r : Read) (found : Option Json)
      → r.answer ≡ some found
      → IsReading pending t s r
      → IsCached pending t s
      → IsCached pending t (remember (cache_key r.entry) found r.generation s)
  unfolding remember
  remember-IsCached pending r found answer (known, old, holds) h =
      elim (Bool-cases (r.generation == s.generation)) [
        | inr late ↦ rw late h
        | inl now ↦ rw now (λ e d held registered here. elim (Bool-cases (same_entry e r.entry)) [
          | inl same ↦
              let one = same_entry→eq e r.entry same in
              let d_one = some-inj r.definition d (rw known at (rw one at registered)) in
              let put_one = get_at-put_at (cache_key r.entry) found s.cache in
              let held_one = some-inj found held (rw put_one at (rw one at here)) in
              let current = (==_iff r.generation s.generation).0 now in
              rw (one, ← d_one, ← held_one) (holds found answer current)
          | inr apart ↦ h e d held registered (
              rw
                (get_at-put_at_ne (cache_key e) (cache_key r.entry) found s.cache (
                  cache_key-apart e r.entry (plain e.key d registered)
                    (plain r.entry.key r.definition known) apart))
                at here)
        ])
      ]
