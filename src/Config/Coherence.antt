-- ===== src/Config/Coherence.antt =====
-- The cache of a process agrees with the tables in every state that the process comes to, but for the
-- entries whose invalidations are on their way (apps/api/src/core/config/configuration.service.ts).
use gemone.Prelude.{
  ℕ, suc, ◌≡◌, refl, sym, ◌∙◌, inl, inr, Option, none, some, some-inj, Text, List, [], ◌∷◌, ◌++◌,
  All, All-weaken, arith, ◌==◌, Bool-cases, get_at,
}
use gemone.Prelude.Json.{Json}
use gemone.Config.Types.{
  ConfigurationKeyDefinition, InvalidationEntry, same_entry, ConfigurationTables,
  ConfigurationService,
}
use gemone.Config.Read.{cache_key, remember, invalidate, invalidate_all}
use gemone.Config.Machine.{
  Read, System, answered, Step, began, queried, finished, written, delivered, repeated, resynced,
  started, Reachable, start, later,
}
use gemone.Config.Cached.{
  ArePlain, IsReading, IsCoherent, All-taken, All-placed, any-taken, Agrees-Commit,
  IsReading-Commit, IsReading-invalidated, invalidate-IsCached, remember-IsCached,
}

-- Before anything is read, and at every step, the cache agrees.
started-IsCoherent :
    (definitions : List (Text × ConfigurationKeyDefinition)) (t : ConfigurationTables)
    → IsCoherent (started definitions t)
unfolding get_at
started-IsCoherent definitions t = ((λ e d held known found. elim (none_held held found) [ ]), tt)
  where
    none_held : (held : Option Json) → none ≡ some held → ⊥
    none_held held h = cc

definitions-kept : (s s' : System) → Step s s' → s'.service.definitions ≡ s.service.definitions
unfolding remember invalidate invalidate_all
definitions-kept s _ (began d e known missed) = refl
definitions-kept s _ (queried before after r e) = refl
definitions-kept s _ (finished before after r found e answer) =
    elim (Bool-cases (r.generation == s.service.generation)) [
      | inl now ↦ rw now refl
      | inr late ↦ rw late refl
    ]
definitions-kept s _ (written e t c) = refl
definitions-kept s _ (delivered before after e h) = refl
definitions-kept s _ (repeated e) = refl
definitions-kept s _ resynced = refl

none-absurd : {A P : Type 0} (a : A) → none ≡ some a → P
none-absurd a h = cc

remember-IsReading :
    (pending : List InvalidationEntry) (t : ConfigurationTables) (s : ConfigurationService)
    (key : Text) (found : Option Json) (generation : ℕ) (rs : List Read)
    → All (IsReading pending t s) rs
    → All (IsReading pending t (remember key found generation s)) rs
unfolding remember
remember-IsReading pending t s key found generation rs h =
    elim (Bool-cases (generation == s.generation)) [ inl now ↦ rw now h | inr late ↦ rw late h ]

invalidated_reads :
    (pending pending' : List InvalidationEntry) (t : ConfigurationTables)
    (s s' : ConfigurationService)
    → s'.definitions ≡ s.definitions
    → s'.generation ≡ suc s.generation
    → (rs : List Read) → All (IsReading pending t s) rs
    → All (IsReading pending' t s') rs
invalidated_reads pending pending' t s s' same next rs =
    All-weaken (IsReading pending t s) (IsReading pending' t s') rs
      (IsReading-invalidated pending pending' t s s' same next)

Step-IsCoherent :
    (s s' : System) → ArePlain s.service.definitions → IsCoherent s → Step s s' → IsCoherent s'
unfolding invalidate invalidate_all get_at
Step-IsCoherent s _ plain (cached, reads) (began d e known missed) =
    (cached, ((known, omega arith, λ found at now. none-absurd found at), reads))
Step-IsCoherent s _ plain (cached, reads) (queried before after r e) =
    let P = IsReading s.pending s.tables s.service in
    let ((known, old, holds), others) = All-taken P before after r (rw e at reads) in
    let fresh : P (answered r s) = (known, old, λ found at now. inr (sym (some-inj _ _ at))) in
    (cached, All-placed P before after (answered r s) fresh others)
Step-IsCoherent s _ plain (cached, reads) (finished before after r found e answer) =
    let P = IsReading s.pending s.tables s.service in
    let (this, others) = All-taken P before after r (rw e at reads) in
    (
      remember-IsCached s.service s.tables plain s.pending r found answer this cached,
      remember-IsReading s.pending s.tables s.service (cache_key r.entry) found r.generation _
          others,
    )
Step-IsCoherent s _ plain (cached, reads) (written e t c) = (
  (λ f d held known here.
      Agrees-Commit s.pending d f e s.tables t held c (cached f d held known here)),
  All-weaken (IsReading s.pending s.tables s.service) (IsReading (e ∷ s.pending) t s.service)
      s.reads (IsReading-Commit s e t c) reads,
)
Step-IsCoherent s _ plain (cached, reads) (delivered before after e h) = (
  invalidate-IsCached s.service s.tables plain s.pending (before ++ after) e
      (λ f apart waits. any-taken (same_entry f) before after e apart (rw h at waits)) cached,
  invalidated_reads s.pending (before ++ after) s.tables s.service (invalidate e s.service) refl
      refl s.reads reads,
)
Step-IsCoherent s _ plain (cached, reads) (repeated e) = (
  invalidate-IsCached s.service s.tables plain s.pending s.pending e (λ f apart waits. waits)
      cached,
  invalidated_reads s.pending s.pending s.tables s.service (invalidate e s.service) refl refl
      s.reads reads,
)
Step-IsCoherent s _ plain (cached, reads) resynced = (
  (λ e d held known here. none-absurd held here),
  invalidated_reads s.pending [] s.tables s.service (invalidate_all s.service) refl refl s.reads
      reads,
)

pub Reachable-definitions :
    (definitions : List (Text × ConfigurationKeyDefinition)) (s : System)
    → Reachable definitions s
    → s.service.definitions ≡ definitions
Reachable-definitions definitions _ (start t) = refl
Reachable-definitions definitions _ (later s s' r step) =
    definitions-kept s s' step ∙ Reachable-definitions definitions s r

-- In every state that a process with plain keys comes to, however its reads, the commits of any
-- process and the invalidations interleave: what its cache holds for an entry of a registered key is
-- what the row of the entry reads as now, or the entry's invalidation is still on its way.
pub Reachable-IsCoherent :
    (definitions : List (Text × ConfigurationKeyDefinition)) (s : System)
    → ArePlain definitions
    → Reachable definitions s
    → IsCoherent s
Reachable-IsCoherent definitions _ plain (start t) = started-IsCoherent definitions t
Reachable-IsCoherent definitions _ plain (later s s' r step) =
    Step-IsCoherent s s' (rw (Reachable-definitions definitions s r) plain)
      (Reachable-IsCoherent definitions s plain r) step
