-- ===== src/Config/Keys.antt =====
-- The keys of the cache tell the entries apart (apps/api/src/core/config/configuration.service.ts, `cacheKey`),
-- and so do the tests on entries.
use gemone.Prelude.{
  ℕ, ◌≡◌, refl, inl, inr, Bool, true, false, ◌&&◌, Text, [], ◌∷◌, ◌++◌, any, ◌==◌, arith,
  Bool-cases, text_eq, text_eq_refl, text_eq→eq,
}
use gemone.Config.Types.{ConfigScope, provider, global, same_scope, InvalidationEntry, same_entry}
use gemone.Config.Read.{scope_text, cache_key}

-- A key of the form that the registry asks for has no `|`.
abbrev pub IsPlain : Text → Type 0
IsPlain key = any (λ c. c == 124) key ≡ false

no_bar : (c : ℕ) (k : Text) → IsPlain (c ∷ k) → IsPlain k
no_bar c k h = ground arith

both_left : (a b : Bool) → a && b ≡ true → a ≡ true
both_left a b h = ground arith

both_right : (a b : Bool) → a && b ≡ true → b ≡ true
both_right a b h = ground arith

bar_first :
    (k l s t : Text) → IsPlain k → IsPlain l → k ++ (124 ∷ s) ≡ l ++ (124 ∷ t) → (k ≡ l) × (s ≡ t)
bar_first [] [] s t h h' e = (refl, cc)
bar_first [] (d ∷ l) s t h h' e = let bar : 124 ≡ d = cc in let bad = rw (← bar) at h' in cc
bar_first (c ∷ k) [] s t h h' e = let bar : c ≡ 124 = cc in let bad = rw bar at h in cc
bar_first (c ∷ k) (d ∷ l) s t h h' e =
    let heads : c ≡ d = cc in
    let tails : k ++ (124 ∷ s) ≡ l ++ (124 ∷ t) = cc in
    let (front, back) = bar_first k l s t (no_bar c k h) (no_bar d l h') tails in (cc, back)

scope_text-IsPlain : (s : ConfigScope) → IsPlain (scope_text s)
scope_text-IsPlain provider = refl
scope_text-IsPlain global = refl

scope_text-inj : (s t : ConfigScope) → scope_text s ≡ scope_text t → s ≡ t
scope_text-inj provider provider e = refl
scope_text-inj global global e = refl
scope_text-inj provider global e = cc
scope_text-inj global provider e = cc

-- Two entries with plain keys and one key in the cache are one.
pub cache_key-inj :
    (e f : InvalidationEntry) → IsPlain e.key → IsPlain f.key → cache_key e ≡ cache_key f → e ≡ f
unfolding cache_key
cache_key-inj e f h h' same =
    let (keys, rest) = bar_first e.key f.key _ _ h h' same in
    let (scopes, ids) =
      bar_first (scope_text e.scope) (scope_text f.scope) _ _ (scope_text-IsPlain e.scope)
        (scope_text-IsPlain f.scope) rest in
    let scope = scope_text-inj e.scope f.scope scopes in cc

same_scope→eq : (s t : ConfigScope) → same_scope s t ≡ true → s ≡ t
same_scope→eq provider provider h = refl
same_scope→eq global global h = refl
same_scope→eq provider global h = cc
same_scope→eq global provider h = cc

pub same_scope_refl : (s : ConfigScope) → same_scope s s ≡ true
same_scope_refl provider = refl
same_scope_refl global = refl

pub same_entry_refl : (e : InvalidationEntry) → same_entry e e ≡ true
same_entry_refl e = rw (text_eq_refl e.key, same_scope_refl e.scope, text_eq_refl e.scope_id) refl

pub same_entry→eq : (e f : InvalidationEntry) → same_entry e f ≡ true → e ≡ f
same_entry→eq e f h =
    let keys = text_eq→eq e.key f.key (both_left _ _ (both_left _ _ h)) in
    let scopes = same_scope→eq e.scope f.scope (both_right _ _ (both_left _ _ h)) in
    let ids = text_eq→eq e.scope_id f.scope_id (both_right _ _ h) in cc

-- Entries that the test tells apart have different keys in the cache.
pub cache_key-apart :
    (e f : InvalidationEntry)
    → IsPlain e.key
    → IsPlain f.key
    → same_entry e f ≡ false
    → text_eq (cache_key e) (cache_key f) ≡ false
cache_key-apart e f h h' apart = elim (Bool-cases (text_eq (cache_key e) (cache_key f))) [
  | inr other ↦ other
  | inl same ↦
      let one = cache_key-inj e f h h' (text_eq→eq (cache_key e) (cache_key f) same) in
      let bad = rw (← one, same_entry_refl e) at apart in cc
]
