-- ===== src/Auth/Rows.antt =====
-- What the writes of apps/api/src/modules/auth/token.service.ts do to the rows: a row keeps its id, its family
-- and its hash, a spent row stays spent, and a dead one stays dead.
use gemone.Prelude.{
  ℕ, ◌≡◌, refl, ◌∙◌, inl, inr, Bool, true, false, not, ◌&&◌, ◌==◌, some, some-inj, is_some, Text,
  List, [], ◌∷◌, any, All, if◌then◌else◌, arith, Bool-cases, ok, update_first, find_first,
}
use gemone.Auth.Types.{RevocationReason, RefreshToken}
use gemone.Auth.Sessions.{
  is_unrevoked, revoke_token, revoke_where, spend, has_hash, find_token, clashes_with, create_token,
}

abbrev pub is_live : RefreshToken → Bool
is_live t = not (is_some t.used_at) && is_unrevoked t

-- `u` is what a write made of `t`.
abbrev pub IsLater : RefreshToken → RefreshToken → Type 0
IsLater u t =
    (u.id ≡ t.id)
    × (u.family_id ≡ t.family_id)
    × (u.token_hash ≡ t.token_hash)
    × (is_live t ≡ false → is_live u ≡ false)
    × (is_some t.used_at ≡ true → is_some u.used_at ≡ true)

abbrev pub AreLater : List RefreshToken → List RefreshToken → Type 0
AreLater [] [] = Unit
AreLater [] (t ∷ ts) = ⊥
AreLater (u ∷ us) [] = ⊥
AreLater (u ∷ us) (t ∷ ts) = IsLater u t × AreLater us ts

IsLater-refl : (t : RefreshToken) → IsLater t t
IsLater-refl t = (refl, refl, refl, λ h. h, λ h. h)

pub AreLater-refl : (ts : List RefreshToken) → AreLater ts ts
AreLater-refl [] = tt
AreLater-refl (t ∷ ts) = (IsLater-refl t, AreLater-refl ts)

spend-IsLater : (now : ℕ) (t : RefreshToken) → IsLater (spend now t) t
spend-IsLater now t = (refl, refl, refl, λ h. refl, λ h. refl)

dead_revoked : (b : Bool) → b && false ≡ false
dead_revoked b = ground arith

dead_anyway : (a b : Bool) → a && (b && false) ≡ false
dead_anyway a b = ground arith

dead_before : (a b c : Bool) → a && c ≡ false → a && (b && c) ≡ false
dead_before a b c h = ground arith

revoke_token-IsLater :
    (now : ℕ) (reason : RevocationReason) (t : RefreshToken) → IsLater (revoke_token now reason t) t
revoke_token-IsLater now reason t = (refl, refl, refl, λ h. dead_revoked _, λ h. h)

pub update_first-AreLater :
    (test : RefreshToken → Bool) (now : ℕ) (ts : List RefreshToken)
    → AreLater (update_first test (spend now) ts) ts
unfolding update_first
update_first-AreLater test now [] = tt
update_first-AreLater test now (t ∷ ts) = elim (Bool-cases (test t)) [
  | inl here ↦ rw here (spend-IsLater now t, AreLater-refl ts)
  | inr other ↦ rw other (IsLater-refl t, update_first-AreLater test now ts)
]

pub revoke_where-AreLater :
    (test : RefreshToken → Bool) (now : ℕ) (reason : RevocationReason) (ts : List RefreshToken)
    → AreLater (revoke_where test now reason ts) ts
unfolding revoke_where
revoke_where-AreLater test now reason [] = tt
revoke_where-AreLater test now reason (t ∷ ts) = elim (Bool-cases (test t && is_unrevoked t)) [
  | inl here ↦ rw here (revoke_token-IsLater now reason t, revoke_where-AreLater test now reason ts)
  | inr other ↦ rw other (IsLater-refl t, revoke_where-AreLater test now reason ts)
]

-- No row of a family is live.
abbrev pub IsDead : ℕ → RefreshToken → Type 0
IsDead family_id t = (t.family_id == family_id) && is_live t ≡ false

pub revoke_where-IsDead :
    (family_id now : ℕ) (reason : RevocationReason) (ts : List RefreshToken)
    → All (IsDead family_id) (revoke_where (λ t. t.family_id == family_id) now reason ts)
unfolding revoke_where
revoke_where-IsDead family_id now reason [] = tt
revoke_where-IsDead family_id now reason (t ∷ ts) =
    (revoked-IsDead, revoke_where-IsDead family_id now reason ts)
  where
    revoked-IsDead :
        IsDead family_id
          (if (t.family_id == family_id) && is_unrevoked t then revoke_token now reason t else t)
    revoked-IsDead = elim (Bool-cases ((t.family_id == family_id) && is_unrevoked t)) [
      | inl both ↦ rw both (dead_anyway (t.family_id == family_id) (not (is_some t.used_at)))
      | inr one ↦
          rw one
            (dead_before (t.family_id == family_id) (not (is_some t.used_at)) (is_unrevoked t) one)
    ]

-- A row that the table takes clashes with none.
pub create_token-ok :
    (t : RefreshToken) (ts ts' : List RefreshToken)
    → create_token t ts ≡ ok ts'
    → (ts' ≡ t ∷ ts) × (any (clashes_with t) ts ≡ false)
unfolding create_token
create_token-ok t ts ts' h = elim (Bool-cases (any (clashes_with t) ts)) [
  | inl taken ↦ let bad = rw (taken, create_token) at h in cc
  | inr free ↦ let made = rw (free, create_token) at h in (cc, free)
]

-- A spent row is found by its hash, of a family.
abbrev pub IsSpent : Text → ℕ → List RefreshToken → Type 0
IsSpent h family_id ts =
    (t : RefreshToken) × (find_token h ts ≡ some t)
    × (is_some t.used_at ≡ true)
    × (t.family_id ≡ family_id)

pub IsSpent-AreLater :
    (h : Text) (family_id : ℕ) (us ts : List RefreshToken)
    → AreLater us ts
    → IsSpent h family_id ts
    → IsSpent h family_id us
unfolding find_token find_first
IsSpent-AreLater h f [] [] later spent = spent
IsSpent-AreLater h f [] (t ∷ ts) later spent = elim later [ ]
IsSpent-AreLater h f (u ∷ us) [] later spent = elim later [ ]
IsSpent-AreLater h f (u ∷ us) (t ∷ ts) ((ids, families, hashes, dead, used), later)
      (s, found, spent, family) =
    elim (Bool-cases (has_hash h t)) [
      | inl here ↦
          let same = some-inj t s (rw here at found) in
          (u, rw hashes (rw here refl), used (rw same spent), families ∙ (rw same family))
      | inr other ↦
          let (s', found', used', family') =
            IsSpent-AreLater h f us ts later (s, rw other at found, spent, family) in
          (s', rw hashes (rw other found'), used', family')
    ]
