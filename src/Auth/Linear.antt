-- ===== src/Auth/Linear.antt =====
-- A family of refresh tokens has at most one live token (apps/api/src/modules/auth/token.service.ts), when its
-- operations come one after another.
use gemone.Prelude.{
  ℕ, ◌≡◌, inl, inr, Bool, true, false, ◌&&◌, ◌||◌, ◌==◌, ==_refl, some, some-inj, Text, List, [],
  ◌∷◌, any, All, All-weaken, arith, Bool-cases, update_first, find_first, find_first-All,
}
use gemone.Auth.Types.{RefreshToken}
use gemone.Auth.Sessions.{clashes_with, has_hash, find_token, spend}
use gemone.Auth.Rows.{is_live, IsLater, AreLater, IsDead}

-- Two rows have different ids, and are not both live in one family.
abbrev pub IsApart : RefreshToken → RefreshToken → Type 0
IsApart t u =
    ((t.id == u.id) ≡ false) × ((t.family_id == u.family_id) && (is_live t && is_live u) ≡ false)

abbrev pub IsLinear : List RefreshToken → Type 0
IsLinear [] = Unit
IsLinear (t ∷ ts) = All (IsApart t) ts × IsLinear ts

-- What a row loses its life by keeps it apart.
apart_later :
    (a b c b' c' : Bool)
    → a && (b && c) ≡ false
    → (b ≡ false → b' ≡ false)
    → (c ≡ false → c' ≡ false)
    → a && (b' && c') ≡ false
apart_later a b c b' c' h f g = elim (Bool-cases b) [
  | inr dead ↦ rw (f dead) (ground arith)
  | inl lives ↦ elim (Bool-cases c) [
    | inr dead ↦ rw (g dead) (ground arith)
    | inl alive ↦ ground arith
  ]
]

never_both : (a b : ℕ) (l m : Bool) → (b == a) && m ≡ false → (a == b) && (l && m) ≡ false
never_both a b l m h = ground arith

left_free : (a b c : Bool) → (a || b) || c ≡ false → a ≡ false
left_free a b c h = ground arith

right_free : (a b : Bool) → a || b ≡ false → b ≡ false
right_free a b h = ground arith

IsApart-IsLater :
    (t t' u u' : RefreshToken) → IsLater t' t → IsLater u' u → IsApart t u → IsApart t' u'
IsApart-IsLater t t' u u' (ids, families, _, dead, _) (ids', families', _, dead', _)
      (distinct, apart) =
    (
      rw (ids, ids') distinct,
      rw (families, families')
          (apart_later _ (is_live t) (is_live u) (is_live t') (is_live u') apart dead dead'),
    )

IsApart-AreLater :
    (t t' : RefreshToken) (us' us : List RefreshToken)
    → IsLater t' t
    → AreLater us' us
    → All (IsApart t) us
    → All (IsApart t') us'
IsApart-AreLater t t' [] [] later rest h = tt
IsApart-AreLater t t' [] (u ∷ us) later rest h = elim rest [ ]
IsApart-AreLater t t' (u' ∷ us') [] later rest h = elim rest [ ]
IsApart-AreLater t t' (u' ∷ us') (u ∷ us) later rest h =
    (IsApart-IsLater t t' u u' later rest.0 h.0, IsApart-AreLater t t' us' us later rest.1 h.1)

pub IsLinear-AreLater : (us ts : List RefreshToken) → AreLater us ts → IsLinear ts → IsLinear us
IsLinear-AreLater [] [] later h = tt
IsLinear-AreLater [] (t ∷ ts) later h = elim later [ ]
IsLinear-AreLater (u ∷ us) [] later h = elim later [ ]
IsLinear-AreLater (u ∷ us) (t ∷ ts) later h =
    (IsApart-AreLater t u us ts later.0 later.1 h.0, IsLinear-AreLater us ts later.1 h.1)

-- A row that clashes with none, of a family with no live row, may join.
pub joins :
    (t : RefreshToken) (ts : List RefreshToken)
    → any (clashes_with t) ts ≡ false
    → All (IsDead t.family_id) ts
    → All (IsApart t) ts
joins t [] free dead = tt
joins t (u ∷ us) free dead = (
  (left_free _ _ _ free, never_both t.family_id u.family_id (is_live t) (is_live u) dead.0),
  joins t us (right_free _ _ free) dead.1,
)

dead_spent : (a : Bool) → a && false ≡ false
dead_spent a = ground arith

right-IsDead :
    (t u : RefreshToken)
    → is_live t ≡ true
    → (t.family_id == u.family_id) && (is_live t && is_live u) ≡ false
    → IsDead t.family_id u
right-IsDead t u live h = swapped t.family_id u.family_id (is_live u) (rw live at h)
  where
    swapped : (a b : ℕ) (m : Bool) → (a == b) && (true && m) ≡ false → (b == a) && m ≡ false
    swapped a b m h = ground arith

left-IsDead :
    (t s : RefreshToken)
    → is_live s ≡ true
    → (t.family_id == s.family_id) && (is_live t && is_live s) ≡ false
    → IsDead s.family_id t
left-IsDead t s live h = kept (t.family_id == s.family_id) (is_live t) (rw live at h)
  where
    kept : (a m : Bool) → a && (m && true) ≡ false → a && m ≡ false
    kept a m h = ground arith

-- Once the only live row of a family is spent, the family has none.
pub spent-IsDead :
    (now : ℕ) (h : Text) (s : RefreshToken) (ts : List RefreshToken)
    → find_token h ts ≡ some s
    → is_live s ≡ true
    → IsLinear ts
    → All (IsDead s.family_id) (update_first (λ t. t.id == s.id) (spend now) ts)
unfolding find_token find_first update_first
spent-IsDead now h s [] found live linear = tt
spent-IsDead now h s (t ∷ ts) found live linear = elim (Bool-cases (has_hash h t)) [
  | inl here ↦
      let same = some-inj t s (rw here at found) in
      rw (← same, ==_refl t.id)
        (
          dead_spent (t.family_id == t.family_id),
          All-weaken (IsApart t) (IsDead t.family_id) ts
              (λ u apart. right-IsDead t u (rw same live) apart.1) linear.0,
        )
  | inr other ↦
      let found' = rw other at found in
      let apart = find_first-All (IsApart t) (has_hash h) s ts found' linear.0 in
      rw (apart.0) (left-IsDead t s live apart.1, spent-IsDead now h s ts found' live linear.1)
]
