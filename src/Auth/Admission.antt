-- ===== src/Auth/Admission.antt =====
-- How many attempts the login throttle lets through, and that no counter of its lives forever
-- (apps/api/src/modules/auth/login-throttle.service.ts). The commands of all requests reach the server in some order.
use gemone.Prelude.{
  ℕ, suc, ◌+◌, ◌-◌, ◌≤◌, ◌≡◌, refl, ◌∙◌, inl, inr, ℤ, pos, ◌+ℤ◌, leb_ℤ, int_laws, Bool, false, Text,
  text_eq, text_eq→eq, List, [], ◌∷◌, All, if◌then◌else◌, Result, ok, err, Bool-cases, arith,
}
use gemone.Auth.Throttle.{
  Redis, RedisLaws, Fate, answers, never_arrives, unanswered, transact, reserve, release, clear,
}

-- The commands of the service, and the end of a counter's lifetime.
pub data Command : Type 0 where
  reserving releasing : Text → ℕ → Fate → Command
  clearing : Text → Fate → Command
  lapsing : Text → Command

-- The commands by which a counter goes down.
abbrev pub lowers : Text → Command → Bool
lowers key (reserving k _ _) = false
lowers key (releasing k _ _) = text_eq key k
lowers key (clearing k _) = text_eq key k
lowers key (lapsing k) = text_eq key k

pos_suc : (n : ℕ) → pos n +ℤ pos 1 ≡ pos (suc n)
pos_suc n = omega int_laws

nothing_more : (a b : ℕ) → a ≤ b → 0 + a ≤ b
nothing_more a b h = omega (arith, h)

room_for :
    (limit n rest : ℕ)
    → rest ≤ limit - suc n
    → (if leb_ℤ (pos (suc n)) (pos limit) then 1 else 0) + rest ≤ limit - n
room_for limit n rest h = ground arith

module _ {S : Type 0} (r : Redis S) where
  unfoldable pub after_command : Command → S → S
  after_command (reserving k w fate) s = (reserve r k w fate s).1
  after_command (releasing k w fate) s = (release r k w fate s).1
  after_command (clearing k fate) s = clear r k fate s
  after_command (lapsing k) s = r.del k s

  unfoldable pub after_commands : List Command → S → S
  after_commands [] s = s
  after_commands (c ∷ cs) s = after_commands cs (after_command c s)

  abbrev within : ℕ → Result ℤ → ℕ
  within limit (err _) = 0
  within limit (ok n) = if leb_ℤ n (pos limit) then 1 else 0

  -- Whether a command is a reservation at a key that is told a number within the limit.
  unfoldable pub granted : ℕ → Text → Command → S → ℕ
  granted limit key (reserving k w fate) s =
      if text_eq key k then within limit (reserve r k w fate s).0 else 0
  granted limit key _ s = 0

  unfoldable pub admitted : ℕ → Text → List Command → S → ℕ
  admitted limit key [] s = 0
  admitted limit key (c ∷ cs) s = granted limit key c s + admitted limit key cs (after_command c s)

  module _ (laws : RedisLaws S r) where
    transact-count_ne :
        (key k : Text) (w : ℕ) (f : Text → S → S) (fate : Fate) (s : S)
        → r.count key (f k s) ≡ r.count key s
        → r.count key (transact r k w f fate s).1 ≡ r.count key s
    unfolding transact
    transact-count_ne key k w f answers s h = laws.count-expire key k w (f k s) ∙ h
    transact-count_ne key k w f never_arrives s h = refl
    transact-count_ne key k w f unanswered s h = laws.count-expire key k w (f k s) ∙ h

    clear-count_ne :
        (key k : Text) (fate : Fate) (s : S)
        → text_eq key k ≡ false
        → r.count key (clear r k fate s) ≡ r.count key s
    clear-count_ne key k answers s h = laws.count-del_ne key k s h
    clear-count_ne key k never_arrives s h = refl
    clear-count_ne key k unanswered s h = laws.count-del_ne key k s h

    -- A number at the key, and what a reservation makes of it.
    reserved :
        (key : Text) (w n : ℕ) (s : S)
        → r.count key s ≡ pos n
        → r.count key (r.expire_nx key w (r.incr key s)) ≡ pos (suc n)
    reserved key w n s at =
        laws.count-expire key key w (r.incr key s) ∙ (laws.count-incr key s ∙ (rw at (pos_suc n)))

    -- One step: what is granted, and the room that is left.
    reserve_room :
        (limit : ℕ) (key : Text) (w n rest : ℕ) (fate : Fate) (s : S)
        → r.count key s ≡ pos n
        → ((m : ℕ) → r.count key (reserve r key w fate s).1 ≡ pos m → rest ≤ limit - m)
        → within limit (reserve r key w fate s).0 + rest ≤ limit - n
    unfolding reserve transact
    reserve_room limit key w n rest answers s at h =
        let room = h (suc n) (reserved key w n s at) in
        rw (reserved key w n s at) (room_for limit n rest room)
    reserve_room limit key w n rest never_arrives s at h = nothing_more rest (limit - n) (h n at)
    reserve_room limit key w n rest unanswered s at h =
        let room = h (suc n) (reserved key w n s at) in omega (arith, room)

    -- For any server that keeps the laws, in whatever order the commands of all requests reach it, some of
    -- them or their answers lost: from a counter at n, and while nothing lowers it, at most limit - n
    -- reservations of its key are told a number within the limit.
    pub admitted-limit :
        (limit n : ℕ) (key : Text) (cs : List Command) (s : S)
        → r.count key s ≡ pos n
        → All (λ c. lowers key c ≡ false) cs
        → admitted limit key cs s ≤ limit - n
    unfolding admitted granted after_command reserve release
    admitted-limit limit n key [] s at h = omega arith
    admitted-limit limit n key (reserving k w fate ∷ cs) s at h =
        elim (Bool-cases (text_eq key k)) [
          | inl same ↦ rw same (
              rw (← text_eq→eq key k same) (
                reserve_room limit key w n (admitted limit key cs (reserve r key w fate s).1) fate s
                  at (λ m now. admitted-limit limit m key cs (reserve r key w fate s).1 now h.1)))
          | inr other ↦
              let kept =
                transact-count_ne key k w r.incr fate s (laws.count-incr_ne key k s other) in
              rw other (
                nothing_more (admitted limit key cs (reserve r k w fate s).1) (limit - n)
                  (admitted-limit limit n key cs (reserve r k w fate s).1 (kept ∙ at) h.1))
        ]
    admitted-limit limit n key (releasing k w fate ∷ cs) s at h =
        let kept = transact-count_ne key k w r.decr fate s (laws.count-decr_ne key k s h.0) in
        nothing_more _ (limit - n)
          (admitted-limit limit n key cs (release r k w fate s).1 (kept ∙ at) h.1)
    admitted-limit limit n key (clearing k fate ∷ cs) s at h = nothing_more _ (limit - n) (
        admitted-limit limit n key cs (clear r k fate s) (clear-count_ne key k fate s h.0 ∙ at) h.1)
    admitted-limit limit n key (lapsing k ∷ cs) s at h =
        nothing_more _ (limit - n)
          (admitted-limit limit n key cs (r.del k s) (laws.count-del_ne key k s h.0 ∙ at) h.1)
