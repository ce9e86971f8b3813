-- ===== src/Auth/Mortal.antt =====
-- No counter of the login throttle lives forever (apps/api/src/modules/auth/login-throttle.service.ts, `transact`).
use gemone.Prelude.{
  ℕ, ◌≡◌, ◌∙◌, inl, inr, true, false, Text, text_eq, text_eq→eq, List, [], ◌∷◌, Bool-cases,
}
use gemone.Auth.Throttle.{
  Redis, RedisLaws, Fate, answers, never_arrives, unanswered, transact, reserve, release, clear,
}
use gemone.Auth.Admission.{
  Command, reserving, releasing, clearing, lapsing, after_command, after_commands,
}

module _ {S : Type 0} (r : Redis S) where
  -- Every key that there is has a lifetime.
  abbrev pub IsMortal : S → Type 0
  IsMortal s = (k : Text) → r.exists k s ≡ true → r.expires k s ≡ true

  module _ (laws : RedisLaws S r) where
    expire-IsMortal :
        (k : Text) (w : ℕ) (f : Text → S → S) (s : S)
        → r.exists k (f k s) ≡ true
        → ((j : Text) → text_eq j k ≡ false → r.exists j (f k s) ≡ r.exists j s)
        → ((j : Text) → text_eq j k ≡ false → r.expires j (f k s) ≡ r.expires j s)
        → IsMortal s
        → IsMortal (r.expire_nx k w (f k s))
    expire-IsMortal k w f s there keeps lives h j here = elim (Bool-cases (text_eq j k)) [
      | inl same ↦ rw (text_eq→eq j k same) (laws.expires-expire k w (f k s) there)
      | inr other ↦
          let before = rw (laws.exists-expire j k w (f k s), keeps j other) at here in
          laws.expires-expire_ne j k w (f k s) other ∙ (lives j other ∙ h j before)
    ]

    transact-IsMortal :
        (k : Text) (w : ℕ) (f : Text → S → S) (fate : Fate) (s : S)
        → r.exists k (f k s) ≡ true
        → ((j : Text) → text_eq j k ≡ false → r.exists j (f k s) ≡ r.exists j s)
        → ((j : Text) → text_eq j k ≡ false → r.expires j (f k s) ≡ r.expires j s)
        → IsMortal s
        → IsMortal (transact r k w f fate s).1
    unfolding transact
    transact-IsMortal k w f answers s there keeps lives h =
        expire-IsMortal k w f s there keeps lives h
    transact-IsMortal k w f never_arrives s there keeps lives h = h
    transact-IsMortal k w f unanswered s there keeps lives h =
        expire-IsMortal k w f s there keeps lives h

    del-IsMortal : (k : Text) (s : S) → IsMortal s → IsMortal (r.del k s)
    del-IsMortal k s h j here = elim (Bool-cases (text_eq j k)) [
      | inl same ↦ let gone = rw (text_eq→eq j k same, laws.exists-del k s) at here in cc
      | inr other ↦
          laws.expires-del_ne j k s other ∙ h j (rw (laws.exists-del_ne j k s other) at here)
    ]

    clear-IsMortal : (k : Text) (fate : Fate) (s : S) → IsMortal s → IsMortal (clear r k fate s)
    clear-IsMortal k answers s h = del-IsMortal k s h
    clear-IsMortal k never_arrives s h = h
    clear-IsMortal k unanswered s h = del-IsMortal k s h

    after_command-IsMortal : (c : Command) (s : S) → IsMortal s → IsMortal (after_command r c s)
    unfolding after_command reserve release
    after_command-IsMortal (reserving k w fate) s h =
        transact-IsMortal k w r.incr fate s (laws.exists-incr k s)
          (λ j other. laws.exists-incr_ne j k s other) (λ j other. laws.expires-incr_ne j k s other)
          h
    after_command-IsMortal (releasing k w fate) s h =
        transact-IsMortal k w r.decr fate s (laws.exists-decr k s)
          (λ j other. laws.exists-decr_ne j k s other) (λ j other. laws.expires-decr_ne j k s other)
          h
    after_command-IsMortal (clearing k fate) s h = clear-IsMortal k fate s h
    after_command-IsMortal (lapsing k) s h = del-IsMortal k s h

    -- For any server that keeps the laws: if every key that there is has a lifetime, then so it is after any
    -- commands of the login throttle, in any order, some of them or their answers lost, and some
    -- keys ended.
    pub after_commands-IsMortal :
        (cs : List Command) (s : S) → IsMortal s → IsMortal (after_commands r cs s)
    unfolding after_commands
    after_commands-IsMortal [] s h = h
    after_commands-IsMortal (c ∷ cs) s h =
        after_commands-IsMortal cs (after_command r c s) (after_command-IsMortal c s h)
