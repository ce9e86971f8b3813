-- ===== src/Auth/ThrottleTests.antt =====
-- The login throttle on a server that is a list of its keys, each with its number and whether it has a lifetime.
use gemone.Prelude.{
  ◌↔◌, ◌⊎◌, ◌≤ℤ◌, err, rate_limited, ◌≤◌, ◌≡◌, refl, ap, inl, inr, ℤ, pos, ◌+ℤ◌, ◌-ℤ◌, Bool, true,
  false, Option, none, some, is_some, Text, codes, text_eq, text_eq→eq, List, [], ◌∷◌, get_at,
  put_at, delete_at, get_at-put_at, get_at-put_at_ne, get_at-delete_at, get_at-delete_at_ne, ok,
  Bool-cases,
}
use gemone.Auth.Attempts.{release_attempt-reserve_attempt}
use gemone.Auth.Throttle.{
  Limits, account_redis_key, ip_redis_key, reserve_attempt, release_attempt, Redis, RedisLaws,
  answers, unanswered,
}
use gemone.Auth.Admission.{Command, reserving, releasing, admitted, after_commands, admitted-limit}
use gemone.Auth.Mortal.{IsMortal, after_commands-IsMortal}

abbrev Keys : Type 0
Keys = List (Text × (ℤ × Bool))

abbrev count_of : Option (ℤ × Bool) → ℤ
count_of none = pos 0
count_of (some (n, _)) = n

abbrev life_of : Option (ℤ × Bool) → Bool
life_of none = false
life_of (some (_, lives)) = lives

abbrev expire_at : Text → Option (ℤ × Bool) → Keys → Keys
expire_at k none s = s
expire_at k (some (n, _)) s = put_at k (n, true) s

abbrev table : Redis Keys
table = record {
  count = λ k s. count_of (get_at k s);
  exists = λ k s. is_some (get_at k s);
  expires = λ k s. life_of (get_at k s);
  incr = λ k s. put_at k (count_of (get_at k s) +ℤ pos 1, life_of (get_at k s)) s;
  decr = λ k s. put_at k (count_of (get_at k s) -ℤ pos 1, life_of (get_at k s)) s;
  del = λ k s. delete_at k s;
  expire_nx = λ k w s. expire_at k (get_at k s) s;
}

-- A lifetime changes no number, and nothing at another key.
expire_at_kept :
    {A : Type 0} (f : Option (ℤ × Bool) → A) (j k : Text) (s : Keys)
    → ((n : ℤ) (b : Bool) → f (some (n, true)) ≡ f (some (n, b)))
    → f (get_at j (expire_at k (get_at k s) s)) ≡ f (get_at j s)
expire_at_kept f j k s same = go (get_at k s) refl
  where
    go : (o : Option (ℤ × Bool)) → get_at k s ≡ o → f (get_at j (expire_at k o s)) ≡ f (get_at j s)
    go none at = refl
    go (some (n, b)) at = elim (Bool-cases (text_eq j k)) [
      | inl here ↦ rw (text_eq→eq j k here) (rw (get_at-put_at k (n, true) s, at) (same n b))
      | inr other ↦ ap f (get_at-put_at_ne j k (n, true) s other)
    ]

expire_at_ne :
    (j k : Text) (s : Keys)
    → text_eq j k ≡ false
    → get_at j (expire_at k (get_at k s) s) ≡ get_at j s
expire_at_ne j k s other = go (get_at k s)
  where
    go : (o : Option (ℤ × Bool)) → get_at j (expire_at k o s) ≡ get_at j s
    go none = refl
    go (some (n, b)) = get_at-put_at_ne j k (n, true) s other

expire_at_lives :
    (k : Text) (s : Keys)
    → is_some (get_at k s) ≡ true
    → life_of (get_at k (expire_at k (get_at k s) s)) ≡ true
expire_at_lives k s there = go (get_at k s) there
  where
    go : (o : Option (ℤ × Bool)) → is_some o ≡ true → life_of (get_at k (expire_at k o s)) ≡ true
    go none h = cc
    go (some (n, b)) h = ap life_of (get_at-put_at k (n, true) s)

table_laws : RedisLaws Keys table
table_laws = record {
  count-incr = λ k s. ap count_of (get_at-put_at k _ s);
  count-decr = λ k s. ap count_of (get_at-put_at k _ s);
  count-del = λ k s. ap count_of (get_at-delete_at k s);
  count-expire = λ j k w s. expire_at_kept count_of j k s (λ n b. refl);
  count-incr_ne = λ j k s other. ap count_of (get_at-put_at_ne j k _ s other);
  count-decr_ne = λ j k s other. ap count_of (get_at-put_at_ne j k _ s other);
  count-del_ne = λ j k s other. ap count_of (get_at-delete_at_ne j k s other);
  exists-incr = λ k s. ap is_some (get_at-put_at k _ s);
  exists-decr = λ k s. ap is_some (get_at-put_at k _ s);
  exists-del = λ k s. ap is_some (get_at-delete_at k s);
  exists-expire = λ j k w s. expire_at_kept is_some j k s (λ n b. refl);
  exists-incr_ne = λ j k s other. ap is_some (get_at-put_at_ne j k _ s other);
  exists-decr_ne = λ j k s other. ap is_some (get_at-put_at_ne j k _ s other);
  exists-del_ne = λ j k s other. ap is_some (get_at-delete_at_ne j k s other);
  expires-expire = λ k w s there. expire_at_lives k s there;
  expires-expire_ne = λ j k w s other. ap life_of (expire_at_ne j k s other);
  expires-incr_ne = λ j k s other. ap life_of (get_at-put_at_ne j k _ s other);
  expires-decr_ne = λ j k s other. ap life_of (get_at-put_at_ne j k _ s other);
  expires-del_ne = λ j k s other. ap life_of (get_at-delete_at_ne j k s other);
}

-- Three guesses at one account between two at another, the second answer lost.
abbrev guesses : List Command
guesses =
    reserving (codes "a") 900 answers
    ∷ reserving (codes "b") 900 answers
    ∷ reserving (codes "a") 900 unanswered
    ∷ releasing (codes "b") 900 answers
    ∷ reserving (codes "a") 900 answers
    ∷ []

admitted-limit_example : admitted table 2 (codes "a") guesses [] ≤ 2
unfolding get_at
admitted-limit_example =
    admitted-limit table table_laws 2 0 (codes "a") guesses [] refl
      (refl, (refl, (refl, (refl, (refl, tt)))))

after_commands-IsMortal_example : IsMortal table (after_commands table guesses [])
unfolding get_at
after_commands-IsMortal_example =
    after_commands-IsMortal table table_laws guesses [] (λ k there. cc)

abbrev strict : Limits
strict = record { account_limit = 2; ip_limit = 5; account_window = 900; ip_window = 900 }

release_attempt-reserve_attempt_example :
    let account = account_redis_key (codes "a") in
    let address = ip_redis_key (codes "i") in
    let (answer, taken) =
      reserve_attempt table strict (codes "a") (some (codes "i")) answers answers [] in
    let back = release_attempt table strict (codes "a") (some (codes "i")) answers answers taken in
    (answer ≡ ok tt ↔ ((pos 0 +ℤ pos 1 ≤ℤ pos 2) × (pos 0 +ℤ pos 1 ≤ℤ pos 5)))
    × ((answer ≡ ok tt) ⊎ (answer ≡ err rate_limited))
    × (table.count account taken ≡ pos 0 +ℤ pos 1)
    × (table.count address taken ≡ pos 0 +ℤ pos 1)
    × (table.count account back ≡ pos 0)
    × (table.count address back ≡ pos 0)
    × (let alone = (reserve_attempt table strict (codes "a") none answers answers []).0 in
        (alone ≡ ok tt ↔ (pos 0 +ℤ pos 1 ≤ℤ pos 2))
        × ((alone ≡ ok tt) ⊎ (alone ≡ err rate_limited)))
unfolding get_at
release_attempt-reserve_attempt_example =
    release_attempt-reserve_attempt table table_laws strict (codes "a") (codes "i") []
