-- ===== src/Auth/Attempts.antt =====
-- What an attempt to log in takes from the counters and what a correct password gives back
-- (apps/api/src/modules/auth/login-throttle.service.ts, `reserveAttempt` and `releaseAttempt`).
use gemone.Prelude.{
  arith, ◌↔◌, ◌⊎◌, err, rate_limited, ◌≤ℤ◌, ℕ, ◌≡◌, refl, ◌∙◌, ap, ℤ, pos, ◌+ℤ◌, ◌-ℤ◌, int_laws,
  false, none, some, Text, text_eq, ok,
}
use gemone.Auth.Throttle.{
  Redis, RedisLaws, Limits, answers, account_redis_key, ip_redis_key, transact, reserve, release,
  verdict, reserve_attempt, release_attempt,
}

-- The two kinds of key never meet.
keys-apart :
    (account_key ip : Text) → text_eq (account_redis_key account_key) (ip_redis_key ip) ≡ false
keys-apart account_key ip = refl

keys-apart_back :
    (account_key ip : Text) → text_eq (ip_redis_key ip) (account_redis_key account_key) ≡ false
keys-apart_back account_key ip = refl

given_back : (a : ℤ) → a +ℤ pos 1 -ℤ pos 1 ≡ a
given_back a = omega int_laws

-- What `verdict` says of two numbers.
verdict-limits :
    (l : Limits) (a b : ℤ)
    → (verdict l (ok a) (some (ok b)) ≡ ok tt
        ↔ ((a ≤ℤ pos l.account_limit) × (b ≤ℤ pos l.ip_limit)))
      × ((verdict l (ok a) (some (ok b)) ≡ ok tt)
          ⊎ (verdict l (ok a) (some (ok b)) ≡ err rate_limited))
unfolding verdict
verdict-limits l a b = ground arith

verdict-account_limit :
    (l : Limits) (a : ℤ)
    → (verdict l (ok a) none ≡ ok tt ↔ (a ≤ℤ pos l.account_limit))
      × ((verdict l (ok a) none ≡ ok tt) ⊎ (verdict l (ok a) none ≡ err rate_limited))
unfolding verdict
verdict-account_limit l a = ground arith

module _ {S : Type 0} (r : Redis S) (laws : RedisLaws S r) where
  -- The two reservations of an attempt.
  reserved_at :
      (key other : Text) (w : ℕ) (s : S)
      → text_eq other key ≡ false
      → (r.count key (r.expire_nx key w (r.incr key s)) ≡ r.count key s +ℤ pos 1)
        × (r.count other (r.expire_nx key w (r.incr key s)) ≡ r.count other s)
  reserved_at key other w s apart = (
    laws.count-expire key key w (r.incr key s) ∙ laws.count-incr key s,
    laws.count-expire other key w (r.incr key s) ∙ laws.count-incr_ne other key s apart,
  )

  -- For any server that keeps the laws, when it answers: an attempt from a known address is let through
  -- exactly if neither count, with itself among them, is above its limit, it is refused as too many
  -- otherwise, and it leaves each count one higher. A release after it clears the count of the account,
  -- and leaves the count of the address as it was before the attempt. An attempt from no known address
  -- is judged in the same way by the count of the account alone.
  pub release_attempt-reserve_attempt :
      (l : Limits) (account_key ip : Text) (s : S)
      → let account = account_redis_key account_key in
        let address = ip_redis_key ip in
        let (answer, taken) = reserve_attempt r l account_key (some ip) answers answers s in
        let back = release_attempt r l account_key (some ip) answers answers taken in
        (answer ≡ ok tt ↔ (
          (r.count account s +ℤ pos 1 ≤ℤ pos l.account_limit)
          × (r.count address s +ℤ pos 1 ≤ℤ pos l.ip_limit)))
        × ((answer ≡ ok tt) ⊎ (answer ≡ err rate_limited))
        × (r.count account taken ≡ r.count account s +ℤ pos 1)
        × (r.count address taken ≡ r.count address s +ℤ pos 1)
        × (r.count account back ≡ pos 0)
        × (r.count address back ≡ r.count address s)
        × (let alone = (reserve_attempt r l account_key none answers answers s).0 in
            (alone ≡ ok tt ↔ (r.count account s +ℤ pos 1 ≤ℤ pos l.account_limit))
            × ((alone ≡ ok tt) ⊎ (alone ≡ err rate_limited)))
  unfolding reserve_attempt release_attempt reserve release transact
  release_attempt-reserve_attempt l account_key ip s =
      let account = account_redis_key account_key in
      let address = ip_redis_key ip in
      let s1 = r.expire_nx account l.account_window (r.incr account s) in
      let s2 = r.expire_nx address l.ip_window (r.incr address s1) in
      let s3 = r.del account s2 in
      let (first, kept) =
        reserved_at account address l.account_window s (keys-apart_back account_key ip) in
      let (second, kept') =
        reserved_at address account l.ip_window s1 (keys-apart account_key ip) in
      let told : r.count address s2 ≡ r.count address s +ℤ pos 1 =
        second ∙ ap (λ n. n +ℤ pos 1) kept in
      let cleared = laws.count-del_ne address account s2 (keys-apart_back account_key ip) in
      let judged =
        ap (λ n. verdict l (ok n) (some (ok (r.count address s2)))) first
        ∙ ap (λ n. verdict l (ok (r.count account s +ℤ pos 1)) (some (ok n))) told in
      let counts = verdict-limits l (r.count account s +ℤ pos 1) (r.count address s +ℤ pos 1) in
      (
        rw judged (counts.0),
        rw judged (counts.1),
        kept' ∙ first,
        told,
        laws.count-expire account address l.ip_window (r.decr address s3)
            ∙ (laws.count-decr_ne account address s3 (keys-apart account_key ip)
                ∙ laws.count-del account s2),
        laws.count-expire address address l.ip_window (r.decr address s3)
            ∙ (laws.count-decr address s3
                ∙ (ap (λ n. n -ℤ pos 1) (cleared ∙ told) ∙ given_back (r.count address s))),
        rw first (verdict-account_limit l (r.count account s +ℤ pos 1)),
      )
