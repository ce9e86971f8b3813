-- ===== src/Auth/Throttle.antt =====
-- apps/api/src/modules/auth/login-throttle.service.ts. Redis is an argument: what its commands do to a counter is
-- stated by `RedisLaws`. A command may be lost on its way there, or be carried out while its answer
-- is lost on the way back; `reserve` and `release` run two commands as one.
use gemone.Prelude.{
  ℕ, ◌≡◌, ℤ, pos, ◌+ℤ◌, ◌-ℤ◌, leb_ℤ, Bool, true, false, ◌&&◌, Option, none, some, Text, codes,
  text_eq, ◌++◌, if◌then◌else◌, Result, ok, err, unavailable, rate_limited,
}

-- The keys of one server: `count` is the number at a key, 0 where there is none.
pub record Redis (S : Type 0) : Type 0 where
  pub count : Text → S → ℤ
  pub exists : Text → S → Bool
  pub expires : Text → S → Bool
  pub incr : Text → S → S
  pub decr : Text → S → S
  pub del : Text → S → S
  pub expire_nx : Text → ℕ → S → S

-- INCR and DECR count from 0 on a missing key, which they create; DEL removes one; EXPIRE with NX
-- gives an existing key a lifetime if it has none. No command touches another key. A window is at least
-- the 60 seconds that the configuration's schema asks for, so EXPIRE never deletes a key at once.
pub record RedisLaws (S : Type 0) (r : Redis S) : Type 0 where
  pub count-incr : (k : Text) (s : S) → r.count k (r.incr k s) ≡ r.count k s +ℤ pos 1
  pub count-decr : (k : Text) (s : S) → r.count k (r.decr k s) ≡ r.count k s -ℤ pos 1
  pub count-del : (k : Text) (s : S) → r.count k (r.del k s) ≡ pos 0
  pub count-expire : (j k : Text) (w : ℕ) (s : S) → r.count j (r.expire_nx k w s) ≡ r.count j s
  pub count-incr_ne :
      (j k : Text) (s : S) → text_eq j k ≡ false → r.count j (r.incr k s) ≡ r.count j s
  pub count-decr_ne :
      (j k : Text) (s : S) → text_eq j k ≡ false → r.count j (r.decr k s) ≡ r.count j s
  pub count-del_ne :
      (j k : Text) (s : S) → text_eq j k ≡ false → r.count j (r.del k s) ≡ r.count j s
  pub exists-incr : (k : Text) (s : S) → r.exists k (r.incr k s) ≡ true
  pub exists-decr : (k : Text) (s : S) → r.exists k (r.decr k s) ≡ true
  pub exists-del : (k : Text) (s : S) → r.exists k (r.del k s) ≡ false
  pub exists-expire : (j k : Text) (w : ℕ) (s : S) → r.exists j (r.expire_nx k w s) ≡ r.exists j s
  pub exists-incr_ne :
      (j k : Text) (s : S) → text_eq j k ≡ false → r.exists j (r.incr k s) ≡ r.exists j s
  pub exists-decr_ne :
      (j k : Text) (s : S) → text_eq j k ≡ false → r.exists j (r.decr k s) ≡ r.exists j s
  pub exists-del_ne :
      (j k : Text) (s : S) → text_eq j k ≡ false → r.exists j (r.del k s) ≡ r.exists j s
  pub expires-expire :
      (k : Text) (w : ℕ) (s : S) → r.exists k s ≡ true → r.expires k (r.expire_nx k w s) ≡ true
  pub expires-expire_ne :
      (j k : Text) (w : ℕ) (s : S)
      → text_eq j k ≡ false
      → r.expires j (r.expire_nx k w s) ≡ r.expires j s
  pub expires-incr_ne :
      (j k : Text) (s : S) → text_eq j k ≡ false → r.expires j (r.incr k s) ≡ r.expires j s
  pub expires-decr_ne :
      (j k : Text) (s : S) → text_eq j k ≡ false → r.expires j (r.decr k s) ≡ r.expires j s
  pub expires-del_ne :
      (j k : Text) (s : S) → text_eq j k ≡ false → r.expires j (r.del k s) ≡ r.expires j s

pub data Fate : Type 0 where
  answers never_arrives unanswered : Fate

-- What the settings say.
pub record Limits : Type 0 where
  pub account_limit : ℕ
  pub ip_limit : ℕ
  pub account_window : ℕ
  pub ip_window : ℕ

abbrev pub account_redis_key : Text → Text
account_redis_key key = codes "ow:1:login-throttle:account:" ++ key

abbrev pub ip_redis_key : Text → Text
ip_redis_key ip = codes "ow:1:login-throttle:ip:" ++ ip

-- What the two reservations say of the attempt; with no address there is only one.
unfoldable pub verdict : Limits → Result ℤ → Option (Result ℤ) → Result (Unit {0})
verdict l (err _) _ = err unavailable
verdict l (ok _) (some (err _)) = err unavailable
verdict l (ok account) none =
    if leb_ℤ account (pos l.account_limit) then ok tt else err rate_limited
verdict l (ok account) (some (ok ip)) =
    if leb_ℤ account (pos l.account_limit) && leb_ℤ ip (pos l.ip_limit)
    then ok tt
    else err rate_limited

module _ {S : Type 0} (r : Redis S) where
  -- `MULTI`, a command, `EXPIRE … NX`, `EXEC`: the number at the key after it.
  unfoldable pub transact : Text → ℕ → (Text → S → S) → Fate → S → Result ℤ × S
  transact key window command fate s =
      let s' = r.expire_nx key window (command key s) in
      elim fate [
        | answers ↦ (ok (r.count key s'), s')
        | never_arrives ↦ (err unavailable, s)
        | unanswered ↦ (err unavailable, s')
      ]

  unfoldable pub reserve : Text → ℕ → Fate → S → Result ℤ × S
  reserve key window = transact key window r.incr

  unfoldable pub release : Text → ℕ → Fate → S → Result ℤ × S
  release key window = transact key window r.decr

  unfoldable pub reserve_attempt :
      Limits → Text → Option Text → Fate → Fate → S → Result (Unit {0}) × S
  reserve_attempt l account_key none fate _ s =
      let (account, s') = reserve (account_redis_key account_key) l.account_window fate s in
      (verdict l account none, s')
  reserve_attempt l account_key (some ip) fate fate' s =
      let (account, s') = reserve (account_redis_key account_key) l.account_window fate s in
      let (address, s'') = reserve (ip_redis_key ip) l.ip_window fate' s' in
      (verdict l account (some address), s'')

  abbrev pub clear : Text → Fate → S → S
  clear key fate s = elim fate [
    | answers ↦ r.del key s
    | never_arrives ↦ s
    | unanswered ↦ r.del key s
  ]

  -- Best effort: what fails is not reported.
  unfoldable pub release_attempt : Limits → Text → Option Text → Fate → Fate → S → S
  release_attempt l account_key none fate _ s = clear (account_redis_key account_key) fate s
  release_attempt l account_key (some ip) fate fate' s =
      (release (ip_redis_key ip) l.ip_window fate' (clear (account_redis_key account_key) fate s)).1
