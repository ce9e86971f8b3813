-- ===== src/Providers/Prefix.antt =====
-- `sharesPrefix` of apps/api/src/modules/providers/internal/ip-range.ts against the bits of an address.
use gemone.Prelude.{
  ℕ, zero, suc, ◌+◌, ◌*◌, ◌/◌, ◌%◌, ◌≤◌, ◌<◌, ◌≡◌, refl, sym, ap, ◌∙◌, Bool, true, false, ◌&&◌,
  List, [], ◌∷◌, ◌++◌, ◌==◌, if◌then◌else◌, length, take, text_eq, All, arith,
}
use gemone.Providers.Range.{byte_at, same_bytes, masked, shares_prefix}

-- The eight bits of a byte, the highest first, and those of an address.
abbrev pub bits_of_byte : ℕ → List ℕ
bits_of_byte x =
    x / 128 % 2
    ∷ x / 64 % 2
    ∷ x / 32 % 2
    ∷ x / 16 % 2
    ∷ x / 8 % 2
    ∷ x / 4 % 2
    ∷ x / 2 % 2
    ∷ x % 2
    ∷ []

abbrev pub bits_of : List ℕ → List ℕ
bits_of [] = []
bits_of (x ∷ xs) = bits_of_byte x ++ bits_of xs

abbrev pub IsByte : ℕ → Type 0
IsByte x = x < 256

-- A number is its half and its last bit.
halves : (u v : ℕ) → (u == v) ≡ (u / 2 == v / 2 && u % 2 == v % 2)
halves u v = ground arith

-- One more test at the end of a conjunction of some.
snoc0 : (e : Bool) → (true && e) ≡ (e && true)
snoc0 true = refl
snoc0 false = refl

snoc1 : (e1 e : Bool) → ((e1 && true) && e) ≡ (e1 && (e && true))
snoc1 true e = snoc0 e
snoc1 false e = refl

snoc2 : (e1 e2 e : Bool) → ((e1 && (e2 && true)) && e) ≡ (e1 && (e2 && (e && true)))
snoc2 true e2 e = snoc1 e2 e
snoc2 false e2 e = refl

snoc3 :
    (e1 e2 e3 e : Bool) → ((e1 && (e2 && (e3 && true))) && e) ≡ (e1 && (e2 && (e3 && (e && true))))
snoc3 true e2 e3 e = snoc2 e2 e3 e
snoc3 false e2 e3 e = refl

snoc4 :
    (e1 e2 e3 e4 e : Bool)
    → ((e1 && (e2 && (e3 && (e4 && true)))) && e) ≡ (e1 && (e2 && (e3 && (e4 && (e && true)))))
snoc4 true e2 e3 e4 e = snoc3 e2 e3 e4 e
snoc4 false e2 e3 e4 e = refl

snoc5 :
    (e1 e2 e3 e4 e5 e : Bool)
    → ((e1 && (e2 && (e3 && (e4 && (e5 && true))))) && e)
      ≡ (e1 && (e2 && (e3 && (e4 && (e5 && (e && true))))))
snoc5 true e2 e3 e4 e5 e = snoc4 e2 e3 e4 e5 e
snoc5 false e2 e3 e4 e5 e = refl

snoc6 :
    (e1 e2 e3 e4 e5 e6 e : Bool)
    → ((e1 && (e2 && (e3 && (e4 && (e5 && (e6 && true)))))) && e)
      ≡ (e1 && (e2 && (e3 && (e4 && (e5 && (e6 && (e && true)))))))
snoc6 true e2 e3 e4 e5 e6 e = snoc5 e2 e3 e4 e5 e6 e
snoc6 false e2 e3 e4 e5 e6 e = refl

snoc7 :
    (e1 e2 e3 e4 e5 e6 e7 e : Bool)
    → ((e1 && (e2 && (e3 && (e4 && (e5 && (e6 && (e7 && true))))))) && e)
      ≡ (e1 && (e2 && (e3 && (e4 && (e5 && (e6 && (e7 && (e && true))))))))
snoc7 true e2 e3 e4 e5 e6 e7 e = snoc6 e2 e3 e4 e5 e6 e7 e
snoc7 false e2 e3 e4 e5 e6 e7 e = refl

-- The first bits of two bytes agree when their quotients do.
first1 :
    (x y : ℕ)
    → IsByte x
    → IsByte y
    → (x / 128 == y / 128) ≡ text_eq (take 1 (bits_of_byte x)) (take 1 (bits_of_byte y))
first1 x y hx hy = ground arith

first2 :
    (x y : ℕ)
    → IsByte x
    → IsByte y
    → (x / 64 == y / 64) ≡ text_eq (take 2 (bits_of_byte x)) (take 2 (bits_of_byte y))
first2 x y hx hy = ground arith

first3 :
    (x y : ℕ)
    → IsByte x
    → IsByte y
    → (x / 32 == y / 32) ≡ text_eq (take 3 (bits_of_byte x)) (take 3 (bits_of_byte y))
first3 x y hx hy = ground arith

first4 :
    (x y : ℕ)
    → IsByte x
    → IsByte y
    → (x / 16 == y / 16) ≡ text_eq (take 4 (bits_of_byte x)) (take 4 (bits_of_byte y))
first4 x y hx hy =
    let last = (x / 16 % 2 == y / 16 % 2) in
    let u : x / 16 / 2 ≡ x / 32 = omega arith in
    let v : y / 16 / 2 ≡ y / 32 = omega arith in
    halves (x / 16) (y / 16)
    ∙ (rw (u, v) (ap (λ b. b && last) (first3 x y hx hy)))
    ∙ snoc3 (x / 128 % 2 == y / 128 % 2) (x / 64 % 2 == y / 64 % 2) (x / 32 % 2 == y / 32 % 2)
        (x / 16 % 2 == y / 16 % 2)

first5 :
    (x y : ℕ)
    → IsByte x
    → IsByte y
    → (x / 8 == y / 8) ≡ text_eq (take 5 (bits_of_byte x)) (take 5 (bits_of_byte y))
first5 x y hx hy =
    let last = (x / 8 % 2 == y / 8 % 2) in
    let u : x / 8 / 2 ≡ x / 16 = omega arith in
    let v : y / 8 / 2 ≡ y / 16 = omega arith in
    halves (x / 8) (y / 8)
    ∙ (rw (u, v) (ap (λ b. b && last) (first4 x y hx hy)))
    ∙ snoc4 (x / 128 % 2 == y / 128 % 2) (x / 64 % 2 == y / 64 % 2) (x / 32 % 2 == y / 32 % 2)
        (x / 16 % 2 == y / 16 % 2) (x / 8 % 2 == y / 8 % 2)

first6 :
    (x y : ℕ)
    → IsByte x
    → IsByte y
    → (x / 4 == y / 4) ≡ text_eq (take 6 (bits_of_byte x)) (take 6 (bits_of_byte y))
first6 x y hx hy =
    let last = (x / 4 % 2 == y / 4 % 2) in
    let u : x / 4 / 2 ≡ x / 8 = omega arith in
    let v : y / 4 / 2 ≡ y / 8 = omega arith in
    halves (x / 4) (y / 4)
    ∙ (rw (u, v) (ap (λ b. b && last) (first5 x y hx hy)))
    ∙ snoc5 (x / 128 % 2 == y / 128 % 2) (x / 64 % 2 == y / 64 % 2) (x / 32 % 2 == y / 32 % 2)
        (x / 16 % 2 == y / 16 % 2) (x / 8 % 2 == y / 8 % 2) (x / 4 % 2 == y / 4 % 2)

first7 :
    (x y : ℕ)
    → IsByte x
    → IsByte y
    → (x / 2 == y / 2) ≡ text_eq (take 7 (bits_of_byte x)) (take 7 (bits_of_byte y))
first7 x y hx hy =
    let last = (x / 2 % 2 == y / 2 % 2) in
    let u : x / 2 / 2 ≡ x / 4 = omega arith in
    let v : y / 2 / 2 ≡ y / 4 = omega arith in
    halves (x / 2) (y / 2)
    ∙ (rw (u, v) (ap (λ b. b && last) (first6 x y hx hy)))
    ∙ snoc6 (x / 128 % 2 == y / 128 % 2) (x / 64 % 2 == y / 64 % 2) (x / 32 % 2 == y / 32 % 2)
        (x / 16 % 2 == y / 16 % 2) (x / 8 % 2 == y / 8 % 2) (x / 4 % 2 == y / 4 % 2)
        (x / 2 % 2 == y / 2 % 2)

first8 :
    (x y : ℕ)
    → IsByte x
    → IsByte y
    → (x == y) ≡ text_eq (take 8 (bits_of_byte x)) (take 8 (bits_of_byte y))
first8 x y hx hy =
    let last = (x % 2 == y % 2) in
    let u : x / 2 ≡ x / 2 = omega arith in
    let v : y / 2 ≡ y / 2 = omega arith in
    halves (x) (y)
    ∙ (rw (u, v) (ap (λ b. b && last) (first7 x y hx hy)))
    ∙ snoc7 (x / 128 % 2 == y / 128 % 2) (x / 64 % 2 == y / 64 % 2) (x / 32 % 2 == y / 32 % 2)
        (x / 16 % 2 == y / 16 % 2) (x / 8 % 2 == y / 8 % 2) (x / 4 % 2 == y / 4 % 2)
        (x / 2 % 2 == y / 2 % 2) (x % 2 == y % 2)

-- A masked byte is a quotient.
masked1 : (x y : ℕ) → (masked 1 x == masked 1 y) ≡ (x / 128 == y / 128)
masked1 x y = ground arith

masked2 : (x y : ℕ) → (masked 2 x == masked 2 y) ≡ (x / 64 == y / 64)
masked2 x y = ground arith

masked3 : (x y : ℕ) → (masked 3 x == masked 3 y) ≡ (x / 32 == y / 32)
masked3 x y = ground arith

masked4 : (x y : ℕ) → (masked 4 x == masked 4 y) ≡ (x / 16 == y / 16)
masked4 x y = ground arith

masked5 : (x y : ℕ) → (masked 5 x == masked 5 y) ≡ (x / 8 == y / 8)
masked5 x y = ground arith

masked6 : (x y : ℕ) → (masked 6 x == masked 6 y) ≡ (x / 4 == y / 4)
masked6 x y = ground arith

masked7 : (x y : ℕ) → (masked 7 x == masked 7 y) ≡ (x / 2 == y / 2)
masked7 x y = ground arith

-- Tests that are followed by more.
join0 : (r : Bool) → (true && r) ≡ (r)
join0 r = refl

join1 : (e1 r : Bool) → ((e1 && true) && r) ≡ (e1 && r)
join1 true r = join0 r
join1 false r = refl

join2 : (e1 e2 r : Bool) → ((e1 && (e2 && true)) && r) ≡ (e1 && (e2 && r))
join2 true e2 r = join1 e2 r
join2 false e2 r = refl

join3 : (e1 e2 e3 r : Bool) → ((e1 && (e2 && (e3 && true))) && r) ≡ (e1 && (e2 && (e3 && r)))
join3 true e2 e3 r = join2 e2 e3 r
join3 false e2 e3 r = refl

join4 :
    (e1 e2 e3 e4 r : Bool)
    → ((e1 && (e2 && (e3 && (e4 && true)))) && r) ≡ (e1 && (e2 && (e3 && (e4 && r))))
join4 true e2 e3 e4 r = join3 e2 e3 e4 r
join4 false e2 e3 e4 r = refl

join5 :
    (e1 e2 e3 e4 e5 r : Bool)
    → ((e1 && (e2 && (e3 && (e4 && (e5 && true))))) && r)
      ≡ (e1 && (e2 && (e3 && (e4 && (e5 && r)))))
join5 true e2 e3 e4 e5 r = join4 e2 e3 e4 e5 r
join5 false e2 e3 e4 e5 r = refl

join6 :
    (e1 e2 e3 e4 e5 e6 r : Bool)
    → ((e1 && (e2 && (e3 && (e4 && (e5 && (e6 && true)))))) && r)
      ≡ (e1 && (e2 && (e3 && (e4 && (e5 && (e6 && r))))))
join6 true e2 e3 e4 e5 e6 r = join5 e2 e3 e4 e5 e6 r
join6 false e2 e3 e4 e5 e6 r = refl

join7 :
    (e1 e2 e3 e4 e5 e6 e7 r : Bool)
    → ((e1 && (e2 && (e3 && (e4 && (e5 && (e6 && (e7 && true))))))) && r)
      ≡ (e1 && (e2 && (e3 && (e4 && (e5 && (e6 && (e7 && r)))))))
join7 true e2 e3 e4 e5 e6 e7 r = join6 e2 e3 e4 e5 e6 e7 r
join7 false e2 e3 e4 e5 e6 e7 r = refl

join8 :
    (e1 e2 e3 e4 e5 e6 e7 e8 r : Bool)
    → ((e1 && (e2 && (e3 && (e4 && (e5 && (e6 && (e7 && (e8 && true)))))))) && r)
      ≡ (e1 && (e2 && (e3 && (e4 && (e5 && (e6 && (e7 && (e8 && r))))))))
join8 true e2 e3 e4 e5 e6 e7 e8 r = join7 e2 e3 e4 e5 e6 e7 e8 r
join8 false e2 e3 e4 e5 e6 e7 e8 r = refl

and_assoc : (a b c : Bool) → (a && (b && c)) ≡ ((a && b) && c)
and_assoc a b c = ground arith

-- `shares_prefix` with so many whole bytes and bits left.
abbrev shares : ℕ → ℕ → List ℕ → List ℕ → Bool
shares whole remainder left right =
    same_bytes whole left right
    && (if remainder == 0
        then true
        else masked remainder (byte_at whole left) == masked remainder (byte_at whole right))

shares_prefix-cons :
    (x y : ℕ) (xs ys : List ℕ) (n : ℕ)
    → shares_prefix (x ∷ xs) (y ∷ ys) (8 + n) ≡ (x == y && shares_prefix xs ys n)
unfolding shares_prefix same_bytes
shares_prefix-cons x y xs ys n =
    let whole : (8 + n) / 8 ≡ suc (n / 8) = omega arith in
    let remainder : (8 + n) % 8 ≡ n % 8 = omega arith in
    let last =
      if n % 8 == 0
      then true
      else masked (n % 8) (byte_at (n / 8) xs) == masked (n % 8) (byte_at (n / 8) ys) in
    ap (λ w. shares w ((8 + n) % 8) (x ∷ xs) (y ∷ ys)) whole
    ∙ ap (λ r. shares (suc (n / 8)) r (x ∷ xs) (y ∷ ys)) remainder
    ∙ sym (and_assoc (x == y) (same_bytes (n / 8) xs ys) last)

-- Two addresses of the same length share a prefix exactly when so many of their first bits are the
-- same.
pub shares_prefix_lem :
    (left right : List ℕ) (bits : ℕ)
    → All IsByte left
    → All IsByte right
    → length left ≡ length right
    → bits ≤ 8 * length left
    → shares_prefix left right bits ≡ text_eq (take bits (bits_of left)) (take bits (bits_of right))
unfolding shares_prefix same_bytes
shares_prefix_lem left right zero hl hr len n = refl
shares_prefix_lem [] [] (suc n) hl hr len h = absurd (omega arith)
shares_prefix_lem [] (y ∷ ys) (suc n) hl hr len h = absurd (omega arith)
shares_prefix_lem (x ∷ xs) [] (suc n) hl hr len h = absurd (omega arith)
shares_prefix_lem (x ∷ xs) (y ∷ ys) (suc zero) hl hr len h = masked1 x y ∙ first1 x y hl.0 hr.0
shares_prefix_lem (x ∷ xs) (y ∷ ys) (suc (suc zero)) hl hr len h =
    masked2 x y ∙ first2 x y hl.0 hr.0
shares_prefix_lem (x ∷ xs) (y ∷ ys) (suc (suc (suc zero))) hl hr len h =
    masked3 x y ∙ first3 x y hl.0 hr.0
shares_prefix_lem (x ∷ xs) (y ∷ ys) (suc (suc (suc (suc zero)))) hl hr len h =
    masked4 x y ∙ first4 x y hl.0 hr.0
shares_prefix_lem (x ∷ xs) (y ∷ ys) (suc (suc (suc (suc (suc zero))))) hl hr len h =
    masked5 x y ∙ first5 x y hl.0 hr.0
shares_prefix_lem (x ∷ xs) (y ∷ ys) (suc (suc (suc (suc (suc (suc zero)))))) hl hr len h =
    masked6 x y ∙ first6 x y hl.0 hr.0
shares_prefix_lem (x ∷ xs) (y ∷ ys) (suc (suc (suc (suc (suc (suc (suc zero))))))) hl hr len h =
    masked7 x y ∙ first7 x y hl.0 hr.0
shares_prefix_lem (x ∷ xs) (y ∷ ys) (suc (suc (suc (suc (suc (suc (suc (suc n)))))))) hl hr len h =
    let rest = text_eq (take n (bits_of xs)) (take n (bits_of ys)) in
    let more : suc (suc (suc (suc (suc (suc (suc (suc n))))))) ≡ 8 + n = omega arith in
    ap (λ k. shares_prefix (x ∷ xs) (y ∷ ys) k) more
    ∙ shares_prefix-cons x y xs ys n
    ∙ ap (λ b. (x == y) && b) (shares_prefix_lem xs ys n hl.1 hr.1 (omega arith) (omega arith))
    ∙ ap (λ b. b && rest) (first8 x y hl.0 hr.0)
    ∙ join8 (x / 128 % 2 == y / 128 % 2) (x / 64 % 2 == y / 64 % 2) (x / 32 % 2 == y / 32 % 2)
        (x / 16 % 2 == y / 16 % 2) (x / 8 % 2 == y / 8 % 2) (x / 4 % 2 == y / 4 % 2)
        (x / 2 % 2 == y / 2 % 2) (x % 2 == y % 2) rest
