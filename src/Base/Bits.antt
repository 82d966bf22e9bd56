-- ===== src/Base/Bits.antt =====
-- `&`, `|` and the shifts at variables: both operations work field by field, for every width of the
-- lower field. From that follow the laws of low masks and of disjoint fields.
use Prim.Native.Nat.{
  ℕ, zero, suc, ◌+◌, ◌-◌, ◌*◌, ◌/◌, ◌%◌, ◌^◌, ◌≤◌, ◌<◌, min, max, bit_and, bit_or, digits,
  bit_and-bitwise, bit_or-bitwise,
}
use mathlib.Core.Path.{◌≡◌, refl, ap, ap₂}
use native.Mathlib.Nat.{pow-suc, one-le-pow}
use native.Mathlib.Omega.{arith}

abbrev pub shl : ℕ → ℕ → ℕ
shl x k = x * 2 ^ k

abbrev pub shr : ℕ → ℕ → ℕ
shr x k = x / 2 ^ k

-- The definition behind the native operations looks at one digit a round; more rounds than the first
-- number has digits change nothing.
module _ (rest : ℕ → ℕ) (join : ℕ → ℕ → ℕ) where
  digits_enough : (n m a b : ℕ) → a ≤ n → a ≤ m → digits rest join n a b ≡ digits rest join m a b
  digits_enough zero zero a b p q = refl
  digits_enough (suc n) (suc m) zero b p q = refl
  digits_enough zero (suc m) zero b p q = refl
  digits_enough (suc n) zero zero b p q = refl
  digits_enough zero m (suc a) b p q = absurd (omega arith)
  digits_enough (suc n) zero (suc a) b p q = absurd (omega arith)
  digits_enough (suc n) (suc m) (suc a) b p q =
      let half = digits_enough n m (suc a / 2) (b / 2) (omega arith) (omega arith) in
      omega (arith, half)

and_digit : (a b : ℕ) → bit_and a b ≡ bit_and (a / 2) (b / 2) * 2 + min (a % 2) (b % 2)
and_digit zero b = omega (arith, bit_and-bitwise 0 b, bit_and-bitwise 0 (b / 2))
and_digit (suc a) b =
    let half =
      digits_enough (λ _. zero) min a (suc a / 2) (suc a / 2) (b / 2) (omega arith) (omega arith) in
    omega (arith, bit_and-bitwise (suc a) b, bit_and-bitwise (suc a / 2) (b / 2), half)

or_digit : (a b : ℕ) → bit_or a b ≡ bit_or (a / 2) (b / 2) * 2 + max (a % 2) (b % 2)
or_digit zero b = omega (arith, bit_or-bitwise 0 b, bit_or-bitwise 0 (b / 2))
or_digit (suc a) b =
    let half =
      digits_enough (λ c. c) max a (suc a / 2) (suc a / 2) (b / 2) (omega arith) (omega arith) in
    omega (arith, bit_or-bitwise (suc a) b, bit_or-bitwise (suc a / 2) (b / 2), half)

widen : (q k : ℕ) → q * 2 ^ suc k ≡ 2 * (q * 2 ^ k)
widen q k = omega (arith, ap (λ (t : ℕ). q * t) (pow-suc 2 k))

-- `&` of two numbers, each of an upper field and a lower one of `k` bits, goes field by field.
pub and_fields :
    (k q m r s : ℕ)
    → r < 2 ^ k
    → s < 2 ^ k
    → bit_and (q * 2 ^ k + r) (m * 2 ^ k + s) ≡ bit_and q m * 2 ^ k + bit_and r s
and_fields zero q m r s hr hs =
    let low : (r ≡ 0) × (s ≡ 0) = omega arith in
    omega (
      arith,
      ap₂ bit_and low.0 low.1,
      ap₂ bit_and (let e : q * 2 ^ 0 + r ≡ q = omega arith in e)
          (let e : m * 2 ^ 0 + s ≡ m = omega arith in e),
    )
and_fields (suc k) q m r s hr hs = ground (
  arith,
  pow-suc 2 k,
  widen q k,
  widen m k,
  widen (bit_and q m) k,
  and_digit (q * 2 ^ suc k + r) (m * 2 ^ suc k + s),
  and_digit r s,
  and_fields k q m (r / 2) (s / 2),
)

pub or_fields :
    (k q m r s : ℕ)
    → r < 2 ^ k
    → s < 2 ^ k
    → bit_or (q * 2 ^ k + r) (m * 2 ^ k + s) ≡ bit_or q m * 2 ^ k + bit_or r s
or_fields zero q m r s hr hs =
    let low : (r ≡ 0) × (s ≡ 0) = omega arith in
    omega (
      arith,
      ap₂ bit_or low.0 low.1,
      ap₂ bit_or (let e : q * 2 ^ 0 + r ≡ q = omega arith in e)
          (let e : m * 2 ^ 0 + s ≡ m = omega arith in e),
    )
or_fields (suc k) q m r s hr hs = ground (
  arith,
  pow-suc 2 k,
  widen q k,
  widen m k,
  widen (bit_or q m) k,
  or_digit (q * 2 ^ suc k + r) (m * 2 ^ suc k + s),
  or_digit r s,
  or_fields k q m (r / 2) (s / 2),
)

and-zero_fuel : (n a : ℕ) → a ≤ n → bit_and a 0 ≡ 0
and-zero_fuel n zero h = refl
and-zero_fuel zero (suc a) h = absurd (omega arith)
and-zero_fuel (suc n) (suc a) h =
    omega (arith, and_digit (suc a) 0, and-zero_fuel n (suc a / 2) (omega arith))

pub and-zero : (a : ℕ) → bit_and a 0 ≡ 0
and-zero a = and-zero_fuel a a (omega arith)

pub zero-and : (a : ℕ) → bit_and 0 a ≡ 0
zero-and a = bit_and-bitwise 0 a

or-zero_fuel : (n a : ℕ) → a ≤ n → bit_or a 0 ≡ a
or-zero_fuel n zero h = refl
or-zero_fuel zero (suc a) h = absurd (omega arith)
or-zero_fuel (suc n) (suc a) h =
    omega (arith, or_digit (suc a) 0, or-zero_fuel n (suc a / 2) (omega arith))

pub or-zero : (a : ℕ) → bit_or a 0 ≡ a
or-zero a = or-zero_fuel a a (omega arith)

pub zero-or : (a : ℕ) → bit_or 0 a ≡ a
zero-or a = bit_or-bitwise 0 a

and-ones : (k r : ℕ) → r < 2 ^ k → bit_and r (2 ^ k - 1) ≡ r
and-ones zero r h = omega (arith, and-zero r)
and-ones (suc k) r h =
    ground (arith, pow-suc 2 k, one-le-pow k 2, and_digit r (2 ^ suc k - 1), and-ones k (r / 2))

-- A mask of `k` ones leaves the remainder by `2 ^ k`.
pub and_low : (k a : ℕ) → bit_and a (2 ^ k - 1) ≡ a % 2 ^ k
and_low k a = ground (
  arith,
  one-le-pow k 2,
  and_fields k (a / 2 ^ k) 0 (a % 2 ^ k) (2 ^ k - 1),
  and-zero (a / 2 ^ k),
  and-ones k (a % 2 ^ k),
)

-- `|` of an upper field and a lower one is their sum.
pub or_disjoint : (k q r : ℕ) → r < 2 ^ k → bit_or (shl q k) r ≡ q * 2 ^ k + r
or_disjoint k q r h = ground (arith, one-le-pow k 2, or_fields k q 0 0 r, or-zero q, zero-or r)

-- The lowest byte of `&` with a mask that keeps it, or clears it.
pub and_byte : (q m r : ℕ) → r < 256 → bit_and (q * 256 + r) (m * 256 + 255) ≡ bit_and q m * 256 + r
and_byte q m r h = omega (arith, and_fields 8 q m r 255, and_low 8 r)

pub and_no_byte : (q m r : ℕ) → r < 256 → bit_and (q * 256 + r) (m * 256) ≡ bit_and q m * 256
and_no_byte q m r h = ground (arith, and_fields 8 q m r 0, and-zero r)

-- The lowest byte of `|` where one side has none.
pub or_byte : (q m r : ℕ) → r < 256 → bit_or (q * 256 + r) (m * 256) ≡ bit_or q m * 256 + r
or_byte q m r h = ground (arith, or_fields 8 q m r 0, or-zero r)

pub or_byte_right : (q m r : ℕ) → r < 256 → bit_or (q * 256) (m * 256 + r) ≡ bit_or q m * 256 + r
or_byte_right q m r h = ground (arith, or_fields 8 q m 0 r, zero-or r)
