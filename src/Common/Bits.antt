-- ===== src/Common/Bits.antt =====
-- `&` with a mask of seven ones and `|` of numbers with disjoint bits, as arithmetic.
use Prim.Native.Nat.{
  ℕ, zero, suc, ◌+◌, ◌*◌, ◌/◌, ◌%◌, ◌^◌, ◌≤◌, ◌<◌, min, max, bit_and, bit_or, digits,
  bit_and-bitwise, bit_or-bitwise,
}
use mathlib.Core.Bool.{Bool, true, false}
use mathlib.Core.Path.{◌≡◌, refl, sym, ◌∙◌}
use native.Mathlib.Nat.{pow-suc}
use native.Mathlib.Omega.{arith}

-- An operation on binary digits: `join` on two digits, `ended` where the left number has none left.
module _ (ended : ℕ → ℕ) (join : ℕ → ℕ → ℕ) where
  digits-zero : (rounds b : ℕ) → digits ended join rounds 0 b ≡ ended b
  digits-zero zero b = refl
  digits-zero (suc rounds) b = refl

  -- Rounds beyond the left number's digits change nothing.
  digits_enough : (n a b m : ℕ) → a ≤ n → a ≤ m → digits ended join n a b ≡ digits ended join m a b
  digits_enough n zero b m hn hm = digits-zero n b ∙ sym (digits-zero m b)
  digits_enough (suc n) (suc a) b (suc m) hn hm =
      omega (arith, digits_enough n (suc a / 2) (b / 2) m (omega arith) (omega arith))
  digits_enough zero (suc a) b m hn hm = absurd (omega arith)
  digits_enough (suc n) (suc a) b zero hn hm = absurd (omega arith)

  -- The lowest digit apart, where `ended` agrees with `join` on a zero.
  digits_lowest :
      (a b : ℕ)
      → ended b ≡ ended (b / 2) * 2 + join 0 (b % 2)
      → digits ended join a a b
        ≡ digits ended join (a / 2) (a / 2) (b / 2) * 2 + join (a % 2) (b % 2)
  digits_lowest zero b e = e
  digits_lowest (suc a) b e =
      omega (arith, digits_enough a (suc a / 2) (b / 2) (suc a / 2) (omega arith) (omega arith))

  -- With 0 on the right, where `value` follows the same law.
  digits_by_zero :
      (value : ℕ → ℕ)
      → ended 0 ≡ value 0
      → ((a : ℕ) → value a ≡ value (a / 2) * 2 + join (a % 2) 0)
      → (rounds a : ℕ) → a ≤ rounds
      → digits ended join rounds a 0 ≡ value a
  digits_by_zero value e law rounds zero h = digits-zero rounds 0 ∙ e
  digits_by_zero value e law zero (suc a) h = absurd (omega arith)
  digits_by_zero value e law (suc rounds) (suc a) h =
      omega (arith, digits_by_zero value e law rounds (suc a / 2) (omega arith), law (suc a))

-- `a & b` and `a | b`, the lowest digit apart.
and_lowest : (a b : ℕ) → bit_and a b ≡ bit_and (a / 2) (b / 2) * 2 + min (a % 2) (b % 2)
and_lowest a b = omega (
  arith,
  bit_and-bitwise a b,
  bit_and-bitwise (a / 2) (b / 2),
  digits_lowest (λ _. zero) min a b (omega arith),
)

or_lowest : (a b : ℕ) → bit_or a b ≡ bit_or (a / 2) (b / 2) * 2 + max (a % 2) (b % 2)
or_lowest a b = omega (
  arith,
  bit_or-bitwise a b,
  bit_or-bitwise (a / 2) (b / 2),
  digits_lowest (λ x. x) max a b (omega arith),
)

and_none : (a : ℕ) → bit_and a 0 ≡ 0
and_none a =
    bit_and-bitwise a 0
    ∙ digits_by_zero (λ _. zero) min (λ _. zero) refl (λ x. omega arith) a a (omega arith)

-- `a | 0`
pub or_none : (a : ℕ) → bit_or a 0 ≡ a
or_none a =
    bit_or-bitwise a 0
    ∙ digits_by_zero (λ x. x) max (λ x. x) refl (λ x. omega arith) a a (omega arith)

-- A mask of ones, by its lowest one.
mask_lowest : (a m : ℕ) → bit_and a (2 * m + 1) ≡ bit_and (a / 2) m * 2 + a % 2
mask_lowest a m =
    let halved : (2 * m + 1) / 2 ≡ m = omega arith in
    omega (arith, rw halved at (and_lowest a (2 * m + 1)))

-- `a & 0x7f`, for every `a`.
pub bit_and-low_seven : (a : ℕ) → bit_and a 0x7f ≡ a % 128
bit_and-low_seven a = omega (
  arith,
  mask_lowest a 63,
  mask_lowest (a / 2) 31,
  mask_lowest (a / 2 / 2) 15,
  mask_lowest (a / 2 / 2 / 2) 7,
  mask_lowest (a / 2 / 2 / 2 / 2) 3,
  mask_lowest (a / 2 / 2 / 2 / 2 / 2) 1,
  mask_lowest (a / 2 / 2 / 2 / 2 / 2 / 2) 0,
  and_none (a / 2 / 2 / 2 / 2 / 2 / 2 / 2),
)

-- `a << k | b` where `b` has at most `k` bits.
bit_or-shifted : (k a b : ℕ) → b < 2 ^ k → bit_or (a * 2 ^ k) b ≡ a * 2 ^ k + b
bit_or-shifted zero a b h = let e : b ≡ 0 = omega arith in rw e (omega (arith, or_none (a * 2 ^ 0)))
bit_or-shifted (suc k) a b h = omega (
  arith,
  or_lowest (a * 2 ^ suc k) b,
  halved,
  bit_or-shifted k a (b / 2) (omega (arith, pow-suc 2 k)),
  pow-suc 2 k,
  doubled,
)
  where
    doubled : a * 2 ^ suc k ≡ a * 2 ^ k * 2
    doubled = rw pow-suc (omega arith)

    halved : bit_or (a * 2 ^ suc k / 2) (b / 2) ≡ bit_or (a * 2 ^ k) (b / 2)
    halved = let e : a * 2 ^ suc k / 2 ≡ a * 2 ^ k = omega (arith, doubled) in rw e

-- The same where the multiple of `2 ^ k` is not written as one.
pub bit_or-aligned : (k q a b : ℕ) → a ≡ q * 2 ^ k → b < 2 ^ k → bit_or a b ≡ a + b
bit_or-aligned k q a b e h = rw e (bit_or-shifted k q b h)

-- Over a small range of bytes, a test can be made of every value by evaluation.
unfoldable pub passes_below : (ℕ → Bool) → ℕ → Bool
passes_below test zero = true
passes_below test (suc n) = elim (test n) [ true ↦ passes_below test n | false ↦ false ]

pub passes_below_sound :
    (test : ℕ → Bool) (n : ℕ) → passes_below test n ≡ true → (x : ℕ) → x < n → test x ≡ true
unfolding passes_below
passes_below_sound test zero e x h = absurd (omega arith)
passes_below_sound test (suc n) e x h =
    ground (arith, e, passes_below_sound test n (ground (arith, e)) x)
