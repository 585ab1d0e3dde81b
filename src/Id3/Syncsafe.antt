-- ===== src/Id3/Syncsafe.antt =====
-- syncsafe and desyncsafe as arithmetic.
use Prim.Native.Nat.{bit_and, bit_or}
use spectado_stream_recorder.Common.{
  ℕ, ◌+◌, ◌*◌, ◌/◌, ◌%◌, ◌^◌, ◌<◌, ◌≡◌, refl, arith, ◌==◌, [], ◌∷◌, true, false,
}
use spectado_stream_recorder.Common.Bits.{
  bit_and-low_seven, bit_or-aligned, passes_below, passes_below_sound,
}
use spectado_stream_recorder.Id3.{syncsafe, desyncsafe, any_high}

-- Seven bits of each byte, whatever the bytes are.
pub desyncsafe_lem :
    (a b c d : ℕ)
    → desyncsafe a b c d ≡ a % 128 * 2 ^ 21 + b % 128 * 2 ^ 14 + c % 128 * 2 ^ 7 + d % 128
unfolding desyncsafe
desyncsafe_lem a b c d =
    rw (bit_and-low_seven a, bit_and-low_seven b, bit_and-low_seven c, bit_and-low_seven d)
      (omega (
        arith,
        bit_or-aligned 21 (a % 128) (a % 128 * 2 ^ 21) (b % 128 * 2 ^ 14) refl (omega arith),
        two,
        three,
      ))
  where
    hi : ℕ
    hi = bit_or (a % 128 * 2 ^ 21) (b % 128 * 2 ^ 14)

    one : hi ≡ a % 128 * 2 ^ 21 + b % 128 * 2 ^ 14
    one = bit_or-aligned 21 (a % 128) _ _ refl (omega arith)

    two : bit_or hi (c % 128 * 2 ^ 7) ≡ hi + c % 128 * 2 ^ 7
    two = bit_or-aligned 14 (a % 128 * 2 ^ 7 + b % 128) hi _ (omega (arith, one)) (omega arith)

    three : bit_or (bit_or hi (c % 128 * 2 ^ 7)) (d % 128) ≡ bit_or hi (c % 128 * 2 ^ 7) + d % 128
    three =
        bit_or-aligned 7 (a % 128 * 2 ^ 14 + b % 128 * 2 ^ 7 + c % 128) _ _
          (omega (arith, one, two)) (omega arith)

-- Every number of 28 bits comes back.
pub desyncsafe-syncsafe :
    (n : ℕ)
    → n < 2 ^ 28
    → desyncsafe (n / 2 ^ 21 % 128) (n / 2 ^ 14 % 128) (n / 2 ^ 7 % 128) (n % 128) ≡ n
desyncsafe-syncsafe n h = rw desyncsafe_lem (omega arith)

pub syncsafe_lem :
    (n : ℕ) → syncsafe n ≡ n / 2 ^ 21 % 128 ∷ n / 2 ^ 14 % 128 ∷ n / 2 ^ 7 % 128 ∷ n % 128 ∷ []
unfolding syncsafe
syncsafe_lem n =
    rw
      (
        bit_and-low_seven (n / 2 ^ 21),
        bit_and-low_seven (n / 2 ^ 14),
        bit_and-low_seven (n / 2 ^ 7),
      )
      (rw (bit_and-low_seven n)
        (cc (byte (n / 2 ^ 21), byte (n / 2 ^ 14), byte (n / 2 ^ 7), byte n)))
  where
    byte : (x : ℕ) → x % 128 % 256 ≡ x % 128
    byte x = omega arith

high_table : passes_below (λ a. bit_and a 0x80 == 0) 128 ≡ true
unfolding passes_below
high_table = refl

-- A byte below 128 has no high bit.
pub not_high : (a : ℕ) → a < 128 → (bit_and a 0x80 == 0) ≡ true
not_high a h = passes_below_sound _ 128 high_table a h

pub not-any_high : (a b c d : ℕ) → a < 128 → b < 128 → c < 128 → d < 128 → any_high a b c d ≡ false
not-any_high a b c d ha hb hc hd =
    rw (not_high a ha, not_high b hb, not_high c hc, not_high d hd) refl
