-- ===== src/WebSocket/Xor/Mask.antt =====
-- `ptr & 3` as a remainder, and exclusive or on octets.
use Prim.Native.Nat.{digits, bit_and-bitwise}
use autobahn_python.Base.{
  ℕ, zero, suc, ◌/◌, ◌%◌, ◌≤◌, ◌<◌, min, bit_and, bit_xor, ◌≡◌, refl, true, ==_iff, ◌==◌, all_below,
  all_below_sound, arith,
}

abbrev and_digits : ℕ → ℕ → ℕ → ℕ
and_digits n a b = digits (λ b. zero) min n a b

and_none : (n a : ℕ) → a ≤ n → and_digits n a 0 ≡ 0
and_none zero a h = refl
and_none (suc n) zero h = refl
and_none (suc n) (suc a) h = omega (arith, and_none n (suc a / 2) (omega arith))

and_lowest : (n a : ℕ) → a ≤ n → and_digits n a 1 ≡ a % 2
and_lowest zero zero h = refl
and_lowest zero (suc a) h = absurd (omega arith)
and_lowest (suc n) zero h = refl
and_lowest (suc n) (suc a) h = omega (arith, and_none n (suc a / 2) (omega arith))

and_low_two : (n a : ℕ) → a ≤ n → and_digits n a 3 ≡ a % 4
and_low_two zero zero h = refl
and_low_two zero (suc a) h = absurd (omega arith)
and_low_two (suc n) zero h = refl
and_low_two (suc n) (suc a) h = omega (arith, and_lowest n (suc a / 2) (omega arith))

pub bit_and-three : (a : ℕ) → bit_and a 3 ≡ a % 4
bit_and-three a = omega (arith, bit_and-bitwise a 3, and_low_two a a (omega arith))

xor_table : all_below 256 (λ a. all_below 256 (λ b. bit_xor (bit_xor a b) b == a)) ≡ true
unfolding all_below
xor_table = refl

pub bit_xor_twice : (a b : ℕ) → a < 256 → b < 256 → bit_xor (bit_xor a b) b ≡ a
bit_xor_twice a b ha hb = (==_iff _ a).0 (
    all_below_sound 256 _ b
      (all_below_sound 256 (λ x. all_below 256 (λ y. bit_xor (bit_xor x y) y == x)) a xor_table ha)
      hb)
