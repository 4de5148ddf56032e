-- ===== src/Base/Word/Digit.antt =====
-- One step of a bitwise operation: the lowest digit, and the operation on the halves.
use Prim.Native.Nat.{
  ℕ, zero, suc, ◌+◌, ◌*◌, ◌/◌, ◌%◌, ◌≤◌, ◌<◌, min, max, bit_and, bit_or, bit_xor, digits, differ,
  bit_and-bitwise, bit_or-bitwise, bit_xor-bitwise,
}
use mathlib.Core.Path.{◌≡◌, refl, ap}
use native.Mathlib.Omega.{arith}

-- More fuel than the first number needs changes nothing.
module _ (rest : ℕ → ℕ) (op : ℕ → ℕ → ℕ) where
  digits_more : (k n a b : ℕ) → a ≤ n → n ≤ k → digits rest op k a b ≡ digits rest op n a b
  digits_more (suc k) (suc n) (suc a) b p q =
      ap (λ t. t * 2 + op (suc a % 2) (b % 2))
        (digits_more k n (suc a / 2) (b / 2) (omega arith) (omega arith))
  digits_more (suc k) (suc n) zero b p q = refl
  digits_more (suc k) zero (suc a) b p q = absurd (omega arith)
  digits_more (suc k) zero zero b p q = refl
  digits_more zero (suc n) a b p q = absurd (omega arith)
  digits_more zero zero a b p q = refl

  digits_step :
      (x y : ℕ)
      → digits rest op (suc x) (suc x) y
        ≡ op (suc x % 2) (y % 2) + 2 * digits rest op (suc x / 2) (suc x / 2) (y / 2)
  digits_step x y =
      omega (arith, digits_more x (suc x / 2) (suc x / 2) (y / 2) (omega arith) (omega arith))

pub bit_and_step : (x y : ℕ) → bit_and x y ≡ min (x % 2) (y % 2) + 2 * bit_and (x / 2) (y / 2)
bit_and_step zero y = simp bit_and-bitwise (omega arith)
bit_and_step (suc x) y = simp bit_and-bitwise (digits_step (λ t. 0) min x y)

differ-digits : (x y : ℕ) → x < 2 → y < 2 → differ x y ≡ (x + y) % 2
differ-digits zero y p q = omega arith
differ-digits (suc zero) zero p q = refl
differ-digits (suc zero) (suc y) p q = omega arith
differ-digits (suc (suc x)) y p q = absurd (omega arith)

pub bit_xor_step : (x y : ℕ) → bit_xor x y ≡ (x % 2 + y % 2) % 2 + 2 * bit_xor (x / 2) (y / 2)
bit_xor_step zero y = simp bit_xor-bitwise (omega arith)
bit_xor_step (suc x) y =
    rw (← differ-digits (suc x % 2) (y % 2) (omega arith) (omega arith))
      (simp bit_xor-bitwise (digits_step (λ t. t) differ x y))

pub bit_or_step : (x y : ℕ) → bit_or x y ≡ max (x % 2) (y % 2) + 2 * bit_or (x / 2) (y / 2)
bit_or_step zero y = simp bit_or-bitwise (omega arith)
bit_or_step (suc x) y = simp bit_or-bitwise (digits_step (λ t. t) max x y)
