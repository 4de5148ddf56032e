-- ===== src/Base/Word/Bit.antt =====
-- Machine words as native numbers, read bit by bit. `bit_at x i` is bit `i` of `x`, as 0 or 1.
-- The operations of Go on uint64 and byte (&, |, &^, ^, <<, >>) are the native ones, and each has
-- a law for the bits of its result.
use corgi.Base.Word.Digit.{bit_and_step, bit_or_step, bit_xor_step}
use native.Mathlib.Nat.{pow-suc, one-le-pow, div-div-eq-div-mul}
use native.Mathlib.Omega.{arith}
use Prim.Native.Nat.{
  ℕ, zero, suc, ◌+◌, ◌-◌, ◌*◌, ◌/◌, ◌%◌, ◌^◌, ◌≤◌, ◌<◌, min, max, bit_and, bit_or,
}
use Prim.Native.Nat.{bit_xor, bit_and-bitwise}
use mathlib.Core.Path.{◌≡◌, refl, ap, ap₂, ◌∙◌, sym}

unfoldable pub bit_at : ℕ → ℕ → ℕ
bit_at x zero = x % 2
bit_at x (suc i) = bit_at (x / 2) i

pub bit_at-le : (x i : ℕ) → bit_at x i ≤ 1
unfolding bit_at
bit_at-le x zero = omega arith
bit_at-le x (suc i) = bit_at-le (x / 2) i

pub bit_at-zero : (i : ℕ) → bit_at 0 i ≡ 0
unfolding bit_at
bit_at-zero zero = refl
bit_at-zero (suc i) = bit_at-zero i

pub bit_at-bit_and : (a b i : ℕ) → bit_at (bit_and a b) i ≡ min (bit_at a i) (bit_at b i)
unfolding bit_at
bit_at-bit_and a b zero = omega (arith, bit_and_step a b)
bit_at-bit_and a b (suc i) =
    ap (λ t. bit_at t i) {x = bit_and a b / 2} {y = bit_and (a / 2) (b / 2)}
      (omega (arith, bit_and_step a b))
    ∙ bit_at-bit_and (a / 2) (b / 2) i

pub bit_at-bit_or : (a b i : ℕ) → bit_at (bit_or a b) i ≡ max (bit_at a i) (bit_at b i)
unfolding bit_at
bit_at-bit_or a b zero = omega (arith, bit_or_step a b)
bit_at-bit_or a b (suc i) =
    ap (λ t. bit_at t i) {x = bit_or a b / 2} {y = bit_or (a / 2) (b / 2)}
      (omega (arith, bit_or_step a b))
    ∙ bit_at-bit_or (a / 2) (b / 2) i

pub bit_at-bit_xor : (a b i : ℕ) → bit_at (bit_xor a b) i ≡ (bit_at a i + bit_at b i) % 2
unfolding bit_at
bit_at-bit_xor a b zero = omega (arith, bit_xor_step a b)
bit_at-bit_xor a b (suc i) =
    ap (λ t. bit_at t i) {x = bit_xor a b / 2} {y = bit_xor (a / 2) (b / 2)}
      (omega (arith, bit_xor_step a b))
    ∙ bit_at-bit_xor (a / 2) (b / 2) i

-- All ones in `w` bits.
abbrev pub ones : ℕ → ℕ
ones w = 2 ^ w - 1

-- ^x at width `w`.
unfoldable pub complement : ℕ → ℕ → ℕ
complement w x = ones w - x

pub bit_at-complement : (w x i : ℕ) → x < 2 ^ w → i < w → bit_at (complement w x) i ≡ 1 - bit_at x i
unfolding bit_at complement
bit_at-complement zero x i h k = absurd (omega arith)
bit_at-complement (suc w) x zero h k = omega (arith, pow-suc 2 w, one-le-pow w 2)
bit_at-complement (suc w) x (suc i) h k =
    ap (λ t. bit_at t i) {x = (2 ^ suc w - 1 - x) / 2} {y = 2 ^ w - 1 - x / 2}
      (omega (arith, pow-suc 2 w, one-le-pow w 2))
    ∙ bit_at-complement w (x / 2) i (omega (arith, pow-suc 2 w)) (omega arith)

pub bit_at-ones : (w i : ℕ) → i < w → bit_at (ones w) i ≡ 1
unfolding bit_at
bit_at-ones zero i h = absurd (omega arith)
bit_at-ones (suc w) zero h = omega (arith, pow-suc 2 w, one-le-pow w 2)
bit_at-ones (suc w) (suc i) h =
    ap (λ t. bit_at t i) {x = (2 ^ suc w - 1) / 2} {y = 2 ^ w - 1}
      (omega (arith, pow-suc 2 w, one-le-pow w 2))
    ∙ bit_at-ones w i (omega arith)

-- A number below 2 ^ w has no bit from `w` on.
pub bit_at-beyond : (w x i : ℕ) → x < 2 ^ w → w ≤ i → bit_at x i ≡ 0
unfolding bit_at
bit_at-beyond zero x i h k = ap (λ t. bit_at t i) {x = x} {y = 0} (omega arith) ∙ bit_at-zero i
bit_at-beyond (suc w) x zero h k = absurd (omega arith)
bit_at-beyond (suc w) x (suc i) h k =
    bit_at-beyond w (x / 2) i (omega (arith, pow-suc 2 w)) (omega arith)

pub bit_at-shl_below : (x s i : ℕ) → i < s → bit_at (x * 2 ^ s) i ≡ 0
unfolding bit_at
bit_at-shl_below x zero i h = absurd (omega arith)
bit_at-shl_below x (suc s) zero h = omega (arith, ap (λ (t : ℕ). x * t) (pow-suc 2 s))
bit_at-shl_below x (suc s) (suc i) h =
    ap (λ t. bit_at t i) {x = x * 2 ^ suc s / 2} {y = x * 2 ^ s}
      (omega (arith, ap (λ (t : ℕ). x * t) (pow-suc 2 s)))
    ∙ bit_at-shl_below x s i (omega arith)

pub bit_at-shl : (x s i : ℕ) → bit_at (x * 2 ^ s) (s + i) ≡ bit_at x i
unfolding bit_at
bit_at-shl x zero i = ap₂ bit_at {x = x * 1} {y = x} {u = 0 + i} {v = i} (omega arith) (omega arith)
bit_at-shl x (suc s) i =
    ap₂ bit_at {x = x * 2 ^ suc s} {y = x * 2 ^ suc s} {u = suc s + i} {v = suc (s + i)} refl
      (omega arith)
    ∙ ap (λ t. bit_at t (s + i)) {x = x * 2 ^ suc s / 2} {y = x * 2 ^ s}
        (omega (arith, ap (λ (t : ℕ). x * t) (pow-suc 2 s)))
    ∙ bit_at-shl x s i

pub bit_at-shr : (x s i : ℕ) → bit_at (x / 2 ^ s) i ≡ bit_at x (s + i)
unfolding bit_at
bit_at-shr x zero i = ap₂ bit_at {x = x / 1} {y = x} {u = i} {v = 0 + i} (omega arith) (omega arith)
bit_at-shr x (suc s) i =
    ap (λ t. bit_at t i) {x = x / 2 ^ suc s} {y = x / 2 / 2 ^ s}
      (ap (λ (t : ℕ). x / t) (omega (arith, pow-suc 2 s)) ∙ sym (div-div-eq-div-mul x 2 (2 ^ s)))
    ∙ bit_at-shr (x / 2) s i
    ∙ ap (bit_at x) {x = suc (s + i)} {y = suc s + i} (omega arith)

-- Words of `w` bits with the same bits are equal.
pub bit_at_ext :
    (w x y : ℕ) → x < 2 ^ w → y < 2 ^ w → ((i : ℕ) → i < w → bit_at x i ≡ bit_at y i) → x ≡ y
unfolding bit_at
bit_at_ext zero x y hx hy e = omega arith
bit_at_ext (suc w) x y hx hy e = omega (
  arith,
  e 0 (omega arith),
  bit_at_ext w (x / 2) (y / 2) (omega (arith, pow-suc 2 w)) (omega (arith, pow-suc 2 w))
      (λ i h. e (suc i) (omega arith)),
)

pub bit_and-lt : (w a b : ℕ) → a < 2 ^ w → bit_and a b < 2 ^ w
bit_and-lt zero a b h =
    omega (arith, ap (λ t. bit_and t b) {x = a} {y = 0} (omega arith), bit_and-bitwise 0 b)
bit_and-lt (suc w) a b h = omega (
  arith,
  bit_and_step a b,
  bit_and-lt w (a / 2) (b / 2) (omega (arith, pow-suc 2 w)),
  pow-suc 2 w,
)

pub bit_or-lt : (w a b : ℕ) → a < 2 ^ w → b < 2 ^ w → bit_or a b < 2 ^ w
bit_or-lt zero a b h k =
    rw (ap₂ bit_or {x = a} {y = 0} {u = b} {v = 0} (omega arith) (omega arith)) (omega arith)
bit_or-lt (suc w) a b h k = omega (
  arith,
  bit_or_step a b,
  bit_or-lt w (a / 2) (b / 2) (omega (arith, pow-suc 2 w)) (omega (arith, pow-suc 2 w)),
  pow-suc 2 w,
)
