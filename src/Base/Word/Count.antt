-- ===== src/Base/Word/Count.antt =====
-- The package math/bits: OnesCount64 and TrailingZeros64, at every width.
use Prim.Native.Nat.{ℕ, zero, suc, ◌+◌, ◌-◌, ◌/◌, ◌%◌, ◌^◌, ◌≤◌, ◌<◌, bit_and, bit_or}
use native.Mathlib.Nat.{pow-suc, one-le-pow}
use native.Mathlib.Omega.{arith}
use mathlib.Core.Path.{◌≡◌, refl, ap}
use mathlib.Core.Logic.{inl, inr}
use corgi.Base.Tests.{◌==◌, if◌then◌else◌, Bool-cases}
use corgi.Base.Word.Bit.{bit_at, complement}
use corgi.Base.Word.Digit.{bit_and_step, bit_or_step}

-- The ones among the lowest `w` bits.
unfoldable pub ones_count : ℕ → ℕ → ℕ
ones_count zero x = 0
ones_count (suc w) x = x % 2 + ones_count w (x / 2)

-- The index of the lowest one, or `w` if the lowest `w` bits are zero.
unfoldable pub trailing_zeros : ℕ → ℕ → ℕ
trailing_zeros zero x = 0
trailing_zeros (suc w) x = if x % 2 == 1 then 0 else suc (trailing_zeros w (x / 2))

pub ones_count-zero : (w : ℕ) → ones_count w 0 ≡ 0
unfolding ones_count
ones_count-zero zero = refl
ones_count-zero (suc w) = omega (arith, ones_count-zero w)

complement-half : (w x : ℕ) → x < 2 ^ suc w → complement (suc w) x / 2 ≡ complement w (x / 2)
unfolding complement
complement-half w x h = omega (arith, pow-suc 2 w, one-le-pow w 2)

complement-digit : (w x : ℕ) → x < 2 ^ suc w → complement (suc w) x % 2 ≡ 1 - x % 2
unfolding complement
complement-digit w x h = omega (arith, pow-suc 2 w, one-le-pow w 2)

-- Setting the bits of a mask adds as many ones as the mask has where the word has none.
pub ones_count-set :
    (w x m : ℕ)
    → x < 2 ^ w
    → ones_count w (bit_or x m) ≡ ones_count w x + ones_count w (bit_and (complement w x) m)
unfolding ones_count
ones_count-set zero x m h = refl
ones_count-set (suc w) x m h = omega (
  arith,
  bit_or_step x m,
  bit_and_step (complement (suc w) x) m,
  complement-digit w x h,
  ones_count-set w (x / 2) (m / 2) (omega (arith, pow-suc 2 w)),
  ap (ones_count w) {x = bit_or x m / 2} {y = bit_or (x / 2) (m / 2)}
      (omega (arith, bit_or_step x m)),
  ap (ones_count w) {x = bit_and (complement (suc w) x) m / 2}
      {y = bit_and (complement w (x / 2)) (m / 2)}
      (omega (
        arith,
        bit_and_step (complement (suc w) x) m,
        ap (λ t. bit_and t (m / 2)) (complement-half w x h),
      )),
)

-- Clearing the bits of a mask removes as many ones as word and mask share.
pub ones_count-clear :
    (w x m : ℕ)
    → m < 2 ^ w
    → ones_count w (bit_and x (complement w m)) + ones_count w (bit_and x m) ≡ ones_count w x
unfolding ones_count
ones_count-clear zero x m h = refl
ones_count-clear (suc w) x m h = omega (
  arith,
  bit_and_step x m,
  bit_and_step x (complement (suc w) m),
  complement-digit w m h,
  ones_count-clear w (x / 2) (m / 2) (omega (arith, pow-suc 2 w)),
  ap (ones_count w) {x = bit_and x m / 2} {y = bit_and (x / 2) (m / 2)}
      (omega (arith, bit_and_step x m)),
  ap (ones_count w) {x = bit_and x (complement (suc w) m) / 2}
      {y = bit_and (x / 2) (complement w (m / 2))}
      (omega (
        arith,
        bit_and_step x (complement (suc w) m),
        ap (bit_and (x / 2)) (complement-half w m h),
      )),
)

pub trailing_zeros-le : (w x : ℕ) → trailing_zeros w x ≤ w
unfolding trailing_zeros
trailing_zeros-le zero x = omega arith
trailing_zeros-le (suc w) x = ground (arith, trailing_zeros-le w (x / 2))

-- Below the count every bit is zero.
pub bit_at-below_trailing : (w x i : ℕ) → i < trailing_zeros w x → bit_at x i ≡ 0
unfolding trailing_zeros bit_at
bit_at-below_trailing zero x i h = absurd (omega arith)
bit_at-below_trailing (suc w) x zero h = ground arith
bit_at-below_trailing (suc w) x (suc i) h = ground (arith, bit_at-below_trailing w (x / 2) i)

-- At the count, if it is below the width, stands a one.
pub bit_at-trailing : (w x : ℕ) → trailing_zeros w x < w → bit_at x (trailing_zeros w x) ≡ 1
unfolding trailing_zeros bit_at
bit_at-trailing zero x h = absurd (omega arith)
bit_at-trailing (suc w) x h = elim (Bool-cases (x % 2 == 1)) [
  | inl odd ↦ rw odd (ground arith)
  | inr even ↦ rw even (bit_at-trailing w (x / 2) (ground arith))
]

pub trailing_zeros-lt : (w x : ℕ) → x < 2 ^ w → 0 < x → trailing_zeros w x < w
unfolding trailing_zeros
trailing_zeros-lt zero x h p = absurd (omega arith)
trailing_zeros-lt (suc w) x h p = ground (arith, trailing_zeros-lt w (x / 2), pow-suc 2 w)
