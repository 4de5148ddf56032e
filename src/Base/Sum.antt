-- ===== src/Base/Sum.antt =====
-- Sums over an initial segment of the native numbers.
use Prim.Native.Nat.{ℕ, zero, suc, ◌+◌, ◌-◌, ◌/◌, ◌≤◌, ◌<◌}
use mathlib.Core.Path.{◌≡◌, refl, ap, ap₂, ◌∙◌}
use native.Mathlib.Omega.{arith}
use corgi.Base.Word.{bit_at, ones_count}

unfoldable pub sum_below : ℕ → (ℕ → ℕ) → ℕ
sum_below zero f = 0
sum_below (suc n) f = sum_below n f + f n

pub sum_below-head : (n : ℕ) (f : ℕ → ℕ) → sum_below (suc n) f ≡ f 0 + sum_below n (λ i. f (suc i))
unfolding sum_below
sum_below-head zero f = omega arith
sum_below-head (suc n) f = omega (arith, sum_below-head n f)

pub sum_below_ext :
    (n : ℕ) (f g : ℕ → ℕ) → ((i : ℕ) → i < n → f i ≡ g i) → sum_below n f ≡ sum_below n g
unfolding sum_below
sum_below_ext zero f g h = refl
sum_below_ext (suc n) f g h =
    ap₂ ◌+◌ (sum_below_ext n f g (λ i k. h i (omega arith))) (h n (omega arith))

pub sum_below-add :
    (m n : ℕ) (f : ℕ → ℕ) → sum_below (m + n) f ≡ sum_below m f + sum_below n (λ i. f (m + i))
unfolding sum_below
sum_below-add m zero f = ap (λ t. sum_below t f) {x = m + 0} {y = m} (omega arith) ∙ omega arith
sum_below-add m (suc n) f =
    ap (λ t. sum_below t f) {x = m + suc n} {y = suc (m + n)} (omega arith)
    ∙ omega (arith, sum_below-add m n f)

pub sum_below-zeros : (n : ℕ) (f : ℕ → ℕ) → ((i : ℕ) → i < n → f i ≡ 0) → sum_below n f ≡ 0
unfolding sum_below
sum_below-zeros zero f h = refl
sum_below-zeros (suc n) f h =
    omega (arith, sum_below-zeros n f (λ i k. h i (omega arith)), h n (omega arith))

pub sum_below-ones : (n : ℕ) (f : ℕ → ℕ) → ((i : ℕ) → i < n → f i ≡ 1) → sum_below n f ≡ n
unfolding sum_below
sum_below-ones zero f h = refl
sum_below-ones (suc n) f h =
    omega (arith, sum_below-ones n f (λ i k. h i (omega arith)), h n (omega arith))

pub ones_count-eq-sum : (w x : ℕ) → ones_count w x ≡ sum_below w (bit_at x)
unfolding ones_count bit_at
ones_count-eq-sum zero x = unfold sum_below in refl
ones_count-eq-sum (suc w) x =
    omega (arith, sum_below-head w (bit_at x), ones_count-eq-sum w (x / 2))

-- A run of ones that become zeros takes its length off the sum.
pub sum_below-cleared :
    (o s n : ℕ) (f g : ℕ → ℕ)
    → o + s ≤ n
    → ((i : ℕ) → o ≤ i → i < o + s → f i ≡ 1)
    → ((i : ℕ) → o ≤ i → i < o + s → g i ≡ 0)
    → ((i : ℕ) → i < o → g i ≡ f i)
    → ((i : ℕ) → o + s ≤ i → i < n → g i ≡ f i)
    → sum_below n f ≡ sum_below n g + s
sum_below-cleared o s n f g h ones_there zeros_there before after =
    let r = n - o - s in
    let parts : (k : ℕ → ℕ)
        → sum_below n k
          ≡ sum_below o k + (sum_below s (λ i. k (o + i)) + sum_below r (λ i. k (o + (s + i)))) =
      λ k.
        ap (λ t. sum_below t k) {x = n} {y = o + (s + r)} (omega arith)
        ∙ sum_below-add o (s + r) k
        ∙ ap (λ t. sum_below o k + t) (sum_below-add s r (λ i. k (o + i))) in
    omega (
      arith,
      parts f,
      parts g,
      sum_below_ext o g f before,
      sum_below_ext r (λ i. g (o + (s + i))) (λ i. f (o + (s + i)))
          (λ i p. after (o + (s + i)) (omega arith) (omega arith)),
      sum_below-ones s (λ i. f (o + i)) (λ i p. ones_there (o + i) (omega arith) (omega arith)),
      sum_below-zeros s (λ i. g (o + i)) (λ i p. zeros_there (o + i) (omega arith) (omega arith)),
    )
