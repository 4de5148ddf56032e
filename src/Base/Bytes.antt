-- ===== src/Base/Bytes.antt =====
-- Byte strings as lists of numbers: the little-endian words of encoding/binary, and a list that a loop
-- over an index fills.
use Prim.Native.Nat.{ℕ, zero, suc, ◌+◌, ◌*◌, ◌/◌, ◌%◌, ◌^◌, ◌≤◌, ◌<◌}
use mathlib.Core.Path.{◌≡◌, refl, ap, ap₂, ◌∙◌}
use mathlib.Core.List.{List, [], ◌∷◌}
use native.Mathlib.Omega.{arith}
use native.Mathlib.Nat.{pow-suc}
use corgi.Base.Lists.{length, get_or}

-- The `n` low bytes of `x`, the lowest first.
abbrev pub put_le : ℕ → ℕ → List ℕ
put_le zero x = []
put_le (suc n) x = x % 256 ∷ put_le n (x / 256)

abbrev pub get_le : List ℕ → ℕ
get_le [] = 0
get_le (b ∷ bs) = b + 256 * get_le bs

abbrev pub AreBytes : List ℕ → Type 0
AreBytes xs = (i : ℕ) → get_or xs i 0 < 256

-- out[i] = f(i), `n` rounds from `i` on.
unfoldable pub tabulate {ℓ} : {A : Type ℓ} → ℕ → ℕ → (ℕ → A) → List A
tabulate zero i f = []
tabulate (suc n) i f = f i ∷ tabulate n (i + 1) f

pub length-put_le : (n x : ℕ) → length (put_le n x) ≡ n
length-put_le zero x = refl
length-put_le (suc n) x = ap suc (length-put_le n (x / 256))

pub get_le-put_le : (n x : ℕ) → x < 256 ^ n → get_le (put_le n x) ≡ x
get_le-put_le zero x h = omega arith
get_le-put_le (suc n) x h = omega (arith, get_le-put_le n (x / 256) (omega (arith, pow-suc 256 n)))

pub put_le-get_le : (xs : List ℕ) → AreBytes xs → put_le (length xs) (get_le xs) ≡ xs
put_le-get_le [] h = refl
put_le-get_le (b ∷ bs) h = ap₂ ◌∷◌ {x = (b + 256 * get_le bs) % 256} {y = b} (omega (arith, h 0)) (
    ap (put_le (length bs)) {x = (b + 256 * get_le bs) / 256} {y = get_le bs} (omega (arith, h 0))
    ∙ put_le-get_le bs (λ i. h (suc i)))

pub get_le-lt : (xs : List ℕ) → AreBytes xs → get_le xs < 256 ^ length xs
get_le-lt [] h = omega arith
get_le-lt (b ∷ bs) h = omega (arith, h 0, get_le-lt bs (λ i. h (suc i)), pow-suc 256 (length bs))

pub put_le-AreBytes : (n x : ℕ) → AreBytes (put_le n x)
put_le-AreBytes zero x i = omega arith
put_le-AreBytes (suc n) x zero = omega arith
put_le-AreBytes (suc n) x (suc i) = put_le-AreBytes n (x / 256) i

module _ {ℓ} {A : Type ℓ} where
  pub length-tabulate : (n i : ℕ) (f : ℕ → A) → length (tabulate n i f) ≡ n
  unfolding tabulate
  length-tabulate zero i f = refl
  length-tabulate (suc n) i f = ap suc (length-tabulate n (i + 1) f)

  pub get_or-tabulate :
      (n i j : ℕ) (f : ℕ → A) (d : A) → j < n → get_or (tabulate n i f) j d ≡ f (i + j)
  unfolding tabulate
  get_or-tabulate zero i j f d h = absurd (omega arith)
  get_or-tabulate (suc n) i zero f d h = ap f (omega arith)
  get_or-tabulate (suc n) i (suc j) f d h =
      get_or-tabulate n (i + 1) j f d (omega arith) ∙ ap f (omega arith)

  pub get_or-tabulate_all :
      (n j : ℕ) (f : ℕ → A) (d : A) → j < n → get_or (tabulate n 0 f) j d ≡ f j
  get_or-tabulate_all n j f d h = get_or-tabulate n 0 j f d h ∙ ap f (omega arith)

  pub tabulate_ext :
      (n i : ℕ) (f g : ℕ → A)
      → ((j : ℕ) → i ≤ j → j < i + n → f j ≡ g j)
      → tabulate n i f ≡ tabulate n i g
  unfolding tabulate
  tabulate_ext zero i f g h = refl
  tabulate_ext (suc n) i f g h =
      ap₂ ◌∷◌ (h i (omega arith) (omega arith))
        (tabulate_ext n (i + 1) f g (λ j p q. h j (omega arith) (omega arith)))
