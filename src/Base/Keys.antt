-- ===== src/Base/Keys.antt =====
-- Whether two byte strings are the same key.
use Prim.Native.Nat.{ℕ}
use mathlib.Core.Path.{◌≡◌, refl, ap₂}
use mathlib.Core.Logic.{◌≢◌, inl, inr}
use mathlib.Core.Bool.{Bool, true, false}
use mathlib.Core.List.{List, [], ◌∷◌}
use native.Mathlib.Omega.{arith}
use corgi.Base.Tests.{◌==◌, if◌then◌else◌, eq→==, ==→eq, Bool-cases}

abbrev pub same : List ℕ → List ℕ → Bool
same [] [] = true
same [] (y ∷ ys) = false
same (x ∷ xs) [] = false
same (x ∷ xs) (y ∷ ys) = if x == y then same xs ys else false

pub same_refl : (k : List ℕ) → same k k ≡ true
same_refl [] = refl
same_refl (x ∷ xs) = rw (eq→== x x refl) (same_refl xs)

pub same→eq : (k l : List ℕ) → same k l ≡ true → k ≡ l
same→eq [] [] h = refl
same→eq [] (y ∷ ys) h = absurd (ground (arith, h))
same→eq (x ∷ xs) [] h = absurd (ground (arith, h))
same→eq (x ∷ xs) (y ∷ ys) h = elim (Bool-cases (x == y)) [
  | inl e ↦ ap₂ ◌∷◌ (==→eq x y e) (same→eq xs ys (rw e at h))
  | inr e ↦ absurd (ground (arith, h, e))
]

pub same-ne : (k l : List ℕ) → k ≢ l → same k l ≡ false
same-ne k l h = elim (Bool-cases (same k l)) [ inl e ↦ absurd (h (same→eq k l e)) | inr e ↦ e ]
