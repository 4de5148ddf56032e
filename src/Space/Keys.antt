-- ===== src/Space/Keys.antt =====
-- The keys of the spaces: no two spaces share one.
use corgi.Base.{
  ℕ, zero, suc, ◌+◌, ◌-◌, ◌*◌, ◌/◌, ◌%◌, ◌^◌, ◌<◌, ◌≡◌, refl, ap, ◌∙◌, sym, List, [], ◌∷◌, ◌++◌,
  length, replicate, drop, arith, ◌==◌, ==→eq, Bool-cases, inl, inr,
}
use native.Mathlib.Nat.{pow-suc}
use corgi.Space.Device.{digits, family_space_key}

-- The number that decimal digits write, after `acc`.
abbrev number : ℕ → List ℕ → ℕ
number acc [] = acc
number acc (d ∷ ds) = number (acc * 10 + (d - 48)) ds

number-append : (xs ys : List ℕ) (acc : ℕ) → number acc (xs ++ ys) ≡ number (number acc xs) ys
number-append [] ys acc = refl
number-append (x ∷ xs) ys acc = number-append xs ys (acc * 10 + (x - 48))

number-zeros : (k : ℕ) → number 0 (replicate k 48) ≡ 0
number-zeros zero = refl
number-zeros (suc k) = number-zeros k

number-digits : (fuel n : ℕ) → n < 10 ^ fuel → number 0 (digits fuel n) ≡ n
unfolding digits
number-digits zero n h = omega arith
number-digits (suc fuel) n h = elim (Bool-cases (n == 0)) [
  | inl e ↦ rw e (sym (==→eq n 0 e))
  | inr e ↦ rw e (
      number-append (digits fuel (n / 10)) ((48 + n % 10) ∷ []) 0
      ∙ ap (λ t. t * 10 + (48 + n % 10 - 48))
          (number-digits fuel (n / 10) (omega (arith, pow-suc 10 fuel)))
      ∙ omega arith)
]

-- The number that a key ends in.
index_of : (index : ℕ) → index < 10 ^ 19 → number 0 (drop 3 (family_space_key index)) ≡ index
unfolding family_space_key
index_of index h =
    number-append (replicate (10 - length (digits 19 index)) 48) (digits 19 index) 0
    ∙ ap (λ t. number t (digits 19 index)) (number-zeros (10 - length (digits 19 index)))
    ∙ number-digits 19 index h

pub family_space_key-injective :
    (i j : ℕ) → i < 10 ^ 19 → j < 10 ^ 19 → family_space_key i ≡ family_space_key j → i ≡ j
family_space_key-injective i j p q e =
    sym (index_of i p) ∙ ap (λ key. number 0 (drop 3 key)) e ∙ index_of j q
