-- ===== src/Alloc/Store/Entries.antt =====
-- Two-bit entries in a word: reading one back, and leaving the others alone.
use corgi.Base.{
  ℕ, zero, suc, ◌+◌, ◌-◌, ◌*◌, ◌/◌, ◌%◌, ◌^◌, ◌≤◌, ◌<◌, ◌≡◌, refl, ap, ◌∙◌, arith, min, max,
  bit_and, inl, inr, lt-or-le, if◌then◌else◌, ◌==◌,
}
use native.Mathlib.Nat.{pow-suc, one-le-pow}
use corgi.Base.Word.{
  bit_at, bit_at-le, bit_at-zero, bit_at-bit_and, bit_at-bit_or, bit_at-complement, bit_at-beyond,
  bit_at-ones, bit_at-shl, bit_at-shl_below, bit_at-shr, bit_at_ext, bit_and-lt, bit_and_step, ones,
  complement,
}
use corgi.Alloc.Geometry.Masks.{pow-le}
use corgi.Alloc.Store.{put_entry, get_entry, and_not}

lt_pow : (n : ℕ) → n < 2 ^ n
lt_pow zero = omega arith
lt_pow (suc n) = omega (arith, lt_pow n, pow-suc 2 n)

bit_and_zero : (x : ℕ) → bit_and x 0 ≡ 0
bit_and_zero x =
    bit_at_ext x (bit_and x 0) 0 (bit_and-lt x x 0 (lt_pow x)) (omega (arith, one-le-pow x 2))
      (λ i h. bit_at-bit_and x 0 i ∙ omega (arith, bit_at-zero i))

bit_and_three : (x : ℕ) → bit_and x 3 ≡ x % 4
bit_and_three x = omega (arith, bit_and_step x 3, bit_and_step (x / 2) 1, bit_and_zero (x / 2 / 2))

-- An entry is made of two bits of its word.
pub get_entry-bits :
    (word pos : ℕ) → get_entry word pos ≡ bit_at word (pos * 2) + 2 * bit_at word (pos * 2 + 1)
unfolding get_entry bit_at
get_entry-bits word pos = omega (
  arith,
  bit_and_three (word / 2 ^ (pos * 2)),
  bit_at-shr word (pos * 2) 0,
  bit_at-shr word (pos * 2) 1,
  ap (bit_at word) {x = pos * 2 + 0} {y = pos * 2} (omega arith),
)

shl-lt : (v s : ℕ) → v < 4 → s ≤ 62 → v * 2 ^ s < 2 ^ 64
shl-lt v s h k = grind (arith, pow-le s 62 k)

put-bit :
    (w p e i : ℕ)
    → p < 32
    → i < 64
    → bit_at (put_entry w p e) i
      ≡ max (min (bit_at w i) (1 - bit_at (3 * 2 ^ (p * 2)) i)) (bit_at (e * 2 ^ (p * 2)) i)
unfolding put_entry
put-bit w p e i h k =
    bit_at-bit_or (and_not w (3 * 2 ^ (p * 2))) (e * 2 ^ (p * 2)) i
    ∙ ap (λ t. max t (bit_at (e * 2 ^ (p * 2)) i))
        (bit_at-bit_and w (complement 64 (3 * 2 ^ (p * 2))) i
          ∙ ap (min (bit_at w i)) (
              bit_at-complement 64 (3 * 2 ^ (p * 2)) i
                (shl-lt 3 (p * 2) (omega arith) (omega arith)) k))

-- The bits of a value of two bits, shifted to place `p`.
field-bit :
    (v p q j : ℕ)
    → v < 4
    → j < 2
    → bit_at (v * 2 ^ (p * 2)) (q * 2 + j) ≡ (if q == p then bit_at v j else 0)
field-bit v p q j h k = elim (lt-or-le (q * 2 + j) (p * 2)) [
  | inl below ↦ ground (arith, bit_at-shl_below v (p * 2) (q * 2 + j) below)
  | inr above ↦
      ap (bit_at (v * 2 ^ (p * 2))) {x = q * 2 + j} {y = p * 2 + (q * 2 + j - p * 2)} (omega arith)
      ∙ bit_at-shl v (p * 2) (q * 2 + j - p * 2)
      ∙ elim (lt-or-le p q) [
        | inl after ↦ ground (arith, bit_at-beyond 2 v (q * 2 + j - p * 2) h (omega arith))
        | inr here ↦ ground (arith, ap (bit_at v) {x = q * 2 + j - p * 2} {y = j} (omega arith))
      ]
]

put_entry-bit :
    (w p e q j : ℕ)
    → p < 32
    → q < 32
    → e < 4
    → j < 2
    → bit_at (put_entry w p e) (q * 2 + j) ≡ (if q == p then bit_at e j else bit_at w (q * 2 + j))
put_entry-bit w p e q j hp hq he hj =
    put-bit w p e (q * 2 + j) hp (omega arith)
    ∙ ground (
      arith,
      field-bit 3 p q j (omega arith) hj,
      field-bit e p q j he hj,
      three j hj,
      bit_at-le w (q * 2 + j),
      bit_at-le e j,
    )
  where
    three : (j : ℕ) → j < 2 → bit_at 3 j ≡ 1
    three zero h = unfold bit_at in refl
    three (suc zero) h = unfold bit_at in refl
    three (suc (suc j)) h = absurd (omega arith)

two_bits : (e : ℕ) → e < 4 → bit_at e 0 + 2 * bit_at e 1 ≡ e
unfolding bit_at
two_bits e h = omega arith

-- An entry below 4 that is written at one of the 32 positions of a word is read back, and the
-- entries at the other positions stay.
pub get_entry-put_entry :
    (w p e q : ℕ)
    → p < 32
    → q < 32
    → e < 4
    → get_entry (put_entry w p e) q ≡ (if q == p then e else get_entry w q)
get_entry-put_entry w p e q hp hq he =
    get_entry-bits (put_entry w p e) q
    ∙ ground (
      arith,
      get_entry-bits w q,
      two_bits e he,
      put_entry-bit w p e q 0 hp hq he (omega arith),
      put_entry-bit w p e q 1 hp hq he (omega arith),
      ap (bit_at (put_entry w p e)) {x = q * 2 + 0} {y = q * 2} (omega arith),
      ap (bit_at w) {x = q * 2 + 0} {y = q * 2} (omega arith),
    )

pub get_entry-lt : (w p : ℕ) → get_entry w p < 4
get_entry-lt w p = omega (arith, get_entry-bits w p, bit_at-le w (p * 2), bit_at-le w (p * 2 + 1))

pub get_entry-ones : (p : ℕ) → p < 32 → get_entry (ones 64) p ≡ 3
get_entry-ones p h = omega (
  arith,
  get_entry-bits (ones 64) p,
  bit_at-ones 64 (p * 2) (omega arith),
  bit_at-ones 64 (p * 2 + 1) (omega arith),
)

pub get_entry-zero : (p : ℕ) → get_entry 0 p ≡ 0
get_entry-zero p = omega (arith, get_entry-bits 0 p, bit_at-zero (p * 2), bit_at-zero (p * 2 + 1))
