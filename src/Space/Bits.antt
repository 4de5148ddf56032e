-- ===== src/Space/Bits.antt =====
-- setSpaceBits: the bits of the blocks of a range, and no other.
use corgi.Base.{
  ℕ, zero, suc, ◌+◌, ◌-◌, ◌*◌, ◌/◌, ◌%◌, ◌^◌, ◌≤◌, ◌<◌, ◌≡◌, refl, ap, ◌∙◌, Bool, true, false, ◌&&◌,
  List, ltb, leb, ◌==◌, if◌then◌else◌, length, get_or, set, length-set, get_or-set_self,
  get_or-set_ne, arith, Bool-cases, inl, inr, ==→eq, bit_or,
}
use native.Mathlib.Nat.{pow-le-pow_right}
use corgi.Base.Word.{
  bit_at, bit_at-bit_or, bit_at-bit_and, bit_at-le, complement, bit_at-complement,
}
use corgi.Alloc.Store.{and_not}
use corgi.Space.{set_space_bit, set_space_bits}
use corgi.Space.Merges.{space_bit}
use corgi.Space.Marking.{bit_of, bit_at-pow}

mask_small : (k : ℕ) → k < 8 → 2 ^ k < 2 ^ 64
mask_small k h = omega (arith, pow-le-pow_right {n = 2} (omega arith) {i = k} {j = 8} (omega arith))

changed_byte-bit :
    (allocated : Bool) (j k old : ℕ)
    → j < 8
    → k < 8
    → bit_at (if allocated then bit_or old (2 ^ (7 - j)) else and_not old (2 ^ (7 - j))) (7 - k)
      ≡ (if k == j then bit_of allocated else bit_at old (7 - k))
changed_byte-bit true j k old p q =
    bit_at-bit_or old (2 ^ (7 - j)) (7 - k)
    ∙ ground (arith, bit_at-pow (7 - j) (7 - k), bit_at-le old (7 - k))
changed_byte-bit false j k old p q =
    bit_at-bit_and old (complement 64 (2 ^ (7 - j))) (7 - k)
    ∙ ground (
      arith,
      bit_at-complement 64 (2 ^ (7 - j)) (7 - k) (mask_small (7 - j) (omega arith)) (omega arith),
      bit_at-pow (7 - j) (7 - k),
      bit_at-le old (7 - k),
    )

set_space_bit-bit :
    (allocated : Bool) (x b : ℕ) (value : List ℕ)
    → x / 8 < length value
    → space_bit (set_space_bit allocated x value) b
      ≡ (if b == x then bit_of allocated else space_bit value b)
set_space_bit-bit allocated x b value h =
    let old = get_or value (x / 8) 0 in
    let mask = 2 ^ (7 - x % 8) in
    let byte = if allocated then bit_or old mask else and_not old mask in
    elim (Bool-cases (b / 8 == x / 8)) [
      | inl same ↦
          ap (λ t. bit_at t (7 - b % 8))
            (ap (λ i. get_or (set value (x / 8) byte) i 0) (==→eq (b / 8) (x / 8) same)
              ∙ get_or-set_self value (x / 8) byte 0 h)
          ∙ changed_byte-bit allocated (x % 8) (b % 8) old (omega arith) (omega arith)
          ∙ ground (
            arith,
            same,
            ap (λ i. bit_at (get_or value i 0) (7 - b % 8)) (==→eq (b / 8) (x / 8) same),
          )
      | inr other ↦
          ap (λ t. bit_at t (7 - b % 8))
            (get_or-set_ne value (x / 8) (b / 8) byte 0 (λ e. ground (arith, other, e)))
          ∙ ground (arith, other)
    ]

length-next : (a : Bool) (x : ℕ) (v : List ℕ) → length (set_space_bit a x v) ≡ length v
length-next a x v = length-set v (x / 8) (
    if a
    then bit_or (get_or v (x / 8) 0) (2 ^ (7 - x % 8))
    else and_not (get_or v (x / 8) 0) (2 ^ (7 - x % 8)))

pub length-set_space_bits :
    (allocated : Bool) (start blocks : ℕ) (value : List ℕ)
    → length (set_space_bits allocated start blocks value) ≡ length value
unfolding set_space_bits
length-set_space_bits allocated start zero value = refl
length-set_space_bits allocated start (suc blocks) value =
    length-set_space_bits allocated (start + 1) blocks (set_space_bit allocated start value)
    ∙ length-next allocated start value

-- For a range inside the value, setSpaceBits gives the bits of the blocks of the range their new
-- state and keeps the others.
pub set_space_bits-bit :
    (allocated : Bool) (start blocks b : ℕ) (value : List ℕ)
    → start + blocks ≤ length value * 8
    → space_bit (set_space_bits allocated start blocks value) b
      ≡ (if leb start b && ltb b (start + blocks) then bit_of allocated else space_bit value b)
unfolding set_space_bits
set_space_bits-bit allocated start zero b value h = ground arith
set_space_bits-bit allocated start (suc blocks) b value h =
    let next = set_space_bit allocated start value in
    set_space_bits-bit allocated (start + 1) blocks b next
      (omega (arith, length-next allocated start value))
    ∙ ground (arith, set_space_bit-bit allocated start b value (omega arith))
