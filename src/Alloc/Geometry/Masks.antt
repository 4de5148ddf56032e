-- ===== src/Alloc/Geometry/Masks.antt =====
-- The bits of the two masks of markRangeLocked.
use native.Mathlib.Nat.{pow-suc, one-le-pow}
use corgi.Base.{
  ℕ, zero, suc, ◌+◌, ◌-◌, ◌*◌, ◌/◌, ◌%◌, ◌^◌, ◌≤◌, ◌<◌, ◌≡◌, ap, ◌∙◌, ◌&&◌, List, ltb, leb,
  if◌then◌else◌, length, arith, inl, inr, lt-or-le, min, max, ap₂,
}
use corgi.Base.Word.{bit_at, ones, bit_at-ones, bit_at-beyond, bit_at-shl, bit_at-shl_below}
use corgi.Alloc.Geometry.{range_mask, run_mask, min_int64, max_int64, sub64, valid_word_mask}

-- 1 for a block of [offset, end), else 0.
abbrev pub inside : ℕ → ℕ → ℕ → ℕ
inside offset end b = if leb offset b && ltb b end then 1 else 0

pub pow-le : (m n : ℕ) → m ≤ n → 2 ^ m ≤ 2 ^ n
pow-le zero n h = omega (arith, one-le-pow n 2)
pow-le (suc m) zero h = absurd (omega arith)
pow-le (suc m) (suc n) h = omega (arith, pow-le m n (omega arith), pow-suc 2 m, pow-suc 2 n)

pub bit_at-ones_all : (w i : ℕ) → bit_at (ones w) i ≡ (if ltb i w then 1 else 0)
bit_at-ones_all w i = elim (lt-or-le i w) [
  | inl h ↦ ground (arith, bit_at-ones w i h)
  | inr h ↦ ground (arith, bit_at-beyond w (ones w) i (omega (arith, one-le-pow w 2)) h)
]

-- A run of ones, `width` of them from bit `shift` on.
run_bits :
    (width shift i : ℕ)
    → bit_at ((2 ^ width - 1) * 2 ^ shift) i
      ≡ (if leb shift i && ltb i (shift + width) then 1 else 0)
run_bits width shift i = elim (lt-or-le i shift) [
  | inl h ↦ ground (arith, bit_at-shl_below (ones width) shift i h)
  | inr h ↦
      ap (bit_at (ones width * 2 ^ shift)) {x = i} {y = shift + (i - shift)} (omega arith)
      ∙ bit_at-shl (ones width) shift (i - shift)
      ∙ bit_at-ones_all width (i - shift)
      ∙ ground arith
]

run-lt : (width shift w : ℕ) → shift + width ≤ w → (2 ^ width - 1) * 2 ^ shift < 2 ^ w
run-lt width zero w h = omega (arith, pow-le width w (omega arith), one-le-pow width 2)
run-lt width (suc s) zero h = absurd (omega arith)
run-lt width (suc s) (suc w) h = omega (
  arith,
  run-lt width s w (omega arith),
  ap (λ (t : ℕ). (2 ^ width - 1) * t) (pow-suc 2 s),
  pow-suc 2 w,
)

run_mask_run :
    (width shift : ℕ) → width + shift ≤ 64 → run_mask width shift ≡ (2 ^ width - 1) * 2 ^ shift
unfolding run_mask
run_mask_run zero shift h = omega arith
run_mask_run (suc width) shift h = elim (lt-or-le (suc width) 64) [
  | inl short ↦ ground (arith, run-lt (suc width) shift 64 (omega arith))
  | inr long ↦ ground (
    arith,
    ap (λ (t : ℕ). (2 ^ t - 1) * 2 ^ shift) {x = suc width} {y = 64} (omega arith),
    ap (λ (t : ℕ). (2 ^ 64 - 1) * 2 ^ t) {x = shift} {y = 0} (omega arith),
  )
]

pub min_int64_lem : (a b : ℕ) → a < 2 ^ 63 → b < 2 ^ 63 → min_int64 a b ≡ min a b
unfolding min_int64
min_int64_lem a b p q = ground arith

pub max_int64_lem : (a b : ℕ) → a < 2 ^ 63 → b < 2 ^ 63 → max_int64 a b ≡ max a b
unfolding max_int64
max_int64_lem a b p q = ground arith

module _ (offset end w : ℕ) (some_blocks : offset < end) (fits : end ≤ 2 ^ 62)
    (starts : w * 64 < end) (ends : offset < w * 64 + 64) where
  abbrev start : ℕ
  start = max offset (w * 64)

  abbrev width : ℕ
  width = min end (w * 64 + 64) - start

  range_mask_run : range_mask offset end w ≡ (2 ^ width - 1) * 2 ^ (start - w * 64)
  range_mask_run = clipped ∙ run_mask_run width (start - w * 64) (omega arith)
    where
      clipped : range_mask offset end w ≡ run_mask width (start - w * 64)
      clipped =
          unfold range_mask in
          rw
            (
              min_int64_lem end (w * 64 + 64) (omega arith) (omega arith),
              max_int64_lem offset (w * 64) (omega arith) (omega arith),
            )
            (ap₂ run_mask {x = sub64 (min end (w * 64 + 64)) start} {y = width}
              {u = sub64 start (w * 64)} {v = start - w * 64} (omega arith) (omega arith))

  -- The mask has the blocks of the word that lie in the range.
  pub range_mask-bit :
      (i : ℕ) → i < 64 → bit_at (range_mask offset end w) i ≡ inside offset end (w * 64 + i)
  range_mask-bit i h = rw range_mask_run (run_bits width (start - w * 64) i ∙ ground arith)

  pub range_mask-lt : range_mask offset end w < 2 ^ 64
  range_mask-lt = rw range_mask_run (run-lt width (start - w * 64) 64 (omega arith))

abbrev pub div_up : ℕ → ℕ → ℕ
div_up n d = (n + d - 1) / d

-- The valid bits of the slots of a bitmap of `total` blocks.
pub valid_word_mask-bit :
    (total w i : ℕ) (l0 : List ℕ)
    → length l0 ≡ div_up total 64
    → w < length l0
    → i < 64
    → bit_at (valid_word_mask total l0 w) i ≡ (if ltb (w * 64 + i) total then 1 else 0)
unfolding valid_word_mask
valid_word_mask-bit total w i l0 e h k =
    ground (arith, bit_at-ones_all 64 i, bit_at-ones_all (total % 64) i)

pub valid_word_mask-lt : (total w : ℕ) (l0 : List ℕ) → valid_word_mask total l0 w < 2 ^ 64
unfolding valid_word_mask
valid_word_mask-lt total w l0 = ground (arith, pow-le (total % 64) 63 (omega arith))
