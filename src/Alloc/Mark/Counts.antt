-- ===== src/Alloc/Mark/Counts.antt =====
-- Free blocks, counted, and the count that markRangeLocked returns.
use corgi.Base.{
  ℕ, zero, suc, ◌+◌, ◌-◌, ◌*◌, ◌/◌, ◌%◌, ◌≤◌, ◌<◌, ◌≡◌, refl, ap, ap₂, ◌∙◌, sym, Bool, true, false,
  List, [], ◌∷◌, length, get_or, arith,
}
use corgi.Base.Word.{bit_at, ones_count}
use corgi.Base.Sum.{
  sum_below, sum_below_ext, sum_below-add, sum_below-head, sum_below-zeros, ones_count-eq-sum,
}
use corgi.Alloc.Store.{AllocatorV3}
use corgi.Alloc.Mark.{mark_range}
use corgi.Alloc.Mark.Words.{
  total_ones, mark_words-AreWords, length-mark_words, mark_words-Accounts, Accounts,
}
use corgi.Alloc.Mark.Blocks.{
  block_bit, IsBitmap, mark_range-block, mark_range-IsRefreshed, mark_range-changed, loop_of,
}

total_ones-eq-sum :
    (l0 : List ℕ) → total_ones l0 ≡ sum_below (length l0) (λ w. ones_count 64 (get_or l0 w 0))
unfolding total_ones
total_ones-eq-sum [] = unfold sum_below in refl
total_ones-eq-sum (x ∷ xs) = omega (
  arith,
  total_ones-eq-sum xs,
  sum_below-head (length xs) (λ w. ones_count 64 (get_or (x ∷ xs) w 0)),
)

-- The free blocks among the first `n`.
unfoldable pub free_below : ℕ → List ℕ → ℕ
free_below n l0 = sum_below n (block_bit l0)

pub block_bit-word :
    (l0 : List ℕ) (k i : ℕ) → i < 64 → block_bit l0 (k * 64 + i) ≡ bit_at (get_or l0 k 0) i
unfolding block_bit
block_bit-word l0 k i h =
    ap₂ (λ (w : ℕ) (j : ℕ). bit_at (get_or l0 w 0) j) {x = (k * 64 + i) / 64} {y = k}
      {u = (k * 64 + i) % 64} {v = i} (omega arith) (omega arith)

word-sum :
    (l0 : List ℕ) (k : ℕ)
    → sum_below (suc k * 64) (block_bit l0)
      ≡ sum_below (k * 64) (block_bit l0) + ones_count 64 (get_or l0 k 0)
word-sum l0 k =
    ap (λ t. sum_below t (block_bit l0)) {x = suc k * 64} {y = k * 64 + 64} (omega arith)
    ∙ sum_below-add (k * 64) 64 (block_bit l0)
    ∙ ap (λ t. sum_below (k * 64) (block_bit l0) + t)
        (sum_below_ext 64 (λ i. block_bit l0 (k * 64 + i)) (bit_at (get_or l0 k 0))
            (block_bit-word l0 k)
          ∙ sym (ones_count-eq-sum 64 (get_or l0 k 0)))

words-eq-blocks :
    (l0 : List ℕ) (k : ℕ)
    → sum_below k (λ w. ones_count 64 (get_or l0 w 0)) ≡ sum_below (k * 64) (block_bit l0)
unfolding sum_below
words-eq-blocks l0 zero = refl
words-eq-blocks l0 (suc k) = omega (arith, words-eq-blocks l0 k, word-sum l0 k)

-- No block from `total` on is free.
pub record IsClean (total : ℕ) (l0 : List ℕ) : Type 0 where
  pub beyond : (b : ℕ) → total ≤ b → block_bit l0 b ≡ 0

pub total_ones-eq-free_below :
    (total : ℕ) (l0 : List ℕ)
    → IsBitmap total l0
    → IsClean total l0
    → total_ones l0 ≡ free_below total l0
unfolding free_below
total_ones-eq-free_below total l0 v c =
    total_ones-eq-sum l0
    ∙ words-eq-blocks l0 (length l0)
    ∙ ap (λ t. sum_below t (block_bit l0)) {x = length l0 * 64}
        {y = total + (length l0 * 64 - total)} (omega (arith, v.slots))
    ∙ omega (
      arith,
      sum_below-add total (length l0 * 64 - total) (block_bit l0),
      sum_below-zeros (length l0 * 64 - total) (λ i. block_bit l0 (total + i))
          (λ i h. c.beyond (total + i) (omega arith)),
    )

-- The free blocks of the allocator.
abbrev pub free_blocks : AllocatorV3 → ℕ
free_blocks a = free_below a.total a.l0

-- The count that markRangeLocked returns, against the free blocks before and after.
abbrev pub Counts : Bool → ℕ → ℕ → ℕ → Type 0
Counts true before after changed = after ≡ before + changed
Counts false before after changed = after + changed ≡ before

Counts-of :
    (free : Bool) (after before : List ℕ × ℕ)
    → before.1 ≡ 0
    → Accounts free after before
    → Counts free (total_ones before.0) (total_ones after.0) after.1
Counts-of true after before e h = omega arith
Counts-of false after before e h = omega arith

module _ (offset size : ℕ) (free : Bool) (a : AllocatorV3) (valid : IsBitmap a.total a.l0)
    (clean : IsClean a.total a.l0) (some_blocks : 0 < size) (fits : offset + size ≤ a.total) where
  abbrev after : AllocatorV3
  after = (mark_range offset size free a).0

  abbrev loop : List ℕ × ℕ
  loop = loop_of offset size free a

  total-after : after.total ≡ a.total
  total-after = (mark_range-IsRefreshed offset size free a some_blocks).total

  l0-after : after.l0 ≡ loop.0
  l0-after = (mark_range-IsRefreshed offset size free a some_blocks).l0

  pub loop-IsBitmap : IsBitmap a.total loop.0
  loop-IsBitmap = record {
    small = valid.small;
    slots =
        length-mark_words offset (offset + size) free a.total
          ((offset + size - 1) / 64 + 1 - offset / 64) (offset / 64) a.l0 0
        ∙ valid.slots;
    words =
        mark_words-AreWords offset (offset + size) free a.total
          ((offset + size - 1) / 64 + 1 - offset / 64) (offset / 64) a.l0 0 valid.words;
  }

  loop-IsClean : IsClean a.total loop.0
  loop-IsClean = record {
    beyond = λ b h. rw (← l0-after) (
        mark_range-block offset size free a valid some_blocks fits b
        ∙ ground (arith, clean.beyond b));
  }

  loop-Counts : Counts free (total_ones a.l0) (total_ones loop.0) loop.1
  loop-Counts =
      Counts-of free loop (a.l0, 0) refl
        (mark_words-Accounts offset (offset + size) free a.total
          ((offset + size - 1) / 64 + 1 - offset / 64) (offset / 64) a.l0 0 valid.words)

  pub mark_range-IsBitmap : IsBitmap after.total after.l0
  mark_range-IsBitmap = rw (total-after, l0-after) loop-IsBitmap

  pub mark_range-IsClean : IsClean after.total after.l0
  mark_range-IsClean = rw (total-after, l0-after) loop-IsClean

  -- On a well-formed and clean bitmap and a nonempty range inside the device, what markRangeLocked
  -- returns is the number of blocks that become free, or cease to be.
  pub mark_range-Counts :
      Counts free (free_blocks a) (free_blocks after) (mark_range offset size free a).1
  mark_range-Counts =
      rw
        (
          total-after,
          l0-after,
          mark_range-changed offset size free a some_blocks,
          ← total_ones-eq-free_below a.total a.l0 valid clean,
          ← total_ones-eq-free_below a.total loop.0 loop-IsBitmap loop-IsClean,
        )
        loop-Counts
