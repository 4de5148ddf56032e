-- ===== src/Alloc/Mark/Blocks.antt =====
-- markRangeLocked, block by block.
use corgi.Base.{
  ℕ, zero, suc, ◌+◌, ◌-◌, ◌*◌, ◌/◌, ◌%◌, ◌^◌, ◌≤◌, ◌<◌, ◌≡◌, refl, ap, ◌∙◌, Bool, true, false, ◌&&◌,
  List, ltb, leb, ◌==◌, if◌then◌else◌, length, get_or, arith, inl, inr, Bool-cases, ne→==,
}
use corgi.Base.Word.{
  bit_at, bit_at-le, bit_at-bit_and, bit_at-bit_or, bit_at-complement, complement,
}
use corgi.Alloc.Geometry.{valid_word_mask, range_mask}
use corgi.Alloc.Geometry.Masks.{inside, div_up, range_mask-bit, valid_word_mask-bit}
use corgi.Alloc.Store.{AllocatorV3, update_l1_for_l0_slot, update_l2_for_l1_slot}
use corgi.Alloc.Store.Frame.{
  IsRefreshed, IsRefreshed-refl, IsRefreshed-trans, update_l1-IsRefreshed, update_l2-IsRefreshed,
}
use corgi.Alloc.Mark.{word_mask, mark_word, mark_words, mark_range, refresh_l1, refresh_l2}
use corgi.Alloc.Mark.Words.{AreWords, get_or-mark_words, word_mask-lt}

-- 1 if block `b` is free, else 0.
unfoldable pub block_bit : List ℕ → ℕ → ℕ
block_bit l0 b = bit_at (get_or l0 (b / 64) 0) (b % 64)

pub block_bit-le : (l0 : List ℕ) (b : ℕ) → block_bit l0 b ≤ 1
unfolding block_bit
block_bit-le l0 b = bit_at-le (get_or l0 (b / 64) 0) (b % 64)

pub refresh_l1-suc :
    (n ss : ℕ) (a : AllocatorV3)
    → refresh_l1 (suc n) ss a ≡ refresh_l1 n (ss + 1) (update_l1_for_l0_slot (ss * 8) a)
unfolding refresh_l1
refresh_l1-suc n ss a = refl

pub refresh_l1-IsRefreshed : (n ss : ℕ) (a : AllocatorV3) → IsRefreshed a (refresh_l1 n ss a)
refresh_l1-IsRefreshed zero ss a = unfold refresh_l1 in IsRefreshed-refl a
refresh_l1-IsRefreshed (suc n) ss a = rw (refresh_l1-suc n ss a) (
    IsRefreshed-trans (update_l1-IsRefreshed (ss * 8) a)
      (refresh_l1-IsRefreshed n (ss + 1) (update_l1_for_l0_slot (ss * 8) a)))

pub refresh_l2-suc :
    (n ls : ℕ) (a : AllocatorV3)
    → refresh_l2 (suc n) ls a ≡ (
        if leb (length a.l1) (ls * 8)
        then a
        else refresh_l2 n (ls + 1) (update_l2_for_l1_slot (ls * 8) a))
unfolding refresh_l2
refresh_l2-suc n ls a = refl

pub refresh_l2-IsRefreshed : (n ls : ℕ) (a : AllocatorV3) → IsRefreshed a (refresh_l2 n ls a)
refresh_l2-IsRefreshed zero ls a = unfold refresh_l2 in IsRefreshed-refl a
refresh_l2-IsRefreshed (suc n) ls a = elim (Bool-cases (leb (length a.l1) (ls * 8))) [
  | inl out ↦ rw (refresh_l2-suc n ls a, out) (IsRefreshed-refl a)
  | inr within ↦
      rw (refresh_l2-suc n ls a, within)
        (IsRefreshed-trans (update_l2-IsRefreshed (ls * 8) a)
          (refresh_l2-IsRefreshed n (ls + 1) (update_l2_for_l1_slot (ls * 8) a)))
]

-- The state after the loop over the words, before the summaries are refreshed.
abbrev pub loop_of : ℕ → ℕ → Bool → AllocatorV3 → List ℕ × ℕ
loop_of offset size free a =
    mark_words ((offset + size - 1) / 64 + 1 - offset / 64) (offset / 64) offset (offset + size)
      free a.total a.l0 0

pub mark_range-IsRefreshed :
    (offset size : ℕ) (free : Bool) (a : AllocatorV3)
    → 0 < size
    → IsRefreshed
        (record a { l0 = (loop_of offset size free a).0 })
        (mark_range offset size free a).0
unfolding mark_range
mark_range-IsRefreshed offset size free a h =
    rw (ne→== size 0 (omega arith))
      (IsRefreshed-trans (refresh_l1-IsRefreshed _ _ _) (refresh_l2-IsRefreshed _ _ _))

pub mark_range-changed :
    (offset size : ℕ) (free : Bool) (a : AllocatorV3)
    → 0 < size
    → (mark_range offset size free a).1 ≡ (loop_of offset size free a).1
unfolding mark_range
mark_range-changed offset size free a h = rw (ne→== size 0 (omega arith))

-- The bit of a block of a marked word.
mark_word-bit :
    (free : Bool) (mask old i : ℕ)
    → mask < 2 ^ 64
    → i < 64
    → bit_at (mark_word free mask old) i
      ≡ (if bit_at mask i == 1 then (if free then 1 else 0) else bit_at old i)
unfolding mark_word
mark_word-bit true mask old i h k =
    bit_at-bit_or old mask i ∙ ground (arith, bit_at-le mask i, bit_at-le old i)
mark_word-bit false mask old i h k =
    bit_at-bit_and old (complement 64 mask) i
    ∙ ground (arith, bit_at-complement 64 mask i h k, bit_at-le mask i, bit_at-le old i)

-- A bitmap of `total` blocks.
pub record IsBitmap (total : ℕ) (l0 : List ℕ) : Type 0 where
  pub small : total ≤ 2 ^ 62
  pub slots : length l0 ≡ div_up total 64
  pub words : AreWords l0

module _ (offset size : ℕ) (free : Bool) (a : AllocatorV3) (valid : IsBitmap a.total a.l0)
    (some_blocks : 0 < size) (fits : offset + size ≤ a.total) where
  abbrev end : ℕ
  end = offset + size

  pub word_mask-bit :
      (w i : ℕ)
      → offset / 64 ≤ w
      → w ≤ (end - 1) / 64
      → i < 64
      → bit_at (word_mask offset end a.total a.l0 w) i ≡ inside offset end (w * 64 + i)
  word_mask-bit w i lo hi k =
      bit_at-bit_and (range_mask offset end w) (valid_word_mask a.total a.l0 w) i
      ∙ ground (
        arith,
        range_mask-bit offset end w (omega (arith, valid.small)) (omega (arith, valid.small))
            (omega arith) (omega arith) i k,
        valid_word_mask-bit a.total w i a.l0 valid.slots (omega (arith, valid.slots)) k,
      )

  pub loop_of-block :
      (b : ℕ)
      → block_bit (loop_of offset size free a).0 b ≡ (
          if leb offset b && ltb b (offset + size)
          then (if free then 1 else 0)
          else block_bit a.l0 b)
  unfolding block_bit
  loop_of-block b =
      let w = b / 64 in
      let i = b % 64 in
      let mask = word_mask offset end a.total a.l0 w in
      ap (λ t. bit_at t i)
        (get_or-mark_words offset end free a.total ((end - 1) / 64 + 1 - offset / 64) (offset / 64)
          a.l0 0 w)
      ∙ elim (Bool-cases (leb (offset / 64) w && ltb w ((end - 1) / 64 + 1))) [
        | inl within ↦ ground (
          arith,
          mark_word-bit free mask (get_or a.l0 w 0) i (word_mask-lt offset end a.total a.l0 w),
          word_mask-bit w i,
          valid.slots,
        )
        | inr outside ↦ ground (arith, valid.slots)
      ]

  -- On a well-formed bitmap and a nonempty range inside the device, markRangeLocked gives the bits
  -- of the blocks of the range their new value and leaves every other block as it was.
  pub mark_range-block :
      (b : ℕ)
      → block_bit (mark_range offset size free a).0.l0 b ≡ (
          if leb offset b && ltb b (offset + size)
          then (if free then 1 else 0)
          else block_bit a.l0 b)
  mark_range-block b =
      ap (λ t. block_bit t b) (mark_range-IsRefreshed offset size free a some_blocks).l0
      ∙ loop_of-block b
