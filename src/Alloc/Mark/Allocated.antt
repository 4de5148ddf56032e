-- ===== src/Alloc/Mark/Allocated.antt =====
-- rangeFullyAllocatedLocked, block by block.
use corgi.Base.{
  ℕ, zero, suc, ◌+◌, ◌-◌, ◌*◌, ◌/◌, ◌%◌, ◌≤◌, ◌<◌, ◌≡◌, ◌↔◌, refl, ap, ap₂, ◌∙◌, Bool, true, ◌==◌,
  length, get_or, arith, bit_and, inl, inr, lt-or-le, ==→eq, eq→==,
}
use corgi.Base.Word.{bit_at, bit_at-le, bit_at-zero, bit_at-bit_and, bit_at_ext, bit_and-lt}
use corgi.Alloc.Store.{AllocatorV3}
use corgi.Alloc.Mark.{word_mask, words_allocated, range_fully_allocated}
use corgi.Alloc.Mark.Blocks.{block_bit, IsBitmap, word_mask-bit}

module _ (offset size : ℕ) (a : AllocatorV3) (valid : IsBitmap a.total a.l0)
    (some_blocks : 0 < size) (fits : offset + size ≤ a.total) where
  abbrev clear_word : ℕ → Bool
  clear_word w = bit_and (get_or a.l0 w 0) (word_mask offset (offset + size) a.total a.l0 w) == 0

  abbrev loop : ℕ → ℕ → Bool
  loop rounds i = words_allocated rounds i offset (offset + size) a.total a.l0

  loop-all :
      (rounds i w : ℕ)
      → loop rounds i ≡ true
      → i ≤ w
      → w < i + rounds
      → w < length a.l0
      → clear_word w ≡ true
  unfolding words_allocated
  loop-all zero i w e p q r = absurd (omega arith)
  loop-all (suc rounds) i w e p q r = elim (lt-or-le i w) [
    | inl later ↦ loop-all rounds (i + 1) w (ground arith) (omega arith) (omega arith) r
    | inr here ↦ ap clear_word {x = w} {y = i} (omega arith) ∙ ground arith
  ]

  all-loop :
      (rounds i : ℕ)
      → ((w : ℕ) → i ≤ w → w < i + rounds → w < length a.l0 → clear_word w ≡ true)
      → loop rounds i ≡ true
  unfolding words_allocated
  all-loop zero i h = refl
  all-loop (suc rounds) i h =
      ground (arith, h i, all-loop rounds (i + 1) (λ w p q. h w (omega arith) (omega arith)))

  clear-bit :
      (w i : ℕ)
      → offset / 64 ≤ w
      → w ≤ (offset + size - 1) / 64
      → i < 64
      → clear_word w ≡ true
      → offset ≤ w * 64 + i
      → w * 64 + i < offset + size
      → bit_at (get_or a.l0 w 0) i ≡ 0
  clear-bit w i lo hi k e p q = ground (
    arith,
    bit_at-bit_and (get_or a.l0 w 0) (word_mask offset (offset + size) a.total a.l0 w) i,
    word_mask-bit offset size true a valid some_blocks fits w i lo hi k,
    ap (λ t. bit_at t i) (==→eq _ 0 e),
    bit_at-zero i,
  )

  bits-clear :
      (w : ℕ)
      → offset / 64 ≤ w
      → w ≤ (offset + size - 1) / 64
      → ((i : ℕ)
          → i < 64
          → offset ≤ w * 64 + i
          → w * 64 + i < offset + size
          → bit_at (get_or a.l0 w 0) i ≡ 0)
      → clear_word w ≡ true
  bits-clear w lo hi h = eq→== _ 0 (
      bit_at_ext 64 (bit_and (get_or a.l0 w 0) (word_mask offset (offset + size) a.total a.l0 w)) 0
        (bit_and-lt 64 _ _ (valid.words w)) (omega arith)
        (λ i k.
          bit_at-bit_and (get_or a.l0 w 0) (word_mask offset (offset + size) a.total a.l0 w) i
          ∙ ground (
            arith,
            h i k,
            word_mask-bit offset size true a valid some_blocks fits w i lo hi k,
            bit_at-zero i,
            bit_at-le (get_or a.l0 w 0) i,
          )))

  -- On a well-formed bitmap and a nonempty range inside the device, rangeFullyAllocatedLocked
  -- holds exactly when no block of the range is free.
  pub range_fully_allocated_iff :
      (range_fully_allocated offset size a ≡ true)
      ↔ ((b : ℕ) → offset ≤ b → b < offset + size → block_bit a.l0 b ≡ 0)
  unfolding range_fully_allocated block_bit
  range_fully_allocated_iff = (
    λ e b p q.
        clear-bit (b / 64) (b % 64) (omega arith) (omega arith) (omega arith)
          (loop-all ((offset + size - 1) / 64 + 1 - offset / 64) (offset / 64) (b / 64) e
            (omega arith) (omega arith) (omega (arith, valid.slots)))
          (omega arith) (omega arith),
    λ h. all-loop ((offset + size - 1) / 64 + 1 - offset / 64) (offset / 64) (λ w p q r.
        bits-clear w p (omega arith) (λ i k u v.
          ap₂ (λ (s : ℕ) (j : ℕ). bit_at (get_or a.l0 s 0) j) {x = w} {y = (w * 64 + i) / 64}
            {u = i} {v = (w * 64 + i) % 64} (omega arith) (omega arith)
          ∙ h (w * 64 + i) u v)),
  )
