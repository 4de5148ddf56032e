-- ===== src/Alloc/Summary/Marked.antt =====
-- The exact summary levels after markRangeLocked.
use corgi.Base.{
  ℕ, zero, suc, ◌+◌, ◌-◌, ◌*◌, ◌/◌, ◌%◌, ◌≤◌, ◌<◌, ◌≡◌, refl, ap, ◌∙◌, sym, Bool, false, List,
  arith, inl, inr, lt-or-le, leb, ne→==, ◌⊎◌, length, Bool-cases, ◌==◌, get_or, get_or-set_ne,
}
use corgi.Base.Word.{ones}
use corgi.Alloc.Store.{AllocatorV3, update_l1_for_l0_slot, get_entry}
use corgi.Alloc.Store.Frame.{IsRefreshed}
use corgi.Alloc.Mark.{mark_range, refresh_l1, refresh_l2}
use corgi.Alloc.Mark.Blocks.{
  block_bit, IsBitmap, refresh_l1-suc, refresh_l1-IsRefreshed, refresh_l2-IsRefreshed,
  loop_of-block, loop_of,
}
use corgi.Alloc.Mark.Counts.{IsClean, loop-IsBitmap}
use corgi.Alloc.Summary.Level1.{AllBits, entry1, computed}
use corgi.Alloc.Summary.Level2.{entry2, computed2}
use corgi.Alloc.Summary.Refresh.{
  IsSummarised, mark_range-IsSummarised, refresh_l1-entry, refresh_l2-entry, l2-refresh_l1,
  l1-refresh_l2,
}
use corgi.Alloc.Summary.Exact.{
  IsExact, AllWords, computed-free, computed-full, computed2-free, computed2-full,
}

update_l1-word :
    (t w : ℕ) (a : AllocatorV3)
    → t / 32 == w ≡ false
    → get_or (update_l1_for_l0_slot (t * 8) a).l1 w 0 ≡ get_or a.l1 w 0
unfolding update_l1_for_l0_slot
update_l1-word t w a h = elim (Bool-cases (leb (length a.l1) (t * 8 / 8 / 32))) [
  | inl out ↦ rw out refl
  | inr within ↦ rw within (get_or-set_ne a.l1 (t * 8 / 8 / 32) w _ 0 (λ e. ground (arith, h, e)))
]

refresh_l1-word :
    (n t w : ℕ) (a : AllocatorV3)
    → ((w * 32 + 32 ≤ t) ⊎ (t + n ≤ w * 32))
    → get_or (refresh_l1 n t a).l1 w 0 ≡ get_or a.l1 w 0
refresh_l1-word zero t w a h = unfold refresh_l1 in refl
refresh_l1-word (suc n) t w a h = rw (refresh_l1-suc n t a) (
    refresh_l1-word n (t + 1) w (update_l1_for_l0_slot (t * 8) a) (later h)
    ∙ update_l1-word t w a (ground (arith, h)))
  where
    later : (w * 32 + 32 ≤ t) ⊎ (t + suc n ≤ w * 32) → (w * 32 + 32 ≤ t + 1) ⊎ (t + 1 + n ≤ w * 32)
    later (inl p) = inl (omega arith)
    later (inr p) = inr (omega arith)

module _ (offset size : ℕ) (free : Bool) (a : AllocatorV3) (valid : IsBitmap a.total a.l0)
    (clean : IsClean a.total a.l0) (sums : IsSummarised a) (exact : IsExact a)
    (some_blocks : 0 < size) (fits : offset + size ≤ a.total) where
  abbrev first_set : ℕ
  first_set = offset / 64 / 8

  abbrev last_set : ℕ
  last_set = (offset + size - 1) / 64 / 8

  abbrev bits : List ℕ
  bits = (loop_of offset size free a).0

  abbrev looped : AllocatorV3
  looped = record a { l0 = bits }

  abbrev level1 : AllocatorV3
  level1 = refresh_l1 (last_set + 1 - first_set) first_set looped

  abbrev level2 : AllocatorV3
  level2 = refresh_l2 (last_set / 32 / 8 + 1 - first_set / 32 / 8) (first_set / 32 / 8) level1

  frame1 : IsRefreshed looped level1
  frame1 = refresh_l1-IsRefreshed (last_set + 1 - first_set) first_set looped

  frame2 : IsRefreshed level1 level2
  frame2 =
      refresh_l2-IsRefreshed (last_set / 32 / 8 + 1 - first_set / 32 / 8) (first_set / 32 / 8)
        level1

  bits-IsBitmap : IsBitmap a.total bits
  bits-IsBitmap = loop-IsBitmap offset size free a valid clean some_blocks fits

  kept : (b : ℕ) → (b < offset) ⊎ (offset + size ≤ b) → block_bit bits b ≡ block_bit a.l0 b
  kept b (inl h) = loop_of-block offset size free a valid some_blocks fits b ∙ ground arith
  kept b (inr h) = loop_of-block offset size free a valid some_blocks fits b ∙ ground arith

  -- The entry of a slotset after markRangeLocked: computed from its blocks, or as before, and then its
  -- blocks are as before.
  entry1_after :
      (t : ℕ)
      → (entry1 level2 t ≡ computed a.total bits t) × (t * 512 < a.total)
        ⊎ (entry1 level2 t ≡ entry1 a t)
          × ((b : ℕ) → t * 512 ≤ b → b < t * 512 + 512 → block_bit a.l0 b ≡ block_bit bits b)
  entry1_after t =
      let same : entry1 level2 t ≡ entry1 level1 t =
        ap (λ l. get_entry (get_or l (t / 32) 0) (t % 32))
          (l1-refresh_l2 (last_set / 32 / 8 + 1 - first_set / 32 / 8) (first_set / 32 / 8)
            level1) in
      let now =
        refresh_l1-entry (last_set + 1 - first_set) first_set t looped
          (omega (arith, sums.covers1)) in
      elim (lt-or-le t first_set) [
        | inl before ↦ inr (
          same ∙ now ∙ ground (arith, before),
          λ b p q. sym (kept b (inl (omega (arith, before)))),
        )
        | inr from ↦ elim (lt-or-le last_set t) [
          | inl after ↦ inr (
            same ∙ now ∙ ground (arith, after),
            λ b p q. sym (kept b (inr (omega (arith, after)))),
          )
          | inr upto ↦ inl (same ∙ now ∙ ground (arith, from, upto), omega (arith, upto))
        ]
      ]

  entry1-exact :
      (v e t : ℕ)
      → (AllBits v a.total bits (t * 512) 512 → computed a.total bits t ≡ e)
      → (AllBits v a.total a.l0 (t * 512) 512 → entry1 a t ≡ e)
      → AllBits v a.total bits (t * 512) 512
      → entry1 level2 t ≡ e
  entry1-exact v e t made before all = elim (entry1_after t) [
    | inl (now, inside) ↦ now ∙ made all
    | inr (old, same) ↦ old ∙ before (λ b p q r. same b p q ∙ all b p q r)
  ]

  -- The entry of l2 after it: computed from its words, or as before, and then its words are as before.
  entry2_after :
      (k : ℕ)
      → k * 8 < length level1.l1
      → (entry2 level2 k ≡ computed2 level1.l1 k)
        ⊎ (entry2 level2 k ≡ entry2 a k)
          × ((w : ℕ) → k * 8 ≤ w → w < k * 8 + 8 → get_or a.l1 w 0 ≡ get_or level1.l1 w 0)
  entry2_after k h =
      let n = last_set / 32 / 8 + 1 - first_set / 32 / 8 in
      let start = first_set / 32 / 8 in
      let now = refresh_l2-entry n start k level1 (omega (arith, sums.covers2, frame1.l2_length)) in
      let old : entry2 level1 k ≡ entry2 a k =
        ap (λ l. get_entry (get_or l (k / 32) 0) (k % 32))
          (l2-refresh_l1 (last_set + 1 - first_set) first_set looped) in
      elim (lt-or-le k start) [
        | inl before ↦ inr (
          now ∙ ground (arith, before, old),
          λ w p q. sym (
              refresh_l1-word (last_set + 1 - first_set) first_set w looped
                (inl (omega (arith, before)))),
        )
        | inr from ↦ elim (lt-or-le (last_set / 32 / 8) k) [
          | inl after ↦ inr (
            now ∙ ground (arith, after, old),
            λ w p q. sym (
                refresh_l1-word (last_set + 1 - first_set) first_set w looped
                  (inr (omega (arith, after)))),
          )
          | inr upto ↦ inl (now ∙ ground (arith, from, upto, h))
        ]
      ]

  entry2-exact :
      (v e k : ℕ)
      → (AllWords v level1.l1 k → computed2 level1.l1 k ≡ e)
      → (AllWords v a.l1 k → entry2 a k ≡ e)
      → k * 8 < length level1.l1
      → AllWords v level1.l1 k
      → entry2 level2 k ≡ e
  entry2-exact v e k made before h all = elim (entry2_after k h) [
    | inl now ↦ now ∙ made all
    | inr (old, same) ↦
        old ∙ before (λ w p q r. same w p q ∙ all w p q (omega (arith, r, frame1.l1_length)))
  ]

  l1_same : level2.l1 ≡ level1.l1
  l1_same = l1-refresh_l2 (last_set / 32 / 8 + 1 - first_set / 32 / 8) (first_set / 32 / 8) level1

  level2-IsExact : IsExact level2
  level2-IsExact = record {
    free1 = λ t.
        rw (frame2.total ∙ frame1.total, frame2.l0 ∙ frame1.l0)
          (λ h.
            entry1-exact 1 3 t (computed-free a.total bits bits-IsBitmap t h) (exact.free1 t h));
    full1 = λ t.
        rw (frame2.total ∙ frame1.total, frame2.l0 ∙ frame1.l0)
          (λ h.
            entry1-exact 0 0 t (computed-full a.total bits bits-IsBitmap t h) (exact.full1 t h));
    beyond1 = λ t. rw (frame2.total ∙ frame1.total) (λ h. elim (entry1_after t) [
      | inl (now, inside) ↦ absurd (omega arith)
      | inr (old, same) ↦ old ∙ exact.beyond1 t h
    ]);
    free2 = λ k. rw l1_same (λ h.
        entry2-exact (ones 64) 3 k (computed2-free level1.l1 k)
          (exact.free2 k (omega (arith, h, frame1.l1_length))) h);
    full2 = λ k. rw l1_same (λ h.
        entry2-exact 0 0 k (computed2-full level1.l1 k h)
          (exact.full2 k (omega (arith, h, frame1.l1_length))) h);
  }

  -- Where a bitmap is well-formed and clean and both summary levels tell the truth about it and
  -- are exact, they do and are after markRangeLocked on a nonempty range inside the device: FREE
  -- says that all blocks are free and FULL that none is; an entry of l1 is FREE where all its
  -- blocks are free, FULL where none is and FULL beyond the device; an entry of l2 that has a word
  -- of l1 is FREE where all its words have only FREE entries and FULL where all have only FULL
  -- ones. So PARTIAL is only written where neither fits.
  pub mark_range-IsExact :
      IsSummarised (mark_range offset size free a).0 × IsExact (mark_range offset size free a).0
  mark_range-IsExact = (
    mark_range-IsSummarised offset size free a valid clean sums some_blocks fits,
    rw levels level2-IsExact,
  )
    where
      levels : (mark_range offset size free a).0 ≡ level2
      levels = unfold mark_range in rw (ne→== size 0 (omega arith)) refl
