-- ===== src/Alloc/Summary/Exact.antt =====
-- The summary levels are exact: an entry is PARTIAL only where the other two do not fit.
use corgi.Base.{
  ℕ, zero, suc, ◌+◌, ◌*◌, ◌/◌, ◌%◌, ◌≤◌, ◌<◌, ◌≡◌, refl, ap, ◌∙◌, sym, true, false, List, arith,
  inl, inr, bit_and, lt-or-le, ltb, if◌then◌else◌, eq→==, ◌⊎◌, length, Bool-cases, ◌==◌, get_or,
}
use corgi.Base.Word.{ones, bit_at, bit_at-le, bit_at-zero, bit_at-bit_and, bit_at_ext, bit_and-lt}
use corgi.Alloc.Geometry.{valid_word_mask}
use corgi.Alloc.Geometry.Masks.{valid_word_mask-bit, valid_word_mask-lt}
use corgi.Alloc.Store.{
  AllocatorV3, Flags, flags_at, l0_flags, l1_flags, entry_of, both, slotset_rounds,
}
use corgi.Alloc.Mark.Blocks.{block_bit, IsBitmap}
use corgi.Alloc.Summary.Level1.{
  entry_free, AllBits, FreeWord, FullWord, entry1, computed, computed-Tells,
}
use corgi.Alloc.Summary.Level2.{entry2, computed2, l1_flags-free}

-- Every word of the eight of l1 that entry `k` of l2 sums up is `v`.
abbrev pub AllWords : ℕ → List ℕ → ℕ → Type 0
AllWords v l1 k = (w : ℕ) → k * 8 ≤ w → w < k * 8 + 8 → w < length l1 → get_or l1 w 0 ≡ v

-- FREE where all blocks of an entry of l1 are free, FULL where none is, and FULL beyond the device; FREE
-- where all words of an entry of l2 are FREE, FULL where all are FULL.
pub record IsExact (a : AllocatorV3) : Type 0 where
  pub free1 : (t : ℕ) → t * 512 < a.total → AllBits 1 a.total a.l0 (t * 512) 512 → entry1 a t ≡ 3
  pub full1 : (t : ℕ) → t * 512 < a.total → AllBits 0 a.total a.l0 (t * 512) 512 → entry1 a t ≡ 0
  pub beyond1 : (t : ℕ) → a.total ≤ t * 512 → entry1 a t ≡ 0
  pub free2 : (k : ℕ) → k * 8 < length a.l1 → AllWords (ones 64) a.l1 k → entry2 a k ≡ 3
  pub full2 : (k : ℕ) → k * 8 < length a.l1 → AllWords 0 a.l1 k → entry2 a k ≡ 0

entry_of-free : (f : Flags) → f.all_free ≡ true → entry_of f ≡ 3
unfolding entry_of
entry_of-free f e = rw e refl

entry_of-full : (f : Flags) → f.all_alloc ≡ true → (entry_of f ≡ 3) ⊎ (entry_of f ≡ 0)
unfolding entry_of
entry_of-full f e = elim (Bool-cases f.all_free) [
  | inl g ↦ inl (simp (g, e) refl)
  | inr g ↦ inr (simp (g, e) refl)
]

module _ (total : ℕ) (l0 : List ℕ) where
  all_free-l0 :
      (n k : ℕ) (s : Flags)
      → s.all_free ≡ true
      → ((w : ℕ) → k ≤ w → w < k + n → FreeWord total l0 w)
      → (l0_flags n k total l0 s).all_free ≡ true
  unfolding l0_flags
  all_free-l0 zero k s e h = e
  all_free-l0 (suc n) k s e h =
      all_free-l0 n (k + 1) (flags_at (get_or l0 k 0) (valid_word_mask total l0 k) s)
        (step_free (get_or l0 k 0) (valid_word_mask total l0 k) s e
          (h k (omega arith) (omega arith)))
        (λ w p q. h w (omega arith) (omega arith))
    where
      step_free :
          (word mask : ℕ) (s : Flags)
          → s.all_free ≡ true
          → bit_and word mask ≡ mask
          → (flags_at word mask s).all_free ≡ true
      step_free word mask s e h = unfold flags_at in rw (eq→== (bit_and word mask) mask h, e) refl

  all_alloc-l0 :
      (n k : ℕ) (s : Flags)
      → s.all_alloc ≡ true
      → ((w : ℕ) → k ≤ w → w < k + n → FullWord total l0 w)
      → (l0_flags n k total l0 s).all_alloc ≡ true
  unfolding l0_flags
  all_alloc-l0 zero k s e h = e
  all_alloc-l0 (suc n) k s e h =
      all_alloc-l0 n (k + 1) (flags_at (get_or l0 k 0) (valid_word_mask total l0 k) s)
        (step_full (get_or l0 k 0) (valid_word_mask total l0 k) s e
          (h k (omega arith) (omega arith)))
        (λ w p q. h w (omega arith) (omega arith))
    where
      step_full :
          (word mask : ℕ) (s : Flags)
          → s.all_alloc ≡ true
          → bit_and word mask ≡ 0
          → (flags_at word mask s).all_alloc ≡ true
      step_full word mask s e h = unfold flags_at in rw (eq→== (bit_and word mask) 0 h, e) refl

  module _ (valid : IsBitmap total l0) where
    -- A word whose blocks in the device all have the bit `v`, under its mask.
    masked_bit :
        (v w i : ℕ)
        → w < length l0
        → i < 64
        → AllBits v total l0 (w * 64) 64
        → bit_at (bit_and (get_or l0 w 0) (valid_word_mask total l0 w)) i
          ≡ (if ltb (w * 64 + i) total then v else 0)
    unfolding block_bit
    masked_bit v w i h k all = elim (lt-or-le (w * 64 + i) total) [
      | inl inside ↦
          let here = all (w * 64 + i) (omega arith) (omega arith) inside in
          ground (
            arith,
            inside,
            bit_at-bit_and (get_or l0 w 0) (valid_word_mask total l0 w) i,
            valid_word_mask-bit total w i l0 valid.slots h k,
            bit_at-le (get_or l0 w 0) i,
            here,
            ap (λ j. bit_at (get_or l0 j 0) ((w * 64 + i) % 64)) {x = (w * 64 + i) / 64} {y = w}
                (omega arith),
            ap (bit_at (get_or l0 w 0)) {x = (w * 64 + i) % 64} {y = i} (omega arith),
          )
      | inr outside ↦ ground (
        arith,
        outside,
        bit_at-bit_and (get_or l0 w 0) (valid_word_mask total l0 w) i,
        valid_word_mask-bit total w i l0 valid.slots h k,
      )
    ]

    AllBits-FreeWord :
        (w : ℕ) → w < length l0 → AllBits 1 total l0 (w * 64) 64 → FreeWord total l0 w
    AllBits-FreeWord w h all =
        bit_at_ext 64 (bit_and (get_or l0 w 0) (valid_word_mask total l0 w))
          (valid_word_mask total l0 w)
          (bit_and-lt 64 (get_or l0 w 0) (valid_word_mask total l0 w) (valid.words w))
          (valid_word_mask-lt total w l0)
          (λ i k. masked_bit 1 w i h k all ∙ sym (valid_word_mask-bit total w i l0 valid.slots h k))

    AllBits-FullWord :
        (w : ℕ) → w < length l0 → AllBits 0 total l0 (w * 64) 64 → FullWord total l0 w
    AllBits-FullWord w h all =
        bit_at_ext 64 (bit_and (get_or l0 w 0) (valid_word_mask total l0 w)) 0
          (bit_and-lt 64 (get_or l0 w 0) (valid_word_mask total l0 w) (valid.words w)) (omega arith)
          (λ i k. masked_bit 0 w i h k all ∙ ground (arith, bit_at-zero i))

    pub computed-free :
        (t : ℕ) → t * 512 < total → AllBits 1 total l0 (t * 512) 512 → computed total l0 t ≡ 3
    computed-free t h all =
        let rounds = slotset_rounds (t * 8) (length l0) in
        entry_of-free (l0_flags rounds (t * 8) total l0 both) (
          all_free-l0 rounds (t * 8) both refl (λ w p q.
            AllBits-FreeWord w (ground arith) (λ b r u v. all b (omega arith) (ground arith) v)))

    pub computed-full :
        (t : ℕ) → t * 512 < total → AllBits 0 total l0 (t * 512) 512 → computed total l0 t ≡ 0
    computed-full t h all =
        let rounds = slotset_rounds (t * 8) (length l0) in
        elim (entry_of-full (l0_flags rounds (t * 8) total l0 both) (
          all_alloc-l0 rounds (t * 8) both refl (λ w p q.
            AllBits-FullWord w (ground arith) (λ b r u v. all b (omega arith) (ground arith) v)))) [
              | inr full ↦ full
              | inl free ↦ absurd (
                  omega (
                    arith,
                    (computed-Tells total l0 valid t).free free (t * 512) (omega arith)
                        (omega arith) h,
                    all (t * 512) (omega arith) (omega arith) h,
                  ))
            ]

module _ (l1 : List ℕ) where
  abbrev flags2 : ℕ → Flags → Flags
  flags2 k s = record {
    all_free = if get_or l1 k 0 == ones 64 then s.all_free else false;
    all_alloc = if get_or l1 k 0 == 0 then s.all_alloc else false;
  }

  all_free-l1 :
      (n k : ℕ) (s : Flags)
      → s.all_free ≡ true
      → ((w : ℕ) → k ≤ w → w < k + n → get_or l1 w 0 ≡ ones 64)
      → (l1_flags n k l1 s).all_free ≡ true
  unfolding l1_flags
  all_free-l1 zero k s e h = e
  all_free-l1 (suc n) k s e h =
      all_free-l1 n (k + 1) (flags2 k s)
        (rw (eq→== (get_or l1 k 0) (ones 64) (h k (omega arith) (omega arith)), e) refl)
        (λ w p q. h w (omega arith) (omega arith))

  all_alloc-l1 :
      (n k : ℕ) (s : Flags)
      → s.all_alloc ≡ true
      → ((w : ℕ) → k ≤ w → w < k + n → get_or l1 w 0 ≡ 0)
      → (l1_flags n k l1 s).all_alloc ≡ true
  unfolding l1_flags
  all_alloc-l1 zero k s e h = e
  all_alloc-l1 (suc n) k s e h =
      all_alloc-l1 n (k + 1) (flags2 k s)
        (rw (eq→== (get_or l1 k 0) 0 (h k (omega arith) (omega arith)), e) refl)
        (λ w p q. h w (omega arith) (omega arith))

  -- A zero word is not FREE.
  not_free-l1 :
      (n k : ℕ) (s : Flags) → 0 < n → get_or l1 k 0 ≡ 0 → (l1_flags n k l1 s).all_free ≡ false
  not_free-l1 n k s p e = elim (Bool-cases (l1_flags n k l1 s).all_free) [
    | inr mixed ↦ mixed
    | inl all ↦
        absurd (omega (arith, e, (l1_flags-free l1 n k s all).1 k (omega arith) (omega arith)))
  ]

  pub computed2-free : (k : ℕ) → AllWords (ones 64) l1 k → computed2 l1 k ≡ 3
  computed2-free k all =
      let rounds = slotset_rounds (k * 8) (length l1) in
      entry_of-free (l1_flags rounds (k * 8) l1 both)
        (all_free-l1 rounds (k * 8) both refl (λ w p q. all w p (ground arith) (ground arith)))

  pub computed2-full : (k : ℕ) → k * 8 < length l1 → AllWords 0 l1 k → computed2 l1 k ≡ 0
  computed2-full k h all =
      let rounds = slotset_rounds (k * 8) (length l1) in
      let f = l1_flags rounds (k * 8) l1 both in
      elim (entry_of-full f
        (all_alloc-l1 rounds (k * 8) both refl (λ w p q. all w p (ground arith) (ground arith)))) [
          | inr full ↦ full
          | inl free ↦ absurd (
              ground (
                arith,
                entry_free f free,
                not_free-l1 rounds (k * 8) both (ground (arith, h))
                    (all (k * 8) (omega arith) (omega arith) h),
              ))
        ]
