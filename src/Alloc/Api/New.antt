-- ===== src/Alloc/Api/New.antt =====
-- NewAllocatorV3: a new allocator is valid, summarised and all free.
use corgi.Base.{
  ℕ, ◌+◌, ◌-◌, ◌*◌, ◌/◌, ◌%◌, ◌^◌, ◌≤◌, ◌<◌, ◌≡◌, refl, ap, ◌∙◌, sym, arith, inl, inr, lt-or-le,
  if◌then◌else◌, ◌==◌, ==→eq, eq→==, ltb, leb, ◌||◌, false, length, Bool-cases, get_or, set,
  replicate, length-replicate, length-set, get_or-replicate, get_or-beyond, get_or-set_self,
  get_or-set_ne, max,
}
use corgi.Base.Word.{ones, bit_at, bit_at-ones, bit_at-beyond, bit_at-zero}
use native.Mathlib.Nat.{one-le-pow, pow-le-pow_right}
use corgi.Base.Sum.{sum_below-ones}
use corgi.Alloc.Geometry.{is_negative}
use corgi.Alloc.Store.{AllocatorV3, update_l1_all, update_l2_all}
use corgi.Alloc.Mark.Words.{AreWords}
use corgi.Alloc.Mark.Blocks.{block_bit, IsBitmap}
use corgi.Alloc.Mark.Counts.{IsClean, free_below}
use corgi.Alloc.Summary.Refresh.{IsSummarised}
use corgi.Alloc.Summary.Fresh.{
  update_l1_all-IsRefreshed, update_l2_all-IsRefreshed, update_l1_all-Told, update_l2_all-Told,
  Told1-all, Told2-all,
}
use corgi.Alloc.Api.{div_up, initial_l0, new_allocator}
use corgi.Alloc.Api.Valid.{IsValid}

module _ (blocks : ℕ) (positive : 0 < blocks) (small : blocks ≤ 2 ^ 62) where
  abbrev slots : ℕ
  slots = div_up blocks 64

  length-initial : length (initial_l0 blocks) ≡ slots
  unfolding initial_l0
  length-initial = elim (Bool-cases (blocks % 64 == 0)) [
    | inl e ↦ rw e (length-replicate slots (ones 64))
    | inr e ↦ rw e (
        length-set (replicate slots (ones 64)) (slots - 1) (2 ^ (blocks % 64) - 1)
        ∙ length-replicate slots (ones 64))
  ]

  full_word :
      (w : ℕ) → get_or (replicate slots (ones 64)) w 0 ≡ (if ltb w slots then ones 64 else 0)
  full_word w = elim (lt-or-le w slots) [
    | inl h ↦ get_or-replicate slots w (ones 64) 0 h ∙ ground arith
    | inr h ↦
        get_or-beyond (replicate slots (ones 64)) w 0
          (omega (arith, length-replicate slots (ones 64)))
        ∙ ground arith
  ]

  last_word :
      (w : ℕ)
      → get_or (set (replicate slots (ones 64)) (slots - 1) (ones (blocks % 64))) w 0
        ≡ (if w == slots - 1 then ones (blocks % 64) else if ltb w slots then ones 64 else 0)
  last_word w = elim (Bool-cases (w == slots - 1)) [
    | inl e ↦
        rw (==→eq w (slots - 1) e, eq→== (slots - 1) (slots - 1) refl)
          (get_or-set_self (replicate slots (ones 64)) (slots - 1) (ones (blocks % 64)) 0
            (omega (arith, length-replicate slots (ones 64))))
    | inr e ↦ rw e (
        get_or-set_ne (replicate slots (ones 64)) (slots - 1) w (ones (blocks % 64)) 0
          (λ h. ground (arith, e))
        ∙ full_word w)
  ]

  -- The bits of the last word are those of the blocks that are left.
  initial_word :
      (w : ℕ)
      → get_or (initial_l0 blocks) w 0 ≡ (
          if leb (w * 64 + 64) blocks
          then ones 64
          else if ltb (w * 64) blocks
          then ones (blocks % 64)
          else 0)
  unfolding initial_l0
  initial_word w = elim (Bool-cases (blocks % 64 == 0)) [
    | inl e ↦ rw e (full_word w ∙ ground (arith, e))
    | inr e ↦ rw e (last_word w ∙ ground (arith, e))
  ]

  initial_block : (b : ℕ) → block_bit (initial_l0 blocks) b ≡ (if ltb b blocks then 1 else 0)
  unfolding block_bit
  initial_block b =
      ap (λ w. bit_at w (b % 64)) (initial_word (b / 64))
      ∙ elim (Bool-cases (leb (b / 64 * 64 + 64) blocks)) [
        | inl whole ↦ rw whole (bit_at-ones 64 (b % 64) (omega arith) ∙ ground (arith, whole))
        | inr part ↦ elim (Bool-cases (ltb (b / 64 * 64) blocks)) [
          | inr none ↦ rw (part, none) (bit_at-zero (b % 64) ∙ ground (arith, none))
          | inl last ↦ elim (lt-or-le (b % 64) (blocks % 64)) [
            | inl h ↦
                rw (part, last) (bit_at-ones (blocks % 64) (b % 64) h ∙ ground (arith, part, last))
            | inr h ↦
                rw (part, last)
                  (bit_at-beyond (blocks % 64) (ones (blocks % 64)) (b % 64)
                      (omega (arith, one-le-pow (blocks % 64) 2)) h
                    ∙ ground (arith, part, last))
          ]
        ]
      ]

  ones_small : ones (blocks % 64) < 2 ^ 64
  ones_small = omega (
    arith,
    pow-le-pow_right {n = 2} (omega arith) {i = blocks % 64} {j = 64} (omega arith),
    one-le-pow (blocks % 64) 2,
  )

  initial-AreWords : AreWords (initial_l0 blocks)
  initial-AreWords w = ground (arith, initial_word w, ones_small)

  initial-IsBitmap : IsBitmap blocks (initial_l0 blocks)
  initial-IsBitmap = record { small = small; slots = length-initial; words = initial-AreWords }

  initial-IsClean : IsClean blocks (initial_l0 blocks)
  initial-IsClean = record { beyond = λ b h. initial_block b ∙ ground arith }

  initial_free : free_below blocks (initial_l0 blocks) ≡ blocks
  unfolding free_below
  initial_free =
      sum_below-ones blocks (block_bit (initial_l0 blocks)) (λ i h. initial_block i ∙ ground arith)

  abbrev l1_slots : ℕ
  l1_slots = let n = div_up (div_up slots 8) 32 in if ltb n 1 then 1 else n

  abbrev l2_slots : ℕ
  l2_slots = let n = div_up (div_up l1_slots 8) 32 in if ltb n 1 then 1 else n

  l1_slots-max : l1_slots ≡ max 1 (div_up (div_up slots 8) 32)
  l1_slots-max = ground arith

  l2_slots-max : l2_slots ≡ max 1 (div_up (div_up l1_slots 8) 32)
  l2_slots-max = ground arith

  abbrev blank : AllocatorV3
  blank = record {
    total = blocks;
    available = 0;
    l0 = initial_l0 blocks;
    l1 = replicate l1_slots 0;
    l2 = replicate l2_slots 0;
    l0_slots = slots;
    last_pos = 0;
  }

  abbrev level1 : AllocatorV3
  level1 = update_l1_all slots 0 blank

  abbrev level2 : AllocatorV3
  level2 = update_l2_all l1_slots 0 level1

  new_allocator_lem : new_allocator blocks ≡ record level2 { available = blocks }
  unfolding new_allocator
  new_allocator_lem = let e : is_negative blocks || blocks == 0 ≡ false = ground arith in rw e refl

  new-IsValid : IsValid (record level2 { available = blocks })
  new-IsValid =
      let one = update_l1_all-IsRefreshed slots 0 blank in
      let two = update_l2_all-IsRefreshed l1_slots 0 level1 in
      let t : level2.total ≡ blocks = two.total ∙ one.total in
      let l : level2.l0 ≡ initial_l0 blocks = two.l0 ∙ one.l0 in
      record {
        bitmap = simp (t, l) initial-IsBitmap;
        clean = simp (t, l) initial-IsClean;
        counted = simp (t, l) (sym initial_free);
      }

  new-IsSummarised : IsSummarised (record level2 { available = blocks })
  new-IsSummarised =
      let one = update_l1_all-IsRefreshed slots 0 blank in
      let two = update_l2_all-IsRefreshed l1_slots 0 level1 in
      let l1_len : length level1.l1 ≡ l1_slots = one.l1_length ∙ length-replicate l1_slots 0 in
      let l2_len : length level1.l2 ≡ l2_slots = one.l2_length ∙ length-replicate l2_slots 0 in
      let told = Told1-all slots level1 (omega (arith, one.total)) (λ t k.
        update_l1_all-Told slots 0 blank initial-IsBitmap
          (omega (arith, length-replicate {A = ℕ} l1_slots 0, l1_slots-max))
          (λ t h. absurd (omega arith)) t (omega arith)) in
      let both =
        update_l2_all-Told l1_slots 0 level1 told (omega (arith, one.total, l1_len, l1_slots-max))
          (omega (arith, l2_len, l2_slots-max)) (λ t h. absurd (omega arith)) in
      record {
        covers1 = omega (arith, two.total, one.total, two.l1_length, l1_len, l1_slots-max);
        covers2 =
            omega (arith, two.total, one.total, two.l2_length, l2_len, l1_slots-max, l2_slots-max);
        tells1 = both.0;
        tells2 =
            Told2-all l1_slots level2 (omega (arith, two.total, one.total, l1_slots-max))
              (λ t k. both.1 t (omega arith));
      }

  new-block :
      (b : ℕ)
      → block_bit (record level2 { available = blocks }).l0 b ≡ (if ltb b blocks then 1 else 0)
  new-block b =
      ap (λ l0. block_bit l0 b)
        ((update_l2_all-IsRefreshed l1_slots 0 level1).l0
          ∙ (update_l1_all-IsRefreshed slots 0 blank).l0)
      ∙ initial_block b

  pub new_allocator-total : (new_allocator blocks).total ≡ blocks
  new_allocator-total = rw new_allocator_lem (
      (update_l2_all-IsRefreshed l1_slots 0 level1).total
      ∙ (update_l1_all-IsRefreshed slots 0 blank).total)

  -- For 1 to 2^62 blocks NewAllocatorV3 makes a valid allocator whose summaries tell the truth, in
  -- which just the blocks of the device are free, and the counter is their number.
  pub new_allocator-IsValid :
      IsValid (new_allocator blocks)
      × IsSummarised (new_allocator blocks)
      × ((new_allocator blocks).available ≡ blocks)
      × ((b : ℕ) → block_bit (new_allocator blocks).l0 b ≡ (if ltb b blocks then 1 else 0))
  new_allocator-IsValid = rw new_allocator_lem (new-IsValid, new-IsSummarised, refl, new-block)
