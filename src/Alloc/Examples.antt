-- ===== src/Alloc/Examples.antt =====
-- The theorems on the allocator at a device of 128 blocks, all free or all allocated.
use corgi.Base.{
  ℕ, zero, suc, ◌+◌, ◌-◌, ◌*◌, ◌/◌, ◌%◌, ◌^◌, ◌≤◌, ◌<◌, ◌≡◌, ◌↔◌, refl, ap, ◌∙◌, true, false, [],
  ◌∷◌, ◌==◌, if◌then◌else◌, arith, get_or, get_or-beyond, inl, inr, lt-or-le,
}
use corgi.Base.Word.{bit_at, bit_at-zero, bit_at-ones, bit_at-beyond, complement}
use corgi.Base.Sum.{sum_below}
use corgi.Alloc.Geometry.{Result, validate_range, valid_word_mask, range_mask}
use corgi.Alloc.Store.{
  AllocatorV3, get_entry, put_entry, update_l1_for_l0_slot, update_l2_for_l1_slot,
}
use corgi.Alloc.Store.Entries.{get_entry-bits, get_entry-zero, get_entry-put_entry}
use corgi.Alloc.Mark.{mark_range, range_fully_allocated, mark_words, refresh_l1, refresh_l2}
use corgi.Alloc.Mark.Blocks.{block_bit, IsBitmap, mark_range-block}
use corgi.Alloc.Mark.Counts.{
  IsClean, Counts, free_blocks, free_below, block_bit-word, mark_range-Counts,
}
use corgi.Alloc.Mark.Allocated.{range_fully_allocated_iff}
use corgi.Alloc.Summary.Level1.{Tells, entry1}
use corgi.Alloc.Summary.Level2.{entry2}
use corgi.Alloc.Summary.Refresh.{IsSummarised}
use corgi.Alloc.Search.{scan_l0_limited}
use corgi.Alloc.Summary.Exact.{IsExact}
use corgi.Alloc.Summary.Marked.{mark_range-IsExact}
use corgi.Alloc.Search.Scan.{Scanned, StartsBelow, scan_l0_limited-StartsBelow}
use corgi.Alloc.Api.{
  release, check_extents, any_overlap, mark_all, init_allocated, init_free, ok, err,
  not_fully_allocated,
}
use corgi.Alloc.Api.Valid.{IsValid}
use corgi.Alloc.Api.Release.{IsFreed, release-IsFreed, release_twice}
use corgi.Alloc.Api.Ranges.{validate_range_iff}
use corgi.Alloc.Api.Init.{IsPainted, init_allocated_lem, init_free_lem}

abbrev all_ones : ℕ
all_ones = 2 ^ 64 - 1

abbrev pub whole : AllocatorV3
whole = record {
  total = 128;
  available = 128;
  l0 = all_ones ∷ all_ones ∷ [];
  l1 = 3 ∷ [];
  l2 = 1 ∷ [];
  l0_slots = 2;
  last_pos = 0;
}

abbrev pub taken : AllocatorV3
taken = record {
  total = 128;
  available = 0;
  l0 = 0 ∷ 0 ∷ [];
  l1 = 0 ∷ [];
  l2 = 0 ∷ [];
  l0_slots = 2;
  last_pos = 0;
}

abbrev across : Result
across = record { offset = 60; size = 10 }

no_ones : (w : ℕ) → get_or {A = ℕ} taken.l0 w 0 ≡ 0
no_ones zero = refl
no_ones (suc zero) = refl
no_ones (suc (suc w)) = refl

pub taken-clear : (b : ℕ) → block_bit taken.l0 b ≡ 0
unfolding block_bit
taken-clear b = ap (λ t. bit_at t (b % 64)) (no_ones (b / 64)) ∙ bit_at-zero (b % 64)

taken-IsBitmap : IsBitmap 128 taken.l0
taken-IsBitmap = record { small = omega arith; slots = refl; words = λ w. omega (arith, no_ones w) }

taken-IsClean : IsClean 128 taken.l0
taken-IsClean = record { beyond = λ b h. taken-clear b }

pub taken-IsValid : IsValid taken
unfolding free_below sum_below block_bit bit_at
taken-IsValid = record { bitmap = taken-IsBitmap; clean = taken-IsClean; counted = refl }

whole_words : (w : ℕ) → get_or (all_ones ∷ all_ones ∷ []) w 0 < 2 ^ 64
whole_words zero = omega arith
whole_words (suc zero) = omega arith
whole_words (suc (suc w)) = omega arith

pub whole-IsBitmap : IsBitmap 128 whole.l0
whole-IsBitmap = record { small = omega arith; slots = refl; words = whole_words }

whole-beyond : (b : ℕ) → 128 ≤ b → block_bit whole.l0 b ≡ 0
unfolding block_bit
whole-beyond b h =
    ap (λ t. bit_at t (b % 64)) (get_or-beyond whole.l0 (b / 64) 0 (omega arith))
    ∙ bit_at-zero (b % 64)

pub whole-IsClean : IsClean 128 whole.l0
whole-IsClean = record { beyond = whole-beyond }

whole-free : (b : ℕ) → b < 128 → block_bit whole.l0 b ≡ 1
whole-free b h = elim (lt-or-le b 64) [
  | inl low ↦
      ap (block_bit whole.l0) {x = b} {y = 0 * 64 + b} (omega arith)
      ∙ block_bit-word whole.l0 0 b low
      ∙ bit_at-ones 64 b low
  | inr high ↦
      ap (block_bit whole.l0) {x = b} {y = 1 * 64 + (b - 64)} (omega arith)
      ∙ block_bit-word whole.l0 1 (b - 64) (omega arith)
      ∙ bit_at-ones 64 (b - 64) (omega arith)
]

pub whole-IsValid : IsValid whole
unfolding free_below sum_below block_bit bit_at
whole-IsValid = record { bitmap = whole-IsBitmap; clean = whole-IsClean; counted = refl }

-- The entries of a summary level that has one word, which only says something of its entry 0.
later_entry : (x k : ℕ) → x < 4 → 1 ≤ k → get_entry (get_or (x ∷ []) (k / 32) 0) (k % 32) ≡ 0
later_entry x k h p = elim (lt-or-le k 32) [
  | inl near ↦
      ap (λ t. get_entry (get_or (x ∷ []) t 0) (k % 32)) {x = k / 32} {y = 0} (omega arith)
      ∙ omega (
        arith,
        get_entry-bits x (k % 32),
        bit_at-beyond 2 x (k % 32 * 2) h (omega arith),
        bit_at-beyond 2 x (k % 32 * 2 + 1) h (omega arith),
      )
  | inr far ↦
      ap (λ t. get_entry t (k % 32)) (get_or-beyond (x ∷ []) (k / 32) 0 (omega arith))
      ∙ get_entry-zero (k % 32)
]

whole-tells1 : (k : ℕ) → Tells (entry1 whole k) 128 whole.l0 (k * 512) 512
whole-tells1 k = elim (lt-or-le k 1) [
  | inl first ↦ record {
    free = λ e b p q r. whole-free b r;
    full = λ e. absurd (omega (arith, e, ap (entry1 whole) {x = k} {y = 0} (omega arith), three));
  }
  | inr later ↦ record {
    free = λ e. absurd (omega (arith, e, later_entry 3 k (omega arith) later));
    full = λ e b p q r. absurd (omega arith);
  }
]
  where
    three : entry1 whole 0 ≡ 3
    three = unfold get_entry in refl

whole-tells2 : (k : ℕ) → Tells (entry2 whole k) 128 whole.l0 (k * 131072) 131072
whole-tells2 k = elim (lt-or-le k 1) [
  | inl first ↦ record {
    free = λ e b p q r. whole-free b r;
    full = λ e. absurd (omega (arith, e, ap (entry2 whole) {x = k} {y = 0} (omega arith), one));
  }
  | inr later ↦ record {
    free = λ e. absurd (omega (arith, e, later_entry 1 k (omega arith) later));
    full = λ e b p q r. absurd (omega arith);
  }
]
  where
    one : entry2 whole 0 ≡ 1
    one = unfold get_entry in refl

pub whole-IsSummarised : IsSummarised whole
whole-IsSummarised = record {
  covers1 = omega arith;
  covers2 = omega arith;
  tells1 = whole-tells1;
  tells2 = whole-tells2;
}

released_ok : (release (across ∷ []) taken).0 ≡ ok tt
unfolding release check_extents validate_range range_fully_allocated any_overlap mark_all mark_range
    complement valid_word_mask range_mask mark_words refresh_l1 refresh_l2 update_l1_for_l0_slot
    update_l2_for_l1_slot
released_ok = refl

release-IsFreed_example :
    IsFreed (across ∷ []) taken (release (across ∷ []) taken).1
    × IsValid (release (across ∷ []) taken).1
release-IsFreed_example =
    release-IsFreed (across ∷ []) taken taken-IsValid (omega arith, omega arith, tt) released_ok

release_twice_example :
    (release (across ∷ []) (release (across ∷ []) taken).1).0 ≡ err not_fully_allocated
release_twice_example =
    release_twice across [] taken taken-IsValid (omega arith, omega arith, tt) released_ok

mark_range-block_example : block_bit (mark_range 60 10 false whole).0.l0 65 ≡ 0
mark_range-block_example =
    mark_range-block 60 10 false whole whole-IsBitmap (omega arith) (omega arith) 65

mark_range-Counts_example :
    Counts false
      (free_blocks whole)
      (free_blocks (mark_range 60 10 false whole).0)
      (mark_range 60 10 false whole).1
mark_range-Counts_example =
    mark_range-Counts 60 10 false whole whole-IsBitmap whole-IsClean (omega arith) (omega arith)

whole-entry : entry1 whole 0 ≡ 3
whole-entry = unfold get_entry in refl

whole-IsExact : IsExact whole
whole-IsExact = record {
  free1 = λ t h all. ap (entry1 whole) {x = t} {y = 0} (omega arith) ∙ whole-entry;
  full1 = λ t h all.
      absurd (omega (arith, all (t * 512) (omega arith) (omega arith) h, whole-free (t * 512) h));
  beyond1 = λ t h. later_entry 3 t (omega arith) (omega arith);
  free2 = λ k h all. absurd (omega (arith, all 0 (omega arith) (omega arith) (omega arith)));
  full2 = λ k h all. absurd (omega (arith, all 0 (omega arith) (omega arith) (omega arith)));
}

mark_range-IsExact_example :
    IsSummarised (mark_range 60 10 false whole).0 × IsExact (mark_range 60 10 false whole).0
mark_range-IsExact_example =
    mark_range-IsExact 60 10 false whole whole-IsBitmap whole-IsClean whole-IsSummarised
      whole-IsExact (omega arith) (omega arith)

scan_l0_limited-StartsBelow_example :
    Scanned whole 60 128 10 (scan_l0_limited 60 128 10 whole)
    × StartsBelow 128 (scan_l0_limited 60 128 10 whole)
scan_l0_limited-StartsBelow_example =
    scan_l0_limited-StartsBelow whole whole-IsBitmap whole-IsClean 60 128 10 (omega arith)

range_fully_allocated_iff_example :
    (range_fully_allocated 60 10 taken ≡ true)
    ↔ ((b : ℕ) → 60 ≤ b → b < 60 + 10 → block_bit taken.l0 b ≡ 0)
range_fully_allocated_iff_example =
    range_fully_allocated_iff 60 10 taken taken-IsBitmap (omega arith) (omega arith)

init_allocated_lem_example :
    ((init_allocated 60 10 whole).0 ≡ ok tt)
    × IsPainted 0 60 10 whole (init_allocated 60 10 whole).1
    × IsValid (init_allocated 60 10 whole).1
init_allocated_lem_example =
    init_allocated_lem 60 10 whole whole-IsValid (omega arith) (omega arith) (omega arith)

init_free_lem_example :
    ((init_free 60 10 taken).0 ≡ ok tt)
    × IsPainted 1 60 10 taken (init_free 60 10 taken).1
    × IsValid (init_free 60 10 taken).1
init_free_lem_example =
    init_free_lem 60 10 taken taken-IsValid (omega arith) (omega arith) (omega arith)

validate_range_iff_example : (validate_range 128 60 10 ≡ true) ↔ ((0 < 10) × (60 + 10 ≤ 128))
validate_range_iff_example = validate_range_iff 128 60 10 (omega arith) (omega arith) (omega arith)

get_entry-put_entry_example : get_entry (put_entry 3 5 1) 0 ≡ (if 0 == 5 then 1 else get_entry 3 0)
get_entry-put_entry_example = get_entry-put_entry 3 5 1 0 (omega arith) (omega arith) (omega arith)
