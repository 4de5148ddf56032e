-- ===== src/Alloc/Calls.antt =====
-- A call of a method of AllocatorV3, by name, with its answer.
pub mod Granting
pub mod Marking
use mathlib.Core.Path.{subst}
use corgi.Base.{
  ℕ, zero, suc, ◌+◌, ◌-◌, ◌^◌, ◌≤◌, ◌<◌, ◌≡◌, refl, ap, ◌∙◌, sym, Bool, true, false, not, ◌&&◌,
  ◌||◌, ◌⊎◌, inl, inr, List, [], ◌∷◌, ltb, leb, ◌==◌, if◌then◌else◌, arith, Bool-cases, lt-or-le,
  none, some,
}
use corgi.Base.Sum.{sum_below, sum_below_ext}
use corgi.Alloc.Geometry.{Result, extents_overlap, validate_range, is_negative}
use corgi.Alloc.Store.{AllocatorV3}
use corgi.Alloc.Mark.Blocks.{block_bit, block_bit-le}
use corgi.Alloc.Mark.Counts.{free_blocks, free_below}
use corgi.Alloc.Summary.Refresh.{IsSummarised}
use corgi.Alloc.Api.{
  Error, Reply, ok, err, invalid_extent, new_allocator, allocate, release, init_allocated,
  init_free, overlaps_any, any_overlap,
}
use corgi.Alloc.Api.Valid.{IsValid, Fits, covered, holds, free_below-le}
use corgi.Alloc.Api.Extents.{total_size, AreDisjoint}
use corgi.Alloc.Api.Allocate.{IsAllocated, allocate-IsAllocated, allocate-refused}
use corgi.Alloc.Api.Release.{AreInt64, IsFreed, release-IsFreed, release_refused}
use corgi.Alloc.Api.Ranges.{validate_range_iff}
use corgi.Alloc.Api.Init.{
  init_allocated_lem, init_free_lem, init_allocated-IsSummarised, init_free-IsSummarised,
}
use corgi.Alloc.Api.Accepted.{release_allocated, release-AreDisjoint, release-IsSummarised}
use corgi.Alloc.Api.New.{new_allocator-IsValid, new_allocator-total}
use corgi.Alloc.Spec.{
  Blocks, count_below, Call, allocating, releasing, marking_allocated, marking_free, Answer,
  granted, done, refused, AreSame, AreReleasable, IsInside, IsAllowed,
}

-- The free blocks of the allocator.
abbrev pub is_free : AllocatorV3 → Blocks
is_free a x = block_bit a.l0 x == 1

abbrev pub answer_of : Reply (Unit {0}) → Answer
answer_of (ok u) = done
answer_of (err e) = refused e

abbrev pub grant_of : Reply (List Result) → Answer
grant_of (ok rs) = granted rs
grant_of (err e) = refused e

-- The method that a call runs, with its answer and the state after it.
abbrev pub perform : Call → AllocatorV3 → Answer × AllocatorV3
perform (allocating want) a = let (r, b) = allocate want a in (grant_of r, b)
perform (releasing rs) a = let (r, b) = release rs a in (answer_of r, b)
perform (marking_allocated e) a = let (r, b) = init_allocated e.offset e.size a in (answer_of r, b)
perform (marking_free e) a = let (r, b) = init_free e.offset e.size a in (answer_of r, b)

-- The numbers of a call are int64.
abbrev pub IsInt64Call : Call → Type 0
IsInt64Call (allocating want) = want < 2 ^ 64
IsInt64Call (releasing rs) = AreInt64 rs
IsInt64Call (marking_allocated e) = (e.offset < 2 ^ 64) × (e.size < 2 ^ 64)
IsInt64Call (marking_free e) = (e.offset < 2 ^ 64) × (e.size < 2 ^ 64)

-- What every method keeps.
pub record IsSound (total : ℕ) (a : AllocatorV3) : Type 0 where
  pub size : a.total ≡ total
  pub valid : IsValid a
  pub sums : IsSummarised a

abbrev pub Meets : ℕ → Call → AllocatorV3 → Answer × AllocatorV3 → Type 0
Meets total c a (r, b) = IsAllowed total c (is_free a) r (is_free b) × IsSound total b
