-- ===== src/Alloc/CallExamples.antt =====
-- The theorems on whole calls of the allocator at a device of 128 blocks.
use corgi.Base.{◌≡◌, ℕ, List, [], ◌∷◌, ltb, if◌then◌else◌, arith}
use corgi.Alloc.Geometry.{Result}
use corgi.Alloc.Store.{AllocatorV3}
use corgi.Alloc.Mark.Blocks.{block_bit}
use corgi.Alloc.Summary.Refresh.{IsSummarised}
use corgi.Alloc.Search.{next_free_run}
use corgi.Alloc.Search.Scan.{Scanned}
use corgi.Alloc.Search.Levels.{next_free_run-Scanned}
use corgi.Alloc.Api.{new_allocator, allocate, release, ok}
use corgi.Alloc.Api.Valid.{IsValid}
use corgi.Alloc.Api.Allocate.{IsAllocated, allocate-IsAllocated}
use corgi.Alloc.Api.Roundtrip.{allocate_then_release}
use corgi.Alloc.Api.New.{new_allocator-IsValid}
use corgi.Alloc.Spec.{IsAllowed, Call, allocating, releasing}
use corgi.Alloc.Calls.{is_free, perform, IsSound}
use corgi.Alloc.Refines.{Reachable, starts, calls, Reachable-IsSound, perform_refines}
use corgi.Alloc.Examples.{whole, whole-IsBitmap, whole-IsClean, whole-IsValid, whole-IsSummarised}

-- A device of 128 blocks of which 100 have been asked for.
abbrev used : AllocatorV3
used = (perform (allocating 100) (new_allocator 128)).1

used-Reachable : Reachable 128 used
used-Reachable = calls (new_allocator 128) starts (allocating 100) (omega arith)

abbrev twice : Call
twice = releasing (record { offset = 0; size = 40 } ∷ record { offset = 30; size = 20 } ∷ [])

perform_refines_example :
    IsAllowed 128 twice (is_free used) (perform twice used).0 (is_free (perform twice used).1)
perform_refines_example =
    perform_refines 128 (omega arith) (omega arith) used used-Reachable twice
      (omega arith, omega arith, (omega arith, omega arith, tt))

Reachable-IsSound_example : IsSound 128 used
Reachable-IsSound_example = Reachable-IsSound 128 (omega arith) (omega arith) used used-Reachable

allocate-IsAllocated_example :
    (rs : List Result) × (allocate 100 whole ≡ (ok rs, (allocate 100 whole).1))
    × IsAllocated 100 whole rs (allocate 100 whole).1
allocate-IsAllocated_example =
    allocate-IsAllocated 100 whole whole-IsValid whole-IsSummarised (omega arith) (omega arith)

allocate_then_release_example :
    (rs : List Result) × (allocate 100 whole ≡ (ok rs, (allocate 100 whole).1))
    × (let c = release rs (allocate 100 whole).1 in
        (c.0 ≡ ok tt)
        × IsValid c.1
        × (c.1.available ≡ whole.available)
        × ((x : ℕ) → block_bit c.1.l0 x ≡ block_bit whole.l0 x))
allocate_then_release_example =
    allocate_then_release 100 whole whole-IsValid whole-IsSummarised (omega arith) (omega arith)

new_allocator-IsValid_example :
    IsValid (new_allocator 130)
    × IsSummarised (new_allocator 130)
    × ((new_allocator 130).available ≡ 130)
    × ((b : ℕ) → block_bit (new_allocator 130).l0 b ≡ (if ltb b 130 then 1 else 0))
new_allocator-IsValid_example = new_allocator-IsValid 130 (omega arith) (omega arith)

next_free_run-Scanned_example : Scanned whole 60 128 10 (next_free_run 60 10 whole)
next_free_run-Scanned_example =
    next_free_run-Scanned whole whole-IsBitmap whole-IsClean whole-IsSummarised 60 10 (omega arith)
      (omega arith)
