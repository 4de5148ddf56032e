-- ===== src/Alloc/Api/Roundtrip.antt =====
-- Release of what Allocate has returned.
use corgi.Base.{ℕ, ◌≤◌, ◌<◌, ◌≡◌, ap, ◌∙◌, sym, true, List, arith}
use corgi.Base.Sum.{sum_below}
use corgi.Alloc.Geometry.{Result}
use corgi.Alloc.Store.{AllocatorV3}
use corgi.Alloc.Mark.Blocks.{block_bit}
use corgi.Alloc.Mark.Counts.{free_blocks, free_below}
use corgi.Alloc.Summary.Refresh.{IsSummarised}
use corgi.Alloc.Api.{allocate, ok, release}
use corgi.Alloc.Api.Valid.{IsValid, Fits, covered}
use corgi.Alloc.Api.Allocate.{IsAllocated, allocate-IsAllocated}
use corgi.Alloc.Api.Release.{IsFreed, release-IsFreed}
use corgi.Base.Sum.{sum_below_ext}
use mathlib.Core.Path.{subst}
use corgi.Alloc.Api.Accepted.{release_allocated, AreInt64-Fits}

-- What Allocate has returned can be released, and all is as before.
module _ (want : ℕ) (a : AllocatorV3) (rs : List Result) (b : AllocatorV3)
    (granted : IsAllocated want a rs b) where
  fits : Fits b.total rs
  fits = subst (λ t. Fits t rs) (sym granted.total) granted.in_range

  allocated : (x : ℕ) → covered rs x ≡ true → block_bit b.l0 x ≡ 0
  allocated x h = ground (arith, granted.blocks x)

  released : (release rs b).0 ≡ ok tt
  released = release_allocated b granted.valid.bitmap rs fits granted.disjoint allocated

  freed : IsFreed rs b (release rs b).1 × IsValid (release rs b).1
  freed = release-IsFreed rs b granted.valid (AreInt64-Fits b granted.valid.bitmap rs fits) released

  restored : (x : ℕ) → block_bit (release rs b).1.l0 x ≡ block_bit a.l0 x
  restored x = ground (arith, freed.0.blocks x, granted.blocks x, granted.were_free x)

  same_free : free_blocks (release rs b).1 ≡ free_blocks a
  unfolding free_below
  same_free =
      ap (λ t. sum_below t (block_bit (release rs b).1.l0)) (freed.0.total ∙ granted.total)
      ∙ sum_below_ext a.total (block_bit (release rs b).1.l0) (block_bit a.l0) (λ x h. restored x)

  pub release-allocated :
      IsValid a
      → ((release rs b).0 ≡ ok tt)
        × IsValid (release rs b).1
        × ((release rs b).1.available ≡ a.available)
        × ((x : ℕ) → block_bit (release rs b).1.l0 x ≡ block_bit a.l0 x)
  release-allocated v = (released, freed.1, freed.1.counted ∙ same_free ∙ sym v.counted, restored)

-- On a valid allocator whose summaries tell the truth, and for a positive number of blocks that
-- does not exceed the counter, Allocate returns extents whose Release succeeds; after both every
-- block and the counter are as before, and the allocator is valid.
pub allocate_then_release :
    (want : ℕ) (a : AllocatorV3)
    → IsValid a
    → IsSummarised a
    → 0 < want
    → want ≤ a.available
    → (rs : List Result) × (allocate want a ≡ (ok rs, (allocate want a).1))
      × (let c = release rs (allocate want a).1 in
          (c.0 ≡ ok tt)
          × IsValid c.1
          × (c.1.available ≡ a.available)
          × ((x : ℕ) → block_bit c.1.l0 x ≡ block_bit a.l0 x))
allocate_then_release want a v s p q =
    let (rs, e, granted) = allocate-IsAllocated want a v s p q in
    (rs, e, release-allocated want a rs (allocate want a).1 granted v)
