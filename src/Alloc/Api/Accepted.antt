-- ===== src/Alloc/Api/Accepted.antt =====
-- When Release accepts its extents, and the summaries after it.
use corgi.Base.{ℕ, ◌+◌, ◌≡◌, refl, sym, Bool, true, false, List, [], ◌∷◌, arith, none}
use corgi.Alloc.Geometry.{Result, extents_overlap}
use corgi.Alloc.Store.{AllocatorV3}
use corgi.Alloc.Mark.Blocks.{block_bit}
use corgi.Alloc.Summary.Refresh.{IsSummarised}
use corgi.Alloc.Api.{ok, check_extents, any_overlap, overlaps_any, mark_all, release}
use corgi.Alloc.Api.Valid.{Fits, covered, holds}
use corgi.Alloc.Mark.Allocated.{range_fully_allocated_iff}
use corgi.Alloc.Api.Ranges.{validate_range_iff}
use corgi.Alloc.Api.Release.{AreInt64}
use mathlib.Core.Path.{subst}
use corgi.Alloc.Mark.{mark_range}
use corgi.Alloc.Summary.Refresh.{mark_range-IsSummarised}
use corgi.Alloc.Api.Valid.{mark_range-IsMarked, mark_all-cons}
use corgi.Alloc.Mark.Blocks.{IsBitmap}
use corgi.Alloc.Mark.Counts.{IsClean}
use corgi.Alloc.Api.Extents.{AreDisjoint, any_overlap-disjoint}

-- Marking a list of extents keeps both summaries.
pub mark_all-IsSummarised :
    (free : Bool) (rs : List Result) (a : AllocatorV3)
    → IsBitmap a.total a.l0
    → IsClean a.total a.l0
    → IsSummarised a
    → Fits a.total rs
    → IsSummarised (mark_all free rs a).0
mark_all-IsSummarised free [] a v c s f = unfold mark_all in s
mark_all-IsSummarised free (r ∷ rs) a v c s f =
    let first = mark_range-IsMarked free r a v c f.0 f.1 in
    rw (mark_all-cons free r rs a) (
      mark_all-IsSummarised free rs (mark_range r.offset r.size free a).0 first.bitmap first.clean
        (mark_range-IsSummarised r.offset r.size free a v c s f.0 f.1)
        (subst (λ t. Fits t rs) (sym first.total) f.2))

release-accepted :
    (rs : List Result) (b : AllocatorV3)
    → check_extents rs b ≡ none
    → any_overlap rs ≡ false
    → (release rs b).0 ≡ ok tt
unfolding release
release-accepted [] b e h = refl
release-accepted (r ∷ rs) b e h = simp (release, e, h) refl

-- Extents in range with no free block pass the checks of Release.
module _ (b : AllocatorV3) (valid : IsBitmap b.total b.l0) where
  passes_checks :
      (qs : List Result)
      → Fits b.total qs
      → ((x : ℕ) → covered qs x ≡ true → block_bit b.l0 x ≡ 0)
      → check_extents qs b ≡ none
  unfolding check_extents
  passes_checks [] f h = refl
  passes_checks (r ∷ qs) f h =
      let in_range =
        (validate_range_iff b.total r.offset r.size valid.small (omega (arith, f, valid.small))
            (omega (arith, f, valid.small))).1
          (f.0, f.1) in
      let allocated =
        (range_fully_allocated_iff r.offset r.size b valid f.0 f.1).1
          (λ x k l. h x (ground arith)) in
      rw (in_range, allocated) (passes_checks qs f.2 (λ x k. h x (ground (arith, k))))

  pub AreInt64-Fits : (qs : List Result) → Fits b.total qs → AreInt64 qs
  AreInt64-Fits [] f = tt
  AreInt64-Fits (r ∷ qs) f =
      (omega (arith, f, valid.small), omega (arith, f, valid.small), AreInt64-Fits qs f.2)

  pub release_allocated :
      (rs : List Result)
      → Fits b.total rs
      → AreDisjoint rs
      → ((x : ℕ) → covered rs x ≡ true → block_bit b.l0 x ≡ 0)
      → (release rs b).0 ≡ ok tt
  release_allocated rs f d h =
      release-accepted rs b (passes_checks rs f h) (any_overlap-disjoint b.total rs f d)

-- Extents of which no two overlap share no block.
overlaps_any-covered :
    (r : Result) (rs : List Result) (x : ℕ)
    → overlaps_any r rs ≡ false
    → holds r x ≡ true
    → covered rs x ≡ false
unfolding overlaps_any extents_overlap
overlaps_any-covered r [] x e h = refl
overlaps_any-covered r (s ∷ rs) x e h = ground (arith, overlaps_any-covered r rs x, e)

AreDisjoint-overlap : (rs : List Result) → any_overlap rs ≡ false → AreDisjoint rs
unfolding any_overlap
AreDisjoint-overlap [] e = tt
AreDisjoint-overlap (r ∷ rs) e = (
  λ x h. overlaps_any-covered r rs x (ground (arith, e)) h,
  AreDisjoint-overlap rs (ground (arith, e)),
)

release-parts :
    (r : Result) (rs : List Result) (a : AllocatorV3)
    → (release (r ∷ rs) a).0 ≡ ok tt
    → (any_overlap (r ∷ rs) ≡ false)
      × ((release (r ∷ rs) a).1
          ≡ (let (b, n) = mark_all true (r ∷ rs) a in record b { available = b.available + n }))
unfolding release
release-parts r rs a e = ground arith

-- A release that succeeds had extents that share no block, and keeps both summaries.
pub release-AreDisjoint :
    (rs : List Result) (a : AllocatorV3) → (release rs a).0 ≡ ok tt → AreDisjoint rs
release-AreDisjoint [] a e = tt
release-AreDisjoint (r ∷ rs) a e = AreDisjoint-overlap (r ∷ rs) (release-parts r rs a e).0

pub IsSummarised-available :
    (a : AllocatorV3) (n : ℕ) → IsSummarised a → IsSummarised (record a { available = n })
IsSummarised-available a n s = record {
  covers1 = s.covers1;
  covers2 = s.covers2;
  tells1 = s.tells1;
  tells2 = s.tells2;
}

pub release-IsSummarised :
    (rs : List Result) (a : AllocatorV3)
    → IsBitmap a.total a.l0
    → IsClean a.total a.l0
    → IsSummarised a
    → Fits a.total rs
    → (release rs a).0 ≡ ok tt
    → IsSummarised (release rs a).1
release-IsSummarised [] a v c s f e = unfold release in s
release-IsSummarised (r ∷ rs) a v c s f e =
    let m = mark_all true (r ∷ rs) a in
    rw (release-parts r rs a e).1 (
      IsSummarised-available m.0 (m.0.available + m.1)
        (mark_all-IsSummarised true (r ∷ rs) a v c s f))
