-- ===== src/Alloc/Api/Release.antt =====
-- AllocatorV3.Release: what it frees, what it refuses, and a second release of the same extents.
use corgi.Base.{
  ℕ, ◌+◌, ◌^◌, ◌≤◌, ◌<◌, ◌≡◌, refl, true, false, List, [], ◌∷◌, if◌then◌else◌, arith, Bool-cases,
  inl, inr, none,
}
use corgi.Alloc.Geometry.{Result, validate_range}
use corgi.Alloc.Store.{AllocatorV3}
use corgi.Alloc.Mark.{range_fully_allocated}
use corgi.Alloc.Mark.Blocks.{block_bit, IsBitmap}
use corgi.Alloc.Mark.Allocated.{range_fully_allocated_iff}
use corgi.Alloc.Api.{Error, ok, err, not_fully_allocated, check_extents, mark_all, release}
use corgi.Alloc.Api.Ranges.{validate_range_iff}
use corgi.Alloc.Api.Valid.{IsValid, IsMarked, Fits, covered, holds, mark_all-IsMarked}

-- Offsets and sizes are int64 patterns.
abbrev pub AreInt64 : List Result → Type 0
AreInt64 [] = Unit {0}
AreInt64 (r ∷ rs) = (r.offset < 2 ^ 64) × (r.size < 2 ^ 64) × AreInt64 rs

pub AllAllocated : AllocatorV3 → List Result → Type 0
AllAllocated a rs = (x : ℕ) → covered rs x ≡ true → block_bit a.l0 x ≡ 0

module _ (a : AllocatorV3) (valid : IsBitmap a.total a.l0) where
  check-head :
      (r : Result) (rs : List Result)
      → r.offset < 2 ^ 64
      → r.size < 2 ^ 64
      → check_extents (r ∷ rs) a ≡ none
      → (0 < r.size)
        × (r.offset + r.size ≤ a.total)
        × (range_fully_allocated r.offset r.size a ≡ true)
        × (check_extents rs a ≡ none)
  unfolding check_extents
  check-head r rs p q e =
      let range = (validate_range_iff a.total r.offset r.size valid.small p q).0 (ground arith) in
      (range.0, range.1, ground arith, ground arith)

  -- Extents that pass the checks lie inside the device and hold no free block.
  pub check_extents_sound :
      (rs : List Result)
      → AreInt64 rs
      → check_extents rs a ≡ none
      → Fits a.total rs × AllAllocated a rs
  unfolding AllAllocated
  check_extents_sound [] i e = (tt, λ x h. cc)
  check_extents_sound (r ∷ rs) i e =
      let head = check-head r rs i.0 i.1 e in
      let rest = check_extents_sound rs i.2 head.3 in
      (
        (head.0, head.1, rest.0),
        λ x h. elim (Bool-cases (holds r x)) [
          | inl here ↦
              (range_fully_allocated_iff r.offset r.size a valid head.0 head.1).0 head.2 x
                (ground arith) (ground arith)
          | inr later ↦ rest.1 x (ground arith)
        ],
      )

-- The extents `rs` have been freed in `a`, and nothing else has changed.
pub record IsFreed (rs : List Result) (a b : AllocatorV3) : Type 0 where
  pub total : b.total ≡ a.total
  pub in_range : Fits a.total rs
  pub was_allocated : (x : ℕ) → covered rs x ≡ true → block_bit a.l0 x ≡ 0
  pub blocks : (x : ℕ) → block_bit b.l0 x ≡ (if covered rs x then 1 else block_bit a.l0 x)

release-ok :
    (r : Result) (rs : List Result) (a : AllocatorV3)
    → (release (r ∷ rs) a).0 ≡ ok tt
    → (check_extents (r ∷ rs) a ≡ none)
      × ((release (r ∷ rs) a).1
          ≡ (let (b, n) = mark_all true (r ∷ rs) a in record b { available = b.available + n }))
unfolding release
release-ok r rs a e = ground arith

IsMarked-IsValid :
    (rs : List Result) (a b : AllocatorV3) (n : ℕ)
    → IsValid a
    → IsMarked true rs a b n
    → IsValid (record b { available = b.available + n })
IsMarked-IsValid rs a b n v m = record {
  bitmap = m.bitmap;
  clean = m.clean;
  counted = omega (arith, m.counts, m.available, v.counted);
}

-- A release that returns no error, on a valid allocator and with extents of 64-bit numbers, frees
-- exactly the blocks of its extents, all of which were allocated, and leaves a valid allocator.
pub release-IsFreed :
    (rs : List Result) (a : AllocatorV3)
    → IsValid a
    → AreInt64 rs
    → (release rs a).0 ≡ ok tt
    → IsFreed rs a (release rs a).1 × IsValid (release rs a).1
release-IsFreed [] a v i e =
    unfold release in
    (record { total = refl; in_range = tt; was_allocated = λ x h. cc; blocks = λ x. refl }, v)
release-IsFreed (r ∷ rs) a v i e =
    let steps = release-ok r rs a e in
    let sound = check_extents_sound a v.bitmap (r ∷ rs) i steps.0 in
    let m = mark_all-IsMarked true (r ∷ rs) a v.bitmap v.clean sound.0 in
    rw steps.1 (
      record {
        total = m.total;
        in_range = sound.0;
        was_allocated = unfold AllAllocated in sound.1;
        blocks = m.blocks;
      },
      IsMarked-IsValid (r ∷ rs) a (mark_all true (r ∷ rs) a).0 (mark_all true (r ∷ rs) a).1 v m,
    )

-- A release that returns an error has changed nothing.
pub release_refused :
    (rs : List Result) (a : AllocatorV3) (e : Error)
    → (release rs a).0 ≡ err e
    → (release rs a).1 ≡ a
unfolding release
release_refused [] a e h = refl
release_refused (r ∷ rs) a e h = ground arith

not_allocated :
    (r : Result) (rs : List Result) (a : AllocatorV3)
    → validate_range a.total r.offset r.size ≡ true
    → range_fully_allocated r.offset r.size a ≡ false
    → (release (r ∷ rs) a).0 ≡ err not_fully_allocated
unfolding release check_extents
not_allocated r rs a p q = ground arith

IsFreed-head :
    (r : Result) (rs : List Result) (a b : AllocatorV3)
    → IsFreed (r ∷ rs) a b
    → block_bit b.l0 r.offset ≡ 1
IsFreed-head r rs a b f = ground (arith, f.blocks r.offset, f.in_range)

-- Where a release succeeds on a valid allocator, with at least one extent and 64-bit numbers, a
-- second release of the same extents is refused as not fully allocated.
pub release_twice :
    (r : Result) (rs : List Result) (a : AllocatorV3)
    → IsValid a
    → AreInt64 (r ∷ rs)
    → (release (r ∷ rs) a).0 ≡ ok tt
    → (release (r ∷ rs) (release (r ∷ rs) a).1).0 ≡ err not_fully_allocated
release_twice r rs a v i e =
    let b = (release (r ∷ rs) a).1 in
    let freed = release-IsFreed (r ∷ rs) a v i e in
    let fits = freed.0.in_range in
    not_allocated r rs b
      ((validate_range_iff b.total r.offset r.size freed.1.bitmap.small i.0 i.1).1
        (fits.0, rw freed.0.total fits.1))
      (elim (Bool-cases (range_fully_allocated r.offset r.size b)) [
        | inr fresh ↦ fresh
        | inl still ↦ absurd (
            omega (
              arith,
              (range_fully_allocated_iff r.offset r.size b freed.1.bitmap fits.0
                    (rw freed.0.total fits.1)).0
                  still r.offset (omega arith) (omega (arith, fits.0)),
              IsFreed-head r rs a b freed.0,
            ))
      ])
