-- ===== src/Alloc/Api/Init.antt =====
-- InitAllocated and InitFree, by which an allocator is restored from the persisted bitmap.
use corgi.Base.{
  ℕ, ◌+◌, ◌-◌, ◌^◌, ◌≤◌, ◌<◌, ◌≡◌, refl, ◌∙◌, Bool, true, false, ◌&&◌, [], ◌∷◌, ltb, leb,
  if◌then◌else◌, arith,
}
use corgi.Alloc.Geometry.{Result, validate_range, sub64}
use corgi.Alloc.Store.{AllocatorV3}
use corgi.Alloc.Mark.{mark_range}
use corgi.Alloc.Mark.Blocks.{block_bit}
use corgi.Alloc.Summary.Refresh.{IsSummarised, mark_range-IsSummarised}
use corgi.Alloc.Api.Accepted.{IsSummarised-available}
use corgi.Alloc.Api.{ok, init_allocated, init_free}
use corgi.Alloc.Api.Ranges.{validate_range_iff}
use corgi.Alloc.Api.Valid.{IsValid, IsMarked, mark_range-IsMarked, free_below-le}

-- The blocks of [offset, offset + size) have been given the state `bit`, the others have kept theirs.
pub record IsPainted (bit offset size : ℕ) (a b : AllocatorV3) : Type 0 where
  pub total : b.total ≡ a.total
  pub last_pos : b.last_pos ≡ a.last_pos
  pub blocks :
      (x : ℕ)
      → block_bit b.l0 x ≡ (if leb offset x && ltb x (offset + size) then bit else block_bit a.l0 x)

module _ (offset size : ℕ) (a : AllocatorV3) (v : IsValid a) (o64 : offset < 2 ^ 64)
    (positive : 0 < size) (fits : offset + size ≤ a.total) where
  abbrev extent : Result
  extent = record { offset = offset; size = size }

  marked :
      (free : Bool)
      → IsMarked free
          (extent ∷ [])
          a
          (mark_range offset size free a).0
          (mark_range offset size free a).1
  marked free = mark_range-IsMarked free extent a v.bitmap v.clean positive fits

  accepted : validate_range a.total offset size ≡ true
  accepted =
      (validate_range_iff a.total offset size v.bitmap.small o64 (omega (arith, v.bitmap.small))).1
        (positive, fits)

  abbrev run : Bool → AllocatorV3 × ℕ
  run free = mark_range offset size free a

  -- The free blocks stay between 0 and the total, so neither counter check fails.
  taken : (run false).1 ≤ (run false).0.available
  taken = omega (arith, (marked false).counts, (marked false).available, v.counted)

  room : (run true).0.available + (run true).1 ≤ (run true).0.total
  room = omega (
    arith,
    (marked true).counts,
    (marked true).available,
    v.counted,
    free_below-le (run true).0.total (run true).0.l0,
  )

  small : (run false).0.available ≤ 2 ^ 62
  small =
      omega (arith, (marked false).available, v.counted, v.bitmap.small, free_below-le a.total a.l0)

  init_allocated-run :
      init_allocated offset size a
      ≡ (ok tt, record (run false).0 { available = (run false).0.available - (run false).1 })
  unfolding init_allocated
  init_allocated-run =
      let back : sub64 (run false).0.available (run false).1
          ≡ (run false).0.available - (run false).1 =
        omega (arith, taken, small) in
      ground (arith, accepted, back, small, v.bitmap.small)

  init_free-run :
      init_free offset size a
      ≡ (ok tt, record (run true).0 { available = (run true).0.available + (run true).1 })
  unfolding init_free
  init_free-run = ground (arith, accepted, room, v.bitmap.small, (marked true).total)

  -- On a valid allocator and a nonempty range inside the device, InitAllocated returns no error:
  -- the counter does not go below zero, the blocks of the range are allocated, the others stay as
  -- they were, and the allocator stays valid.
  pub init_allocated_lem :
      ((init_allocated offset size a).0 ≡ ok tt)
      × IsPainted 0 offset size a (init_allocated offset size a).1
      × IsValid (init_allocated offset size a).1
  init_allocated_lem =
      let m = marked false in
      rw init_allocated-run (
        refl,
        record { total = m.total; last_pos = m.last_pos; blocks = λ x. m.blocks x ∙ ground arith },
        record {
          bitmap = m.bitmap;
          clean = m.clean;
          counted = omega (arith, m.counts, m.available, v.counted);
        },
      )

  -- On a valid allocator and a nonempty range inside the device, InitFree returns no error: the
  -- counter does not pass the total, the blocks of the range are free, the others stay as they
  -- were, and the allocator stays valid.
  pub init_free_lem :
      ((init_free offset size a).0 ≡ ok tt)
      × IsPainted 1 offset size a (init_free offset size a).1
      × IsValid (init_free offset size a).1
  init_free_lem =
      let m = marked true in
      rw init_free-run (
        refl,
        record { total = m.total; last_pos = m.last_pos; blocks = λ x. m.blocks x ∙ ground arith },
        record {
          bitmap = m.bitmap;
          clean = m.clean;
          counted = omega (arith, m.counts, m.available, v.counted);
        },
      )

  painted_sums :
      (free : Bool) (n : ℕ) → IsSummarised a → IsSummarised (record (run free).0 { available = n })
  painted_sums free n s =
      IsSummarised-available (run free).0 n
        (mark_range-IsSummarised offset size free a v.bitmap v.clean s positive fits)

  pub init_allocated-IsSummarised : IsSummarised a → IsSummarised (init_allocated offset size a).1
  init_allocated-IsSummarised s =
      rw init_allocated-run (painted_sums false ((run false).0.available - (run false).1) s)

  pub init_free-IsSummarised : IsSummarised a → IsSummarised (init_free offset size a).1
  init_free-IsSummarised s =
      rw init_free-run (painted_sums true ((run true).0.available + (run true).1) s)
