-- ===== src/Alloc/Calls/Granting.antt =====
-- The calls of Allocate and Release against the specification.
use corgi.Base.{
  ℕ, ◌^◌, ◌≤◌, ◌<◌, ◌≡◌, refl, ap, ◌∙◌, sym, ◌⊎◌, inl, inr, List, if◌then◌else◌, arith, lt-or-le,
}
use corgi.Base.Sum.{sum_below_ext}
use corgi.Alloc.Geometry.{Result}
use corgi.Alloc.Store.{AllocatorV3}
use corgi.Alloc.Mark.Blocks.{block_bit, block_bit-le}
use corgi.Alloc.Mark.Counts.{free_blocks, free_below}
use corgi.Alloc.Api.{Error, Reply, ok, err, allocate, release}
use corgi.Alloc.Api.Valid.{free_below-le}
use corgi.Alloc.Api.Allocate.{allocate-IsAllocated, allocate-refused}
use corgi.Alloc.Api.Release.{AreInt64, release-IsFreed, release_refused}
use corgi.Alloc.Api.Accepted.{release_allocated, release-AreDisjoint, release-IsSummarised}
use corgi.Alloc.Spec.{count_below, allocating, releasing, AreReleasable}
use corgi.Alloc.Calls.{is_free, perform, IsSound, Meets}

count-free : (a : AllocatorV3) → count_below a.total (is_free a) ≡ free_blocks a
unfolding free_below
count-free a =
    sum_below_ext a.total (λ x. if is_free a x then 1 else 0) (block_bit a.l0)
      (λ x h. ground (arith, block_bit-le a.l0 x))

ok-ne-err : (e : Error) (r : Reply (Unit {0})) → r ≡ ok tt → r ≡ err e → ⊥
ok-ne-err e r p q = ground (arith, p, q)

module _ (total : ℕ) (a : AllocatorV3) (sound : IsSound total a) where
  avail : a.available < 2 ^ 63
  avail = omega (arith, sound.valid.counted, free_below-le a.total a.l0, sound.valid.bitmap.small)

  lacking_blocks : count_below total (is_free a) ≡ a.available
  lacking_blocks =
      ap (λ t. count_below t (is_free a)) (sym sound.size) ∙ count-free a ∙ sym sound.valid.counted

  granted-Meets :
      (want : ℕ)
      → 0 < want
      → want ≤ a.available
      → Meets total (allocating want) a (perform (allocating want) a)
  granted-Meets want positive room =
      let (rs, e, g) = allocate-IsAllocated want a sound.valid sound.sums positive room in
      let b = (allocate want a).1 in
      rw e (
        (
          positive,
          g.sizes,
          rw⁻¹ sound.size g.in_range,
          g.disjoint,
          λ x h. ground (arith, g.were_free x h),
          λ x. ground (arith, g.blocks x),
        ),
        record { size = g.total ∙ sound.size; valid = g.valid; sums = g.sums },
      )

  pub allocating-Meets :
      (want : ℕ) → want < 2 ^ 64 → Meets total (allocating want) a (perform (allocating want) a)
  allocating-Meets want h = elim (lt-or-le 0 want) [
    | inr zero_want ↦
        rw ((allocate-refused want a h avail).0 (inl (omega arith)))
          ((inl (inl (omega arith)), λ x. refl), sound)
    | inl positive ↦ elim (lt-or-le want (2 ^ 63)) [
      | inr negative ↦
          rw ((allocate-refused want a h avail).0 (inr negative))
            ((inl (inr negative), λ x. refl), sound)
      | inl small ↦ elim (lt-or-le a.available want) [
        | inl lacking ↦
            rw ((allocate-refused want a h avail).1 positive small lacking)
              ((inr (omega (arith, lacking_blocks)), λ x. refl), sound)
        | inr room ↦ granted-Meets want positive room
      ]
    ]
  ]

  Reply-cases : (r : Reply (Unit {0})) → (r ≡ ok tt) ⊎ ((e : Error) × (r ≡ err e))
  Reply-cases (ok tt) = inl refl
  Reply-cases (err e) = inr (e, refl)

  accepted_refused :
      (e : Error) (rs : List Result)
      → (release rs a).0 ≡ err e
      → ¬ (AreReleasable total (is_free a) rs)
  accepted_refused e rs q (f, d, h) =
      let taken =
        release_allocated a sound.valid.bitmap rs (rw sound.size f) d
          (λ x k. ground (arith, h x k, block_bit-le a.l0 x)) in
      ok-ne-err e (release rs a).0 taken q

  pub releasing-Meets :
      (rs : List Result) → AreInt64 rs → Meets total (releasing rs) a (perform (releasing rs) a)
  releasing-Meets rs h = elim (Reply-cases (release rs a).0) [
    | inl e ↦
        let (freed, valid) = release-IsFreed rs a sound.valid h e in
        rw e (
          (
            (
              rw⁻¹ sound.size freed.in_range,
              release-AreDisjoint rs a e,
              λ x k. ground (arith, freed.was_allocated x k),
            ),
            λ x. ground (arith, freed.blocks x),
          ),
          record {
            size = freed.total ∙ sound.size;
            valid = valid;
            sums =
                release-IsSummarised rs a sound.valid.bitmap sound.valid.clean sound.sums
                  freed.in_range e;
          },
        )
    | inr (e, q) ↦
        let same = release_refused rs a e q in
        rw (q, same) ((λ k. accepted_refused e rs q k, λ x. refl), sound)
  ]
