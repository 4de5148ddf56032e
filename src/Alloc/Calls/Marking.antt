-- ===== src/Alloc/Calls/Marking.antt =====
-- The calls of InitAllocated and InitFree against the specification.
use corgi.Base.{
  ℕ, ◌^◌, ◌≤◌, ◌<◌, ◌≡◌, refl, ◌∙◌, true, false, ◌||◌, ◌⊎◌, inl, inr, ◌==◌, arith, Bool-cases,
  lt-or-le,
}
use corgi.Alloc.Geometry.{Result, validate_range, is_negative}
use corgi.Alloc.Store.{AllocatorV3}
use corgi.Alloc.Api.{ok, err, invalid_extent, init_allocated, init_free}
use corgi.Alloc.Api.Ranges.{validate_range_iff}
use corgi.Alloc.Api.Init.{
  init_allocated_lem, init_free_lem, init_allocated-IsSummarised, init_free-IsSummarised,
}
use corgi.Alloc.Spec.{marking_allocated, marking_free, IsInside}
use corgi.Alloc.Calls.{perform, IsSound, Meets}

module _ (total : ℕ) (a : AllocatorV3) (sound : IsSound total a) where
  is_positive_or : (n : ℕ) → ((0 < n) × (n < 2 ^ 63)) ⊎ (n ≡ 0 ⊎ 2 ^ 63 ≤ n)
  is_positive_or n = elim (lt-or-le 0 n) [
    | inr h ↦ inr (inl (omega arith))
    | inl h ↦ elim (lt-or-le n (2 ^ 63)) [ inl k ↦ inl (h, k) | inr k ↦ inr (inr k) ]
  ]

  range_refused :
      (e : Result)
      → e.offset < 2 ^ 64
      → e.size < 2 ^ 64
      → validate_range a.total e.offset e.size ≡ false
      → ¬ (IsInside total e)
  range_refused e p q h inside = ground (
    arith,
    h,
    (validate_range_iff a.total e.offset e.size sound.valid.bitmap.small p q).1
        (inside.0, rw sound.size inside.1),
  )

  -- InitAllocated without blocks, outside the device, and inside it.
  init_allocated_nothing : (o s : ℕ) → s ≡ 0 ⊎ 2 ^ 63 ≤ s → init_allocated o s a ≡ (ok tt, a)
  unfolding init_allocated
  init_allocated_nothing o s h =
      let e : is_negative s || s == 0 ≡ true = ground (arith, h) in rw e refl

  init_allocated_outside :
      (o s : ℕ)
      → 0 < s
      → s < 2 ^ 63
      → validate_range a.total o s ≡ false
      → init_allocated o s a ≡ (err invalid_extent, a)
  unfolding init_allocated
  init_allocated_outside o s p q h =
      let e : is_negative s || s == 0 ≡ false = ground arith in rw (e, h) refl

  pub marking_allocated-Meets :
      (e : Result)
      → e.offset < 2 ^ 64
      → e.size < 2 ^ 64
      → Meets total (marking_allocated e) a (perform (marking_allocated e) a)
  marking_allocated-Meets e p q = elim (is_positive_or e.size) [
    | inr none_asked ↦
        rw (init_allocated_nothing e.offset e.size none_asked) (inl (none_asked, λ x. refl), sound)
    | inl (positive, small) ↦ elim (Bool-cases (validate_range a.total e.offset e.size)) [
      | inr outside ↦
          rw (init_allocated_outside e.offset e.size positive small outside)
            ((λ inside. range_refused e p q outside inside, λ x. refl), sound)
      | inl within ↦
          let inside =
            (validate_range_iff a.total e.offset e.size sound.valid.bitmap.small p q).0 within in
          let (fine, painted, valid) =
            init_allocated_lem e.offset e.size a sound.valid p positive inside.1 in
          rw fine (
            inr ((positive, rw⁻¹ sound.size inside.1), λ x. ground (arith, painted.blocks x)),
            record {
              size = painted.total ∙ sound.size;
              valid = valid;
              sums =
                  init_allocated-IsSummarised e.offset e.size a sound.valid p positive inside.1
                    sound.sums;
            },
          )
    ]
  ]

  -- InitFree without blocks, outside the device, and inside it.
  init_free_nothing : (o s : ℕ) → s ≡ 0 ⊎ 2 ^ 63 ≤ s → init_free o s a ≡ (ok tt, a)
  unfolding init_free
  init_free_nothing o s h = let e : is_negative s || s == 0 ≡ true = ground (arith, h) in rw e refl

  init_free_outside :
      (o s : ℕ)
      → 0 < s
      → s < 2 ^ 63
      → validate_range a.total o s ≡ false
      → init_free o s a ≡ (err invalid_extent, a)
  unfolding init_free
  init_free_outside o s p q h =
      let e : is_negative s || s == 0 ≡ false = ground arith in rw (e, h) refl

  pub marking_free-Meets :
      (e : Result)
      → e.offset < 2 ^ 64
      → e.size < 2 ^ 64
      → Meets total (marking_free e) a (perform (marking_free e) a)
  marking_free-Meets e p q = elim (is_positive_or e.size) [
    | inr none_asked ↦
        rw (init_free_nothing e.offset e.size none_asked) (inl (none_asked, λ x. refl), sound)
    | inl (positive, small) ↦ elim (Bool-cases (validate_range a.total e.offset e.size)) [
      | inr outside ↦
          rw (init_free_outside e.offset e.size positive small outside)
            ((λ inside. range_refused e p q outside inside, λ x. refl), sound)
      | inl within ↦
          let inside =
            (validate_range_iff a.total e.offset e.size sound.valid.bitmap.small p q).0 within in
          let (fine, painted, valid) =
            init_free_lem e.offset e.size a sound.valid p positive inside.1 in
          rw fine (
            inr ((positive, rw⁻¹ sound.size inside.1), λ x. ground (arith, painted.blocks x)),
            record {
              size = painted.total ∙ sound.size;
              valid = valid;
              sums =
                  init_free-IsSummarised e.offset e.size a sound.valid p positive inside.1
                    sound.sums;
            },
          )
    ]
  ]
