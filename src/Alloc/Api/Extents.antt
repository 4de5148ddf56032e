-- ===== src/Alloc/Api/Extents.antt =====
-- Lists of extents: their blocks, their sizes, and appendResult.
use corgi.Base.{
  ℕ, ◌+◌, ◌≤◌, ◌<◌, ◌≡◌, refl, true, false, ◌||◌, List, [], ◌∷◌, ◌==◌, arith, Bool-cases, inl, inr,
  ==→eq, ◌^◌, max,
}
use corgi.Alloc.Geometry.{Result, append_result, append_last, extents_overlap}
use corgi.Alloc.Api.{overlaps_any, any_overlap}
use corgi.Alloc.Api.Valid.{holds, covered, Fits}

unfoldable pub total_size : List Result → ℕ
total_size [] = 0
total_size (r ∷ rs) = r.size + total_size rs

-- No block is in two extents.
abbrev pub AreDisjoint : List Result → Type 0
AreDisjoint [] = Unit {0}
AreDisjoint (r ∷ rs) = ((x : ℕ) → holds r x ≡ true → covered rs x ≡ false) × AreDisjoint rs

abbrev joined : Result → Result → Result
joined x r = record x { size = x.size + r.size }

holds-joined :
    (x r : Result) (b : ℕ)
    → x.offset + x.size ≡ r.offset
    → holds (joined x r) b ≡ holds x b || holds r b
holds-joined x r b e = ground arith

covered-append_last :
    (rs : List Result) (r : Result) (b : ℕ)
    → covered (append_last rs r) b ≡ covered rs b || holds r b
unfolding append_last
covered-append_last [] r b = ground arith
covered-append_last (x ∷ []) r b = elim (Bool-cases (x.offset + x.size == r.offset)) [
  | inl e ↦ rw e (ground (arith, holds-joined x r b (==→eq (x.offset + x.size) r.offset e)))
  | inr e ↦ rw e (ground arith)
]
covered-append_last (x ∷ y ∷ rs) r b = ground (arith, covered-append_last (y ∷ rs) r b)

total_size-append_last :
    (rs : List Result) (r : Result) → total_size (append_last rs r) ≡ total_size rs + r.size
unfolding append_last total_size
total_size-append_last [] r = omega arith
total_size-append_last (x ∷ []) r = ground arith
total_size-append_last (x ∷ y ∷ rs) r = omega (arith, total_size-append_last (y ∷ rs) r)

Fits-append_last :
    (total : ℕ) (rs : List Result) (r : Result)
    → 0 < r.size
    → r.offset + r.size ≤ total
    → Fits total rs
    → Fits total (append_last rs r)
unfolding append_last
Fits-append_last total [] r p q f = (p, q, tt)
Fits-append_last total (x ∷ []) r p q f = elim (Bool-cases (x.offset + x.size == r.offset)) [
  | inl e ↦ rw e (omega arith, omega (arith, ==→eq (x.offset + x.size) r.offset e), tt)
  | inr e ↦ rw e (f.0, f.1, (p, q, tt))
]
Fits-append_last total (x ∷ y ∷ rs) r p q f = (f.0, f.1, Fits-append_last total (y ∷ rs) r p q f.2)

AreDisjoint-append_last :
    (rs : List Result) (r : Result)
    → ((x : ℕ) → holds r x ≡ true → covered rs x ≡ false)
    → AreDisjoint rs
    → AreDisjoint (append_last rs r)
unfolding append_last
AreDisjoint-append_last [] r apart d = (λ x h. refl, tt)
AreDisjoint-append_last (y ∷ []) r apart d = elim (Bool-cases (y.offset + y.size == r.offset)) [
  | inl e ↦ rw e ((λ x h. refl), tt)
  | inr e ↦ rw e ((λ x h. ground (arith, apart x)), ((λ x h. refl), tt))
]
AreDisjoint-append_last (y ∷ z ∷ rs) r apart d = (
  λ x h. ground (arith, covered-append_last (z ∷ rs) r x, d.0 x, apart x),
  AreDisjoint-append_last (z ∷ rs) r (λ x h. ground (arith, apart x)) d.1,
)

module _ (total : ℕ) (rs : List Result) (r : Result) (size : 0 < r.size)
    (fits : r.offset + r.size ≤ total) (small : total ≤ 2 ^ 62) where
  append_result-last : append_result rs r ≡ append_last rs r
  unfolding append_result
  append_result-last = ground arith

  pub covered-append_result : (b : ℕ) → covered (append_result rs r) b ≡ covered rs b || holds r b
  covered-append_result b = rw append_result-last (covered-append_last rs r b)

  pub total_size-append_result : total_size (append_result rs r) ≡ total_size rs + r.size
  total_size-append_result = rw append_result-last (total_size-append_last rs r)

  pub Fits-append_result : Fits total rs → Fits total (append_result rs r)
  Fits-append_result f = rw append_result-last (Fits-append_last total rs r size fits f)

  pub AreDisjoint-append_result :
      ((x : ℕ) → holds r x ≡ true → covered rs x ≡ false)
      → AreDisjoint rs
      → AreDisjoint (append_result rs r)
  AreDisjoint-append_result apart d = rw append_result-last (AreDisjoint-append_last rs r apart d)

-- Two extents that overlap share the later of their first blocks.
overlaps_any-apart :
    (r : Result) (rs : List Result)
    → 0 < r.size
    → (total : ℕ) → Fits total rs
    → ((x : ℕ) → holds r x ≡ true → covered rs x ≡ false)
    → overlaps_any r rs ≡ false
unfolding overlaps_any extents_overlap
overlaps_any-apart r [] p total f apart = refl
overlaps_any-apart r (s ∷ rs) p total f apart = ground (
  arith,
  apart (max r.offset s.offset),
  overlaps_any-apart r rs p total f.2 (λ x h. ground (arith, apart x)),
)

pub any_overlap-disjoint :
    (total : ℕ) (rs : List Result) → Fits total rs → AreDisjoint rs → any_overlap rs ≡ false
unfolding any_overlap
any_overlap-disjoint total [] f d = refl
any_overlap-disjoint total (r ∷ rs) f d =
    rw (overlaps_any-apart r rs f.0 total f.2 d.0) (any_overlap-disjoint total rs f.2 d.1)
