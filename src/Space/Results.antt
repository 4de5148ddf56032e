-- ===== src/Space/Results.antt =====
-- mergeResults, setSpaceBits and writeAtFull.
use mathlib.Core.Path.{subst}
use corgi.Base.{
  ℕ, ◌+◌, ◌^◌, ◌≤◌, ◌<◌, ◌≡◌, refl, ap, ◌∙◌, sym, Bool, true, false, ◌||◌, List, [], ◌∷◌, ◌==◌,
  arith, Bool-cases, inl, inr,
}
use corgi.Alloc.Geometry.{Result, add64}
use corgi.Alloc.Api.Valid.{Fits, covered, holds}
use corgi.Alloc.Api.Extents.{total_size}
use corgi.Space.{merge_from, merge_results}

-- No extent ends where the next one starts.
abbrev pub AreApart : List Result → Type 0
AreApart [] = Unit {0}
AreApart (r ∷ []) = Unit {0}
AreApart (r ∷ s ∷ rs) = (r.offset + r.size ≡ s.offset → ⊥) × AreApart (s ∷ rs)

-- `out` has the blocks of `rs` in extents that are apart.
pub record IsMerged (total : ℕ) (rs out : List Result) : Type 0 where
  pub fits : Fits total out
  pub blocks : (x : ℕ) → covered out x ≡ covered rs x
  pub sizes : total_size out ≡ total_size rs
  pub apart : AreApart out

merge_from-head :
    (cur : Result) (rs : List Result)
    → (n : ℕ) × (tl : List Result) × (merge_from cur rs ≡ record cur { size = n } ∷ tl)
unfolding merge_from
merge_from-head cur [] = (cur.size, [], refl)
merge_from-head cur (r ∷ rs) = elim (Bool-cases (add64 cur.offset cur.size == r.offset)) [
  | inl e ↦ rw e (merge_from-head (record cur { size = add64 cur.size r.size }) rs)
  | inr e ↦ rw e (cur.size, merge_from r rs, refl)
]

merge_from-join :
    (cur r : Result) (rs : List Result)
    → add64 cur.offset cur.size == r.offset ≡ true
    → merge_from cur (r ∷ rs) ≡ merge_from (record cur { size = add64 cur.size r.size }) rs
unfolding merge_from
merge_from-join cur r rs e = rw e refl

merge_from-apart :
    (cur r : Result) (rs : List Result)
    → add64 cur.offset cur.size == r.offset ≡ false
    → merge_from cur (r ∷ rs) ≡ cur ∷ merge_from r rs
unfolding merge_from
merge_from-apart cur r rs e = rw e refl

AreApart-cons :
    (cur r : Result) (n : ℕ) (tl out : List Result)
    → out ≡ record r { size = n } ∷ tl
    → (cur.offset + cur.size ≡ r.offset → ⊥)
    → AreApart out
    → AreApart (cur ∷ out)
AreApart-cons cur r n tl out e ne h =
    subst (λ t. AreApart (cur ∷ t)) (sym e) (ne, subst (λ t. AreApart t) e h)

joined_block :
    (cur r : Result) (x : ℕ) (rest : Bool)
    → cur.offset + cur.size ≡ r.offset
    → cur.size + r.size < 2 ^ 64
    → holds (record cur { size = add64 cur.size r.size }) x || rest
      ≡ holds cur x || (holds r x || rest)
joined_block cur r x rest e h =
    let whole : add64 cur.size r.size ≡ cur.size + r.size = omega arith in rw whole (ground arith)

joined_size :
    (cur r : Result) (rs out : List Result)
    → total_size out ≡ total_size (record cur { size = add64 cur.size r.size } ∷ rs)
    → cur.size + r.size < 2 ^ 64
    → total_size out ≡ total_size (cur ∷ r ∷ rs)
unfolding total_size
joined_size cur r rs out e h = e ∙ omega arith

apart_size :
    (cur : Result) (rs out : List Result)
    → total_size out ≡ total_size rs
    → total_size (cur ∷ out) ≡ total_size (cur ∷ rs)
unfolding total_size
apart_size cur rs out e = ap (λ t. cur.size + t) e

merge_from-IsMerged :
    (total : ℕ) (cur : Result) (rs : List Result)
    → total ≤ 2 ^ 62
    → Fits total (cur ∷ rs)
    → IsMerged total (cur ∷ rs) (merge_from cur rs)
merge_from-IsMerged total cur [] h f =
    unfold merge_from in record { fits = f; blocks = λ x. refl; sizes = refl; apart = tt }
merge_from-IsMerged total cur (r ∷ rs) h f =
    elim (Bool-cases (add64 cur.offset cur.size == r.offset)) [
      | inl e ↦
          let joined : Result = record cur { size = add64 cur.size r.size } in
          let meet : cur.offset + cur.size ≡ r.offset = ground (arith, e, f, h) in
          let rest =
            merge_from-IsMerged total joined rs h
              (omega (arith, f, h), omega (arith, f, h, meet), f.2.2) in
          rw (merge_from-join cur r rs e) (record {
            fits = rest.fits;
            blocks =
                λ x. rest.blocks x ∙ joined_block cur r x (covered rs x) meet (omega (arith, f, h));
            sizes = joined_size cur r rs (merge_from joined rs) rest.sizes (omega (arith, f, h));
            apart = rest.apart;
          })
      | inr e ↦
          let rest = merge_from-IsMerged total r rs h f.2 in
          let (n, tl, shape) = merge_from-head r rs in
          rw (merge_from-apart cur r rs e) (record {
            fits = (f.0, f.1, rest.fits);
            blocks = λ x. ap (λ t. holds cur x || t) (rest.blocks x);
            sizes = apart_size cur (r ∷ rs) (merge_from r rs) rest.sizes;
            apart =
                AreApart-cons cur r n tl (merge_from r rs) shape (λ q. ground (arith, e, q, f, h))
                  rest.apart;
          })
    ]

-- For nonempty extents inside a device of at most 2^62, mergeResults gives extents with the same
-- blocks and the same total size, of which none ends where the next one starts.
pub merge_results-IsMerged :
    (total : ℕ) (rs : List Result)
    → total ≤ 2 ^ 62
    → Fits total rs
    → IsMerged total rs (merge_results rs)
unfolding merge_results
merge_results-IsMerged total [] h f = record {
  fits = tt;
  blocks = λ x. refl;
  sizes = refl;
  apart = tt;
}
merge_results-IsMerged total (r ∷ rs) h f = merge_from-IsMerged total r rs h f
