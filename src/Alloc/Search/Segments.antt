-- ===== src/Alloc/Search/Segments.antt =====
-- A search over consecutive segments of the device, in words of 32 entries.
use corgi.Base.{
  ℕ, zero, suc, ◌+◌, ◌-◌, ◌*◌, ◌≤◌, ◌≡◌, refl, ap, arith, inl, inr, lt-or-le, ◌==◌, ==→eq,
  Bool-cases, if◌then◌else◌, min, max, Option, none, some,
}
use corgi.Alloc.Geometry.{Result}
use corgi.Alloc.Store.{AllocatorV3}
use corgi.Alloc.Mark.Counts.{IsClean}
use corgi.Alloc.Search.{first_some}
use corgi.Alloc.Search.Scan.{Scanned}

module _ (a : AllocatorV3) (clean : IsClean a.total a.l0) where
  -- Both bounds of a search may move where no block of the device is between.
  pub Scanned-move :
      (lo lo' hi hi' limit : ℕ) (o : Option Result)
      → lo ≡ lo'
      → min hi a.total ≤ hi'
      → Scanned a lo' hi' limit o
      → Scanned a lo hi limit o
  Scanned-move lo lo' hi hi' limit none e h s = λ x p q. elim (lt-or-le x hi') [
    | inl near ↦ s x (omega arith) near
    | inr far ↦ clean.beyond x (omega arith)
  ]
  Scanned-move lo lo' hi hi' limit (some r) e h s =
      (omega (arith, s.0), s.1, s.2, s.3, s.4, λ x p q. s.5 x (omega arith) q)

  Scanned-then :
      (lo mid hi limit : ℕ) (o rest : Option Result)
      → Scanned a lo mid limit o
      → Scanned a (max lo mid) hi limit rest
      → Scanned a lo hi limit (elim o [ some x ↦ some x | none ↦ rest ])
  Scanned-then lo mid hi limit (some x) rest s t = s
  Scanned-then lo mid hi limit none none s t =
      λ x p q. elim (lt-or-le x mid) [ inl near ↦ s x p near | inr far ↦ t x (omega arith) q ]
  Scanned-then lo mid hi limit none (some r) s t = (
    omega (arith, t.0),
    t.1,
    t.2,
    t.3,
    t.4,
    λ x p q. elim (lt-or-le x mid) [ inl near ↦ s x p near | inr far ↦ t.5 x (omega arith) q ],
  )

  module _ (from limit : ℕ) where
    -- Segment `i` goes from `bound i` to `bound (i + 1)`.
    pub first_some-Scanned :
        (bound : ℕ → ℕ) (f : ℕ → Option Result)
        → ((i : ℕ) → bound i ≤ bound (i + 1))
        → ((i : ℕ) → Scanned a (max from (bound i)) (bound (i + 1)) limit (f i))
        → (n i : ℕ) → Scanned a (max from (bound i)) (bound (i + n)) limit (first_some n i f)
    unfolding first_some
    first_some-Scanned bound f grows each zero i =
        λ x p q. absurd (omega (arith, ap bound {x = i + 0} {y = i} (omega arith)))
    first_some-Scanned bound f grows each (suc n) i =
        Scanned-then (max from (bound i)) (bound (i + 1)) (bound (i + suc n)) limit (f i)
          (first_some n (i + 1) f) (each i)
          (Scanned-move (max (max from (bound i)) (bound (i + 1))) (max from (bound (i + 1)))
            (bound (i + suc n)) (bound (i + 1 + n)) limit (first_some n (i + 1) f)
            (omega (arith, grows i))
            (omega (arith, ap bound {x = i + suc n} {y = i + 1 + n} (omega arith)))
            (first_some-Scanned bound f grows each n (i + 1)))

    -- The words of 32 entries from word `start` on, where the entries of word `start` before `init`
    -- end before `from`.
    abbrev pub start_bit : ℕ → ℕ → ℕ → ℕ
    start_bit start init w = if w == start then init else 0

    abbrev pub in_words : (ℕ → Option Result) → ℕ → ℕ → ℕ → Option Result
    in_words f start init n = first_some n start λ w.
        first_some (32 - start_bit start init w) (start_bit start init w) λ bit. f (w * 32 + bit)

    module _ (bound : ℕ → ℕ) (f : ℕ → Option Result) (grows : (i : ℕ) → bound i ≤ bound (i + 1))
        (each : (i : ℕ) → Scanned a (max from (bound i)) (bound (i + 1)) limit (f i)) where
      grows_by : (n i : ℕ) → bound i ≤ bound (i + n)
      grows_by zero i = omega (arith, ap bound {x = i + 0} {y = i} (omega arith))
      grows_by (suc n) i = omega (
        arith,
        grows i,
        grows_by n (i + 1),
        ap bound {x = i + suc n} {y = i + 1 + n} (omega arith),
      )

      entries-Scanned :
          (w s : ℕ)
          → s ≤ 32
          → bound (w * 32 + s) ≤ max from (bound (w * 32))
          → Scanned a
              (max from (bound (w * 32)))
              (bound ((w + 1) * 32))
              limit
              (first_some (32 - s) s (λ bit. f (w * 32 + bit)))
      entries-Scanned w s h passed =
          Scanned-move (max from (bound (w * 32))) (max from (bound (w * 32 + s)))
            (bound ((w + 1) * 32)) (bound (w * 32 + (s + (32 - s)))) limit
            (first_some (32 - s) s (λ bit. f (w * 32 + bit))) (omega (arith, grows_by s (w * 32)))
            (omega (arith, ap bound {x = (w + 1) * 32} {y = w * 32 + (s + (32 - s))} (omega arith)))
            (first_some-Scanned (λ i. bound (w * 32 + i)) (λ bit. f (w * 32 + bit))
              (λ i. omega (
                arith,
                grows (w * 32 + i),
                ap bound {x = w * 32 + i + 1} {y = w * 32 + (i + 1)} (omega arith),
              ))
              (λ i.
                Scanned-move (max from (bound (w * 32 + i))) (max from (bound (w * 32 + i)))
                  (bound (w * 32 + (i + 1))) (bound (w * 32 + i + 1)) limit (f (w * 32 + i)) refl
                  (omega
                    (arith, ap bound {x = w * 32 + i + 1} {y = w * 32 + (i + 1)} (omega arith)))
                  (each (w * 32 + i)))
              (32 - s) s)

      passed_at :
          (start init w : ℕ)
          → bound (start * 32 + init) ≤ max from (bound (start * 32))
          → bound (w * 32 + start_bit start init w) ≤ max from (bound (w * 32))
      passed_at start init w passed = elim (Bool-cases (w == start)) [
        | inl e ↦
            let same : w ≡ start = ==→eq w start e in
            rw e (
              omega (
                arith,
                passed,
                ap bound {x = w * 32 + init} {y = start * 32 + init} (omega arith),
                ap bound {x = w * 32} {y = start * 32} (omega arith),
              ))
        | inr e ↦ rw e (omega (arith, ap bound {x = w * 32 + 0} {y = w * 32} (omega arith)))
      ]

      pub in_words-Scanned :
          (start init n : ℕ)
          → init ≤ 32
          → bound (start * 32 + init) ≤ max from (bound (start * 32))
          → Scanned a
              (max from (bound (start * 32)))
              (bound ((start + n) * 32))
              limit
              (in_words f start init n)
      in_words-Scanned start init n h passed =
          first_some-Scanned (λ w. bound (w * 32))
            (λ w.
              first_some (32 - start_bit start init w) (start_bit start init w)
                λ bit. f (w * 32 + bit))
            (λ w. omega (
              arith,
              grows_by 32 (w * 32),
              ap bound {x = w * 32 + 32} {y = (w + 1) * 32} (omega arith),
            ))
            (λ w.
              entries-Scanned w (start_bit start init w) (ground arith)
                (passed_at start init w passed))
            n start
