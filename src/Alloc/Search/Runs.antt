-- ===== src/Alloc/Search/Runs.antt =====
-- The second step of the scan of l0: how far the run of free blocks goes.
use corgi.Base.{
  ℕ, zero, suc, ◌+◌, ◌-◌, ◌*◌, ◌/◌, ◌^◌, ◌≤◌, ◌<◌, ◌≡◌, refl, ap, ◌∙◌, List, arith, inl, inr,
  lt-or-le, ltb, ◌||◌, if◌then◌else◌, ◌==◌, get_or, Bool-cases,
}
use corgi.Base.Word.{
  bit_at, bit_at-le, bit_at-complement, complement, trailing_zeros, bit_at-trailing,
  bit_at-below_trailing,
}
use corgi.Alloc.Mark.Words.{AreWords}
use corgi.Alloc.Mark.Blocks.{block_bit}
use corgi.Alloc.Search.{extend_run}
use corgi.Alloc.Search.Hits.{shr-lt, word_from}

module _ (l0 : List ℕ) (words : AreWords l0) where
  -- `k` blocks from `p` on are free, and no more than `cap` of them are taken.
  abbrev pub Run : ℕ → ℕ → ℕ → Type 0
  Run p cap k = (k ≤ cap) × ((x : ℕ) → p ≤ x → x < p + k → block_bit l0 x ≡ 1)

  abbrev ones_from : ℕ → ℕ → ℕ
  ones_from w b = trailing_zeros 64 (complement 64 (get_or l0 w 0 / 2 ^ b))

  -- How far one word takes the run.
  abbrev run_step : ℕ → ℕ → ℕ → ℕ
  run_step w b cap =
      let ones = ones_from w b in
      let within = if ltb (64 - b) ones then 64 - b else ones in
      if ltb cap within then cap else within

  run_step_bounds :
      (w b cap : ℕ)
      → (run_step w b cap ≤ cap) × (run_step w b cap ≤ 64 - b) × (run_step w b cap ≤ ones_from w b)
  run_step_bounds w b cap = ground arith

  run_step-free :
      (w b m : ℕ)
      → m ≤ 64 - b
      → m ≤ ones_from w b
      → (x : ℕ) → w * 64 + b ≤ x
      → x < w * 64 + b + m
      → block_bit l0 x ≡ 1
  run_step-free w b m p q x lo hi =
      let j = x - w * 64 - b in
      let word = get_or l0 w 0 / 2 ^ b in
      ap (block_bit l0) {x = x} {y = w * 64 + b + j} (omega arith)
      ∙ word_from l0 words w b j (omega arith)
      ∙ omega (
        arith,
        bit_at-below_trailing 64 (complement 64 word) j (omega arith),
        bit_at-complement 64 word j (shr-lt (get_or l0 w 0) b (words w)) (omega arith),
        bit_at-le word j,
      )

  extend_run-suc :
      (n w b e cap : ℕ)
      → extend_run (suc n) w b e cap l0 ≡ (
          if cap == 0
          then e
          else if ltb (run_step w b cap) (64 - b) || cap - run_step w b cap == 0
          then e + run_step w b cap
          else extend_run n (w + 1) 0 (e + run_step w b cap) (cap - run_step w b cap) l0)
  unfolding extend_run
  extend_run-suc n w b e cap = refl

  pub extend_run-Run :
      (n w b e cap : ℕ)
      → b < 64
      → (k : ℕ) × (extend_run n w b e cap l0 ≡ e + k) × Run (w * 64 + b) cap k
  extend_run-Run zero w b e cap h =
      (0, unfold extend_run in omega arith, (omega arith, λ x p q. absurd (omega arith)))
  extend_run-Run (suc n) w b e cap h =
      let m = run_step w b cap in
      let bounds = run_step_bounds w b cap in
      let here = run_step-free w b m bounds.1 bounds.2 in
      elim (Bool-cases (cap == 0)) [
        | inl spent ↦ (
          0,
          rw (extend_run-suc n w b e cap, spent) (omega arith),
          (omega arith, λ x p q. absurd (omega arith)),
        )
        | inr left ↦ elim (Bool-cases (ltb m (64 - b) || cap - m == 0)) [
          | inl stop ↦ (m, rw (extend_run-suc n w b e cap, left, stop) refl, (bounds.0, here))
          | inr go ↦
              let rest = extend_run-Run n (w + 1) 0 (e + m) (cap - m) (omega arith) in
              let whole : m ≡ 64 - b = ground arith in
              (
                m + rest.0,
                rw (extend_run-suc n w b e cap, left, go) (rest.1 ∙ omega arith),
                (
                  omega (arith, rest.2.0, bounds.0),
                  λ x p q. elim (lt-or-le x (w * 64 + b + m)) [
                    | inl near ↦ here x p near
                    | inr far ↦ rest.2.1 x (omega arith) (omega arith)
                  ],
                ),
              )
        ]
      ]

  ones_from-pos : (w b : ℕ) → b < 64 → block_bit l0 (w * 64 + b) ≡ 1 → 0 < ones_from w b
  ones_from-pos w b h one = elim (lt-or-le 0 (ones_from w b)) [
    | inl p ↦ p
    | inr p ↦
        let word = get_or l0 w 0 / 2 ^ b in
        absurd (
          omega (
            arith,
            one,
            ap (block_bit l0) {x = w * 64 + b + 0} {y = w * 64 + b} (omega arith),
            word_from l0 words w b 0 (omega arith),
            bit_at-complement 64 word 0 (shr-lt (get_or l0 w 0) b (words w)) (omega arith),
            bit_at-trailing 64 (complement 64 word) (omega arith),
            ap (bit_at (complement 64 word)) {x = ones_from w b} {y = 0} (omega arith),
          ))
  ]

  -- The run has at least the block that it starts from.
  pub extend_run-grows :
      (n w b e cap : ℕ)
      → b < 64
      → 0 < cap
      → block_bit l0 (w * 64 + b) ≡ 1
      → e < extend_run (suc n) w b e cap l0
  extend_run-grows n w b e cap h c one =
      let m = run_step w b cap in
      let pos : 0 < m = ground (arith, ones_from-pos w b h one) in
      rw (extend_run-suc n w b e cap)
        (ground (arith, pos, extend_run-Run n (w + 1) 0 (e + m) (cap - m)))
