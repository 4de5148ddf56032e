-- ===== src/Alloc/Search/Scan.antt =====
-- The scan of l0 as a whole.
use corgi.Base.{
  ℕ, suc, Bool, true, false, ◌||◌, leb, ◌==◌, ◌+◌, ◌-◌, ◌*◌, ◌/◌, ◌%◌, ◌≤◌, ◌<◌, ◌≡◌, refl, ap, ◌∙◌,
  sym, arith, inl, inr, lt-or-le, le→leb, lt→leb, le→ltb, lt→ltb, ne→==, ltb, if◌then◌else◌, length,
  Option, none, some,
}
use corgi.Alloc.Geometry.{Result}
use corgi.Alloc.Store.{AllocatorV3}
use corgi.Alloc.Mark.Blocks.{block_bit, IsBitmap}
use corgi.Alloc.Mark.Counts.{IsClean}
use corgi.Alloc.Search.{first_free, extend_run, run_from, scan_l0_limited}
use corgi.Alloc.Search.Hits.{NoFree, Hit, first_free-Hit}
use corgi.Alloc.Search.Runs.{extend_run-Run, extend_run-grows}

-- What a search of [lo, hi) for at most `limit` blocks has found: nothing, and then no block there is
-- free; or the first free block of the device from `lo` on, and free blocks from it on.
abbrev pub Scanned : AllocatorV3 → ℕ → ℕ → ℕ → Option Result → Type 0
Scanned a lo hi limit none = NoFree a.l0 lo hi
Scanned a lo hi limit (some r) =
    (lo ≤ r.offset)
    × (0 < r.size)
    × (r.size ≤ limit)
    × (r.offset + r.size ≤ a.total)
    × ((x : ℕ) → r.offset ≤ x → x < r.offset + r.size → block_bit a.l0 x ≡ 1)
    × NoFree a.l0 lo r.offset

-- A run that starts before `hi`.
abbrev pub StartsBelow : ℕ → Option Result → Type 0
StartsBelow hi none = Unit {0}
StartsBelow hi (some r) = r.offset < hi

module _ (a : AllocatorV3) (valid : IsBitmap a.total a.l0) (clean : IsClean a.total a.l0) where
  free-lt : (b : ℕ) → block_bit a.l0 b ≡ 1 → b < a.total
  free-lt b e = elim (lt-or-le b a.total) [
    | inl h ↦ h
    | inr h ↦ absurd (omega (arith, e, clean.beyond b h))
  ]

  run_from-Scanned :
      (from to limit x : ℕ)
      → 0 < limit
      → from ≤ x
      → block_bit a.l0 x ≡ 1
      → NoFree a.l0 from x
      → Scanned a from to limit (run_from to limit a x)
  unfolding run_from
  run_from-Scanned from to limit x pos lo one none_before =
      let w = x / 64 in
      let b = x % 64 in
      let n = length a.l0 - w - 1 in
      let inside : x < a.total = free-lt x one in
      let rounds : length a.l0 - w ≡ suc n = omega (arith, valid.slots) in
      let base : w * 64 + b ≡ x = omega arith in
      let run = extend_run-Run a.l0 valid.words (suc n) w b x limit (omega arith) in
      let k = run.0 in
      let grows : x < x + k =
        rw (← run.1)
          (extend_run-grows a.l0 valid.words n w b x limit (omega arith) pos (rw base one)) in
      let last : x + k - 1 < a.total =
        free-lt (x + k - 1) (run.2.1 (x + k - 1) (omega arith) (omega arith)) in
      let reach : extend_run (length a.l0 - w) w b x limit a.l0 ≡ x + k =
        ap (λ t. extend_run t w b x limit a.l0) rounds ∙ run.1 in
      elim (lt-or-le x to) [
        | inr beyond ↦ rw (le→leb to x beyond) (λ y p q. none_before y p (omega arith))
        | inl before ↦
            rw
              (
                reach,
                lt→leb to x before,
                lt→leb a.total x inside,
                le→ltb a.total (x + k) (omega arith),
                lt→leb (x + k) x grows,
              )
              (
                lo,
                omega arith,
                omega (arith, run.2.0),
                omega arith,
                λ y p q. run.2.1 y (omega arith) (omega arith),
                none_before,
              )
      ]

  -- What the scan does with the first free block of [from, hi), if there is one.
  from_Hit-Scanned :
      (from to hi limit : ℕ) (o : Option ℕ)
      → 0 < limit
      → to ≤ hi
      → Hit a.l0 from hi o
      → Scanned a from to limit (elim o [ none ↦ none | some x ↦ run_from to limit a x ])
  from_Hit-Scanned from to hi limit none pos h hit = λ x p q. hit x p (omega arith)
  from_Hit-Scanned from to hi limit (some x) pos h hit =
      run_from-Scanned from to limit x pos hit.0 hit.2 hit.3

  -- No block beyond the device is free, so the search may as well end at its last block.
  Scanned-clip :
      (from to to' limit : ℕ) (o : Option Result)
      → a.total ≤ to'
      → Scanned a from to' limit o
      → Scanned a from to limit o
  Scanned-clip from to to' limit none h s = λ x p q. elim (lt-or-le x to') [
    | inl near ↦ s x p near
    | inr far ↦ clean.beyond x (omega arith)
  ]
  Scanned-clip from to to' limit (some r) h s = s

  abbrev scan_within : ℕ → ℕ → ℕ → Option Result
  scan_within from to limit = elim (first_free a.l0 from to) [
    | none ↦ none
    | some x ↦ run_from to limit a x
  ]

  scan_within-Scanned :
      (from to limit : ℕ)
      → 0 < limit
      → from < to
      → Scanned a from to limit (scan_within from to limit)
  scan_within-Scanned from to limit pos h =
      from_Hit-Scanned from to ((to - 1) / 64 * 64 + 64) limit (first_free a.l0 from to) pos
        (omega arith) (first_free-Hit a.l0 valid.words from to h)

  scan_l0_limited_within :
      (from to to' limit : ℕ)
      → from < to
      → from < a.total
      → 0 < limit
      → (if ltb a.total to then a.total else to) ≡ to'
      → scan_within from to' limit ≡ scan_l0_limited from to limit a
  unfolding scan_l0_limited
  scan_l0_limited_within from to to' limit before on pos e =
      rw (lt→leb to from before, lt→leb a.total from on, ne→== limit 0 (omega arith))
        (ap (λ t. scan_within from t limit) (sym e))

  pub scan_l0_limited-Scanned :
      (from to limit : ℕ) → 0 < limit → Scanned a from to limit (scan_l0_limited from to limit a)
  scan_l0_limited-Scanned from to limit pos = elim (lt-or-le from to) [
    | inr past ↦ unfold scan_l0_limited in rw (le→leb to from past) (λ x p q. absurd (omega arith))
    | inl before ↦ elim (lt-or-le from a.total) [
      | inr off ↦
          unfold scan_l0_limited in
          rw (lt→leb to from before, le→leb a.total from off)
            (λ x p q. clean.beyond x (omega arith))
      | inl on ↦ elim (lt-or-le a.total to) [
        | inl cut ↦
            rw
              (← scan_l0_limited_within from to a.total limit before on pos
                (rw (lt→ltb a.total to cut) refl))
              (Scanned-clip from to a.total limit _ (omega arith)
                (scan_within-Scanned from a.total limit pos on))
        | inr whole ↦
            rw
              (← scan_l0_limited_within from to to limit before on pos
                (rw (le→ltb a.total to whole) refl))
              (scan_within-Scanned from to limit pos before)
      ]
    ]
  ]

  unless :
      (hi : ℕ) (c : Bool) (o : Option Result)
      → StartsBelow hi o
      → StartsBelow hi (if c then none else o)
  unless hi true o h = tt
  unless hi false o h = h

  run_from-StartsBelow : (to hi limit x : ℕ) → to ≤ hi → StartsBelow hi (run_from to limit a x)
  unfolding run_from
  run_from-StartsBelow to hi limit x h = elim (lt-or-le x to) [
    | inr beyond ↦ rw (le→leb to x beyond) tt
    | inl before ↦
        let w = x / 64 in
        let reach = extend_run (length a.l0 - w) w (x % 64) x limit a.l0 in
        let run_end = if ltb a.total reach then a.total else reach in
        let run : Option Result = some (record { offset = x; size = run_end - x }) in
        unless hi (leb to x || leb a.total x) (if leb run_end x then none else run)
          (unless hi (leb run_end x) run (omega arith))
  ]

  from_StartsBelow :
      (to hi limit : ℕ) (o : Option ℕ)
      → to ≤ hi
      → StartsBelow hi (elim o [ none ↦ none | some x ↦ run_from to limit a x ])
  from_StartsBelow to hi limit none h = tt
  from_StartsBelow to hi limit (some x) h = run_from-StartsBelow to hi limit x h

  -- On a well-formed and clean bitmap and for a positive limit, the scan finds the first free
  -- block of [from, to), which lies before `to`, with a run of free blocks from it on, within the
  -- limit and the device; or nothing, and then no block of [from, to) is free.
  pub scan_l0_limited-StartsBelow :
      (from to limit : ℕ)
      → 0 < limit
      → Scanned a from to limit (scan_l0_limited from to limit a)
        × StartsBelow to (scan_l0_limited from to limit a)
  unfolding scan_l0_limited
  scan_l0_limited-StartsBelow from to limit pos =
      let cut = if ltb a.total to then a.total else to in
      (
        scan_l0_limited-Scanned from to limit pos,
        unless to (leb to from || leb a.total from || limit == 0) (scan_within from cut limit)
            (from_StartsBelow cut to limit (first_free a.l0 from cut) (ground arith)),
      )
