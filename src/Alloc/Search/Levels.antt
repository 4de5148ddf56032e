-- ===== src/Alloc/Search/Levels.antt =====
-- nextFreeRunFromLocked over both summary levels, against the blocks.
use corgi.Base.{
  ℕ, Bool, ◌+◌, ◌-◌, ◌*◌, ◌/◌, ◌%◌, ◌^◌, ◌≤◌, ◌<◌, ◌≡◌, refl, ap, ap₂, ◌∙◌, arith, inl, inr,
  lt-or-le, ◌==◌, ==→eq, Bool-cases, if◌then◌else◌, ltb, leb, ◌||◌, min, max, Option, none, some,
  length,
}
use corgi.Alloc.Geometry.{Result, min_int64}
use corgi.Alloc.Geometry.Masks.{min_int64_lem}
use corgi.Alloc.Store.{AllocatorV3}
use corgi.Alloc.Mark.Blocks.{block_bit, IsBitmap}
use corgi.Alloc.Mark.Counts.{IsClean}
use corgi.Alloc.Summary.Level1.{Tells, entry1}
use corgi.Alloc.Summary.Level2.{entry2}
use corgi.Alloc.Summary.Refresh.{IsSummarised}
use corgi.Alloc.Search.{
  free_entry_run, search_l1_entry, search_l1_slots, search_l2_entry, scan_l0_limited, next_free_run,
}
use corgi.Alloc.Search.Scan.{Scanned, scan_l0_limited-Scanned}
use corgi.Alloc.Search.Segments.{Scanned-move, in_words, in_words-Scanned}

module _ (a : AllocatorV3) (valid : IsBitmap a.total a.l0) (clean : IsClean a.total a.l0)
    (sums : IsSummarised a) (from limit : ℕ) (pos : 0 < limit) (small : limit < 2 ^ 63) where
  abbrev latest : ℕ → ℕ
  latest start = if ltb start from then from else start

  latest-max : (start : ℕ) → latest start ≡ max from start
  latest-max start = ground arith

  abbrev cut_run : ℕ → ℕ → Option Result
  cut_run start size = if size == 0 then none else some (record { offset = start; size = size })

  free_entry_run-cut :
      (start end : ℕ)
      → end ≤ a.total
      → free_entry_run from limit start end
        ≡ cut_run (max from start) (min limit (end - max from start))
  unfolding free_entry_run
  free_entry_run-cut start end h =
      ap (λ t. cut_run t (min_int64 limit (end - t))) (latest-max start)
      ∙ ap (cut_run (max from start))
          (min_int64_lem limit (end - max from start) small (omega (arith, valid.small)))

  free_entry_run-Scanned :
      (start end hi : ℕ)
      → end ≤ a.total
      → min hi a.total ≤ end
      → ((b : ℕ) → start ≤ b → b < end → block_bit a.l0 b ≡ 1)
      → Scanned a (max from start) hi limit (free_entry_run from limit start end)
  free_entry_run-Scanned start end hi h k free =
      let at = max from start in
      elim (Bool-cases (min limit (end - at) == 0)) [
        | inl e ↦
            rw (free_entry_run-cut start end h, e)
              (λ x p q. clean.beyond x (omega (arith, ==→eq (min limit (end - at)) 0 e)))
        | inr e ↦
            rw (free_entry_run-cut start end h, e)
              (
                omega arith,
                ground arith,
                omega arith,
                ground arith,
                λ x p q. free x (omega arith) (omega arith),
                λ x p q. absurd (omega arith),
              )
      ]

  abbrev clipped : ℕ → ℕ
  clipped end = if ltb a.total end then a.total else end

  clipped-min : (end : ℕ) → clipped end ≡ min a.total end
  clipped-min end = ground arith

  -- What a search says of an entry that is FULL, FREE or neither, if `deeper` searches below it.
  abbrev by_entry : ℕ → ℕ → ℕ → Option Result → Option Result
  by_entry entry start unit deeper =
      if entry == 0
      then none
      else if entry == 3
      then free_entry_run from limit start (clipped (start + unit))
      else deeper

  by_entry-Scanned :
      (entry start unit : ℕ) (deeper : Option Result)
      → Tells entry a.total a.l0 start unit
      → Scanned a (max from start) (start + unit) limit deeper
      → Scanned a (max from start) (start + unit) limit (by_entry entry start unit deeper)
  by_entry-Scanned entry start unit deeper tells below = elim (Bool-cases (entry == 0)) [
    | inl full ↦ rw full (λ x p q. elim (lt-or-le x a.total) [
      | inl inside ↦ tells.full (==→eq entry 0 full) x (omega arith) q inside
      | inr outside ↦ clean.beyond x outside
    ])
    | inr e ↦ elim (Bool-cases (entry == 3)) [
      | inr partial ↦ rw (e, partial) below
      | inl free ↦
          rw (e, free)
            (free_entry_run-Scanned start (clipped (start + unit)) (start + unit)
              (omega (arith, clipped-min (start + unit)))
              (omega (arith, clipped-min (start + unit)))
              (λ b p q.
                tells.free (==→eq entry 3 free) b p (omega (arith, clipped-min (start + unit)))
                  (omega (arith, clipped-min (start + unit)))))
    ]
  ]

  abbrev first_of : ℕ → ℕ
  first_of start = if ltb from start then start else from

  abbrev last_slot : ℕ → ℕ → ℕ
  last_slot len end = if ltb len end then len else end

  last_slot-min : (len end : ℕ) → last_slot len end ≡ min len end
  last_slot-min len end = ground arith

  search_l1_entry-by :
      (ss : ℕ)
      → search_l1_entry from limit a ss
        ≡ by_entry
            (entry1 a ss)
            (ss * 512)
            512
            (scan_l0_limited (max from (ss * 512)) (min (length a.l0) (ss * 8 + 8) * 64) limit a)
  unfolding search_l1_entry
  search_l1_entry-by ss =
      ap
        (λ start.
          by_entry (entry1 a ss) start 512
            (scan_l0_limited (first_of start) (last_slot (length a.l0) (ss * 8 + 8) * 64) limit a))
        {x = ss * 8 * 64} {y = ss * 512} (omega arith)
      ∙ ap₂
          (λ first last.
            by_entry (entry1 a ss) (ss * 512) 512 (scan_l0_limited first (last * 64) limit a))
          {x = first_of (ss * 512)} {y = max from (ss * 512)}
          {u = last_slot (length a.l0) (ss * 8 + 8)} {v = min (length a.l0) (ss * 8 + 8)}
          (ground arith) (last_slot-min (length a.l0) (ss * 8 + 8))

  search_l1_entry-Scanned :
      (ss : ℕ)
      → Scanned a (max from (ss * 512)) ((ss + 1) * 512) limit (search_l1_entry from limit a ss)
  search_l1_entry-Scanned ss =
      let to = min (length a.l0) (ss * 8 + 8) * 64 in
      let deeper = scan_l0_limited (max from (ss * 512)) to limit a in
      let found = by_entry (entry1 a ss) (ss * 512) 512 deeper in
      rw (search_l1_entry-by ss) (
        Scanned-move a clean (max from (ss * 512)) (max from (ss * 512)) ((ss + 1) * 512)
          (ss * 512 + 512) limit found refl (omega arith)
          (by_entry-Scanned (entry1 a ss) (ss * 512) 512 deeper (sums.tells1 ss) (
            Scanned-move a clean (max from (ss * 512)) (max from (ss * 512)) (ss * 512 + 512) to
              limit deeper refl (omega (arith, valid.slots))
              (scan_l0_limited-Scanned a valid clean (max from (ss * 512)) to limit pos))))

  search_l1_slots-Scanned :
      (start end init : ℕ)
      → init ≤ 32
      → (start * 32 + init) * 512 ≤ max from (start * 16384)
      → Scanned a
          (max from (start * 16384))
          ((start + (end - start)) * 16384)
          limit
          (search_l1_slots from limit a start end init)
  unfolding search_l1_slots
  search_l1_slots-Scanned start end init h passed =
      let found =
        in_words a clean from limit (search_l1_entry from limit a) start init (end - start) in
      Scanned-move a clean (max from (start * 16384)) (max from (start * 32 * 512))
        ((start + (end - start)) * 16384) ((start + (end - start)) * 32 * 512) limit found
        (omega arith) (omega arith)
        (in_words-Scanned a clean from limit (λ ss. ss * 512) (search_l1_entry from limit a)
          (λ ss. omega arith) search_l1_entry-Scanned start init (end - start) h
          (omega (arith, passed)))

  -- Where the words of an entry of l2 begin to be searched, and at which entry.
  abbrev is_first : ℕ → Bool
  is_first k = k == from / 64 / 8 / 32 / 8

  abbrev start_slot : ℕ → ℕ
  start_slot k = if is_first k then from / 64 / 8 / 32 else k * 8

  abbrev start_entry : ℕ → ℕ
  start_entry k = if is_first k then from / 64 / 8 % 32 else 0

  search_l2_entry-by :
      (k : ℕ)
      → search_l2_entry from limit a k
        ≡ by_entry (entry2 a k) (k * 131072) 131072 (
            search_l1_slots from limit a
              (start_slot k)
              (min (length a.l1) (k * 8 + 8))
              (start_entry k))
  unfolding search_l2_entry
  search_l2_entry-by k =
      ap
        (λ last.
          by_entry (entry2 a k) (k * 131072) 131072
            (search_l1_slots from limit a (start_slot k) last (start_entry k)))
        (last_slot-min (length a.l1) (k * 8 + 8))

  search_l2_entry-Scanned :
      (k : ℕ)
      → Scanned a (max from (k * 131072)) ((k + 1) * 131072) limit (search_l2_entry from limit a k)
  search_l2_entry-Scanned k =
      let end = min (length a.l1) (k * 8 + 8) in
      let deeper = search_l1_slots from limit a (start_slot k) end (start_entry k) in
      let found = by_entry (entry2 a k) (k * 131072) 131072 deeper in
      rw (search_l2_entry-by k) (
        Scanned-move a clean (max from (k * 131072)) (max from (k * 131072)) ((k + 1) * 131072)
          (k * 131072 + 131072) limit found refl (omega arith)
          (by_entry-Scanned (entry2 a k) (k * 131072) 131072 deeper (sums.tells2 k) (
            Scanned-move a clean (max from (k * 131072)) (max from (start_slot k * 16384))
              (k * 131072 + 131072) ((start_slot k + (end - start_slot k)) * 16384) limit deeper
              (ground arith) (ground (arith, sums.covers1))
              (search_l1_slots-Scanned (start_slot k) end (start_entry k) (ground arith)
                (ground arith)))))

  abbrev l2_words : Option Result
  l2_words =
      let k = from / 64 / 8 / 32 / 8 in
      in_words a clean from limit (search_l2_entry from limit a) (k / 32) (k % 32)
        (length a.l2 - k / 32)

  next_free_run-words :
      next_free_run from limit a ≡ (if leb a.total from || length a.l0 == 0 then none else l2_words)
  unfolding next_free_run
  next_free_run-words = refl

  l2_words-Scanned : Scanned a from a.total limit l2_words
  l2_words-Scanned =
      let k = from / 64 / 8 / 32 / 8 in
      let n = length a.l2 - k / 32 in
      Scanned-move a clean from (max from (k / 32 * 32 * 131072)) a.total
        ((k / 32 + n) * 32 * 131072) limit l2_words (omega arith) (omega (arith, sums.covers2))
        (in_words-Scanned a clean from limit (λ e. e * 131072) (search_l2_entry from limit a)
          (λ e. omega arith) search_l2_entry-Scanned (k / 32) (k % 32) n (omega arith)
          (omega arith))

  -- Where the bitmap is well-formed and clean and both summary levels tell the truth, and for a
  -- positive limit below 2^63, the search over both levels finds the first free block of the
  -- device from `from` on with a run of free blocks from it on, within the limit and the device;
  -- or nothing, and then no block from `from` on is free.
  pub next_free_run-Scanned : Scanned a from a.total limit (next_free_run from limit a)
  next_free_run-Scanned = elim (Bool-cases (leb a.total from || length a.l0 == 0)) [
    | inl empty ↦
        rw (next_free_run-words, empty) (λ x p q. absurd (ground (arith, empty, valid.slots)))
    | inr more ↦ rw (next_free_run-words, more) l2_words-Scanned
  ]
