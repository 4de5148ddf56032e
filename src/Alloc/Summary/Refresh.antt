-- ===== src/Alloc/Summary/Refresh.antt =====
-- The two loops of markRangeLocked that refresh the summary levels, and what those say after them.
use mathlib.Core.Path.{subst}
use corgi.Base.{
  ℕ, zero, suc, ◌+◌, ◌-◌, ◌*◌, ◌/◌, ◌%◌, ◌≤◌, ◌<◌, ◌≡◌, refl, ap, ◌∙◌, Bool, List, arith, inl, inr,
  lt-or-le, ltb, leb, if◌then◌else◌, lt→leb, le→leb, le→ltb, lt→ltb, ne→==, ◌⊎◌, length, Bool-cases,
  ◌&&◌, get_or,
}
use corgi.Alloc.Store.{AllocatorV3, update_l1_for_l0_slot, update_l2_for_l1_slot, get_entry}
use corgi.Alloc.Store.Frame.{IsRefreshed, update_l1-IsRefreshed, update_l2-IsRefreshed}
use corgi.Alloc.Mark.{mark_range, refresh_l1, refresh_l2}
use corgi.Alloc.Mark.Blocks.{
  block_bit, IsBitmap, refresh_l1-suc, refresh_l2-suc, refresh_l1-IsRefreshed,
  refresh_l2-IsRefreshed, loop_of-block, loop_of,
}
use corgi.Alloc.Mark.Counts.{IsClean, loop-IsBitmap}
use corgi.Alloc.Summary.Level1.{Tells, entry1, computed, computed-Tells, update_l1-entry}
use corgi.Alloc.Summary.Level2.{
  Covers1, entry2, computed2, computed2-Tells, update_l2-entry, l1-update_l2, l2-update_l1,
}

pub refresh_l1-entry :
    (n ss t : ℕ) (a : AllocatorV3)
    → ss + n ≤ length a.l1 * 32
    → entry1 (refresh_l1 n ss a) t
      ≡ (if leb ss t && ltb t (ss + n) then computed a.total a.l0 t else entry1 a t)
refresh_l1-entry zero ss t a h = unfold refresh_l1 in ground arith
refresh_l1-entry (suc n) ss t a h =
    let a' = update_l1_for_l0_slot (ss * 8) a in
    let same = update_l1-IsRefreshed (ss * 8) a in
    rw (refresh_l1-suc n ss a) (
      refresh_l1-entry n (ss + 1) t a' (omega (arith, same.l1_length))
      ∙ ground (
        arith,
        same.total,
        same.l0,
        update_l1-entry ss t a (omega arith),
        ap (computed a.total a.l0) {x = ss} {y = t},
      ))

pub refresh_l2-entry :
    (n k t : ℕ) (a : AllocatorV3)
    → k + n ≤ length a.l2 * 32
    → entry2 (refresh_l2 n k a) t ≡ (
        if leb k t && (ltb t (k + n) && ltb (t * 8) (length a.l1))
        then computed2 a.l1 t
        else entry2 a t)
refresh_l2-entry zero k t a h = unfold refresh_l2 in ground arith
refresh_l2-entry (suc n) k t a h = elim (Bool-cases (leb (length a.l1) (k * 8))) [
  | inl out ↦ rw (refresh_l2-suc n k a, out) (ground arith)
  | inr within ↦
      let a' = update_l2_for_l1_slot (k * 8) a in
      rw (refresh_l2-suc n k a, within)
        (refresh_l2-entry n (k + 1) t a'
            (omega (arith, (update_l2-IsRefreshed (k * 8) a).l2_length))
          ∙ ground (
            arith,
            l1-update_l2 (k * 8) a,
            update_l2-entry k t a (omega arith),
            ap (computed2 a.l1) {x = k} {y = t},
          ))
]

pub l2-refresh_l1 : (n ss : ℕ) (a : AllocatorV3) → (refresh_l1 n ss a).l2 ≡ a.l2
l2-refresh_l1 zero ss a = unfold refresh_l1 in refl
l2-refresh_l1 (suc n) ss a =
    rw (refresh_l1-suc n ss a)
      (l2-refresh_l1 n (ss + 1) (update_l1_for_l0_slot (ss * 8) a) ∙ l2-update_l1 (ss * 8) a)

pub l1-refresh_l2 : (n k : ℕ) (a : AllocatorV3) → (refresh_l2 n k a).l1 ≡ a.l1
l1-refresh_l2 zero k a = unfold refresh_l2 in refl
l1-refresh_l2 (suc n) k a = elim (Bool-cases (leb (length a.l1) (k * 8))) [
  | inl out ↦ rw (refresh_l2-suc n k a, out)
  | inr within ↦
      rw (refresh_l2-suc n k a, within)
        (l1-refresh_l2 n (k + 1) (update_l2_for_l1_slot (k * 8) a) ∙ l1-update_l2 (k * 8) a)
]

-- Both summary levels are large enough and tell the truth about the bitmap.
pub record IsSummarised (a : AllocatorV3) : Type 0 where
  pub covers1 : Covers1 a
  pub covers2 : a.total ≤ length a.l2 * 4194304
  pub tells1 : (ss : ℕ) → Tells (entry1 a ss) a.total a.l0 (ss * 512) 512
  pub tells2 : (k : ℕ) → Tells (entry2 a k) a.total a.l0 (k * 131072) 131072

Tells-keep :
    (e total : ℕ) (l0 l0' : List ℕ) (lo n : ℕ)
    → ((b : ℕ) → lo ≤ b → b < lo + n → block_bit l0' b ≡ block_bit l0 b)
    → Tells e total l0 lo n
    → Tells e total l0' lo n
Tells-keep e total l0 l0' lo n same t = record {
  free = λ q b p r h. same b p r ∙ t.free q b p r h;
  full = λ q b p r h. same b p r ∙ t.full q b p r h;
}

Tells-subst :
    {e e' total total' : ℕ} {l0 l0' : List ℕ} {lo n : ℕ}
    → e' ≡ e
    → total' ≡ total
    → l0' ≡ l0
    → Tells e total l0 lo n
    → Tells e' total' l0' lo n
Tells-subst p q r t = rw (p, q, r) t

module _ (offset size : ℕ) (free : Bool) (a : AllocatorV3) (valid : IsBitmap a.total a.l0)
    (clean : IsClean a.total a.l0) (sums : IsSummarised a) (some_blocks : 0 < size)
    (fits : offset + size ≤ a.total) where
  abbrev first_set : ℕ
  first_set = offset / 64 / 8

  abbrev last_set : ℕ
  last_set = (offset + size - 1) / 64 / 8

  abbrev bits : List ℕ
  bits = (loop_of offset size free a).0

  abbrev looped : AllocatorV3
  looped = record a { l0 = bits }

  abbrev level1 : AllocatorV3
  level1 = refresh_l1 (last_set + 1 - first_set) first_set looped

  abbrev level2 : AllocatorV3
  level2 = refresh_l2 (last_set / 32 / 8 + 1 - first_set / 32 / 8) (first_set / 32 / 8) level1

  mark_range_levels : (mark_range offset size free a).0 ≡ level2
  unfolding mark_range
  mark_range_levels = rw (ne→== size 0 (omega arith))

  frame1 : IsRefreshed looped level1
  frame1 = refresh_l1-IsRefreshed (last_set + 1 - first_set) first_set looped

  frame2 : IsRefreshed level1 level2
  frame2 =
      refresh_l2-IsRefreshed (last_set / 32 / 8 + 1 - first_set / 32 / 8) (first_set / 32 / 8)
        level1

  -- A block outside the range of the slotsets is not marked.
  kept : (b : ℕ) → (b < offset) ⊎ (offset + size ≤ b) → block_bit bits b ≡ block_bit a.l0 b
  kept b (inl h) = loop_of-block offset size free a valid some_blocks fits b ∙ ground arith
  kept b (inr h) = loop_of-block offset size free a valid some_blocks fits b ∙ ground arith

  tells1_after : (t : ℕ) → Tells (entry1 level1 t) a.total bits (t * 512) 512
  tells1_after t =
      rw
        (refresh_l1-entry (last_set + 1 - first_set) first_set t looped
          (omega (arith, sums.covers1)))
        (elim (lt-or-le t first_set) [
          | inl before ↦ rw (lt→leb first_set t before) (untouched (inl before))
          | inr from ↦ elim (lt-or-le last_set t) [
            | inl after ↦
                rw
                  (
                    le→leb first_set t from,
                    le→ltb t (first_set + (last_set + 1 - first_set)) (omega arith),
                  )
                  (untouched (inr after))
            | inr upto ↦
                rw
                  (
                    le→leb first_set t from,
                    lt→ltb t (first_set + (last_set + 1 - first_set)) (omega arith),
                  )
                  (computed-Tells a.total bits
                    (loop-IsBitmap offset size free a valid clean some_blocks fits) t)
          ]
        ])
    where
      untouched : (t < first_set) ⊎ (last_set < t) → Tells (entry1 a t) a.total bits (t * 512) 512
      untouched side =
          Tells-keep (entry1 a t) a.total a.l0 bits (t * 512) 512
            (λ b p q. kept b (side_of side b p q)) (sums.tells1 t)
        where
          side_of :
              (t < first_set) ⊎ (last_set < t)
              → (b : ℕ) → t * 512 ≤ b
              → b < t * 512 + 512
              → (b < offset) ⊎ (offset + size ≤ b)
          side_of (inl h) b p q = inl (omega arith)
          side_of (inr h) b p q = inr (omega arith)

  level1-Tells : (t : ℕ) → Tells (entry1 level1 t) level1.total level1.l0 (t * 512) 512
  level1-Tells t = rw (frame1.total, frame1.l0) (tells1_after t)

  level1_covers : Covers1 level1
  level1_covers = omega (arith, frame1.total, frame1.l1_length, sums.covers1)

  recomputed : (k : ℕ) → Tells (computed2 level1.l1 k) a.total bits (k * 131072) 131072
  recomputed k =
      subst (λ t. Tells (computed2 level1.l1 k) t bits (k * 131072) 131072) frame1.total
        (subst (λ l. Tells (computed2 level1.l1 k) level1.total l (k * 131072) 131072) frame1.l0
          (computed2-Tells level1 level1-Tells level1_covers k))

  -- An l2 entry that is not written: outside the range, or of blocks beyond the device.
  abbrev Idle : (k : ℕ) → Type 0
  Idle k = (k < first_set / 32 / 8) ⊎ (last_set / 32 / 8 < k) ⊎ (length level1.l1 ≤ k * 8)

  Idle-Tells : (k : ℕ) → Idle k → Tells (entry2 level1 k) a.total bits (k * 131072) 131072
  Idle-Tells k side =
      rw
        (ap (λ l. get_entry (get_or l (k / 32) 0) (k % 32))
          (l2-refresh_l1 (last_set + 1 - first_set) first_set looped))
        (record {
          free = λ e b p q h. kept b (side_of side b p q h) ∙ (sums.tells2 k).free e b p q h;
          full = λ e b p q h. kept b (side_of side b p q h) ∙ (sums.tells2 k).full e b p q h;
        })
    where
      side_of :
          Idle k
          → (b : ℕ) → k * 131072 ≤ b
          → b < k * 131072 + 131072
          → b < a.total
          → (b < offset) ⊎ (offset + size ≤ b)
      side_of (inl h) b p q r = inl (omega arith)
      side_of (inr (inl h)) b p q r = inr (omega arith)
      side_of (inr (inr h)) b p q r = absurd (omega (arith, frame1.l1_length, sums.covers1))

  tells2_after : (k : ℕ) → Tells (entry2 level2 k) a.total bits (k * 131072) 131072
  tells2_after k =
      let n = last_set / 32 / 8 + 1 - first_set / 32 / 8 in
      let start = first_set / 32 / 8 in
      rw (refresh_l2-entry n start k level1 (omega (arith, sums.covers2, frame1.l2_length)))
        (elim (lt-or-le k start) [
          | inl before ↦ rw (lt→leb start k before) (Idle-Tells k (inl before))
          | inr from ↦ elim (lt-or-le (last_set / 32 / 8) k) [
            | inl after ↦
                rw (le→leb start k from, le→ltb k (start + n) (omega arith))
                  (Idle-Tells k (inr (inl after)))
            | inr upto ↦ elim (lt-or-le (k * 8) (length level1.l1)) [
              | inl within ↦
                  rw
                    (
                      le→leb start k from,
                      lt→ltb k (start + n) (omega arith),
                      lt→ltb (k * 8) (length level1.l1) within,
                    )
                    (recomputed k)
              | inr beyond ↦
                  rw
                    (
                      le→leb start k from,
                      lt→ltb k (start + n) (omega arith),
                      le→ltb (k * 8) (length level1.l1) beyond,
                    )
                    (Idle-Tells k (inr (inr beyond)))
            ]
          ]
        ])

  level2-IsSummarised : IsSummarised level2
  level2-IsSummarised = record {
    covers1 =
        omega (arith, frame1.total, frame2.total, frame1.l1_length, frame2.l1_length, sums.covers1);
    covers2 =
        omega (arith, frame1.total, frame2.total, frame1.l2_length, frame2.l2_length, sums.covers2);
    tells1 = λ t.
        Tells-subst
          (ap (λ l. get_entry (get_or l (t / 32) 0) (t % 32))
            (l1-refresh_l2 (last_set / 32 / 8 + 1 - first_set / 32 / 8) (first_set / 32 / 8)
              level1))
          (frame2.total ∙ frame1.total) (frame2.l0 ∙ frame1.l0) (tells1_after t);
    tells2 = λ k.
        Tells-subst refl (frame2.total ∙ frame1.total) (frame2.l0 ∙ frame1.l0) (tells2_after k);
  }

  -- Where both summary levels tell the truth about a well-formed and clean bitmap, they do so
  -- after markRangeLocked on a nonempty range inside the device.
  pub mark_range-IsSummarised : IsSummarised (mark_range offset size free a).0
  mark_range-IsSummarised = rw mark_range_levels level2-IsSummarised
