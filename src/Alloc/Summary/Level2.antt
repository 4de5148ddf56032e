-- ===== src/Alloc/Summary/Level2.antt =====
-- An entry of l2 against the 131072 blocks that it sums up, and both levels refreshed.
use corgi.Base.{
  ℕ, zero, suc, ◌+◌, ◌*◌, ◌/◌, ◌%◌, ◌≤◌, ◌<◌, ◌≡◌, refl, ap, ◌∙◌, true, false, List, arith, inl,
  inr, lt-or-le, leb, if◌then◌else◌, ◌==◌, ne→==, lt→leb, length, get_or, set, Bool-cases,
}
use corgi.Base.Word.{ones}
use corgi.Alloc.Store.{
  AllocatorV3, Flags, l1_flags, entry_of, both, slotset_rounds, update_l1_for_l0_slot,
  update_l2_for_l1_slot, get_entry, put_entry,
}
use corgi.Alloc.Store.Entries.{get_entry-ones, get_entry-zero}
use corgi.Alloc.Summary.Level1.{Tells, entry1, entry_free, entry_full, put_in-entry}

module _ (l1 : List ℕ) where
  abbrev step : ℕ → Flags → Flags
  step k s = record {
    all_free = if get_or l1 k 0 == ones 64 then s.all_free else false;
    all_alloc = if get_or l1 k 0 == 0 then s.all_alloc else false;
  }

  step-free :
      (k : ℕ) (s : Flags)
      → (step k s).all_free ≡ true
      → (s.all_free ≡ true) × (get_or l1 k 0 ≡ ones 64)
  step-free k s e = ground arith

  step-alloc :
      (k : ℕ) (s : Flags) → (step k s).all_alloc ≡ true → (s.all_alloc ≡ true) × (get_or l1 k 0 ≡ 0)
  step-alloc k s e = ground arith

  l1_flags-suc : (n k : ℕ) (s : Flags) → l1_flags (suc n) k l1 s ≡ l1_flags n (k + 1) l1 (step k s)
  unfolding l1_flags
  l1_flags-suc n k s = refl

  pub l1_flags-free :
      (n k : ℕ) (s : Flags)
      → (l1_flags n k l1 s).all_free ≡ true
      → (s.all_free ≡ true) × ((w : ℕ) → k ≤ w → w < k + n → get_or l1 w 0 ≡ ones 64)
  l1_flags-free zero k s e = (unfold l1_flags in e, λ w p q. absurd (omega arith))
  l1_flags-free (suc n) k s e =
      let rest = l1_flags-free n (k + 1) (step k s) (rw l1_flags-suc at e) in
      let here = step-free k s rest.0 in
      (
        here.0,
        λ w p q. elim (lt-or-le k w) [
          | inl later ↦ rest.1 w (omega arith) (omega arith)
          | inr now ↦ ap (λ j. get_or l1 j 0) {x = w} {y = k} (omega arith) ∙ here.1
        ],
      )

  l1_flags-alloc :
      (n k : ℕ) (s : Flags)
      → (l1_flags n k l1 s).all_alloc ≡ true
      → (s.all_alloc ≡ true) × ((w : ℕ) → k ≤ w → w < k + n → get_or l1 w 0 ≡ 0)
  l1_flags-alloc zero k s e = (unfold l1_flags in e, λ w p q. absurd (omega arith))
  l1_flags-alloc (suc n) k s e =
      let rest = l1_flags-alloc n (k + 1) (step k s) (rw l1_flags-suc at e) in
      let here = step-alloc k s rest.0 in
      (
        here.0,
        λ w p q. elim (lt-or-le k w) [
          | inl later ↦ rest.1 w (omega arith) (omega arith)
          | inr now ↦ ap (λ j. get_or l1 j 0) {x = w} {y = k} (omega arith) ∙ here.1
        ],
      )

  abbrev pub computed2 : ℕ → ℕ
  computed2 k = entry_of (l1_flags (slotset_rounds (k * 8) (length l1)) (k * 8) l1 both)

computed2-lt : (l1 : List ℕ) (k : ℕ) → computed2 l1 k < 4
unfolding entry_of
computed2-lt l1 k = ground arith

-- The blocks that an l1 of this length has entries for reach to the end of the device.
abbrev pub Covers1 : AllocatorV3 → Type 0
Covers1 a = a.total ≤ length a.l1 * 16384

module _ (a : AllocatorV3) (tells : (ss : ℕ) → Tells (entry1 a ss) a.total a.l0 (ss * 512) 512)
    (covers : Covers1 a) where
  from_word :
      (b : ℕ) (v e : ℕ)
      → get_or a.l1 (b / 16384) 0 ≡ v
      → get_entry v (b / 512 % 32) ≡ e
      → entry1 a (b / 512) ≡ e
  from_word b v e p q =
      ap (λ j. get_entry (get_or a.l1 j 0) (b / 512 % 32)) {x = b / 512 / 32} {y = b / 16384}
        (omega arith)
      ∙ ap (λ w. get_entry w (b / 512 % 32)) p
      ∙ q

  pub computed2-Tells : (k : ℕ) → Tells (computed2 a.l1 k) a.total a.l0 (k * 131072) 131072
  computed2-Tells k =
      let rounds = slotset_rounds (k * 8) (length a.l1) in
      let f = l1_flags rounds (k * 8) a.l1 both in
      record {
        free = λ e b p q h.
            (tells (b / 512)).free
              (from_word b (ones 64) 3
                ((l1_flags-free a.l1 rounds (k * 8) both (entry_free f e)).1 (b / 16384)
                  (omega arith) (ground arith))
                (get_entry-ones (b / 512 % 32) (omega arith)))
              b (omega arith) (omega arith) h;
        full = λ e b p q h.
            (tells (b / 512)).full
              (from_word b 0 0
                ((l1_flags-alloc a.l1 rounds (k * 8) both (entry_full f e)).1 (b / 16384)
                  (omega arith) (ground arith))
                (get_entry-zero (b / 512 % 32)))
              b (omega arith) (omega arith) h;
      }

-- The entry of l1 slotset `k`.
abbrev pub entry2 : AllocatorV3 → ℕ → ℕ
entry2 a k = get_entry (get_or a.l2 (k / 32) 0) (k % 32)

pub update_l2-entry :
    (k t : ℕ) (a : AllocatorV3)
    → k / 32 < length a.l2
    → entry2 (update_l2_for_l1_slot (k * 8) a) t ≡ (if t == k then computed2 a.l1 k else entry2 a t)
update_l2-entry k t a h =
    ap (λ b. entry2 b t) (at_word (k * 8) k (omega arith) h)
    ∙ put_in-entry a.l2 k (computed2 a.l1 k) t h (computed2-lt a.l1 k)
  where
    at_word :
        (i s : ℕ)
        → i / 8 ≡ s
        → s / 32 < length a.l2
        → update_l2_for_l1_slot i a ≡ record a {
          l2 = set a.l2 (s / 32) (put_entry (get_or a.l2 (s / 32) 0) (s % 32) (computed2 a.l1 s));
        }
    at_word i s e h =
        unfold update_l2_for_l1_slot in
        rw (e, ne→== (length a.l2) 0 (omega arith), lt→leb (length a.l2) (s / 32) h)

pub l1-update_l2 : (i : ℕ) (a : AllocatorV3) → (update_l2_for_l1_slot i a).l1 ≡ a.l1
unfolding update_l2_for_l1_slot
l1-update_l2 i a = elim (Bool-cases (length a.l2 == 0)) [
  | inl none ↦ rw none
  | inr some ↦ elim (Bool-cases (leb (length a.l2) (i / 8 / 32))) [
    | inl out ↦ rw (some, out)
    | inr within ↦ rw (some, within)
  ]
]

pub l2-update_l1 : (i : ℕ) (a : AllocatorV3) → (update_l1_for_l0_slot i a).l2 ≡ a.l2
unfolding update_l1_for_l0_slot
l2-update_l1 i a = elim (Bool-cases (leb (length a.l1) (i / 8 / 32))) [
  | inl out ↦ rw out
  | inr within ↦ rw within
]
