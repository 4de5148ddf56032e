-- ===== src/Alloc/Summary/Level1.antt =====
-- An entry of l1 against the 512 blocks that it sums up.
use mathlib.Core.Path.{subst}
use corgi.Base.{
  ℕ, zero, suc, ◌+◌, ◌*◌, ◌/◌, ◌%◌, ◌≤◌, ◌<◌, ◌≡◌, refl, ap, ◌∙◌, true, List, arith, bit_and, inl,
  inr, lt-or-le, if◌then◌else◌, ◌==◌, ==→eq, length, get_or, set, Bool-cases, get_or-set_self,
  get_or-set_ne, lt→leb,
}
use corgi.Base.Word.{bit_at, bit_at-le, bit_at-zero, bit_at-bit_and}
use corgi.Alloc.Geometry.{valid_word_mask}
use corgi.Alloc.Geometry.Masks.{valid_word_mask-bit}
use corgi.Alloc.Store.{
  AllocatorV3, Flags, flags_at, l0_flags, entry_of, both, slotset_rounds, update_l1_for_l0_slot,
  get_entry, put_entry,
}
use corgi.Alloc.Store.Entries.{get_entry-put_entry}
use corgi.Alloc.Mark.Blocks.{block_bit, IsBitmap}

-- Every block of [lo, lo + n) has the bit `v`.
abbrev pub AllBits : ℕ → ℕ → List ℕ → ℕ → ℕ → Type 0
AllBits v total l0 lo n = (b : ℕ) → lo ≤ b → b < lo + n → b < total → block_bit l0 b ≡ v

-- FREE says that all blocks are free, FULL that none is.
pub record Tells (e total : ℕ) (l0 : List ℕ) (lo n : ℕ) : Type 0 where
  pub free : e ≡ 3 → AllBits 1 total l0 lo n
  pub full : e ≡ 0 → AllBits 0 total l0 lo n

abbrev pub FreeWord : ℕ → List ℕ → ℕ → Type 0
FreeWord total l0 w =
    bit_and (get_or l0 w 0) (valid_word_mask total l0 w) ≡ valid_word_mask total l0 w

abbrev pub FullWord : ℕ → List ℕ → ℕ → Type 0
FullWord total l0 w = bit_and (get_or l0 w 0) (valid_word_mask total l0 w) ≡ 0

flags_at-free :
    (word mask : ℕ) (s : Flags)
    → (flags_at word mask s).all_free ≡ true
    → (s.all_free ≡ true) × (bit_and word mask ≡ mask)
unfolding flags_at
flags_at-free word mask s e = ground arith

flags_at-alloc :
    (word mask : ℕ) (s : Flags)
    → (flags_at word mask s).all_alloc ≡ true
    → (s.all_alloc ≡ true) × (bit_and word mask ≡ 0)
unfolding flags_at
flags_at-alloc word mask s e = ground arith

pub entry_free : (f : Flags) → entry_of f ≡ 3 → f.all_free ≡ true
unfolding entry_of
entry_free f e = ground arith

pub entry_full : (f : Flags) → entry_of f ≡ 0 → f.all_alloc ≡ true
unfolding entry_of
entry_full f e = ground arith

module _ (total : ℕ) (l0 : List ℕ) where
  abbrev step : ℕ → Flags → Flags
  step k s = flags_at (get_or l0 k 0) (valid_word_mask total l0 k) s

  l0_flags-suc :
      (n k : ℕ) (s : Flags) → l0_flags (suc n) k total l0 s ≡ l0_flags n (k + 1) total l0 (step k s)
  unfolding l0_flags
  l0_flags-suc n k s = refl

  l0_flags-free :
      (n k : ℕ) (s : Flags)
      → (l0_flags n k total l0 s).all_free ≡ true
      → (s.all_free ≡ true) × ((w : ℕ) → k ≤ w → w < k + n → FreeWord total l0 w)
  l0_flags-free zero k s e = (unfold l0_flags in e, λ w p q. absurd (omega arith))
  l0_flags-free (suc n) k s e =
      let rest = l0_flags-free n (k + 1) (step k s) (rw l0_flags-suc at e) in
      let here = flags_at-free (get_or l0 k 0) (valid_word_mask total l0 k) s rest.0 in
      (
        here.0,
        λ w p q. elim (lt-or-le k w) [
          | inl later ↦ rest.1 w (omega arith) (omega arith)
          | inr now ↦ subst (FreeWord total l0) {x = k} {y = w} (omega arith) here.1
        ],
      )

  l0_flags-alloc :
      (n k : ℕ) (s : Flags)
      → (l0_flags n k total l0 s).all_alloc ≡ true
      → (s.all_alloc ≡ true) × ((w : ℕ) → k ≤ w → w < k + n → FullWord total l0 w)
  l0_flags-alloc zero k s e = (unfold l0_flags in e, λ w p q. absurd (omega arith))
  l0_flags-alloc (suc n) k s e =
      let rest = l0_flags-alloc n (k + 1) (step k s) (rw l0_flags-suc at e) in
      let here = flags_at-alloc (get_or l0 k 0) (valid_word_mask total l0 k) s rest.0 in
      (
        here.0,
        λ w p q. elim (lt-or-le k w) [
          | inl later ↦ rest.1 w (omega arith) (omega arith)
          | inr now ↦ subst (FullWord total l0) {x = k} {y = w} (omega arith) here.1
        ],
      )

  abbrev pub computed : ℕ → ℕ
  computed ss = entry_of (l0_flags (slotset_rounds (ss * 8) (length l0)) (ss * 8) total l0 both)

  module _ (valid : IsBitmap total l0) where
    FreeWord-bit : (b : ℕ) → b < total → FreeWord total l0 (b / 64) → block_bit l0 b ≡ 1
    unfolding block_bit
    FreeWord-bit b h e = ground (
      arith,
      ap (λ t. bit_at t (b % 64)) e,
      bit_at-bit_and (get_or l0 (b / 64) 0) (valid_word_mask total l0 (b / 64)) (b % 64),
      valid_word_mask-bit total (b / 64) (b % 64) l0 valid.slots (omega (arith, valid.slots))
          (omega arith),
      bit_at-le (get_or l0 (b / 64) 0) (b % 64),
    )

    FullWord-bit : (b : ℕ) → b < total → FullWord total l0 (b / 64) → block_bit l0 b ≡ 0
    unfolding block_bit
    FullWord-bit b h e = ground (
      arith,
      ap (λ t. bit_at t (b % 64)) e,
      bit_at-zero (b % 64),
      bit_at-bit_and (get_or l0 (b / 64) 0) (valid_word_mask total l0 (b / 64)) (b % 64),
      valid_word_mask-bit total (b / 64) (b % 64) l0 valid.slots (omega (arith, valid.slots))
          (omega arith),
      bit_at-le (get_or l0 (b / 64) 0) (b % 64),
    )

    -- The entry that updateL1ForL0Slot computes tells the truth about its slotset.
    pub computed-Tells : (ss : ℕ) → Tells (computed ss) total l0 (ss * 512) 512
    computed-Tells ss =
        let f = l0_flags (slotset_rounds (ss * 8) (length l0)) (ss * 8) total l0 both in
        record {
          free = λ e b p q h. FreeWord-bit b h (
              (l0_flags-free (slotset_rounds (ss * 8) (length l0)) (ss * 8) both (entry_free f e)).1
                (b / 64) (omega arith) (ground (arith, valid.slots)));
          full = λ e b p q h. FullWord-bit b h (
              (l0_flags-alloc (slotset_rounds (ss * 8) (length l0)) (ss * 8) both
                  (entry_full f e)).1
                (b / 64) (omega arith) (ground (arith, valid.slots)));
        }

-- The entry of slotset `ss`.
abbrev pub entry1 : AllocatorV3 → ℕ → ℕ
entry1 a ss = get_entry (get_or a.l1 (ss / 32) 0) (ss % 32)

computed-lt : (total : ℕ) (l0 : List ℕ) (ss : ℕ) → computed total l0 ss < 4
unfolding entry_of
computed-lt total l0 ss = ground arith

pub put_in-entry :
    (l1 : List ℕ) (ss e t : ℕ)
    → ss / 32 < length l1
    → e < 4
    → get_entry
        (get_or (set l1 (ss / 32) (put_entry (get_or l1 (ss / 32) 0) (ss % 32) e)) (t / 32) 0)
        (t % 32)
      ≡ (if t == ss then e else get_entry (get_or l1 (t / 32) 0) (t % 32))
put_in-entry l1 ss e t h k = elim (Bool-cases (t / 32 == ss / 32)) [
  | inl same ↦
      ap (λ w. get_entry w (t % 32))
        (ap (λ j. get_or (set l1 (ss / 32) (put_entry (get_or l1 (ss / 32) 0) (ss % 32) e)) j 0)
            (==→eq (t / 32) (ss / 32) same)
          ∙ get_or-set_self l1 (ss / 32) (put_entry (get_or l1 (ss / 32) 0) (ss % 32) e) 0 h)
      ∙ get_entry-put_entry (get_or l1 (ss / 32) 0) (ss % 32) e (t % 32) (omega arith) (omega arith)
          k
      ∙ ground (arith, ap (λ j. get_entry (get_or l1 j 0) (t % 32)) (==→eq (t / 32) (ss / 32) same))
  | inr other ↦
      ap (λ w. get_entry w (t % 32))
        (get_or-set_ne l1 (ss / 32) (t / 32) (put_entry (get_or l1 (ss / 32) 0) (ss % 32) e) 0
          (λ q. ground arith))
      ∙ ground arith
]

-- updateL1ForL0Slot writes one entry and keeps the others.
pub update_l1-entry :
    (ss t : ℕ) (a : AllocatorV3)
    → ss / 32 < length a.l1
    → entry1 (update_l1_for_l0_slot (ss * 8) a) t
      ≡ (if t == ss then computed a.total a.l0 ss else entry1 a t)
update_l1-entry ss t a h =
    ap (λ b. entry1 b t) (written ss a h)
    ∙ put_in-entry a.l1 ss (computed a.total a.l0 ss) t h (computed-lt a.total a.l0 ss)
  where
    at_word :
        (i s : ℕ) (a : AllocatorV3)
        → i / 8 ≡ s
        → s / 32 < length a.l1
        → update_l1_for_l0_slot i a ≡ record a {
          l1 =
              set a.l1
                (s / 32)
                (put_entry (get_or a.l1 (s / 32) 0) (s % 32) (computed a.total a.l0 s));
        }
    at_word i s a e h = unfold update_l1_for_l0_slot in rw (e, lt→leb (length a.l1) (s / 32) h)

    written :
        (ss : ℕ) (a : AllocatorV3)
        → ss / 32 < length a.l1
        → update_l1_for_l0_slot (ss * 8) a ≡ record a {
          l1 =
              set a.l1
                (ss / 32)
                (put_entry (get_or a.l1 (ss / 32) 0) (ss % 32) (computed a.total a.l0 ss));
        }
    written ss a h = at_word (ss * 8) ss a (omega arith) h
