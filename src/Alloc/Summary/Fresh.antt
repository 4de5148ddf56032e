-- ===== src/Alloc/Summary/Fresh.antt =====
-- The loops of NewAllocatorV3 that compute every entry of both summary levels.
use mathlib.Core.Path.{subst}
use corgi.Base.{
  ℕ, zero, suc, ◌+◌, ◌*◌, ◌/◌, ◌≤◌, ◌<◌, ◌≡◌, refl, sym, arith, inl, inr, lt-or-le, ◌==◌, ==→eq,
  length, Bool-cases,
}
use corgi.Alloc.Store.{
  AllocatorV3, update_l1_for_l0_slot, update_l2_for_l1_slot, update_l1_all, update_l2_all,
}
use corgi.Alloc.Store.Frame.{
  IsRefreshed, IsRefreshed-refl, IsRefreshed-trans, update_l1-IsRefreshed, update_l2-IsRefreshed,
}
use corgi.Alloc.Mark.Blocks.{IsBitmap}
use corgi.Alloc.Summary.Level1.{Tells, entry1, computed, computed-Tells, update_l1-entry}
use corgi.Alloc.Summary.Level2.{
  Covers1, entry2, computed2, computed2-Tells, update_l2-entry, l1-update_l2,
}

-- Any slot of a slotset refreshes the same entry as its first.
update_l1_slotset :
    (i : ℕ) (a : AllocatorV3) → update_l1_for_l0_slot i a ≡ update_l1_for_l0_slot (i / 8 * 8) a
unfolding update_l1_for_l0_slot
update_l1_slotset i a = let e : i / 8 * 8 / 8 ≡ i / 8 = omega arith in rw e refl

update_l2_slotset :
    (i : ℕ) (a : AllocatorV3) → update_l2_for_l1_slot i a ≡ update_l2_for_l1_slot (i / 8 * 8) a
unfolding update_l2_for_l1_slot
update_l2_slotset i a = let e : i / 8 * 8 / 8 ≡ i / 8 = omega arith in rw e refl

update_l1_all-suc :
    (n i : ℕ) (a : AllocatorV3)
    → update_l1_all (suc n) i a ≡ update_l1_all n (i + 1) (update_l1_for_l0_slot i a)
unfolding update_l1_all
update_l1_all-suc n i a = refl

update_l2_all-suc :
    (n i : ℕ) (a : AllocatorV3)
    → update_l2_all (suc n) i a ≡ update_l2_all n (i + 1) (update_l2_for_l1_slot i a)
unfolding update_l2_all
update_l2_all-suc n i a = refl

pub update_l1_all-IsRefreshed : (n i : ℕ) (a : AllocatorV3) → IsRefreshed a (update_l1_all n i a)
update_l1_all-IsRefreshed zero i a = unfold update_l1_all in IsRefreshed-refl a
update_l1_all-IsRefreshed (suc n) i a = rw (update_l1_all-suc n i a) (
    IsRefreshed-trans (update_l1-IsRefreshed i a)
      (update_l1_all-IsRefreshed n (i + 1) (update_l1_for_l0_slot i a)))

pub update_l2_all-IsRefreshed : (n i : ℕ) (a : AllocatorV3) → IsRefreshed a (update_l2_all n i a)
update_l2_all-IsRefreshed zero i a = unfold update_l2_all in IsRefreshed-refl a
update_l2_all-IsRefreshed (suc n) i a = rw (update_l2_all-suc n i a) (
    IsRefreshed-trans (update_l2-IsRefreshed i a)
      (update_l2_all-IsRefreshed n (i + 1) (update_l2_for_l1_slot i a)))

-- The entries of the first `i` slots tell the truth about the blocks.
abbrev pub Told1 : ℕ → AllocatorV3 → Type 0
Told1 i a = (t : ℕ) → t * 8 < i → Tells (entry1 a t) a.total a.l0 (t * 512) 512

abbrev pub Told2 : ℕ → AllocatorV3 → Type 0
Told2 i a = (t : ℕ) → t * 8 < i → Tells (entry2 a t) a.total a.l0 (t * 131072) 131072

Told1-step :
    (i : ℕ) (a : AllocatorV3)
    → IsBitmap a.total a.l0
    → i / 8 / 32 < length a.l1
    → Told1 i a
    → Told1 (i + 1) (update_l1_for_l0_slot i a)
Told1-step i a v h told t k =
    let same = update_l1-IsRefreshed i a in
    rw (same.total, same.l0, update_l1_slotset i a, update_l1-entry (i / 8) t a h)
      (elim (Bool-cases (t == i / 8)) [
        | inl e ↦ rw e (
            subst (λ s. Tells (computed a.total a.l0 (i / 8)) a.total a.l0 (s * 512) 512)
              (sym (==→eq t (i / 8) e)) (computed-Tells a.total a.l0 v (i / 8)))
        | inr e ↦ rw e (told t (ground (arith, e)))
      ])

pub update_l1_all-Told :
    (n i : ℕ) (a : AllocatorV3)
    → IsBitmap a.total a.l0
    → i + n ≤ length a.l1 * 256
    → Told1 i a
    → Told1 (i + n) (update_l1_all n i a)
update_l1_all-Told zero i a v h told t k = unfold update_l1_all in told t (omega arith)
update_l1_all-Told (suc n) i a v h told t k =
    let b = update_l1_for_l0_slot i a in
    let same = update_l1-IsRefreshed i a in
    rw (update_l1_all-suc n i a) (
      update_l1_all-Told n (i + 1) b (rw (same.total, same.l0) v) (omega (arith, same.l1_length))
        (Told1-step i a v (omega arith) told) t (omega arith))

-- Both levels as the search reads them: nothing is asked of an entry beyond the device.
pub Told1-all :
    (i : ℕ) (a : AllocatorV3)
    → a.total ≤ i * 64
    → Told1 i a
    → (ss : ℕ) → Tells (entry1 a ss) a.total a.l0 (ss * 512) 512
Told1-all i a h told ss = elim (lt-or-le (ss * 8) i) [
  | inl within ↦ told ss within
  | inr beyond ↦ record {
    free = λ e b p q r. absurd (omega arith);
    full = λ e b p q r. absurd (omega arith);
  }
]

pub Told2-all :
    (i : ℕ) (a : AllocatorV3)
    → a.total ≤ i * 16384
    → Told2 i a
    → (k : ℕ) → Tells (entry2 a k) a.total a.l0 (k * 131072) 131072
Told2-all i a h told k = elim (lt-or-le (k * 8) i) [
  | inl within ↦ told k within
  | inr beyond ↦ record {
    free = λ e b p q r. absurd (omega arith);
    full = λ e b p q r. absurd (omega arith);
  }
]

-- The first level tells the truth about every block.
abbrev pub AllTold1 : AllocatorV3 → Type 0
AllTold1 a = (ss : ℕ) → Tells (entry1 a ss) a.total a.l0 (ss * 512) 512

AllTold1-update_l2 : (i : ℕ) (a : AllocatorV3) → AllTold1 a → AllTold1 (update_l2_for_l1_slot i a)
AllTold1-update_l2 i a all ss =
    let same = update_l2-IsRefreshed i a in rw (same.total, same.l0, l1-update_l2 i a) (all ss)

Told2-step :
    (i : ℕ) (a : AllocatorV3)
    → AllTold1 a
    → Covers1 a
    → i / 8 / 32 < length a.l2
    → Told2 i a
    → Told2 (i + 1) (update_l2_for_l1_slot i a)
Told2-step i a all covers h told t k =
    let same = update_l2-IsRefreshed i a in
    rw (same.total, same.l0, update_l2_slotset i a, update_l2-entry (i / 8) t a h)
      (elim (Bool-cases (t == i / 8)) [
        | inl e ↦ rw e (
            subst (λ s. Tells (computed2 a.l1 (i / 8)) a.total a.l0 (s * 131072) 131072)
              (sym (==→eq t (i / 8) e)) (computed2-Tells a all covers (i / 8)))
        | inr e ↦ rw e (told t (ground (arith, e)))
      ])

pub update_l2_all-Told :
    (n i : ℕ) (a : AllocatorV3)
    → AllTold1 a
    → Covers1 a
    → i + n ≤ length a.l2 * 256
    → Told2 i a
    → AllTold1 (update_l2_all n i a) × Told2 (i + n) (update_l2_all n i a)
update_l2_all-Told zero i a all covers h told =
    unfold update_l2_all in (all, λ t k. told t (omega arith))
update_l2_all-Told (suc n) i a all covers h told =
    let b = update_l2_for_l1_slot i a in
    let same = update_l2-IsRefreshed i a in
    let rest =
      update_l2_all-Told n (i + 1) b (AllTold1-update_l2 i a all)
        (omega (arith, same.total, same.l1_length, covers)) (omega (arith, same.l2_length))
        (Told2-step i a all covers (omega arith) told) in
    rw (update_l2_all-suc n i a) (rest.0, λ t k. rest.1 t (omega arith))
