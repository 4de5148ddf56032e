-- ===== src/Alloc/Store/Frame.antt =====
-- What refreshing a summary leaves alone.
use corgi.Base.{
  ℕ, zero, suc, ◌+◌, ◌*◌, ◌/◌, ◌≡◌, refl, ◌∙◌, length, length-set, arith, get_or, Bool, List, leb,
  Bool-cases, inl, inr, ◌==◌, ap,
}
use corgi.Alloc.Store.{AllocatorV3, update_l1_for_l0_slot, update_l2_for_l1_slot}

-- `b` is `a` with other entries in its summaries.
pub record IsRefreshed (a b : AllocatorV3) : Type 0 where
  pub total : b.total ≡ a.total
  pub available : b.available ≡ a.available
  pub l0 : b.l0 ≡ a.l0
  pub l1_length : length b.l1 ≡ length a.l1
  pub l2_length : length b.l2 ≡ length a.l2
  pub last_pos : b.last_pos ≡ a.last_pos

pub IsRefreshed-refl : (a : AllocatorV3) → IsRefreshed a a
IsRefreshed-refl a = record {
  total = refl;
  available = refl;
  l0 = refl;
  l1_length = refl;
  l2_length = refl;
  last_pos = refl;
}

pub IsRefreshed-trans : {a b c : AllocatorV3} → IsRefreshed a b → IsRefreshed b c → IsRefreshed a c
IsRefreshed-trans p q = record {
  total = q.total ∙ p.total;
  available = q.available ∙ p.available;
  l0 = q.l0 ∙ p.l0;
  l1_length = q.l1_length ∙ p.l1_length;
  l2_length = q.l2_length ∙ p.l2_length;
  last_pos = q.last_pos ∙ p.last_pos;
}

set_l1-IsRefreshed :
    (a : AllocatorV3) (i v : ℕ) → IsRefreshed a (record a { l1 = corgi.Base.set a.l1 i v })
set_l1-IsRefreshed a i v = record {
  total = refl;
  available = refl;
  l0 = refl;
  l1_length = length-set a.l1 i v;
  l2_length = refl;
  last_pos = refl;
}

set_l2-IsRefreshed :
    (a : AllocatorV3) (i v : ℕ) → IsRefreshed a (record a { l2 = corgi.Base.set a.l2 i v })
set_l2-IsRefreshed a i v = record {
  total = refl;
  available = refl;
  l0 = refl;
  l1_length = refl;
  l2_length = length-set a.l2 i v;
  last_pos = refl;
}

pub update_l1-IsRefreshed : (i : ℕ) (a : AllocatorV3) → IsRefreshed a (update_l1_for_l0_slot i a)
unfolding update_l1_for_l0_slot
update_l1-IsRefreshed i a = elim (Bool-cases (leb (length a.l1) (i / 8 / 32))) [
  | inl out ↦ rw out (IsRefreshed-refl a)
  | inr within ↦ rw within (set_l1-IsRefreshed a (i / 8 / 32) _)
]

pub update_l2-IsRefreshed : (i : ℕ) (a : AllocatorV3) → IsRefreshed a (update_l2_for_l1_slot i a)
unfolding update_l2_for_l1_slot
update_l2-IsRefreshed i a = elim (Bool-cases (length a.l2 == 0)) [
  | inl none ↦ rw none (IsRefreshed-refl a)
  | inr some ↦ elim (Bool-cases (leb (length a.l2) (i / 8 / 32))) [
    | inl out ↦ rw (some, out) (IsRefreshed-refl a)
    | inr within ↦ rw (some, within) (set_l2-IsRefreshed a (i / 8 / 32) _)
  ]
]
