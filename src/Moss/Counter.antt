-- ===== src/Moss/Counter.antt =====
-- The counters of the merge operator: eight bytes, little-endian, added modulo 2^64.
use corgi.Base.{
  ℕ, ◌+◌, ◌%◌, ◌^◌, ◌≡◌, refl, sym, ap, ◌∙◌, List, arith, length, get_le, put_le, get_le-put_le,
  length-put_le, eq→==, Option, some, none, Bool, false, true,
}
use corgi.Moss.{merge_values, ValueMerger, merge_newer, merge_older}

abbrev sum64 : ℕ → ℕ → ℕ
sum64 a b = (a + b) % 2 ^ 64

merge_values-counter :
    (key a b : List ℕ)
    → length a ≡ 8
    → length b ≡ 8
    → merge_values key a b ≡ some (put_le 8 (sum64 (get_le a) (get_le b)))
unfolding merge_values
merge_values-counter key a b p q = rw (eq→== (length a) 8 p, eq→== (length b) 8 q) refl

get_le-sum : (x : ℕ) → get_le (put_le 8 (x % 2 ^ 64)) ≡ x % 2 ^ 64
get_le-sum x = get_le-put_le 8 (x % 2 ^ 64) (omega arith)

abbrev record_of : ValueMerger → ℕ → ValueMerger
record_of vm n = record { key = vm.key; value = put_le 8 n }

abbrev stored : ValueMerger → Option (List ℕ) → Bool × ValueMerger
stored vm o = elim o [ none ↦ (false, vm) | some merged ↦ (true, record vm { value = merged }) ]

merge_newer-counter :
    (value : List ℕ) (vm : ValueMerger)
    → length value ≡ 8
    → length vm.value ≡ 8
    → merge_newer value vm
      ≡ (true, record { key = vm.key; value = put_le 8 (sum64 (get_le vm.value) (get_le value)) })
unfolding merge_newer
merge_newer-counter value vm p q = ap (stored vm) (merge_values-counter vm.key vm.value value q p)

merge_older-counter :
    (value : List ℕ) (vm : ValueMerger)
    → length value ≡ 8
    → length vm.value ≡ 8
    → merge_older value vm
      ≡ (true, record { key = vm.key; value = put_le 8 (sum64 (get_le value) (get_le vm.value)) })
unfolding merge_older
merge_older-counter value vm p q = ap (stored vm) (merge_values-counter vm.key value vm.value p q)

sum64-sum64 : (a v b : ℕ) → sum64 (sum64 a v) b ≡ (a + v + b) % 2 ^ 64
sum64-sum64 a v b = omega arith

sum64_inner : (a v b : ℕ) → sum64 a (sum64 v b) ≡ (a + v + b) % 2 ^ 64
sum64_inner a v b = omega arith

-- Deltas of a counter, all of eight bytes, may be merged from either end: both orders give the
-- same merger, without an error, and its value is the sum of all three modulo 2^64.
pub merge_newer-merge_older :
    (older newer : List ℕ) (vm : ValueMerger)
    → length older ≡ 8
    → length newer ≡ 8
    → length vm.value ≡ 8
    → (merge_newer newer (merge_older older vm).1 ≡ merge_older older (merge_newer newer vm).1)
      × ((merge_newer newer (merge_older older vm).1).0 ≡ true)
      × (get_le (merge_newer newer (merge_older older vm).1).1.value
          ≡ (get_le older + get_le vm.value + get_le newer) % 2 ^ 64)
merge_newer-merge_older older newer vm p q r =
    let a = get_le older in
    let v = get_le vm.value in
    let b = get_le newer in
    let forth =
      ap (λ t. merge_newer newer t.1) (merge_older-counter older vm p r)
      ∙ merge_newer-counter newer (record_of vm (sum64 a v)) q (length-put_le 8 (sum64 a v))
      ∙ ap (λ t. (true, record_of vm t))
          (ap (λ t. sum64 t b) (get_le-sum (a + v)) ∙ sum64-sum64 a v b) in
    let back =
      ap (λ t. merge_older older t.1) (merge_newer-counter newer vm q r)
      ∙ merge_older-counter older (record_of vm (sum64 v b)) p (length-put_le 8 (sum64 v b))
      ∙ ap (λ t. (true, record_of vm t)) (ap (sum64 a) (get_le-sum (v + b)) ∙ sum64_inner a v b) in
    (
      forth ∙ sym back,
      ap (λ t. t.0) forth,
      ap (λ t. get_le t.1.value) forth ∙ get_le-sum (a + v + b),
    )
