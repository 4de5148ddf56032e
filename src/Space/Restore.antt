-- ===== src/Space/Restore.antt =====
-- loadAllocator as a whole, on the allocator that newBlockDevice makes.
use mathlib.Core.Path.{subst}
use mathlib.Core.Option.{some-injective}
use corgi.Base.{
  false, ℕ, zero, suc, ◌+◌, ◌-◌, ◌*◌, ◌/◌, ◌%◌, ◌^◌, ◌≤◌, ◌<◌, ◌≡◌, refl, ap, ◌∙◌, sym, List, [],
  ◌∷◌, length, get_or, Option, none, some, ◌⊎◌, inl, inr, arith, min, AreBytes,
}
use corgi.Base.Word.{bit_at}
use corgi.Alloc.Store.{AllocatorV3}
use corgi.Alloc.Mark.Blocks.{block_bit}
use corgi.Alloc.Api.{Error, new_allocator}
use corgi.Alloc.Api.New.{new_allocator-IsValid}
use corgi.Alloc.Calls.{IsSound}
use corgi.Alloc.Refines.{new-IsSound}
use corgi.Alloc.Geometry.{add64, sub64, is_negative}
use corgi.Space.{space_key_count, rounds_up_to, normalize_space_value, copy_into}
use corgi.Space.Merges.{space_bit}
use corgi.Space.Device.{
  DeviceError, Run, close_run, load_bytes, load_space_value, load_spaces, load_allocator,
  family_space_key, then_device, then_value, then_run,
}
use corgi.Space.Load.{IsLoaded, Reads, Closes, close_run-Closes}
use corgi.Space.Bytes.{AreBytesAt, load_bytes-Reads}

length-copy_into : (n : ℕ) (value : List ℕ) → length (copy_into n value) ≡ n
unfolding copy_into
length-copy_into zero value = refl
length-copy_into (suc n) [] = ap suc (length-copy_into n [])
length-copy_into (suc n) (x ∷ value) = ap suc (length-copy_into n value)

-- What is read of a space always has 512 bytes.
length-load_space_value :
    (get : List ℕ → Option (Option (List ℕ))) (i : ℕ) (value : List ℕ)
    → load_space_value get i [] ≡ some value
    → length value ≡ 512
unfolding load_space_value normalize_space_value
length-load_space_value get i value = by_key (get (family_space_key i)) value
  where
    by_key :
        (o : Option (Option (List ℕ))) (value : List ℕ)
        → elim o [
          | none ↦ none
          | some none ↦ some (copy_into 512 [])
          | some (some v) ↦ some (copy_into 512 v)
        ]
          ≡ some value
        → length value ≡ 512
    by_key none value e = absurd (ground (arith, e))
    by_key (some none) value e =
        ap length (sym (some-injective (copy_into 512 []) value e)) ∙ length-copy_into 512 []
    by_key (some (some v)) value e =
        ap length (sym (some-injective (copy_into 512 v) value e)) ∙ length-copy_into 512 v

-- Each space of a device of `size` bytes is read without an error, as bytes.
pub record IsStored (get : List ℕ → Option (Option (List ℕ))) (size : ℕ) (value : ℕ → List ℕ)
    : Type 0 where
  pub loads : (i : ℕ) → i < space_key_count size → load_space_value get i [] ≡ some (value i)
  pub bytes : (i : ℕ) → i < space_key_count size → AreBytes (value i)

module _ (get : List ℕ → Option (Option (List ℕ))) (size : ℕ) (value : ℕ → List ℕ)
    (stored : IsStored get size value) where
  abbrev total : ℕ
  total = size / 4096

  -- The bit of a block of the device.
  abbrev pub stored_bit : ℕ → ℕ
  stored_bit x = space_bit (value (x / 4096)) (x % 4096)

  stored_bit-byte :
      (index i j : ℕ)
      → i < 512
      → j < 8
      → stored_bit (index * 4096 + i * 8 + j) ≡ bit_at (get_or (value index) i 0) (7 - j)
  stored_bit-byte index i j h k =
      ap (λ t. space_bit (value t) ((index * 4096 + i * 8 + j) % 4096))
        {x = (index * 4096 + i * 8 + j) / 4096} {y = index} (omega arith)
      ∙ ap (space_bit (value index)) {x = (index * 4096 + i * 8 + j) % 4096} {y = i * 8 + j}
          (omega arith)
      ∙ ap (λ t. bit_at (get_or (value index) t 0) (7 - (i * 8 + j) % 8)) {x = (i * 8 + j) / 8}
          {y = i} (omega arith)
      ∙ ap (λ t. bit_at (get_or (value index) i 0) (7 - t)) {x = (i * 8 + j) % 8} {y = j}
          (omega arith)

  space_length : (index : ℕ) → index < space_key_count size → length (value index) ≡ 512
  space_length index h = length-load_space_value get index (value index) (stored.loads index h)

  space-AreBytesAt :
      (index : ℕ)
      → index < space_key_count size
      → AreBytesAt total stored_bit (index * 4096) (value index)
  space-AreBytesAt index q i h = (
    stored.bytes index q i,
    λ j k. stored_bit-byte index i j (omega (arith, space_length index q)) k,
  )

  abbrev ReadsSpaces : ℕ → DeviceError ⊎ Run → Type 0
  ReadsSpaces p (inl e) = ⊥
  ReadsSpaces p (inr r) = IsLoaded total stored_bit p r

  then_device-Reads :
      (p q : ℕ) (o : Error ⊎ Run) (f : Run → DeviceError ⊎ Run)
      → Reads total stored_bit p o
      → ((r : Run) → IsLoaded total stored_bit p r → ReadsSpaces q (f r))
      → ReadsSpaces q (then_device o f)
  unfolding then_device
  then_device-Reads p q (inl e) f h k = absurd h
  then_device-Reads p q (inr r) f h k = k r h

  load_spaces-suc :
      (index rounds : ℕ) (r : Run)
      → index < space_key_count size
      → load_spaces get total index (suc rounds) r
        ≡ then_device
            (load_bytes total (index * 4096) (value index) r)
            (load_spaces get total (index + 1) rounds)
  unfolding load_spaces then_value
  load_spaces-suc index rounds r h = rw (stored.loads index h) refl

  load_spaces-Reads :
      (index rounds : ℕ) (r : Run)
      → index + rounds ≤ space_key_count size
      → IsLoaded total stored_bit (min (index * 4096) total) r
      → ReadsSpaces (min ((index + rounds) * 4096) total) (load_spaces get total index rounds r)
  load_spaces-Reads index zero r h g =
      unfold load_spaces in
      subst (λ t. IsLoaded total stored_bit t r) {x = min (index * 4096) total}
        {y = min ((index + 0) * 4096) total} (omega arith) g
  load_spaces-Reads index (suc rounds) r h g =
      let here : index < space_key_count size = omega arith in
      let next = min ((index + 1) * 4096) total in
      let bytes =
        subst (λ t. Reads total stored_bit t (load_bytes total (index * 4096) (value index) r))
          {x = min (index * 4096 + length (value index) * 8) total} {y = next}
          (omega (arith, space_length index here))
          (load_bytes-Reads total stored_bit (index * 4096) (value index) r
            (space-AreBytesAt index here) g) in
      rw (load_spaces-suc index rounds r here) (
        then_device-Reads next (min ((index + suc rounds) * 4096) total)
          (load_bytes total (index * 4096) (value index) r)
          (load_spaces get total (index + 1) rounds) bytes
          (λ q k.
            subst (λ t. ReadsSpaces t (load_spaces get total (index + 1) rounds q))
              {x = min ((index + 1 + rounds) * 4096) total}
              {y = min ((index + suc rounds) * 4096) total} (omega arith)
              (load_spaces-Reads (index + 1) rounds q (omega arith) k)))

  module _ (positive : 4096 ≤ size) (fits : size + 2 ^ 24 ≤ 2 ^ 63) where
    abbrev fresh : AllocatorV3
    fresh = new_allocator total

    abbrev unread : Run
    unread = record { start = none; len = 0; allocator = fresh }

    fresh-IsLoaded : IsLoaded total stored_bit (min (0 * 4096) total) unread
    fresh-IsLoaded =
        let (valid, sums, full, free) = new_allocator-IsValid total (omega arith) (omega arith) in
        record {
          sound = new-IsSound total (omega arith) (omega arith);
          inside = omega arith;
          before = λ x h. absurd (omega arith);
          run = λ x h k. absurd (omega arith);
          after = λ x h k. free x ∙ ground arith;
          width = omega arith;
          some_run = λ s e. absurd (ground (arith, e));
        }

    abbrev Restores : DeviceError ⊎ AllocatorV3 → Type 0
    Restores (inl e) = ⊥
    Restores (inr b) = IsSound total b × ((x : ℕ) → x < total → block_bit b.l0 x ≡ 1 - stored_bit x)

    closed-Restores :
        (o : Error ⊎ Run)
        → Closes total stored_bit total o
        → Restores (then_device o (λ r. inr r.allocator))
    unfolding then_device
    closed-Restores (inl e) h = h
    closed-Restores (inr r) (g, e) = (g.sound, λ x h. g.before x (rw e h))

    run-Restores :
        (o : DeviceError ⊎ Run)
        → ReadsSpaces total o
        → Restores (then_run o (λ r. then_device (close_run r) (λ r'. inr r'.allocator)))
    unfolding then_run
    run-Restores (inl e) h = absurd h
    run-Restores (inr r) g =
        closed-Restores (close_run r) (close_run-Closes total stored_bit total r g)

    counted : space_key_count size ≡ (size + (2 ^ 24 - 1)) / 2 ^ 24
    unfolding space_key_count
    counted =
        let exact : sub64 (add64 size (2 ^ 24)) 1 ≡ size + (2 ^ 24 - 1) = omega arith in
        let plain : is_negative (size + (2 ^ 24 - 1)) ≡ false = ground (arith, fits) in
        rw (exact, plain) refl

    all_rounds : rounds_up_to (space_key_count size) ≡ space_key_count size
    all_rounds =
        let plain : is_negative (space_key_count size) ≡ false = ground (arith, counted, fits) in
        rw plain refl

    restored : Restores (load_allocator get size fresh)
    unfolding load_allocator
    restored = rw all_rounds (
        run-Restores (load_spaces get total 0 (space_key_count size) unread) (
          subst (λ t. ReadsSpaces t (load_spaces get total 0 (space_key_count size) unread))
            {x = min ((0 + space_key_count size) * 4096) total} {y = total} (omega (arith, counted))
            (load_spaces-Reads 0 (space_key_count size) unread (omega arith) fresh-IsLoaded)))

    -- For a device of at least one block and at most 2^63 - 2^24 bytes whose spaces are all read
    -- without an error, as bytes, loadAllocator on the allocator of newBlockDevice returns no
    -- error, and after it a block of the device is free exactly where its persisted bit is 0; the
    -- allocator is valid and summarised.
    pub load_allocator-restores :
        (b : AllocatorV3) × (load_allocator get size (new_allocator (size / 4096)) ≡ inr b)
        × IsSound (size / 4096) b
        × ((x : ℕ)
            → x < size / 4096
            → block_bit b.l0 x ≡ 1 - space_bit (value (x / 4096)) (x % 4096))
    load_allocator-restores = by_result (load_allocator get size fresh) restored
      where
        by_result :
            (o : DeviceError ⊎ AllocatorV3)
            → Restores o
            → (b : AllocatorV3) × (o ≡ inr b)
              × IsSound total b
              × ((x : ℕ) → x < total → block_bit b.l0 x ≡ 1 - stored_bit x)
        by_result (inl e) h = absurd h
        by_result (inr b) h = (b, refl, h.0, h.1)
