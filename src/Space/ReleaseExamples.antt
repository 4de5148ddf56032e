-- ===== src/Space/ReleaseExamples.antt =====
-- The theorems on Release and on a restart at a device of 128 blocks that are all allocated.
use corgi.Base.{
  ℕ, zero, suc, ◌-◌, ◌/◌, ◌%◌, ◌≡◌, refl, ap, ◌∙◌, List, [], ◌∷◌, map, replicate, length-replicate,
  get_or, get_or-replicate, Option, none, some, arith, same_refl, same-ne, AreBytes, ◌<◌, inr,
}
use corgi.Base.Word.{bit_at, bit_at-ones}
use corgi.Alloc.Geometry.{Result}
use corgi.Alloc.Store.Entries.{get_entry-zero}
use corgi.Alloc.Store.{AllocatorV3, get_entry}
use corgi.Alloc.Api.{release}
use corgi.Alloc.Api.Extents.{AreDisjoint}
use corgi.Alloc.Mark.Blocks.{block_bit}
use corgi.Alloc.Calls.{IsSound}
use corgi.Alloc.Examples.{taken, taken-clear, taken-IsValid}
use corgi.WriteBatch.{Field}
use corgi.Space.{copy_into, normalize_space_value}
use corgi.Space.Restore.{IsStored}
use corgi.Space.Restart.{load_allocator-Agrees}
use corgi.Alloc.Api.{new_allocator}
use corgi.Space.Device.{
  load_allocator, load_space_value, family_space_key, in_bytes_of, release_device,
}
use corgi.Space.Grants.{Agrees}
use corgi.Space.Releases.{IsSetting, release_device-Agrees}
use corgi.Space.Examples.{Bitmaps, put_bitmap, bitmaps, read}

bitmaps-IsSetting : IsSetting bitmaps read
bitmaps-IsSetting = record {
  sets = λ key value s. (
    put_bitmap key value s,
    refl,
    rw (same_refl key) refl,
    λ other h. rw (same-ne other key h) refl,
  );
}

no_words : (w : ℕ) → get_or {A = ℕ} (0 ∷ []) w 0 ≡ 0
no_words zero = refl
no_words (suc w) = refl

no_entries : (w p : ℕ) → get_entry (get_or {A = ℕ} (0 ∷ []) w 0) p ≡ 0
no_entries w p = ap (λ t. get_entry t p) (no_words w) ∙ get_entry-zero p

taken-IsSound : IsSound 128 taken
taken-IsSound = record {
  size = refl;
  valid = taken-IsValid;
  sums = record {
    covers1 = omega arith;
    covers2 = omega arith;
    tells1 = λ k. record {
      free = λ e. absurd (omega (arith, e, no_entries (k / 32) (k % 32)));
      full = λ e b p q r. taken-clear b;
    };
    tells2 = λ k. record {
      free = λ e. absurd (omega (arith, e, no_entries (k / 32) (k % 32)));
      full = λ e b p q r. taken-clear b;
    };
  };
}

-- The persisted bitmap of a device where every block is allocated.
abbrev full_spaces : Bitmaps
full_spaces k = replicate 512 255

abbrev stored_spaces : List ℕ → Option (Option (List ℕ))
stored_spaces key = some (some (full_spaces key))

taken-Agrees : Agrees 128 read taken full_spaces
taken-Agrees x h =
    taken-clear x
    ∙ ground (
      arith,
      ap (λ t. bit_at t (7 - x % 4096 % 8))
          (get_or-replicate 512 (x % 4096 / 8) 255 0 (omega arith)),
      bit_at-ones 8 (7 - x % 4096 % 8) (omega arith),
    )

-- No value is a JSON object.
abbrev no_field : List ℕ → Option Field
no_field value = none

abbrev two_extents : List Result
two_extents = record { offset = 60; size = 10 } ∷ record { offset = 3; size = 2 } ∷ []

apart : AreDisjoint two_extents
apart = (λ x h. ground (arith, h), (λ x h. refl, tt))

release_device-Agrees_example :
    (s' : Bitmaps) × (release_device stored_spaces bitmaps no_field
        (map in_bytes_of two_extents)
        full_spaces
        taken
      ≡ (none, s', (release two_extents taken).1))
    × IsSound 128 (release two_extents taken).1
    × Agrees 128 read (release two_extents taken).1 s'
release_device-Agrees_example =
    release_device-Agrees stored_spaces bitmaps no_field read bitmaps-IsSetting 128 (omega arith)
      taken taken-IsSound full_spaces (λ k h. length-replicate {A = ℕ} 512 255) (λ k h. refl)
      taken-Agrees two_extents (omega arith, omega arith, (omega arith, omega arith, tt)) apart
      (λ x h. taken-clear x)

replicate-AreBytes : (n : ℕ) → AreBytes (replicate n 255)
replicate-AreBytes zero i = omega arith
replicate-AreBytes (suc n) zero = omega arith
replicate-AreBytes (suc n) (suc i) = replicate-AreBytes n i

full-IsStored : IsStored stored_spaces 524288 (λ k. read (family_space_key k) full_spaces)
full-IsStored = record {
  loads = λ i h. unfold load_space_value normalize_space_value copy_into in refl;
  bytes = λ i h. replicate-AreBytes 512;
}

load_allocator-Agrees_example :
    (b : AllocatorV3) × (load_allocator stored_spaces 524288 (new_allocator (524288 / 4096))
      ≡ inr b)
    × IsSound (524288 / 4096) b
    × ((x : ℕ) → x < 524288 / 4096 → block_bit b.l0 x ≡ block_bit taken.l0 x)
    × (b.available ≡ taken.available)
load_allocator-Agrees_example =
    load_allocator-Agrees stored_spaces read full_spaces 524288 (omega arith) (omega arith)
      full-IsStored taken taken-IsSound taken-Agrees
