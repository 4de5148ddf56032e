-- ===== src/Moss/Examples.antt =====
-- Runs of the merge operator, and its theorems at concrete values.
use corgi.Base.{
  ℕ, ◌+◌, ◌%◌, ◌^◌, ◌<◌, ◌≡◌, ◌≢◌, ◌↔◌, refl, ap, ◌∙◌, sym, true, not, List, [], ◌∷◌, ◌++◌, arith,
  get_or, replicate, length-replicate, get_or-replicate, get_or-beyond, get_le, if◌then◌else◌,
  Option, none, some, inl, inr, lt-or-le,
}
use corgi.Base.Word.{bit_at, bit_at-zero, bit_at-ones}
use corgi.Moss.{
  bitmap_merge, json_merge, merge_newer, merge_older, ValueMerger, extract_json_field, has_json_key,
  compare_version, is_positive, is_zero, find_name, find_end, unquoted, hyphens, version_num_name,
}
use corgi.Moss.Bitmap.{IsChange, IsBase, bitmap_merge-bitmap_merge}
use corgi.Moss.Version.{IsPlain, is_older, json_merge-swap, compare_version-order}
use corgi.Moss.Counter.{merge_newer-merge_older}

-- A bitmap of free blocks, and the change that allocates all of them.
abbrev blank : List ℕ
blank = replicate 512 0

abbrev allocate_all : List ℕ
allocate_all = replicate 1024 255

blank-byte : (n b i : ℕ) → b < 256 → get_or (replicate n b) i 0 < 256
blank-byte n b i h = elim (lt-or-le i n) [
  | inl inside ↦ omega (arith, get_or-replicate n i b 0 inside, h)
  | inr beyond ↦
      omega (arith, get_or-beyond (replicate n b) i 0 (omega (arith, length-replicate n b)))
]

blank-IsBase : IsBase blank
blank-IsBase = (λ i. blank-byte 512 0 i (omega arith), length-replicate {A = ℕ} 512 0)

allocate_all-bit : (i k : ℕ) → i < 1024 → k < 8 → bit_at (get_or allocate_all i 0) k ≡ 1
allocate_all-bit i k h p =
    ap (λ t. bit_at t k) (get_or-replicate 1024 i 255 0 h) ∙ bit_at-ones 8 k p

blank-bit : (i k : ℕ) → i < 512 → bit_at (get_or blank i 0) k ≡ 0
blank-bit i k h = ap (λ t. bit_at t k) (get_or-replicate {A = ℕ} 512 i 0 0 h) ∙ bit_at-zero k

allocate_all-IsChange : IsChange blank allocate_all
allocate_all-IsChange = record {
  bytes = λ i. blank-byte 1024 255 i (omega arith);
  size = length-replicate {A = ℕ} 1024 255;
  fits = λ i k p q. (
    omega
        (arith, allocate_all-bit i k (omega arith) q, allocate_all-bit (i + 512) k (omega arith) q),
    omega (arith, allocate_all-bit i k (omega arith) q, blank-bit i k p),
    omega (arith, allocate_all-bit (i + 512) k (omega arith) q),
  );
}

bitmap_merge-bitmap_merge_example :
    (r : List ℕ) × (both : List ℕ) × (result : List ℕ) × (bitmap_merge blank allocate_all ≡ some r)
    × (bitmap_merge r allocate_all ≡ some result)
    × (bitmap_merge allocate_all allocate_all ≡ some both)
    × (bitmap_merge blank both ≡ some result)
bitmap_merge-bitmap_merge_example =
    bitmap_merge-bitmap_merge blank allocate_all allocate_all blank-IsBase allocate_all-IsChange
      (λ i. blank-byte 1024 255 i (omega arith)) (length-replicate {A = ℕ} 1024 255)
      (λ i k p q.
        omega (
          arith,
          allocate_all-bit i k (omega arith) q,
          allocate_all-bit (i + 512) k (omega arith) q,
        ))

-- {"versionNum":"a"} with the version given.
abbrev versioned : ℕ → List ℕ
versioned v = 123 ∷ version_num_name ++ 34 ∷ v ∷ 34 ∷ 125 ∷ []

version_97 : extract_json_field (versioned 97) version_num_name ≡ some (97 ∷ [])
unfolding extract_json_field find_name find_end unquoted
version_97 = refl

version_98 : extract_json_field (versioned 98) version_num_name ≡ some (98 ∷ [])
unfolding extract_json_field find_name find_end unquoted
version_98 = refl

IsPlain-97 : IsPlain (versioned 97)
unfolding extract_json_field find_name find_end unquoted has_json_key hyphens
IsPlain-97 = record { stamp_is_old = omega arith; not_deleted = refl }

IsPlain-98 : IsPlain (versioned 98)
unfolding extract_json_field find_name find_end unquoted has_json_key hyphens
IsPlain-98 = record { stamp_is_old = omega arith; not_deleted = refl }

abbrev first_byte : Option (List ℕ) → ℕ
first_byte none = 0
first_byte (some []) = 0
first_byte (some (b ∷ bs)) = b

versions_differ :
    extract_json_field (versioned 97) version_num_name
    ≢ extract_json_field (versioned 98) version_num_name
versions_differ e = omega (arith, ap first_byte (sym version_97 ∙ e ∙ version_98))

json_merge-swap_example :
    (json_merge (versioned 97) (versioned 98) ≡ json_merge (versioned 98) (versioned 97))
    × (json_merge (versioned 97) (versioned 98) ≡ (
        if is_older
          (extract_json_field (versioned 97) version_num_name)
          (extract_json_field (versioned 98) version_num_name)
        then versioned 98
        else versioned 97))
json_merge-swap_example =
    json_merge-swap (versioned 97) (versioned 98) IsPlain-97 IsPlain-98 versions_differ

abbrev version_a : Option (List ℕ)
version_a = some (97 ∷ [])

abbrev no_version : Option (List ℕ)
no_version = none

compare_version-order_example :
    (is_zero (compare_version version_a no_version) ≡ true ↔ version_a ≡ no_version)
    × (version_a ≢ no_version
        → is_positive (compare_version version_a no_version)
          ≡ not (is_positive (compare_version no_version version_a)))
compare_version-order_example = compare_version-order version_a no_version

abbrev counter : ℕ → List ℕ
counter n = n ∷ 0 ∷ 0 ∷ 0 ∷ 0 ∷ 0 ∷ 0 ∷ 0 ∷ []

abbrev merger : ValueMerger
merger = record { key = 33 ∷ []; value = counter 7 }

merge_newer-merge_older_example :
    (merge_newer (counter 3) (merge_older (counter 5) merger).1
      ≡ merge_older (counter 5) (merge_newer (counter 3) merger).1)
    × ((merge_newer (counter 3) (merge_older (counter 5) merger).1).0 ≡ true)
    × (get_le (merge_newer (counter 3) (merge_older (counter 5) merger).1).1.value
        ≡ (get_le (counter 5) + get_le merger.value + get_le (counter 3)) % 2 ^ 64)
merge_newer-merge_older_example =
    merge_newer-merge_older (counter 5) (counter 3) merger refl refl refl
