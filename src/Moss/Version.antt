-- ===== src/Moss/Version.antt =====
-- compareVersion and the choice of mossJSONMerge by versionNum.
use corgi.Base.{
  ℕ, Bool, ltb, ◌||◌, ◌&&◌, ◌==◌, ◌≡◌, refl, sym, ap, ap₂, ◌∙◌, inl, inr, true, false, not, List,
  [], ◌∷◌, arith, lt→leb, Bool-cases, Option, none, some, ◌<◌, ◌↔◌, ◌≢◌, if◌then◌else◌,
}
use corgi.Moss.{
  ℤ, difference, is_zero, is_positive, compare_bytes, compare_version, hyphens, version_winner,
  json_merge, extract_json_field, has_json_key, sync_stamp_name, version_num_name, delete_mark_name,
}

-- One result is the other with the sign turned.
abbrev Opposite : ℤ → ℤ → Type 0
Opposite c d = (is_zero c ≡ is_zero d) × (is_zero c ≡ false → is_positive c ≡ not (is_positive d))

difference-Opposite : (x y : ℕ) → Opposite (difference y x) (difference x y)
unfolding difference
difference-Opposite x y = (ground arith, λ h. ground arith)

difference-zero : (x y : ℕ) → is_zero (difference y x) ≡ true → x ≡ y
unfolding difference
difference-zero x y h = ground arith

compare_bytes-step :
    (x : ℕ) (xs : List ℕ) (y : ℕ) (ys : List ℕ)
    → compare_bytes (x ∷ xs) (y ∷ ys)
      ≡ (if is_zero (difference y x) then compare_bytes xs ys else difference y x)
unfolding compare_bytes
compare_bytes-step x xs y ys = refl

compare_bytes-Opposite : (v1 v2 : List ℕ) → Opposite (compare_bytes v1 v2) (compare_bytes v2 v1)
compare_bytes-Opposite [] [] = unfold compare_bytes in (refl, λ h. absurd (ground arith))
compare_bytes-Opposite [] (y ∷ ys) = unfold compare_bytes in (refl, λ h. refl)
compare_bytes-Opposite (x ∷ xs) [] = unfold compare_bytes in (refl, λ h. refl)
compare_bytes-Opposite (x ∷ xs) (y ∷ ys) =
    let rest = compare_bytes-Opposite xs ys in
    let here = difference-Opposite x y in
    elim (Bool-cases (is_zero (difference y x))) [
      | inl same ↦
          rw (compare_bytes-step x xs y ys, compare_bytes-step y ys x xs, same, sym here.0 ∙ same)
            rest
      | inr other ↦
          rw (compare_bytes-step x xs y ys, compare_bytes-step y ys x xs, other, sym here.0 ∙ other)
            here
    ]

compare_bytes-zero : (v1 v2 : List ℕ) → is_zero (compare_bytes v1 v2) ≡ true → v1 ≡ v2
unfolding compare_bytes
compare_bytes-zero [] [] h = refl
compare_bytes-zero [] (y ∷ ys) h = absurd (ground (arith, h))
compare_bytes-zero (x ∷ xs) [] h = absurd (ground (arith, h))
compare_bytes-zero (x ∷ xs) (y ∷ ys) h = elim (Bool-cases (is_zero (difference y x))) [
  | inl same ↦ ap₂ ◌∷◌ (difference-zero x y same) (compare_bytes-zero xs ys (rw same at h))
  | inr other ↦ absurd (ground (arith, h, other))
]

compare_bytes_self : (v : List ℕ) → is_zero (compare_bytes v v) ≡ true
compare_bytes_self v = elim (Bool-cases (is_zero (compare_bytes v v))) [
  | inl e ↦ e
  | inr e ↦ absurd (ground (arith, (compare_bytes-Opposite v v).1 e))
]

compare_version-Opposite :
    (v1 v2 : Option (List ℕ)) → Opposite (compare_version v1 v2) (compare_version v2 v1)
unfolding compare_version
compare_version-Opposite none none = (refl, λ h. absurd (ground arith))
compare_version-Opposite none (some v2) = (refl, λ h. refl)
compare_version-Opposite (some v1) none = (refl, λ h. refl)
compare_version-Opposite (some v1) (some v2) = compare_bytes-Opposite v1 v2

compare_version-zero : (v1 v2 : Option (List ℕ)) → is_zero (compare_version v1 v2) ≡ true → v1 ≡ v2
unfolding compare_version
compare_version-zero none none h = refl
compare_version-zero none (some v2) h = absurd (ground (arith, h))
compare_version-zero (some v1) none h = absurd (ground (arith, h))
compare_version-zero (some v1) (some v2) h = ap some (compare_bytes-zero v1 v2 h)

compare_version_self : (v : Option (List ℕ)) → is_zero (compare_version v v) ≡ true
unfolding compare_version
compare_version_self none = refl
compare_version_self (some v) = compare_bytes_self v

-- The comparison of versions is 0 exactly for equal versions, and for different ones it is
-- positive in one order of its arguments and not in the other.
pub compare_version-order :
    (v1 v2 : Option (List ℕ))
    → (is_zero (compare_version v1 v2) ≡ true ↔ v1 ≡ v2)
      × (v1 ≢ v2 → is_positive (compare_version v1 v2) ≡ not (is_positive (compare_version v2 v1)))
compare_version-order v1 v2 = (
  (compare_version-zero v1 v2, λ e. rw e (compare_version_self v2)),
  λ different.
      (compare_version-Opposite v1 v2).1 (elim (Bool-cases (is_zero (compare_version v1 v2))) [
        | inl e ↦ absurd (different (compare_version-zero v1 v2 e))
        | inr e ↦ e
      ]),
)

abbrev stamp : List ℕ → Option (List ℕ)
stamp v = extract_json_field v sync_stamp_name

abbrev version : List ℕ → Option (List ℕ)
version v = extract_json_field v version_num_name

-- Metadata with no stamp of a dual-active site and no delete mark.
pub record IsPlain (v : List ℕ) : Type 0 where
  pub stamp_is_old : hyphens (stamp v) < 2
  pub not_deleted : has_json_key v delete_mark_name ≡ false

json_merge-version_winner :
    (a b : List ℕ) → hyphens (stamp b) < 2 → json_merge a b ≡ version_winner a b
unfolding json_merge
json_merge-version_winner a b h = rw (lt→leb 2 (hyphens (stamp b)) h) refl

version_winner-swap :
    (a b : List ℕ)
    → has_json_key a delete_mark_name ≡ false
    → has_json_key b delete_mark_name ≡ false
    → version a ≢ version b
    → version_winner a b ≡ version_winner b a
unfolding version_winner
version_winner-swap a b p q different =
    let forth = compare_version-order (version a) (version b) in
    let back = compare_version-order (version b) (version a) in
    elim (Bool-cases (is_zero (compare_version (version a) (version b)))) [
      | inl e ↦ absurd (different (forth.0.0 e))
      | inr e ↦ elim (Bool-cases (is_zero (compare_version (version b) (version a)))) [
        | inl f ↦ absurd (different (sym (back.0.0 f)))
        | inr f ↦ elim (Bool-cases (is_positive (compare_version (version b) (version a)))) [
          | inl g ↦ rw (e, f, g, forth.1 different ∙ ap not g, p) refl
          | inr g ↦ rw (e, f, g, forth.1 different ∙ ap not g, q) refl
        ]
      ]
    ]

version_winner-greater :
    (a b : List ℕ)
    → has_json_key a delete_mark_name ≡ false
    → version a ≢ version b
    → version_winner a b ≡ (if is_positive (compare_version (version a) (version b)) then b else a)
unfolding version_winner
version_winner-greater a b p different =
    elim (Bool-cases (is_zero (compare_version (version a) (version b)))) [
      | inl e ↦ absurd (different ((compare_version-order (version a) (version b)).0.0 e))
      | inr e ↦ rw (e, p) refl
    ]

-- The order of a dictionary; a version that is not there comes before every other.
abbrev pub precedes : List ℕ → List ℕ → Bool
precedes [] [] = false
precedes [] (y ∷ ys) = true
precedes (x ∷ xs) [] = false
precedes (x ∷ xs) (y ∷ ys) = ltb x y || (x == y && precedes xs ys)

abbrev pub is_older : Option (List ℕ) → Option (List ℕ) → Bool
is_older none none = false
is_older none (some v2) = true
is_older (some v1) none = false
is_older (some v1) (some v2) = precedes v1 v2

is_positive-difference :
    (x y : ℕ) (c : Bool)
    → is_zero (difference y x) ≡ false
    → is_positive (difference y x) ≡ ltb x y || (x == y && c)
unfolding difference
is_positive-difference x y c h = ground (arith, h)

compare_bytes-precedes : (v1 v2 : List ℕ) → is_positive (compare_bytes v1 v2) ≡ precedes v1 v2
compare_bytes-precedes [] [] = unfold compare_bytes in refl
compare_bytes-precedes [] (y ∷ ys) = unfold compare_bytes in refl
compare_bytes-precedes (x ∷ xs) [] = unfold compare_bytes in refl
compare_bytes-precedes (x ∷ xs) (y ∷ ys) = elim (Bool-cases (is_zero (difference y x))) [
  | inl same ↦
      rw (compare_bytes-step x xs y ys, same)
        (compare_bytes-precedes xs ys ∙ equal x y (precedes xs ys) same)
  | inr other ↦
      rw (compare_bytes-step x xs y ys, other) (is_positive-difference x y (precedes xs ys) other)
]
  where
    equal : (x y : ℕ) (c : Bool) → is_zero (difference y x) ≡ true → c ≡ ltb x y || (x == y && c)
    equal x y c h = let e = difference-zero x y h in ground (arith, e)

compare_version-is_older :
    (v1 v2 : Option (List ℕ)) → is_positive (compare_version v1 v2) ≡ is_older v1 v2
unfolding compare_version
compare_version-is_older none none = refl
compare_version-is_older none (some v2) = refl
compare_version-is_older (some v1) none = refl
compare_version-is_older (some v1) (some v2) = compare_bytes-precedes v1 v2

-- Two values of an object with different versions, no stamp of a dual-active site and no delete
-- mark merge to the same value in either order: the incoming one exactly where the version of the
-- existing one comes before its version in the order of a dictionary, a missing version before
-- every other.
pub json_merge-swap :
    (a b : List ℕ)
    → IsPlain a
    → IsPlain b
    → version a ≢ version b
    → (json_merge a b ≡ json_merge b a)
      × (json_merge a b ≡ (if is_older (version a) (version b) then b else a))
json_merge-swap a b p q different = (
  json_merge-version_winner a b q.stamp_is_old
      ∙ version_winner-swap a b p.not_deleted q.not_deleted different
      ∙ sym (json_merge-version_winner b a p.stamp_is_old),
  json_merge-version_winner a b q.stamp_is_old
      ∙ version_winner-greater a b p.not_deleted different
      ∙ ap (λ (t : Bool). if t then b else a) (compare_version-is_older (version a) (version b)),
)
