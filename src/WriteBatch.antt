-- ===== src/WriteBatch.antt =====
-- internal/database/pebble/WriteBatch.go: a batch that keeps the metadata of an object (a key that
-- starts with a digit) and its delete marker under two keys. The indexed batch of Pebble and
-- json.Unmarshal are parameters. The branches for a migration are empty in the source.
pub mod Reads
mod Examples
use corgi.Base.{
  ℕ, zero, suc, Bool, true, false, ◌&&◌, ◌||◌, List, [], ◌∷◌, leb, ◌==◌, if◌then◌else◌, Option,
  none, some,
}

pub data Lookup : Type 0 where
  found : List ℕ → Lookup
  not_found : Lookup
  failed : Lookup

-- What a WriteBatch calls of *pebble.Batch; `none` is an error.
pub record Batch (S : Type 0) : Type 0 where
  pub get : List ℕ → S → Lookup
  pub set : List ℕ → List ℕ → S → Option S
  pub delete : List ℕ → S → Option S
  pub merge : List ℕ → List ℕ → S → Option S

-- The field deleteMark of a JSON object: a Boolean, a string, or neither.
pub data Field : Type 0 where
  boolean : Bool → Field
  string : List ℕ → Field
  other : Field

unfoldable pub starts_with_digit : List ℕ → Bool
starts_with_digit [] = false
starts_with_digit (b ∷ bs) = leb 48 b && leb b 57

abbrev pub marker : ℕ
marker = 126

unfoldable pub get_delete_mark_key : List ℕ → List ℕ
get_delete_mark_key key = marker ∷ key

-- bytes.Contains.
unfoldable pub has_prefix : List ℕ → List ℕ → Bool
has_prefix [] s = true
has_prefix (x ∷ xs) [] = false
has_prefix (x ∷ xs) (y ∷ ys) = if x == y then has_prefix xs ys else false

unfoldable pub contains : List ℕ → List ℕ → Bool
unfolding has_prefix
contains sub [] = has_prefix sub []
contains sub (b ∷ bs) = if has_prefix sub (b ∷ bs) then true else contains sub bs

abbrev pub true_text : List ℕ
true_text = 116 ∷ 114 ∷ 117 ∷ 101 ∷ []

-- "deleteMark":
abbrev pub field_text : List ℕ → List ℕ
field_text rest = 34 ∷ 100 ∷ 101 ∷ 108 ∷ 101 ∷ 116 ∷ 101 ∷ 77 ∷ 97 ∷ 114 ∷ 107 ∷ 34 ∷ 58 ∷ rest

-- `unmarshal` gives the field of a value that is a JSON object.
unfoldable pub is_delete_marker : (List ℕ → Option Field) → List ℕ → Bool
unfolding contains
is_delete_marker unmarshal value =
    let by_text =
      contains (field_text true_text) value
      || contains (field_text (34 ∷ 116 ∷ 114 ∷ 117 ∷ 101 ∷ 34 ∷ [])) value in
    elim (unmarshal value) [
      | none ↦ by_text
      | some other ↦ by_text
      | some (boolean v) ↦ v
      | some (string v) ↦ contains true_text v
    ]

module _ {S : Type 0} (batch : Batch S) where
  -- getCopy: `some none` is a key that is not there, `none` an error.
  unfoldable pub get_copy : List ℕ → S → Option (Option (List ℕ))
  get_copy key s = elim (batch.get key s) [
    | found v ↦ some (some v)
    | not_found ↦ some none
    | failed ↦ none
  ]

  unfoldable pub get_from_batch_and_db : List ℕ → S → Option (Option (List ℕ))
  unfolding get_copy
  get_from_batch_and_db key s =
      let original = get_copy key s in
      let marked = get_copy (get_delete_mark_key key) s in
      if starts_with_digit key
      then elim original [ none ↦ none | some (some v) ↦ some (some v) | some none ↦ marked ]
      else original

  -- The inner call of delete has the marker's key, which no digit starts.
  unfoldable pub delete : List ℕ → S → Option S
  delete key s =
      if starts_with_digit key
      then elim (batch.delete (get_delete_mark_key key) s) [
        | none ↦ none
        | some s' ↦ batch.delete key s'
      ]
      else batch.delete key s

  unfoldable pub put : (List ℕ → Option Field) → List ℕ → List ℕ → S → Option S
  put unmarshal key value s =
      let key' = if is_delete_marker unmarshal value then get_delete_mark_key key else key in
      if starts_with_digit key
      then elim (delete key s) [ none ↦ none | some s' ↦ batch.set key' value s' ]
      else batch.set key value s

  unfoldable pub merge : List ℕ → List ℕ → S → Option S
  merge key value s = batch.merge key value s

  unfoldable pub transfer_and_put : List ℕ → List ℕ → S → Option S
  transfer_and_put key value s = elim (delete key s) [
    | none ↦ none
    | some s' ↦ elim key [
      | [] ↦ batch.set (marker ∷ []) value s'
      | b ∷ bs ↦ batch.set (marker ∷ bs) value s'
    ]
  ]

  unfoldable pub raw_put : List ℕ → List ℕ → S → Option S
  raw_put key value s = batch.set key value s

  unfoldable pub raw_delete : List ℕ → S → Option S
  raw_delete key s = batch.delete key s
