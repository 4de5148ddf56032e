-- ===== src/WriteBatch/Reads.antt =====
-- What is read after a write of the batch.
use corgi.Base.{
  length, ◌≡◌, ◌≢◌, refl, sym, ap, ◌∙◌, ℕ, true, false, List, Option, none, some, Bool-cases, inl,
  inr, arith,
}
use corgi.WriteBatch.{
  Batch, Field, found, not_found, starts_with_digit, get_delete_mark_key, is_delete_marker,
  get_from_batch_and_db, get_copy, put, delete,
}

-- An open indexed batch: it takes every write, and reads what it has staged last for the key.
pub record IsIndexed {S : Type 0} (batch : Batch S) : Type 0 where
  pub set_self : (k v : List ℕ) (s t : S) → batch.set k v s ≡ some t → batch.get k t ≡ found v
  pub set_other :
      (k v l : List ℕ) (s t : S) → batch.set k v s ≡ some t → k ≢ l → batch.get l t ≡ batch.get l s
  pub delete_self : (k : List ℕ) (s t : S) → batch.delete k s ≡ some t → batch.get k t ≡ not_found
  pub delete_other :
      (k l : List ℕ) (s t : S) → batch.delete k s ≡ some t → k ≢ l → batch.get l t ≡ batch.get l s
  pub sets : (k v : List ℕ) (s : S) → (t : S) × (batch.set k v s ≡ some t)
  pub deletes : (k : List ℕ) (s : S) → (t : S) × (batch.delete k s ≡ some t)

tilde-ne : (k : List ℕ) → get_delete_mark_key k ≢ k
unfolding get_delete_mark_key
tilde-ne k e = omega (arith, ap length e)

module _ {S : Type 0} (batch : Batch S) (indexed : IsIndexed batch) where
  -- The state after both keys of an object are deleted.
  delete-gone :
      (key : List ℕ) (s : S)
      → (t : S) × (delete batch key s ≡ some t)
        × (batch.get key t ≡ not_found)
        × (starts_with_digit key ≡ true → batch.get (get_delete_mark_key key) t ≡ not_found)
        × ((l : List ℕ) → key ≢ l → get_delete_mark_key key ≢ l → batch.get l t ≡ batch.get l s)
  unfolding delete
  delete-gone key s = elim (Bool-cases (starts_with_digit key)) [
    | inl digit ↦
        let (s1, e1) = indexed.deletes (get_delete_mark_key key) s in
        let (s2, e2) = indexed.deletes key s1 in
        (
          s2,
          rw (digit, e1) e2,
          indexed.delete_self key s1 s2 e2,
          λ d.
              indexed.delete_other key (get_delete_mark_key key) s1 s2 e2
                (λ e. tilde-ne key (sym e))
              ∙ indexed.delete_self (get_delete_mark_key key) s s1 e1,
          λ l p q.
              indexed.delete_other key l s1 s2 e2 p
              ∙ indexed.delete_other (get_delete_mark_key key) l s s1 e1 q,
        )
    | inr plain ↦
        let (s1, e1) = indexed.deletes key s in
        (
          s1,
          rw plain e1,
          indexed.delete_self key s s1 e1,
          λ d. absurd (ground (arith, d, plain)),
          λ l p q. indexed.delete_other key l s s1 e1 p,
        )
  ]

  get_copy-found :
      (k v : List ℕ) (t : S) → batch.get k t ≡ found v → get_copy batch k t ≡ some (some v)
  unfolding get_copy
  get_copy-found k v t e = rw (get_copy, e) refl

  get_copy-not_found :
      (k : List ℕ) (t : S) → batch.get k t ≡ not_found → get_copy batch k t ≡ some none
  unfolding get_copy
  get_copy-not_found k t e = rw (get_copy, e) refl

  read-original :
      (key v : List ℕ) (t : S)
      → batch.get key t ≡ found v
      → get_from_batch_and_db batch key t ≡ some (some v)
  unfolding get_from_batch_and_db
  read-original key v t e = elim (Bool-cases (starts_with_digit key)) [
    | inl digit ↦ rw (digit, get_copy-found key v t e) refl
    | inr plain ↦ rw (plain, get_copy-found key v t e) refl
  ]

  read-marked :
      (key : List ℕ) (v : Option (List ℕ)) (t : S)
      → starts_with_digit key ≡ true
      → batch.get key t ≡ not_found
      → get_copy batch (get_delete_mark_key key) t ≡ some v
      → get_from_batch_and_db batch key t ≡ some v
  unfolding get_from_batch_and_db
  read-marked key v t digit e f = rw (digit, get_copy-not_found key t e) f

  read-plain :
      (key : List ℕ) (t : S)
      → starts_with_digit key ≡ false
      → batch.get key t ≡ not_found
      → get_from_batch_and_db batch key t ≡ some none
  unfolding get_from_batch_and_db
  read-plain key t plain e = rw (plain, get_copy-not_found key t e) refl

  -- On an open indexed batch a put succeeds, and what was put is read back by its own key, whether
  -- the value is a delete marker or not.
  pub get_from_batch_and_db-put :
      (unmarshal : List ℕ → Option Field) (key value : List ℕ) (s : S)
      → (t : S) × (put batch unmarshal key value s ≡ some t)
        × (get_from_batch_and_db batch key t ≡ some (some value))
  unfolding put
  get_from_batch_and_db-put unmarshal key value s = elim (Bool-cases (starts_with_digit key)) [
    | inr plain ↦
        let (t, e) = indexed.sets key value s in
        (t, rw plain e, read-original key value t (indexed.set_self key value s t e))
    | inl digit ↦
        let (s1, made, missing, _, _) = delete-gone key s in
        elim (Bool-cases (is_delete_marker unmarshal value)) [
          | inr object ↦
              let (t, e) = indexed.sets key value s1 in
              (
                t,
                rw (digit, made, object) e,
                read-original key value t (indexed.set_self key value s1 t e),
              )
          | inl mark ↦
              let (t, e) = indexed.sets (get_delete_mark_key key) value s1 in
              (
                t,
                rw (digit, made, mark) e,
                read-marked key (some value) t digit
                    (indexed.set_other (get_delete_mark_key key) value key s1 t e (tilde-ne key)
                      ∙ missing)
                    (get_copy-found (get_delete_mark_key key) value t
                      (indexed.set_self (get_delete_mark_key key) value s1 t e)),
              )
        ]
  ]

  -- On an open indexed batch a deletion succeeds; after it nothing is read by the key, neither the
  -- object nor its delete marker, and what is stored under keys other than those two is as it was.
  pub get_from_batch_and_db-delete :
      (key : List ℕ) (s : S)
      → (t : S) × (delete batch key s ≡ some t)
        × (get_from_batch_and_db batch key t ≡ some none)
        × ((l : List ℕ) → key ≢ l → get_delete_mark_key key ≢ l → batch.get l t ≡ batch.get l s)
  get_from_batch_and_db-delete key s =
      let (t, made, missing, unmarked, kept) = delete-gone key s in
      elim (Bool-cases (starts_with_digit key)) [
        | inl digit ↦ (
          t,
          made,
          read-marked key none t digit missing
              (get_copy-not_found (get_delete_mark_key key) t (unmarked digit)),
          kept,
        )
        | inr plain ↦ (t, made, read-plain key t plain missing, kept)
      ]
