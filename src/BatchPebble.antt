-- ===== src/BatchPebble.antt =====
-- internal/database/pebble/batch_pebble.go: the processor of a LUN, that runs a batch of requests, commits
-- it, and gives each of them the outcome. The database and its commit are parameters.
pub mod Flush
pub mod Processor
mod Examples
use corgi.Base.{
  ℕ, zero, suc, Bool, true, false, not, List, [], ◌∷◌, ◌==◌, if◌then◌else◌, length, map, Option,
  none, some,
}
use corgi.WriteBatch.{Batch, Field, put, delete}

pub data Error : Type 0 where
  length_mismatch not_implemented missing_put_key missing_consumer unknown_type : Error
  write_failed stopped no_processor : Error
  custom : ℕ → Error

pub data Try {ℓ} (A : Type ℓ) : Type ℓ where
  ok : A → Try A
  failed : Error → Try A

-- RequestType, with the consumer of a CustomizeOperate request, which may be nil. A consumer has the batch
-- and the database itself, and may write to either.
pub data RequestType (S D : Type 0) : Type 0 where
  customize_operate : Option (S → D → Try S × D) → RequestType S D
  put_only : RequestType S D
  compare_and_put : RequestType S D
  delete_and_put : RequestType S D
  unknown : RequestType S D

-- `result` is what was sent on the channel, `none` a nil error.
pub record BatchRequest (S D : Type 0) : Type 0 where
  pub type : RequestType S D
  pub keys : List (List ℕ)
  pub values : List (List ℕ)
  pub low_priority : Bool
  pub done : Bool
  pub result : List (Option Error)

-- if req.done.CompareAndSwap(false, true) { req.result <- err }
unfoldable pub notify : {S D : Type 0} → Option Error → BatchRequest S D → BatchRequest S D
notify e req = if req.done then req else record req { done = true; result = e ∷ req.result }

unfoldable pub only_low : {S D : Type 0} → Bool → List (BatchRequest S D) → List (BatchRequest S D)
only_low low [] = []
only_low low (r ∷ rs) =
    let rest = only_low low rs in
    if r.low_priority then (if low then r ∷ rest else rest) else (if low then rest else r ∷ rest)

abbrev pub to_try : {S : Type 0} → Option S → Try S
to_try none = failed write_failed
to_try (some s) = ok s

module _ {S : Type 0} (batch : Batch S) (unmarshal : List ℕ → Option Field) where
  unfoldable pub put_all : List (List ℕ) → List (List ℕ) → S → Try S
  put_all [] vs s = ok s
  put_all (k ∷ ks) [] s = ok s
  put_all (k ∷ ks) (v ∷ vs) s = elim (put batch unmarshal k v s) [
    | none ↦ failed write_failed
    | some s' ↦ put_all ks vs s'
  ]

  unfoldable pub handle_put_only : {D : Type 0} → BatchRequest S D → S → Try S
  handle_put_only req s =
      if length req.keys == length req.values
      then put_all req.keys req.values s
      else failed length_mismatch

  unfoldable pub delete_all : List (List ℕ) → S → Try S
  delete_all [] s = ok s
  delete_all (k ∷ ks) s = elim (delete batch k s) [
    | none ↦ failed write_failed
    | some s' ↦ delete_all ks s'
  ]

  last_key : List ℕ → List (List ℕ) → List ℕ
  last_key k [] = k
  last_key k (l ∷ ls) = last_key l ls

  -- The put that follows the deletions.
  unfoldable pub put_last : List (List ℕ) → List (List ℕ) → S → Try S
  unfolding last_key
  put_last keys [] s = ok s
  put_last [] (v ∷ vs) s = failed missing_put_key
  put_last (k ∷ ks) (v ∷ vs) s = to_try (put batch unmarshal (last_key k ks) v s)

  unfoldable pub handle_delete_and_put : {D : Type 0} → BatchRequest S D → S → Try S
  handle_delete_and_put req s = elim (delete_all req.keys s) [
    | failed e ↦ failed e
    | ok s' ↦ put_last req.keys req.values s'
  ]

  unfoldable pub handle_request : {D : Type 0} → BatchRequest S D → S → D → Try S × D
  handle_request req s db = elim req.type [
    | customize_operate none ↦ (failed missing_consumer, db)
    | customize_operate (some consumer) ↦ consumer s db
    | put_only ↦ (handle_put_only req s, db)
    | compare_and_put ↦ (failed not_implemented, db)
    | delete_and_put ↦ (handle_delete_and_put req s, db)
    | unknown ↦ (failed unknown_type, db)
  ]

  -- for _, req := range normal, until the first error.
  unfoldable pub handle_requests : {D : Type 0} → List (BatchRequest S D) → S → D → Try S × D
  handle_requests [] s db = (ok s, db)
  handle_requests (r ∷ rs) s db =
      let (t, db') = handle_request r s db in
      elim t [ failed e ↦ (failed e, db') | ok s' ↦ handle_requests rs s' db' ]

  -- The normal requests, then those of low priority.
  unfoldable pub run_batch : {D : Type 0} → List (BatchRequest S D) → S → D → Try S × D
  run_batch requests s db =
      let (t, db') = handle_requests (only_low false requests) s db in
      elim t [
        | failed e ↦ (failed e, db')
        | ok s' ↦ handle_requests (only_low true requests) s' db'
      ]

  -- flush: the error of the batch, the requests and the database after it. `commit` writes what is
  -- staged to the database; the caller resets the batch.
  unfoldable pub flush :
      {D : Type 0}
      → (S → D → Option Error × D)
      → List (BatchRequest S D)
      → S
      → D
      → Option Error × List (BatchRequest S D) × D
  flush commit requests s db =
      let (t, db') = run_batch requests s db in
      elim t [
        | failed e ↦ (some e, map (notify (some e)) requests, db')
        | ok s' ↦ let (e, after) = commit s' db' in (e, map (notify e) requests, after)
      ]
