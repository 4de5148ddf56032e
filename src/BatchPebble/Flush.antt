-- ===== src/BatchPebble/Flush.antt =====
-- flush: the outcomes of the requests of a batch, and what is committed.
use corgi.Base.{
  ℕ, Bool, true, false, not, List, [], ◌∷◌, ◌++◌, map, Option, some, ◌≡◌, refl, ap, ap₂, ◌⊎◌, inl,
  inr, if◌then◌else◌, Bool-cases,
}
use corgi.WriteBatch.{Batch, Field}
use corgi.BatchPebble.{
  BatchRequest, Error, Try, ok, failed, notify, only_low, handle_request, handle_requests,
  run_batch, flush,
}

-- A request that has no outcome yet, and one that has this outcome and no other.
abbrev pub IsFresh : {S D : Type 0} → BatchRequest S D → Type 0
IsFresh r = (r.done ≡ false) × (r.result ≡ [])

abbrev pub HasOutcome : {S D : Type 0} → Option Error → BatchRequest S D → Type 0
HasOutcome e r = (r.done ≡ true) × (r.result ≡ e ∷ [])

abbrev pub Every {ℓ ℓ'} : {A : Type ℓ} → (A → Type ℓ') → List A → Type ℓ'
Every P [] = Unit
Every P (x ∷ xs) = P x × Every P xs

-- A request with an outcome, and nothing else of it changed.
abbrev pub told : {S D : Type 0} → Option Error → BatchRequest S D → BatchRequest S D
told e r = record r { done = true; result = e ∷ [] }

notify-told :
    {S D : Type 0} → (e : Option Error) (r : BatchRequest S D) → IsFresh r → notify e r ≡ told e r
unfolding notify
notify-told e r h = simp (h.0, h.1) refl

pub notify-HasOutcome :
    {S D : Type 0}
    → (e : Option Error) (r : BatchRequest S D) → IsFresh r
    → HasOutcome e (notify e r)
unfolding notify
notify-HasOutcome e r h = rw h.0 (refl, ap (λ t. e ∷ t) h.1)

pub map-notify-HasOutcome :
    {S D : Type 0}
    → (e : Option Error) (rs : List (BatchRequest S D)) → Every IsFresh rs
    → Every (HasOutcome e) (map (notify e) rs)
map-notify-HasOutcome e [] h = h
map-notify-HasOutcome e (r ∷ rs) h = (notify-HasOutcome e r h.0, map-notify-HasOutcome e rs h.1)

map-notify-told :
    {S D : Type 0}
    → (e : Option Error) (rs : List (BatchRequest S D)) → Every IsFresh rs
    → map (notify e) rs ≡ map (told e) rs
map-notify-told e [] h = refl
map-notify-told e (r ∷ rs) h = ap₂ ◌∷◌ (notify-told e r h.0) (map-notify-told e rs h.1)

-- The elements that pass a test, in order.
abbrev pub filter {ℓ} : {A : Type ℓ} → (A → Bool) → List A → List A
filter test [] = []
filter test (x ∷ xs) = if test x then x ∷ filter test xs else filter test xs

module _ {S D : Type 0} (batch : Batch S) (unmarshal : List ℕ → Option Field)
    (commit : S → D → Option Error × D) where
  -- The requests in the order in which a flush runs them.
  abbrev pub in_order : List (BatchRequest S D) → List (BatchRequest S D)
  in_order rs =
      filter (λ (r : BatchRequest S D). not r.low_priority) rs
      ++ filter (λ (r : BatchRequest S D). r.low_priority) rs

  -- All requests have been run, one after the other, without an error.
  pub data AllRun : List (BatchRequest S D) → S → D → S → D → Type 0 where
    at_end : (s : S) (db : D) → AllRun [] s db s db
    one_more :
        (r : BatchRequest S D) (rs : List (BatchRequest S D)) (s t u : S) (db db' db'' : D)
        → handle_request batch unmarshal r s db ≡ (ok t, db')
        → AllRun rs t db' u db''
        → AllRun (r ∷ rs) s db u db''

  -- A request has failed, those before it have not, and none after it has been run.
  pub data Breaks : List (BatchRequest S D) → S → D → Error → D → Type 0 where
    at_once :
        (r : BatchRequest S D) (rs : List (BatchRequest S D)) (s : S) (db db' : D) (e : Error)
        → handle_request batch unmarshal r s db ≡ (failed e, db')
        → Breaks (r ∷ rs) s db e db'
    later :
        (r : BatchRequest S D) (rs : List (BatchRequest S D)) (s t : S) (db db' db'' : D)
        (e : Error)
        → handle_request batch unmarshal r s db ≡ (ok t, db')
        → Breaks rs t db' e db''
        → Breaks (r ∷ rs) s db e db''

  only_low-filter :
      (rs : List (BatchRequest S D))
      → (only_low false rs ≡ filter (λ (r : BatchRequest S D). not r.low_priority) rs)
        × (only_low true rs ≡ filter (λ (r : BatchRequest S D). r.low_priority) rs)
  unfolding only_low
  only_low-filter [] = (refl, refl)
  only_low-filter (r ∷ rs) =
      let (p, q) = only_low-filter rs in
      elim (Bool-cases r.low_priority) [
        | inl e ↦ simp e (p, ap (λ t. r ∷ t) q)
        | inr e ↦ simp e (ap (λ t. r ∷ t) p, q)
      ]

  abbrev Outcome : List (BatchRequest S D) → S → D → Try S × D → Type 0
  Outcome rs s db (failed e, db') = Breaks rs s db e db'
  Outcome rs s db (ok t, db') = AllRun rs s db t db'

  then_run-Outcome :
      (r : BatchRequest S D) (rs : List (BatchRequest S D)) (s : S) (db : D) (first : Try S × D)
      → handle_request batch unmarshal r s db ≡ first
      → ((t : S) (db' : D) → Outcome rs t db' (handle_requests batch unmarshal rs t db'))
      → Outcome (r ∷ rs) s db (elim first.0 [
        | failed e ↦ (failed e, first.1)
        | ok t ↦ handle_requests batch unmarshal rs t first.1
      ])
  then_run-Outcome r rs s db (failed e, db') one rest = at_once r rs s db db' e one
  then_run-Outcome r rs s db (ok t, db') one rest =
      by_result (handle_requests batch unmarshal rs t db') (rest t db')
    where
      by_result : (o : Try S × D) → Outcome rs t db' o → Outcome (r ∷ rs) s db o
      by_result (failed e, db'') h = later r rs s t db db' db'' e one h
      by_result (ok u, db'') h = one_more r rs s t u db db' db'' one h

  handle_requests-Outcome :
      (rs : List (BatchRequest S D)) (s : S) (db : D)
      → Outcome rs s db (handle_requests batch unmarshal rs s db)
  unfolding handle_requests
  handle_requests-Outcome [] s db = at_end s db
  handle_requests-Outcome (r ∷ rs) s db =
      then_run-Outcome r rs s db (handle_request batch unmarshal r s db) refl
        (handle_requests-Outcome rs)

  -- A list that is run after another one that has no error.
  AllRun-append :
      (xs ys : List (BatchRequest S D)) (s t : S) (db db' : D) (o : Try S × D)
      → AllRun xs s db t db'
      → Outcome ys t db' o
      → Outcome (xs ++ ys) s db o
  AllRun-append _ ys s _ db _ o (at_end _ _) h = h
  AllRun-append _ ys s _ db _ o (one_more r rs _ t u _ db' db'' one rest) h =
      by_result o (AllRun-append rs ys t u db' db'' o rest h)
    where
      by_result : (o : Try S × D) → Outcome (rs ++ ys) t db' o → Outcome (r ∷ rs ++ ys) s db o
      by_result (failed e, d) h = later r (rs ++ ys) s t db db' d e one h
      by_result (ok v, d) h = one_more r (rs ++ ys) s t v db db' d one h

  Breaks-append :
      (xs ys : List (BatchRequest S D)) (s : S) (db db' : D) (e : Error)
      → Breaks xs s db e db'
      → Breaks (xs ++ ys) s db e db'
  Breaks-append _ ys s db db' e (at_once r rs _ _ _ _ one) = at_once r (rs ++ ys) s db db' e one
  Breaks-append _ ys s db db' e (later r rs _ t _ mid _ _ one rest) =
      later r (rs ++ ys) s t db mid db' e one (Breaks-append rs ys t mid db' e rest)

  run_two :
      (xs ys : List (BatchRequest S D)) (s : S) (db : D) (first : Try S × D)
      → Outcome xs s db first
      → Outcome (xs ++ ys) s db (elim first.0 [
        | failed e ↦ (failed e, first.1)
        | ok t ↦ handle_requests batch unmarshal ys t first.1
      ])
  run_two xs ys s db (failed e, db') h = Breaks-append xs ys s db db' e h
  run_two xs ys s db (ok t, db') h =
      AllRun-append xs ys s t db db' (handle_requests batch unmarshal ys t db') h
        (handle_requests-Outcome ys t db')

  run_batch-Outcome :
      (rs : List (BatchRequest S D)) (s : S) (db : D)
      → Outcome (in_order rs) s db (run_batch batch unmarshal rs s db)
  unfolding run_batch
  run_batch-Outcome rs s db =
      let (p, q) = only_low-filter rs in
      rw (← p, ← q)
        (run_two (only_low false rs) (only_low true rs) s db
          (handle_requests batch unmarshal (only_low false rs) s db)
          (handle_requests-Outcome (only_low false rs) s db))

  -- What a flush promises for its outcome, its requests and the database after it.
  abbrev pub Promise :
      List (BatchRequest S D) → S → D → Option Error × List (BatchRequest S D) × D → Type 0
  Promise rs s db (outcome, rs', db') =
      Every (HasOutcome outcome) rs'
      × (rs' ≡ map (told outcome) rs)
      × (((t : S) × (d : D) × AllRun (in_order rs) s db t d × (commit t d ≡ (outcome, db')))
          ⊎ ((e : Error) × Breaks (in_order rs) s db e db' × (outcome ≡ some e)))

  after-Promise :
      (rs : List (BatchRequest S D)) (s : S) (db : D) (o : Try S × D)
      → Every IsFresh rs
      → Outcome (in_order rs) s db o
      → Promise rs s db (elim o.0 [
        | failed e ↦ (some e, map (notify (some e)) rs, o.1)
        | ok t ↦ let (e, after) = commit t o.1 in (e, map (notify e) rs, after)
      ])
  after-Promise rs s db (failed e, d) fresh h =
      (map-notify-HasOutcome (some e) rs fresh, map-notify-told (some e) rs fresh, inr (e, h, refl))
  after-Promise rs s db (ok t, d) fresh h = (
    map-notify-HasOutcome (commit t d).0 rs fresh,
    map-notify-told (commit t d).0 rs fresh,
    inl (t, d, h, refl),
  )

  -- A flush of requests that have no outcome gives each of them the same one, and changes nothing
  -- else of them. Either all requests, the normal ones in their order before those of low priority
  -- in theirs, have been run without an error from the state of the batch on, and the outcome and
  -- the database are those of the commit of what they staged; or the outcome is the error of the
  -- first of them that fails, those after it have not been run, nothing is committed, and the
  -- database is as the consumers that were run left it.
  pub flush-Promise :
      (rs : List (BatchRequest S D)) (s : S) (db : D)
      → Every IsFresh rs
      → Promise rs s db (flush batch unmarshal commit rs s db)
  unfolding flush
  flush-Promise rs s db fresh =
      after-Promise rs s db (run_batch batch unmarshal rs s db) fresh (run_batch-Outcome rs s db)
