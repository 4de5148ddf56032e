-- ===== src/WriteBatch/Examples.antt =====
-- The theorems on WriteBatch with a batch that is a function from keys to what is stored.
use corgi.Base.{
  same, same_refl, same-ne, ℕ, ◌≡◌, ◌≢◌, refl, sym, ap, ◌∙◌, List, [], ◌∷◌, Option, none, some,
  if◌then◌else◌,
}
use corgi.WriteBatch.{
  Batch, Lookup, found, not_found, failed, Field, get_from_batch_and_db, put, delete,
  get_delete_mark_key, field_text, true_text,
}
use corgi.WriteBatch.Reads.{IsIndexed, get_from_batch_and_db-put, get_from_batch_and_db-delete}

abbrev Store : Type 0
Store = List ℕ → Lookup

abbrev written : List ℕ → Lookup → Store → Store
written k v s l = if same k l then v else s l

abbrev stored : Batch Store
stored = record {
  get = λ k s. s k;
  set = λ k v s. some (written k (found v) s);
  delete = λ k s. some (written k not_found s);
  merge = λ k v s. some (written k (found v) s);
}

abbrev read : List ℕ → Option Store → Lookup
read k none = failed
read k (some s) = s k

stored-IsIndexed : IsIndexed stored
stored-IsIndexed = record {
  set_self = λ k v s t e. ap (read k) (sym e) ∙ rw (same_refl k) refl;
  set_other = λ k v l s t e p. ap (read l) (sym e) ∙ rw (same-ne k l p) refl;
  delete_self = λ k s t e. ap (read k) (sym e) ∙ rw (same_refl k) refl;
  delete_other = λ k l s t e p. ap (read l) (sym e) ∙ rw (same-ne k l p) refl;
  sets = λ k v s. (written k (found v) s, refl);
  deletes = λ k s. (written k not_found s, refl);
}

abbrev nothing : Store
nothing k = not_found

abbrev no_json : List ℕ → Option Field
no_json v = none

abbrev object_key : List ℕ
object_key = 49 ∷ 97 ∷ []

abbrev mark : List ℕ
mark = field_text true_text

get_from_batch_and_db-put_example :
    (t : Store) × (put stored no_json object_key mark nothing ≡ some t)
    × (get_from_batch_and_db stored object_key t ≡ some (some mark))
get_from_batch_and_db-put_example =
    get_from_batch_and_db-put stored stored-IsIndexed no_json object_key mark nothing

get_from_batch_and_db-delete_example :
    (t : Store) × (delete stored object_key (written object_key (found mark) nothing) ≡ some t)
    × (get_from_batch_and_db stored object_key t ≡ some none)
    × ((l : List ℕ)
        → object_key ≢ l
        → get_delete_mark_key object_key ≢ l
        → stored.get l t ≡ stored.get l (written object_key (found mark) nothing))
get_from_batch_and_db-delete_example =
    get_from_batch_and_db-delete stored stored-IsIndexed object_key
      (written object_key (found mark) nothing)
