-- ===== src/BatchPebble/Examples.antt =====
-- A processor over a batch of one number, and its theorems.
use corgi.Base.{ℕ, suc, ◌+◌, refl, Bool, true, false, List, [], ◌∷◌, arith, Option, none, some}
use corgi.WriteBatch.{Batch, not_found, Field}
use corgi.BatchPebble.{BatchRequest, Error, ok, customize_operate, flush}
use corgi.BatchPebble.Flush.{Promise, flush-Promise}
use corgi.BatchPebble.Processor.{
  Processor, enqueues, flushes, flushed, Reachable, starts, steps, IsConsistent,
  Reachable-IsConsistent,
}

abbrev tally : Batch ℕ
tally = record {
  get = λ k s. not_found;
  set = λ k v s. some (suc s);
  delete = λ k s. some (suc s);
  merge = λ k v s. some (suc s);
}

abbrev no_field : List ℕ → Option Field
no_field v = none

abbrev add_to : ℕ → ℕ → Option Error × ℕ
add_to s db = (none, db + s)

abbrev counting : Bool → BatchRequest ℕ ℕ
counting low = record {
  type = customize_operate (some (λ s db. (ok (suc s), db)));
  keys = [];
  values = [];
  low_priority = low;
  done = false;
  result = [];
}

abbrev two_requests : List (BatchRequest ℕ ℕ)
two_requests = counting true ∷ counting false ∷ []

flush-Promise_example :
    Promise tally no_field add_to two_requests 0 5 (flush tally no_field add_to two_requests 0 5)
flush-Promise_example =
    flush-Promise tally no_field add_to two_requests 0 5 ((refl, refl), ((refl, refl), tt))

abbrev idle : Processor ℕ ℕ
idle = record { queue = []; left = []; db = 5; stop = false; draining = false; exited = false }

abbrev waiting : Processor ℕ ℕ
waiting = record {
  queue = counting false ∷ [];
  left = [];
  db = 5;
  stop = false;
  draining = false;
  exited = false;
}

waiting-Reachable : Reachable tally no_field add_to 0 waiting
waiting-Reachable =
    steps idle waiting (starts 5) (enqueues idle (counting false) (refl, refl) (omega arith))

after_flush-Reachable :
    Reachable tally no_field add_to 0 (flushed tally no_field add_to 0 1 waiting)
after_flush-Reachable =
    steps waiting (flushed tally no_field add_to 0 1 waiting) waiting-Reachable
      (flushes waiting 1 refl refl (omega arith) (omega arith) (omega arith))

Reachable-IsConsistent_example : IsConsistent (flushed tally no_field add_to 0 1 waiting)
Reachable-IsConsistent_example =
    Reachable-IsConsistent tally no_field add_to 0 (flushed tally no_field add_to 0 1 waiting)
      after_flush-Reachable
