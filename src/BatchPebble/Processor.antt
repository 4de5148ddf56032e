-- ===== src/BatchPebble/Processor.antt =====
-- dispatch, runProcessor and drainOnStop as steps, in any order in which the goroutines may take them. One
-- round of the processor, from taking requests of the channel to telling them their outcome, is one step.
use corgi.Base.{
  ℕ, Bool, true, false, List, [], ◌∷◌, ◌++◌, length, take, drop, Option, some, ◌≡◌, ◌≤◌, ◌<◌, ap,
  length-append, length-drop, zero, suc, arith,
}
use corgi.WriteBatch.{Batch, Field}
use corgi.BatchPebble.{BatchRequest, Error, stopped, notify, flush}
use corgi.BatchPebble.Flush.{flush-Promise, IsFresh, HasOutcome, Every, notify-HasOutcome}

abbrev channel_size : ℕ
channel_size = 10000

abbrev max_batch_size : ℕ
max_batch_size = 1000

-- A BatchPebble with its channel, and the requests that have left it. `stop` is the closed stopCh,
-- `draining` the processor in drainOnStop, `exited` after its return.
pub record Processor (S D : Type 0) : Type 0 where
  pub queue : List (BatchRequest S D)
  pub left : List (BatchRequest S D)
  pub db : D
  pub stop : Bool
  pub draining : Bool
  pub exited : Bool

module _ {S D : Type 0} (batch : Batch S) (unmarshal : List ℕ → Option Field)
    (commit : S → D → Option Error × D) (blank : S) where
  -- The requests that one round takes of the queue: the first, and all that are there, up to 1000.
  abbrev pub flushed : ℕ → Processor S D → Processor S D
  flushed n p =
      let done = flush batch unmarshal commit (take n p.queue) blank p.db in
      record p { queue = drop n p.queue; left = p.left ++ done.1; db = done.2 }

  pub data Step : Processor S D → Processor S D → Type 0 where
    enqueues :
        (p : Processor S D) (r : BatchRequest S D)
        → IsFresh r
        → length p.queue < channel_size
        → Step p (record p { queue = p.queue ++ r ∷ [] })
    refuses :
        (p : Processor S D) (r : BatchRequest S D)
        → IsFresh r
        → p.stop ≡ true
        → Step p (record p { left = p.left ++ notify (some stopped) r ∷ [] })
    stops : (p : Processor S D) → Step p (record p { stop = true })
    flushes :
        (p : Processor S D) (n : ℕ)
        → p.draining ≡ false
        → p.exited ≡ false
        → 1 ≤ n
        → n ≤ max_batch_size
        → n ≤ length p.queue
        → Step p (flushed n p)
    drains :
        (p : Processor S D)
        → p.stop ≡ true
        → p.exited ≡ false
        → Step p (record p { draining = true })
    fails :
        (p : Processor S D) (r : BatchRequest S D) (rs : List (BatchRequest S D))
        → p.draining ≡ true
        → p.exited ≡ false
        → p.queue ≡ r ∷ rs
        → Step p (record p { queue = rs; left = p.left ++ notify (some stopped) r ∷ [] })
    exits :
        (p : Processor S D) → p.draining ≡ true → p.queue ≡ [] → Step p (record p { exited = true })

  pub data Reachable : Processor S D → Type 0 where
    starts :
        (db : D)
        → Reachable (record {
          queue = [];
          left = [];
          db = db;
          stop = false;
          draining = false;
          exited = false;
        })
    steps : (p q : Processor S D) → Reachable p → Step p q → Reachable q

abbrev pub IsNotified : {S D : Type 0} → BatchRequest S D → Type 0
IsNotified r = (e : Option Error) × HasOutcome e r

Every-append :
    {A : Type 0} (P : A → Type 0) (xs ys : List A) → Every P xs → Every P ys → Every P (xs ++ ys)
Every-append P [] ys h k = k
Every-append P (x ∷ xs) ys h k = (h.0, Every-append P xs ys h.1 k)

Every-take : {A : Type 0} (P : A → Type 0) (n : ℕ) (xs : List A) → Every P xs → Every P (take n xs)
Every-take P zero xs h = tt
Every-take P (suc n) [] h = tt
Every-take P (suc n) (x ∷ xs) h = (h.0, Every-take P n xs h.1)

Every-drop : {A : Type 0} (P : A → Type 0) (n : ℕ) (xs : List A) → Every P xs → Every P (drop n xs)
Every-drop P zero xs h = h
Every-drop P (suc n) [] h = tt
Every-drop P (suc n) (x ∷ xs) h = Every-drop P n xs h.1

outcomes-IsNotified :
    {S D : Type 0} (e : Option Error) (rs : List (BatchRequest S D))
    → Every (HasOutcome e) rs
    → Every IsNotified rs
outcomes-IsNotified e [] h = tt
outcomes-IsNotified e (r ∷ rs) h = ((e, h.0), outcomes-IsNotified e rs h.1)

-- Who waits in the channel has no outcome, who has left it has exactly one, and the channel holds no
-- more than its capacity.
pub record IsConsistent {S D : Type 0} (p : Processor S D) : Type 0 where
  pub waiting : Every IsFresh p.queue
  pub notified : Every IsNotified p.left
  pub bounded : length p.queue ≤ channel_size

module _ {S D : Type 0} (batch : Batch S) (unmarshal : List ℕ → Option Field)
    (commit : S → D → Option Error × D) (blank : S) where
  refused :
      (left : List (BatchRequest S D)) (r : BatchRequest S D)
      → Every IsNotified left
      → IsFresh r
      → Every IsNotified (left ++ notify (some stopped) r ∷ [])
  refused left r h fresh =
      Every-append IsNotified left (notify (some stopped) r ∷ []) h
        ((some stopped, notify-HasOutcome (some stopped) r fresh), tt)

  Step-IsConsistent :
      (p q : Processor S D)
      → IsConsistent p
      → Step batch unmarshal commit blank p q
      → IsConsistent q
  Step-IsConsistent p _ h (enqueues _ r fresh room) = record {
    waiting = Every-append IsFresh p.queue (r ∷ []) h.waiting (fresh, tt);
    notified = h.notified;
    bounded = omega (arith, length-append p.queue (r ∷ []));
  }
  Step-IsConsistent p _ h (refuses _ r fresh stop) = record {
    waiting = h.waiting;
    notified = refused p.left r h.notified fresh;
    bounded = h.bounded;
  }
  Step-IsConsistent p _ h (stops _) = record {
    waiting = h.waiting;
    notified = h.notified;
    bounded = h.bounded;
  }
  Step-IsConsistent p _ h (flushes _ n a b c d e) =
      let fresh = Every-take IsFresh n p.queue h.waiting in
      let done = flush batch unmarshal commit (take n p.queue) blank p.db in
      record {
        waiting = Every-drop IsFresh n p.queue h.waiting;
        notified = Every-append IsNotified p.left done.1 h.notified (
            outcomes-IsNotified done.0 done.1
              (flush-Promise batch unmarshal commit (take n p.queue) blank p.db fresh).0);
        bounded = omega (arith, length-drop n p.queue, h.bounded);
      }
  Step-IsConsistent p _ h (drains _ a b) = record {
    waiting = h.waiting;
    notified = h.notified;
    bounded = h.bounded;
  }
  Step-IsConsistent p _ h (fails _ r rs a b e) =
      let waiting : Every IsFresh (r ∷ rs) = rw e at h.waiting in
      record {
        waiting = waiting.1;
        notified = refused p.left r h.notified waiting.0;
        bounded = omega (arith, ap length e, h.bounded);
      }
  Step-IsConsistent p _ h (exits _ a e) = record {
    waiting = h.waiting;
    notified = h.notified;
    bounded = h.bounded;
  }

  -- However the callers, the processor and a stop interleave, a request in the channel has no
  -- outcome, a request that has left it has exactly one, and the channel is within its capacity.
  pub Reachable-IsConsistent :
      (p : Processor S D) → Reachable batch unmarshal commit blank p → IsConsistent p
  Reachable-IsConsistent _ (starts db) = record {
    waiting = tt;
    notified = tt;
    bounded = omega arith;
  }
  Reachable-IsConsistent _ (steps p q reached step) =
      Step-IsConsistent p q (Reachable-IsConsistent p reached) step
