-- ===== src/Space/Load.antt =====
-- loadAllocator: the blocks that are set in the persisted bitmap are the allocated ones after it.
use corgi.Base.{ℕ, ◌+◌, ◌-◌, ◌≤◌, ◌<◌, ◌≡◌, refl, ◌∙◌, Option, none, some, ◌⊎◌, inl, inr, arith}
use corgi.Alloc.Store.{AllocatorV3}
use corgi.Alloc.Mark.Blocks.{block_bit}
use corgi.Alloc.Api.{Error, ok, init_allocated}
use corgi.Alloc.Api.Init.{init_allocated_lem, init_allocated-IsSummarised}
use corgi.Alloc.Calls.{IsSound}
use corgi.Space.Device.{Run, close_run, start_or, extend_run, then_load}

close_run-some :
    (s n : ℕ) (a : AllocatorV3)
    → (init_allocated s n a).0 ≡ ok tt
    → close_run (record { start = some s; len = n; allocator = a })
      ≡ inr (record { start = none; len = 0; allocator = (init_allocated s n a).1 })
unfolding close_run
close_run-some s n a e = simp (close_run, e) refl

module _ (total : ℕ) (bit : ℕ → ℕ) where
  -- The blocks below `p` have been read: those before the run are in the allocator, those of the run
  -- are set, and from the run on every block is still free.
  pub record IsLoaded (p : ℕ) (r : Run) : Type 0 where
    pub sound : IsSound total r.allocator
    pub inside : p ≤ total
    pub before : (x : ℕ) → x < start_or p r.start → block_bit r.allocator.l0 x ≡ 1 - bit x
    pub run : (x : ℕ) → start_or p r.start ≤ x → x < p → bit x ≡ 1
    pub after : (x : ℕ) → start_or p r.start ≤ x → x < total → block_bit r.allocator.l0 x ≡ 1
    pub width : start_or p r.start + r.len ≡ p
    pub some_run : (s : ℕ) → r.start ≡ some s → 0 < r.len

  -- A step that succeeds and has read the blocks below `p`.
  abbrev pub Reads : ℕ → Error ⊎ Run → Type 0
  Reads p (inl e) = ⊥
  Reads p (inr r) = IsLoaded p r

  pub then_load-Reads :
      (p q : ℕ) (o : Error ⊎ Run) (f : Run → Error ⊎ Run)
      → Reads p o
      → ((r : Run) → IsLoaded p r → Reads q (f r))
      → Reads q (then_load o f)
  unfolding then_load
  then_load-Reads p q (inl e) f h k = absurd h
  then_load-Reads p q (inr r) f h k = k r h

  -- A closed run: nothing waits.
  abbrev pub IsClosed : ℕ → Run → Type 0
  IsClosed p r = IsLoaded p r × (r.start ≡ none)

  abbrev pub Closes : ℕ → Error ⊎ Run → Type 0
  Closes p (inl e) = ⊥
  Closes p (inr r) = IsClosed p r

  close_some :
      (p s n : ℕ) (a : AllocatorV3)
      → IsLoaded p (record { start = some s; len = n; allocator = a })
      → Closes p (close_run (record { start = some s; len = n; allocator = a }))
  close_some p s n a h =
      let small = h.sound.valid.bitmap.small in
      let fits : s + n ≤ a.total = omega (arith, h.width, h.inside, h.sound.size) in
      let (fine, painted, valid) =
        init_allocated_lem s n a h.sound.valid (omega (arith, fits, small)) (h.some_run s refl)
          fits in
      rw (close_run-some s n a fine) (
        record {
          sound = record {
            size = painted.total ∙ h.sound.size;
            valid = valid;
            sums =
                init_allocated-IsSummarised s n a h.sound.valid (omega (arith, fits, small))
                  (h.some_run s refl) fits h.sound.sums;
          };
          inside = h.inside;
          before = λ x k. ground (arith, painted.blocks x, h.before x, h.run x, h.width);
          run = λ x k l. absurd (omega arith);
          after = λ x k l. ground (arith, painted.blocks x, h.after x, h.width);
          width = omega arith;
          some_run = λ t e. absurd (ground (arith, e));
        },
        refl,
      )

  pub close_run-Closes : (p : ℕ) (r : Run) → IsLoaded p r → Closes p (close_run r)
  close_run-Closes p r h = by_start r.start r.len r.allocator h
    where
      by_start :
          (o : Option ℕ) (n : ℕ) (a : AllocatorV3)
          → IsLoaded p (record { start = o; len = n; allocator = a })
          → Closes p (close_run (record { start = o; len = n; allocator = a }))
      by_start none n a k = unfold close_run in (k, refl)
      by_start (some s) n a k = close_some p s n a k

  pub extend_run-IsLoaded :
      (p n : ℕ) (r : Run)
      → 0 < n
      → p + n ≤ total
      → ((x : ℕ) → p ≤ x → x < p + n → bit x ≡ 1)
      → IsLoaded p r
      → IsLoaded (p + n) (extend_run p n r)
  extend_run-IsLoaded p n r h k ones g = by_start r.start r.len r.allocator g
    where
      by_start :
          (o : Option ℕ) (l : ℕ) (a : AllocatorV3)
          → IsLoaded p (record { start = o; len = l; allocator = a })
          → IsLoaded (p + n) (extend_run p n (record { start = o; len = l; allocator = a }))
      by_start none l a g = record {
        sound = g.sound;
        inside = k;
        before = g.before;
        run = ones;
        after = g.after;
        width = omega (arith, g.width);
        some_run = λ t e. omega arith;
      }
      by_start (some s) l a g = record {
        sound = g.sound;
        inside = k;
        before = g.before;
        run = λ x i j. ground (arith, g.run x, ones x);
        after = g.after;
        width = omega (arith, g.width);
        some_run = λ t e. omega arith;
      }

  -- Blocks that are not set, after a run that is closed.
  pub skip-IsLoaded :
      (p n : ℕ) (r : Run)
      → p + n ≤ total
      → ((x : ℕ) → p ≤ x → x < p + n → bit x ≡ 0)
      → IsClosed p r
      → IsClosed (p + n) r
  skip-IsLoaded p n r h zeros (g, e) = by_start r.start r.len r.allocator e g
    where
      by_start :
          (o : Option ℕ) (l : ℕ) (a : AllocatorV3)
          → o ≡ none
          → IsLoaded p (record { start = o; len = l; allocator = a })
          → IsClosed (p + n) (record { start = o; len = l; allocator = a })
      by_start (some s) l a e g = absurd (ground (arith, e))
      by_start none l a e g = (
        record {
          sound = g.sound;
          inside = h;
          before = λ x i. ground (arith, g.before x, zeros x, g.after x);
          run = λ x i j. absurd (omega arith);
          after = λ x i j. g.after x (omega arith) j;
          width = omega (arith, g.width);
          some_run = g.some_run;
        },
        refl,
      )
