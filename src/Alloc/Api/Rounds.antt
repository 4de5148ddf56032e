-- ===== src/Alloc/Api/Rounds.antt =====
-- The rounds of the two passes of Allocate: each takes free blocks, and where a pass stops.
use mathlib.Core.Path.{subst}
use corgi.Base.{
  ℕ, zero, suc, ◌+◌, ◌-◌, ◌≤◌, ◌<◌, ◌≡◌, refl, ◌∙◌, Bool, true, false, ◌&&◌, leb, ◌==◌,
  if◌then◌else◌, arith, Bool-cases, lt-or-le, inl, inr, ◌⊎◌, ◌^◌, min, Option, none, some, ==→eq,
}
use corgi.Alloc.Geometry.{Result, append_result, min_int64}
use corgi.Alloc.Geometry.Masks.{min_int64_lem}
use corgi.Alloc.Store.{AllocatorV3}
use corgi.Alloc.Mark.{mark_range}
use corgi.Alloc.Mark.Blocks.{block_bit}
use corgi.Alloc.Search.{next_free_run}
use corgi.Alloc.Search.Hits.{NoFree}
use corgi.Alloc.Search.Scan.{Scanned}
use corgi.Alloc.Search.Levels.{next_free_run-Scanned}
use corgi.Alloc.Api.{Progress, allocate_pass}
use corgi.Alloc.Api.Valid.{holds, mark_range-IsMarked}
use corgi.Alloc.Api.Passes.{IsTaken, IsTaken-append}
use corgi.Alloc.Api.Extents.{total_size, total_size-append_result}

abbrev take_run : Progress → Result → Progress
take_run p run =
    let take = min_int64 run.size p.left in
    record {
      left = p.left - take;
      results = append_result p.results (record { offset = run.offset; size = take });
      state = (mark_range run.offset take false p.state).0;
    }

-- A round of a pass that has found `o`, if `rest` is the rest of the pass.
abbrev round : Bool → Progress → (ℕ → Progress → Progress) → Option Result → Progress
round second p rest o = elim o [
  | none ↦ p
  | some run ↦
      let later = rest (run.offset + min_int64 run.size p.left) (take_run p run) in
      if p.left == 0 then p else if second && leb p.state.last_pos run.offset then p else later
]

allocate_pass-round :
    (fuel : ℕ) (second : Bool) (from : ℕ) (p : Progress)
    → allocate_pass (suc fuel) second from p
      ≡ round second p (allocate_pass fuel second) (next_free_run from p.left p.state)
unfolding allocate_pass
allocate_pass-round fuel second from p = refl

round-elim :
    (P : Progress → Type 0) (second : Bool) (p : Progress) (rest : ℕ → Progress → Progress)
    (o : Option Result)
    → (p.left ≡ 0 → P p)
    → (0 < p.left → o ≡ none → P p)
    → ((r : Result) → 0 < p.left → o ≡ some r → second ≡ true → p.state.last_pos ≤ r.offset → P p)
    → ((r : Result)
        → 0 < p.left
        → o ≡ some r
        → P (rest (r.offset + min_int64 r.size p.left) (take_run p r)))
    → P (round second p rest o)
round-elim P second p rest none done nothing passed more = elim (lt-or-le 0 p.left) [
  | inl h ↦ nothing h refl
  | inr h ↦ done (omega arith)
]
round-elim P second p rest (some r) done nothing passed more = elim (Bool-cases (p.left == 0)) [
  | inl e ↦ rw e (done (==→eq p.left 0 e))
  | inr e ↦ elim (Bool-cases (second && leb p.state.last_pos r.offset)) [
    | inl h ↦ rw (e, h) (passed r (ground arith) refl (ground arith) (ground arith))
    | inr h ↦ rw (e, h) (more r (ground arith) refl)
  ]
]

-- The variables of a pass for `want` blocks of `a`.
pub record IsProgress (want : ℕ) (a : AllocatorV3) (p : Progress) : Type 0 where
  pub taken : IsTaken p.results a p.state
  pub sizes : p.left + total_size p.results ≡ want

module _ (want : ℕ) (a : AllocatorV3) (small : want < 2 ^ 63) where
  -- One round: the run found is free, and what is taken of it is not more than asked for.
  module _ (p : Progress) (g : IsProgress want a p) (from : ℕ) (positive : 0 < p.left) (r : Result)
      (found : next_free_run from p.left p.state ≡ some r) where
    scanned : Scanned p.state from p.state.total p.left (some r)
    scanned =
        subst (λ o. Scanned p.state from p.state.total p.left o) found
          (next_free_run-Scanned p.state g.taken.bitmap g.taken.clean g.taken.sums from p.left
            positive (omega (arith, g.sizes)))

    abbrev chosen : Result
    chosen = record { offset = r.offset; size = min_int64 r.size p.left }

    chosen_size : min_int64 r.size p.left ≡ r.size
    chosen_size =
        min_int64_lem r.size p.left (omega (arith, scanned.2, g.sizes)) (omega (arith, g.sizes))
        ∙ omega (arith, scanned.2)

    round-IsProgress : IsProgress want a (take_run p r)
    round-IsProgress = record {
      taken =
          IsTaken-append a p.state p.results g.taken chosen (omega (arith, chosen_size, scanned.1))
            (omega (arith, chosen_size, scanned.3))
            (λ x k l. scanned.4 x k (omega (arith, chosen_size)));
      sizes = omega (
        arith,
        g.sizes,
        chosen_size,
        scanned.2,
        total_size-append_result a.total p.results chosen (omega (arith, chosen_size, scanned.1))
            (omega (arith, chosen_size, scanned.3, g.taken.total))
            (omega (arith, g.taken.bitmap.small, g.taken.total)),
      );
    }

    round-block :
        (x : ℕ)
        → block_bit (take_run p r).state.l0 x
          ≡ (if holds chosen x then 0 else block_bit p.state.l0 x)
    round-block x =
        (mark_range-IsMarked false chosen p.state g.taken.bitmap g.taken.clean
            (omega (arith, chosen_size, scanned.1)) (omega (arith, chosen_size, scanned.3))).blocks
          x
        ∙ ground arith

    round-NoFree : (lo hi : ℕ) → NoFree p.state.l0 lo hi → NoFree (take_run p r).state.l0 lo hi
    round-NoFree lo hi h x k l = ground (arith, round-block x, h x k l)

    -- The blocks up to the end of what is taken have been passed.
    round-swept :
        (lo : ℕ)
        → NoFree p.state.l0 lo from
        → NoFree (take_run p r).state.l0 lo (r.offset + min_int64 r.size p.left)
    round-swept lo h x k l = ground (arith, round-block x, scanned.5 x, h x k)

    round-less : (take_run p r).left < p.left
    round-less = omega (arith, chosen_size, scanned.1)

  -- Where a pass that does not find all stops.
  abbrev pub stop : Bool → ℕ
  stop second = if second then min a.last_pos a.total else a.total

  -- What holds after a pass that has swept the blocks from `lo` on; [kept, end) had no free block.
  pub record IsPassed (second : Bool) (lo kept end : ℕ) (q : Progress) : Type 0 where
    pub progress : IsProgress want a q
    pub swept : (q.left ≡ 0) ⊎ NoFree q.state.l0 lo (stop second)
    pub same : NoFree q.state.l0 kept end

  swept_to_stop :
      (second : Bool) (lo from end : ℕ) (q : Progress)
      → NoFree q.state.l0 lo from
      → NoFree q.state.l0 from end
      → stop second ≤ end
      → NoFree q.state.l0 lo (stop second)
  swept_to_stop second lo from end q h k e x l m = elim (lt-or-le x from) [
    | inl before ↦ h x l before
    | inr after ↦ k x after (omega arith)
  ]

  stop-le : (second : Bool) → stop second ≤ a.total
  stop-le true = omega arith
  stop-le false = omega arith

  pub allocate_pass-IsPassed :
      (fuel : ℕ) (second : Bool) (lo kept end from : ℕ) (p : Progress)
      → IsProgress want a p
      → p.left ≤ fuel
      → NoFree p.state.l0 lo from
      → NoFree p.state.l0 kept end
      → IsPassed second lo kept end (allocate_pass fuel second from p)
  allocate_pass-IsPassed zero second lo kept end from p g enough swept same =
      unfold allocate_pass in record { progress = g; swept = inl (omega arith); same = same }
  allocate_pass-IsPassed (suc fuel) second lo kept end from p g enough swept same =
      rw (allocate_pass-round fuel second from p) (
        round-elim (IsPassed second lo kept end) second p (allocate_pass fuel second)
          (next_free_run from p.left p.state)
          (λ done. record { progress = g; swept = inl done; same = same })
          (λ positive nothing. record {
            progress = g;
            swept = inr (
                swept_to_stop second lo from p.state.total p swept
                  (subst (λ o. Scanned p.state from p.state.total p.left o) nothing
                    (next_free_run-Scanned p.state g.taken.bitmap g.taken.clean g.taken.sums from
                      p.left positive (omega (arith, g.sizes))))
                  (omega (arith, stop-le second, g.taken.total)));
            same = same;
          })
          (λ r positive found is_second passed. record {
            progress = g;
            swept = inr (
                swept_to_stop second lo from r.offset p swept (scanned p g from positive r found).5
                  (rw is_second (omega (arith, g.taken.last_pos))));
            same = same;
          })
          (λ r positive found.
            allocate_pass-IsPassed fuel second lo kept end (r.offset + min_int64 r.size p.left)
              (take_run p r) (round-IsProgress p g from positive r found)
              (omega (arith, round-less p g from positive r found))
              (round-swept p g from positive r found lo swept)
              (round-NoFree p g from positive r found kept end same)))
