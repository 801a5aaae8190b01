-- ===== src/Scheduler/Sorting/Rounds.antt =====
-- internal/scheduler/graph.go: the rounds of TopologicalSort. What the queue, the ids that are done
-- and the degrees have to do with each other, and that each round keeps it.
use m_aistr.Prelude.{
  ℕ, suc, ◌+◌, ◌-◌, ◌≤◌, ◌==◌, ◌≡◌, arith, String, str_eq, eq_iff, true, false, if_elim, List, [],
  ◌∷◌, ◌++◌, length, sort_by, if◌then◌else◌, length-append,
}
use m_aistr.Prelude.Text.{str_lt}
use m_aistr.Prelude.Dict.{Dict, get_or, put, has, get-put}
use m_aistr.Prelude.Occurrences.{occ, occ-append, occ-sort_by, length-sort_by}
use m_aistr.Scheduler.Graph.{TaskGraph}
use m_aistr.Scheduler.Sorting.{release}
use m_aistr.Scheduler.Sorting.Tables.{pending, targets, pending-done}

-- In a round that still has the dependents `ts` to look at, after the ids `s`.
pub record IsRound (g : TaskGraph) (s ts queue : List String) (d : Dict ℕ) : Type 0 where
  pub counted : (x : String) → get_or 0 x d ≡ pending g.edges s x + occ x ts
  pub once : (x : String) → occ x queue + occ x s ≤ 1
  pub free : (x : String) → 1 ≤ occ x queue + occ x s → get_or 0 x d ≡ 0
  pub queued : (x : String) → has x g.nodes ≡ true → get_or 0 x d ≡ 0 → 1 ≤ occ x queue + occ x s
  pub known : (x : String) → 1 ≤ occ x queue + occ x s → has x g.nodes ≡ true

module _ (g : TaskGraph) (s : List String) where
  occ-queued :
      (x id : String) (queue : List String)
      → occ x (sort_by str_lt (queue ++ id ∷ []))
        ≡ (if str_eq id x then occ x queue + 1 else occ x queue)
  occ-queued x id queue =
      ground (arith, occ-sort_by str_lt x (queue ++ id ∷ []), occ-append x queue (id ∷ []))

  length-queued :
      (id : String) (queue : List String)
      → length (sort_by str_lt (queue ++ id ∷ [])) ≡ length queue + 1
  length-queued id queue =
      omega (arith, length-sort_by str_lt (queue ++ id ∷ []), length-append queue (id ∷ []))

  get_or-put :
      (id x : String) (n : ℕ) (d : Dict ℕ)
      → get_or 0 x (put id n d) ≡ (if str_eq id x then n else get_or 0 x d)
  get_or-put id x n d = ground (arith, get-put id x n d)

  module _ (id : String) (ts queue : List String) (d : Dict ℕ) (r : IsRound g s (id ∷ ts) queue d)
      (node : has id g.nodes ≡ true) where
    enqueue :
        (get_or 0 id d == 1) ≡ true
        → IsRound g s ts (sort_by str_lt (queue ++ id ∷ [])) (put id (get_or 0 id d - 1) d)
    enqueue last = record {
      counted =
          λ x. ground (arith, r.counted x, get_or-put id x (get_or 0 id d - 1) d, eq_iff id x);
      once = λ x. ground (arith, last, r.once x, r.free x, occ-queued x id queue, eq_iff id x);
      free = λ x h. ground (
        arith,
        last,
        h,
        r.free x,
        occ-queued x id queue,
        eq_iff id x,
        get_or-put id x (get_or 0 id d - 1) d,
      );
      queued = λ x m h. ground (
        arith,
        m,
        h,
        r.queued x,
        occ-queued x id queue,
        eq_iff id x,
        get_or-put id x (get_or 0 id d - 1) d,
      );
      known = λ x h. ground (arith, h, node, r.known x, occ-queued x id queue, eq_iff id x);
    }

    pass : (get_or 0 id d == 1) ≡ false → IsRound g s ts queue (put id (get_or 0 id d - 1) d)
    pass more = record {
      counted =
          λ x. ground (arith, r.counted x, get_or-put id x (get_or 0 id d - 1) d, eq_iff id x);
      once = r.once;
      free = λ x h.
          ground
            (arith, h, r.free x, r.counted x, eq_iff id x, get_or-put id x (get_or 0 id d - 1) d);
      queued = λ x m h. ground (
        arith,
        more,
        m,
        h,
        r.queued x,
        r.counted id,
        eq_iff id x,
        eq_iff id id,
        get_or-put id x (get_or 0 id d - 1) d,
      );
      known = r.known;
    }

  -- The loop over the dependents.
  pub release-IsRound :
      (ts queue : List String) (d : Dict ℕ)
      → ((x : String) → 1 ≤ occ x ts → has x g.nodes ≡ true)
      → IsRound g s ts queue d
      → IsRound g s [] (release ts d queue).1 (release ts d queue).0
  unfolding release
  release-IsRound [] queue d t r = r
  release-IsRound (id ∷ ts) queue d t r =
      let node = t id (ground (arith, eq_iff id id)) in
      let n = get_or 0 id d in
      let d' = put id (n - 1) d in
      if_elim {A = Dict ℕ × List String} (λ p. IsRound g s [] p.1 p.0) (n == 1)
        (λ last.
          release-IsRound ts (sort_by str_lt (queue ++ id ∷ [])) d' (λ x m. t x (ground (arith, m)))
            (enqueue id ts queue d r node last))
        (λ more.
          release-IsRound ts queue d' (λ x m. t x (ground (arith, m)))
            (pass id ts queue d r node more))

  pub length-release :
      (ts queue : List String) (d : Dict ℕ)
      → length (release ts d queue).1 ≤ length queue + length ts
  unfolding release
  length-release [] queue d = omega arith
  length-release (id ∷ ts) queue d =
      let d' = put id (get_or 0 id d - 1) d in
      if_elim {A = Dict ℕ × List String} (λ p. length p.1 ≤ length queue + suc (length ts))
        (get_or 0 id d == 1)
        (λ _.
          omega (
            arith,
            length-release ts (sort_by str_lt (queue ++ id ∷ [])) d',
            length-queued id queue,
          ))
        (λ _. omega (arith, length-release ts queue d'))

-- The start of a round takes the first id off the queue.
pub pop-IsRound :
    (g : TaskGraph) (s : List String) (c : String) (queue : List String) (d : Dict ℕ)
    → IsRound g s [] (c ∷ queue) d
    → IsRound g (c ∷ s) (targets g.edges c) queue d
pop-IsRound g s c queue d r = record {
  counted = λ x. ground (arith, r.counted x, fresh, pending-done g.edges s c x);
  once = λ x. ground (arith, r.once x);
  free = λ x h. r.free x (ground (arith, h));
  queued = λ x m h. ground (arith, r.queued x m h);
  known = λ x h. r.known x (ground (arith, h));
}
  where
    fresh : occ c s ≡ 0
    fresh = ground (arith, r.once c, eq_iff c c)
