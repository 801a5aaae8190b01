-- ===== src/Scheduler/Sorting/Drained.antt =====
-- internal/scheduler/graph.go: the loop over the queue in TopologicalSort, from its invariant.
use m_aistr.Prelude.{
  ℕ, zero, suc, ◌+◌, ◌≤◌, ◌≡◌, refl, sym, subst, ap, arith, String, eq_iff, true, Option, some,
  List, [], ◌∷◌, map, length,
}
use m_aistr.Prelude.Dict.{Dict, get_or, has}
use m_aistr.Prelude.Occurrences.{occ}
use m_aistr.Scheduler.Model.{Subtask}
use m_aistr.Scheduler.Graph.{Edge, TaskGraph}
use m_aistr.Scheduler.Sorting.{dependents, release, sorted_node, prepend, drain}
use m_aistr.Scheduler.Sorting.Tables.{
  pending, remaining, targets, remaining-done, dependents-targets, Targeted,
}
use m_aistr.Scheduler.Sorting.Rounds.{IsRound, release-IsRound, length-release, pop-IsRound}

-- The done ids, the last first.
abbrev pub after : List String → List String → List String
after s [] = s
after s (c ∷ ids) = after (c ∷ s) ids

pub occ-after : (s ids : List String) (x : String) → occ x (after s ids) ≡ occ x ids + occ x s
occ-after s [] x = omega arith
occ-after s (c ∷ ids) x = ground (arith, occ-after (c ∷ s) ids x)

-- Every edge to an id starts at an id before it.
abbrev pub InTurn : TaskGraph → List String → List String → Type 0
InTurn g s [] = Unit
InTurn g s (c ∷ ids) = (pending g.edges s c ≡ 0) × InTurn g (c ∷ s) ids

-- What the loop gives, from the ids `s` on.
abbrev pub Drained : TaskGraph → List String → Option (List Subtask) → Type 0
Drained g s out =
    (ids : List String) × (out ≡ some (map (sorted_node g) ids))
    × InTurn g s ids
    × ((d : Dict ℕ) × IsRound g (after s ids) [] [] d)

targets-has :
    (nodes : Dict Subtask) (es : List Edge) (c x : String)
    → Targeted nodes es
    → 1 ≤ occ x (targets es c)
    → has x nodes ≡ true
targets-has nodes [] c x t m = absurd (omega (arith, m))
targets-has nodes (e ∷ es) c x (te, t) m =
    ground (arith, te, m, targets-has nodes es c x t, eq_iff e.target x)

module _ (g : TaskGraph) (targeted : Targeted g.nodes g.edges) where
  -- One round of the loop.
  drain-IsRound :
      (s : List String) (c : String) (queue : List String) (d : Dict ℕ)
      → IsRound g s [] (c ∷ queue) d
      → IsRound g
          (c ∷ s)
          []
          (release (get_or [] c (dependents g)) d queue).1
          (release (get_or [] c (dependents g)) d queue).0
  drain-IsRound s c queue d r =
      subst (λ ts. IsRound g (c ∷ s) [] (release ts d queue).1 (release ts d queue).0)
        (sym (dependents-targets g c))
        (release-IsRound g (c ∷ s) (targets g.edges c) queue d
          (λ x m. targets-has g.nodes g.edges c x targeted m) (pop-IsRound g s c queue d r))

  round_less :
      (s : List String) (c : String) (queue : List String) (d : Dict ℕ) (fuel : ℕ)
      → IsRound g s [] (c ∷ queue) d
      → length queue + remaining g.edges s ≤ fuel
      → length (release (get_or [] c (dependents g)) d queue).1 + remaining g.edges (c ∷ s) ≤ fuel
  round_less s c queue d fuel r h =
      let fresh : occ c s ≡ 0 = ground (arith, r.once c, eq_iff c c) in
      omega (
        arith,
        h,
        ap length (dependents-targets g c),
        remaining-done g.edges s c fresh,
        length-release g (c ∷ s) (get_or [] c (dependents g)) queue d,
      )

  pub drain-Drained :
      (fuel : ℕ) (queue s : List String) (d : Dict ℕ)
      → IsRound g s [] queue d
      → length queue + remaining g.edges s ≤ fuel
      → Drained g s (drain g fuel queue d)
  unfolding drain prepend
  drain-Drained zero [] s d r h = ([], refl, tt, (d, r))
  drain-Drained (suc fuel) [] s d r h = ([], refl, tt, (d, r))
  drain-Drained zero (c ∷ queue) s d r h = absurd (omega (arith, h))
  drain-Drained (suc fuel) (c ∷ queue) s d r h =
      let out = release (get_or [] c (dependents g)) d queue in
      let (ids, e, turn, last) =
        drain-Drained fuel out.1 (c ∷ s) out.0 (drain-IsRound s c queue d r)
          (round_less s c queue d fuel r (omega (arith, h))) in
      (
        c ∷ ids,
        ap (prepend (sorted_node g c)) e,
        (ground (arith, r.free c, r.counted c, eq_iff c c), turn),
        last,
      )
