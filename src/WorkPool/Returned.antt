-- ===== src/WorkPool/Returned.antt =====
-- internal/workpool/pool.go: runs of the pool, up to the return of Close.
use m_aistr.Prelude.{
  ℕ, ◌+◌, ◌≤◌, leb, ◌≡◌, ◌≢◌, refl, ap, ◌∙◌, ◌⊎◌, inl, inr, arith, String, true, List, [], ◌∷◌,
  ◌++◌, length, All,
}
use m_aistr.Prelude.Occurrences.{occ}
use m_aistr.WorkPool.{
  Worker, waiting, stopped, received, running, Phase, open_phase, closing, closed, Pool, new_pool,
  Step, check, enqueue, hand_over, give_up, receive, return, abandon, run, finish, cancel, drain,
  Run, start, then_step,
}
use m_aistr.WorkPool.Accounts.{total, held, IsPool, Step-IsPool, new_pool-IsPool}
use m_aistr.WorkPool.Closing.{rank, weight, IsClosing, steps_left, Step-Closes}

stays_cancelled : (s t : Pool) → Step s t → s.cancelled ≡ true → t.cancelled ≡ true
stays_cancelled s t (check _ v c) h = h
stays_cancelled s t (enqueue _ before after v e lt) h = h
stays_cancelled s t (hand_over _ before after v others rest e j w) h = h
stays_cancelled s t (give_up _ before after v e) h = h
stays_cancelled s t (receive _ v jobs others rest j w) h = h
stays_cancelled s t (return _ others rest w c) h = h
stays_cancelled s t (abandon _ v others rest w c) h = h
stays_cancelled s t (run _ v others rest w c) h = h
stays_cancelled s t (finish _ v others rest w) h = h
stays_cancelled s t (cancel _ e) h = refl
stays_cancelled s t (drain _ e a b) h = h

run_left :
    (n : ℕ) (s t : Pool)
    → Run n s t
    → IsClosing s
    → s.cancelled ≡ true
    → (n + steps_left t ≤ steps_left s) × IsClosing t × (t.cancelled ≡ true)
run_left n s t (start _ _ e) p c = (omega (arith, e), p, c)
run_left n s u (then_step m _ t _ r st) p c =
    let (le, q, d) = run_left m s t r p c in
    let (q', less) = Step-Closes t u st q in
    (omega (arith, le, less d), q', stays_cancelled t u st d)

-- A worker that has not returned.
abbrev Live : List Worker → Type 0
Live ws =
    (others : List Worker) × ((rest : List Worker) × ((w : Worker) × (ws ≡ others ++ w ∷ rest)
        × (w ≢ stopped)))

All-or_Live : (ws : List Worker) → (All (λ w. w ≡ stopped) ws) ⊎ Live ws
All-or_Live [] = inl tt
All-or_Live (waiting ∷ ws) = inr ([], (ws, (waiting, refl, λ e. cc)))
All-or_Live (received v ∷ ws) = inr ([], (ws, (received v, refl, λ e. cc)))
All-or_Live (running v ∷ ws) = inr ([], (ws, (running v, refl, λ e. cc)))
All-or_Live (stopped ∷ ws) = elim (All-or_Live ws) [
  | inl all_stopped ↦ inl (refl, all_stopped)
  | inr (others, (rest, (w, e, n))) ↦
      inr (stopped ∷ others, (rest, (w, ap (λ z. stopped ∷ z) e, n)))
]

live_step : (s : Pool) → s.cancelled ≡ true → Live s.workers → (t : Pool) × Step s t
live_step s c (others, (rest, (waiting, e, n))) = (_, return s others rest e c)
live_step s c (others, (rest, (stopped, e, n))) = absurd (n refl)
live_step s c (others, (rest, (received v, e, n))) = (_, abandon s v others rest e c)
live_step s c (others, (rest, (running v, e, n))) = (_, finish s v others rest e)

List-cases :
    (xs : List String) → (xs ≡ []) ⊎ ((x : String) × ((rest : List String) × (xs ≡ x ∷ rest)))
List-cases [] = inl refl
List-cases (x ∷ xs) = inr (x, (xs, refl))

-- While Close waits, some goroutine has a step.
closing_step : (s : Pool) → s.cancelled ≡ true → s.phase ≡ closing → (t : Pool) × Step s t
closing_step s c e = elim (List-cases s.submitting) [
  | inr (v, (rest, q)) ↦ (_, give_up s [] rest v q)
  | inl none_left ↦ elim (All-or_Live s.workers) [
    | inr live ↦ live_step s c live
    | inl all_stopped ↦ (_, drain s e all_stopped none_left)
  ]
]

not_open : (s : Pool) → IsClosing s → s.cancelled ≡ true → (s.phase ≡ closing) ⊎ (s.phase ≡ closed)
not_open s p c = go s.phase p.cancels
  where
    go : (f : Phase) → s.cancelled ≡ leb 1 (rank f) → (f ≡ closing) ⊎ (f ≡ closed)
    go open_phase e = absurd (cc)
    go closing e = inl refl
    go closed e = inr refl

new_pool-IsClosing : (workers queue_cap : ℕ) → IsClosing (new_pool workers queue_cap)
unfolding new_pool
new_pool-IsClosing workers queue_cap = record {
  cancels = refl;
  stops = λ r. absurd (omega (arith, r));
  locks = λ r. absurd (omega (arith, r));
  drains = λ r. absurd (omega (arith, r));
}

reached : (n : ℕ) (s t : Pool) → Run n s t → IsPool s × IsClosing s → IsPool t × IsClosing t
reached n s t (start _ _ e) p = p
reached n s u (then_step m _ t _ r st) p =
    let (q, k) = reached m s t r p in (Step-IsPool t u st q, (Step-Closes t u st k).0)

pub reached-new :
    (workers queue_cap n : ℕ) (t : Pool)
    → Run n (new_pool workers queue_cap) t
    → IsPool t × IsClosing t
reached-new workers queue_cap n t r =
    reached n (new_pool workers queue_cap) t r
      (new_pool-IsPool workers queue_cap, new_pool-IsClosing workers queue_cap)

none_held : (x : String) (ws : List Worker) → total weight ws ≡ 0 → held x ws ≡ 0
none_held x [] h = refl
none_held x (waiting ∷ ws) h = absurd (omega (arith, h))
none_held x (stopped ∷ ws) h = omega (arith, none_held x ws (omega (arith, h)))
none_held x (received v ∷ ws) h = absurd (omega (arith, h))
none_held x (running v ∷ ws) h = absurd (omega (arith, h))

-- In every run of a pool, the queue is within its capacity, the active count is the number of
-- running handlers, and each job was accepted as often as it is queued, held by a worker, handled
-- and dropped together.
pub run-IsPool :
    (workers queue_cap n : ℕ) (t : Pool) → Run n (new_pool workers queue_cap) t → IsPool t
run-IsPool workers queue_cap n t r = (reached-new workers queue_cap n t r).0

-- In every run of a pool, once Close has returned, each job was accepted as often as it was
-- handled and dropped together, and no goroutine has a step left.
pub run_closed :
    (workers queue_cap n : ℕ) (t : Pool)
    → Run n (new_pool workers queue_cap) t
    → t.phase ≡ closed
    → ((x : String) → occ x t.accepted ≡ occ x t.handled + occ x t.dropped)
      × ((u : Pool) → ¬ Step t u)
run_closed workers queue_cap n t r e =
    let (p, q) = reached-new workers queue_cap n t r in
    let two = ap rank e in
    (
      (λ x.
          omega
            (arith, p.kept x, none_held x t.workers (q.stops two), no_occ x t.jobs (q.drains two))),
      (λ u st. omega (
        arith,
        (Step-Closes t u st q).1 (q.cancels ∙ ap (λ f. leb 1 (rank f)) e),
        q.stops two,
        q.locks two,
        q.drains two,
        two,
      )),
    )
  where
    no_occ : (x : String) (xs : List String) → length xs ≡ 0 → occ x xs ≡ 0
    no_occ x [] h = refl
    no_occ x (y ∷ xs) h = absurd (omega (arith, h))

-- In every run of a pool, from the call of Close on, there is a bound on the number of further
-- steps, and as long as Close has not returned, some goroutine has a step.
pub run-Returns :
    (workers queue_cap m n : ℕ) (s t : Pool)
    → Run m (new_pool workers queue_cap) s
    → s.phase ≡ closing
    → Run n s t
    → (n ≤ steps_left s) × ((t.phase ≡ closed) ⊎ ((u : Pool) × Step t u))
run-Returns workers queue_cap m n s t before e r =
    let (_, p) = reached-new workers queue_cap m s before in
    let called : s.cancelled ≡ true = p.cancels ∙ ap (λ f. leb 1 (rank f)) e in
    let (le, q, c) = run_left n s t r p called in
    (omega (arith, le), elim (not_open t q c) [ inl f ↦ inr (closing_step t c f) | inr f ↦ inl f ])
