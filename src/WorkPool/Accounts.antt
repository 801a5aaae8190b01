-- ===== src/WorkPool/Accounts.antt =====
-- internal/workpool/pool.go: every accepted job is queued, held by a worker, handled or dropped,
-- and only one of these.
use m_aistr.Prelude.{
  ℕ, zero, suc, ◌+◌, ◌≤◌, ◌≡◌, refl, ap, arith, String, str_eq, List, [], ◌∷◌, ◌++◌, length,
  length-append, if◌then◌else◌,
}
use m_aistr.Prelude.Occurrences.{occ, occ-append}
use m_aistr.WorkPool.{
  Worker, waiting, stopped, received, running, Pool, new_pool, Step, check, enqueue, hand_over,
  give_up, receive, return, abandon, run, finish, cancel, drain, replicate_waiting,
}

-- How often the workers hold a job, and how many run one.
abbrev pub holds : String → Worker → ℕ
holds x waiting = 0
holds x stopped = 0
holds x (received v) = if str_eq v x then 1 else 0
holds x (running v) = if str_eq v x then 1 else 0

abbrev runs : Worker → ℕ
runs (running v) = 1
runs waiting = 0
runs stopped = 0
runs (received v) = 0

abbrev pub total : (Worker → ℕ) → List Worker → ℕ
total f [] = 0
total f (w ∷ ws) = f w + total f ws

pub total-append :
    (f : Worker → ℕ) (others rest : List Worker) (w : Worker)
    → total f (others ++ w ∷ rest) ≡ f w + total f (others ++ rest)
total-append f [] rest w = refl
total-append f (o ∷ others) rest w = omega (arith, total-append f others rest w)

abbrev pub held : String → List Worker → ℕ
held x ws = total (holds x) ws

-- The accounts of a pool.
pub record IsPool (s : Pool) : Type 0 where
  pub kept :
      (x : String)
      → occ x s.accepted ≡ occ x s.jobs + held x s.workers + occ x s.handled + occ x s.dropped
  pub within : length s.jobs ≤ s.capacity
  pub counted : s.active ≡ total runs s.workers

-- What a step does to the workers, in numbers.
pub moved :
    (f : Worker → ℕ) (ws others rest : List Worker) (w w' : Worker)
    → ws ≡ others ++ w ∷ rest
    → total f (others ++ w' ∷ rest) + f w ≡ total f ws + f w'
moved f ws others rest w w' e =
    omega (arith, ap (total f) e, total-append f others rest w, total-append f others rest w')

pub Step-IsPool : (s t : Pool) → Step s t → IsPool s → IsPool t
Step-IsPool s t (check _ v c) p = record { kept = p.kept; within = p.within; counted = p.counted }
Step-IsPool s t (enqueue _ before after v e lt) p = record {
  kept = λ x. ground (arith, p.kept x, occ-append x s.jobs (v ∷ []));
  within = omega (arith, lt, length-append {A = String} s.jobs (v ∷ []));
  counted = p.counted;
}
Step-IsPool s t (hand_over _ before after v others rest e j w) p = record {
  kept =
      λ x. ground (arith, p.kept x, moved (holds x) s.workers others rest waiting (received v) w);
  within = p.within;
  counted = omega (arith, p.counted, moved runs s.workers others rest waiting (received v) w);
}
Step-IsPool s t (give_up _ before after v e) p = record {
  kept = p.kept;
  within = p.within;
  counted = p.counted;
}
Step-IsPool s t (receive _ v jobs others rest j w) p = record {
  kept = λ x.
      ground (
        arith,
        p.kept x,
        ap (occ x) j,
        moved (holds x) s.workers others rest waiting (received v) w,
      );
  within = omega (arith, p.within, ap length j);
  counted = omega (arith, p.counted, moved runs s.workers others rest waiting (received v) w);
}
Step-IsPool s t (return _ others rest w c) p = record {
  kept = λ x. omega (arith, p.kept x, moved (holds x) s.workers others rest waiting stopped w);
  within = p.within;
  counted = omega (arith, p.counted, moved runs s.workers others rest waiting stopped w);
}
Step-IsPool s t (abandon _ v others rest w c) p = record {
  kept =
      λ x. ground (arith, p.kept x, moved (holds x) s.workers others rest (received v) stopped w);
  within = p.within;
  counted = omega (arith, p.counted, moved runs s.workers others rest (received v) stopped w);
}
Step-IsPool s t (run _ v others rest w c) p = record {
  kept = λ x.
      ground (arith, p.kept x, moved (holds x) s.workers others rest (received v) (running v) w);
  within = p.within;
  counted = omega (arith, p.counted, moved runs s.workers others rest (received v) (running v) w);
}
Step-IsPool s t (finish _ v others rest w) p = record {
  kept = λ x. ground (arith, p.kept x, moved (holds x) s.workers others rest (running v) waiting w);
  within = p.within;
  counted = omega (arith, p.counted, moved runs s.workers others rest (running v) waiting w);
}
Step-IsPool s t (cancel _ e) p = record { kept = p.kept; within = p.within; counted = p.counted }
Step-IsPool s t (drain _ e a b) p = record {
  kept = λ x. omega (arith, p.kept x, occ-append x s.jobs s.dropped);
  within = omega arith;
  counted = p.counted;
}

nothing_held : (f : Worker → ℕ) (n : ℕ) → f waiting ≡ 0 → total f (replicate_waiting n) ≡ 0
unfolding replicate_waiting
nothing_held f zero h = refl
nothing_held f (suc n) h = omega (arith, h, nothing_held f n h)

pub new_pool-IsPool : (workers queue_cap : ℕ) → IsPool (new_pool workers queue_cap)
unfolding new_pool
new_pool-IsPool workers queue_cap = record {
  kept = λ x. omega (arith, nothing_held (holds x) workers refl);
  within = omega arith;
  counted = omega (arith, nothing_held runs workers refl);
}
