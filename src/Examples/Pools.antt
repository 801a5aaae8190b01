-- ===== src/Examples/Pools.antt =====
-- internal/workpool/pool.go: a pool of one worker that runs a job and is closed.
use m_aistr.Prelude.{◌+◌, ◌≤◌, ◌≡◌, refl, ◌⊎◌, arith, String, true, [], ◌∷◌}
use m_aistr.Prelude.Occurrences.{occ}
use m_aistr.WorkPool.{Worker, Phase, Pool, new_pool, Step, Run, closed, replicate_waiting}
use m_aistr.WorkPool
use m_aistr.WorkPool.Closing.{steps_left}
use m_aistr.WorkPool.Returned.{run-Returns, run_closed}

abbrev after_1 : Pool
after_1 = record (new_pool 1 1) { submitting = "j" ∷ [] }

abbrev after_2 : Pool
after_2 = record after_1 { submitting = []; jobs = "j" ∷ []; accepted = "j" ∷ [] }

abbrev after_3 : Pool
after_3 = record after_2 { cancelled = true; phase = WorkPool.closing }

abbrev after_4 : Pool
after_4 = record after_3 { workers = WorkPool.stopped ∷ [] }

abbrev after_5 : Pool
after_5 = record after_4 { jobs = []; phase = closed; dropped = "j" ∷ [] }

run_3 : Run 3 (new_pool 1 1) after_3
unfolding new_pool replicate_waiting
run_3 =
    WorkPool.then_step 2 (new_pool 1 1) after_2 after_3
      (WorkPool.then_step 1 (new_pool 1 1) after_1 after_2
        (WorkPool.then_step 0 (new_pool 1 1) (new_pool 1 1) after_1
          (WorkPool.start 0 (new_pool 1 1) refl) (WorkPool.check (new_pool 1 1) "j" refl))
        (WorkPool.enqueue after_1 [] [] "j" refl (omega arith)))
      (WorkPool.cancel after_2 refl)

run_5 : Run 5 (new_pool 1 1) after_5
unfolding new_pool replicate_waiting
run_5 =
    WorkPool.then_step 4 (new_pool 1 1) after_4 after_5
      (WorkPool.then_step 3 (new_pool 1 1) after_3 after_4 run_3
        (WorkPool.return after_3 [] [] refl refl))
      (WorkPool.drain after_4 refl (refl, tt) refl)

return_step : Step after_3 after_4
unfolding new_pool replicate_waiting
return_step = WorkPool.return after_3 [] [] refl refl

run_closed_example :
    ((x : String) → occ x after_5.accepted ≡ occ x after_5.handled + occ x after_5.dropped)
    × ((u : Pool) → ¬ Step after_5 u)
run_closed_example = run_closed 1 1 5 after_5 run_5 refl

run-Returns_example :
    (1 ≤ steps_left after_3) × ((after_4.phase ≡ closed) ⊎ ((u : Pool) × Step after_4 u))
run-Returns_example =
    run-Returns 1 1 3 1 after_3 after_4 run_3 refl
      (WorkPool.then_step 0 after_3 after_3 after_4 (WorkPool.start 0 after_3 refl) return_step)
