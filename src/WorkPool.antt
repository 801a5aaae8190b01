-- ===== src/WorkPool.antt =====
-- internal/workpool/pool.go: the pool of workers, as a relation of steps. A step is what happens
-- between two points at which goroutines wait for each other; a step of one goroutine may come
-- between any two of another.
pub mod Accounts
pub mod Closing
pub mod Ledger
pub mod Returned
use m_aistr.Prelude.{
  ℕ, zero, suc, ◌+◌, ◌-◌, ◌≤◌, ◌<◌, ◌≡◌, String, Bool, true, false, List, [], ◌∷◌, ◌++◌, length,
  All,
}

-- A worker waits in its select, has received a job, runs a job, or has returned.
pub data Worker : Type 0 where
  waiting stopped : Worker
  received running : String → Worker

-- Close: not called, waiting for the workers and submitters, and returned.
pub data Phase : Type 0 where
  open_phase closing closed : Phase

-- `submitting` has the jobs of the submitters that passed the checks and hold the read lock. The
-- last three fields are the history of the run: which jobs a submission accepted, which a handler
-- has finished and which nobody will run.
pub record Pool : Type 0 where
  pub cancelled : Bool
  pub capacity : ℕ
  pub jobs : List String
  pub workers : List Worker
  pub active : ℕ
  pub submitting : List String
  pub phase : Phase
  pub accepted : List String
  pub handled : List String
  pub dropped : List String

-- NewWithOptions: n workers and a queue.
unfoldable pub replicate_waiting : ℕ → List Worker
replicate_waiting zero = []
replicate_waiting (suc n) = waiting ∷ replicate_waiting n

unfoldable pub new_pool : ℕ → ℕ → Pool
unfolding replicate_waiting
new_pool workers queue_cap = record {
  cancelled = false;
  capacity = queue_cap;
  jobs = [];
  workers = replicate_waiting workers;
  active = 0;
  submitting = [];
  phase = open_phase;
  accepted = [];
  handled = [];
  dropped = [];
}

pub data Step : Pool → Pool → Type 0 where
  -- submit: neither the pool's context nor the submitter's is done.
  check :
      (s : Pool) (v : String)
      → s.cancelled ≡ false
      → Step s (record s { submitting = v ∷ s.submitting })
  -- The select of submit: the queue takes the job, or a worker that waits, or the submitter gets an
  -- error.
  enqueue :
      (s : Pool) (before after : List String) (v : String)
      → s.submitting ≡ before ++ v ∷ after
      → length s.jobs < s.capacity
      → Step s (record s {
        submitting = before ++ after;
        jobs = s.jobs ++ v ∷ [];
        accepted = v ∷ s.accepted;
      })
  hand_over :
      (s : Pool) (before after : List String) (v : String) (others rest : List Worker)
      → s.submitting ≡ before ++ v ∷ after
      → s.jobs ≡ []
      → s.workers ≡ others ++ waiting ∷ rest
      → Step s (record s {
        submitting = before ++ after;
        workers = others ++ received v ∷ rest;
        accepted = v ∷ s.accepted;
      })
  give_up :
      (s : Pool) (before after : List String) (v : String)
      → s.submitting ≡ before ++ v ∷ after
      → Step s (record s { submitting = before ++ after })
  -- The select of worker, and the check behind it.
  receive :
      (s : Pool) (v : String) (jobs : List String) (others rest : List Worker)
      → s.jobs ≡ v ∷ jobs
      → s.workers ≡ others ++ waiting ∷ rest
      → Step s (record s { jobs = jobs; workers = others ++ received v ∷ rest })
  return :
      (s : Pool) (others rest : List Worker)
      → s.workers ≡ others ++ waiting ∷ rest
      → s.cancelled ≡ true
      → Step s (record s { workers = others ++ stopped ∷ rest })
  abandon :
      (s : Pool) (v : String) (others rest : List Worker)
      → s.workers ≡ others ++ received v ∷ rest
      → s.cancelled ≡ true
      → Step s (record s { workers = others ++ stopped ∷ rest; dropped = v ∷ s.dropped })
  -- run, up to the handler's call and behind it.
  run :
      (s : Pool) (v : String) (others rest : List Worker)
      → s.workers ≡ others ++ received v ∷ rest
      → s.cancelled ≡ false
      → Step s (record s { workers = others ++ running v ∷ rest; active = s.active + 1 })
  finish :
      (s : Pool) (v : String) (others rest : List Worker)
      → s.workers ≡ others ++ running v ∷ rest
      → Step s (record s {
        workers = others ++ waiting ∷ rest;
        active = s.active - 1;
        handled = v ∷ s.handled;
      })
  -- Close: the call, and what follows once the workers have returned and the lock is free.
  cancel :
      (s : Pool) → s.phase ≡ open_phase → Step s (record s { cancelled = true; phase = closing })
  drain :
      (s : Pool)
      → s.phase ≡ closing
      → All (λ w. w ≡ stopped) s.workers
      → s.submitting ≡ []
      → Step s (record s { jobs = []; phase = closed; dropped = s.jobs ++ s.dropped })

-- A run of so many steps.
pub data Run : ℕ → Pool → Pool → Type 0 where
  start : (n : ℕ) (s : Pool) → n ≡ 0 → Run n s s
  then_step : (n : ℕ) (s t u : Pool) → Run n s t → Step t u → Run (suc n) s u
