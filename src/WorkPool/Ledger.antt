-- ===== src/WorkPool/Ledger.antt =====
-- internal/workpool/pool.go: what a pool promises its submitters, as an abstract machine that knows
-- neither workers nor a queue, and that the pool implements it.
use m_aistr.Prelude.{ℕ, ◌+◌, ◌≤◌, ◌≡◌, String, str_eq, Bool, true, false, if◌then◌else◌}
use m_aistr.Prelude.Occurrences.{occ}
use m_aistr.WorkPool.{Worker, waiting, stopped, received, running, Pool}
use m_aistr.WorkPool.Accounts.{total}

-- How often a worker holds a job that it has not begun, and one that it runs.
abbrev begun_not : String → Worker → ℕ
begun_not x waiting = 0
begun_not x stopped = 0
begun_not x (received v) = if str_eq v x then 1 else 0
begun_not x (running v) = 0

abbrev at_work : String → Worker → ℕ
at_work x waiting = 0
at_work x stopped = 0
at_work x (received v) = 0
at_work x (running v) = if str_eq v x then 1 else 0

-- How often each job is accepted and not begun, how often a handler runs it, how often one has
-- finished it, and whether Close was called.
pub record Ledger : Type 0 where
  pub pending : String → ℕ
  pub in_progress : String → ℕ
  pub done : String → ℕ
  pub close_called : Bool

-- A ledger forgets where a job is and in which order it will run.
unfoldable pub ledger : Pool → Ledger
ledger s = record {
  pending = λ x. occ x s.jobs + total (begun_not x) s.workers;
  in_progress = λ x. total (at_work x) s.workers;
  done = λ x. occ x s.handled;
  close_called = s.cancelled;
}

abbrev pub once : String → String → ℕ
once v x = if str_eq v x then 1 else 0

-- Counts that are the same, and counts that have one of a job more.
abbrev pub Alike : (String → ℕ) → (String → ℕ) → Type 0
Alike f g = (x : String) → g x ≡ f x

abbrev pub OneMore : String → (String → ℕ) → (String → ℕ) → Type 0
OneMore v f g = (x : String) → g x ≡ f x + once v x

pub data Promise (a b : Ledger) : Type 0 where
  -- Nothing that a submitter could see.
  rest :
      Alike a.pending b.pending
      → Alike a.in_progress b.in_progress
      → Alike a.done b.done
      → b.close_called ≡ a.close_called
      → Promise a b
  -- A job is accepted; begun, which no call of Close precedes; and finished.
  accept :
      (v : String)
      → OneMore v a.pending b.pending
      → Alike a.in_progress b.in_progress
      → Alike a.done b.done
      → b.close_called ≡ a.close_called
      → Promise a b
  begin :
      (v : String)
      → OneMore v b.pending a.pending
      → OneMore v a.in_progress b.in_progress
      → Alike a.done b.done
      → a.close_called ≡ false
      → b.close_called ≡ false
      → Promise a b
  complete :
      (v : String)
      → Alike a.pending b.pending
      → OneMore v b.in_progress a.in_progress
      → OneMore v a.done b.done
      → b.close_called ≡ a.close_called
      → Promise a b
  close_call :
      Alike a.pending b.pending
      → Alike a.in_progress b.in_progress
      → Alike a.done b.done
      → a.close_called ≡ false
      → b.close_called ≡ true
      → Promise a b
  -- Jobs are given up only after Close was called, and none that a handler runs.
  lose :
      a.close_called ≡ true
      → ((x : String) → b.pending x ≤ a.pending x)
      → Alike a.in_progress b.in_progress
      → Alike a.done b.done
      → b.close_called ≡ true
      → Promise a b
