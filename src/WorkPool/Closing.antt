-- ===== src/WorkPool/Closing.antt =====
-- internal/workpool/pool.go: Close, which ends whatever the goroutines do, and leaves nothing behind.
use m_aistr.Prelude.{
  ℕ, suc, ◌+◌, ◌-◌, ◌*◌, ◌<◌, leb, ◌≡◌, refl, ap, arith, String, true, List, [], ◌∷◌, ◌++◌, length,
  length-append, All,
}
use m_aistr.WorkPool.{
  Worker, waiting, stopped, received, running, Phase, open_phase, closing, closed, Pool, Step,
  check, enqueue, hand_over, give_up, receive, return, abandon, run, finish, cancel, drain,
}
use m_aistr.WorkPool.Accounts.{total, moved}

abbrev pub rank : Phase → ℕ
rank open_phase = 0
rank closing = 1
rank closed = 2

abbrev pub weight : Worker → ℕ
weight stopped = 0
weight waiting = 1
weight (received v) = 1
weight (running v) = 2

-- What Close has done: the context is cancelled from the call on, and once it has returned, no
-- worker is left, nobody submits and the queue is empty.
pub record IsClosing (s : Pool) : Type 0 where
  pub cancels : s.cancelled ≡ leb 1 (rank s.phase)
  pub stops : rank s.phase ≡ 2 → total weight s.workers ≡ 0
  pub locks : rank s.phase ≡ 2 → length s.submitting ≡ 0
  pub drains : rank s.phase ≡ 2 → length s.jobs ≡ 0

-- The steps that are left once the context is cancelled.
abbrev pub steps_left : Pool → ℕ
steps_left s =
    3 * length s.submitting + 2 * length s.jobs + total weight s.workers + (2 - rank s.phase)

stopped_weight : (ws : List Worker) → All (λ w. w ≡ stopped) ws → total weight ws ≡ 0
stopped_weight [] h = refl
stopped_weight (w ∷ ws) (e, h) = omega (arith, ap weight e, stopped_weight ws h)

split_length :
    (xs before after : List String) (v : String)
    → xs ≡ before ++ v ∷ after
    → length xs ≡ suc (length (before ++ after))
split_length xs before after v e = omega (
  arith,
  ap length e,
  length-append {A = String} before (v ∷ after),
  length-append {A = String} before after,
)

-- A step keeps this, and once the context is cancelled fewer steps are left behind it.
abbrev pub Closes : Pool → Pool → Type 0
Closes s t = IsClosing t × (s.cancelled ≡ true → steps_left t < steps_left s)

pub Step-Closes : (s t : Pool) → Step s t → IsClosing s → Closes s t
Step-Closes s t (check _ v c) p = (
  record {
    cancels = p.cancels;
    stops = p.stops;
    drains = p.drains;
    locks = λ r. absurd (ground (arith, c, p.cancels, r));
  },
  (λ k. absurd (cc)),
)
Step-Closes s t (enqueue _ before after v e lt) p =
    let n = split_length s.submitting before after v e in
    let m = length-append {A = String} s.jobs (v ∷ []) in
    (
      record {
        cancels = p.cancels;
        stops = p.stops;
        locks = λ r. absurd (omega (arith, n, p.locks r));
        drains = λ r. absurd (omega (arith, n, p.locks r));
      },
      (λ k. omega (arith, n, m)),
    )
Step-Closes s t (hand_over _ before after v others rest e j w) p =
    let n = split_length s.submitting before after v e in
    let m = moved weight s.workers others rest waiting (received v) w in
    (
      record {
        cancels = p.cancels;
        drains = p.drains;
        stops = λ r. absurd (omega (arith, n, p.locks r));
        locks = λ r. absurd (omega (arith, n, p.locks r));
      },
      (λ k. omega (arith, n, m)),
    )
Step-Closes s t (give_up _ before after v e) p =
    let n = split_length s.submitting before after v e in
    (
      record {
        cancels = p.cancels;
        stops = p.stops;
        drains = p.drains;
        locks = λ r. absurd (omega (arith, n, p.locks r));
      },
      (λ k. omega (arith, n)),
    )
Step-Closes s t (receive _ v jobs others rest j w) p =
    let m = moved weight s.workers others rest waiting (received v) w in
    let n = ap length j in
    (
      record {
        cancels = p.cancels;
        locks = p.locks;
        stops = λ r. absurd (omega (arith, n, p.drains r));
        drains = λ r. absurd (omega (arith, n, p.drains r));
      },
      (λ k. omega (arith, n, m)),
    )
Step-Closes s t (return _ others rest w c) p =
    let m = moved weight s.workers others rest waiting stopped w in
    (
      record {
        cancels = p.cancels;
        locks = p.locks;
        drains = p.drains;
        stops = λ r. omega (arith, m, p.stops r);
      },
      (λ k. omega (arith, m)),
    )
Step-Closes s t (abandon _ v others rest w c) p =
    let m = moved weight s.workers others rest (received v) stopped w in
    (
      record {
        cancels = p.cancels;
        locks = p.locks;
        drains = p.drains;
        stops = λ r. omega (arith, m, p.stops r);
      },
      (λ k. omega (arith, m)),
    )
Step-Closes s t (run _ v others rest w c) p = (
  record {
    cancels = p.cancels;
    locks = p.locks;
    drains = p.drains;
    stops = λ r. absurd (ground (arith, c, p.cancels, r));
  },
  (λ k. absurd (cc)),
)
Step-Closes s t (finish _ v others rest w) p =
    let m = moved weight s.workers others rest (running v) waiting w in
    (
      record {
        cancels = p.cancels;
        locks = p.locks;
        drains = p.drains;
        stops = λ r. omega (arith, m, p.stops r);
      },
      (λ k. omega (arith, m)),
    )
Step-Closes s t (cancel _ e) p = (
  record {
    cancels = refl;
    stops = λ r. absurd (omega (arith, r));
    locks = λ r. absurd (omega (arith, r));
    drains = λ r. absurd (omega (arith, r));
  },
  (λ k. absurd (ground (arith, k, p.cancels, ap rank e))),
)
Step-Closes s t (drain _ e a b) p = (
  record {
    cancels = ground (arith, p.cancels, ap rank e);
    stops = λ r. stopped_weight s.workers a;
    locks = λ r. ap length b;
    drains = λ r. refl;
  },
  (λ k. omega (arith, ap rank e)),
)
