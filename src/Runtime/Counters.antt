-- ===== src/Runtime/Counters.antt =====
-- The counters of a turn, and `_budget_exhausted`. Each call of it reads the clock once:
-- `late n` says whether the deadline has passed at the n-th reading of the turn.
use reactifact.Prelude.{ℕ, ◌+◌, Bool, true, false, Option, none, some, if◌then◌else◌}
use reactifact.Budget.{
  Budget, BudgetTracker, RunOutcome, budget_time_exceeded, quota_exceeded, budget_runs_exceeded,
  reached, exhausted,
}

pub record Turn : Type 0 where
  pub runs_used : ℕ
  pub errors_used : ℕ
  pub outcome : RunOutcome
  pub quota_spent : Bool
  pub active_budget : Option Budget
  pub tracker : Option BudgetTracker
  pub clock_reads : ℕ

abbrev pub max_runs_of : Option Budget → Option ℕ
max_runs_of none = none
max_runs_of (some b) = b.max_runs

abbrev pub tracker_outcome : Option Budget → Option BudgetTracker → Option RunOutcome
tracker_outcome b none = none
tracker_outcome b (some t) = exhausted b t

-- Why the turn may not go on, in the order of the tests.
unfoldable pub stop_reason : Bool → Turn → Option RunOutcome
unfolding exhausted
stop_reason late t =
    if late
    then some budget_time_exceeded
    else if t.quota_spent
    then some quota_exceeded
    else if reached (max_runs_of t.active_budget) t.runs_used
    then some budget_runs_exceeded
    else tracker_outcome t.active_budget t.tracker

unfoldable pub budget_exhausted : (ℕ → Bool) → Turn → Turn × Bool
unfolding stop_reason
budget_exhausted late t = elim (stop_reason (late t.clock_reads) t) [
  | none ↦ (record t { clock_reads = t.clock_reads + 1 }, false)
  | some why ↦ (record t { clock_reads = t.clock_reads + 1; outcome = why }, true)
]
