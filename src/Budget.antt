-- ===== src/Budget.antt =====
-- reactifact/budget.py: the limits of one turn and the counters that are held against them. Costs
-- are numbers of the smallest unit of account, and times are numbers of the clock's smallest step.
pub mod Monotone
use reactifact.Prelude.{
  ℕ, ◌+◌, Bool, true, false, ◌||◌, Option, none, some, is_some, leb, if◌then◌else◌,
}

pub data RunOutcome : Type 0 where
  completed iterations_exhausted budget_runs_exceeded budget_time_exceeded : RunOutcome
  budget_tokens_exceeded budget_cost_exceeded quota_exceeded stopped : RunOutcome

pub record Budget : Type 0 where
  pub max_runs : Option ℕ
  pub max_iterations : Option ℕ
  pub max_seconds : Option ℕ
  pub max_tool_calls : Option ℕ
  pub max_tokens : Option ℕ
  pub max_cost : Option ℕ

unfoldable pub tracks_llm_usage : Budget → Bool
tracks_llm_usage b = is_some b.max_tokens || is_some b.max_cost

pub record BudgetTracker : Type 0 where
  pub prompt_tokens : ℕ
  pub completion_tokens : ℕ
  pub cost : ℕ

abbrev pub no_usage : BudgetTracker
no_usage = record { prompt_tokens = 0; completion_tokens = 0; cost = 0 }

unfoldable pub total_tokens : BudgetTracker → ℕ
total_tokens t = t.prompt_tokens + t.completion_tokens

unfoldable pub record_usage : ℕ → ℕ → ℕ → BudgetTracker → BudgetTracker
record_usage prompt completion cost t = record {
  prompt_tokens = t.prompt_tokens + prompt;
  completion_tokens = t.completion_tokens + completion;
  cost = t.cost + cost;
}

-- Whether an optional limit is reached.
abbrev pub reached : Option ℕ → ℕ → Bool
reached none used = false
reached (some limit) used = leb limit used

-- `BudgetTracker.exhausted`
unfoldable pub exhausted : Option Budget → BudgetTracker → Option RunOutcome
unfolding total_tokens
exhausted none t = none
exhausted (some b) t =
    if reached b.max_tokens (total_tokens t)
    then some budget_tokens_exceeded
    else if reached b.max_cost t.cost
    then some budget_cost_exceeded
    else none
