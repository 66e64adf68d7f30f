-- ===== src/Tests/Limits.antt =====
-- The theorems on the choice of work, the quota and the budget.
use reactifact.Tests.Turns.{agent_of, created, woken}
use reactifact.Prelude.{◌≡◌, Bool, true, ◌&&◌, none, some, List, [], ◌∷◌, string_eq}
use reactifact.Model.{class_eq}
use reactifact.Scheduler.{Scheduler, run, is_resume}
use reactifact.Scheduler.Selection.{count, run_resumed}
use reactifact.Runtime.{nothing, raised, WorkItem}

abbrev work : List WorkItem
work =
    record { agent = agent_of nothing; event = created; reads = [] }
    ∷ record { agent = agent_of (raised "boom"); event = created; reads = [] }
    ∷ []

abbrev first_only : Scheduler
first_only = record {
  rules = [];
  metric = λ ctx a e. a.priority;
  llm_tie_break = none;
  rank_limit = some 1;
}

abbrev any_item : WorkItem → Bool
any_item w = true

run_resumed_example :
    count (λ w. any_item w && is_resume woken w) (run first_only none woken work)
    ≡ count (λ w. any_item w && is_resume woken w) work
run_resumed_example = run_resumed any_item first_only none woken work
