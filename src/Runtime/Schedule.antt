-- ===== src/Runtime/Schedule.antt =====
-- The work of one generation: which agents the pending events wake, and in which order.
use reactifact.Prelude.{
  sort_by, ℕ, ◌-◌, Bool, true, false, ◌&&◌, none, some, List, [], ◌∷◌, ◌++◌, eqb, leb, take,
  if◌then◌else◌,
}
use reactifact.Model.{Class}
use reactifact.Context.{Context, Event}
use reactifact.Trigger.{Trigger}
use reactifact.Budget.{budget_runs_exceeded}
use reactifact.Runtime.Counters.{Turn, budget_exhausted, max_runs_of}
use reactifact.Runtime.Agents.{Agent, WorkItem, matching_triggers, collect_reads}

-- `all(trigger.debounce for trigger in triggers)`
unfoldable pub all_debounce : List Trigger → Bool
all_debounce [] = true
all_debounce (t ∷ ts) = t.debounce && all_debounce ts

-- `debounced[agent] = (event, reads)`: the last event wins, the agent keeps its place.
unfoldable pub debounce : WorkItem → List WorkItem → List WorkItem
debounce w [] = w ∷ []
debounce w (v ∷ ws) = if eqb v.agent.ident w.agent.ident then w ∷ ws else v ∷ debounce w ws

pub record Staged : Type 0 where
  pub turn : Turn
  pub work : List WorkItem
  pub debounced : List WorkItem

module _ (issubclass : Class → Class → Bool) (late : ℕ → Bool) (ctx : Context) where
  -- What one agent adds for one event.
  unfoldable pub stage : Agent → Event → Staged → Staged
  unfolding matching_triggers collect_reads all_debounce debounce
  stage agent e s =
      let item : WorkItem = record {
        agent = agent;
        event = e;
        reads = collect_reads agent e ctx;
      } in
      elim (matching_triggers issubclass agent.triggers e ctx) [
        | [] ↦ s
        | t ∷ ts ↦
            if all_debounce (t ∷ ts)
            then record s { debounced = debounce item s.debounced }
            else record s { work = s.work ++ item ∷ [] }
      ]

  -- The inner loop, which ends early when the budget is spent.
  unfoldable pub stage_agents : List Agent → Event → Staged → Staged
  unfolding stage budget_exhausted
  stage_agents [] e s = s
  stage_agents (agent ∷ agents) e s =
      let (turn, spent) = budget_exhausted late s.turn in
      let s' : Staged = record s { turn = turn } in
      elim spent [ true ↦ s' | false ↦ stage_agents agents e (stage agent e s') ]

  -- The outer loop.
  unfoldable pub stage_events : List Agent → List Event → Staged → Staged
  unfolding stage_agents budget_exhausted
  stage_events agents [] s = s
  stage_events agents (e ∷ es) s =
      let (turn, spent) = budget_exhausted late s.turn in
      let s' : Staged = record s { turn = turn } in
      elim spent [ true ↦ s' | false ↦ stage_events agents es (stage_agents agents e s') ]

  -- The collected work: debounced runs go last and are sorted in again.
  unfoldable pub collect_work : List Agent → List Event → Turn → Turn × List WorkItem
  unfolding stage_events sort_by
  collect_work agents es turn =
      let s =
        stage_events (sort_by (λ (a : Agent). a.priority) agents) es
          (record { turn = turn; work = []; debounced = [] }) in
      (
        s.turn,
        (elim s.debounced [
          | [] ↦ s.work
          | w ∷ ws ↦ sort_by (λ (i : WorkItem). i.agent.priority) (s.work ++ (w ∷ ws))
        ]),
      )

-- The cut by `max_runs`, which sets the outcome only if no run is left.
unfoldable pub limit_work : Turn → List WorkItem → Turn × List WorkItem
limit_work turn work = elim (max_runs_of turn.active_budget) [
  | none ↦ (turn, work)
  | some most ↦
      if leb most turn.runs_used
      then (record turn { outcome = budget_runs_exceeded }, [])
      else (turn, take (most - turn.runs_used) work)
]
