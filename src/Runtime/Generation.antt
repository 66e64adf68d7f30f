-- ===== src/Runtime/Generation.antt =====
-- One generation from its events to its commits, and the loop over the generations. Agents that
-- run side by side see the same context, so `_dispatch` runs them in order here; persistence,
-- traces and logs are not modelled.
use reactifact.Prelude.{
  ℕ, zero, suc, ◌+◌, String, Bool, true, false, not, ◌&&◌, Option, none, some, List, [], ◌∷◌, ◌++◌,
  eqb, if◌then◌else◌,
}
use reactifact.Result.{Result, ok, err, denied, stopped, ◌>>=◌, ◌>>◌}
use reactifact.Model.{Class}
use reactifact.Operations.{Operation}
use reactifact.Commit.{Read}
use reactifact.Context.{Context, Event, consume_events}
use reactifact.Budget.{RunOutcome, completed, iterations_exhausted}
use reactifact.Budget
use reactifact.Runtime.Counters.{Turn, budget_exhausted}
use reactifact.Runtime.Agents.{Agent, WorkItem, Attempt, patched, nothing, raised}
use reactifact.Runtime.Schedule.{collect_work, limit_work}
use reactifact.Runtime.Checks.{
  Authorizer, Guardrails, validate_patch_types, enforce_authorization, apply_guardrails,
}
use reactifact.Runtime.Patches.{commit_patch}
use reactifact.Runtime.Outbox.{Dispatcher, drain_actions, has_pending_actions, is_empty}

-- What a runtime is made with, and what comes from outside: the clock, whether a stop has been
-- requested before the n-th generation, and new ids, by generation, patch and operation.
pub record Config : Type 0 where
  pub issubclass : Class → Class → Bool
  pub agents : List Agent
  pub scheduler : Option (Context → List WorkItem → List WorkItem)
  pub isolate_errors : Bool
  pub may_run : String → Bool
  pub authorizer : Authorizer
  pub guardrails : Guardrails
  pub dispatcher : Option Dispatcher
  pub late : ℕ → Bool
  pub stop_requested : ℕ → Bool
  pub now : ℕ → ℕ
  pub new_id : ℕ → ℕ → ℕ → String
  pub commit_id : ℕ → ℕ → String

pub record AgentResult : Type 0 where
  pub agent : Agent
  pub reads : List Read
  pub patch : Option (List Operation)
  pub failed : Bool

-- `_execute`: a denied run always raises, an agent's own exception unless it is isolated.
unfoldable pub finish : Bool → WorkItem → Attempt → Result AgentResult
finish isolate w (patched ops) =
    ok (record { agent = w.agent; reads = w.reads; patch = some ops; failed = false })
finish isolate w nothing =
    ok (record { agent = w.agent; reads = w.reads; patch = none; failed = false })
finish isolate w (raised why) =
    if isolate
    then ok (record { agent = w.agent; reads = w.reads; patch = none; failed = true })
    else err (stopped why)

unfoldable pub execute : Config → Context → WorkItem → Result AgentResult
unfolding finish
execute cfg ctx w =
    if cfg.may_run w.agent.name
    then finish cfg.isolate_errors w (w.agent.run w.event ctx)
    else err denied

unfoldable pub dispatch : Config → Context → List WorkItem → Result (List AgentResult)
unfolding execute
dispatch cfg ctx [] = ok []
dispatch cfg ctx (w ∷ ws) = do r ← execute cfg ctx w; rs ← dispatch cfg ctx ws; ok (r ∷ rs)

pub record PatchWork : Type 0 where
  pub operations : List Operation
  pub agent : Agent
  pub reads : List Read

-- The checks of `_get_patches_to_apply` on one patch.
unfoldable pub checked : Config → Context → AgentResult → List Operation → Result PatchWork
unfolding validate_patch_types enforce_authorization apply_guardrails
checked cfg ctx r ops = do
  validate_patch_types r.agent ops
  enforce_authorization cfg.authorizer ops
  ops' ← apply_guardrails cfg.guardrails ctx ops
  ok (record { operations = ops'; agent = r.agent; reads = r.reads })

-- A result with no operation is not applied, but still counts as a run.
unfoldable pub patch_of : Config → Context → AgentResult → Result (List PatchWork)
unfolding checked
patch_of cfg ctx r = if r.failed then ok [] else elim r.patch [
  | none ↦ ok []
  | some [] ↦ ok []
  | some (op ∷ ops) ↦ checked cfg ctx r (op ∷ ops) >>= λ p. ok (p ∷ [])
]

pub record Collected : Type 0 where
  pub turn : Turn
  pub runs : ℕ
  pub patches : Result (List PatchWork)

-- One result's share of the counters.
unfoldable pub count_run : AgentResult → Turn → Turn
count_run r t = record t {
  runs_used = t.runs_used + 1;
  errors_used = if r.failed then t.errors_used + 1 else t.errors_used;
}

-- `_get_patches_to_apply`; an exception of a check ends the loop.
unfoldable pub get_patches : Config → Context → List AgentResult → Turn → Collected
unfolding budget_exhausted count_run patch_of
get_patches cfg ctx [] t = record { turn = t; runs = 0; patches = ok [] }
get_patches cfg ctx (r ∷ rs) t =
    let (t', spent) = budget_exhausted cfg.late t in
    elim spent [
      | true ↦ record { turn = t'; runs = 0; patches = ok [] }
      | false ↦ elim (patch_of cfg ctx r) [
        | err e ↦ record { turn = count_run r t'; runs = 1; patches = err e }
        | ok ps ↦
            let rest = get_patches cfg ctx rs (count_run r t') in
            record {
              turn = rest.turn;
              runs = rest.runs + 1;
              patches = rest.patches >>= λ qs. ok (ps ++ qs);
            }
      ]
    ]

-- `_commit_patches_to_apply`; `n` counts the patches.
unfoldable pub commit_patches : Config → ℕ → ℕ → List PatchWork → Context → Context
unfolding commit_patch
commit_patches cfg generation n [] ctx = ctx
commit_patches cfg generation n (p ∷ ps) ctx = commit_patches cfg generation (n + 1) ps (
    commit_patch (cfg.new_id generation n) (cfg.commit_id generation n) p.agent p.reads p.operations
      ctx)

pub record Ran : Type 0 where
  pub context : Context
  pub turn : Turn
  pub runs : Result ℕ

abbrev pub scheduled :
    Option (Context → List WorkItem → List WorkItem) → Context → List WorkItem → List WorkItem
scheduled none ctx work = work
scheduled (some policy) ctx [] = []
scheduled (some policy) ctx (w ∷ ws) = policy ctx (w ∷ ws)

-- The end of a generation: the commits, then the batch of events is consumed, then the outbox.
unfoldable pub settle : Config → ℕ → List Event → Context → Turn → ℕ → List PatchWork → Ran
unfolding commit_patches consume_events drain_actions
settle cfg generation es ctx turn runs patches =
    let committed = commit_patches cfg generation 0 patches ctx in
    let drained = drain_actions cfg.dispatcher (cfg.now generation) (consume_events es committed) in
    record { context = drained.context; turn = turn; runs = drained.outcome >>= λ _. ok runs }

-- From the results of the agents; an exception leaves the context and its events as they were.
unfoldable pub after_dispatch :
    Config → ℕ → List Event → Context → Turn → Result (List AgentResult) → Ran
unfolding get_patches settle
after_dispatch cfg generation es ctx turn (err e) = record {
  context = ctx;
  turn = turn;
  runs = err e;
}
after_dispatch cfg generation es ctx turn (ok results) =
    let got = get_patches cfg ctx results turn in
    elim got.patches [
      | err e ↦ record { context = ctx; turn = got.turn; runs = err e }
      | ok patches ↦ settle cfg generation es ctx got.turn got.runs patches
    ]

-- The part of `_arun_once_impl` behind its early returns.
unfoldable pub run_work : Config → ℕ → Context → Turn → Ran
unfolding collect_work limit_work dispatch after_dispatch
run_work cfg generation ctx turn =
    let (staged, work) = collect_work cfg.issubclass cfg.late ctx cfg.agents ctx.events turn in
    let (limited, work') = limit_work staged (scheduled cfg.scheduler ctx work) in
    after_dispatch cfg generation ctx.events ctx limited (dispatch cfg ctx work')

unfoldable pub has_pending_work : Config → Context → Bool
unfolding has_pending_actions is_empty
has_pending_work cfg ctx =
    if is_empty ctx.events then has_pending_actions cfg.dispatcher ctx else true

-- `_arun_once_impl`
unfoldable pub run_once : Config → ℕ → Context → Turn → Ran
unfolding has_pending_work budget_exhausted run_work
run_once cfg generation ctx turn =
    if not (has_pending_work cfg ctx)
    then record { context = ctx; turn = turn; runs = ok 0 }
    else let (turn', spent) = budget_exhausted cfg.late turn in
      if spent
      then record { context = ctx; turn = turn'; runs = ok 0 }
      else run_work cfg generation ctx turn'

-- The `else` of the `for`: the limit of generations is reached.
unfoldable pub exhaust : Turn → Turn
exhaust t = elim t.outcome [ completed ↦ record t { outcome = iterations_exhausted } | _ ↦ t ]

abbrev pub add_runs : ℕ → Result ℕ → Result ℕ
add_runs n r = r >>= λ m. ok (n + m)

-- `_run_generations`: `left` generations may still run, `generation` is the number of the next.
unfoldable pub run_generations : Config → ℕ → ℕ → Context → Turn → Ran
unfolding exhaust budget_exhausted run_once has_pending_work
run_generations cfg zero generation ctx turn = record {
  context = ctx;
  turn = exhaust turn;
  runs = ok 0;
}
run_generations cfg (suc left) generation ctx turn = elim (cfg.stop_requested generation) [
  | true ↦ record { context = ctx; turn = record turn { outcome = Budget.stopped }; runs = ok 0 }
  | false ↦
      let (turn', spent) = budget_exhausted cfg.late turn in
      elim spent [
        | true ↦ record { context = ctx; turn = turn'; runs = ok 0 }
        | false ↦
            let once = run_once cfg generation ctx turn' in
            elim once.runs [
              | err e ↦ once
              | ok n ↦ elim (eqb n 0 && not (has_pending_work cfg once.context)) [
                | true ↦ once
                | false ↦
                    let rest = run_generations cfg left (generation + 1) once.context once.turn in
                    record { context = rest.context; turn = rest.turn; runs = add_runs n rest.runs }
              ]
            ]
      ]
]
