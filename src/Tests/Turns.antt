-- ===== src/Tests/Turns.antt =====
-- The theorems on the turn: patches, generations, limits and the outbox.
use reactifact.Prelude.{
  ℕ, ◌+◌, ◌≤◌, String, ◌≡◌, refl, true, false, none, some, List, [], ◌∷◌, arith, string_eq, ◌==◌,
  if◌then◌else◌, nat_eq,
}
use reactifact.Prelude.Dict.{lookup, insert}
use reactifact.Prelude.Sets.{contains, union}
use reactifact.Result.{ok, err, stopped}
use reactifact.Model.{Model, action, app, Status, class_eq, class_beq, model_beq}
use reactifact.Operations.{Operation, create, update, link}
use reactifact.CommitLog.{replay_state, replay_relations}
use reactifact.CommitLog.Chain.{empty_log-IsValid}
use reactifact.Context
use reactifact.Context.{Context, Event, empty_context, artifact_created, pending_actions}
use reactifact.Context.TypeIndex.{IsIndexed}
use reactifact.Context.Listing.{create-IsIndexed}
use reactifact.Context.Staleness.{IsKeyed}
use reactifact.Trigger.{Trigger}
use reactifact.Budget.{Budget, completed}
use reactifact.Runtime.{
  Agent, Attempt, nothing, raised, Turn, Config, AgentResult, get_patches, run_once,
  run_generations, has_pending_work, commit_patch, apply_op, Dispatcher, drain_actions,
}
use reactifact.Runtime.Replay.{IsGrounded, IsCommitted, commit_patch-IsCommitted}
use reactifact.Runtime.Reached.{IsFresh, commit_patch-IsSound}
use reactifact.Context.Reachable.{Reachable, started}
use reactifact.Context.Soundness.{IsSound}
use reactifact.Runtime.Limits.{get_patches-runs_used}
use reactifact.Runtime.Outcome.{run_generations-completed, run_once-raised}
use reactifact.Runtime.Delivery.{artifact_ids, pending_at, drain_actions-delivers}
use reactifact.Tests.Data.{draft, final_, edited}

abbrev pub on_created : Trigger
on_created = record {
  event_type = artifact_created;
  artifact_type = none;
  condition = none;
  context_condition = none;
  debounce = false;
  include_subclasses = false;
}

abbrev pub agent_of : Attempt → Agent
agent_of attempt = record {
  ident = 0;
  name = "writer";
  priority = 0;
  triggers = on_created ∷ [];
  produces = some (record { artifact_type = some (app "Note"); also_creates = [] } ∷ []);
  collect_inputs = λ ctx. [];
  run = λ e ctx. attempt;
}

abbrev ids : ℕ → String
ids n = "n"

abbrev patch : List Operation
patch = create draft none none ∷ update "n" final_ ∷ link "n" "cites" "n" ∷ []

empty-IsCommitted : IsCommitted empty_context
unfolding lookup replay_state replay_relations
empty-IsCommitted = record {
  log_valid = empty_log-IsValid;
  data_agrees = λ aid. refl;
  edges_agree = refl;
}

patch-IsGrounded : IsGrounded ids "c" patch empty_context
unfolding lookup apply_op insert
patch-IsGrounded = (refl, tt)

commit_patch-IsCommitted_example :
    IsCommitted (commit_patch ids "c" (agent_of nothing) [] patch empty_context)
    × ((commit_patch ids "c" (agent_of nothing) [] patch empty_context).log.version ≡ 1)
    × ((commit_patch ids "c" (agent_of nothing) [] patch empty_context).log.head_id ≡ some "c")
commit_patch-IsCommitted_example =
    commit_patch-IsCommitted ids "c" (agent_of nothing) [] patch empty_context patch-IsGrounded
      empty-IsCommitted

abbrev new_ids : ℕ → String
new_ids n = if n == 0 then "n" else if n == 1 then "m" else "o"

patch-IsFresh : IsFresh new_ids "c" patch empty_context
unfolding lookup apply_op insert model_beq
patch-IsFresh = (refl, (refl, (refl, tt)))

commit_patch-IsSound_example :
    Reachable (commit_patch new_ids "c" (agent_of nothing) [] patch empty_context)
    × IsSound (commit_patch new_ids "c" (agent_of nothing) [] patch empty_context)
commit_patch-IsSound_example =
    commit_patch-IsSound new_ids "c" (agent_of nothing) [] patch empty_context patch-IsFresh started

abbrev config_of : List Agent → Config
config_of agents = record {
  issubclass = λ c d. c == d;
  agents = agents;
  scheduler = none;
  isolate_errors = false;
  may_run = λ name. true;
  authorizer = none;
  guardrails = none;
  dispatcher = none;
  late = λ n. false;
  stop_requested = λ n. false;
  now = λ n. n;
  new_id = λ g p n. "n";
  commit_id = λ g p. "c";
}

abbrev start : Turn
start = record {
  runs_used = 0;
  errors_used = 0;
  outcome = completed;
  quota_spent = false;
  active_budget = none;
  tracker = none;
  clock_reads = 0;
}

abbrev pub created : Event
created = record {
  ident = 0;
  type_ = artifact_created;
  artifact_type = app "Note";
  artifact_id = "n";
}

abbrev pub woken : Context
woken = record edited { events = created ∷ []; next_event = 1 }

abbrev pub idle : Config
idle = config_of (agent_of nothing ∷ [])

idle_runs : (run_generations idle 3 0 woken start).runs ≡ ok 1
unfolding run_generations contains
idle_runs = refl

idle_completes : (run_generations idle 3 0 woken start).turn.outcome ≡ completed
unfolding run_generations contains
idle_completes = refl

run_generations-completed_example :
    has_pending_work idle (run_generations idle 3 0 woken start).context ≡ false
run_generations-completed_example =
    run_generations-completed idle 3 0 woken start 1 idle_runs idle_completes

abbrev broken : Config
broken = config_of (agent_of (raised "boom") ∷ [])

broken_raises : (run_once broken 0 woken start).runs ≡ err (stopped "boom")
unfolding run_once contains
broken_raises = refl

run_once-raised_example : (run_once broken 0 woken start).context ≡ woken
run_once-raised_example = run_once-raised broken 0 woken start (stopped "boom") refl broken_raises

abbrev pub five_runs : Budget
five_runs = record {
  max_runs = some 5;
  max_iterations = none;
  max_seconds = none;
  max_tool_calls = none;
  max_tokens = some 10;
  max_cost = none;
}

abbrev limited : Turn
limited = record start { active_budget = some five_runs }

abbrev pub result : AgentResult
result = record { agent = agent_of nothing; reads = []; patch = some patch; failed = false }

get_patches-runs_used_example :
    ((get_patches idle woken (result ∷ []) limited).turn.runs_used ≤ 5)
    × ((get_patches idle woken (result ∷ []) limited).turn.runs_used
        ≡ 0 + (get_patches idle woken (result ∷ []) limited).runs)
    × ((get_patches idle woken (result ∷ []) limited).runs ≤ 1)
get_patches-runs_used_example =
    get_patches-runs_used idle woken (result ∷ []) limited 5 refl (omega arith)

abbrev mail : Model
mail = action (record {
  kind = "mail";
  idempotency_key = "k";
  payload = "{}";
  status = Status.pending;
  attempts = 0;
  dispatched_at = none;
  error = none;
})

no_mail : lookup "m" empty_context.artifacts ≡ none
unfolding lookup
no_mail = refl

empty-IsIndexed : IsIndexed empty_context
unfolding lookup contains
empty-IsIndexed = record { artifacts_distinct = tt; types_distinct = tt; typed = λ c aid. refl }

abbrev outbox : Context
outbox = (Context.create "m" mail none empty_context).0

outbox-IsIndexed : IsIndexed outbox
outbox-IsIndexed = create-IsIndexed "m" mail none empty_context no_mail empty-IsIndexed

outbox-IsKeyed : IsKeyed outbox
unfolding Context.create lookup insert
outbox-IsKeyed = record {
  keyed = λ k a e. ground (arith, e, string_eq.beq_iff "m" k);
  log_valid = empty_log-IsValid;
}

abbrev perform : Dispatcher
perform ctx a = none

performed : (drain_actions (some perform) 1 outbox).outcome ≡ ok tt
unfolding Context.create lookup insert drain_actions contains class_beq union
performed = refl

drain_actions-delivers_example :
    ((drain_actions (some perform) 1 outbox).sent ≡ artifact_ids (pending_actions outbox))
    × ((k : String) → pending_at k (drain_actions (some perform) 1 outbox).context ≡ false)
drain_actions-delivers_example =
    drain_actions-delivers perform 1 outbox outbox-IsIndexed outbox-IsKeyed performed
