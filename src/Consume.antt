-- ===== src/Consume.antt =====
-- `Consume` of reactifact/consume.py, and how an agent of reactifact/agents.py takes its triggers
-- and its inputs from what it consumes. The factories are calls of the constructor. The context
-- builder of an agent, which chooses and shortens inputs, is not modelled.
pub mod Correlated
pub mod Wakes
use reactifact.Prelude.{
  ℕ, Bool, true, false, not, ◌&&◌, Option, none, some, List, [], ◌∷◌, ◌++◌, keep_if, if◌then◌else◌,
}
use reactifact.Result.{Result, ok, err, value_error, raise_if, ◌>>◌, ◌>>=◌}
use reactifact.Model.{Class}
use reactifact.Artifact.{Artifact}
use reactifact.Context.{Context, EventType, artifact_created, artifact_updated, list_artifacts}
use reactifact.Trigger.{Trigger, holds}

pub record Consume : Type 0 where
  pub artifact_type : Class
  pub condition : Option (Artifact → Bool)
  pub event_types : List EventType
  pub wakes : Bool
  pub debounce : Bool
  pub include_subclasses : Bool

-- The events of a consume that names none.
abbrev pub default_events : List EventType
default_events = artifact_created ∷ artifact_updated ∷ []

-- The constructor, with its two checks.
unfoldable pub new_consume :
    Option Class
    → Option (Artifact → Bool)
    → Option (List EventType)
    → Bool
    → Bool
    → Bool
    → Result Consume
new_consume none condition event_types wakes debounce include_subclasses = err value_error
new_consume (some c) condition event_types wakes debounce include_subclasses =
    raise_if (debounce && not wakes) value_error
    >> ok (record {
      artifact_type = c;
      condition = condition;
      event_types = elim event_types [ none ↦ default_events | some es ↦ es ];
      wakes = wakes;
      debounce = debounce;
      include_subclasses = include_subclasses;
    })

abbrev pub trigger_on : Consume → EventType → Trigger
trigger_on c event_type = record {
  event_type = event_type;
  artifact_type = some c.artifact_type;
  condition = c.condition;
  context_condition = none;
  debounce = c.debounce;
  include_subclasses = c.include_subclasses;
}

abbrev pub triggers_on : Consume → List EventType → List Trigger
triggers_on c [] = []
triggers_on c (event_type ∷ es) = trigger_on c event_type ∷ triggers_on c es

unfoldable pub to_triggers : Consume → List Trigger
to_triggers c = if not c.wakes then [] else triggers_on c c.event_types

unfoldable pub collect : (Class → Class → Bool) → Consume → Context → List Artifact
unfolding list_artifacts
collect issubclass c ctx =
    let artifacts = list_artifacts issubclass (some c.artifact_type) ctx in
    elim c.condition [ none ↦ artifacts | some p ↦ keep_if p artifacts ]

-- `_generate_triggers_from_consumes`
unfoldable pub triggers_from : List Consume → List Trigger
unfolding to_triggers
triggers_from [] = []
triggers_from (c ∷ cs) = to_triggers c ++ triggers_from cs

-- The loop of `_collect_inputs`.
unfoldable pub gather : (Class → Class → Bool) → List Consume → Context → List Artifact
unfolding collect
gather issubclass [] ctx = []
gather issubclass (c ∷ cs) ctx = collect issubclass c ctx ++ gather issubclass cs ctx

-- `build` of the application's context builder for the agent: it may rank and drop artifacts.
abbrev pub ContextBuilder : Type 0
ContextBuilder = Context → List Artifact → List Artifact

abbrev pub built : Option ContextBuilder → Context → List Artifact → List Artifact
built none ctx inputs = inputs
built (some build) ctx inputs = build ctx inputs

-- `_collect_inputs`
unfoldable pub inputs_from :
    (Class → Class → Bool) → Option ContextBuilder → List Consume → Context → List Artifact
unfolding gather
inputs_from issubclass builder [] ctx = []
inputs_from issubclass builder (c ∷ cs) ctx = built builder ctx (gather issubclass (c ∷ cs) ctx)
