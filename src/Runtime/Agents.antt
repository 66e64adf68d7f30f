-- ===== src/Runtime/Agents.antt =====
-- What the runtime knows of an agent: its triggers, what it consumes and may produce, and its code.
use reactifact.Prelude.{
  ℕ, String, Bool, true, false, Option, none, some, List, [], ◌∷◌, if◌then◌else◌, string_eq,
}
use reactifact.Prelude.Sets.{add, contains}
use reactifact.Model.{Class}
use reactifact.Artifact.{Artifact}
use reactifact.Operations.{Operation}
use reactifact.Commit.{Read}
use reactifact.Context.{Context, Event, get}
use reactifact.Trigger.{Trigger, matches}

pub record Produce : Type 0 where
  pub artifact_type : Option Class
  pub also_creates : List Class

-- How an agent's run ended: with a patch, with nothing to do, or with an exception.
pub data Attempt : Type 0 where
  patched : List Operation → Attempt
  nothing : Attempt
  raised : String → Attempt

-- `ident` is the identity of the object. `collect_inputs` stands for the agent's consumes and the
-- context builder, `run` for the code of its produces; both belong to the application.
pub record Agent : Type 0 where
  pub ident : ℕ
  pub name : String
  pub priority : ℕ
  pub triggers : List Trigger
  pub produces : Option (List Produce)
  pub collect_inputs : Context → List Artifact
  pub run : Event → Context → Attempt

pub record WorkItem : Type 0 where
  pub agent : Agent
  pub event : Event
  pub reads : List Read

unfoldable pub matching_triggers :
    (Class → Class → Bool) → List Trigger → Event → Context → List Trigger
unfolding matches
matching_triggers issubclass [] e ctx = []
matching_triggers issubclass (t ∷ ts) e ctx =
    let rest = matching_triggers issubclass ts e ctx in
    if matches issubclass t e ctx then t ∷ rest else rest

-- The loop of `_collect_reads` over the inputs, with the ids seen so far.
unfoldable pub input_reads : List String → List Artifact → List Read
input_reads seen [] = []
input_reads seen (a ∷ as') = elim (contains a.id seen) [
  | true ↦ input_reads seen as'
  | false ↦ record { artifact_id = a.id; version = a.version } ∷ input_reads (add a.id seen) as'
]

unfoldable pub collect_reads : Agent → Event → Context → List Read
unfolding input_reads get
collect_reads agent e ctx = elim (get e.artifact_id ctx) [
  | none ↦ input_reads [] (agent.collect_inputs ctx)
  | some a ↦
      record { artifact_id = a.id; version = a.version }
      ∷ input_reads (a.id ∷ []) (agent.collect_inputs ctx)
]
