-- ===== src/Trigger.antt =====
-- `Trigger` of reactifact/triggers.py: when an event wakes an agent. A trigger is always asked with
-- a context at hand, so the `ValueError` for a missing one does not arise.
use reactifact.Prelude.{Bool, true, false, Option, none, some, ◌==◌, if◌then◌else◌}
use reactifact.Model.{Class, class_eq}
use reactifact.Artifact.{Artifact}
use reactifact.Context.{
  Context, Event, EventType, artifact_created, artifact_updated, artifact_deleted, artifact_stale,
  get,
}

pub record Trigger : Type 0 where
  pub event_type : EventType
  pub artifact_type : Option Class
  pub condition : Option (Artifact → Bool)
  pub context_condition : Option (Artifact → Context → Bool)
  pub debounce : Bool
  pub include_subclasses : Bool

unfoldable pub same_event : EventType → EventType → Bool
same_event artifact_created artifact_created = true
same_event artifact_updated artifact_updated = true
same_event artifact_deleted artifact_deleted = true
same_event artifact_stale artifact_stale = true
same_event _ _ = false

-- `_type_matches`; every event of the model carries a class.
unfoldable pub type_matches : (Class → Class → Bool) → Trigger → Class → Bool
type_matches issubclass t c = elim t.artifact_type [
  | none ↦ true
  | some wanted ↦ if t.include_subclasses then issubclass c wanted else c == wanted
]

abbrev pub holds : Option (Artifact → Bool) → Artifact → Bool
holds none a = true
holds (some p) a = p a

abbrev pub holds_in : Option (Artifact → Context → Bool) → Artifact → Context → Bool
holds_in none a ctx = true
holds_in (some p) a ctx = p a ctx

-- The conditions of `matches`, which need the artifact only if there is one.
unfoldable pub conditions_hold : Trigger → Event → Context → Bool
unfolding get
conditions_hold t e ctx = elim t.condition [
  | some p ↦ elim (get e.artifact_id ctx) [
    | none ↦ false
    | some a ↦ if p a then holds_in t.context_condition a ctx else false
  ]
  | none ↦ elim t.context_condition [
    | none ↦ true
    | some p ↦ elim (get e.artifact_id ctx) [ none ↦ false | some a ↦ p a ctx ]
  ]
]

unfoldable pub matches : (Class → Class → Bool) → Trigger → Event → Context → Bool
unfolding same_event type_matches conditions_hold
matches issubclass t e ctx =
    if same_event e.type_ t.event_type
    then (if type_matches issubclass t e.artifact_type then conditions_hold t e ctx else false)
    else false
