-- ===== src/Tests/Consumes.antt =====
-- An agent that consumes notes, woken by a new note.
use mathlib.Core.List.{Mem, cons≢nil}
use reactifact.Prelude.{
  List, ℕ, nat_eq, ◌≡◌, refl, sym, ◌∙◌, true, false, none, some, [], ◌∷◌, ==_refl, string_eq,
}
use reactifact.Prelude.Dict.{lookup, insert}
use reactifact.Prelude.Sets.{contains, union}
use reactifact.Result.{ok}
use reactifact.Model.{Class, app, class_of, class_eq, class_beq}
use reactifact.Artifact.{Artifact, new}
use reactifact.Runtime.{matching_triggers}
use reactifact.Trigger.{matches, same_event, type_matches, conditions_hold}
use reactifact.Context.{create, artifact_created}
use reactifact.Consume.{
  trigger_on, Consume, new_consume, default_events, to_triggers, triggers_from, ContextBuilder,
  inputs_from,
}
use reactifact.Consume.Correlated
use reactifact.Consume.Correlated.{CorrelatedConsume, group_ready}
use reactifact.Consume.Wakes.{inputs_from-wakes}
use reactifact.Tests.Data.{draft, edited, note, summary}
use reactifact.Tests.Stores.{created, created-IsIndexed, equal_class, event_of}

abbrev notes : Consume
notes = record {
  artifact_type = app "Note";
  condition = none;
  event_types = default_events;
  wakes = true;
  debounce = false;
  include_subclasses = false;
}

notes_made : new_consume (some (app "Note")) none none true false false ≡ ok notes
unfolding new_consume
notes_made = refl

abbrev fresh_note : Artifact
fresh_note = new draft "n" none

note_wakes :
    matching_triggers equal_class (triggers_from (notes ∷ [])) (event_of 0) created
    ≡ trigger_on notes artifact_created ∷ []
unfolding matching_triggers triggers_from to_triggers lookup create insert matches same_event
    type_matches conditions_hold class_beq
note_wakes = refl

-- `DefaultContextBuilder`
abbrev in_collection_order : ContextBuilder
in_collection_order ctx inputs = inputs

inputs_from-wakes_example :
    Mem fresh_note (inputs_from equal_class (some in_collection_order) (notes ∷ []) created)
unfolding class_of lookup create insert
inputs_from-wakes_example =
    inputs_from-wakes equal_class (λ k. ==_refl k) created created-IsIndexed (event_of 0) fresh_note
      refl refl (some in_collection_order) (notes ∷ []) (λ inputs m. m)
      (λ e. cons≢nil (sym note_wakes ∙ e))

-- Groups of one key: a note with its report, and a note asked for twice.
abbrev correlated : List Class → CorrelatedConsume ℕ
correlated classes = record {
  key = λ d. 0;
  require = classes;
  require_conditions = [];
  forbid = [];
  forbid_conditions = [];
  event_types = default_events;
  wakes = true;
  debounce = false;
}

joined :
    (group_ready equal_class (correlated (app "Note" ∷ app "Report" ∷ [])) 0 edited ≡ true)
    × (Correlated.collect equal_class (correlated (app "Note" ∷ app "Report" ∷ [])) edited
        ≡ note ∷ summary ∷ [])
unfolding group_ready Correlated.collect lookup insert class_beq contains union
joined = (refl, refl)

-- The trigger of the group fires, and the group is not collected.
asked_twice :
    (group_ready equal_class (correlated (app "Note" ∷ app "Note" ∷ [])) 0 edited ≡ true)
    × (Correlated.collect equal_class (correlated (app "Note" ∷ app "Note" ∷ [])) edited ≡ [])
unfolding group_ready Correlated.collect lookup insert class_beq contains union
asked_twice = (refl, refl)
