-- ===== src/Codec/Artifacts.antt =====
-- `to_dict` and `from_dict` of `Artifact` and `Event`.
use reactifact.Prelude.{
  ℕ, ◌+◌, String, none, some, List, [], ◌∷◌, ◌==◌, if◌then◌else◌, string_eq, length,
}
use reactifact.Result.{Result, ok, err, type_error, ◌>>=◌}
use reactifact.Model.{Class}
use reactifact.Artifact.{Artifact, new}
use reactifact.Context.{
  chosen_id, Event, EventType, artifact_created, artifact_updated, artifact_deleted, artifact_stale,
}
use reactifact.Json.{
  Json, num, text, arr, obj, end, field, optional_text, item, item_or, as_num, text_at,
  optional_text_at, items_of, list_at,
}
use reactifact.Codec.Schemas.{Schema, read_model}

abbrev pub event_type_value : EventType → String
event_type_value artifact_created = "artifact_created"
event_type_value artifact_updated = "artifact_updated"
event_type_value artifact_deleted = "artifact_deleted"
event_type_value artifact_stale = "artifact_stale"

-- `EventType(value)`
unfoldable pub event_type_of : String → Result EventType
event_type_of t =
    if t == "artifact_created"
    then ok artifact_created
    else if t == "artifact_updated"
    then ok artifact_updated
    else if t == "artifact_deleted"
    then ok artifact_deleted
    else if t == "artifact_stale"
    then ok artifact_stale
    else err type_error

module _ (s : Schema) where
  unfoldable pub artifact_to_dict : Artifact → Json
  artifact_to_dict a = obj (
      field "id" (text a.id) (
        field "data_type" (text (s.type_id_of a.data_class)) (
          field "data" (s.model_dump a.data_) (
            field "version" (num a.version) (
              field "history" (arr (items_of s.model_dump a.history))
                (field "created_by_commit" (optional_text a.created_by_commit) end))))))

  unfoldable pub artifact_from_dict : Json → Result Artifact
  unfolding text_at item read_model optional_text_at list_at item_or new chosen_id
  artifact_from_dict d = do
    data_type ← text_at "data_type" d
    raw ← item "data" d
    m ← read_model s data_type raw
    id ← text_at "id" d
    created_by_commit ← optional_text_at "created_by_commit" d
    history ← list_at (read_model s data_type) "history" d
    found ← item_or (num (length history)) "version" d
    version ← as_num found
    ok (record (new m (chosen_id (s.fresh_id d) (some id)) created_by_commit) {
      history = history;
      version = version;
    })

  unfoldable pub event_to_dict : Event → Json
  event_to_dict e = obj (
      field "type" (text (event_type_value e.type_)) (
        field "artifact_type" (text (s.type_id_of e.artifact_type))
          (field "artifact_id" (text e.artifact_id) end)))

  abbrev pub class_or_name : String → Class
  class_or_name name = elim (s.resolve name) [ none ↦ s.bare_name name | some c ↦ c ]

  -- A loaded event is a new object; its identity is set by the loop below.
  unfoldable pub event_from_dict : Json → Result Event
  unfolding text_at event_type_of
  event_from_dict d = do
    name ← text_at "artifact_type" d
    t ← text_at "type" d
    type_ ← event_type_of t
    artifact_id ← text_at "artifact_id" d
    ok (record {
      ident = 0;
      type_ = type_;
      artifact_type = class_or_name name;
      artifact_id = artifact_id;
    })

-- The identities of the loaded events, which are new objects.
unfoldable pub renumber : ℕ → List Event → List Event
renumber i [] = []
renumber i (e ∷ es) = record e { ident = i } ∷ renumber (i + 1) es
