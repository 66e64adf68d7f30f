-- ===== src/Codec/Operations.antt =====
-- `to_dict` of the operations, `operation_from_dict`, and the two of `Relation`.
use reactifact.Prelude.{String, ◌==◌, if◌then◌else◌, string_eq}
use reactifact.Result.{Result, ok, err, unknown_operation, ◌>>=◌}
use reactifact.Model.{Model, class_of}
use reactifact.Operations.{Operation, create, update, delete, link, unlink, Relation}
use reactifact.Json.{Json, text, obj, end, field, optional_text, item, text_at, optional_text_at}
use reactifact.Codec.Schemas.{Schema, read_model}

unfoldable pub relation_to_dict : Relation → Json
relation_to_dict r = obj (
    field "source_id" (text r.source_id)
      (field "relation" (text r.relation) (field "target_id" (text r.target_id) end)))

unfoldable pub relation_from_dict : Json → Result Relation
unfolding text_at
relation_from_dict d = do
  source ← text_at "source_id" d
  relation ← text_at "relation" d
  target ← text_at "target_id" d
  ok (record { source_id = source; relation = relation; target_id = target })

module _ (s : Schema) where
  -- The type id of a model's class.
  abbrev pub model_type : Model → String
  model_type m = s.type_id_of (class_of m)

  unfoldable pub operation_to_dict : Operation → Json
  operation_to_dict (create d artifact_id i) = obj (
      field "type" (text "create") (
        field "data" (s.model_dump d) (
          field "data_type" (text (model_type d))
            (field "artifact_id" (optional_text artifact_id) (field "id" (optional_text i) end)))))
  operation_to_dict (update artifact_id d) = obj (
      field "type" (text "update") (
        field "artifact_id" (text artifact_id)
          (field "data" (s.model_dump d) (field "data_type" (text (model_type d)) end))))
  operation_to_dict (delete artifact_id) =
      obj (field "type" (text "delete") (field "artifact_id" (text artifact_id) end))
  operation_to_dict (link artifact_id relation target_id) = obj (
      field "type" (text "link") (
        field "artifact_id" (text artifact_id)
          (field "relation" (text relation) (field "target_id" (text target_id) end))))
  operation_to_dict (unlink artifact_id relation target_id) = obj (
      field "type" (text "unlink") (
        field "artifact_id" (text artifact_id) (
          field "relation" (optional_text relation)
            (field "target_id" (optional_text target_id) end))))

  unfoldable pub read_create : Json → Result Operation
  unfolding item text_at optional_text_at read_model
  read_create d = do
    data_type ← text_at "data_type" d
    raw ← item "data" d
    m ← read_model s data_type raw
    i ← optional_text_at "id" d
    artifact_id ← optional_text_at "artifact_id" d
    ok (create m artifact_id i)

  unfoldable pub read_update : Json → Result Operation
  unfolding item text_at read_model
  read_update d = do
    data_type ← text_at "data_type" d
    raw ← item "data" d
    m ← read_model s data_type raw
    artifact_id ← text_at "artifact_id" d
    ok (update artifact_id m)

  unfoldable pub read_delete : Json → Result Operation
  unfolding text_at
  read_delete d = text_at "artifact_id" d >>= λ artifact_id. ok (delete artifact_id)

  unfoldable pub read_link : Json → Result Operation
  unfolding text_at
  read_link d = do
    artifact_id ← text_at "artifact_id" d
    relation ← text_at "relation" d
    target_id ← text_at "target_id" d
    ok (link artifact_id relation target_id)

  unfoldable pub read_unlink : Json → Result Operation
  unfolding text_at optional_text_at
  read_unlink d = do
    artifact_id ← text_at "artifact_id" d
    relation ← optional_text_at "relation" d
    target_id ← optional_text_at "target_id" d
    ok (unlink artifact_id relation target_id)

  -- The branches on the type of the operation.
  unfoldable pub read_as : String → Json → Result Operation
  unfolding read_create read_update read_delete read_link read_unlink
  read_as op_type d =
      if op_type == "create"
      then read_create d
      else if op_type == "update"
      then read_update d
      else if op_type == "delete"
      then read_delete d
      else if op_type == "link"
      then read_link d
      else if op_type == "unlink"
      then read_unlink d
      else err unknown_operation

  unfoldable pub operation_from_dict : Json → Result Operation
  unfolding read_as text_at
  operation_from_dict d = text_at "type" d >>= λ op_type. read_as op_type d
