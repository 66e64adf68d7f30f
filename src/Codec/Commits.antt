-- ===== src/Codec/Commits.antt =====
-- `to_dict` and `from_dict` of `Read`, `Write` and `Commit`.
use reactifact.Prelude.{String, ◌==◌, if◌then◌else◌, string_eq}
use reactifact.Result.{Result, ok, err, type_error, ◌>>=◌}
use reactifact.Commit.{Read, Write, OpType, Commit}
use reactifact.Json.{
  Json, num, text, arr, obj, end, field, optional_text, optional_num, text_at, num_at,
  optional_text_at, optional_num_at, items_of, list_at, optional_list_at,
}
use reactifact.Codec.Schemas.{Schema}
use reactifact.Codec.Operations.{operation_to_dict, operation_from_dict}

unfoldable pub read_to_dict : Read → Json
read_to_dict r =
    obj (field "artifact_id" (text r.artifact_id) (field "version" (num r.version) end))

unfoldable pub read_from_dict : Json → Result Read
unfolding text_at num_at
read_from_dict d = do
  artifact_id ← text_at "artifact_id" d
  version ← num_at "version" d
  ok (record { artifact_id = artifact_id; version = version })

abbrev pub op_type_text : OpType → String
op_type_text OpType.create = "create"
op_type_text OpType.update = "update"
op_type_text OpType.delete = "delete"

-- `op_type` is a text, which is one of three.
unfoldable pub op_type_of : String → Result OpType
op_type_of t =
    if t == "create"
    then ok OpType.create
    else if t == "update"
    then ok OpType.update
    else if t == "delete"
    then ok OpType.delete
    else err type_error

unfoldable pub write_to_dict : Write → Json
write_to_dict w = obj (
    field "artifact_id" (text w.artifact_id)
      (field "version" (num w.version) (field "op_type" (text (op_type_text w.op_type)) end)))

unfoldable pub write_from_dict : Json → Result Write
unfolding text_at num_at op_type_of
write_from_dict d = do
  artifact_id ← text_at "artifact_id" d
  version ← num_at "version" d
  t ← text_at "op_type" d
  op_type ← op_type_of t
  ok (record { artifact_id = artifact_id; version = version; op_type = op_type })

module _ (s : Schema) where
  unfoldable pub commit_to_dict : Commit → Json
  unfolding items_of
  commit_to_dict c = obj (
      field "id" (text c.id) (
        field "author" (text c.author) (
          field "message" (text c.message) (
            field "operations" (arr (items_of (operation_to_dict s) c.operations)) (
              field "parent_id" (optional_text c.parent_id) (
                field "context_version" (optional_num c.context_version) (
                  field "reads" (arr (items_of read_to_dict c.reads))
                    (field "writes" (arr (items_of write_to_dict c.writes)) end))))))))

  unfoldable pub commit_from_dict : Json → Result Commit
  unfolding text_at list_at optional_list_at optional_text_at optional_num_at
  commit_from_dict d = do
    author ← text_at "author" d
    message ← text_at "message" d
    operations ← list_at (operation_from_dict s) "operations" d
    id ← text_at "id" d
    parent_id ← optional_text_at "parent_id" d
    context_version ← optional_num_at "context_version" d
    reads ← optional_list_at read_from_dict "reads" d
    writes ← optional_list_at write_from_dict "writes" d
    ok (record {
      id = id;
      author = author;
      message = message;
      operations = operations;
      parent_id = parent_id;
      context_version = context_version;
      reads = reads;
      writes = writes;
    })
