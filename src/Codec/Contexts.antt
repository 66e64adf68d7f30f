-- ===== src/Codec/Contexts.antt =====
-- `to_dict` and `from_dict` of `Context`. A fork has its base in the dictionary, and a base has
-- none of its own.
use reactifact.Prelude.{
  ℕ, ◌+◌, ◌-◌, String, true, Option, none, some, [], zero, suc, ltb, length, string_eq, nat_eq,
}
use reactifact.Prelude.Dict.{Dict, lookup}
use reactifact.Result.{Result, ok, err, newer_format, no_migration, ◌>>=◌, ◌>>◌, raise_if}
use reactifact.Context.{Context, empty_context, recompute_stale, reindex_by_type}
use reactifact.Branching.{Branch}
use reactifact.Json.{
  Json, null, num, text, arr, obj, Fields, end, field, optional_text, item_or, as_num,
  optional_num_at, optional_text_at, items_of, fields_of, list_at, optional_list_at, dict_at,
  as_text,
}
use reactifact.Codec.Schemas.{Schema}
use reactifact.Codec.Operations.{relation_from_dict}
use reactifact.Codec.Commits.{commit_from_dict}
use reactifact.Codec.Artifacts.{
  artifact_to_dict, artifact_from_dict, event_to_dict, event_from_dict, renumber,
}
use reactifact.Codec.Logs.{
  set_edges, graph_to_dict, log_to_dict, baseline_to_dict, read_baseline, log_from_dict,
}

abbrev pub format_version : ℕ
format_version = 1

-- `data["format_version"] = version`
unfoldable pub set_field : String → Json → Fields → Fields
set_field k v end = field k v end
set_field k v (field j w fs) = elim (string_eq.beq j k) [
  | true ↦ field j v fs
  | _ ↦ field j w (set_field k v fs)
]

abbrev pub set_item : String → Json → Json → Json
set_item k v (obj fs) = obj (set_field k v fs)
set_item k v d = d

-- The loop of `migrate_context_payload` with `left` versions to go; `migrations` is the table
-- `_CONTEXT_MIGRATIONS`.
unfoldable pub migrate_from : Dict ℕ (Json → Json) → ℕ → ℕ → Json → Result Json
unfolding set_field
migrate_from migrations zero version d = ok d
migrate_from migrations (suc left) version d = elim (lookup version migrations) [
  | none ↦ err no_migration
  | some f ↦
      migrate_from migrations left (version + 1)
        (set_item "format_version" (num (version + 1)) (f d))
]

unfoldable pub migrate_context_payload : Dict ℕ (Json → Json) → Json → Result Json
unfolding item_or migrate_from
migrate_context_payload migrations d = do
  found ← item_or (num 1) "format_version" d
  version ← as_num found
  raise_if (ltb format_version version) newer_format
  migrate_from migrations (format_version - version) version d

-- `Context.from_dict(base) if base is not None else None`
abbrev pub read_base : (Json → Result Context) → Json → Result (Option Context)
read_base read null = ok none
read_base read d = read d >>= λ c. ok (some c)

module _ (s : Schema) where
  -- A context without its base; `fork_name` and `base` come after it.
  unfoldable pub context_fields : String → Json → Context → Json
  context_fields fork_name base ctx = obj (
      field "format_version" (num format_version) (
        field "version" (num ctx.log.version) (
          field "head_id" (optional_text ctx.log.head_id) (
            field "artifacts" (obj (fields_of (artifact_to_dict s) ctx.artifacts)) (
              field "relations" (graph_to_dict ctx.relations) (
                field "commits" (log_to_dict s ctx.log) (
                  field "commit_baseline" (baseline_to_dict s ctx.log) (
                    field "events" (arr (items_of (event_to_dict s) ctx.events))
                      (field "fork_name" (text fork_name) (field "base" base end))))))))))

  -- `base.to_dict() if base is not None else None`
  abbrev pub base_to_dict : Option Context → Json
  base_to_dict none = null
  base_to_dict (some base) = context_fields "" null base

  unfoldable pub context_to_dict : Branch → Json
  unfolding context_fields
  context_to_dict b = context_fields b.fork_name (base_to_dict b.base) b.context

  -- `from_dict` up to the base.
  unfoldable pub read_context : Json → Result Context
  unfolding dict_at optional_list_at list_at item_or read_baseline log_from_dict optional_num_at
      optional_text_at renumber set_edges recompute_stale reindex_by_type
  read_context d = do
    arts ← dict_at (artifact_from_dict s) "artifacts" d
    rels ← optional_list_at relation_from_dict "relations" d
    commits ← list_at (commit_from_dict s) "commits" d
    version ← optional_num_at "version" d
    head_id ← optional_text_at "head_id" d
    raw ← item_or null "commit_baseline" d
    baseline ← read_baseline s raw
    events ← optional_list_at (event_from_dict s) "events" d
    ok (
        reindex_by_type (
          recompute_stale (record empty_context {
            artifacts = arts;
            relations = set_edges rels [];
            log = log_from_dict s commits version head_id baseline;
            events = renumber 0 events;
            next_event = length events;
          })))

  -- `from_dict` of a payload in the current format; the base is a payload of its own, migrated and
  -- read in the same way.
  unfoldable pub branch_from_dict : Dict ℕ (Json → Json) → Json → Result Branch
  unfolding migrate_context_payload read_context item_or
  branch_from_dict migrations d = do
    ctx ← read_context d
    found ← item_or (text "") "fork_name" d
    fork_name ← as_text found
    raw ← item_or null "base" d
    base ← read_base (λ p. migrate_context_payload migrations p >>= read_context) raw
    ok (record { context = ctx; base = base; fork_name = fork_name })

  unfoldable pub context_from_dict : Dict ℕ (Json → Json) → Json → Result Branch
  unfolding migrate_context_payload branch_from_dict
  context_from_dict migrations payload =
      migrate_context_payload migrations payload >>= branch_from_dict migrations
