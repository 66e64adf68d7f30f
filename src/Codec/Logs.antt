-- ===== src/Codec/Logs.antt =====
-- `to_dict`, `to_baseline_dict` and `from_dict` of `CommitLog`, and those of `RelationGraph`.
use reactifact.Prelude.{
  ℕ, ◌+◌, String, Option, none, some, List, [], ◌∷◌, length, or_else, string_eq,
}
use reactifact.Prelude.Dict.{Dict}
use reactifact.Prelude.Sets.{add}
use reactifact.Result.{Result, ok, ◌>>=◌}
use reactifact.Artifact.{Artifact}
use reactifact.Operations.{Relation, relation_eq}
use reactifact.RelationGraph.{Graph}
use reactifact.Commit.{Commit}
use reactifact.CommitLog.{CommitLog, rebuild_indices}
use reactifact.Json.{
  Json, null, num, arr, obj, end, field, optional_text, num_at, optional_text_at, items_of,
  fields_of, dict_at, optional_list_at,
}
use reactifact.Codec.Schemas.{Schema}
use reactifact.Codec.Operations.{relation_to_dict, relation_from_dict}
use reactifact.Codec.Commits.{commit_to_dict}
use reactifact.Codec.Artifacts.{artifact_to_dict, artifact_from_dict}

-- The loop that sets each edge under its key.
unfoldable pub set_edges : List Relation → Graph → Graph
set_edges [] g = g
set_edges (r ∷ rs) g = set_edges rs (add r g)

unfoldable pub graph_to_dict : Graph → Json
graph_to_dict g = arr (items_of relation_to_dict g)

-- The head as the commits tell it, for a payload that names none.
unfoldable pub head_of : Option String → List Commit → Option String
head_of baseline_head [] = baseline_head
head_of baseline_head (c ∷ cs) = head_of (some c.id) cs

-- The baseline part of a log: what `from_dict` reads from a payload's `commit_baseline`.
pub record Baseline : Type 0 where
  pub artifacts : Option (Dict String Artifact)
  pub relations : Option Graph
  pub version : ℕ
  pub head_id : Option String

module _ (s : Schema) where
  unfoldable pub log_to_dict : CommitLog → Json
  log_to_dict log = arr (items_of (commit_to_dict s) log.commits)

  unfoldable pub baseline_to_dict : CommitLog → Json
  baseline_to_dict log = elim log.baseline [
    | none ↦ null
    | some arts ↦ obj (
        field "version" (num log.baseline_version) (
          field "head_id" (optional_text log.baseline_head_id) (
            field "artifacts" (obj (fields_of (artifact_to_dict s) arts)) (
              field "relations"
                (arr (items_of relation_to_dict (or_else log.baseline_relations []))) end))))
  ]

  unfoldable pub read_baseline : Json → Result Baseline
  unfolding dict_at optional_list_at num_at optional_text_at set_edges
  read_baseline null =
      ok (record { artifacts = none; relations = none; version = 0; head_id = none })
  read_baseline d = do
    arts ← dict_at (artifact_from_dict s) "artifacts" d
    rels ← optional_list_at relation_from_dict "relations" d
    version ← num_at "version" d
    head_id ← optional_text_at "head_id" d
    ok (record {
      artifacts = some arts;
      relations = some (set_edges rels []);
      version = version;
      head_id = head_id;
    })

  -- `from_dict`; the version and the head of the payload may be missing.
  unfoldable pub log_from_dict : List Commit → Option ℕ → Option String → Baseline → CommitLog
  unfolding head_of
  log_from_dict commits version head_id b = record {
    commits = commits;
    version = or_else version (b.version + length commits);
    head_id = elim head_id [ some h ↦ some h | none ↦ head_of b.head_id commits ];
    index = rebuild_indices commits;
    baseline = b.artifacts;
    baseline_relations = b.relations;
    baseline_version = b.version;
    baseline_head_id = b.head_id;
  }
