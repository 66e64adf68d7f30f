-- ===== src/Audit.antt =====
-- reactifact/audit.py: the report of the evidence behind an answer. `data_hash`, the sha256 of the
-- canonical JSON of a model, `context_hash` and the locator of a model, if it has one, are
-- parameters: they rest on hashlib, json and on the fields of the application's classes.
pub mod Report
pub mod Fuel
pub mod Reached
pub mod Walked
use reactifact.Prelude.{
  ℕ, zero, suc, ◌+◌, String, Bool, true, false, Option, none, some, or_else, List, [], ◌∷◌, ◌++◌,
  ◌==◌, ◌&&◌, if◌then◌else◌, length, string_eq,
}
use reactifact.Prelude.Dict.{Dict, lookup, insert}
use reactifact.Prelude.Sets.{contains, add}
use reactifact.Result.{Result, ok, err, key_error, index_error}
use reactifact.Model.{Model, Class, class_of}
use reactifact.Artifact.{Artifact}
use reactifact.Operations.{Relation}
use reactifact.Commit.{Commit, Write}
use reactifact.CommitLog.{CommitLog}
use reactifact.RelationGraph.{Graph, relations}
use reactifact.Context.{Context, get}

abbrev pub default_relations : List String
default_relations =
    "supported_by" ∷ "derived_from" ∷ "extracted_from" ∷ "materialized_from" ∷ "resolved_from"
    ∷ "calculated_from" ∷ "refuted_by" ∷ "contradicted_by" ∷ []

pub record ProvenanceEntry : Type 0 where
  pub artifact_id : String
  pub data_type : Class
  pub version : ℕ
  pub sha256 : String
  pub produced_by : String

pub record AuditReport : Type 0 where
  pub session_id : String
  pub context_version : ℕ
  pub context_sha256 : String
  pub answer : ProvenanceEntry
  pub provenance : List ProvenanceEntry
  pub relations : List Relation
  pub sources : List String

-- `Artifact | str`
pub data Answer : Type 0 where
  artifact : Artifact → Answer
  by_id : String → Answer

unfoldable pub resolve_answer : Context → Answer → Result Artifact
unfolding get
resolve_answer ctx (artifact a) = ok a
resolve_answer ctx (by_id i) = elim (get i ctx) [ none ↦ err key_error | some a ↦ ok a ]

unfoldable pub produced : String → List Write → Dict String String → Dict String String
produced author [] d = d
produced author (w ∷ ws) d = produced author ws (insert w.artifact_id author d)

unfoldable pub producers : List Commit → Dict String String → Dict String String
unfolding produced
producers [] d = d
producers (c ∷ cs) d = producers cs (produced c.author c.writes d)

-- The locals of `build_report` that its loop changes, less the queue.
pub record Walk : Type 0 where
  pub entries : List ProvenanceEntry
  pub edges : List Relation
  pub sources : List String
  pub visited : List String

abbrev pub start : Walk
start = record { entries = []; edges = []; sources = []; visited = [] }

unfoldable pub followed_edges : List String → List Relation → List Relation
followed_edges followed [] = []
followed_edges followed (r ∷ rs) =
    let rest = followed_edges followed rs in if contains r.relation followed then r ∷ rest else rest

-- The edges of the graph that leave an artifact and are followed.
unfoldable pub out_edges : List String → String → Context → List Relation
unfolding followed_edges relations
out_edges followed aid ctx = followed_edges followed (relations (some aid) none none ctx.relations)

-- What the inner loop appends to the queue.
unfoldable pub next_artifacts : List String → List Relation → Context → List Artifact
unfolding get
next_artifacts visited [] ctx = []
next_artifacts visited (r ∷ rs) ctx =
    let rest = next_artifacts visited rs ctx in
    elim (get r.target_id ctx) [
      | none ↦ rest
      | some t ↦ if contains t.id visited then rest else t ∷ rest
    ]

unfoldable pub add_source : Option String → List String → List String
add_source none ss = ss
add_source (some l) ss = if l == "" then ss else (if contains l ss then ss else ss ++ l ∷ [])

-- What is made of the locals: `entries[0]` raises on an empty list.
unfoldable pub finished : String → String → Context → Walk → Result AuditReport
finished session sha ctx w = elim w.entries [
  | [] ↦ err index_error
  | (e ∷ es) ↦ ok (record {
    session_id = session;
    context_version = ctx.log.version;
    context_sha256 = sha;
    answer = e;
    provenance = es;
    relations = w.edges;
    sources = w.sources;
  })
]

module _ (data_hash : Model → String) (locator : Model → Option String) where
  unfoldable pub entry : Artifact → String → ProvenanceEntry
  unfolding class_of
  entry a author = record {
    artifact_id = a.id;
    data_type = class_of a.data_;
    version = a.version;
    sha256 = data_hash a.data_;
    produced_by = author;
  }

  -- The body of the outer loop, for an artifact that is not yet visited.
  unfoldable pub visit : List String → Dict String String → Context → Artifact → Walk → Walk
  unfolding entry add_source out_edges lookup
  visit followed by ctx a w = record {
    entries = w.entries ++ entry a (or_else (lookup a.id by) "") ∷ [];
    edges = w.edges ++ out_edges followed a.id ctx;
    sources = add_source (locator a.data_) w.sources;
    visited = add a.id w.visited;
  }

  -- The loop, on fuel; `none` if the fuel does not do.
  unfoldable pub walk :
      List String → Dict String String → Context → ℕ → List Artifact → Walk → Option Walk
  unfolding visit next_artifacts out_edges
  walk followed by ctx n [] w = some w
  walk followed by ctx zero (a ∷ queue) w = none
  walk followed by ctx (suc n) (a ∷ queue) w = elim (contains a.id w.visited) [
    | true ↦ walk followed by ctx n queue w
    | false ↦
        walk followed by ctx n
          (queue ++ next_artifacts (add a.id w.visited) (out_edges followed a.id ctx) ctx)
          (visit followed by ctx a w)
  ]

  -- `build_report` on fuel; `none` if the fuel does not do. `sha` is `context_hash(context)`.
  unfoldable pub build_report :
      ℕ → String → String → Option (List String) → Answer → Context → Option (Result AuditReport)
  unfolding resolve_answer producers walk finished
  build_report fuel session sha given answer ctx = elim (resolve_answer ctx answer) [
    | err why ↦ some (err why)
    | ok a ↦
        elim (walk (or_else given default_relations) (producers ctx.log.commits []) ctx fuel
          (a ∷ []) start) [ none ↦ none | some w ↦ some (finished session sha ctx w) ]
  ]
