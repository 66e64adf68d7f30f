-- ===== src/CommitLog/Replay.antt =====
-- The replay of commits into the state and the edges that they leave.
use reactifact.Prelude.{
  ℕ, String, Option, none, some, not, List, [], ◌∷◌, leb, if◌then◌else◌, string_eq, ◌==◌,
}
use reactifact.Prelude.Dict.{Dict, insert, remove}
use reactifact.Model.{Model}
use reactifact.Artifact.{Artifact}
use reactifact.Operations.{Operation, create, update, delete, link, unlink}
use reactifact.RelationGraph
use reactifact.RelationGraph.{Graph, fits}
use reactifact.Commit.{Commit}
use reactifact.CommitLog.Defs.{CommitLog, commits_upto}

abbrev pub State : Type 0
State = Dict String Model

-- One operation of the loop of `replay_state`.
unfoldable pub replay_op : Operation → State → State
replay_op (create d (some aid) i) st = insert aid d st
replay_op (create d none i) st = st
replay_op (update aid d) st = insert aid d st
replay_op (delete aid) st = remove aid st
replay_op (link s r t) st = st
replay_op (unlink s r t) st = st

unfoldable pub replay_ops : List Operation → State → State
unfolding replay_op
replay_ops [] st = st
replay_ops (op ∷ ops) st = replay_ops ops (replay_op op st)

unfoldable pub replay_commits : List Commit → State → State
unfolding replay_ops
replay_commits [] st = st
replay_commits (c ∷ cs) st = replay_commits cs (replay_ops c.operations st)

-- `{aid: art.data … for aid, art in self._baseline.items()}`
unfoldable pub data_of : Dict String Artifact → State
data_of [] = []
data_of ((aid, a) ∷ d) = (aid, a.data_) ∷ data_of d

unfoldable pub replay_state : ℕ → CommitLog → State
unfolding replay_commits data_of commits_upto
replay_state upto log = elim log.baseline [
  | none ↦ replay_commits (commits_upto upto log) []
  | some b ↦
      if leb upto log.baseline_version
      then data_of b
      else replay_commits (commits_upto upto log) (data_of b)
]

-- The loop over `list(relations.keys())`, with its three `continue`s.
unfoldable pub replay_unlink : String → Option String → Option String → Graph → Graph
replay_unlink s r t [] = []
replay_unlink s r t (e ∷ g) =
    let rest = replay_unlink s r t g in
    if not (e.source_id == s)
    then e ∷ rest
    else if not (fits r e.relation)
    then e ∷ rest
    else if not (fits t e.target_id)
    then e ∷ rest
    else rest

unfoldable pub replay_edge : Operation → Graph → Graph
unfolding replay_unlink RelationGraph.link
replay_edge (create d aid i) g = g
replay_edge (update aid d) g = g
replay_edge (delete aid) g = g
replay_edge (link s r t) g = RelationGraph.link s r t g
replay_edge (unlink s r t) g = replay_unlink s r t g

unfoldable pub replay_edges : List Operation → Graph → Graph
unfolding replay_edge
replay_edges [] g = g
replay_edges (op ∷ ops) g = replay_edges ops (replay_edge op g)

unfoldable pub replay_graphs : List Commit → Graph → Graph
unfolding replay_edges
replay_graphs [] g = g
replay_graphs (c ∷ cs) g = replay_graphs cs (replay_edges c.operations g)

unfoldable pub replay_relations : ℕ → CommitLog → Graph
unfolding replay_graphs commits_upto
replay_relations upto log = elim log.baseline_relations [
  | none ↦ replay_graphs (commits_upto upto log) []
  | some g ↦ if leb upto log.baseline_version then g else replay_graphs (commits_upto upto log) g
]
