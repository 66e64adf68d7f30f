-- ===== src/CommitLog/Defs.antt =====
-- `CommitLog` of reactifact/commit_log.py: its state, and what reads or extends the list of
-- commits. `_dict_cache`, which only saves serialisation, is not modelled.
use reactifact.Prelude.{
  ℕ, ◌+◌, ◌-◌, String, Option, none, some, List, [], ◌∷◌, ◌++◌, or_else, take, drop, string_eq,
}
use reactifact.Prelude.Dict.{Dict, lookup}
use reactifact.Artifact.{Artifact}
use reactifact.RelationGraph.{Graph}
use reactifact.Commit.{Commit}
use reactifact.CommitLog.Index.{Index, no_index, index_commit, rebuild_indices}

pub record CommitLog : Type 0 where
  pub commits : List Commit
  pub version : ℕ
  pub head_id : Option String
  pub index : Index
  pub open index use *
  pub baseline : Option (Dict String Artifact)
  pub baseline_relations : Option Graph
  pub baseline_version : ℕ
  pub baseline_head_id : Option String

abbrev pub empty_log : CommitLog
empty_log = record {
  commits = [];
  version = 0;
  head_id = none;
  index = no_index;
  baseline = none;
  baseline_relations = none;
  baseline_version = 0;
  baseline_head_id = none;
}

-- The commit as `append` leaves it: the parent is the head, the version the next one.
unfoldable pub place : Commit → CommitLog → Commit
place c log = record c { parent_id = log.head_id; context_version = some (log.version + 1) }

unfoldable pub append : Commit → CommitLog → CommitLog
unfolding place
append c log =
    let placed = place c log in
    record log {
      commits = log.commits ++ placed ∷ [];
      head_id = some placed.id;
      version = log.version + 1;
      index = index_commit placed log.index;
    }

unfoldable pub commits_from : ℕ → CommitLog → List Commit
commits_from i log = drop (i - log.baseline_version) log.commits

-- `[]` where the limit is not positive, as `take 0` is
unfoldable pub commits_upto : ℕ → CommitLog → List Commit
commits_upto upto log = take (upto - log.baseline_version) log.commits

unfoldable pub producing_commit : String → CommitLog → Option Commit
producing_commit aid log = lookup aid log.last_write_commit

unfoldable pub dependents_of : String → CommitLog → List String
dependents_of aid log = or_else (lookup aid log.dependents) []

-- `copy`: equal values in new objects, the indices derived again.
unfoldable pub copy : CommitLog → CommitLog
copy log = record log { index = rebuild_indices log.commits }
