-- ===== src/Context/Rollback.antt =====
-- Going back and looking back along the commits: `compact`, `checkout` and `diff`.
use reactifact.Prelude.{
  ℕ, String, not, Option, none, some, List, [], ◌∷◌, ◌==◌, ◌&&◌, ltb, leb, if◌then◌else◌, string_eq,
  keep_if, eqb,
}
use reactifact.Prelude.Dict.{Dict, lookup, insert, has}
use reactifact.Prelude.Sets.{add, contains, union}
use reactifact.Result.{Result, ok, invalid_version, below_baseline, raise_if, ◌>>=◌, ◌>>◌}
use reactifact.Model.{Model, class_eq, model_eq}
use reactifact.Artifact.{Artifact, new, trim_history}
use reactifact.Operations.{Operation, create, update, delete, link, unlink, relation_eq}
use reactifact.Commit.{Commit}
use reactifact.CommitLog
use reactifact.CommitLog.{
  CommitLog, append, producing_commit, replay_state, replay_relations, commits_from, truncate,
}
use reactifact.Context.State.{Context}
use reactifact.Context.History.{recompute_stale, reindex_by_type}

unfoldable pub trim_all : ℕ → Dict String Artifact → Dict String Artifact
unfolding trim_history
trim_all keep [] = []
trim_all keep ((aid, a) ∷ d) = (aid, trim_history keep a) ∷ trim_all keep d

unfoldable pub compact : ℕ → Option ℕ → Context → Result (Context × ℕ)
unfolding CommitLog.compact trim_all recompute_stale
compact keep_commits keep_versions ctx = do
  (log, dropped) ← CommitLog.compact keep_commits ctx.log
  let arts = elim keep_versions as (λ _. Dict String Artifact) [
    | none ↦ ctx.artifacts
    | some keep ↦ trim_all keep ctx.artifacts
  ]
  let compacted = record ctx { log = log; artifacts = arts }
  ok (if eqb dropped 0 then compacted else recompute_stale compacted, dropped)

-- The ids that the operations of a commit write, as `checkout` collects them.
unfoldable pub op_target : Operation → Option String
op_target (create d aid i) = aid
op_target (update aid d) = some aid
op_target (delete aid) = some aid
op_target (link s r t) = none
op_target (unlink s r t) = none

-- `and op.artifact_id` leaves out an empty id too
unfoldable pub touched_ops : List Operation → List String → List String
unfolding op_target
touched_ops [] s = s
touched_ops (op ∷ ops) s =
    touched_ops ops
      (elim (op_target op) [ none ↦ s | some aid ↦ if aid == "" then s else add aid s ])

unfoldable pub touched : List Commit → List String → List String
unfolding touched_ops
touched [] s = s
touched (c ∷ cs) s = touched cs (touched_ops c.operations s)

-- `_rebuild_artifacts_from_commits`
unfoldable pub rebuild_artifacts : Dict String Model → Dict String Artifact
unfolding new
rebuild_artifacts [] = []
rebuild_artifacts ((aid, d) ∷ st) = (aid, new d aid none) ∷ rebuild_artifacts st

-- The untouched artifacts are put back over the rebuilt ones.
unfoldable pub restore :
    List String → Dict String Artifact → Dict String Artifact → Dict String Artifact
restore touched' [] rebuilt = rebuilt
restore touched' ((aid, a) ∷ d) rebuilt =
    restore touched' d (if contains aid touched' then rebuilt else insert aid a rebuilt)

unfoldable pub checkout : ℕ → Context → Result Context
unfolding replay_state replay_relations commits_from truncate rebuild_artifacts restore touched
    recompute_stale reindex_by_type
checkout v ctx = do
  raise_if (not (leb v ctx.log.version)) invalid_version
  raise_if (ltb v ctx.log.baseline_version) below_baseline
  let undone = touched (commits_from v ctx.log) []
  let arts = restore undone ctx.artifacts (rebuild_artifacts (replay_state v ctx.log))
  let committed_now = replay_relations ctx.log.version ctx.log
  let working_tree = keep_if (λ r. not (contains r committed_now)) ctx.relations
  log ← truncate v ctx.log
  ok (
      reindex_by_type (
        recompute_stale (record ctx {
          artifacts = arts;
          relations = union (replay_relations v ctx.log) working_tree;
          events = [];
          log = log;
        })))

pub record Diff : Type 0 where
  pub added : Dict String Model
  pub removed : Dict String Model
  pub changed : Dict String (Model × Model)

-- The entries of the first state whose keys the second one lacks.
unfoldable pub missing_from : Dict String Model → Dict String Model → Dict String Model
missing_from [] b = []
missing_from ((aid, d) ∷ a) b =
    let rest = missing_from a b in if has aid b then rest else (aid, d) ∷ rest

unfoldable pub changes : Dict String Model → Dict String Model → Dict String (Model × Model)
changes [] b = []
changes ((aid, d) ∷ a) b =
    let rest = changes a b in
    elim (lookup aid b) [ none ↦ rest | some d' ↦ if d == d' then rest else (aid, (d, d')) ∷ rest ]

unfoldable pub diff : ℕ → ℕ → Context → Result Diff
unfolding replay_state missing_from changes
diff v w ctx = do
  raise_if (ltb v ctx.log.baseline_version) below_baseline
  raise_if (not (leb v w && leb w ctx.log.version)) invalid_version
  let a = replay_state v ctx.log
  let b = replay_state w ctx.log
  ok (record { added = missing_from b a; removed = missing_from a b; changed = changes a b })
