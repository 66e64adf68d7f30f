-- ===== src/CommitLog/Rewind.antt =====
-- `_head_at`, `truncate` and `compact`. A negative `keep_commits`, which `compact` refuses, is no
-- natural number.
use reactifact.Prelude.{
  ℕ, ◌-◌, String, Option, none, some, List, [], ◌∷◌, ltb, leb, eqb, take, drop, get_elem?,
  if◌then◌else◌,
}
use reactifact.Prelude.Dict.{Dict}
use reactifact.Result.{Result, ok, err, below_baseline, index_error, raise_if, ◌>>=◌, ◌>>◌}
use reactifact.Model.{Model}
use reactifact.Artifact.{Artifact, new}
use reactifact.Commit.{Commit}
use reactifact.CommitLog.Index.{rebuild_indices}
use reactifact.CommitLog.Defs.{CommitLog}
use reactifact.CommitLog.Replay.{replay_state, replay_relations}

-- The subscript of a list, which raises past its end.
unfoldable pub id_at : ℕ → List Commit → Result (Option String)
id_at i cs = elim (get_elem? cs i) [ none ↦ err index_error | some c ↦ ok (some c.id) ]

unfoldable pub head_at : ℕ → CommitLog → Result (Option String)
unfolding id_at
head_at v log =
    if eqb v 0
    then ok none
    else if leb v log.baseline_version
    then ok log.baseline_head_id
    else id_at (v - log.baseline_version - 1) log.commits

unfoldable pub truncate : ℕ → CommitLog → Result CommitLog
unfolding head_at
truncate v log = do
  raise_if (ltb v log.baseline_version) below_baseline
  head ← head_at v log
  let kept = take (v - log.baseline_version) log.commits
  ok (record log { head_id = head; commits = kept; version = v; index = rebuild_indices kept })

-- `{aid: Artifact(data=data, id=aid) for aid, data in …}`
unfoldable pub wrap : Dict String Model → Dict String Artifact
wrap [] = []
wrap ((aid, d) ∷ st) = (aid, new d aid none) ∷ wrap st

unfoldable pub compact : ℕ → CommitLog → Result (CommitLog × ℕ)
unfolding head_at wrap
compact keep_commits log =
    let cutoff = log.version - keep_commits in
    if leb cutoff log.baseline_version then ok (log, 0) else do
      head ← head_at cutoff log
      let dropped = cutoff - log.baseline_version
      let kept = drop dropped log.commits
      ok (
        record log {
          baseline = some (wrap (replay_state cutoff log));
          baseline_relations = some (replay_relations cutoff log);
          baseline_version = cutoff;
          baseline_head_id = head;
          commits = kept;
          index = rebuild_indices kept;
        },
        dropped,
      )
