-- ===== src/CommitLog/Versions.antt =====
-- What a replay of one version yields after the log has grown, was rolled back or was compacted.
use reactifact.Prelude.{ℕ, ◌+◌, ◌-◌, ◌≤◌, ◌≡◌, ◌++◌, length, take}
use reactifact.Result.{ok}
use reactifact.Commit.{Commit}
use reactifact.CommitLog.Defs.{CommitLog, append}
use reactifact.CommitLog.Replay.{replay_ops, replay_edges, replay_state, replay_relations}
use reactifact.CommitLog.Rewind.{truncate, compact}
use reactifact.CommitLog.Chain.{IsValid}
use reactifact.CommitLog.Replayed.{append_replays, truncate_lem}
use reactifact.CommitLog.Compacted.{compact_lem}

-- Appending a commit to a valid log leaves the state and the edges of each version up to the head
-- as they were. The new version has those of the head with the commit's operations applied.
pub append-replay_state :
    (c : Commit) (log : CommitLog) (v : ℕ)
    → IsValid log
    → v ≤ log.version
    → (replay_state v (append c log) ≡ replay_state v log)
      × (replay_relations v (append c log) ≡ replay_relations v log)
      × (replay_state (log.version + 1) (append c log)
          ≡ replay_ops c.operations (replay_state log.version log))
      × (replay_relations (log.version + 1) (append c log)
          ≡ replay_edges c.operations (replay_relations log.version log))
append-replay_state c log v h le =
    let (old, states, edges) = append_replays c log h in
    (old.states v le, old.edges v le, states, edges)

-- Rolling a valid log back to a version that it holds succeeds. The result is a valid log at that
-- version, with the baseline where it was, and each version up to there has the state and the
-- edges that it had.
pub truncate-replay_state :
    (v u : ℕ) (log : CommitLog)
    → IsValid log
    → log.baseline_version ≤ v
    → v ≤ log.version
    → u ≤ v
    → (log' : CommitLog) × (truncate v log ≡ ok log')
      × IsValid log'
      × (log'.version ≡ v)
      × (log'.baseline_version ≡ log.baseline_version)
      × (replay_state u log' ≡ replay_state u log)
      × (replay_relations u log' ≡ replay_relations u log)
truncate-replay_state v u log h lo hi le =
    let (log', cut, valid, at_v, base, same) = truncate_lem v log h lo hi in
    (log', cut, valid, at_v, base, same.states u le, same.edges u le)

-- Compacting a valid log succeeds. The result is a valid log with the same version and head, whose
-- commits are the last ones of the log, at most as many as asked for. Each version from its new
-- baseline on has the state and the edges that it had.
pub compact-replay_state :
    (keep_commits v : ℕ) (log : CommitLog)
    → IsValid log
    → log.version - keep_commits ≤ v
    → log.baseline_version ≤ v
    → (log' : CommitLog) × (n : ℕ) × (compact keep_commits log ≡ ok (log', n))
      × IsValid log'
      × (log'.version ≡ log.version)
      × (log'.head_id ≡ log.head_id)
      × (log.commits ≡ take n log.commits ++ log'.commits)
      × (length log'.commits ≤ keep_commits)
      × (replay_state v log' ≡ replay_state v log)
      × (replay_relations v log' ≡ replay_relations v log)
compact-replay_state keep_commits v log h lo base =
    let (log', n, e, kept, few, based) = compact_lem keep_commits log h in
    (
      log',
      n,
      e,
      kept.valid,
      kept.version,
      kept.head,
      kept.retained,
      few,
      kept.states v (based v lo base),
      kept.edges v (based v lo base),
    )
