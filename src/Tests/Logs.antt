-- ===== src/Tests/Logs.antt =====
-- The theorems on the commit log, at the log of two commits.
use reactifact.Prelude.{ℕ, ◌≤◌, ◌≡◌, ◌++◌, arith, length, take, string_eq}
use reactifact.Result.{ok}
use reactifact.Operations.{relation_eq}
use reactifact.CommitLog.{
  CommitLog, append, replay_state, replay_relations, replay_ops, replay_edges, truncate, compact,
}
use reactifact.CommitLog.Chain.{IsValid}
use reactifact.CommitLog.Versions.{append-replay_state, truncate-replay_state, compact-replay_state}
use reactifact.Tests.Data.{second, one_commit, two_commits, one_commit-IsValid, two_commits-IsValid}

append-replay_state_example :
    (replay_state 1 (append second one_commit) ≡ replay_state 1 one_commit)
    × (replay_relations 1 (append second one_commit) ≡ replay_relations 1 one_commit)
    × (replay_state 2 (append second one_commit)
        ≡ replay_ops second.operations (replay_state 1 one_commit))
    × (replay_relations 2 (append second one_commit)
        ≡ replay_edges second.operations (replay_relations 1 one_commit))
unfolding append
append-replay_state_example =
    append-replay_state second one_commit 1 one_commit-IsValid (omega arith)

truncate-replay_state_example :
    (log' : CommitLog) × (truncate 1 two_commits ≡ ok log')
    × IsValid log'
    × (log'.version ≡ 1)
    × (log'.baseline_version ≡ two_commits.baseline_version)
    × (replay_state 0 log' ≡ replay_state 0 two_commits)
    × (replay_relations 0 log' ≡ replay_relations 0 two_commits)
unfolding append
truncate-replay_state_example =
    truncate-replay_state 1 0 two_commits two_commits-IsValid (omega arith) (omega arith)
      (omega arith)

compact-replay_state_example :
    (log' : CommitLog) × (n : ℕ) × (compact 1 two_commits ≡ ok (log', n))
    × IsValid log'
    × (log'.version ≡ two_commits.version)
    × (log'.head_id ≡ two_commits.head_id)
    × (two_commits.commits ≡ take n two_commits.commits ++ log'.commits)
    × (length log'.commits ≤ 1)
    × (replay_state 2 log' ≡ replay_state 2 two_commits)
    × (replay_relations 2 log' ≡ replay_relations 2 two_commits)
unfolding append
compact-replay_state_example =
    compact-replay_state 1 2 two_commits two_commits-IsValid (omega arith) (omega arith)
