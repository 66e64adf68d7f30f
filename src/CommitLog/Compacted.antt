-- ===== src/CommitLog/Compacted.antt =====
-- `compact` drops the oldest commits and keeps what can be asked of the rest.
use reactifact.Prelude.{
  ℕ, ◌+◌, ◌-◌, ◌≤◌, ◌<◌, ◌≡◌, refl, some, [], ◌∷◌, ◌++◌, inl, inr, arith, leb, take, drop, length,
  length-drop, take-drop, take-append-drop, Bool-cases, sym, ◌∙◌, ap,
}
use reactifact.Result.{ok}
use reactifact.Artifact.{new}
use reactifact.CommitLog.Index.{rebuild_indices}
use reactifact.CommitLog.Defs.{CommitLog, commits_upto}
use reactifact.CommitLog.Replay.{State, data_of, replay_state, replay_relations, replay_commits}
use reactifact.CommitLog.Rewind.{compact, wrap}
use reactifact.CommitLog.Chain.{IsValid, head_at_lem, last_id, last_id-take-drop, IsLinked-drop}
use reactifact.CommitLog.Replayed.{
  replay_state_lem, replay_relations_lem, replay_commits-append, replay_graphs-append,
}

-- The compacted log answers as the log did: same version and head, same commits but for the
-- oldest `n`, which the baseline now stands for, and same replays from the baseline on.
pub record Compacts (log log' : CommitLog) (n : ℕ) : Type 0 where
  pub valid : IsValid log'
  pub version : log'.version ≡ log.version
  pub head : log'.head_id ≡ log.head_id
  pub baseline : log'.baseline_version ≡ log.baseline_version + n
  pub retained : log.commits ≡ take n log.commits ++ log'.commits
  pub states : (v : ℕ) → log'.baseline_version ≤ v → replay_state v log' ≡ replay_state v log
  pub edges : (v : ℕ) → log'.baseline_version ≤ v → replay_relations v log' ≡ replay_relations v log

data_of-wrap : (st : State) → data_of (wrap st) ≡ st
unfolding data_of wrap new
data_of-wrap [] = refl
data_of-wrap ((aid, d) ∷ st) = ap (◌∷◌ (aid, d)) (data_of-wrap st)

abbrev compacted : ℕ → CommitLog → CommitLog
compacted cutoff log = record log {
  baseline = some (wrap (replay_state cutoff log));
  baseline_relations = some (replay_relations cutoff log);
  baseline_version = cutoff;
  baseline_head_id =
      last_id log.baseline_head_id (take (cutoff - log.baseline_version) log.commits);
  commits = drop (cutoff - log.baseline_version) log.commits;
  index = rebuild_indices (drop (cutoff - log.baseline_version) log.commits);
}

Compacts-refl : (log : CommitLog) → IsValid log → Compacts log log 0
Compacts-refl log h = record {
  valid = h;
  version = refl;
  head = refl;
  baseline = omega arith;
  retained = refl;
  states = λ v le. refl;
  edges = λ v le. refl;
}

module _ (cutoff : ℕ) (log : CommitLog) (h : IsValid log) (lo : log.baseline_version < cutoff)
    (hi : cutoff ≤ log.version) where
  cut :
      (v : ℕ)
      → cutoff ≤ v
      → commits_upto v log ≡ commits_upto cutoff log ++ commits_upto v (compacted cutoff log)
  unfolding commits_upto
  cut v le =
      let d = cutoff - log.baseline_version in
      let e : v - log.baseline_version - d ≡ v - cutoff = omega arith in
      rw (← e) (take-drop d (v - log.baseline_version) log.commits (omega arith))

  linked : IsValid (compacted cutoff log)
  linked = record {
    counted = omega (arith, h.counted, length-drop (cutoff - log.baseline_version) log.commits);
    indexed = refl;
    headed =
        h.headed
        ∙ sym (last_id-take-drop (cutoff - log.baseline_version) log.baseline_head_id log.commits);
    linked =
        let e : log.baseline_version + (cutoff - log.baseline_version) ≡ cutoff = omega arith in
        rw e at (
          IsLinked-drop (cutoff - log.baseline_version) log.baseline_version log.baseline_head_id
            log.commits (omega (arith, h.counted)) h.linked);
    rooted = λ p. cc p;
    rooted_edges = λ p. cc p;
    rooted_head = λ p. absurd (omega arith);
  }

  compacted_replays : Compacts log (compacted cutoff log) (cutoff - log.baseline_version)
  compacted_replays = record {
    valid = linked;
    version = refl;
    head = refl;
    baseline = omega arith;
    retained = sym (take-append-drop (cutoff - log.baseline_version) log.commits);
    states = λ v le.
        rw
          (
            replay_state_lem v (compacted cutoff log),
            replay_state_lem v log,
            cut v le,
            replay_commits-append,
            ← replay_state_lem cutoff log,
          )
          (ap (replay_commits (commits_upto v (compacted cutoff log)))
            (data_of-wrap (replay_state cutoff log)));
    edges = λ v le. rw (
      replay_relations_lem v (compacted cutoff log),
      replay_relations_lem v log,
      cut v le,
      replay_graphs-append,
      ← replay_relations_lem cutoff log,
    );
  }

-- On a valid log `compact` succeeds and keeps at most `keep_commits` commits.
pub compact_lem :
    (keep_commits : ℕ) (log : CommitLog)
    → IsValid log
    → (log' : CommitLog) × (n : ℕ) × (compact keep_commits log ≡ ok (log', n))
      × Compacts log log' n
      × (length log'.commits ≤ keep_commits)
      × ((v : ℕ)
          → log.version - keep_commits ≤ v
          → log.baseline_version ≤ v
          → log'.baseline_version ≤ v)
unfolding compact
compact_lem keep_commits log h =
    let cutoff = log.version - keep_commits in
    elim (Bool-cases (leb cutoff log.baseline_version)) [
      | inl few ↦
          (log, 0, ground arith, Compacts-refl log h, ground (arith, h.counted), λ v lo hi. hi)
      | inr many ↦
          let lo : log.baseline_version < cutoff = ground arith in
          let hi : cutoff ≤ log.version = omega arith in
          (
            compacted cutoff log,
            cutoff - log.baseline_version,
            ground (arith, head_at_lem cutoff log h (omega arith) hi),
            compacted_replays cutoff log h lo hi,
            omega (arith, h.counted, length-drop (cutoff - log.baseline_version) log.commits),
            λ v at_least _. at_least,
          )
    ]
