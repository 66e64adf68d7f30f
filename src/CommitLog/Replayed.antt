-- ===== src/CommitLog/Replayed.antt =====
-- What a replay of the commit log yields as commits are appended and rolled back.
use reactifact.Prelude.{
  ℕ, ◌+◌, ◌-◌, ◌≤◌, ◌≡◌, refl, none, some, List, [], ◌∷◌, ◌++◌, arith, take, take-append_of_le,
  take_of_length-le, take-take, ap, ◌∙◌, inl, inr, leb, Bool-cases, true, length-append,
}
use reactifact.Result.{ok}
use reactifact.RelationGraph.{Graph}
use reactifact.Commit.{Commit}
use reactifact.CommitLog.Defs.{CommitLog, place, append, commits_upto}
use reactifact.CommitLog.Replay.{
  State, replay_ops, replay_commits, replay_edges, replay_graphs, data_of, replay_state,
  replay_relations,
}
use reactifact.CommitLog.Rewind.{truncate}
use reactifact.CommitLog.Chain.{IsValid, append-IsValid, rewound, truncate-rewound, rewound-IsValid}

abbrev pub base_state : CommitLog → State
base_state log = elim log.baseline [ none ↦ [] | some b ↦ data_of b ]

abbrev pub base_edges : CommitLog → Graph
base_edges log = elim log.baseline_relations [ none ↦ [] | some g ↦ g ]

pub replay_commits-append :
    (cs ds : List Commit) (st : State)
    → replay_commits (cs ++ ds) st ≡ replay_commits ds (replay_commits cs st)
unfolding replay_commits
replay_commits-append [] ds st = refl
replay_commits-append (d ∷ cs) ds st = replay_commits-append cs ds (replay_ops d.operations st)

pub replay_graphs-append :
    (cs ds : List Commit) (g : Graph)
    → replay_graphs (cs ++ ds) g ≡ replay_graphs ds (replay_graphs cs g)
unfolding replay_graphs
replay_graphs-append [] ds g = refl
replay_graphs-append (d ∷ cs) ds g = replay_graphs-append cs ds (replay_edges d.operations g)

none_upto : (v b : ℕ) (cs : List Commit) → leb v b ≡ true → take (v - b) cs ≡ []
none_upto v b cs h = let e : v - b ≡ 0 = ground arith in rw e

-- A replay starts at the baseline and applies the commits up to the version.
pub replay_state_lem :
    (v : ℕ) (log : CommitLog)
    → replay_state v log ≡ replay_commits (commits_upto v log) (base_state log)
unfolding replay_state
replay_state_lem v log = elim (Bool-cases (leb v log.baseline_version)) [
  | inl old ↦ rw (none_upto v log.baseline_version log.commits old) (ground arith)
  | inr new ↦ ground arith
]

pub replay_relations_lem :
    (v : ℕ) (log : CommitLog)
    → replay_relations v log ≡ replay_graphs (commits_upto v log) (base_edges log)
unfolding replay_relations
replay_relations_lem v log = elim (Bool-cases (leb v log.baseline_version)) [
  | inl old ↦ rw (none_upto v log.baseline_version log.commits old) (ground arith)
  | inr new ↦ ground arith
]

-- The versions up to a bound have the same replays in both logs.
pub record Agree (bound : ℕ) (log log' : CommitLog) : Type 0 where
  pub states : (v : ℕ) → v ≤ bound → replay_state v log ≡ replay_state v log'
  pub edges : (v : ℕ) → v ≤ bound → replay_relations v log ≡ replay_relations v log'

upto-append_old :
    (v : ℕ) (c : Commit) (log : CommitLog)
    → IsValid log
    → v ≤ log.version
    → commits_upto v (append c log) ≡ commits_upto v log
unfolding commits_upto append
upto-append_old v c log h le =
    take-append_of_le (v - log.baseline_version) log.commits (place c log ∷ [])
      (omega (arith, h.counted))

pub upto-append_new :
    (c : Commit) (log : CommitLog)
    → IsValid log
    → commits_upto (log.version + 1) (append c log) ≡ log.commits ++ place c log ∷ []
unfolding commits_upto append
upto-append_new c log h =
    take_of_length-le (log.version + 1 - log.baseline_version) (log.commits ++ place c log ∷ [])
      (omega (arith, h.counted, length-append log.commits (place c log ∷ [])))

pub upto_version : (log : CommitLog) → IsValid log → commits_upto log.version log ≡ log.commits
unfolding commits_upto
upto_version log h =
    take_of_length-le (log.version - log.baseline_version) log.commits (omega (arith, h.counted))

-- A new commit leaves every earlier version's replay alone, and its own version replays to the
-- state and the edges of the head with its operations applied.
pub append_replays :
    (c : Commit) (log : CommitLog)
    → IsValid log
    → Agree log.version (append c log) log
      × (replay_state (log.version + 1) (append c log)
          ≡ replay_ops c.operations (replay_state log.version log))
      × (replay_relations (log.version + 1) (append c log)
          ≡ replay_edges c.operations (replay_relations log.version log))
append_replays c log h = (
  record {
    states = λ v le.
        replay_state_lem v (append c log)
        ∙ unfold append in cc (replay_state_lem v log, upto-append_old v c log h le);
    edges = λ v le.
        replay_relations_lem v (append c log)
        ∙ unfold append in cc (replay_relations_lem v log, upto-append_old v c log h le);
  },
  new_state,
  new_edges,
)
  where
    new_state :
        replay_state (log.version + 1) (append c log)
        ≡ replay_ops c.operations (replay_state log.version log)
    new_state =
        rw
          (
            replay_state_lem (log.version + 1) (append c log),
            replay_state_lem log.version log,
            upto-append_new c log h,
            upto_version log h,
            replay_commits-append,
          )
          (unfold append replay_commits in refl)

    new_edges :
        replay_relations (log.version + 1) (append c log)
        ≡ replay_edges c.operations (replay_relations log.version log)
    new_edges =
        rw
          (
            replay_relations_lem (log.version + 1) (append c log),
            replay_relations_lem log.version log,
            upto-append_new c log h,
            upto_version log h,
            replay_graphs-append,
          )
          (unfold append replay_graphs in refl)

rewound-Agree : (v : ℕ) (log : CommitLog) → v ≤ log.version → Agree v (rewound v log) log
rewound-Agree v log le = record {
  states = λ u lt.
      rw (replay_state_lem u (rewound v log), replay_state_lem u log)
        (ap (λ cs. replay_commits cs (base_state log)) (held u lt));
  edges = λ u lt.
      rw (replay_relations_lem u (rewound v log), replay_relations_lem u log)
        (ap (λ cs. replay_graphs cs (base_edges log)) (held u lt));
}
  where
    held : (u : ℕ) → u ≤ v → commits_upto u (rewound v log) ≡ commits_upto u log
    held u lt =
        unfold commits_upto in
        take-take (u - log.baseline_version) (v - log.baseline_version) log.commits (omega arith)

-- Rolling a valid log back to a version that it holds succeeds: the result is valid, is at that
-- version with the baseline as before, and replays every version up to there as before.
pub truncate_lem :
    (v : ℕ) (log : CommitLog)
    → IsValid log
    → log.baseline_version ≤ v
    → v ≤ log.version
    → (log' : CommitLog) × (truncate v log ≡ ok log')
      × IsValid log'
      × (log'.version ≡ v)
      × (log'.baseline_version ≡ log.baseline_version)
      × Agree v log' log
truncate_lem v log h lo hi = (
  rewound v log,
  truncate-rewound v log h lo hi,
  rewound-IsValid v log h lo hi,
  refl,
  refl,
  rewound-Agree v log hi,
)

-- Rolling back over a commit that was just appended gives the log before it.
truncate-append :
    (c : Commit) (log : CommitLog) → IsValid log → truncate log.version (append c log) ≡ ok log
truncate-append c log h =
    truncate-rewound log.version (append c log) (append-IsValid c log h)
      (unfold append in omega (arith, h.counted)) (unfold append in omega arith)
    ∙ ap ok same
  where
    kept : take (log.version - log.baseline_version) (log.commits ++ place c log ∷ []) ≡ log.commits
    kept =
        take-append_of_le (log.version - log.baseline_version) log.commits (place c log ∷ [])
          (omega (arith, h.counted))
        ∙ take_of_length-le (log.version - log.baseline_version) log.commits
            (omega (arith, h.counted))

    same : rewound log.version (append c log) ≡ log
    same = unfold append in ground (arith, kept, h.headed, h.indexed)
