-- ===== src/Context/Rewound.antt =====
-- A checkout leaves a context in order.
use text.Mathlib.TextEquality.{eq_iff}
use reactifact.Prelude.{
  ℕ, ◌≤◌, String, ◌≡◌, refl, true, false, none, some, List, [], ◌∷◌, arith, inl, inr, Bool-cases,
  string_eq, leb, ltb, keep_if, not,
}
use reactifact.Prelude.Dict.{
  Dict, lookup, insert, remove, insert-IsDistinct, remove-IsDistinct, IsDistinct,
}
use reactifact.Prelude.Sets.{contains, union}
use reactifact.Result.{ok}
use reactifact.Model.{class_eq}
use reactifact.Artifact.{Artifact, new}
use reactifact.Operations.{Operation, create, update, delete, link, unlink, relation_eq}
use reactifact.Commit.{Commit}
use reactifact.CommitLog.{
  CommitLog, State, commits_upto, commits_from, replay_relations, replay_op, replay_ops,
  replay_commits, replay_state,
}
use reactifact.CommitLog.Chain.{rewound, rewound-IsValid, head_at_lem}
use reactifact.CommitLog.Replayed.{base_state, replay_state_lem}
use reactifact.Context.State.{Context}
use reactifact.Context.History.{rebuild_indices}
use reactifact.Context.Rollback.{rebuild_artifacts, restore, checkout, touched}
use reactifact.Context.Soundness.{IsSound, IsKept, insert-IsKept}
use reactifact.Context.Rebuilt.{rebuild_indices-IsSound}

replay_ops-IsDistinct :
    (ops : List Operation) (st : State) → IsDistinct st → IsDistinct (replay_ops ops st)
unfolding replay_ops replay_op
replay_ops-IsDistinct [] st h = h
replay_ops-IsDistinct (create d none i ∷ ops) st h = replay_ops-IsDistinct ops st h
replay_ops-IsDistinct (create d (some aid) i ∷ ops) st h =
    replay_ops-IsDistinct ops (insert aid d st) (insert-IsDistinct aid d st h)
replay_ops-IsDistinct (update aid d ∷ ops) st h =
    replay_ops-IsDistinct ops (insert aid d st) (insert-IsDistinct aid d st h)
replay_ops-IsDistinct (delete aid ∷ ops) st h =
    replay_ops-IsDistinct ops (remove aid st) (remove-IsDistinct aid st h)
replay_ops-IsDistinct (link s r t ∷ ops) st h = replay_ops-IsDistinct ops st h
replay_ops-IsDistinct (unlink s r t ∷ ops) st h = replay_ops-IsDistinct ops st h

replay_commits-IsDistinct :
    (cs : List Commit) (st : State) → IsDistinct st → IsDistinct (replay_commits cs st)
unfolding replay_commits
replay_commits-IsDistinct [] st h = h
replay_commits-IsDistinct (c ∷ cs) st h =
    replay_commits-IsDistinct cs (replay_ops c.operations st)
      (replay_ops-IsDistinct c.operations st h)

pub replay_state-IsDistinct :
    (v : ℕ) (log : CommitLog) → IsDistinct (base_state log) → IsDistinct (replay_state v log)
replay_state-IsDistinct v log h =
    rw (replay_state_lem v log) (replay_commits-IsDistinct (commits_upto v log) (base_state log) h)

lookup-rebuild :
    (k : String) (st : State) → lookup k st ≡ none → lookup k (rebuild_artifacts st) ≡ none
unfolding rebuild_artifacts lookup
lookup-rebuild k [] e = refl
lookup-rebuild k ((aid, d) ∷ st) e = ground (arith, lookup-rebuild k st)

rebuild_artifacts-IsDistinct : (st : State) → IsDistinct st → IsDistinct (rebuild_artifacts st)
unfolding rebuild_artifacts
rebuild_artifacts-IsDistinct [] h = tt
rebuild_artifacts-IsDistinct ((aid, d) ∷ st) h =
    (lookup-rebuild aid st h.0, rebuild_artifacts-IsDistinct st h.1)

rebuild_artifacts-IsKept : (st : State) → IsKept (rebuild_artifacts st)
unfolding rebuild_artifacts lookup new
rebuild_artifacts-IsKept [] k a e = cc e
rebuild_artifacts-IsKept ((aid, d) ∷ st) k a e =
    ground (arith, rebuild_artifacts-IsKept st k a, eq_iff aid k, e)

restore-IsDistinct :
    (ts : List String) (arts rebuilt : Dict String Artifact)
    → IsDistinct rebuilt
    → IsDistinct (restore ts arts rebuilt)
unfolding restore
restore-IsDistinct ts [] rebuilt h = h
restore-IsDistinct ts ((aid, a) ∷ d) rebuilt h = elim (Bool-cases (contains aid ts)) [
  | inl undone ↦ rw undone (restore-IsDistinct ts d rebuilt h)
  | inr kept ↦
      rw kept (restore-IsDistinct ts d (insert aid a rebuilt) (insert-IsDistinct aid a rebuilt h))
]

restore-IsKept :
    (ts : List String) (arts rebuilt : Dict String Artifact)
    → IsDistinct arts
    → IsKept arts
    → IsKept rebuilt
    → IsKept (restore ts arts rebuilt)
unfolding restore lookup
restore-IsKept ts [] rebuilt distinct kept h = h
restore-IsKept ts ((aid, a) ∷ d) rebuilt distinct kept h =
    let own : a.id ≡ aid = kept aid a (ground (arith, eq_iff aid aid)) in
    let rest : IsKept d = λ k b e. kept k b (ground (arith, distinct.0, e, eq_iff aid k)) in
    elim (Bool-cases (contains aid ts)) [
      | inl undone ↦ rw undone (restore-IsKept ts d rebuilt distinct.1 rest h)
      | inr left ↦ rw left (
          restore-IsKept ts d (insert aid a rebuilt) distinct.1 rest
            (insert-IsKept aid a rebuilt own h))
    ]

-- A checkout that returns was of a version that the log holds.
checkout_within :
    (v : ℕ) (ctx after : Context)
    → checkout v ctx ≡ ok after
    → (ctx.log.baseline_version ≤ v) × (v ≤ ctx.log.version)
unfolding checkout
checkout_within v ctx after e = ground (arith, e)

-- The context that a checkout leaves, before the rebuild.
abbrev rolled : ℕ → Context → Context
rolled v ctx = record ctx {
  artifacts =
      restore (touched (commits_from v ctx.log) []) ctx.artifacts
        (rebuild_artifacts (replay_state v ctx.log));
  relations =
      union (replay_relations v ctx.log)
        (keep_if (λ r. not (contains r (replay_relations ctx.log.version ctx.log))) ctx.relations);
  events = [];
  log = rewound v ctx.log;
}

checkout-rolled :
    (v : ℕ) (ctx : Context)
    → IsSound ctx
    → ctx.log.baseline_version ≤ v
    → v ≤ ctx.log.version
    → checkout v ctx ≡ ok (rebuild_indices (rolled v ctx))
unfolding checkout rebuild_indices
checkout-rolled v ctx h lo hi =
    let known : leb v ctx.log.version ≡ true = ground arith in
    let reachable : ltb v ctx.log.baseline_version ≡ false = ground arith in
    rw (known, reachable, head_at_lem v ctx.log h.keyed.log_valid lo hi, checkout) refl

pub checkout-IsSound :
    (v : ℕ) (ctx after : Context) → checkout v ctx ≡ ok after → IsSound ctx → IsSound after
checkout-IsSound v ctx after e h =
    let (lo, hi) = checkout_within v ctx after e in
    let held = replay_state v ctx.log in
    let same : after ≡ rebuild_indices (rolled v ctx) = cc (e, checkout-rolled v ctx h lo hi) in
    rw same (
      rebuild_indices-IsSound (rolled v ctx)
        (restore-IsDistinct (touched (commits_from v ctx.log) []) ctx.artifacts
          (rebuild_artifacts held)
          (rebuild_artifacts-IsDistinct held (replay_state-IsDistinct v ctx.log h.based)))
        (record {
          keyed =
              restore-IsKept (touched (commits_from v ctx.log) []) ctx.artifacts
                (rebuild_artifacts held) h.indexed.artifacts_distinct h.keyed.keyed
                (rebuild_artifacts-IsKept held);
          log_valid = rewound-IsValid v ctx.log h.keyed.log_valid lo hi;
        })
        h.based)
