-- ===== src/Context/Trimmed.antt =====
-- A compaction leaves a context in order.
use reactifact.Prelude.{
  ℕ, ◌-◌, String, ◌≡◌, refl, sym, ap, ◌∙◌, Option, none, some, [], ◌∷◌, arith, ◌==◌, if◌then◌else◌,
  inl, inr, Bool-cases, Option-cases, string_eq, eqb,
}
use reactifact.Prelude.Dict.{Dict, lookup, IsDistinct}
use reactifact.Result.{ok}
use reactifact.Model.{class_of, class_eq}
use reactifact.Artifact.{Artifact, trim_history}
use reactifact.Operations.{relation_eq}
use reactifact.CommitLog
use reactifact.CommitLog.{
  CommitLog, State, commits_upto, commits_from, replay_relations, replay_op, replay_ops,
  replay_commits, replay_state, data_of, wrap,
}
use reactifact.CommitLog.Chain.{IsValid}
use reactifact.CommitLog.Replayed.{base_state, replay_state_lem}
use reactifact.Context.State.{Context}
use reactifact.Context.History.{recompute_stale}
use reactifact.Context.Rollback.{trim_all, compact}
use reactifact.Context.Soundness.{IsSound, alike}
use reactifact.CommitLog.Compacted.{Compacts, compact_lem}
use mathlib.Core.Option
use reactifact.Context.Rewound.{replay_state-IsDistinct}

lookup-trim_all :
    (keep : ℕ) (k : String) (d : Dict String Artifact)
    → lookup k (trim_all keep d) ≡ Option.map (trim_history keep) (lookup k d)
unfolding trim_all lookup
lookup-trim_all keep k [] = refl
lookup-trim_all keep k ((aid, a) ∷ d) = ground (arith, lookup-trim_all keep k d)

trim_all-IsDistinct :
    (keep : ℕ) (d : Dict String Artifact) → IsDistinct d → IsDistinct (trim_all keep d)
unfolding trim_all
trim_all-IsDistinct keep [] h = tt
trim_all-IsDistinct keep ((aid, a) ∷ d) h = (
  lookup-trim_all keep aid d ∙ ap (Option.map (trim_history keep)) h.0,
  trim_all-IsDistinct keep d h.1,
)

trim_history_keeps :
    (keep : ℕ) (a : Artifact)
    → ((trim_history keep a).id ≡ a.id) × ((trim_history keep a).data_ ≡ a.data_)
unfolding trim_history
trim_history_keeps keep a = ground arith

-- A shorter log with the same artifacts, but for their histories.
pruned-IsSound :
    (keep_versions : Option ℕ) (log' : CommitLog) (ctx : Context)
    → IsValid log'
    → IsDistinct (base_state log')
    → IsSound ctx
    → IsSound (record ctx {
      log = log';
      artifacts = elim keep_versions as (λ _. Dict String Artifact) [
        | none ↦ ctx.artifacts
        | some keep ↦ trim_all keep ctx.artifacts
      ];
    })
pruned-IsSound none log' ctx valid based h = record {
  indexed = record {
    artifacts_distinct = h.indexed.artifacts_distinct;
    types_distinct = h.indexed.types_distinct;
    typed = h.indexed.typed;
  };
  keyed = record { keyed = h.keyed.keyed; log_valid = valid };
  based = based;
}
pruned-IsSound (some keep) log' ctx valid based h = record {
  indexed = record {
    artifacts_distinct = trim_all-IsDistinct keep ctx.artifacts h.indexed.artifacts_distinct;
    types_distinct = h.indexed.types_distinct;
    typed = λ c k. h.indexed.typed c k ∙ elim (Option-cases (lookup k ctx.artifacts)) [
      | inl e ↦ rw (lookup-trim_all keep k ctx.artifacts, e) refl
      | inr (a, e) ↦
          rw (lookup-trim_all keep k ctx.artifacts, e)
            (ap (λ d. class_of d == c) (sym (trim_history_keeps keep a).1))
    ];
  };
  keyed = record {
    keyed = λ k b e. elim (Option-cases (lookup k ctx.artifacts)) [
      | inl gone ↦ absurd (ground (arith, lookup-trim_all keep k ctx.artifacts, gone, e))
      | inr (a, there) ↦ ground (
        arith,
        lookup-trim_all keep k ctx.artifacts,
        there,
        e,
        h.keyed.keyed k a there,
        trim_history_keeps keep a,
      )
    ];
    log_valid = valid;
  };
  based = based;
}

-- The snapshot of a compacted log is a replay of the log.
based_at :
    (log log' : CommitLog) (n : ℕ)
    → Compacts log log' n
    → IsDistinct (base_state log)
    → IsDistinct (base_state log')
unfolding commits_upto replay_commits
based_at log log' n h based =
    let b = log'.baseline_version in
    let none_yet : b - b ≡ 0 = omega arith in
    let same : replay_state b log' ≡ base_state log' = replay_state_lem b log' ∙ rw none_yet refl in
    rw (← same) (rw (h.states b (omega arith)) (replay_state-IsDistinct b log based))

-- What is left of a context after a compaction, before the stale set is computed anew.
abbrev pruned : Option ℕ → CommitLog → Context → Context
pruned keep_versions log' ctx = record ctx {
  log = log';
  artifacts = elim keep_versions as (λ _. Dict String Artifact) [
    | none ↦ ctx.artifacts
    | some keep ↦ trim_all keep ctx.artifacts
  ];
}

compact-pruned :
    (keep_commits m : ℕ) (keep_versions : Option ℕ) (log' : CommitLog) (ctx : Context)
    → CommitLog.compact keep_commits ctx.log ≡ ok (log', m)
    → compact keep_commits keep_versions ctx
      ≡ ok (
        if eqb m 0
            then pruned keep_versions log' ctx
            else recompute_stale (pruned keep_versions log' ctx),
        m,
      )
unfolding compact
compact-pruned keep_commits m keep_versions log' ctx e = ground (arith, e)

pub compact-IsSound :
    (keep_commits : ℕ) (keep_versions : Option ℕ) (ctx after : Context) (n : ℕ)
    → compact keep_commits keep_versions ctx ≡ ok (after, n)
    → IsSound ctx
    → IsSound after
compact-IsSound keep_commits keep_versions ctx after n e h =
    let (log', m, shorter, kept, few, based) = compact_lem keep_commits ctx.log h.keyed.log_valid in
    let left =
      pruned-IsSound keep_versions log' ctx kept.valid (based_at ctx.log log' m kept h.based) h in
    let returned = compact-pruned keep_commits m keep_versions log' ctx shorter in
    elim (Bool-cases (eqb m 0)) [
      | inl none_dropped ↦
          let same : after ≡ pruned keep_versions log' ctx =
            ground (arith, e, returned, none_dropped) in
          rw same left
      | inr some_dropped ↦
          let same : after ≡ recompute_stale (pruned keep_versions log' ctx) =
            ground (arith, e, returned, some_dropped) in
          rw same
            (unfold recompute_stale in alike (pruned keep_versions log' ctx) _ refl refl refl left)
    ]
