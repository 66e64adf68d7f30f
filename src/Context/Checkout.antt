-- ===== src/Context/Checkout.antt =====
-- reactifact/context.py: what `checkout` makes of the artifacts. Those that the undone commits do
-- not write keep their objects; the others are rebuilt from the replay.
use mathlib.Core.Option
use reactifact.Prelude.{
  ℕ, ◌-◌, ◌≤◌, String, ◌≡◌, ◌≢◌, refl, true, false, Option, none, some, List, [], ◌∷◌, arith, ◌==◌,
  if◌then◌else◌, string_eq, inl, inr, Bool-cases, Option-cases, ◌∙◌, ap, sym, take-append-drop, leb,
  ltb, is_some, not, ◌&&◌, ◌||◌, keep_if,
}
use reactifact.Prelude.Dict.{Dict, lookup, insert, IsDistinct, lookup-insert, lookup-remove}
use reactifact.Prelude.Sets.{contains, union, contains-union, add, contains-add}
use reactifact.Result.{ok}
use reactifact.Model.{Model}
use reactifact.Artifact.{Artifact, new}
use reactifact.Operations.{Relation, relation_eq, Operation, create, update, delete, link, unlink}
use reactifact.RelationGraph.{Graph}
use reactifact.Commit.{Commit}
use reactifact.CommitLog.{
  CommitLog, State, replay_op, replay_ops, replay_commits, replay_state, replay_relations,
  commits_upto, commits_from,
}
use reactifact.CommitLog.Chain.{IsValid, rewound, rewound-IsValid, head_at_lem}
use reactifact.CommitLog.Replayed.{
  base_state, replay_commits-append, replay_state_lem, upto_version,
}
use reactifact.Context.State.{Context}
use reactifact.Context.History.{recompute_stale, reindex_by_type}
use reactifact.Context.Rollback.{
  op_target, touched_ops, touched, rebuild_artifacts, restore, checkout,
}

-- The data that a context holds under an id.
abbrev pub held_at : String → Dict String Artifact → Option Model
held_at k arts = Option.map (λ (a : Artifact). a.data_) (lookup k arts)

rebuilt_lem : (k : String) (st : State) → held_at k (rebuild_artifacts st) ≡ lookup k st
unfolding rebuild_artifacts lookup new
rebuilt_lem k [] = refl
rebuilt_lem k ((aid, d) ∷ st) = ground (arith, rebuilt_lem k st)

restore_lem :
    (k : String) (ts : List String) (arts rebuilt : Dict String Artifact)
    → IsDistinct arts
    → held_at k (restore ts arts rebuilt) ≡ (
        if contains k ts
        then held_at k rebuilt
        else if is_some (lookup k arts)
        then held_at k arts
        else held_at k rebuilt)
unfolding restore lookup
restore_lem k ts [] rebuilt h = ground arith
restore_lem k ts ((aid, a) ∷ d) rebuilt h = ground (
  arith,
  restore_lem k ts d (if contains aid ts then rebuilt else insert aid a rebuilt) h.1,
  lookup-insert k aid a rebuilt,
  string_eq.beq_iff aid k,
  h.0,
)

-- What an operation does not name it does not write.
op_misses :
    (k : String) (op : Operation) (st : State)
    → op_target op ≢ some k
    → lookup k (replay_op op st) ≡ lookup k st
unfolding op_target replay_op
op_misses k (create d none i) st out = refl
op_misses k (create d (some aid) i) st out =
    ground (arith, lookup-insert k aid d st, string_eq.beq_iff aid k)
op_misses k (update aid d) st out =
    ground (arith, lookup-insert k aid d st, string_eq.beq_iff aid k)
op_misses k (delete aid) st out = ground (arith, lookup-remove k aid st, string_eq.beq_iff aid k)
op_misses k (link s r t) st out = refl
op_misses k (unlink s r t) st out = refl

-- The ids gathered so far, with that of one operation.
abbrev touch : Operation → List String → List String
touch op s = elim (op_target op) [ none ↦ s | some aid ↦ if aid == "" then s else add aid s ]

touch_keeps :
    (k : String) (op : Operation) (s : List String)
    → contains k (touch op s) ≡ false
    → k ≢ ""
    → (contains k s ≡ false) × (op_target op ≢ some k)
touch_keeps k op s out named = elim (Option-cases (op_target op)) [
  | inl e ↦ ground (arith, e)
  | inr (aid, e) ↦
      ground (arith, e, contains-add k aid s, string_eq.beq_iff aid k, string_eq.beq_iff aid "")
]

touched_ops_misses :
    (k : String) (ops : List Operation) (s : List String) (st : State)
    → k ≢ ""
    → contains k (touched_ops ops s) ≡ false
    → (contains k s ≡ false) × (lookup k (replay_ops ops st) ≡ lookup k st)
unfolding touched_ops replay_ops
touched_ops_misses k [] s st named out = (out, refl)
touched_ops_misses k (op ∷ ops) s st named out =
    let (before, rest) = touched_ops_misses k ops (touch op s) (replay_op op st) named out in
    let (start, missed) = touch_keeps k op s before named in
    (start, rest ∙ op_misses k op st missed)

touched_misses :
    (k : String) (cs : List Commit) (s : List String) (st : State)
    → k ≢ ""
    → contains k (touched cs s) ≡ false
    → (contains k s ≡ false) × (lookup k (replay_commits cs st) ≡ lookup k st)
unfolding touched replay_commits
touched_misses k [] s st named out = (out, refl)
touched_misses k (c ∷ cs) s st named out =
    let (before, rest) =
      touched_misses k cs (touched_ops c.operations s) (replay_ops c.operations st) named out in
    let (start, same) = touched_ops_misses k c.operations s st named before in (start, rest ∙ same)

-- The head's replay is that of a version with the later commits applied.
head_state :
    (v : ℕ) (log : CommitLog)
    → IsValid log
    → replay_state log.version log ≡ replay_commits (commits_from v log) (replay_state v log)
unfolding commits_from commits_upto
head_state v log h =
    replay_state_lem log.version log
    ∙ ap (λ cs. replay_commits cs (base_state log))
        (upto_version log h ∙ sym (take-append-drop (v - log.baseline_version) log.commits))
    ∙ replay_commits-append (commits_upto v log) (commits_from v log) (base_state log)
    ∙ ap (replay_commits (commits_from v log)) (sym (replay_state_lem v log))

-- What the artifacts hold after the rebuild, where they held what the log's head replays to.
restored_data :
    (v : ℕ) (ctx : Context) (k : String)
    → IsValid ctx.log
    → IsDistinct ctx.artifacts
    → k ≢ ""
    → held_at k ctx.artifacts ≡ lookup k (replay_state ctx.log.version ctx.log)
    → held_at k (
        restore
          (touched (commits_from v ctx.log) [])
          ctx.artifacts
          (rebuild_artifacts (replay_state v ctx.log)))
      ≡ lookup k (replay_state v ctx.log)
restored_data v ctx k h distinct named live =
    restore_lem k (touched (commits_from v ctx.log) []) ctx.artifacts
      (rebuild_artifacts (replay_state v ctx.log)) distinct
    ∙ elim (Bool-cases (contains k (touched (commits_from v ctx.log) []))) [
      | inl undone ↦ rw undone (rebuilt_lem k (replay_state v ctx.log))
      | inr kept ↦
          let same =
            live
            ∙ ap (lookup k) (head_state v ctx.log h)
            ∙ (touched_misses k (commits_from v ctx.log) [] (replay_state v ctx.log) named
                kept).1 in
          elim (Bool-cases (is_some (lookup k ctx.artifacts))) [
            | inl known ↦ rw (kept, known) same
            | inr new_ ↦ rw (kept, new_) (rebuilt_lem k (replay_state v ctx.log))
          ]
    ]

-- The context that a checkout leaves, with the log `log'` that is rolled back.
checked_out : ℕ → CommitLog → Context → Context
checked_out v log' ctx = reindex_by_type (
    recompute_stale (record ctx {
      artifacts =
          restore (touched (commits_from v ctx.log) []) ctx.artifacts
            (rebuild_artifacts (replay_state v ctx.log));
      relations = union (replay_relations v ctx.log) (
          keep_if (λ r. not (contains r (replay_relations ctx.log.version ctx.log))) ctx.relations);
      events = [];
      log = log';
    }))

contains-keep_if :
    (r : Relation) (committed g : Graph)
    → contains r (keep_if (λ x. not (contains x committed)) g)
      ≡ (contains r g && not (contains r committed))
unfolding contains
contains-keep_if r committed [] = refl
contains-keep_if r committed (x ∷ g) =
    ground (
      arith,
      contains-keep_if r committed g,
      relation_eq.beq_iff x r,
      ap (λ y. contains y committed),
    )

-- A checkout of a version that the log holds succeeds. Under an id that is not the empty one, and
-- under which the context holds what the log's head replays to, it leaves what the version does.
-- An edge stands there if that version has it, or if it is an edge of the context that the head
-- does not have. The log is valid and at that version, and no event is queued.
pub checkout_lem :
    (v : ℕ) (ctx : Context) (k : String) (r : Relation)
    → IsValid ctx.log
    → IsDistinct ctx.artifacts
    → held_at k ctx.artifacts ≡ lookup k (replay_state ctx.log.version ctx.log)
    → k ≢ ""
    → ctx.log.baseline_version ≤ v
    → v ≤ ctx.log.version
    → (after : Context) × (checkout v ctx ≡ ok after)
      × (held_at k after.artifacts ≡ lookup k (replay_state v ctx.log))
      × (contains r after.relations ≡ (
          contains r (replay_relations v ctx.log)
          || (contains r ctx.relations
              && not (contains r (replay_relations ctx.log.version ctx.log)))))
      × IsValid after.log
      × (after.log.version ≡ v)
      × (after.events ≡ [])
unfolding checkout checked_out recompute_stale reindex_by_type
checkout_lem v ctx k r h distinct live named lo hi =
    let known : leb v ctx.log.version ≡ true = ground arith in
    let reachable : ltb v ctx.log.baseline_version ≡ false = ground arith in
    (
      checked_out v (rewound v ctx.log) ctx,
      rw (known, reachable, head_at_lem v ctx.log h lo hi, checkout) refl,
      restored_data v ctx k h distinct named live,
      contains-union r (replay_relations v ctx.log) _
          ∙ ap (◌||◌ (contains r (replay_relations v ctx.log)))
              (contains-keep_if r (replay_relations ctx.log.version ctx.log) ctx.relations),
      rewound-IsValid v ctx.log h lo hi,
      refl,
      refl,
    )
