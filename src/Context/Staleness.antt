-- ===== src/Context/Staleness.antt =====
-- The set of stale artifacts, which the operations keep up to date, against the full rescan of
-- `_recompute_stale`.
use text.Mathlib.TextEquality.{eq_iff}
use reactifact.Prelude.{
  ℕ, ◌+◌, String, ◌≡◌, refl, Bool, true, false, Option, none, some, List, [], ◌∷◌, arith, ◌==◌,
  ◌&&◌, ◌||◌, if◌then◌else◌, string_eq, inl, inr, Bool-cases, Option-cases, ==_refl, ◌∙◌,
}
use reactifact.Prelude.Dict.{Dict, lookup, insert, has, lookup-insert}
use reactifact.Prelude.Sets.{
  contains, add, discard, contains-add, contains-discard, contains-of_list,
}
use reactifact.Model.{Model, model_eq, class_of}
use reactifact.Artifact.{Artifact, revise}
use reactifact.Commit.{Commit, Read, Write, sources, read_ids}
use reactifact.CommitLog
use reactifact.CommitLog.{CommitLog, append, producing_commit, place, index_commit}
use reactifact.CommitLog.Lookup.{
  IsConsistent, write_ids, rebuild_indices-IsConsistent, lookup-index_writes,
}
use reactifact.CommitLog.Chain.{IsValid}
use reactifact.Context.State.{Context, read_older, outdated, dependents_of, emit, artifact_stale}
use reactifact.Context.Store.{mark_stale, store_update, update}
use reactifact.Context.History.{
  discard_writes, log_commit, reads_outdated, is_outdated, outdated_ids, recompute_stale,
}
use reactifact.Context.TypeIndex.{mark_stale_keeps}

-- Whether the rescan calls the artifact stale.
abbrev pub scan_stale : String → Context → Bool
scan_stale d ctx = has d ctx.artifacts && is_outdated d ctx.log ctx.artifacts

-- The set holds exactly what the rescan finds.
pub record TracksStale (ctx : Context) : Type 0 where
  pub agrees : (d : String) → contains d ctx.stale ≡ scan_stale d ctx

-- Every artifact stands under its own id, and the log's indices fit its commits.
pub record IsKeyed (ctx : Context) : Type 0 where
  pub keyed : (k : String) (a : Artifact) → lookup k ctx.artifacts ≡ some a → a.id ≡ k
  pub log_valid : IsValid ctx.log

contains-outdated_ids :
    (d : String) (arts : Dict String Artifact) (log : CommitLog) (live : Dict String Artifact)
    → contains d (outdated_ids arts log live) ≡ (has d arts && is_outdated d log live)
unfolding outdated_ids contains lookup
contains-outdated_ids d [] log live = refl
contains-outdated_ids d ((aid, a) ∷ arts) log live = ground (
  arith,
  contains-outdated_ids d arts log live,
  contains-add d aid (outdated_ids arts log live),
  eq_iff aid d,
)

pub recompute_stale-TracksStale : (ctx : Context) → TracksStale (recompute_stale ctx)
unfolding recompute_stale
recompute_stale-TracksStale ctx = record {
  agrees = λ d. contains-outdated_ids d ctx.artifacts ctx.log ctx.artifacts;
}

abbrev artifact_ids : List Artifact → List String
artifact_ids [] = []
artifact_ids (a ∷ as') = a.id ∷ artifact_ids as'

contains-mark_stale :
    (d : String) (as' : List Artifact) (ctx : Context)
    → contains d (mark_stale as' ctx).stale
      ≡ (contains d (artifact_ids as') || contains d ctx.stale)
unfolding mark_stale contains
contains-mark_stale d [] ctx = refl
contains-mark_stale d (a ∷ as') ctx = ground (
  arith,
  contains-mark_stale d as'
      (emit artifact_stale (class_of a.data_) a.id (record ctx { stale = add a.id ctx.stale })),
  contains-add d a.id ctx.stale,
)

-- Whether the producing commit of an artifact read `aid` before version `v`.
abbrev reads_before : String → ℕ → Option Commit → Bool
reads_before aid v none = false
reads_before aid v (some c) = read_older aid v c.reads

contains-outdated :
    (d aid : String) (v : ℕ) (ds : List String) (ctx : Context)
    → ((k : String) (a : Artifact) → lookup k ctx.artifacts ≡ some a → a.id ≡ k)
    → contains d (artifact_ids (outdated aid v ds ctx))
      ≡ (contains d ds && (has d ctx.artifacts && reads_before aid v (producing_commit d ctx.log)))
unfolding outdated contains
contains-outdated d aid v [] ctx keyed = refl
contains-outdated d aid v (k ∷ ds) ctx keyed = elim (Option-cases (lookup k ctx.artifacts)) [
  | inl e ↦ rw (e, outdated) (ground (arith, contains-outdated d aid v ds ctx keyed, eq_iff k d, e))
  | inr (a, e) ↦
      ground
        (arith, contains-outdated d aid v ds ctx keyed, eq_iff k d, eq_iff a.id d, keyed k a e, e)
]

read_older→read :
    (aid : String) (v : ℕ) (rs : List Read)
    → read_older aid v rs ≡ true
    → contains aid (read_ids rs) ≡ true
unfolding read_older contains
read_older→read aid v [] e = cc
read_older→read aid v (r ∷ rs) e = ground (arith, read_older→read aid v rs)

reads_outdated-insert :
    (aid : String) (a a' : Artifact) (rs : List Read) (arts : Dict String Artifact)
    → lookup aid arts ≡ some a
    → a'.version ≡ a.version + 1
    → reads_outdated rs (insert aid a' arts)
      ≡ (reads_outdated rs arts || read_older aid a'.version rs)
unfolding reads_outdated read_older
reads_outdated-insert aid a a' [] arts known next = refl
reads_outdated-insert aid a a' (r ∷ rs) arts known next = ground (
  arith,
  reads_outdated-insert aid a a' rs arts known next,
  lookup-insert r.artifact_id aid a' arts,
  eq_iff aid r.artifact_id,
  eq_iff r.artifact_id aid,
)

-- A dependent that read an older version is one that the log names.
named :
    (d aid : String) (v : ℕ) (log : CommitLog)
    → IsValid log
    → reads_before aid v (producing_commit d log) ≡ true
    → contains d (CommitLog.dependents_of aid log) ≡ true
unfolding producing_commit CommitLog.dependents_of sources
named d aid v log h e =
    let consistent : IsConsistent log.index =
      rw h.indexed (rebuild_indices-IsConsistent log.commits) in
    elim (Option-cases (lookup d log.last_write_commit)) [
      | inl none_known ↦ absurd (ground (arith, none_known, e))
      | inr (c, known) ↦ ground (
        arith,
        known,
        consistent.edges d aid,
        consistent.sourced d,
        contains-of_list aid (read_ids c.reads),
        read_older→read aid v c.reads,
        e,
      )
    ]

is_outdated-insert :
    (d aid : String) (a a' : Artifact) (log : CommitLog) (arts : Dict String Artifact)
    → lookup aid arts ≡ some a
    → a'.version ≡ a.version + 1
    → is_outdated d log (insert aid a' arts)
      ≡ (is_outdated d log arts || reads_before aid a'.version (producing_commit d log))
unfolding is_outdated
is_outdated-insert d aid a a' log arts known next = elim (Option-cases (producing_commit d log)) [
  | inl e ↦ rw (e, is_outdated) refl
  | inr (c, e) ↦ rw (e, is_outdated) (reads_outdated-insert aid a a' c.reads arts known next)
]

store_update-stale :
    (a : Artifact) (aid : String) (d : Model) (ctx : Context)
    → lookup aid ctx.artifacts ≡ some a
    → IsKeyed ctx
    → TracksStale ctx
    → TracksStale
        (mark_stale (dependents_of aid (store_update a aid d ctx)) (store_update a aid d ctx))
store_update-stale a aid d ctx known k h = record {
  agrees =
      λ j. rw (kept.0, kept.2) (contains-mark_stale j (dependents_of aid updated) updated ∙ rest j);
}
  where
    updated : Context
    updated = store_update a aid d ctx

    kept :
        ((mark_stale (dependents_of aid updated) updated).artifacts ≡ updated.artifacts)
        × ((mark_stale (dependents_of aid updated) updated).by_type ≡ updated.by_type)
        × ((mark_stale (dependents_of aid updated) updated).log ≡ updated.log)
        × ((mark_stale (dependents_of aid updated) updated).relations ≡ updated.relations)
    kept = mark_stale_keeps (dependents_of aid updated) updated

    keyed' : (i : String) (b : Artifact) → lookup i updated.artifacts ≡ some b → b.id ≡ i
    keyed' i b e =
        unfold store_update revise in
        ground (
          arith,
          lookup-insert i aid (revise a d) ctx.artifacts,
          e,
          k.keyed i b,
          k.keyed aid a known,
          eq_iff aid i,
        )

    direct :
        dependents_of aid updated
        ≡ outdated aid (a.version + 1) (CommitLog.dependents_of aid ctx.log) updated
    direct =
        unfold store_update revise dependents_of in
        ground (arith, lookup-insert aid aid (revise a d) ctx.artifacts, ==_refl aid)

    rest :
        (j : String)
        → (contains j (artifact_ids (dependents_of aid updated)) || contains j updated.stale)
          ≡ scan_stale j updated
    rest j = rw direct (
        unfold store_update revise in
        ground (
          arith,
          contains-outdated j aid (a.version + 1) (CommitLog.dependents_of aid ctx.log) updated
              keyed',
          is_outdated-insert j aid a (revise a d) ctx.log ctx.artifacts known refl,
          lookup-insert j aid (revise a d) ctx.artifacts,
          named j aid (a.version + 1) ctx.log k.log_valid,
          h.agrees j,
          eq_iff aid j,
          known,
        ))

-- An update of an artifact, in a context whose stale set is what the rescan finds, leaves the set
-- so, whether or not the data changes.
pub update-TracksStale :
    (aid : String) (d : Model) (ctx : Context)
    → IsKeyed ctx
    → TracksStale ctx
    → TracksStale (update aid d ctx).0
unfolding update
update-TracksStale aid d ctx k h = elim (Option-cases (lookup aid ctx.artifacts)) [
  | inl e ↦ rw (e, update) h
  | inr (a, e) ↦
      rw (e, update)
        (elim (Bool-cases (a.data_ == d)) [
          | inl same ↦ rw same h
          | inr moved ↦ rw moved (store_update-stale a aid d ctx e k h)
        ])
]

contains-discard_writes :
    (d : String) (ws : List Write) (s : List String)
    → contains d (discard_writes ws s) ≡ (if contains d (write_ids ws) then false else contains d s)
unfolding discard_writes contains
contains-discard_writes d [] s = refl
contains-discard_writes d (w ∷ ws) s = ground (
  arith,
  contains-discard_writes d ws (discard w.artifact_id s),
  contains-discard d w.artifact_id s,
)

pub producing_commit-append :
    (d : String) (c : Commit) (log : CommitLog)
    → producing_commit d (append c log)
      ≡ (if contains d (write_ids c.writes) then some (place c log) else producing_commit d log)
unfolding producing_commit append index_commit
producing_commit-append d c log = lookup-index_writes d (place c log) c.writes log.index

-- After a commit is logged, the rescan finds the stale set and, besides, the live artifacts that the
-- commit wrote if one of its reads is already outdated: those `log_commit` takes out of the set. So
-- the two agree where the reads are current.
pub log_commit-recompute_stale :
    (c : Commit) (d : String) (ctx : Context)
    → TracksStale ctx
    → contains d (recompute_stale (log_commit c ctx)).stale ≡ (
        contains d (log_commit c ctx).stale
        || (contains d (write_ids c.writes)
            && (has d ctx.artifacts && reads_outdated c.reads ctx.artifacts)))
log_commit-recompute_stale c d ctx h =
    (recompute_stale-TracksStale (log_commit c ctx)).agrees d
    ∙ unfold log_commit recompute_stale is_outdated in
      ground (
        arith,
        producing_commit-append d c ctx.log,
        contains-discard_writes d c.writes ctx.stale,
        h.agrees d,
      )
