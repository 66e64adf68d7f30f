-- ===== src/Context/History.antt =====
-- Commits on the live state: `log_commit`, `apply_commit`, and the rebuild of the two indices.
use reactifact.Prelude.{
  String, Bool, true, false, Option, none, some, List, [], ◌∷◌, ◌==◌, ltb, if◌then◌else◌, string_eq,
}
use reactifact.Prelude.Dict.{Dict, lookup, insert, remove}
use reactifact.Prelude.Sets.{add, discard}
use reactifact.Result.{Result, ok, err, missing_id, ◌>>=◌}
use reactifact.Model.{Model, Class, class_of, class_eq, model_eq}
use reactifact.Artifact.{Artifact, new, revise}
use reactifact.Operations.{Operation, create, update, delete, link, unlink, relation_eq}
use reactifact.RelationGraph
use reactifact.RelationGraph.{Graph}
use reactifact.Commit.{Commit, Read, Write}
use reactifact.CommitLog.{CommitLog, append, producing_commit}
use reactifact.Context.State.{Context, add_typed, discard_typed}
use reactifact.Context.Store.{retype}

unfoldable pub discard_writes : List Write → List String → List String
discard_writes [] s = s
discard_writes (w ∷ ws) s = discard_writes ws (discard w.artifact_id s)

unfoldable pub log_commit : Commit → Context → Context
unfolding append discard_writes
log_commit c ctx = record ctx { log = append c ctx.log; stale = discard_writes c.writes ctx.stale }

-- Whether some read is of an artifact that has since moved on.
unfoldable pub reads_outdated : List Read → Dict String Artifact → Bool
reads_outdated [] arts = false
reads_outdated (r ∷ rs) arts = elim (lookup r.artifact_id arts) [
  | none ↦ reads_outdated rs arts
  | some a ↦ if ltb r.version a.version then true else reads_outdated rs arts
]

-- The body of the loop of `_recompute_stale`.
unfoldable pub is_outdated : String → CommitLog → Dict String Artifact → Bool
unfolding reads_outdated producing_commit
is_outdated aid log arts = elim (producing_commit aid log) [
  | none ↦ false
  | some c ↦ reads_outdated c.reads arts
]

unfoldable pub outdated_ids : Dict String Artifact → CommitLog → Dict String Artifact → List String
unfolding is_outdated
outdated_ids [] log arts = []
outdated_ids ((aid, a) ∷ d) log arts =
    let rest = outdated_ids d log arts in if is_outdated aid log arts then add aid rest else rest

unfoldable pub recompute_stale : Context → Context
unfolding outdated_ids
recompute_stale ctx = record ctx { stale = outdated_ids ctx.artifacts ctx.log ctx.artifacts }

-- The loop of `_reindex_by_type`.
unfoldable pub index_types :
    Dict String Artifact → Dict Class (List String) → Dict Class (List String)
unfolding add_typed class_of
index_types [] bt = bt
index_types ((aid, a) ∷ d) bt = index_types d (add_typed (class_of a.data_) aid bt)

unfoldable pub reindex_by_type : Context → Context
unfolding index_types
reindex_by_type ctx = record ctx { by_type = index_types ctx.artifacts [] }

unfoldable pub rebuild_indices : Context → Context
unfolding recompute_stale reindex_by_type
rebuild_indices ctx = reindex_by_type (recompute_stale ctx)

-- `op.artifact_id or op.id`
unfoldable pub create_target : Option String → Option String → Option String
create_target none i = i
create_target (some aid) i = if aid == "" then i else some aid

-- One operation of `apply_commit`; `cid` is the id of the commit.
unfoldable pub apply_create : String → Model → String → Context → Context
unfolding new revise add_typed discard_typed class_of
apply_create cid d aid ctx = elim (lookup aid ctx.artifacts) [
  | some a ↦ record ctx {
    artifacts = insert aid (revise a d) ctx.artifacts;
    by_type = add_typed (class_of d) aid (discard_typed (class_of a.data_) aid ctx.by_type);
  }
  | none ↦ record ctx {
    artifacts = insert aid (new d aid (some cid)) ctx.artifacts;
    by_type = add_typed (class_of d) aid ctx.by_type;
  }
]

unfoldable pub apply_op : String → Operation → Context → Result Context
unfolding apply_create create_target revise retype discard_typed class_of RelationGraph.link
    RelationGraph.unlink
apply_op cid (create d aid i) ctx = elim (create_target aid i) [
  | none ↦ err missing_id
  | some target ↦ ok (apply_create cid d target ctx)
]
apply_op cid (update aid d) ctx = elim (lookup aid ctx.artifacts) [
  | none ↦ ok ctx
  | some a ↦ ok (record ctx {
    artifacts = insert aid (revise a d) ctx.artifacts;
    by_type = retype aid (class_of a.data_) (class_of d) ctx.by_type;
  })
]
apply_op cid (delete aid) ctx = elim (lookup aid ctx.artifacts) [
  | none ↦ ok ctx
  | some a ↦ ok (record ctx {
    artifacts = remove aid ctx.artifacts;
    by_type = discard_typed (class_of a.data_) aid ctx.by_type;
  })
]
apply_op cid (link s r t) ctx =
    ok (record ctx { relations = RelationGraph.link s r t ctx.relations })
apply_op cid (unlink s r t) ctx =
    ok (record ctx { relations = (RelationGraph.unlink s r t ctx.relations).0 })

unfoldable pub apply_ops : String → List Operation → Context → Result Context
unfolding apply_op
apply_ops cid [] ctx = ok ctx
apply_ops cid (op ∷ ops) ctx = apply_op cid op ctx >>= apply_ops cid ops

unfoldable pub apply_commit : Bool → Commit → Context → Result Context
unfolding apply_ops log_commit rebuild_indices
apply_commit reindex c ctx = do
  applied ← apply_ops c.id c.operations ctx
  let logged = log_commit c applied
  ok (if reindex then rebuild_indices logged else logged)
