-- ===== src/Branching.antt =====
-- reactifact/branching.py: forks of a context and their merge. A fork carries a snapshot of the
-- context that it came from; a snapshot has no base of its own. `model_copy` and `deepcopy` make
-- equal values.
pub mod Verdicts
pub mod Plans
pub mod Merge
pub mod Kept
pub mod Adopt
use reactifact.Prelude.{
  ℕ, ◌<◌, String, Bool, true, false, not, ◌&&◌, ◌||◌, Option, none, some, List, [], ◌∷◌, ◌++◌, ◌==◌,
  ltb, or_else, if◌then◌else◌, string_eq, opt_beq, Eq, ◌≡◌, ◌↔◌, arith, is_some,
}
use reactifact.Prelude.Dict.{Dict, lookup, insert, remove, keys, has, values}
use reactifact.Prelude.Sets.{add, contains, union}
use reactifact.Result.{Result, ok, err, merge_conflict, attribute_error}
use reactifact.Model.{
  Model, class_of, plain, question, action, PendingQuestion, PendingAction, Status, pending,
  dispatched, failed, status_beq, model_eq,
}
use reactifact.Artifact.{Artifact, new, revise}
use reactifact.Operations.{Operation, create, update, delete, link, Relation, relation_eq}
use reactifact.RelationGraph
use reactifact.RelationGraph.{Graph}
use reactifact.Commit.{Commit}
use reactifact.CommitLog
use reactifact.Context
use reactifact.Context.{Context, empty_context, log_commit, recompute_stale, reindex_by_type}

pub record Branch : Type 0 where
  pub context : Context
  pub base : Option Context
  pub fork_name : String

-- The constructor sets the class of a copy anew, from the data.
unfoldable pub clone_artifacts : Dict String Artifact → Dict String Artifact → Dict String Artifact
clone_artifacts [] done = done
clone_artifacts ((aid, a) ∷ arts) done =
    clone_artifacts arts (insert a.id (record a { data_class = class_of a.data_ }) done)

-- `clone_context`: every artifact with its history and version, the log and the relations; the
-- events are not copied.
unfoldable pub clone_context : Context → Context
unfolding clone_artifacts CommitLog.copy recompute_stale reindex_by_type
clone_context source = reindex_by_type (
    recompute_stale (record empty_context {
      artifacts = clone_artifacts source.artifacts [];
      log = CommitLog.copy source.log;
      relations = source.relations;
    }))

unfoldable pub fork_context : String → Context → Branch
unfolding clone_context
fork_context name source = record {
  context = clone_context source;
  base = some (clone_context source);
  fork_name = name;
}

-- Pydantic's `model_dump(mode="json")`, as canonical text: of a question, and of the three fields
-- of an action that `_data_sig` includes.
pub record Dumps : Type 0 where
  pub dump_question : PendingQuestion → String
  pub dump_intent : String → String → String → String

-- `_data_sig` of what is there. The class is no part of it, and of an action only the intent
-- counts, not how far its dispatch has come.
unfoldable pub intent : Dumps → Model → String
intent dumps (plain c fields) = fields
intent dumps (question q) = dumps.dump_question q
intent dumps (action a) = dumps.dump_intent a.kind a.idempotency_key a.payload

unfoldable pub data_sig : Dumps → Option Artifact → Option String
unfolding intent
data_sig dumps none = none
data_sig dumps (some a) = some (intent dumps a.data_)

-- `isinstance(data, PendingAction) and data.status == "dispatched"`
unfoldable pub is_dispatched : Model → Bool
is_dispatched (action a) = status_beq a.status dispatched
is_dispatched _ = false

unfoldable pub is_undispatched : Model → Bool
is_undispatched (action a) = not (status_beq a.status dispatched)
is_undispatched _ = false

abbrev pub is_action : Model → Bool
is_action (action a) = true
is_action _ = false

-- What the merge does with one artifact.
pub data Verdict : Type 0 where
  keep conflict drop : Verdict
  adopt : Model → Verdict

-- With equal intents, a dispatched action wins over one that is not.
unfoldable pub converge : Option Artifact → Option Artifact → Verdict
unfolding is_dispatched is_undispatched
converge (some t) (some o) =
    if is_undispatched t.data_ && is_dispatched o.data_ then adopt o.data_ else keep
converge _ _ = keep

unfoldable pub take_other : Option Artifact → Verdict
take_other none = drop
take_other (some o) = adopt o.data_

-- The tests of the loop of `merge_contexts`, in its order.
unfoldable pub verdict : Dumps → Option Artifact → Option Artifact → Option Artifact → Verdict
unfolding data_sig converge take_other
verdict dumps base target other =
    if opt_beq (data_sig dumps target) (data_sig dumps other)
    then converge target other
    else if opt_beq (data_sig dumps other) (data_sig dumps base)
    then keep
    else if opt_beq (data_sig dumps target) (data_sig dumps base)
    then take_other other
    else conflict

-- Operations, new data and conflicts, as the loop gathers them.
pub record Plan : Type 0 where
  pub operations : List Operation
  pub pending : Dict String Model
  pub conflicts : List String

unfoldable pub plan_one : Verdict → String → Option Artifact → Plan → Plan
plan_one keep aid target p = p
plan_one conflict aid target p = record p { conflicts = aid ∷ p.conflicts }
plan_one drop aid target p = record p { operations = delete aid ∷ p.operations }
plan_one (adopt d) aid none p = record p {
  operations = create d none none ∷ p.operations;
  pending = (aid, d) ∷ p.pending;
}
plan_one (adopt d) aid (some t) p = record p {
  operations = update aid d ∷ p.operations;
  pending = (aid, d) ∷ p.pending;
}

-- The loop over the sorted ids; what is gathered comes in their order.
unfoldable pub plan_merge : Dumps → List String → Context → Context → Context → Plan
unfolding verdict plan_one
plan_merge dumps [] base target other = record { operations = []; pending = []; conflicts = [] }
plan_merge dumps (aid ∷ ids) base target other =
    plan_one
      (verdict dumps (lookup aid base.artifacts) (lookup aid target.artifacts)
        (lookup aid other.artifacts))
      aid (lookup aid target.artifacts) (plan_merge dumps ids base target other)

-- The loop reads the `status` of the other side's data where the target has an undispatched action
-- of the same signature; a model that is not an action has none.
unfoldable pub lacks_status : Dumps → Option Artifact → Option Artifact → Bool
unfolding data_sig is_undispatched
lacks_status dumps (some t) (some o) =
    opt_beq (data_sig dumps (some t)) (data_sig dumps (some o))
    && (is_undispatched t.data_ && not (is_action o.data_))
lacks_status dumps _ _ = false

unfoldable pub plan_raises : Dumps → List String → Context → Context → Bool
unfolding lacks_status
plan_raises dumps [] target other = false
plan_raises dumps (aid ∷ ids) target other =
    lacks_status dumps (lookup aid target.artifacts) (lookup aid other.artifacts)
    || plan_raises dumps ids target other

unfoldable pub removed_ids : List Operation → List String
removed_ids [] = []
removed_ids (delete aid ∷ ops) = add aid (removed_ids ops)
removed_ids (op ∷ ops) = removed_ids ops

unfoldable pub remove_all : List Operation → Dict String Artifact → Dict String Artifact
remove_all [] arts = arts
remove_all (delete aid ∷ ops) arts = remove_all ops (remove aid arts)
remove_all (op ∷ ops) arts = remove_all ops arts

unfoldable pub store_one : String → Model → Dict String Artifact → Dict String Artifact
unfolding new revise
store_one aid d arts = elim (lookup aid arts) [
  | none ↦ insert aid (new d aid none) arts
  | some a ↦ insert aid (revise a d) arts
]

unfoldable pub store_all : Dict String Model → Dict String Artifact → Dict String Artifact
unfolding store_one
store_all [] arts = arts
store_all ((aid, d) ∷ ps) arts = store_all ps (store_one aid d arts)

-- The loop over the other side's relations: the new graph, and the links that were added.
unfoldable pub adopt_links : List String → List Relation → Graph → Graph × List Operation
unfolding RelationGraph.link
adopt_links removed [] g = (g, [])
adopt_links removed (r ∷ rs) g =
    if contains r.source_id removed || contains r.target_id removed
    then adopt_links removed rs g
    else if contains r g
    then adopt_links removed rs g
    else let (g', ops) =
        adopt_links removed rs (RelationGraph.link r.source_id r.relation r.target_id g) in
      (g', link r.source_id r.relation r.target_id ∷ ops)

unfoldable pub merge_commit : String → String → List Operation → Commit
merge_commit cid message ops = record {
  id = cid;
  author = "merge";
  message = message;
  operations = ops;
  parent_id = none;
  context_version = none;
  reads = [];
  writes = [];
}

-- The state change of a merge without conflicts.
unfoldable pub apply_plan : String → String → Plan → Context → Context → Context
unfolding removed_ids remove_all store_all adopt_links merge_commit log_commit recompute_stale
    reindex_by_type
apply_plan cid message p target other =
    let (g, links) = adopt_links (removed_ids p.operations) other.relations target.relations in
    let merged : Context = record target {
      artifacts = store_all p.pending (remove_all p.operations target.artifacts);
      relations = g;
    } in
    elim (p.operations ++ links) [
      | [] ↦ merged
      | op ∷ ops ↦
          reindex_by_type
            (recompute_stale (log_commit (merge_commit cid message (op ∷ ops)) merged))
    ]

-- `base = other._base if other._base is not None else target._base`, or an empty context
abbrev pub merge_base : Option Context → Option Context → Context
merge_base none none = empty_context
merge_base none (some b) = b
merge_base (some b) t = b

-- `merge_contexts`; `sorted` orders the ids, `cid` is the id of the commit.
unfoldable pub merge_contexts :
    Dumps → (List String → List String) → String → String → Branch → Branch → Result Branch
unfolding plan_merge plan_raises apply_plan
merge_contexts dumps sorted cid message target other =
    let base = merge_base other.base target.base in
    let ids = sorted (
      union (union (keys base.artifacts) (keys target.context.artifacts))
        (keys other.context.artifacts)) in
    let p = plan_merge dumps ids base target.context other.context in
    if plan_raises dumps ids target.context other.context
    then err attribute_error
    else elim p.conflicts [
      | [] ↦ ok (record target { context = apply_plan cid message p target.context other.context })
      | c ∷ cs ↦ err (merge_conflict (c ∷ cs))
    ]
