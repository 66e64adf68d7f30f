-- ===== src/Context/Reachable.antt =====
-- What holds in every context that calls of its operations lead to, starting from an empty one.
use reactifact.Prelude.{ℕ, String, Bool, ◌≡◌, refl, Option, none, some, List, [], ◌∷◌, string_eq}
use reactifact.Prelude.Dict.{lookup, insert}
use reactifact.Prelude.Sets.{contains}
use reactifact.Model.{Model, PendingAction, model_eq}
use reactifact.Artifact.{Artifact}
use reactifact.RelationGraph
use reactifact.Commit.{Commit}
use reactifact.CommitLog.Chain.{empty_log-IsValid}
use reactifact.Context.State.{Context, Event, empty_context}
use reactifact.Context.Store.{create, update, delete}
use reactifact.Context.Inbox.{resume, revise_action, consume_events, drain_events}
use reactifact.Context.History.{log_commit, recompute_stale}
use reactifact.Context.Rebuilt.{rebuild_indices-IsSound}
use reactifact.Context.Rewound.{checkout-IsSound}
use reactifact.Context.Trimmed.{compact-IsSound}
use reactifact.Context.Applied.{log_commit-IsSound, apply_commit-IsSound}
use reactifact.Context.Rollback.{checkout, compact}
use reactifact.Context.History.{rebuild_indices, apply_commit}
use reactifact.Result.{ok}
use reactifact.Branching.{Branch, Dumps, merge_contexts, clone_context}
use reactifact.Branching.Kept.{merge_contexts-IsSound, clone_context-IsSound}
use reactifact.Context.Soundness.{
  IsSound, alike, create-IsSound, update-IsSound, delete-IsSound, resume-IsSound,
  revise_action-IsSound, credited-IsSound,
}

-- One call, or the assignment with which the runtime notes the commit of a new artifact. The id that
-- the factory or `uuid4` gives to a new artifact is not in use; `revising` is `mark_dispatched`,
-- `mark_failed` and `retry_action`. A call that raises leads nowhere. The other branch of a merge
-- is any; `forking` starts the context of a fork.
pub data Step (ctx : Context) : Context → Type 0 where
  creating :
      (fresh : String) (d : Model) (i : Option String)
      → lookup fresh ctx.artifacts ≡ none
      → Step ctx (create fresh d i ctx).0
  updating : (aid : String) (d : Model) → Step ctx (update aid d ctx).0
  deleting : (aid : String) → Step ctx (delete aid ctx).0
  linking :
      (s r t : String)
      → Step ctx (record ctx { relations = RelationGraph.link s r t ctx.relations })
  unlinking :
      (s : String) (r t : Option String)
      → Step ctx (record ctx { relations = (RelationGraph.unlink s r t ctx.relations).0 })
  answering : (now : ℕ) (qid answer : String) → Step ctx (resume now qid answer ctx).0
  revising :
      (f : PendingAction → PendingAction) (aid : String) → Step ctx (revise_action f aid ctx).0
  logging : (c : Commit) → Step ctx (log_commit c ctx)
  crediting :
      (cid : String) (a : Artifact)
      → lookup a.id ctx.artifacts ≡ some a
      → Step ctx (record ctx {
        artifacts = insert a.id (record a { created_by_commit = some cid }) ctx.artifacts;
      })
  consuming : (es : List Event) → Step ctx (consume_events es ctx)
  draining : Step ctx (drain_events ctx).0
  rescanning : Step ctx (recompute_stale ctx)
  rebuilding : Step ctx (rebuild_indices ctx)
  applying :
      (reindex : Bool) (c : Commit) (after : Context)
      → apply_commit reindex c ctx ≡ ok after
      → Step ctx after
  rolling_back : (v : ℕ) (after : Context) → checkout v ctx ≡ ok after → Step ctx after
  compacting :
      (keep_commits : ℕ) (keep_versions : Option ℕ) (after : Context) (n : ℕ)
      → compact keep_commits keep_versions ctx ≡ ok (after, n)
      → Step ctx after
  merging :
      (dumps : Dumps) (sorted : List String → List String) (cid message : String)
      (target other merged : Branch)
      → target.context ≡ ctx
      → merge_contexts dumps sorted cid message target other ≡ ok merged
      → Step ctx merged.context
  forking : Step ctx (clone_context ctx)

-- What calls lead to, one after the other.
pub data Reachable : Context → Type 0 where
  started : Reachable empty_context
  called : {ctx ctx' : Context} → Reachable ctx → Step ctx ctx' → Reachable ctx'

Step-IsSound : {ctx ctx' : Context} → Step ctx ctx' → IsSound ctx → IsSound ctx'
unfolding log_commit consume_events drain_events recompute_stale
Step-IsSound {ctx} (creating fresh d i free) h = create-IsSound fresh d i ctx free h
Step-IsSound {ctx} (updating aid d) h = update-IsSound aid d ctx h
Step-IsSound {ctx} (deleting aid) h = delete-IsSound aid ctx h
Step-IsSound {ctx} (linking s r t) h = alike ctx _ refl refl refl h
Step-IsSound {ctx} (unlinking s r t) h = alike ctx _ refl refl refl h
Step-IsSound {ctx} (answering now qid answer) h = resume-IsSound now qid answer ctx h
Step-IsSound {ctx} (revising f aid) h = revise_action-IsSound f aid ctx h
Step-IsSound {ctx} (logging c) h = log_commit-IsSound c ctx h
Step-IsSound {ctx} (crediting cid a live) h = credited-IsSound cid a ctx live h
Step-IsSound {ctx} (consuming []) h = h
Step-IsSound {ctx} (consuming (e ∷ es)) h = alike ctx _ refl refl refl h
Step-IsSound {ctx} draining h = alike ctx _ refl refl refl h
Step-IsSound {ctx} rescanning h = alike ctx _ refl refl refl h
Step-IsSound {ctx} rebuilding h =
    rebuild_indices-IsSound ctx h.indexed.artifacts_distinct h.keyed h.based
Step-IsSound {ctx} (applying reindex c after e) h = apply_commit-IsSound reindex c ctx after e h
Step-IsSound {ctx} (rolling_back v after e) h = checkout-IsSound v ctx after e h
Step-IsSound {ctx} (compacting commits versions after n e) h =
    compact-IsSound commits versions ctx after n e h
Step-IsSound {ctx} (merging dumps sorted cid message target other merged own e) h =
    merge_contexts-IsSound dumps sorted cid message target other merged e (rw own h)
Step-IsSound {ctx} forking h = clone_context-IsSound ctx h

empty-IsSound : IsSound empty_context
unfolding lookup contains
empty-IsSound = record {
  indexed = record { artifacts_distinct = tt; types_distinct = tt; typed = λ c aid. refl };
  keyed = record { keyed = λ k a e. cc; log_valid = empty_log-IsValid };
  based = tt;
}

pub Reachable-IsSound : (ctx : Context) → Reachable ctx → IsSound ctx
Reachable-IsSound _ started = empty-IsSound
Reachable-IsSound ctx (called {ctx = before} reached step) =
    Step-IsSound step (Reachable-IsSound before reached)
