-- ===== src/Runtime/Patches.antt =====
-- The application of a patch to the context, and the commit that records it.
use reactifact.Prelude.{ℕ, ◌+◌, String, Option, none, some, List, [], ◌∷◌, ◌++◌, string_eq}
use reactifact.Prelude.Dict.{insert}
use reactifact.Model.{Model, class_eq}
use reactifact.Artifact.{Artifact}
use reactifact.Operations.{Operation, create, update, delete, link, unlink}
use reactifact.RelationGraph
use reactifact.Commit.{Commit, Read, Write, OpType}
use reactifact.Context
use reactifact.Context.{Context, log_commit}
use reactifact.Runtime.Agents.{Agent}
use Prim.Native.String.{◌++◌ as text_append}

-- `created.created_by_commit = commit.id` on the stored object
unfoldable pub credit : String → Artifact → Context → Context
credit cid a ctx = record ctx {
  artifacts = insert a.id (record a { created_by_commit = some cid }) ctx.artifacts;
}

unfoldable pub written : String → OpType → Option Artifact → List Write
written aid t none = []
written aid t (some a) = record { artifact_id = aid; version = a.version; op_type = t } ∷ []

abbrev pub version_of : Option Artifact → ℕ
version_of none = 0
version_of (some a) = a.version

pub record Applied : Type 0 where
  pub context : Context
  pub operation : Operation
  pub writes : List Write

-- A create of an id that is not in use.
unfoldable pub apply_new : String → String → Model → Option String → Context → Applied
unfolding Context.create credit
apply_new fresh cid d i ctx =
    let (ctx', a) = Context.create fresh d i ctx in
    record {
      context = credit cid a ctx';
      operation = create d (some a.id) i;
      writes = record { artifact_id = a.id; version = a.version; op_type = OpType.create } ∷ [];
    }

-- One operation of `_apply_patch`; `fresh` is the id that a create without one gets.
unfoldable pub apply_op : String → String → Operation → Context → Applied
unfolding apply_new written Context.get Context.update Context.delete RelationGraph.link
    RelationGraph.unlink
apply_op fresh cid (create d aid none) ctx = apply_new fresh cid d none ctx
apply_op fresh cid (create d aid (some i)) ctx = elim (Context.get i ctx) [
  | none ↦ apply_new fresh cid d (some i) ctx
  | some a ↦
      let (ctx', upserted) = Context.update i d ctx in
      record {
        context = ctx';
        operation = create d (some i) (some i);
        writes = written i OpType.update upserted;
      }
]
apply_op fresh cid (update aid d) ctx =
    let (ctx', updated) = Context.update aid d ctx in
    record { context = ctx'; operation = update aid d; writes = written aid OpType.update updated }
apply_op fresh cid (delete aid) ctx = record {
  context = (Context.delete aid ctx).0;
  operation = delete aid;
  writes =
      record {
        artifact_id = aid;
        version = version_of (Context.get aid ctx);
        op_type = OpType.delete;
      }
      ∷ [];
}
apply_op fresh cid (link s r t) ctx = record {
  context = record ctx { relations = RelationGraph.link s r t ctx.relations };
  operation = link s r t;
  writes = [];
}
apply_op fresh cid (unlink s r t) ctx = record {
  context = record ctx { relations = (RelationGraph.unlink s r t ctx.relations).0 };
  operation = unlink s r t;
  writes = [];
}

pub record Patched : Type 0 where
  pub context : Context
  pub operations : List Operation
  pub writes : List Write

-- `_apply_patch`; `fresh n` is the new id at the n-th operation from here.
unfoldable pub apply_patch : (ℕ → String) → String → List Operation → Context → Patched
unfolding apply_op
apply_patch fresh cid [] ctx = record { context = ctx; operations = []; writes = [] }
apply_patch fresh cid (op ∷ ops) ctx =
    let a = apply_op (fresh 0) cid op ctx in
    let rest = apply_patch (λ n. fresh (n + 1)) cid ops a.context in
    record {
      context = rest.context;
      operations = a.operation ∷ rest.operations;
      writes = a.writes ++ rest.writes;
    }

-- The commit that records an applied patch.
unfoldable pub patch_commit : String → Agent → List Read → Patched → Commit
patch_commit cid agent reads p = record {
  id = cid;
  author = agent.name;
  message = text_append "Applied patch from agent '" (text_append agent.name "'");
  operations = p.operations;
  parent_id = none;
  context_version = none;
  reads = reads;
  writes = p.writes;
}

-- The body of the loop of `_commit_patches_to_apply`; `cid` is the id that the commit gets.
unfoldable pub commit_patch :
    (ℕ → String) → String → Agent → List Read → List Operation → Context → Context
unfolding apply_patch log_commit patch_commit
commit_patch fresh cid agent reads ops ctx =
    let p = apply_patch fresh cid ops ctx in log_commit (patch_commit cid agent reads p) p.context
