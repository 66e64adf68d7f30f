-- ===== src/Runtime/Reached.antt =====
-- A patch that the runtime commits is a sequence of calls of the context.
use reactifact.Prelude.{
  ℕ, ◌+◌, String, ◌≡◌, refl, ap, ◌∙◌, Option, none, some, List, [], ◌∷◌, inl, inr, Option-cases,
  ==_refl, string_eq,
}
use reactifact.Prelude.Dict.{lookup, insert, lookup-insert}
use reactifact.Model.{Model}
use reactifact.Artifact.{new}
use reactifact.Operations
use reactifact.Operations.{Operation}
use reactifact.Commit.{Read}
use reactifact.Context
use reactifact.Context.{Context, chosen_id, create_new}
use reactifact.Context.Reachable.{
  Reachable, called, creating, updating, deleting, linking, unlinking, logging, crediting,
  Reachable-IsSound,
}
use reactifact.Context.Soundness.{IsSound}
use reactifact.Runtime.Agents.{Agent}
use reactifact.Runtime.Patches.{
  apply_new, apply_op, apply_patch, commit_patch, patch_commit, credit,
}

-- The id that each operation would get is not in use when its turn comes.
abbrev pub IsFresh : (ℕ → String) → String → List Operation → Context → Type 0
IsFresh fresh cid [] ctx = Unit
IsFresh fresh cid (op ∷ ops) ctx =
    (lookup (fresh 0) ctx.artifacts ≡ none)
    × IsFresh (λ n. fresh (n + 1)) cid ops (apply_op (fresh 0) cid op ctx).context

-- What `create` returns is what it stored, or found.
lookup-create :
    (fresh : String) (d : Model) (i : Option String) (ctx : Context)
    → Reachable ctx
    → lookup (Context.create fresh d i ctx).1.id (Context.create fresh d i ctx).0.artifacts
      ≡ some (Context.create fresh d i ctx).1
unfolding Context.create create_new new
lookup-create fresh d none ctx reached =
    lookup-insert fresh fresh _ ctx.artifacts ∙ rw (==_refl fresh) refl
lookup-create fresh d (some i) ctx reached = elim (Option-cases (lookup i ctx.artifacts)) [
  | inl e ↦ rw (e, Context.create) (stored (chosen_id fresh (some i)))
  | inr (a, e) ↦
      rw (e, Context.create)
        (ap (λ k. lookup k ctx.artifacts) ((Reachable-IsSound ctx reached).keyed.keyed i a e) ∙ e)
]
  where
    stored :
        (aid : String)
        → lookup aid (insert aid (new d aid none) ctx.artifacts) ≡ some (new d aid none)
    stored aid = lookup-insert aid aid (new d aid none) ctx.artifacts ∙ rw (==_refl aid) refl

apply_new-Reachable :
    (fresh cid : String) (d : Model) (i : Option String) (ctx : Context)
    → lookup fresh ctx.artifacts ≡ none
    → Reachable ctx
    → Reachable (apply_new fresh cid d i ctx).context
unfolding apply_new credit
apply_new-Reachable fresh cid d i ctx free reached =
    called (called reached (creating fresh d i free))
      (crediting cid (Context.create fresh d i ctx).1 (lookup-create fresh d i ctx reached))

apply_op-Reachable :
    (fresh cid : String) (op : Operation) (ctx : Context)
    → lookup fresh ctx.artifacts ≡ none
    → Reachable ctx
    → Reachable (apply_op fresh cid op ctx).context
unfolding apply_op Context.get
apply_op-Reachable fresh cid (Operations.create d aid none) ctx free reached =
    apply_new-Reachable fresh cid d none ctx free reached
apply_op-Reachable fresh cid (Operations.create d aid (some i)) ctx free reached =
    elim (Option-cases (lookup i ctx.artifacts)) [
      | inl e ↦ rw (e, apply_op) (apply_new-Reachable fresh cid d (some i) ctx free reached)
      | inr (a, e) ↦ rw (e, apply_op) (called reached (updating i d))
    ]
apply_op-Reachable fresh cid (Operations.update aid d) ctx free reached =
    called reached (updating aid d)
apply_op-Reachable fresh cid (Operations.delete aid) ctx free reached =
    called reached (deleting aid)
apply_op-Reachable fresh cid (Operations.link s r t) ctx free reached =
    called reached (linking s r t)
apply_op-Reachable fresh cid (Operations.unlink s r t) ctx free reached =
    called reached (unlinking s r t)

apply_patch-Reachable :
    (fresh : ℕ → String) (cid : String) (ops : List Operation) (ctx : Context)
    → IsFresh fresh cid ops ctx
    → Reachable ctx
    → Reachable (apply_patch fresh cid ops ctx).context
unfolding apply_patch
apply_patch-Reachable fresh cid [] ctx free reached = reached
apply_patch-Reachable fresh cid (op ∷ ops) ctx free reached =
    apply_patch-Reachable (λ n. fresh (n + 1)) cid ops (apply_op (fresh 0) cid op ctx).context
      free.1 (apply_op-Reachable (fresh 0) cid op ctx free.0 reached)

pub commit_patch-IsSound :
    (fresh : ℕ → String) (cid : String) (agent : Agent) (reads : List Read) (ops : List Operation)
    (ctx : Context)
    → IsFresh fresh cid ops ctx
    → Reachable ctx
    → Reachable (commit_patch fresh cid agent reads ops ctx)
      × IsSound (commit_patch fresh cid agent reads ops ctx)
unfolding commit_patch
commit_patch-IsSound fresh cid agent reads ops ctx free reached =
    let committed =
      called (apply_patch-Reachable fresh cid ops ctx free reached)
        (logging (patch_commit cid agent reads (apply_patch fresh cid ops ctx))) in
    (committed, Reachable-IsSound (commit_patch fresh cid agent reads ops ctx) committed)
