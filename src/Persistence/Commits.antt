-- ===== src/Persistence/Commits.antt =====
-- What the commits of an entry do to the log of the context that they are applied to.
use reactifact.Prelude.{
  ◌+◌, String, ◌≡◌, refl, ◌∙◌, sym, ap, true, false, some, List, [], ◌∷◌, ◌++◌, arith, is_some,
  string_eq, Option-cases, inl, inr,
}
use mathlib.Core.List.{append-nil}
use reactifact.Prelude.Dict.{lookup}
use reactifact.Result.{ok, ◌>>=◌}
use reactifact.Model.{Model}
use reactifact.Operations.{Operation, create, update, delete, link, unlink}
use reactifact.Commit.{Commit}
use reactifact.CommitLog.{CommitLog, place, append}
use reactifact.CommitLog.Chain.{IsValid, IsLinked, append-IsValid}
use reactifact.Context.{
  Context, create_target, apply_create, apply_op, apply_ops, log_commit, apply_commit,
}
use reactifact.Persistence.Extensions.{Extends, Extends-trans}
use reactifact.Persistence.Load.{apply_all}

-- The operation says which artifact it creates.
abbrev pub IsTargeted : Operation → Type 0
IsTargeted (create d aid i) = is_some (create_target aid i) ≡ true
IsTargeted op = Unit

abbrev pub AllTargeted : List Operation → Type 0
AllTargeted [] = Unit
AllTargeted (op ∷ ops) = IsTargeted op × AllTargeted ops

abbrev pub AllApplicable : List Commit → Type 0
AllApplicable [] = Unit
AllApplicable (c ∷ cs) = AllTargeted c.operations × AllApplicable cs

-- The log and the count of events are the same.
abbrev SameLog : Context → Context → Type 0
SameLog ctx' ctx = (ctx'.log ≡ ctx.log) × (ctx'.next_event ≡ ctx.next_event)

apply_create-SameLog :
    (cid : String) (d : Model) (aid : String) (ctx : Context)
    → SameLog (apply_create cid d aid ctx) ctx
unfolding apply_create
apply_create-SameLog cid d aid ctx = elim (Option-cases (lookup aid ctx.artifacts)) [
  | inl e ↦ rw (e, apply_create) (refl, refl)
  | inr (a, e) ↦ rw (e, apply_create) (refl, refl)
]

apply_op-SameLog :
    (cid : String) (op : Operation) (ctx : Context)
    → IsTargeted op
    → (ctx' : Context) × (apply_op cid op ctx ≡ ok ctx') × SameLog ctx' ctx
unfolding apply_op
apply_op-SameLog cid (create d aid i) ctx h = elim (Option-cases (create_target aid i)) [
  | inl e ↦ absurd (ground (arith, h, e))
  | inr (t, e) ↦ rw (e, apply_op) (apply_create cid d t ctx, refl, apply_create-SameLog cid d t ctx)
]
apply_op-SameLog cid (update aid d) ctx h = elim (Option-cases (lookup aid ctx.artifacts)) [
  | inl e ↦ rw (e, apply_op) (_, refl, (refl, refl))
  | inr (a, e) ↦ rw (e, apply_op) (_, refl, (refl, refl))
]
apply_op-SameLog cid (delete aid) ctx h = elim (Option-cases (lookup aid ctx.artifacts)) [
  | inl e ↦ rw (e, apply_op) (_, refl, (refl, refl))
  | inr (a, e) ↦ rw (e, apply_op) (_, refl, (refl, refl))
]
apply_op-SameLog cid (link a r t) ctx h = (_, refl, (refl, refl))
apply_op-SameLog cid (unlink a r t) ctx h = (_, refl, (refl, refl))

apply_ops-SameLog :
    (cid : String) (ops : List Operation) (ctx : Context)
    → AllTargeted ops
    → (ctx' : Context) × (apply_ops cid ops ctx ≡ ok ctx') × SameLog ctx' ctx
unfolding apply_ops
apply_ops-SameLog cid [] ctx h = (ctx, refl, (refl, refl))
apply_ops-SameLog cid (op ∷ ops) ctx h =
    let one = apply_op-SameLog cid op ctx h.0 in
    let rest = apply_ops-SameLog cid ops one.0 h.1 in
    (
      rest.0,
      ap (λ r. r >>= apply_ops cid ops) one.1 ∙ rest.1,
      (rest.2.0 ∙ one.2.0, rest.2.1 ∙ one.2.1),
    )

-- The context after the commits: its log has them at the end, and is valid.
pub record Grown (cs : List Commit) (old new : Context) : Type 0 where
  pub chained : IsValid new.log
  pub extended : Extends cs old.log new.log
  pub numbered : new.next_event ≡ old.next_event

-- A commit that fits the end of the log is placed there as it is.
place_linked :
    (c : Commit) (log : CommitLog)
    → c.parent_id ≡ log.head_id
    → c.context_version ≡ some (log.version + 1)
    → place c log ≡ c
unfolding place
place_linked c log p v =
    ap (λ x. record c { parent_id = x; context_version = some (log.version + 1) }) (sym p)
    ∙ ap (λ x. record c { context_version = x }) (sym v)

apply_commit-Grown :
    (c : Commit) (ctx : Context)
    → IsValid ctx.log
    → AllTargeted c.operations
    → c.parent_id ≡ ctx.log.head_id
    → c.context_version ≡ some (ctx.log.version + 1)
    → (new : Context) × (apply_commit false c ctx ≡ ok new)
      × Grown (c ∷ []) ctx new
      × (new.log ≡ append c ctx.log)
unfolding apply_commit log_commit append
apply_commit-Grown c ctx h t p v =
    let (mid, done, (same, numbered)) = apply_ops-SameLog c.id c.operations ctx t in
    (
      log_commit c mid,
      ap (λ r. r >>= λ x. ok (log_commit c x)) done,
      rw same (record {
        chained = append-IsValid c ctx.log h;
        extended = record {
          commits = ap (λ x. ctx.log.commits ++ x ∷ []) (place_linked c ctx.log p v);
          baseline = refl;
          baseline_relations = refl;
          baseline_version = refl;
          baseline_head_id = refl;
        };
        numbered = numbered;
      }),
      ap (append c) same,
    )

pub apply_all-Grown :
    (cs : List Commit) (ctx : Context)
    → IsValid ctx.log
    → AllApplicable cs
    → IsLinked ctx.log.version ctx.log.head_id cs
    → (new : Context) × (apply_all cs ctx ≡ ok new) × Grown cs ctx new
unfolding apply_all append
apply_all-Grown [] ctx h t l = (
  ctx,
  refl,
  record {
    chained = h;
    extended = record {
      commits = sym (append-nil ctx.log.commits);
      baseline = refl;
      baseline_relations = refl;
      baseline_version = refl;
      baseline_head_id = refl;
    };
    numbered = refl;
  },
)
apply_all-Grown (c ∷ cs) ctx h t l =
    let (mid, done, g, logged) = apply_commit-Grown c ctx h t.0 l.0 l.1 in
    let (new, all, rest) = apply_all-Grown cs mid g.chained t.1 (rw logged l.2) in
    (
      new,
      ap (λ r. r >>= apply_all cs) done ∙ all,
      record {
        chained = rest.chained;
        extended = Extends-trans c cs ctx.log mid.log new.log g.extended rest.extended;
        numbered = rest.numbered ∙ g.numbered;
      },
    )
