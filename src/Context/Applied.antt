-- ===== src/Context/Applied.antt =====
-- What `apply_commit` makes of a context in order.
use text.Mathlib.TextEquality.{eq_iff}
use reactifact.Prelude.{
  String, ◌≡◌, refl, ◌∙◌, Bool, true, false, none, some, List, [], ◌∷◌, arith, ◌==◌, if◌then◌else◌,
  inl, inr, Option-cases, string_eq, ==_iff,
}
use reactifact.Prelude.Dict.{
  Dict, lookup, insert, remove, lookup-insert, lookup-remove, insert-IsDistinct, remove-IsDistinct,
  IsDistinct,
}
use reactifact.Prelude.Sets.{contains}
use reactifact.Result.{ok, >>=-eq-ok}
use reactifact.Model.{Model, Class, class_of, class_eq}
use reactifact.Artifact.{Artifact, new, revise}
use reactifact.Operations.{Operation, create, update, delete, link, unlink}
use reactifact.RelationGraph
use reactifact.Commit.{Commit}
use reactifact.CommitLog.{append}
use reactifact.CommitLog.Chain.{append-IsValid}
use reactifact.Context.State.{Context, add_typed, discard_typed}
use reactifact.Context.Store.{retype}
use reactifact.Context.History.{
  log_commit, apply_create, create_target, apply_op, apply_ops, apply_commit, rebuild_indices,
}
use reactifact.Context.TypeIndex.{
  get_typed, contains-add_typed, contains-discard_typed, discard_typed-IsDistinct, contains-retype,
  retype-IsDistinct,
}
use reactifact.Context.Soundness.{IsSound, insert-IsKept, remove-IsKept, alike}
use reactifact.Context.Rebuilt.{rebuild_indices-IsSound}

module _ (aid : String) (ctx : Context) (h : IsSound ctx) where
  -- An artifact stored under its id, and filed under its class alone.
  refiled :
      (b : Artifact) (bt : Dict Class (List String))
      → b.id ≡ aid
      → IsDistinct bt
      → ((c : Class) (k : String)
          → contains k (get_typed c bt)
            ≡ (if aid == k then class_of b.data_ == c else contains k (get_typed c ctx.by_type)))
      → IsSound (record ctx { artifacts = insert aid b ctx.artifacts; by_type = bt })
  refiled b bt own distinct filed = record {
    indexed = record {
      artifacts_distinct = insert-IsDistinct aid b ctx.artifacts h.indexed.artifacts_distinct;
      types_distinct = distinct;
      typed = λ c k.
          ground (arith, filed c k, lookup-insert k aid b ctx.artifacts, h.indexed.typed c k);
    };
    keyed = record {
      keyed = insert-IsKept aid b ctx.artifacts own h.keyed.keyed;
      log_valid = h.keyed.log_valid;
    };
    based = h.based;
  }

  added :
      (d : Model) (cid : String)
      → lookup aid ctx.artifacts ≡ none
      → IsSound (record ctx {
        artifacts = insert aid (new d aid (some cid)) ctx.artifacts;
        by_type = add_typed (class_of d) aid ctx.by_type;
      })
  added d cid free =
      refiled (new d aid (some cid)) (add_typed (class_of d) aid ctx.by_type) (unfold new in refl)
        (unfold add_typed in insert-IsDistinct (class_of d) _ ctx.by_type h.indexed.types_distinct)
        (λ c k.
          unfold new in
          ground (
            arith,
            contains-add_typed (class_of d) c aid k ctx.by_type,
            h.indexed.typed c k,
            eq_iff aid k,
            free,
          ))

  rewritten :
      (a : Artifact) (d : Model)
      → lookup aid ctx.artifacts ≡ some a
      → IsSound (record ctx {
        artifacts = insert aid (revise a d) ctx.artifacts;
        by_type = add_typed (class_of d) aid (discard_typed (class_of a.data_) aid ctx.by_type);
      })
  rewritten a d there =
      let rest = discard_typed (class_of a.data_) aid ctx.by_type in
      refiled (revise a d) (add_typed (class_of d) aid rest)
        (unfold revise in h.keyed.keyed aid a there)
        (unfold add_typed in
          insert-IsDistinct (class_of d) _ rest
            (discard_typed-IsDistinct (class_of a.data_) aid ctx.by_type h.indexed.types_distinct))
        (λ c k.
          unfold revise in
          ground (
            arith,
            contains-add_typed (class_of d) c aid k rest,
            contains-discard_typed (class_of a.data_) c aid k ctx.by_type,
            h.indexed.typed c k,
            eq_iff aid k,
            ==_iff (class_of a.data_) c,
            ==_iff (class_of d) c,
            there,
          ))

  moved :
      (a : Artifact) (d : Model)
      → lookup aid ctx.artifacts ≡ some a
      → IsSound (record ctx {
        artifacts = insert aid (revise a d) ctx.artifacts;
        by_type = retype aid (class_of a.data_) (class_of d) ctx.by_type;
      })
  moved a d there =
      refiled (revise a d) (retype aid (class_of a.data_) (class_of d) ctx.by_type)
        (unfold revise in h.keyed.keyed aid a there)
        (retype-IsDistinct aid (class_of a.data_) (class_of d) ctx.by_type h.indexed.types_distinct)
        (λ c k.
          unfold revise in
          contains-retype aid k (class_of a.data_) (class_of d) c ctx.by_type
            (λ c'. h.indexed.typed c' aid ∙ rw there))

  dropped :
      (a : Artifact)
      → lookup aid ctx.artifacts ≡ some a
      → IsSound (record ctx {
        artifacts = remove aid ctx.artifacts;
        by_type = discard_typed (class_of a.data_) aid ctx.by_type;
      })
  dropped a there = record {
    indexed = record {
      artifacts_distinct = remove-IsDistinct aid ctx.artifacts h.indexed.artifacts_distinct;
      types_distinct =
          discard_typed-IsDistinct (class_of a.data_) aid ctx.by_type h.indexed.types_distinct;
      typed = λ c k. ground (
        arith,
        contains-discard_typed (class_of a.data_) c aid k ctx.by_type,
        lookup-remove k aid ctx.artifacts,
        h.indexed.typed c k,
        h.indexed.typed c aid,
        eq_iff aid k,
        there,
        ==_iff (class_of a.data_) c,
      );
    };
    keyed = record {
      keyed = remove-IsKept aid ctx.artifacts h.keyed.keyed;
      log_valid = h.keyed.log_valid;
    };
    based = h.based;
  }

apply_create-IsSound :
    (cid : String) (d : Model) (aid : String) (ctx : Context)
    → IsSound ctx
    → IsSound (apply_create cid d aid ctx)
unfolding apply_create
apply_create-IsSound cid d aid ctx h = elim (Option-cases (lookup aid ctx.artifacts)) [
  | inl e ↦ rw (e, apply_create) (added aid ctx h d cid e)
  | inr (a, e) ↦ rw (e, apply_create) (rewritten aid ctx h a d e)
]

apply_op-IsSound :
    (cid : String) (op : Operation) (ctx after : Context)
    → apply_op cid op ctx ≡ ok after
    → IsSound ctx
    → IsSound after
unfolding apply_op
apply_op-IsSound cid (create d aid i) ctx after e h = elim (Option-cases (create_target aid i)) [
  | inl missing ↦ absurd (ground (arith, e, missing))
  | inr (target, named) ↦
      let same : apply_create cid d target ctx ≡ after = ground (arith, e, named) in
      rw (← same) (apply_create-IsSound cid d target ctx h)
]
apply_op-IsSound cid (update aid d) ctx after e h = elim (Option-cases (lookup aid ctx.artifacts)) [
  | inl missing ↦ let same : ctx ≡ after = ground (arith, e, missing) in rw (← same) h
  | inr (a, there) ↦
      let same : (record ctx {
        artifacts = insert aid (revise a d) ctx.artifacts;
        by_type = retype aid (class_of a.data_) (class_of d) ctx.by_type;
      })
          ≡ after =
        ground (arith, e, there) in
      rw (← same) (moved aid ctx h a d there)
]
apply_op-IsSound cid (delete aid) ctx after e h = elim (Option-cases (lookup aid ctx.artifacts)) [
  | inl missing ↦ let same : ctx ≡ after = ground (arith, e, missing) in rw (← same) h
  | inr (a, there) ↦
      let same : (record ctx {
        artifacts = remove aid ctx.artifacts;
        by_type = discard_typed (class_of a.data_) aid ctx.by_type;
      })
          ≡ after =
        ground (arith, e, there) in
      rw (← same) (dropped aid ctx h a there)
]
apply_op-IsSound cid (link s r t) ctx after e h =
    let same : (record ctx { relations = RelationGraph.link s r t ctx.relations }) ≡ after = cc e in
    rw (← same) (alike ctx _ refl refl refl h)
apply_op-IsSound cid (unlink s r t) ctx after e h =
    let same : (record ctx { relations = (RelationGraph.unlink s r t ctx.relations).0 }) ≡ after =
      cc e in
    rw (← same) (alike ctx _ refl refl refl h)

apply_ops-IsSound :
    (cid : String) (ops : List Operation) (ctx after : Context)
    → apply_ops cid ops ctx ≡ ok after
    → IsSound ctx
    → IsSound after
unfolding apply_ops
apply_ops-IsSound cid [] ctx after e h = let same : ctx ≡ after = cc e in rw (← same) h
apply_ops-IsSound cid (op ∷ ops) ctx after e h =
    let (between, done, rest) = >>=-eq-ok (apply_op cid op ctx) (apply_ops cid ops) e in
    apply_ops-IsSound cid ops between after rest (apply_op-IsSound cid op ctx between done h)

pub log_commit-IsSound : (c : Commit) (ctx : Context) → IsSound ctx → IsSound (log_commit c ctx)
unfolding log_commit
log_commit-IsSound c ctx h = record {
  indexed = record {
    artifacts_distinct = h.indexed.artifacts_distinct;
    types_distinct = h.indexed.types_distinct;
    typed = h.indexed.typed;
  };
  keyed = record { keyed = h.keyed.keyed; log_valid = append-IsValid c ctx.log h.keyed.log_valid };
  based = unfold append in h.based;
}

pub apply_commit-IsSound :
    (reindex : Bool) (c : Commit) (ctx after : Context)
    → apply_commit reindex c ctx ≡ ok after
    → IsSound ctx
    → IsSound after
unfolding apply_commit
apply_commit-IsSound reindex c ctx after e h =
    let (applied, done, rest) = >>=-eq-ok (apply_ops c.id c.operations ctx) _ e in
    let logged =
      log_commit-IsSound c applied (apply_ops-IsSound c.id c.operations ctx applied done h) in
    finish reindex applied rest logged
  where
    finish :
        (again : Bool) (applied : Context)
        → ok (if again then rebuild_indices (log_commit c applied) else log_commit c applied)
          ≡ ok after
        → IsSound (log_commit c applied)
        → IsSound after
    finish true applied same logged =
        let is_it : rebuild_indices (log_commit c applied) ≡ after = cc same in
        rw (← is_it) (
          rebuild_indices-IsSound (log_commit c applied) logged.indexed.artifacts_distinct
            logged.keyed logged.based)
    finish false applied same logged =
        let is_it : log_commit c applied ≡ after = cc same in rw (← is_it) logged
