-- ===== src/Branching/Kept.antt =====
-- A merge, and a fork, leave the store, the type index and the log of the target in order.
use reactifact.Prelude.{
  String, ◌≡◌, refl, Option, none, some, List, [], ◌∷◌, ◌++◌, inl, inr, Option-cases, string_eq,
}
use reactifact.Prelude.Dict.{
  Dict, lookup, insert, remove, insert-IsDistinct, remove-IsDistinct, IsDistinct,
}
use reactifact.Result.{ok}
use reactifact.Model.{Model, class_of}
use reactifact.Artifact.{Artifact, new, revise}
use reactifact.Operations.{Operation, create, update, delete, link, unlink}
use reactifact.CommitLog
use reactifact.CommitLog.{CommitLog, append}
use reactifact.CommitLog.Chain.{IsValid, append-IsValid}
use reactifact.Branching.Merge.{merged_plan}
use reactifact.Context.{
  Context, empty_context, log_commit, recompute_stale, reindex_by_type, rebuild_indices,
}
use reactifact.Context.Soundness.{IsSound, IsKept, insert-IsKept, remove-IsKept, alike}
use reactifact.Context.Rebuilt.{rebuild_indices-IsSound}
use reactifact.Branching.{
  Branch, Dumps, Plan, Verdict, keep, conflict, drop, adopt, plan_one, plan_merge, remove_all,
  removed_ids, store_one, store_all, adopt_links, merge_commit, apply_plan, clone_artifacts,
  clone_context, merge_contexts,
}

remove_all_keeps :
    (ops : List Operation) (arts : Dict String Artifact)
    → IsDistinct arts
    → IsKept arts
    → IsDistinct (remove_all ops arts) × IsKept (remove_all ops arts)
unfolding remove_all
remove_all_keeps [] arts d h = (d, h)
remove_all_keeps (create x aid i ∷ ops) arts d h = remove_all_keeps ops arts d h
remove_all_keeps (update aid x ∷ ops) arts d h = remove_all_keeps ops arts d h
remove_all_keeps (delete aid ∷ ops) arts d h =
    remove_all_keeps ops (remove aid arts) (remove-IsDistinct aid arts d) (remove-IsKept aid arts h)
remove_all_keeps (link s r t ∷ ops) arts d h = remove_all_keeps ops arts d h
remove_all_keeps (unlink s r t ∷ ops) arts d h = remove_all_keeps ops arts d h

store_one_keeps :
    (aid : String) (x : Model) (arts : Dict String Artifact)
    → IsDistinct arts
    → IsKept arts
    → IsDistinct (store_one aid x arts) × IsKept (store_one aid x arts)
unfolding store_one
store_one_keeps aid x arts d h = elim (Option-cases (lookup aid arts)) [
  | inl e ↦
      rw (e, store_one)
        (
          insert-IsDistinct aid (new x aid none) arts d,
          insert-IsKept aid (new x aid none) arts (unfold new in refl) h,
        )
  | inr (a, e) ↦
      rw (e, store_one)
        (
          insert-IsDistinct aid (revise a x) arts d,
          insert-IsKept aid (revise a x) arts (unfold revise in h aid a e) h,
        )
]

store_all_keeps :
    (ps : Dict String Model) (arts : Dict String Artifact)
    → IsDistinct arts
    → IsKept arts
    → IsDistinct (store_all ps arts) × IsKept (store_all ps arts)
unfolding store_all
store_all_keeps [] arts d h = (d, h)
store_all_keeps ((aid, x) ∷ ps) arts d h =
    let (d', h') = store_one_keeps aid x arts d h in store_all_keeps ps (store_one aid x arts) d' h'

-- A plan that stores data has an operation.
plan_one-empty :
    (v : Verdict) (aid : String) (t : Option Artifact) (p : Plan)
    → (p.operations ≡ [] → p.pending ≡ [])
    → (plan_one v aid t p).operations ≡ []
    → (plan_one v aid t p).pending ≡ []
unfolding plan_one
plan_one-empty keep aid t p h e = h e
plan_one-empty conflict aid t p h e = h e
plan_one-empty drop aid t p h e = cc e
plan_one-empty (adopt x) aid none p h e = cc e
plan_one-empty (adopt x) aid (some a) p h e = cc e

plan_merge-empty :
    (dumps : Dumps) (ids : List String) (base target other : Context)
    → (plan_merge dumps ids base target other).operations ≡ []
    → (plan_merge dumps ids base target other).pending ≡ []
unfolding plan_merge
plan_merge-empty dumps [] base target other e = refl
plan_merge-empty dumps (aid ∷ ids) base target other e =
    plan_one-empty _ aid (lookup aid target.artifacts) (plan_merge dumps ids base target other)
      (plan_merge-empty dumps ids base target other) e

module _ (cid message : String) (p : Plan) (target other : Context)
    (idle : p.operations ≡ [] → p.pending ≡ []) (h : IsSound target) where
  abbrev merged : Context
  merged = record target {
    artifacts = store_all p.pending (remove_all p.operations target.artifacts);
    relations = (adopt_links (removed_ids p.operations) other.relations target.relations).0;
  }

  merged_keeps : IsDistinct merged.artifacts × IsKept merged.artifacts
  merged_keeps =
      let (d, k) =
        remove_all_keeps p.operations target.artifacts h.indexed.artifacts_distinct h.keyed.keyed in
      store_all_keeps p.pending (remove_all p.operations target.artifacts) d k

  unmoved : p.operations ≡ [] → merged.artifacts ≡ target.artifacts
  unfolding store_all remove_all
  unmoved e = rw (e, idle e) refl

  applied-IsSound :
      (ops : List Operation)
      → (ops ≡ [] → p.operations ≡ [])
      → IsSound (elim ops as (λ x. Context) [
        | [] ↦ merged
        | op ∷ ops' ↦
            reindex_by_type
              (recompute_stale (log_commit (merge_commit cid message (op ∷ ops')) merged))
      ])
  applied-IsSound [] none_left = alike target merged (unmoved (none_left refl)) refl refl h
  applied-IsSound (op ∷ ops) none_left =
      let logged = log_commit (merge_commit cid message (op ∷ ops)) merged in
      unfold rebuild_indices in
      rebuild_indices-IsSound logged (unfold log_commit in merged_keeps.0)
        (unfold log_commit in
          record {
            keyed = merged_keeps.1;
            log_valid =
                append-IsValid (merge_commit cid message (op ∷ ops)) target.log h.keyed.log_valid;
          })
        (unfold log_commit append in h.based)

  apply_plan-IsSound : IsSound (apply_plan cid message p target other)
  unfolding apply_plan
  apply_plan-IsSound =
      let links = (adopt_links (removed_ids p.operations) other.relations target.relations).1 in
      applied-IsSound (p.operations ++ links) (first_empty p.operations links)
    where
      first_empty : (xs ys : List Operation) → xs ++ ys ≡ [] → xs ≡ []
      first_empty [] ys e = refl
      first_empty (x ∷ xs) ys e = cc e

-- A merge that returns leaves the context of the target in order.
pub merge_contexts-IsSound :
    (dumps : Dumps) (sorted : List String → List String) (cid message : String)
    (target other merged : Branch)
    → merge_contexts dumps sorted cid message target other ≡ ok merged
    → IsSound target.context
    → IsSound merged.context
merge_contexts-IsSound dumps sorted cid message target other merged e h =
    let (quiet, none_left, same) = merged_plan dumps sorted cid message target other merged e in
    rw same (
      apply_plan-IsSound cid message _ target.context other.context
        (plan_merge-empty dumps _ _ target.context other.context) h)

clone_artifacts_keeps :
    (arts done : Dict String Artifact)
    → IsDistinct done
    → IsKept done
    → IsDistinct (clone_artifacts arts done) × IsKept (clone_artifacts arts done)
unfolding clone_artifacts
clone_artifacts_keeps [] done d h = (d, h)
clone_artifacts_keeps ((aid, a) ∷ arts) done d h =
    let b : Artifact = record a { data_class = class_of a.data_ } in
    clone_artifacts_keeps arts (insert a.id b done) (insert-IsDistinct a.id b done d)
      (insert-IsKept a.id b done refl h)

copy-IsValid : (log : CommitLog) → IsValid log → IsValid (CommitLog.copy log)
unfolding CommitLog.copy
copy-IsValid log h = record {
  counted = h.counted;
  indexed = refl;
  headed = h.headed;
  linked = h.linked;
  rooted = h.rooted;
  rooted_edges = h.rooted_edges;
  rooted_head = h.rooted_head;
}

-- So is the clone of a context that a fork starts with.
pub clone_context-IsSound : (ctx : Context) → IsSound ctx → IsSound (clone_context ctx)
unfolding clone_context
clone_context-IsSound ctx h =
    let start : Context = record empty_context {
      artifacts = clone_artifacts ctx.artifacts [];
      log = CommitLog.copy ctx.log;
      relations = ctx.relations;
    } in
    let (d, k) = clone_artifacts_keeps ctx.artifacts [] tt (λ k a e. unfold lookup in cc e) in
    unfold rebuild_indices in
    rebuild_indices-IsSound start d
      (record { keyed = k; log_valid = copy-IsValid ctx.log h.keyed.log_valid })
      (unfold CommitLog.copy in h.based)
