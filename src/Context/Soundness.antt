-- ===== src/Context/Soundness.antt =====
-- What each operation of a context keeps in order: the store, the type index and the log.
use text.Mathlib.TextEquality.{eq_iff}
use reactifact.Prelude.{
  ℕ, String, ◌≡◌, refl, true, Option, none, some, arith, ◌==◌, ◌∙◌, inl, inr, Bool-cases,
  Option-cases, string_eq,
}
use reactifact.Prelude.Dict.{
  Dict, lookup, insert, remove, lookup-insert, lookup-remove, insert-IsDistinct, IsDistinct,
}
use reactifact.Model.{Model, question, action, plain, PendingAction, model_eq}
use reactifact.Artifact.{Artifact, new, revise}
use reactifact.CommitLog.Replayed.{base_state}
use reactifact.Context.State.{Context, dependents_of, emit}
use reactifact.Context.Store.{
  chosen_id, create_new, create, update, delete, store_update, mark_stale,
}
use reactifact.Context.Inbox.{resume, revise_action}
use reactifact.Context.TypeIndex.{IsIndexed, mark_stale_keeps}
use reactifact.Context.Listing.{create-IsIndexed, update-IsIndexed, delete-IsIndexed}
use reactifact.Context.Staleness.{IsKeyed}

-- The store, the type index and the log fit together, and the snapshot of a compacted log has
-- distinct ids.
pub record IsSound (ctx : Context) : Type 0 where
  pub indexed : IsIndexed ctx
  pub keyed : IsKeyed ctx
  pub based : IsDistinct (base_state ctx.log)

-- Only the store, the index and the log count.
pub alike :
    (ctx ctx' : Context)
    → ctx'.artifacts ≡ ctx.artifacts
    → ctx'.by_type ≡ ctx.by_type
    → ctx'.log ≡ ctx.log
    → IsSound ctx
    → IsSound ctx'
alike ctx ctx' arts types log h = record {
  indexed = record {
    artifacts_distinct = rw arts h.indexed.artifacts_distinct;
    types_distinct = rw types h.indexed.types_distinct;
    typed = λ c aid. rw (types, arts) (h.indexed.typed c aid);
  };
  keyed = record { keyed = rw arts h.keyed.keyed; log_valid = rw log h.keyed.log_valid };
  based = rw log h.based;
}

abbrev pub IsKept : Dict String Artifact → Type 0
IsKept arts = (k : String) (a : Artifact) → lookup k arts ≡ some a → a.id ≡ k

pub insert-IsKept :
    (aid : String) (a : Artifact) (arts : Dict String Artifact)
    → a.id ≡ aid
    → IsKept arts
    → IsKept (insert aid a arts)
insert-IsKept aid a arts same h k b e =
    ground (arith, lookup-insert k aid a arts, e, h k b, same, eq_iff aid k)

pub remove-IsKept :
    (aid : String) (arts : Dict String Artifact) → IsKept arts → IsKept (remove aid arts)
remove-IsKept aid arts h k b e = ground (arith, lookup-remove k aid arts, e, h k b)

create-IsKeyed :
    (fresh : String) (d : Model) (i : Option String) (ctx : Context)
    → IsKeyed ctx
    → IsKeyed (create fresh d i ctx).0
unfolding create create_new new
create-IsKeyed fresh d none ctx h = record {
  keyed =
      insert-IsKept (chosen_id fresh none) (new d (chosen_id fresh none) none) ctx.artifacts refl
        h.keyed;
  log_valid = h.log_valid;
}
create-IsKeyed fresh d (some i) ctx h = elim (Option-cases (lookup i ctx.artifacts)) [
  | inl e ↦
      rw (e, create)
        (record {
          keyed =
              insert-IsKept (chosen_id fresh (some i)) (new d (chosen_id fresh (some i)) none)
                ctx.artifacts refl h.keyed;
          log_valid = h.log_valid;
        })
  | inr (a, e) ↦ rw (e, create) h
]

store_update-IsKeyed :
    (a : Artifact) (aid : String) (d : Model) (ctx : Context)
    → lookup aid ctx.artifacts ≡ some a
    → IsKeyed ctx
    → IsKeyed (mark_stale (dependents_of aid (store_update a aid d ctx)) (store_update a aid d ctx))
store_update-IsKeyed a aid d ctx known h =
    let kept =
      mark_stale_keeps (dependents_of aid (store_update a aid d ctx)) (store_update a aid d ctx) in
    record {
      keyed = rw kept.0 (
          unfold store_update revise in
          insert-IsKept aid (revise a d) ctx.artifacts (h.keyed aid a known) h.keyed);
      log_valid = rw kept.2 (unfold store_update in h.log_valid);
    }

create-log :
    (fresh : String) (d : Model) (i : Option String) (ctx : Context)
    → (create fresh d i ctx).0.log ≡ ctx.log
unfolding create create_new emit
create-log fresh d none ctx = refl
create-log fresh d (some i) ctx = elim (Option-cases (lookup i ctx.artifacts)) [
  | inl e ↦ rw (e, create) refl
  | inr (a, e) ↦ rw (e, create) refl
]

update-log : (aid : String) (d : Model) (ctx : Context) → (update aid d ctx).0.log ≡ ctx.log
unfolding update
update-log aid d ctx = elim (Option-cases (lookup aid ctx.artifacts)) [
  | inl e ↦ rw (e, update) refl
  | inr (a, e) ↦
      rw (e, update)
        (elim (Bool-cases (a.data_ == d)) [
          | inl same ↦ rw same refl
          | inr moved ↦
              let kept =
                mark_stale_keeps (dependents_of aid (store_update a aid d ctx))
                  (store_update a aid d ctx) in
              rw moved (kept.2 ∙ unfold store_update emit in refl)
        ])
]

delete-log : (aid : String) (ctx : Context) → (delete aid ctx).0.log ≡ ctx.log
unfolding delete
delete-log aid ctx = elim (Option-cases (lookup aid ctx.artifacts)) [
  | inl e ↦ rw (e, delete) refl
  | inr (a, e) ↦ rw (e, delete) refl
]

pub create-IsSound :
    (fresh : String) (d : Model) (i : Option String) (ctx : Context)
    → lookup fresh ctx.artifacts ≡ none
    → IsSound ctx
    → IsSound (create fresh d i ctx).0
create-IsSound fresh d i ctx free h = record {
  indexed = create-IsIndexed fresh d i ctx free h.indexed;
  keyed = create-IsKeyed fresh d i ctx h.keyed;
  based = rw (create-log fresh d i ctx) h.based;
}

pub update-IsSound :
    (aid : String) (d : Model) (ctx : Context) → IsSound ctx → IsSound (update aid d ctx).0
unfolding update
update-IsSound aid d ctx h = record {
  indexed = update-IsIndexed aid d ctx h.indexed;
  based = rw (update-log aid d ctx) h.based;
  keyed = elim (Option-cases (lookup aid ctx.artifacts)) [
    | inl e ↦ rw (e, update) h.keyed
    | inr (a, e) ↦
        rw (e, update)
          (elim (Bool-cases (a.data_ == d)) [
            | inl same ↦ rw same h.keyed
            | inr moved ↦ rw moved (store_update-IsKeyed a aid d ctx e h.keyed)
          ])
  ];
}

pub delete-IsSound : (aid : String) (ctx : Context) → IsSound ctx → IsSound (delete aid ctx).0
unfolding delete
delete-IsSound aid ctx h = record {
  indexed = delete-IsIndexed aid ctx h.indexed;
  based = rw (delete-log aid ctx) h.based;
  keyed = elim (Option-cases (lookup aid ctx.artifacts)) [
    | inl e ↦ rw (e, delete) h.keyed
    | inr (a, e) ↦
        rw (e, delete)
          (record {
            keyed = remove-IsKept aid ctx.artifacts h.keyed.keyed;
            log_valid = h.keyed.log_valid;
          })
  ];
}

-- What answers a question or revises an action is an update, or nothing.
pub resume-IsSound :
    (now : ℕ) (qid answer : String) (ctx : Context)
    → IsSound ctx
    → IsSound (resume now qid answer ctx).0
unfolding resume
resume-IsSound now qid answer ctx h = elim (Option-cases (lookup qid ctx.artifacts)) [
  | inl e ↦ rw (e, resume) h
  | inr (a, e) ↦ rw (e, resume) (go a.data_)
]
  where
    go :
        (d : Model)
        → IsSound
            (elim d as (λ x. Context × Option Artifact) [
              | question q ↦
                  update qid
                    (question (record q {
                      answered = true;
                      resolution = some answer;
                      resolved_at = some now;
                    }))
                    ctx
              | _ ↦ (ctx, none)
            ]).0
    go (question q) = update-IsSound qid _ ctx h
    go (action x) = h
    go (plain c fields) = h

pub revise_action-IsSound :
    (f : PendingAction → PendingAction) (aid : String) (ctx : Context)
    → IsSound ctx
    → IsSound (revise_action f aid ctx).0
unfolding revise_action
revise_action-IsSound f aid ctx h = elim (Option-cases (lookup aid ctx.artifacts)) [
  | inl e ↦ rw (e, revise_action) h
  | inr (a, e) ↦ rw (e, revise_action) (go a.data_)
]
  where
    go :
        (d : Model)
        → IsSound
            (elim d as (λ x. Context × Option Artifact) [
              | action x ↦ update aid (action (f x)) ctx
              | _ ↦ (ctx, none)
            ]).0
    go (action x) = update-IsSound aid (action (f x)) ctx h
    go (question q) = h
    go (plain c fields) = h

-- The same artifact but for its commit.
pub credited-IsSound :
    (cid : String) (a : Artifact) (ctx : Context)
    → lookup a.id ctx.artifacts ≡ some a
    → IsSound ctx
    → IsSound (record ctx {
      artifacts = insert a.id (record a { created_by_commit = some cid }) ctx.artifacts;
    })
credited-IsSound cid a ctx live h = record {
  indexed = record {
    artifacts_distinct = insert-IsDistinct a.id _ ctx.artifacts h.indexed.artifacts_distinct;
    types_distinct = h.indexed.types_distinct;
    typed = λ c aid. ground (
      arith,
      lookup-insert aid a.id (record a { created_by_commit = some cid }) ctx.artifacts,
      h.indexed.typed c aid,
      eq_iff a.id aid,
      live,
    );
  };
  keyed = record {
    keyed =
        insert-IsKept a.id (record a { created_by_commit = some cid }) ctx.artifacts refl
          h.keyed.keyed;
    log_valid = h.keyed.log_valid;
  };
  based = h.based;
}
