-- ===== src/Context/Store.antt =====
-- `create`, `get`, `update` and `delete`.
use reactifact.Prelude.{
  String, Bool, true, false, Option, none, some, List, [], ◌∷◌, ◌==◌, if◌then◌else◌, string_eq,
}
use reactifact.Prelude.Dict.{Dict, lookup, insert, remove}
use reactifact.Prelude.Sets.{add, discard}
use reactifact.Model.{Model, Class, class_of, class_eq, model_eq}
use reactifact.Artifact.{Artifact, new, revise}
use reactifact.Context.State.{
  Context, emit, add_typed, discard_typed, dependents_of, artifact_created, artifact_updated,
  artifact_deleted, artifact_stale,
}

-- `self.id = id or str(uuid.uuid4())`; `fresh` is the id that the factory or `uuid4` gives.
unfoldable pub chosen_id : String → Option String → String
chosen_id fresh none = fresh
chosen_id fresh (some i) = if i == "" then fresh else i

-- The part of `create` that is reached when no artifact has the id.
unfoldable pub create_new : String → Model → Option String → Context → Context × Artifact
unfolding chosen_id new emit add_typed class_of
create_new fresh d i ctx =
    let a = new d (chosen_id fresh i) none in
    (
      emit artifact_created (class_of d) a.id (record ctx {
        artifacts = insert a.id a ctx.artifacts;
        by_type = add_typed (class_of d) a.id ctx.by_type;
      }),
      a,
    )

unfoldable pub create : String → Model → Option String → Context → Context × Artifact
unfolding create_new
create fresh d none ctx = create_new fresh d none ctx
create fresh d (some i) ctx = elim (lookup i ctx.artifacts) [
  | none ↦ create_new fresh d (some i) ctx
  | some existing ↦ (ctx, existing)
]

unfoldable pub get : String → Context → Option Artifact
get aid ctx = lookup aid ctx.artifacts

-- The loop of `update` over the dependents.
unfoldable pub mark_stale : List Artifact → Context → Context
unfolding emit class_of
mark_stale [] ctx = ctx
mark_stale (a ∷ as') ctx =
    mark_stale as'
      (emit artifact_stale (class_of a.data_) a.id (record ctx { stale = add a.id ctx.stale }))

-- The move in `_by_type` when the class of the data changes.
unfoldable pub retype : String → Class → Class → Dict Class (List String) → Dict Class (List String)
unfolding add_typed discard_typed
retype aid old new' bt = if old == new' then bt else add_typed new' aid (discard_typed old aid bt)

-- `update` on an artifact whose data changes, before the dependents are marked.
unfoldable pub store_update : Artifact → String → Model → Context → Context
unfolding emit retype revise class_of
store_update a aid d ctx = emit artifact_updated (class_of d) a.id (record ctx {
  artifacts = insert aid (revise a d) ctx.artifacts;
  by_type = retype aid (class_of a.data_) (class_of d) ctx.by_type;
})

unfoldable pub update : String → Model → Context → Context × Option Artifact
unfolding store_update mark_stale dependents_of revise
update aid d ctx = elim (lookup aid ctx.artifacts) [
  | none ↦ (ctx, none)
  | some a ↦
      if a.data_ == d
      then (ctx, some a)
      else let ctx' = store_update a aid d ctx in
        (mark_stale (dependents_of aid ctx') ctx', some (revise a d))
]

unfoldable pub delete : String → Context → Context × Bool
unfolding emit discard_typed class_of
delete aid ctx = elim (lookup aid ctx.artifacts) [
  | none ↦ (ctx, false)
  | some a ↦ (
    emit artifact_deleted (class_of a.data_) a.id (record ctx {
      artifacts = remove aid ctx.artifacts;
      stale = discard aid ctx.stale;
      by_type = discard_typed (class_of a.data_) aid ctx.by_type;
    }),
    true,
  )
]
