-- ===== src/Context/Listing.antt =====
-- `list_artifacts` by the type index is a scan of the artifacts, and every operation keeps the
-- index in order.
use text.Mathlib.TextEquality.{eq_iff}
use reactifact.Prelude.{
  String, ◌≡◌, refl, Bool, true, Option, none, some, List, [], ◌∷◌, arith, ◌==◌, string_eq, keep_if,
  inl, inr, Bool-cases, Option-cases, ==_refl, ==_iff,
}
use reactifact.Prelude.Dict.{Dict, lookup, values, lookup-remove, IsDistinct, remove-IsDistinct}
use reactifact.Prelude.Sets.{contains, contains-union}
use reactifact.Model.{Model, Class, class_of, class_eq, model_eq}
use reactifact.Artifact.{Artifact}
use reactifact.Context.State.{Context, dependents_of}
use reactifact.Context.Store.{chosen_id, create, mark_stale, store_update, update, delete}
use reactifact.Context.Query.{matching_ids, select_ids, list_artifacts}
use reactifact.Context.TypeIndex.{
  get_typed, IsIndexed, mark_stale_keeps, create_new-IsIndexed, store_update-IsIndexed,
  discard_typed-IsDistinct, contains-discard_typed,
}

-- Creating an artifact keeps the type index in order, if no artifact has the fresh id, which is
-- taken when the caller gives none.
pub create-IsIndexed :
    (fresh : String) (d : Model) (i : Option String) (ctx : Context)
    → lookup fresh ctx.artifacts ≡ none
    → IsIndexed ctx
    → IsIndexed (create fresh d i ctx).0
unfolding create
create-IsIndexed fresh d none ctx free h =
    create_new-IsIndexed fresh d none ctx (unfold chosen_id in free) h
create-IsIndexed fresh d (some i) ctx free h = elim (Option-cases (lookup i ctx.artifacts)) [
  | inl e ↦
      rw (e, create)
        (create_new-IsIndexed fresh d (some i) ctx (unfold chosen_id in ground (arith, e, free)) h)
  | inr (a, e) ↦ rw (e, create) h
]

-- Updating an artifact keeps the type index in order, whether or not the class of the data changes
-- and also when no artifact has the id.
pub update-IsIndexed :
    (aid : String) (d : Model) (ctx : Context) → IsIndexed ctx → IsIndexed (update aid d ctx).0
unfolding update
update-IsIndexed aid d ctx h = elim (Option-cases (lookup aid ctx.artifacts)) [
  | inl e ↦ rw (e, update) h
  | inr (a, e) ↦
      rw (e, update)
        (elim (Bool-cases (a.data_ == d)) [
          | inl same ↦ rw same h
          | inr moved ↦ rw moved (marked a (store_update-IsIndexed a aid d ctx e h))
        ])
]
  where
    marked :
        (a : Artifact)
        → IsIndexed (store_update a aid d ctx)
        → IsIndexed
            (mark_stale (dependents_of aid (store_update a aid d ctx)) (store_update a aid d ctx))
    marked a k =
        let kept =
          mark_stale_keeps (dependents_of aid (store_update a aid d ctx))
            (store_update a aid d ctx) in
        record {
          artifacts_distinct = rw kept.0 k.artifacts_distinct;
          types_distinct = rw kept.1 k.types_distinct;
          typed = λ c aid'. rw (kept.1, kept.0) (k.typed c aid');
        }

-- Deleting an artifact keeps the type index in order, also when no artifact has the id.
pub delete-IsIndexed : (aid : String) (ctx : Context) → IsIndexed ctx → IsIndexed (delete aid ctx).0
unfolding delete
delete-IsIndexed aid ctx h = elim (Option-cases (lookup aid ctx.artifacts)) [
  | inl e ↦ rw (e, delete) h
  | inr (a, e) ↦
      rw (e, delete)
        (record {
          artifacts_distinct = remove-IsDistinct aid ctx.artifacts h.artifacts_distinct;
          types_distinct =
              discard_typed-IsDistinct (class_of a.data_) aid ctx.by_type h.types_distinct;
          typed = λ c aid'. ground (
            arith,
            contains-discard_typed (class_of a.data_) c aid aid' ctx.by_type,
            lookup-remove aid' aid ctx.artifacts,
            h.typed c aid',
            h.typed c aid,
            eq_iff aid aid',
            e,
            ==_iff (class_of a.data_) c,
          );
        })
]

module _ (issubclass : Class → Class → Bool) (c : Class) (aid : String) where
  matching_from :
      (bt : Dict Class (List String))
      → IsDistinct bt
      → contains aid (matching_ids issubclass c bt) ≡ true
      → (t : Class) × (issubclass t c ≡ true) × (contains aid (get_typed t bt) ≡ true)
  unfolding matching_ids contains lookup
  matching_from [] h e = cc
  matching_from ((t, ids) ∷ bt) h e = elim (Bool-cases (contains aid ids)) [
    | inl here ↦ elim (Bool-cases (issubclass t c)) [
      | inl sub ↦ (t, sub, ground (arith, ==_iff t t, here))
      | inr other ↦ later (matching_from bt h.1 (ground (arith, other)))
    ]
    | inr away ↦ later (
        matching_from bt h.1
          (ground (arith, contains-union aid ids (matching_ids issubclass c bt))))
  ]
    where
      later :
          (t' : Class) × (issubclass t' c ≡ true) × (contains aid (get_typed t' bt) ≡ true)
          → (u : Class) × (issubclass u c ≡ true)
            × (contains aid (get_typed u ((t, ids) ∷ bt)) ≡ true)
      later (u, sub, found) = (u, sub, ground (arith, found, ==_iff t u, h.0))

  matching_to :
      (bt : Dict Class (List String)) (t : Class)
      → issubclass t c ≡ true
      → contains aid (get_typed t bt) ≡ true
      → contains aid (matching_ids issubclass c bt) ≡ true
  unfolding matching_ids contains lookup
  matching_to [] t sub e = cc
  matching_to ((u, ids) ∷ bt) t sub e = ground (
    arith,
    matching_to bt t sub,
    contains-union aid ids (matching_ids issubclass c bt),
    ==_iff u t,
  )

-- The scan: an artifact's own class decides.
abbrev pub is_instance : (Class → Class → Bool) → Class → Artifact → Bool
is_instance issubclass c a = issubclass (class_of a.data_) c

module _ (issubclass : Class → Class → Bool) (c : Class) (ctx : Context) (h : IsIndexed ctx) where
  matching-is_instance :
      (aid : String) (a : Artifact)
      → lookup aid ctx.artifacts ≡ some a
      → contains aid (matching_ids issubclass c ctx.by_type) ≡ is_instance issubclass c a
  matching-is_instance aid a e =
      elim (Bool-cases (contains aid (matching_ids issubclass c ctx.by_type))) [
        | inl m ↦
            let (t, sub, found) = matching_from issubclass c aid ctx.by_type h.types_distinct m in
            ground (arith, h.typed t aid, ==_iff (class_of a.data_) t, m, sub, found, e)
        | inr n ↦ ground (
          arith,
          n,
          h.typed (class_of a.data_) aid,
          ==_refl (class_of a.data_),
          matching_to issubclass c aid ctx.by_type (class_of a.data_),
          e,
        )
      ]

  select_ids-scan :
      (d : Dict String Artifact)
      → IsDistinct d
      → ((aid : String) (a : Artifact) → lookup aid d ≡ some a → lookup aid ctx.artifacts ≡ some a)
      → select_ids (matching_ids issubclass c ctx.by_type) d
        ≡ keep_if (is_instance issubclass c) (values d)
  unfolding select_ids lookup
  select_ids-scan [] distinct within = refl
  select_ids-scan ((aid, a) ∷ d) distinct within = ground (
    arith,
    matching-is_instance aid a (within aid a (ground (arith, ==_refl aid))),
    select_ids-scan d distinct.1
        (λ aid' a' e. within aid' a' (ground (arith, e, eq_iff aid aid', distinct.0))),
  )

  -- In a context whose type index is in order, listing by a type through the index gives exactly
  -- the artifacts whose own class is a subclass of it, in the order of the store.
  pub list_artifacts_scan :
      list_artifacts issubclass (some c) ctx
      ≡ keep_if (is_instance issubclass c) (values ctx.artifacts)
  unfolding list_artifacts
  list_artifacts_scan = select_ids-scan ctx.artifacts h.artifacts_distinct (λ aid a e. e)
