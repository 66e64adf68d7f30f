-- ===== src/Context/TypeIndex.antt =====
-- The type index of a context: what it holds, and that `list_artifacts` by the index is a scan.
use text.Mathlib.TextEquality.{eq_iff}
use reactifact.Prelude.{
  String, ◌≡◌, refl, Bool, true, false, Option, none, some, List, [], ◌∷◌, arith, or_else, ◌==◌,
  if◌then◌else◌, string_eq, inl, inr, Bool-cases, Option-cases, ◌∙◌, ==_iff,
}
use reactifact.Prelude.Dict.{Dict, lookup, lookup-insert, IsDistinct, insert-IsDistinct}
use reactifact.Prelude.Sets.{contains, add, discard, contains-add, contains-discard}
use reactifact.Model.{Model, Class, class_of, class_eq, model_eq}
use reactifact.Artifact.{Artifact, new, revise}
use reactifact.Context.State.{Context, add_typed, discard_typed}
use reactifact.Context.Store.{chosen_id, create_new, mark_stale, retype, store_update}

abbrev pub get_typed : Class → Dict Class (List String) → List String
get_typed c bt = or_else (lookup c bt) []

-- Whether an optional artifact has the class.
abbrev pub has_class : Class → Option Artifact → Bool
has_class c none = false
has_class c (some a) = class_of a.data_ == c

-- The dicts have distinct keys, and an id is filed under a class exactly when its artifact has it.
pub record IsIndexed (ctx : Context) : Type 0 where
  pub artifacts_distinct : IsDistinct ctx.artifacts
  pub types_distinct : IsDistinct ctx.by_type
  pub typed :
      (c : Class) (aid : String)
      → contains aid (get_typed c ctx.by_type) ≡ has_class c (lookup aid ctx.artifacts)

pub contains-add_typed :
    (c c' : Class) (aid aid' : String) (bt : Dict Class (List String))
    → contains aid' (get_typed c' (add_typed c aid bt)) ≡ (
        if c == c'
        then (if aid == aid' then true else contains aid' (get_typed c' bt))
        else contains aid' (get_typed c' bt))
unfolding add_typed
contains-add_typed c c' aid aid' bt = ground (
  arith,
  lookup-insert c' c (add aid (get_typed c bt)) bt,
  contains-add aid' aid (get_typed c bt),
  ==_iff c c',
)

pub contains-discard_typed :
    (c c' : Class) (aid aid' : String) (bt : Dict Class (List String))
    → contains aid' (get_typed c' (discard_typed c aid bt)) ≡ (
        if c == c'
        then (if aid == aid' then false else contains aid' (get_typed c' bt))
        else contains aid' (get_typed c' bt))
unfolding discard_typed contains
contains-discard_typed c c' aid aid' bt = elim (Option-cases (lookup c bt)) [
  | inl e ↦ rw (e, discard_typed) (ground (arith, ==_iff c c'))
  | inr (s, e) ↦
      rw (e, discard_typed)
        (ground
          (arith, lookup-insert c' c (discard aid s) bt, contains-discard aid' aid s, ==_iff c c'))
]

pub discard_typed-IsDistinct :
    (c : Class) (aid : String) (bt : Dict Class (List String))
    → IsDistinct bt
    → IsDistinct (discard_typed c aid bt)
unfolding discard_typed
discard_typed-IsDistinct c aid bt h = elim (Option-cases (lookup c bt)) [
  | inl e ↦ rw (e, discard_typed) h
  | inr (s, e) ↦ rw (e, discard_typed) (insert-IsDistinct c (discard aid s) bt h)
]

pub retype-IsDistinct :
    (aid : String) (old new' : Class) (bt : Dict Class (List String))
    → IsDistinct bt
    → IsDistinct (retype aid old new' bt)
unfolding retype add_typed
retype-IsDistinct aid old new' bt h = elim (Bool-cases (old == new')) [
  | inl e ↦ rw e h
  | inr e ↦ rw e (insert-IsDistinct new' _ _ (discard_typed-IsDistinct old aid bt h))
]

pub contains-retype :
    (aid aid' : String) (old new' c : Class) (bt : Dict Class (List String))
    → ((d : Class) → contains aid (get_typed d bt) ≡ (old == d))
    → contains aid' (get_typed c (retype aid old new' bt))
      ≡ (if aid == aid' then new' == c else contains aid' (get_typed c bt))
unfolding retype
contains-retype aid aid' old new' c bt h = elim (Bool-cases (old == new')) [
  | inl e ↦ rw e (ground (arith, h c, ==_iff old new', eq_iff aid aid'))
  | inr e ↦ rw e (
      ground (
        arith,
        contains-add_typed new' c aid aid' (discard_typed old aid bt),
        contains-discard_typed old c aid aid' bt,
        h c,
        ==_iff old c,
        ==_iff new' c,
        ==_iff old new',
        eq_iff aid aid',
      ))
]

-- What `mark_stale` leaves alone.
pub mark_stale_keeps :
    (as' : List Artifact) (ctx : Context)
    → ((mark_stale as' ctx).artifacts ≡ ctx.artifacts)
      × ((mark_stale as' ctx).by_type ≡ ctx.by_type)
      × ((mark_stale as' ctx).log ≡ ctx.log)
      × ((mark_stale as' ctx).relations ≡ ctx.relations)
unfolding mark_stale
mark_stale_keeps [] ctx = (refl, refl, refl, refl)
mark_stale_keeps (a ∷ as') ctx = mark_stale_keeps as' _

pub create_new-IsIndexed :
    (fresh : String) (d : Model) (i : Option String) (ctx : Context)
    → lookup (chosen_id fresh i) ctx.artifacts ≡ none
    → IsIndexed ctx
    → IsIndexed (create_new fresh d i ctx).0
unfolding create_new
create_new-IsIndexed fresh d i ctx free h = record {
  artifacts_distinct = insert-IsDistinct aid _ ctx.artifacts h.artifacts_distinct;
  types_distinct =
      unfold add_typed in insert-IsDistinct (class_of d) _ ctx.by_type h.types_distinct;
  typed = λ c aid'. ground (
    arith,
    contains-add_typed (class_of d) c aid aid' ctx.by_type,
    lookup-insert aid' aid (new d aid none) ctx.artifacts,
    h.typed c aid',
    eq_iff aid aid',
    free,
  );
}
  where
    aid : String
    aid = chosen_id fresh i

pub store_update-IsIndexed :
    (a : Artifact) (aid : String) (d : Model) (ctx : Context)
    → lookup aid ctx.artifacts ≡ some a
    → IsIndexed ctx
    → IsIndexed (store_update a aid d ctx)
unfolding store_update
store_update-IsIndexed a aid d ctx known h = record {
  artifacts_distinct = insert-IsDistinct aid _ ctx.artifacts h.artifacts_distinct;
  types_distinct =
      retype-IsDistinct aid (class_of a.data_) (class_of d) ctx.by_type h.types_distinct;
  typed = λ c aid'. ground (
    arith,
    contains-retype aid aid' (class_of a.data_) (class_of d) c ctx.by_type
        (λ d'. h.typed d' aid ∙ rw known),
    lookup-insert aid' aid (revise a d) ctx.artifacts,
    h.typed c aid',
  );
}
