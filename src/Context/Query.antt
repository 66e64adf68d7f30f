-- ===== src/Context/Query.antt =====
-- The reads of a context: by type, and along relations. `issubclass` is a parameter.
use reactifact.Prelude.{
  ℕ, String, Bool, true, false, not, Option, none, some, List, [], ◌∷◌, ◌||◌, if◌then◌else◌,
  string_eq, keep_if, take,
}
use reactifact.Prelude.Dict.{Dict, lookup, values, has}
use reactifact.Prelude.Sets.{add, contains, union}
use reactifact.Model.{Class, class_of, class_eq}
use reactifact.Artifact.{Artifact}
use reactifact.Operations.{Relation}
use reactifact.RelationGraph
use reactifact.Context.State.{Context}

-- The ids of every type in the index that is a subclass.
unfoldable pub matching_ids :
    (Class → Class → Bool) → Class → Dict Class (List String) → List String
matching_ids issubclass c [] = []
matching_ids issubclass c ((t, ids) ∷ bt) =
    let rest = matching_ids issubclass c bt in if issubclass t c then union ids rest else rest

unfoldable pub select_ids : List String → Dict String Artifact → List Artifact
select_ids ids [] = []
select_ids ids ((aid, a) ∷ d) =
    let rest = select_ids ids d in if contains aid ids then a ∷ rest else rest

unfoldable pub list_artifacts : (Class → Class → Bool) → Option Class → Context → List Artifact
unfolding matching_ids select_ids
list_artifacts issubclass none ctx = values ctx.artifacts
list_artifacts issubclass (some c) ctx =
    select_ids (matching_ids issubclass c ctx.by_type) ctx.artifacts

-- `view`: by type, by condition and by number, each if it is given.
unfoldable pub view :
    (Class → Class → Bool)
    → Option Class
    → Option (Artifact → Bool)
    → Option ℕ
    → Context
    → List Artifact
unfolding class_of
view issubclass c condition limit ctx =
    let typed = elim c as (λ _. List Artifact) [
      | none ↦ values ctx.artifacts
      | some t ↦ keep_if (λ a. issubclass (class_of a.data_) t) (values ctx.artifacts)
    ] in
    let kept = elim condition as (λ _. List Artifact) [ none ↦ typed | some p ↦ keep_if p typed ] in
    elim limit [ none ↦ kept | some n ↦ take n kept ]

unfoldable pub incoming : String → Option String → Context → List Relation
unfolding RelationGraph.relations
incoming target relation ctx = RelationGraph.relations none relation (some target) ctx.relations

-- The loop of `related`, with the ids seen so far.
unfoldable pub targets : List String → List Relation → Context → List Artifact
targets seen [] ctx = []
targets seen (r ∷ rs) ctx = elim (lookup r.target_id ctx.artifacts) [
  | none ↦ targets seen rs ctx
  | some a ↦ elim (contains r.target_id seen) [
    | true ↦ targets seen rs ctx
    | false ↦ a ∷ targets (add r.target_id seen) rs ctx
  ]
]

unfoldable pub related : String → Option String → Context → List Artifact
unfolding targets RelationGraph.relations
related source relation ctx =
    targets [] (RelationGraph.relations (some source) relation none ctx.relations) ctx

unfoldable pub dangling_relations : Context → List Relation
dangling_relations ctx =
    keep_if (λ r. not (has r.source_id ctx.artifacts) || not (has r.target_id ctx.artifacts))
      ctx.relations
