-- ===== src/Branching/Adopt.antt =====
-- `merge_context_from` of reactifact/branching.py: the two-way merge, which takes what is newer or
-- absent and detects no conflict.
use reactifact.Prelude.{String, none, some, List, [], ◌∷◌, ◌++◌, ltb, if◌then◌else◌, string_eq}
use reactifact.Prelude.Dict.{lookup, values}
use reactifact.Artifact.{Artifact}
use reactifact.Operations.{Operation, create, update}
use reactifact.Context.{Context, log_commit}
use reactifact.Context
use reactifact.Branching.{adopt_links, merge_commit}

pub record Adopted : Type 0 where
  pub context : Context
  pub operations : List Operation

-- One artifact of the other side. An id is given, so no new one is made, but for the empty id.
unfoldable pub adopt_one : String → Artifact → Adopted → Adopted
unfolding Context.update Context.create
adopt_one fresh a done = elim (lookup a.id done.context.artifacts) [
  | some current ↦
      if ltb current.version a.version
      then record {
        context = (Context.update a.id a.data_ done.context).0;
        operations = done.operations ++ update a.id a.data_ ∷ [];
      }
      else done
  | none ↦ record {
    context = (Context.create fresh a.data_ (some a.id) done.context).0;
    operations = done.operations ++ create a.data_ none (some a.id) ∷ [];
  }
]

unfoldable pub adopt_all : String → List Artifact → Adopted → Adopted
unfolding adopt_one
adopt_all fresh [] done = done
adopt_all fresh (a ∷ as') done = adopt_all fresh as' (adopt_one fresh a done)

-- The commit is made only if something was adopted.
unfoldable pub merge_context_from : String → String → Context → Context → Context
unfolding adopt_all adopt_links merge_commit log_commit
merge_context_from cid fresh target other =
    let done =
      adopt_all fresh (values other.artifacts) (record { context = target; operations = [] }) in
    let (g, links) = adopt_links [] other.relations done.context.relations in
    let merged : Context = record done.context { relations = g } in
    elim (done.operations ++ links) [
      | [] ↦ merged
      | op ∷ ops ↦ log_commit (merge_commit cid "Merged Context" (op ∷ ops)) merged
    ]
