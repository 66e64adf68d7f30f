-- ===== src/RelationGraph.antt =====
-- reactifact/relations.py. The dict `_edges` maps the three parts of an edge to the edge that they
-- make up, so it is the set of its edges in the order in which they were first set.
pub mod Laws
use reactifact.Prelude.{
  ℕ, ◌+◌, String, Bool, true, false, Option, none, some, List, [], ◌∷◌, ◌==◌, ◌&&◌, not, string_eq,
  if◌then◌else◌,
}
use reactifact.Prelude.Sets.{add, contains, discard}
use reactifact.Operations.{Relation, relation_eq}

abbrev pub Graph : Type 0
Graph = List Relation

-- A component of a pattern; `None` means any.
abbrev pub fits : Option String → String → Bool
fits none s = true
fits (some p) s = s == p

-- What a pattern of `unlink` takes away.
unfoldable pub unlinks : String → Option String → Option String → Relation → Bool
unlinks source relation target r =
    (r.source_id == source) && (fits relation r.relation && fits target r.target_id)

unfoldable pub link : String → String → String → Graph → Graph
link source relation target g =
    add (record { source_id = source; relation = relation; target_id = target }) g

-- `unlink`: the keys are collected first, then tested one by one, and deleted.
unfoldable pub unlink : String → Option String → Option String → Graph → Graph × ℕ
unfolding unlinks
unlink source relation target [] = ([], 0)
unlink source relation target (r ∷ g) =
    let (rest, removed) = unlink source relation target g in
    if unlinks source relation target r then (rest, removed + 1) else (r ∷ rest, removed)

-- The filter of `relations`: each component counts if it is given.
unfoldable pub selects : Option String → Option String → Option String → Relation → Bool
selects source relation target r =
    fits source r.source_id && (fits relation r.relation && fits target r.target_id)

unfoldable pub relations : Option String → Option String → Option String → Graph → List Relation
unfolding selects
relations source relation target [] = []
relations source relation target (r ∷ g) =
    let rest = relations source relation target g in
    if selects source relation target r then r ∷ rest else rest
