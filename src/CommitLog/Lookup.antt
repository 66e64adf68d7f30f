-- ===== src/CommitLog/Lookup.antt =====
-- The two indices of the commit log agree with a scan of its commits.
use text.Mathlib.TextEquality.{eq_iff}
use mathlib.Core.Option
use reactifact.Prelude.{
  String, ◌≡◌, refl, true, false, ◌&&◌, Option, none, some, List, [], ◌∷◌, arith, or_else,
  if◌then◌else◌, string_eq, ◌==◌, Option-cases, inl, inr,
}
use reactifact.Prelude.Dict.{Dict, lookup, lookup-insert, lookup-remove}
use reactifact.Prelude.Sets.{contains, add, discard, contains-add, contains-discard}
use reactifact.Commit.{Commit, Write, sources}
use reactifact.CommitLog.Index.{
  Index, no_index, store_set, drop_edge, drop_edges, add_edge, add_edges, index_write, index_writes,
  index_commit, index_commits, rebuild_indices,
}

abbrev pub get_set : String → Dict String (List String) → List String
get_set s deps = or_else (lookup s deps) []

get_set-store_set :
    (s src : String) (st : List String) (deps : Dict String (List String))
    → get_set s (store_set src st deps) ≡ (if src == s then st else get_set s deps)
unfolding store_set
get_set-store_set s src [] deps = ground (arith, lookup-remove s src deps)
get_set-store_set s src (x ∷ st) deps = ground (arith, lookup-insert s src (x ∷ st) deps)

contains-drop_edge :
    (a aid s src : String) (deps : Dict String (List String))
    → contains a (get_set s (drop_edge aid src deps))
      ≡ (if (src == s) && (aid == a) then false else contains a (get_set s deps))
unfolding drop_edge contains
contains-drop_edge a aid s src deps = elim (Option-cases (lookup src deps)) [
  | inl e ↦ rw (e, drop_edge) (ground (arith, eq_iff src s))
  | inr (st, e) ↦ ground (
    arith,
    get_set-store_set s src (discard aid st) deps,
    contains-discard a aid st,
    eq_iff src s,
  )
]

contains-drop_edges :
    (a aid s : String) (olds : List String) (deps : Dict String (List String))
    → contains a (get_set s (drop_edges aid olds deps))
      ≡ (if contains s olds && (aid == a) then false else contains a (get_set s deps))
unfolding drop_edges contains
contains-drop_edges a aid s [] deps = refl
contains-drop_edges a aid s (src ∷ olds) deps = ground (
  arith,
  contains-drop_edges a aid s olds (drop_edge aid src deps),
  contains-drop_edge a aid s src deps,
)

contains-add_edge :
    (a aid s src : String) (deps : Dict String (List String))
    → contains a (get_set s (add_edge aid src deps))
      ≡ (if (src == s) && (aid == a) then true else contains a (get_set s deps))
unfolding add_edge
contains-add_edge a aid s src deps = ground (
  arith,
  lookup-insert s src (add aid (get_set src deps)) deps,
  contains-add a aid (get_set src deps),
  eq_iff src s,
)

contains-add_edges :
    (a aid s : String) (news : List String) (deps : Dict String (List String))
    → contains a (get_set s (add_edges aid news deps))
      ≡ (if contains s news && (aid == a) then true else contains a (get_set s deps))
unfolding add_edges contains
contains-add_edges a aid s [] deps = refl
contains-add_edges a aid s (src ∷ news) deps = ground (
  arith,
  contains-add_edges a aid s news (add_edge aid src deps),
  contains-add_edge a aid s src deps,
)

-- `dependents` is `producing_read_ids` the other way round, and that holds the sources of the
-- producing commits.
pub record IsConsistent (ix : Index) : Type 0 where
  pub edges :
      (a s : String)
      → contains a (get_set s ix.dependents) ≡ contains s (get_set a ix.producing_read_ids)
  pub sourced :
      (a : String)
      → lookup a ix.producing_read_ids ≡ Option.map sources (lookup a ix.last_write_commit)

index_write-IsConsistent :
    (c : Commit) (aid : String) (ix : Index) → IsConsistent ix → IsConsistent (index_write c aid ix)
unfolding index_write
index_write-IsConsistent c aid ix h = record {
  edges = λ a s. ground (
    arith,
    contains-add_edges a aid s (sources c)
        (drop_edges aid (get_set aid ix.producing_read_ids) ix.dependents),
    contains-drop_edges a aid s (get_set aid ix.producing_read_ids) ix.dependents,
    lookup-insert a aid (sources c) ix.producing_read_ids,
    h.edges a s,
    eq_iff aid a,
  );
  sourced = λ a. ground (
    arith,
    lookup-insert a aid (sources c) ix.producing_read_ids,
    lookup-insert a aid c ix.last_write_commit,
    h.sourced a,
  );
}

index_writes-IsConsistent :
    (c : Commit) (ws : List Write) (ix : Index)
    → IsConsistent ix
    → IsConsistent (index_writes c ws ix)
unfolding index_writes
index_writes-IsConsistent c [] ix h = h
index_writes-IsConsistent c (w ∷ ws) ix h =
    index_writes-IsConsistent c ws (index_write c w.artifact_id ix)
      (index_write-IsConsistent c w.artifact_id ix h)

index_commits-IsConsistent :
    (cs : List Commit) (ix : Index) → IsConsistent ix → IsConsistent (index_commits cs ix)
unfolding index_commits
index_commits-IsConsistent [] ix h = h
index_commits-IsConsistent (c ∷ cs) ix h =
    index_commits-IsConsistent cs (index_commit c ix)
      (unfold index_commit in index_writes-IsConsistent c c.writes ix h)

pub rebuild_indices-IsConsistent : (cs : List Commit) → IsConsistent (rebuild_indices cs)
unfolding rebuild_indices lookup contains
rebuild_indices-IsConsistent cs =
    index_commits-IsConsistent cs no_index (record { edges = λ a s. refl; sourced = λ a. refl })

abbrev pub write_ids : List Write → List String
write_ids [] = []
write_ids (w ∷ ws) = w.artifact_id ∷ write_ids ws

-- The scan that the index saves: the last commit that lists a write of the artifact.
pub last_writer : String → List Commit → Option Commit
last_writer aid [] = none
last_writer aid (c ∷ cs) = elim (last_writer aid cs) [
  | some d ↦ some d
  | none ↦ if contains aid (write_ids c.writes) then some c else none
]

pub lookup-index_writes :
    (aid : String) (c : Commit) (ws : List Write) (ix : Index)
    → lookup aid (index_writes c ws ix).last_write_commit
      ≡ (if contains aid (write_ids ws) then some c else lookup aid ix.last_write_commit)
unfolding index_writes contains
lookup-index_writes aid c [] ix = refl
lookup-index_writes aid c (w ∷ ws) ix = ground (
  arith,
  lookup-index_writes aid c ws (index_write c w.artifact_id ix),
  lookup-insert aid w.artifact_id c ix.last_write_commit,
)

lookup-index_commits :
    (aid : String) (cs : List Commit) (ix : Index)
    → lookup aid (index_commits cs ix).last_write_commit
      ≡ (elim (last_writer aid cs) [ some d ↦ some d | none ↦ lookup aid ix.last_write_commit ])
unfolding index_commits last_writer
lookup-index_commits aid [] ix = refl
lookup-index_commits aid (c ∷ cs) ix =
    ground (
      arith,
      lookup-index_commits aid cs (index_commit c ix),
      lookup-index_writes aid c c.writes ix,
    )

-- The rebuilt index names for each artifact the last commit of the list that writes it, if any.
lookup-rebuild_indices :
    (aid : String) (cs : List Commit)
    → lookup aid (rebuild_indices cs).last_write_commit ≡ last_writer aid cs
unfolding rebuild_indices lookup
lookup-rebuild_indices aid cs = ground (arith, lookup-index_commits aid cs no_index)
